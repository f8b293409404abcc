-- ===== src/Sandbox/Termination/Causes.antt =====
-- worker-termination.ts: which cause the callback is told of.
use workflow_engine.Prelude.{
  ℕ, ◌-◌, ◌≡◌, ◌≤◌, refl, ap, true, false, Option, none, some, List, [], ◌∷◌, ◌++◌, map, arith,
  append-nil, append_assoc, ◌∙◌, string_eq,
}
use workflow_engine.Sandbox.Limits.{ErrorShape, Dimension, throw_limit}
use workflow_engine.Sandbox.Termination.{
  Termination, TerminationCause, LimitDim, limit, cpu, Signal, error_event, exit_event, arm, expire,
  step, terminated, on_error, on_exit, dispatch, classify, classify_error, is_sandbox_limit_error,
  arm_cpu_budget, watchdog_fires, cause, Thrown, an_error, error_of,
}
use workflow_engine.Sandbox.Termination.Once.{run, causes}

-- The dimension of a counter, as main names it.
abbrev pub dim_of : Dimension → LimitDim
dim_of Dimension.output = LimitDim.output
dim_of Dimension.pending = LimitDim.pending

-- A sandbox in use: it was not disposed of, has a callback, and nothing was reported yet.
pub record IsWatched (t : Termination) : Type 0 where
  pub alive : t.disposing ≡ false
  pub unfired : t.fired ≡ false
  pub listening : t.has_callback ≡ true

-- The cause that a failing run settles with, read by `cause()`, is the cause that the callback is
-- told of if the worker exits next.
pub cause-on_exit :
    (t : Termination) (c : TerminationCause)
    → IsWatched t
    → cause t ≡ some c
    → (on_exit t).1 ≡ terminated c ∷ []
unfolding cause on_exit dispatch
cause-on_exit t c w h = ground arith

run-append :
    (t : Termination) (xs ys : List Signal)
    → run t (xs ++ ys) ≡ ((run (run t xs).0 ys).0, (run t xs).1 ++ (run (run t xs).0 ys).1)
unfolding run
run-append t [] ys = refl
run-append t (x ∷ xs) ys = rw (run-append (step t x).0 xs ys) (simp append_assoc)

-- The error that is kept after further errors.
abbrev kept : Option ErrorShape → List Thrown → Option ErrorShape
kept e [] = e
kept none (x ∷ xs) = kept (some (error_of x)) xs
kept (some e) (x ∷ xs) = kept (some e) xs

run-errors :
    (t : Termination) (e : Option ErrorShape) (es : List Thrown)
    → run (record t { last_error = e }) (map error_event es)
      ≡ (record t { last_error = kept e es }, [])
unfolding run step on_error
run-errors t e [] = refl
run-errors t none (x ∷ xs) = run-errors t (some (error_of x)) xs
run-errors t (some e) (x ∷ xs) = run-errors t (some e) xs

run-exit : (t : Termination) → run t (exit_event ∷ []) ≡ ((on_exit t).0, (on_exit t).1)
unfolding run step
run-exit t = rw (append-nil (on_exit t).1) refl

classify_throw_limit :
    (dim : Dimension) (observed : Option ℕ)
    → classify_error (some (throw_limit dim observed)) ≡ limit (dim_of dim) observed
unfolding classify_error is_sandbox_limit_error throw_limit
classify_throw_limit Dimension.output observed = refl
classify_throw_limit Dimension.pending observed = refl

errors_then_exit :
    (t : Termination) (e : Option ErrorShape) (es : List Thrown)
    → (run (record t { last_error = e }) (map error_event es ++ exit_event ∷ [])).1
      ≡ (on_exit (record t { last_error = kept e es })).1
errors_then_exit t e es =
    rw (run-append (record t { last_error = e }) (map error_event es) (exit_event ∷ []))
      (rw (run-errors t e es) (rw (run-exit (record t { last_error = kept e es })) refl))

kept_first : (e : ErrorShape) (es : List Thrown) → kept (some e) es ≡ some e
kept_first e [] = refl
kept_first e (x ∷ xs) = kept_first e xs

-- An armed run: errors, the watchdog, more errors, the worker's exit.
abbrev pub overdue : ℕ → ℕ → ℕ → List Thrown → List Thrown → List Signal
overdue ms began ended before after =
    arm ms began ∷ map error_event before
    ++ (expire ended ∷ map error_event after ++ exit_event ∷ [])

-- When the watchdog of a run goes off, the callback is told once that the CPU budget was exceeded,
-- with the time that the run took, whatever errors the worker reports before the watchdog or after
-- it, in a sandbox that is in use, whose snapshot was restored and whose clock does not go back.
pub overdue_cause :
    (t : Termination) (ms began ended : ℕ) (before after : List Thrown)
    → IsWatched t
    → t.restore_failed_err ≡ none
    → began ≤ ended
    → causes (run t (overdue ms began ended before after)).1 ≡ limit cpu (some (ended - began)) ∷ []
unfolding run step arm_cpu_budget watchdog_fires on_exit dispatch classify causes
overdue_cause t ms began ended before after w h order =
    let armed = arm_cpu_budget t ms began in
    let late = record armed { last_error = kept t.last_error before } in
    let expired = (watchdog_fires late ended).0 in
    rw
      (
        run-append armed (map error_event before)
            (expire ended ∷ map error_event after ++ exit_event ∷ []),
        run-errors armed t.last_error before,
      )
      (rw (errors_then_exit expired expired.last_error after) (ground arith))

exit_of_limit :
    (t : Termination) (dim : Dimension) (observed : Option ℕ)
    → IsWatched t
    → t.restore_failed_err ≡ none
    → t.cpu_budget_expired ≡ false
    → causes (on_exit (record t { last_error = some (throw_limit dim observed) })).1
      ≡ limit (dim_of dim) observed ∷ []
unfolding on_exit dispatch classify causes
exit_of_limit t dim observed w h ok = ground (arith, classify_throw_limit dim observed)

-- The error that a limit counter of the worker throws is reported, if it is the first error, as that
-- limit with the observed value, in a sandbox that is in use, whose snapshot was restored and whose
-- watchdog did not go off.
pub throw_limit_cause :
    (t : Termination) (dim : Dimension) (observed : Option ℕ) (later : List Thrown)
    → IsWatched t
    → t.restore_failed_err ≡ none
    → t.cpu_budget_expired ≡ false
    → t.last_error ≡ none
    → causes
        (run t (map error_event (an_error (throw_limit dim observed) ∷ later) ++ exit_event ∷ [])).1
      ≡ limit (dim_of dim) observed ∷ []
unfolding causes
throw_limit_cause t dim observed later w h ok first =
    let err = throw_limit dim observed in
    let known : kept t.last_error (an_error err ∷ later) ≡ some err =
      ap (λ e. kept e (an_error err ∷ later)) first ∙ kept_first err later in
    rw (errors_then_exit t t.last_error (an_error err ∷ later))
      (rw known (exit_of_limit t dim observed w h ok))
