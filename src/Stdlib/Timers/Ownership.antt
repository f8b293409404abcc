-- ===== src/Stdlib/Timers/Ownership.antt =====
-- timers/index.ts: what happens to the functions of the guest that the registry owns.
use workflow_engine.Prelude.{
  ℕ, ◌+◌, ◌≡◌, refl, sym, ap, Option, none, some, List, [], ◌∷◌, ◌++◌, map, ◌==◌, nat_eq, arith,
  inl, inr, Bool-cases, Option-cases,
}
use workflow_engine.Prelude.Counting.{times, times-append}
use workflow_engine.Prelude.Maps.{get, delete, Fresh, set-Fresh}
use workflow_engine.Stdlib.Timers.{
  TimerKind, set_timeout, set_interval, PendingTimer, Pending, Numeric, Effect, start_timer,
  stop_timer, dispose_callable, call_event, request, clear_all_pending, clear_events, fire_call,
  fire_end, schedule, cancel, clear_handler,
}

abbrev pub disposed : List Effect → List ℕ
disposed [] = []
disposed (dispose_callable c ∷ effects) = c ∷ disposed effects
disposed (start_timer k d ∷ effects) = disposed effects
disposed (stop_timer k id ∷ effects) = disposed effects
disposed (call_event k id ∷ effects) = disposed effects
disposed (request k id c ∷ effects) = disposed effects

disposed-append : (es fs : List Effect) → disposed (es ++ fs) ≡ disposed es ++ disposed fs
disposed-append [] fs = refl
disposed-append (dispose_callable c ∷ es) fs = ap (◌∷◌ c) (disposed-append es fs)
disposed-append (start_timer k d ∷ es) fs = disposed-append es fs
disposed-append (stop_timer k id ∷ es) fs = disposed-append es fs
disposed-append (call_event k id ∷ es) fs = disposed-append es fs
disposed-append (request k id c ∷ es) fs = disposed-append es fs

-- A step of a run: a call of the guest, or a timer of Node that fires and whose function does not
-- call the registry while it runs.
pub data Step : Type 0 where
  schedules : TimerKind → ℕ → Numeric → ℕ → Step
  clears : Option ℕ → Step
  fires : ℕ → TimerKind → Step

abbrev fire : ℕ → TimerKind → Pending → Pending × List Effect
fire id kind pending = elim (get id pending) [
  | none ↦ (pending, [])
  | some entry ↦ let r = fire_end id kind entry pending in (r.0, fire_call id kind pending ++ r.1)
]

unfoldable pub step : Step → Pending → Pending × List Effect
step (schedules kind cb delay id) pending = let r = schedule kind cb delay id pending in (r.0, r.2)
step (clears id) pending = clear_handler id pending
step (fires id kind) pending = fire id kind pending

unfoldable pub run : List Step → Pending → Pending × List Effect
run [] pending = (pending, [])
run (s ∷ ss) pending =
    let (next, effects) = step s pending in
    let (last, more) = run ss next in (last, effects ++ more)

-- The functions that were given to `setTimeout` and `setInterval`.
abbrev pub scheduled : List Step → List ℕ
scheduled [] = []
scheduled (schedules kind cb delay id ∷ ss) = cb ∷ scheduled ss
scheduled (clears id ∷ ss) = scheduled ss
scheduled (fires id kind ∷ ss) = scheduled ss

-- Node gives no new timer the id of one that is pending.
abbrev pub IsFresh : List Step → Pending → Type 0
IsFresh [] pending = Unit
IsFresh (schedules kind cb delay id ∷ ss) pending =
    Fresh id pending × IsFresh ss (step (schedules kind cb delay id) pending).0
IsFresh (clears id ∷ ss) pending = IsFresh ss (step (clears id) pending).0
IsFresh (fires id kind ∷ ss) pending = IsFresh ss (step (fires id kind) pending).0

abbrev owned : Pending → List ℕ
owned = map (λ p. p.1.callable)

owned-delete :
    (c id : ℕ) (e : PendingTimer) (pending : Pending)
    → get id pending ≡ some e
    → times c (e.callable ∷ owned (delete id pending)) ≡ times c (owned pending)
owned-delete c id e [] h = absurd (cc)
owned-delete c id e ((j, f) ∷ pending) h = elim (Bool-cases (j == id)) [
  | inl t ↦
      (let same : f ≡ e = (let g = rw t at h in cc g) in
        rw t (ap (λ x. times c (x.callable ∷ owned pending)) (sym same)))
  | inr n ↦ (let rest = owned-delete c id e pending (rw n at h) in rw n (ground arith))
]

owned-append : (xs ys : Pending) → owned (xs ++ ys) ≡ owned xs ++ owned ys
owned-append [] ys = refl
owned-append (x ∷ xs) ys = ap (◌∷◌ x.1.callable) (owned-append xs ys)

disposed-clear_events : (pending : Pending) → disposed (clear_events pending) ≡ owned pending
unfolding clear_events
disposed-clear_events [] = refl
disposed-clear_events ((id, e) ∷ pending) = ap (◌∷◌ e.callable) (disposed-clear_events pending)

-- What a step takes over and gives up: the functions in the registry and those disposed of are
-- those that it had and those that it was given.
abbrev IsBalanced : ℕ → List ℕ → Pending → Pending × List Effect → Type 0
IsBalanced c given pending r =
    times c (disposed r.1) + times c (owned r.0) ≡ times c given + times c (owned pending)

schedule-IsBalanced :
    (c : ℕ) (kind : TimerKind) (cb : ℕ) (delay : Numeric) (id : ℕ) (pending : Pending)
    → Fresh id pending
    → IsBalanced c (cb ∷ []) pending (step (schedules kind cb delay id) pending)
unfolding step schedule
schedule-IsBalanced c kind cb delay id pending fresh =
    let e : PendingTimer = record { node_id = id; kind = kind; callable = cb } in
    let appended = set-Fresh id e pending fresh in
    let parts = owned-append pending ((id, e) ∷ []) in
    let counts = times-append c (owned pending) (cb ∷ []) in
    rw (appended, parts, counts) (ground arith)

cancel-IsBalanced : (c id : ℕ) (pending : Pending) → IsBalanced c [] pending (cancel id pending)
unfolding cancel
cancel-IsBalanced c id pending = elim (Option-cases (get id pending)) [
  | inl e ↦ rw (e, cancel) refl
  | inr (t, e) ↦ (let d = owned-delete c id t pending e in rw (e, cancel) (ground arith))
]

disposed-fire_call :
    (id : ℕ) (kind : TimerKind) (pending : Pending) (es : List Effect)
    → disposed (fire_call id kind pending ++ es) ≡ disposed es
unfolding fire_call
disposed-fire_call id kind pending es = elim (Option-cases (get id pending)) [
  | inl e ↦ rw (e, fire_call) refl
  | inr (t, e) ↦ rw (e, fire_call) refl
]

fire-IsBalanced :
    (c id : ℕ) (kind : TimerKind) (pending : Pending)
    → IsBalanced c [] pending (fire id kind pending)
unfolding fire_call fire_end
fire-IsBalanced c id set_timeout pending = elim (Option-cases (get id pending)) [
  | inl e ↦ rw (e, fire) refl
  | inr (t, e) ↦
      (let d = owned-delete c id t pending e in
        rw (e, fire)
          (rw (disposed-fire_call id set_timeout pending (dispose_callable t.callable ∷ []))
            (ground arith)))
]
fire-IsBalanced c id set_interval pending = elim (Option-cases (get id pending)) [
  | inl e ↦ rw (e, fire) refl
  | inr (t, e) ↦ rw (e, fire) (rw (disposed-fire_call id set_interval pending []) refl)
]

IsBalanced-then :
    (c : ℕ) (g gs : List ℕ) (pending : Pending) (r t : Pending × List Effect)
    → IsBalanced c g pending r
    → IsBalanced c gs r.0 t
    → IsBalanced c (g ++ gs) pending (t.0, r.1 ++ t.1)
IsBalanced-then c g gs pending r t h k =
    let both = times-append c g gs in
    let split = times-append c (disposed r.1) (disposed t.1) in
    rw (disposed-append r.1 t.1) (omega arith)

run-IsBalanced :
    (c : ℕ) (ss : List Step) (pending : Pending)
    → IsFresh ss pending
    → IsBalanced c (scheduled ss) pending (run ss pending)
unfolding run step clear_handler
run-IsBalanced c [] pending h = refl
run-IsBalanced c (schedules kind cb delay id ∷ ss) pending (fresh, h) =
    IsBalanced-then c (cb ∷ []) (scheduled ss) pending (step (schedules kind cb delay id) pending)
      (run ss (step (schedules kind cb delay id) pending).0)
      (schedule-IsBalanced c kind cb delay id pending fresh) (run-IsBalanced c ss _ h)
run-IsBalanced c (clears none ∷ ss) pending h = run-IsBalanced c ss pending h
run-IsBalanced c (clears (some id) ∷ ss) pending h =
    IsBalanced-then c [] (scheduled ss) pending (cancel id pending) (run ss (cancel id pending).0)
      (cancel-IsBalanced c id pending) (run-IsBalanced c ss _ h)
run-IsBalanced c (fires id kind ∷ ss) pending h =
    IsBalanced-then c [] (scheduled ss) pending (fire id kind pending)
      (run ss (fire id kind pending).0) (fire-IsBalanced c id kind pending)
      (run-IsBalanced c ss _ h)

-- From an empty registry, when the pending timers are cleared at the end of a run, each function
-- that was given to a timer has been disposed of as often as it was given, whatever the run was; Node
-- gives no new timer the id of a pending one.
pub disposed_once :
    (c : ℕ) (ss : List Step)
    → IsFresh ss []
    → times c (disposed ((run ss []).1 ++ (clear_all_pending (run ss []).0).1))
      ≡ times c (scheduled ss)
unfolding clear_all_pending
disposed_once c ss h =
    let b = run-IsBalanced c ss [] h in
    let split = times-append c (disposed (run ss []).1) (owned (run ss []).0) in
    rw
      (
        disposed-append (run ss []).1 (clear_events (run ss []).0),
        disposed-clear_events (run ss []).0,
      )
      (omega arith)
