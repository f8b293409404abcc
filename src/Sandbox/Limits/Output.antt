-- ===== src/Sandbox/Limits/Output.antt =====
-- limit-counters.ts with worker.ts over a run: the messages that it posts.
use workflow_engine.Prelude.{
  ℕ, ◌+◌, ◌≡◌, ◌≤◌, ◌↔◌, refl, Bool, true, false, ◌&&◌, Option, none, some, List, [], ◌∷◌, ◌++◌,
  arith, if◌then◌else◌,
}
use workflow_engine.Sandbox.Limits.{
  Counters, ErrorShape, account_output_bytes, reset_run_counters, configure_worker_limits,
}
use workflow_engine.Sandbox.PluginRuntime.{Annotated, run_on_post}
use workflow_engine.Sandbox.Channel.{
  WorkerToMain, ready, init_error, restore_failed, done, event, log, host_call_request, Posting,
  Plugins, account_for_output, post_next, nothing_more, hook_failed, post_errors, post,
}

abbrev pub sum : List ℕ → ℕ
sum [] = 0
sum (x ∷ xs) = x + sum xs

-- Whether every size is accepted.
pub all_posted : Counters → List ℕ → Bool
all_posted c [] = true
all_posted c (x ∷ xs) =
    let r = account_output_bytes x c in let rest = all_posted r.0 xs in r.1 && rest

abbrev pub configured : ℕ → ℕ → Counters → Counters
configured output_bytes pending_callables c =
    reset_run_counters (configure_worker_limits output_bytes pending_callables c)

all_posted_iff :
    (limit : ℕ) (c : Counters) (xs : List ℕ)
    → c.output_bytes_limit ≡ some limit
    → (c.output_bytes_used ≤ limit)
    → (all_posted c xs ≡ true) ↔ (c.output_bytes_used + sum xs ≤ limit)
unfolding all_posted account_output_bytes
all_posted_iff limit c [] e h = (λ _. omega arith, λ _. refl)
all_posted_iff limit c (x ∷ xs) e h =
    let ih = all_posted_iff limit (record c { output_bytes_used = c.output_bytes_used + x }) xs e in
    ground (arith, ih)

-- No size is refused exactly when all of them together fit the limit.
pub all_posted_iff_fits :
    (output_bytes pending_callables : ℕ) (c : Counters) (xs : List ℕ)
    → (all_posted (configured output_bytes pending_callables c) xs ≡ true) ↔ (sum xs ≤ output_bytes)
unfolding configure_worker_limits reset_run_counters
all_posted_iff_fits output_bytes pending_callables c xs =
    let (fits, free) =
      all_posted_iff output_bytes (configured output_bytes pending_callables c) xs refl
        (omega arith) in
    (λ e. omega (arith, fits e), λ h. free (omega arith))

account_bound :
    (limit size : ℕ) (c : Counters)
    → c.output_bytes_limit ≡ some limit
    → c.output_bytes_used ≤ limit
    → (let r = account_output_bytes size c in
        (r.0.output_bytes_limit ≡ some limit)
        × (r.0.output_bytes_used ≤ limit)
        × (r.0.output_bytes_used
            ≡ (if r.1 then c.output_bytes_used + size else c.output_bytes_used)))
unfolding account_output_bytes
account_bound limit size c e h = ground arith

module _ {W P : Type 0} (json_length : W → Option ℕ) where
  -- The length of a message's event, which is 0 for one that has no JSON text.
  abbrev pub event_length : WorkerToMain W P → ℕ
  event_length (event e) = elim (json_length e) [ none ↦ 0 | some size ↦ size ]
  event_length ready = 0
  event_length (init_error error) = 0
  event_length (restore_failed error) = 0
  event_length (done payload) = 0
  event_length (log level message meta) = 0
  event_length (host_call_request id method args) = 0

  abbrev pub event_lengths : List (WorkerToMain W P) → ℕ
  event_lengths [] = 0
  event_lengths (m ∷ ms) = event_length m + event_lengths ms

  event_lengths-append :
      (ms ns : List (WorkerToMain W P))
      → event_lengths (ms ++ ns) ≡ event_lengths ms + event_lengths ns
  event_lengths-append [] ns = omega arith
  event_lengths-append (m ∷ ms) ns = let rest = event_lengths-append ms ns in omega (arith, rest)

  -- What crosses the channel has been counted, and the count is within the limit.
  record IsCounted (limit : ℕ) (before : Counters) (p : Posting W P) : Type 0 where
    pub same_limit : p.counters.output_bytes_limit ≡ some limit
    pub bounded : p.counters.output_bytes_used ≤ limit
    pub counted : before.output_bytes_used + event_lengths p.posted ≡ p.counters.output_bytes_used

  accounted :
      (limit : ℕ) (msg : WorkerToMain W P) (c : Counters)
      → c.output_bytes_limit ≡ some limit
      → c.output_bytes_used ≤ limit
      → (let r = account_for_output json_length msg c in
          (r.0.output_bytes_limit ≡ some limit)
          × (r.0.output_bytes_used ≤ limit)
          × (r.0.output_bytes_used
              ≡ (if r.1 then c.output_bytes_used + event_length msg else c.output_bytes_used)))
  unfolding account_for_output
  accounted limit (event x) c e h = account_bound limit (event_length (event x)) c e h
  accounted limit ready c e h = (e, h, omega arith)
  accounted limit (init_error error) c e h = (e, h, omega arith)
  accounted limit (restore_failed error) c e h = (e, h, omega arith)
  accounted limit (done payload) c e h = (e, h, omega arith)
  accounted limit (log level message meta) c e h = (e, h, omega arith)
  accounted limit (host_call_request id method args) c e h = (e, h, omega arith)

  next-IsCounted :
      (limit : ℕ) (msg : WorkerToMain W P) (c : Counters) (following : Counters → Posting W P)
      → c.output_bytes_limit ≡ some limit
      → c.output_bytes_used ≤ limit
      → ((d : Counters)
          → d.output_bytes_limit ≡ some limit
          → d.output_bytes_used ≤ limit
          → IsCounted limit d (following d))
      → IsCounted limit c (post_next msg (account_for_output json_length msg c) following)
  unfolding post_next
  next-IsCounted limit msg c following e h all =
      let (c', accepted, error) = account_for_output json_length msg c in
      decided c' accepted error (accounted limit msg c e h)
    where
      decided :
          (d : Counters) (accepted : Bool) (error : Option ErrorShape)
          → (d.output_bytes_limit ≡ some limit)
            × (d.output_bytes_used ≤ limit)
            × (d.output_bytes_used ≡ (
                if accepted then c.output_bytes_used + event_length msg else c.output_bytes_used))
          → IsCounted limit c (post_next msg (d, accepted, error) following)
      decided d true error (same, within, used) =
          let rest = all d same within in
          let total = rest.counted in
          record {
            same_limit = rest.same_limit;
            bounded = rest.bounded;
            counted = omega (arith, total, used);
          }
      decided d false error (same, within, used) = record {
        same_limit = same;
        bounded = within;
        counted = omega (arith, used);
      }

  nothing-IsCounted :
      (limit : ℕ) (c : Counters)
      → c.output_bytes_limit ≡ some limit
      → c.output_bytes_used ≤ limit
      → IsCounted limit c (nothing_more c)
  unfolding nothing_more
  nothing-IsCounted limit c e h = record { same_limit = e; bounded = h; counted = omega arith }

  module _ {E : Type 0} (log_meta : Annotated E → P) where
    errors-IsCounted :
        (limit : ℕ) (errs : List (Annotated E)) (c : Counters)
        → c.output_bytes_limit ≡ some limit
        → c.output_bytes_used ≤ limit
        → IsCounted limit c (post_errors json_length log_meta errs c)
    unfolding post_errors
    errors-IsCounted limit [] c e h = nothing-IsCounted limit c e h
    errors-IsCounted limit (err ∷ errs) c e h =
        next-IsCounted limit (hook_failed log_meta err) c (post_errors json_length log_meta errs) e
          h (errors-IsCounted limit errs)

  module _ {X R E : Type 0} (log_meta : Annotated E → P) where
    post-IsCounted :
        (limit : ℕ) (plugins : Plugins X R E W P) (msg : WorkerToMain W P) (c : Counters)
        → c.output_bytes_limit ≡ some limit
        → c.output_bytes_used ≤ limit
        → IsCounted limit c (post json_length log_meta plugins msg c)
    unfolding post
    post-IsCounted limit none msg c e h =
        next-IsCounted limit msg c nothing_more e h (nothing-IsCounted limit)
    post-IsCounted limit (some (setups, order)) msg c e h =
        let r = run_on_post setups order msg in
        next-IsCounted limit r.0 c (post_errors json_length log_meta r.1) e h
          (errors-IsCounted log_meta limit r.1)

    -- The messages that cross the channel when a run posts these, each with the plugins at that time.
    abbrev pub posted_by :
        Counters → List (Plugins X R E W P × WorkerToMain W P) → List (WorkerToMain W P)
    posted_by c [] = []
    posted_by c ((plugins, msg) ∷ msgs) =
        let p = post json_length log_meta plugins msg c in p.posted ++ posted_by p.counters msgs

    posted_by_bound :
        (limit : ℕ) (c : Counters) (msgs : List (Plugins X R E W P × WorkerToMain W P))
        → c.output_bytes_limit ≡ some limit
        → c.output_bytes_used ≤ limit
        → c.output_bytes_used + event_lengths (posted_by c msgs) ≤ limit
    posted_by_bound limit c [] e h = omega arith
    posted_by_bound limit c ((plugins, msg) ∷ msgs) e h =
        let p = post json_length log_meta plugins msg c in
        let now = post-IsCounted limit plugins msg c e h in
        let later = posted_by_bound limit p.counters msgs now.same_limit now.bounded in
        let split = event_lengths-append p.posted (posted_by p.counters msgs) in
        let counted = now.counted in omega (arith, later, split, counted)

    -- Whatever messages a run posts, with whatever hooks of plugins, the events that cross the channel
    -- are together, by the lengths of their JSON texts, at most as long as the configured limit; an
    -- event without a JSON text counts 0, and other messages are not counted.
    pub posted-le-limit :
        (output_bytes pending_callables : ℕ) (c : Counters)
        (msgs : List (Plugins X R E W P × WorkerToMain W P))
        → event_lengths (posted_by (configured output_bytes pending_callables c) msgs)
          ≤ output_bytes
    unfolding configure_worker_limits reset_run_counters
    posted-le-limit output_bytes pending_callables c msgs = omega (
      arith,
      posted_by_bound output_bytes (configured output_bytes pending_callables c) msgs refl
          (omega arith),
    )
