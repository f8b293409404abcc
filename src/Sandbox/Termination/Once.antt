-- ===== src/Sandbox/Termination/Once.antt =====
-- worker-termination.ts over any sequence of signals: how often the callback is called, and when not
-- at all.
use workflow_engine.Prelude.{
  ℕ, ◌+◌, ◌≡◌, ◌≤◌, refl, true, List, [], ◌∷◌, ◌++◌, arith, length, length-append, if◌then◌else◌,
}
use workflow_engine.Sandbox.Termination.{
  Termination, TerminationCause, Signal, Effect, error_event, exit_event, arm, disarm, expire,
  dispose, restore_fails, register, step, terminated, terminate_worker, on_error, on_exit, dispatch,
  arm_cpu_budget, watchdog_fires, disarm_cpu_budget, mark_disposing, mark_restore_failed,
  on_terminated, create_worker_termination,
}

-- The causes that reach the callback.
unfoldable pub causes : List Effect → List TerminationCause
causes [] = []
causes (terminated c ∷ es) = c ∷ causes es
causes (terminate_worker ∷ es) = causes es

unfoldable pub run : Termination → List Signal → Termination × List Effect
run t [] = (t, [])
run t (s ∷ ss) = let rest = run (step t s).0 ss in (rest.0, (step t s).1 ++ rest.1)

pub causes-append : (xs ys : List Effect) → causes (xs ++ ys) ≡ causes xs ++ causes ys
unfolding causes
causes-append [] ys = refl
causes-append (terminated c ∷ xs) ys = rw (causes-append xs ys)
causes-append (terminate_worker ∷ xs) ys = causes-append xs ys

-- How many causes may still be reported.
abbrev left : Termination → ℕ
left t = if t.fired then 0 else 1

left-step :
    (t : Termination) (s : Signal) → length (causes (step t s).1) + left (step t s).0 ≤ left t
unfolding step causes on_error on_exit dispatch arm_cpu_budget watchdog_fires disarm_cpu_budget
    mark_disposing mark_restore_failed on_terminated
left-step t (error_event thrown) = ground arith
left-step t exit_event = ground arith
left-step t (arm ms now) = ground arith
left-step t disarm = ground arith
left-step t (expire now) = ground arith
left-step t dispose = ground arith
left-step t (restore_fails err) = ground arith
left-step t register = ground arith

left-run : (t : Termination) (ss : List Signal) → length (causes (run t ss).1) ≤ left t
unfolding run causes
left-run t [] = omega arith
left-run t (s ∷ ss) = rw (causes-append (step t s).1 (run (step t s).0 ss).1) (
    omega (
      arith,
      length-append (causes (step t s).1) (causes (run (step t s).0 ss).1),
      left-step t s,
      left-run (step t s).0 ss,
    ))

-- Whatever errors, exits, time-outs, restore failures and calls of the methods come, in whatever
-- order, the callback is called at most once.
pub run_terminates_once :
    (ss : List Signal) → length (causes (run create_worker_termination ss).1) ≤ 1
unfolding create_worker_termination
run_terminates_once ss = left-run create_worker_termination ss

step_disposing :
    (t : Termination) (s : Signal)
    → t.disposing ≡ true
    → (causes (step t s).1 ≡ []) × ((step t s).0.disposing ≡ true)
unfolding step causes on_error on_exit dispatch arm_cpu_budget watchdog_fires disarm_cpu_budget
    mark_disposing mark_restore_failed on_terminated
step_disposing t (error_event thrown) h = ground arith
step_disposing t exit_event h = ground arith
step_disposing t (arm ms now) h = ground arith
step_disposing t disarm h = ground arith
step_disposing t (expire now) h = ground arith
step_disposing t dispose h = ground arith
step_disposing t (restore_fails err) h = ground arith
step_disposing t register h = ground arith

run_disposing : (t : Termination) (ss : List Signal) → t.disposing ≡ true → causes (run t ss).1 ≡ []
unfolding run causes
run_disposing t [] h = refl
run_disposing t (s ∷ ss) h =
    let (silent, still) = step_disposing t s h in
    rw (causes-append (step t s).1 (run (step t s).0 ss).1)
      (rw (silent, run_disposing (step t s).0 ss still) refl)

-- After `markDisposing` the callback is never called, whatever comes: a sandbox that its owner
-- disposes of is not reported as crashed.
pub run-mark_disposing :
    (t : Termination) (ss : List Signal) → causes (run (mark_disposing t) ss).1 ≡ []
unfolding mark_disposing
run-mark_disposing t ss = run_disposing (mark_disposing t) ss refl
