-- ===== src/Sandbox/Termination/Tests.antt =====
-- The termination machine at concrete signals.
use workflow_engine.Prelude.{◌≡◌, ◌≤◌, refl, some, List, [], ◌∷◌, length, arith}
use workflow_engine.Sandbox.Termination.{
  Termination, limit, cpu, Signal, a_value, error_event, exit_event, dispose, register, on_error,
  on_terminated, create_worker_termination,
}
use workflow_engine.Sandbox.Termination.Once.{run, causes, run_terminates_once}
use workflow_engine.Sandbox.Termination.Causes.{IsWatched, overdue, overdue_cause}

abbrev watched : Termination
unfolding on_terminated create_worker_termination
watched = on_terminated create_worker_termination

watched-IsWatched : IsWatched watched
unfolding on_terminated create_worker_termination
watched-IsWatched = record { alive = refl; unfired = refl; listening = refl }

abbrev noisy : List Signal
noisy =
    register ∷ error_event (a_value "oops") ∷ exit_event ∷ exit_event ∷ dispose ∷ exit_event ∷ []

run_terminates_once_example : length (causes (run create_worker_termination noisy).1) ≤ 1
run_terminates_once_example = run_terminates_once noisy

abbrev crashed : Termination
unfolding on_error on_terminated create_worker_termination
crashed = on_error watched (a_value "oops")

overdue_cause_example :
    causes (run watched (overdue 50 100 151 (a_value "x" ∷ []) (a_value "y" ∷ []))).1
    ≡ limit cpu (some 51) ∷ []
unfolding on_terminated create_worker_termination
overdue_cause_example =
    overdue_cause watched 50 100 151 (a_value "x" ∷ []) (a_value "y" ∷ []) watched-IsWatched refl
      (omega arith)
