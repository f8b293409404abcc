-- ===== src/Stdlib/Timers/Tests.antt =====
-- The timers at concrete runs.
use workflow_engine.Prelude.{◌≡◌, refl, false, some, List, [], ◌∷◌, ◌++◌, arith, nat_eq}
use workflow_engine.Stdlib.Timers.{
  set_timeout, set_interval, number, negative, clear_all_pending, schedule, cancel, clear_handler,
  fire_call, fire_end,
}
use workflow_engine.Prelude.Counting.{times}
use workflow_engine.Stdlib.Timers.Ownership.{
  Step, schedules, clears, fires, step, run, disposed, IsFresh, disposed_once,
}

-- Function 7 fires once, 8 repeats and is cleared, 9 is pending at the end.
abbrev steps : List Step
steps =
    schedules set_timeout 7 (number 10 false) 1
    ∷ schedules set_interval 8 negative 2
    ∷ fires 2 set_interval
    ∷ fires 1 set_timeout
    ∷ fires 1 set_timeout
    ∷ clears (some 2)
    ∷ schedules set_timeout 9 negative 3
    ∷ []

disposed_test : disposed (run steps []).1 ≡ 7 ∷ 8 ∷ []
unfolding run step schedule cancel clear_handler fire_call fire_end
disposed_test = refl

steps-IsFresh : IsFresh steps []
unfolding step schedule cancel clear_handler fire_call fire_end
steps-IsFresh = omega arith

disposed_once_example :
    times 9 (disposed ((run steps []).1 ++ (clear_all_pending (run steps []).0).1)) ≡ 1
disposed_once_example = disposed_once 9 steps steps-IsFresh
