-- ===== src/Runtime/HostEvents/Tests.antt =====
-- A failure of a trigger and an upload, on a store where another invocation waits.
use workflow_engine.Prelude.{◌≡◌, refl, ℕ, String, false, none, some, List, [], ◌∷◌, string_eq}
use workflow_engine.Core.{DispatchUser}
use workflow_engine.Runtime.EventStore.{
  EventStore, record_event, append_to_accumulator, take_batch, is_terminal,
}
use workflow_engine.Runtime.Executor.{Workflow}
use workflow_engine.Runtime.HostEvents.{
  Values, TriggerExceptionParams, host_event, trigger_exception, emit_trigger_exception,
  system_upload, emit_system_upload,
}

-- Values of the guest as their number of fields.
abbrev values : Values ℕ
values = record { object = size; text = λ s. 0 }
  where
    size : List (String × ℕ) → ℕ
    size [] = 0
    size (f ∷ fs) = 1

abbrev flow : Workflow
flow = record { name = "w"; sha = "s" }

abbrev params : TriggerExceptionParams ℕ
params = record {
  kind = some "trigger.rejection";
  name = "n";
  error = none;
  input = none;
  details = some (("path", 3) ∷ []);
}

abbrev waiting : EventStore ℕ
waiting = record { accumulator = ("other", []) ∷ []; stopped = false }

abbrev user : DispatchUser
user = record { login = "l"; mail = "m" }

rejection_test :
    emit_trigger_exception values "i" "now" "o" "r" flow "t" params waiting
    ≡ some (waiting, some (host_event "i" "now" "o" "r" flow "trigger.rejection" "n" 1 none ∷ []))
unfolding emit_trigger_exception trigger_exception record_event append_to_accumulator take_batch
    is_terminal host_event
rejection_test = refl

upload_test :
    emit_system_upload "i" "now" "o" "r" flow 5 user waiting
    ≡ (waiting, some (system_upload {V = ℕ} "i" "now" "o" "r" flow 5 user ∷ []))
unfolding emit_system_upload system_upload record_event append_to_accumulator take_batch is_terminal
    host_event
upload_test = refl
