-- ===== src/Runtime/HostEvents.antt =====
-- packages/runtime/src/executor/exception.ts and upload-event.ts: the events that the host itself
-- records, each alone under an invocation id of its own. The new id and the time are arguments, and
-- an error that is thrown is `none`.
pub mod Alone
mod Tests
use workflow_engine.Prelude.{
  ℕ, Bool, String, true, false, Option, none, some, List, [], ◌∷◌, ◌==◌, string_eq, if◌then◌else◌,
}
use workflow_engine.Prelude.Maps.{set}
use workflow_engine.Core.{InvocationEvent, DispatchUser, DispatchSource, InvocationEventError}
use workflow_engine.Runtime.EventStore.{EventStore, record_event}
use workflow_engine.Runtime.Executor.{Workflow}

-- Objects and texts as values of the guest language.
pub record Values (V : Type 0) : Type 0 where
  pub object : List (String × V) → V
  pub text : String → V

pub record TriggerExceptionParams (V : Type 0) : Type 0 where
  pub kind : Option String
  pub name : String
  pub error : Option String
  pub input : Option (List (String × V))
  pub details : Option (List (String × V))

abbrev pub is_host_fail_kind : String → Bool
is_host_fail_kind kind = if kind == "trigger.exception" then true else kind == "trigger.rejection"

module _ {V : Type 0} where
  abbrev pub kind_of : TriggerExceptionParams V → String
  kind_of params = elim params.kind [ none ↦ "trigger.exception" | some kind ↦ kind ]

  -- A spread: each field replaces one of its name.
  abbrev pub spread : List (String × V) → List (String × V) → List (String × V)
  spread object [] = object
  spread object ((k, v) ∷ fields) = spread (set k v object) fields

  abbrev pub payload_of : TriggerExceptionParams V → List (String × V)
  payload_of params = elim params.input [
    | some fields ↦ fields
    | none ↦ elim params.details [ some fields ↦ fields | none ↦ [] ]
  ]

  pub host_event :
      String
      → String
      → String
      → String
      → Workflow
      → String
      → String
      → V
      → Option (InvocationEventError V)
      → InvocationEvent V
  host_event id now owner repo workflow kind name input error = record {
    event = record {
      kind = kind;
      seq = 0;
      ref = some 0;
      at = now;
      ts = 0;
      name = name;
      input = some input;
      output = none;
      error = error;
    };
    id = id;
    owner = owner;
    repo = repo;
    workflow = workflow.name;
    workflow_sha = workflow.sha;
    dispatch = none;
  }

  abbrev pub error_of : Option String → Option (InvocationEventError V)
  error_of none = none
  error_of (some message) =
      some (record { message = message; stack = none; issues = none; kind = none })

  -- The event, or `none` where `assertHostFailKind` throws.
  pub trigger_exception :
      Values V
      → String
      → String
      → String
      → String
      → Workflow
      → String
      → TriggerExceptionParams V
      → Option (InvocationEvent V)
  trigger_exception values id now owner repo workflow descriptor_name params =
      if is_host_fail_kind (kind_of params)
      then some (
          host_event id now owner repo workflow (kind_of params) params.name
            (values.object
              (spread (("trigger", values.text descriptor_name) ∷ []) (payload_of params)))
            (error_of params.error))
      else none

  -- The store after `emitTriggerException`, and the batch that its record commits.
  pub emit_trigger_exception :
      Values V
      → String
      → String
      → String
      → String
      → Workflow
      → String
      → TriggerExceptionParams V
      → EventStore V
      → Option (EventStore V × Option (List (InvocationEvent V)))
  emit_trigger_exception values id now owner repo workflow descriptor_name params store =
      elim (trigger_exception values id now owner repo workflow descriptor_name params) [
        | none ↦ none
        | some e ↦ some (record_event e store)
      ]

  pub system_upload :
      String → String → String → String → Workflow → V → DispatchUser → InvocationEvent V
  system_upload id now owner repo workflow snapshot user =
      record (host_event id now owner repo workflow "system.upload" workflow.name snapshot none) {
        dispatch = some (record { source = DispatchSource.upload; user = some user });
      }

  pub emit_system_upload :
      String
      → String
      → String
      → String
      → Workflow
      → V
      → DispatchUser
      → EventStore V
      → EventStore V × Option (List (InvocationEvent V))
  emit_system_upload id now owner repo workflow snapshot user store =
      record_event (system_upload id now owner repo workflow snapshot user) store
