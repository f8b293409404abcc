-- ===== src/Runtime/Executor/Tests.antt =====
-- Two calls whose runs interleave with the arrival of events; the first one fails.
use workflow_engine.Prelude.{
  ℕ, ◌≡◌, refl, String, false, none, some, List, [], ◌∷◌, ◌++◌, map, string_eq, nat_eq, ◌==◌,
  if◌then◌else◌,
}
use workflow_engine.Core.{InvocationEvent, SandboxEvent}
use workflow_engine.Runtime.EventStore.{
  EventStoreConfig, Attempt, stored, failed, Stringify, rows_of, event_to_row, insert_batch,
  commit_with_retry, attempts, create_event_store, append_to_accumulator, take_batch, record_event,
  is_terminal,
}
use workflow_engine.Runtime.Executor.{
  log_invocation_lifecycle, commit_outputs, log_outputs, invocation_started, invocation_failed,
  Invocation, resolved, rejected, failure, invoke_result, stack_of, settled, SandboxState, Action,
  invoke, begin, emit, settle, record_next, Output, recorded, handed_over, logged, meta_of, widen,
  init_state, on_event, begin_run, record_one, step, step_in,
}
use workflow_engine.Runtime.Executor.Runs.{Runs, done, step_then, callers, results}
use workflow_engine.Runtime.Executor.Turns.{answered_in_order}
use workflow_engine.Runtime.Executor.Identity.{AllStamped, recorded-stamped}
use workflow_engine.Runtime.Executor.Progress.{Answers, every_call_answered}
use workflow_engine.Runtime.Executor.Archive.{table, ended_invocations_archived}

abbrev event : String → ℕ → SandboxEvent ℕ
event kind n = record {
  kind = kind;
  seq = n;
  ref = none;
  at = "now";
  ts = n;
  name = "t";
  input = none;
  output = none;
  error = none;
}

abbrev call_of : String → Invocation ℕ
call_of id = record {
  invocation_id = id;
  owner = "o";
  repo = "r";
  workflow = record { name = "w"; sha = "s" };
  descriptor_name = "t";
  input = 0;
  dispatch = none;
}

-- Both calls arrive, the first run sends its two events and is rejected, and they are recorded.
abbrev first_actions : List (Action ℕ)
first_actions =
    invoke (call_of "a")
    ∷ begin
    ∷ emit (event "trigger.request" 0)
    ∷ invoke (call_of "b")
    ∷ emit (event "trigger.error" 1)
    ∷ record_next
    ∷ settle (rejected "gone" (some ""))
    ∷ record_next
    ∷ []

abbrev first_event : InvocationEvent ℕ
first_event = widen (meta_of (call_of "a")) (event "trigger.request" 0)

abbrev second_event : InvocationEvent ℕ
second_event = widen (meta_of (call_of "a")) (event "trigger.error" 1)

abbrev first_outputs : List (Output ℕ ℕ)
first_outputs =
    recorded first_event
    ∷ logged invocation_started first_event
    ∷ recorded second_event
    ∷ handed_over (first_event ∷ second_event ∷ [])
    ∷ logged invocation_failed second_event
    ∷ []

abbrev state_after : SandboxState ℕ ℕ
state_after = record {
  active_meta = none;
  emit_tail = [];
  turn = settled (call_of "a") (failure "gone" none none);
  queue = call_of "b" ∷ [];
  store = record { accumulator = []; stopped = false };
}

first_run : Runs init_state first_actions state_after first_outputs
unfolding init_state step step_in on_event begin_run record_one commit_outputs log_outputs
    log_invocation_lifecycle invoke_result stack_of create_event_store append_to_accumulator
    take_batch record_event is_terminal widen meta_of
first_run = step_then refl (
    step_then refl (
      step_then refl
        (step_then refl (step_then refl (step_then refl (step_then refl (step_then refl done)))))))

recorded-stamped_example :
    AllStamped
      ((call_of "a", event "trigger.request" 0) ∷ (call_of "a", event "trigger.error" 1) ∷ [])
      (first_event ∷ second_event ∷ [])
recorded-stamped_example = recorded-stamped first_actions state_after first_outputs first_run

answered_in_order_example :
    (callers first_outputs ++ call_of "a" ∷ call_of "b" ∷ [] ≡ call_of "a" ∷ call_of "b" ∷ [])
    × (results first_outputs ++ failure "gone" none none ∷ []
        ≡ invoke_result (rejected "gone" (some "")) ∷ [])
answered_in_order_example = answered_in_order first_actions state_after first_outputs first_run

-- The call behind the failed one is answered as well.
every_call_answered_example : Answers state_after (call_of "a" ∷ call_of "b" ∷ []) (resolved 7 ∷ [])
every_call_answered_example =
    every_call_answered (λ i. resolved 7) first_actions state_after first_outputs first_run

-- The first attempt to store a batch fails and the second one is stored.
abbrev config : EventStoreConfig
config = record {
  commit_max_retries = 2;
  commit_backoff_ms = 10;
  sigterm_flush_timeout_ms = 50;
  retention_days = 1;
}

abbrev answers : ℕ → ℕ → Attempt
answers n attempt = if attempt == 0 then failed else stored

abbrev print : Stringify ℕ
print = record { value = λ n. "n"; failure = λ e. "e"; dispatch = λ d. "d" }

ended_invocations_archived_example :
    (es : List (InvocationEvent ℕ)) × (rows_of "a" (table config print answers 0 first_outputs [])
      ≡ map (event_to_row print) es)
    × AllStamped
        ((call_of "a", event "trigger.request" 0) ∷ (call_of "a", event "trigger.error" 1) ∷ [])
        es
unfolding step step_in is_terminal widen meta_of commit_with_retry attempts
ended_invocations_archived_example =
    ended_invocations_archived config print answers first_actions state_after _ first_outputs _ "a"
      [] first_run refl refl refl

table_test :
    rows_of "a" (table config print answers 0 first_outputs [])
    ≡ event_to_row print first_event ∷ event_to_row print second_event ∷ []
unfolding insert_batch commit_with_retry attempts event_to_row widen meta_of
table_test = refl
