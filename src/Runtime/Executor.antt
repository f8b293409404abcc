-- ===== src/Runtime/Executor.antt =====
-- packages/runtime/src/executor: the invocations of one sandbox. A call of `invoke` waits in the
-- sandbox's run queue; its run begins when the one before has been answered, ends when `sb.run`
-- settles, and is answered when the events that the sandbox sent have been recorded. Each of these
-- moments is an action, so that an interleaving is a list of actions. A failing `record` is logged and
-- changes nothing else.
pub mod Runs
pub mod Kept
pub mod Turns
pub mod Identity
pub mod Progress
pub mod Archive
pub mod HandedOver
mod Tests
use workflow_engine.Prelude.{
  ℕ, zero, suc, Bool, String, true, false, Option, none, some, List, [], ◌∷◌, ◌++◌, snoc, ◌==◌,
  string_eq, if◌then◌else◌,
}
use workflow_engine.Core.{
  SandboxEvent, InvocationEvent, InvocationEventError, DispatchMeta, DispatchUser, DispatchSource,
}
use workflow_engine.Runtime.EventStore.{EventStore, record_event, create_event_store}

pub record Workflow : Type 0 where
  pub name : String
  pub sha : String

pub record InvocationMeta : Type 0 where
  pub id : String
  pub owner : String
  pub repo : String
  pub workflow : String
  pub workflow_sha : String
  pub dispatch : DispatchMeta

-- A call of `invoke`, with the id that it gets and the options that matter here.
pub record Invocation (V : Type 0) : Type 0 where
  pub invocation_id : String
  pub owner : String
  pub repo : String
  pub workflow : Workflow
  pub descriptor_name : String
  pub input : V
  pub dispatch : Option DispatchMeta

-- How `sb.run` settles: with a result, with an error of the guest, or rejected.
pub data RunOutcome (V : Type 0) : Type 0 where
  resolved : V → RunOutcome V
  guest_error rejected : String → Option String → RunOutcome V

-- `issues` of an `InvokeResult` are those of a failed validation.
pub data InvokeResult (V I : Type 0) : Type 0 where
  output : V → InvokeResult V I
  failure : String → Option String → Option (List I) → InvokeResult V I

-- An absent stack and an empty one are both left out.
pub stack_of : Option String → Option String
stack_of none = none
stack_of (some stack) = if stack == "" then none else some stack

unfoldable pub invoke_result : {V I : Type 0} → RunOutcome V → InvokeResult V I
invoke_result (resolved v) = output v
invoke_result (guest_error message stack) = failure message (stack_of stack) none
invoke_result (rejected message stack) = failure message (stack_of stack) none

pub data Lifecycle : Type 0 where
  invocation_started invocation_completed invocation_failed : Lifecycle

abbrev pub by_trigger : DispatchMeta
by_trigger = record { source = DispatchSource.trigger; user = none }

-- What the run queue does: nothing, a run, or a wait for the events of a run that has settled.
pub data Turn (V I : Type 0) : Type 0 where
  idle : Turn V I
  running : Invocation V → Turn V I
  settled : Invocation V → InvokeResult V I → Turn V I

pub record SandboxState (V I : Type 0) : Type 0 where
  pub active_meta : Option InvocationMeta
  pub emit_tail : List (InvocationEvent V)
  pub turn : Turn V I
  pub queue : List (Invocation V)
  pub store : EventStore V

pub data Action (V : Type 0) : Type 0 where
  invoke : Invocation V → Action V
  begin : Action V
  emit : SandboxEvent V → Action V
  settle : RunOutcome V → Action V
  record_next : Action V
  answer : Action V

-- `handed_over` is a batch that `record` hands to `commit_with_retry`, whose outcome is not decided here.
pub data Output (V I : Type 0) : Type 0 where
  recorded : InvocationEvent V → Output V I
  handed_over : List (InvocationEvent V) → Output V I
  logged : Lifecycle → InvocationEvent V → Output V I
  answered : Invocation V → InvokeResult V I → Output V I

module _ {V : Type 0} where
  abbrev pub is_empty : List (InvocationEvent V) → Bool
  is_empty [] = true
  is_empty (e ∷ es) = false

  pub meta_of : Invocation V → InvocationMeta
  meta_of i = record {
    id = i.invocation_id;
    owner = i.owner;
    repo = i.repo;
    workflow = i.workflow.name;
    workflow_sha = i.workflow.sha;
    dispatch = (elim i.dispatch [ none ↦ by_trigger | some d ↦ d ]);
  }

  pub widen : InvocationMeta → SandboxEvent V → InvocationEvent V
  widen meta e = record {
    event = e;
    id = meta.id;
    owner = meta.owner;
    repo = meta.repo;
    workflow = meta.workflow;
    workflow_sha = meta.workflow_sha;
    dispatch = if e.kind == "trigger.request" then some meta.dispatch else none;
  }

  pub log_invocation_lifecycle : InvocationEvent V → Option Lifecycle
  log_invocation_lifecycle e =
      if e.kind == "trigger.request"
      then some invocation_started
      else if e.kind == "trigger.response"
      then some invocation_completed
      else if e.kind == "trigger.error"
      then some invocation_failed
      else none

module _ {V I : Type 0} where
  pub init_state : SandboxState V I
  init_state = record {
    active_meta = none;
    emit_tail = [];
    turn = idle;
    queue = [];
    store = create_event_store;
  }

  -- The listener of `sb.onEvent`.
  pub on_event : SandboxEvent V → SandboxState V I → SandboxState V I
  on_event e s = elim s.active_meta [
    | none ↦ s
    | some meta ↦ record s { emit_tail = snoc s.emit_tail (widen meta e) }
  ]

  -- The start of the next run in the queue.
  pub begin_run : List (Invocation V) → SandboxState V I → Option (SandboxState V I)
  begin_run [] s = none
  begin_run (i ∷ is) s =
      some (record s { active_meta = some (meta_of i); turn = running i; queue = is })

  pub log_outputs : InvocationEvent V → Option Lifecycle → List (Output V I)
  log_outputs e none = []
  log_outputs e (some l) = logged l e ∷ []

  pub commit_outputs : Option (List (InvocationEvent V)) → List (Output V I)
  commit_outputs none = []
  commit_outputs (some batch) = handed_over batch ∷ []

  -- One link of the chain of records: the event, the batch that its record hands over, and the log line.
  pub record_one :
      List (InvocationEvent V) → SandboxState V I → Option (SandboxState V I × List (Output V I))
  record_one [] s = none
  record_one (e ∷ es) s =
      let (store, batch) = record_event e s.store in
      some (
        record s { emit_tail = es; store = store },
        recorded e ∷ commit_outputs batch ++ log_outputs e (log_invocation_lifecycle e),
      )

  -- An action in a turn: there is no result where it cannot happen.
  pub step_in :
      Turn V I → Action V → SandboxState V I → Option (SandboxState V I × List (Output V I))
  step_in turn (invoke i) s = some (record s { queue = snoc s.queue i }, [])
  step_in turn (emit e) s = some (on_event e s, [])
  step_in turn record_next s = record_one s.emit_tail s
  step_in idle begin s = elim (begin_run s.queue s) [ none ↦ none | some t ↦ some (t, []) ]
  step_in (running i) (settle o) s =
      some (record s { active_meta = none; turn = settled i (invoke_result o) }, [])
  step_in (settled i r) answer s =
      if is_empty s.emit_tail then some (record s { turn = idle }, answered i r ∷ []) else none
  step_in idle (settle o) s = none
  step_in idle answer s = none
  step_in (running i) begin s = none
  step_in (running i) answer s = none
  step_in (settled i r) begin s = none
  step_in (settled i r) (settle o) s = none

  pub step : Action V → SandboxState V I → Option (SandboxState V I × List (Output V I))
  step a s = step_in s.turn a s
