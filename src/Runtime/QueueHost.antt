-- ===== src/Runtime/QueueHost.antt =====
-- packages/runtime/src/queue-host.ts: the host handlers of `queue.put` and `queue.get` in one
-- sandbox. They are bound to an owner and a workflow; the guest gives the rest. A validator is
-- `safeParse` of a declared queue's schema: `none` is a failed validation. `now` is the ISO text of
-- the current time.
pub mod Tenant
pub mod RoundTrip
mod Tests
use Prim.Native.String.{len}
use workflow_engine.Prelude.{
  ℕ, String, Option, none, some, List, ◌∷◌, [], ltb, string_eq, if◌then◌else◌,
}
use workflow_engine.Prelude.Maps.{get as lookup}
use workflow_engine.Runtime.QueueStore.{
  Json, QueueScope, QueueItem, ProducerMeta, PoppedRow, Result, ok, err, Failure, queue_error,
  key_too_large, schema_mismatch, max_key_bytes, put, get,
}

-- What the executor adds to a call of the guest.
pub record PutArgs (V : Type 0) : Type 0 where
  pub repo : String
  pub queue : String
  pub key : String
  pub item : V
  pub invocation_id : String
  pub trigger_kind : String
  pub trigger_name : String

pub record GetArgs : Type 0 where
  pub repo : String
  pub queue : String
  pub key : String

-- What the handlers hold in their closure.
pub record Handlers (V : Type 0) : Type 0 where
  pub json : Json V
  pub max_depth : ℕ
  pub owner : String
  pub workflow : String
  pub validators : List (String × (V → Option V))

module _ {V : Type 0} where
  -- The item as the queue's validator gives it, or as it is for an undeclared queue.
  pub validated : Handlers V → String → V → Option V
  validated h queue item = elim (lookup queue h.validators) [
    | none ↦ some item
    | some safe_parse ↦ safe_parse item
  ]

  abbrev pub put_scope : Handlers V → PutArgs V → QueueScope
  put_scope h args = record {
    owner = h.owner;
    repo = args.repo;
    workflow = h.workflow;
    queue = args.queue;
  }

  abbrev pub get_scope : Handlers V → GetArgs → QueueScope
  get_scope h args = record {
    owner = h.owner;
    repo = args.repo;
    workflow = h.workflow;
    queue = args.queue;
  }

  abbrev pub meta : PutArgs V → String → ProducerMeta
  meta args now = record {
    enqueued_at = now;
    invocation_id = args.invocation_id;
    trigger_kind = args.trigger_kind;
    trigger_name = args.trigger_name;
  }

  pub put_handler :
      Handlers V → PutArgs V → String → ℕ → List QueueItem → List QueueItem × Result V (Unit {0})
  put_handler h args now seq rows =
      if ltb max_key_bytes (len args.key)
      then (rows, err (queue_error key_too_large none))
      else elim (validated h args.queue args.item) [
        | none ↦ (rows, err (queue_error schema_mismatch none))
        | some checked ↦
            put h.json h.max_depth (put_scope h args) checked args.key (meta args now) seq rows
      ]

  -- What `get` answers for a popped row: `none` is `{ found: false }`.
  pub answer : Handlers V → String → Option (Result V (PoppedRow V)) → Result V (Option V)
  answer h queue none = ok none
  answer h queue (some (err failure)) = err failure
  answer h queue (some (ok popped)) = elim (validated h queue popped.item) [
    | none ↦ err (queue_error schema_mismatch (some popped.item))
    | some item ↦ ok (some item)
  ]

  pub get_handler : Handlers V → GetArgs → List QueueItem → List QueueItem × Result V (Option V)
  get_handler h args rows =
      if ltb max_key_bytes (len args.key)
      then (rows, err (queue_error key_too_large none))
      else (let (left, popped) = get h.json (get_scope h args) args.key rows in
          (left, answer h args.queue popped))
