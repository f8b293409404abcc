-- ===== src/Runtime/EventStore.antt =====
-- packages/runtime/src/event-store.ts: the archive of events. Events are gathered in memory by
-- invocation and written to the table `events` in one batch when an invocation ends. What the
-- database says to the attempts of a batch is an argument, and so is the clock. `record` is its part
-- before the first wait: the batch that it hands to `commit_with_retry` is its result.
pub mod Waiting
pub mod Batches
pub mod Retry
pub mod Drain
pub mod Single
pub mod Retention
mod Tests
use workflow_engine.Prelude.{
  ℕ, zero, suc, ◌+◌, ◌*◌, ◌^◌, Bool, String, true, false, not, ◌&&◌, ◌||◌, Option, none, some, List,
  [], ◌∷◌, ◌++◌, map, any, keep, snoc, head?, last?, length, leb, ltb, max, ◌/◌, ◌≡◌, ◌==◌, nat_eq,
  string_eq, if◌then◌else◌,
}
use workflow_engine.Prelude.Maps.{get, set, delete}
use workflow_engine.Core.{
  InvocationEvent, SandboxEvent, InvocationEventError, ErrorKind, shutdown, DispatchMeta,
}

-- A row of `events`: the payloads as JSON texts, NULL where there is none.
pub record EventRow : Type 0 where
  pub id : String
  pub seq : ℕ
  pub kind : String
  pub ref : Option ℕ
  pub at : String
  pub ts : ℕ
  pub owner : String
  pub repo : String
  pub workflow : String
  pub workflow_sha : String
  pub name : String
  pub input : Option String
  pub output : Option String
  pub error : Option String
  pub meta : Option String

-- `JSON.stringify` on the payloads.
pub record Stringify (V : Type 0) : Type 0 where
  pub value : V → String
  pub failure : InvocationEventError V → String
  pub dispatch : DispatchMeta → String

abbrev pub terminal_kinds : List String
terminal_kinds =
    "trigger.response" ∷ "trigger.error" ∷ "trigger.exception" ∷ "trigger.rejection"
    ∷ "system.upload" ∷ []

unfoldable pub is_terminal : String → Bool
is_terminal kind = any (λ k. k == kind) terminal_kinds

abbrev pub column : {A : Type 0} → (A → String) → Option A → Option String
column print none = none
column print (some a) = some (print a)

pub record EventStoreConfig : Type 0 where
  pub commit_max_retries : ℕ
  pub commit_backoff_ms : ℕ
  pub sigterm_flush_timeout_ms : ℕ
  pub retention_days : ℕ

-- How the database answers an insertion: it is made, refused for a key that is there, or failed.
pub data Attempt : Type 0 where
  stored key_violation failed : Attempt

-- What `commitWithRetry` logs and waits for.
pub data CommitEffect : Type 0 where
  commit_ok commit_dropped : CommitEffect
  commit_retry : ℕ → CommitEffect
  wait : ℕ → CommitEffect

pub backoff_ms : EventStoreConfig → ℕ → ℕ
backoff_ms config attempt = config.commit_backoff_ms * 2 ^ attempt

-- The loop of `commitWithRetry` with the attempts that are left; the answers are given by number.
unfoldable pub attempts : EventStoreConfig → (ℕ → Attempt) → ℕ → ℕ → Bool × List CommitEffect
attempts config answer zero attempt = (false, commit_dropped ∷ [])
attempts config answer (suc left) attempt = elim (answer attempt) [
  | stored ↦ (true, commit_ok ∷ [])
  | key_violation ↦ (false, commit_dropped ∷ [])
  | failed ↦
      let rest = attempts config answer left (attempt + 1) in
      if ltb attempt config.commit_max_retries
      then (rest.0, commit_retry (attempt + 1) ∷ wait (backoff_ms config attempt) ∷ rest.1)
      else rest
]

unfoldable pub commit_with_retry : EventStoreConfig → (ℕ → Attempt) → Bool × List CommitEffect
commit_with_retry config answer = attempts config answer (config.commit_max_retries + 1) 0

module _ {V : Type 0} where
  unfoldable pub event_to_row : Stringify V → InvocationEvent V → EventRow
  event_to_row print e = record {
    id = e.id;
    seq = e.seq;
    kind = e.kind;
    ref = e.ref;
    at = e.at;
    ts = e.ts;
    owner = e.owner;
    repo = e.repo;
    workflow = e.workflow;
    workflow_sha = e.workflow_sha;
    name = e.name;
    input = column print.value e.input;
    output = column print.value e.output;
    error = column print.failure e.error;
    meta = column print.dispatch e.dispatch;
  }

module _ {V : Type 0} where
  -- The table after `commitWithRetry` on a batch: its rows are inserted where an attempt is stored.
  unfoldable pub insert_batch :
      EventStoreConfig
      → Stringify V
      → (ℕ → Attempt)
      → List (InvocationEvent V)
      → List EventRow
      → List EventRow
  insert_batch config print answer batch rows =
      if (commit_with_retry config answer).0 then rows ++ map (event_to_row print) batch else rows

-- The events of each invocation in flight.
abbrev pub Accumulator : Type 0 → Type 0
Accumulator V = List (String × List (InvocationEvent V))

pub record EventStore (V : Type 0) : Type 0 where
  pub accumulator : Accumulator V
  pub stopped : Bool

module _ {V : Type 0} where
  unfoldable pub create_event_store : EventStore V
  create_event_store = record { accumulator = []; stopped = false }

  unfoldable pub append_to_accumulator : InvocationEvent V → Accumulator V → Accumulator V
  append_to_accumulator e acc = elim (get e.id acc) [
    | none ↦ set e.id (e ∷ []) acc
    | some events ↦ set e.id (snoc events e) acc
  ]

  -- `commitInvocation` up to its wait: the accumulator without the invocation, and the batch.
  unfoldable pub take_batch :
      String → Accumulator V → Accumulator V × Option (List (InvocationEvent V))
  take_batch id acc = elim (get id acc) [
    | none ↦ (acc, none)
    | some [] ↦ (acc, none)
    | some (e ∷ events) ↦ (delete id acc, some (e ∷ events))
  ]

  unfoldable pub record_event :
      InvocationEvent V → EventStore V → EventStore V × Option (List (InvocationEvent V))
  record_event e s =
      if s.stopped
      then (s, none)
      else (let acc = append_to_accumulator e s.accumulator in
          if is_terminal e.kind
          then (let (rest, batch) = take_batch e.id acc in (record s { accumulator = rest }, batch))
          else (record s { accumulator = acc }, none))

  -- The event that ends an invocation at shutdown, after its first and its last event; `now` is the
  -- time as a text.
  pub synthetic :
      String → String → InvocationEvent V → Option (InvocationEvent V) → InvocationEvent V
  synthetic now id first last = record {
    event = record {
      kind = "trigger.error";
      seq = (elim last [ none ↦ 0 | some e ↦ e.seq + 1 ]);
      ref = none;
      at = now;
      ts = (elim last [ none ↦ 0 | some e ↦ e.ts ]);
      name = first.name;
      input = none;
      output = none;
      error = some (record {
        message = "runtime shutting down";
        stack = none;
        issues = none;
        kind = some shutdown;
      });
    };
    id = id;
    owner = first.owner;
    repo = first.repo;
    workflow = first.workflow;
    workflow_sha = first.workflow_sha;
    dispatch = none;
  }

  -- The loop of `drainAndClose`: the reading of the clock in each round, and the batches that
  -- are committed. An invocation without events is dropped.
  pub drain :
      ℕ → String → (ℕ → ℕ) → ℕ → Accumulator V → Accumulator V × List (List (InvocationEvent V))
  drain deadline now clock round [] = ([], [])
  drain deadline now clock round ((id, events) ∷ acc) =
      let rest = drain deadline now clock (round + 1) acc in
      if leb deadline (clock round) then ((id, events) ∷ acc, []) else elim (head? events) [
        | none ↦ rest
        | some first ↦ (rest.0, snoc events (synthetic now id first (last? events)) ∷ rest.1)
      ]

  pub drain_and_close :
      EventStoreConfig
      → ℕ
      → String
      → (ℕ → ℕ)
      → EventStore V
      → EventStore V × List (List (InvocationEvent V))
  drain_and_close config start now clock s =
      let (left, batches) =
        drain (start + config.sigterm_flush_timeout_ms) now clock 0 s.accumulator in
      (record { accumulator = left; stopped = true }, batches)

-- The order of the database on texts.
pub record TextOrder : Type 0 where
  pub before : String → String → Bool
  pub before_trans : (a b c : String) → before a b ≡ true → before b c ≡ true → before a c ≡ true
  pub before_up : (a b c : String) → before a b ≡ false → before a c ≡ true → before b c ≡ true

abbrev pub rows_of : String → List EventRow → List EventRow
rows_of id = keep (λ r. r.id == id)

-- The ids of the table, each once.
pub ids : List EventRow → List String
ids [] = []
ids (r ∷ rows) = r.id ∷ keep (λ id. not (id == r.id)) (ids rows)

module _ (order : TextOrder) where
  -- `max("at")` over the rows of one invocation.
  pub max_at : List EventRow → Option String
  max_at [] = none
  max_at (r ∷ rows) = elim (max_at rows) [
    | none ↦ some r.at
    | some m ↦ if order.before r.at m then some m else some r.at
  ]

  -- `HAVING max("at") < cutoff` for the group of an id.
  abbrev pub is_older : String → Option String → Bool
  is_older cutoff none = false
  is_older cutoff (some at) = order.before at cutoff

  abbrev pub is_expired : String → List EventRow → String → Bool
  is_expired cutoff rows id = is_older cutoff (max_at (rows_of id rows))

  -- The transaction: the count of the expired invocations and, unless it is zero, the deletion.
  pub prune : Bool → String → List EventRow → List EventRow × ℕ
  prune stopped cutoff rows =
      let invocations = length (keep (is_expired cutoff rows) (ids rows)) in
      if stopped
      then (rows, 0)
      else if invocations == 0
      then (rows, 0)
      else (keep (λ r. not (is_expired cutoff rows r.id)) rows, invocations)

pub record Scope : Type 0 where
  pub owner : String
  pub repo : String

-- The rows that a query starts from; without scopes it throws.
pub query : List Scope → List EventRow → Option (List EventRow)
query [] rows = none
query (s ∷ scopes) rows =
    some (keep (λ r. any (λ t. r.owner == t.owner && r.repo == t.repo) (s ∷ scopes)) rows)

pub has_upload_event : String → String → String → String → List EventRow → Bool
has_upload_event owner repo workflow workflow_sha rows = ltb 0 (
    length (
      keep
        (λ r.
          r.kind == "system.upload"
          && r.owner == owner
          && r.repo == repo
          && r.workflow == workflow
          && r.workflow_sha == workflow_sha)
        rows))

abbrev pub ms_per_day : ℕ
ms_per_day = 86400000

-- The interval of the scheduled prunes, a hundred in each window.
pub prune_interval_ms : ℕ → ℕ
prune_interval_ms retention_days = max 1 (retention_days * ms_per_day / 100)
