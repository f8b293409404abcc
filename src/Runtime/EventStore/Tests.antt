-- ===== src/Runtime/EventStore/Tests.antt =====
-- Events, attempts and tables with concrete contents.
use Prim.Native.String.{len}
use workflow_engine.Prelude.{
  ℕ, zero, suc, ◌≡◌, ◌≤◌, ◌+◌, ◌*◌, ◌<◌, refl, String, true, false, none, some, List, [], ◌∷◌, ◌++◌,
  arith, ltb, ◌⊎◌, inl, take, drop, string_eq, nat_eq,
}
use workflow_engine.Core.{InvocationEvent}
use workflow_engine.Runtime.EventStore.{
  EventRow, EventStore, EventStoreConfig, Attempt, stored, failed, commit_ok, commit_retry, wait,
  commit_with_retry, backoff_ms, record_event, create_event_store, drain_and_close, synthetic,
  is_terminal, TextOrder, prune, rows_of, ids, query, has_upload_event, prune_interval_ms,
  append_to_accumulator, take_batch,
}
use workflow_engine.Runtime.EventStore.Batches.{records, nothing_lost}
use workflow_engine.Runtime.EventStore.Waiting.{of_id, waiting}
use workflow_engine.Runtime.EventStore.Retry.{commit_with_retry_lem}
use workflow_engine.Runtime.EventStore.Drain.{
  endings, IsIn, drain_and_close_lem, every_invocation_ended,
}
use workflow_engine.Runtime.EventStore.Retention.{prune_lem}

abbrev event : String → String → ℕ → InvocationEvent ℕ
event kind id n = record {
  event = record {
    kind = kind;
    seq = n;
    ref = none;
    at = "now";
    ts = n;
    name = "t";
    input = none;
    output = none;
    error = none;
  };
  id = id;
  owner = "o";
  repo = "r";
  workflow = "w";
  workflow_sha = "s";
  dispatch = none;
}

abbrev history : List (InvocationEvent ℕ)
history =
    event "trigger.request" "a" 0
    ∷ event "trigger.request" "b" 0
    ∷ event "trigger.response" "a" 1
    ∷ event "system.request" "b" 1
    ∷ []

records_test :
    (records history create_event_store).1
    ≡ event "trigger.request" "a" 0 ∷ event "trigger.response" "a" 1 ∷ []
unfolding records create_event_store record_event append_to_accumulator take_batch is_terminal
records_test = refl

nothing_lost_example :
    (of_id "b" (records history create_event_store).1
        ++ waiting "b" (records history create_event_store).0.accumulator
      ≡ of_id "b" history)
    × (waiting "b" (records history create_event_store).0.accumulator
        ≡ event "trigger.request" "b" 0 ∷ event "system.request" "b" 1 ∷ [])
unfolding is_terminal
nothing_lost_example = nothing_lost "b" history

abbrev config : EventStoreConfig
config = record {
  commit_max_retries = 3;
  commit_backoff_ms = 100;
  sigterm_flush_timeout_ms = 50;
  retention_days = 90;
}

-- Two failures, then the batch is stored.
abbrev answers : ℕ → Attempt
answers zero = failed
answers (suc zero) = failed
answers (suc (suc n)) = stored

two_failures : (i : ℕ) → i < 2 → answers i ≡ failed
two_failures zero h = refl
two_failures (suc zero) h = refl
two_failures (suc (suc n)) h = absurd (omega arith)

commit_with_retry_example :
    commit_with_retry config answers
    ≡ (true, commit_retry 1 ∷ wait 100 ∷ commit_retry 2 ∷ wait 200 ∷ commit_ok ∷ [])
unfolding backoff_ms
commit_with_retry_example =
    commit_with_retry_lem config answers 2 (omega arith) two_failures (inl (λ wrong. cc wrong))

abbrev running : EventStore ℕ
running = record {
  accumulator =
      ("b", event "trigger.request" "b" 0 ∷ event "system.request" "b" 1 ∷ [])
      ∷ ("c", event "trigger.request" "c" 0 ∷ [])
      ∷ [];
  stopped = false;
}

drain_and_close_example :
    (k : ℕ) × ((drain_and_close config 0 "now" (λ r. r * 50) running).0.accumulator
      ≡ drop k running.accumulator)
    × ((drain_and_close config 0 "now" (λ r. r * 50) running).1
        ≡ endings "now" (take k running.accumulator))
    × ((k ≡ 2) ⊎ (0 + 50 ≤ k * 50))
    × ((i : ℕ) → i < k → i * 50 < 0 + 50)
drain_and_close_example = drain_and_close_lem config 0 "now" (λ r. r * 50) running

every_invocation_ended_example :
    (let closed = drain_and_close config 0 "now" (λ r. 1) running in
      let end =
        synthetic "now" "b" (event "trigger.request" "b" 0) (some (event "system.request" "b" 1)) in
      (closed.0.accumulator ≡ [])
      × IsIn (event "trigger.request" "b" 0 ∷ event "system.request" "b" 1 ∷ end ∷ []) closed.1
      × (end.id ≡ "b")
      × (is_terminal end.kind ≡ true)
      × (end.seq ≡ 1 + 1)
      × (record_event (event "trigger.response" "b" 2) closed.0 ≡ (closed.0, none)))
every_invocation_ended_example =
    every_invocation_ended config 0 "now" (λ r. 1) running "b" (event "trigger.request" "b" 0)
      (event "system.request" "b" 1 ∷ []) (event "system.request" "b" 1)
      (event "trigger.response" "b" 2) (λ r. omega arith) refl refl

longer_trans :
    (a b c : String)
    → ltb (len a) (len b) ≡ true
    → ltb (len b) (len c) ≡ true
    → ltb (len a) (len c) ≡ true
longer_trans a b c h k = ground arith

longer_up :
    (a b c : String)
    → ltb (len a) (len b) ≡ false
    → ltb (len a) (len c) ≡ true
    → ltb (len b) (len c) ≡ true
longer_up a b c h k = ground arith

-- Texts in the order of their lengths.
abbrev by_length : TextOrder
by_length = record {
  before = λ s t. ltb (len s) (len t);
  before_trans = longer_trans;
  before_up = longer_up;
}

abbrev row : String → String → EventRow
row id at = record {
  id = id;
  seq = 0;
  kind = "system.upload";
  ref = none;
  at = at;
  ts = 0;
  owner = "o";
  repo = "r";
  workflow = "w";
  workflow_sha = "s";
  name = "t";
  input = none;
  output = none;
  error = none;
  meta = none;
}

abbrev table : List EventRow
table = row "a" "1" ∷ row "b" "1" ∷ row "a" "22" ∷ row "b" "333" ∷ []

prune_example :
    (prune by_length true "333" table ≡ (table, 0))
    × (let (left, count) = prune by_length false "333" table in
        (rows_of "a" left ≡ []) × (left ≡ row "b" "1" ∷ row "b" "333" ∷ []) × (count ≡ 1))
unfolding ids
prune_example = prune_lem by_length "333" table "a"

query_test : query (record { owner = "x"; repo = "r" } ∷ []) table ≡ some []
unfolding query
query_test = refl

has_upload_event_test : has_upload_event "o" "r" "w" "s" table ≡ true
unfolding has_upload_event
has_upload_event_test = refl

prune_interval_ms_test : prune_interval_ms 90 ≡ 77760000
unfolding prune_interval_ms
prune_interval_ms_test = refl
