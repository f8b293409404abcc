-- ===== src/Runtime/QueueStore/Tests.antt =====
-- The queue store at concrete calls.
use workflow_engine.Prelude.{
  ℕ, ◌+◌, ◌≡◌, refl, String, some, List, [], ◌∷◌, tail, length, nat_eq, string_eq, arith,
}
use workflow_engine.Runtime.QueueStore.{
  Json, QueueScope, QueueItem, ProducerMeta, get, first_row, reconcile, tuple_key, min_seq, count,
  workflow_depth, list_rows, order_by_seq, insert_by_seq,
}
use workflow_engine.Runtime.QueueStore.Partitions.{partition, Ascending}
use workflow_engine.Runtime.QueueStore.Fifo.{get_fifo}
use workflow_engine.Runtime.QueueStore.Depth.{
  IsBounded, Operation, puts, gets, reconciles, history, history-IsBounded,
}
use workflow_engine.Runtime.QueueStore.Reconcile.{reconcile_exact}

-- Values that are their own text.
abbrev plain : Json String
plain = record { stringify = λ v. some v; parse = λ s. some s }

abbrev jobs : QueueScope
jobs = record { owner = "o"; repo = "r"; workflow = "w"; queue = "jobs" }

abbrev mails : QueueScope
mails = record { owner = "o"; repo = "r"; workflow = "w"; queue = "mails" }

abbrev producer : ProducerMeta
producer = record {
  enqueued_at = "2026-01-01";
  invocation_id = "i";
  trigger_kind = "cron";
  trigger_name = "t";
}

abbrev row : ℕ → QueueScope → String → String → QueueItem
row n s k v = record { scope = s; key = k; seq = n; producer = producer; item = v }

abbrev table : List QueueItem
table = row 1 jobs "a" "x" ∷ row 2 mails "a" "y" ∷ row 4 jobs "a" "z" ∷ row 5 jobs "b" "u" ∷ []

get_test : (get plain jobs "a" table).0 ≡ tail table
unfolding get min_seq
get_test = refl

table-Ascending : Ascending 1 table
table-Ascending = omega arith

get_fifo_example :
    ((get plain jobs "a" table).1 ≡ first_row plain (partition jobs "a" table))
    × (partition jobs "a" (get plain jobs "a" table).0 ≡ row 4 jobs "a" "z" ∷ [])
    × Ascending 1 (get plain jobs "a" table).0
get_fifo_example = get_fifo plain jobs jobs "a" "a" 1 table table-Ascending

abbrev calls : List (Operation String)
calls =
    puts jobs "1" "a" producer 1
    ∷ puts mails "2" "a" producer 2
    ∷ puts jobs "3" "a" producer 3
    ∷ gets jobs "a"
    ∷ reconciles (jobs ∷ [])
    ∷ []

history-IsBounded_example : IsBounded 2 (history plain 2 calls [])
history-IsBounded_example = history-IsBounded plain 2 calls

reconcile_exact_example :
    ((reconcile (mails ∷ []) table).0 ≡ row 2 mails "a" "y" ∷ [])
    × ((reconcile (mails ∷ []) table).1 + length (reconcile (mails ∷ []) table).0 ≡ 4)
unfolding tuple_key
reconcile_exact_example = reconcile_exact (mails ∷ []) table

-- A page of a queue, whatever the order of the table.
list_rows_test :
    list_rows jobs 1 1 (row 5 jobs "b" "u" ∷ row 1 jobs "a" "x" ∷ []) ≡ row 5 jobs "b" "u" ∷ []
unfolding list_rows order_by_seq insert_by_seq
list_rows_test = refl

counts_test : count jobs table + workflow_depth jobs table ≡ 7
unfolding count workflow_depth
counts_test = refl
