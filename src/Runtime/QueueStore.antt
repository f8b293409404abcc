-- ===== src/Runtime/QueueStore.antt =====
-- packages/runtime/src/queue-store.ts: the durable FIFO queues. The table `queue_items` is a list of
-- rows; each SQL statement of the source is a function on it. The database picks the `seq` of an
-- inserted row (AUTOINCREMENT): it is an argument of `put`. `JSON` is the interface `Json`, and a
-- date is its ISO text. `put` is its check and its insertion one after the other.
pub mod Partitions
pub mod Fifo
pub mod Depth
pub mod Reconcile
mod Tests
use Prim.Native.String
use Prim.Native.String.{len}
use workflow_engine.Prelude.{
  ℕ, ◌+◌, ◌≡◌, ◌≢◌, String, Bool, true, false, not, ◌&&◌, Option, none, some, List, [], ◌∷◌, ◌++◌,
  map, ltb, leb, ◌==◌, nat_eq, string_eq, length, keep, snoc, take, drop, any, if◌then◌else◌,
}

-- `JSON.stringify`, which gives no text for some values, and `JSON.parse`, which may throw. There is no
-- law: some values, such as NaN, are read back as others.
pub record Json (V : Type 0) : Type 0 where
  pub stringify : V → Option String
  pub parse : String → Option V

abbrev pub max_item_bytes : ℕ
max_item_bytes = 1024

abbrev pub max_key_bytes : ℕ
max_key_bytes = 128

abbrev pub max_workflow_queue_depth : ℕ
max_workflow_queue_depth = 1000

pub record QueueScope : Type 0 where
  pub owner : String
  pub repo : String
  pub workflow : String
  pub queue : String

pub record ProducerMeta : Type 0 where
  pub enqueued_at : String
  pub invocation_id : String
  pub trigger_kind : String
  pub trigger_name : String

-- A row of `queue_items`.
pub record QueueItem : Type 0 where
  pub scope : QueueScope
  pub open scope use *
  pub key : String
  pub seq : ℕ
  pub producer : ProducerMeta
  pub item : String

pub record PoppedRow (V : Type 0) : Type 0 where
  pub item : V
  pub key : String
  pub producer : ProducerMeta

pub data QueueErrorCode : Type 0 where
  item_too_large key_too_large full schema_mismatch gone not_declared : QueueErrorCode

-- `JSON.parse` on a stored item is the only other throw.
pub data Failure (V : Type 0) : Type 0 where
  queue_error : QueueErrorCode → Option V → Failure V
  syntax_error : Failure V

pub data Result (V A : Type 0) : Type 0 where
  ok : A → Result V A
  err : Failure V → Result V A

-- The WHERE clauses over the tenant tuple.
abbrev pub in_workflow : QueueScope → QueueItem → Bool
in_workflow scope row =
    row.owner == scope.owner && row.repo == scope.repo && row.workflow == scope.workflow

abbrev pub in_queue : QueueScope → QueueItem → Bool
in_queue scope row = in_workflow scope row && row.queue == scope.queue

abbrev pub in_partition : QueueScope → String → QueueItem → Bool
in_partition scope key row = in_queue scope row && row.key == key

pub count : QueueScope → List QueueItem → ℕ
count scope rows = length (keep (in_queue scope) rows)

unfoldable pub workflow_depth : QueueScope → List QueueItem → ℕ
workflow_depth scope rows = length (keep (in_workflow scope) rows)

-- `SELECT MIN(seq)`.
pub min_seq : List QueueItem → Option ℕ
min_seq [] = none
min_seq (row ∷ rows) = elim (min_seq rows) [
  | none ↦ some row.seq
  | some n ↦ if leb row.seq n then some row.seq else some n
]

-- The rows that `get` deletes.
abbrev pub popped_by : QueueScope → String → Option ℕ → QueueItem → Bool
popped_by scope key none row = false
popped_by scope key (some n) row = in_partition scope key row && row.seq == n

module _ {V : Type 0} (json : Json V) where
  -- The row that `put` inserts, or the error that it throws before it does.
  unfoldable pub check_put :
      ℕ → QueueScope → V → String → ProducerMeta → ℕ → List QueueItem → Result V QueueItem
  check_put max_depth scope item key producer seq rows = elim (json.stringify item) [
    | none ↦ err (queue_error item_too_large none)
    | some text ↦
        if ltb max_item_bytes (len text)
        then err (queue_error item_too_large none)
        else if leb max_depth (workflow_depth scope rows)
        then err (queue_error full none)
        else ok (record { scope = scope; key = key; seq = seq; producer = producer; item = text })
  ]

  abbrev pub inserted : List QueueItem → Result V QueueItem → List QueueItem × Result V (Unit {0})
  inserted rows (ok row) = (snoc rows row, ok tt)
  inserted rows (err failure) = (rows, err failure)

  unfoldable pub put :
      ℕ
      → QueueScope
      → V
      → String
      → ProducerMeta
      → ℕ
      → List QueueItem
      → List QueueItem × Result V (Unit {0})
  put max_depth scope item key producer seq rows =
      inserted rows (check_put max_depth scope item key producer seq rows)

  pub row_to_meta : QueueItem → Result V (PoppedRow V)
  row_to_meta row = elim (json.parse row.item) [
    | none ↦ err syntax_error
    | some item ↦ ok (record { item = item; key = row.key; producer = row.producer })
  ]

  abbrev pub first_row : List QueueItem → Option (Result V (PoppedRow V))
  first_row [] = none
  first_row (row ∷ rows) = some (row_to_meta row)

  -- `DELETE … WHERE seq = (SELECT MIN(seq) …) RETURNING …`, and its first row; `none` is `undefined`.
  unfoldable pub get :
      QueueScope → String → List QueueItem → List QueueItem × Option (Result V (PoppedRow V))
  get scope key rows =
      let hit = popped_by scope key (min_seq (keep (in_partition scope key) rows)) in
      (keep (λ row. not (hit row)) rows, first_row (keep hit rows))

-- The tenant tuple of `removeDeclaration`; without a queue it is the whole workflow.
pub record WorkflowQueueScope : Type 0 where
  pub owner : String
  pub repo : String
  pub workflow : String
  pub queue : Option String

abbrev pub declared_by : WorkflowQueueScope → QueueItem → Bool
declared_by scope row =
    row.owner == scope.owner
    && row.repo == scope.repo
    && row.workflow == scope.workflow
    && (elim scope.queue [ none ↦ true | some queue ↦ row.queue == queue ])

unfoldable pub remove_declaration : WorkflowQueueScope → List QueueItem → List QueueItem × ℕ
remove_declaration scope rows =
    (keep (λ row. not (declared_by scope row)) rows, length (keep (declared_by scope) rows))

pub tuple_key : QueueScope → String
tuple_key t = String.◌++◌ t.owner (
    String.◌++◌ " "
      (String.◌++◌ t.repo (String.◌++◌ " " (String.◌++◌ t.workflow (String.◌++◌ " " t.queue)))))

abbrev pub same_scope : QueueScope → QueueScope → Bool
same_scope s t =
    s.owner == t.owner && s.repo == t.repo && s.workflow == t.workflow && s.queue == t.queue

-- `SELECT DISTINCT owner, repo, workflow, queue`.
pub distinct_scopes : List QueueItem → List QueueScope
distinct_scopes [] = []
distinct_scopes (row ∷ rows) =
    let rest = distinct_scopes rows in
    if any (same_scope row.scope) rest then rest else row.scope ∷ rest

-- `!declaredKey.has(tupleKey(p))`.
abbrev pub is_orphan : List QueueScope → QueueScope → Bool
is_orphan tuples p = not (any (λ t. tuple_key t == tuple_key p) tuples)

abbrev pub whole : QueueScope → WorkflowQueueScope
whole s = record { owner = s.owner; repo = s.repo; workflow = s.workflow; queue = some s.queue }

-- The deletions of `reconcile`, one after the other, and the sum of their counts.
pub remove_all : List QueueScope → List QueueItem → List QueueItem × ℕ
remove_all [] rows = (rows, 0)
remove_all (o ∷ os) rows =
    let (kept, removed) = remove_declaration (whole o) rows in
    let (final, more) = remove_all os kept in (final, removed + more)

pub reconcile : List QueueScope → List QueueItem → List QueueItem × ℕ
reconcile tuples rows = remove_all (keep (is_orphan tuples) (distinct_scopes rows)) rows

-- `ORDER BY seq ASC`.
pub insert_by_seq : QueueItem → List QueueItem → List QueueItem
insert_by_seq r [] = r ∷ []
insert_by_seq r (row ∷ rows) =
    let rest = insert_by_seq r rows in if leb r.seq row.seq then r ∷ row ∷ rows else row ∷ rest

pub order_by_seq : List QueueItem → List QueueItem
order_by_seq [] = []
order_by_seq (row ∷ rows) = insert_by_seq row (order_by_seq rows)

-- The rows of a page of `list`.
pub list_rows : QueueScope → ℕ → ℕ → List QueueItem → List QueueItem
list_rows scope offset limit rows =
    take limit (drop offset (order_by_seq (keep (in_queue scope) rows)))
