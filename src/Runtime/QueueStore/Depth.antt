-- ===== src/Runtime/QueueStore/Depth.antt =====
-- queue-store.ts: when `put` accepts an item, and the cap on the rows of a workflow.
use Prim.Native.String.{len}
use workflow_engine.Prelude.{
  ℕ, ◌≡◌, ◌≤◌, ◌<◌, refl, ap, String, Bool, true, ◌&&◌, some, List, [], ◌∷◌, leb, ltb, ◌==◌, nat_eq,
  string_eq, eq_iff, length, length-append, keep, snoc, keep-append, keep_cong, All, All-append,
  All-keep, length-keep-keep-le, arith, inl, inr, Bool-cases, Option-cases, append-nil, ◌⊎◌,
}
use workflow_engine.Runtime.QueueStore.{
  Json, QueueScope, QueueItem, ProducerMeta, Failure, Result, ok, err, put, get, check_put,
  workflow_depth, in_workflow, max_item_bytes, remove_declaration, WorkflowQueueScope, reconcile,
  remove_all,
}

abbrev pub new_row : QueueScope → String → ProducerMeta → ℕ → String → QueueItem
new_row s k p seq text = record { scope = s; key = k; seq = seq; producer = p; item = text }

module _ {V A : Type 0} where
  pub Result-cases : (r : Result V A) → ((a : A) × (r ≡ ok a)) ⊎ ((f : Failure V) × (r ≡ err f))
  Result-cases (ok a) = inl (a, refl)
  Result-cases (err f) = inr (f, refl)

module _ {V : Type 0} (json : Json V) where
  -- What `put` has checked when it inserts a row.
  pub accepted :
      (max_depth : ℕ) (s : QueueScope) (v : V) (k : String) (p : ProducerMeta) (seq : ℕ)
      (rows : List QueueItem) (row : QueueItem)
      → check_put json max_depth s v k p seq rows ≡ ok row
      → (text : String) × (json.stringify v ≡ some text)
        × (row ≡ new_row s k p seq text)
        × (len text ≤ max_item_bytes)
        × (workflow_depth s rows < max_depth)
  unfolding check_put
  accepted max_depth s v k p seq rows row e = elim (Option-cases (json.stringify v)) [
    | inl n ↦ absurd (let wrong = rw (n, check_put) at e in cc wrong)
    | inr (text, t) ↦
        (let e2 = rw (t, check_put) at e in
          elim (Bool-cases (ltb max_item_bytes (len text))) [
            | inl big ↦ absurd (let wrong = rw (big, check_put) at e2 in cc wrong)
            | inr small ↦
                (let e3 = rw (small, check_put) at e2 in
                  elim (Bool-cases (leb max_depth (workflow_depth s rows))) [
                    | inl full ↦ absurd (let wrong = rw (full, check_put) at e3 in cc wrong)
                    | inr free ↦
                        (let e4 = rw (free, check_put) at e3 in
                          (text, t, cc e4, ground arith, ground arith))
                  ])
          ])
  ]

depth_same :
    (s t : QueueScope) (rows : List QueueItem)
    → (s.owner == t.owner && s.repo == t.repo && s.workflow == t.workflow) ≡ true
    → workflow_depth t rows ≡ workflow_depth s rows
unfolding workflow_depth
depth_same s t rows h = ap length (
    keep_cong (in_workflow t) (in_workflow s) rows (λ row.
      ground (arith, eq_iff s.owner t.owner, eq_iff s.repo t.repo, eq_iff s.workflow t.workflow)))

-- No item is larger, and no workflow has more rows, than the caps allow.
abbrev pub IsBounded : ℕ → List QueueItem → Type 0
IsBounded max_depth rows =
    ((t : QueueScope) → workflow_depth t rows ≤ max_depth)
    × All (λ row. len row.item ≤ max_item_bytes) rows

depth-keep :
    (q : QueueItem → Bool) (t : QueueScope) (rows : List QueueItem)
    → workflow_depth t (keep q rows) ≤ workflow_depth t rows
unfolding workflow_depth
depth-keep q t rows = length-keep-keep-le (in_workflow t) q rows

keep-IsBounded :
    (max_depth : ℕ) (q : QueueItem → Bool) (rows : List QueueItem)
    → IsBounded max_depth rows
    → IsBounded max_depth (keep q rows)
keep-IsBounded max_depth q rows (d, h) =
    (λ t. let a = depth-keep q t rows in let b = d t in omega (arith), All-keep _ q rows h)

depth-snoc :
    (max_depth : ℕ) (t : QueueScope) (row : QueueItem) (rows : List QueueItem)
    → workflow_depth t rows ≤ max_depth
    → workflow_depth row.scope rows < max_depth
    → workflow_depth t (snoc rows row) ≤ max_depth
unfolding workflow_depth
depth-snoc max_depth t row rows h free = elim (Bool-cases (in_workflow t row)) [
  | inl e ↦
      (let same = depth_same row.scope t rows e in
        rw (keep-append (in_workflow t) rows (row ∷ []))
          (rw e (let l = length-append (keep (in_workflow t) rows) (row ∷ []) in omega arith)))
  | inr e ↦
      rw (keep-append (in_workflow t) rows (row ∷ []))
        (rw e (rw (append-nil (keep (in_workflow t) rows)) h))
]

-- A call of the store that changes the table.
pub data Operation (V : Type 0) : Type 0 where
  puts : QueueScope → V → String → ProducerMeta → ℕ → Operation V
  gets : QueueScope → String → Operation V
  removes : WorkflowQueueScope → Operation V
  reconciles : List QueueScope → Operation V

module _ {V : Type 0} (json : Json V) (max_depth : ℕ) where
  pub operate : Operation V → List QueueItem → List QueueItem
  operate (puts s v k p seq) rows = (put json max_depth s v k p seq rows).0
  operate (gets s k) rows = (get json s k rows).0
  operate (removes w) rows = (remove_declaration w rows).0
  operate (reconciles tuples) rows = (reconcile tuples rows).0

  pub history : List (Operation V) → List QueueItem → List QueueItem
  history [] rows = rows
  history (o ∷ os) rows = history os (operate o rows)

  put-IsBounded :
      (s : QueueScope) (v : V) (k : String) (p : ProducerMeta) (seq : ℕ) (rows : List QueueItem)
      → IsBounded max_depth rows
      → IsBounded max_depth (put json max_depth s v k p seq rows).0
  unfolding put
  put-IsBounded s v k p seq rows (d, h) =
      elim (Result-cases (check_put json max_depth s v k p seq rows)) [
        | inr (f, e) ↦ rw e (d, h)
        | inl (row, e) ↦
            (let (text, t, r, small, free) = accepted json max_depth s v k p seq rows row e in
              rw (e, r)
                (
                  λ t. depth-snoc max_depth t (new_row s k p seq text) rows (d t) free,
                  All-append _ rows (new_row s k p seq text ∷ []) h (small, tt),
                ))
      ]

  remove_all-IsBounded :
      (os : List QueueScope) (rows : List QueueItem)
      → IsBounded max_depth rows
      → IsBounded max_depth (remove_all os rows).0
  unfolding remove_all remove_declaration
  remove_all-IsBounded [] rows h = h
  remove_all-IsBounded (o ∷ os) rows h =
      remove_all-IsBounded os _ (keep-IsBounded max_depth _ rows h)

  operate-IsBounded :
      (o : Operation V) (rows : List QueueItem)
      → IsBounded max_depth rows
      → IsBounded max_depth (operate o rows)
  unfolding operate get remove_declaration reconcile
  operate-IsBounded (puts s v k p seq) rows h = put-IsBounded s v k p seq rows h
  operate-IsBounded (gets s k) rows h = keep-IsBounded max_depth _ rows h
  operate-IsBounded (removes w) rows h = keep-IsBounded max_depth _ rows h
  operate-IsBounded (reconciles tuples) rows h = remove_all-IsBounded _ rows h

  history-keeps :
      (os : List (Operation V)) (rows : List QueueItem)
      → IsBounded max_depth rows
      → IsBounded max_depth (history os rows)
  unfolding history
  history-keeps [] rows h = h
  history-keeps (o ∷ os) rows h = history-keeps os (operate o rows) (operate-IsBounded o rows h)

  empty-IsBounded : IsBounded max_depth []
  unfolding workflow_depth
  empty-IsBounded = (λ t. omega arith, tt)

  -- Whatever puts, gets, removals and reconciliations are made, one after the other, on a table that
  -- is empty at first, each workflow has at most the allowed number of rows over all its queues, and
  -- each item at most the allowed number of bytes.
  pub history-IsBounded : (os : List (Operation V)) → IsBounded max_depth (history os [])
  history-IsBounded os = history-keeps os [] empty-IsBounded
