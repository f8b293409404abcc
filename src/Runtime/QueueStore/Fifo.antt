-- ===== src/Runtime/QueueStore/Fifo.antt =====
-- queue-store.ts: `put` and `get` as they act on the partitions.
use workflow_engine.Prelude.{
  ℕ, ◌≡◌, refl, ap, String, true, false, ◌&&◌, none, some, List, [], ◌∷◌, ◌==◌, nat_eq, string_eq,
  eq_iff, eq_self, keep, snoc, tail, keep_cong, keep_everything, keep-append, if◌then◌else◌, arith,
  inl, inr, Bool-cases, ◌∙◌, append-nil, subst, ◌⊎◌,
}
use workflow_engine.Runtime.QueueStore.{
  Json, QueueScope, QueueItem, ProducerMeta, Failure, ok, err, in_partition, min_seq, same_scope,
  put, get, check_put, first_row, row_to_meta,
}
use workflow_engine.Runtime.QueueStore.Depth.{accepted, new_row, Result-cases}
use workflow_engine.Runtime.QueueStore.Partitions.{
  partition, Ascending, Ascending-keep, min_seq_lem, in_partition_unique, misses, hit_first,
  misses_elsewhere,
}

-- One partition under two names.
partition_same :
    (s t : QueueScope) (k j : String) (rows : List QueueItem)
    → (same_scope t s && (j == k)) ≡ true
    → partition t j rows ≡ partition s k rows
partition_same s t k j rows h = keep_cong (in_partition t j) (in_partition s k) rows (λ row.
    ground (
      arith,
      eq_iff t.owner s.owner,
      eq_iff t.repo s.repo,
      eq_iff t.workflow s.workflow,
      eq_iff t.queue s.queue,
      eq_iff j k,
    ))

List-cases :
    (rows : List QueueItem)
    → (rows ≡ []) ⊎ ((r : QueueItem) × (rs : List QueueItem) × (rows ≡ r ∷ rs))
List-cases [] = inl refl
List-cases (r ∷ rs) = inr (r, rs, refl)

keep_nothing : (rows : List QueueItem) → keep (λ row. false) rows ≡ []
keep_nothing [] = refl
keep_nothing (x ∷ rows) = keep_nothing rows

module _ {V : Type 0} (json : Json V) where
  get-empty :
      (s : QueueScope) (k : String) (rows : List QueueItem)
      → partition s k rows ≡ []
      → get json s k rows ≡ (rows, none)
  unfolding get min_seq
  get-empty s k rows e = rw (e, keep_everything rows, keep_nothing rows) refl

  get-first :
      (s : QueueScope) (k : String) (lo : ℕ) (r : QueueItem) (rs rows : List QueueItem)
      → Ascending lo rows
      → partition s k rows ≡ r ∷ rs
      → get json s k rows ≡ (misses (in_partition s k) r.seq rows, some (row_to_meta json r))
  unfolding get
  get-first s k lo r rs rows h e =
      let low : min_seq (partition s k rows) ≡ some r.seq =
        (let kept : Ascending lo (partition s k rows) =
            Ascending-keep (in_partition s k) lo rows h in
          rw e (min_seq_lem lo r rs (rw e at kept))) in
      rw (low, (hit_first (in_partition s k) lo r rs rows h e).0) refl

  -- Whatever partition (t, j) is looked at, when a `get` deletes a row of (s, k).
  others :
      (s t : QueueScope) (k j : String) (n : ℕ) (rows : List QueueItem)
      → (same_scope t s && (j == k)) ≡ false
      → partition t j (misses (in_partition s k) n rows) ≡ partition t j rows
  others s t k j n rows f =
      misses_elsewhere (in_partition s k) (in_partition t j) n rows
        (λ row inside. in_partition_unique s t k j row inside ∙ f)

  get_here :
      (s : QueueScope) (k : String) (lo : ℕ) (rows : List QueueItem)
      → Ascending lo rows
      → ((get json s k rows).1 ≡ first_row json (partition s k rows))
        × (partition s k (get json s k rows).0 ≡ tail (partition s k rows))
        × Ascending lo (get json s k rows).0
  get_here s k lo rows h = elim (List-cases (partition s k rows)) [
    | inl e ↦ rw (get-empty s k rows e, e) (refl, refl, h)
    | inr (r, rs, e) ↦
        rw (get-first s k lo r rs rows h e, e)
          (refl, (hit_first (in_partition s k) lo r rs rows h e).1, Ascending-keep _ lo rows h)
  ]

  get_there :
      (s t : QueueScope) (k j : String) (lo : ℕ) (rows : List QueueItem)
      → Ascending lo rows
      → (same_scope t s && (j == k)) ≡ false
      → ((get json s k rows).1 ≡ first_row json (partition s k rows))
        × (partition t j (get json s k rows).0 ≡ partition t j rows)
        × Ascending lo (get json s k rows).0
  get_there s t k j lo rows h f = elim (List-cases (partition s k rows)) [
    | inl e ↦ rw (get-empty s k rows e, e) (refl, refl, h)
    | inr (r, rs, e) ↦
        rw (get-first s k lo r rs rows h e, e)
          (refl, others s t k j r.seq rows f, Ascending-keep _ lo rows h)
  ]

  -- `get` answers with the oldest row of its partition, which it removes, or with nothing if there
  -- is none; every other partition keeps its rows, and the table its order. The rows of the table
  -- stand in the order of their numbers.
  pub get_fifo :
      (s t : QueueScope) (k j : String) (lo : ℕ) (rows : List QueueItem)
      → Ascending lo rows
      → ((get json s k rows).1 ≡ first_row json (partition s k rows))
        × (partition t j (get json s k rows).0 ≡ (
            if same_scope t s && (j == k) then tail (partition t j rows) else partition t j rows))
        × Ascending lo (get json s k rows).0
  get_fifo s t k j lo rows h = elim (Bool-cases (same_scope t s && (j == k))) [
    | inl same ↦ rw same (
        rw (partition_same s t k j rows same)
          (rw (partition_same s t k j (get json s k rows).0 same) (get_here s k lo rows h)))
    | inr other ↦ rw other (get_there s t k j lo rows h other)
  ]

  inserted-append :
      (t : QueueScope) (j : String) (rows : List QueueItem) (row : QueueItem)
      → partition t j (snoc rows row)
        ≡ (if in_partition t j row then snoc (partition t j rows) row else partition t j rows)
  inserted-append t j rows row = elim (Bool-cases (in_partition t j row)) [
    | inl e ↦ rw (keep-append (in_partition t j) rows (row ∷ [])) (rw e refl)
    | inr e ↦ rw (keep-append (in_partition t j) rows (row ∷ [])) (rw e (append-nil _))
  ]

  -- A value that JSON prints, if at all, as a text that it reads as this value: data of the JSON kind,
  -- and not NaN, a date, or an object with an absent field.
  abbrev pub ReadsBack : V → Type 0
  ReadsBack v = (text : String) → json.stringify v ≡ some text → json.parse text ≡ some v

  reads_back :
      (s : QueueScope) (v : V) (k : String) (p : ProducerMeta) (seq : ℕ) (text : String)
      → ReadsBack v
      → json.stringify v ≡ some text
      → row_to_meta json (new_row s k p seq text) ≡ ok (record { item = v; key = k; producer = p })
  unfolding row_to_meta
  reads_back s v k p seq text law e = rw (law text e, row_to_meta) refl

  rejected_or_appended :
      (max_depth : ℕ) (s : QueueScope) (v : V) (k : String) (p : ProducerMeta) (seq : ℕ)
      (rows : List QueueItem)
      → ((row : QueueItem) × (check_put json max_depth s v k p seq rows ≡ ok row))
        ⊎ ((f : Failure V) × (check_put json max_depth s v k p seq rows ≡ err f))
  rejected_or_appended max_depth s v k p seq rows =
      Result-cases (check_put json max_depth s v k p seq rows)

  placed :
      (s t : QueueScope) (k j : String) (p : ProducerMeta) (seq : ℕ) (text : String)
      → in_partition t j (new_row s k p seq text) ≡ (same_scope s t && (k == j))
  placed s t k j p seq text =
      in_partition_unique t s j k (new_row s k p seq text)
        (rw (eq_self s.owner, eq_self s.repo, eq_self s.workflow, eq_self s.queue, eq_self k) refl)

  appended :
      (s t : QueueScope) (k j : String) (p : ProducerMeta) (seq : ℕ) (text : String)
      (rows : List QueueItem) (row : QueueItem)
      → row ≡ new_row s k p seq text
      → partition t j (snoc rows row)
        ≡ (if same_scope s t && (k == j) then snoc (partition t j rows) row else partition t j rows)
  appended s t k j p seq text rows row r =
      subst
        (λ b.
          partition t j (snoc rows row)
          ≡ (if b then snoc (partition t j rows) row else partition t j rows))
        (ap (in_partition t j) r ∙ placed s t k j p seq text) (inserted-append t j rows row)

  -- A put of a value that JSON reads back, if it succeeds, appends a row to its partition, which reads back
  -- as the item, and leaves the other partitions alone; one that fails leaves the table alone.
  pub put_fifo :
      (max_depth : ℕ) (s t : QueueScope) (v : V) (k j : String) (p : ProducerMeta) (seq : ℕ)
      (rows : List QueueItem)
      → ReadsBack v
      → ((row : QueueItem) × ((put json max_depth s v k p seq rows).1 ≡ ok tt)
          × (row_to_meta json row ≡ ok (record { item = v; key = k; producer = p }))
          × (partition t j (put json max_depth s v k p seq rows).0 ≡ (
              if same_scope s t && (k == j)
              then snoc (partition t j rows) row
              else partition t j rows)))
        ⊎ ((f : Failure V) × (put json max_depth s v k p seq rows ≡ (rows, err f)))
  unfolding put
  put_fifo max_depth s t v k j p seq rows law =
      elim (rejected_or_appended max_depth s v k p seq rows) [
        | inr (f, e) ↦ inr (f, rw e refl)
        | inl (row, e) ↦
            (let (text, t1, r, small, free) = accepted json max_depth s v k p seq rows row e in
              inl (
                row,
                rw e refl,
                rw r (reads_back s v k p seq text law t1),
                rw e (appended s t k j p seq text rows row r),
              ))
      ]
