-- ===== src/Runtime/QueueStore/Partitions.antt =====
-- queue-store.ts: the rows of one partition (owner, repo, workflow, queue, key), and which of them
-- `get` and `put` touch.
use workflow_engine.Prelude.{
  ℕ, suc, ◌≡◌, ◌≤◌, refl, ap, String, Bool, true, false, not, ◌&&◌, none, some, List, [], ◌∷◌, ◌==◌,
  nat_eq, string_eq, eq_self, eq_iff, keep, All, keep_when_false, keep_when_true, arith, inl, inr,
  Bool-cases, ◌∙◌, ◌⊎◌, All-mono, subst,
}
use workflow_engine.Runtime.QueueStore.{QueueScope, QueueItem, in_partition, min_seq, same_scope}

-- The rows of a partition, the oldest first: the abstract queue.
abbrev pub partition : QueueScope → String → List QueueItem → List QueueItem
partition scope key rows = keep (in_partition scope key) rows

-- The rows stand in the order of their numbers, from `lo` on.
abbrev pub Ascending : ℕ → List QueueItem → Type 0
Ascending lo [] = Unit
Ascending lo (row ∷ rows) = (lo ≤ row.seq) × Ascending (suc row.seq) rows

Ascending-lower : (lo k : ℕ) (rows : List QueueItem) → lo ≤ k → Ascending k rows → Ascending lo rows
Ascending-lower lo k [] w h = tt
Ascending-lower lo k (row ∷ rows) w (p, h) = (omega arith, h)

pub Ascending-keep :
    (p : QueueItem → Bool) (lo : ℕ) (rows : List QueueItem)
    → Ascending lo rows
    → Ascending lo (keep p rows)
Ascending-keep p lo [] h = tt
Ascending-keep p lo (row ∷ rows) (b, h) = elim (Bool-cases (p row)) [
  | inl e ↦ rw e (b, Ascending-keep p (suc row.seq) rows h)
  | inr e ↦ rw e (
      Ascending-lower lo (suc row.seq) (keep p rows) (omega arith)
        (Ascending-keep p (suc row.seq) rows h))
]

min_seq-ge :
    (lo : ℕ) (rows : List QueueItem)
    → Ascending lo rows
    → (min_seq rows ≡ none) ⊎ ((n : ℕ) × (min_seq rows ≡ some n) × (lo ≤ n))
unfolding min_seq
min_seq-ge lo [] h = inl refl
min_seq-ge lo (row ∷ rows) (b, h) = elim (min_seq-ge (suc row.seq) rows h) [
  | inl e ↦ inr (row.seq, rw (e, min_seq) refl, b)
  | inr (n, e, g) ↦ inr (row.seq, rw (e, min_seq) (ground arith), b)
]

pub min_seq_lem :
    (lo : ℕ) (row : QueueItem) (rows : List QueueItem)
    → Ascending lo (row ∷ rows)
    → min_seq (row ∷ rows) ≡ some row.seq
unfolding min_seq
min_seq_lem lo row rows (b, h) = elim (min_seq-ge (suc row.seq) rows h) [
  | inl e ↦ rw (e, min_seq) refl
  | inr (n, e, g) ↦ rw (e, min_seq) (ground arith)
]

-- A row in two partitions shows that they are one.
pub in_partition_unique :
    (s t : QueueScope) (k j : String) (row : QueueItem)
    → in_partition t j row ≡ true
    → in_partition s k row ≡ (same_scope t s && (j == k))
in_partition_unique s t k j row h = ground (
  arith,
  eq_iff row.owner t.owner,
  eq_iff row.repo t.repo,
  eq_iff row.workflow t.workflow,
  eq_iff row.queue t.queue,
  eq_iff row.key j,
)

above :
    (p : QueueItem → Bool) (n lo : ℕ) (rows : List QueueItem)
    → suc n ≤ lo
    → Ascending lo rows
    → All (λ row. (p row && (row.seq == n)) ≡ false) rows
above p n lo [] w h = tt
above p n lo (row ∷ rows) w (b, h) = (ground arith, above p n (suc row.seq) rows (omega arith) h)

-- What `get` deletes and keeps of the table, where `p` tells the partition and `n` is the number.
abbrev pub hits : (QueueItem → Bool) → ℕ → List QueueItem → List QueueItem
hits p n = keep (λ row. p row && (row.seq == n))

abbrev pub misses : (QueueItem → Bool) → ℕ → List QueueItem → List QueueItem
misses p n = keep (λ row. not (p row && (row.seq == n)))

misses_above :
    (p : QueueItem → Bool) (n : ℕ) (rows : List QueueItem)
    → Ascending (suc n) rows
    → (hits p n rows ≡ []) × (misses p n rows ≡ rows)
misses_above p n rows h =
    let none_hit = above p n (suc n) rows (omega arith) h in
    (
      keep_when_false _ rows none_hit,
      keep_when_true _ rows (All-mono (λ row e. ap not e) rows none_hit),
    )

hit_head :
    (p : QueueItem → Bool) (lo : ℕ) (x : QueueItem) (rows : List QueueItem)
    → Ascending lo (x ∷ rows)
    → p x ≡ true
    → (hits p x.seq (x ∷ rows) ≡ x ∷ []) × (keep p (misses p x.seq (x ∷ rows)) ≡ keep p rows)
hit_head p lo x rows (b, h) t =
    let (none_hit, all_kept) = misses_above p x.seq rows h in
    rw (t, eq_self x.seq) (ap (◌∷◌ x) none_hit, ap (keep p) all_kept)

-- The first row of a partition, deleted by its number.
pub hit_first :
    (p : QueueItem → Bool) (lo : ℕ) (r : QueueItem) (rs rows : List QueueItem)
    → Ascending lo rows
    → keep p rows ≡ r ∷ rs
    → (hits p r.seq rows ≡ r ∷ []) × (keep p (misses p r.seq rows) ≡ rs)
hit_first p lo r rs [] h e = absurd (cc)
hit_first p lo r rs (x ∷ rows) (b, h) e = elim (Bool-cases (p x)) [
  | inl t ↦
      let whole : x ∷ keep p rows ≡ r ∷ rs = rw t at e in
      let same : x ≡ r = cc whole in
      let rest : keep p rows ≡ rs = cc whole in
      let (a, c) = hit_head p lo x rows (b, h) t in
      subst (λ y. (hits p y.seq (x ∷ rows) ≡ y ∷ []) × (keep p (misses p y.seq (x ∷ rows)) ≡ rs))
        same (a, c ∙ rest)
  | inr f ↦ let (a, c) = hit_first p (suc x.seq) r rs rows h (rw f at e) in rw f (a, rw f c)
]

-- A test that no row of the partition passes does not see the deletion.
pub misses_elsewhere :
    (p q : QueueItem → Bool) (n : ℕ) (rows : List QueueItem)
    → ((row : QueueItem) → q row ≡ true → p row ≡ false)
    → keep q (misses p n rows) ≡ keep q rows
misses_elsewhere p q n [] d = refl
misses_elsewhere p q n (x ∷ rows) d = elim (Bool-cases (q x)) [
  | inl t ↦ rw (d x t) (rw t (ap (◌∷◌ x) (misses_elsewhere p q n rows d)))
  | inr f ↦ elim (Bool-cases (p x && (x.seq == n))) [
    | inl hit ↦ rw hit (rw f (misses_elsewhere p q n rows d))
    | inr miss ↦ rw miss (rw f (misses_elsewhere p q n rows d))
  ]
]
