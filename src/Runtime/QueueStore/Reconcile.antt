-- ===== src/Runtime/QueueStore/Reconcile.antt =====
-- queue-store.ts: which rows `reconcile` deletes at boot.
use workflow_engine.Prelude.{
  ◌+◌, ◌≡◌, refl, sym, ap, Bool, true, false, not, ◌&&◌, List, [], ◌∷◌, any, keep, keep_cong,
  keep_cong_on, or_true, keep-keep, keep_everything, not_or, length, All, ◌==◌, nat_eq, string_eq,
  eq_iff, eq_self, All-mono, arith, inl, inr, Bool-cases, ◌∙◌, subst,
}
use workflow_engine.Runtime.QueueStore.{
  QueueScope, QueueItem, same_scope, whole, declared_by, remove_declaration, remove_all, reconcile,
  distinct_scopes, is_orphan, tuple_key,
}

module _ {ℓ} {A : Type ℓ} where
  length-keep-not :
      (p : A → Bool) (xs : List A)
      → length (keep p xs) + length (keep (λ x. not (p x)) xs) ≡ length xs
  length-keep-not p [] = refl
  length-keep-not p (x ∷ xs) = ground (arith, length-keep-not p xs)

not-not : (b : Bool) → not (not b) ≡ b
not-not true = refl
not-not false = refl

pub scope_same : (s t : QueueScope) → same_scope s t ≡ true → t ≡ s
scope_same s t h =
    let o : t.owner ≡ s.owner = ground (arith, eq_iff s.owner t.owner) in
    let r : t.repo ≡ s.repo = ground (arith, eq_iff s.repo t.repo) in
    let w : t.workflow ≡ s.workflow = ground (arith, eq_iff s.workflow t.workflow) in
    let q : t.queue ≡ s.queue = ground (arith, eq_iff s.queue t.queue) in
    λ i. record { owner = o i; repo = r i; workflow = w i; queue = q i }

same_self : (s : QueueScope) → same_scope s s ≡ true
same_self s = rw (eq_self s.owner, eq_self s.repo, eq_self s.workflow, eq_self s.queue) refl

remove_all-kept :
    (os : List QueueScope) (rows : List QueueItem)
    → (remove_all os rows).0 ≡ keep (λ row. not (any (same_scope row.scope) os)) rows
unfolding remove_all remove_declaration
remove_all-kept [] rows = sym (keep_everything rows)
remove_all-kept (o ∷ os) rows =
    remove_all-kept os _
    ∙ keep-keep _ _ rows
    ∙ keep_cong _ _ rows (λ row. not_or (same_scope row.scope o) (any (same_scope row.scope) os))

remove_all-count :
    (os : List QueueScope) (rows : List QueueItem)
    → (remove_all os rows).1 + length (remove_all os rows).0 ≡ length rows
unfolding remove_all remove_declaration
remove_all-count [] rows = omega arith
remove_all-count (o ∷ os) rows =
    let here = length-keep-not (declared_by (whole o)) rows in
    let there = remove_all-count os (keep (λ row. not (declared_by (whole o) row)) rows) in
    omega arith

-- A scope is among the kept ones if it is among all and passes the test.
any-keep :
    (p : QueueScope → Bool) (s : QueueScope) (ys : List QueueScope)
    → any (same_scope s) (keep p ys) ≡ (any (same_scope s) ys && p s)
any-keep p s [] = refl
any-keep p s (y ∷ ys) = elim (Bool-cases (same_scope s y)) [
  | inl e ↦ (let alike : p y ≡ p s = ap p (scope_same s y e) in ground (arith, any-keep p s ys))
  | inr e ↦ ground (arith, any-keep p s ys)
]

scopes_old :
    (row : QueueItem) (rows : List QueueItem)
    → any (same_scope row.scope) (distinct_scopes rows) ≡ true
    → distinct_scopes (row ∷ rows) ≡ distinct_scopes rows
unfolding distinct_scopes
scopes_old row rows e = rw (e, distinct_scopes) refl

scopes_new :
    (row : QueueItem) (rows : List QueueItem)
    → any (same_scope row.scope) (distinct_scopes rows) ≡ false
    → distinct_scopes (row ∷ rows) ≡ row.scope ∷ distinct_scopes rows
unfolding distinct_scopes
scopes_new row rows e = rw (e, distinct_scopes) refl

-- Each row's scope is among those that the table is asked for.
scopes_listed :
    (rows : List QueueItem)
    → All (λ row. any (same_scope row.scope) (distinct_scopes rows) ≡ true) rows
unfolding distinct_scopes
scopes_listed [] = tt
scopes_listed (row ∷ rows) =
    let Listed : List QueueScope → Type 0 =
      λ ds. All (λ x. any (same_scope x.scope) ds ≡ true) (row ∷ rows) in
    elim (Bool-cases (any (same_scope row.scope) (distinct_scopes rows))) [
      | inl e ↦ subst Listed (sym (scopes_old row rows e)) (e, scopes_listed rows)
      | inr e ↦ subst Listed (sym (scopes_new row rows e)) (
        rw (same_self row.scope) refl,
        All-mono (λ x h. or_true (same_scope x.scope row.scope) _ h) rows (scopes_listed rows),
      )
    ]

declared_kept :
    (tuples : List QueueScope) (s : QueueScope) (ys : List QueueScope)
    → any (same_scope s) ys ≡ true
    → not (any (same_scope s) (keep (is_orphan tuples) ys))
      ≡ any (λ t. tuple_key t == tuple_key s) tuples
declared_kept tuples s ys h = rw (any-keep (is_orphan tuples) s ys, h) (not-not _)

-- `reconcile` keeps exactly the rows whose tuple key is that of a declared queue, and returns the
-- number of rows that it deletes.
pub reconcile_exact :
    (tuples : List QueueScope) (rows : List QueueItem)
    → ((reconcile tuples rows).0
        ≡ keep (λ row. any (λ t. tuple_key t == tuple_key row.scope) tuples) rows)
      × ((reconcile tuples rows).1 + length (reconcile tuples rows).0 ≡ length rows)
unfolding reconcile
reconcile_exact tuples rows = (
  remove_all-kept _ rows
      ∙ keep_cong_on
          (λ x. not (any (same_scope x.scope) (keep (is_orphan tuples) (distinct_scopes rows)))) _
          rows
          (All-mono (λ row h. declared_kept tuples row.scope (distinct_scopes rows) h) rows
            (scopes_listed rows)),
  remove_all-count _ rows,
)
