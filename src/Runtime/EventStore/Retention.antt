-- ===== src/Runtime/EventStore/Retention.antt =====
-- event-store.ts: which rows a prune deletes, and which rows a query starts from.
use workflow_engine.Prelude.{
  suc, ◌≡◌, refl, sym, ap, ◌∙◌, Bool, String, true, false, not, ◌&&◌, ◌||◌, none, some, List, [],
  ◌∷◌, all, any, keep, length, ◌==◌, nat_eq, string_eq, if◌then◌else◌, Bool-cases, eq_cases, inl,
  inr, arith, keep_cong, keep_within, All-mono, keep_when_true, All, subst, ◌⊎◌,
}
use workflow_engine.Runtime.EventStore.{
  EventRow, TextOrder, max_at, rows_of, is_expired, ids, prune,
}

and_true : (a : Bool) → (a && true) ≡ a
and_true true = refl
and_true false = refl

and_implied : (a b : Bool) → (b ≡ true → a ≡ true) → (a && b) ≡ b
and_implied true b h = refl
and_implied false true h = h refl
and_implied false false h = refl

and_implying : (a b : Bool) → (a ≡ true → b ≡ true) → (a && b) ≡ a
and_implying true b h = h refl
and_implying false b h = refl

any_none : {A : Type 0} (p : A → Bool) (xs : List A) → keep p xs ≡ [] → any p xs ≡ false
any_none p [] h = refl
any_none p (x ∷ xs) h = elim (Bool-cases (p x)) [
  | inl t ↦ absurd (cc (rw t at h))
  | inr f ↦ rw f (any_none p xs (rw f at h))
]

keep_none : {A : Type 0} (p : A → Bool) (xs : List A) → any p xs ≡ false → keep p xs ≡ []
keep_none p [] h = refl
keep_none p (x ∷ xs) h = elim (Bool-cases (p x)) [
  | inl t ↦ absurd (cc (rw t at h))
  | inr f ↦ rw f (keep_none p xs (rw f at h))
]

all-keep :
    {A : Type 0} (p q : A → Bool) (xs : List A) → all q (keep p xs) ≡ all (λ x. not (p x) || q x) xs
all-keep p q [] = refl
all-keep p q (x ∷ xs) = elim (Bool-cases (p x)) [
  | inl t ↦ rw (t, all-keep p q xs) refl
  | inr f ↦ rw f (all-keep p q xs)
]

-- Deleting by ids takes an invocation as a whole.
kept :
    (gone : String → Bool) (id : String) (rows : List EventRow)
    → rows_of id (keep (λ r. not (gone r.id)) rows) ≡ (if gone id then [] else rows_of id rows)
kept gone id [] = elim (Bool-cases (gone id)) [ inl t ↦ rw t refl | inr f ↦ rw f refl ]
kept gone id (r ∷ rows) = elim (eq_cases r.id id) [
  | inl (t, p) ↦
      (let same : gone r.id ≡ gone id = ap gone p in
        elim (Bool-cases (gone id)) [
          | inl g ↦ rw (same, g) (kept gone id rows ∙ rw g refl)
          | inr g ↦ rw (same, g) (rw t (ap (◌∷◌ r) (kept gone id rows ∙ rw g refl)))
        ])
  | inr (f, n) ↦ elim (Bool-cases (gone r.id)) [
    | inl g ↦ rw (g, f) (kept gone id rows)
    | inr g ↦ rw g (rw f (kept gone id rows))
  ]
]

module _ (order : TextOrder) where
  -- The invocation has rows, and all of them are before the cutoff.
  abbrev pub all_before : String → List EventRow → String → Bool
  all_before cutoff rows id =
      any (λ r. r.id == id) rows && all (λ r. not (r.id == id) || order.before r.at cutoff) rows

  -- The maximum of a group is before the cutoff exactly if each of its rows is.
  max_at-before :
      (cutoff : String) (rows : List EventRow)
      → (max_at order rows ≡ none × rows ≡ [])
        ⊎ ((m : String) × (max_at order rows ≡ some m)
            × (order.before m cutoff ≡ all (λ r. order.before r.at cutoff) rows))
  unfolding max_at
  max_at-before cutoff [] = inl (refl, refl)
  max_at-before cutoff (r ∷ rows) = elim (max_at-before cutoff rows) [
    | inl (n, e) ↦ inr (r.at, rw (n, max_at) refl, rw e (sym (and_true (order.before r.at cutoff))))
    | inr (m, n, b) ↦ elim (Bool-cases (order.before r.at m)) [
      | inl t ↦ inr (
        m,
        rw (n, max_at) (rw t refl),
        rw (sym b) (
            sym (
              and_implied (order.before r.at cutoff) (order.before m cutoff)
                (λ c. order.before_trans r.at m cutoff t c))),
      )
      | inr f ↦ inr (
        r.at,
        rw (n, max_at) (rw f refl),
        rw (sym b) (
            sym (
              and_implying (order.before r.at cutoff) (order.before m cutoff)
                (λ c. order.before_up r.at m cutoff f c))),
      )
    ]
  ]

  no_max : (m : String) → max_at order [] ≡ some m → ⊥
  unfolding max_at
  no_max m h = absurd (cc h)

  is_expired_lem :
      (cutoff : String) (rows : List EventRow) (id : String)
      → is_expired order cutoff rows id ≡ all_before cutoff rows id
  is_expired_lem cutoff rows id = elim (max_at-before cutoff (rows_of id rows)) [
    | inl (n, e) ↦ rw (n, any_none (λ r. r.id == id) rows e) refl
    | inr (m, n, b) ↦ elim (Bool-cases (any (λ r. r.id == id) rows)) [
      | inl t ↦ rw (n, t, b) (all-keep (λ r. r.id == id) (λ r. order.before r.at cutoff) rows)
      | inr f ↦ absurd (
          let wrong =
            subst (λ rs. max_at order rs ≡ some m) (keep_none (λ r. r.id == id) rows f) n in
          no_max m wrong)
    ]
  ]

  -- The test holds of no id of the table: then of the id of no row.
  ids_none :
      (p : String → Bool) (rows : List EventRow)
      → keep p (ids rows) ≡ []
      → All (λ r. p r.id ≡ false) rows
  unfolding ids
  ids_none p [] h = tt
  ids_none p (r ∷ rows) h = elim (Bool-cases (p r.id)) [
    | inl t ↦ absurd (cc (rw t at h))
    | inr f ↦ (
      f,
      ids_none p rows (
          sym (keep_within p (λ id. not (id == r.id)) (ids rows) (λ id t. apart id r.id t f))
          ∙ (rw f at h)),
    )
  ]
    where
      apart : (id j : String) → p id ≡ true → p j ≡ false → not (id == j) ≡ true
      apart id j t f = elim (eq_cases id j) [
        | inl (same, e) ↦ absurd (cc (subst (λ k. p k ≡ true) e t, f))
        | inr (other, n) ↦ rw other refl
      ]

  prune_rows :
      (cutoff : String) (rows : List EventRow)
      → prune order false cutoff rows ≡ (
        keep (λ r. not (is_expired order cutoff rows r.id)) rows,
        length (keep (is_expired order cutoff rows) (ids rows)),
      )
  unfolding prune
  prune_rows cutoff rows = counted (keep (is_expired order cutoff rows) (ids rows)) refl
    where
      counted :
          (expired : List String)
          → keep (is_expired order cutoff rows) (ids rows) ≡ expired
          → prune order false cutoff rows ≡ (
            keep (λ r. not (is_expired order cutoff rows r.id)) rows,
            length (keep (is_expired order cutoff rows) (ids rows)),
          )
      counted [] e =
          let stay = ids_none (is_expired order cutoff rows) rows e in
          rw e (
            ap (λ rs. (rs, 0))
              (sym (
                keep_when_true (λ r. not (is_expired order cutoff rows r.id)) rows
                  (All-mono (λ r f. rw f refl) rows stay))))
      counted (x ∷ xs) e =
          let some_left : (suc (length xs) == 0) ≡ false = ground arith in rw e (rw some_left refl)

  -- An invocation goes exactly if all its rows are before the cutoff, and then with all its rows;
  -- the rows of the others stay as they are and in their order, and the number is that of the ids that
  -- went. A store that is closed prunes nothing.
  pub prune_lem :
      (cutoff : String) (rows : List EventRow) (id : String)
      → (prune order true cutoff rows ≡ (rows, 0))
        × (let (left, count) = prune order false cutoff rows in
            (rows_of id left ≡ (if all_before cutoff rows id then [] else rows_of id rows))
            × (left ≡ keep (λ r. not (all_before cutoff rows r.id)) rows)
            × (count ≡ length (keep (all_before cutoff rows) (ids rows))))
  unfolding prune
  prune_lem cutoff rows id =
      let run = prune_rows cutoff rows in
      let left =
        ap (λ r. r.0) run
        ∙ keep_cong _ (λ r. not (all_before cutoff rows r.id)) rows
            (λ r. ap not (is_expired_lem cutoff rows r.id)) in
      (
        refl,
        (
          ap (rows_of id) left ∙ kept (all_before cutoff rows) id rows,
          left,
          ap (λ r. r.1) run ∙ ap length (keep_cong _ _ (ids rows) (is_expired_lem cutoff rows)),
        ),
      )
