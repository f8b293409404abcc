-- ===== src/Prelude/Maps.antt =====
-- The `Map` of JavaScript as an association list in insertion order: `set` on a key that is there
-- keeps its place, on another appends; iteration is the order of the list.
use mathlib.Core.Path.{◌≡◌, refl, subst}
use mathlib.Core.Logic.{◌≢◌, inl, inr}
use mathlib.Core.Bool.{Bool, true, false}
use mathlib.Core.List.{List, [], ◌∷◌, ◌++◌}
use mathlib.Core.Option.{Option, none, some}
use workflow_engine.Prelude.Tests.{
  Comparable, ◌==◌, if◌then◌else◌, Bool-cases, eq_cases, eq_self, ne_false,
}
use workflow_engine.Prelude.Lists.{All}

module _ {κ ℓ} {K : Type κ} {V : Type ℓ} ⦃c : Comparable K⦄ where
  abbrev pub get : K → List (K × V) → Option V
  get k [] = none
  get k ((j, v) ∷ m) = if j == k then some v else get k m

  abbrev pub has : K → List (K × V) → Bool
  has k [] = false
  has k ((j, v) ∷ m) = if j == k then true else has k m

  abbrev pub set : K → V → List (K × V) → List (K × V)
  set k v [] = (k, v) ∷ []
  set k v ((j, w) ∷ m) = if j == k then (j, v) ∷ m else (j, w) ∷ set k v m

  abbrev pub delete : K → List (K × V) → List (K × V)
  delete k [] = []
  delete k ((j, w) ∷ m) = if j == k then m else (j, w) ∷ delete k m

  abbrev pub Fresh : K → List (K × V) → Type κ
  Fresh k m = All (λ p. p.0 ≢ k) m

  -- No key stands twice: what a `Map` is.
  abbrev pub Distinct : List (K × V) → Type κ
  Distinct [] = Unit
  Distinct ((k, v) ∷ m) = Fresh k m × Distinct m

  pub get-Fresh : (k : K) (m : List (K × V)) → Fresh k m → get k m ≡ none
  get-Fresh k [] h = refl
  get-Fresh k ((j, v) ∷ m) (p, h) = rw (ne_false j k p) (get-Fresh k m h)

  pub Fresh-get : (k : K) (m : List (K × V)) → get k m ≡ none → Fresh k m
  Fresh-get k [] h = tt
  Fresh-get k ((j, v) ∷ m) h = elim (eq_cases j k) [
    | inl (t, p) ↦ absurd (cc (rw t at h))
    | inr (f, n) ↦ (n, Fresh-get k m (rw f at h))
  ]

  pub get-set_self : (k : K) (v : V) (m : List (K × V)) → get k (set k v m) ≡ some v
  get-set_self k v [] = rw (eq_self k)
  get-set_self k v ((j, w) ∷ m) = elim (Bool-cases (j == k)) [
    | inl t ↦ rw t (rw t)
    | inr f ↦ rw f (rw f (get-set_self k v m))
  ]

  pub get-set_ne : (k j : K) (v : V) (m : List (K × V)) → k ≢ j → get j (set k v m) ≡ get j m
  get-set_ne k j v [] h = rw (ne_false k j h)
  get-set_ne k j v ((i, w) ∷ m) h = elim (eq_cases i k) [
    | inl (t, p) ↦ rw t (rw (ne_false i j (λ q. h (cc))))
    | inr (f, n) ↦
        rw f (elim (Bool-cases (i == j)) [ inl t ↦ rw t | inr g ↦ rw g (get-set_ne k j v m h) ])
  ]

  pub set-Fresh : (k : K) (v : V) (m : List (K × V)) → Fresh k m → set k v m ≡ m ++ (k, v) ∷ []
  set-Fresh k v [] h = refl
  set-Fresh k v ((j, w) ∷ m) (p, h) = rw (ne_false j k p, set-Fresh k v m h)

  pub Fresh-set : (k j : K) (v : V) (m : List (K × V)) → k ≢ j → Fresh j m → Fresh j (set k v m)
  Fresh-set k j v [] n h = (n, tt)
  Fresh-set k j v ((i, w) ∷ m) n (p, h) = elim (Bool-cases (i == k)) [
    | inl t ↦ rw t (p, h)
    | inr f ↦ rw f (p, Fresh-set k j v m n h)
  ]

  pub set-Distinct : (k : K) (v : V) (m : List (K × V)) → Distinct m → Distinct (set k v m)
  set-Distinct k v [] h = (tt, tt)
  set-Distinct k v ((j, w) ∷ m) (p, h) = elim (eq_cases j k) [
    | inl (t, q) ↦ rw t (p, h)
    | inr (f, n) ↦ rw f (Fresh-set k j v m (λ q. n (cc)) p, set-Distinct k v m h)
  ]

  pub Fresh-delete : (k j : K) (m : List (K × V)) → Fresh j m → Fresh j (delete k m)
  Fresh-delete k j [] h = tt
  Fresh-delete k j ((i, w) ∷ m) (p, h) = elim (Bool-cases (i == k)) [
    | inl t ↦ rw t h
    | inr f ↦ rw f (p, Fresh-delete k j m h)
  ]

  pub delete-Distinct : (k : K) (m : List (K × V)) → Distinct m → Distinct (delete k m)
  delete-Distinct k [] h = tt
  delete-Distinct k ((j, w) ∷ m) (p, h) = elim (Bool-cases (j == k)) [
    | inl t ↦ rw t h
    | inr f ↦ rw f (Fresh-delete k j m p, delete-Distinct k m h)
  ]

  pub delete_removes : (k : K) (m : List (K × V)) → Distinct m → Fresh k (delete k m)
  delete_removes k [] h = tt
  delete_removes k ((j, w) ∷ m) (p, h) = elim (eq_cases j k) [
    | inl (t, q) ↦ rw t (subst (λ x. Fresh x m) q p)
    | inr (f, n) ↦ rw f (n, delete_removes k m h)
  ]

  pub get-delete_ne : (k j : K) (m : List (K × V)) → k ≢ j → get j (delete k m) ≡ get j m
  get-delete_ne k j [] h = refl
  get-delete_ne k j ((i, w) ∷ m) h = elim (eq_cases i k) [
    | inl (t, p) ↦ rw t (rw (ne_false i j (λ q. h (cc))))
    | inr (f, n) ↦
        rw f (elim (Bool-cases (i == j)) [ inl t ↦ rw t | inr g ↦ rw g (get-delete_ne k j m h) ])
  ]

  pub delete-Fresh : (k : K) (m : List (K × V)) → Fresh k m → delete k m ≡ m
  delete-Fresh k [] h = refl
  delete-Fresh k ((j, w) ∷ m) (p, h) = rw (ne_false j k p, delete-Fresh k m h)
