-- ===== src/Prelude/Tests.antt =====
-- Boolean tests, equality as an instance, the conditional, and splits on computed values.
use Prim.Native.Nat.{ℕ, compare, Ordering}
use Prim.Native.String.{String}
use mathlib.Core.Path.{◌≡◌, refl, subst}
use mathlib.Core.Logic.{◌≢◌, ◌⊎◌, inl, inr}
use mathlib.Core.Bool.{Bool, true, false, not, ◌&&◌, ◌||◌}
use mathlib.Core.Option.{Option, none, some}
use native.Mathlib.Omega.{arith}
use text.Mathlib.Text.{◌==◌ as str_beq}
use text.Mathlib.TextEquality.{eq_iff}
use text.Mathlib.TextPositions.{eq_refl}

abbrev pub ltb : ℕ → ℕ → Bool
ltb a b = elim (compare a b) [ Ordering.lt ↦ true | _ ↦ false ]

abbrev pub leb : ℕ → ℕ → Bool
leb a b = elim (compare a b) [ Ordering.gt ↦ false | _ ↦ true ]

abbrev nat_beq : ℕ → ℕ → Bool
nat_beq a b = elim (compare a b) [ Ordering.eq ↦ true | _ ↦ false ]

infix 1 if◌then◌else◌
abbrev pub if◌then◌else◌ {ℓ} : {A : Type ℓ} → Bool → A → A → A
if true then x else y = x
if false then x else y = y

-- A type whose values the source compares by `===`.
pub record Comparable {ℓ} (K : Type ℓ) : Type ℓ where
  pub same : K → K → Bool
  pub sound : {a b : K} → same a b ≡ true → a ≡ b
  pub reflexive : (a : K) → same a a ≡ true

abbrev pub ◌==◌ {ℓ} : {K : Type ℓ} ⦃c : Comparable K⦄ → K → K → Bool
◌==◌ ⦃c⦄ a b = c.same a b

infix 50 ◌==◌
pub nat_beq_sound : {a b : ℕ} → nat_beq a b ≡ true → a ≡ b
nat_beq_sound h = ground arith

pub nat_beq_self : (a : ℕ) → nat_beq a a ≡ true
nat_beq_self a = ground arith

instance abbrev pub nat_eq : Comparable ℕ
nat_eq = record { same = nat_beq; sound = nat_beq_sound; reflexive = nat_beq_self }

pub str_beq_sound : {s t : String} → str_beq s t ≡ true → s ≡ t
str_beq_sound {s} {t} h = (eq_iff s t).0 h

instance abbrev pub string_eq : Comparable String
string_eq = record { same = str_beq; sound = str_beq_sound; reflexive = eq_refl }

-- To split on a computed value and keep the equation.
pub Bool-cases : (b : Bool) → (b ≡ true) ⊎ (b ≡ false)
Bool-cases true = inl refl
Bool-cases false = inr refl

pub Option-cases {ℓ} : {A : Type ℓ} (o : Option A) → (o ≡ none) ⊎ ((a : A) × (o ≡ some a))
Option-cases none = inl refl
Option-cases (some a) = inr (a, refl)

-- To split on a test of equality.
module _ {ℓ} {K : Type ℓ} ⦃c : Comparable K⦄ where
  pub eq_self : (a : K) → (a == a) ≡ true
  eq_self a = c.reflexive a

  pub eq_cases : (a b : K) → ((a == b) ≡ true) × (a ≡ b) ⊎ ((a == b) ≡ false) × (a ≢ b)
  eq_cases a b = elim (Bool-cases (a == b)) [
    | inl h ↦ inl (h, c.sound h)
    | inr h ↦ inr (h, λ p. cc (subst (λ x. (a == x) ≡ true) p (c.reflexive a), h))
  ]

  pub ne_false : (a b : K) → a ≢ b → (a == b) ≡ false
  ne_false a b h = elim (eq_cases a b) [ inl (_, p) ↦ absurd (h p) | inr (q, _) ↦ q ]

  pub eq_swap : (a b : K) → (a == b) ≡ (b == a)
  eq_swap a b = elim (eq_cases a b) [
    | inl (h, p) ↦ rw h (subst (λ x. true ≡ (x == a)) p (rw (c.reflexive a) refl))
    | inr (h, n) ↦ rw (h, ne_false b a (λ q. n (cc))) refl
  ]

pub not_or : (a b : Bool) → (not a && not b) ≡ not (a || b)
not_or true b = refl
not_or false b = refl

pub or_true : (a b : Bool) → b ≡ true → (a || b) ≡ true
or_true true b h = refl
or_true false b h = h
