-- ===== src/Prelude/Counting.antt =====
-- How often a number stands in a list.
use Prim.Native.Nat.{ℕ, suc, ◌+◌}
use mathlib.Core.Path.{◌≡◌}
use mathlib.Core.List.{List, [], ◌∷◌, ◌++◌}
use native.Mathlib.Omega.{arith}
use workflow_engine.Prelude.Tests.{◌==◌, nat_eq, if◌then◌else◌}

abbrev pub times : ℕ → List ℕ → ℕ
times c [] = 0
times c (x ∷ xs) = if x == c then suc (times c xs) else times c xs

pub times-append : (c : ℕ) (xs ys : List ℕ) → times c (xs ++ ys) ≡ times c xs + times c ys
times-append c [] ys = omega arith
times-append c (x ∷ xs) ys = ground (arith, times-append c xs ys)
