-- ===== src/Common/Int.antt =====
-- The integers of `i32` fields, with the tests that the source makes on them.
use Prim.Native.Nat.{ℕ, zero, suc}
use mathlib.Core.Path.{◌≡◌}
use mathlib.Core.Logic.{◌↔◌}
use mathlib.Core.Bool.{Bool, true, false}
use native.Mathlib.Omega.{arith}
use cede_grid.Common.Tests.{nat_eq, nat_eq_iff, leb, ltb}
use cede_grid.Common.Equality.{Eq}

-- `negsuc n` is -(n + 1).
pub data ℤ : Type 0 where
  pos : ℕ → ℤ
  negsuc : ℕ → ℤ

abbrev pub int_eq : ℤ → ℤ → Bool
int_eq (pos a) (pos b) = nat_eq a b
int_eq (negsuc a) (negsuc b) = nat_eq a b
int_eq _ _ = false

pub int_eq_iff : (a b : ℤ) → (int_eq a b ≡ true) ↔ (a ≡ b)
int_eq_iff (pos a) (pos b) = ground (arith, nat_eq_iff a b)
int_eq_iff (negsuc a) (negsuc b) = ground (arith, nat_eq_iff a b)
int_eq_iff (pos a) (negsuc b) = ground arith
int_eq_iff (negsuc a) (pos b) = ground arith

instance abbrev pub ℤ_eq : Eq ℤ
ℤ_eq = record { equals = int_eq; decides = int_eq_iff }

-- `a < b`
abbrev pub int_lt : ℤ → ℤ → Bool
int_lt (pos a) (pos b) = ltb a b
int_lt (pos a) (negsuc b) = false
int_lt (negsuc a) (pos b) = true
int_lt (negsuc a) (negsuc b) = ltb b a

-- `0 < i`
abbrev pub is_positive : ℤ → Bool
is_positive (pos zero) = false
is_positive (pos (suc n)) = true
is_positive (negsuc n) = false

-- `0 <= i`
abbrev pub is_nonneg : ℤ → Bool
is_nonneg (pos n) = true
is_nonneg (negsuc n) = false

-- `(-20..=19).contains(&i)`
abbrev pub is_nice_value : ℤ → Bool
is_nice_value (pos n) = leb n 19
is_nice_value (negsuc n) = leb n 19
