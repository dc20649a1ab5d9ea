-- ===== src/Common/Word.antt =====
-- Unsigned machine integers: the bounds, and the checked operations of `u64` and `i64`.
use Prim.Native.Nat.{ℕ, ◌+◌, ◌-◌, ◌*◌, ◌/◌, ◌≤◌, min}
use mathlib.Core.Path.{◌≡◌}
use mathlib.Core.Option.{Option, none, some}
use native.Mathlib.Omega.{arith}
use cede_grid.Common.Tests.{leb, if◌then◌else◌}

abbrev pub u64_max : ℕ
u64_max = 18446744073709551615

abbrev pub i64_max : ℕ
i64_max = 9223372036854775807

-- `u64::checked_add`
unfoldable pub checked_add : ℕ → ℕ → Option ℕ
checked_add a b = if leb (a + b) u64_max then some (a + b) else none

-- `u64::saturating_add`
abbrev pub saturating_add : ℕ → ℕ → ℕ
saturating_add a b = min (a + b) u64_max

-- `u64::saturating_mul`
abbrev pub saturating_mul : ℕ → ℕ → ℕ
saturating_mul a b = min (a * b) u64_max

-- `u128::div_ceil`, for a positive divisor
abbrev pub div_ceil : ℕ → ℕ → ℕ
div_ceil a b = (a + b - 1) / b

-- A sum that is returned is the exact sum, and it fits.
pub checked_add-exact : (a b : ℕ) {c : ℕ} → checked_add a b ≡ some c → (c ≡ a + b) × (c ≤ u64_max)
unfolding checked_add
checked_add-exact a b h = ground arith
