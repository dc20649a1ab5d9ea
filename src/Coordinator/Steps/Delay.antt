-- ===== src/Coordinator/Steps/Delay.antt =====
-- src/coordinator.rs, `record_failure`: the delay before the next attempt.
use cede_grid.Common.{
  saturating_add, ℕ, ◌+◌, ◌-◌, ◌*◌, ◌^◌, ◌≤◌, ◌<◌, min, ◌≡◌, refl, ap, ◌∙◌, arith, ltb, inl, inr,
  ◌⊎◌, Bool-cases, ok, u64_max, i64_max,
}
use native.Mathlib.Nat.{one-le-pow, le-mul_of_pos_right}
use cede_grid.Coordinator.Tables.{db}
use cede_grid.Coordinator.Failure.{retry_delay, shifted}

-- A time that is now and the delay after the `count`-th failure: the base doubled for each failure
-- after the first, up to the maximum. Beyond 64 failures only the bounds are stated.
pub record Waits (base maximum count now at : ℕ) : Type 0 where
  pub early : now + min base maximum ≤ at
  pub late : at ≤ now + maximum
  pub doubled : (64 < count) ⊎ (at ≡ now + min (base * 2 ^ (count - 1)) maximum)

shifted-positive : (n : ℕ) → 1 ≤ shifted n
unfolding shifted
shifted-positive n = elim (Bool-cases (ltb n 64)) [
  | inl y ↦ rw y (one-le-pow n 2 (omega arith))
  | inr k ↦ rw k (omega arith)
]

shifted-power : (n : ℕ) → (64 < n + 1) ⊎ (shifted n ≡ 2 ^ n)
unfolding shifted
shifted-power n = elim (Bool-cases (ltb n 64)) [
  | inl y ↦ inr (rw y refl)
  | inr k ↦ inl (ground (arith, k))
]

saturated :
    (product maximum now at : ℕ)
    → at ≡ min (now + min (min product u64_max) maximum) u64_max
    → at ≤ i64_max
    → at ≡ now + min product maximum
saturated product maximum now at e b = omega (arith, e, b)

pub retry_delay-Waits :
    (base maximum count now : ℕ)
    → db (saturating_add now (retry_delay base maximum count)) ≡ ok tt
    → Waits base maximum count now (saturating_add now (retry_delay base maximum count))
unfolding db retry_delay
retry_delay-Waits base maximum count now h =
    let s = shifted (count - 1) in
    let at = saturating_add now (retry_delay base maximum count) in
    let exact : at ≡ now + min (base * s) maximum =
      saturated (base * s) maximum now at refl (ground (arith, h)) in
    let more : base ≤ base * s = le-mul_of_pos_right base (shifted-positive (count - 1)) in
    record {
      early = omega (arith, exact, more);
      late = omega (arith, exact);
      doubled = elim (shifted-power (count - 1)) [
        | inl m ↦ inl (omega (arith, m))
        | inr p ↦ inr (exact ∙ ap (λ x. now + min (base * x) maximum) p)
      ];
    }
