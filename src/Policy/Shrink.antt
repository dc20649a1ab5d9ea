-- ===== src/Policy/Shrink.antt =====
-- src/policy.rs: the progress of the shrinking of a device.
use cede_grid.Common.{
  ℕ, ◌≤◌, ◌<◌, ◌≡◌, ok, arith, ensure-eq-ok, >>=-eq-ok, ltb, not, Option, some, none, ◌&&◌, true,
  Bool-cases, inl, inr, refl, is_none, if◌then◌else◌, is_empty, ◌||◌,
}
use cede_grid.Config.{
  Config, GpuConfig, validate_config, validate_node, validate_gpu, validate_authorizations,
  is_mode_best_effort,
}
use cede_grid.Config.Error.{ConfigError}
use cede_grid.Policy.Amounts.{ceil_ratio}
use cede_grid.Policy.Gpu.{Reading, shrink_target, next_cap, capped, tighten, is_alarming}

-- The percentages of an accepted configuration.
pub record IsShrinking (g : GpuConfig) : Type 0 where
  pub protective : (1 ≤ g.protective_shrink_percent) × (g.protective_shrink_percent ≤ 100)
  pub active : (1 ≤ g.active_shrink_percent) × (g.active_shrink_percent ≤ 100)
  pub order : g.protective_shrink_percent ≤ g.active_shrink_percent

validate_gpu-IsShrinking : (g : GpuConfig) → validate_gpu g ≡ ok tt → IsShrinking g
unfolding validate_gpu
validate_gpu-IsShrinking g h =
    let (_, h1) = ensure-eq-ok (ltb 0 g.process_sample_max_age_ms) ConfigError.sample_max_age _ h in
    let (_, h2) =
      ensure-eq-ok
        (not (is_mode_best_effort g.execution_mode)
          || not (is_empty g.best_effort_external_processes))
        ConfigError.best_effort _ h1 in
    let (_, _, h3) = >>=-eq-ok (validate_authorizations g.best_effort_external_processes) _ h2 in
    record {
      protective = ground (arith, h3);
      active = ground (arith, h3);
      order = ground (arith, h3);
    }

pub validate_config-IsShrinking : (c : Config) → validate_config c ≡ ok tt → IsShrinking c.gpu
unfolding validate_config
validate_config-IsShrinking c h =
    let (_, _, h1) = >>=-eq-ok (validate_node c) _ h in
    let (_, a, h2) = >>=-eq-ok (validate_gpu c.gpu) _ h1 in validate_gpu-IsShrinking c.gpu a

-- a share of at least one percent, rounded up, is not nothing
ceil_ratio-positive :
    (value percent : ℕ) → 0 < value → 1 ≤ percent → 0 < ceil_ratio value percent 100
unfolding ceil_ratio
ceil_ratio-positive value percent v p = grind arith

shrink_target-lt :
    (config : Config) (r : Reading)
    → validate_config config ≡ ok tt
    → 0 < r.current_charge
    → shrink_target config r < r.current_charge
unfolding shrink_target
shrink_target-lt config r h c =
    let s = validate_config-IsShrinking config h in
    ground (
      arith,
      ceil_ratio-positive r.current_charge config.gpu.active_shrink_percent c s.active.0,
      ceil_ratio-positive r.current_charge config.gpu.protective_shrink_percent c s.protective.0,
    )

tighten-low :
    (cap : Option ℕ) (target : ℕ)
    → (tighten cap target ≤ target) × ((old : ℕ) → cap ≡ some old → tighten cap target ≤ old)
unfolding tighten
tighten-low none target = (omega arith, λ old e. cc e)
tighten-low (some x) target = (omega arith, λ old e. ground (arith, e))

-- Under an accepted configuration a device with a charge that alarms, by a protection event or by
-- activity in a fresh sample, gets a protection cap and a budget below what is charged on it now, and
-- a cap that stood is not raised.
pub shrink_progress :
    (config : Config) (r : Reading)
    → validate_config config ≡ ok tt
    → 0 < r.current_charge
    → is_alarming r ≡ true
    → (r.protection_event || r.active && r.fresh_sample) ≡ true
    → (cap : ℕ) × (next_cap config r ≡ some cap)
      × (cap < r.current_charge)
      × (capped r.memory_budget (next_cap config r) < r.current_charge)
      × ((old : ℕ) → r.previous.protection_cap ≡ some old → cap ≤ old)
unfolding next_cap capped tighten
shrink_progress config r h c a e =
    let cap : Option ℕ = if r.forced then some 0 else r.previous.protection_cap in
    let due : (is_alarming r
          && (r.protection_event
              || r.active && r.fresh_sample
              || (r.is_unknown || r.active) && is_none cap))
        ≡ true =
      ground (arith, a, e) in
    let t = shrink_target config r in
    let low = tighten-low cap t in
    let below : tighten cap t < r.current_charge =
      omega (arith, low.0, shrink_target-lt config r h c) in
    rw due (tighten cap t, refl, below, omega (arith, below), λ old p. kept old p)
  where
    kept :
        (old : ℕ)
        → r.previous.protection_cap ≡ some old
        → tighten (if r.forced then some 0 else r.previous.protection_cap) (shrink_target config r)
          ≤ old
    kept old p = elim (Bool-cases r.forced) [
      | inl y ↦ rw y (omega arith)
      | inr n ↦ rw (n, p) (omega arith)
    ]
