-- ===== src/Policy/Budget.antt =====
-- src/policy.rs: the bounds of the managed budget.
use cede_grid.Common.{
  ℕ, ◌+◌, ◌-◌, ◌≤◌, ◌<◌, ◌≡◌, refl, Bool, true, false, some, ok, arith, subst, sym, Option-cases,
  inl, inr, ok-injective, ◌∙◌,
}
use cede_grid.Model.Snapshot.{Snapshot, PolicyInput, Decision}
use cede_grid.Config.{Config}
use cede_grid.Policy.Charges.{Charges, no_charges, charge_all}
use cede_grid.Policy.Host.{CpuScope, cpu_scope, host_budget, ram_reserve, cpu_part, ram_part}
use cede_grid.Policy.Engine.{PolicyEngine, evaluate, budgeted, decide_allocation}
use cede_grid.Policy.Engine.Steps.{evaluate-Evaluated}

-- The CPU budget beside the reserve and the CPU that other processes use.
pub record IsCpuLeft (scope : CpuScope) (managed budget : ℕ) : Type 0 where
  pub busy : ℕ
  pub known : scope.busy ≡ some busy
  pub covers : managed ≤ busy
  pub fits : budget + scope.reserve + (busy - managed) ≤ scope.capacity
  pub ceiling : budget ≤ scope.ceiling

-- The RAM budget beside the reserve and the RAM that other processes use.
pub record IsRamLeft (config : Config) (snapshot : Snapshot) (managed budget : ℕ) : Type 0 where
  pub available : ℕ
  pub known : snapshot.available_ram_mib ≡ some available
  pub covers : managed ≤ snapshot.total_ram_mib - available
  pub fits :
      budget + ram_reserve config snapshot + (snapshot.total_ram_mib - available - managed)
      ≤ snapshot.total_ram_mib

host-IsCpuLeft :
    (config : Config) (snapshot : Snapshot) (scope : CpuScope) (c : Charges)
    → 0 < (host_budget config snapshot scope c).cpu_budget
    → IsCpuLeft scope c.managed_observed.cpu_millicores
        (host_budget config snapshot scope c).cpu_budget
unfolding host_budget cpu_part
host-IsCpuLeft config snapshot scope c h = elim (Option-cases scope.busy) [
  | inl n ↦ absurd (ground (arith, n, h))
  | inr (busy, k) ↦ record {
    busy = busy;
    known = k;
    covers = ground (arith, k, h);
    fits = ground (arith, k, h);
    ceiling = ground (arith, k, h);
  }
]

host-IsRamLeft :
    (config : Config) (snapshot : Snapshot) (scope : CpuScope) (c : Charges)
    → 0 < (host_budget config snapshot scope c).ram_budget
    → IsRamLeft config snapshot c.managed_observed.ram_mib
        (host_budget config snapshot scope c).ram_budget
unfolding host_budget ram_part
host-IsRamLeft config snapshot scope c h = elim (Option-cases snapshot.available_ram_mib) [
  | inl n ↦ absurd (ground (arith, n, h))
  | inr (a, k) ↦ record {
    available = a;
    known = k;
    covers = ground (arith, k, h);
    fits = ground (arith, k, h);
  }
]

-- Both bounds, for the budget of a decision.
pub record IsHeld (config : Config) (snapshot : Snapshot) (scope : CpuScope) (c : Charges)
    (d : Decision) : Type 0 where
  pub cpu :
      0 < d.managed_budget.cpu_millicores
      → IsCpuLeft scope c.managed_observed.cpu_millicores d.managed_budget.cpu_millicores
  pub ram :
      0 < d.managed_budget.ram_mib
      → IsRamLeft config snapshot c.managed_observed.ram_mib d.managed_budget.ram_mib

decide-IsHeld :
    (e : PolicyEngine) (config : Config) (snapshot : Snapshot) (input : PolicyInput) (now : ℕ)
    (c : Charges) (drain : Bool)
    → input.explicit_drain ≡ drain
    → IsHeld config snapshot
        (cpu_scope config snapshot e.last_kernel_cpu_sample now)
        c
        (decide_allocation e config snapshot input now (budgeted e config snapshot input now c)).0
unfolding decide_allocation budgeted
decide-IsHeld e config snapshot input now c true q = record {
  cpu = λ h. absurd (ground (arith, q, h));
  ram = λ h. absurd (ground (arith, q, h));
}
decide-IsHeld e config snapshot input now c false q =
    let scope = cpu_scope config snapshot e.last_kernel_cpu_sample now in
    record {
      cpu = rw q (host-IsCpuLeft config snapshot scope c);
      ram = rw q (host-IsRamLeft config snapshot scope c);
    }

evaluate-IsHeld :
    (e : PolicyEngine) (config : Config) (snapshot : Snapshot) (input : PolicyInput) (now : ℕ)
    (c : Charges) {d : Decision} {e' : PolicyEngine}
    → evaluate e config snapshot input now ≡ ok (d, e')
    → charge_all no_charges input.allocations ≡ ok c
    → IsHeld config snapshot (cpu_scope config snapshot e.last_kernel_cpu_sample now) c d
evaluate-IsHeld e config snapshot input now c h q =
    let v = evaluate-Evaluated e config snapshot input now h in
    let same : v.charges ≡ c = ok-injective (sym v.charged ∙ q) in
    rw (← same) (
      subst
        (λ (r : Decision × PolicyEngine).
          IsHeld config snapshot (cpu_scope config snapshot e.last_kernel_cpu_sample now) v.charges
            r.0)
        v.decided (decide-IsHeld e config snapshot input now v.charges input.explicit_drain refl))

-- A decision with a CPU budget rests on a known usage that covers what the allocations were
-- observed to use: the budget, the reserve and what other processes use fit the capacity of the
-- scope, and the budget its ceiling.
pub cpu_budget_within :
    (e : PolicyEngine) (config : Config) (snapshot : Snapshot) (input : PolicyInput) (now : ℕ)
    (c : Charges) {d : Decision} {e' : PolicyEngine}
    → evaluate e config snapshot input now ≡ ok (d, e')
    → charge_all no_charges input.allocations ≡ ok c
    → 0 < d.managed_budget.cpu_millicores
    → IsCpuLeft
        (cpu_scope config snapshot e.last_kernel_cpu_sample now)
        c.managed_observed.cpu_millicores
        d.managed_budget.cpu_millicores
cpu_budget_within e config snapshot input now c h q =
    (evaluate-IsHeld e config snapshot input now c h q).cpu

-- A decision with a RAM budget rests on a known usage that covers what the allocations were
-- observed to use, and leaves the configured reserve free beside what other processes use.
pub ram_budget_within :
    (e : PolicyEngine) (config : Config) (snapshot : Snapshot) (input : PolicyInput) (now : ℕ)
    (c : Charges) {d : Decision} {e' : PolicyEngine}
    → evaluate e config snapshot input now ≡ ok (d, e')
    → charge_all no_charges input.allocations ≡ ok c
    → 0 < d.managed_budget.ram_mib
    → IsRamLeft config snapshot c.managed_observed.ram_mib d.managed_budget.ram_mib
ram_budget_within e config snapshot input now c h q =
    (evaluate-IsHeld e config snapshot input now c h q).ram
