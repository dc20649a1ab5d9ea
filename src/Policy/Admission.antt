-- ===== src/Policy/Admission.antt =====
-- src/policy.rs: what the admission headroom of a decision promises.
use cede_grid.Common.{
  ℕ, ◌-◌, ◌≤◌, ◌≡◌, Bool, String, StringMap, amount, ok, arith, retain, get-retain, subst, get,
}
use cede_grid.Model.Resources.{Resources}
use cede_grid.Model.Snapshot.{Snapshot, PolicyInput, Decision}
use cede_grid.Config.{Config}
use cede_grid.Policy.Amounts.{subtract_resources, subtract_gpus}
use cede_grid.Policy.Amounts.Laws.{subtract_gpus-le}
use cede_grid.Policy.Charges.{no_charges}
use cede_grid.Policy.Charges.Laws.{total_cpu, total_ram, total_gpu, charge_all-exact}
use cede_grid.Policy.Engine.{
  PolicyEngine, Budgeted, evaluate, budgeted, decide_allocation, raw_headroom, may_admit,
}
use cede_grid.Policy.Engine.Steps.{evaluate-Evaluated}

amount-retain :
    (p : String → Bool) (j : String) (m : StringMap ℕ) → amount j (retain p m) ≤ amount j m
amount-retain p j m = ground (arith, get-retain p j m)

-- The headroom of a decision is at most what the charges leave of the budget.
pub record IsLeft (charged : Resources) (d : Decision) : Type 0 where
  pub cpu :
      d.admission_headroom.cpu_millicores ≤ d.managed_budget.cpu_millicores - charged.cpu_millicores
  pub ram : d.admission_headroom.ram_mib ≤ d.managed_budget.ram_mib - charged.ram_mib
  pub gpu :
      (j : String)
      → amount j d.admission_headroom.gpu_memory_mib
        ≤ amount j d.managed_budget.gpu_memory_mib - amount j charged.gpu_memory_mib

pub decide-IsLeft :
    (e : PolicyEngine) (config : Config) (snapshot : Snapshot) (input : PolicyInput) (now : ℕ)
    (b : Budgeted)
    → IsLeft b.charges.charged (decide_allocation e config snapshot input now b).0
unfolding decide_allocation raw_headroom subtract_resources
decide-IsLeft e config snapshot input now b = record {
  cpu = ground arith;
  ram = ground arith;
  gpu = λ j.
      let left = subtract_gpus b.budget.gpu_memory_mib b.charges.charged.gpu_memory_mib in
      ground (
        arith,
        amount-retain (may_admit config now b) j left,
        subtract_gpus-le j b.budget.gpu_memory_mib b.charges.charged.gpu_memory_mib,
      );
}

-- The headroom of a successful evaluation, in CPU, in RAM and on each device, is at most what the
-- charges of all allocations (pending, running and draining ones) leave of the managed budget of
-- the decision, and nothing where they leave nothing.
pub headroom_within_budget :
    (e : PolicyEngine) (config : Config) (snapshot : Snapshot) (input : PolicyInput) (now : ℕ)
    {d : Decision} {e' : PolicyEngine}
    → evaluate e config snapshot input now ≡ ok (d, e')
    → (d.admission_headroom.cpu_millicores
        ≤ d.managed_budget.cpu_millicores - total_cpu input.allocations)
      × (d.admission_headroom.ram_mib ≤ d.managed_budget.ram_mib - total_ram input.allocations)
      × ((j : String)
          → amount j d.admission_headroom.gpu_memory_mib
            ≤ amount j d.managed_budget.gpu_memory_mib - total_gpu j input.allocations)
unfolding budgeted get
headroom_within_budget e config snapshot input now h =
    let v = evaluate-Evaluated e config snapshot input now h in
    let b = budgeted e config snapshot input now v.charges in
    let l =
      subst (λ (r : Decision × PolicyEngine). IsLeft v.charges.charged r.0) v.decided
        (decide-IsLeft e config snapshot input now b) in
    let (cpu, ram, gpu) = charge_all-exact no_charges input.allocations v.charged in
    (omega (arith, l.cpu, cpu), omega (arith, l.ram, ram), λ j. omega (arith, l.gpu j, gpu j))
