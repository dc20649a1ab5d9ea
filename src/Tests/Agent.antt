-- ===== src/Tests/Agent.antt =====
-- The theorems on the agent, at two allocations, a lease and a timer.
use cede_grid.Common.{
  ℕ, ◌+◌, ◌*◌, ◌≤◌, max, true, false, none, some, List, [], ◌∷◌, ◌≡◌, refl, arith, ok, All,
}
use cede_grid.Model.Resources.{Resources}
use cede_grid.Model.Snapshot.{Allocation, AllocationPhase}
use cede_grid.Execution.{AllocationClass}
use cede_grid.Protocol.{Assignment}
use cede_grid.Policy.Charges.{Charges, charge_all, no_charges}
use cede_grid.Agent.{allocation_charge, validate_lease, next_periodic_wake}
use cede_grid.Agent.Charges.{allocation_charge-charge_all, PendingUnobserved}
use cede_grid.Agent.Leases.{grant-validate_lease}
use cede_grid.Agent.{next_control_due_at, nanos_per_milli}
use cede_grid.Common.{◌<◌}
use cede_grid.Agent.Clock.{next_control_due_at-cadence, next_periodic_wake-bounds}
use cede_grid.Tests.Coordinator.{config, request, offered, first_lease, granted_runs}

abbrev assignment : Assignment
assignment = record {
  node_id = "n";
  generation = 1;
  coordinator_epoch = 1;
  request = record request { assignment_id = "a0" };
  checkpoint = none;
}

grant-validate_lease_example : validate_lease first_lease assignment ≡ ok tt
grant-validate_lease_example =
    grant-validate_lease config offered "a0" 1 none 400 assignment granted_runs refl refl refl
      (omega arith)

next_periodic_wake-bounds_example :
    (k : ℕ) × (next_periodic_wake 100 30 175 ≡ 100 + 30 * k)
    × (175 ≤ next_periodic_wake 100 30 175)
    × (next_periodic_wake 100 30 175 ≤ max 100 175 + 30)
next_periodic_wake-bounds_example = next_periodic_wake-bounds 100 30 175 (omega arith) (omega arith)

abbrev cpus : ℕ → Resources
cpus n = record { cpu_millicores = n; ram_mib = 100; gpu_memory_mib = ("g", n) ∷ [] }

-- One allocation that runs and uses more than it requested, and one that is pending.
abbrev allocations : List Allocation
allocations =
    record {
      id = "a";
      class = AllocationClass.opportunistic;
      phase = AllocationPhase.running;
      requested = cpus 500;
      observed = some (cpus 700);
    }
    ∷ record {
      id = "b";
      class = AllocationClass.opportunistic;
      phase = AllocationPhase.pending;
      requested = cpus 200;
      observed = none;
    }
    ∷ []

abbrev total : Resources
total = record { cpu_millicores = 900; ram_mib = 200; gpu_memory_mib = ("g", 900) ∷ [] }

abbrev charged : Charges
charged = record {
  charged = total;
  managed_observed = cpus 700;
  missing = record { cpu_millicores = 0; ram_mib = 0; gpu_memory_mib = [] };
  charges = ("a", cpus 700) ∷ ("b", cpus 200) ∷ [];
}

charged_runs : charge_all no_charges allocations ≡ ok charged
unfolding charge_all cede_grid.Policy.Charges.charge_step cede_grid.Policy.Amounts.add_resources
    cede_grid.Common.checked_add cede_grid.Policy.Amounts.add_gpus cede_grid.Common.get
    cede_grid.Policy.Charges.charge_of cede_grid.Policy.Amounts.maximum
    cede_grid.Policy.Amounts.maximum_gpus cede_grid.Common.insert
charged_runs = refl

unobserved : All PendingUnobserved allocations
unobserved = (refl, (refl, tt))

allocation_charge-charge_all_example : allocation_charge allocations ≡ total
allocation_charge-charge_all_example =
    allocation_charge-charge_all allocations unobserved charged_runs

next_control_due_at-cadence_example :
    (k : ℕ) × ((next_control_due_at 0 (nanos_per_milli * 30) 175000000).0
      ≡ 0 + nanos_per_milli * 30)
    × ((next_control_due_at 0 (nanos_per_milli * 30) 175000000).1
        ≡ 0 + nanos_per_milli * 30 + nanos_per_milli * 30 * k)
    × ((next_control_due_at 0 (nanos_per_milli * 30) 175000000).1
        ≤ max (0 + nanos_per_milli * 30) 175000000)
    × (175000000
        < (next_control_due_at 0 (nanos_per_milli * 30) 175000000).1 + nanos_per_milli * 30)
next_control_due_at-cadence_example =
    next_control_due_at-cadence 0 30 175000000 (omega arith) (omega arith)
