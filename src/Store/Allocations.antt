-- ===== src/Store/Allocations.antt =====
-- The journal as the policy sees it: src/execution_state.rs `execution_allocations` against the
-- charges of src/policy.rs.
use cede_grid.Common.{String, List, [], ◌∷◌, ◌≡◌, refl, arith, Bool-cases, inl, inr}
use cede_grid.Execution.{is_released}
use cede_grid.Policy.Charges.{charge_of}
use cede_grid.Policy.Charges.Laws.{total_cpu, total_ram, total_gpu}
use cede_grid.Store.Tables.{Store, ExecutionRow}
use cede_grid.Store.Reserve.Laws.{held_cpu, held_ram, held_gpu}
use cede_grid.Store.Transition.{execution_allocations, allocations_of, allocation_of}

-- An allocation of the journal is charged what its reservation asks for.
charge_of-allocation_of : (r : ExecutionRow) → charge_of (allocation_of r) ≡ r.entry.resources
unfolding charge_of allocation_of
charge_of-allocation_of r = ground arith

allocations_of-charges :
    (rows : List ExecutionRow)
    → (total_cpu (allocations_of rows) ≡ held_cpu rows)
      × (total_ram (allocations_of rows) ≡ held_ram rows)
      × ((j : String) → total_gpu j (allocations_of rows) ≡ held_gpu j rows)
unfolding allocations_of
allocations_of-charges [] = (refl, refl, λ j. refl)
allocations_of-charges (r ∷ rest) =
    let (cpu, ram, gpu) = allocations_of-charges rest in
    elim (Bool-cases (is_released r.entry.phase)) [
      | inl y ↦
          rw (y, allocations_of) (omega (arith, cpu), omega (arith, ram), λ j. omega (arith, gpu j))
      | inr n ↦
          rw (n, allocations_of, charge_of-allocation_of r)
            (omega (arith, cpu), omega (arith, ram), λ j. omega (arith, gpu j))
    ]

-- The policy charges for the allocations that the journal shows it exactly what the journal's
-- executions that are not released reserve: CPU, RAM and the memory of each device.
pub execution_allocations-charges :
    (s : Store)
    → (total_cpu (execution_allocations s) ≡ held_cpu s.executions)
      × (total_ram (execution_allocations s) ≡ held_ram s.executions)
      × ((j : String) → total_gpu j (execution_allocations s) ≡ held_gpu j s.executions)
unfolding execution_allocations
execution_allocations-charges s = allocations_of-charges s.executions
