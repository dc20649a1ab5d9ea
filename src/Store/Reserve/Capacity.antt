-- ===== src/Store/Reserve/Capacity.antt =====
-- What a successful reservation leaves of the capacity.
use cede_grid.Common.{
  ℕ, ◌+◌, ◌≤◌, String, true, false, ◌&&◌, not, Option, List, [], ◌∷◌, ◌++◌, ◌==◌, ◌≡◌, refl, arith,
  ok, leb, amount, all, any, keys, All, StringMap, String_eq,
}
use cede_grid.Model.Resources.{Resources}
use cede_grid.Execution.{LaunchRequest, ExecutionRecord, is_released}
use cede_grid.Store.Tables.{Store, ExecutionRow}
use cede_grid.Store.Reserve.{reserve_generation, fits_requested, reserved_record}
use cede_grid.Store.Reserve.Laws.{
  reserve-Reserved, write-entry, write-executions, charge_rows-IsCharged, held_cpu, held_ram,
  held_gpu,
}

-- Every device that is tested holds its charge.
all-All :
    (used cap : StringMap ℕ) (charge : String → ℕ) (xs : List String)
    → ((j : String) → amount j used ≡ charge j)
    → all (λ id. leb (amount id used) (amount id cap)) xs ≡ true
    → All (λ j. charge j ≤ amount j cap) xs
all-All used cap charge [] e h = tt
all-All used cap charge (x ∷ xs) e h =
    (ground (arith, e x, h), all-All used cap charge xs e (ground (arith, h)))

held_cpu-append :
    (rows : List ExecutionRow) (r : ExecutionRow)
    → is_released r.entry.phase ≡ false
    → held_cpu (rows ++ (r ∷ [])) ≡ held_cpu rows + r.entry.resources.cpu_millicores
held_cpu-append [] r h = rw h (omega arith)
held_cpu-append (x ∷ rows) r h = omega (arith, held_cpu-append rows r h)

held_ram-append :
    (rows : List ExecutionRow) (r : ExecutionRow)
    → is_released r.entry.phase ≡ false
    → held_ram (rows ++ (r ∷ [])) ≡ held_ram rows + r.entry.resources.ram_mib
held_ram-append [] r h = rw h (omega arith)
held_ram-append (x ∷ rows) r h = omega (arith, held_ram-append rows r h)

pub record IsWithin (s : Store) (request : LaunchRequest) (capacity : Resources) (s' : Store)
    : Type 0 where
  pub cpu : held_cpu s'.executions ≤ capacity.cpu_millicores
  pub ram : held_ram s'.executions ≤ capacity.ram_mib
  pub gpu :
      All
        (λ (j : String).
          amount j request.resources.gpu_memory_mib + held_gpu j s.executions
          ≤ amount j capacity.gpu_memory_mib)
        (keys request.resources.gpu_memory_mib)
  pub no_rival :
      any
        (λ (r : ExecutionRow).
          not (is_released r.entry.phase) && r.entry.task_id == request.task_id)
        s.executions
      ≡ false

-- After a reservation the CPU and RAM of all executions that are not released fit the capacity,
-- so does the memory of each device the request names, and no execution of the same task was
-- unreleased before.
pub reserve_generation-IsWithin :
    (s : Store) (request : LaunchRequest) (capacity : Resources) (remote : Option ℕ)
    (entry : ExecutionRecord) (s' : Store)
    → reserve_generation s request capacity remote ≡ ok (entry, s')
    → IsWithin s request capacity s'
unfolding fits_requested
reserve_generation-IsWithin s request capacity remote entry s' h =
    let r = reserve-Reserved s request capacity remote h in
    let c = charge_rows-IsCharged request.task_id request.resources s.executions r.charges in
    let (rows, _, _) = write-executions s request r.generation r.written in
    let e = write-entry s request r.generation r.written in
    let row : ExecutionRow = record {
      request = request;
      entry = reserved_record request r.generation;
    } in
    let fits = r.fits in
    record {
      cpu = rw (rows, e, held_cpu-append s.executions row refl) (ground (arith, fits, c.cpu));
      ram = rw (rows, e, held_ram-append s.executions row refl) (ground (arith, fits, c.ram));
      gpu =
          all-All r.charged.gpu_memory_mib capacity.gpu_memory_mib
            (λ j. amount j request.resources.gpu_memory_mib + held_gpu j s.executions)
            (keys request.resources.gpu_memory_mib) c.gpu (ground (arith, fits));
      no_rival = c.no_rival;
    }
