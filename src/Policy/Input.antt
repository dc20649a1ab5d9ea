-- ===== src/Policy/Input.antt =====
-- src/policy.rs: `validate`, the checks on a snapshot and on the allocations before any decision.
use cede_grid.Common.{
  ◌/◌, ◌&&◌, ◌||◌, not, List, [], ◌∷◌, String, is_none, is_some_and, is_none_or, ltb, leb, ◌==◌,
  ℕ_eq, String_eq, all, length, is_empty, contains, to_set, is_blank, keys, Result, ok, ensure,
  ◌>>◌, nat_eq,
}
use cede_grid.Model.Snapshot.{
  GpuSnapshot, Snapshot, PolicyInput, Allocation, is_available, is_insufficient, supported_schema,
  is_pending,
}
use cede_grid.Policy.Amounts.{PolicyError}

validate_gpu : GpuSnapshot → Result PolicyError (Unit {0})
validate_gpu gpu = do
  ensure
      (ltb 0 gpu.total_memory_mib
        || is_none gpu.used_memory_mib
          && is_some_and gpu.observation (λ o. is_insufficient o.capability))
      PolicyError.invalid_gpu
  ensure (is_none_or gpu.used_memory_mib (λ used. leb used gpu.total_memory_mib))
      PolicyError.invalid_gpu
  ensure (is_none_or gpu.utilization_percent (λ percent. leb percent 100)) PolicyError.invalid_gpu
  ensure
      (is_none_or gpu.external_process_ids
        (λ pids. all (λ pid. ltb 0 pid) pids && nat_eq (length (to_set pids)) (length pids)))
      PolicyError.invalid_gpu

-- The loop over the devices, with the UUIDs seen so far.
validate_gpus : List String → List GpuSnapshot → Result PolicyError (Unit {0})
unfolding validate_gpu
validate_gpus seen [] = ok tt
validate_gpus seen (gpu ∷ rest) =
    let others = validate_gpus (gpu.uuid ∷ seen) rest in
    ensure (not (is_blank gpu.uuid) && not (contains seen gpu.uuid)) PolicyError.invalid_gpu
    >> (validate_gpu gpu >> others)

validate_allocation : Allocation → Result PolicyError (Unit {0})
validate_allocation a = do
  ensure (not (is_pending a.phase) || is_none a.observed) PolicyError.invalid_allocation
  ensure (all (λ id. not (is_blank id)) (keys a.requested.gpu_memory_mib))
      PolicyError.invalid_allocation
  ensure (is_none_or a.observed (λ o. all (λ id. not (is_blank id)) (keys o.gpu_memory_mib)))
      PolicyError.invalid_allocation

-- The loop over the allocations, with the IDs seen so far.
validate_allocations : List String → List Allocation → Result PolicyError (Unit {0})
unfolding validate_allocation
validate_allocations seen [] = ok tt
validate_allocations seen (a ∷ rest) =
    let others = validate_allocations (a.id ∷ seen) rest in
    ensure (not (is_blank a.id) && not (contains seen a.id)) PolicyError.invalid_allocation
    >> (validate_allocation a >> others)

-- the checks on the whole-node readings
validate_host : Snapshot → String → Result PolicyError (Unit {0})
validate_host s node_id = do
  ensure (supported_schema s.schema_version) PolicyError.invalid_snapshot
  ensure (s.node_id == node_id) PolicyError.invalid_snapshot
  ensure
      (ltb 0 s.cpu_capacity_millicores || is_none s.physical_cores && is_none s.cpu_busy_millicores)
      PolicyError.invalid_snapshot
  ensure (ltb 0 s.total_ram_mib || is_none s.available_ram_mib) PolicyError.invalid_snapshot
  ensure (is_none_or s.physical_cores (λ n. ltb 0 n && leb n (s.cpu_capacity_millicores / 1000)))
      PolicyError.invalid_snapshot
  ensure (is_none_or s.cpu_busy_millicores (λ busy. leb busy s.cpu_capacity_millicores))
      PolicyError.invalid_snapshot
  ensure (is_none_or s.available_ram_mib (λ available. leb available s.total_ram_mib))
      PolicyError.invalid_snapshot
  ensure (is_available s.gpu_inventory || is_empty s.gpus) PolicyError.invalid_snapshot

-- `validate`
unfoldable pub validate : Snapshot → PolicyInput → String → Result PolicyError (Unit {0})
unfolding validate_host validate_gpus validate_allocations
validate s input node_id = do
  validate_host s node_id
  validate_gpus [] s.gpus
  validate_allocations [] input.allocations
