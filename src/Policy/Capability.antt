-- ===== src/Policy/Capability.antt =====
-- src/policy.rs: what an observation of a GPU supports, and the check of a launch against it.
use cede_grid.Common.{
  ℕ, Bool, true, false, ◌&&◌, ◌||◌, not, Option, none, some, List, [], ◌∷◌, String, is_some,
  is_some_and, ltb, leb, ◌==◌, ℕ_eq, String_eq, all, filter, find, length, is_empty, contains,
  to_set, is_blank, get, keys, Result, ok, ensure, context, ◌>>=◌, ◌>>◌, nat_eq, if◌then◌else◌,
}
use cede_grid.Model.Resources.{Resources}
use cede_grid.Model.Snapshot.{
  GpuSnapshot, GpuObservation, GpuExecutionCapability, contention_aware, conservative_non_sharing,
  best_effort_occupied, insufficient_observability, is_insufficient, is_contention_aware,
  is_conservative, is_best_effort, ExternalGpuProcessIdentity, ExternalGpuProcessIdentity_eq,
  Snapshot, is_available, is_idle,
}
use cede_grid.Execution.{AllocationClass, AllocationClass_eq}
use cede_grid.Config.{Config, GpuExecutionMode, is_mode_contention_aware}
use cede_grid.Policy.Amounts.{PolicyError}

-- The last four conditions of `best_effort_identity_contract`, once all four sources are present.
unfoldable pub identities_match :
    List ExternalGpuProcessIdentity → List ExternalGpuProcessIdentity → List ℕ → Bool
identities_match allowed verified pids =
    let unique = to_set pids in
    not (is_empty allowed)
    && nat_eq (length unique) (length pids)
    && nat_eq (length verified) (length unique)
    && all (λ pid. nat_eq (length (filter (λ i. i.pid == pid) verified)) 1) unique
    && all
        (λ i. ltb 0 i.pid && ltb 0 i.start_ticks && not (is_blank i.boot_id) && contains allowed i)
        verified

-- `best_effort_identity_contract`
unfoldable pub best_effort_identity_contract : Config → ℕ → GpuSnapshot → Bool
unfolding identities_match
best_effort_identity_contract config observed_at gpu =
    is_some_and (get gpu.uuid config.gpu.best_effort_external_processes) λ allowed.
      is_some_and gpu.observation λ observation.
        is_some_and observation.best_effort_external_processes λ verified.
          is_some_and gpu.external_process_ids λ pids.
            observation.observed_at_unix_ms == observed_at && identities_match allowed verified pids

-- the local `basic`
unfoldable pub has_basics : GpuSnapshot → Bool
has_basics gpu =
    ltb 0 gpu.total_memory_mib
    && is_some_and gpu.used_memory_mib (λ used. leb used gpu.total_memory_mib)
    && is_some gpu.external_process_ids

-- the local `fresh`
unfoldable pub is_fresh : Config → GpuObservation → Bool
is_fresh config o =
    is_contention_aware o.capability
    && o.fresh_after_baseline
    && ltb 0 o.query_cursor_us
    && is_some_and o.newest_sample_timestamp_us (λ v. ltb o.query_cursor_us v)
    && is_some_and o.baseline_age_ms (λ age. leb age config.gpu.process_sample_max_age_ms)

-- the last `match` of `effective_gpu_capability`
unfoldable pub capability_of_mode :
    Config → ℕ → GpuSnapshot → GpuExecutionMode → Option GpuExecutionCapability
capability_of_mode config observed_at gpu GpuExecutionMode.auto = elim gpu.observation [
  | none ↦ none
  | some o ↦ some (if is_fresh config o then contention_aware else conservative_non_sharing)
]
capability_of_mode config observed_at gpu GpuExecutionMode.contention_aware = some (
    if is_some_and gpu.observation (is_fresh config)
    then contention_aware
    else insufficient_observability)
capability_of_mode config observed_at gpu GpuExecutionMode.conservative_non_sharing =
    some conservative_non_sharing
capability_of_mode config observed_at gpu GpuExecutionMode.best_effort_occupied = some (
    if best_effort_identity_contract config observed_at gpu
    then best_effort_occupied
    else insufficient_observability)

-- `effective_gpu_capability`
unfoldable pub effective_gpu_capability : Config → ℕ → GpuSnapshot → Option GpuExecutionCapability
unfolding capability_of_mode
effective_gpu_capability config observed_at gpu =
    if not (has_basics gpu)
      || is_some_and gpu.observation
          (λ o. not (o.observed_at_unix_ms == observed_at) || is_insufficient o.capability)
    then some insufficient_observability
    else capability_of_mode config observed_at gpu config.gpu.execution_mode

-- the body of the loop of `validate_gpu_launch_contract`
unfoldable pub validate_launch_gpu : Config → Snapshot → String → Result PolicyError (Unit {0})
validate_launch_gpu config snapshot uuid = do
  gpu ← context (find (λ (g : GpuSnapshot). g.uuid == uuid) snapshot.gpus) PolicyError.gpu_absent
  let capability = effective_gpu_capability config snapshot.observed_at_unix_ms gpu
  ensure (not (is_some_and capability is_insufficient)) PolicyError.gpu_unobserved
  ensure
      (not (is_some_and capability is_conservative)
        || is_some_and gpu.external_process_ids (λ pids. is_empty pids))
      PolicyError.gpu_shared
  ensure (is_some_and capability is_best_effort || is_idle gpu.external_compute)
      PolicyError.gpu_busy

unfoldable pub validate_launch_gpus :
    Config → Snapshot → List String → Result PolicyError (Unit {0})
validate_launch_gpus config snapshot [] = ok tt
validate_launch_gpus config snapshot (uuid ∷ rest) =
    let others = validate_launch_gpus config snapshot rest in
    validate_launch_gpu config snapshot uuid >> others

abbrev pub is_guaranteed : AllocationClass → Bool
is_guaranteed AllocationClass.guaranteed = true
is_guaranteed AllocationClass.opportunistic = false

-- `validate_gpu_launch_contract`
unfoldable pub validate_gpu_launch_contract :
    Config → Snapshot → Resources → AllocationClass → Result PolicyError (Unit {0})
unfolding validate_launch_gpu validate_launch_gpus
validate_gpu_launch_contract config snapshot resources class =
    let checks = (do
      ensure (not (is_guaranteed class) || is_mode_contention_aware config.gpu.execution_mode)
          PolicyError.guaranteed_gpu
      ensure (is_available snapshot.gpu_inventory) PolicyError.inventory_unavailable
      validate_launch_gpus config snapshot (keys resources.gpu_memory_mib)) in
    if is_empty resources.gpu_memory_mib then ok tt else checks
