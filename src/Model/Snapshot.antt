-- ===== src/Model/Snapshot.antt =====
-- src/model.rs: the observation that a collector reports, the allocations that the policy is asked
-- about, and the decision. Texts that only explain (capability details, `activity_api`,
-- `freshness_decision`, `reasons`) and the `capabilities` map are left out: no decision reads them.
use cede_grid.Common.{
  ℕ, String, Bool, true, false, ◌&&◌, ◌||◌, Option, List, Eq, ◌==◌, ◌≡◌, ◌↔◌, arith, ==_iff, ℕ_eq,
  String_eq,
}
use cede_grid.Model.Resources.{Resources}
use cede_grid.Execution.{AllocationClass}
use cede_grid.Kernel.{KernelSnapshot}

abbrev pub schema_version : ℕ
schema_version = 2

abbrev pub supported_schema : ℕ → Bool
supported_schema version = version == 1 || version == 2

pub data CapabilityStatus : Type 0 where
  available unsupported unavailable unknown : CapabilityStatus

abbrev pub is_available : CapabilityStatus → Bool
is_available CapabilityStatus.available = true
is_available _ = false

pub data AllocationPhase : Type 0 where
  pending running draining : AllocationPhase

abbrev pub is_pending : AllocationPhase → Bool
is_pending AllocationPhase.pending = true
is_pending _ = false

abbrev pub is_draining : AllocationPhase → Bool
is_draining AllocationPhase.draining = true
is_draining _ = false

pub record Allocation : Type 0 where
  pub id : String
  pub class : AllocationClass
  pub phase : AllocationPhase
  pub requested : Resources
  pub observed : Option Resources  -- `none` is unknown usage, never zero

pub data ComputeActivity : Type 0 where
  idle active unknown : ComputeActivity

abbrev pub is_idle : ComputeActivity → Bool
is_idle ComputeActivity.idle = true
is_idle _ = false

abbrev pub is_active : ComputeActivity → Bool
is_active ComputeActivity.active = true
is_active _ = false

abbrev pub is_activity_unknown : ComputeActivity → Bool
is_activity_unknown ComputeActivity.unknown = true
is_activity_unknown _ = false

pub data GpuExecutionCapability : Type 0 where
  contention_aware conservative_non_sharing best_effort_occupied insufficient_observability :
      GpuExecutionCapability

abbrev pub is_contention_aware : GpuExecutionCapability → Bool
is_contention_aware GpuExecutionCapability.contention_aware = true
is_contention_aware _ = false

abbrev pub is_conservative : GpuExecutionCapability → Bool
is_conservative GpuExecutionCapability.conservative_non_sharing = true
is_conservative _ = false

abbrev pub is_best_effort : GpuExecutionCapability → Bool
is_best_effort GpuExecutionCapability.best_effort_occupied = true
is_best_effort _ = false

abbrev pub is_insufficient : GpuExecutionCapability → Bool
is_insufficient GpuExecutionCapability.insufficient_observability = true
is_insufficient _ = false

pub record ExternalGpuProcessIdentity : Type 0 where
  pub pid : ℕ  -- u32
  pub boot_id : String
  pub start_ticks : ℕ  -- u64
  pub uid : ℕ  -- u32

abbrev pub external_eq : ExternalGpuProcessIdentity → ExternalGpuProcessIdentity → Bool
external_eq a b =
    a.pid == b.pid && a.boot_id == b.boot_id && a.start_ticks == b.start_ticks && a.uid == b.uid

pub external_eq_iff : (a b : ExternalGpuProcessIdentity) → (external_eq a b ≡ true) ↔ (a ≡ b)
external_eq_iff a b = ground (arith, ==_iff a.boot_id b.boot_id)

instance abbrev pub ExternalGpuProcessIdentity_eq : Eq ExternalGpuProcessIdentity
ExternalGpuProcessIdentity_eq = record { equals = external_eq; decides = external_eq_iff }

pub record GpuObservation : Type 0 where
  pub capability : GpuExecutionCapability
  pub best_effort_external_processes : Option (List ExternalGpuProcessIdentity)
  pub query_cursor_us : ℕ  -- u64
  pub newest_sample_timestamp_us : Option ℕ  -- u64
  pub samples_returned : ℕ  -- usize
  pub observed_at_unix_ms : ℕ  -- u64
  pub baseline_age_ms : Option ℕ  -- u64
  pub sample_max_age_ms : ℕ  -- u64
  pub fresh_after_baseline : Bool

pub record GpuSnapshot : Type 0 where
  pub uuid : String
  pub total_memory_mib : ℕ  -- u64
  pub used_memory_mib : Option ℕ  -- u64
  pub utilization_percent : Option ℕ  -- u32
  pub external_process_ids : Option (List ℕ)  -- u32; `none`: enumeration failed
  pub external_compute : ComputeActivity
  pub compute_sample_id : Option ℕ  -- u64
  pub observation : Option GpuObservation

pub record Snapshot : Type 0 where
  pub schema_version : ℕ  -- u32
  pub node_id : String
  pub observed_at_unix_ms : ℕ  -- u64
  pub cpu_capacity_millicores : ℕ  -- u64
  pub physical_cores : Option ℕ  -- u32
  pub cpu_busy_millicores : Option ℕ  -- u64
  pub total_ram_mib : ℕ  -- u64
  pub available_ram_mib : Option ℕ  -- u64
  pub gpu_inventory : CapabilityStatus
  pub gpus : List GpuSnapshot
  pub kernel : Option KernelSnapshot

pub record PolicyInput : Type 0 where
  pub allocations : List Allocation
  pub explicit_drain : Bool

pub record Decision : Type 0 where
  pub schema_version : ℕ  -- u32
  pub node_id : String
  pub observe_only : Bool
  pub managed_budget : Resources
  pub admission_headroom : Resources
  pub expansion_allowed : Bool
  pub cpu_ram_expansion_allowed : Bool
  pub would_drain : List String
