-- ===== src/Kernel.antt =====
-- src/kernel.rs: the snapshot of the kernel's CPU scope that the policy reads. The cgroup
-- hierarchy, the pressure readings and the explanatory texts are left out.
use cede_grid.Common.{ℕ, String, Bool, true, false, Option, List, ℤ}
use cede_grid.Execution.{ControlEvidence}

pub data CpuUsageStatus : Type 0 where
  available baseline no_interval stale counter_reset unknown : CpuUsageStatus

abbrev pub is_usage_available : CpuUsageStatus → Bool
is_usage_available CpuUsageStatus.available = true
is_usage_available _ = false

pub record CpuCore : Type 0 where
  pub cpu_id : ℕ  -- u32
  pub package_id : Option ℤ  -- i32
  pub core_id : Option ℤ  -- i32
  pub thread_siblings : Option (List ℕ)

pub record CpuTopology : Type 0 where
  pub allowed_cpu_ids : Option (List ℕ)
  pub effective_cgroup_cpu_ids : Option (List ℕ)
  pub effective_cpu_ids : Option (List ℕ)
  pub cores : List CpuCore
  pub effective_cpu_capacity_millicores : Option ℕ  -- u64
  pub busy_millicores : Option ℕ  -- u64
  pub busy_status : CpuUsageStatus
  pub busy_interval_ms : Option ℕ  -- u64
  pub visible_cpu_ceiling_millicores : Option ℕ  -- u64

pub record KernelSnapshot : Type 0 where
  pub schema_version : ℕ  -- u32
  pub runtime_os : String
  pub kernel_release : Option String
  pub observed_at_unix_ms : ℕ  -- u64
  pub monotonic_elapsed_ms : ℕ  -- u64
  pub sample_interval_ms : Option ℕ  -- u64
  pub freshness_limit_ms : ℕ  -- u64
  pub controls : List ControlEvidence
  pub cpu : CpuTopology
