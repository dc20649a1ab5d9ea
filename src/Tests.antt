-- ===== src/Tests.antt =====
-- Concrete nodes, requests and stores, on which the theorems are applied.
mod Policy
mod Store
mod Coordinator
mod Agent
use cede_grid.Common.{ℕ, String, Bool, true, false, none, some, List, [], ◌∷◌, ℤ, pos}
use cede_grid.Model.Resources.{Resources}
use cede_grid.Model.Snapshot.{
  Snapshot, GpuObservation, GpuSnapshot, PolicyInput, Allocation, AllocationPhase, CapabilityStatus,
  ComputeActivity, ExternalGpuProcessIdentity, GpuExecutionCapability,
}
use cede_grid.Execution.{LaunchRequest, AllocationClass, ProcessIdentity, ControlEvidence}
use cede_grid.Config.Cgroup.{CgroupConfig}
use cede_grid.Policy.Gpu.{Reading, no_previous}
use cede_grid.Config.{Config, NodeMode, GpuExecutionMode}

-- A node with the defaults of the example configurations.
abbrev pub node : Config
node = record {
  schema_version = 2;
  node_id = "node-a";
  node_mode = NodeMode.opportunistic;
  state_dir = "/var/lib/cede";
  monitor_interval_ms = 1000;
  cpu = record { reserve_physical_cores = 1; nice = pos 10 };
  ram = record { reserve_mib = 4096; reserve_percent = 20 };
  gpu = record {
    execution_mode = GpuExecutionMode.conservative_non_sharing;
    best_effort_external_processes = [];
    process_sample_max_age_ms = 5000;
    reserve_vram_mib = 1024;
    scale_up_cooldown_ms = 0;
    protective_shrink_percent = 25;
    active_shrink_percent = 50;
  };
  lifecycle = record {
    drain_timeout_ms = 30000;
    term_grace_ms = 5000;
    heartbeat_interval_ms = 2000;
    allocation_lease_ms = 10000;
  };
  kernel = record {
    enabled = false;
    psi = false;
    freshness_intervals = 3;
    monitor_interval_ms = 1000;
    delegated_root = none;
  };
  cgroup = record {
    enabled = false;
    delegated_root = none;
    authorized_controls = [];
    cpu_weight = none;
    cpu_max = none;
    memory_high_mib = none;
    memory_max_mib = none;
    allow_kill = false;
  };
  execution = record {
    enabled = true;
    prepare_timeout_ms = 1000;
    admission_timeout_ms = 1000;
    release_confirm_timeout_ms = 1000;
  };
}

-- the node with a cooldown
abbrev pub patient : Config
patient = record node { gpu = record node.gpu { scale_up_cooldown_ms = 500 } }

abbrev pub device : GpuSnapshot
device = record {
  uuid = "g0";
  total_memory_mib = 24576;
  used_memory_mib = some 2048;
  utilization_percent = none;
  external_process_ids = some [];
  external_compute = ComputeActivity.idle;
  compute_sample_id = some 1;
  observation = none;
}

abbrev pub reading : Snapshot
reading = record {
  schema_version = 2;
  node_id = "node-a";
  observed_at_unix_ms = 100;
  cpu_capacity_millicores = 16000;
  physical_cores = some 8;
  cpu_busy_millicores = some 2000;
  total_ram_mib = 65536;
  available_ram_mib = some 50000;
  gpu_inventory = CapabilityStatus.available;
  gpus = device ∷ [];
  kernel = none;
}

abbrev pub pending : Allocation
pending = record {
  id = "a";
  class = AllocationClass.opportunistic;
  phase = AllocationPhase.pending;
  requested = record { cpu_millicores = 2000; ram_mib = 4096; gpu_memory_mib = ("g0", 4096) ∷ [] };
  observed = none;
}

abbrev pub input : PolicyInput
input = record { allocations = pending ∷ []; explicit_drain = false }

-- the node in the best-effort mode, with one authorised process
abbrev pub watched : Config
watched = record node {
  gpu = record node.gpu {
    execution_mode = GpuExecutionMode.best_effort_occupied;
    best_effort_external_processes =
        ("g0", record { pid = 7; boot_id = "b"; start_ticks = 9; uid = 0 } ∷ []) ∷ [];
  };
}

-- one allocation that asks for more than the node can give
abbrev pub excess : PolicyInput
excess = record {
  allocations =
      record pending {
        requested = record { cpu_millicores = 20000; ram_mib = 4096; gpu_memory_mib = [] };
      }
      ∷ [];
  explicit_drain = false;
}

abbrev pub watched_pids : List ExternalGpuProcessIdentity
watched_pids = record { pid = 7; boot_id = "b"; start_ticks = 9; uid = 0 } ∷ []

abbrev pub watched_observation : GpuObservation
watched_observation = record {
  capability = GpuExecutionCapability.conservative_non_sharing;
  best_effort_external_processes = some watched_pids;
  query_cursor_us = 0;
  newest_sample_timestamp_us = none;
  samples_returned = 0;
  observed_at_unix_ms = 100;
  baseline_age_ms = none;
  sample_max_age_ms = 5000;
  fresh_after_baseline = false;
}

-- a device that the authorised process occupies
abbrev pub watched_device : GpuSnapshot
watched_device = record device {
  external_process_ids = some (7 ∷ []);
  external_compute = ComputeActivity.active;
  observation = some watched_observation;
}

-- an enabled cgroup configuration
abbrev pub limits : CgroupConfig
limits = record {
  enabled = true;
  delegated_root = some "/sys/fs/cgroup/cede";
  authorized_controls = "cgroup.procs" ∷ "cpu.weight" ∷ "memory.max" ∷ [];
  cpu_weight = some 50;
  cpu_max = none;
  memory_high_mib = none;
  memory_max_mib = some 4096;
  allow_kill = false;
}

-- a charged device under an alarm
abbrev pub alarmed : Reading
alarmed = record {
  previous = no_previous;
  current_charge = 4096;
  external = some 2048;
  memory_budget = 21504;
  pids = [];
  fresh_sample = true;
  is_unknown = false;
  active = true;
  breached = false;
  protection_event = true;
  forced = false;
}
