-- ===== src/Config.antt =====
-- src/config.rs: the node configuration and its validation. The parsing of TOML into it, path
-- resolution and the other configuration kinds are not modelled.
pub mod Error
pub mod Kernel
pub mod Cgroup
pub mod Laws
use cede_grid.Common.{
  ℕ, String, Bool, true, ◌+◌, ◌≤◌, ◌<◌, ◌&&◌, ◌||◌, not, Option, some, List, [], ◌∷◌, StringMap,
  all, any, is_empty, ltb, leb, ◌==◌, ℤ, is_nice_value, len, codes, is_ascii_alphanumeric, nat_eq,
  is_empty_text, is_blank, contains, ℕ_eq, String_eq, checked_add, Result, ok, err, ensure, context,
  ◌>>=◌, ◌>>◌,
}
use cede_grid.Model.Snapshot.{ExternalGpuProcessIdentity, supported_schema}
use Error.{ConfigError}
use Kernel.{KernelConfig, validate_kernel}
use Cgroup.{CgroupConfig, validate_cgroup}

pub data NodeMode : Type 0 where
  guaranteed opportunistic : NodeMode

pub record ExecutionConfig : Type 0 where
  pub enabled : Bool
  pub prepare_timeout_ms : ℕ  -- u64
  pub admission_timeout_ms : ℕ  -- u64
  pub release_confirm_timeout_ms : ℕ  -- u64

pub record CpuConfig : Type 0 where
  pub reserve_physical_cores : ℕ  -- u32
  pub nice : ℤ  -- i32

pub record RamConfig : Type 0 where
  pub reserve_mib : ℕ  -- u64
  pub reserve_percent : ℕ  -- u8

pub data GpuExecutionMode : Type 0 where
  auto contention_aware conservative_non_sharing best_effort_occupied : GpuExecutionMode

abbrev pub is_mode_contention_aware : GpuExecutionMode → Bool
is_mode_contention_aware GpuExecutionMode.contention_aware = true
is_mode_contention_aware _ = Bool.false

abbrev pub is_mode_best_effort : GpuExecutionMode → Bool
is_mode_best_effort GpuExecutionMode.best_effort_occupied = true
is_mode_best_effort _ = Bool.false

pub record GpuConfig : Type 0 where
  pub execution_mode : GpuExecutionMode
  pub best_effort_external_processes : StringMap (List ExternalGpuProcessIdentity)
  pub process_sample_max_age_ms : ℕ  -- u64
  pub reserve_vram_mib : ℕ  -- u64
  pub scale_up_cooldown_ms : ℕ  -- u64
  pub protective_shrink_percent : ℕ  -- u8
  pub active_shrink_percent : ℕ  -- u8

pub record LifecycleConfig : Type 0 where
  pub drain_timeout_ms : ℕ  -- u64
  pub term_grace_ms : ℕ  -- u64
  pub heartbeat_interval_ms : ℕ  -- u64
  pub allocation_lease_ms : ℕ  -- u64

pub record Config : Type 0 where
  pub schema_version : ℕ  -- u32
  pub node_id : String
  pub node_mode : NodeMode
  pub state_dir : String
  pub monitor_interval_ms : ℕ  -- u64, `monitor.interval_ms`
  pub cpu : CpuConfig
  pub ram : RamConfig
  pub gpu : GpuConfig
  pub lifecycle : LifecycleConfig
  pub kernel : KernelConfig
  pub cgroup : CgroupConfig
  pub execution : ExecutionConfig

is_node_id_byte : ℕ → Bool
is_node_id_byte c = is_ascii_alphanumeric c || nat_eq c b'.' || nat_eq c b'_' || nat_eq c b'-'

-- The identities that are authorised on one device: `pids` are those read so far.
validate_identities : List ℕ → List ExternalGpuProcessIdentity → Result ConfigError (List ℕ)
validate_identities pids [] = ok pids
validate_identities pids (i ∷ is) =
    let rest = validate_identities (i.pid ∷ pids) is in
    ensure
      (ltb 0 i.pid && ltb 0 i.start_ticks && not (is_blank i.boot_id) && not (contains pids i.pid))
      ConfigError.identity
    >> rest

pub validate_authorizations :
    StringMap (List ExternalGpuProcessIdentity) → Result ConfigError (Unit {0})
unfolding validate_identities
validate_authorizations [] = ok tt
validate_authorizations ((uuid, identities) ∷ rest) =
    let others = validate_authorizations rest in
    ensure (not (is_blank uuid) && not (is_empty identities)) ConfigError.authorization
    >> (validate_identities [] identities >>= λ _. others)

pub validate_node : Config → Result ConfigError (Unit {0})
unfolding is_node_id_byte
validate_node c = do
  ensure (supported_schema c.schema_version) ConfigError.schema
  ensure (not (is_empty_text c.node_id) && leb (len c.node_id) 128) ConfigError.node_id_length
  ensure (all is_node_id_byte (codes c.node_id)) ConfigError.node_id_characters
  ensure (not (c.node_id == ".") && not (c.node_id == "..")) ConfigError.node_id_dots
  ensure (not (is_empty_text c.state_dir)) ConfigError.state_dir
  ensure (ltb 0 c.monitor_interval_ms) ConfigError.monitor_interval
  validate_kernel c.kernel
  validate_cgroup c.cgroup
  ensure (ltb 0 c.execution.release_confirm_timeout_ms) ConfigError.release_confirm_timeout
  ensure (ltb 0 c.execution.prepare_timeout_ms) ConfigError.prepare_timeout
  ensure (ltb 0 c.execution.admission_timeout_ms) ConfigError.admission_timeout
  ensure (is_nice_value c.cpu.nice) ConfigError.nice
  ensure (leb c.ram.reserve_percent 100) ConfigError.reserve_percent

unfoldable pub validate_gpu : GpuConfig → Result ConfigError (Unit {0})
unfolding validate_authorizations
validate_gpu g = do
  ensure (ltb 0 g.process_sample_max_age_ms) ConfigError.sample_max_age
  ensure
      (not (is_mode_best_effort g.execution_mode)
        || not (is_empty g.best_effort_external_processes))
      ConfigError.best_effort
  validate_authorizations g.best_effort_external_processes
  ensure (leb 1 g.protective_shrink_percent && leb g.protective_shrink_percent 100)
      ConfigError.protective_shrink
  ensure (leb 1 g.active_shrink_percent && leb g.active_shrink_percent 100)
      ConfigError.active_shrink
  ensure (leb g.protective_shrink_percent g.active_shrink_percent) ConfigError.shrink_order

pub validate_lifecycle : LifecycleConfig → Result ConfigError (Unit {0})
validate_lifecycle l = do
  ensure (ltb 0 l.heartbeat_interval_ms) ConfigError.heartbeat
  ensure (ltb l.heartbeat_interval_ms l.allocation_lease_ms) ConfigError.lease
  stop ← context (checked_add l.drain_timeout_ms l.term_grace_ms) ConfigError.deadline_overflow
  _ ← context (checked_add stop l.allocation_lease_ms) ConfigError.deadline_overflow
  ok tt

-- `Config::validate`
unfoldable pub validate_config : Config → Result ConfigError (Unit {0})
unfolding validate_node validate_gpu validate_lifecycle
validate_config c = do validate_node c; validate_gpu c.gpu; validate_lifecycle c.lifecycle
