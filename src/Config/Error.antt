-- ===== src/Config/Error.antt =====
-- The refusals of configuration validation, one for each `ensure!` of src/config.rs, src/kernel.rs
-- and src/cgroup.rs.
pub data ConfigError : Type 0 where
  schema node_id_length node_id_characters node_id_dots state_dir monitor_interval : ConfigError
  release_confirm_timeout prepare_timeout admission_timeout nice reserve_percent : ConfigError
  sample_max_age best_effort authorization identity : ConfigError
  protective_shrink active_shrink shrink_order heartbeat lease deadline_overflow : ConfigError
  kernel_interval kernel_overflow kernel_path : ConfigError
  cgroup_root cgroup_traversal cgroup_control cgroup_duplicate cgroup_weight : ConfigError
  cgroup_quota cgroup_period cgroup_memory cgroup_memory_order : ConfigError
  cgroup_delegated_root cgroup_unauthorized : ConfigError
