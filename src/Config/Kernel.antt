-- ===== src/Config/Kernel.antt =====
-- src/kernel.rs: `KernelConfig` and its validation.
use cede_grid.Common.{
  ℕ, String, Bool, ◌*◌, ◌&&◌, ◌||◌, not, Option, none, some, leb, u64_max, is_absolute,
  has_parent_dir, Result, ok, ensure, ◌>>◌, nat_eq,
}
use cede_grid.Config.Error.{ConfigError}

pub record KernelConfig : Type 0 where
  pub enabled : Bool
  pub psi : Bool
  pub freshness_intervals : ℕ  -- u64
  pub monitor_interval_ms : ℕ  -- u64
  pub delegated_root : Option String

-- `validate_absolute_path`: an absolute path has no leading `.`, and interior ones are dropped
-- by `components`
validate_path : Option String → Result ConfigError (Unit {0})
validate_path none = ok tt
validate_path (some path) =
    ensure (is_absolute path && not (has_parent_dir path)) ConfigError.kernel_path

-- `KernelConfig::validate`
unfoldable pub validate_kernel : KernelConfig → Result ConfigError (Unit {0})
unfolding validate_path
validate_kernel k = do
  ensure (not (nat_eq k.monitor_interval_ms 0 || nat_eq k.freshness_intervals 0))
      ConfigError.kernel_interval
  ensure (leb (k.monitor_interval_ms * k.freshness_intervals) u64_max) ConfigError.kernel_overflow
  validate_path k.delegated_root
