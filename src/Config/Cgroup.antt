-- ===== src/Config/Cgroup.antt =====
-- src/cgroup.rs: `CgroupConfig`, its validation and the settings that it asks for. The writing of
-- control files is not modelled. A setting's value stands for the text that is written.
use cede_grid.Common.{
  ℕ, String, Bool, ◌*◌, ◌&&◌, not, Option, none, some, List, [], ◌∷◌, ◌++◌, leb, ltb, u64_max,
  saturating_mul, is_absolute, is_root, has_dot_part, contains, any, ◌==◌, String_eq, is_some,
  Result, ok, ensure, ◌>>◌, if◌then◌else◌,
}
use cede_grid.Config.Error.{ConfigError}

abbrev pub mib : ℕ
mib = 1048576

pub record CpuMax : Type 0 where
  pub quota_us : ℕ  -- u64
  pub period_us : ℕ  -- u64

pub record CgroupConfig : Type 0 where
  pub enabled : Bool
  pub delegated_root : Option String
  pub authorized_controls : List String
  pub cpu_weight : Option ℕ  -- u16
  pub cpu_max : Option CpuMax
  pub memory_high_mib : Option ℕ  -- u64
  pub memory_max_mib : Option ℕ  -- u64
  pub allow_kill : Bool

abbrev writable_controls : List String
writable_controls =
    "cgroup.procs" ∷ "cpu.weight" ∷ "cpu.max" ∷ "memory.high" ∷ "memory.max" ∷ "cgroup.kill" ∷ []

pub data Setting : Type 0 where
  amount : ℕ → Setting
  bandwidth : ℕ → ℕ → Setting

weight_setting : Option ℕ → List (String × Setting)
weight_setting none = []
weight_setting (some w) = ("cpu.weight", amount w) ∷ []

bandwidth_setting : Option CpuMax → List (String × Setting)
bandwidth_setting none = []
bandwidth_setting (some m) = ("cpu.max", bandwidth m.quota_us m.period_us) ∷ []

memory_setting : String → Option ℕ → List (String × Setting)
memory_setting name none = []
memory_setting name (some v) = (name, amount (saturating_mul v mib)) ∷ []

-- `CgroupConfig::settings`
unfoldable pub settings : CgroupConfig → List (String × Setting)
unfolding weight_setting bandwidth_setting memory_setting
settings c =
    weight_setting c.cpu_weight
    ++ (bandwidth_setting c.cpu_max
        ++ (memory_setting "memory.high" c.memory_high_mib
            ++ memory_setting "memory.max" c.memory_max_mib))

-- `require_authorized`
unfoldable pub require_authorized : CgroupConfig → String → Result ConfigError (Unit {0})
require_authorized c control =
    ensure (any (λ a. a == control) c.authorized_controls) ConfigError.cgroup_unauthorized

unfoldable pub require_all : CgroupConfig → List (String × Setting) → Result ConfigError (Unit {0})
require_all c [] = ok tt
require_all c (s ∷ ss) = let rest = require_all c ss in require_authorized c s.0 >> rest

unfoldable pub validate_root : Option String → Result ConfigError (Unit {0})
validate_root none = ok tt
validate_root (some path) = do
  ensure (is_absolute path && not (is_root path)) ConfigError.cgroup_root
  ensure (not (has_dot_part path)) ConfigError.cgroup_traversal

-- The loop over `authorized_controls`, with the names seen so far.
unfoldable pub validate_controls : List String → List String → Result ConfigError (Unit {0})
validate_controls seen [] = ok tt
validate_controls seen (c ∷ cs) =
    let rest = validate_controls (c ∷ seen) cs in
    ensure (contains writable_controls c) ConfigError.cgroup_control
    >> (ensure (not (contains seen c)) ConfigError.cgroup_duplicate >> rest)

unfoldable pub validate_weight : Option ℕ → Result ConfigError (Unit {0})
validate_weight none = ok tt
validate_weight (some w) = ensure (leb 1 w && leb w 10000) ConfigError.cgroup_weight

unfoldable pub validate_cpu_max : Option CpuMax → Result ConfigError (Unit {0})
validate_cpu_max none = ok tt
validate_cpu_max (some m) = do
  ensure (leb 1000 m.quota_us) ConfigError.cgroup_quota
  ensure (leb 1000 m.period_us && leb m.period_us 1000000) ConfigError.cgroup_period

unfoldable pub validate_memory : Option ℕ → Result ConfigError (Unit {0})
validate_memory none = ok tt
validate_memory (some v) = ensure (ltb 0 v && leb (v * mib) u64_max) ConfigError.cgroup_memory

unfoldable pub validate_memory_order : Option ℕ → Option ℕ → Result ConfigError (Unit {0})
validate_memory_order (some high) (some max) = ensure (leb high max) ConfigError.cgroup_memory_order
validate_memory_order _ _ = ok tt

unfoldable pub authorize_settings : CgroupConfig → Result ConfigError (Unit {0})
unfolding require_authorized require_all settings
authorize_settings c = do
  ensure (is_some c.delegated_root) ConfigError.cgroup_delegated_root
  require_authorized c "cgroup.procs"
  require_all c (settings c)
  if c.allow_kill then require_authorized c "cgroup.kill" else ok tt

unfoldable pub validate_enabled : CgroupConfig → Result ConfigError (Unit {0})
unfolding authorize_settings
validate_enabled c = if c.enabled then authorize_settings c else ok tt

-- `CgroupConfig::validate`
unfoldable pub validate_cgroup : CgroupConfig → Result ConfigError (Unit {0})
unfolding validate_root validate_controls validate_weight validate_cpu_max validate_memory
    validate_memory_order validate_enabled
validate_cgroup c = do
  validate_root c.delegated_root
  validate_controls [] c.authorized_controls
  validate_weight c.cpu_weight
  validate_cpu_max c.cpu_max
  validate_memory c.memory_high_mib
  validate_memory c.memory_max_mib
  validate_memory_order c.memory_high_mib c.memory_max_mib
  validate_enabled c
