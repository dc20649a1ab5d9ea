-- ===== src/Config/Laws.antt =====
-- What an accepted cgroup configuration may write.
use cede_grid.Common.{
  String, true, List, [], ◌∷◌, ◌≡◌, arith, ok, All, any, ensure-eq-ok, >>=-eq-ok, ◌==◌, String_eq,
  is_some,
}
use cede_grid.Config.Error.{ConfigError}
use cede_grid.Config.Cgroup.{
  CgroupConfig, Setting, settings, validate_cgroup, validate_root, validate_controls,
  validate_weight, validate_cpu_max, validate_memory, validate_memory_order, validate_enabled,
  authorize_settings, require_authorized, require_all,
}

-- The operator has listed the control.
abbrev pub IsListed : CgroupConfig → String → Type 0
IsListed c control = any (λ a. a == control) c.authorized_controls ≡ true

require_authorized-IsListed :
    (c : CgroupConfig) (control : String)
    → require_authorized c control ≡ ok tt
    → IsListed c control
unfolding require_authorized
require_authorized-IsListed c control h = ground (arith, h)

require_all-IsListed :
    (c : CgroupConfig) (ss : List (String × Setting))
    → require_all c ss ≡ ok tt
    → All (λ (s : String × Setting). IsListed c s.0) ss
unfolding require_all
require_all-IsListed c [] h = tt
require_all-IsListed c (s ∷ ss) h =
    let (_, a, b) = >>=-eq-ok (require_authorized c s.0) _ h in
    (require_authorized-IsListed c s.0 a, require_all-IsListed c ss b)

-- Everything that an enabled configuration asks for.
pub record IsAuthorised (c : CgroupConfig) : Type 0 where
  pub root : is_some c.delegated_root ≡ true
  pub procs : IsListed c "cgroup.procs"
  pub each : All (λ (s : String × Setting). IsListed c s.0) (settings c)
  pub kill : c.allow_kill ≡ true → IsListed c "cgroup.kill"

authorize_settings-IsAuthorised : (c : CgroupConfig) → authorize_settings c ≡ ok tt → IsAuthorised c
unfolding authorize_settings
authorize_settings-IsAuthorised c h =
    let (r, h1) = ensure-eq-ok (is_some c.delegated_root) ConfigError.cgroup_delegated_root _ h in
    let (_, p, h2) = >>=-eq-ok (require_authorized c "cgroup.procs") _ h1 in
    let (_, a, h3) = >>=-eq-ok (require_all c (settings c)) _ h2 in
    record {
      root = r;
      procs = require_authorized-IsListed c "cgroup.procs" p;
      each = require_all-IsListed c (settings c) a;
      kill = λ k. require_authorized-IsListed c "cgroup.kill" (rw k at h3);
    }

-- An enabled cgroup configuration that is accepted has a delegated root, and each control that its
-- settings write is one that the operator listed, as are the membership file and, where killing is
-- allowed, the kill file.
pub settings-IsAuthorised :
    (c : CgroupConfig) → validate_cgroup c ≡ ok tt → c.enabled ≡ true → IsAuthorised c
unfolding validate_cgroup validate_enabled
settings-IsAuthorised c h e =
    let (_, _, h1) = >>=-eq-ok (validate_root c.delegated_root) _ h in
    let (_, _, h2) = >>=-eq-ok (validate_controls [] c.authorized_controls) _ h1 in
    let (_, _, h3) = >>=-eq-ok (validate_weight c.cpu_weight) _ h2 in
    let (_, _, h4) = >>=-eq-ok (validate_cpu_max c.cpu_max) _ h3 in
    let (_, _, h5) = >>=-eq-ok (validate_memory c.memory_high_mib) _ h4 in
    let (_, _, h6) = >>=-eq-ok (validate_memory c.memory_max_mib) _ h5 in
    let (_, _, h7) = >>=-eq-ok (validate_memory_order c.memory_high_mib c.memory_max_mib) _ h6 in
    authorize_settings-IsAuthorised c (rw (e, validate_enabled) at h7)
