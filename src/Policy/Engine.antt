-- ===== src/Policy/Engine.antt =====
-- src/policy.rs: `PolicyEngine` and `evaluate`, from its parts.
pub mod Steps
use cede_grid.Common.{
  ℕ, Bool, true, ◌&&◌, ◌||◌, not, Option, none, some, [], String, StringMap, is_none_or, ltb, leb,
  ◌==◌, String_eq, any, is_empty, contains, values, retain, unwrap_or, if◌then◌else◌, Result, ok,
  err, ensure, ◌>>=◌, ◌>>◌,
}
use cede_grid.Model.Resources.{Resources, no_resources}
use cede_grid.Model.Snapshot.{Snapshot, PolicyInput, Decision, schema_version}
use cede_grid.Config.{Config, validate_config}
use cede_grid.Policy.Amounts.{PolicyError, subtract_resources}
use cede_grid.Policy.Input.{validate}
use cede_grid.Policy.Charges.{Charges, no_charges, charge_all}
use cede_grid.Policy.Host.{CpuScope, Host, cpu_scope, host_budget}
use cede_grid.Policy.Gpu.{PreviousGpu, GpuState, gpu_part, cool_loop, has_cooled, stable_start}
use cede_grid.Policy.Victims.{candidates, after_drains, choose_victims}

pub record PolicyEngine : Type 0 where
  pub previous_gpus : StringMap PreviousGpu
  pub stable_since : Option ℕ
  pub cpu_ram_stable_since : Option ℕ
  pub last_now : Option ℕ
  pub node_id : Option String
  pub last_kernel_cpu_sample : Option (ℕ × ℕ)

-- `PolicyEngine::new()`
abbrev pub new_engine : PolicyEngine
new_engine = record {
  previous_gpus = [];
  stable_since = none;
  cpu_ram_stable_since = none;
  last_now = none;
  node_id = none;
  last_kernel_cpu_sample = none;
}

-- CPU and RAM are known, present, and hold what is charged
unfoldable pub is_host_safe : Snapshot → Bool → CpuScope → Host → Resources → ℕ → ℕ → Bool
is_host_safe snapshot drain scope host charged cpu_budget ram_budget =
    not drain
    && not host.cpu_unknown
    && not host.ram_unknown
    && ltb 0 scope.capacity
    && ltb 0 snapshot.total_ram_mib
    && leb charged.cpu_millicores cpu_budget
    && leb charged.ram_mib ram_budget

-- the start of a stable interval, or none where the reading is unsafe
unfoldable pub keep_stable : Bool → Option ℕ → ℕ → Option ℕ
keep_stable is_safe since now = if is_safe then some (unwrap_or since now) else none

-- what the last part of `evaluate` works from
pub record Budgeted : Type 0 where
  pub charges : Charges
  pub scope : CpuScope
  pub host : Host
  pub host_safe : Bool
  pub gpus : GpuState  -- after the cooling loop
  pub unsafe_now : Bool
  pub stable_since : Option ℕ
  pub budget : Resources

unfoldable pub budgeted : PolicyEngine → Config → Snapshot → PolicyInput → ℕ → Charges → Budgeted
budgeted e config snapshot input now c =
    let scope = cpu_scope config snapshot e.last_kernel_cpu_sample now in
    let host = host_budget config snapshot scope c in
    let host_safe =
      is_host_safe snapshot input.explicit_drain scope host c.charged host.cpu_budget
        host.ram_budget in
    let found =
      gpu_part config snapshot c e.previous_gpus host_safe now
        (input.explicit_drain || host.cpu_unknown || host.ram_unknown) in
    let unsafe_now =
      found.unsafe_now
      || ltb host.cpu_budget c.charged.cpu_millicores
      || ltb host.ram_budget c.charged.ram_mib in
    let cooled = cool_loop config c now found snapshot.gpus in
    record {
      charges = c;
      scope = scope;
      host = host;
      host_safe = host_safe;
      gpus = cooled;
      unsafe_now = unsafe_now;
      stable_since = keep_stable (not unsafe_now) e.stable_since now;
      budget = if input.explicit_drain then no_resources else record {
        cpu_millicores = host.cpu_budget;
        ram_mib = host.ram_budget;
        gpu_memory_mib = cooled.budget;
      };
    }

-- the devices that keep their headroom
abbrev pub may_admit : Config → ℕ → Budgeted → String → Bool
may_admit config now b uuid =
    b.host_safe
    && not (contains b.gpus.blocked uuid)
    && has_cooled config now (stable_start uuid b.gpus.next_gpus)

-- the headroom before the CPU and RAM of it are withheld
unfoldable pub raw_headroom : Config → ℕ → Budgeted → Resources
raw_headroom config now b =
    let left = subtract_resources b.budget b.charges.charged in
    record left { gpu_memory_mib = retain (may_admit config now b) left.gpu_memory_mib }

unfoldable pub decide_allocation :
    PolicyEngine → Config → Snapshot → PolicyInput → ℕ → Budgeted → Decision × PolicyEngine
decide_allocation e config snapshot input now b =
    let charged = b.charges.charged in
    let (left, would_drain) =
      choose_victims input.explicit_drain b.charges.charges b.budget
        (after_drains b.charges.charges charged input.allocations) (candidates input) in
    let legacy = not b.unsafe_now && has_cooled config now b.stable_since && is_empty would_drain in
    let cpu_ram_safe =
      is_host_safe snapshot input.explicit_drain b.scope b.host charged b.budget.cpu_millicores
        b.budget.ram_mib in
    let cpu_ram_stable = keep_stable cpu_ram_safe e.cpu_ram_stable_since now in
    let cpu_ram_expansion = has_cooled config now cpu_ram_stable in
    let headroom = raw_headroom config now b in
    let expansion =
      legacy || cpu_ram_expansion && any (λ n. ltb 0 n) (values headroom.gpu_memory_mib) in
    (
      record {
        schema_version = schema_version;
        node_id = snapshot.node_id;
        observe_only = true;
        managed_budget = b.budget;
        admission_headroom =
            if expansion || cpu_ram_expansion
            then headroom
            else record headroom { cpu_millicores = 0; ram_mib = 0 };
        expansion_allowed = expansion;
        cpu_ram_expansion_allowed = cpu_ram_expansion;
        would_drain = would_drain;
      },
      record {
        previous_gpus = b.gpus.next_gpus;
        stable_since = b.stable_since;
        cpu_ram_stable_since = cpu_ram_stable;
        last_now = some now;
        node_id = some snapshot.node_id;
        last_kernel_cpu_sample = b.scope.next_sample;
      },
    )

abbrev pub config_checked : Config → Result PolicyError (Unit {0})
config_checked config = elim (validate_config config) [
  | ok _ ↦ ok tt
  | err _ ↦ err PolicyError.config
]

-- `PolicyEngine::evaluate`: a refusal leaves the engine as it was
unfoldable pub evaluate :
    PolicyEngine
    → Config
    → Snapshot
    → PolicyInput
    → ℕ
    → Result PolicyError (Decision × PolicyEngine)
evaluate e config snapshot input now = do
  config_checked config
  validate snapshot input config.node_id
  ensure (is_none_or e.last_now (λ last. leb last now)) PolicyError.clock_backwards
  ensure (is_none_or e.node_id (λ id. id == snapshot.node_id)) PolicyError.node_switched
  c ← charge_all no_charges input.allocations
  ok (decide_allocation e config snapshot input now (budgeted e config snapshot input now c))
