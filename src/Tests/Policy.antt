-- ===== src/Tests/Policy.antt =====
-- The theorems on the policy, at concrete readings.
use cede_grid.Common.{
  contains_key, if◌then◌else◌, ℕ, ◌+◌, ◌-◌, ◌*◌, ◌||◌, not, ◌≤◌, ◌<◌, ◌≡◌, refl, true, false, Bool,
  none, some, [], ◌∷◌, String, ok, err, Result, amount, arith, List, ◌⊎◌, contains, String_eq, keys,
  u64_max, ℕ_eq, get,
}
use mathlib.Core.List.{Memᴰ}
use cede_grid.Model.Snapshot.{Decision, Allocation, is_available}
use cede_grid.Execution.{AllocationClass}
use cede_grid.Config.{Config, validate_config, GpuExecutionMode, is_mode_contention_aware}
use cede_grid.Config.Kernel.{validate_kernel}
use cede_grid.Config.Cgroup.{CgroupConfig, validate_cgroup, settings}
use cede_grid.Config.Laws.{settings-IsAuthorised, IsAuthorised}
use cede_grid.Policy.Amounts.{
  PolicyError, add_resources, add_gpus, contributes_to_excess, ceil_ratio,
}
use cede_grid.Policy.Capability.{
  validate_gpu_launch_contract, best_effort_identity_contract, is_guaranteed,
}
use cede_grid.Policy.Input.{validate}
use cede_grid.Policy.Charges.{Charges, no_charges, charge_all, charge_step, charge_of, charge_at}
use cede_grid.Policy.Charges.Laws.{charge_all-exact, total_cpu, total_ram, total_gpu}
use cede_grid.Policy.Gpu.{Reading, read_gpu, next_cap, capped}
use cede_grid.Policy.Host.{cpu_scope}
use cede_grid.Policy.Victims.{candidates, choose_victims, after_drains, is_candidate}
use cede_grid.Policy.Engine.{PolicyEngine, new_engine, evaluate}
use cede_grid.Policy.Admission.{headroom_within_budget}
use cede_grid.Policy.Budget.{cpu_budget_within, ram_budget_within, IsCpuLeft, IsRamLeft}
use cede_grid.Policy.Schedulable.{schedulable_budget, clear_missing}
use cede_grid.Policy.Schedulable.Cooled.{schedulable_cooled}
use cede_grid.Policy.Gpu.{stable_start}
use cede_grid.Policy.Cooldown.{cooldown_holds_back, Run}
use cede_grid.Policy.Launch.{
  launch_contract_sound, best_effort_sound, IsLaunchable, IsAuthorised as Known,
}
use cede_grid.Policy.Victims.Laws.{release, draining_ids}
use cede_grid.Common.{◌++◌, Option}
use cede_grid.Policy.Shrink.{shrink_progress}
use cede_grid.Policy.Yield.{
  would_drain_candidates, would_drain_enough, explicit_drain_yields_all, IsDrained,
}
use cede_grid.Tests.{
  node, patient, reading, pending, input, excess, watched, watched_pids, watched_observation,
  watched_device, limits, alarmed,
}

-- the result, or what is given where there is none
abbrev result_or : {A : Type 0} → A → Result PolicyError A → A
result_or a (ok r) = r
result_or a (err e) = a

abbrev charges_or : Charges → Result PolicyError Charges → Charges
charges_or a (ok c) = c
charges_or a (err e) = a

abbrev nothing : Decision × PolicyEngine
nothing = (
  record {
    schema_version = 0;
    node_id = "";
    observe_only = false;
    managed_budget = record { cpu_millicores = 0; ram_mib = 0; gpu_memory_mib = [] };
    admission_headroom = record { cpu_millicores = 0; ram_mib = 0; gpu_memory_mib = [] };
    expansion_allowed = false;
    cpu_ram_expansion_allowed = false;
    would_drain = [];
  },
  new_engine,
)

abbrev admitted : Decision × PolicyEngine
unfolding evaluate
admitted = result_or nothing (evaluate new_engine node reading input 1000)

evaluate_admits : evaluate new_engine node reading input 1000 ≡ ok admitted
unfolding admitted evaluate cede_grid.Config.validate_config cede_grid.Config.Kernel.validate_kernel
    cede_grid.Config.Cgroup.validate_cgroup cede_grid.Common.checked_add
    cede_grid.Policy.Input.validate cede_grid.Common.is_blank cede_grid.Policy.Charges.charge_all
    cede_grid.Policy.Charges.charge_step cede_grid.Policy.Amounts.add_resources
    cede_grid.Policy.Charges.charge_of cede_grid.Policy.Amounts.add_gpus cede_grid.Common.get
evaluate_admits = refl

headroom_within_budget_example :
    (admitted.0.admission_headroom.cpu_millicores
      ≤ admitted.0.managed_budget.cpu_millicores - total_cpu input.allocations)
    × (admitted.0.admission_headroom.ram_mib
        ≤ admitted.0.managed_budget.ram_mib - total_ram input.allocations)
    × ((j : String)
        → amount j admitted.0.admission_headroom.gpu_memory_mib
          ≤ amount j admitted.0.managed_budget.gpu_memory_mib - total_gpu j input.allocations)
headroom_within_budget_example =
    headroom_within_budget new_engine node reading input 1000 evaluate_admits

abbrev charged_input : Charges
unfolding charge_all
charged_input = charges_or no_charges (charge_all no_charges input.allocations)

charge_input : charge_all no_charges input.allocations ≡ ok charged_input
unfolding charged_input charge_all charge_step add_resources cede_grid.Common.checked_add charge_of
    add_gpus cede_grid.Common.get
charge_input = refl

has_cpu : 0 < admitted.0.managed_budget.cpu_millicores
unfolding admitted cede_grid.Policy.Amounts.ceil_ratio cede_grid.Policy.Amounts.add_gpus
    cede_grid.Policy.Amounts.add_resources cede_grid.Policy.Amounts.maximum_gpus
    cede_grid.Policy.Amounts.maximum cede_grid.Policy.Amounts.subtract_gpus
    cede_grid.Policy.Amounts.subtract_resources cede_grid.Policy.Amounts.contributes_to_excess
    cede_grid.Policy.Charges.charge_of cede_grid.Policy.Charges.charge_step
    cede_grid.Policy.Charges.charge_all cede_grid.Policy.Charges.charge_at
    cede_grid.Policy.Victims.insert_candidate cede_grid.Policy.Victims.sort_candidates
    cede_grid.Policy.Victims.candidates cede_grid.Policy.Victims.after_drains
    cede_grid.Policy.Victims.choose_victims cede_grid.Policy.Engine.is_host_safe
    cede_grid.Policy.Engine.keep_stable cede_grid.Policy.Engine.budgeted
    cede_grid.Policy.Engine.raw_headroom cede_grid.Policy.Engine.decide_allocation
    cede_grid.Policy.Engine.evaluate cede_grid.Policy.Host.scoped_cpu_valid
    cede_grid.Policy.Host.scoped_physical_reserve cede_grid.Policy.Host.mark_sample
    cede_grid.Policy.Host.cpu_scope cede_grid.Policy.Host.cpu_part cede_grid.Policy.Host.ram_reserve
    cede_grid.Policy.Host.ram_part cede_grid.Policy.Host.host_budget
    cede_grid.Policy.Capability.has_basics cede_grid.Policy.Capability.effective_gpu_capability
    cede_grid.Policy.Input.validate cede_grid.Policy.Gpu.read_gpu cede_grid.Policy.Gpu.shrink_target
    cede_grid.Policy.Gpu.next_cap cede_grid.Policy.Gpu.capped cede_grid.Policy.Gpu.gpu_step
    cede_grid.Policy.Gpu.gpu_loop cede_grid.Policy.Gpu.block_loop cede_grid.Policy.Gpu.forget_stable
    cede_grid.Policy.Gpu.gpu_part cede_grid.Policy.Gpu.has_cooled cede_grid.Policy.Gpu.cool_step
    cede_grid.Policy.Gpu.cool_loop cede_grid.Config.validate_config
    cede_grid.Config.Kernel.validate_kernel cede_grid.Config.Cgroup.validate_cgroup
    cede_grid.Common.get cede_grid.Common.checked_add cede_grid.Common.is_blank
    cede_grid.Common.retain cede_grid.Common.insert
has_cpu = omega arith

has_ram : 0 < admitted.0.managed_budget.ram_mib
unfolding admitted cede_grid.Policy.Amounts.ceil_ratio cede_grid.Policy.Amounts.add_gpus
    cede_grid.Policy.Amounts.add_resources cede_grid.Policy.Amounts.maximum_gpus
    cede_grid.Policy.Amounts.maximum cede_grid.Policy.Amounts.subtract_gpus
    cede_grid.Policy.Amounts.subtract_resources cede_grid.Policy.Amounts.contributes_to_excess
    cede_grid.Policy.Charges.charge_of cede_grid.Policy.Charges.charge_step
    cede_grid.Policy.Charges.charge_all cede_grid.Policy.Charges.charge_at
    cede_grid.Policy.Victims.insert_candidate cede_grid.Policy.Victims.sort_candidates
    cede_grid.Policy.Victims.candidates cede_grid.Policy.Victims.after_drains
    cede_grid.Policy.Victims.choose_victims cede_grid.Policy.Engine.is_host_safe
    cede_grid.Policy.Engine.keep_stable cede_grid.Policy.Engine.budgeted
    cede_grid.Policy.Engine.raw_headroom cede_grid.Policy.Engine.decide_allocation
    cede_grid.Policy.Engine.evaluate cede_grid.Policy.Host.scoped_cpu_valid
    cede_grid.Policy.Host.scoped_physical_reserve cede_grid.Policy.Host.mark_sample
    cede_grid.Policy.Host.cpu_scope cede_grid.Policy.Host.cpu_part cede_grid.Policy.Host.ram_reserve
    cede_grid.Policy.Host.ram_part cede_grid.Policy.Host.host_budget
    cede_grid.Policy.Capability.has_basics cede_grid.Policy.Capability.effective_gpu_capability
    cede_grid.Policy.Input.validate cede_grid.Policy.Gpu.read_gpu cede_grid.Policy.Gpu.shrink_target
    cede_grid.Policy.Gpu.next_cap cede_grid.Policy.Gpu.capped cede_grid.Policy.Gpu.gpu_step
    cede_grid.Policy.Gpu.gpu_loop cede_grid.Policy.Gpu.block_loop cede_grid.Policy.Gpu.forget_stable
    cede_grid.Policy.Gpu.gpu_part cede_grid.Policy.Gpu.has_cooled cede_grid.Policy.Gpu.cool_step
    cede_grid.Policy.Gpu.cool_loop cede_grid.Config.validate_config
    cede_grid.Config.Kernel.validate_kernel cede_grid.Config.Cgroup.validate_cgroup
    cede_grid.Common.get cede_grid.Common.checked_add cede_grid.Common.is_blank
    cede_grid.Common.retain cede_grid.Common.insert
has_ram = omega arith

cpu_budget_within_example :
    IsCpuLeft
      (cpu_scope node reading none 1000)
      charged_input.managed_observed.cpu_millicores
      admitted.0.managed_budget.cpu_millicores
cpu_budget_within_example =
    cpu_budget_within new_engine node reading input 1000 charged_input evaluate_admits charge_input
      has_cpu

ram_budget_within_example :
    IsRamLeft node reading charged_input.managed_observed.ram_mib admitted.0.managed_budget.ram_mib
ram_budget_within_example =
    ram_budget_within new_engine node reading input 1000 charged_input evaluate_admits charge_input
      has_ram

charge_all-exact_example :
    (charged_input.charged.cpu_millicores ≡ 0 + total_cpu input.allocations)
    × (charged_input.charged.ram_mib ≡ 0 + total_ram input.allocations)
    × ((j : String)
        → amount j charged_input.charged.gpu_memory_mib
          ≡ amount j [] + total_gpu j input.allocations)
charge_all-exact_example = charge_all-exact no_charges input.allocations charge_input

would_drain_enough_example :
    Memᴰ "a" admitted.0.would_drain
    ⊎ (contributes_to_excess
          (release charged_input.charges charged_input.charged
            (draining_ids input.allocations ++ admitted.0.would_drain))
          admitted.0.managed_budget
          (charge_at "a" charged_input.charges)
        ≡ false)
would_drain_enough_example =
    would_drain_enough new_engine node reading input 1000 evaluate_admits charged_input charge_input
      pending (Memᴰ.head refl) refl

drains_a : Memᴰ "a" admitted.0.would_drain
unfolding admitted cede_grid.Policy.Amounts.ceil_ratio cede_grid.Policy.Amounts.add_gpus
    cede_grid.Policy.Amounts.add_resources cede_grid.Policy.Amounts.maximum_gpus
    cede_grid.Policy.Amounts.maximum cede_grid.Policy.Amounts.subtract_gpus
    cede_grid.Policy.Amounts.subtract_resources cede_grid.Policy.Amounts.contributes_to_excess
    cede_grid.Policy.Charges.charge_of cede_grid.Policy.Charges.charge_step
    cede_grid.Policy.Charges.charge_all cede_grid.Policy.Charges.charge_at
    cede_grid.Policy.Victims.insert_candidate cede_grid.Policy.Victims.sort_candidates
    cede_grid.Policy.Victims.candidates cede_grid.Policy.Victims.after_drains
    cede_grid.Policy.Victims.choose_victims cede_grid.Policy.Engine.is_host_safe
    cede_grid.Policy.Engine.keep_stable cede_grid.Policy.Engine.budgeted
    cede_grid.Policy.Engine.raw_headroom cede_grid.Policy.Engine.decide_allocation
    cede_grid.Policy.Engine.evaluate cede_grid.Policy.Host.scoped_cpu_valid
    cede_grid.Policy.Host.scoped_physical_reserve cede_grid.Policy.Host.mark_sample
    cede_grid.Policy.Host.cpu_scope cede_grid.Policy.Host.cpu_part cede_grid.Policy.Host.ram_reserve
    cede_grid.Policy.Host.ram_part cede_grid.Policy.Host.host_budget
    cede_grid.Policy.Capability.has_basics cede_grid.Policy.Capability.effective_gpu_capability
    cede_grid.Policy.Input.validate cede_grid.Policy.Gpu.read_gpu cede_grid.Policy.Gpu.shrink_target
    cede_grid.Policy.Gpu.next_cap cede_grid.Policy.Gpu.capped cede_grid.Policy.Gpu.gpu_step
    cede_grid.Policy.Gpu.gpu_loop cede_grid.Policy.Gpu.block_loop cede_grid.Policy.Gpu.forget_stable
    cede_grid.Policy.Gpu.gpu_part cede_grid.Policy.Gpu.has_cooled cede_grid.Policy.Gpu.cool_step
    cede_grid.Policy.Gpu.cool_loop cede_grid.Config.validate_config
    cede_grid.Config.Kernel.validate_kernel cede_grid.Config.Cgroup.validate_cgroup
    cede_grid.Common.get cede_grid.Common.checked_add cede_grid.Common.is_blank
    cede_grid.Common.retain cede_grid.Common.insert
drains_a = Memᴰ.head refl

would_drain_candidates_example :
    (a : Allocation) × Memᴰ a input.allocations × (a.id ≡ "a") × (is_candidate false a ≡ true)
would_drain_candidates_example =
    would_drain_candidates new_engine node reading input 1000 evaluate_admits "a" drains_a

abbrev emptied : Decision × PolicyEngine
unfolding evaluate
emptied = result_or nothing (
    evaluate new_engine node reading (record { allocations = pending ∷ []; explicit_drain = true })
      1000)

evaluate_empties :
    evaluate new_engine node reading
      (record { allocations = pending ∷ []; explicit_drain = true })
      1000
    ≡ ok emptied
unfolding emptied evaluate validate_config validate_kernel validate_cgroup
    cede_grid.Common.checked_add validate cede_grid.Common.is_blank charge_all charge_step
    add_resources charge_of add_gpus cede_grid.Common.get
evaluate_empties = refl

explicit_drain_yields_all_example : IsDrained (pending ∷ []) emptied.0
explicit_drain_yields_all_example =
    explicit_drain_yields_all new_engine node reading (pending ∷ []) 1000 evaluate_empties

-- an unsafe evaluation, then two that are safe
abbrev refused : Decision × PolicyEngine
unfolding evaluate
refused = result_or nothing (evaluate new_engine patient reading excess 1000)

evaluate_refuses : evaluate new_engine patient reading excess 1000 ≡ ok refused
unfolding refused evaluate validate_config validate_kernel validate_cgroup
    cede_grid.Common.checked_add validate cede_grid.Common.is_blank charge_all charge_step
    add_resources charge_of add_gpus
evaluate_refuses = refl

abbrev waiting : Decision × PolicyEngine
unfolding evaluate
waiting = result_or nothing (evaluate refused.1 patient reading input 1200)

evaluate_waits : evaluate refused.1 patient reading input 1200 ≡ ok waiting
unfolding waiting evaluate validate_config validate_kernel validate_cgroup
    cede_grid.Common.checked_add validate cede_grid.Common.is_blank charge_all charge_step
    add_resources charge_of add_gpus cede_grid.Policy.Engine.decide_allocation cede_grid.Common.get
evaluate_waits = refl

abbrev expanding : Decision × PolicyEngine
unfolding evaluate
expanding = result_or nothing (evaluate waiting.1 patient reading input 2000)

evaluate_expands : evaluate waiting.1 patient reading input 2000 ≡ ok expanding
unfolding expanding evaluate validate_config validate_kernel validate_cgroup
    cede_grid.Common.checked_add validate cede_grid.Common.is_blank charge_all charge_step
    add_resources charge_of add_gpus cede_grid.Policy.Engine.decide_allocation cede_grid.Common.get
evaluate_expands = refl

refused_at : refused.1.last_now ≡ some 1000
unfolding refused evaluate validate_config validate_kernel validate_cgroup
    cede_grid.Common.checked_add validate cede_grid.Common.is_blank charge_all charge_step
    add_resources charge_of add_gpus cede_grid.Policy.Engine.decide_allocation
refused_at = refl

refused_unstable : refused.1.stable_since ≡ none
unfolding refused cede_grid.Policy.Amounts.ceil_ratio cede_grid.Policy.Amounts.add_gpus
    cede_grid.Policy.Amounts.add_resources cede_grid.Policy.Amounts.maximum_gpus
    cede_grid.Policy.Amounts.maximum cede_grid.Policy.Amounts.subtract_gpus
    cede_grid.Policy.Amounts.subtract_resources cede_grid.Policy.Amounts.contributes_to_excess
    cede_grid.Policy.Charges.charge_of cede_grid.Policy.Charges.charge_step
    cede_grid.Policy.Charges.charge_all cede_grid.Policy.Charges.charge_at
    cede_grid.Policy.Victims.insert_candidate cede_grid.Policy.Victims.sort_candidates
    cede_grid.Policy.Victims.candidates cede_grid.Policy.Victims.after_drains
    cede_grid.Policy.Victims.choose_victims cede_grid.Policy.Engine.is_host_safe
    cede_grid.Policy.Engine.keep_stable cede_grid.Policy.Engine.budgeted
    cede_grid.Policy.Engine.raw_headroom cede_grid.Policy.Engine.decide_allocation
    cede_grid.Policy.Engine.evaluate cede_grid.Policy.Host.scoped_cpu_valid
    cede_grid.Policy.Host.scoped_physical_reserve cede_grid.Policy.Host.mark_sample
    cede_grid.Policy.Host.cpu_scope cede_grid.Policy.Host.cpu_part cede_grid.Policy.Host.ram_reserve
    cede_grid.Policy.Host.ram_part cede_grid.Policy.Host.host_budget
    cede_grid.Policy.Capability.has_basics cede_grid.Policy.Capability.effective_gpu_capability
    cede_grid.Policy.Input.validate cede_grid.Policy.Gpu.read_gpu cede_grid.Policy.Gpu.shrink_target
    cede_grid.Policy.Gpu.next_cap cede_grid.Policy.Gpu.capped cede_grid.Policy.Gpu.gpu_step
    cede_grid.Policy.Gpu.gpu_loop cede_grid.Policy.Gpu.block_loop cede_grid.Policy.Gpu.forget_stable
    cede_grid.Policy.Gpu.gpu_part cede_grid.Policy.Gpu.has_cooled cede_grid.Policy.Gpu.cool_step
    cede_grid.Policy.Gpu.cool_loop cede_grid.Config.validate_config
    cede_grid.Config.Kernel.validate_kernel cede_grid.Config.Cgroup.validate_cgroup
    cede_grid.Common.get cede_grid.Common.checked_add cede_grid.Common.is_blank
    cede_grid.Common.retain cede_grid.Common.insert
refused_unstable = refl

refused_host : refused.1.cpu_ram_stable_since ≡ none
unfolding refused cede_grid.Policy.Amounts.ceil_ratio cede_grid.Policy.Amounts.add_gpus
    cede_grid.Policy.Amounts.add_resources cede_grid.Policy.Amounts.maximum_gpus
    cede_grid.Policy.Amounts.maximum cede_grid.Policy.Amounts.subtract_gpus
    cede_grid.Policy.Amounts.subtract_resources cede_grid.Policy.Amounts.contributes_to_excess
    cede_grid.Policy.Charges.charge_of cede_grid.Policy.Charges.charge_step
    cede_grid.Policy.Charges.charge_all cede_grid.Policy.Charges.charge_at
    cede_grid.Policy.Victims.insert_candidate cede_grid.Policy.Victims.sort_candidates
    cede_grid.Policy.Victims.candidates cede_grid.Policy.Victims.after_drains
    cede_grid.Policy.Victims.choose_victims cede_grid.Policy.Engine.is_host_safe
    cede_grid.Policy.Engine.keep_stable cede_grid.Policy.Engine.budgeted
    cede_grid.Policy.Engine.raw_headroom cede_grid.Policy.Engine.decide_allocation
    cede_grid.Policy.Engine.evaluate cede_grid.Policy.Host.scoped_cpu_valid
    cede_grid.Policy.Host.scoped_physical_reserve cede_grid.Policy.Host.mark_sample
    cede_grid.Policy.Host.cpu_scope cede_grid.Policy.Host.cpu_part cede_grid.Policy.Host.ram_reserve
    cede_grid.Policy.Host.ram_part cede_grid.Policy.Host.host_budget
    cede_grid.Policy.Capability.has_basics cede_grid.Policy.Capability.effective_gpu_capability
    cede_grid.Policy.Input.validate cede_grid.Policy.Gpu.read_gpu cede_grid.Policy.Gpu.shrink_target
    cede_grid.Policy.Gpu.next_cap cede_grid.Policy.Gpu.capped cede_grid.Policy.Gpu.gpu_step
    cede_grid.Policy.Gpu.gpu_loop cede_grid.Policy.Gpu.block_loop cede_grid.Policy.Gpu.forget_stable
    cede_grid.Policy.Gpu.gpu_part cede_grid.Policy.Gpu.has_cooled cede_grid.Policy.Gpu.cool_step
    cede_grid.Policy.Gpu.cool_loop cede_grid.Config.validate_config
    cede_grid.Config.Kernel.validate_kernel cede_grid.Config.Cgroup.validate_cgroup
    cede_grid.Common.get cede_grid.Common.checked_add cede_grid.Common.is_blank
    cede_grid.Common.retain cede_grid.Common.insert
refused_host = refl

expands : expanding.0.expansion_allowed || expanding.0.cpu_ram_expansion_allowed ≡ true
unfolding expanding waiting refused cede_grid.Policy.Amounts.ceil_ratio
    cede_grid.Policy.Amounts.add_gpus cede_grid.Policy.Amounts.add_resources
    cede_grid.Policy.Amounts.maximum_gpus cede_grid.Policy.Amounts.maximum
    cede_grid.Policy.Amounts.subtract_gpus cede_grid.Policy.Amounts.subtract_resources
    cede_grid.Policy.Amounts.contributes_to_excess cede_grid.Policy.Charges.charge_of
    cede_grid.Policy.Charges.charge_step cede_grid.Policy.Charges.charge_all
    cede_grid.Policy.Charges.charge_at cede_grid.Policy.Victims.insert_candidate
    cede_grid.Policy.Victims.sort_candidates cede_grid.Policy.Victims.candidates
    cede_grid.Policy.Victims.after_drains cede_grid.Policy.Victims.choose_victims
    cede_grid.Policy.Engine.is_host_safe cede_grid.Policy.Engine.keep_stable
    cede_grid.Policy.Engine.budgeted cede_grid.Policy.Engine.raw_headroom
    cede_grid.Policy.Engine.decide_allocation cede_grid.Policy.Engine.evaluate
    cede_grid.Policy.Host.scoped_cpu_valid cede_grid.Policy.Host.scoped_physical_reserve
    cede_grid.Policy.Host.mark_sample cede_grid.Policy.Host.cpu_scope cede_grid.Policy.Host.cpu_part
    cede_grid.Policy.Host.ram_reserve cede_grid.Policy.Host.ram_part
    cede_grid.Policy.Host.host_budget cede_grid.Policy.Capability.has_basics
    cede_grid.Policy.Capability.effective_gpu_capability cede_grid.Policy.Input.validate
    cede_grid.Policy.Gpu.read_gpu cede_grid.Policy.Gpu.shrink_target cede_grid.Policy.Gpu.next_cap
    cede_grid.Policy.Gpu.capped cede_grid.Policy.Gpu.gpu_step cede_grid.Policy.Gpu.gpu_loop
    cede_grid.Policy.Gpu.block_loop cede_grid.Policy.Gpu.forget_stable cede_grid.Policy.Gpu.gpu_part
    cede_grid.Policy.Gpu.has_cooled cede_grid.Policy.Gpu.cool_step cede_grid.Policy.Gpu.cool_loop
    cede_grid.Config.validate_config cede_grid.Config.Kernel.validate_kernel
    cede_grid.Config.Cgroup.validate_cgroup cede_grid.Common.get cede_grid.Common.checked_add
    cede_grid.Common.is_blank cede_grid.Common.retain cede_grid.Common.insert
expands = refl

places : 0 < amount "g0" (schedulable_budget expanding.0).gpu_memory_mib
unfolding schedulable_budget clear_missing expanding waiting refused
    cede_grid.Policy.Amounts.ceil_ratio cede_grid.Policy.Amounts.add_gpus
    cede_grid.Policy.Amounts.add_resources cede_grid.Policy.Amounts.maximum_gpus
    cede_grid.Policy.Amounts.maximum cede_grid.Policy.Amounts.subtract_gpus
    cede_grid.Policy.Amounts.subtract_resources cede_grid.Policy.Amounts.contributes_to_excess
    cede_grid.Policy.Charges.charge_of cede_grid.Policy.Charges.charge_step
    cede_grid.Policy.Charges.charge_all cede_grid.Policy.Charges.charge_at
    cede_grid.Policy.Victims.insert_candidate cede_grid.Policy.Victims.sort_candidates
    cede_grid.Policy.Victims.candidates cede_grid.Policy.Victims.after_drains
    cede_grid.Policy.Victims.choose_victims cede_grid.Policy.Engine.is_host_safe
    cede_grid.Policy.Engine.keep_stable cede_grid.Policy.Engine.budgeted
    cede_grid.Policy.Engine.raw_headroom cede_grid.Policy.Engine.decide_allocation
    cede_grid.Policy.Engine.evaluate cede_grid.Policy.Host.scoped_cpu_valid
    cede_grid.Policy.Host.scoped_physical_reserve cede_grid.Policy.Host.mark_sample
    cede_grid.Policy.Host.cpu_scope cede_grid.Policy.Host.cpu_part cede_grid.Policy.Host.ram_reserve
    cede_grid.Policy.Host.ram_part cede_grid.Policy.Host.host_budget
    cede_grid.Policy.Capability.has_basics cede_grid.Policy.Capability.effective_gpu_capability
    cede_grid.Policy.Input.validate cede_grid.Policy.Gpu.read_gpu cede_grid.Policy.Gpu.shrink_target
    cede_grid.Policy.Gpu.next_cap cede_grid.Policy.Gpu.capped cede_grid.Policy.Gpu.gpu_step
    cede_grid.Policy.Gpu.gpu_loop cede_grid.Policy.Gpu.block_loop cede_grid.Policy.Gpu.forget_stable
    cede_grid.Policy.Gpu.gpu_part cede_grid.Policy.Gpu.has_cooled cede_grid.Policy.Gpu.cool_step
    cede_grid.Policy.Gpu.cool_loop cede_grid.Config.validate_config
    cede_grid.Config.Kernel.validate_kernel cede_grid.Config.Cgroup.validate_cgroup
    cede_grid.Common.get cede_grid.Common.checked_add cede_grid.Common.is_blank
    cede_grid.Common.retain cede_grid.Common.insert
places = omega arith

schedulable_cooled_example :
    (start : ℕ) × (stable_start "g0" expanding.1.previous_gpus ≡ some start)
    × (patient.gpu.scale_up_cooldown_ms ≤ 2000 - start)
    × (amount "g0" (schedulable_budget expanding.0).gpu_memory_mib
        ≡ amount "g0" expanding.0.managed_budget.gpu_memory_mib)
schedulable_cooled_example =
    schedulable_cooled waiting.1 patient reading input 2000 "g0" evaluate_expands places

cooldown_holds_back_example : 1000 + 500 ≤ 2000
cooldown_holds_back_example =
    cooldown_holds_back refused.1 1000 refused_at refused_unstable refused_host
      (Run.next Run.here patient reading input 1200 evaluate_waits) patient reading input 2000
      evaluate_expands expands

launches :
    validate_gpu_launch_contract node reading pending.requested AllocationClass.opportunistic
    ≡ ok tt
unfolding validate_gpu_launch_contract cede_grid.Policy.Capability.effective_gpu_capability
    cede_grid.Policy.Capability.has_basics
launches = refl

launch_contract_sound_example :
    IsLaunchable node reading "g0"
    × (is_available reading.gpu_inventory ≡ true)
    × (not (is_guaranteed AllocationClass.opportunistic)
          || is_mode_contention_aware node.gpu.execution_mode
        ≡ true)
launch_contract_sound_example =
    launch_contract_sound node reading pending.requested AllocationClass.opportunistic launches "g0"
      refl

node_accepted : validate_config node ≡ ok tt
unfolding validate_config validate_kernel validate_cgroup cede_grid.Common.checked_add
node_accepted = refl

shrink_progress_example :
    (cap : ℕ) × (next_cap node alarmed ≡ some cap)
    × (cap < 4096)
    × (capped 21504 (next_cap node alarmed) < 4096)
    × ((old : ℕ) → ◌≡◌ {A = Option ℕ} none (some old) → cap ≤ old)
shrink_progress_example = shrink_progress node alarmed node_accepted (omega arith) refl refl

watched_holds : best_effort_identity_contract watched 100 watched_device ≡ true
unfolding best_effort_identity_contract cede_grid.Common.get cede_grid.Common.is_blank
watched_holds = refl

authorised_pids : get "g0" watched.gpu.best_effort_external_processes ≡ some watched_pids
unfolding get
authorised_pids = refl

best_effort_sound_example :
    (watched_observation.observed_at_unix_ms ≡ 100) × Known watched_pids watched_pids 7
best_effort_sound_example =
    best_effort_sound watched 100 watched_device watched_observation watched_pids watched_pids
      (7 ∷ []) watched_holds authorised_pids refl refl refl 7 refl

limits_accepted : validate_cgroup limits ≡ ok tt
unfolding validate_cgroup cede_grid.Common.is_absolute cede_grid.Common.is_root
    cede_grid.Common.has_dot_part
limits_accepted = refl

settings-IsAuthorised_example : IsAuthorised limits
settings-IsAuthorised_example = settings-IsAuthorised limits limits_accepted refl
