-- ===== src/Policy/Gpu.antt =====
-- src/policy.rs: the GPU part of `evaluate`.
use cede_grid.Common.{
  ℕ, ◌-◌, min, max, Bool, true, false, ◌&&◌, ◌||◌, not, Option, none, some, List, [], ◌∷◌, String,
  StringMap, is_none, is_some_and, is_none_or, ltb, leb, ◌==◌, ℕ_eq, String_eq, any, is_empty,
  contains, to_set, set_insert, get, insert, amount, contains_key, unwrap_or, if◌then◌else◌, keys,
}
use cede_grid.Model.Snapshot.{
  GpuSnapshot, Snapshot, is_available, is_best_effort, is_insufficient, is_conservative, is_active,
  is_activity_unknown,
}
use cede_grid.Config.{Config}
use cede_grid.Policy.Amounts.{ceil_ratio}
use cede_grid.Policy.Capability.{effective_gpu_capability}
use cede_grid.Policy.Charges.{Charges}

pub record PreviousGpu : Type 0 where
  pub pids : List ℕ  -- a set of u32
  pub external_memory : Option ℕ
  pub sample_id : Option ℕ
  pub protection_cap : Option ℕ
  pub stable_since : Option ℕ

-- `PreviousGpu::default()`
abbrev pub no_previous : PreviousGpu
no_previous = record {
  pids = [];
  external_memory = none;
  sample_id = none;
  protection_cap = none;
  stable_since = none;
}

-- what the loop over the devices accumulates
pub record GpuState : Type 0 where
  pub budget : StringMap ℕ  -- `budget.gpu_memory_mib`
  pub next_gpus : StringMap PreviousGpu
  pub blocked : List String  -- `blocked_gpus`
  pub unsafe_now : Bool

-- what the loop reads of one device
pub record Reading : Type 0 where
  pub previous : PreviousGpu
  pub current_charge : ℕ
  pub external : Option ℕ
  pub memory_budget : ℕ
  pub pids : List ℕ
  pub fresh_sample : Bool
  pub is_unknown : Bool
  pub active : Bool
  pub breached : Bool
  pub protection_event : Bool
  pub forced : Bool  -- a non-sharing conflict, or insufficient observability

-- `memory_growth`
memory_growth : Option ℕ → Option ℕ → Bool
memory_growth (some current) (some old) = ltb old current
memory_growth (some current) none = ltb 0 current
memory_growth none _ = false

-- the free memory beside the reserve and the external use
memory_left : Config → GpuSnapshot → Option ℕ → ℕ
memory_left config gpu none = 0
memory_left config gpu (some used) = gpu.total_memory_mib - config.gpu.reserve_vram_mib - used

unfoldable pub read_gpu : Config → ℕ → Charges → StringMap PreviousGpu → GpuSnapshot → Reading
unfolding memory_growth memory_left
read_gpu config observed_at c previous_gpus gpu =
    let mode = effective_gpu_capability config observed_at gpu in
    let best_effort = is_some_and mode is_best_effort in
    let insufficient = is_some_and mode is_insufficient in
    let previous = unwrap_or (get gpu.uuid previous_gpus) no_previous in
    let observed = amount gpu.uuid c.managed_observed.gpu_memory_mib in
    let current_charge = amount gpu.uuid c.charged.gpu_memory_mib in
    let external : Option ℕ = elim gpu.used_memory_mib [
      | none ↦ none
      | some used ↦ some (used - observed)
    ] in
    let memory_budget = memory_left config gpu external in
    let pids = to_set (unwrap_or gpu.external_process_ids []) in
    let new_external = any (λ pid. not (contains previous.pids pid)) pids in
    let fresh_sample =
      is_some_and gpu.compute_sample_id
        (λ sample. is_none_or previous.sample_id (λ last. ltb last sample)) in
    let activity_unknown =
      not best_effort
      && (is_activity_unknown gpu.external_compute || not (is_empty pids) && not fresh_sample) in
    let telemetry_unknown =
      insufficient
      || is_none gpu.used_memory_mib
      || is_none gpu.external_process_ids
      || contains_key gpu.uuid c.missing.gpu_memory_mib
      || is_some_and gpu.used_memory_mib (λ used. ltb used observed) in
    record {
      previous = previous;
      current_charge = current_charge;
      external = external;
      memory_budget = memory_budget;
      pids = pids;
      fresh_sample = fresh_sample;
      is_unknown = activity_unknown || telemetry_unknown;
      active = not best_effort && is_active gpu.external_compute;
      breached = ltb memory_budget current_charge;
      protection_event = new_external || memory_growth external previous.external_memory;
      forced =
          is_some_and mode is_conservative
            && (not (is_empty pids) || is_none gpu.external_process_ids)
          || insufficient;
    }

-- the condition under which a device is blocked besides `forced`
abbrev pub is_alarming : Reading → Bool
is_alarming r = r.protection_event || r.is_unknown || r.active || r.breached

-- `charge` less the shrink percentage of it
unfoldable pub shrink_target : Config → Reading → ℕ
shrink_target config r =
    let shrink =
      if r.active && r.fresh_sample
      then config.gpu.active_shrink_percent
      else config.gpu.protective_shrink_percent in
    r.current_charge - ceil_ratio r.current_charge shrink 100

-- `cap.map_or(target, |old| old.min(target))`
unfoldable pub tighten : Option ℕ → ℕ → ℕ
tighten none target = target
tighten (some old) target = min old target

-- the protection cap after the loop's body
unfoldable pub next_cap : Config → Reading → Option ℕ
unfolding tighten
next_cap config r =
    let cap = if r.forced then some 0 else r.previous.protection_cap in
    if is_alarming r
      && (r.protection_event
          || r.active && r.fresh_sample
          || (r.is_unknown || r.active) && is_none cap)
    then some (tighten cap (shrink_target config r))
    else cap

-- `Option<u64>::max`, where `None` is the least
later_sample : Option ℕ → Option ℕ → Option ℕ
later_sample none b = b
later_sample (some a) none = some a
later_sample (some a) (some b) = some (max a b)

-- `cap.map_or(memory_budget, |cap| memory_budget.min(cap))`
unfoldable pub capped : ℕ → Option ℕ → ℕ
capped memory_budget none = memory_budget
capped memory_budget (some cap) = min memory_budget cap

-- the body of the loop over the devices
unfoldable pub gpu_step :
    Config → ℕ → Charges → StringMap PreviousGpu → Bool → ℕ → GpuState → GpuSnapshot → GpuState
unfolding later_sample
gpu_step config observed_at c previous_gpus host_safe now s gpu =
    let r = read_gpu config observed_at c previous_gpus gpu in
    let alarm = r.forced || is_alarming r in
    let cap = next_cap config r in
    let blocked = if alarm then set_insert gpu.uuid s.blocked else s.blocked in
    record {
      budget = insert gpu.uuid (capped r.memory_budget cap) s.budget;
      next_gpus =
          insert gpu.uuid
            (record {
              pids = r.pids;
              external_memory = r.external;
              sample_id = later_sample gpu.compute_sample_id r.previous.sample_id;
              protection_cap = cap;
              stable_since =
                  if not (contains blocked gpu.uuid) && host_safe
                  then some (unwrap_or r.previous.stable_since now)
                  else none;
            })
            s.next_gpus;
      blocked = blocked;
      unsafe_now = s.unsafe_now || alarm;
    }

unfoldable pub gpu_loop :
    Config → ℕ → Charges → StringMap PreviousGpu → Bool → ℕ → GpuState → List GpuSnapshot → GpuState
gpu_loop config observed_at c previous_gpus host_safe now s [] = s
gpu_loop config observed_at c previous_gpus host_safe now s (gpu ∷ rest) =
    gpu_loop config observed_at c previous_gpus host_safe now
      (gpu_step config observed_at c previous_gpus host_safe now s gpu) rest

-- a charged device that cannot be used: no budget, blocked, unsafe
abbrev pub block_gpu : GpuState → String → GpuState
block_gpu s uuid = record s {
  budget = insert uuid 0 s.budget;
  blocked = set_insert uuid s.blocked;
  unsafe_now = true;
}

-- the loop over the charged devices, which blocks those that `is_usable` refuses
unfoldable pub block_loop : (String → Bool) → GpuState → List String → GpuState
block_loop is_usable s [] = s
block_loop is_usable s (uuid ∷ rest) =
    block_loop is_usable (if is_usable uuid then s else block_gpu s uuid) rest

-- `value.stable_since = None` for every remembered device
unfoldable pub forget_stable : StringMap PreviousGpu → StringMap PreviousGpu
forget_stable [] = []
forget_stable ((uuid, p) ∷ rest) = (uuid, record p { stable_since = none }) ∷ forget_stable rest

-- the whole part: from the state before it, whose budget holds no device
unfoldable pub gpu_part :
    Config → Snapshot → Charges → StringMap PreviousGpu → Bool → ℕ → Bool → GpuState
gpu_part config snapshot c previous_gpus host_safe now unsafe_before =
    let start : GpuState = record {
      budget = [];
      next_gpus = forget_stable previous_gpus;
      blocked = [];
      unsafe_now = unsafe_before;
    } in
    let charged = keys c.charged.gpu_memory_mib in
    if is_available snapshot.gpu_inventory
    then block_loop (λ uuid. any (λ (g : GpuSnapshot). g.uuid == uuid) snapshot.gpus)
        (gpu_loop config snapshot.observed_at_unix_ms c previous_gpus host_safe now start
          snapshot.gpus)
        charged
    else block_loop (λ uuid. false) start charged

-- whether a stable interval has lasted for the cooldown
unfoldable pub has_cooled : Config → ℕ → Option ℕ → Bool
has_cooled config now since =
    is_some_and since (λ start. leb config.gpu.scale_up_cooldown_ms (now - start))

-- the stable start that the state remembers of a device
abbrev pub stable_start : String → StringMap PreviousGpu → Option ℕ
stable_start uuid gpus = elim (get uuid gpus) [ none ↦ none | some p ↦ p.stable_since ]

-- the body of the cooling loop: a device that is not blocked and has cooled down loses its cap
-- and gets back its whole budget
lift_cap : String → StringMap PreviousGpu → StringMap PreviousGpu
lift_cap uuid gpus = elim (get uuid gpus) [
  | none ↦ gpus
  | some p ↦ insert uuid (record p { protection_cap = none }) gpus
]

full_budget : Config → Charges → GpuSnapshot → StringMap ℕ → StringMap ℕ
full_budget config c gpu budget = elim gpu.used_memory_mib [
  | none ↦ budget
  | some used ↦
      insert gpu.uuid
        (gpu.total_memory_mib
          - config.gpu.reserve_vram_mib
          - (used - amount gpu.uuid c.managed_observed.gpu_memory_mib))
        budget
]

unfoldable pub cool_step : Config → Charges → ℕ → GpuState → GpuSnapshot → GpuState
unfolding lift_cap full_budget
cool_step config c now s gpu =
    if not (contains s.blocked gpu.uuid)
      && has_cooled config now (stable_start gpu.uuid s.next_gpus)
    then record s {
      next_gpus = lift_cap gpu.uuid s.next_gpus;
      budget = full_budget config c gpu s.budget;
    }
    else s

unfoldable pub cool_loop : Config → Charges → ℕ → GpuState → List GpuSnapshot → GpuState
cool_loop config c now s [] = s
cool_loop config c now s (gpu ∷ rest) = cool_loop config c now (cool_step config c now s gpu) rest
