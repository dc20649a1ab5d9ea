-- ===== src/Policy/Host.antt =====
-- src/policy.rs: the CPU and RAM part of `evaluate`.
use cede_grid.Common.{
  ℕ, zero, suc, ◌+◌, ◌-◌, min, max, Bool, true, false, ◌&&◌, ◌||◌, not, Option, none, some, List,
  [], ◌∷◌, is_some, is_some_and, is_none_or, ltb, leb, nat_eq, ◌==◌, ℕ_eq, String_eq, ℤ_eq, Pair_eq,
  all, length, is_empty, contains, to_set, saturating_mul, unwrap_or, if◌then◌else◌, ℤ, is_nonneg,
}
use cede_grid.Model.Snapshot.{Snapshot}
use cede_grid.Kernel.{KernelSnapshot, CpuTopology, CpuCore, is_usage_available}
use cede_grid.Config.{Config}
use cede_grid.Policy.Amounts.{ceil_ratio}
use cede_grid.Policy.Charges.{Charges}

-- `scoped_cpu_valid`, once the effective CPU set is present
cpu_ids_valid : KernelSnapshot → List ℕ → Bool
cpu_ids_valid kernel ids =
    let cpu = kernel.cpu in
    let hardware = saturating_mul (length ids) 1000 in
    kernel.schema_version == 1
    && not (is_empty ids)
    && nat_eq (length (to_set ids)) (length ids)
    && is_some_and cpu.allowed_cpu_ids (λ allowed. all (λ id. contains allowed id) ids)
    && is_none_or cpu.effective_cgroup_cpu_ids (λ effective. all (λ id. contains effective id) ids)
    && is_some_and cpu.effective_cpu_capacity_millicores (λ capacity. capacity == hardware)
    && is_some_and cpu.visible_cpu_ceiling_millicores (λ ceiling. leb ceiling hardware)
    && is_some_and cpu.busy_millicores (λ busy. leb busy hardware)
    && is_usage_available cpu.busy_status
    && ltb 0 kernel.freshness_limit_ms
    && is_some_and cpu.busy_interval_ms
        (λ interval. ltb 0 interval && leb interval kernel.freshness_limit_ms)

-- `scoped_cpu_valid`
unfoldable pub scoped_cpu_valid : KernelSnapshot → Bool
unfolding cpu_ids_valid
scoped_cpu_valid kernel = is_some_and kernel.cpu.effective_cpu_ids (cpu_ids_valid kernel)

-- `BTreeMap<(i32, i32), u64>` of the millicores of each physical core
abbrev Groups : Type 0
Groups = List ((ℤ × ℤ) × ℕ)

-- `*groups.entry(key).or_default() += 1000`
add_core : ℤ × ℤ → Groups → Groups
add_core key [] = (key, 1000) ∷ []
add_core key ((k, n) ∷ rest) =
    let more = add_core key rest in if k == key then (k, n + 1000) ∷ rest else (k, n) ∷ more

-- the loop over `cores`, with the CPUs seen so far
group_cores : List ℕ → List ℕ → Groups → List CpuCore → Option (List ℕ × Groups)
unfolding add_core
group_cores ids seen groups [] = some (seen, groups)
group_cores ids seen groups (core ∷ rest) =
    if not (contains ids core.cpu_id) || contains seen core.cpu_id
    then none
    else elim core.package_id [
      | none ↦ none
      | some pkg ↦ elim core.core_id [
        | none ↦ none
        | some physical ↦ elim (is_nonneg pkg && is_nonneg physical) [
          | false ↦ none
          | true ↦ group_cores ids (core.cpu_id ∷ seen) (add_core (pkg, physical) groups) rest
        ]
      ]
    ]

amounts_of : Groups → List ℕ
amounts_of [] = []
amounts_of ((k, n) ∷ rest) = n ∷ amounts_of rest

-- `sort_unstable_by` in falling order, by insertion
insert_falling : ℕ → List ℕ → List ℕ
insert_falling n [] = n ∷ []
insert_falling n (m ∷ ms) =
    let more = insert_falling n ms in if leb m n then n ∷ m ∷ ms else m ∷ more

sort_falling : List ℕ → List ℕ
unfolding insert_falling
sort_falling [] = []
sort_falling (n ∷ ns) = insert_falling n (sort_falling ns)

-- `into_iter().take(n).sum()`
sum_first : ℕ → List ℕ → ℕ
sum_first n [] = 0
sum_first zero (x ∷ xs) = 0
sum_first (suc n) (x ∷ xs) = x + sum_first n xs

-- `==` of two sets
set_eq : List ℕ → List ℕ → Bool
set_eq xs ys = all (λ x. contains ys x) xs && all (λ y. contains xs y) ys

-- `scoped_physical_reserve`
unfoldable pub scoped_physical_reserve : CpuTopology → ℕ → Option ℕ
unfolding set_eq group_cores amounts_of sort_falling sum_first
scoped_physical_reserve cpu reserve =
    if nat_eq reserve 0 then some 0 else elim cpu.effective_cpu_ids [
      | none ↦ none
      | some listed ↦
          let ids = to_set listed in
          elim (group_cores ids [] [] cpu.cores) [
            | none ↦ none
            | some (seen, groups) ↦
                if set_eq seen ids && not (is_empty ids)
                then some (sum_first reserve (sort_falling (amounts_of groups)))
                else none
          ]
    ]

-- The scope in which CPU is budgeted.
pub record CpuScope : Type 0 where
  pub capacity : ℕ
  pub busy : Option ℕ
  pub ceiling : ℕ
  pub reserve : ℕ
  pub unknown : Bool
  pub next_sample : Option (ℕ × ℕ)

-- The `match` on the last kernel sample: whether the reading may be used, and the new mark.
unfoldable pub mark_sample : Option (ℕ × ℕ) → KernelSnapshot → ℕ → Bool × Option (ℕ × ℕ)
mark_sample none kernel now = (true, some (kernel.monotonic_elapsed_ms, now))
mark_sample (some (sample, received)) kernel now =
    if ltb kernel.monotonic_elapsed_ms sample
    then (false, some (kernel.monotonic_elapsed_ms, now))
    else if nat_eq kernel.monotonic_elapsed_ms sample
    then (leb (now - received) kernel.freshness_limit_ms, some (sample, received))
    else (true, some (kernel.monotonic_elapsed_ms, now))

-- `scoped_kernel`
abbrev pub scoped_kernel : Config → Snapshot → Option KernelSnapshot
scoped_kernel config snapshot = elim snapshot.kernel [
  | none ↦ none
  | some kernel ↦
      if config.kernel.enabled && kernel.runtime_os == "linux" then some kernel else none
]

-- the reserve of the portable branch, and whether the topology is missing
portable_reserve : Config → Snapshot → ℕ × Bool
portable_reserve config snapshot =
    if nat_eq config.cpu.reserve_physical_cores 0
    then (0, false)
    else elim snapshot.physical_cores [
      | some physical ↦ (
        min (ceil_ratio snapshot.cpu_capacity_millicores config.cpu.reserve_physical_cores physical)
            snapshot.cpu_capacity_millicores,
        false,
      )
      | none ↦ (snapshot.cpu_capacity_millicores, true)
    ]

scope_of : Config → Snapshot → Option (ℕ × ℕ) → ℕ → Option KernelSnapshot → CpuScope
unfolding portable_reserve
scope_of config snapshot last now (some kernel) =
    let (usable, next) = mark_sample last kernel now in
    let reserve = scoped_physical_reserve kernel.cpu config.cpu.reserve_physical_cores in
    let capacity = unwrap_or kernel.cpu.effective_cpu_capacity_millicores 0 in
    record {
      capacity = capacity;
      busy = kernel.cpu.busy_millicores;
      ceiling = unwrap_or kernel.cpu.visible_cpu_ceiling_millicores 0;
      reserve = unwrap_or reserve capacity;
      unknown = not (scoped_cpu_valid kernel && usable && is_some reserve);
      next_sample = next;
    }
scope_of config snapshot last now none =
    let (reserve, unknown) = portable_reserve config snapshot in
    record {
      capacity = snapshot.cpu_capacity_millicores;
      busy = snapshot.cpu_busy_millicores;
      ceiling = snapshot.cpu_capacity_millicores;
      reserve = reserve;
      unknown = unknown;
      next_sample = none;
    }

unfoldable pub cpu_scope : Config → Snapshot → Option (ℕ × ℕ) → ℕ → CpuScope
unfolding scope_of
cpu_scope config snapshot last now =
    scope_of config snapshot last now (scoped_kernel config snapshot)

-- The budget for CPU and RAM, and what is known of them.
pub record Host : Type 0 where
  pub cpu_budget : ℕ
  pub ram_budget : ℕ
  pub cpu_unknown : Bool
  pub ram_unknown : Bool

-- the budget where usage is known, and whether the observed managed usage exceeds it
unfoldable pub cpu_part : CpuScope → ℕ → Option ℕ → ℕ × Bool
cpu_part scope managed none = (0, true)
cpu_part scope managed (some busy) =
    (min (scope.capacity - scope.reserve - (busy - managed)) scope.ceiling, ltb busy managed)

-- `ram_reserve`
unfoldable pub ram_reserve : Config → Snapshot → ℕ
ram_reserve config snapshot =
    max config.ram.reserve_mib (ceil_ratio snapshot.total_ram_mib config.ram.reserve_percent 100)

unfoldable pub ram_part : Config → Snapshot → ℕ → Option ℕ → ℕ × Bool
ram_part config snapshot managed none = (0, true)
ram_part config snapshot managed (some available) =
    let used = snapshot.total_ram_mib - available in
    (snapshot.total_ram_mib - ram_reserve config snapshot - (used - managed), ltb used managed)

unfoldable pub host_budget : Config → Snapshot → CpuScope → Charges → Host
unfolding cpu_part ram_part
host_budget config snapshot scope c =
    let (cpu, cpu_excess) = cpu_part scope c.managed_observed.cpu_millicores scope.busy in
    let (ram, ram_excess) =
      ram_part config snapshot c.managed_observed.ram_mib snapshot.available_ram_mib in
    let cpu_unknown = ltb 0 c.missing.cpu_millicores || scope.unknown || cpu_excess in
    let ram_unknown = ltb 0 c.missing.ram_mib || ram_excess in
    record {
      cpu_budget = if cpu_unknown then 0 else cpu;
      ram_budget = if ram_unknown then 0 else ram;
      cpu_unknown = cpu_unknown;
      ram_unknown = ram_unknown;
    }
