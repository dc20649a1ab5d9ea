-- ===== src/Model/Resources.antt =====
-- src/model.rs: amounts of CPU, RAM and GPU memory.
use cede_grid.Common.{
  ℕ, Bool, true, ◌&&◌, StringMap, Eq, ◌==◌, ◌≡◌, ◌↔◌, arith, [], Pair_eq, List_eq, String_eq, ℕ_eq,
  ==_iff,
}

pub record Resources : Type 0 where
  pub cpu_millicores : ℕ  -- u64
  pub ram_mib : ℕ  -- u64
  pub gpu_memory_mib : StringMap ℕ  -- u64 amounts by device UUID

-- `Resources::default()`
abbrev pub no_resources : Resources
no_resources = record { cpu_millicores = 0; ram_mib = 0; gpu_memory_mib = [] }

abbrev pub resources_eq : Resources → Resources → Bool
resources_eq a b =
    a.cpu_millicores == b.cpu_millicores
    && a.ram_mib == b.ram_mib
    && a.gpu_memory_mib == b.gpu_memory_mib

pub resources_eq_iff : (a b : Resources) → (resources_eq a b ≡ true) ↔ (a ≡ b)
resources_eq_iff a b = ground (arith, ==_iff a.gpu_memory_mib b.gpu_memory_mib)

instance abbrev pub Resources_eq : Eq Resources
Resources_eq = record { equals = resources_eq; decides = resources_eq_iff }
