-- ===== src/Policy/Schedulable.antt =====
-- src/policy.rs: `schedulable_budget`, what the coordinator may place on a node.
pub mod Cooled
use cede_grid.Common.{ℕ, StringMap, [], ◌∷◌, contains_key, if◌then◌else◌, String_eq}
use cede_grid.Model.Resources.{Resources}
use cede_grid.Model.Snapshot.{Decision}

-- the loop over the devices of the budget
unfoldable pub clear_missing : StringMap ℕ → StringMap ℕ → StringMap ℕ
clear_missing headroom [] = []
clear_missing headroom ((uuid, value) ∷ rest) =
    (uuid, if contains_key uuid headroom then value else 0) ∷ clear_missing headroom rest

-- `schedulable_budget`
unfoldable pub schedulable_budget : Decision → Resources
unfolding clear_missing
schedulable_budget d = record d.managed_budget {
  gpu_memory_mib =
      clear_missing d.admission_headroom.gpu_memory_mib d.managed_budget.gpu_memory_mib;
}
