-- ===== src/Coordinator/Charge.antt =====
-- The arithmetic of the ledger on resources, and what a node is charged.
use cede_grid.Common.{
  ℕ, ◌-◌, String, Bool, true, false, ◌&&◌, ◌||◌, not, Option, none, some, List, [], ◌∷◌, ◌==◌,
  String_eq, StringMap, insert, amount, keys, ltb, all, is_empty, Result, ok, err, ◌>>=◌,
}
use cede_grid.Model.Resources.{Resources, no_resources}
use cede_grid.Execution.{LaunchRequest, AllocationClass, AllocationClass_eq}
use cede_grid.Policy.Amounts.{add_resources, maximum}
use cede_grid.Protocol.{NodeReport}
use cede_grid.Coordinator.Tables.{CoordinatorError, Ledger, Reservation, is_held}

-- `add`: the sums of the policy's `add_resources`, with one kind of error
unfoldable pub add : Resources → Resources → Result CoordinatorError Resources
add a b = elim (add_resources a b) [ ok sum ↦ ok sum | err _ ↦ err CoordinatorError.overflow ]

unfoldable pub subtract_gpus : StringMap ℕ → StringMap ℕ → StringMap ℕ
subtract_gpus a [] = a
subtract_gpus a ((gpu, n) ∷ rest) = subtract_gpus (insert gpu (amount gpu a - n) a) rest

-- `subtract`
unfoldable pub subtract : Resources → Resources → Resources
subtract a b = record {
  cpu_millicores = a.cpu_millicores - b.cpu_millicores;
  ram_mib = a.ram_mib - b.ram_mib;
  gpu_memory_mib = subtract_gpus a.gpu_memory_mib b.gpu_memory_mib;
}

-- What a reservation is charged: its resources, or what is observed where that is more.
unfoldable pub held_resources : Resources → Option Resources → Resources
held_resources resources none = resources
held_resources resources (some observed) = maximum resources observed

-- the loop of `node_charge`
unfoldable pub charge_from :
    String → Resources → List Reservation → Result CoordinatorError Resources
charge_from node_id charge [] = ok charge
charge_from node_id charge (r ∷ rest) = elim (r.node_id == node_id && is_held r.phase) [
  | true ↦
      add charge (held_resources r.resources r.observed) >>= λ next. charge_from node_id next rest
  | false ↦ charge_from node_id charge rest
]

-- `node_charge`
unfoldable pub node_charge : Ledger → String → Result CoordinatorError Resources
node_charge l node_id = charge_from node_id no_resources l.reservations

-- `gpu_request_allowed`
unfoldable pub gpu_request_allowed : LaunchRequest → NodeReport → Bool
gpu_request_allowed request report =
    is_empty request.resources.gpu_memory_mib
    || report.gpu_expansion_allowed
      && (not (request.class == AllocationClass.guaranteed) || report.gpu_guaranteed_allowed)
      && all (λ uuid. ltb 0 (amount uuid report.managed_budget.gpu_memory_mib))
          (keys request.resources.gpu_memory_mib)
