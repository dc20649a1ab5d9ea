-- ===== src/Tests/Store.antt =====
-- The theorems on the store, at a run of one attempt.
use cede_grid.Store.Profile.{parse, name, parse-name}
use cede_grid.Common.{◌↔◌, ok, ◌≡◌}
use cede_grid.Common.{
  ℕ, ◌+◌, ◌≤◌, ◌<◌, ◌≡◌, refl, true, false, Bool, none, some, Option, [], ◌∷◌, String, ok, err,
  Result, arith, List, ◌&&◌, ◌==◌, String_eq, ℕ_eq, i64_max, is_blank, if◌then◌else◌,
}
use cede_grid.Model.Resources.{Resources}
use cede_grid.Execution.{
  LaunchRequest, ExecutionRecord, ExecutionPhase, AllocationClass, ProcessIdentity, ControlEvidence,
}
use cede_grid.Store.Tables.{
  Store, StoreError, StorageProfile, ExecutionRow, find_execution, ManagedChildRecord,
  held_children, ManagedChildPhase,
}
use cede_grid.Store.Tasks.{accept_result}
use cede_grid.Store.Reserve.{reserve_generation, reserved_record, task_row}
use cede_grid.Store.Reserve.Laws.{held_cpu, held_ram, held_gpu}
use cede_grid.Store.Reserve.Capacity.{reserve_generation-IsWithin, IsWithin}
use cede_grid.Store.Transition.{transition, execution_allocations}
use cede_grid.Policy.Charges.Laws.{total_cpu, total_ram, total_gpu}
use cede_grid.Store.Children.{reserve_managed_child}
use cede_grid.Store.Tasks.Laws.{accept_result_once}
use cede_grid.Store.Allocations.{execution_allocations-charges}
use cede_grid.Store.Steps.{Step, Reach}
use cede_grid.Store.Steps.Barrier.{HasBarrier, Reach-HasBarrier}
use cede_grid.Store.Steps.Family.{IsBounded, Reach-IsBounded}
use cede_grid.Store.Steps.History.{IsKept, Reach-IsKept}

abbrev empty : Store
empty = record {
  profile = StorageProfile.wal_full;
  tasks = [];
  assignments = [];
  executions = [];
  execution_events = [];
  children = [];
  child_events = [];
}

abbrev request : LaunchRequest
request = record {
  task_id = "t";
  assignment_id = "a";
  argv = "/bin/work" ∷ [];
  cwd = "/";
  env = [];
  resources = record { cpu_millicores = 2000; ram_mib = 4096; gpu_memory_mib = [] };
  replay_safe = true;
  class = AllocationClass.opportunistic;
  no_escape = true;
  single_process = false;
  managed_child_limit = 2;
  max_attempts = some 3;
  input_artifacts = [];
  required_controls = "cpu.weight" ∷ [];
  allow_fallback = false;
}

abbrev capacity : Resources
capacity = record { cpu_millicores = 8000; ram_mib = 16384; gpu_memory_mib = [] }

abbrev identity : ProcessIdentity
identity = record { pid = 7; boot_id = "b"; start_time = 9; assignment_id = "a"; generation = 1 }

abbrev weight : ControlEvidence
weight = record {
  control = "cpu.weight";
  available = some true;
  permitted = some true;
  configured = true;
  applied = true;
  fallback = false;
  scope = "family";
  requested = some "50";
  effective = some "50";
  detail = "";
}

-- the records of the attempt
abbrev first : ExecutionRecord
first = reserved_record request 1

abbrev prepared : ExecutionRecord
prepared = record first {
  phase = ExecutionPhase.prepared;
  identity = some identity;
  backend = "linux";
  evidence = weight ∷ [];
}

abbrev authorized : ExecutionRecord
authorized = record prepared { phase = ExecutionPhase.authorized }

abbrev released : ExecutionRecord
released = record authorized { phase = ExecutionPhase.released }

abbrev child_request : LaunchRequest
child_request = record request {
  resources = record { cpu_millicores = 1000; ram_mib = 1024; gpu_memory_mib = [] };
  single_process = true;
  managed_child_limit = 0;
}

-- the comparison of two requests: by what differs between the requests here
abbrev same_request : LaunchRequest → LaunchRequest → Bool
same_request a b = a.task_id == b.task_id && a.assignment_id == b.assignment_id

-- the store that an operation leaves
abbrev left_by : {A : Type 0} → Result StoreError (A × Store) → Store
left_by (ok r) = r.1
left_by (err e) = empty

abbrev moved_to : Result StoreError Store → Store
moved_to (ok s) = s
moved_to (err e) = empty

abbrev after_reserve : Store
unfolding reserve_generation
after_reserve = left_by (reserve_generation empty request capacity none)

reserves : reserve_generation empty request capacity none ≡ ok (first, after_reserve)
unfolding after_reserve reserve_generation cede_grid.Store.Reserve.oldest_request
    cede_grid.Store.Reserve.charge_rows cede_grid.Store.Reserve.fits_requested
reserves = refl

abbrev after_prepare : Store
unfolding transition
after_prepare = moved_to (transition after_reserve none prepared)

prepares : transition after_reserve none prepared ≡ ok after_prepare
unfolding after_prepare transition after_reserve cede_grid.Store.Reserve.oldest_request
    cede_grid.Store.Reserve.charge_rows cede_grid.Store.Reserve.fits_requested
prepares = refl

abbrev after_authorize : Store
unfolding transition
after_authorize = moved_to (transition after_prepare none authorized)

authorizes : transition after_prepare none authorized ≡ ok after_authorize
unfolding after_authorize transition after_reserve cede_grid.Store.Reserve.oldest_request
    cede_grid.Store.Reserve.charge_rows cede_grid.Store.Reserve.fits_requested
    cede_grid.Store.Tables.update_row
authorizes = refl

abbrev after_release : Store
unfolding transition
after_release = moved_to (transition after_authorize none released)

releases : transition after_authorize none released ≡ ok after_release
unfolding after_release transition after_reserve cede_grid.Store.Reserve.oldest_request
    cede_grid.Store.Reserve.charge_rows cede_grid.Store.Reserve.fits_requested
    cede_grid.Store.Tables.update_row
releases = refl

abbrev added_child : ManagedChildRecord × Store
unfolding reserve_managed_child
added_child =
    elim (reserve_managed_child same_request after_authorize "a" 1 "c" "r" child_request) [
      | ok r ↦ r
      | err e ↦ (
        record {
          child_id = "";
          request_id = "";
          assignment_id = "";
          generation = 0;
          request = child_request;
          identity = none;
          phase = ManagedChildPhase.released;
          controls = [];
          exit_code = none;
          signal = none;
          detail = "";
        },
        empty,
      )
    ]

adds_child :
    reserve_managed_child same_request after_authorize "a" 1 "c" "r" child_request ≡ ok added_child
unfolding added_child reserve_managed_child cede_grid.Store.Children.valid_id
    cede_grid.Common.has_control after_authorize after_reserve
    cede_grid.Store.Reserve.oldest_request cede_grid.Store.Reserve.charge_rows
    cede_grid.Store.Reserve.fits_requested cede_grid.Store.Tables.update_row
    cede_grid.Common.is_absolute
adds_child = refl

-- the whole run
run : Reach same_request empty added_child.1
run =
    Reach.next
      (Reach.next
        (Reach.next (Reach.next Reach.here (Step.reserves request capacity none first reserves))
          (Step.transits none prepared prepares))
        (Step.transits none authorized authorizes))
      (Step.reserves_child "a" 1 "c" "r" child_request added_child.0 adds_child)

empty-HasBarrier : HasBarrier empty
empty-HasBarrier j x f a = cc

Reach-HasBarrier_example : HasBarrier added_child.1
Reach-HasBarrier_example = Reach-HasBarrier same_request empty-HasBarrier run

empty-IsBounded : IsBounded empty
empty-IsBounded j = omega arith

Reach-IsBounded_example : IsBounded added_child.1
Reach-IsBounded_example = Reach-IsBounded same_request empty-IsBounded run

authorized_row :
    find_execution "a" after_authorize.executions
    ≡ some (record { request = request; entry = authorized })
unfolding after_authorize transition after_reserve cede_grid.Store.Reserve.oldest_request
    cede_grid.Store.Reserve.charge_rows cede_grid.Store.Reserve.fits_requested
    cede_grid.Store.Tables.update_row
authorized_row = refl

Reach-IsKept_example : IsKept after_release "a" (record { request = request; entry = authorized })
Reach-IsKept_example =
    Reach-IsKept same_request "a" (record { request = request; entry = authorized })
      (Reach.next Reach.here (Step.transits none released releases)) authorized_row

reserve_generation-IsWithin_example : IsWithin empty request capacity after_reserve
reserve_generation-IsWithin_example =
    reserve_generation-IsWithin empty request capacity none first after_reserve reserves

abbrev after_result : Store
unfolding accept_result
after_result = left_by (accept_result after_release "t" 1 "hash")

accepts :
    accept_result after_release "t" 1 "hash"
    ≡ ok (record { task_id = "t"; generation = 1; receipt_hash = "hash" }, after_result)
unfolding after_result accept_result after_release after_reserve
    cede_grid.Store.Reserve.oldest_request cede_grid.Store.Reserve.charge_rows
    cede_grid.Store.Reserve.fits_requested cede_grid.Store.Tables.update_row is_blank
accepts = refl

not_blank : is_blank "other" ≡ false
unfolding is_blank
not_blank = refl

accept_result_once_example : accept_result after_result "t" 1 "other" ≡ (
    if ◌==◌ {T = String} "hash" "other"
    then ok (record { task_id = "t"; generation = 1; receipt_hash = "other" }, after_result)
    else err StoreError.different_receipt)
accept_result_once_example =
    accept_result_once after_release "t" 1 "hash" "other"
      (record { task_id = "t"; generation = 1; receipt_hash = "hash" }) after_result accepts
      not_blank

execution_allocations-charges_example :
    (total_cpu (execution_allocations after_authorize) ≡ held_cpu after_authorize.executions)
    × (total_ram (execution_allocations after_authorize) ≡ held_ram after_authorize.executions)
    × ((j : String)
        → total_gpu j (execution_allocations after_authorize)
          ≡ held_gpu j after_authorize.executions)
execution_allocations-charges_example = execution_allocations-charges after_authorize

parse-name_example :
    (parse "delete_extra" ≡ ok StorageProfile.delete_extra)
    ↔ ("delete_extra" ≡ name StorageProfile.delete_extra)
parse-name_example = parse-name "delete_extra" StorageProfile.delete_extra
