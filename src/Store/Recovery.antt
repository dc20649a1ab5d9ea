-- ===== src/Store/Recovery.antt =====
-- src/execution_state.rs: the import of a coordinator's recovery snapshot.
pub mod Laws
use cede_grid.Common.{
  ℕ, ◌≤◌, String, Bool, true, false, ◌&&◌, ◌||◌, not, Option, none, some, List, [], ◌∷◌, ◌++◌, ◌==◌,
  String_eq, ℕ_eq, Bool_eq, any, all, leb, ltb, nat_eq, i64_max, is_some, is_none, is_empty_text,
  is_blank, starts_with, if◌then◌else◌, Result, ok, err, ensure, context, ◌>>=◌, ◌>>◌,
}
use cede_grid.Model.Resources.{Resources_eq}
use cede_grid.Execution.{
  LaunchRequest, ExecutionRecord, ExecutionPhase, AllocationClass_eq, ControlEvidence, is_prepared,
  verifies,
}
use cede_grid.Protocol.{ReplayRecoveryAllocation}
use cede_grid.Store.Tables.{
  Store, StoreError, TaskRow, TaskStatus, AssignmentRow, is_replayable, is_completed, find_task,
  find_assignment, update_task, assignment_free, execution_free,
}

-- `recovery_marker`
unfoldable pub recovery_marker : String → String → Option String → ControlEvidence
recovery_marker control detail effective = record {
  control = control;
  available = none;
  permitted = none;
  configured = true;
  applied = false;
  fallback = false;
  scope = "recovery";
  requested = none;
  effective = effective;
  detail = detail;
}

pub check_prepared : LaunchRequest → ℕ → ExecutionRecord → Result StoreError ExecutionRecord
unfolding verifies
check_prepared request generation p = do
  ensure
      (p.task_id == request.task_id
        && p.assignment_id == request.assignment_id
        && p.generation == generation
        && p.class == request.class
        && p.resources == request.resources
        && is_prepared p.phase)
      StoreError.prepared_mismatch
  identity ← context p.identity StoreError.invalid_identity
  ensure
      (identity.assignment_id == request.assignment_id
        && identity.generation == generation
        && ltb 0 identity.pid
        && ltb 0 identity.start_time
        && not (is_blank identity.boot_id))
      StoreError.invalid_identity
  ensure (not (is_blank p.backend) && not (p.backend == "unprepared")) StoreError.backend_changed
  ensure
      (all
        (λ (e : ControlEvidence).
          not (is_blank e.control) && not (starts_with e.control "recovery."))
        p.evidence)
      StoreError.evidence_invalid
  ensure (all (λ required. any (verifies required) p.evidence) request.required_controls)
      StoreError.control_unverified
  ok p

pub unprepared_record : LaunchRequest → ℕ → ExecutionRecord
unprepared_record request generation = record {
  task_id = request.task_id;
  assignment_id = request.assignment_id;
  generation = generation;
  class = request.class;
  phase = ExecutionPhase.needs_reconciliation;
  resources = request.resources;
  identity = none;
  backend = "unprepared";
  evidence = [];
  detail = "";
}

pub base_record : ReplayRecoveryAllocation → Result StoreError ExecutionRecord
unfolding check_prepared unprepared_record
base_record r = elim r.prepared [
  | some p ↦ check_prepared r.request r.generation p
  | none ↦ ok (unprepared_record r.request r.generation)
]

marker_if : Bool → String → String → Option String → List ControlEvidence
marker_if true control detail effective = recovery_marker control detail effective ∷ []
marker_if false control detail effective = []

-- the markers that an import adds
unfoldable pub markers : ReplayRecoveryAllocation → List ControlEvidence
unfolding marker_if
markers r =
    recovery_marker "recovery.imported"
      "Imported coordinator reservation; inclusion is not absence proof" none
    ∷ (marker_if (is_none r.prepared) "recovery.missing_prepared"
          "No authoritative preparation identity; workload absence remains unknown" none
        ++ (marker_if (nat_eq r.lease_sequence 0) "recovery.unauthorized"
              "No recorded authorization lease; unacknowledged preparation or descendants remain unknown"
              none
            ++ (marker_if (ltb 0 r.request.managed_child_limit) "recovery.unknown_children"
                  "Local managed-child journal was lost; parent absence cannot prove same-boot family release"
                  none
                ++ marker_if (is_some r.previous_boot_id) "recovery.previous_boot"
                    "Previous coordinator session boot identity; not a process absence proof"
                    r.previous_boot_id)))

-- the status of the task after the import
abbrev imported_status : LaunchRequest → TaskStatus
imported_status request =
    if request.replay_safe then TaskStatus.assigned else TaskStatus.needs_reconciliation

pub import_task :
    Store → ReplayRecoveryAllocation → Option TaskRow → Result StoreError (List TaskRow)
import_task s r none = ok (
    s.tasks
    ++ (record {
      task_id = r.request.task_id;
      replay_safe = r.request.replay_safe;
      status = imported_status r.request;
      generation = r.generation;
      assignment_id = some r.request.assignment_id;
      receipt_hash = none;
    }
        ∷ []))
import_task s r (some t) = do
  ensure (t.replay_safe == r.request.replay_safe) StoreError.replay_contract
  ensure (not (is_completed t.status)) StoreError.task_completed
  ok (
      update_task r.request.task_id
        (λ row.
          if ltb t.generation r.generation
          then record row {
            status = imported_status r.request;
            generation = r.generation;
            assignment_id = some r.request.assignment_id;
          }
          else record row { status = imported_status r.request })
        s.tasks)

-- the record of an import: reconciliation is needed, and the markers are appended
unfoldable pub imported_record : ReplayRecoveryAllocation → ExecutionRecord → ExecutionRecord
imported_record r base = record base {
  phase = ExecutionPhase.needs_reconciliation;
  detail =
      "authoritative recovery import; original capacity retained until verified reconciliation";
  evidence = base.evidence ++ markers r;
}

-- the writes of the transaction
pub write_import :
    Store → ReplayRecoveryAllocation → ExecutionRecord → Result StoreError (ExecutionRecord × Store)
unfolding import_task
write_import s r entry =
    let row : AssignmentRow = record {
      assignment_id = r.request.assignment_id;
      task_id = r.request.task_id;
      generation = r.generation;
    } in
    (ensure (is_none (find_assignment r.request.assignment_id s.assignments))
        StoreError.assignment_exists
      >> (import_task s r (find_task r.request.task_id s.tasks) >>= λ tasks.
          ensure
            (assignment_free row s.assignments
              && execution_free r.request.assignment_id s.executions)
            StoreError.constraint_failed
          >> ok (
            entry,
            record s {
              tasks = tasks;
              assignments = s.assignments ++ (row ∷ []);
              executions = s.executions ++ (record { request = r.request; entry = entry } ∷ []);
              execution_events = s.execution_events ++ (entry ∷ []);
            },
          )))

-- `import_replay_reservation`
unfoldable pub import_replay_reservation :
    Store → ReplayRecoveryAllocation → Result StoreError (ExecutionRecord × Store)
unfolding base_record write_import
import_replay_reservation s r = do
  ensure (is_replayable s.profile) StoreError.profile
  ensure (not (is_empty_text r.request.task_id) && not (is_empty_text r.request.assignment_id))
      StoreError.identity_required
  ensure (leb r.generation i64_max) StoreError.generation_overflow
  ensure (ltb 0 r.generation) StoreError.stale_generation
  ensure (ltb 0 r.request.resources.cpu_millicores && ltb 0 r.request.resources.ram_mib)
      StoreError.amounts_required
  base ← base_record r
  write_import s r (imported_record r base)
