-- ===== src/Store/Transition.antt =====
-- src/execution_state.rs: the phases of an attempt and their transitions, and the allocations that
-- the policy is shown.
pub mod Laws
use cede_grid.Common.{
  ℕ, ◌≤◌, String, Bool, true, false, ◌&&◌, ◌||◌, not, Option, none, some, List, [], ◌∷◌, ◌++◌, ◌==◌,
  String_eq, ℕ_eq, any, all, ltb, nat_eq, is_some, is_some_and, is_none_or, is_empty_text,
  starts_with, contains, if◌then◌else◌, Result, ok, err, ensure, context, ◌>>=◌, ◌>>◌, Option_eq,
  filter,
}
use cede_grid.Model.Resources.{Resources_eq}
use cede_grid.Model.Snapshot.{Allocation, AllocationPhase}
use cede_grid.Execution.{
  LaunchRequest, ExecutionRecord, ExecutionPhase, AllocationClass_eq, ProcessIdentity,
  ProcessIdentity_eq, ControlEvidence, ControlEvidence_eq, is_reserved, is_prepared, is_released,
  is_authorizing, is_needs_reconciliation, verifies,
}
use cede_grid.Store.Tables.{
  Store, StoreError, ExecutionRow, is_replayable, find_execution, update_execution, held_children,
}

-- `valid_transition`
abbrev pub valid_transition : ExecutionPhase → ExecutionPhase → Bool
valid_transition ExecutionPhase.reserved ExecutionPhase.prepared = true
valid_transition ExecutionPhase.reserved ExecutionPhase.needs_reconciliation = true
valid_transition ExecutionPhase.reserved ExecutionPhase.released = true
valid_transition ExecutionPhase.prepared ExecutionPhase.authorized = true
valid_transition ExecutionPhase.prepared ExecutionPhase.needs_reconciliation = true
valid_transition ExecutionPhase.prepared ExecutionPhase.released = true
valid_transition ExecutionPhase.authorized ExecutionPhase.running = true
valid_transition ExecutionPhase.authorized ExecutionPhase.draining = true
valid_transition ExecutionPhase.authorized ExecutionPhase.needs_reconciliation = true
valid_transition ExecutionPhase.authorized ExecutionPhase.released = true
valid_transition ExecutionPhase.running ExecutionPhase.draining = true
valid_transition ExecutionPhase.running ExecutionPhase.needs_reconciliation = true
valid_transition ExecutionPhase.running ExecutionPhase.released = true
valid_transition ExecutionPhase.draining ExecutionPhase.needs_reconciliation = true
valid_transition ExecutionPhase.draining ExecutionPhase.released = true
valid_transition ExecutionPhase.needs_reconciliation ExecutionPhase.needs_reconciliation = true
valid_transition ExecutionPhase.needs_reconciliation ExecutionPhase.released = true
valid_transition ExecutionPhase.released ExecutionPhase.released = true
valid_transition _ _ = false

-- the markers of an import
abbrev pub is_recovery : ControlEvidence → Bool
is_recovery e = starts_with e.control "recovery."

-- `Prepared | Authorized | Running`
abbrev pub is_launching : ExecutionPhase → Bool
is_launching phase = is_prepared phase || is_authorizing phase

identity_matches : ExecutionRecord → ProcessIdentity → Bool
identity_matches entry i =
    i.assignment_id == entry.assignment_id
    && i.generation == entry.generation
    && ltb 0 i.pid
    && not (is_empty_text i.boot_id)
    && ltb 0 i.start_time

-- the checks that compare the new record with the old one
pub check_record : ExecutionRecord → ExecutionRecord → Result StoreError (Unit {0})
unfolding identity_matches
check_record old entry = do
  ensure
      (old.task_id == entry.task_id
        && old.generation == entry.generation
        && old.class == entry.class
        && old.resources == entry.resources)
      StoreError.reservation_changed
  ensure (valid_transition old.phase entry.phase) StoreError.invalid_transition
  ensure (is_reserved old.phase || old.backend == entry.backend) StoreError.backend_changed
  ensure (is_none_or old.identity (λ i. entry.identity == some i)) StoreError.identity_changed
  ensure (is_none_or entry.identity (identity_matches entry)) StoreError.invalid_identity

-- the barriers before user code may run
unfoldable pub check_barrier :
    LaunchRequest → ExecutionRecord → ExecutionRecord → Result StoreError (Unit {0})
unfolding verifies
check_barrier request old entry = do
  ensure
      (not (is_launching entry.phase)
        || is_some entry.identity && not (entry.backend == "unprepared"))
      StoreError.barrier
  ensure
      (not (is_authorizing entry.phase)
        || all (λ required. any (verifies required) entry.evidence) request.required_controls)
      StoreError.control_unverified
  ensure (all (λ marker. not (is_recovery marker) || contains entry.evidence marker) old.evidence)
      StoreError.marker_removed

-- whether a release has to be proved by a change of boot
needs_new_boot : Store → LaunchRequest → ExecutionRecord → ExecutionRecord → Bool
needs_new_boot s request old entry =
    is_replayable s.profile
      && ltb 0 request.managed_child_limit
      && is_needs_reconciliation old.phase
    || any
        (λ (e : ControlEvidence).
          e.control == "recovery.unauthorized" || e.control == "recovery.unknown_children")
        entry.evidence

-- the identity of the journal's own process gives the current boot
check_boot : Option String → ExecutionRecord → Result StoreError (Unit {0})
check_boot current_boot old = do
  identity ← context old.identity StoreError.unprepared_release
  current ← context current_boot StoreError.boot_unreadable
  ensure (not (identity.boot_id == current)) StoreError.same_boot

pub check_release :
    Store
    → Option String
    → LaunchRequest
    → ExecutionRecord
    → ExecutionRecord
    → Result StoreError (Unit {0})
unfolding needs_new_boot check_boot
check_release s current_boot request old entry = do
  ensure
      (not (any (λ (e : ControlEvidence). e.control == "recovery.missing_prepared") entry.evidence))
      StoreError.unprepared_release
  if needs_new_boot s request old entry then check_boot current_boot old else ok tt
  ensure (nat_eq (held_children entry.assignment_id s.children) 0) StoreError.children_held

-- `ExecutionJournal::transition`; `current_boot` is what `supervision::process_identity` reads of
-- the running process, none where it fails
unfoldable pub transition : Store → Option String → ExecutionRecord → Result StoreError Store
unfolding check_record check_barrier check_release
transition s current_boot entry = do
  row ← context (find_execution entry.assignment_id s.executions) StoreError.unknown_assignment
  check_record row.entry entry
  check_barrier row.request row.entry entry
  if is_released entry.phase
      then check_release s current_boot row.request row.entry entry
      else ok tt
  ok (record s {
    executions = update_execution entry.assignment_id entry s.executions;
    execution_events = s.execution_events ++ (entry ∷ []);
  })

-- the phase that the policy sees of an execution that is not released
abbrev pub policy_phase : ExecutionPhase → AllocationPhase
policy_phase ExecutionPhase.reserved = AllocationPhase.pending
policy_phase ExecutionPhase.prepared = AllocationPhase.pending
policy_phase ExecutionPhase.draining = AllocationPhase.draining
policy_phase _ = AllocationPhase.running

unfoldable pub allocation_of : ExecutionRow → Allocation
allocation_of r = record {
  id = r.entry.assignment_id;
  class = r.entry.class;
  phase = policy_phase r.entry.phase;
  requested = r.entry.resources;
  observed = none;
}

unfoldable pub allocations_of : List ExecutionRow → List Allocation
unfolding allocation_of
allocations_of [] = []
allocations_of (r ∷ rest) =
    let more = allocations_of rest in
    if is_released r.entry.phase then more else allocation_of r ∷ more

-- `execution_allocations`, in the order of the table
unfoldable pub execution_allocations : Store → List Allocation
unfolding allocations_of
execution_allocations s = allocations_of s.executions
