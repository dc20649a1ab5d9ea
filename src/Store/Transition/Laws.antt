-- ===== src/Store/Transition/Laws.antt =====
-- A successful transition, taken apart.
use cede_grid.Common.{
  String, true, Option, some, [], ◌∷◌, ◌++◌, String_eq, ℕ_eq, ◌≡◌, arith, ok, context, >>=-eq-ok,
  context-eq-ok, ok-injective, if◌then◌else◌, ==_iff, eq_iff, Option_eq,
}
use cede_grid.Model.Resources.{Resources_eq}
use cede_grid.Execution.{
  ExecutionRecord, ExecutionPhase, LaunchRequest, AllocationClass_eq, class_eq_iff, ProcessIdentity,
  ProcessIdentity_eq, is_released, ControlEvidence_eq,
}
use cede_grid.Store.Tables.{
  Store, StoreError, ExecutionRow, find_execution, update_execution, held_children,
}
use cede_grid.Store.Transition.{
  transition, check_record, check_barrier, check_release, valid_transition,
}

-- What stays fixed from one record of an attempt to a later one: the reservation, a verified
-- identity, and the release.
pub record Continues (old new : ExecutionRecord) : Type 0 where
  pub task : old.task_id ≡ new.task_id
  pub generation : old.generation ≡ new.generation
  pub class : old.class ≡ new.class
  pub resources : old.resources ≡ new.resources
  pub identity : (i : ProcessIdentity) → old.identity ≡ some i → new.identity ≡ some i
  pub release : is_released old.phase ≡ true → is_released new.phase ≡ true

pub record Transitioned (s : Store) (boot : Option String) (entry : ExecutionRecord) (s' : Store)
    : Type 0 where
  pub row : ExecutionRow
  pub found : find_execution entry.assignment_id s.executions ≡ some row
  pub recorded : check_record row.entry entry ≡ ok tt
  pub passed : check_barrier row.request row.entry entry ≡ ok tt
  pub released :
      (if is_released entry.phase then check_release s boot row.request row.entry entry else ok tt)
      ≡ ok tt
  pub result :
      record s {
        executions = update_execution entry.assignment_id entry s.executions;
        execution_events = s.execution_events ++ (entry ∷ []);
      }
      ≡ s'

pub transition-Transitioned :
    (s : Store) (boot : Option String) (entry : ExecutionRecord) {s' : Store}
    → transition s boot entry ≡ ok s'
    → Transitioned s boot entry s'
unfolding transition
transition-Transitioned s boot entry h =
    let (row, found, h1) =
      >>=-eq-ok
        (context (find_execution entry.assignment_id s.executions) StoreError.unknown_assignment) _
        h in
    let (_, recorded, h2) = >>=-eq-ok (check_record row.entry entry) _ h1 in
    let (_, passed, h3) = >>=-eq-ok (check_barrier row.request row.entry entry) _ h2 in
    let (_, released, h4) =
      >>=-eq-ok
        (if is_released entry.phase
          then check_release s boot row.request row.entry entry
          else ok tt)
        _ h3 in
    record {
      row = row;
      found = context-eq-ok (find_execution entry.assignment_id s.executions) _ found;
      recorded = recorded;
      passed = passed;
      released = released;
      result = ok-injective h4;
    }

phase_release :
    (old new : ExecutionPhase)
    → valid_transition old new ≡ true
    → is_released old ≡ true
    → is_released new ≡ true
phase_release old new h r = ground arith

-- The record checks make the new record continue the old one.
pub check_record-Continues :
    (old new : ExecutionRecord) → check_record old new ≡ ok tt → Continues old new
unfolding check_record
check_record-Continues old new h = record {
  task = ground (arith, eq_iff old.task_id new.task_id);
  generation = ground arith;
  class = ground (arith, class_eq_iff old.class new.class);
  resources = ground (arith, ==_iff old.resources new.resources);
  identity = λ i e. ground (arith, ==_iff new.identity (some i));
  release = phase_release old.phase new.phase (ground arith);
}

release-no_children :
    (s : Store) (boot : Option String) (request : LaunchRequest) (old new : ExecutionRecord)
    → check_release s boot request old new ≡ ok tt
    → held_children new.assignment_id s.children ≡ 0
unfolding check_release
release-no_children s boot request old new h = ground arith

-- A transition into a release finds no child of the family unreleased.
pub transition-no_children :
    (s : Store) (boot : Option String) (entry : ExecutionRecord) {s' : Store}
    → transition s boot entry ≡ ok s'
    → is_released entry.phase ≡ true
    → held_children entry.assignment_id s.children ≡ 0
transition-no_children s boot entry h r =
    let t = transition-Transitioned s boot entry h in
    release-no_children s boot t.row.request t.row.entry entry (rw r at t.released)
