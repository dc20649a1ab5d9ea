-- ===== src/Store/Steps/Effects.antt =====
-- What each operation writes in the execution and child tables.
use cede_grid.Common.{ℕ, String, Bool, true, false, Option, [], ◌∷◌, ◌++◌, ◌≡◌, refl, arith, ok}
use cede_grid.Model.Resources.{Resources}
use cede_grid.Execution.{LaunchRequest, ExecutionRecord, is_released, is_authorizing}
use cede_grid.Protocol.{ReplayRecoveryAllocation}
use cede_grid.Store.Tables.{Store, TaskStatus, ExecutionRow, execution_free}
use cede_grid.Store.Tasks.{submit, assign, mark_uncertain, accept_result, ResultReceipt}
use cede_grid.Store.Reserve.{reserve_generation}
use cede_grid.Store.Reserve.Laws.{reserve-Reserved, write-executions, write-entry}
use cede_grid.Store.Recovery.Laws.{import-rows, base-assignment}
use cede_grid.Store.Recovery.{import_replay_reservation, imported_record}

-- The execution and child tables are as before.
pub record Untouched (s s' : Store) : Type 0 where
  pub rows : s'.executions ≡ s.executions
  pub kids : s'.children ≡ s.children

pub submit-Untouched :
    (s : Store) (id : String) (safe : Bool) {s' : Store} → submit s id safe ≡ ok s' → Untouched s s'
unfolding submit
submit-Untouched s id safe h = ground arith

pub assign-Untouched :
    (s : Store) (id a : String) {n : ℕ} {s' : Store} → assign s id a ≡ ok (n, s') → Untouched s s'
unfolding assign
assign-Untouched s id a h = ground arith

pub mark_uncertain-Untouched :
    (s : Store) (id : String) (n : ℕ) {t : TaskStatus} {s' : Store}
    → mark_uncertain s id n ≡ ok (t, s')
    → Untouched s s'
unfolding mark_uncertain
mark_uncertain-Untouched s id n h = ground arith

pub accept_result-Untouched :
    (s : Store) (id : String) (n : ℕ) (hash : String) {r : ResultReceipt} {s' : Store}
    → accept_result s id n hash ≡ ok (r, s')
    → Untouched s s'
unfolding accept_result
accept_result-Untouched s id n hash h = ground arith

-- One execution row is added, under a key that no row has, and no child changes.
pub record Appended (s : Store) (row : ExecutionRow) (s' : Store) : Type 0 where
  pub rows : s'.executions ≡ s.executions ++ (row ∷ [])
  pub is_new : execution_free row.entry.assignment_id s.executions ≡ true
  pub is_live : is_released row.entry.phase ≡ false
  pub is_idle : is_authorizing row.entry.phase ≡ false
  pub kids : s'.children ≡ s.children

pub reserve-Appended :
    (s : Store) (request : LaunchRequest) (capacity : Resources) (remote : Option ℕ)
    {entry : ExecutionRecord} {s' : Store}
    → reserve_generation s request capacity remote ≡ ok (entry, s')
    → Appended s (record { request = request; entry = entry }) s'
reserve-Appended s request capacity remote h =
    let r = reserve-Reserved s request capacity remote h in
    let (rows, kids, free) = write-executions s request r.generation r.written in
    let e = write-entry s request r.generation r.written in
    record {
      rows = rows;
      is_new = rw e free;
      is_live = rw e refl;
      is_idle = rw e refl;
      kids = kids;
    }

pub import-Appended :
    (s : Store) (r : ReplayRecoveryAllocation) {entry : ExecutionRecord} {s' : Store}
    → import_replay_reservation s r ≡ ok (entry, s')
    → Appended s (record { request = r.request; entry = entry }) s'
unfolding imported_record
import-Appended s r h =
    let (base, e, rows, kids, free, b) = import-rows s r h in
    let a = base-assignment r b in
    record {
      rows = rw e rows;
      is_new = rw e (rw a free);
      is_live = rw e refl;
      is_idle = rw e refl;
      kids = kids;
    }
