-- ===== src/Store/Tasks.antt =====
-- src/state.rs: submission, assignment, loss of certainty and results of tasks.
pub mod Laws
use cede_grid.Common.{
  ℕ, ◌+◌, ◌≤◌, String, Bool, true, false, ◌&&◌, ◌||◌, not, Option, none, some, List, [], ◌∷◌, ◌++◌,
  ◌==◌, String_eq, ℕ_eq, Bool_eq, Option_eq, find, any, is_blank, leb, ltb, i64_max, is_some,
  if◌then◌else◌, Result, ok, err, ensure, context, ◌>>=◌, ◌>>◌,
}
use cede_grid.Execution.{is_released}
use cede_grid.Store.Tables.{
  Store, StoreError, TaskRow, TaskStatus, AssignmentRow, ExecutionRow, is_replayable, is_queued,
  is_assigned, is_completed, find_task, find_assignment, update_task, assignment_free,
}

abbrev pub fresh_task : String → Bool → TaskRow
fresh_task id replay_safe = record {
  task_id = id;
  replay_safe = replay_safe;
  status = TaskStatus.queued;
  generation = 0;
  assignment_id = none;
  receipt_hash = none;
}

submit_row : Store → String → Bool → Option TaskRow → Result StoreError Store
submit_row s id replay_safe (some t) =
    ensure (t.replay_safe == replay_safe) StoreError.replay_contract >> ok s
submit_row s id replay_safe none =
    ok (record s { tasks = s.tasks ++ (fresh_task id replay_safe ∷ []) })

-- `StateStore::submit`
unfoldable pub submit : Store → String → Bool → Result StoreError Store
unfolding submit_row
submit s id replay_safe = do
  ensure (not (is_replayable s.profile) || replay_safe) StoreError.profile
  ensure (not (is_blank id)) StoreError.blank_id
  submit_row s id replay_safe (find_task id s.tasks)

-- executions of the task that are not released, by the task of their assignment row
unfoldable pub has_unreleased : Store → String → Bool
has_unreleased s task_id =
    any
      (λ (r : ExecutionRow).
        not (is_released r.entry.phase)
        && any
            (λ (a : AssignmentRow).
              a.assignment_id == r.entry.assignment_id && a.task_id == task_id)
            s.assignments)
      s.executions

-- the assignment of a new attempt, once its ID is known to be unused
assign_new : Store → TaskRow → String → Result StoreError (ℕ × Store)
assign_new s current assignment_id = do
  ensure (not (has_unreleased s current.task_id)) StoreError.prior_reservation
  ensure (is_queued current.status) StoreError.task_state
  ensure (ltb current.generation i64_max) StoreError.generation_overflow
  let generation = current.generation + 1
  let row : AssignmentRow = record {
    assignment_id = assignment_id;
    task_id = current.task_id;
    generation = generation;
  }
  ensure (assignment_free row s.assignments) StoreError.constraint_failed
  ok (
    generation,
    record s {
      assignments = s.assignments ++ (row ∷ []);
      tasks =
          update_task current.task_id
            (λ t. record t {
              status = TaskStatus.assigned;
              generation = generation;
              assignment_id = some assignment_id;
            })
            s.tasks;
    },
  )

assign_row : Store → TaskRow → String → Option AssignmentRow → Result StoreError (ℕ × Store)
unfolding assign_new
assign_row s current assignment_id (some a) =
    ensure
      (a.task_id == current.task_id
        && a.generation == current.generation
        && is_assigned current.status)
      StoreError.assignment_inactive
    >> ok (current.generation, s)
assign_row s current assignment_id none = assign_new s current assignment_id

-- `StateStore::assign`
unfoldable pub assign : Store → String → String → Result StoreError (ℕ × Store)
unfolding assign_row
assign s task_id assignment_id = do
  ensure (not (is_blank assignment_id)) StoreError.blank_id
  current ← context (find_task task_id s.tasks) StoreError.unknown_task
  assign_row s current assignment_id (find_assignment assignment_id s.assignments)

-- `StateStore::mark_uncertain`
unfoldable pub mark_uncertain : Store → String → ℕ → Result StoreError (TaskStatus × Store)
mark_uncertain s task_id generation = do
  current ← context (find_task task_id s.tasks) StoreError.unknown_task
  ensure (current.generation == generation && ltb 0 generation) StoreError.stale_attempt
  let status = if current.replay_safe then TaskStatus.queued else TaskStatus.needs_reconciliation
  if is_assigned current.status
      then ok (
        status,
        record s { tasks = update_task task_id (λ t. record t { status = status }) s.tasks },
      )
      else ok (current.status, s)

pub record ResultReceipt : Type 0 where
  pub task_id : String
  pub generation : ℕ
  pub receipt_hash : String

-- the branch on the status of the task
pub accept_current : Store → TaskRow → String → Result StoreError Store
accept_current s current receipt_hash =
    if is_completed current.status
    then ensure (current.receipt_hash == some receipt_hash) StoreError.different_receipt >> ok s
    else (ensure (is_assigned current.status) StoreError.not_accepting
        >> ok (record s {
          tasks =
              update_task current.task_id
                (λ t. record t { status = TaskStatus.completed; receipt_hash = some receipt_hash })
                s.tasks;
        }))

-- `StateStore::accept_result`
unfoldable pub accept_result :
    Store → String → ℕ → String → Result StoreError (ResultReceipt × Store)
unfolding accept_current
accept_result s task_id generation receipt_hash = do
  ensure (not (is_replayable s.profile)) StoreError.profile
  ensure (not (is_blank receipt_hash)) StoreError.blank_id
  current ← context (find_task task_id s.tasks) StoreError.unknown_task
  ensure (current.generation == generation && ltb 0 generation) StoreError.stale_attempt
  next ← accept_current s current receipt_hash
  ok (record { task_id = task_id; generation = generation; receipt_hash = receipt_hash }, next)
