-- ===== src/Store/Reserve.antt =====
-- src/execution_state.rs: the reservation of an attempt.
pub mod Laws
pub mod Capacity
use cede_grid.Common.{
  ℕ, ◌+◌, ◌≤◌, String, Bool, true, false, ◌&&◌, ◌||◌, not, Option, none, some, List, [], ◌∷◌, ◌++◌,
  ◌==◌, String_eq, ℕ_eq, Bool_eq, Option_eq, find, any, all, leb, ltb, i64_max, is_some,
  is_some_and, is_none_or, is_empty_text, keys, amount, if◌then◌else◌, Result, ok, err, ensure,
  context, ◌>>=◌, ◌>>◌,
}
use cede_grid.Model.Resources.{Resources}
use cede_grid.Execution.{
  LaunchRequest, ExecutionRecord, ExecutionPhase, AllocationClass, AllocationClass_eq, is_released,
}
use cede_grid.Policy.Amounts.{add_resources}
use cede_grid.Store.Tables.{
  Store, StoreError, TaskRow, TaskStatus, AssignmentRow, ExecutionRow, is_replayable, is_queued,
  is_assigned, find_task, find_execution, update_task, assignment_free, execution_free,
}

-- `add`: the sums of `add_resources`, with one kind of error
unfoldable pub add : Resources → Resources → Result StoreError Resources
add total next = elim (add_resources total next) [ ok r ↦ ok r | err _ ↦ err StoreError.overflow ]

-- `fits_requested`
unfoldable pub fits_requested : Resources → Resources → Resources → Bool
fits_requested used cap request =
    leb used.cpu_millicores cap.cpu_millicores
    && leb used.ram_mib cap.ram_mib
    && all (λ id. leb (amount id used.gpu_memory_mib) (amount id cap.gpu_memory_mib))
        (keys request.gpu_memory_mib)

-- The oldest attempt of a task that has an execution row: the least generation so far, and its request.
oldest_from :
    Store → String → Option (ℕ × LaunchRequest) → List AssignmentRow → Option (ℕ × LaunchRequest)
oldest_from s task_id best [] = best
oldest_from s task_id best (a ∷ rest) =
    oldest_from s task_id
      (elim (find_execution a.assignment_id s.executions) [
        | none ↦ best
        | some row ↦
            if a.task_id == task_id && is_none_or best (λ b. ltb a.generation b.0)
            then some (a.generation, row.request)
            else best
      ])
      rest

-- `SELECT e.request_json … ORDER BY a.generation LIMIT 1`
unfoldable pub oldest_request : Store → String → Option (ℕ × LaunchRequest)
unfolding oldest_from
oldest_request s task_id = oldest_from s task_id none s.assignments

-- the loop over `executions`: every reservation that is not released stays charged
unfoldable pub charge_rows : String → Resources → List ExecutionRow → Result StoreError Resources
charge_rows task_id charged [] = ok charged
charge_rows task_id charged (row ∷ rest) = elim (is_released row.entry.phase) [
  | true ↦ charge_rows task_id charged rest
  | false ↦
      ensure (not (row.entry.task_id == task_id)) StoreError.prior_reservation
      >> (add charged row.entry.resources >>= λ next. charge_rows task_id next rest)
]

pub check_profile : Store → LaunchRequest → Option ℕ → Result StoreError (Unit {0})
check_profile s request remote =
    if is_replayable s.profile
    then (ensure (is_some remote) StoreError.profile
        >> (ensure (request.replay_safe && request.class == AllocationClass.opportunistic)
              StoreError.profile
            >> ensure (not (any (λ c. c == "storage.durable_local") request.required_controls))
                StoreError.profile))
    else ok tt

pub check_request : LaunchRequest → Result StoreError (Unit {0})
check_request request = do
  ensure (not (is_empty_text request.task_id) && not (is_empty_text request.assignment_id))
      StoreError.identity_required
  ensure (ltb 0 request.resources.cpu_millicores && ltb 0 request.resources.ram_mib)
      StoreError.amounts_required
  ensure (is_none_or request.max_attempts (λ limit. ltb 0 limit)) StoreError.attempts_required

-- the row that `INSERT OR IGNORE INTO tasks` leaves
pub task_row : Store → LaunchRequest → TaskRow
task_row s request = elim (find_task request.task_id s.tasks) [
  | some t ↦ t
  | none ↦ record {
    task_id = request.task_id;
    replay_safe = request.replay_safe;
    status = TaskStatus.queued;
    generation = 0;
    assignment_id = none;
    receipt_hash = none;
  }
]

tasks_with : Store → LaunchRequest → List TaskRow
unfolding task_row
tasks_with s request = elim (find_task request.task_id s.tasks) [
  | some _ ↦ s.tasks
  | none ↦ s.tasks ++ (task_row s request ∷ [])
]

-- the generation of the new attempt
unfoldable pub next_generation : ℕ → Option ℕ → Result StoreError ℕ
next_generation latest none =
    ensure (ltb latest i64_max) StoreError.generation_overflow >> ok (latest + 1)
next_generation latest (some remote) =
    ensure (ltb latest i64_max) StoreError.generation_overflow
    >> (ensure (leb remote i64_max) StoreError.generation_overflow
        >> (ensure (leb (latest + 1) remote) StoreError.stale_generation >> ok remote))

-- the record of a fresh reservation
abbrev pub reserved_record : LaunchRequest → ℕ → ExecutionRecord
reserved_record request generation = record {
  task_id = request.task_id;
  assignment_id = request.assignment_id;
  generation = generation;
  class = request.class;
  phase = ExecutionPhase.reserved;
  resources = request.resources;
  identity = none;
  backend = "unprepared";
  evidence = [];
  detail = "capacity reserved before launch preparation";
}

-- the writes of the transaction, with the constraints of its tables
pub write_reservation : Store → LaunchRequest → ℕ → Result StoreError (ExecutionRecord × Store)
unfolding tasks_with
write_reservation s request generation =
    let entry = reserved_record request generation in
    let row : AssignmentRow = record {
      assignment_id = request.assignment_id;
      task_id = request.task_id;
      generation = generation;
    } in
    ensure (assignment_free row s.assignments && execution_free request.assignment_id s.executions)
      StoreError.constraint_failed
    >> ok (
      entry,
      record s {
        assignments = s.assignments ++ (row ∷ []);
        tasks =
            update_task request.task_id
              (λ t. record t {
                status = TaskStatus.assigned;
                generation = generation;
                assignment_id = some request.assignment_id;
              })
              (tasks_with s request);
        executions = s.executions ++ (record { request = request; entry = entry } ∷ []);
        execution_events = s.execution_events ++ (entry ∷ []);
      },
    )

-- `reserve_generation`
unfoldable pub reserve_generation :
    Store → LaunchRequest → Resources → Option ℕ → Result StoreError (ExecutionRecord × Store)
unfolding check_profile check_request task_row next_generation write_reservation
reserve_generation s request capacity remote = do
  check_profile s request remote
  check_request request
  ensure
      (is_none_or (oldest_request s request.task_id)
        (λ old. old.1.max_attempts == request.max_attempts))
      StoreError.attempts_changed
  charged ← charge_rows request.task_id request.resources s.executions
  ensure (fits_requested charged capacity request.resources) StoreError.insufficient_capacity
  let task = task_row s request
  ensure (task.replay_safe == request.replay_safe) StoreError.replay_contract
  ensure
      (is_queued task.status
        || is_some_and remote (λ g. ltb task.generation g)
          && task.replay_safe
          && is_assigned task.status)
      StoreError.task_state
  generation ← next_generation task.generation remote
  ensure (is_none_or request.max_attempts (λ limit. leb generation limit))
      StoreError.attempts_exhausted
  write_reservation s request generation

-- `ExecutionJournal::reserve` and `reserve_assigned`
abbrev pub reserve : Store → LaunchRequest → Resources → Result StoreError (ExecutionRecord × Store)
reserve s request capacity = reserve_generation s request capacity none

abbrev pub reserve_assigned :
    Store → LaunchRequest → Resources → ℕ → Result StoreError (ExecutionRecord × Store)
reserve_assigned s request capacity generation =
    reserve_generation s request capacity (some generation)
