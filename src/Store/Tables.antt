-- ===== src/Store/Tables.antt =====
-- The tables of the local store as lists of rows, oldest first, and the statements that the
-- operations share. A JSON column holds the value that it encodes. Each operation is one
-- transaction: on an error nothing is written.
pub mod Laws
use cede_grid.Common.{
  ℕ, ◌≤◌, String, Bool, true, false, ◌&&◌, ◌||◌, not, Option, none, some, List, [], ◌∷◌, ◌++◌, ◌==◌,
  String_eq, ℕ_eq, find, any, filter, length, ℤ, if◌then◌else◌,
}
use cede_grid.Execution.{
  LaunchRequest, ExecutionRecord, ProcessIdentity, ControlEvidence, is_released, identity_eq,
}

pub data StoreError : Type 0 where
  profile identity_required amounts_required attempts_required : StoreError
  attempts_changed prior_reservation overflow insufficient_capacity : StoreError
  replay_contract task_state generation_overflow stale_generation attempts_exhausted : StoreError
  constraint_failed unknown_task unknown_assignment : StoreError
  assignment_inactive stale_attempt different_receipt not_accepting blank_id : StoreError
  reservation_changed invalid_transition backend_changed identity_changed : StoreError
  invalid_identity barrier control_unverified marker_removed : StoreError
  unprepared_release same_boot boot_unreadable children_held : StoreError
  prepared_mismatch evidence_invalid assignment_exists task_completed : StoreError
  invalid_child_id request_reused unknown_child parent_inactive no_opt_in : StoreError
  parent_changed child_contract child_command child_exceeds child_inputs child_controls : StoreError
  child_limit child_identity child_parent_identity child_changed child_leader : StoreError
  exit_status released_changed : StoreError

pub data StorageProfile : Type 0 where
  wal_full delete_extra burst_replay_delete_extra : StorageProfile

-- `StorageProfile::is_replayable`
abbrev pub is_replayable : StorageProfile → Bool
is_replayable StorageProfile.burst_replay_delete_extra = true
is_replayable _ = false

pub data TaskStatus : Type 0 where
  queued assigned completed needs_reconciliation : TaskStatus

abbrev pub is_queued : TaskStatus → Bool
is_queued TaskStatus.queued = true
is_queued _ = false

abbrev pub is_assigned : TaskStatus → Bool
is_assigned TaskStatus.assigned = true
is_assigned _ = false

abbrev pub is_completed : TaskStatus → Bool
is_completed TaskStatus.completed = true
is_completed _ = false

pub record TaskRow : Type 0 where
  pub task_id : String
  pub replay_safe : Bool
  pub status : TaskStatus
  pub generation : ℕ  -- i64, not negative
  pub assignment_id : Option String
  pub receipt_hash : Option String

pub record AssignmentRow : Type 0 where
  pub assignment_id : String
  pub task_id : String
  pub generation : ℕ  -- i64, positive

pub record ExecutionRow : Type 0 where
  pub request : LaunchRequest
  pub entry : ExecutionRecord  -- `record_json`; its `assignment_id` is the key

pub data ManagedChildPhase : Type 0 where
  reserved prepared authorized running draining released needs_reconciliation : ManagedChildPhase

abbrev pub is_child_released : ManagedChildPhase → Bool
is_child_released ManagedChildPhase.released = true
is_child_released _ = false

pub record ManagedChildRecord : Type 0 where
  pub child_id : String
  pub request_id : String
  pub assignment_id : String
  pub generation : ℕ  -- u64
  pub request : LaunchRequest
  pub identity : Option ProcessIdentity
  pub phase : ManagedChildPhase
  pub controls : List ControlEvidence
  pub exit_code : Option ℤ  -- i32
  pub signal : Option ℤ  -- i32
  pub detail : String

pub record Store : Type 0 where
  pub profile : StorageProfile
  pub tasks : List TaskRow
  pub assignments : List AssignmentRow
  pub executions : List ExecutionRow
  pub execution_events : List ExecutionRecord
  pub children : List ManagedChildRecord
  pub child_events : List ManagedChildRecord

-- `SELECT … WHERE key=?1`
abbrev pub find_row : {A : Type 0} → (A → String) → String → List A → Option A
find_row key id = find (λ r. key r == id)

abbrev pub find_task : String → List TaskRow → Option TaskRow
find_task = find_row (λ t. t.task_id)

abbrev pub find_assignment : String → List AssignmentRow → Option AssignmentRow
find_assignment = find_row (λ a. a.assignment_id)

abbrev pub find_execution : String → List ExecutionRow → Option ExecutionRow
find_execution = find_row (λ r. r.entry.assignment_id)

-- The row with a key, changed. A primary key belongs to one row at most.
module _ {A : Type 0} (key : A → String) where
  unfoldable pub update_row : String → (A → A) → List A → List A
  update_row id f [] = []
  update_row id f (r ∷ rest) =
      let more = update_row id f rest in if key r == id then f r ∷ rest else r ∷ more

-- `UPDATE tasks SET … WHERE task_id=?1`
abbrev pub update_task : String → (TaskRow → TaskRow) → List TaskRow → List TaskRow
update_task = update_row (λ t. t.task_id)

-- `UPDATE executions SET record_json=?2 WHERE assignment_id=?1`
abbrev pub update_execution : String → ExecutionRecord → List ExecutionRow → List ExecutionRow
update_execution id entry =
    update_row (λ r. r.entry.assignment_id) id (λ r. record r { entry = entry })

-- `UPDATE managed_children SET record_json=?2 WHERE child_id=?1`
abbrev pub update_child :
    String → ManagedChildRecord → List ManagedChildRecord → List ManagedChildRecord
update_child id child = update_row (λ c. c.child_id) id (λ _. child)

-- `assignments`: the primary key and `UNIQUE(task_id, generation)`
abbrev pub assignment_free : AssignmentRow → List AssignmentRow → Bool
assignment_free a rows = not (
    any
      (λ (r : AssignmentRow).
        r.assignment_id == a.assignment_id
        || r.task_id == a.task_id && r.generation == a.generation)
      rows)

-- `executions`: the primary key
abbrev pub execution_free : String → List ExecutionRow → Bool
execution_free id rows = not (any (λ (r : ExecutionRow). r.entry.assignment_id == id) rows)

-- the managed children of an assignment that are not released: `SELECT count(*) …`
abbrev pub held_children : String → List ManagedChildRecord → ℕ
held_children id children =
    length (filter (λ c. c.assignment_id == id && not (is_child_released c.phase)) children)
