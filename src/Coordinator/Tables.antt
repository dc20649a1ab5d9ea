-- ===== src/Coordinator/Tables.antt =====
-- The tables of the coordinator as lists of rows, oldest first. A JSON column holds the value that
-- it encodes. The columns `detail` and `reason`, which are only displayed, are left out.
use cede_grid.Common.{
  ℕ, String, Bool, true, false, Option, none, some, List, [], ◌∷◌, ◌++◌, String_eq, ℤ, leb, i64_max,
  Result, ok, err, ensure, context,
}
use cede_grid.Model.Resources.{Resources}
use cede_grid.Execution.{LaunchRequest, ExecutionRecord}
use cede_grid.Protocol.{
  PoolSpec, JobSpec, RemotePhase, AllocationReport, NodeReport, ArtifactRef, ResultSubmission,
  FailureKind,
}
use cede_grid.Protocol.Validate.{ProtocolError}
use cede_grid.Store.Tables.{Store, StoreError, TaskRow, find_row, update_row, find_task}

pub data CoordinatorError : Type 0 where
  of_store : StoreError → CoordinatorError
  of_protocol : ProtocolError → CoordinatorError
  no_row out_of_range constraint_failed overflow : CoordinatorError
  replayable_profile invalid_periods invalid_retry_policy epoch_exhausted : CoordinatorError
  clock_backwards operator_required node_unauthorized invalid_id : CoordinatorError
  blank_boot invalid_session nil_session retired_session nested_session : CoordinatorError
  node_required no_session stale_session recovery_required session_boot : CoordinatorError
  session_wrapper_required session_boot_changed : CoordinatorError
  pool_bounds pool_nodes pool_class unknown_pool : CoordinatorError
  job_tasks job_changed assignment_id_given empty_command class_differs relative_cwd :
      CoordinatorError
  attempts_required amounts_required input_count input_name input_overflow : CoordinatorError
  input_bound input_unpublished artifact_unverified : CoordinatorError
  retry_status retry_unconfirmed attempts_exhausted held_allocations : CoordinatorError
  unknown_job unknown_node : CoordinatorError
  future_observation observation_regressed recovery_incomplete duplicate_report : CoordinatorError
  generation_changed foreign_allocation : CoordinatorError
  stale_epoch record_mismatch identity_absent invalid_identity boot_differs : CoordinatorError
  preparation_changed control_unapplied : CoordinatorError
  generation_mismatch foreign_node stale_attempt attempt_inactive : CoordinatorError
  needs_reconciliation replay_unfit no_fresh_evidence gpu_unadmitted over_budget : CoordinatorError
  lease_expired unprepared stale_lease : CoordinatorError
  capacity_held stale_failure : CoordinatorError
  result_task unpublished unauthorized_launch checkpoint_completed : CoordinatorError
  checkpoint_sequence checkpoint_stored checkpoint_rewind different_result not_accepting :
      CoordinatorError

pub record SpecRow : Type 0 where
  pub sequence : ℕ
  pub task_id : String
  pub job_id : String
  pub request : LaunchRequest

pub record JobRow : Type 0 where
  pub job_id : String
  pub pool_id : String
  pub priority : ℤ
  pub cancelled : Bool
  pub submitted_ms : ℕ
  pub spec : JobSpec

pub record NodeRow : Type 0 where
  pub report : NodeReport  -- its `node_id` is the key
  pub received_ms : ℕ
  pub drain : Bool

pub record Reservation : Type 0 where
  pub assignment_id : String
  pub node_id : String
  pub phase : RemotePhase
  pub resources : Resources
  pub observed : Option Resources
  pub lease_sequence : ℕ
  pub lease_deadline_ms : ℕ
  pub epoch : ℕ

pub record UnrecognizedRow : Type 0 where
  pub node_id : String
  pub generation : ℕ
  pub report : AllocationReport  -- its `assignment_id` is the other half of the key

pub record SessionRow : Type 0 where
  pub node_id : String
  pub session_id : String
  pub boot_id : String
  pub ready : Bool

pub record RetryRow : Type 0 where
  pub task_id : String
  pub failures : ℕ  -- u32
  pub not_before_ms : ℕ
  pub yield_count : ℕ  -- u32

pub record PublicationRow : Type 0 where
  pub assignment_id : String
  pub generation : ℕ
  pub artifact : ArtifactRef

pub record CheckpointRow : Type 0 where
  pub submission : ResultSubmission  -- its `task_id` is the key
  pub receipt_hash : String

-- The store holds the tables `tasks` and `assignments`. `drawn` counts the random identifiers
-- drawn so far.
pub record Ledger : Type 0 where
  pub store : Store
  pub pools : List PoolSpec
  pub jobs : List JobRow
  pub task_specs : List SpecRow
  pub nodes : List NodeRow
  pub reservations : List Reservation
  pub drain_requests : List String
  pub preparations : List ExecutionRecord
  pub unrecognized : List UnrecognizedRow
  pub fences : List String
  pub sessions : List SessionRow
  pub retired_sessions : List (String × String)
  pub retries : List RetryRow
  pub failure_receipts : List (String × FailureKind)
  pub publications : List PublicationRow
  pub result_payloads : List ResultSubmission
  pub checkpoints : List CheckpointRow
  pub holds : List String
  pub epoch : ℕ
  pub last_clock_ms : ℕ
  pub drawn : ℕ

-- What the coordinator asks of other libraries and of the artifact files.
pub record Services : Type 0 where
  pub new_id : ℕ → String  -- the draws of `Uuid::new_v4`, as texts
  pub uuid_is_nil : String → Option Bool  -- `Uuid::parse_str`, and `is_nil` of what it gives
  pub same_job : JobSpec → JobSpec → Bool  -- equality of the JSON values
  pub accepts_json : String → Bool  -- the test of `numeric::from_slice`
  pub report_size : NodeReport → ℕ  -- the bytes of a report as JSON
  pub receipt_of : ResultSubmission → String  -- the SHA-256 of a submission as JSON
  pub checkpoint_sequence : String → Option ℕ  -- the field of a result, as a `u64`
  pub holds_artifact : ArtifactRef → Bool  -- `verify_artifact`

abbrev pub find_reservation : String → List Reservation → Option Reservation
find_reservation = find_row (λ r. r.assignment_id)

abbrev pub find_spec : String → List SpecRow → Option SpecRow
find_spec = find_row (λ s. s.task_id)

abbrev pub find_job : String → List JobRow → Option JobRow
find_job = find_row (λ j. j.job_id)

abbrev pub find_pool : String → List PoolSpec → Option PoolSpec
find_pool = find_row (λ p. p.pool_id)

abbrev pub find_node : String → List NodeRow → Option NodeRow
find_node = find_row (λ n. n.report.node_id)

abbrev pub find_session : String → List SessionRow → Option SessionRow
find_session = find_row (λ s. s.node_id)

abbrev pub find_retry : String → List RetryRow → Option RetryRow
find_retry = find_row (λ r. r.task_id)

abbrev pub find_preparation : String → List ExecutionRecord → Option ExecutionRecord
find_preparation = find_row (λ r. r.assignment_id)

abbrev pub find_checkpoint : String → List CheckpointRow → Option CheckpointRow
find_checkpoint = find_row (λ c. c.submission.task_id)

abbrev pub update_reservation :
    String → (Reservation → Reservation) → List Reservation → List Reservation
update_reservation = update_row (λ r. r.assignment_id)

-- `phase!='released'`
abbrev pub is_held : RemotePhase → Bool
is_held RemotePhase.released = false
is_held _ = true

-- `phase NOT IN ('released','uncertain')`
abbrev pub is_live : RemotePhase → Bool
is_live RemotePhase.released = false
is_live RemotePhase.uncertain = false
is_live _ = true

-- `INSERT … ON CONFLICT(key) DO UPDATE`
unfoldable pub put_row : {A : Type 0} → (A → String) → A → (A → A) → List A → List A
put_row key row change rows = elim (find_row key (key row) rows) [
  | some _ ↦ update_row key (key row) change rows
  | none ↦ rows ++ (row ∷ [])
]

-- `db`: the range of an SQLite integer
unfoldable pub db : ℕ → Result CoordinatorError (Unit {0})
db value = ensure (leb value i64_max) CoordinatorError.out_of_range

-- A store operation, as a step of the coordinator.
abbrev pub from_store {ℓ} : {A : Type ℓ} → Result StoreError A → Result CoordinatorError A
from_store (ok a) = ok a
from_store (err e) = err (CoordinatorError.of_store e)

abbrev pub from_protocol : Result ProtocolError (Unit {0}) → Result CoordinatorError (Unit {0})
from_protocol (ok a) = ok a
from_protocol (err e) = err (CoordinatorError.of_protocol e)

-- `StateStore::task`
abbrev pub read_task : Ledger → String → Result CoordinatorError TaskRow
read_task l id =
    context (find_task id l.store.tasks) (CoordinatorError.of_store StoreError.unknown_task)
