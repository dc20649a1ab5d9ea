-- ===== src/Protocol.antt =====
-- src/protocol.rs: the messages between the coordinator, its nodes and its operators. A JSON value
-- is the text that encodes it.
pub mod Validate
use cede_grid.Common.{ℕ, String, Bool, true, false, Option, List, ℤ, Eq, ◌≡◌, ◌↔◌, arith, StringMap}
use cede_grid.Model.Resources.{Resources}
use cede_grid.Execution.{LaunchRequest, ExecutionRecord, AllocationClass}

pub data Principal : Type 0 where
  operator : Principal
  node : String → Principal

-- The fields of `CoordinatorConfig` that the ledger reads.
pub record CoordinatorConfig : Type 0 where
  pub lease_ms : ℕ  -- u64
  pub telemetry_ttl_ms : ℕ  -- u64
  pub artifact_quota_bytes : ℕ  -- u64
  pub retry_limit : ℕ  -- u32
  pub retry_backoff_ms : ℕ  -- u64
  pub retry_backoff_max_ms : ℕ  -- u64
  pub yield_retry_backoff_ms : ℕ  -- u64
  pub yield_retry_backoff_max_ms : ℕ  -- u64

pub record PoolSpec : Type 0 where
  pub pool_id : String
  pub class : AllocationClass
  pub node_ids : List String
  pub min_workers : ℕ  -- u32
  pub max_workers : ℕ  -- u32

pub record JobSpec : Type 0 where
  pub job_id : String
  pub pool_id : String
  pub priority : ℤ  -- i32
  pub tasks : List LaunchRequest

pub data RemotePhase : Type 0 where
  offered prepared authorized running draining uncertain released : RemotePhase

abbrev pub phase_eq : RemotePhase → RemotePhase → Bool
phase_eq RemotePhase.offered RemotePhase.offered = true
phase_eq RemotePhase.prepared RemotePhase.prepared = true
phase_eq RemotePhase.authorized RemotePhase.authorized = true
phase_eq RemotePhase.running RemotePhase.running = true
phase_eq RemotePhase.draining RemotePhase.draining = true
phase_eq RemotePhase.uncertain RemotePhase.uncertain = true
phase_eq RemotePhase.released RemotePhase.released = true
phase_eq _ _ = false

pub phase_eq_iff : (a b : RemotePhase) → (phase_eq a b ≡ true) ↔ (a ≡ b)
phase_eq_iff a b = ground arith

instance abbrev pub RemotePhase_eq : Eq RemotePhase
RemotePhase_eq = record { equals = phase_eq; decides = phase_eq_iff }

pub record AllocationReport : Type 0 where
  pub assignment_id : String
  pub generation : ℕ  -- u64
  pub phase : RemotePhase
  pub observed : Option Resources
  pub detail : String

pub record NodeReport : Type 0 where
  pub node_id : String
  pub boot_id : String
  pub observed_at_unix_ms : ℕ  -- u64
  pub managed_budget : Resources
  pub expansion_allowed : Bool
  pub gpu_expansion_allowed : Bool
  pub gpu_guaranteed_allowed : Bool
  pub launch_slots : ℕ  -- u32
  pub available_controls : List String
  pub allocations : List AllocationReport

pub record ArtifactRef : Type 0 where
  pub sha256 : String
  pub size : ℕ  -- u64

pub record ResultSubmission : Type 0 where
  pub task_id : String
  pub assignment_id : String
  pub generation : ℕ  -- u64
  pub result : String  -- the text of a JSON value
  pub artifacts : List ArtifactRef

pub record Assignment : Type 0 where
  pub node_id : String
  pub generation : ℕ  -- u64
  pub coordinator_epoch : ℕ  -- u64
  pub request : LaunchRequest
  pub checkpoint : Option ResultSubmission

pub record ReplayRecoveryAllocation : Type 0 where
  pub assignment : Assignment
  pub open assignment use {generation, request}
  pub prepared : Option ExecutionRecord
  pub previous_boot_id : Option String
  pub lease_sequence : ℕ  -- u64

pub record ReplayRecoverySnapshot : Type 0 where
  pub session_id : String
  pub coordinator_epoch : ℕ  -- u64
  pub allocations : List ReplayRecoveryAllocation
  pub unrecognized : List AllocationReport

pub record Lease : Type 0 where
  pub assignment_id : String
  pub generation : ℕ  -- u64
  pub coordinator_epoch : ℕ  -- u64
  pub sequence : ℕ  -- u64
  pub valid_for_ms : ℕ  -- u64
  pub drain : Bool

pub record HeartbeatReply : Type 0 where
  pub coordinator_epoch : ℕ  -- u64
  pub assignments : List Assignment
  pub drain : List String
  pub uncertain : List String

pub record Receipt : Type 0 where
  pub task_id : String
  pub assignment_id : String
  pub generation : ℕ  -- u64
  pub receipt_hash : String

pub data FailureKind : Type 0 where
  execution_failure yielded : FailureKind

abbrev pub is_yielded : FailureKind → Bool
is_yielded FailureKind.yielded = true
is_yielded FailureKind.execution_failure = false

-- The requests that read or change the ledger. Those that only read it, and the transfer of
-- artifacts, are left out.
pub data Request : Type 0 where
  open_replay_session : (node_id boot_id session_id : String) → Request
  node_session : (session_id : String) (request : Request) → Request
  put_pool : PoolSpec → Request
  submit : JobSpec → Request
  retry : (task_id : String) (confirm_side_effects_reconciled : Bool) → Request
  cancel : (job_id : String) → Request
  drain_node : (node_id : String) (drain : Bool) → Request
  heartbeat : NodeReport → Request
  prepared :
      (assignment_id : String) (generation coordinator_epoch : ℕ) (entry : ExecutionRecord)
      → Request
  renew : (assignment_id : String) (generation coordinator_epoch previous_sequence : ℕ) → Request
  complete : ResultSubmission → Request
  fail :
      (assignment_id : String) (generation : ℕ) (detail : String) (failure_kind : FailureKind)
      → Request
  publish_checkpoint : ResultSubmission → Request

pub data Response : Type 0 where
  done : Response
  replay_recovery : ReplayRecoverySnapshot → Response
  heartbeat : HeartbeatReply → Response
  lease : Lease → Response
  receipt : Receipt → Response
