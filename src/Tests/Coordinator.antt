-- ===== src/Tests/Coordinator.antt =====
-- The theorems on the coordinator, at a run with one node and one task.
use cede_grid.Common.{ℤ, contains}
use cede_grid.Coordinator.Preempt.{request_preemption}
use cede_grid.Coordinator.Preempt.Laws.{HasPriority, IsVictim, request_preemption-IsVictim}
use cede_grid.Common.{
  ℕ, ◌+◌, ◌≤◌, ◌<◌, String, ◌≡◌, refl, true, false, none, some, [], ◌∷◌, ◌⊎◌, List, ok, arith, ◌==◌,
  String_eq, ℕ_eq, nat_eq, pos, if◌then◌else◌,
}
use cede_grid.Model.Resources.{Resources}
use cede_grid.Execution.{LaunchRequest, AllocationClass}
use cede_grid.Protocol.{
  Lease, Principal, CoordinatorConfig, PoolSpec, JobSpec, RemotePhase, AllocationReport, NodeReport,
  Request,
}
use cede_grid.Store.Tables.{Store, StorageProfile, TaskRow, TaskStatus}
use cede_grid.Coordinator.Tables.{Ledger, Services, Reservation, find_reservation, is_held, is_live}
use cede_grid.Coordinator.Handle.{handle_at, restart, doubt_held}
use cede_grid.Coordinator.Lookup.{assignment_request}
use cede_grid.Coordinator.Schedule.{schedule}
use cede_grid.Coordinator.Grant.{grant, authorized_row}
use cede_grid.Coordinator.Accept.{accept}
use cede_grid.Coordinator.Tables.{CheckpointRow, find_checkpoint, SessionRow}
use cede_grid.Protocol.{ResultSubmission, Receipt}
use cede_grid.Coordinator.Steps.Receipts.{accept_again}
use cede_grid.Coordinator.Steps.Checkpoints.{accept-forward}
use cede_grid.Coordinator.Steps.Refused.{Admits, IsRefused, handle_at-refuses}
use cede_grid.Coordinator.Failure.{record_failure}
use cede_grid.Protocol.{FailureKind}
use cede_grid.Coordinator.Steps.Retries.{
  IsRecorded, receipted, record_failure_again, record_failure-IsRecorded,
}
use cede_grid.Coordinator.Steps.{Step, Reach}
use cede_grid.Coordinator.Steps.Budget.{IsWithinBudget, schedule-IsWithinBudget}
use cede_grid.Coordinator.Steps.Leases.{IsLease, grant-IsLease}
use cede_grid.Coordinator.Steps.Resent.{grant_again}
use cede_grid.Coordinator.Steps.Rows.{Settled, Followed}
use cede_grid.Coordinator.Steps.Change.{IsSound}
use cede_grid.Coordinator.Steps.Handled.{handle_at-Keeps, restart-Keeps, Reach-Settled, releases}

abbrev services : Services
services = record {
  new_id = λ n. if nat_eq n 0 then "a0" else "a1";
  uuid_is_nil = λ s. some false;
  same_job = λ a b. a.job_id == b.job_id;
  accepts_json = λ s. true;
  report_size = λ r. 100;
  receipt_of = λ s. s.result;
  checkpoint_sequence = λ s. if s == "one" then some 1 else some 2;
  holds_artifact = λ a. true;
}

abbrev pub config : CoordinatorConfig
config = record {
  lease_ms = 10000;
  telemetry_ttl_ms = 3000;
  artifact_quota_bytes = 1000000;
  retry_limit = 3;
  retry_backoff_ms = 1000;
  retry_backoff_max_ms = 30000;
  yield_retry_backoff_ms = 1000;
  yield_retry_backoff_max_ms = 30000;
}

abbrev amounts : ℕ → ℕ → Resources
amounts cpu ram = record { cpu_millicores = cpu; ram_mib = ram; gpu_memory_mib = [] }

abbrev pub request : LaunchRequest
request = record {
  task_id = "t";
  assignment_id = "";
  argv = "run" ∷ [];
  cwd = "/work";
  env = [];
  resources = amounts 500 256;
  replay_safe = true;
  class = AllocationClass.opportunistic;
  no_escape = true;
  single_process = true;
  managed_child_limit = 0;
  max_attempts = none;
  input_artifacts = [];
  required_controls = [];
  allow_fallback = false;
}

abbrev workers : PoolSpec
workers = record {
  pool_id = "p";
  class = AllocationClass.opportunistic;
  node_ids = "n" ∷ [];
  min_workers = 0;
  max_workers = 4;
}

abbrev job : JobSpec
job = record { job_id = "j"; pool_id = "p"; priority = pos 0; tasks = request ∷ [] }

abbrev report : ℕ → List AllocationReport → NodeReport
report observed_at allocations = record {
  node_id = "n";
  boot_id = "b";
  observed_at_unix_ms = observed_at;
  managed_budget = amounts 1000 1024;
  expansion_allowed = true;
  gpu_expansion_allowed = false;
  gpu_guaranteed_allowed = false;
  launch_slots = 2;
  available_controls = [];
  allocations = allocations;
}

abbrev allocation : RemotePhase → AllocationReport
allocation phase = record {
  assignment_id = "a0";
  generation = 1;
  phase = phase;
  observed = none;
  detail = "";
}

abbrev empty_store : Store
empty_store = record {
  profile = StorageProfile.wal_full;
  tasks = [];
  assignments = [];
  executions = [];
  execution_events = [];
  children = [];
  child_events = [];
}

abbrev empty_ledger : Ledger
empty_ledger = record {
  store = empty_store;
  pools = [];
  jobs = [];
  task_specs = [];
  nodes = [];
  reservations = [];
  drain_requests = [];
  preparations = [];
  unrecognized = [];
  fences = [];
  sessions = [];
  retired_sessions = [];
  retries = [];
  failure_receipts = [];
  publications = [];
  result_payloads = [];
  checkpoints = [];
  holds = [];
  epoch = 1;
  last_clock_ms = 0;
  drawn = 0;
}

abbrev node : Principal
node = Principal.node "n"

abbrev offer : Reservation
offer = record {
  assignment_id = "a0";
  node_id = "n";
  phase = RemotePhase.offered;
  resources = amounts 500 256;
  observed = none;
  lease_sequence = 0;
  lease_deadline_ms = 10300;
  epoch = 1;
}

abbrev current_task : TaskRow
current_task = record {
  task_id = "t";
  replay_safe = true;
  status = TaskStatus.assigned;
  generation = 1;
  assignment_id = some "a0";
  receipt_hash = none;
}

-- The ledger of one job, whose task is offered to the node.
abbrev pub offered : Ledger
offered = record empty_ledger {
  store = record empty_store {
    tasks = current_task ∷ [];
    assignments = record { assignment_id = "a0"; task_id = "t"; generation = 1 } ∷ [];
  };
  pools = workers ∷ [];
  jobs =
      record {
        job_id = "j";
        pool_id = "p";
        priority = pos 0;
        cancelled = false;
        submitted_ms = 200;
        spec = job;
      }
      ∷ [];
  task_specs = record { sequence = 1; task_id = "t"; job_id = "j"; request = request } ∷ [];
  nodes = record { report = report 300 []; received_ms = 300; drain = false } ∷ [];
  reservations = offer ∷ [];
  last_clock_ms = 300;
  drawn = 1;
}

abbrev release_report : Request
release_report = Request.heartbeat (report 400 (allocation RemotePhase.released ∷ []))

handle_at-Keeps_example :
    Followed
      (releases
        (handle_at services config offered node release_report 400).0.store.assignments
        node
        release_report)
      (handle_at services config offered node release_report 400).0.reservations
      "a0"
      offer
handle_at-Keeps_example =
    handle_at-Keeps services config offered node release_report 400 "a0" offer refl

restarted_runs : restart config empty_ledger ≡ ok (record empty_ledger { epoch = 2 })
unfolding restart cede_grid.Coordinator.Handle.check_config cede_grid.Coordinator.Handle.keep_drains
restarted_runs = refl

abbrev doubtful : Ledger
doubtful = record empty_ledger {
  reservations = record offer { phase = RemotePhase.uncertain } ∷ [];
  fences = "a0" ∷ [];
}

abbrev running : Ledger
running = record empty_ledger { reservations = offer ∷ [] }

restart-Keeps_example :
    (2 ≡ running.epoch + 1)
    × (find_reservation "a0" (doubt_held offer ∷ []) ≡ some (doubt_held offer))
    × (is_live (doubt_held offer).phase ≡ false)
    × (is_held (doubt_held offer).phase ≡ is_held offer.phase)
    × ((doubt_held offer).node_id ≡ offer.node_id)
    × ((doubt_held offer).resources ≡ offer.resources)
    × ((doubt_held offer).lease_sequence ≡ offer.lease_sequence)
unfolding restart cede_grid.Coordinator.Handle.check_config
restart-Keeps_example = restart-Keeps config running "a0" offer refl refl

doubtful-IsSound : IsSound doubtful
doubtful-IsSound = record {
  keyed = (refl, tt);
  fenced = λ id h. record {
    row = record offer { phase = RemotePhase.uncertain };
    found = ground (arith, h);
    settled = refl;
  };
}

abbrev later : Ledger
later = (handle_at services config doubtful node (Request.heartbeat (report 400 [])) 400).0

later_reached : Reach services doubtful later
later_reached =
    Reach.next Reach.here (Step.handles config node (Request.heartbeat (report 400 [])) 400 refl)

Reach-Settled_example : Settled later.reservations "a0"
Reach-Settled_example = Reach-Settled services "a0" doubtful-IsSound later_reached refl

abbrev pub first_lease : Lease
first_lease = record {
  assignment_id = "a0";
  generation = 1;
  coordinator_epoch = 1;
  sequence = 1;
  valid_for_ms = 10000;
  drain = false;
}

abbrev pub leased : Ledger
leased = record offered { reservations = authorized_row 1 10400 1 offer ∷ [] }

pub granted_runs : grant config offered "a0" 1 none 400 ≡ ok (first_lease, leased)
unfolding grant cede_grid.Coordinator.Lookup.current_attempt
    cede_grid.Coordinator.Lookup.should_drain assignment_request
    cede_grid.Coordinator.Lookup.replay_node_can_admit
    cede_grid.Coordinator.Lookup.replay_request_allowed cede_grid.Coordinator.Lookup.rank
    cede_grid.Coordinator.Grant.check_evidence cede_grid.Coordinator.Charge.gpu_request_allowed
    cede_grid.Coordinator.Charge.node_charge cede_grid.Coordinator.Charge.charge_from
    cede_grid.Coordinator.Charge.add cede_grid.Policy.Amounts.add_resources
    cede_grid.Common.checked_add cede_grid.Coordinator.Charge.held_resources
    cede_grid.Policy.Amounts.add_gpus cede_grid.Store.Reserve.fits_requested
    cede_grid.Coordinator.Grant.is_retry cede_grid.Common.get cede_grid.Common.insert
    cede_grid.Coordinator.Grant.extend_lease cede_grid.Coordinator.Lookup.join_row
    cede_grid.Coordinator.Tables.db cede_grid.Policy.Amounts.maximum
    cede_grid.Policy.Amounts.maximum_gpus cede_grid.Store.Tables.update_row
granted_runs = refl

grant-IsLease_example : IsLease config offered "a0" 1 400 first_lease leased
grant-IsLease_example = grant-IsLease config offered "a0" 1 none 400 granted_runs

abbrev renewed : Ledger
renewed = record offered { reservations = authorized_row 2 10600 1 offer ∷ [] }

abbrev second_lease : Lease
second_lease = record first_lease { sequence = 2 }

renewed_runs : grant config leased "a0" 1 (some 1) 600 ≡ ok (second_lease, renewed)
unfolding grant cede_grid.Coordinator.Lookup.current_attempt
    cede_grid.Coordinator.Lookup.should_drain assignment_request
    cede_grid.Coordinator.Lookup.replay_node_can_admit
    cede_grid.Coordinator.Lookup.replay_request_allowed cede_grid.Coordinator.Grant.is_retry
    cede_grid.Coordinator.Grant.extend_lease cede_grid.Coordinator.Lookup.rank
    cede_grid.Common.checked_add cede_grid.Coordinator.Tables.db cede_grid.Store.Tables.update_row
renewed_runs = refl

grant_again_example :
    (again : Lease) × (grant config renewed "a0" 1 (some 1) 700 ≡ ok (again, renewed))
    × (again.sequence ≡ 2)
grant_again_example =
    grant_again config leased "a0" 1 1 600 700 (authorized_row 2 10600 1 offer) renewed_runs refl
      refl (omega arith)

abbrev queued : Ledger
queued = record empty_ledger {
  store = record empty_store {
    tasks =
        record {
          task_id = "t";
          replay_safe = true;
          status = TaskStatus.queued;
          generation = 0;
          assignment_id = none;
          receipt_hash = none;
        }
        ∷ [];
  };
  pools = workers ∷ [];
  jobs = offered.jobs;
  task_specs = offered.task_specs;
  nodes = offered.nodes;
  last_clock_ms = 300;
}

scheduled_runs : schedule services config queued (report 300 []) 300 ≡ ok offered
unfolding schedule cede_grid.Coordinator.Lookup.replay_node_can_admit
    cede_grid.Coordinator.Schedule.schedule_all cede_grid.Coordinator.Charge.node_charge
    cede_grid.Coordinator.Charge.charge_from cede_grid.Coordinator.Schedule.schedule_loop
    cede_grid.Coordinator.Schedule.sort_queued cede_grid.Coordinator.Schedule.queued_rows
    cede_grid.Coordinator.Schedule.schedule_step cede_grid.Coordinator.Lookup.pool
    cede_grid.Coordinator.Schedule.may_consider cede_grid.Coordinator.Lookup.replay_request_allowed
    cede_grid.Coordinator.Schedule.is_eligible cede_grid.Coordinator.Charge.gpu_request_allowed
    cede_grid.Coordinator.Lookup.held_count cede_grid.Coordinator.Schedule.place
    cede_grid.Coordinator.Charge.add cede_grid.Coordinator.Lookup.pool_count
    cede_grid.Coordinator.Preempt.choose_preemption cede_grid.Coordinator.Preempt.may_preempt
    cede_grid.Coordinator.Preempt.preemptible cede_grid.Coordinator.Preempt.request_preemption
    cede_grid.Coordinator.Preempt.select cede_grid.Coordinator.Preempt.select_victims
    cede_grid.Coordinator.Preempt.sort_candidates cede_grid.Coordinator.Preempt.spares_minimum
    cede_grid.Coordinator.Schedule.unstarted cede_grid.Coordinator.Schedule.write_offer
    cede_grid.Coordinator.Tables.db cede_grid.Policy.Amounts.add_gpus
    cede_grid.Policy.Amounts.maximum cede_grid.Policy.Amounts.maximum_gpus
    cede_grid.Store.Reserve.fits_requested cede_grid.Store.Tables.update_row
    cede_grid.Policy.Amounts.add_resources cede_grid.Common.checked_add
    cede_grid.Coordinator.Charge.held_resources cede_grid.Common.get
    cede_grid.Coordinator.Lookup.join_row
scheduled_runs = refl

schedule-IsWithinBudget_example :
    (offered.reservations ≡ queued.reservations) ⊎ IsWithinBudget queued (report 300 []) offered
schedule-IsWithinBudget_example =
    schedule-IsWithinBudget services config queued (report 300 []) 300 scheduled_runs

abbrev submission : String → ResultSubmission
submission result = record {
  task_id = "t";
  assignment_id = "a0";
  generation = 1;
  result = result;
  artifacts = [];
}

abbrev receipt : String → Receipt
receipt hash = record { task_id = "t"; assignment_id = "a0"; generation = 1; receipt_hash = hash }

abbrev finished : Ledger
finished = record leased {
  result_payloads = submission "one" ∷ [];
  store = record offered.store {
    tasks = record current_task { status = TaskStatus.completed; receipt_hash = some "one" } ∷ [];
  };
}

accepted_runs : accept services leased node (submission "one") false ≡ ok (receipt "one", finished)
unfolding accept cede_grid.Coordinator.Lookup.authorize_assignment
    cede_grid.Coordinator.Accept.check_artifacts cede_grid.Coordinator.Accept.accept_new
    cede_grid.Coordinator.Lookup.current_attempt cede_grid.Coordinator.Accept.check_launched
    cede_grid.Coordinator.Accept.accept_final cede_grid.Store.Tables.update_row
accepted_runs = refl

accept_again_example :
    accept services finished node (submission "one") false ≡ ok (receipt "one", finished)
accept_again_example = accept_again services leased node (submission "one") false accepted_runs

abbrev checkpointed : String → Ledger
checkpointed result = record leased {
  checkpoints = record { submission = submission result; receipt_hash = result } ∷ [];
}

advanced_runs :
    accept services (checkpointed "one") node (submission "two") true
    ≡ ok (receipt "two", checkpointed "two")
unfolding accept cede_grid.Coordinator.Lookup.authorize_assignment
    cede_grid.Coordinator.Accept.check_artifacts cede_grid.Coordinator.Accept.is_committed
    cede_grid.Coordinator.Accept.accept_new cede_grid.Coordinator.Lookup.current_attempt
    cede_grid.Coordinator.Accept.check_launched cede_grid.Coordinator.Accept.accept_checkpoint
    cede_grid.Coordinator.Accept.read_sequence cede_grid.Coordinator.Accept.check_progress
    cede_grid.Coordinator.Tables.put_row cede_grid.Store.Tables.update_row
advanced_runs = refl

accept-forward_example :
    (checkpointed "two" ≡ checkpointed "one")
    ⊎ ((1 < 2) ⊎ (◌≡◌ {A = ℕ} 1 2) × (◌≡◌ {A = String} "one" "two"))
      × (find_checkpoint "t" (checkpointed "two").checkpoints
          ≡ some (record { submission = submission "two"; receipt_hash = "two" }))
accept-forward_example =
    accept-forward services (checkpointed "one") node (submission "two")
      (record { submission = submission "one"; receipt_hash = "one" }) 1 2 advanced_runs refl refl
      refl refl

-- A ledger whose node opened a session.
abbrev in_session : Ledger
in_session = record offered {
  sessions = record { node_id = "n"; session_id = "s"; boot_id = "b"; ready = true } ∷ [];
}

handle_at-refuses_example :
    Admits services in_session node release_report × (300 ≤ 400)
    ⊎ IsRefused in_session (handle_at services config in_session node release_report 400)
handle_at-refuses_example = handle_at-refuses services config in_session node release_report 400

-- The attempt was started, and its node released it.
abbrev ended : Ledger
ended = record leased {
  reservations = record (authorized_row 1 10400 1 offer) { phase = RemotePhase.released } ∷ [];
}

abbrev failed : Ledger
failed = record ended {
  store = record offered.store { tasks = record current_task { status = TaskStatus.queued } ∷ [] };
  retries = record { task_id = "t"; failures = 1; not_before_ms = 1500; yield_count = 0 } ∷ [];
  failure_receipts = ("a0", FailureKind.execution_failure) ∷ [];
}

failed_runs : record_failure config ended "a0" 1 FailureKind.execution_failure 500 ≡ ok failed
unfolding record_failure cede_grid.Coordinator.Failure.record_current
    cede_grid.Coordinator.Lookup.should_drain cede_grid.Coordinator.Lookup.rank assignment_request
    cede_grid.Coordinator.Failure.requeue cede_grid.Coordinator.Tables.db
    cede_grid.Coordinator.Failure.retry_delay cede_grid.Store.Tables.update_row
    cede_grid.Coordinator.Tables.put_row cede_grid.Coordinator.Failure.may_retry
failed_runs = refl

record_failure-IsRecorded_example :
    (failed ≡ ended) × (receipted "a0" ended.failure_receipts ≡ true)
    ⊎ IsRecorded config ended "a0" 1 FailureKind.execution_failure 500 failed
record_failure-IsRecorded_example =
    record_failure-IsRecorded config ended "a0" 1 FailureKind.execution_failure 500 failed_runs

record_failure_again_example :
    record_failure config failed "a0" 1 FailureKind.yielded 900 ≡ ok failed
record_failure_again_example =
    record_failure_again config ended "a0" 1 1 FailureKind.execution_failure FailureKind.yielded 500
      900 failed_runs

abbrev urgent : LaunchRequest
urgent = record request { task_id = "u" }

-- The ledger of a running attempt and of a task whose job has a higher priority.
abbrev busy : Ledger
busy = record leased {
  jobs =
      record {
        job_id = "k";
        pool_id = "p";
        priority = pos 1;
        cancelled = false;
        submitted_ms = 400;
        spec = record { job_id = "k"; pool_id = "p"; priority = pos 1; tasks = urgent ∷ [] };
      }
      ∷ offered.jobs;
  task_specs =
      record { sequence = 2; task_id = "u"; job_id = "k"; request = urgent } ∷ offered.task_specs;
}

abbrev preempted : Ledger
preempted = record busy { drain_requests = "a0" ∷ [] }

preempted_runs :
    request_preemption busy (report 400 []) urgent workers 1 (amounts 500 256) ≡ ok preempted
unfolding request_preemption cede_grid.Coordinator.Charge.gpu_request_allowed
    cede_grid.Store.Reserve.fits_requested cede_grid.Coordinator.Preempt.choose_preemption
    cede_grid.Coordinator.Preempt.select_victims cede_grid.Coordinator.Preempt.sort_candidates
    cede_grid.Coordinator.Preempt.preemptible cede_grid.Coordinator.Lookup.join_row
    cede_grid.Coordinator.Preempt.may_preempt cede_grid.Coordinator.Preempt.spares_minimum
    cede_grid.Coordinator.Lookup.pool_count cede_grid.Common.get cede_grid.Coordinator.Charge.add
    cede_grid.Policy.Amounts.add_resources cede_grid.Common.checked_add
    cede_grid.Coordinator.Preempt.select cede_grid.Coordinator.Charge.subtract
    cede_grid.Coordinator.Charge.held_resources cede_grid.Coordinator.Charge.subtract_gpus
    cede_grid.Policy.Amounts.add_gpus
preempted_runs = refl

request_preemption-IsVictim_example :
    (contains busy.drain_requests "a0" ≡ true)
    ⊎ (priority : ℤ) × HasPriority busy urgent priority × IsVictim busy "n" priority "a0"
request_preemption-IsVictim_example =
    request_preemption-IsVictim busy (report 400 []) urgent workers 1 (amounts 500 256) "a0"
      preempted_runs refl
