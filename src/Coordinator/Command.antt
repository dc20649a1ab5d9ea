-- ===== src/Coordinator/Command.antt =====
-- src/coordinator.rs, `handle_at`: the requests of the operator, and the preparation of an attempt.
use cede_grid.Common.{
  ℕ, String, Bool, true, false, ◌&&◌, ◌||◌, not, Option, none, some, List, [], ◌∷◌, ◌++◌, ◌==◌,
  String_eq, ℕ_eq, Option_eq, ltb, leb, nat_eq, any, all, is_empty, is_empty_text, is_none_or,
  filter, is_some, Result, ok, ensure, context, ◌>>=◌, ◌>>◌,
}
use cede_grid.Model.Resources.{Resources_eq}
use cede_grid.Execution.{
  ExecutionRecord, ProcessIdentity_eq, AllocationClass_eq, is_prepared, verifies,
}
use cede_grid.Protocol.{CoordinatorConfig, PoolSpec, Principal, Lease}
use cede_grid.Protocol.Validate.{validate_launch_request}
use cede_grid.Store.Tables.{TaskStatus, update_task, update_row}
use cede_grid.Coordinator.Tables.{
  CoordinatorError, Ledger, Services, JobRow, NodeRow, find_pool, find_job, find_spec, find_node,
  find_reservation, find_preparation, read_task, put_row, from_protocol,
}
use cede_grid.Coordinator.Lookup.{
  held_count, authorize_assignment, current_attempt, assignment_request,
}
use cede_grid.Coordinator.Grant.{grant}
use cede_grid.Coordinator.Session.{check_id}

check_ids : List String → Result CoordinatorError (Unit {0})
check_ids [] = ok tt
check_ids (id ∷ ids) = check_id id >> check_ids ids

-- the class of a pool is fixed once a job names it
check_class : Ledger → PoolSpec → Option PoolSpec → Result CoordinatorError (Unit {0})
check_class l p none = ok tt
check_class l p (some old) =
    ensure
      (is_empty (filter (λ (j : JobRow). j.pool_id == p.pool_id) l.jobs) || old.class == p.class)
      CoordinatorError.pool_class

-- `PutPool`
unfoldable pub put_pool : Ledger → PoolSpec → Result CoordinatorError Ledger
unfolding check_ids check_class
put_pool l p = do
  check_id p.pool_id
  ensure (leb p.min_workers p.max_workers && leb p.max_workers 100_000) CoordinatorError.pool_bounds
  ensure (not (is_empty p.node_ids)) CoordinatorError.pool_nodes
  check_ids p.node_ids
  check_class l p (find_pool p.pool_id l.pools)
  ok (record l { pools = put_row (λ (q : PoolSpec). q.pool_id) p (λ _. p) l.pools })

abbrev is_retriable : TaskStatus → Bool
is_retriable TaskStatus.queued = true
is_retriable TaskStatus.needs_reconciliation = true
is_retriable _ = false

-- `Retry`
unfoldable pub retry : Services → Ledger → String → Bool → Result CoordinatorError Ledger
retry env l task_id confirmed = do
  t ← read_task l task_id
  ensure (is_retriable t.status) CoordinatorError.retry_status
  ensure (t.replay_safe || confirmed) CoordinatorError.retry_unconfirmed
  s ← context (find_spec task_id l.task_specs) CoordinatorError.no_row
  ensure (is_none_or s.request.max_attempts (λ limit. ltb t.generation limit))
      CoordinatorError.attempts_exhausted
  ensure (nat_eq (held_count l task_id) 0) CoordinatorError.held_allocations
  from_protocol (validate_launch_request env.accepts_json s.request)
  ok (record l {
    store = record l.store {
      tasks = update_task task_id (λ r. record r { status = TaskStatus.queued }) l.store.tasks;
    };
    holds = filter (λ id. not (id == task_id)) l.holds;
    retries = filter (λ r. not (r.task_id == task_id)) l.retries;
  })

-- `Cancel`
unfoldable pub cancel : Ledger → String → Result CoordinatorError Ledger
cancel l job_id =
    ensure (is_some (find_job job_id l.jobs)) CoordinatorError.unknown_job
    >> ok (record l {
      jobs =
          update_row (λ (j : JobRow). j.job_id) job_id (λ j. record j { cancelled = true }) l.jobs;
    })

-- `DrainNode`
unfoldable pub drain_node : Ledger → String → Bool → Result CoordinatorError Ledger
drain_node l node_id drain =
    ensure (is_some (find_node node_id l.nodes)) CoordinatorError.unknown_node
    >> ok (record l {
      nodes =
          update_row (λ (n : NodeRow). n.report.node_id) node_id (λ n. record n { drain = drain })
            l.nodes;
    })

-- the checks on a preparation, up to the controls
unfoldable pub check_preparation :
    Ledger → String → ℕ → ExecutionRecord → Result CoordinatorError (Unit {0})
check_preparation l id generation entry = do
  ensure (entry.assignment_id == id && entry.generation == generation && is_prepared entry.phase)
      CoordinatorError.record_mismatch
  identity ← context entry.identity CoordinatorError.identity_absent
  ensure
      (identity.assignment_id == id
        && identity.generation == generation
        && ltb 0 identity.pid
        && ltb 0 identity.start_time
        && not (is_empty_text identity.boot_id))
      CoordinatorError.invalid_identity
  r ← context (find_reservation id l.reservations) CoordinatorError.no_row
  n ← context (find_node r.node_id l.nodes) CoordinatorError.no_row
  ensure (identity.boot_id == n.report.boot_id) CoordinatorError.boot_differs
  request ← assignment_request l id
  ensure
      (request.task_id == entry.task_id
        && request.resources == entry.resources
        && request.class == entry.class
        && not (is_empty_text entry.backend))
      CoordinatorError.preparation_changed
  ensure (all (λ control. any (verifies control) entry.evidence) request.required_controls)
      CoordinatorError.control_unapplied

-- a preparation is kept once; a second one has the same process and backend
unfoldable pub keep_preparation :
    Ledger → ExecutionRecord → Option ExecutionRecord → Result CoordinatorError Ledger
keep_preparation l entry none = ok (record l { preparations = l.preparations ++ (entry ∷ []) })
keep_preparation l entry (some old) =
    ensure (old.identity == entry.identity && old.backend == entry.backend)
      CoordinatorError.preparation_changed
    >> ok l

-- `Prepared`, up to the lease
unfoldable pub prepare :
    Ledger → Principal → String → ℕ → ℕ → ExecutionRecord → Result CoordinatorError Ledger
prepare l p id generation epoch entry = do
  authorize_assignment l p id generation
  ensure (epoch == l.epoch) CoordinatorError.stale_epoch
  check_preparation l id generation entry
  _ ← current_attempt l id generation
  keep_preparation l entry (find_preparation id l.preparations)

-- `Renew`
unfoldable pub renew :
    CoordinatorConfig
    → Ledger
    → Principal
    → String
    → ℕ
    → ℕ
    → ℕ
    → ℕ
    → Result CoordinatorError (Lease × Ledger)
renew config l p id generation epoch previous now = do
  authorize_assignment l p id generation
  ensure (epoch == l.epoch) CoordinatorError.stale_epoch
  grant config l id generation (some previous) now
