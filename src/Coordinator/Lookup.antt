-- ===== src/Coordinator/Lookup.antt =====
-- The reads of the ledger that decide authority: the owner of an assignment, the current attempt of
-- a task, whether an allocation is to drain, and whether a replayable node may admit work.
use cede_grid.Common.{
  ℕ, String, Bool, true, false, ◌&&◌, ◌||◌, not, none, some, ◌==◌, String_eq, ℕ_eq, Option_eq, ltb,
  any, filter, length, contains, is_some, Result, ok, err, ensure, context, ◌>>=◌, ◌>>◌,
}
use cede_grid.Execution.{LaunchRequest, AllocationClass, AllocationClass_eq}
use cede_grid.Protocol.{Principal, PoolSpec, RemotePhase, RemotePhase_eq}
use cede_grid.Store.Tables.{AssignmentRow, is_assigned, is_completed, find_assignment}
use cede_grid.Coordinator.Tables.{
  CoordinatorError, Ledger, Reservation, SpecRow, JobRow, UnrecognizedRow, find_reservation,
  find_spec, find_job, find_pool, find_node, find_session, is_held, read_task,
}

-- A reservation with the rows that `JOIN` brings by their keys.
pub record Joined : Type 0 where
  pub assignment : AssignmentRow
  pub spec : SpecRow
  pub job : JobRow

unfoldable pub join_row : Ledger → String → Result CoordinatorError Joined
join_row l id = do
  a ← context (find_assignment id l.store.assignments) CoordinatorError.no_row
  s ← context (find_spec a.task_id l.task_specs) CoordinatorError.no_row
  j ← context (find_job s.job_id l.jobs) CoordinatorError.no_row
  ok (record { assignment = a; spec = s; job = j })

-- a test of a joined row
abbrev pub joins : Ledger → String → (Joined → Bool) → Bool
joins l id test = elim (join_row l id) [ ok j ↦ test j | err _ ↦ false ]

-- the reservations of a pool that are not released: `SELECT count(*) …`
unfoldable pub pool_count : Ledger → String → ℕ
unfolding join_row
pool_count l pool = length (
    filter (λ r. is_held r.phase && joins l r.assignment_id (λ j. j.job.pool_id == pool))
      l.reservations)

-- the reservations of a task that are not released: `SELECT count(*) …`
unfoldable pub held_count : Ledger → String → ℕ
held_count l task = length (
    filter
      (λ r. is_held r.phase && elim (find_assignment r.assignment_id l.store.assignments) [
        | some a ↦ a.task_id == task
        | none ↦ false
      ])
      l.reservations)

-- `pool`
unfoldable pub pool : Ledger → String → Result CoordinatorError PoolSpec
pool l id = context (find_pool id l.pools) CoordinatorError.unknown_pool

-- `assignment_request`
unfoldable pub assignment_request : Ledger → String → Result CoordinatorError LaunchRequest
assignment_request l id = do
  a ← context (find_assignment id l.store.assignments) CoordinatorError.no_row
  s ← context (find_spec a.task_id l.task_specs) CoordinatorError.no_row
  ok (record s.request { assignment_id = id })

abbrev pub owns : Principal → String → Bool
owns Principal.operator owner = true
owns (Principal.node id) owner = id == owner

-- `authorize_assignment`
unfoldable pub authorize_assignment :
    Ledger → Principal → String → ℕ → Result CoordinatorError (Unit {0})
authorize_assignment l p id generation = do
  r ← context (find_reservation id l.reservations) CoordinatorError.no_row
  a ← context (find_assignment id l.store.assignments) CoordinatorError.no_row
  ensure (a.generation == generation) CoordinatorError.generation_mismatch
  ensure (owns p r.node_id) CoordinatorError.foreign_node

-- `current_attempt`
unfoldable pub current_attempt : Ledger → String → ℕ → Result CoordinatorError String
current_attempt l id generation = do
  a ← context (find_assignment id l.store.assignments) CoordinatorError.no_row
  current ← read_task l a.task_id
  ensure (current.generation == generation && current.assignment_id == some id)
      CoordinatorError.stale_attempt
  ensure (is_assigned current.status || is_completed current.status)
      CoordinatorError.attempt_inactive
  ok a.task_id

-- the held reservations of a pool that come before an attempt, with the attempt itself
unfoldable pub rank : Ledger → String → ℕ → String → ℕ
unfolding join_row
rank l pool_id sequence id = length (
    filter
      (λ r.
        is_held r.phase
        && joins l r.assignment_id (λ j.
          j.job.pool_id == pool_id && (ltb j.spec.sequence sequence || r.assignment_id == id)))
      l.reservations)

-- `should_drain`
unfoldable pub should_drain : Ledger → String → Result CoordinatorError Bool
unfolding join_row
should_drain l id = do
  r ← context (find_reservation id l.reservations) CoordinatorError.no_row
  j ← join_row l id
  p ← context (find_pool j.job.pool_id l.pools) CoordinatorError.no_row
  n ← context (find_node r.node_id l.nodes) CoordinatorError.no_row
  ok (
      j.job.cancelled
      || n.drain
      || contains l.drain_requests id
      || r.phase == RemotePhase.draining
      || not (contains p.node_ids r.node_id)
      || ltb p.max_workers (rank l p.pool_id j.spec.sequence id))

-- `replay_node_can_admit`
unfoldable pub replay_node_can_admit : Ledger → String → Bool
replay_node_can_admit l node_id = elim (find_session node_id l.sessions) [
  | none ↦ true
  | some s ↦
      s.ready
      && not (
          any (λ (r : Reservation). r.node_id == node_id && r.phase == RemotePhase.uncertain)
            l.reservations
          || any (λ (u : UnrecognizedRow). u.node_id == node_id) l.unrecognized)
]

-- `replay_request_allowed`
unfoldable pub replay_request_allowed : Ledger → String → LaunchRequest → Bool
replay_request_allowed l node_id request =
    not (is_some (find_session node_id l.sessions))
    || request.replay_safe
      && request.class == AllocationClass.opportunistic
      && not (any (λ c. c == "storage.durable_local") request.required_controls)
