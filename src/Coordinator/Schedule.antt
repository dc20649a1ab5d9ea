-- ===== src/Coordinator/Schedule.antt =====
-- src/coordinator.rs, `schedule`: queued tasks are offered to a node within its managed budget.
use cede_grid.Common.{
  saturating_add, ℕ, ◌+◌, ◌-◌, String, Bool, ◌&&◌, ◌||◌, not, Option, none, some, List, [], ◌∷◌,
  ◌++◌, ◌==◌, String_eq, ℕ_eq, ℤ, ℤ_eq, int_lt, ltb, leb, nat_eq, checked_add, contains, all,
  is_some_and, is_none, filter, length, if◌then◌else◌, Result, ok, ensure, context, ◌>>=◌, ◌>>◌,
}
use cede_grid.Model.Resources.{Resources}
use cede_grid.Execution.{LaunchRequest}
use cede_grid.Protocol.{CoordinatorConfig, PoolSpec, NodeReport, RemotePhase, RemotePhase_eq}
use cede_grid.Store.Tables.{
  TaskRow, TaskStatus, AssignmentRow, is_queued, update_task, assignment_free,
}
use cede_grid.Store.Reserve.{fits_requested}
use cede_grid.Coordinator.Tables.{
  CoordinatorError, Ledger, Services, Reservation, RetryRow, find_spec, find_job, find_retry,
  find_node, find_reservation, db,
}
use cede_grid.Coordinator.Lookup.{
  pool, pool_count, held_count, replay_node_can_admit, replay_request_allowed,
}
use cede_grid.Coordinator.Charge.{add, node_charge, gpu_request_allowed}
use cede_grid.Coordinator.Preempt.{request_preemption}

-- A row of the queue.
pub record QueuedRow : Type 0 where
  pub task_id : String
  pub generation : ℕ
  pub request : LaunchRequest
  pub pool_id : String
  pub priority : ℤ
  pub sequence : ℕ

unfoldable pub queued_rows : Ledger → List TaskRow → List QueuedRow
queued_rows l [] = []
queued_rows l (t ∷ rest) =
    let more = queued_rows l rest in
    elim (find_spec t.task_id l.task_specs) [
      | none ↦ more
      | some s ↦ elim (find_job s.job_id l.jobs) [
        | none ↦ more
        | some j ↦
            if is_queued t.status && not j.cancelled && not (contains l.holds t.task_id)
            then record {
              task_id = t.task_id;
              generation = t.generation;
              request = s.request;
              pool_id = j.pool_id;
              priority = j.priority;
              sequence = s.sequence;
            }
              ∷ more
            else more
      ]
    ]

-- `ORDER BY j.priority DESC,s.sequence ASC`
abbrev goes_before : QueuedRow → QueuedRow → Bool
goes_before a b =
    int_lt b.priority a.priority || a.priority == b.priority && ltb a.sequence b.sequence

insert_queued : QueuedRow → List QueuedRow → List QueuedRow
insert_queued q [] = q ∷ []
insert_queued q (x ∷ rest) =
    let later = insert_queued q rest in if goes_before x q then x ∷ later else q ∷ x ∷ rest

unfoldable pub sort_queued : List QueuedRow → List QueuedRow
unfolding insert_queued
sort_queued [] = []
sort_queued (q ∷ rest) = insert_queued q (sort_queued rest)

-- What the loop carries from task to task.
pub record Round : Type 0 where
  pub ledger : Ledger
  pub charge : Resources
  pub remaining_slots : ℕ  -- u32

abbrev pub not_before : Option RetryRow → ℕ
not_before none = 0
not_before (some r) = r.not_before_ms

-- the tests that pass over a task without any write, up to the bound on its attempts
unfoldable pub may_consider : Ledger → NodeReport → ℕ → QueuedRow → PoolSpec → Bool
may_consider l report now q p =
    contains p.node_ids report.node_id
    && ltb 0 p.max_workers
    && replay_request_allowed l report.node_id q.request

-- the tests after the bound on the attempts
unfoldable pub is_eligible : Ledger → NodeReport → QueuedRow → Bool
is_eligible l report q =
    gpu_request_allowed q.request report
    && all (λ c. contains report.available_controls c) q.request.required_controls
    && nat_eq (held_count l q.task_id) 0

abbrev pub exhausted : QueuedRow → Bool
exhausted q = is_some_and q.request.max_attempts (λ limit. leb limit q.generation)

-- the writes of an offer, with the constraints of its tables
unfoldable pub write_offer :
    CoordinatorConfig
    → Ledger
    → NodeReport
    → QueuedRow
    → String
    → ℕ
    → Result CoordinatorError Ledger
write_offer config l report q id now = do
  generation ← context (checked_add q.generation 1) CoordinatorError.overflow
  let row : AssignmentRow = record {
    assignment_id = id;
    task_id = q.task_id;
    generation = generation;
  }
  let deadline = saturating_add now config.lease_ms
  let offer : Reservation = record {
    assignment_id = id;
    node_id = report.node_id;
    phase = RemotePhase.offered;
    resources = q.request.resources;
    observed = none;
    lease_sequence = 0;
    lease_deadline_ms = deadline;
    epoch = l.epoch;
  }
  db generation
  ensure (assignment_free row l.store.assignments && is_none (find_reservation id l.reservations))
      CoordinatorError.constraint_failed
  db deadline
  db l.epoch
  ok (record l {
    store = record l.store {
      assignments = l.store.assignments ++ (row ∷ []);
      tasks =
          update_task q.task_id
            (λ t. record t {
              status = TaskStatus.assigned;
              generation = generation;
              assignment_id = some id;
            })
            l.store.tasks;
    };
    reservations = l.reservations ++ (offer ∷ []);
    drawn = l.drawn + 1;
  })

-- an eligible task: an offer where it fits, else the drain of other work
unfoldable pub place :
    Services
    → CoordinatorConfig
    → NodeReport
    → ℕ
    → Round
    → QueuedRow
    → PoolSpec
    → Result CoordinatorError Round
place env config report now s q p = do
  next ← add s.charge q.request.resources
  let count = pool_count s.ledger q.pool_id
  let offered : Result CoordinatorError Round =
      write_offer config s.ledger report q (env.new_id s.ledger.drawn) now >>= λ l.
      ok (record { ledger = l; charge = next; remaining_slots = s.remaining_slots - 1 })
  let drained : Result CoordinatorError Round =
      request_preemption s.ledger report q.request p count s.charge >>= λ l.
      ok (record s { ledger = l })
  if nat_eq s.remaining_slots 0
        || leb p.max_workers count
        || not (fits_requested next report.managed_budget q.request.resources)
      then drained
      else offered

-- a task that used its attempts up
abbrev pub give_up : Ledger → String → Ledger
give_up l task = record l {
  store = record l.store {
    tasks =
        update_task task (λ t. record t { status = TaskStatus.needs_reconciliation }) l.store.tasks;
  };
}

-- one turn of the loop
unfoldable pub schedule_step :
    Services
    → CoordinatorConfig
    → NodeReport
    → ℕ
    → Round
    → QueuedRow
    → Result CoordinatorError Round
schedule_step env config report now s q =
    let considered : PoolSpec → Result CoordinatorError Round = λ p.
      if not (may_consider s.ledger report now q p)
      then ok s
      else if exhausted q
      then ok (record s { ledger = give_up s.ledger q.task_id })
      else if is_eligible s.ledger report q
      then place env config report now s q p
      else ok s in
    let due = pool s.ledger q.pool_id >>= considered in
    if ltb now (not_before (find_retry q.task_id s.ledger.retries)) then ok s else due

unfoldable pub schedule_loop :
    Services
    → CoordinatorConfig
    → NodeReport
    → ℕ
    → Round
    → List QueuedRow
    → Result CoordinatorError Round
schedule_loop env config report now s [] = ok s
schedule_loop env config report now s (q ∷ rest) =
    schedule_step env config report now s q >>= λ next.
    schedule_loop env config report now next rest

-- the offers of a node that are not started: `SELECT count(*) …`
unfoldable pub unstarted : Ledger → String → ℕ
unstarted l node_id = length (
    filter (λ (r : Reservation). r.node_id == node_id && r.phase == RemotePhase.offered)
      l.reservations)

-- the transaction of `schedule`
unfoldable pub schedule_all :
    Services → CoordinatorConfig → Ledger → NodeReport → ℕ → Result CoordinatorError Ledger
schedule_all env config l report now = do
  charge ← node_charge l report.node_id
  s ←
      schedule_loop env config report now
        (record {
          ledger = l;
          charge = charge;
          remaining_slots = report.launch_slots - unstarted l report.node_id;
        })
        (sort_queued (queued_rows l l.store.tasks))
  ok s.ledger

-- `schedule`
unfoldable pub schedule :
    Services → CoordinatorConfig → Ledger → NodeReport → ℕ → Result CoordinatorError Ledger
schedule env config l report now = do
  n ← context (find_node report.node_id l.nodes) CoordinatorError.no_row
  if n.drain || not (replay_node_can_admit l report.node_id)
      then ok l
      else schedule_all env config l report now
