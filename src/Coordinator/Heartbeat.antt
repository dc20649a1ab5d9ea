-- ===== src/Coordinator/Heartbeat.antt =====
-- src/coordinator.rs, `heartbeat`: a node's report on its allocations moves their phases, and is
-- answered by offers, drains and what needs reconciliation.
pub mod Report
pub mod Reply
use cede_grid.Common.{
  saturating_add, ℕ, ◌-◌, String, Bool, true, false, ◌&&◌, ◌||◌, not, Option, none, some, List, [],
  ◌∷◌, ◌++◌, map, ◌==◌, String_eq, ℕ_eq, Bool_eq, Option_eq, ltb, leb, any, all, contains, filter,
  is_some, is_empty, is_none_or, is_empty_text, if◌then◌else◌, Result, ok, err, ensure, context,
  ◌>>=◌, ◌>>◌,
}
use cede_grid.Protocol.{
  CoordinatorConfig, NodeReport, AllocationReport, RemotePhase, RemotePhase_eq, FailureKind,
  HeartbeatReply,
}
use cede_grid.Protocol.Validate.{validate_bounds}
use cede_grid.Store.Tables.{TaskStatus, find_assignment, find_task, is_queued}
use cede_grid.Coordinator.Tables.{
  CoordinatorError, Ledger, Services, Reservation, NodeRow, SessionRow, find_node, find_session,
  find_reservation, is_held, put_row, update_reservation, db, from_protocol,
}
use cede_grid.Store.Tables.{update_row}
use cede_grid.Coordinator.Session.{check_id}
use cede_grid.Coordinator.Failure.{record_failure}
use cede_grid.Coordinator.Schedule.{schedule}
use cede_grid.Coordinator.Outcome.{Outcome, commit, after, require}
use Report.{Reported, report_loop, report_missing, orphaned_ids, replay_ready}
use Reply.{reply_of}

abbrev pub previous_observed : Ledger → String → Option ℕ
previous_observed l node_id = elim (find_node node_id l.nodes) [
  | none ↦ none
  | some n ↦ some n.report.observed_at_unix_ms
]

-- whether a retained allocation is reported as released or uncertain at its exact generation
abbrev accounts_for : List AllocationReport → String → ℕ → Bool
accounts_for reports id generation =
    any
      (λ (a : AllocationReport).
        a.assignment_id == id
        && a.generation == generation
        && (a.phase == RemotePhase.released || a.phase == RemotePhase.uncertain))
      reports

-- the test of the first report after a session opened
unfoldable pub recovery_complete : Ledger → NodeReport → Bool
recovery_complete l report =
    all
      (λ (r : Reservation).
        not (r.node_id == report.node_id && is_held r.phase)
        || elim (find_assignment r.assignment_id l.store.assignments) [
          | none ↦ true
          | some a ↦ accounts_for report.allocations r.assignment_id a.generation
        ])
      l.reservations

-- the checks before the first write
unfoldable pub check_report :
    Services → CoordinatorConfig → Ledger → NodeReport → ℕ → Result CoordinatorError (Unit {0})
check_report env config l report now = do
  from_protocol (validate_bounds env.report_size report)
  check_id report.node_id
  ensure (not (is_empty_text report.boot_id)) CoordinatorError.blank_boot
  ensure (leb report.observed_at_unix_ms (saturating_add now config.telemetry_ttl_ms))
      CoordinatorError.future_observation
  ensure
      (is_none_or (previous_observed l report.node_id) (λ old. leb old report.observed_at_unix_ms))
      CoordinatorError.observation_regressed
  ensure (not (replay_ready l report.node_id == some false) || recovery_complete l report)
      CoordinatorError.recovery_incomplete

abbrev fresh_node : NodeReport → ℕ → NodeRow
fresh_node report now = record { report = report; received_ms = now; drain = false }

-- the report is kept, and the node's drain flag stays
unfoldable pub save_node : Ledger → NodeReport → ℕ → Ledger
save_node l report now = record l {
  nodes =
      put_row (λ (n : NodeRow). n.report.node_id) (fresh_node report now)
        (λ n. record n { report = report; received_ms = now }) l.nodes;
}

-- the session is ready once its first report was taken
unfoldable pub make_ready : Ledger → String → Option Bool → Ledger
make_ready l node_id (some false) = record l {
  sessions =
      update_row (λ (s : SessionRow). s.node_id) node_id (λ s. record s { ready = true })
        l.sessions;
}
make_ready l node_id ready = l

-- the first transaction: the ledger it leaves, and the allocations that need attention
unfoldable pub apply_report :
    Ledger → NodeReport → ℕ → Result CoordinatorError (List String × Ledger)
apply_report l report now = do
  db now
  let ready = replay_ready l report.node_id
  s ←
      report_loop report (previous_observed l report.node_id)
        (record { ledger = save_node l report now; unknown = []; seen = [] }) report.allocations
  let m = report_missing report.node_id (is_some ready) s
  ok (m.unknown ++ orphaned_ids m.ledger report.node_id, make_ready m.ledger report.node_id ready)

-- whether a released allocation is the current attempt of a task that waits
unfoldable pub is_waiting : Ledger → AllocationReport → Bool
is_waiting l a = elim (find_assignment a.assignment_id l.store.assignments) [
  | none ↦ false
  | some row ↦ elim (find_task row.task_id l.store.tasks) [
    | none ↦ false
    | some t ↦
        is_some (find_reservation a.assignment_id l.reservations)
        && t.assignment_id == some a.assignment_id
        && row.generation == a.generation
        && elim t.status [
          | TaskStatus.queued ↦ true
          | TaskStatus.needs_reconciliation ↦ true
          | _ ↦ false
        ]
  ]
]

abbrev pub finished : Ledger → Result CoordinatorError Ledger → Outcome (Unit {0})
finished l (ok next) = (next, ok tt)
finished l (err e) = (l, err e)

-- the loop over released allocations, each in a transaction of its own
unfoldable pub yield_loop :
    CoordinatorConfig → ℕ → Ledger → List AllocationReport → Outcome (Unit {0})
yield_loop config now l [] = (l, ok tt)
yield_loop config now l (a ∷ rest) = elim (a.phase == RemotePhase.released && is_waiting l a) [
  | true ↦
      after
        (finished l (record_failure config l a.assignment_id a.generation FailureKind.yielded now))
        (λ _ next. yield_loop config now next rest)
  | false ↦ yield_loop config now l rest
]

abbrev expects_observation : RemotePhase → Bool
expects_observation RemotePhase.running = true
expects_observation RemotePhase.draining = true
expects_observation RemotePhase.authorized = true
expects_observation RemotePhase.uncertain = true
expects_observation _ = false

-- every allocation that may run is observed
unfoldable pub observed_live : NodeReport → Bool
observed_live report =
    all (λ (a : AllocationReport). not (expects_observation a.phase) || is_some a.observed)
      report.allocations

abbrev pub is_fresh : CoordinatorConfig → NodeReport → ℕ → Bool
is_fresh config report now = leb (now - report.observed_at_unix_ms) config.telemetry_ttl_ms

-- the part after the releases: offers, where the report allows them
unfoldable pub offer_work :
    Services → CoordinatorConfig → NodeReport → ℕ → List String → Ledger → Outcome (Unit {0})
offer_work env config report now unknown l =
    if is_fresh config report now
      && observed_live report
      && is_empty unknown
      && report.expansion_allowed
    then finished l (schedule env config l report now)
    else (l, ok tt)

-- `heartbeat`
unfoldable pub heartbeat :
    Services → CoordinatorConfig → Ledger → NodeReport → ℕ → Outcome HeartbeatReply
heartbeat env config l report now = require l (check_report env config l report now) (λ _.
    after (commit l (apply_report l report now)) (λ unknown l1.
      after (yield_loop config now l1 report.allocations) (λ _ l2.
        after (offer_work env config report now unknown l2)
          (λ _ l3. (l3, reply_of l3 report.node_id (is_fresh config report now) unknown)))))
