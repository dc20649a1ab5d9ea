-- ===== src/Coordinator/Grant.antt =====
-- src/coordinator.rs, `grant`: the lease that authorizes an attempt, given after its preparation and
-- renewed by its node.
use cede_grid.Common.{
  saturating_add, ℕ, ◌-◌, min, String, Bool, ◌&&◌, ◌||◌, not, Option, none, some, ◌==◌, String_eq,
  ℕ_eq, ltb, leb, nat_eq, checked_add, if◌then◌else◌, Result, ok, ensure, context, ◌>>=◌, ◌>>◌,
  Option_eq,
}
use cede_grid.Execution.{LaunchRequest, AllocationClass, AllocationClass_eq}
use cede_grid.Protocol.{CoordinatorConfig, RemotePhase, Lease}
use cede_grid.Store.Reserve.{fits_requested}
use cede_grid.Coordinator.Tables.{
  CoordinatorError, Ledger, Reservation, find_reservation, find_node, update_reservation, is_live,
  db,
}
use cede_grid.Coordinator.Lookup.{
  current_attempt, assignment_request, should_drain, replay_node_can_admit, replay_request_allowed,
}
use cede_grid.Coordinator.Charge.{node_charge, gpu_request_allowed}

-- the evidence that a first authorization requires
unfoldable pub check_evidence :
    CoordinatorConfig
    → Ledger
    → Reservation
    → LaunchRequest
    → ℕ
    → Result CoordinatorError (Unit {0})
check_evidence config l r request now = do
  n ← context (find_node r.node_id l.nodes) CoordinatorError.no_row
  ensure
      (n.report.expansion_allowed
        && leb (now - n.received_ms) config.telemetry_ttl_ms
        && leb (now - n.report.observed_at_unix_ms) config.telemetry_ttl_ms)
      CoordinatorError.no_fresh_evidence
  ensure (gpu_request_allowed request n.report) CoordinatorError.gpu_unadmitted
  charge ← node_charge l n.report.node_id
  ensure (fits_requested charge n.report.managed_budget request.resources)
      CoordinatorError.over_budget

-- whether this call repeats one that was answered
unfoldable pub is_retry : Option ℕ → ℕ → Result CoordinatorError Bool
is_retry none sequence = ok (ltb 0 sequence)
is_retry (some previous) sequence = do
  ensure (ltb 0 sequence) CoordinatorError.unprepared
  ensure (previous == sequence || checked_add previous 1 == some sequence)
      CoordinatorError.stale_lease
  ok (not (previous == sequence))

abbrev pub lease_of : CoordinatorConfig → Ledger → String → ℕ → ℕ → ℕ → Bool → ℕ → Lease
lease_of config l id generation sequence deadline drain now = record {
  assignment_id = id;
  generation = generation;
  coordinator_epoch = l.epoch;
  sequence = sequence;
  valid_for_ms = min (deadline - now) config.lease_ms;
  drain = drain;
}

-- the row that a new lease leaves
abbrev pub authorized_row : ℕ → ℕ → ℕ → Reservation → Reservation
authorized_row sequence deadline epoch r = record r {
  phase = RemotePhase.authorized;
  lease_sequence = sequence;
  lease_deadline_ms = deadline;
  epoch = epoch;
}

-- the last part: a retry or a drain is answered by the lease that stands, else a new one is written
unfoldable pub extend_lease :
    CoordinatorConfig
    → Ledger
    → Reservation
    → ℕ
    → Bool
    → Bool
    → ℕ
    → Result CoordinatorError (Lease × Ledger)
extend_lease config l r generation retry drain now =
    let id = r.assignment_id in
    let standing = lease_of config l id generation r.lease_sequence r.lease_deadline_ms drain now in
    let deadline = saturating_add now config.lease_ms in
    let renewed : Result CoordinatorError (Lease × Ledger) = (do
      sequence ← context (checked_add r.lease_sequence 1) CoordinatorError.overflow
      db sequence
      db deadline
      db l.epoch
      ok (
        lease_of config l id generation sequence deadline drain now,
        record l {
          reservations =
              update_reservation id (authorized_row sequence deadline l.epoch) l.reservations;
        },
      )) in
    if retry || drain then ok (standing, l) else renewed

-- `grant`
unfoldable pub grant :
    CoordinatorConfig
    → Ledger
    → String
    → ℕ
    → Option ℕ
    → ℕ
    → Result CoordinatorError (Lease × Ledger)
grant config l id generation previous now = do
  _ ← current_attempt l id generation
  r ← context (find_reservation id l.reservations) CoordinatorError.no_row
  ensure (is_live r.phase) CoordinatorError.needs_reconciliation
  drain ← should_drain l id
  request ← assignment_request l id
  ensure (replay_node_can_admit l r.node_id && replay_request_allowed l r.node_id request)
      CoordinatorError.replay_unfit
  (if nat_eq r.lease_sequence 0 && not drain then check_evidence config l r request now else ok tt)
  ensure
      (not (
        ltb 0 r.lease_sequence
        && leb r.lease_deadline_ms now
        && request.class == AllocationClass.opportunistic))
      CoordinatorError.lease_expired
  retry ← is_retry previous r.lease_sequence
  extend_lease config l r generation retry drain now
