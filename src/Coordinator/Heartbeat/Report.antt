-- ===== src/Coordinator/Heartbeat/Report.antt =====
-- src/coordinator.rs, `heartbeat`: the transaction that takes a report.
use cede_grid.Common.{
  ℕ, String, Bool, ◌&&◌, ◌||◌, not, Option, none, some, List, [], ◌∷◌, ◌++◌, map, ◌==◌, String_eq,
  ℕ_eq, ltb, nat_eq, contains, filter, set_insert, is_none_or, if◌then◌else◌, Result, ok, ensure,
  ◌>>=◌, ◌>>◌,
}
use cede_grid.Model.Resources.{Resources}
use cede_grid.Protocol.{NodeReport, AllocationReport, RemotePhase, RemotePhase_eq}
use cede_grid.Store.Tables.{AssignmentRow, find_assignment}
use cede_grid.Coordinator.Tables.{
  CoordinatorError, Ledger, Reservation, UnrecognizedRow, find_reservation, find_session, is_held,
  update_reservation, db,
}
use cede_grid.Coordinator.Session.{unrecognized_of}

-- `SELECT ready FROM replay_node_sessions`
abbrev pub replay_ready : Ledger → String → Option Bool
replay_ready l node_id = elim (find_session node_id l.sessions) [
  | none ↦ none
  | some s ↦ some s.ready
]

-- What the loop over the allocations carries.
pub record Reported : Type 0 where
  pub ledger : Ledger
  pub unknown : List String
  pub seen : List String

abbrev same_report : String → String → UnrecognizedRow → Bool
same_report node_id id u = u.node_id == node_id && u.report.assignment_id == id

abbrev find_unrecognized : String → String → List UnrecognizedRow → Option UnrecognizedRow
find_unrecognized node_id id [] = none
find_unrecognized node_id id (u ∷ rest) =
    if same_report node_id id u then some u else find_unrecognized node_id id rest

replace_report : String → AllocationReport → List UnrecognizedRow → List UnrecognizedRow
replace_report node_id a [] = []
replace_report node_id a (u ∷ rest) =
    (if same_report node_id a.assignment_id u then record u { report = a } else u)
    ∷ replace_report node_id a rest

put_unrecognized : Ledger → String → AllocationReport → Ledger
unfolding replace_report
put_unrecognized l node_id a = elim (find_unrecognized node_id a.assignment_id l.unrecognized) [
  | some _ ↦ record l { unrecognized = replace_report node_id a l.unrecognized }
  | none ↦ record l {
    unrecognized =
        l.unrecognized
        ++ (record { node_id = node_id; generation = a.generation; report = a } ∷ []);
  }
]

drop_unrecognized : Ledger → String → String → Ledger
drop_unrecognized l node_id id = record l {
  unrecognized = filter (λ u. not (same_report node_id id u)) l.unrecognized;
}

-- an allocation that the ledger does not know
unfoldable pub report_unknown : String → Ledger → AllocationReport → Result CoordinatorError Ledger
unfolding put_unrecognized drop_unrecognized
report_unknown node_id l a = do
  ensure
      (is_none_or (find_unrecognized node_id a.assignment_id l.unrecognized)
        (λ u. u.generation == a.generation))
      CoordinatorError.generation_changed
  if a.phase == RemotePhase.released
      then ok (drop_unrecognized l node_id a.assignment_id)
      else (db a.generation >> ok (put_unrecognized l node_id a))

-- a released allocation that the node reports again after the release
unfoldable pub contradicts : RemotePhase → RemotePhase → Option ℕ → ℕ → Bool
contradicts old phase previous observed_at =
    old == RemotePhase.released
    && not (phase == RemotePhase.released)
    && is_none_or previous (λ before. ltb before observed_at)

-- execution that no lease authorized
unfoldable pub invalid_running : ℕ → RemotePhase → Bool
invalid_running sequence phase =
    nat_eq sequence 0 && (phase == RemotePhase.running || phase == RemotePhase.authorized)

-- the phase of a row that is neither released nor fenced: what drains stays so, and a report of an
-- earlier phase does not take an authorization back
abbrev advance : RemotePhase → RemotePhase → RemotePhase
advance RemotePhase.draining phase = RemotePhase.draining
advance RemotePhase.running RemotePhase.offered = RemotePhase.running
advance RemotePhase.running RemotePhase.prepared = RemotePhase.running
advance RemotePhase.running RemotePhase.authorized = RemotePhase.running
advance RemotePhase.authorized RemotePhase.offered = RemotePhase.authorized
advance RemotePhase.authorized RemotePhase.prepared = RemotePhase.authorized
advance old phase = phase

-- the chain of conditions that decides the phase of a row
unfoldable pub next_phase : RemotePhase → RemotePhase → Bool → Bool → RemotePhase
next_phase old phase alarming fenced =
    if phase == RemotePhase.released
    then RemotePhase.released
    else if alarming || phase == RemotePhase.uncertain
    then RemotePhase.uncertain
    else if old == RemotePhase.released
    then RemotePhase.released
    else if fenced
    then RemotePhase.uncertain
    else advance old phase

abbrev pub reported_row : RemotePhase → Option Resources → Reservation → Reservation
reported_row phase observed r = record r { phase = phase; observed = observed }

-- the writes on an allocation that the ledger knows
unfoldable pub write_phase : Ledger → AllocationReport → RemotePhase → Ledger
write_phase l a phase = record l {
  drain_requests =
      if phase == RemotePhase.draining
      then set_insert a.assignment_id l.drain_requests
      else l.drain_requests;
  fences = if phase == RemotePhase.uncertain then set_insert a.assignment_id l.fences else l.fences;
  reservations = update_reservation a.assignment_id (reported_row phase a.observed) l.reservations;
}

-- an allocation that the ledger knows
unfoldable pub report_known :
    NodeReport
    → Option ℕ
    → Reported
    → AllocationReport
    → Reservation
    → AssignmentRow
    → Result CoordinatorError Reported
report_known report previous s a r row = do
  ensure (r.node_id == report.node_id && row.generation == a.generation)
      CoordinatorError.foreign_allocation
  let alarming =
      contradicts r.phase a.phase previous report.observed_at_unix_ms
      || invalid_running r.lease_sequence a.phase
  let phase = next_phase r.phase a.phase alarming (contains s.ledger.fences a.assignment_id)
  ok (record {
    ledger = write_phase s.ledger a phase;
    unknown = if alarming then s.unknown ++ (a.assignment_id ∷ []) else s.unknown;
    seen = a.assignment_id ∷ s.seen;
  })

-- an allocation of the report: known by its reservation and its attempt, or not
unfoldable pub report_at :
    NodeReport
    → Option ℕ
    → Reported
    → AllocationReport
    → Option Reservation
    → Option AssignmentRow
    → Result CoordinatorError Reported
report_at report previous s a (some r) (some row) = report_known report previous s a r row
report_at report previous s a (some r) none = report_unknown report.node_id s.ledger a >>= λ l.
    ok (record s { ledger = l; seen = a.assignment_id ∷ s.seen })
report_at report previous s a none row = report_unknown report.node_id s.ledger a >>= λ l.
    ok (record s { ledger = l; seen = a.assignment_id ∷ s.seen })

unfoldable pub report_step :
    NodeReport → Option ℕ → Reported → AllocationReport → Result CoordinatorError Reported
report_step report previous s a = do
  ensure (not (contains s.seen a.assignment_id)) CoordinatorError.duplicate_report
  report_at report previous s a (find_reservation a.assignment_id s.ledger.reservations)
      (find_assignment a.assignment_id s.ledger.store.assignments)

unfoldable pub report_loop :
    NodeReport → Option ℕ → Reported → List AllocationReport → Result CoordinatorError Reported
report_loop report previous s [] = ok s
report_loop report previous s (a ∷ rest) =
    report_step report previous s a >>= λ next. report_loop report previous next rest

-- the rows that a complete report names
abbrev pub is_outstanding : String → Bool → Reservation → Bool
is_outstanding node_id replayable r =
    r.node_id == node_id
    && is_held r.phase
    && (replayable || ltb 0 r.lease_sequence || r.phase == RemotePhase.prepared)

abbrev pub missing_row : Reservation → Reservation
missing_row r = record r { phase = RemotePhase.uncertain; observed = none }

unfoldable pub miss : Reported → List String → Reported
miss s [] = s
miss s (id ∷ ids) =
    miss
      (record s {
        ledger = record s.ledger {
          reservations = update_reservation id missing_row s.ledger.reservations;
          fences = set_insert id s.ledger.fences;
        };
        unknown = s.unknown ++ (id ∷ []);
      })
      ids

-- the loop over the allocations that the report omits
unfoldable pub report_missing : String → Bool → Reported → Reported
report_missing node_id replayable s = miss s (
    filter (λ id. not (contains s.seen id))
      (map (λ r. r.assignment_id)
        (filter (is_outstanding node_id replayable) s.ledger.reservations)))

abbrev pub orphaned_ids : Ledger → String → List String
orphaned_ids l node_id = map (λ a. a.assignment_id) (unrecognized_of l node_id)
