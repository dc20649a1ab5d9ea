-- ===== src/Coordinator/Session.antt =====
-- src/coordinator.rs, `validate_node_session` and `open_replay_session`: a replayable node acts
-- through its current session, and a new session fences what the node held.
use cede_grid.Common.{
  String, Bool, true, false, ◌&&◌, ◌||◌, not, Option, none, some, List, [], ◌∷◌, ◌++◌, map, ◌==◌,
  String_eq, Pair_eq, contains, filter, is_some, is_blank, set_insert, if◌then◌else◌, Ordering,
  compare, Result, ok, err, ensure, context, ◌>>=◌, ◌>>◌,
}
use cede_grid.Execution.{ExecutionRecord}
use cede_grid.Protocol.{
  Principal, Request, ReplayRecoveryAllocation, ReplayRecoverySnapshot, AllocationReport,
  ResultSubmission,
}
use cede_grid.Store.Tables.{TaskRow, TaskStatus, is_completed, find_assignment}
use cede_grid.Store.Children.{valid_id}
use cede_grid.Coordinator.Tables.{
  CoordinatorError, Ledger, Services, Reservation, SessionRow, UnrecognizedRow, CheckpointRow,
  find_session, find_spec, find_node, find_preparation, find_checkpoint, is_held, put_row,
}
use cede_grid.Coordinator.Expire.{uncertain_row}

-- `node`
unfoldable pub require_node : Principal → String → Result CoordinatorError (Unit {0})
require_node Principal.operator id = err CoordinatorError.node_unauthorized
require_node (Principal.node node_id) id = ensure (node_id == id) CoordinatorError.node_unauthorized

-- `operator`
unfoldable pub require_operator : Principal → Result CoordinatorError (Unit {0})
require_operator Principal.operator = ok tt
require_operator (Principal.node node_id) = err CoordinatorError.operator_required

abbrev pub check_id : String → Result CoordinatorError (Unit {0})
check_id id = ensure (valid_id id) CoordinatorError.invalid_id

-- the branch of `validate_node_session` on a session that opens
unfoldable pub check_opening :
    Services → Ledger → Principal → String → String → String → Result CoordinatorError (Unit {0})
check_opening env l p node_id boot_id session_id = do
  require_node p node_id
  check_id node_id
  ensure (not (is_blank boot_id)) CoordinatorError.blank_boot
  is_nil ← context (env.uuid_is_nil session_id) CoordinatorError.invalid_session
  ensure (not is_nil) CoordinatorError.nil_session
  ensure (not (contains l.retired_sessions (node_id, session_id))) CoordinatorError.retired_session

-- the branch on a wrapped request: what it is, and whether it may run before the recovery
abbrev pub is_session_request : Request → Bool
is_session_request (Request.node_session session_id request) = true
is_session_request (Request.open_replay_session node_id boot_id session_id) = true
is_session_request _ = false

abbrev pub is_heartbeat : Request → Bool
is_heartbeat (Request.heartbeat report) = true
is_heartbeat _ = false

unfoldable pub check_boot : Principal → SessionRow → Request → Result CoordinatorError (Unit {0})
check_boot p s (Request.heartbeat report) =
    require_node p report.node_id
    >> ensure (report.boot_id == s.boot_id) CoordinatorError.session_boot
check_boot p s _ = ok tt

unfoldable pub check_wrapped :
    Ledger → Principal → String → Request → Result CoordinatorError (Unit {0})
unfolding check_boot
check_wrapped l Principal.operator session_id request = err CoordinatorError.node_required
check_wrapped l (Principal.node node_id) session_id request = do
  ensure (not (is_session_request request)) CoordinatorError.nested_session
  s ← context (find_session node_id l.sessions) CoordinatorError.no_session
  ensure (session_id == s.session_id) CoordinatorError.stale_session
  ensure (s.ready || is_heartbeat request) CoordinatorError.recovery_required
  check_boot (Principal.node node_id) s request

-- the branch on any other request
unfoldable pub check_unwrapped : Ledger → Principal → Result CoordinatorError (Unit {0})
check_unwrapped l Principal.operator = ok tt
check_unwrapped l (Principal.node node_id) =
    ensure (not (is_some (find_session node_id l.sessions)))
      CoordinatorError.session_wrapper_required

-- `validate_node_session`: the request that is carried out
unfoldable pub validate_node_session :
    Services → Ledger → Principal → Request → Result CoordinatorError Request
validate_node_session env l p (Request.open_replay_session node_id boot_id session_id) =
    check_opening env l p node_id boot_id session_id
    >> ok (Request.open_replay_session node_id boot_id session_id)
validate_node_session env l p (Request.node_session session_id request) =
    check_wrapped l p session_id request >> ok request
validate_node_session env l p request = check_unwrapped l p >> ok request

-- the reservations of a node that are not released
abbrev pub is_retained : String → Reservation → Bool
is_retained node_id r = r.node_id == node_id && is_held r.phase

abbrev pub retained : Ledger → String → List String
retained l node_id = map (λ r. r.assignment_id) (filter (is_retained node_id) l.reservations)

-- `UPDATE tasks … WHERE status!='completed' AND assignment_id IN (…)`
unfoldable pub requeue_task : List String → TaskRow → TaskRow
requeue_task ids t = elim t.assignment_id [
  | none ↦ t
  | some id ↦
      if not (is_completed t.status) && contains ids id
      then record t {
        status = if t.replay_safe then TaskStatus.queued else TaskStatus.needs_reconciliation;
      }
      else t
]

-- `UPDATE reservations … WHERE node_id=?1 AND phase!='released'`
abbrev pub fence_retained : String → Reservation → Reservation
fence_retained node_id r = if is_retained node_id r then uncertain_row r else r

abbrev pub fence_reservations : String → List Reservation → List Reservation
fence_reservations node_id = map (fence_retained node_id)

-- `INSERT OR IGNORE INTO allocation_fences … SELECT`
unfoldable pub add_fences : List String → List String → List String
add_fences [] fences = fences
add_fences (id ∷ ids) fences = add_fences ids (set_insert id fences)

abbrev retire : Option SessionRow → List (String × String) → List (String × String)
retire none retired = retired
retire (some s) retired = retired ++ ((s.node_id, s.session_id) ∷ [])

-- the replacement of a session. The schema is 3 since the coordinator opened, so the write of it
-- changes nothing.
unfoldable pub replace_session : Ledger → String → String → String → Option SessionRow → Ledger
replace_session l node_id boot_id session_id old =
    let row : SessionRow = record {
      node_id = node_id;
      session_id = session_id;
      boot_id = boot_id;
      ready = false;
    } in
    let held = retained l node_id in
    record l {
      retired_sessions = retire old l.retired_sessions;
      sessions = put_row (λ (s : SessionRow). s.node_id) row (λ _. row) l.sessions;
      store = record l.store { tasks = map (requeue_task held) l.store.tasks };
      reservations = fence_reservations node_id l.reservations;
      fences = add_fences held l.fences;
    }

abbrev boot_of : Option ExecutionRecord → Option String
boot_of none = none
boot_of (some e) = elim e.identity [ none ↦ none | some i ↦ some i.boot_id ]

abbrev pub submission_of : Option CheckpointRow → Option ResultSubmission
submission_of none = none
submission_of (some c) = some c.submission

abbrev node_boot : Ledger → String → Option String
node_boot l node_id = elim (find_node node_id l.nodes) [
  | none ↦ none
  | some n ↦ some n.report.boot_id
]

-- one row of the snapshot, with its joins; a row without its attempt or its task is none
unfoldable pub recovery_row :
    Ledger → String → Reservation → List ReplayRecoveryAllocation → List ReplayRecoveryAllocation
recovery_row l node_id r more = elim (find_assignment r.assignment_id l.store.assignments) [
  | none ↦ more
  | some a ↦ elim (find_spec a.task_id l.task_specs) [
    | none ↦ more
    | some s ↦
        let prepared = find_preparation r.assignment_id l.preparations in
        record {
          assignment = record {
            node_id = node_id;
            generation = a.generation;
            coordinator_epoch = l.epoch;
            request = record s.request { assignment_id = r.assignment_id };
            checkpoint = submission_of (find_checkpoint a.task_id l.checkpoints);
          };
          prepared = prepared;
          previous_boot_id = elim (boot_of prepared) [
            | some boot ↦ some boot
            | none ↦ node_boot l node_id
          ];
          lease_sequence = r.lease_sequence;
        }
        ∷ more
  ]
]

-- `ORDER BY r.assignment_id`: insertion into the rows that are sorted already
insert_by_id : Reservation → List Reservation → List Reservation
insert_by_id r [] = r ∷ []
insert_by_id r (x ∷ rest) = elim (compare r.assignment_id x.assignment_id) [
  | Ordering.gt ↦ x ∷ insert_by_id r rest
  | _ ↦ r ∷ x ∷ rest
]

unfoldable pub sort_by_id : List Reservation → List Reservation
unfolding insert_by_id
sort_by_id [] = []
sort_by_id (r ∷ rest) = insert_by_id r (sort_by_id rest)

unfoldable pub recovery_rows : Ledger → String → List Reservation → List ReplayRecoveryAllocation
recovery_rows l node_id [] = []
recovery_rows l node_id (r ∷ rest) = recovery_row l node_id r (recovery_rows l node_id rest)

insert_report : UnrecognizedRow → List UnrecognizedRow → List UnrecognizedRow
insert_report u [] = u ∷ []
insert_report u (x ∷ rest) = elim (compare u.report.assignment_id x.report.assignment_id) [
  | Ordering.gt ↦ x ∷ insert_report u rest
  | _ ↦ u ∷ x ∷ rest
]

sort_reports : List UnrecognizedRow → List UnrecognizedRow
unfolding insert_report
sort_reports [] = []
sort_reports (u ∷ rest) = insert_report u (sort_reports rest)

-- the unrecognized allocations of a node, in the order of their IDs
unfoldable pub unrecognized_of : Ledger → String → List AllocationReport
unfolding sort_reports
unrecognized_of l node_id =
    map (λ u. u.report) (sort_reports (filter (λ u. u.node_id == node_id) l.unrecognized))

-- the response of `open_replay_session`
unfoldable pub snapshot : Ledger → String → String → ReplayRecoverySnapshot
unfolding sort_by_id unrecognized_of
snapshot l node_id session_id = record {
  session_id = session_id;
  coordinator_epoch = l.epoch;
  allocations = recovery_rows l node_id (sort_by_id (filter (is_retained node_id) l.reservations));
  unrecognized = unrecognized_of l node_id;
}

-- the session row: kept where the same session opens again, else replaced
unfoldable pub renew_session :
    Ledger → String → String → String → Option SessionRow → Result CoordinatorError Ledger
renew_session l node_id boot_id session_id none =
    ok (replace_session l node_id boot_id session_id none)
renew_session l node_id boot_id session_id (some s) =
    if s.session_id == session_id
    then ensure (s.boot_id == boot_id) CoordinatorError.session_boot_changed >> ok l
    else (ensure (not (contains l.retired_sessions (node_id, s.session_id)))
          CoordinatorError.constraint_failed
        >> ok (replace_session l node_id boot_id session_id (some s)))

-- `open_replay_session`
unfoldable pub open_replay_session :
    Ledger → String → String → String → Result CoordinatorError (ReplayRecoverySnapshot × Ledger)
open_replay_session l node_id boot_id session_id = do
  next ← renew_session l node_id boot_id session_id (find_session node_id l.sessions)
  ok (snapshot next node_id session_id, next)
