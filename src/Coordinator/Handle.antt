-- ===== src/Coordinator/Handle.antt =====
-- src/coordinator.rs, `handle_at` and `open`: every request, and the start of a coordinator on the
-- ledger that an earlier one left.
use cede_grid.Common.{
  ℕ, ◌+◌, String, true, false, ◌&&◌, not, none, List, [], ◌∷◌, map, ltb, leb, i64_max, set_insert,
  if◌then◌else◌, Result, ok, err, ensure, ◌>>◌, ◌==◌, String_eq,
}
use cede_grid.Protocol.{
  Principal, CoordinatorConfig, Request, Response, RemotePhase, RemotePhase_eq,
}
use cede_grid.Store.Tables.{is_replayable}
use cede_grid.Coordinator.Tables.{CoordinatorError, Ledger, Services, Reservation, is_held}
use cede_grid.Coordinator.Outcome.{Outcome, commit, after, require}
use cede_grid.Coordinator.Expire.{advance_clock, uncertain_row}
use cede_grid.Coordinator.Session.{
  require_node, require_operator, validate_node_session, open_replay_session,
}
use cede_grid.Coordinator.Lookup.{authorize_assignment}
use cede_grid.Coordinator.Failure.{record_failure}
use cede_grid.Coordinator.Heartbeat.{heartbeat}
use cede_grid.Coordinator.Accept.{accept}
use cede_grid.Coordinator.Submit.{submit_job}
use cede_grid.Coordinator.Grant.{grant}
use cede_grid.Coordinator.Command.{put_pool, retry, cancel, drain_node, prepare, renew}

-- An outcome whose value becomes a response.
abbrev pub respond : {A : Type 0} → (A → Response) → Outcome A → Outcome Response
respond f (l, err e) = (l, err e)
respond f (l, ok a) = (l, ok (f a))

-- One transaction that gives no value.
abbrev pub change : Ledger → Result CoordinatorError Ledger → Outcome Response
change l (err e) = (l, err e)
change l (ok next) = (next, ok Response.done)

-- The request once its session was checked and the clock advanced.
unfoldable pub dispatch :
    Services → CoordinatorConfig → Principal → ℕ → Ledger → Request → Outcome Response
dispatch env config p now l (Request.open_replay_session node_id boot_id session_id) =
    respond Response.replay_recovery (commit l (open_replay_session l node_id boot_id session_id))
dispatch env config p now l (Request.node_session session_id request) =
    (l, err CoordinatorError.nested_session)
dispatch env config p now l (Request.put_pool pool) =
    change l (require_operator p >> put_pool l pool)
dispatch env config p now l (Request.submit job) =
    change l (require_operator p >> submit_job env config l job now)
dispatch env config p now l (Request.retry task_id confirmed) =
    change l (require_operator p >> retry env l task_id confirmed)
dispatch env config p now l (Request.cancel job_id) =
    change l (require_operator p >> cancel l job_id)
dispatch env config p now l (Request.drain_node node_id drain) =
    change l (require_operator p >> drain_node l node_id drain)
dispatch env config p now l (Request.heartbeat report) =
    require l (require_node p report.node_id)
      (λ _. respond Response.heartbeat (heartbeat env config l report now))
dispatch env config p now l (Request.prepared id generation epoch entry) =
    require l (prepare l p id generation epoch entry)
      (λ next. respond Response.lease (commit next (grant config next id generation none now)))
dispatch env config p now l (Request.renew id generation epoch previous) =
    respond Response.lease (commit l (renew config l p id generation epoch previous now))
dispatch env config p now l (Request.complete submission) =
    respond Response.receipt (commit l (accept env l p submission false))
dispatch env config p now l (Request.publish_checkpoint submission) =
    respond Response.receipt (commit l (accept env l p submission true))
dispatch env config p now l (Request.fail id generation detail kind) =
    change l
      (authorize_assignment l p id generation >> record_failure config l id generation kind now)

-- `handle_at`
unfoldable pub handle_at :
    Services → CoordinatorConfig → Ledger → Principal → Request → ℕ → Outcome Response
handle_at env config l p request now =
    require l (validate_node_session env l p request) (λ unwrapped.
      after (advance_clock l now) (λ _ next. dispatch env config p now next unwrapped))

-- the drains of a ledger that a coordinator opens
unfoldable pub keep_drains : List Reservation → List String → List String
keep_drains [] drains = drains
keep_drains (r ∷ rest) drains =
    keep_drains rest
      (if r.phase == RemotePhase.draining then set_insert r.assignment_id drains else drains)

-- `UPDATE reservations SET phase='uncertain' … WHERE phase!='released'`
abbrev pub doubt_held : Reservation → Reservation
doubt_held r = if is_held r.phase then uncertain_row r else r

abbrev pub doubt_reservations : List Reservation → List Reservation
doubt_reservations = map doubt_held

-- the checks of `open` on its configuration
unfoldable pub check_config : CoordinatorConfig → Result CoordinatorError (Unit {0})
check_config config = do
  ensure (ltb 0 config.lease_ms && ltb 0 config.telemetry_ttl_ms) CoordinatorError.invalid_periods
  ensure
      (ltb 0 config.retry_limit
        && ltb 0 config.retry_backoff_ms
        && leb config.retry_backoff_ms config.retry_backoff_max_ms
        && ltb 0 config.yield_retry_backoff_ms
        && leb config.yield_retry_backoff_ms config.yield_retry_backoff_max_ms)
      CoordinatorError.invalid_retry_policy

-- `open`, on the tables of the database
unfoldable pub restart : CoordinatorConfig → Ledger → Result CoordinatorError Ledger
restart config l = do
  ensure (not (is_replayable l.store.profile)) CoordinatorError.replayable_profile
  check_config config
  ensure (ltb l.epoch i64_max) CoordinatorError.epoch_exhausted
  ok (record l {
    epoch = l.epoch + 1;
    drain_requests = keep_drains l.reservations l.drain_requests;
    reservations = doubt_reservations l.reservations;
  })
