-- ===== src/Coordinator/Steps/Handled.antt =====
-- src/coordinator.rs, `handle_at` and `open`: every request and every start, and any sequence of them.
use cede_grid.Common.{
  ℕ, ◌+◌, String, Bool, true, false, ◌&&◌, not, none, some, List, ◌==◌, String_eq, ◌≡◌, refl, arith,
  ltb, nat_eq, i64_max, contains, Bool-cases, inl, inr, ok, err, Result, >>=-eq-ok, ensure-eq-ok,
  ok-injective, subst, ap, sym, ◌∙◌, ◌>>◌,
}
use cede_grid.Protocol.{
  Principal, CoordinatorConfig, Request, Response, RemotePhase_eq, Lease, HeartbeatReply,
  ResultSubmission,
}
use cede_grid.Store.Tables.{Store, AssignmentRow, is_replayable, find_assignment}
use cede_grid.Coordinator.Tables.{
  CoordinatorError, Ledger, Services, Reservation, find_reservation, is_held, is_live,
}
use cede_grid.Coordinator.Outcome.{Outcome, commit, after, require}
use cede_grid.Coordinator.Expire.{advance_clock}
use cede_grid.Coordinator.Lookup.{authorize_assignment}
use cede_grid.Coordinator.Session.{
  require_node, require_operator, validate_node_session, check_wrapped, check_unwrapped,
  check_opening, open_replay_session,
}
use cede_grid.Coordinator.Failure.{record_failure}
use cede_grid.Coordinator.Heartbeat.{heartbeat}
use cede_grid.Coordinator.Accept.{accept}
use cede_grid.Coordinator.Submit.{submit_job}
use cede_grid.Coordinator.Grant.{grant}
use cede_grid.Coordinator.Command.{put_pool, retry, cancel, drain_node, prepare, renew}
use cede_grid.Coordinator.Handle.{
  handle_at, dispatch, restart, respond, change, doubt_held, doubt_reservations, check_config,
}
use cede_grid.Coordinator.Steps.{Step, Reach}
use cede_grid.Coordinator.Steps.Rows.{
  Allows, Follows, Follows-refl, Followed, Keeps, IsKeyed, Keeps-map, IsKeyed-map, Settled,
  Settled-map, find-map, nothing,
}
use cede_grid.Coordinator.Steps.Change.{
  Change, Change-refl, Change-trans, Change-weaken, Change-widen, require-Change, commit-Change,
  IsSound,
}
use cede_grid.Coordinator.Steps.Grant.{grant-Change}
use cede_grid.Coordinator.Steps.Expire.{advance_clock-Change}
use cede_grid.Coordinator.Steps.Session.{open_replay_session-Change}
use cede_grid.Coordinator.Steps.Rest.{
  Same, Same-Change, record_failure-Same, accept-Same, submit_job-Same, put_pool-Same, retry-Same,
  cancel-Same, drain_node-Same, prepare-Same,
}
use cede_grid.Coordinator.Steps.Report.{reports_release, May}
use cede_grid.Coordinator.Steps.Release.{heartbeat-Change}

abbrev pub acts_as : Principal → String → Bool
acts_as Principal.operator node_id = false
acts_as (Principal.node id) node_id = id == node_id

-- What a request may release: the report of a node that the principal is, as far as it names the
-- allocation as released; a wrapped request as the one it wraps; any other request nothing.
abbrev pub releases : List AssignmentRow → Principal → Request → Allows
releases assignments p (Request.heartbeat report) id node_id =
    acts_as p report.node_id && reports_release assignments report id node_id
releases assignments p (Request.node_session session_id request) id node_id =
    releases assignments p request id node_id
releases assignments p _ id node_id = false

respond-Change :
    {A : Type 0} (may : Allows) (l : Ledger) (f : A → Response) (o : Outcome A)
    → Change may l o.0
    → Change may l (respond f o).0
respond-Change may l f (m, err e) c = c
respond-Change may l f (m, ok a) c = c

-- A transaction behind a check, which leaves the reservations alone.
checked-Change :
    (l : Ledger) (check : Result CoordinatorError (Unit {0}))
    (rest : Result CoordinatorError Ledger)
    → ((m : Ledger) → rest ≡ ok m → Same l m)
    → Change nothing l (change l (check >> rest)).0
checked-Change l (err e) rest s = Change-refl nothing l
checked-Change l (ok tt) rest s = at rest s
  where
    at :
        (r : Result CoordinatorError Ledger)
        → ((m : Ledger) → r ≡ ok m → Same l m)
        → Change nothing l (change l r).0
    at (err e) s = Change-refl nothing l
    at (ok m) s = Same-Change l m (s m refl)

renew-Change :
    (config : CoordinatorConfig) (l : Ledger) (p : Principal) (id : String)
    (generation epoch previous now : ℕ) (a : Lease) (m : Ledger)
    → renew config l p id generation epoch previous now ≡ ok (a, m)
    → Change nothing l m
unfolding renew
renew-Change config l p id generation epoch previous now a m h =
    let (x, e1, h1) = >>=-eq-ok (authorize_assignment l p id generation) _ h in
    let (b, h2) =
      ensure-eq-ok (nat_eq epoch l.epoch) CoordinatorError.stale_epoch
        (grant config l id generation (some previous) now) h1 in
    grant-Change config l id generation (some previous) now h2

accept-Change :
    (env : Services) (l : Ledger) (p : Principal) (s : ResultSubmission) (checkpoint : Bool)
    → Change nothing l (commit l (accept env l p s checkpoint)).0
accept-Change env l p s checkpoint =
    commit-Change nothing l (accept env l p s checkpoint)
      (λ a m e. Same-Change l m (accept-Same env l p s checkpoint e))

require_node-acts_as :
    (p : Principal) (node_id : String) → require_node p node_id ≡ ok tt → acts_as p node_id ≡ true
unfolding require_node
require_node-acts_as Principal.operator node_id h = cc
require_node-acts_as (Principal.node id) node_id h = ground (arith, h)

module _ (env : Services) (config : CoordinatorConfig) (p : Principal) (now : ℕ) where
  -- What a request may release, by the attempts of the ledger that it leaves.
  abbrev Released : Ledger → Request → Allows
  Released l request = releases (dispatch env config p now l request).0.store.assignments p request

  dispatch-Change :
      (l : Ledger) (request : Request)
      → Change (Released l request) l (dispatch env config p now l request).0
  unfolding dispatch
  dispatch-Change l (Request.open_replay_session node_id boot_id session_id) = Change-weaken _ l _ (
      respond-Change nothing l Response.replay_recovery _ (
        commit-Change nothing l (open_replay_session l node_id boot_id session_id)
          (λ a m e. open_replay_session-Change l node_id boot_id session_id e)))
  dispatch-Change l (Request.node_session session_id request) = Change-refl _ l
  dispatch-Change l (Request.put_pool pool) =
      Change-weaken _ l _
        (checked-Change l (require_operator p) (put_pool l pool) (λ m e. put_pool-Same l pool e))
  dispatch-Change l (Request.submit job) = Change-weaken _ l _ (
      checked-Change l (require_operator p) (submit_job env config l job now)
        (λ m e. submit_job-Same env config l job now e))
  dispatch-Change l (Request.retry task_id confirmed) = Change-weaken _ l _ (
      checked-Change l (require_operator p) (retry env l task_id confirmed)
        (λ m e. retry-Same env l task_id confirmed e))
  dispatch-Change l (Request.cancel job_id) =
      Change-weaken _ l _
        (checked-Change l (require_operator p) (cancel l job_id) (λ m e. cancel-Same l job_id e))
  dispatch-Change l (Request.drain_node node_id drain) = Change-weaken _ l _ (
      checked-Change l (require_operator p) (drain_node l node_id drain)
        (λ m e. drain_node-Same l node_id drain e))
  dispatch-Change l (Request.heartbeat report) = reported (require_node p report.node_id) refl
    where
      reported :
          (r : Result CoordinatorError (Unit {0}))
          → require_node p report.node_id ≡ r
          → Change
              (releases
                (require l r (λ _.
                  respond Response.heartbeat
                    (heartbeat env config l report now))).0.store.assignments
                p
                (Request.heartbeat report))
              l
              (require l r (λ _. respond Response.heartbeat (heartbeat env config l report now))).0
      reported (err e) h = Change-refl _ l
      reported (ok tt) h =
          answered (heartbeat env config l report now) (heartbeat-Change env config l report now)
        where
          answered :
              (o : Outcome HeartbeatReply)
              → Change (May report o.0) l o.0
              → Change
                  (releases
                    (respond Response.heartbeat o).0.store.assignments
                    p
                    (Request.heartbeat report))
                  l
                  (respond Response.heartbeat o).0
          answered (m, err e) c =
              Change-widen (May report m) _ l m
                (λ id n g. ground (arith, require_node-acts_as p report.node_id h, g)) c
          answered (m, ok a) c =
              Change-widen (May report m) _ l m
                (λ id n g. ground (arith, require_node-acts_as p report.node_id h, g)) c
  dispatch-Change l (Request.prepared id generation epoch entry) = Change-weaken _ l _ (
      require-Change nothing l (prepare l p id generation epoch entry) _ (λ next e.
        respond-Change nothing l Response.lease _ (
          Change-trans nothing l next _
            (Same-Change l next (prepare-Same l p id generation epoch entry e))
            (commit-Change nothing next (grant config next id generation none now)
              (λ a m g. grant-Change config next id generation none now g)))))
  dispatch-Change l (Request.renew id generation epoch previous) = Change-weaken _ l _ (
      respond-Change nothing l Response.lease _ (
        commit-Change nothing l (renew config l p id generation epoch previous now)
          (λ a m e. renew-Change config l p id generation epoch previous now a m e)))
  dispatch-Change l (Request.complete submission) =
      Change-weaken _ l _
        (respond-Change nothing l Response.receipt _ (accept-Change env l p submission false))
  dispatch-Change l (Request.publish_checkpoint submission) =
      Change-weaken _ l _
        (respond-Change nothing l Response.receipt _ (accept-Change env l p submission true))
  dispatch-Change l (Request.fail id generation detail kind) = Change-weaken _ l _ (
      checked-Change l (authorize_assignment l p id generation)
        (record_failure config l id generation kind now)
        (λ m e. record_failure-Same config l id generation kind now e))

plain-releases :
    (l : Ledger) (p : Principal) (request : Request) (assignments : List AssignmentRow)
    {unwrapped : Request}
    → (check_unwrapped l p >> ok request) ≡ ok unwrapped
    → releases assignments p unwrapped ≡ releases assignments p request
plain-releases l p request assignments h =
    let (x, c, e) = >>=-eq-ok (check_unwrapped l p) (λ _. ok request) h in
    ap (releases assignments p) (ok-injective (sym e))

-- The request that is carried out may release what the request that came may.
validated-releases :
    (env : Services) (l : Ledger) (p : Principal) (request : Request) {unwrapped : Request}
    (assignments : List AssignmentRow)
    → validate_node_session env l p request ≡ ok unwrapped
    → releases assignments p unwrapped ≡ releases assignments p request
unfolding validate_node_session
validated-releases env l p (Request.open_replay_session node_id boot_id session_id) assignments h =
    let (x, c, e) = >>=-eq-ok (check_opening env l p node_id boot_id session_id) _ h in
    ap (releases assignments p) (ok-injective (sym e))
validated-releases env l p (Request.node_session session_id request) assignments h =
    let (x, c, e) = >>=-eq-ok (check_wrapped l p session_id request) _ h in
    ap (releases assignments p) (ok-injective (sym e))
validated-releases env l p (Request.put_pool pool) assignments h =
    plain-releases l p _ assignments h
validated-releases env l p (Request.submit job) assignments h = plain-releases l p _ assignments h
validated-releases env l p (Request.retry task_id confirmed) assignments h =
    plain-releases l p _ assignments h
validated-releases env l p (Request.cancel job_id) assignments h =
    plain-releases l p _ assignments h
validated-releases env l p (Request.drain_node node_id drain) assignments h =
    plain-releases l p _ assignments h
validated-releases env l p (Request.heartbeat report) assignments h =
    plain-releases l p _ assignments h
validated-releases env l p (Request.prepared id generation epoch entry) assignments h =
    plain-releases l p _ assignments h
validated-releases env l p (Request.renew id generation epoch previous) assignments h =
    plain-releases l p _ assignments h
validated-releases env l p (Request.complete submission) assignments h =
    plain-releases l p _ assignments h
validated-releases env l p (Request.publish_checkpoint submission) assignments h =
    plain-releases l p _ assignments h
validated-releases env l p (Request.fail id generation detail kind) assignments h =
    plain-releases l p _ assignments h

pub handle_at-Change :
    (env : Services) (config : CoordinatorConfig) (l : Ledger) (p : Principal) (request : Request)
    (now : ℕ)
    → Change
        (releases (handle_at env config l p request now).0.store.assignments p request)
        l
        (handle_at env config l p request now).0
unfolding handle_at
handle_at-Change env config l p request now = validated (validate_node_session env l p request) refl
  where
    clocked :
        (unwrapped : Request) (o : Outcome (Unit {0}))
        → validate_node_session env l p request ≡ ok unwrapped
        → Change nothing l o.0
        → Change
            (releases
              (after o (λ _ next. dispatch env config p now next unwrapped)).0.store.assignments
              p
              request)
            l
            (after o (λ _ next. dispatch env config p now next unwrapped)).0
    clocked unwrapped (m, err e) v c = Change-weaken _ l m c
    clocked unwrapped (m, ok tt) v c =
        let l' = (dispatch env config p now m unwrapped).0 in
        subst (λ may. Change may l l') (validated-releases env l p request l'.store.assignments v)
          (Change-trans _ l m l' (Change-weaken _ l m c)
            (dispatch-Change env config p now m unwrapped))

    validated :
        (r : Result CoordinatorError Request)
        → validate_node_session env l p request ≡ r
        → Change
            (releases
              (require l r (λ unwrapped.
                after
                  (advance_clock l now)
                  (λ _ next. dispatch env config p now next unwrapped))).0.store.assignments
              p
              request)
            l
            (require l r (λ unwrapped.
              after (advance_clock l now) (λ _ next. dispatch env config p now next unwrapped))).0
    validated (err e) h = Change-refl _ l
    validated (ok unwrapped) h =
        clocked unwrapped (advance_clock l now) h (advance_clock-Change l now)

doubt_held-Follows : (id : String) (r : Reservation) → Follows nothing id r (doubt_held r)
doubt_held-Follows id r = elim (Bool-cases (is_held r.phase)) [
  | inl y ↦
      rw y (record { node = refl; resources = refl; sequence = omega arith; held = ground arith })
  | inr n ↦ rw n (Follows-refl nothing id r)
]

doubt_held-key : (r : Reservation) → (doubt_held r).assignment_id ≡ r.assignment_id
doubt_held-key r = ground arith

doubt_held-settled : (r : Reservation) → is_live (doubt_held r).phase ≡ false
doubt_held-settled r = ground arith

-- What a start leaves: each reservation in doubt, and the rest as it was.
pub record IsRestarted (l l' : Ledger) : Type 0 where
  pub reservations : l'.reservations ≡ doubt_reservations l.reservations
  pub fences : l'.fences ≡ l.fences
  pub store : l'.store ≡ l.store
  pub epoch : l'.epoch ≡ l.epoch + 1

pub restart-IsRestarted :
    (config : CoordinatorConfig) (l : Ledger) {l' : Ledger}
    → restart config l ≡ ok l'
    → IsRestarted l l'
unfolding restart
restart-IsRestarted config l h =
    let (a, h1) =
      ensure-eq-ok (not (is_replayable l.store.profile)) CoordinatorError.replayable_profile _ h in
    let (x, c, h2) = >>=-eq-ok (check_config config) _ h1 in
    let (b, h3) = ensure-eq-ok (ltb l.epoch i64_max) CoordinatorError.epoch_exhausted _ h2 in
    let e = ok-injective (sym h3) in
    record {
      reservations = ap (λ (y : Ledger). y.reservations) e;
      fences = ap (λ (y : Ledger). y.fences) e;
      store = ap (λ (y : Ledger). y.store) e;
      epoch = ap (λ (y : Ledger). y.epoch) e;
    }

restart-Change :
    (config : CoordinatorConfig) (l : Ledger) {l' : Ledger}
    → restart config l ≡ ok l'
    → Change nothing l l'
restart-Change config l {l'} h =
    let s = restart-IsRestarted config l h in
    record {
      keeps =
          subst (λ x. Keeps nothing l.reservations x) (sym s.reservations)
            (Keeps-map doubt_held doubt_held-key nothing l.reservations doubt_held-Follows);
      sound = λ v. record {
        keyed =
            subst IsKeyed (sym s.reservations)
              (IsKeyed-map doubt_held doubt_held-key l.reservations v.keyed);
        fenced = λ j f.
            subst (λ x. Settled x j) (sym s.reservations)
              (Settled-map doubt_held doubt_held-key j l.reservations (λ r d. doubt_held-settled r)
                (v.fenced j (subst (λ x. contains x j ≡ true) s.fences f)));
      };
      fences = λ j f. subst (λ x. contains x j ≡ true) (sym s.fences) f;
      assigned =
          λ j a f. subst (λ (x : Store). find_assignment j x.assignments ≡ some a) (sym s.store) f;
    }

Step-IsSound : (env : Services) {l l' : Ledger} → Step env l l' → IsSound l → IsSound l'
Step-IsSound env {l} {l'} (Step.handles config p request now e) v =
    subst IsSound (sym e) ((handle_at-Change env config l p request now).sound v)
Step-IsSound env {l} {l'} (Step.restarts config e) v = (restart-Change config l e).sound v

Step-fences :
    (env : Services) {l l' : Ledger} (id : String)
    → Step env l l'
    → contains l.fences id ≡ true
    → contains l'.fences id ≡ true
Step-fences env {l} {l'} id (Step.handles config p request now e) h =
    subst (λ (x : Ledger). contains x.fences id ≡ true) (sym e)
      ((handle_at-Change env config l p request now).fences id h)
Step-fences env {l} {l'} id (Step.restarts config e) h = (restart-Change config l e).fences id h

Reach-IsSound : (env : Services) {l l' : Ledger} → Reach env l l' → IsSound l → IsSound l'
Reach-IsSound env Reach.here v = v
Reach-IsSound env (Reach.next r s) v = Step-IsSound env s (Reach-IsSound env r v)

Reach-fences :
    (env : Services) {l l' : Ledger} (id : String)
    → Reach env l l'
    → contains l.fences id ≡ true
    → contains l'.fences id ≡ true
Reach-fences env id Reach.here h = h
Reach-fences env id (Reach.next r s) h = Step-fences env id s (Reach-fences env id r h)

-- In a ledger whose reservations are keyed and whose fenced allocations are uncertain or released,
-- an allocation that is fenced is uncertain or released after any sequence of requests, failed ones
-- included, and restarts.
pub Reach-Settled :
    (env : Services) {l l' : Ledger} (id : String)
    → IsSound l
    → Reach env l l'
    → contains l.fences id ≡ true
    → Settled l'.reservations id
Reach-Settled env id v r h = (Reach-IsSound env r v).fenced id (Reach-fences env id r h)

-- A request, whether it succeeds or fails, keeps every reservation with its node and its resources
-- and with a lease sequence that is no lower. One that was held is held afterwards, unless the
-- request is a report of its own node that names it as released at the generation of its attempt.
pub handle_at-Keeps :
    (env : Services) (config : CoordinatorConfig) (l : Ledger) (p : Principal) (request : Request)
    (now : ℕ) (id : String) (r : Reservation)
    → find_reservation id l.reservations ≡ some r
    → Followed
        (releases (handle_at env config l p request now).0.store.assignments p request)
        (handle_at env config l p request now).0.reservations
        id
        r
handle_at-Keeps env config l p request now = (handle_at-Change env config l p request now).keeps

-- A start of the coordinator that succeeds raises the epoch by one, keeps every reservation with its
-- node, its resources and its lease sequence and held if it was, and leaves none of them live.
pub restart-Keeps :
    (config : CoordinatorConfig) (l : Ledger) {l' : Ledger} (id : String) (r : Reservation)
    → restart config l ≡ ok l'
    → find_reservation id l.reservations ≡ some r
    → (l'.epoch ≡ l.epoch + 1)
      × (find_reservation id l'.reservations ≡ some (doubt_held r))
      × (is_live (doubt_held r).phase ≡ false)
      × (is_held (doubt_held r).phase ≡ is_held r.phase)
      × ((doubt_held r).node_id ≡ r.node_id)
      × ((doubt_held r).resources ≡ r.resources)
      × ((doubt_held r).lease_sequence ≡ r.lease_sequence)
restart-Keeps config l id r h f =
    let s = restart-IsRestarted config l h in
    (
      s.epoch,
      ap (find_reservation id) s.reservations
          ∙ (find-map doubt_held doubt_held-key id l.reservations ∙ rw f),
      doubt_held-settled r,
      ground arith,
      ground arith,
      ground arith,
      ground arith,
    )
