-- ===== src/Coordinator/Steps/Refused.antt =====
-- src/coordinator.rs, `validate_node_session` and `advance_clock`: the requests that are turned away
-- before anything is written.
use cede_grid.Common.{
  Option, Bool, ◌∙◌, ℕ, ◌≤◌, String, true, false, ◌||◌, not, none, some, ◌==◌, String_eq, ◌≡◌, refl,
  sym, ◌⊎◌, ap, subst, arith, leb, contains, Pair_eq, Bool-cases, inl, inr, Result, ok, err,
  context, ◌>>◌, >>=-eq-ok, ensure-eq-ok, context-eq-ok, eq_iff, is_some, is_blank,
}
use cede_grid.Store.Children.{valid_id}
use cede_grid.Protocol.{NodeReport, Principal, CoordinatorConfig, Request, Response}
use cede_grid.Coordinator.Tables.{CoordinatorError, Ledger, Services, SessionRow, find_session}
use cede_grid.Coordinator.Outcome.{Outcome}
use cede_grid.Coordinator.Expire.{advance_clock}
use cede_grid.Coordinator.Session.{
  validate_node_session, check_opening, check_wrapped, check_unwrapped, is_session_request,
  is_heartbeat, require_node, check_id, check_boot,
}
use cede_grid.Coordinator.Handle.{handle_at}

-- A heartbeat in a session is of the node and of the boot of the session.
pub data IsOfBoot (node_id : String) (s : SessionRow) : Request → Type 0 where
  beats :
      {report : NodeReport}
      → report.node_id ≡ node_id
      → report.boot_id ≡ s.boot_id
      → IsOfBoot node_id s (Request.heartbeat report)
  others : {request : Request} → is_heartbeat request ≡ false → IsOfBoot node_id s request

-- The sessions in which a request may come, whatever it then asks: the operator and the nodes without
-- a session send it as it is; a node with a session sends it in that session, which is ready unless
-- the request is a heartbeat; and a node opens a session for itself, of a boot that is named and under
-- an identifier that is not nil and was never replaced.
pub data Admits (env : Services) (l : Ledger) : Principal → Request → Type 0 where
  by_operator :
      {request : Request}
      → is_session_request request ≡ false
      → Admits env l Principal.operator request
  by_node :
      {node_id : String} {request : Request}
      → is_session_request request ≡ false
      → find_session node_id l.sessions ≡ none
      → Admits env l (Principal.node node_id) request
  in_session :
      {node_id : String} {request : Request} (s : SessionRow)
      → find_session node_id l.sessions ≡ some s
      → is_session_request request ≡ false
      → (s.ready || is_heartbeat request) ≡ true
      → IsOfBoot node_id s request
      → Admits env l (Principal.node node_id) (Request.node_session s.session_id request)
  opens :
      {node_id boot_id session_id : String}
      → valid_id node_id ≡ true
      → is_blank boot_id ≡ false
      → env.uuid_is_nil session_id ≡ some false
      → contains l.retired_sessions (node_id, session_id) ≡ false
      → Admits env l
          (Principal.node node_id)
          (Request.open_replay_session node_id boot_id session_id)

unwrapped-Admits :
    (env : Services) (l : Ledger) (p : Principal) (request : Request) {out : Request}
    → is_session_request request ≡ false
    → (check_unwrapped l p >> ok request) ≡ ok out
    → Admits env l p request
unfolding check_unwrapped
unwrapped-Admits env l Principal.operator request q h = by_operator q
unwrapped-Admits env l (Principal.node id) request q h =
    let (b, h1) =
      ensure-eq-ok (not (is_some (find_session id l.sessions)))
        CoordinatorError.session_wrapper_required (ok request) h in
    by_node q (ground (arith, b))

check_boot-IsOfBoot :
    (node_id : String) (s : SessionRow) (request : Request)
    → check_boot (Principal.node node_id) s request ≡ ok tt
    → IsOfBoot node_id s request
unfolding check_boot require_node
check_boot-IsOfBoot node_id s (Request.heartbeat report) h =
    let (a, h1) = ensure-eq-ok (node_id == report.node_id) CoordinatorError.node_unauthorized _ h in
    beats (sym ((eq_iff node_id report.node_id).0 a))
      (ground (arith, h1, eq_iff report.boot_id s.boot_id))
check_boot-IsOfBoot node_id s (Request.put_pool x) h = others refl
check_boot-IsOfBoot node_id s (Request.submit x) h = others refl
check_boot-IsOfBoot node_id s (Request.retry x y) h = others refl
check_boot-IsOfBoot node_id s (Request.cancel x) h = others refl
check_boot-IsOfBoot node_id s (Request.drain_node x y) h = others refl
check_boot-IsOfBoot node_id s (Request.prepared x y z w) h = others refl
check_boot-IsOfBoot node_id s (Request.renew x y z w) h = others refl
check_boot-IsOfBoot node_id s (Request.complete x) h = others refl
check_boot-IsOfBoot node_id s (Request.fail x y z w) h = others refl
check_boot-IsOfBoot node_id s (Request.publish_checkpoint x) h = others refl
check_boot-IsOfBoot node_id s (Request.node_session x y) h = others refl
check_boot-IsOfBoot node_id s (Request.open_replay_session x y z) h = others refl

wrapped-Admits :
    (env : Services) (l : Ledger) (p : Principal) (session_id : String) (request : Request)
    {out : Request}
    → (check_wrapped l p session_id request >> ok request) ≡ ok out
    → Admits env l p (Request.node_session session_id request)
unfolding check_wrapped
wrapped-Admits env l Principal.operator session_id request h = cc
wrapped-Admits env l (Principal.node id) session_id request h =
    let (x, e, _) = >>=-eq-ok (check_wrapped l (Principal.node id) session_id request) _ h in
    let (a, h1) =
      ensure-eq-ok (not (is_session_request request)) CoordinatorError.nested_session _ e in
    let (s, e2, h2) =
      >>=-eq-ok (context (find_session id l.sessions) CoordinatorError.no_session) _ h1 in
    let (b, h3) = ensure-eq-ok (session_id == s.session_id) CoordinatorError.stale_session _ h2 in
    let (c, h4) =
      ensure-eq-ok (s.ready || is_heartbeat request) CoordinatorError.recovery_required _ h3 in
    subst (λ x. Admits env l (Principal.node id) (Request.node_session x request))
      (sym ((eq_iff session_id s.session_id).0 b))
      (in_session s (context-eq-ok (find_session id l.sessions) _ e2) (ground (arith, a)) c
        (check_boot-IsOfBoot id s request h4))

require_node-same :
    (p : Principal) (node_id : String) → require_node p node_id ≡ ok tt → p ≡ Principal.node node_id
unfolding require_node
require_node-same Principal.operator node_id h = cc
require_node-same (Principal.node id) node_id h =
    ap Principal.node (ground (arith, h, eq_iff id node_id))

opening-Admits :
    (env : Services) (l : Ledger) (p : Principal) (node_id boot_id session_id : String)
    {out : Request}
    → (check_opening env l p node_id boot_id session_id
        >> ok (Request.open_replay_session node_id boot_id session_id))
      ≡ ok out
    → Admits env l p (Request.open_replay_session node_id boot_id session_id)
unfolding check_opening
opening-Admits env l p node_id boot_id session_id h =
    let (x, e, _) = >>=-eq-ok (check_opening env l p node_id boot_id session_id) _ h in
    let (y, e1, h1) = >>=-eq-ok (require_node p node_id) _ e in
    let (z, e2, h2) = >>=-eq-ok (check_id node_id) _ h1 in
    let (a, h3) = ensure-eq-ok (not (is_blank boot_id)) CoordinatorError.blank_boot _ h2 in
    let (n, e4, h4) =
      >>=-eq-ok (context (env.uuid_is_nil session_id) CoordinatorError.invalid_session) _ h3 in
    let (b, h5) = ensure-eq-ok (not n) CoordinatorError.nil_session _ h4 in
    subst (λ x. Admits env l x (Request.open_replay_session node_id boot_id session_id))
      (sym (require_node-same p node_id e1))
      (opens (ground (arith, e2)) (ground (arith, a))
        (context-eq-ok (env.uuid_is_nil session_id) _ e4
          ∙ ap {B = Option Bool} some (ground (arith, b)))
        (ground (arith, h5)))

validate_node_session-Admits :
    (env : Services) (l : Ledger) (p : Principal) (request : Request) {out : Request}
    → validate_node_session env l p request ≡ ok out
    → Admits env l p request
unfolding validate_node_session
validate_node_session-Admits env l p (Request.open_replay_session node_id boot_id session_id) h =
    opening-Admits env l p node_id boot_id session_id h
validate_node_session-Admits env l p (Request.node_session session_id request) h =
    wrapped-Admits env l p session_id request h
validate_node_session-Admits env l p (Request.put_pool x) h =
    unwrapped-Admits env l p (Request.put_pool x) refl h
validate_node_session-Admits env l p (Request.submit x) h =
    unwrapped-Admits env l p (Request.submit x) refl h
validate_node_session-Admits env l p (Request.retry x y) h =
    unwrapped-Admits env l p (Request.retry x y) refl h
validate_node_session-Admits env l p (Request.cancel x) h =
    unwrapped-Admits env l p (Request.cancel x) refl h
validate_node_session-Admits env l p (Request.drain_node x y) h =
    unwrapped-Admits env l p (Request.drain_node x y) refl h
validate_node_session-Admits env l p (Request.heartbeat x) h =
    unwrapped-Admits env l p (Request.heartbeat x) refl h
validate_node_session-Admits env l p (Request.prepared x y z w) h =
    unwrapped-Admits env l p (Request.prepared x y z w) refl h
validate_node_session-Admits env l p (Request.renew x y z w) h =
    unwrapped-Admits env l p (Request.renew x y z w) refl h
validate_node_session-Admits env l p (Request.complete x) h =
    unwrapped-Admits env l p (Request.complete x) refl h
validate_node_session-Admits env l p (Request.fail x y z w) h =
    unwrapped-Admits env l p (Request.fail x y z w) refl h
validate_node_session-Admits env l p (Request.publish_checkpoint x) h =
    unwrapped-Admits env l p (Request.publish_checkpoint x) refl h

-- A request that was turned away: the ledger is what it was.
pub record IsRefused (l : Ledger) (o : Outcome Response) : Type 0 where
  pub error : CoordinatorError
  pub answered : o ≡ (l, err error)

advance_clock-refuses :
    (l : Ledger) (now : ℕ)
    → (l.last_clock_ms ≤ now) ⊎ (advance_clock l now ≡ (l, err CoordinatorError.clock_backwards))
unfolding advance_clock
advance_clock-refuses l now = elim (Bool-cases (leb l.last_clock_ms now)) [
  | inl y ↦ inl (ground (arith, y))
  | inr n ↦ inr (rw n refl)
]

clock-refuses :
    (env : Services) (config : CoordinatorConfig) (l : Ledger) (p : Principal)
    (request unwrapped : Request) (now : ℕ)
    → validate_node_session env l p request ≡ ok unwrapped
    → (l.last_clock_ms ≤ now) ⊎ IsRefused l (handle_at env config l p request now)
unfolding handle_at
clock-refuses env config l p request unwrapped now v = elim (advance_clock-refuses l now) [
  | inl y ↦ inl y
  | inr n ↦ inr (record { error = CoordinatorError.clock_backwards; answered = rw (v, n) refl })
]

-- A request comes in a session in which its sender may send requests, and is not dated before the
-- last one, or it fails and leaves the ledger as it is.
pub handle_at-refuses :
    (env : Services) (config : CoordinatorConfig) (l : Ledger) (p : Principal) (request : Request)
    (now : ℕ)
    → Admits env l p request × (l.last_clock_ms ≤ now)
      ⊎ IsRefused l (handle_at env config l p request now)
unfolding handle_at
handle_at-refuses env config l p request now = go (validate_node_session env l p request) refl
  where
    go :
        (v : Result CoordinatorError Request)
        → validate_node_session env l p request ≡ v
        → Admits env l p request × (l.last_clock_ms ≤ now)
          ⊎ IsRefused l (handle_at env config l p request now)
    go (err e) v = inr (record { error = e; answered = rw v refl })
    go (ok unwrapped) v = elim (clock-refuses env config l p request unwrapped now v) [
      | inl y ↦ inl (validate_node_session-Admits env l p request v, y)
      | inr n ↦ inr n
    ]
