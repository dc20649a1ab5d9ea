-- ===== src/Coordinator/Steps/Grant.antt =====
-- src/coordinator.rs, `grant`: what a successful call found and wrote.
use cede_grid.Common.{
  saturating_add, ℕ, ◌+◌, ◌≤◌, String, Bool, true, ◌&&◌, ◌||◌, not, Option, some, ◌==◌, String_eq,
  ℕ_eq, ◌≡◌, refl, arith, ltb, leb, nat_eq, checked_add, ok, context, >>=-eq-ok, ensure-eq-ok,
  context-eq-ok, ok-injective, Bool-cases, inl, inr, if◌then◌else◌, checked_add-exact, ap, sym,
  subst, some-injective, ◌∙◌,
}
use mathlib.Core.Bool.{false≢true}
use cede_grid.Execution.{LaunchRequest, AllocationClass, AllocationClass_eq}
use cede_grid.Protocol.{CoordinatorConfig, Lease}
use cede_grid.Coordinator.Tables.{
  CoordinatorError, Ledger, Reservation, find_reservation, update_reservation, is_live, db,
}
use cede_grid.Coordinator.Lookup.{
  current_attempt, assignment_request, should_drain, replay_node_can_admit, replay_request_allowed,
}
use cede_grid.Coordinator.Grant.{grant, extend_lease, authorized_row, is_retry, check_evidence}
use cede_grid.Coordinator.Steps.Rows.{Follows, nothing}
use cede_grid.Coordinator.Steps.Change.{Change, Change-refl, Change-update}
use cede_grid.Store.Tables.Laws.{find-key}

-- What a lease extension did: nothing, or the next lease of the row.
pub data Extends (config : CoordinatorConfig) (l : Ledger) (r : Reservation) (now : ℕ)
    (lease : Lease) (l' : Ledger) : Type 0 where
  stands : lease.sequence ≡ r.lease_sequence → l' ≡ l → Extends config l r now lease l'
  renews :
      lease.sequence ≡ r.lease_sequence + 1
      → l' ≡ record l {
        reservations =
            update_reservation r.assignment_id
              (authorized_row lease.sequence (saturating_add now config.lease_ms) l.epoch)
              l.reservations;
      }
      → Extends config l r now lease l'

-- Every part of a grant that succeeded.
pub record IsGranted (config : CoordinatorConfig) (l : Ledger) (id : String) (generation : ℕ)
    (previous : Option ℕ) (now : ℕ) (lease : Lease) (l' : Ledger) : Type 0 where
  pub task : String
  pub current : current_attempt l id generation ≡ ok task
  pub row : Reservation
  pub found : find_reservation id l.reservations ≡ some row
  pub live : is_live row.phase ≡ true
  pub drain : Bool
  pub drains : should_drain l id ≡ ok drain
  pub request : LaunchRequest
  pub requested : assignment_request l id ≡ ok request
  pub admitted :
      (replay_node_can_admit l row.node_id && replay_request_allowed l row.node_id request) ≡ true
  pub evidence :
      (if nat_eq row.lease_sequence 0 && not drain
        then check_evidence config l row request now
        else ok tt)
      ≡ ok tt
  pub unexpired :
      (not (
        ltb 0 row.lease_sequence
        && leb row.lease_deadline_ms now
        && request.class == AllocationClass.opportunistic))
      ≡ true
  pub retry : Bool
  pub retried : is_retry previous row.lease_sequence ≡ ok retry
  pub extended : extend_lease config l row generation retry drain now ≡ ok (lease, l')

pub grant-IsGranted :
    (config : CoordinatorConfig) (l : Ledger) (id : String) (generation : ℕ) (previous : Option ℕ)
    (now : ℕ) {lease : Lease} {l' : Ledger}
    → grant config l id generation previous now ≡ ok (lease, l')
    → IsGranted config l id generation previous now lease l'
unfolding grant
grant-IsGranted config l id generation previous now h =
    let (task, c, h1) = >>=-eq-ok (current_attempt l id generation) _ h in
    let (r, f, h2) =
      >>=-eq-ok (context (find_reservation id l.reservations) CoordinatorError.no_row) _ h1 in
    let (v, h3) = ensure-eq-ok (is_live r.phase) CoordinatorError.needs_reconciliation _ h2 in
    let (d, ds, h4) = >>=-eq-ok (should_drain l id) _ h3 in
    let (q, qs, h5) = >>=-eq-ok (assignment_request l id) _ h4 in
    let (a, h6) =
      ensure-eq-ok (replay_node_can_admit l r.node_id && replay_request_allowed l r.node_id q)
        CoordinatorError.replay_unfit _ h5 in
    let (e, es, h7) =
      >>=-eq-ok
        (if nat_eq r.lease_sequence 0 && not d then check_evidence config l r q now else ok tt) _
        h6 in
    let (u, h8) =
      ensure-eq-ok
        (not (
          ltb 0 r.lease_sequence
          && leb r.lease_deadline_ms now
          && q.class == AllocationClass.opportunistic))
        CoordinatorError.lease_expired _ h7 in
    let (t, ts, h9) = >>=-eq-ok (is_retry previous r.lease_sequence) _ h8 in
    record {
      task = task;
      current = c;
      row = r;
      found = context-eq-ok (find_reservation id l.reservations) CoordinatorError.no_row f;
      live = v;
      drain = d;
      drains = ds;
      request = q;
      requested = qs;
      admitted = a;
      evidence = es;
      unexpired = u;
      retry = t;
      retried = ts;
      extended = h9;
    }

-- An extension answers with the standing lease where it repeats or drains, else with the next one.
pub extend_lease-Extends :
    (config : CoordinatorConfig) (l : Ledger) (r : Reservation) (generation : ℕ)
    (retry drain : Bool) (now : ℕ) {lease : Lease} {l' : Ledger}
    → extend_lease config l r generation retry drain now ≡ ok (lease, l')
    → Extends config l r now lease l'
unfolding extend_lease
extend_lease-Extends config l r generation retry drain now h = elim (Bool-cases (retry || drain)) [
  | inl y ↦
      let p = ok-injective (rw (y, extend_lease) at h) in
      stands (ap (λ (x : Lease × Ledger). x.0.sequence) (sym p))
        (ap (λ (x : Lease × Ledger). x.1) (sym p))
  | inr n ↦
      let (s, c, h1) =
        >>=-eq-ok (context (checked_add r.lease_sequence 1) CoordinatorError.overflow) _
          (rw (n, extend_lease) at h) in
      let (x, e1, h2) = >>=-eq-ok (db s) _ h1 in
      let (y, e2, h3) = >>=-eq-ok (db (saturating_add now config.lease_ms)) _ h2 in
      let (z, e3, h4) = >>=-eq-ok (db l.epoch) _ h3 in
      let p = ok-injective h4 in
      let q =
        (checked_add-exact r.lease_sequence 1
          (context-eq-ok (checked_add r.lease_sequence 1) CoordinatorError.overflow c)).0 in
      renews (ground (arith, q, ap (λ (x : Lease × Ledger). x.0.sequence) p)) (ground (arith, p))
]

Follows-authorized :
    (id : String) (sequence deadline epoch : ℕ) (r : Reservation)
    → r.lease_sequence ≤ sequence
    → Follows nothing id r (authorized_row sequence deadline epoch r)
Follows-authorized id sequence deadline epoch r h = record {
  node = refl;
  resources = refl;
  sequence = h;
  held = ground arith;
}

Extends-Change :
    (config : CoordinatorConfig) (l : Ledger) (id : String) (r : Reservation) (now : ℕ)
    (lease : Lease) (l' : Ledger)
    → find_reservation id l.reservations ≡ some r
    → is_live r.phase ≡ true
    → Extends config l r now lease l'
    → Change nothing l l'
Extends-Change config l id r now lease l' f v (stands s e) =
    subst (λ x. Change nothing l x) (sym e) (Change-refl nothing l)
Extends-Change config l id r now lease l' f v (renews s e) =
    let k = find-key (λ (x : Reservation). x.assignment_id) id l.reservations r f in
    let same = λ (x : Reservation) (h : find_reservation r.assignment_id l.reservations ≡ some x).
      some-injective {a = x} {b = r}
        (sym h ∙ subst (λ j. find_reservation j l.reservations ≡ some r) (sym k) f) in
    subst (λ x. Change nothing l x) (sym e)
      (Change-update nothing l r.assignment_id
        (authorized_row lease.sequence (saturating_add now config.lease_ms) l.epoch) (λ x h. h)
        (λ x h.
          Follows-authorized r.assignment_id lease.sequence _ l.epoch x
            (omega (arith, ap (λ (y : Reservation). y.lease_sequence) (same x h), s)))
        (λ x h c n.
          absurd (false≢true (sym n ∙ (ap (λ (y : Reservation). is_live y.phase) (same x h) ∙ v)))))

-- A grant changes at most the row of its allocation.
pub grant-Change :
    (config : CoordinatorConfig) (l : Ledger) (id : String) (generation : ℕ) (previous : Option ℕ)
    (now : ℕ) {lease : Lease} {l' : Ledger}
    → grant config l id generation previous now ≡ ok (lease, l')
    → Change nothing l l'
grant-Change config l id generation previous now {lease} {l'} h =
    let g = grant-IsGranted config l id generation previous now h in
    Extends-Change config l id g.row now lease l' g.found g.live
      (extend_lease-Extends config l g.row generation g.retry g.drain now g.extended)
