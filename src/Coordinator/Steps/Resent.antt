-- ===== src/Coordinator/Steps/Resent.antt =====
-- src/coordinator.rs, `grant`: a renewal that is sent again, after the answer to it was lost.
use cede_grid.Common.{
  saturating_add, ℕ, ◌+◌, ◌≤◌, ◌<◌, String, Bool, true, false, ◌&&◌, ◌||◌, not, some, List, [], ◌∷◌,
  ◌==◌, String_eq, ℕ_eq, Option_eq, ◌≡◌, refl, sym, ◌∙◌, ◌⊎◌, subst, arith, ltb, leb, nat_eq, any,
  contains, checked_add, u64_max, i64_max, Option-cases, inl, inr, ok, context, >>=-eq-ok,
  some-injective, eq_iff, and-eq-true,
}
use cede_grid.Execution.{LaunchRequest, AllocationClass_eq}
use cede_grid.Protocol.{CoordinatorConfig, PoolSpec, Lease, RemotePhase, RemotePhase_eq}
use cede_grid.Store.Tables.{update_row}
use cede_grid.Store.Tables.Laws.{find-key, find-update}
use cede_grid.Coordinator.Tables.{
  CoordinatorError, Ledger, Reservation, NodeRow, find_reservation, find_session, find_node,
  find_pool, update_reservation, is_live, db,
}
use cede_grid.Coordinator.Lookup.{
  Joined, rank, current_attempt, assignment_request, should_drain, join_row, rank,
  replay_node_can_admit, replay_request_allowed,
}
use cede_grid.Coordinator.Grant.{grant, extend_lease, is_retry, authorized_row, lease_of}
use cede_grid.Coordinator.Steps.Grant.{
  IsGranted, grant-IsGranted, Extends, stands, renews, extend_lease-Extends,
}

-- A ledger that answers a renewal by the lease that stands.
record Answers (l : Ledger) (id : String) (generation previous now : ℕ) : Type 0 where
  task : String
  current : current_attempt l id generation ≡ ok task
  row : Reservation
  found : find_reservation id l.reservations ≡ some row
  live : is_live row.phase ≡ true
  drain : Bool
  drains : should_drain l id ≡ ok drain
  request : LaunchRequest
  requested : assignment_request l id ≡ ok request
  admitted :
      (replay_node_can_admit l row.node_id && replay_request_allowed l row.node_id request) ≡ true
  standing : row.lease_sequence ≡ previous + 1
  fits : previous + 1 ≤ u64_max
  unexpired : now < row.lease_deadline_ms

is_retry-next :
    (previous : ℕ) → previous + 1 ≤ u64_max → is_retry (some previous) (previous + 1) ≡ ok true
unfolding is_retry checked_add
is_retry-next previous h = ground (arith, h)

Answers-grant :
    (config : CoordinatorConfig) (l : Ledger) (id : String) (generation previous now : ℕ)
    → Answers l id generation previous now
    → (lease : Lease) × (grant config l id generation (some previous) now ≡ ok (lease, l))
      × (lease.sequence ≡ previous + 1)
unfolding grant extend_lease
Answers-grant config l id generation previous now a =
    let r = a.row in
    let later : nat_eq r.lease_sequence 0 ≡ false = ground (arith, a.standing) in
    let due : leb r.lease_deadline_ms now ≡ false = ground (arith, a.unexpired) in
    let positive : ltb 0 r.lease_sequence ≡ true = ground (arith, a.standing) in
    let retried : is_retry (some previous) r.lease_sequence ≡ ok true =
      subst (λ x. is_retry (some previous) x ≡ ok true) (sym a.standing)
        (is_retry-next previous a.fits) in
    (
      lease_of config l r.assignment_id generation r.lease_sequence r.lease_deadline_ms a.drain now,
      rw
          (
            a.current, a.found, a.live, a.drains, a.requested, a.admitted, later, positive, due,
            retried,
          )
          refl,
      a.standing,
    )

should_drain-runs :
    (l : Ledger) (id : String) (r : Reservation) (j : Joined) (p : PoolSpec) (m : NodeRow)
    → find_reservation id l.reservations ≡ some r
    → join_row l id ≡ ok j
    → context (find_pool j.job.pool_id l.pools) CoordinatorError.no_row ≡ ok p
    → context (find_node r.node_id l.nodes) CoordinatorError.no_row ≡ ok m
    → (d : Bool) × (should_drain l id ≡ ok d)
unfolding should_drain
should_drain-runs l id r j p m f e1 e2 e3 = (
  j.job.cancelled
      || m.drain
      || contains l.drain_requests id
      || r.phase == RemotePhase.draining
      || not (contains p.node_ids r.node_id)
      || ltb p.max_workers (rank l p.pool_id j.spec.sequence id),
  rw (f, e1, e2, e3) refl,
)

-- Whether an allocation is to drain is decided on every ledger that keeps its row.
should_drain-total :
    (l : Ledger) (rows : List Reservation) (id : String) (r r' : Reservation) {drain : Bool}
    → should_drain l id ≡ ok drain
    → find_reservation id l.reservations ≡ some r
    → find_reservation id rows ≡ some r'
    → r'.node_id ≡ r.node_id
    → (d : Bool) × (should_drain (record l { reservations = rows }) id ≡ ok d)
unfolding should_drain join_row
should_drain-total l rows id r r' h f f' n =
    let (j, e1, h1) = >>=-eq-ok (join_row l id) _ (rw f at h) in
    let (p, e2, h2) =
      >>=-eq-ok (context (find_pool j.job.pool_id l.pools) CoordinatorError.no_row) _ h1 in
    let (m, e3, h3) =
      >>=-eq-ok (context (find_node r.node_id l.nodes) CoordinatorError.no_row) _ h2 in
    let e4 : context (find_node r'.node_id l.nodes) CoordinatorError.no_row ≡ ok m =
      subst (λ x. context (find_node x l.nodes) CoordinatorError.no_row ≡ ok m) (sym n) e3 in
    let same : join_row (record l { reservations = rows }) id ≡ ok j = e1 in
    should_drain-runs (record l { reservations = rows }) id r' j p m f' same e2 e4

any-update :
    (p : Reservation → Bool) (id : String) (f : Reservation → Reservation) (rows : List Reservation)
    → ((r : Reservation) → p (f r) ≡ false)
    → any p rows ≡ false
    → any p (update_reservation id f rows) ≡ false
unfolding update_row
any-update p id f [] q h = refl
any-update p id f (r ∷ rest) q h = ground (arith, h, q r, any-update p id f rest q)

admits-update :
    (l : Ledger) (id node_id : String) (sequence deadline epoch : ℕ)
    → replay_node_can_admit l node_id ≡ true
    → replay_node_can_admit
        (record l {
          reservations =
              update_reservation id (authorized_row sequence deadline epoch) l.reservations;
        })
        node_id
      ≡ true
unfolding replay_node_can_admit
admits-update l id node_id sequence deadline epoch h =
    elim (Option-cases (find_session node_id l.sessions)) [
      | inl n ↦ rw (n, replay_node_can_admit) refl
      | inr (s, e) ↦
          let test : Reservation → Bool =
            λ r. r.node_id == node_id && r.phase == RemotePhase.uncertain in
          let k = rw (e, replay_node_can_admit) at h in
          let u =
            any-update test id (authorized_row sequence deadline epoch) l.reservations
              (λ r. ground arith) (ground (arith, k)) in
          rw (e, replay_node_can_admit) (ground (arith, k, u))
    ]

-- A lease that was written is numbered within an SQLite integer.
extend_lease-fits :
    (config : CoordinatorConfig) (l : Ledger) (r : Reservation) (generation : ℕ)
    (retry drain : Bool) (now : ℕ) {lease : Lease} {l' : Ledger}
    → extend_lease config l r generation retry drain now ≡ ok (lease, l')
    → (lease.sequence ≡ r.lease_sequence) × (retry || drain ≡ true) ⊎ (lease.sequence ≤ i64_max)
unfolding extend_lease checked_add db
extend_lease-fits config l r generation retry drain now h = ground (arith, h)

find-authorized :
    (id : String) (sequence deadline epoch : ℕ) (rows : List Reservation) (r : Reservation)
    → find_reservation id rows ≡ some r
    → find_reservation id (update_reservation id (authorized_row sequence deadline epoch) rows)
      ≡ some (authorized_row sequence deadline epoch r)
find-authorized id sequence deadline epoch rows r f =
    let u =
      find-update (λ (x : Reservation). x.assignment_id) id id
        (authorized_row sequence deadline epoch) rows (λ x h. h) in
    rw ((eq_iff id id).1 refl, f) at u

is_retry-fits :
    (previous : ℕ) (retry : Bool)
    → is_retry (some previous) (previous + 1) ≡ ok retry
    → previous + 1 ≤ u64_max
unfolding is_retry checked_add
is_retry-fits previous retry h = ground (arith, h)

-- The ledger after a renewal that wrote the next lease answers it again.
renewed-Answers :
    (config : CoordinatorConfig) (l : Ledger) (id : String) (generation previous now now' : ℕ)
    (sequence deadline epoch : ℕ) {lease : Lease} {m : Ledger}
    → IsGranted config l id generation (some previous) now lease m
    → sequence ≡ previous + 1
    → sequence ≤ i64_max
    → now' < deadline
    → Answers
        (record l {
          reservations =
              update_reservation id (authorized_row sequence deadline epoch) l.reservations;
        })
        id
        generation
        previous
        now'
unfolding current_attempt assignment_request replay_request_allowed
renewed-Answers config l id generation previous now now' sequence deadline epoch g s b d =
    let change = authorized_row sequence deadline epoch in
    let found = find-authorized id sequence deadline epoch l.reservations g.row g.found in
    let (drain, drains) =
      should_drain-total l (update_reservation id change l.reservations) id g.row (change g.row)
        g.drains g.found found refl in
    let (can, may) =
      and-eq-true (replay_node_can_admit l g.row.node_id)
        (replay_request_allowed l g.row.node_id g.request) g.admitted in
    let can' = admits-update l id g.row.node_id sequence deadline epoch can in
    record {
      task = g.task;
      current = g.current;
      row = change g.row;
      found = found;
      live = refl;
      drain = drain;
      drains = drains;
      request = g.request;
      requested = g.requested;
      admitted = rw can' may;
      standing = s;
      fits = omega (arith, s, b);
      unexpired = d;
    }

-- The ledger that answered by the lease that stands answers again.
standing-Answers :
    (config : CoordinatorConfig) (l : Ledger) (id : String) (generation previous now now' : ℕ)
    {lease : Lease} {m : Ledger}
    → (g : IsGranted config l id generation (some previous) now lease m)
    → g.row.lease_sequence ≡ previous + 1
    → previous + 1 ≤ u64_max
    → now' < g.row.lease_deadline_ms
    → Answers l id generation previous now'
standing-Answers config l id generation previous now now' g s b d = record {
  task = g.task;
  current = g.current;
  row = g.row;
  found = g.found;
  live = g.live;
  drain = g.drain;
  drains = g.drains;
  request = g.request;
  requested = g.requested;
  admitted = g.admitted;
  standing = s;
  fits = b;
  unexpired = d;
}

-- A renewal that was answered by the lease after the one that it names is answered again, as long as
-- the deadline of that lease is ahead: the ledger that the first answer left stays as it is, and the
-- answer has the same sequence.
pub grant_again :
    (config : CoordinatorConfig) (l : Ledger) (id : String) (generation previous now now' : ℕ)
    (r' : Reservation) {lease : Lease} {l' : Ledger}
    → grant config l id generation (some previous) now ≡ ok (lease, l')
    → lease.sequence ≡ previous + 1
    → find_reservation id l'.reservations ≡ some r'
    → now' < r'.lease_deadline_ms
    → (again : Lease) × (grant config l' id generation (some previous) now' ≡ ok (again, l'))
      × (again.sequence ≡ lease.sequence)
grant_again config l id generation previous now now' r' {lease} {l'} h s f d =
    let g = grant-IsGranted config l id generation (some previous) now h in
    let (again, e, n) = Answers-grant config l' id generation previous now' (
      answered g (extend_lease-Extends config l g.row generation g.retry g.drain now g.extended)) in
    (again, e, n ∙ sym s)
  where
    answered :
        (g : IsGranted config l id generation (some previous) now lease l')
        → Extends config l g.row now lease l'
        → Answers l' id generation previous now'
    answered g (stands q e) =
        let n : g.row.lease_sequence ≡ previous + 1 = sym q ∙ s in
        let same : g.row ≡ r' = some-injective (
          sym g.found ∙ subst (λ (x : Ledger). find_reservation id x.reservations ≡ some r') e f) in
        let b =
          is_retry-fits previous g.retry
            (subst (λ x. is_retry (some previous) x ≡ ok g.retry) n g.retried) in
        subst (λ (x : Ledger). Answers x id generation previous now') (sym e)
          (standing-Answers config l id generation previous now now' g n b
            (subst (λ (x : Reservation). now' < x.lease_deadline_ms) (sym same) d))
    answered g (renews q e) =
        let deadline = saturating_add now config.lease_ms in
        let k = find-key (λ (x : Reservation). x.assignment_id) id l.reservations g.row g.found in
        let e' : l' ≡ record l {
          reservations =
              update_reservation id (authorized_row lease.sequence deadline l.epoch) l.reservations;
        } =
          subst
            (λ x. l' ≡ record l {
              reservations =
                  update_reservation x (authorized_row lease.sequence deadline l.epoch)
                    l.reservations;
            })
            k e in
        let same : authorized_row lease.sequence deadline l.epoch g.row ≡ r' = some-injective (
          sym (find-authorized id lease.sequence deadline l.epoch l.reservations g.row g.found)
          ∙ subst (λ (x : Ledger). find_reservation id x.reservations ≡ some r') e' f) in
        let b : lease.sequence ≤ i64_max =
          elim (extend_lease-fits config l g.row generation g.retry g.drain now g.extended) [
            | inl w ↦ absurd (omega (arith, w.0, q))
            | inr w ↦ w
          ] in
        subst (λ (x : Ledger). Answers x id generation previous now') (sym e')
          (renewed-Answers config l id generation previous now now' lease.sequence deadline l.epoch
            g s b (subst (λ (x : Reservation). now' < x.lease_deadline_ms) (sym same) d))
