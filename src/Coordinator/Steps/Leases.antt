-- ===== src/Coordinator/Steps/Leases.antt =====
-- src/coordinator.rs, `grant`: what a lease says, and on what evidence it is given.
use cede_grid.Common.{
  saturating_add, ℕ, ◌+◌, ◌≤◌, String, Bool, true, Option, some, String_eq, ℕ_eq, ◌≡◌, arith, inl,
  inr, ◌⊎◌, ok, ap, ◌∙◌, eq_iff,
}
use cede_grid.Execution.{AllocationClass_eq}
use cede_grid.Protocol.{CoordinatorConfig, Lease}
use cede_grid.Store.Tables.Laws.{find-key, find-update}
use cede_grid.Coordinator.Tables.{Ledger, Reservation, find_reservation, is_live, db}
use cede_grid.Coordinator.Grant.{grant, extend_lease, authorized_row}
use cede_grid.Coordinator.Steps.Grant.{
  grant-IsGranted, Extends, stands, renews, extend_lease-Extends,
}

-- What a lease says of its allocation.
record Says (config : CoordinatorConfig) (l : Ledger) (r : Reservation) (generation : ℕ)
    (drain : Bool) (lease : Lease) : Type 0 where
  named : lease.assignment_id ≡ r.assignment_id
  numbered : lease.generation ≡ generation
  epoch : lease.coordinator_epoch ≡ l.epoch
  bounded : lease.valid_for_ms ≤ config.lease_ms
  drained : lease.drain ≡ drain

extend_lease-Says :
    (config : CoordinatorConfig) (l : Ledger) (r : Reservation) (generation : ℕ)
    (retry drain : Bool) (now : ℕ) {lease : Lease} {l' : Ledger}
    → extend_lease config l r generation retry drain now ≡ ok (lease, l')
    → Says config l r generation drain lease
unfolding extend_lease db
extend_lease-Says config l r generation retry drain now h = ground (arith, h)

-- A lease that was given: for a live row, bounded, and either the standing sequence with nothing
-- written, or the next sequence, written into the row as authorized.
pub record IsLease (config : CoordinatorConfig) (l : Ledger) (id : String) (generation now : ℕ)
    (lease : Lease) (l' : Ledger) : Type 0 where
  pub row : Reservation
  pub found : find_reservation id l.reservations ≡ some row
  pub live : is_live row.phase ≡ true
  pub named : lease.assignment_id ≡ id
  pub numbered : lease.generation ≡ generation
  pub epoch : lease.coordinator_epoch ≡ l.epoch
  pub bounded : lease.valid_for_ms ≤ config.lease_ms
  pub written :
      (lease.sequence ≡ row.lease_sequence) × (l' ≡ l)
      ⊎ (lease.sequence ≡ row.lease_sequence + 1)
        × (find_reservation id l'.reservations
            ≡ some (authorized_row lease.sequence (saturating_add now config.lease_ms) l.epoch row))

Extends-written :
    (config : CoordinatorConfig) (l : Ledger) (id : String) (r : Reservation) (now : ℕ)
    (lease : Lease) (l' : Ledger)
    → find_reservation id l.reservations ≡ some r
    → Extends config l r now lease l'
    → (lease.sequence ≡ r.lease_sequence) × (l' ≡ l)
      ⊎ (lease.sequence ≡ r.lease_sequence + 1)
        × (find_reservation id l'.reservations
            ≡ some (authorized_row lease.sequence (saturating_add now config.lease_ms) l.epoch r))
Extends-written config l id r now lease l' f (stands s e) = inl (s, e)
Extends-written config l id r now lease l' f (renews s e) =
    let k = find-key (λ (x : Reservation). x.assignment_id) id l.reservations r f in
    let change = authorized_row lease.sequence (saturating_add now config.lease_ms) l.epoch in
    let u =
      find-update (λ (x : Reservation). x.assignment_id) r.assignment_id id change l.reservations
        (λ x h. h) in
    inr (
      s,
      ap (λ (x : Ledger). find_reservation id x.reservations) e
          ∙ (rw ((eq_iff r.assignment_id id).1 k, f) at u),
    )

-- A lease that is granted is for an allocation that is neither uncertain nor released, under the
-- ledger's epoch, for at most the configured time. It repeats the sequence that stands and writes
-- nothing, or it is the next in sequence, and the allocation is authorized by it.
pub grant-IsLease :
    (config : CoordinatorConfig) (l : Ledger) (id : String) (generation : ℕ) (previous : Option ℕ)
    (now : ℕ) {lease : Lease} {l' : Ledger}
    → grant config l id generation previous now ≡ ok (lease, l')
    → IsLease config l id generation now lease l'
grant-IsLease config l id generation previous now {lease} {l'} h =
    let g = grant-IsGranted config l id generation previous now h in
    let s = extend_lease-Says config l g.row generation g.retry g.drain now g.extended in
    record {
      row = g.row;
      found = g.found;
      live = g.live;
      named =
          s.named ∙ find-key (λ (x : Reservation). x.assignment_id) id l.reservations g.row g.found;
      numbered = s.numbered;
      epoch = s.epoch;
      bounded = s.bounded;
      written =
          Extends-written config l id g.row now lease l' g.found
            (extend_lease-Extends config l g.row generation g.retry g.drain now g.extended);
    }
