-- ===== src/Agent/Leases.antt =====
-- src/coordinator.rs, `grant`, against src/agent.rs, `validate_lease`.
use cede_grid.Common.{
  ℕ, ◌+◌, ◌≤◌, ◌<◌, String, Bool, true, false, Option, none, some, ◌==◌, String_eq, ℕ_eq, ◌≡◌, sym,
  ◌∙◌, ◌⊎◌, arith, inl, inr, ok, eq_iff, checked_add,
}
use cede_grid.Protocol.{CoordinatorConfig, Assignment, Lease}
use cede_grid.Coordinator.Tables.{Ledger, Reservation}
use cede_grid.Coordinator.Grant.{grant, is_retry, extend_lease}
use cede_grid.Coordinator.Steps.Grant.{grant-IsGranted}
use cede_grid.Coordinator.Steps.Leases.{grant-IsLease}
use cede_grid.Agent.{validate_lease}

retry-positive :
    (previous : Option ℕ) (sequence : ℕ) {retry : Bool}
    → is_retry previous sequence ≡ ok retry
    → retry ≡ true
    → 0 < sequence
unfolding is_retry
retry-positive none sequence h e = ground (arith, h, e)
retry-positive (some previous) sequence h e = ground (arith, h, e)

extend_lease-cases :
    (config : CoordinatorConfig) (l : Ledger) (r : Reservation) (generation : ℕ)
    (retry drain : Bool) (now : ℕ) {lease : Lease} {l' : Ledger}
    → extend_lease config l r generation retry drain now ≡ ok (lease, l')
    → lease.drain ≡ false
    → (lease.sequence ≡ r.lease_sequence) × (retry ≡ true) ⊎ (lease.sequence ≡ r.lease_sequence + 1)
unfolding extend_lease checked_add
extend_lease-cases config l r generation retry drain now h d = ground (arith, h, d)

grant-positive :
    (config : CoordinatorConfig) (l : Ledger) (id : String) (generation : ℕ) (previous : Option ℕ)
    (now : ℕ) {lease : Lease} {l' : Ledger}
    → grant config l id generation previous now ≡ ok (lease, l')
    → lease.drain ≡ false
    → 0 < lease.sequence
grant-positive config l id generation previous now h d =
    let g = grant-IsGranted config l id generation previous now h in
    elim (extend_lease-cases config l g.row generation g.retry g.drain now g.extended d) [
      | inl (s, t) ↦ omega (arith, s, retry-positive previous g.row.lease_sequence g.retried t)
      | inr s ↦ omega (arith, s)
    ]

-- A lease that the coordinator grants, unless it only says to drain, passes the check of the agent
-- whose assignment has this identifier and generation and was offered under no later epoch.
pub grant-validate_lease :
    (config : CoordinatorConfig) (l : Ledger) (id : String) (generation : ℕ) (previous : Option ℕ)
    (now : ℕ) (a : Assignment) {lease : Lease} {l' : Ledger}
    → grant config l id generation previous now ≡ ok (lease, l')
    → lease.drain ≡ false
    → a.request.assignment_id ≡ id
    → a.generation ≡ generation
    → a.coordinator_epoch ≤ l.epoch
    → validate_lease lease a ≡ ok tt
unfolding validate_lease
grant-validate_lease config l id generation previous now a {lease} h d i n e =
    let g = grant-IsLease config l id generation previous now h in
    let s = grant-positive config l id generation previous now h d in
    let same : (lease.assignment_id == a.request.assignment_id) ≡ true =
      (eq_iff lease.assignment_id a.request.assignment_id).1 (g.named ∙ sym i) in
    ground (arith, same, g.numbered, n, g.epoch, e, s)
