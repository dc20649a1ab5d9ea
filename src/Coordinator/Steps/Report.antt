-- ===== src/Coordinator/Steps/Report.antt =====
-- src/coordinator.rs, `heartbeat`: one allocation of a report, as a change of the ledger.
use cede_grid.Common.{
  ℕ, String, Bool, true, false, ◌&&◌, ◌||◌, not, Option, none, some, List, [], ◌∷◌, ◌==◌, String_eq,
  ℕ_eq, ◌≡◌, refl, arith, any, contains, set_insert, All, Bool-cases, inl, inr, ok, if◌then◌else◌,
  ensure-eq-ok, ok-injective, some-injective, subst, ap, sym, ◌∙◌, eq_iff, and-eq-true,
}
use cede_grid.Protocol.{NodeReport, AllocationReport, RemotePhase, RemotePhase_eq, phase_eq_iff}
use cede_grid.Store.Tables.{Store, AssignmentRow, find_assignment}
use cede_grid.Coordinator.Tables.{
  CoordinatorError, Ledger, Reservation, find_reservation, is_held, is_live, db,
}
use cede_grid.Coordinator.Heartbeat.Report.{
  Reported, report_unknown, report_known, write_phase, next_phase, reported_row, contradicts,
  invalid_running,
}
use cede_grid.Coordinator.Steps.Rows.{Allows, Follows}
use cede_grid.Coordinator.Steps.Change.{
  Change, Change-trans, Change-same, Change-update, Change-fence,
}

-- The report names the allocation as released, at the generation of its attempt.
abbrev pub is_released_at : String → ℕ → AllocationReport → Bool
is_released_at id generation a =
    a.assignment_id == id && a.generation == generation && a.phase == RemotePhase.released

-- A report may release the allocations of its node that it names so.
abbrev pub reports_release : List AssignmentRow → NodeReport → Allows
reports_release assignments report id node_id =
    node_id == report.node_id && elim (find_assignment id assignments) [
      | none ↦ false
      | some row ↦ any (is_released_at id row.generation) report.allocations
    ]

-- What the chain of conditions keeps: nothing is released that is not reported so, and what is
-- fenced does not become live.
pub next_phase-held :
    (old phase : RemotePhase) (alarming fenced : Bool)
    → (not (is_held old)
        || is_held (next_phase old phase alarming fenced)
        || phase == RemotePhase.released)
      ≡ true
unfolding next_phase
next_phase-held old phase alarming fenced = ground arith

pub next_phase-fenced :
    (old phase : RemotePhase) (alarming : Bool)
    → is_live old ≡ false
    → is_live (next_phase old phase alarming true) ≡ false
unfolding next_phase
next_phase-fenced old phase alarming h = ground (arith, h)

-- The part of a report that the loop has still to read.
abbrev pub Listed : NodeReport → AllocationReport → Type 0
Listed report a = (p : AllocationReport → Bool) → p a ≡ true → any p report.allocations ≡ true

any-cons :
    (x : AllocationReport) (xs part : List AllocationReport)
    → All (λ a. (p : AllocationReport → Bool) → p a ≡ true → any p xs ≡ true) part
    → All (λ a. (p : AllocationReport → Bool) → p a ≡ true → any p (x ∷ xs) ≡ true) part
any-cons x xs [] h = tt
any-cons x xs (a ∷ rest) h = (λ p e. ground (arith, h.0 p e), any-cons x xs rest h.1)

pub All-Listed :
    (xs : List AllocationReport)
    → All (λ a. (p : AllocationReport → Bool) → p a ≡ true → any p xs ≡ true) xs
All-Listed [] = tt
All-Listed (x ∷ xs) = (λ p e. ground (arith, e), any-cons x xs xs (All-Listed xs))

-- A released report of the node is one that the report allows.
allows_release :
    (assignments : List AssignmentRow) (report : NodeReport) (a : AllocationReport)
    (r : Reservation) (row : AssignmentRow)
    → find_assignment a.assignment_id assignments ≡ some row
    → r.node_id == report.node_id ≡ true
    → row.generation == a.generation ≡ true
    → a.phase == RemotePhase.released ≡ true
    → Listed report a
    → reports_release assignments report a.assignment_id r.node_id ≡ true
allows_release assignments report a r row f n g p h =
    let q : is_released_at a.assignment_id row.generation a ≡ true =
      ground (arith, eq_iff a.assignment_id a.assignment_id, g, p) in
    rw f (ground (arith, n, h (is_released_at a.assignment_id row.generation) q))

reported_row-Follows :
    (assignments : List AssignmentRow) (report : NodeReport) (a : AllocationReport)
    (r : Reservation) (row : AssignmentRow) (alarming fenced : Bool)
    → find_assignment a.assignment_id assignments ≡ some row
    → r.node_id == report.node_id ≡ true
    → row.generation == a.generation ≡ true
    → Listed report a
    → Follows
        (reports_release assignments report)
        a.assignment_id
        r
        (reported_row (next_phase r.phase a.phase alarming fenced) a.observed r)
reported_row-Follows assignments report a r row alarming fenced f n g h = record {
  node = refl;
  resources = refl;
  sequence = omega arith;
  held = elim (Bool-cases (a.phase == RemotePhase.released)) [
    | inl y ↦ ground (arith, allows_release assignments report a r row f n g y h)
    | inr z ↦ ground (arith, next_phase-held r.phase a.phase alarming fenced, z)
  ];
}

module _ (report : NodeReport) where
  abbrev pub May : Ledger → Allows
  May l = reports_release l.store.assignments report

  -- The writes on an allocation, whose row was found.
  write_phase-Change :
      (may : Allows) (l : Ledger) (a : AllocationReport) (r : Reservation) (alarming : Bool)
      → find_reservation a.assignment_id l.reservations ≡ some r
      → Follows may a.assignment_id r (
          reported_row
            (next_phase r.phase a.phase alarming (contains l.fences a.assignment_id))
            a.observed
            r)
      → Change may l (
          write_phase l a (next_phase r.phase a.phase alarming (contains l.fences a.assignment_id)))
  unfolding write_phase
  write_phase-Change may l a r alarming f g =
      let id = a.assignment_id in
      let phase = next_phase r.phase a.phase alarming (contains l.fences id) in
      let drains =
        if phase == RemotePhase.draining
        then set_insert id l.drain_requests
        else l.drain_requests in
      let m : Ledger = record l { drain_requests = drains } in
      let first : Change may l m = Change-same may l m refl refl refl in
      let row = reported_row phase a.observed in
      let same = λ (x : Reservation) (h : find_reservation id l.reservations ≡ some x).
        some-injective {a = r} {b = x} (sym f ∙ h) in
      let follows = λ (x : Reservation) (h : find_reservation id l.reservations ≡ some x).
        subst (λ y. Follows may id y (row y)) (same x h) g in
      elim (Bool-cases (phase == RemotePhase.uncertain)) [
        | inl y ↦ rw y (
            Change-trans may l m _ first (
              Change-fence may m id row r f (λ x e. e) follows
                (λ x. ap is_live ((phase_eq_iff phase RemotePhase.uncertain).0 y))))
        | inr n ↦ rw n (
            Change-trans may l m _ first (
              Change-update may m id row (λ x e. e) follows
                (λ x h c d.
                  subst (λ (b : Bool). is_live (next_phase r.phase a.phase alarming b) ≡ false)
                    (sym c)
                    (next_phase-fenced r.phase a.phase alarming
                      (ap (λ (y : Reservation). is_live y.phase) (same x h) ∙ d)))))
      ]

  report_unknown-same :
      (node_id : String) (l : Ledger) (a : AllocationReport) {l' : Ledger}
      → report_unknown node_id l a ≡ ok l'
      → (l'.reservations ≡ l.reservations) × (l'.fences ≡ l.fences) × (l'.store ≡ l.store)
  unfolding report_unknown db
  report_unknown-same node_id l a h = (ground (arith, h), ground (arith, h), ground (arith, h))

  -- A step of the loop: what it may release is decided by the attempts, which it leaves alone.
  pub record Moves (l l' : Ledger) : Type 0 where
    pub change : Change (May l) l l'
    pub store : l'.store ≡ l.store

  pub Moves-unknown :
      (node_id : String) (l : Ledger) (a : AllocationReport) {l' : Ledger}
      → report_unknown node_id l a ≡ ok l'
      → Moves l l'
  Moves-unknown node_id l a {l'} h =
      let u = report_unknown-same node_id l a h in
      record {
        change = Change-same (May l) l l' u.0 u.1 (ap (λ (s : Store). s.assignments) u.2);
        store = u.2;
      }

  pub report_known-Moves :
      (previous : Option ℕ) (s : Reported) (a : AllocationReport) (r : Reservation)
      (row : AssignmentRow) {s' : Reported}
      → find_reservation a.assignment_id s.ledger.reservations ≡ some r
      → find_assignment a.assignment_id s.ledger.store.assignments ≡ some row
      → Listed report a
      → report_known report previous s a r row ≡ ok s'
      → Moves s.ledger s'.ledger
  unfolding report_known
  report_known-Moves previous s a r row {s'} f g h e =
      let alarming =
        contradicts r.phase a.phase previous report.observed_at_unix_ms
        || invalid_running r.lease_sequence a.phase in
      let fenced = contains s.ledger.fences a.assignment_id in
      let (owned, e1) =
        ensure-eq-ok (r.node_id == report.node_id && row.generation == a.generation)
          CoordinatorError.foreign_allocation _ e in
      let own = and-eq-true (r.node_id == report.node_id) (row.generation == a.generation) owned in
      let done = ap (λ (x : Reported). x.ledger) (ok-injective e1) in
      let c = write_phase-Change (May s.ledger) s.ledger a r alarming f (
        reported_row-Follows s.ledger.store.assignments report a r row alarming fenced g own.0 own.1
          h) in
      record {
        change = subst (λ x. Change (May s.ledger) s.ledger x) done c;
        store = ap (λ (x : Ledger). x.store) (sym done) ∙ written s.ledger a _;
      }
    where
      written :
          (l : Ledger) (a : AllocationReport) (phase : RemotePhase)
          → (write_phase l a phase).store ≡ l.store
      written l a phase = unfold write_phase in refl
