-- ===== src/Coordinator/Steps/Heartbeat.antt =====
-- src/coordinator.rs, `heartbeat`: the transaction that takes a report, as a change of the ledger.
use cede_grid.Common.{
  ℕ, String, Bool, true, false, not, Option, none, some, List, [], ◌∷◌, ◌++◌, String_eq, ℕ_eq, ◌≡◌,
  refl, arith, contains, All, ok, >>=-eq-ok, ensure-eq-ok, ok-injective, subst, ap, ◌∙◌, is_some,
  set_insert,
}
use cede_grid.Protocol.{NodeReport, AllocationReport}
use cede_grid.Store.Tables.{Store, AssignmentRow, find_assignment}
use cede_grid.Coordinator.Tables.{
  CoordinatorError, Ledger, Reservation, find_reservation, db, update_reservation,
}
use cede_grid.Coordinator.Heartbeat.Report.{
  Reported, report_unknown, report_at, report_step, report_loop, report_missing, miss, missing_row,
  is_outstanding, replay_ready,
}
use cede_grid.Coordinator.Heartbeat.{apply_report, save_node, make_ready, previous_observed}
use cede_grid.Coordinator.Steps.Rows.{nothing}
use cede_grid.Coordinator.Steps.Change.{
  Change, Change-refl, Change-trans, Change-same, Change-fence, Change-weaken,
}
use cede_grid.Coordinator.Steps.Found.{Has, All-Has-Keeps, rows-AllFound, filter-Has, filter-All}
use cede_grid.Coordinator.Steps.Report.{
  Listed, All-Listed, Moves, Moves-unknown, report_known-Moves, May,
}

module _ (report : NodeReport) where
  Moves-trans : (a b c : Ledger) → Moves report a b → Moves report b c → Moves report a c
  Moves-trans a b c f g = record {
    change =
        Change-trans (May report a) a b c f.change (
          subst (λ (s : Store). Change (May report (record b { store = s })) b c) f.store g.change);
    store = g.store ∙ f.store;
  }

  report_at-Moves :
      (previous : Option ℕ) (s : Reported) (a : AllocationReport) (r : Option Reservation)
      (row : Option AssignmentRow) {s' : Reported}
      → find_reservation a.assignment_id s.ledger.reservations ≡ r
      → find_assignment a.assignment_id s.ledger.store.assignments ≡ row
      → Listed report a
      → report_at report previous s a r row ≡ ok s'
      → Moves report s.ledger s'.ledger
  unfolding report_at
  report_at-Moves previous s a (some r) (some row) f g h e =
      report_known-Moves report previous s a r row f g h e
  report_at-Moves previous s a (some r) none f g h e =
      let (l, u, p) = >>=-eq-ok (report_unknown report.node_id s.ledger a) _ e in
      subst (λ x. Moves report s.ledger x) (ap (λ (x : Reported). x.ledger) (ok-injective p))
        (Moves-unknown report report.node_id s.ledger a u)
  report_at-Moves previous s a none row f g h e =
      let (l, u, p) = >>=-eq-ok (report_unknown report.node_id s.ledger a) _ e in
      subst (λ x. Moves report s.ledger x) (ap (λ (x : Reported). x.ledger) (ok-injective p))
        (Moves-unknown report report.node_id s.ledger a u)

  report_loop-Moves :
      (previous : Option ℕ) (s : Reported) (part : List AllocationReport) {s' : Reported}
      → All (Listed report) part
      → report_loop report previous s part ≡ ok s'
      → Moves report s.ledger s'.ledger
  unfolding report_loop report_step
  report_loop-Moves previous s [] h e =
      subst (λ (x : Reported). Moves report s.ledger x.ledger) (ok-injective e)
        (record { change = Change-refl (May report s.ledger) s.ledger; store = refl })
  report_loop-Moves previous s (a ∷ rest) {s'} h e =
      let (m, st, e1) = >>=-eq-ok (report_step report previous s a) _ e in
      let (d, e2) =
        ensure-eq-ok (not (contains s.seen a.assignment_id)) CoordinatorError.duplicate_report _
          st in
      Moves-trans s.ledger m.ledger s'.ledger (report_at-Moves previous s a _ _ refl refl h.0 e2)
        (report_loop-Moves previous m rest h.1 e1)

-- An allocation that the report omits is fenced, and keeps its capacity.
miss-Change :
    (s : Reported) (ids : List String)
    → All (Has s.ledger.reservations) ids
    → Change nothing s.ledger (miss s ids).ledger
unfolding miss
miss-Change s [] h = Change-refl nothing s.ledger
miss-Change s (id ∷ ids) h =
    let t : Reported = record s {
      ledger = record s.ledger {
        reservations = update_reservation id missing_row s.ledger.reservations;
        fences = set_insert id s.ledger.fences;
      };
      unknown = s.unknown ++ (id ∷ []);
    } in
    let c =
      Change-fence nothing s.ledger id missing_row h.0.row h.0.found (λ x e. e)
        (λ x f. record {
          node = refl;
          resources = refl;
          sequence = omega arith;
          held = ground arith;
        })
        (λ x. refl) in
    Change-trans nothing s.ledger t.ledger (miss t ids).ledger c (
      miss-Change t ids
        (All-Has-Keeps nothing s.ledger.reservations t.ledger.reservations ids c.keeps h.1))

report_missing-Change :
    (node_id : String) (replayable : Bool) (s : Reported)
    → Change nothing s.ledger (report_missing node_id replayable s).ledger
unfolding report_missing
report_missing-Change node_id replayable s = miss-Change s _ (
    filter-All (Has s.ledger.reservations) (λ id. not (contains s.seen id)) _
      (filter-Has s.ledger.reservations s.ledger.reservations (is_outstanding node_id replayable)
        (rows-AllFound s.ledger.reservations)))

make_ready-Change :
    (l : Ledger) (node_id : String) (ready : Option Bool)
    → Change nothing l (make_ready l node_id ready)
unfolding make_ready
make_ready-Change l node_id none = Change-refl nothing l
make_ready-Change l node_id (some true) = Change-refl nothing l
make_ready-Change l node_id (some false) = Change-same nothing l _ refl refl refl

-- The whole transaction releases only what the report names.
pub apply_report-Change :
    (l : Ledger) (report : NodeReport) (now : ℕ) {unknown : List String} {l' : Ledger}
    → apply_report l report now ≡ ok (unknown, l')
    → Change (May report l) l l'
unfolding apply_report save_node
apply_report-Change l report now {unknown} {l'} h =
    let (d, e1, h1) = >>=-eq-ok (db now) _ h in
    let ready = replay_ready l report.node_id in
    let start : Reported = record { ledger = save_node l report now; unknown = []; seen = [] } in
    let (s, lp, h2) =
      >>=-eq-ok (report_loop report (previous_observed l report.node_id) start report.allocations) _
        h1 in
    let m = report_missing report.node_id (is_some ready) s in
    let may = May report l in
    let saved : Change may l start.ledger = Change-same may l start.ledger refl refl refl in
    let looped =
      (report_loop-Moves report (previous_observed l report.node_id) start report.allocations
        (All-Listed report.allocations) lp).change in
    let missed =
      Change-trans nothing s.ledger m.ledger (make_ready m.ledger report.node_id ready)
        (report_missing-Change report.node_id (is_some ready) s)
        (make_ready-Change m.ledger report.node_id ready) in
    let done = ap (λ (x : List String × Ledger). x.1) (ok-injective h2) in
    subst (λ x. Change may l x) done
      (Change-trans may l start.ledger _ saved (
        Change-trans may start.ledger s.ledger _ looped
          (Change-weaken may s.ledger (make_ready m.ledger report.node_id ready) missed)))
