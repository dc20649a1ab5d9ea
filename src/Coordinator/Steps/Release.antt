-- ===== src/Coordinator/Steps/Release.antt =====
-- src/coordinator.rs, `heartbeat`, as a change of the ledger.
use cede_grid.Common.{
  ℕ, String, true, ◌&&◌, some, List, [], ◌∷◌, ◌==◌, String_eq, ◌≡◌, refl, arith, Bool-cases,
  Option-cases, inl, inr, ok, err, Result, is_empty,
}
use cede_grid.Protocol.{
  CoordinatorConfig, NodeReport, AllocationReport, FailureKind, RemotePhase, RemotePhase_eq,
}
use cede_grid.Store.Tables.{AssignmentRow, find_assignment}
use cede_grid.Coordinator.Tables.{CoordinatorError, Ledger, Services}
use cede_grid.Coordinator.Outcome.{commit}
use cede_grid.Coordinator.Failure.{record_failure}
use cede_grid.Coordinator.Heartbeat.{
  heartbeat, check_report, apply_report, yield_loop, offer_work, finished, is_waiting, is_fresh,
  observed_live,
}
use cede_grid.Coordinator.Schedule.{schedule}
use cede_grid.Coordinator.Steps.Rows.{nothing}
use cede_grid.Coordinator.Steps.Change.{
  Change, Change-refl, Change-weaken, Change-widen, after-Change, require-Change, commit-Change,
}
use cede_grid.Coordinator.Steps.Rest.{Same-Change, record_failure-Same}
use cede_grid.Coordinator.Steps.Schedule.{schedule-Change}
use cede_grid.Coordinator.Steps.Report.{reports_release, May}
use cede_grid.Coordinator.Steps.Heartbeat.{apply_report-Change}

yield_loop-Change :
    (config : CoordinatorConfig) (now : ℕ) (l : Ledger) (part : List AllocationReport)
    → Change nothing l (yield_loop config now l part).0
unfolding yield_loop
yield_loop-Change config now l [] = Change-refl nothing l
yield_loop-Change config now l (a ∷ rest) =
    elim (Bool-cases (a.phase == RemotePhase.released && is_waiting l a)) [
      | inr n ↦ rw (n, yield_loop) (yield_loop-Change config now l rest)
      | inl y ↦
          rw (y, yield_loop)
            (after-Change nothing l
              (finished l
                (record_failure config l a.assignment_id a.generation FailureKind.yielded now))
              (λ _ next. yield_loop config now next rest)
              (finished-Change l _ (λ m e. Same-Change l m (
                record_failure-Same config l a.assignment_id a.generation FailureKind.yielded now
                  e)))
              (λ u m e. yield_loop-Change config now m rest))
    ]
  where
    finished-Change :
        (l : Ledger) (r : Result CoordinatorError Ledger)
        → ((m : Ledger) → r ≡ ok m → Change nothing l m)
        → Change nothing l (finished l r).0
    finished-Change l (err e) n = Change-refl nothing l
    finished-Change l (ok m) n = n m refl

offer_work-Change :
    (env : Services) (config : CoordinatorConfig) (report : NodeReport) (now : ℕ)
    (unknown : List String) (l : Ledger)
    → Change nothing l (offer_work env config report now unknown l).0
unfolding offer_work
offer_work-Change env config report now unknown l =
    elim (Bool-cases (
      is_fresh config report now
      && observed_live report
      && is_empty unknown
      && report.expansion_allowed)) [
        | inl y ↦ rw y (offered (schedule env config l report now) refl)
        | inr n ↦ rw n (Change-refl nothing l)
      ]
  where
    offered :
        (r : Result CoordinatorError Ledger)
        → schedule env config l report now ≡ r
        → Change nothing l (finished l r).0
    offered (err e) h = Change-refl nothing l
    offered (ok m) h = schedule-Change env config l report now h

-- What a report may release does not depend on the attempts that are added.
reports_release-later :
    (l l' : Ledger) (report : NodeReport) (id node_id : String)
    → ((id : String) (a : AssignmentRow)
        → find_assignment id l.store.assignments ≡ some a
        → find_assignment id l'.store.assignments ≡ some a)
    → reports_release l.store.assignments report id node_id ≡ true
    → reports_release l'.store.assignments report id node_id ≡ true
reports_release-later l l' report id node_id k h =
    elim (Option-cases (find_assignment id l.store.assignments)) [
      | inl n ↦ ground (arith, rw n at h)
      | inr (a, f) ↦ rw (k id a f) (rw f at h)
    ]

pub heartbeat-Change :
    (env : Services) (config : CoordinatorConfig) (l : Ledger) (report : NodeReport) (now : ℕ)
    → Change
        (May report (heartbeat env config l report now).0)
        l
        (heartbeat env config l report now).0
heartbeat-Change env config l report now =
    let l' = (heartbeat env config l report now).0 in
    let c : Change (May report l) l l' = moved in
    Change-widen (May report l) (May report l') l l'
      (λ id n. reports_release-later l l' report id n c.assigned) c
  where
    moved : Change (May report l) l (heartbeat env config l report now).0
    moved =
        unfold heartbeat in
        require-Change (May report l) l (check_report env config l report now) _ (λ u e.
          after-Change (May report l) l (commit l (apply_report l report now)) _
            (commit-Change (May report l) l (apply_report l report now)
              (λ a m h. apply_report-Change l report now h))
            (λ unknown l1 e1. Change-weaken (May report l) l1 _ (
              after-Change nothing l1 (yield_loop config now l1 report.allocations) _
                (yield_loop-Change config now l1 report.allocations)
                (λ v l2 e2.
                  after-Change nothing l2 (offer_work env config report now unknown l2) _
                    (offer_work-Change env config report now unknown l2)
                    (λ w l3 e3. Change-refl nothing l3)))))
