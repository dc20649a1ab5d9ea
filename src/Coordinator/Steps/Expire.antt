-- ===== src/Coordinator/Steps/Expire.antt =====
-- src/coordinator.rs, `expire` and `advance_clock`, as changes of the ledger.
use cede_grid.Common.{
  ℕ, String, ◌&&◌, List, [], ◌∷◌, ◌==◌, String_eq, ◌≡◌, refl, arith, leb, ltb, All, Bool-cases,
  Option-cases, inl, inr, ok, err, ensure, subst, Result,
}
use cede_grid.Execution.{AllocationClass, AllocationClass_eq}
use cede_grid.Store.Tables.{Store, TaskStatus, find_assignment}
use cede_grid.Store.Tasks.{mark_uncertain}
use cede_grid.Coordinator.Tables.{CoordinatorError, Ledger, Reservation, find_spec, is_live, db}
use cede_grid.Coordinator.Outcome.{Outcome}
use cede_grid.Coordinator.Expire.{
  expired_rows, expire_rows, fence_row, lose_attempt, expire, advance_clock, uncertain_row,
}
use cede_grid.Coordinator.Steps.Rows.{nothing}
use cede_grid.Coordinator.Steps.Change.{
  Change, Change-refl, Change-trans, Change-same, Change-fence, after-Change, require-Change,
}
use cede_grid.Coordinator.Steps.Found.{Has, All-Has-Keeps, AllFound, rows-AllFound}

abbrev Rows : Type 0
Rows = List (String × String × ℕ)

abbrev HasAll : Ledger → Rows → Type 0
HasAll l = All (λ x. Has l.reservations x.0)

expired-HasAll :
    (l : Ledger) (now : ℕ) (part : List Reservation)
    → AllFound l.reservations part
    → HasAll l (expired_rows l now part)
unfolding expired_rows
expired-HasAll l now [] h = tt
expired-HasAll l now (r ∷ rest) h =
    let more = expired-HasAll l now rest h.1 in
    elim (Bool-cases (is_live r.phase && leb r.lease_deadline_ms now)) [
      | inr n ↦ rw n more
      | inl y ↦ rw y (elim (Option-cases (find_assignment r.assignment_id l.store.assignments)) [
        | inl none' ↦ rw none' more
        | inr (a, fa) ↦ rw fa (elim (Option-cases (find_spec a.task_id l.task_specs)) [
          | inl none' ↦ rw none' more
          | inr (s, fs) ↦
              rw fs (elim (Bool-cases (s.request.class == AllocationClass.opportunistic)) [
                | inl o ↦ rw o (h.0, more)
                | inr o ↦ rw o more
              ])
        ])
      ])
    ]

mark_uncertain-assignments :
    (s : Store) (task : String) (n : ℕ) {t : TaskStatus} {s' : Store}
    → mark_uncertain s task n ≡ ok (t, s')
    → s'.assignments ≡ s.assignments
unfolding mark_uncertain
mark_uncertain-assignments s task n h = ground (arith, h)

lose_attempt-Change :
    (l : Ledger) (task : String) (n : ℕ) → Change nothing l (lose_attempt l task n).0
unfolding lose_attempt
lose_attempt-Change l task n = at (mark_uncertain l.store task n) refl
  where
    at :
        (m : Result _ (TaskStatus × Store))
        → mark_uncertain l.store task n ≡ m
        → Change nothing l (lose_attempt l task n).0
    at (err e) h = rw (h, lose_attempt) (Change-refl nothing l)
    at (ok (t, s)) h =
        rw (h, lose_attempt)
          (Change-same nothing l (record l { store = s }) refl refl
            (mark_uncertain-assignments l.store task n h))

fence-Change :
    (l : Ledger) (id : String) → Has l.reservations id → Change nothing l (fence_row l id)
fence-Change l id h =
    Change-fence nothing l id uncertain_row h.row h.found (λ x e. e)
      (λ x f. record { node = refl; resources = refl; sequence = omega arith; held = ground arith })
      (λ x. refl)

HasAll-Change : (l l' : Ledger) (ids : Rows) → Change nothing l l' → HasAll l ids → HasAll l' ids
HasAll-Change l l' [] c h = tt
HasAll-Change l l' (x ∷ rest) c h = (
  (All-Has-Keeps nothing l.reservations l'.reservations (x.0 ∷ []) c.keeps (h.0, tt)).0,
  HasAll-Change l l' rest c h.1,
)

expire_rows-Change :
    (l : Ledger) (ids : Rows) → HasAll l ids → Change nothing l (expire_rows l ids).0
unfolding expire_rows
expire_rows-Change l [] h = Change-refl nothing l
expire_rows-Change l ((id, task, n) ∷ rest) h =
    let f = fence-Change l id h.0 in
    let c =
      Change-trans nothing l (fence_row l id) (lose_attempt (fence_row l id) task n).0 f
        (lose_attempt-Change (fence_row l id) task n) in
    after-Change nothing l (lose_attempt (fence_row l id) task n) (λ _ next. expire_rows next rest)
      c
      (λ a m e.
        expire_rows-Change m rest (
          HasAll-Change l m rest (subst (λ (o : Outcome (Unit {0})). Change nothing l o.0) e c)
            h.1))

pub expire-Change : (l : Ledger) (now : ℕ) → Change nothing l (expire l now).0
unfolding expire
expire-Change l now =
    require-Change nothing l (db now) (λ _. expire_rows l (expired_rows l now l.reservations))
      (λ a e.
        expire_rows-Change l (expired_rows l now l.reservations)
          (expired-HasAll l now l.reservations (rows-AllFound l.reservations)))

-- The clock goes forward, and what ran out is fenced.
pub advance_clock-Change : (l : Ledger) (now : ℕ) → Change nothing l (advance_clock l now).0
unfolding advance_clock
advance_clock-Change l now =
    require-Change nothing l (ensure (leb l.last_clock_ms now) CoordinatorError.clock_backwards) _
      (λ a e. elim (Bool-cases (ltb l.last_clock_ms now)) [
        | inl y ↦ rw y (
            require-Change nothing l (db now) (λ _. expire (record l { last_clock_ms = now }) now)
              (λ b f.
                Change-trans nothing l (record l { last_clock_ms = now })
                  (expire (record l { last_clock_ms = now }) now).0
                  (Change-same nothing l (record l { last_clock_ms = now }) refl refl refl)
                  (expire-Change (record l { last_clock_ms = now }) now)))
        | inr n ↦ rw n (expire-Change l now)
      ])
