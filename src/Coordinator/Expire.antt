-- ===== src/Coordinator/Expire.antt =====
-- src/coordinator.rs, `expire` and `advance_clock`: an authorization that ran out is uncertain, and
-- its capacity stays reserved.
use cede_grid.Common.{
  ℕ, String, ◌&&◌, none, some, List, [], ◌∷◌, ◌==◌, String_eq, ltb, leb, set_insert, if◌then◌else◌,
  ok, err, ensure,
}
use cede_grid.Execution.{AllocationClass, AllocationClass_eq}
use cede_grid.Protocol.{RemotePhase}
use cede_grid.Store.Tasks.{mark_uncertain}
use cede_grid.Coordinator.Tables.{
  CoordinatorError, Ledger, Reservation, find_spec, update_reservation, is_live, db,
}
use cede_grid.Store.Tables.{find_assignment}
use cede_grid.Coordinator.Outcome.{Outcome, after, require}

-- the row of an allocation that is no longer known to be what was authorized
abbrev pub uncertain_row : Reservation → Reservation
uncertain_row r = record r { phase = RemotePhase.uncertain }

-- The selected rows: the ID, the task and the generation of each live opportunistic allocation whose
-- deadline has passed. The loop skips the other classes.
unfoldable pub expired_rows : Ledger → ℕ → List Reservation → List (String × String × ℕ)
expired_rows l now [] = []
expired_rows l now (r ∷ rest) =
    let more = expired_rows l now rest in
    if is_live r.phase && leb r.lease_deadline_ms now
    then elim (find_assignment r.assignment_id l.store.assignments) [
      | none ↦ more
      | some a ↦ elim (find_spec a.task_id l.task_specs) [
        | none ↦ more
        | some s ↦
            if s.request.class == AllocationClass.opportunistic
            then (r.assignment_id, a.task_id, a.generation) ∷ more
            else more
      ]
    ]
    else more

-- the two statements of the loop body that stand alone
abbrev pub fence_row : Ledger → String → Ledger
fence_row l id = record l {
  reservations = update_reservation id uncertain_row l.reservations;
  fences = set_insert id l.fences;
}

-- `StateStore::mark_uncertain`, on the coordinator's store
unfoldable pub lose_attempt : Ledger → String → ℕ → Outcome (Unit {0})
lose_attempt l task generation = elim (mark_uncertain l.store task generation) [
  | err e ↦ (l, err (CoordinatorError.of_store e))
  | ok (_, s) ↦ (record l { store = s }, ok tt)
]

unfoldable pub expire_rows : Ledger → List (String × String × ℕ) → Outcome (Unit {0})
expire_rows l [] = (l, ok tt)
expire_rows l ((id, task, generation) ∷ rest) =
    after (lose_attempt (fence_row l id) task generation) (λ _ next. expire_rows next rest)

-- `expire`
unfoldable pub expire : Ledger → ℕ → Outcome (Unit {0})
expire l now = require l (db now) (λ _. expire_rows l (expired_rows l now l.reservations))

-- `advance_clock`
unfoldable pub advance_clock : Ledger → ℕ → Outcome (Unit {0})
advance_clock l now =
    require l (ensure (leb l.last_clock_ms now) CoordinatorError.clock_backwards) (λ _.
      if ltb l.last_clock_ms now
      then require l (db now) (λ _. expire (record l { last_clock_ms = now }) now)
      else expire l now)
