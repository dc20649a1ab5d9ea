-- ===== src/Store/Steps/Barrier.antt =====
-- No execution may run user code before its required controls are verified.
use cede_grid.Common.{
  String, Bool, true, false, ◌&&◌, ◌||◌, not, some, ◌≡◌, arith, ok, is_some, all, any, ensure-eq-ok,
  ◌==◌, String_eq, contains, ensure,
}
use cede_grid.Execution.{
  LaunchRequest, ExecutionRecord, is_authorizing, verifies, ControlEvidence_eq,
}
use cede_grid.Store.Tables.{Store, StoreError, ExecutionRow, find_execution}
use cede_grid.Store.Transition.{check_barrier, is_launching, is_recovery}
use cede_grid.Store.Steps.{Reach}
use cede_grid.Store.Steps.Origins.{Origin, Step-Origin}

-- The row has a process identity and a backend, and evidence of every required control.
pub record IsVerified (request : LaunchRequest) (entry : ExecutionRecord) : Type 0 where
  pub identity : is_some entry.identity ≡ true
  pub backend : entry.backend == "unprepared" ≡ false
  pub controls : all (λ c. any (verifies c) entry.evidence) request.required_controls ≡ true

-- Every execution that may run user code is verified.
abbrev pub HasBarrier : Store → Type 0
HasBarrier s =
    (j : String) (x : ExecutionRow)
    → find_execution j s.executions ≡ some x
    → is_authorizing x.entry.phase ≡ true
    → IsVerified x.request x.entry

pub check_barrier-IsVerified :
    (request : LaunchRequest) (old entry : ExecutionRecord)
    → check_barrier request old entry ≡ ok tt
    → is_authorizing entry.phase ≡ true
    → IsVerified request entry
unfolding check_barrier
check_barrier-IsVerified request old entry h a =
    let (b, h1) =
      ensure-eq-ok
        (not (is_launching entry.phase)
          || is_some entry.identity && not (entry.backend == "unprepared"))
        StoreError.barrier _ h in
    let (c, h2) =
      ensure-eq-ok
        (not (is_authorizing entry.phase)
          || all (λ required. any (verifies required) entry.evidence) request.required_controls)
        StoreError.control_unverified
        (ensure
          (all (λ marker. not (is_recovery marker) || contains entry.evidence marker) old.evidence)
          StoreError.marker_removed)
        h1 in
    record {
      identity = ground (arith, b);
      backend = ground (arith, b);
      controls = ground (arith, c);
    }

Origin-IsVerified :
    (s : Store) (j : String) (x : ExecutionRow)
    → HasBarrier s
    → Origin s j x
    → is_authorizing x.entry.phase ≡ true
    → IsVerified x.request x.entry
Origin-IsVerified s j x i (Origin.kept f) a = i j x f a
Origin-IsVerified s j x i (Origin.fresh n r idle) a = cc
Origin-IsVerified s j x i (Origin.moved row f q c b free) a =
    rw q (check_barrier-IsVerified row.request row.entry x.entry b a)

module _ (same_request : LaunchRequest → LaunchRequest → Bool) where
  -- From a store where every execution that is authorized or running has an identity, a prepared
  -- backend and applied evidence of all required controls, any sequence of operations leads to
  -- such a store.
  pub Reach-HasBarrier : {s s' : Store} → HasBarrier s → Reach same_request s s' → HasBarrier s'
  Reach-HasBarrier i Reach.here = i
  Reach-HasBarrier i (Reach.next {t = t} r step) = λ j x f a.
      Origin-IsVerified t j x (Reach-HasBarrier i r) (Step-Origin same_request j x step f) a
