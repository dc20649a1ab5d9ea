-- ===== src/Store/Steps/Family.antt =====
-- The managed children of a family: the limit of its request, and none left at its release.
use cede_grid.Common.{
  ℕ, ◌≤◌, String, Bool, true, false, Option, none, some, ◌≡◌, inl, inr, arith, leb, if◌then◌else◌,
  Bool-cases, Option-cases, eq_iff, ◌==◌, String_eq,
}
use cede_grid.Execution.{LaunchRequest, ExecutionRecord, is_authorizing, is_released}
use cede_grid.Store.Tables.{Store, ExecutionRow, find_execution, held_children}
use cede_grid.Store.Children.Laws.{Added, reserve_child-Added, prepare-Kept, move-Kept}
use cede_grid.Store.Transition.Laws.{transition-Transitioned}
use cede_grid.Store.Steps.{Step, Reach}
use cede_grid.Store.Steps.Effects.{
  submit-Untouched, assign-Untouched, mark_uncertain-Untouched, accept_result-Untouched,
  reserve-Appended, import-Appended,
}
use cede_grid.Store.Steps.Origins.{Origin, Step-Origin, Step-finds}

-- How many children a family may hold: none once it is released, and none where its request opts
-- in to no limit from 1 to 8.
abbrev pub family_bound : Option ExecutionRow → ℕ
family_bound none = 0
family_bound (some x) =
    if is_released x.entry.phase
    then 0
    else if leb x.request.managed_child_limit 8
    then x.request.managed_child_limit
    else 0

-- Each assignment holds as many unreleased children as its family may.
abbrev pub IsBounded : Store → Type 0
IsBounded s =
    (j : String) → held_children j s.children ≤ family_bound (find_execution j s.executions)

authorizing-live :
    (e : ExecutionRecord) → is_authorizing e.phase ≡ true → is_released e.phase ≡ false
authorizing-live e h = ground arith

-- Children that stay at most as many, under rows that a step keeps or changes.
Origin-bound :
    (s : Store) (j : String) (x : ExecutionRow)
    → held_children j s.children ≤ family_bound (find_execution j s.executions)
    → Origin s j x
    → held_children j s.children ≤ family_bound (some x)
Origin-bound s j x i (Origin.kept f) = rw f at i
Origin-bound s j x i (Origin.fresh n live idle) = omega (arith, rw n at i)
Origin-bound s j x i (Origin.moved row f q c b free) =
    elim (Bool-cases (is_released x.entry.phase)) [
      | inl y ↦ rw (free y) (omega arith)
      | inr n ↦ rw (n, q) (ground (arith, rw f at i))
    ]

Added-bound :
    (s s' : Store) (a j : String)
    → Added s a s'
    → IsBounded s
    → held_children j s'.children ≤ family_bound (find_execution j s'.executions)
Added-bound s s' a j d i =
    let live = authorizing-live d.parent.entry d.active in
    elim (Bool-cases (a == j)) [
      | inl y ↦
          let e = (eq_iff a j).0 y in
          let f = rw e at d.found in
          rw (d.rows, d.held j, y, f, live) (ground (arith, d.limit, rw e at d.room))
      | inr n ↦ rw (d.rows, d.held j, n) (omega (arith, i j))
    ]

module _ (same_request : LaunchRequest → LaunchRequest → Bool) where
  -- A step that leaves no family with more children.
  shrinks :
      {s s' : Store} (j : String)
      → IsBounded s
      → Step same_request s s'
      → held_children j s'.children ≤ held_children j s.children
      → held_children j s'.children ≤ family_bound (find_execution j s'.executions)
  shrinks {s = s} {s' = s'} j i step k = elim (Option-cases (find_execution j s'.executions)) [
    | inl n ↦ let b = i j in rw n (omega (arith, k, rw (Step-finds same_request j step n) at b))
    | inr (x, g) ↦
        rw g (omega (arith, k, Origin-bound s j x (i j) (Step-Origin same_request j x step g)))
  ]

  Step-IsBounded : {s s' : Store} → IsBounded s → Step same_request s s' → IsBounded s'
  Step-IsBounded i (Step.submits id safe h) = λ j.
      shrinks j i (Step.submits id safe h) (rw (submit-Untouched _ id safe h).kids (omega arith))
  Step-IsBounded i (Step.assigns id a n h) =
      λ j. shrinks j i (Step.assigns id a n h) (rw (assign-Untouched _ id a h).kids (omega arith))
  Step-IsBounded i (Step.loses id n t h) = λ j.
      shrinks j i (Step.loses id n t h) (rw (mark_uncertain-Untouched _ id n h).kids (omega arith))
  Step-IsBounded i (Step.accepts id n hash r h) = λ j.
      shrinks j i (Step.accepts id n hash r h)
        (rw (accept_result-Untouched _ id n hash h).kids (omega arith))
  Step-IsBounded i (Step.reserves request capacity remote entry h) = λ j.
      shrinks j i (Step.reserves request capacity remote entry h)
        (rw (reserve-Appended _ request capacity remote h).kids (omega arith))
  Step-IsBounded {s = s} i (Step.transits boot entry h) = λ j.
      shrinks j i (Step.transits boot entry h)
        (rw (← (transition-Transitioned s boot entry h).result) (omega arith))
  Step-IsBounded i (Step.imports r entry h) =
      λ j. shrinks j i (Step.imports r entry h) (rw (import-Appended _ r h).kids (omega arith))
  Step-IsBounded {s = s} {s' = s'} i (Step.reserves_child a n child request_id request c h) = λ j.
      elim (reserve_child-Added same_request s a n child request_id request h) [
        | inl e ↦ rw (← e) (i j)
        | inr d ↦ Added-bound s s' a j d i
      ]
  Step-IsBounded i (Step.prepares_child child p evidence h) = λ j.
      shrinks j i (Step.prepares_child child p evidence h)
        ((prepare-Kept _ child p evidence h).held j)
  Step-IsBounded i (Step.moves_child child phase code signal detail h) = λ j.
      shrinks j i (Step.moves_child child phase code signal detail h)
        ((move-Kept _ child phase code signal detail h).held j)

  -- From a store where each assignment has at most as many unreleased children as the limit of
  -- its request (1 to 8, else none), and none once it is released, any sequence of operations
  -- leads to such a store.
  pub Reach-IsBounded : {s s' : Store} → IsBounded s → Reach same_request s s' → IsBounded s'
  Reach-IsBounded i Reach.here = i
  Reach-IsBounded i (Reach.next r step) = Step-IsBounded (Reach-IsBounded i r) step
