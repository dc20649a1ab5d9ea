-- ===== src/Store/Steps/Origins.antt =====
-- Where an execution row that a step leaves comes from.
use cede_grid.Common.{
  String, Bool, true, false, Option, none, some, List, [], ◌∷◌, ◌≡◌, refl, inl, inr, arith, ok,
  if◌then◌else◌, sym, Bool-cases, Option-cases, eq_iff, ◌==◌, String_eq, ◌∙◌,
}
use cede_grid.Execution.{LaunchRequest, ExecutionRecord, is_released, is_authorizing}
use cede_grid.Store.Tables.{Store, ExecutionRow, find_execution, execution_free, held_children}
use cede_grid.Store.Tables.Laws.{find-append, find-update}
use cede_grid.Store.Transition.{check_record, check_barrier}
use cede_grid.Store.Transition.Laws.{Transitioned, transition-Transitioned, transition-no_children}
use cede_grid.Store.Children.Laws.{reserve_child-Added, prepare-Kept, move-Kept}
use cede_grid.Store.Steps.{Step}
use cede_grid.Store.Steps.Effects.{
  submit-Untouched, assign-Untouched, mark_uncertain-Untouched, accept_result-Untouched, Appended,
  reserve-Appended, import-Appended,
}

-- A row is as before, or fresh, or the result of a transition of the row under its key.
pub data Origin (s : Store) (j : String) (x : ExecutionRow) : Type 0 where
  kept : find_execution j s.executions ≡ some x → Origin s j x
  fresh :
      find_execution j s.executions ≡ none
      → is_released x.entry.phase ≡ false
      → is_authorizing x.entry.phase ≡ false
      → Origin s j x
  moved :
      (row : ExecutionRow)
      → find_execution j s.executions ≡ some row
      → x.request ≡ row.request
      → check_record row.entry x.entry ≡ ok tt
      → check_barrier row.request row.entry x.entry ≡ ok tt
      → (is_released x.entry.phase ≡ true → held_children j s.children ≡ 0)
      → Origin s j x

free-none :
    (id : String) (rows : List ExecutionRow)
    → execution_free id rows ≡ true
    → find_execution id rows ≡ none
free-none id [] h = refl
free-none id (r ∷ rest) h = ground (arith, free-none id rest)

Kept-Origin :
    (s s' : Store) (j : String) (x : ExecutionRow)
    → s'.executions ≡ s.executions
    → find_execution j s'.executions ≡ some x
    → Origin s j x
Kept-Origin s s' j x e f = kept (rw e at f)

if-some : (b : Bool) {row x : ExecutionRow} → (if b then some row else none) ≡ some x → row ≡ x
if-some b h = ground arith

Appended-Origin :
    (s s' : Store) (j : String) (row x : ExecutionRow)
    → Appended s row s'
    → find_execution j s'.executions ≡ some x
    → Origin s j x
Appended-Origin s s' j row x a f =
    let g =
      sym (find-append (λ (r : ExecutionRow). r.entry.assignment_id) j s.executions row)
      ∙ (rw a.rows at f) in
    elim (Option-cases (find_execution j s.executions)) [
      | inl n ↦
          let e = if-some (row.entry.assignment_id == j) (rw n at g) in
          fresh n (rw (← e) a.is_live) (rw (← e) a.is_idle)
      | inr (r, q) ↦ kept (q ∙ (rw q at g))
    ]

Transitioned-Origin :
    (s : Store) (boot : Option String) (entry : ExecutionRecord) (s' : Store) (j : String)
    (x : ExecutionRow)
    → (t : Transitioned s boot entry s')
    → (is_released entry.phase ≡ true → held_children entry.assignment_id s.children ≡ 0)
    → find_execution j s'.executions ≡ some x
    → Origin s j x
Transitioned-Origin s boot entry s' j x t free f =
    let g =
      sym (
        find-update (λ (r : ExecutionRow). r.entry.assignment_id) entry.assignment_id j
          (λ r. record r { entry = entry }) s.executions (λ r e. refl))
      ∙ (rw (← t.result) at f) in
    elim (Bool-cases (entry.assignment_id == j)) [
      | inl y ↦
          let e = (eq_iff entry.assignment_id j).0 y in
          let k = rw e at t.found in
          let q = if-some true (rw (y, k) at g) in
          rw (← q) (moved t.row k refl t.recorded t.passed (λ r. rw (← e) (free r)))
      | inr n ↦ kept (rw n at g)
    ]

Appended-finds :
    (s s' : Store) (j : String) (row : ExecutionRow)
    → Appended s row s'
    → find_execution j s'.executions ≡ none
    → find_execution j s.executions ≡ none
Appended-finds s s' j row a f =
    let g =
      sym (find-append (λ (r : ExecutionRow). r.entry.assignment_id) j s.executions row)
      ∙ (rw a.rows at f) in
    elim (Option-cases (find_execution j s.executions)) [ inl n ↦ n | inr (r, q) ↦ cc ]

Transitioned-finds :
    (s : Store) (boot : Option String) (entry : ExecutionRecord) (s' : Store) (j : String)
    → Transitioned s boot entry s'
    → find_execution j s'.executions ≡ none
    → find_execution j s.executions ≡ none
Transitioned-finds s boot entry s' j t f =
    let g =
      sym (
        find-update (λ (r : ExecutionRow). r.entry.assignment_id) entry.assignment_id j
          (λ r. record r { entry = entry }) s.executions (λ r e. refl))
      ∙ (rw (← t.result) at f) in
    elim (Option-cases (find_execution j s.executions)) [
      | inl n ↦ n
      | inr (r, q) ↦ ground (arith, g, q)
    ]

module _ (same_request : LaunchRequest → LaunchRequest → Bool) where
  -- The row under a key after a step.
  pub Step-Origin :
      {s s' : Store} (j : String) (x : ExecutionRow)
      → Step same_request s s'
      → find_execution j s'.executions ≡ some x
      → Origin s j x
  Step-Origin {s = s} {s' = s'} j x (Step.submits id safe h) f =
      Kept-Origin s s' j x (submit-Untouched s id safe h).rows f
  Step-Origin {s = s} {s' = s'} j x (Step.assigns id a n h) f =
      Kept-Origin s s' j x (assign-Untouched s id a h).rows f
  Step-Origin {s = s} {s' = s'} j x (Step.loses id n t h) f =
      Kept-Origin s s' j x (mark_uncertain-Untouched s id n h).rows f
  Step-Origin {s = s} {s' = s'} j x (Step.accepts id n hash r h) f =
      Kept-Origin s s' j x (accept_result-Untouched s id n hash h).rows f
  Step-Origin {s = s} {s' = s'} j x (Step.reserves request capacity remote entry h) f =
      Appended-Origin s s' j _ x (reserve-Appended s request capacity remote h) f
  Step-Origin {s = s} {s' = s'} j x (Step.transits boot entry h) f =
      Transitioned-Origin s boot entry s' j x (transition-Transitioned s boot entry h)
        (transition-no_children s boot entry h) f
  Step-Origin {s = s} {s' = s'} j x (Step.imports r entry h) f =
      Appended-Origin s s' j _ x (import-Appended s r h) f
  Step-Origin {s = s} {s' = s'} j x (Step.reserves_child a n child request_id request c h) f =
      elim (reserve_child-Added same_request s a n child request_id request h) [
        | inl e ↦ kept (rw (← e) at f)
        | inr a ↦ Kept-Origin s s' j x a.rows f
      ]
  Step-Origin {s = s} {s' = s'} j x (Step.prepares_child child i evidence h) f =
      Kept-Origin s s' j x (prepare-Kept s child i evidence h).rows f
  Step-Origin {s = s} {s' = s'} j x (Step.moves_child child phase code signal detail h) f =
      Kept-Origin s s' j x (move-Kept s child phase code signal detail h).rows f

  -- A step loses no row.
  pub Step-finds :
      {s s' : Store} (j : String)
      → Step same_request s s'
      → find_execution j s'.executions ≡ none
      → find_execution j s.executions ≡ none
  Step-finds {s = s} {s' = s'} j (Step.submits id safe h) f =
      rw (submit-Untouched s id safe h).rows at f
  Step-finds {s = s} {s' = s'} j (Step.assigns id a n h) f =
      rw (assign-Untouched s id a h).rows at f
  Step-finds {s = s} {s' = s'} j (Step.loses id n t h) f =
      rw (mark_uncertain-Untouched s id n h).rows at f
  Step-finds {s = s} {s' = s'} j (Step.accepts id n hash r h) f =
      rw (accept_result-Untouched s id n hash h).rows at f
  Step-finds {s = s} {s' = s'} j (Step.reserves request capacity remote entry h) f =
      Appended-finds s s' j _ (reserve-Appended s request capacity remote h) f
  Step-finds {s = s} {s' = s'} j (Step.transits boot entry h) f =
      Transitioned-finds s boot entry s' j (transition-Transitioned s boot entry h) f
  Step-finds {s = s} {s' = s'} j (Step.imports r entry h) f =
      Appended-finds s s' j _ (import-Appended s r h) f
  Step-finds {s = s} {s' = s'} j (Step.reserves_child a n child request_id request c h) f =
      elim (reserve_child-Added same_request s a n child request_id request h) [
        | inl e ↦ rw (← e) at f
        | inr a ↦ rw a.rows at f
      ]
  Step-finds {s = s} {s' = s'} j (Step.prepares_child child i evidence h) f =
      rw (prepare-Kept s child i evidence h).rows at f
  Step-finds {s = s} {s' = s'} j (Step.moves_child child phase code signal detail h) f =
      rw (move-Kept s child phase code signal detail h).rows at f
