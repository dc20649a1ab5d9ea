-- ===== src/Store/Steps/History.antt =====
-- The journal never rewrites an attempt.
use cede_grid.Common.{
  String, Bool, some, ◌≡◌, refl, inl, inr, ◌∙◌, sym, Option-cases, some-injective,
}
use cede_grid.Execution.{LaunchRequest, ExecutionRecord}
use cede_grid.Store.Tables.{Store, ExecutionRow, find_execution}
use cede_grid.Store.Transition.Laws.{Continues, check_record-Continues}
use cede_grid.Store.Steps.{Step, Reach}
use cede_grid.Store.Steps.Origins.{Origin, Step-Origin, Step-finds}

-- The row is still there, for the same request, and continues what it was.
pub record IsKept (s : Store) (j : String) (r : ExecutionRow) : Type 0 where
  pub row : ExecutionRow
  pub found : find_execution j s.executions ≡ some row
  pub request : row.request ≡ r.request
  pub continues : Continues r.entry row.entry

Continues-refl : (e : ExecutionRecord) → Continues e e
Continues-refl e = record {
  task = refl;
  generation = refl;
  class = refl;
  resources = refl;
  identity = λ i h. h;
  release = λ h. h;
}

Continues-trans : (a b c : ExecutionRecord) → Continues a b → Continues b c → Continues a c
Continues-trans a b c p q = record {
  task = p.task ∙ q.task;
  generation = p.generation ∙ q.generation;
  class = p.class ∙ q.class;
  resources = p.resources ∙ q.resources;
  identity = λ i h. q.identity i (p.identity i h);
  release = λ h. q.release (p.release h);
}

Origin-IsKept :
    (s s' : Store) (j : String) (r x : ExecutionRow)
    → find_execution j s.executions ≡ some r
    → find_execution j s'.executions ≡ some x
    → Origin s j x
    → IsKept s' j r
Origin-IsKept s s' j r x f g (Origin.kept h) =
    let e = some-injective (sym f ∙ h) in
    record { row = x; found = g; request = rw e refl; continues = rw e (Continues-refl x.entry) }
Origin-IsKept s s' j r x f g (Origin.fresh n l i) = cc
Origin-IsKept s s' j r x f g (Origin.moved row h q c b free) =
    let e = some-injective (sym f ∙ h) in
    record {
      row = x;
      found = g;
      request = rw e q;
      continues = rw e (check_record-Continues row.entry x.entry c);
    }

module _ (same_request : LaunchRequest → LaunchRequest → Bool) where
  Step-keeps :
      {s s' : Store} (j : String) (r : ExecutionRow)
      → Step same_request s s'
      → find_execution j s.executions ≡ some r
      → IsKept s' j r
  Step-keeps {s = s} {s' = s'} j r step f = elim (Option-cases (find_execution j s'.executions)) [
    | inl n ↦ cc (f, Step-finds same_request j step n)
    | inr (x, g) ↦ Origin-IsKept s s' j r x f g (Step-Origin same_request j x step g)
  ]

  -- After any sequence of operations an execution that was recorded is still recorded, for the
  -- same request, task, generation, class and amounts; a process identity it had is unchanged,
  -- and a release is final.
  pub Reach-IsKept :
      {s s' : Store} (j : String) (r : ExecutionRow)
      → Reach same_request s s'
      → find_execution j s.executions ≡ some r
      → IsKept s' j r
  Reach-IsKept {s = s} j r Reach.here f = record {
    row = r;
    found = f;
    request = refl;
    continues = Continues-refl r.entry;
  }
  Reach-IsKept j r (Reach.next {t = t} {u = u} q step) f =
      let k = Reach-IsKept j r q f in
      let m = Step-keeps j k.row step k.found in
      record {
        row = m.row;
        found = m.found;
        request = m.request ∙ k.request;
        continues = Continues-trans r.entry k.row.entry m.row.entry k.continues m.continues;
      }
