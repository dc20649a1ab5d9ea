-- ===== src/Coordinator/Steps/Receipts.antt =====
-- src/coordinator.rs, `accept`: a submission that is sent again, after its receipt was lost.
use cede_grid.Common.{
  ℕ, String, Bool, true, false, ◌&&◌, some, List, [], ◌∷◌, ◌++◌, ◌==◌, String_eq, ℕ_eq, Option_eq,
  ◌≡◌, refl, sym, ◌∙◌, ◌⊎◌, ap, subst, arith, if◌then◌else◌, Bool-cases, inl, inr, Result, ok,
  context, >>=-eq-ok, ensure-eq-ok, context-eq-ok, ok-injective, eq_iff,
}
use cede_grid.Protocol.{Principal, ArtifactRef, ResultSubmission, Receipt}
use cede_grid.Store.Tables.{
  TaskRow, TaskStatus, AssignmentRow, find_assignment, find_row, update_task, find_task,
}
use cede_grid.Store.Tables.Laws.{find-append, find-update}
use cede_grid.Coordinator.Tables.{
  CoordinatorError, Ledger, Services, CheckpointRow, find_checkpoint, read_task, put_row,
}
use cede_grid.Coordinator.Lookup.{authorize_assignment, current_attempt}
use cede_grid.Coordinator.Accept.{
  accept, accept_new, accept_checkpoint, accept_final, check_artifacts, check_launched,
  is_committed, receipt_for,
}

-- A row that was put is found by its key.
pub find-put :
    {A : Type 0} (key : A → String) (row : A) (rows : List A)
    → find_row key (key row) (put_row key row (λ _. row) rows) ≡ some row
unfolding put_row
find-put key row rows =
    let self : (key row == key row) ≡ true = (eq_iff (key row) (key row)).1 refl in
    ground (
      arith,
      self,
      find-append key (key row) rows row,
      find-update key (key row) (key row) (λ _. row) rows (λ r h. refl),
    )

-- What a passed submission went through before its branch.
pub record Goes (env : Services) (l : Ledger) (p : Principal) (s : ResultSubmission)
    (checkpoint : Bool) (r : Receipt) (l' : Ledger) : Type 0 where
  pub authorized : authorize_assignment l p s.assignment_id s.generation ≡ ok tt
  pub assignment : AssignmentRow
  pub assigned : find_assignment s.assignment_id l.store.assignments ≡ some assignment
  pub same_task : (assignment.task_id == s.task_id) ≡ true
  pub artifacts : check_artifacts env l s s.artifacts ≡ ok tt
  pub branch :
      (if checkpoint
          && is_committed s (env.receipt_of s) (find_checkpoint assignment.task_id l.checkpoints)
        then ok (receipt_for assignment.task_id s (env.receipt_of s), l)
        else accept_new env l s checkpoint assignment.task_id (env.receipt_of s))
      ≡ ok (r, l')

pub accept-Goes :
    (env : Services) (l : Ledger) (p : Principal) (s : ResultSubmission) (checkpoint : Bool)
    {r : Receipt} {l' : Ledger}
    → accept env l p s checkpoint ≡ ok (r, l')
    → Goes env l p s checkpoint r l'
unfolding accept
accept-Goes env l p s checkpoint {r} {l'} h =
    let (x, e1, h1) = >>=-eq-ok (authorize_assignment l p s.assignment_id s.generation) _ h in
    let (a, e2, h2) =
      >>=-eq-ok
        (context (find_assignment s.assignment_id l.store.assignments) CoordinatorError.no_row) _
        h1 in
    let (b, h3) = ensure-eq-ok (a.task_id == s.task_id) CoordinatorError.result_task _ h2 in
    let (y, e4, h4) = >>=-eq-ok (check_artifacts env l s s.artifacts) _ h3 in
    record {
      authorized = e1;
      assignment = a;
      assigned =
          context-eq-ok (find_assignment s.assignment_id l.store.assignments)
            CoordinatorError.no_row e2;
      same_task = b;
      artifacts = e4;
      branch = h4;
    }

Goes-accept :
    (env : Services) (l : Ledger) (p : Principal) (s : ResultSubmission) (checkpoint : Bool)
    (r : Receipt) (l' : Ledger)
    → Goes env l p s checkpoint r l'
    → accept env l p s checkpoint ≡ ok (r, l')
unfolding accept
Goes-accept env l p s checkpoint r l' g =
    rw (g.authorized, g.assigned, g.same_task, g.artifacts) g.branch

check_artifacts-same :
    (env : Services) (l l' : Ledger) (s : ResultSubmission) (xs : List ArtifactRef)
    → l'.publications ≡ l.publications
    → check_artifacts env l' s xs ≡ check_artifacts env l s xs
unfolding check_artifacts
check_artifacts-same env l l' s [] e = refl
check_artifacts-same env l l' s (a ∷ rest) e = rw (e, check_artifacts-same env l l' s rest e) refl

-- The checkpoint that was committed.
pub accept_checkpoint-committed :
    (env : Services) (l : Ledger) (s : ResultSubmission) (task hash : String) {l' : Ledger}
    → accept_checkpoint env l s task hash ≡ ok l'
    → l' ≡ record l {
      checkpoints =
          put_row
            (λ (c : CheckpointRow). c.submission.task_id)
            (record { submission = s; receipt_hash = hash })
            (λ _. record { submission = s; receipt_hash = hash })
            l.checkpoints;
    }
unfolding accept_checkpoint
accept_checkpoint-committed env l s task hash h = ground (arith, h)

-- The branch of a submission that is new.
pub record Accepts (env : Services) (l : Ledger) (s : ResultSubmission) (checkpoint : Bool)
    (task hash : String) (r : Receipt) (l' : Ledger) : Type 0 where
  pub owner : String
  pub current : current_attempt l s.assignment_id s.generation ≡ ok owner
  pub launched : check_launched l task s.assignment_id ≡ ok tt
  pub written :
      (if checkpoint then accept_checkpoint env l s task hash else accept_final l s task hash)
      ≡ ok l'
  pub receipt : receipt_for task s hash ≡ r

pub accept_new-Accepts :
    (env : Services) (l : Ledger) (s : ResultSubmission) (checkpoint : Bool) (task hash : String)
    {r : Receipt} {l' : Ledger}
    → accept_new env l s checkpoint task hash ≡ ok (r, l')
    → Accepts env l s checkpoint task hash r l'
unfolding accept_new
accept_new-Accepts env l s checkpoint task hash {r} {l'} h =
    let (x, e1, h1) = >>=-eq-ok (current_attempt l s.assignment_id s.generation) _ h in
    let (y, e2, h2) = >>=-eq-ok (check_launched l task s.assignment_id) _ h1 in
    let (m, e3, h3) =
      >>=-eq-ok {A = Ledger}
        (if checkpoint then accept_checkpoint env l s task hash else accept_final l s task hash) _
        h2 in
    record {
      owner = x;
      current = e1;
      launched = e2;
      written =
          e3
          ∙ ap {B = Result CoordinatorError Ledger} (λ (q : Receipt × Ledger). ok q.1)
              (ok-injective h3);
      receipt = ap (λ (q : Receipt × Ledger). q.0) (ok-injective h3);
    }

Accepts-accept_new :
    (env : Services) (l : Ledger) (s : ResultSubmission) (checkpoint : Bool) (task hash : String)
    (r : Receipt) (l' : Ledger)
    → Accepts env l s checkpoint task hash r l'
    → accept_new env l s checkpoint task hash ≡ ok (r, l')
unfolding accept_new
Accepts-accept_new env l s checkpoint task hash r l' a =
    rw (a.current, a.launched, a.written, a.receipt) refl

committed_self :
    (s : ResultSubmission) (hash : String)
    → is_committed s hash (some (record { submission = s; receipt_hash = hash })) ≡ true
unfolding is_committed
committed_self s hash =
    ground (arith, (eq_iff s.assignment_id s.assignment_id).1 refl, (eq_iff hash hash).1 refl)

-- A checkpoint again: its row is found, with its receipt.
checkpoint-again :
    (env : Services) (l : Ledger) (p : Principal) (s : ResultSubmission) {r : Receipt} {l' : Ledger}
    → accept env l p s true ≡ ok (r, l')
    → accept env l' p s true ≡ ok (r, l')
unfolding authorize_assignment
checkpoint-again env l p s {r} {l'} h =
    let g = accept-Goes env l p s true h in
    let hash = env.receipt_of s in
    let task = g.assignment.task_id in
    let committed = is_committed s hash (find_checkpoint task l.checkpoints) in
    elim (Bool-cases committed) [
      | inl z ↦
          let q : (receipt_for task s hash, l) ≡ (r, l') = ok-injective (rw z at g.branch) in
          subst (λ (x : Ledger). accept env x p s true ≡ ok (r, l'))
            (ap (λ (q : Receipt × Ledger). q.1) q) h
      | inr n ↦
          let a = accept_new-Accepts env l s true task hash (rw n at g.branch) in
          let e = accept_checkpoint-committed env l s task hash a.written in
          let row : CheckpointRow = record { submission = s; receipt_hash = hash } in
          let same : s.task_id ≡ task = sym ((eq_iff task s.task_id).0 g.same_task) in
          let found : find_checkpoint task
                (put_row (λ (c : CheckpointRow). c.submission.task_id) row (λ _. row) l.checkpoints)
              ≡ some row =
            subst
              (λ x.
                find_checkpoint x (
                  put_row (λ (c : CheckpointRow). c.submission.task_id) row (λ _. row)
                    l.checkpoints)
                ≡ some row)
              same (find-put (λ (c : CheckpointRow). c.submission.task_id) row l.checkpoints) in
          subst (λ (x : Ledger). accept env x p s true ≡ ok (r, x)) (sym e)
            (Goes-accept env _ p s true r _ (record {
              authorized = g.authorized;
              assignment = g.assignment;
              assigned = g.assigned;
              same_task = g.same_task;
              artifacts = check_artifacts-same env l _ s s.artifacts refl ∙ g.artifacts;
              branch = rw (found, committed_self s hash, a.receipt) refl;
            }))
    ]

-- The ledger that a result leaves.
abbrev with_result : Ledger → ResultSubmission → String → String → Ledger
with_result l s task hash = record l {
  result_payloads = l.result_payloads ++ (s ∷ []);
  store = record l.store {
    tasks =
        update_task task (λ r. record r { status = TaskStatus.completed; receipt_hash = some hash })
          l.store.tasks;
  };
}

accept_final-with_result :
    (l : Ledger) (s : ResultSubmission) (task hash : String) {l' : Ledger}
    → accept_final l s task hash ≡ ok l'
    → (l' ≡ l) ⊎ (l' ≡ with_result l s task hash)
unfolding accept_final
accept_final-with_result l s task hash h = ground (arith, h)

-- The task of the attempt, after its result.
find-with_result :
    (l : Ledger) (s : ResultSubmission) (task hash : String) (t : TaskRow)
    → find_task task l.store.tasks ≡ some t
    → find_task task (with_result l s task hash).store.tasks
      ≡ some (record t { status = TaskStatus.completed; receipt_hash = some hash })
find-with_result l s task hash t f = ground (
  arith,
  f,
  (eq_iff task task).1 refl,
  find-update (λ (x : TaskRow). x.task_id) task task
      (λ r. record r { status = TaskStatus.completed; receipt_hash = some hash }) l.store.tasks
      (λ r q. q),
)

-- The task row that a passed attempt was read from.
record Current (l : Ledger) (id : String) (generation : ℕ) (task : String) : Type 0 where
  row : TaskRow
  found : find_task task l.store.tasks ≡ some row
  generation_same : (row.generation == generation) ≡ true
  assigned : (row.assignment_id == some id) ≡ true

current_attempt-Current :
    (l : Ledger) (id : String) (generation : ℕ) (a : AssignmentRow) {owner : String}
    → find_assignment id l.store.assignments ≡ some a
    → current_attempt l id generation ≡ ok owner
    → Current l id generation a.task_id
unfolding current_attempt
current_attempt-Current l id generation a f h =
    let (t, e1, h1) = >>=-eq-ok (read_task l a.task_id) _ (rw f at h) in
    let (b, h2) =
      ensure-eq-ok (t.generation == generation && t.assignment_id == some id)
        CoordinatorError.stale_attempt _ h1 in
    record {
      row = t;
      found = context-eq-ok (find_task a.task_id l.store.tasks) _ e1;
      generation_same = ground (arith, b);
      assigned = ground (arith, b);
    }

with_result-Accepts :
    (env : Services) (l : Ledger) (s : ResultSubmission) (a : AssignmentRow) (hash : String)
    (r : Receipt) {m : Ledger}
    → find_assignment s.assignment_id l.store.assignments ≡ some a
    → Accepts env l s false a.task_id hash r m
    → Accepts env
        (with_result l s a.task_id hash)
        s
        false
        a.task_id
        hash
        r
        (with_result l s a.task_id hash)
unfolding current_attempt check_launched accept_final
with_result-Accepts env l s a hash r f x =
    let c = current_attempt-Current l s.assignment_id s.generation a f x.current in
    let g = find-with_result l s a.task_id hash c.row c.found in
    let self : (hash == hash) ≡ true = (eq_iff hash hash).1 refl in
    record {
      owner = a.task_id;
      current = rw (f, g, c.generation_same, c.assigned) refl;
      launched = ground (arith, x.launched, g);
      written = rw (g, self) refl;
      receipt = x.receipt;
    }

-- A result again: its task is completed, by the same receipt.
result-again :
    (env : Services) (l : Ledger) (p : Principal) (s : ResultSubmission) {r : Receipt} {l' : Ledger}
    → accept env l p s false ≡ ok (r, l')
    → accept env l' p s false ≡ ok (r, l')
unfolding authorize_assignment
result-again env l p s {r} {l'} h =
    let g = accept-Goes env l p s false h in
    let hash = env.receipt_of s in
    let task = g.assignment.task_id in
    let a = accept_new-Accepts env l s false task hash g.branch in
    elim (accept_final-with_result l s task hash a.written) [
      | inl e ↦
          subst (λ (x : Ledger). accept env x p s false ≡ ok (r, x)) (sym e)
            (subst (λ (x : Ledger). accept env l p s false ≡ ok (r, x)) e h)
      | inr e ↦
          subst (λ (x : Ledger). accept env x p s false ≡ ok (r, x)) (sym e)
            (Goes-accept env _ p s false r _ (record {
              authorized = g.authorized;
              assignment = g.assignment;
              assigned = g.assigned;
              same_task = g.same_task;
              artifacts = check_artifacts-same env l _ s s.artifacts refl ∙ g.artifacts;
              branch =
                  Accepts-accept_new env _ s false task hash r _
                    (with_result-Accepts env l s g.assignment hash r g.assigned a);
            }))
    ]

-- A result or a checkpoint that was accepted is answered again by the same receipt, and the ledger
-- that the first acceptance left stays as it is.
pub accept_again :
    (env : Services) (l : Ledger) (p : Principal) (s : ResultSubmission) (checkpoint : Bool)
    {r : Receipt} {l' : Ledger}
    → accept env l p s checkpoint ≡ ok (r, l')
    → accept env l' p s checkpoint ≡ ok (r, l')
accept_again env l p s true h = checkpoint-again env l p s h
accept_again env l p s false h = result-again env l p s h
