-- ===== src/Coordinator/Steps/Rest.antt =====
-- src/coordinator.rs: the requests on tables other than the reservations, as changes of the ledger.
use cede_grid.Common.{
  ℕ, String, Bool, true, ◌&&◌, not, Option, none, some, List, [], ◌∷◌, ◌==◌, String_eq, ℕ_eq,
  Option_eq, ◌≡◌, refl, arith, any, Bool-cases, inl, inr, ok, context, if◌then◌else◌, >>=-eq-ok,
  ensure-eq-ok, ok-injective, subst, ap, ◌∙◌, leb, is_empty, length,
}
use cede_grid.Coordinator.Session.{check_id}
use cede_grid.Coordinator.Tables.{find_job}
use cede_grid.Execution.{LaunchRequest, ExecutionRecord}
use cede_grid.Protocol.{
  CoordinatorConfig, PoolSpec, JobSpec, Principal, ResultSubmission, Receipt, FailureKind,
  RemotePhase, RemotePhase_eq, is_yielded,
}
use cede_grid.Store.Tables.{TaskRow, find_assignment}
use cede_grid.Coordinator.Tables.{
  CoordinatorError, Ledger, Services, JobRow, find_reservation, find_retry, find_preparation,
  find_checkpoint, read_task, db,
}
use cede_grid.Coordinator.Lookup.{
  authorize_assignment, current_attempt, assignment_request, should_drain, pool,
}
use cede_grid.Coordinator.Failure.{record_failure, record_current, requeue, next_counts}
use cede_grid.Coordinator.Accept.{
  accept, accept_new, accept_checkpoint, accept_final, check_artifacts, check_launched,
  is_committed,
}
use cede_grid.Coordinator.Submit.{submit_job, submit_at, insert_tasks, insert_task, check_task}
use cede_grid.Coordinator.Command.{
  put_pool, retry, cancel, drain_node, prepare, keep_preparation, check_preparation,
}
use cede_grid.Coordinator.Steps.Rows.{nothing}
use cede_grid.Coordinator.Steps.Change.{Change, Change-same}

-- What `Change` is about stays as it is.
pub record Same (l l' : Ledger) : Type 0 where
  pub reservations : l'.reservations ≡ l.reservations
  pub fences : l'.fences ≡ l.fences
  pub assignments : l'.store.assignments ≡ l.store.assignments

pub Same-Change : (l l' : Ledger) → Same l l' → Change nothing l l'
Same-Change l l' s = Change-same nothing l l' s.reservations s.fences s.assignments

Same-refl : (l : Ledger) → Same l l
Same-refl l = record { reservations = refl; fences = refl; assignments = refl }

Same-trans : (a b c : Ledger) → Same a b → Same b c → Same a c
Same-trans a b c f g = record {
  reservations = g.reservations ∙ f.reservations;
  fences = g.fences ∙ f.fences;
  assignments = g.assignments ∙ f.assignments;
}

pub cancel-Same : (l : Ledger) (id : String) {l' : Ledger} → cancel l id ≡ ok l' → Same l l'
unfolding cancel
cancel-Same l id h = ground (arith, h)

pub drain_node-Same :
    (l : Ledger) (id : String) (drain : Bool) {l' : Ledger}
    → drain_node l id drain ≡ ok l'
    → Same l l'
unfolding drain_node
drain_node-Same l id drain h = ground (arith, h)

pub put_pool-Same : (l : Ledger) (p : PoolSpec) {l' : Ledger} → put_pool l p ≡ ok l' → Same l l'
unfolding put_pool
put_pool-Same l p h = ground (arith, h)

pub retry-Same :
    (env : Services) (l : Ledger) (id : String) (confirmed : Bool) {l' : Ledger}
    → retry env l id confirmed ≡ ok l'
    → Same l l'
unfolding retry
retry-Same env l id confirmed h = ground (arith, h)

keep_preparation-Same :
    (l : Ledger) (entry : ExecutionRecord) (old : Option ExecutionRecord) {l' : Ledger}
    → keep_preparation l entry old ≡ ok l'
    → Same l l'
unfolding keep_preparation
keep_preparation-Same l entry none h = ground (arith, h)
keep_preparation-Same l entry (some old) h = ground (arith, h)

pub prepare-Same :
    (l : Ledger) (p : Principal) (id : String) (generation epoch : ℕ) (entry : ExecutionRecord)
    {l' : Ledger}
    → prepare l p id generation epoch entry ≡ ok l'
    → Same l l'
unfolding prepare
prepare-Same l p id generation epoch entry h =
    let (a, e1, h1) = >>=-eq-ok (authorize_assignment l p id generation) _ h in
    let (b, h2) = ensure-eq-ok (epoch == l.epoch) CoordinatorError.stale_epoch _ h1 in
    let (c, e3, h3) = >>=-eq-ok (check_preparation l id generation entry) _ h2 in
    let (d, e4, h4) = >>=-eq-ok (current_attempt l id generation) _ h3 in
    keep_preparation-Same l entry (find_preparation id l.preparations) h4

requeue-Same :
    (config : CoordinatorConfig) (l : Ledger) (t : TaskRow) (request : LaunchRequest)
    (yielded : Bool) (failures yields generation now : ℕ) {l' : Ledger}
    → requeue config l t request yielded failures yields generation now ≡ ok l'
    → Same l l'
unfolding requeue
requeue-Same config l t request yielded failures yields generation now h = ground (arith, h)

record_current-Same :
    (config : CoordinatorConfig) (l : Ledger) (id : String) (generation : ℕ) (kind : FailureKind)
    (now : ℕ) (task : String) {l' : Ledger}
    → record_current config l id generation kind now task ≡ ok l'
    → Same l l'
unfolding record_current
record_current-Same config l id generation kind now task h =
    let (t, e1, h1) = >>=-eq-ok (read_task l task) _ h in
    let (b, h2) =
      ensure-eq-ok (t.generation == generation && t.assignment_id == some id)
        CoordinatorError.stale_failure _ h1 in
    let (d, e3, h3) =
      >>=-eq-ok {A = Bool} (if is_yielded kind then ok true else should_drain l id) _ h2 in
    let (c, e4, h4) = >>=-eq-ok (next_counts d (find_retry task l.retries)) _ h3 in
    let (q, e5, h5) = >>=-eq-ok (assignment_request l id) _ h4 in
    let (m, e6, h6) = >>=-eq-ok (requeue config l t q d c.0 c.1 generation now) _ h5 in
    let k = requeue-Same config l t q d c.0 c.1 generation now e6 in
    ground (arith, ok-injective h6, k)

pub record_failure-Same :
    (config : CoordinatorConfig) (l : Ledger) (id : String) (generation : ℕ) (kind : FailureKind)
    (now : ℕ) {l' : Ledger}
    → record_failure config l id generation kind now ≡ ok l'
    → Same l l'
unfolding record_failure
record_failure-Same config l id generation kind now {l'} h =
    elim (Bool-cases (any (λ (f : String × FailureKind). f.0 == id) l.failure_receipts)) [
      | inl y ↦ subst (Same l) (ok-injective (rw (y, record_failure) at h)) (Same-refl l)
      | inr n ↦
          let (r, e1, h1) =
            >>=-eq-ok (context (find_reservation id l.reservations) CoordinatorError.no_row) _
              (rw (n, record_failure) at h) in
          let (a, e2, h2) =
            >>=-eq-ok (context (find_assignment id l.store.assignments) CoordinatorError.no_row) _
              h1 in
          let (b, h3) =
            ensure-eq-ok (r.phase == RemotePhase.released) CoordinatorError.capacity_held
              (record_current config l id generation kind now a.task_id) h2 in
          record_current-Same config l id generation kind now a.task_id h3
    ]

accept_checkpoint-Same :
    (env : Services) (l : Ledger) (s : ResultSubmission) (task hash : String) {l' : Ledger}
    → accept_checkpoint env l s task hash ≡ ok l'
    → Same l l'
unfolding accept_checkpoint
accept_checkpoint-Same env l s task hash h = ground (arith, h)

accept_final-Same :
    (l : Ledger) (s : ResultSubmission) (task hash : String) {l' : Ledger}
    → accept_final l s task hash ≡ ok l'
    → Same l l'
unfolding accept_final
accept_final-Same l s task hash h = ground (arith, h)

accept_new-Same :
    (env : Services) (l : Ledger) (s : ResultSubmission) (checkpoint : Bool) (task hash : String)
    {r : Receipt} {l' : Ledger}
    → accept_new env l s checkpoint task hash ≡ ok (r, l')
    → Same l l'
unfolding accept_new
accept_new-Same env l s checkpoint task hash h =
    let (x, e1, h1) = >>=-eq-ok (current_attempt l s.assignment_id s.generation) _ h in
    let (y, e2, h2) = >>=-eq-ok (check_launched l task s.assignment_id) _ h1 in
    let (m, e3, h3) =
      >>=-eq-ok {A = Ledger}
        (if checkpoint then accept_checkpoint env l s task hash else accept_final l s task hash) _
        h2 in
    subst (Same l) (ap (λ (q : Receipt × Ledger). q.1) (ok-injective h3)) (
      ground (
        arith,
        e3,
        accept_checkpoint-Same env l s task hash {l' = m},
        accept_final-Same l s task hash {l' = m},
      ))

pub accept-Same :
    (env : Services) (l : Ledger) (p : Principal) (s : ResultSubmission) (checkpoint : Bool)
    {r : Receipt} {l' : Ledger}
    → accept env l p s checkpoint ≡ ok (r, l')
    → Same l l'
unfolding accept
accept-Same env l p s checkpoint {r} {l'} h =
    let (x, e1, h1) = >>=-eq-ok (authorize_assignment l p s.assignment_id s.generation) _ h in
    let (a, e2, h2) =
      >>=-eq-ok
        (context (find_assignment s.assignment_id l.store.assignments) CoordinatorError.no_row) _
        h1 in
    let (b, h3) = ensure-eq-ok (a.task_id == s.task_id) CoordinatorError.result_task _ h2 in
    let (y, e4, h4) = >>=-eq-ok (check_artifacts env l s s.artifacts) _ h3 in
    let hash = env.receipt_of s in
    let committed = is_committed s hash (find_checkpoint a.task_id l.checkpoints) in
    elim (Bool-cases (checkpoint && committed)) [
      | inl z ↦
          subst (Same l) (ap (λ (q : Receipt × Ledger). q.1) (ok-injective (rw z at h4)))
            (Same-refl l)
      | inr n ↦ accept_new-Same env l s checkpoint a.task_id hash (rw n at h4)
    ]

insert_task-Same :
    (l : Ledger) (job : String) (request : LaunchRequest) {l' : Ledger}
    → insert_task l job request ≡ ok l'
    → Same l l'
unfolding insert_task
insert_task-Same l job request h = ground (arith, h)

insert_tasks-Same :
    (env : Services) (config : CoordinatorConfig) (p : PoolSpec) (job : String) (l : Ledger)
    (requests : List LaunchRequest) {l' : Ledger}
    → insert_tasks env config p job l requests ≡ ok l'
    → Same l l'
unfolding insert_tasks
insert_tasks-Same env config p job l [] h = subst (Same l) (ok-injective h) (Same-refl l)
insert_tasks-Same env config p job l (request ∷ rest) {l'} h =
    let (x, c, h1) = >>=-eq-ok (check_task env config l p request) _ h in
    let (m, i, h2) = >>=-eq-ok (insert_task l job request) _ h1 in
    Same-trans l m l' (insert_task-Same l job request i)
      (insert_tasks-Same env config p job m rest h2)

submit_at-Same :
    (env : Services) (config : CoordinatorConfig) (l : Ledger) (job : JobSpec) (now : ℕ)
    (p : PoolSpec) (old : Option JobRow) {l' : Ledger}
    → submit_at env config l job now p old ≡ ok l'
    → Same l l'
unfolding submit_at
submit_at-Same env config l job now p none h =
    let (y, d, k) = >>=-eq-ok (db now) _ h in
    let i = insert_tasks-Same env config p job.job_id _ job.tasks k in
    record { reservations = i.reservations; fences = i.fences; assignments = i.assignments }
submit_at-Same env config l job now p (some old) h =
    let (c, k) = ensure-eq-ok (env.same_job old.spec job) CoordinatorError.job_changed (ok l) h in
    subst (Same l) (ok-injective k) (Same-refl l)

pub submit_job-Same :
    (env : Services) (config : CoordinatorConfig) (l : Ledger) (job : JobSpec) (now : ℕ)
    {l' : Ledger}
    → submit_job env config l job now ≡ ok l'
    → Same l l'
unfolding submit_job
submit_job-Same env config l job now {l'} h =
    let (x, e1, h1) = >>=-eq-ok (check_id job.job_id) _ h in
    let (b, h2) =
      ensure-eq-ok (not (is_empty job.tasks) && leb (length job.tasks) 100_000)
        CoordinatorError.job_tasks _ h1 in
    let (p, e3, h3) = >>=-eq-ok (pool l job.pool_id) _ h2 in
    submit_at-Same env config l job now p (find_job job.job_id l.jobs) h3
