-- ===== src/Coordinator/Accept.antt =====
-- src/coordinator.rs, `accept`: results and checkpoints, each acknowledged by a receipt.
use cede_grid.Common.{
  ℕ, String, Bool, false, ◌&&◌, ◌||◌, not, Option, none, some, List, [], ◌∷◌, ◌++◌, ◌==◌, String_eq,
  ℕ_eq, Option_eq, ltb, any, if◌then◌else◌, Result, ok, ensure, context, ◌>>=◌, ◌>>◌,
}
use cede_grid.Protocol.{Principal, ArtifactRef, ResultSubmission, Receipt}
use cede_grid.Store.Tables.{TaskStatus, is_assigned, is_completed, find_assignment, update_task}
use cede_grid.Coordinator.Tables.{
  CoordinatorError, Ledger, Services, PublicationRow, CheckpointRow, find_reservation,
  find_checkpoint, read_task, put_row, db,
}
use cede_grid.Coordinator.Lookup.{authorize_assignment, current_attempt}

abbrev is_publication : ResultSubmission → ArtifactRef → PublicationRow → Bool
is_publication s a p =
    p.assignment_id == s.assignment_id
    && p.generation == s.generation
    && p.artifact.sha256 == a.sha256
    && p.artifact.size == a.size

-- the loop over the artifacts
unfoldable pub check_artifacts :
    Services → Ledger → ResultSubmission → List ArtifactRef → Result CoordinatorError (Unit {0})
check_artifacts env l s [] = ok tt
check_artifacts env l s (a ∷ rest) =
    db s.generation
    >> (db a.size
        >> (ensure (any (is_publication s a) l.publications) CoordinatorError.unpublished
            >> (ensure (env.holds_artifact a) CoordinatorError.artifact_unverified
                >> check_artifacts env l s rest)))

abbrev pub receipt_for : String → ResultSubmission → String → Receipt
receipt_for task s hash = record {
  task_id = task;
  assignment_id = s.assignment_id;
  generation = s.generation;
  receipt_hash = hash;
}

-- a checkpoint that is committed already
unfoldable pub is_committed : ResultSubmission → String → Option CheckpointRow → Bool
is_committed s hash none = false
is_committed s hash (some c) =
    c.submission.assignment_id == s.assignment_id
    && c.submission.generation == s.generation
    && c.receipt_hash == hash

-- a result needs a lease, unless the task is completed
unfoldable pub check_launched : Ledger → String → String → Result CoordinatorError (Unit {0})
check_launched l task id = do
  t ← read_task l task
  r ← context (find_reservation id l.reservations) CoordinatorError.no_row
  ensure (is_completed t.status || ltb 0 r.lease_sequence) CoordinatorError.unauthorized_launch

-- the sequence of a checkpoint, which is positive
unfoldable pub read_sequence : Services → ResultSubmission → Result CoordinatorError ℕ
read_sequence env s = do
  sequence ← context (env.checkpoint_sequence s.result) CoordinatorError.checkpoint_sequence
  ensure (ltb 0 sequence) CoordinatorError.checkpoint_sequence
  ok sequence

-- a checkpoint goes forward within an attempt
unfoldable pub check_progress :
    Services
    → ResultSubmission
    → ℕ
    → String
    → Option CheckpointRow
    → Result CoordinatorError (Unit {0})
check_progress env s sequence hash none = ok tt
check_progress env s sequence hash (some c) =
    let checked : Result CoordinatorError (Unit {0}) = (do
      old ← context (env.checkpoint_sequence c.submission.result) CoordinatorError.checkpoint_stored
      ensure (ltb old sequence || sequence == old && c.receipt_hash == hash)
          CoordinatorError.checkpoint_rewind) in
    if c.submission.generation == s.generation then checked else ok tt

-- the branch that commits a checkpoint
unfoldable pub accept_checkpoint :
    Services → Ledger → ResultSubmission → String → String → Result CoordinatorError Ledger
accept_checkpoint env l s task hash = do
  t ← read_task l task
  ensure (is_assigned t.status) CoordinatorError.checkpoint_completed
  sequence ← read_sequence env s
  check_progress env s sequence hash (find_checkpoint task l.checkpoints)
  let row : CheckpointRow = record { submission = s; receipt_hash = hash }
  ok (record l {
    checkpoints =
        put_row (λ (c : CheckpointRow). c.submission.task_id) row (λ _. row) l.checkpoints;
  })

-- the branch that accepts a result
unfoldable pub accept_final :
    Ledger → ResultSubmission → String → String → Result CoordinatorError Ledger
accept_final l s task hash = do
  t ← read_task l task
  let accepted : Result CoordinatorError Ledger =
      ensure (is_assigned t.status) CoordinatorError.not_accepting
      >> (ensure (not (any (λ (p : ResultSubmission). p.task_id == task) l.result_payloads))
            CoordinatorError.constraint_failed
          >> ok (record l {
            result_payloads = l.result_payloads ++ (s ∷ []);
            store = record l.store {
              tasks =
                  update_task task
                    (λ r. record r { status = TaskStatus.completed; receipt_hash = some hash })
                    l.store.tasks;
            };
          }))
  if is_completed t.status
      then ensure (t.receipt_hash == some hash) CoordinatorError.different_result >> ok l
      else accepted

-- the part after the acknowledgement of a committed checkpoint
unfoldable pub accept_new :
    Services
    → Ledger
    → ResultSubmission
    → Bool
    → String
    → String
    → Result CoordinatorError (Receipt × Ledger)
accept_new env l s checkpoint task hash = do
  _ ← current_attempt l s.assignment_id s.generation
  check_launched l task s.assignment_id
  next ← if checkpoint then accept_checkpoint env l s task hash else accept_final l s task hash
  ok (receipt_for task s hash, next)

-- `accept`
unfoldable pub accept :
    Services
    → Ledger
    → Principal
    → ResultSubmission
    → Bool
    → Result CoordinatorError (Receipt × Ledger)
accept env l p s checkpoint = do
  authorize_assignment l p s.assignment_id s.generation
  a ← context (find_assignment s.assignment_id l.store.assignments) CoordinatorError.no_row
  ensure (a.task_id == s.task_id) CoordinatorError.result_task
  check_artifacts env l s s.artifacts
  let hash = env.receipt_of s
  if checkpoint && is_committed s hash (find_checkpoint a.task_id l.checkpoints)
      then ok (receipt_for a.task_id s hash, l)
      else accept_new env l s checkpoint a.task_id hash
