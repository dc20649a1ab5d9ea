-- ===== src/Coordinator/Steps/Checkpoints.antt =====
-- src/coordinator.rs, `accept`: the order of the checkpoints of an attempt.
use cede_grid.Common.{
  ℕ, ◌<◌, String, true, some, ◌==◌, String_eq, ℕ_eq, Option_eq, ◌≡◌, sym, ◌∙◌, ◌⊎◌, ap, subst,
  arith, Bool-cases, inl, inr, ok, >>=-eq-ok, ensure-eq-ok, ok-injective, eq_iff,
}
use cede_grid.Protocol.{Principal, ResultSubmission, Receipt}
use cede_grid.Coordinator.Tables.{
  CoordinatorError, Ledger, Services, CheckpointRow, find_checkpoint, read_task,
}
use cede_grid.Store.Tables.{is_assigned}
use cede_grid.Coordinator.Accept.{
  accept, accept_checkpoint, is_committed, read_sequence, check_progress,
}
use cede_grid.Coordinator.Steps.Receipts.{
  find-put, accept-Goes, accept_new-Accepts, accept_checkpoint-committed,
}

read_sequence-reads :
    (env : Services) (s : ResultSubmission) {n new : ℕ}
    → read_sequence env s ≡ ok n
    → env.checkpoint_sequence s.result ≡ some new
    → n ≡ new
unfolding read_sequence
read_sequence-reads env s h e = ground (arith, h, e)

check_progress-forward :
    (env : Services) (s : ResultSubmission) (new : ℕ) (hash : String) (c : CheckpointRow) (old : ℕ)
    → check_progress env s new hash (some c) ≡ ok tt
    → c.submission.generation ≡ s.generation
    → env.checkpoint_sequence c.submission.result ≡ some old
    → (old < new) ⊎ (old ≡ new) × (c.receipt_hash ≡ hash)
unfolding check_progress
check_progress-forward env s new hash c old h g e =
    let same : (c.submission.generation == s.generation) ≡ true = ground (arith, g) in
    ground (arith, rw (same, e) at h, eq_iff c.receipt_hash hash)

accept_checkpoint-forward :
    (env : Services) (l : Ledger) (s : ResultSubmission) (task hash : String) (c : CheckpointRow)
    (old new : ℕ) {l' : Ledger}
    → accept_checkpoint env l s task hash ≡ ok l'
    → find_checkpoint task l.checkpoints ≡ some c
    → c.submission.generation ≡ s.generation
    → env.checkpoint_sequence c.submission.result ≡ some old
    → env.checkpoint_sequence s.result ≡ some new
    → (old < new) ⊎ (old ≡ new) × (c.receipt_hash ≡ hash)
unfolding accept_checkpoint
accept_checkpoint-forward env l s task hash c old new h f g o w =
    let (t, e1, h1) = >>=-eq-ok (read_task l task) _ h in
    let (b, h2) = ensure-eq-ok (is_assigned t.status) CoordinatorError.checkpoint_completed _ h1 in
    let (n, e3, h3) = >>=-eq-ok (read_sequence env s) _ h2 in
    let (x, e4, h4) =
      >>=-eq-ok (check_progress env s n hash (find_checkpoint task l.checkpoints)) _ h3 in
    subst (λ m. (old < m) ⊎ (old ≡ m) × (c.receipt_hash ≡ hash)) (read_sequence-reads env s e3 w)
      (check_progress-forward env s n hash c old (rw f at e4) g o)

-- A checkpoint of the same generation as the one that stands is accepted without a change of the
-- ledger, or it is stored with its receipt, and then its sequence is higher, or is the same with the
-- same receipt.
pub accept-forward :
    (env : Services) (l : Ledger) (p : Principal) (s : ResultSubmission) (c : CheckpointRow)
    (old new : ℕ) {r : Receipt} {l' : Ledger}
    → accept env l p s true ≡ ok (r, l')
    → find_checkpoint s.task_id l.checkpoints ≡ some c
    → c.submission.generation ≡ s.generation
    → env.checkpoint_sequence c.submission.result ≡ some old
    → env.checkpoint_sequence s.result ≡ some new
    → (l' ≡ l)
      ⊎ ((old < new) ⊎ (old ≡ new) × (c.receipt_hash ≡ env.receipt_of s))
        × (find_checkpoint s.task_id l'.checkpoints
            ≡ some (record { submission = s; receipt_hash = env.receipt_of s }))
accept-forward env l p s c old new {r} {l'} h f g o w =
    let q = accept-Goes env l p s true h in
    let hash = env.receipt_of s in
    let same : q.assignment.task_id ≡ s.task_id =
      (eq_iff q.assignment.task_id s.task_id).0 q.same_task in
    let f' : find_checkpoint q.assignment.task_id l.checkpoints ≡ some c =
      subst (λ x. find_checkpoint x l.checkpoints ≡ some c) (sym same) f in
    elim (Bool-cases (is_committed s hash (find_checkpoint q.assignment.task_id l.checkpoints))) [
      | inl z ↦ inl (sym (ap (λ (x : Receipt × Ledger). x.1) (ok-injective (rw z at q.branch))))
      | inr n ↦
          let a = accept_new-Accepts env l s true q.assignment.task_id hash (rw n at q.branch) in
          inr (
            accept_checkpoint-forward env l s q.assignment.task_id hash c old new a.written f' g o
                w,
            ap (λ (x : Ledger). find_checkpoint s.task_id x.checkpoints)
                  (accept_checkpoint-committed env l s q.assignment.task_id hash a.written)
                ∙ find-put (λ (x : CheckpointRow). x.submission.task_id)
                    (record { submission = s; receipt_hash = hash }) l.checkpoints,
          )
    ]
