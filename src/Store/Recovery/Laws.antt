-- ===== src/Store/Recovery/Laws.antt =====
-- What a successful import writes.
use cede_grid.Common.{
  ℕ, true, ◌&&◌, [], ◌∷◌, ◌++◌, ◌≡◌, arith, ok, >>=-eq-ok, ensure-eq-ok, ok-injective, ap, sym,
  and-eq-true, context, eq_iff, Option-cases, ◌==◌, String_eq, ℕ_eq, inl, inr,
}
use cede_grid.Model.Resources.{Resources_eq}
use cede_grid.Execution.{is_prepared, AllocationClass_eq, ExecutionRecord, LaunchRequest}
use cede_grid.Protocol.{ReplayRecoveryAllocation}
use cede_grid.Store.Tables.{Store, StoreError, execution_free, find_task}
use cede_grid.Store.Recovery.{
  import_replay_reservation, write_import, base_record, imported_record, import_task,
  check_prepared, unprepared_record,
}

write_import-rows :
    (s : Store) (r : ReplayRecoveryAllocation) (base : ExecutionRecord) {entry : ExecutionRecord}
    {s' : Store}
    → write_import s r base ≡ ok (entry, s')
    → (s'.executions ≡ s.executions ++ (record { request = r.request; entry = base } ∷ []))
      × (s'.children ≡ s.children)
      × (execution_free r.request.assignment_id s.executions ≡ true)
      × (base ≡ entry)
unfolding write_import
write_import-rows s r base h =
    let (t, h1) = ensure-eq-ok _ StoreError.assignment_exists _ h in
    let (tasks, q, h2) = >>=-eq-ok (import_task s r (find_task r.request.task_id s.tasks)) _ h1 in
    let (free, h3) = ensure-eq-ok _ StoreError.constraint_failed _ h2 in
    let e = ok-injective h3 in
    (
      sym (ap (λ (p : ExecutionRecord × Store). p.1.executions) e),
      sym (ap (λ (p : ExecutionRecord × Store). p.1.children) e),
      (and-eq-true _ _ free).1,
      ap (λ (p : ExecutionRecord × Store). p.0) e,
    )

pub import-rows :
    (s : Store) (r : ReplayRecoveryAllocation) {entry : ExecutionRecord} {s' : Store}
    → import_replay_reservation s r ≡ ok (entry, s')
    → (base : ExecutionRecord) × (entry ≡ imported_record r base)
      × (s'.executions
          ≡ s.executions ++ (record { request = r.request; entry = imported_record r base } ∷ []))
      × (s'.children ≡ s.children)
      × (execution_free r.request.assignment_id s.executions ≡ true)
      × (base_record r ≡ ok base)
unfolding import_replay_reservation
import-rows s r h =
    let (_, h1) = ensure-eq-ok _ StoreError.profile _ h in
    let (_, h2) = ensure-eq-ok _ StoreError.identity_required _ h1 in
    let (_, h3) = ensure-eq-ok _ StoreError.generation_overflow _ h2 in
    let (_, h4) = ensure-eq-ok _ StoreError.stale_generation _ h3 in
    let (_, h5) = ensure-eq-ok _ StoreError.amounts_required _ h4 in
    let (base, b, h6) = >>=-eq-ok (base_record r) _ h5 in
    let (rows, kids, free, e) = write_import-rows s r (imported_record r base) h6 in
    (base, sym e, rows, kids, free, b)

-- The record that an import starts from belongs to the assignment that is imported.
prepared-assignment :
    (request : LaunchRequest) (g : ℕ) (p : ExecutionRecord) {base : ExecutionRecord}
    → check_prepared request g p ≡ ok base
    → base.assignment_id ≡ request.assignment_id
unfolding check_prepared
prepared-assignment request g p h =
    let (t, h1) =
      ensure-eq-ok
        (p.task_id == request.task_id
          && p.assignment_id == request.assignment_id
          && p.generation == g
          && p.class == request.class
          && p.resources == request.resources
          && is_prepared p.phase)
        StoreError.prepared_mismatch _ h in
    let (i, _, h2) = >>=-eq-ok (context p.identity StoreError.invalid_identity) _ h1 in
    let (_, h3) = ensure-eq-ok _ StoreError.invalid_identity _ h2 in
    let (_, h4) = ensure-eq-ok _ StoreError.backend_changed _ h3 in
    let (_, h5) = ensure-eq-ok _ StoreError.evidence_invalid _ h4 in
    let (_, h6) = ensure-eq-ok _ StoreError.control_unverified _ h5 in
    let e = ok-injective {a = p} h6 in
    rw (← e) (ground (arith, t, eq_iff p.assignment_id request.assignment_id))

pub base-assignment :
    (r : ReplayRecoveryAllocation) {base : ExecutionRecord}
    → base_record r ≡ ok base
    → base.assignment_id ≡ r.request.assignment_id
unfolding base_record unprepared_record
base-assignment r h = elim (Option-cases r.prepared) [
  | inl n ↦
      sym (ap (λ (e : ExecutionRecord). e.assignment_id) (ok-injective (rw (n, base_record) at h)))
  | inr (p, s) ↦ prepared-assignment r.request r.generation p (rw (s, base_record) at h)
]
