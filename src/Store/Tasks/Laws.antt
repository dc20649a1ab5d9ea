-- ===== src/Store/Tasks/Laws.antt =====
-- The acceptance of a result.
use cede_grid.Common.{
  ℕ, ◌<◌, String, true, false, ◌&&◌, not, some, ◌==◌, String_eq, ℕ_eq, Option_eq, ◌≡◌, refl, inl,
  inr, arith, ok, err, context, >>=-eq-ok, ensure-eq-ok, context-eq-ok, ok-injective, if◌then◌else◌,
  Bool-cases, ==_iff, eq_iff, ltb, is_blank, ap, sym,
}
use cede_grid.Store.Tables.{
  Store, StoreError, TaskRow, TaskStatus, find_task, is_completed, is_assigned, is_replayable,
}
use cede_grid.Store.Tables.Laws.{find-key, find-update}
use cede_grid.Store.Tasks.{accept_result, accept_current, ResultReceipt}

-- The task is completed, at a generation and with a receipt.
pub record IsSettled (s : Store) (id : String) (n : ℕ) (hash : String) : Type 0 where
  pub row : TaskRow
  pub found : find_task id s.tasks ≡ some row
  pub completed : is_completed row.status ≡ true
  pub receipt : row.receipt_hash ≡ some hash
  pub generation : row.generation ≡ n

accept_current-IsSettled :
    (s : Store) (id : String) (n : ℕ) (t : TaskRow) (hash : String) {s' : Store}
    → t.generation ≡ n
    → find_task id s.tasks ≡ some t
    → accept_current s t hash ≡ ok s'
    → IsSettled s' id n hash × (s'.profile ≡ s.profile)
unfolding accept_current
accept_current-IsSettled s id n t hash m f h = elim (Bool-cases (is_completed t.status)) [
  | inl y ↦
      let (r, e) =
        ensure-eq-ok (t.receipt_hash == some hash) StoreError.different_receipt (ok s)
          (rw (y, accept_current) at h) in
      rw (← ok-injective e) (
        record {
          row = t;
          found = f;
          completed = y;
          receipt = (==_iff t.receipt_hash (some hash)).0 r;
          generation = m;
        },
        refl,
      )
  | inr n ↦
      let change =
        λ (r : TaskRow). record r { status = TaskStatus.completed; receipt_hash = some hash } in
      let k = find-key (λ (r : TaskRow). r.task_id) id s.tasks t f in
      let u = find-update (λ (r : TaskRow). r.task_id) t.task_id id change s.tasks (λ r e. e) in
      let (a, e) =
        ensure-eq-ok (is_assigned t.status) StoreError.not_accepting _
          (rw (n, accept_current) at h) in
      rw (← ok-injective e) (
        record {
          row = record t { status = TaskStatus.completed; receipt_hash = some hash };
          found = rw ((eq_iff t.task_id id).1 k, f) at u;
          completed = refl;
          receipt = refl;
          generation = m;
        },
        refl,
      )
]

-- What an acceptance finds.
record IsAccepted (s : Store) (id : String) (n : ℕ) (hash : String) (r : ResultReceipt) (s' : Store)
    : Type 0 where
  pub profile : is_replayable s'.profile ≡ false
  pub named : is_blank hash ≡ false
  pub positive : 0 < n
  pub settled : IsSettled s' id n hash
  pub given : r ≡ (record { task_id = id; generation = n; receipt_hash = hash })

accept_result-IsAccepted :
    (s : Store) (id : String) (n : ℕ) (hash : String) {r : ResultReceipt} {s' : Store}
    → accept_result s id n hash ≡ ok (r, s')
    → IsAccepted s id n hash r s'
unfolding accept_result
accept_result-IsAccepted s id n hash h =
    let (p, h1) = ensure-eq-ok (not (is_replayable s.profile)) StoreError.profile _ h in
    let (b, h2) = ensure-eq-ok (not (is_blank hash)) StoreError.blank_id _ h1 in
    let (t, f, h3) = >>=-eq-ok (context (find_task id s.tasks) StoreError.unknown_task) _ h2 in
    let (g, h4) = ensure-eq-ok (t.generation == n && ltb 0 n) StoreError.stale_attempt _ h3 in
    let (next, a, h5) = >>=-eq-ok (accept_current s t hash) _ h4 in
    let given : ResultReceipt = record { task_id = id; generation = n; receipt_hash = hash } in
    let e = ok-injective {a = (given, next)} h5 in
    let (settled, same) =
      accept_current-IsSettled s id n t hash (ground (arith, g))
        (context-eq-ok (find_task id s.tasks) _ f) a in
    rw (← ap (λ (p : ResultReceipt × Store). p.1) e) (record {
      profile = rw same (ground (arith, p));
      named = ground (arith, b);
      positive = ground (arith, g);
      settled = settled;
      given = sym (ap (λ (p : ResultReceipt × Store). p.0) e);
    })

-- A settled task answers an acceptance by its receipt.
settled_answer :
    (s : Store) (id : String) (n : ℕ) (hash other : String)
    → is_replayable s.profile ≡ false
    → is_blank other ≡ false
    → 0 < n
    → IsSettled s id n hash
    → accept_result s id n other ≡ (
        if hash == other
        then ok (record { task_id = id; generation = n; receipt_hash = other }, s)
        else err StoreError.different_receipt)
unfolding accept_result accept_current
settled_answer s id n hash other p b z d =
    ground (arith, p, b, z, d.found, d.completed, d.receipt, d.generation)

-- Once a result is accepted the same receipt is answered again and changes nothing, and any other
-- receipt that is not blank is refused for the attempt.
pub accept_result_once :
    (s : Store) (id : String) (n : ℕ) (hash other : String) (r : ResultReceipt) (s' : Store)
    → accept_result s id n hash ≡ ok (r, s')
    → is_blank other ≡ false
    → accept_result s' id n other ≡ (
        if hash == other
        then ok (record { task_id = id; generation = n; receipt_hash = other }, s')
        else err StoreError.different_receipt)
accept_result_once s id n hash other r s' h b =
    let a = accept_result-IsAccepted s id n hash h in
    settled_answer s' id n hash other a.profile b a.positive a.settled
