-- ===== src/Store/Reserve/Laws.antt =====
-- A successful reservation, taken apart.
use cede_grid.Common.{
  ℕ, ◌+◌, String, true, false, ◌&&◌, ◌||◌, not, Option, List, [], ◌∷◌, ◌++◌, ◌==◌, Option_eq, ℕ_eq,
  Bool_eq, ◌≡◌, arith, Result, ok, >>=-eq-ok, ensure-eq-ok, ok-injective, is_some_and, ltb, amount,
  Bool-cases, inl, inr, if◌then◌else◌, refl, ap, sym, and-eq-true, err, any, String_eq,
}
use cede_grid.Model.Resources.{Resources}
use cede_grid.Execution.{LaunchRequest, ExecutionRecord, is_released}
use cede_grid.Policy.Amounts.{add_resources, PolicyError}
use cede_grid.Policy.Amounts.Laws.{sum_at, IsSum, add_resources-IsSum}
use cede_grid.Store.Tables.{Store, StoreError, ExecutionRow, execution_free, is_queued, is_assigned}
use cede_grid.Store.Reserve.{
  reserve_generation, check_profile, check_request, charge_rows, fits_requested, task_row,
  next_generation, write_reservation, reserved_record, add,
}

pub record Reserved (s : Store) (request : LaunchRequest) (capacity : Resources) (remote : Option ℕ)
    (entry : ExecutionRecord) (s' : Store) : Type 0 where
  pub profiled : check_profile s request remote ≡ ok tt
  pub charged : Resources
  pub charges : charge_rows request.task_id request.resources s.executions ≡ ok charged
  pub fits : fits_requested charged capacity request.resources ≡ true
  pub eligible :
      (is_queued (task_row s request).status
        || is_some_and remote (λ g. ltb (task_row s request).generation g)
          && (task_row s request).replay_safe
          && is_assigned (task_row s request).status)
      ≡ true
  pub generation : ℕ
  pub numbered : next_generation (task_row s request).generation remote ≡ ok generation
  pub written : write_reservation s request generation ≡ ok (entry, s')

pub reserve-Reserved :
    (s : Store) (request : LaunchRequest) (capacity : Resources) (remote : Option ℕ)
    {entry : ExecutionRecord} {s' : Store}
    → reserve_generation s request capacity remote ≡ ok (entry, s')
    → Reserved s request capacity remote entry s'
unfolding reserve_generation
reserve-Reserved s request capacity remote h =
    let (_, p, h1) = >>=-eq-ok (check_profile s request remote) _ h in
    let (_, q, h2) = >>=-eq-ok (check_request request) _ h1 in
    let (a, h3) = ensure-eq-ok _ StoreError.attempts_changed _ h2 in
    let (charged, c, h4) =
      >>=-eq-ok (charge_rows request.task_id request.resources s.executions) _ h3 in
    let (fits, h5) = ensure-eq-ok _ StoreError.insufficient_capacity _ h4 in
    let (b, h6) = ensure-eq-ok _ StoreError.replay_contract _ h5 in
    let (eligible, h7) = ensure-eq-ok _ StoreError.task_state _ h6 in
    let (generation, g, h8) =
      >>=-eq-ok (next_generation (task_row s request).generation remote) _ h7 in
    let (limit, h9) = ensure-eq-ok _ StoreError.attempts_exhausted _ h8 in
    record {
      profiled = p;
      charged = charged;
      charges = c;
      fits = fits;
      eligible = eligible;
      generation = generation;
      numbered = g;
      written = h9;
    }

-- What the writes of a reservation leave.
pub write-entry :
    (s : Store) (request : LaunchRequest) (g : ℕ) {entry : ExecutionRecord} {s' : Store}
    → write_reservation s request g ≡ ok (entry, s')
    → entry ≡ reserved_record request g
unfolding write_reservation
write-entry s request g h = ground arith

pub write-executions :
    (s : Store) (request : LaunchRequest) (g : ℕ) {entry : ExecutionRecord} {s' : Store}
    → write_reservation s request g ≡ ok (entry, s')
    → (s'.executions ≡ s.executions ++ (record { request = request; entry = entry } ∷ []))
      × (s'.children ≡ s.children)
      × (execution_free request.assignment_id s.executions ≡ true)
unfolding write_reservation
write-executions s request g h =
    let (t, k) = ensure-eq-ok _ StoreError.constraint_failed _ h in
    let e = ok-injective k in
    (
      rw (← ap (λ (p : ExecutionRecord × Store). p.0) e)
          (sym (ap (λ (p : ExecutionRecord × Store). p.1.executions) e)),
      sym (ap (λ (p : ExecutionRecord × Store). p.1.children) e),
      (and-eq-true _ _ t).1,
    )

-- The reservations that are not released, added up.
abbrev pub held_cpu : List ExecutionRow → ℕ
held_cpu [] = 0
held_cpu (r ∷ rest) =
    (if is_released r.entry.phase then 0 else r.entry.resources.cpu_millicores) + held_cpu rest

abbrev pub held_ram : List ExecutionRow → ℕ
held_ram [] = 0
held_ram (r ∷ rest) =
    (if is_released r.entry.phase then 0 else r.entry.resources.ram_mib) + held_ram rest

abbrev pub held_gpu : String → List ExecutionRow → ℕ
held_gpu j [] = 0
held_gpu j (r ∷ rest) =
    (if is_released r.entry.phase then 0 else sum_at j r.entry.resources.gpu_memory_mib)
    + held_gpu j rest

sum_of : (m : Result PolicyError Resources) → Result StoreError Resources
sum_of m = elim m [ ok r ↦ ok r | err _ ↦ err StoreError.overflow ]

sum_of-ok : (m : Result PolicyError Resources) {r : Resources} → sum_of m ≡ ok r → m ≡ ok r
unfolding sum_of
sum_of-ok (ok x) e = ap {B = Result PolicyError Resources} ok (ok-injective e)
sum_of-ok (err x) e = cc

add-IsSum :
    (total next : Resources) {result : Resources}
    → add total next ≡ ok result
    → IsSum total next result
unfolding add sum_of
add-IsSum total next h = add_resources-IsSum total next (sum_of-ok (add_resources total next) h)

-- What is charged for a reservation: the request, and every reservation that is not released.
pub record IsCharged (task : String) (start : Resources) (rows : List ExecutionRow)
    (charged : Resources) : Type 0 where
  pub cpu : charged.cpu_millicores ≡ start.cpu_millicores + held_cpu rows
  pub ram : charged.ram_mib ≡ start.ram_mib + held_ram rows
  pub gpu :
      (j : String)
      → amount j charged.gpu_memory_mib ≡ amount j start.gpu_memory_mib + held_gpu j rows
  pub no_rival :
      any (λ (r : ExecutionRow). not (is_released r.entry.phase) && r.entry.task_id == task) rows
      ≡ false

pub charge_rows-IsCharged :
    (task : String) (start : Resources) (rows : List ExecutionRow) {charged : Resources}
    → charge_rows task start rows ≡ ok charged
    → IsCharged task start rows charged
unfolding charge_rows
charge_rows-IsCharged task start [] h =
    rw (← ok-injective h)
      (record { cpu = omega arith; ram = omega arith; gpu = λ j. omega arith; no_rival = refl })
charge_rows-IsCharged task start (row ∷ rest) h = elim (Bool-cases (is_released row.entry.phase)) [
  | inl r ↦
      let i = charge_rows-IsCharged task start rest (rw (r, charge_rows) at h) in
      record {
        cpu = rw r (omega (arith, i.cpu));
        ram = rw r (omega (arith, i.ram));
        gpu = λ j. rw r (omega (arith, i.gpu j));
        no_rival = rw r i.no_rival;
      }
  | inr r ↦
      let k = rw (r, charge_rows) at h in
      let (t, h1) =
        ensure-eq-ok (not (row.entry.task_id == task)) StoreError.prior_reservation _ k in
      let (next, a, h2) = >>=-eq-ok (add start row.entry.resources) _ h1 in
      let i = charge_rows-IsCharged task next rest h2 in
      let m = add-IsSum start row.entry.resources a in
      record {
        cpu = rw r (omega (arith, i.cpu, m.cpu));
        ram = rw r (omega (arith, i.ram, m.ram));
        gpu = λ j. rw r (omega (arith, i.gpu j, m.gpu j));
        no_rival = rw r (ground (arith, i.no_rival, t));
      }
]
