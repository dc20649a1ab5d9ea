-- ===== src/Coordinator/Steps/Budget.antt =====
-- src/coordinator.rs, `schedule`: the offers of a node against its managed budget and its slots.
use cede_grid.Common.{
  all, false, leb, StringMap, amount, keys, contains, ℕ, ◌+◌, ◌-◌, ◌≤◌, String, true, ◌&&◌, List,
  [], ◌∷◌, ◌++◌, ◌==◌, String_eq, ◌≡◌, refl, arith, Bool-cases, inl, inr, ◌⊎◌, ok, err, Result,
  length, >>=-eq-ok, ok-injective, subst, ap, sym, ◌∙◌, ◌>>=◌, eq_iff,
}
use cede_grid.Model.Resources.{Resources, no_resources}
use cede_grid.Policy.Amounts.{PolicyError, add_resources}
use cede_grid.Policy.Amounts.Laws.{IsSum, add_resources-IsSum, sum_at}
use cede_grid.Protocol.{CoordinatorConfig, NodeReport}
use cede_grid.Store.Reserve.{fits_requested}
use cede_grid.Coordinator.Tables.{CoordinatorError, Ledger, Services, Reservation, is_held}
use cede_grid.Coordinator.Charge.{add, node_charge, charge_from, held_resources}
use cede_grid.Coordinator.Schedule.{
  QueuedRow, Round, schedule, schedule_step, schedule_loop, sort_queued, queued_rows, unstarted,
}
use cede_grid.Coordinator.Steps.Schedule.{
  Turn, offers, passes, schedule_step-Turn, Scheduled, refused, looped, schedule-Scheduled,
  offer_row, first_round,
}

bind_ok : {A : Type 0} (m : Result CoordinatorError A) → (m >>= λ x. ok x) ≡ m
bind_ok (err e) = refl
bind_ok (ok a) = refl

-- The charge of a table with one row more.
charge_from-append :
    (node_id : String) (charge : Resources) (rows : List Reservation) (r : Reservation)
    {total : Resources}
    → charge_from node_id charge rows ≡ ok total
    → (r.node_id == node_id) ≡ true
    → is_held r.phase ≡ true
    → charge_from node_id charge (rows ++ (r ∷ []))
      ≡ add total (held_resources r.resources r.observed)
unfolding charge_from
charge_from-append node_id charge [] r h n p =
    let t : (r.node_id == node_id && is_held r.phase) ≡ true = ground (arith, n, p) in
    rw (t, charge_from)
      (bind_ok (add charge (held_resources r.resources r.observed))
        ∙ ap (λ c. add c (held_resources r.resources r.observed)) (ok-injective h))
charge_from-append node_id charge (x ∷ rest) r h n p =
    elim (Bool-cases (x.node_id == node_id && is_held x.phase)) [
      | inl y ↦
          let (next, a, e) =
            >>=-eq-ok (add charge (held_resources x.resources x.observed)) _
              (rw (y, charge_from) at h) in
          rw (y, charge_from, a) (charge_from-append node_id next rest r e n p)
      | inr m ↦
          rw (m, charge_from)
            (charge_from-append node_id charge rest r (rw (m, charge_from) at h) n p)
    ]

length-append : {A : Type 0} (xs : List A) (x : A) → length (xs ++ (x ∷ [])) ≡ length xs + 1
length-append [] x = omega arith
length-append (y ∷ xs) x = omega (arith, length-append xs x)

-- What the loop keeps: the charge that it carries is that of the node, each offer takes a slot, and
-- the charge is within the budget once there is an offer.
record Placed (report : NodeReport) (s s' : Round) : Type 0 where
  charged : node_charge s'.ledger report.node_id ≡ ok s'.charge
  slots :
      length s'.ledger.reservations + s'.remaining_slots
      ≡ length s.ledger.reservations + s.remaining_slots
  within :
      (s'.ledger.reservations ≡ s.ledger.reservations) × (s'.charge ≡ s.charge)
      ⊎ (s'.charge.cpu_millicores ≤ report.managed_budget.cpu_millicores)
        × (s'.charge.ram_mib ≤ report.managed_budget.ram_mib)
  gpu :
      (j : String)
      → (amount j s'.charge.gpu_memory_mib ≤ amount j report.managed_budget.gpu_memory_mib)
        ⊎ (amount j s'.charge.gpu_memory_mib ≡ amount j s.charge.gpu_memory_mib)

keys-fit :
    (used cap : StringMap ℕ) (j : String) (ids : List String)
    → all (λ id. leb (amount id used) (amount id cap)) ids ≡ true
    → contains ids j ≡ true
    → amount j used ≤ amount j cap
keys-fit used cap j [] h c = cc
keys-fit used cap j (id ∷ ids) h c = elim (Bool-cases (id == j)) [
  | inl y ↦ let same : id ≡ j = (eq_iff id j).0 y in rw (← same) (ground (arith, h))
  | inr n ↦ keys-fit used cap j ids (ground (arith, h)) (ground (arith, c, n))
]

absent-nothing : (j : String) (m : StringMap ℕ) → contains (keys m) j ≡ false → sum_at j m ≡ 0
absent-nothing j [] h = refl
absent-nothing j ((g, n) ∷ rest) h =
    ground (arith, h, eq_iff j g, eq_iff g j, absent-nothing j rest)

add-IsSum : (a b : Resources) {c : Resources} → add a b ≡ ok c → IsSum a b c
unfolding add
add-IsSum a b {c} h = go (add_resources a b) refl h
  where
    go :
        (m : Result PolicyError Resources)
        → add_resources a b ≡ m
        → ◌≡◌ {A = Result CoordinatorError Resources}
            (elim m [ ok sum ↦ ok sum | err _ ↦ err CoordinatorError.overflow ])
            (ok c)
        → IsSum a b c
    go (ok sum) e k =
        add_resources-IsSum a b (e ∙ ap {B = Result PolicyError Resources} ok (ok-injective k))
    go (err x) e k = cc k

-- What an offer adds to a device.
offer-gpu :
    (used next cap request : Resources) (j : String)
    → add used request ≡ ok next
    → fits_requested next cap request ≡ true
    → (amount j next.gpu_memory_mib ≤ amount j cap.gpu_memory_mib)
      ⊎ (amount j next.gpu_memory_mib ≡ amount j used.gpu_memory_mib)
unfolding fits_requested
offer-gpu used next cap request j a f =
    let s = add-IsSum used request a in
    elim (Bool-cases (contains (keys request.gpu_memory_mib) j)) [
      | inl y ↦ inl (
          keys-fit next.gpu_memory_mib cap.gpu_memory_mib j (keys request.gpu_memory_mib)
            (ground (arith, f)) y)
      | inr n ↦ inr (omega (arith, s.gpu j, absent-nothing j request.gpu_memory_mib n))
    ]

fits-le :
    (used cap request : Resources)
    → fits_requested used cap request ≡ true
    → (used.cpu_millicores ≤ cap.cpu_millicores) × (used.ram_mib ≤ cap.ram_mib)
unfolding fits_requested
fits-le used cap request h = ground (arith, h)

Turn-Placed :
    (config : CoordinatorConfig) (report : NodeReport) (now : ℕ) (q : QueuedRow) (s s' : Round)
    → node_charge s.ledger report.node_id ≡ ok s.charge
    → Turn config report now q s s'
    → Placed report s s'
unfolding node_charge held_resources
Turn-Placed config report now q s s' h (offers id o g a f p n) =
    let r = offer_row config s.ledger report q id now in
    record {
      charged =
          ap (charge_from report.node_id no_resources) o.reservations
          ∙ (charge_from-append report.node_id no_resources s.ledger.reservations r h
                ((eq_iff report.node_id report.node_id).1 refl) refl
              ∙ a);
      slots = omega (arith, ap length o.reservations, length-append s.ledger.reservations r, p, n);
      within = inr (fits-le s'.charge report.managed_budget q.request.resources f);
      gpu = λ j. offer-gpu s.charge s'.charge report.managed_budget q.request.resources j a f;
    }
Turn-Placed config report now q s s' h (passes r f a c n) = record {
  charged =
      ap (charge_from report.node_id no_resources) r
      ∙ (h ∙ ap {B = Result CoordinatorError Resources} ok (sym c));
  slots = omega (arith, ap length r, n);
  within = inl (r, c);
  gpu = λ j. inr (ap (λ (x : Resources). amount j x.gpu_memory_mib) c);
}

Placed-trans :
    (report : NodeReport) (s t u : Round)
    → Placed report s t
    → Placed report t u
    → Placed report s u
Placed-trans report s t u f g = record {
  charged = g.charged;
  slots = g.slots ∙ f.slots;
  within = joined f.within g.within;
  gpu = λ j. elim (g.gpu j) [
    | inl w ↦ inl w
    | inr e ↦ elim (f.gpu j) [ inl w ↦ inl (omega (arith, e, w)) | inr e' ↦ inr (e ∙ e') ]
  ];
}
  where
    joined :
        (t.ledger.reservations ≡ s.ledger.reservations) × (t.charge ≡ s.charge)
          ⊎ (t.charge.cpu_millicores ≤ report.managed_budget.cpu_millicores)
            × (t.charge.ram_mib ≤ report.managed_budget.ram_mib)
        → (u.ledger.reservations ≡ t.ledger.reservations) × (u.charge ≡ t.charge)
          ⊎ (u.charge.cpu_millicores ≤ report.managed_budget.cpu_millicores)
            × (u.charge.ram_mib ≤ report.managed_budget.ram_mib)
        → (u.ledger.reservations ≡ s.ledger.reservations) × (u.charge ≡ s.charge)
          ⊎ (u.charge.cpu_millicores ≤ report.managed_budget.cpu_millicores)
            × (u.charge.ram_mib ≤ report.managed_budget.ram_mib)
    joined x (inr w) = inr w
    joined (inl (r, c)) (inl (r', c')) = inl (r' ∙ r, c' ∙ c)
    joined (inr w) (inl (r', c')) = inr (
        subst
          (λ (x : Resources).
            (x.cpu_millicores ≤ report.managed_budget.cpu_millicores)
            × (x.ram_mib ≤ report.managed_budget.ram_mib))
          (sym c') w)

schedule_loop-Placed :
    (env : Services) (config : CoordinatorConfig) (report : NodeReport) (now : ℕ) (s : Round)
    (queue : List QueuedRow) {s' : Round}
    → node_charge s.ledger report.node_id ≡ ok s.charge
    → schedule_loop env config report now s queue ≡ ok s'
    → Placed report s s'
unfolding schedule_loop
schedule_loop-Placed env config report now s [] h e =
    subst (Placed report s) (ok-injective e)
      (record { charged = h; slots = refl; within = inl (refl, refl); gpu = λ j. inr refl })
schedule_loop-Placed env config report now s (q ∷ rest) {s'} h e =
    let (m, t, e1) = >>=-eq-ok (schedule_step env config report now s q) _ e in
    let p =
      Turn-Placed config report now q s m h (schedule_step-Turn env config report now q s t) in
    Placed-trans report s m s' p (schedule_loop-Placed env config report now m rest p.charged e1)

-- The node is charged within its budget, in the CPU, the RAM and the memory of each device whose
-- charge is not what it was, and it has no more offers than slots.
pub record IsWithinBudget (l : Ledger) (report : NodeReport) (l' : Ledger) : Type 0 where
  pub charge : Resources
  pub charged : node_charge l' report.node_id ≡ ok charge
  pub cpu : charge.cpu_millicores ≤ report.managed_budget.cpu_millicores
  pub ram : charge.ram_mib ≤ report.managed_budget.ram_mib
  pub before : Resources
  pub charged_before : node_charge l report.node_id ≡ ok before
  pub gpu :
      (j : String)
      → (amount j charge.gpu_memory_mib ≤ amount j report.managed_budget.gpu_memory_mib)
        ⊎ (amount j charge.gpu_memory_mib ≡ amount j before.gpu_memory_mib)
  pub slots :
      length l'.reservations
      ≤ length l.reservations + (report.launch_slots - unstarted l report.node_id)

-- A schedule that succeeds adds no reservation, or leaves all that the node is charged, at least what
-- is reserved or observed for each allocation that it holds, within the CPU and the RAM of the
-- managed budget, and within its device memory on each device whose charge the schedule changed; a
-- device that no new reservation uses is not checked. There are no more new reservations than the
-- report's launch slots leave beside the offers that stand.
pub schedule-IsWithinBudget :
    (env : Services) (config : CoordinatorConfig) (l : Ledger) (report : NodeReport) (now : ℕ)
    {l' : Ledger}
    → schedule env config l report now ≡ ok l'
    → (l'.reservations ≡ l.reservations) ⊎ IsWithinBudget l report l'
schedule-IsWithinBudget env config l report now {l'} h =
    at (schedule-Scheduled env config l report now h)
  where
    at :
        Scheduled env config l report now l'
        → (l'.reservations ≡ l.reservations) ⊎ IsWithinBudget l report l'
    at (refused e) = inl (ap (λ (x : Ledger). x.reservations) e)
    at (looped c s a g k e) =
        let p =
          schedule_loop-Placed env config report now (first_round l report c)
            (sort_queued (queued_rows l l.store.tasks)) g k in
        let same = ap (λ (x : Ledger). x.reservations) e in
        elim p.within [
          | inl w ↦ inl (same ∙ w.0)
          | inr w ↦ inr (record {
            charge = s.charge;
            charged = ap (λ x. node_charge x report.node_id) e ∙ p.charged;
            cpu = w.0;
            ram = w.1;
            before = c;
            charged_before = g;
            gpu = p.gpu;
            slots = omega (arith, ap length same, p.slots);
          })
        ]
