-- ===== src/Coordinator/Steps/Schedule.antt =====
-- src/coordinator.rs, `schedule`, as a change of the ledger.
use cede_grid.Common.{
  saturating_add, ℕ, ◌-◌, ◌<◌, String, true, ◌&&◌, ◌||◌, not, Option, none, some, List, [], ◌∷◌,
  ◌++◌, String_eq, ◌≡◌, refl, arith, leb, ltb, nat_eq, contains, Bool-cases, inl, inr, ok, context,
  Result, >>=-eq-ok, ensure-eq-ok, ok-injective, subst, ap, sym, ◌∙◌, is_none, checked_add,
  and-eq-true,
}
use cede_grid.Execution.{LaunchRequest}
use cede_grid.Model.Resources.{Resources}
use cede_grid.Protocol.{CoordinatorConfig, NodeReport, PoolSpec, RemotePhase}
use cede_grid.Store.Tables.{Store, AssignmentRow, assignment_free, find_assignment}
use cede_grid.Store.Tables.Laws.{find-append}
use cede_grid.Store.Reserve.{fits_requested}
use cede_grid.Coordinator.Tables.{
  CoordinatorError, Ledger, Services, Reservation, find_reservation, find_node, find_retry, db,
}
use cede_grid.Coordinator.Lookup.{pool, pool_count, replay_node_can_admit}
use cede_grid.Coordinator.Charge.{add, node_charge}
use cede_grid.Coordinator.Preempt.{request_preemption, choose_preemption}
use cede_grid.Coordinator.Schedule.{
  QueuedRow, Round, write_offer, place, schedule_step, schedule_loop, schedule_all, schedule,
  may_consider, exhausted, is_eligible, not_before, sort_queued, queued_rows, unstarted,
}
use cede_grid.Coordinator.Steps.Rows.{
  nothing, Keeps, HasFences, IsKeyed, Keeps-append, IsKeyed-append, Settled-append,
}
use cede_grid.Coordinator.Steps.Change.{Change, Change-refl, Change-trans, Change-same}

-- The row of an offer.
abbrev pub offer_row :
    CoordinatorConfig → Ledger → NodeReport → QueuedRow → String → ℕ → Reservation
offer_row config l report q id now = record {
  assignment_id = id;
  node_id = report.node_id;
  phase = RemotePhase.offered;
  resources = q.request.resources;
  observed = none;
  lease_sequence = 0;
  lease_deadline_ms = saturating_add now config.lease_ms;
  epoch = l.epoch;
}

-- What an offer writes: one attempt and one reservation, under an identifier that was free.
pub record IsOffer (config : CoordinatorConfig) (l : Ledger) (report : NodeReport) (q : QueuedRow)
    (id : String) (now : ℕ) (l' : Ledger) : Type 0 where
  pub free : find_reservation id l.reservations ≡ none
  pub reservations : l'.reservations ≡ l.reservations ++ (offer_row config l report q id now ∷ [])
  pub fences : l'.fences ≡ l.fences
  pub row : AssignmentRow
  pub assignments : l'.store.assignments ≡ l.store.assignments ++ (row ∷ [])

is_none-eq : {A : Type 0} (o : Option A) → is_none o ≡ true → o ≡ none
is_none-eq none h = refl
is_none-eq (some a) h = cc

pub write_offer-IsOffer :
    (config : CoordinatorConfig) (l : Ledger) (report : NodeReport) (q : QueuedRow) (id : String)
    (now : ℕ) {l' : Ledger}
    → write_offer config l report q id now ≡ ok l'
    → IsOffer config l report q id now l'
unfolding write_offer
write_offer-IsOffer config l report q id now h =
    let (n, c, h1) =
      >>=-eq-ok (context (checked_add q.generation 1) CoordinatorError.overflow) _ h in
    let row : AssignmentRow = record { assignment_id = id; task_id = q.task_id; generation = n } in
    let (a, e1, h2) = >>=-eq-ok (db n) _ h1 in
    let (free, h3) =
      ensure-eq-ok
        (assignment_free row l.store.assignments && is_none (find_reservation id l.reservations))
        CoordinatorError.constraint_failed _ h2 in
    let (b, e2, h4) = >>=-eq-ok (db (saturating_add now config.lease_ms)) _ h3 in
    let (d, e3, h5) = >>=-eq-ok (db l.epoch) _ h4 in
    let e = ok-injective h5 in
    record {
      free =
          is_none-eq (find_reservation id l.reservations)
            (and-eq-true (assignment_free row l.store.assignments)
              (is_none (find_reservation id l.reservations)) free).1;
      reservations = ap (λ (x : Ledger). x.reservations) (sym e);
      fences = ap (λ (x : Ledger). x.fences) (sym e);
      row = row;
      assignments = ap (λ (x : Ledger). x.store.assignments) (sym e);
    }

offer-Change :
    (config : CoordinatorConfig) (l : Ledger) (report : NodeReport) (q : QueuedRow) (id : String)
    (now : ℕ) (l' : Ledger)
    → IsOffer config l report q id now l'
    → Change nothing l l'
offer-Change config l report q id now l' o =
    let r = offer_row config l report q id now in
    record {
      keeps =
          subst (λ x. Keeps nothing l.reservations x) (sym o.reservations)
            (Keeps-append nothing l.reservations r);
      sound = λ v. record {
        keyed = subst IsKeyed (sym o.reservations) (IsKeyed-append l.reservations r o.free v.keyed);
        fenced =
            subst (λ x. HasFences l'.fences x) (sym o.reservations)
              (subst (λ x. HasFences x (l.reservations ++ (r ∷ []))) (sym o.fences)
                (λ j h. Settled-append j l.reservations r (v.fenced j h)));
      };
      fences = λ j h. subst (λ x. contains x j ≡ true) (sym o.fences) h;
      assigned = λ j a h.
          subst (λ x. find_assignment j x ≡ some a) (sym o.assignments)
            (find-append (λ (y : AssignmentRow). y.assignment_id) j l.store.assignments o.row
              ∙ rw h);
    }

-- Asking for a drain changes nothing else.
pub request_preemption-same :
    (l : Ledger) (report : NodeReport) (request : LaunchRequest) (p : PoolSpec) (count : ℕ)
    (charge : Resources) {l' : Ledger}
    → request_preemption l report request p count charge ≡ ok l'
    → (l'.reservations ≡ l.reservations) × (l'.fences ≡ l.fences) × (l'.store ≡ l.store)
unfolding request_preemption choose_preemption
request_preemption-same l report request p count charge h =
    (ground (arith, h), ground (arith, h), ground (arith, h))

-- One turn of the loop: an offer that fits, or nothing for the reservations.
pub data Turn (config : CoordinatorConfig) (report : NodeReport) (now : ℕ) (q : QueuedRow)
    (s s' : Round) : Type 0 where
  offers :
      (id : String)
      → IsOffer config s.ledger report q id now s'.ledger
      → is_eligible s.ledger report q ≡ true
      → add s.charge q.request.resources ≡ ok s'.charge
      → fits_requested s'.charge report.managed_budget q.request.resources ≡ true
      → 0 < s.remaining_slots
      → s'.remaining_slots ≡ s.remaining_slots - 1
      → Turn config report now q s s'
  passes :
      s'.ledger.reservations ≡ s.ledger.reservations
      → s'.ledger.fences ≡ s.ledger.fences
      → s'.ledger.store.assignments ≡ s.ledger.store.assignments
      → s'.charge ≡ s.charge
      → s'.remaining_slots ≡ s.remaining_slots
      → Turn config report now q s s'

module _ (env : Services) (config : CoordinatorConfig) (report : NodeReport) (now : ℕ)
    (q : QueuedRow) where
  passed :
      (s : Round) {s' : Round}
      → ◌≡◌ {A = Result CoordinatorError Round} (ok s) (ok s')
      → Turn config report now q s s'
  passed s {s'} h =
      let e = ok-injective (sym h) in
      passes (ap (λ (x : Round). x.ledger.reservations) e) (ap (λ (x : Round). x.ledger.fences) e)
        (ap (λ (x : Round). x.ledger.store.assignments) e) (ap (λ (x : Round). x.charge) e)
        (ap (λ (x : Round). x.remaining_slots) e)

  place-Turn :
      (s : Round) (p : PoolSpec) {s' : Round}
      → is_eligible s.ledger report q ≡ true
      → place env config report now s q p ≡ ok s'
      → Turn config report now q s s'
  unfolding place
  place-Turn s p {s'} eligible h =
      let (next, a, h1) = >>=-eq-ok (add s.charge q.request.resources) _ h in
      let count = pool_count s.ledger q.pool_id in
      let full =
        nat_eq s.remaining_slots 0
        || leb p.max_workers count
        || not (fits_requested next report.managed_budget q.request.resources) in
      elim (Bool-cases full) [
        | inl y ↦
            let (l, r, e) =
              >>=-eq-ok (request_preemption s.ledger report q.request p count s.charge) _
                (rw y at h1) in
            let x = ok-injective (sym e) in
            let k = request_preemption-same s.ledger report q.request p count s.charge r in
            passes (ap (λ (t : Round). t.ledger.reservations) x ∙ k.0)
              (ap (λ (t : Round). t.ledger.fences) x ∙ k.1)
              (ap (λ (t : Round). t.ledger.store.assignments) x
                ∙ ap (λ (t : Store). t.assignments) k.2)
              (ap (λ (t : Round). t.charge) x) (ap (λ (t : Round). t.remaining_slots) x)
        | inr n ↦
            let id = env.new_id s.ledger.drawn in
            let (l, w, e) =
              >>=-eq-ok (write_offer config s.ledger report q id now) _ (rw n at h1) in
            let x = ok-injective (sym e) in
            let c = ap (λ (t : Round). t.charge) x in
            offers id
              (subst (λ m. IsOffer config s.ledger report q id now m)
                (sym (ap (λ (t : Round). t.ledger) x))
                (write_offer-IsOffer config s.ledger report q id now w))
              eligible (a ∙ ap {B = Result CoordinatorError Resources} ok (sym c))
              (subst (λ m. fits_requested m report.managed_budget q.request.resources ≡ true)
                (sym c) (ground (arith, n)))
              (ground (arith, n)) (ap (λ (t : Round). t.remaining_slots) x)
      ]

  pub schedule_step-Turn :
      (s : Round) {s' : Round}
      → schedule_step env config report now s q ≡ ok s'
      → Turn config report now q s s'
  unfolding schedule_step
  schedule_step-Turn s {s'} h =
      elim (Bool-cases (ltb now (not_before (find_retry q.task_id s.ledger.retries)))) [
        | inl y ↦ passed s (rw (y, schedule_step) at h)
        | inr n ↦
            let (p, f, h1) = >>=-eq-ok (pool s.ledger q.pool_id) _ (rw (n, schedule_step) at h) in
            elim (Bool-cases (may_consider s.ledger report now q p)) [
              | inr no' ↦ passed s (rw no' at h1)
              | inl c ↦
                  let h2 = rw c at h1 in
                  elim (Bool-cases (exhausted q)) [
                    | inl x ↦
                        let e = ok-injective (sym (rw x at h2)) in
                        passes (ap (λ (t : Round). t.ledger.reservations) e)
                          (ap (λ (t : Round). t.ledger.fences) e)
                          (ap (λ (t : Round). t.ledger.store.assignments) e)
                          (ap (λ (t : Round). t.charge) e) (ap (λ (t : Round). t.remaining_slots) e)
                    | inr x ↦
                        let h3 = rw x at h2 in
                        elim (Bool-cases (is_eligible s.ledger report q)) [
                          | inl g ↦ place-Turn s p g (rw g at h3)
                          | inr g ↦ passed s (rw g at h3)
                        ]
                  ]
            ]
      ]

Turn-Change :
    (config : CoordinatorConfig) (report : NodeReport) (now : ℕ) (q : QueuedRow) (s s' : Round)
    → Turn config report now q s s'
    → Change nothing s.ledger s'.ledger
Turn-Change config report now q s s' (offers id o g a f p n) =
    offer-Change config s.ledger report q id now s'.ledger o
Turn-Change config report now q s s' (passes r f a c n) =
    Change-same nothing s.ledger s'.ledger r f a

schedule_loop-Change :
    (env : Services) (config : CoordinatorConfig) (report : NodeReport) (now : ℕ) (s : Round)
    (queue : List QueuedRow) {s' : Round}
    → schedule_loop env config report now s queue ≡ ok s'
    → Change nothing s.ledger s'.ledger
unfolding schedule_loop
schedule_loop-Change env config report now s [] h =
    subst (λ (x : Round). Change nothing s.ledger x.ledger) (ok-injective h)
      (Change-refl nothing s.ledger)
schedule_loop-Change env config report now s (q ∷ rest) {s'} h =
    let (m, t, e) = >>=-eq-ok (schedule_step env config report now s q) _ h in
    Change-trans nothing s.ledger m.ledger s'.ledger
      (Turn-Change config report now q s m (schedule_step-Turn env config report now q s t))
      (schedule_loop-Change env config report now m rest e)

-- The state in which the loop begins.
abbrev pub first_round : Ledger → NodeReport → Resources → Round
first_round l report charge = record {
  ledger = l;
  charge = charge;
  remaining_slots = report.launch_slots - unstarted l report.node_id;
}

-- A schedule that succeeded: nothing was to be done, or the loop ran from the charge of the node.
pub data Scheduled (env : Services) (config : CoordinatorConfig) (l : Ledger) (report : NodeReport)
    (now : ℕ) (l' : Ledger) : Type 0 where
  refused : l' ≡ l → Scheduled env config l report now l'
  looped :
      (charge : Resources) (s : Round)
      → replay_node_can_admit l report.node_id ≡ true
      → node_charge l report.node_id ≡ ok charge
      → schedule_loop env config report now
          (first_round l report charge)
          (sort_queued (queued_rows l l.store.tasks))
        ≡ ok s
      → l' ≡ s.ledger
      → Scheduled env config l report now l'

pub schedule-Scheduled :
    (env : Services) (config : CoordinatorConfig) (l : Ledger) (report : NodeReport) (now : ℕ)
    {l' : Ledger}
    → schedule env config l report now ≡ ok l'
    → Scheduled env config l report now l'
unfolding schedule schedule_all
schedule-Scheduled env config l report now h =
    let (n, f, h1) =
      >>=-eq-ok (context (find_node report.node_id l.nodes) CoordinatorError.no_row) _ h in
    elim (Bool-cases (n.drain || not (replay_node_can_admit l report.node_id))) [
      | inl y ↦ refused (ok-injective (sym (rw y at h1)))
      | inr d ↦
          let (c, g, h2) = >>=-eq-ok (node_charge l report.node_id) _ (rw d at h1) in
          let (s, k, h3) =
            >>=-eq-ok
              (schedule_loop env config report now (first_round l report c)
                (sort_queued (queued_rows l l.store.tasks)))
              _ h2 in
          looped c s (ground (arith, d)) g k (ok-injective (sym h3))
    ]

pub schedule-Change :
    (env : Services) (config : CoordinatorConfig) (l : Ledger) (report : NodeReport) (now : ℕ)
    {l' : Ledger}
    → schedule env config l report now ≡ ok l'
    → Change nothing l l'
schedule-Change env config l report now {l'} h = at (schedule-Scheduled env config l report now h)
  where
    at : Scheduled env config l report now l' → Change nothing l l'
    at (refused e) = subst (λ x. Change nothing l x) (sym e) (Change-refl nothing l)
    at (looped c s a g k e) =
        subst (λ x. Change nothing l x) (sym e)
          (schedule_loop-Change env config report now (first_round l report c)
            (sort_queued (queued_rows l l.store.tasks)) k)
