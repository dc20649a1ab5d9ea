-- ===== src/Coordinator/Preempt/Laws.antt =====
-- src/coordinator.rs, `request_preemption`: which allocations are asked to drain.
use cede_grid.Common.{
  ℕ, String, true, ◌&&◌, Option, none, some, List, [], ◌∷◌, ◌++◌, ◌==◌, String_eq, ℤ, ◌≡◌, refl,
  sym, ◌⊎◌, subst, arith, ltb, contains, set_insert, All, Bool-cases, inl, inr, if◌then◌else◌,
  Result, ok, err, context, >>=-eq-ok, context-eq-ok, ok-injective, eq_iff,
}
use mathlib.Core.List.{Memᴰ}
use cede_grid.Model.Resources.{Resources}
use cede_grid.Execution.{LaunchRequest}
use cede_grid.Protocol.{PoolSpec, NodeReport}
use cede_grid.Store.Reserve.{fits_requested}
use cede_grid.Coordinator.Tables.{
  CoordinatorError, Ledger, Reservation, SpecRow, JobRow, find_spec, find_job, find_pool,
}
use cede_grid.Coordinator.Lookup.{Joined, join_row}
use cede_grid.Coordinator.Charge.{add, gpu_request_allowed}
use cede_grid.Coordinator.Preempt.{
  Candidate, Selection, may_preempt, preemptible, insert_candidate, sort_candidates, drains_first,
  spares_minimum, select, select_victims, add_drains, first_selection, choose_preemption,
  request_preemption,
}

-- An allocation that may be drained for work of a priority on a node.
pub record IsVictim (l : Ledger) (node_id : String) (priority : ℤ) (id : String) : Type 0 where
  pub row : Reservation
  pub listed : Memᴰ row l.reservations
  pub keyed : row.assignment_id ≡ id
  pub joined : Joined
  pub joins : join_row l id ≡ ok joined
  pub passes : may_preempt l node_id priority row joined ≡ true

Victim : Ledger → String → ℤ → Candidate → Type 0
Victim l node_id priority c = IsVictim l node_id priority c.reservation.assignment_id

preemptible-Victim :
    (l : Ledger) (node_id : String) (priority : ℤ) (rows : List Reservation)
    → ((r : Reservation) → Memᴰ r rows → Memᴰ r l.reservations)
    → All (Victim l node_id priority) (preemptible l node_id priority rows)
unfolding preemptible Victim
preemptible-Victim l node_id priority [] inside = tt
preemptible-Victim l node_id priority (r ∷ rest) inside =
    go (preemptible-Victim l node_id priority rest (λ x m. inside x (Memᴰ.tail m)))
      (join_row l r.assignment_id) refl
  where
    pooled :
        All (Victim l node_id priority) (preemptible l node_id priority rest)
        → (j : Joined) → join_row l r.assignment_id ≡ ok j
        → (o : Option PoolSpec)
        → All (Victim l node_id priority) (elim o [
          | none ↦ preemptible l node_id priority rest
          | some p ↦
              if may_preempt l node_id priority r j
              then record {
                reservation = r;
                priority = j.job.priority;
                sequence = j.spec.sequence;
                spec = p;
              }
                ∷ preemptible l node_id priority rest
              else preemptible l node_id priority rest
        ])
    pooled more j e none = more
    pooled more j e (some p) = elim (Bool-cases (may_preempt l node_id priority r j)) [
      | inl y ↦ rw y (
        record {
          row = r;
          listed = inside r (Memᴰ.head refl);
          keyed = refl;
          joined = j;
          joins = e;
          passes = y;
        },
        more,
      )
      | inr n ↦ rw n more
    ]

    go :
        All (Victim l node_id priority) (preemptible l node_id priority rest)
        → (m : Result CoordinatorError Joined) → join_row l r.assignment_id ≡ m
        → All (Victim l node_id priority) (preemptible l node_id priority (r ∷ rest))
    go more (err x) e = rw (e, preemptible) more
    go more (ok j) e = rw (e, preemptible) (pooled more j e (find_pool j.job.pool_id l.pools))

module _ (P : Candidate → Type 0) where
  insert_candidate-All :
      (c : Candidate) (rows : List Candidate) → P c → All P rows → All P (insert_candidate c rows)
  unfolding insert_candidate
  insert_candidate-All c [] p h = (p, tt)
  insert_candidate-All c (x ∷ rest) p h = elim (Bool-cases (drains_first x c)) [
    | inl y ↦ rw (y, insert_candidate) (h.0, insert_candidate-All c rest p h.1)
    | inr n ↦ rw (n, insert_candidate) (p, h)
  ]

  sort_candidates-All : (rows : List Candidate) → All P rows → All P (sort_candidates rows)
  unfolding sort_candidates
  sort_candidates-All [] h = tt
  sort_candidates-All (c ∷ rest) h =
      insert_candidate-All c (sort_candidates rest) h.0 (sort_candidates-All rest h.1)

All-append :
    {A : Type 0} (P : A → Type 0) (xs : List A) (x : A) → All P xs → P x → All P (xs ++ (x ∷ []))
All-append P [] x h p = (p, tt)
All-append P (y ∷ xs) x h p = (h.0, All-append P xs x h.1 p)

select_victims-All :
    (l : Ledger) (report : NodeReport) (request : LaunchRequest) (pool : PoolSpec) (s : Selection)
    (rows : List Candidate) (P : String → Type 0) {ids : List String}
    → All P s.selected
    → All (λ (c : Candidate). P c.reservation.assignment_id) rows
    → select_victims l report request pool s rows ≡ ok ids
    → All P ids
unfolding select_victims select
select_victims-All l report request pool s [] P p h e = subst (All P) (ok-injective e) tt
select_victims-All l report request pool s (c ∷ rest) P p h e =
    elim (Bool-cases (spares_minimum l s c)) [
      | inr n ↦
          select_victims-All l report request pool s rest P p h.1 (rw (n, select_victims) at e)
      | inl y ↦
          let next = select pool s c in
          let q = All-append P s.selected c.reservation.assignment_id p h.0 in
          let (future, _, e1) =
            >>=-eq-ok (add next.projected request.resources) _ (rw (y, select_victims) at e) in
          elim (Bool-cases (
            next.frees_pool_slot
            && fits_requested future report.managed_budget request.resources)) [
              | inl z ↦ subst (All P) (ok-injective (rw z at e1)) q
              | inr m ↦ select_victims-All l report request pool next rest P q h.1 (rw m at e1)
            ]
    ]

add_drains-from :
    (ids drains : List String) (P : String → Type 0) (id : String)
    → All P ids
    → contains (add_drains ids drains) id ≡ true
    → (contains drains id ≡ true) ⊎ P id
add_drains-from [] drains P id h e = inl e
add_drains-from (x ∷ ids) drains P id h e =
    elim (add_drains-from ids (set_insert x drains) P id h.1 e) [
      | inr p ↦ inr p
      | inl c ↦ elim (Bool-cases (x == id)) [
        | inl s ↦ inr (subst P ((eq_iff x id).0 s) h.0)
        | inr n ↦ inl (ground (arith, c, n))
      ]
    ]

-- The priority of the job of a request.
pub record HasPriority (l : Ledger) (request : LaunchRequest) (priority : ℤ) : Type 0 where
  pub spec : SpecRow
  pub specified : find_spec request.task_id l.task_specs ≡ some spec
  pub job : JobRow
  pub found : find_job spec.job_id l.jobs ≡ some job
  pub same : job.priority ≡ priority

choose_preemption-Victim :
    (l : Ledger) (report : NodeReport) (request : LaunchRequest) (pool : PoolSpec) (count : ℕ)
    (charge : Resources) (id : String) {l' : Ledger}
    → choose_preemption l report request pool count charge ≡ ok l'
    → contains l'.drain_requests id ≡ true
    → (contains l.drain_requests id ≡ true)
      ⊎ (priority : ℤ) × HasPriority l request priority × IsVictim l report.node_id priority id
unfolding choose_preemption Victim
choose_preemption-Victim l report request pool count charge id h c =
    let (s, e1, h1) =
      >>=-eq-ok (context (find_spec request.task_id l.task_specs) CoordinatorError.no_row) _ h in
    let (j, e2, h2) = >>=-eq-ok (context (find_job s.job_id l.jobs) CoordinatorError.no_row) _ h1 in
    let rows = sort_candidates (preemptible l report.node_id j.priority l.reservations) in
    let first = first_selection charge (ltb count pool.max_workers) in
    let (ids, e3, h3) = >>=-eq-ok (select_victims l report request pool first rows) _ h2 in
    let victims =
      select_victims-All l report request pool first rows (IsVictim l report.node_id j.priority) tt
        (sort_candidates-All (Victim l report.node_id j.priority)
          (preemptible l report.node_id j.priority l.reservations)
          (preemptible-Victim l report.node_id j.priority l.reservations (λ x m. m)))
        e3 in
    let c' : contains (add_drains ids l.drain_requests) id ≡ true =
      subst (λ (x : Ledger). contains x.drain_requests id ≡ true) (sym (ok-injective h3)) c in
    elim (add_drains-from ids l.drain_requests (IsVictim l report.node_id j.priority) id victims
      c') [
        | inl d ↦ inl d
        | inr v ↦ inr (
          j.priority,
          record {
            spec = s;
            specified = context-eq-ok (find_spec request.task_id l.task_specs) _ e1;
            job = j;
            found = context-eq-ok (find_job s.job_id l.jobs) _ e2;
            same = refl;
          },
          v,
        )
      ]

-- Only live opportunistic allocations of the node are asked to drain by a preemption, of a task that
-- is safe to repeat and of a job of strictly lower priority than the job of the request.
pub request_preemption-IsVictim :
    (l : Ledger) (report : NodeReport) (request : LaunchRequest) (pool : PoolSpec) (count : ℕ)
    (charge : Resources) (id : String) {l' : Ledger}
    → request_preemption l report request pool count charge ≡ ok l'
    → contains l'.drain_requests id ≡ true
    → (contains l.drain_requests id ≡ true)
      ⊎ (priority : ℤ) × HasPriority l request priority × IsVictim l report.node_id priority id
unfolding request_preemption
request_preemption-IsVictim l report request pool count charge id h c =
    elim (Bool-cases (
      gpu_request_allowed request report
      && fits_requested request.resources report.managed_budget request.resources)) [
        | inl y ↦
            choose_preemption-Victim l report request pool count charge id
              (rw (y, request_preemption) at h) c
        | inr n ↦ inl (
            subst (λ (x : Ledger). contains x.drain_requests id ≡ true)
              (sym (ok-injective (rw (n, request_preemption) at h))) c)
      ]
