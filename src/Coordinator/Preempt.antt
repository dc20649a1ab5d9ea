-- ===== src/Coordinator/Preempt.antt =====
-- src/coordinator.rs, `request_preemption`: a task of higher priority asks for the drain of work
-- that may be repeated.
pub mod Laws
use cede_grid.Common.{
  ℕ, ◌+◌, ◌-◌, String, Bool, true, false, ◌&&◌, ◌||◌, none, some, List, [], ◌∷◌, ◌++◌, ◌==◌,
  String_eq, ℕ_eq, ℤ, ℤ_eq, int_lt, StringMap, insert, amount, ltb, set_insert, if◌then◌else◌,
  Result, ok, err, context, ◌>>=◌,
}
use cede_grid.Model.Resources.{Resources}
use cede_grid.Execution.{LaunchRequest, AllocationClass, AllocationClass_eq}
use cede_grid.Protocol.{PoolSpec, NodeReport}
use cede_grid.Store.Reserve.{fits_requested}
use cede_grid.Coordinator.Tables.{
  CoordinatorError, Ledger, Reservation, find_job, find_spec, find_pool, is_live,
}
use cede_grid.Store.Tables.{find_task}
use cede_grid.Coordinator.Lookup.{Joined, join_row, pool_count}
use cede_grid.Coordinator.Charge.{add, subtract, held_resources, gpu_request_allowed}

-- An allocation that may be drained for a task, with the pool that it counts for.
pub record Candidate : Type 0 where
  pub reservation : Reservation
  pub priority : ℤ
  pub sequence : ℕ
  pub spec : PoolSpec

-- the test of the `WHERE` clause on an allocation and its joined rows
unfoldable pub may_preempt : Ledger → String → ℤ → Reservation → Joined → Bool
may_preempt l node_id priority r j =
    r.node_id == node_id
    && is_live r.phase
    && int_lt j.job.priority priority
    && elim (find_task j.assignment.task_id l.store.tasks) [ some t ↦ t.replay_safe | none ↦ false ]
    && j.spec.request.class == AllocationClass.opportunistic

-- the rows that the query selects, in no order yet
unfoldable pub preemptible : Ledger → String → ℤ → List Reservation → List Candidate
preemptible l node_id priority [] = []
preemptible l node_id priority (r ∷ rest) =
    let more = preemptible l node_id priority rest in
    elim (join_row l r.assignment_id) [
      | err _ ↦ more
      | ok j ↦ elim (find_pool j.job.pool_id l.pools) [
        | none ↦ more
        | some p ↦
            if may_preempt l node_id priority r j
            then record {
              reservation = r;
              priority = j.job.priority;
              sequence = j.spec.sequence;
              spec = p;
            }
              ∷ more
            else more
      ]
    ]

-- `ORDER BY j.priority ASC,s.sequence DESC`
abbrev drains_first : Candidate → Candidate → Bool
drains_first a b =
    int_lt a.priority b.priority || a.priority == b.priority && ltb b.sequence a.sequence

insert_candidate : Candidate → List Candidate → List Candidate
insert_candidate c [] = c ∷ []
insert_candidate c (x ∷ rest) =
    let later = insert_candidate c rest in if drains_first x c then x ∷ later else c ∷ x ∷ rest

unfoldable pub sort_candidates : List Candidate → List Candidate
unfolding insert_candidate
sort_candidates [] = []
sort_candidates (c ∷ rest) = insert_candidate c (sort_candidates rest)

-- What the loop has selected so far.
pub record Selection : Type 0 where
  pub projected : Resources
  pub selected : List String
  pub counts : StringMap ℕ
  pub frees_pool_slot : Bool

-- whether the pool of a candidate would keep its least number of workers
unfoldable pub spares_minimum : Ledger → Selection → Candidate → Bool
spares_minimum l s c =
    ltb c.spec.min_workers (pool_count l c.spec.pool_id - amount c.spec.pool_id s.counts)

-- the selection with one candidate more
unfoldable pub select : PoolSpec → Selection → Candidate → Selection
select pool s c = record {
  projected = subtract s.projected (held_resources c.reservation.resources c.reservation.observed);
  selected = s.selected ++ (c.reservation.assignment_id ∷ []);
  counts = insert c.spec.pool_id (amount c.spec.pool_id s.counts + 1) s.counts;
  frees_pool_slot = s.frees_pool_slot || c.spec.pool_id == pool.pool_id;
}

-- the loop over the candidates: the IDs to drain, or none where the task would still not fit
unfoldable pub select_victims :
    Ledger
    → NodeReport
    → LaunchRequest
    → PoolSpec
    → Selection
    → List Candidate
    → Result CoordinatorError (List String)
select_victims l report request pool s [] = ok []
select_victims l report request pool s (c ∷ rest) = elim (spares_minimum l s c) [
  | false ↦ select_victims l report request pool s rest
  | true ↦
      let next = select pool s c in
      add next.projected request.resources >>= λ future.
      elim (next.frees_pool_slot && fits_requested future report.managed_budget request.resources) [
        | true ↦ ok next.selected
        | false ↦ select_victims l report request pool next rest
      ]
]

abbrev pub add_drains : List String → List String → List String
add_drains [] drains = drains
add_drains (id ∷ ids) drains = add_drains ids (set_insert id drains)

abbrev first_selection : Resources → Bool → Selection
first_selection charge frees = record {
  projected = charge;
  selected = [];
  counts = [];
  frees_pool_slot = frees;
}

-- the part after the two early returns
unfoldable pub choose_preemption :
    Ledger → NodeReport → LaunchRequest → PoolSpec → ℕ → Resources → Result CoordinatorError Ledger
choose_preemption l report request pool count charge = do
  s ← context (find_spec request.task_id l.task_specs) CoordinatorError.no_row
  j ← context (find_job s.job_id l.jobs) CoordinatorError.no_row
  victims ←
      select_victims l report request pool (first_selection charge (ltb count pool.max_workers))
        (sort_candidates (preemptible l report.node_id j.priority l.reservations))
  ok (record l { drain_requests = add_drains victims l.drain_requests })

-- `request_preemption`
unfoldable pub request_preemption :
    Ledger → NodeReport → LaunchRequest → PoolSpec → ℕ → Resources → Result CoordinatorError Ledger
request_preemption l report request pool count charge =
    if gpu_request_allowed request report
      && fits_requested request.resources report.managed_budget request.resources
    then choose_preemption l report request pool count charge
    else ok l
