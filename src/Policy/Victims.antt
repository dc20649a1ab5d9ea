-- ===== src/Policy/Victims.antt =====
-- src/policy.rs: the choice of the allocations to drain.
pub mod Laws
use cede_grid.Common.{
  Bool, true, false, ◌&&◌, ◌||◌, not, List, [], ◌∷◌, String, StringMap, filter, if◌then◌else◌,
  compare, Ordering,
}
use cede_grid.Model.Resources.{Resources}
use cede_grid.Model.Snapshot.{Allocation, PolicyInput, is_pending, is_draining}
use cede_grid.Execution.{AllocationClass}
use cede_grid.Policy.Amounts.{subtract_resources, contributes_to_excess}
use cede_grid.Policy.Charges.{charge_at}

abbrev is_opportunistic : AllocationClass → Bool
is_opportunistic AllocationClass.opportunistic = true
is_opportunistic AllocationClass.guaranteed = false

-- the work that may be drained now
abbrev pub is_candidate : Bool → Allocation → Bool
is_candidate drain a = not (is_draining a.phase) && (drain || is_opportunistic a.class)

-- the order of `(phase != Pending, id)`
abbrev id_le : String → String → Bool
id_le a b = elim (compare a b) [ Ordering.gt ↦ false | _ ↦ true ]

abbrev pub goes_first : Allocation → Allocation → Bool
goes_first a b =
    if is_pending a.phase
    then not (is_pending b.phase) || id_le a.id b.id
    else not (is_pending b.phase) && id_le a.id b.id

-- `sort_by_key`, by insertion
unfoldable pub insert_candidate : Allocation → List Allocation → List Allocation
insert_candidate a [] = a ∷ []
insert_candidate a (b ∷ bs) =
    let more = insert_candidate a bs in if goes_first a b then a ∷ b ∷ bs else b ∷ more

unfoldable pub sort_candidates : List Allocation → List Allocation
unfolding insert_candidate
sort_candidates [] = []
sort_candidates (a ∷ as') = insert_candidate a (sort_candidates as')

unfoldable pub candidates : PolicyInput → List Allocation
unfolding sort_candidates
candidates input = sort_candidates (filter (is_candidate input.explicit_drain) input.allocations)

-- the releases that are already under way
unfoldable pub after_drains : StringMap Resources → Resources → List Allocation → Resources
after_drains charges remaining [] = remaining
after_drains charges remaining (a ∷ rest) =
    after_drains charges
      (if is_draining a.phase
        then subtract_resources remaining (charge_at a.id charges)
        else remaining)
      rest

-- the loop over the candidates: what remains charged, and who is drained
unfoldable pub choose_victims :
    Bool → StringMap Resources → Resources → Resources → List Allocation → Resources × List String
choose_victims drain charges budget remaining [] = (remaining, [])
choose_victims drain charges budget remaining (a ∷ rest) =
    let charge = charge_at a.id charges in
    let drained = choose_victims drain charges budget (subtract_resources remaining charge) rest in
    let kept = choose_victims drain charges budget remaining rest in
    if drain || contributes_to_excess remaining budget charge
    then (drained.0, a.id ∷ drained.1)
    else kept
