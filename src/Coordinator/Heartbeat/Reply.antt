-- ===== src/Coordinator/Heartbeat/Reply.antt =====
-- src/coordinator.rs, `heartbeat`: the reply, read from the ledger that the report leaves.
use cede_grid.Common.{
  ℕ, String, Bool, true, false, ◌&&◌, ◌||◌, not, none, some, List, [], ◌∷◌, ◌++◌, ◌==◌, String_eq,
  ltb, nat_eq, Ordering, compare, if◌then◌else◌, Result, ok, ◌>>=◌,
}
use cede_grid.Execution.{LaunchRequest, AllocationClass, AllocationClass_eq}
use cede_grid.Protocol.{Assignment, HeartbeatReply, RemotePhase, RemotePhase_eq}
use cede_grid.Store.Tables.{AssignmentRow, find_assignment}
use cede_grid.Coordinator.Tables.{
  CoordinatorError, Ledger, Reservation, find_spec, find_checkpoint, is_held,
}
use cede_grid.Coordinator.Lookup.{should_drain, assignment_request}
use cede_grid.Coordinator.Session.{submission_of}

-- A row of `reservation_rows`.
pub record NodeAllocation : Type 0 where
  pub reservation : Reservation
  pub assignment : AssignmentRow
  pub sequence : ℕ

rows_of : Ledger → String → List Reservation → List NodeAllocation
rows_of l node_id [] = []
rows_of l node_id (r ∷ rest) =
    let more = rows_of l node_id rest in
    elim (find_assignment r.assignment_id l.store.assignments) [
      | none ↦ more
      | some a ↦ elim (find_spec a.task_id l.task_specs) [
        | none ↦ more
        | some s ↦
            if r.node_id == node_id
            then record { reservation = r; assignment = a; sequence = s.sequence } ∷ more
            else more
      ]
    ]

-- `ORDER BY task_specs.sequence,assignment_id`
stands_before : NodeAllocation → NodeAllocation → Bool
stands_before a b =
    ltb a.sequence b.sequence
    || nat_eq a.sequence b.sequence
      && elim (compare a.reservation.assignment_id b.reservation.assignment_id) [
        | Ordering.lt ↦ true
        | _ ↦ false
      ]

insert_row : NodeAllocation → List NodeAllocation → List NodeAllocation
unfolding stands_before
insert_row a [] = a ∷ []
insert_row a (x ∷ rest) =
    let later = insert_row a rest in if stands_before x a then x ∷ later else a ∷ x ∷ rest

sort_rows : List NodeAllocation → List NodeAllocation
unfolding insert_row
sort_rows [] = []
sort_rows (a ∷ rest) = insert_row a (sort_rows rest)

-- `reservation_rows`
pub reservation_rows : Ledger → String → List NodeAllocation
unfolding rows_of sort_rows
reservation_rows l node_id = sort_rows (rows_of l node_id l.reservations)

-- `uncertain.sort(); uncertain.dedup()`
insert_once : String → List String → List String
insert_once id [] = id ∷ []
insert_once id (x ∷ rest) = elim (compare id x) [
  | Ordering.lt ↦ id ∷ x ∷ rest
  | Ordering.eq ↦ x ∷ rest
  | Ordering.gt ↦ x ∷ insert_once id rest
]

sort_once : List String → List String
unfolding insert_once
sort_once [] = []
sort_once (id ∷ ids) = insert_once id (sort_once ids)

abbrev empty_reply : ℕ → List String → HeartbeatReply
empty_reply epoch uncertain = record {
  coordinator_epoch = epoch;
  assignments = [];
  drain = [];
  uncertain = uncertain;
}

abbrev push_if : Bool → String → List String → List String
push_if test id ids = if test then ids ++ (id ∷ []) else ids

-- the assignment that the reply shows again
assignment_of : Ledger → String → NodeAllocation → LaunchRequest → Assignment
assignment_of l node_id a request = record {
  node_id = node_id;
  generation = a.assignment.generation;
  coordinator_epoch = l.epoch;
  request = request;
  checkpoint = submission_of (find_checkpoint a.assignment.task_id l.checkpoints);
}

-- one allocation of the reply
unfoldable pub reply_row :
    Ledger
    → String
    → Bool
    → HeartbeatReply
    → NodeAllocation
    → Result CoordinatorError HeartbeatReply
unfolding assignment_of
reply_row l node_id fresh reply a = do
  let id = a.reservation.assignment_id
  let uncertain = a.reservation.phase == RemotePhase.uncertain
  let never_authorized = nat_eq a.reservation.lease_sequence 0
  asked ← should_drain l id
  request ← assignment_request l id
  let drains = asked || (not fresh || uncertain) && request.class == AllocationClass.opportunistic
  ok (record reply {
    drain = push_if (drains || uncertain && never_authorized) id reply.drain;
    uncertain = push_if uncertain id reply.uncertain;
    assignments =
        if a.reservation.phase == RemotePhase.offered || uncertain && never_authorized
        then reply.assignments ++ (assignment_of l node_id a request ∷ [])
        else reply.assignments;
  })

unfoldable pub reply_loop :
    Ledger
    → String
    → Bool
    → HeartbeatReply
    → List NodeAllocation
    → Result CoordinatorError HeartbeatReply
reply_loop l node_id fresh reply [] = ok reply
reply_loop l node_id fresh reply (a ∷ rest) = elim (is_held a.reservation.phase) [
  | true ↦ reply_row l node_id fresh reply a >>= λ next. reply_loop l node_id fresh next rest
  | false ↦ reply_loop l node_id fresh reply rest
]

-- the reply, its uncertain allocations sorted and each named once
unfoldable pub reply_of :
    Ledger → String → Bool → List String → Result CoordinatorError HeartbeatReply
unfolding reservation_rows sort_once
reply_of l node_id fresh unknown =
    reply_loop l node_id fresh (empty_reply l.epoch unknown) (reservation_rows l node_id)
    >>= λ reply. ok (record reply { uncertain = sort_once reply.uncertain })
