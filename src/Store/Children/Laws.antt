-- ===== src/Store/Children/Laws.antt =====
-- What the operations on managed children write.
use cede_grid.Common.{
  ℕ, ◌+◌, ◌≤◌, ◌<◌, String, Bool, true, false, ◌&&◌, ◌||◌, not, Option, none, some, List, [], ◌∷◌,
  ◌++◌, ◌==◌, ◌≡◌, refl, ◌⊎◌, inl, inr, ℤ, arith, ok, ensure, context, >>=-eq-ok, ensure-eq-ok,
  context-eq-ok, ok-injective, if◌then◌else◌, ap, sym, Bool-cases, is_none, ltb, is_some, ◌>>◌,
  String_eq, ℕ_eq, Option_eq, ℤ_eq, is_none_or, is_positive,
}
use cede_grid.Execution.{LaunchRequest, ProcessIdentity, ControlEvidence, is_authorizing}
use cede_grid.Store.Tables.{
  Store, StoreError, ExecutionRow, ManagedChildRecord, ManagedChildPhase, find_execution,
  update_child, is_child_released, held_children, update_row,
}
use cede_grid.Store.Tables.Laws.{find-key}
use cede_grid.Store.Children.{
  reserve_managed_child, reserve_found, reserve_new, prepare_managed_child,
  transition_managed_child, find_child, find_by_request, reserved_child, prepare_known, move_child,
  valid_id, same_phase, valid_child_transition, check_parent, check_child, check_identity,
  check_start, save_child, prepare_new, is_child_authorizing,
}

-- A child that is not released is replaced by one of the same family: no family holds more.
held-update :
    (id child : String) (c c' : ManagedChildRecord) (kids : List ManagedChildRecord)
    → find_child child kids ≡ some c
    → c'.assignment_id ≡ c.assignment_id
    → is_child_released c.phase ≡ false
    → held_children id (update_child child c' kids) ≤ held_children id kids
unfolding update_row
held-update id child c c' [] f a r = cc
held-update id child c c' (k ∷ kids) f a r = ground (arith, held-update id child c c' kids _ a r)

pub held-append :
    (id : String) (kids : List ManagedChildRecord) (c : ManagedChildRecord)
    → held_children id (kids ++ (c ∷ []))
      ≡ held_children id kids
        + (if c.assignment_id == id && not (is_child_released c.phase) then 1 else 0)
held-append id [] c = ground arith
held-append id (k ∷ kids) c = ground (arith, held-append id kids c)

-- The executions are as before, and no family holds more children.
pub record Kept (s s' : Store) : Type 0 where
  pub rows : s'.executions ≡ s.executions
  pub held : (id : String) → held_children id s'.children ≤ held_children id s.children

-- A child is added to a family that may run and has room.
pub record Added (s : Store) (assignment : String) (s' : Store) : Type 0 where
  pub parent : ExecutionRow
  pub found : find_execution assignment s.executions ≡ some parent
  pub active : is_authorizing parent.entry.phase ≡ true
  pub room : held_children assignment s.children < parent.request.managed_child_limit
  pub limit : parent.request.managed_child_limit ≤ 8
  pub rows : s'.executions ≡ s.executions
  pub held :
      (id : String)
      → held_children id s'.children
        ≡ held_children id s.children + (if assignment == id then 1 else 0)

check_parent-active :
    (parent : ExecutionRow) (g : ℕ)
    → check_parent parent g ≡ ok tt
    → (is_authorizing parent.entry.phase ≡ true) × (parent.request.managed_child_limit ≤ 8)
unfolding check_parent
check_parent-active parent g h = (ground arith, ground arith)

reserve_new-Added :
    (s : Store) (a : String) (g : ℕ) (child request_id : String) (request : LaunchRequest)
    {c : ManagedChildRecord} {s' : Store}
    → reserve_new s a g child request_id request ≡ ok (c, s')
    → Added s a s'
unfolding reserve_new
reserve_new-Added s a g child request_id request h =
    let (parent, f, h1) =
      >>=-eq-ok (context (find_execution a s.executions) StoreError.unknown_assignment) _ h in
    let (_, p, h2) = >>=-eq-ok (check_parent parent g) _ h1 in
    let (_, q, h3) = >>=-eq-ok (check_child parent a request) _ h2 in
    let (room, h4) =
      ensure-eq-ok (ltb (held_children a s.children) parent.request.managed_child_limit)
        StoreError.child_limit _ h3 in
    let (_, h5) =
      ensure-eq-ok (is_none (find_child child s.children)) StoreError.constraint_failed _ h4 in
    let e =
      ok-injective
        {a = (
          reserved_child a g child request_id request,
          record s {
            children = s.children ++ (reserved_child a g child request_id request ∷ []);
            child_events = s.child_events ++ (reserved_child a g child request_id request ∷ []);
          },
        )}
        h5 in
    let (active, limit) = check_parent-active parent g p in
    record {
      parent = parent;
      found = context-eq-ok (find_execution a s.executions) _ f;
      active = active;
      room = ground (arith, room);
      limit = limit;
      rows = sym (ap (λ (p : ManagedChildRecord × Store). p.1.executions) e);
      held = λ id.
          rw (← ap (λ (p : ManagedChildRecord × Store). p.1.children) e) (
            ground
              (arith, held-append id s.children (reserved_child a g child request_id request)));
    }

module _ (same_request : LaunchRequest → LaunchRequest → Bool) where
  reserve_found-Added :
      (s : Store) (a : String) (g : ℕ) (child request_id : String) (request : LaunchRequest)
      (o : Option ManagedChildRecord) {c : ManagedChildRecord} {s' : Store}
      → reserve_found same_request s a g child request_id request o ≡ ok (c, s')
      → (s ≡ s') ⊎ Added s a s'
  unfolding reserve_found
  reserve_found-Added s a g child request_id request (some old) h =
      let (_, h1) =
        ensure-eq-ok (old.generation == g && same_request old.request request)
          StoreError.request_reused _ h in
      inl (ap (λ (p : ManagedChildRecord × Store). p.1) (ok-injective h1))
  reserve_found-Added s a g child request_id request none h =
      inr (reserve_new-Added s a g child request_id request h)

  pub reserve_child-Added :
      (s : Store) (a : String) (g : ℕ) (child request_id : String) (request : LaunchRequest)
      {c : ManagedChildRecord} {s' : Store}
      → reserve_managed_child same_request s a g child request_id request ≡ ok (c, s')
      → (s ≡ s') ⊎ Added s a s'
  unfolding reserve_managed_child
  reserve_child-Added s a g child request_id request h =
      let (_, h1) = ensure-eq-ok (valid_id child) StoreError.invalid_child_id _ h in
      let (_, h2) = ensure-eq-ok (valid_id request_id) StoreError.invalid_child_id _ h1 in
      reserve_found-Added s a g child request_id request (find_by_request a request_id s.children)
        h2

Kept-refl : (s s' : Store) → s ≡ s' → Kept s s'
Kept-refl s s' e = rw (← e) (record { rows = refl; held = λ id. omega arith })

save_child-Kept :
    (s : Store) (c c' : ManagedChildRecord) {s' : Store}
    → find_child c'.child_id s.children ≡ some c
    → c'.assignment_id ≡ c.assignment_id
    → is_child_released c.phase ≡ false
    → save_child s c' ≡ s'
    → Kept s s'
unfolding save_child
save_child-Kept s c c' f a r e =
    rw (← e) (record { rows = refl; held = λ j. held-update j c'.child_id c c' s.children f a r })

prepare_new-Kept :
    (s : Store) (c : ManagedChildRecord) (i : ProcessIdentity) (evidence : List ControlEvidence)
    (parent : ExecutionRow) {s' : Store}
    → find_child c.child_id s.children ≡ some c
    → prepare_new s c i evidence parent ≡ ok s'
    → Kept s s'
unfolding prepare_new
prepare_new-Kept s c i evidence parent f h =
    let (fresh, h1) =
      ensure-eq-ok
        (same_phase c.phase ManagedChildPhase.reserved
          && parent.entry.generation == c.generation
          && is_authorizing parent.entry.phase)
        StoreError.parent_inactive _ h in
    let (_, h2) = ensure-eq-ok _ StoreError.invalid_identity _ h1 in
    let (_, h3) = ensure-eq-ok _ StoreError.child_leader _ h2 in
    let (_, h4) = ensure-eq-ok _ StoreError.control_unverified _ h3 in
    let (_, h5) = ensure-eq-ok _ StoreError.constraint_failed _ h4 in
    save_child-Kept s c
      (record c {
        identity = some i;
        controls = evidence;
        phase = ManagedChildPhase.prepared;
        detail = "direct child identity and required controls verified before authorization";
      })
      f refl (ground (arith, fresh)) (ok-injective h5)

prepare_known-Kept :
    (s : Store) (c : ManagedChildRecord) (i : ProcessIdentity) (evidence : List ControlEvidence)
    (parent : ExecutionRow) {s' : Store}
    → find_child c.child_id s.children ≡ some c
    → prepare_known s c i evidence parent ≡ ok s'
    → Kept s s'
unfolding prepare_known
prepare_known-Kept s c i evidence parent f h = elim (Bool-cases (is_some c.identity)) [
  | inl y ↦
      let (_, k) = ensure-eq-ok _ StoreError.child_changed (ok s) (rw (y, prepare_known) at h) in
      Kept-refl s _ (ok-injective k)
  | inr n ↦ prepare_new-Kept s c i evidence parent f (rw (n, prepare_known) at h)
]

-- A child that is found has the identifier.
find_child-key :
    (id : String) (kids : List ManagedChildRecord) (c : ManagedChildRecord)
    → find_child id kids ≡ some c
    → c.child_id ≡ id
find_child-key id kids c f = find-key (λ (c : ManagedChildRecord). c.child_id) id kids c f

pub prepare-Kept :
    (s : Store) (child : String) (i : ProcessIdentity) (evidence : List ControlEvidence)
    {s' : Store}
    → prepare_managed_child s child i evidence ≡ ok s'
    → Kept s s'
unfolding prepare_managed_child
prepare-Kept s child i evidence h =
    let (c, f, h1) =
      >>=-eq-ok (context (find_child child s.children) StoreError.unknown_child) _ h in
    let (_, h2) = ensure-eq-ok _ StoreError.invalid_identity _ h1 in
    let (parent, _, h3) =
      >>=-eq-ok
        (context (find_execution c.assignment_id s.executions) StoreError.unknown_assignment) _
        h2 in
    let (_, _, h4) = >>=-eq-ok (check_identity c i parent) _ h3 in
    let k = context-eq-ok (find_child child s.children) _ f in
    prepare_known-Kept s c i evidence parent (rw (← find_child-key child s.children c k) at k) h4

pub move-Kept :
    (s : Store) (child : String) (phase : ManagedChildPhase) (code signal : Option ℤ)
    (detail : String) {s' : Store}
    → transition_managed_child s child phase code signal detail ≡ ok s'
    → Kept s s'
unfolding transition_managed_child move_child
move-Kept s child phase code signal detail h =
    let (c, f, h1) =
      >>=-eq-ok (context (find_child child s.children) StoreError.unknown_child) _ h in
    let (_, h2) = ensure-eq-ok (is_none code || is_none signal) StoreError.exit_status _ h1 in
    let (_, h3) = ensure-eq-ok (is_none_or signal is_positive) StoreError.exit_status _ h2 in
    let (_, h4) =
      ensure-eq-ok (is_child_released phase || is_none code && is_none signal)
        StoreError.exit_status _ h3 in
    let (_, h5) =
      ensure-eq-ok (valid_child_transition c.phase phase) StoreError.invalid_transition
        (if is_child_released c.phase
          then ensure (c.exit_code == code && c.signal == signal) StoreError.released_changed
            >> ok s
          else move_child s c phase code signal detail)
        h4 in
    let k = context-eq-ok (find_child child s.children) _ f in
    elim (Bool-cases (is_child_released c.phase)) [
      | inl y ↦
          let (_, e) =
            ensure-eq-ok (c.exit_code == code && c.signal == signal) StoreError.released_changed
              (ok s) (rw y at h5) in
          Kept-refl s _ (ok-injective e)
      | inr n ↦
          let m = rw n at h5 in
          let (_, _, e) =
            >>=-eq-ok (if is_child_authorizing phase then check_start s c else ok tt) _ m in
          save_child-Kept s c
            (record c { phase = phase; exit_code = code; signal = signal; detail = detail })
            (rw (← find_child-key child s.children c k) at k) refl n (ok-injective e)
    ]
