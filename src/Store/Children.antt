-- ===== src/Store/Children.antt =====
-- src/managed_children.rs: the registry of mediated child processes. The equality of the
-- `serde_json` values of two requests is a parameter.
pub mod Laws
use cede_grid.Common.{
  ℕ, ◌≤◌, String, Bool, true, false, ◌&&◌, ◌||◌, not, Option, none, some, List, [], ◌∷◌, ◌++◌, ◌==◌,
  String_eq, ℕ_eq, Bool_eq, ℤ_eq, Option_eq, List_eq, ℤ, is_positive, any, all, find, leb, ltb,
  is_some, is_none, is_some_and, is_none_or, is_empty, is_empty_text, has_control, len, is_absolute,
  contains, get, if◌then◌else◌, Result, ok, err, ensure, context, ◌>>=◌, ◌>>◌, i64_max,
}
use cede_grid.Execution.{
  LaunchRequest, ExecutionRecord, AllocationClass_eq, ProcessIdentity, ProcessIdentity_eq,
  ControlEvidence, ControlEvidence_eq, NamedArtifact_eq, is_authorizing, verifies,
}
use cede_grid.Store.Tables.{
  Store, StoreError, ExecutionRow, ManagedChildRecord, ManagedChildPhase, is_child_released,
  find_execution, update_child, held_children, find_row,
}

-- `valid_id`
unfoldable pub valid_id : String → Bool
valid_id id = not (is_empty_text id) && leb (len id) 256 && not (has_control id)

-- `from == to`
abbrev same_phase : ManagedChildPhase → ManagedChildPhase → Bool
same_phase ManagedChildPhase.reserved ManagedChildPhase.reserved = true
same_phase ManagedChildPhase.prepared ManagedChildPhase.prepared = true
same_phase ManagedChildPhase.authorized ManagedChildPhase.authorized = true
same_phase ManagedChildPhase.running ManagedChildPhase.running = true
same_phase ManagedChildPhase.draining ManagedChildPhase.draining = true
same_phase ManagedChildPhase.released ManagedChildPhase.released = true
same_phase ManagedChildPhase.needs_reconciliation ManagedChildPhase.needs_reconciliation = true
same_phase _ _ = false

abbrev is_step : ManagedChildPhase → ManagedChildPhase → Bool
is_step ManagedChildPhase.reserved ManagedChildPhase.prepared = true
is_step ManagedChildPhase.reserved ManagedChildPhase.needs_reconciliation = true
is_step ManagedChildPhase.reserved ManagedChildPhase.released = true
is_step ManagedChildPhase.prepared ManagedChildPhase.authorized = true
is_step ManagedChildPhase.prepared ManagedChildPhase.needs_reconciliation = true
is_step ManagedChildPhase.prepared ManagedChildPhase.released = true
is_step ManagedChildPhase.authorized ManagedChildPhase.running = true
is_step ManagedChildPhase.authorized ManagedChildPhase.draining = true
is_step ManagedChildPhase.authorized ManagedChildPhase.needs_reconciliation = true
is_step ManagedChildPhase.authorized ManagedChildPhase.released = true
is_step ManagedChildPhase.running ManagedChildPhase.draining = true
is_step ManagedChildPhase.running ManagedChildPhase.needs_reconciliation = true
is_step ManagedChildPhase.running ManagedChildPhase.released = true
is_step ManagedChildPhase.draining ManagedChildPhase.needs_reconciliation = true
is_step ManagedChildPhase.draining ManagedChildPhase.released = true
is_step ManagedChildPhase.needs_reconciliation ManagedChildPhase.released = true
is_step _ _ = false

-- `valid_transition` of a child
abbrev pub valid_child_transition : ManagedChildPhase → ManagedChildPhase → Bool
valid_child_transition from to = same_phase from to || is_step from to

-- `verify_controls`
unfoldable pub verify_controls : LaunchRequest → List ControlEvidence → Bool
unfolding verifies
verify_controls request evidence =
    all (λ required. any (verifies required) evidence) request.required_controls

-- `child` and `child_by_request`
abbrev pub find_child : String → List ManagedChildRecord → Option ManagedChildRecord
find_child = find_row (λ c. c.child_id)

abbrev pub find_by_request : String → String → List ManagedChildRecord → Option ManagedChildRecord
find_by_request assignment request =
    find (λ c. c.assignment_id == assignment && c.request_id == request)

-- the child's amounts fit in the family's reservation
fits_family : LaunchRequest → ExecutionRecord → Bool
fits_family request parent =
    ltb 0 request.resources.cpu_millicores
    && ltb 0 request.resources.ram_mib
    && leb request.resources.cpu_millicores parent.resources.cpu_millicores
    && leb request.resources.ram_mib parent.resources.ram_mib
    && all
        (λ g.
          ltb 0 g.1
          && is_some_and (get g.0 parent.resources.gpu_memory_mib) (λ limit. leb g.1 limit))
        request.resources.gpu_memory_mib

-- `!argv.is_empty() && !argv[0].is_empty()`
abbrev has_command : List String → Bool
has_command [] = false
has_command (a ∷ _) = not (is_empty_text a)

pub check_parent : ExecutionRow → ℕ → Result StoreError (Unit {0})
check_parent parent generation = do
  ensure (parent.entry.generation == generation && is_authorizing parent.entry.phase)
      StoreError.parent_inactive
  ensure
      (not parent.request.single_process
        && parent.request.no_escape
        && leb 1 parent.request.managed_child_limit
        && leb parent.request.managed_child_limit 8)
      StoreError.no_opt_in

pub check_child : ExecutionRow → String → LaunchRequest → Result StoreError (Unit {0})
unfolding fits_family
check_child parent assignment request = do
  ensure
      (request.task_id == parent.entry.task_id
        && request.assignment_id == assignment
        && request.class == parent.entry.class
        && request.replay_safe == parent.request.replay_safe)
      StoreError.parent_changed
  ensure (request.single_process && request.no_escape && request.managed_child_limit == 0)
      StoreError.child_contract
  ensure (is_absolute request.cwd && has_command request.argv) StoreError.child_command
  ensure (fits_family request parent.entry) StoreError.child_exceeds
  ensure (all (λ input. contains parent.request.input_artifacts input) request.input_artifacts)
      StoreError.child_inputs
  ensure
      (all (λ control. contains request.required_controls control) parent.request.required_controls)
      StoreError.child_controls

abbrev pub reserved_child : String → ℕ → String → String → LaunchRequest → ManagedChildRecord
reserved_child assignment generation child_id request_id request = record {
  child_id = child_id;
  request_id = request_id;
  assignment_id = assignment;
  generation = generation;
  request = request;
  identity = none;
  phase = ManagedChildPhase.reserved;
  controls = [];
  exit_code = none;
  signal = none;
  detail = "child reserved inside existing family allocation; user code remains blocked";
}

-- a reservation that the registry has no request ID for
pub reserve_new :
    Store
    → String
    → ℕ
    → String
    → String
    → LaunchRequest
    → Result StoreError (ManagedChildRecord × Store)
unfolding check_parent check_child
reserve_new s assignment generation child_id request_id request = do
  parent ← context (find_execution assignment s.executions) StoreError.unknown_assignment
  check_parent parent generation
  check_child parent assignment request
  ensure (ltb (held_children assignment s.children) parent.request.managed_child_limit)
      StoreError.child_limit
  ensure (is_none (find_child child_id s.children)) StoreError.constraint_failed
  let child = reserved_child assignment generation child_id request_id request
  ok (
    child,
    record s {
      children = s.children ++ (child ∷ []);
      child_events = s.child_events ++ (child ∷ []);
    },
  )

-- the JSON values of two requests are compared by a parameter, `same_request`
module _ (same_request : LaunchRequest → LaunchRequest → Bool) where
  pub reserve_found :
      Store
      → String
      → ℕ
      → String
      → String
      → LaunchRequest
      → Option ManagedChildRecord
      → Result StoreError (ManagedChildRecord × Store)
  unfolding reserve_new
  reserve_found s assignment generation child_id request_id request (some old) =
      ensure (old.generation == generation && same_request old.request request)
        StoreError.request_reused
      >> ok (old, s)
  reserve_found s assignment generation child_id request_id request none =
      reserve_new s assignment generation child_id request_id request

  -- `StateStore::reserve_managed_child`
  unfoldable pub reserve_managed_child :
      Store
      → String
      → ℕ
      → String
      → String
      → LaunchRequest
      → Result StoreError (ManagedChildRecord × Store)
  unfolding reserve_found
  reserve_managed_child s assignment generation child_id request_id request = do
    ensure (valid_id child_id) StoreError.invalid_child_id
    ensure (valid_id request_id) StoreError.invalid_child_id
    reserve_found s assignment generation child_id request_id request
        (find_by_request assignment request_id s.children)

-- the key of a process on a machine
abbrev same_process : ProcessIdentity → ProcessIdentity → Bool
same_process a b = a.boot_id == b.boot_id && a.pid == b.pid && a.start_time == b.start_time

pub save_child : Store → ManagedChildRecord → Store
save_child s child = record s {
  children = update_child child.child_id child s.children;
  child_events = s.child_events ++ (child ∷ []);
}

pub check_identity :
    ManagedChildRecord → ProcessIdentity → ExecutionRow → Result StoreError (Unit {0})
check_identity child identity parent = do
  parent_identity ← context parent.entry.identity StoreError.child_parent_identity
  ensure (identity.boot_id == parent_identity.boot_id && not (identity.pid == parent_identity.pid))
      StoreError.child_parent_identity

-- the first preparation of a child
pub prepare_new :
    Store
    → ManagedChildRecord
    → ProcessIdentity
    → List ControlEvidence
    → ExecutionRow
    → Result StoreError Store
unfolding save_child
prepare_new s child identity evidence parent = do
  ensure
      (same_phase child.phase ManagedChildPhase.reserved
        && parent.entry.generation == child.generation
        && is_authorizing parent.entry.phase)
      StoreError.parent_inactive
  ensure (leb identity.start_time i64_max) StoreError.invalid_identity
  ensure
      (not (
        any
          (λ (r : ExecutionRow).
            is_some_and r.entry.identity (λ leader. same_process leader identity))
          s.executions))
      StoreError.child_leader
  ensure (verify_controls child.request evidence) StoreError.control_unverified
  ensure
      (not (
        any
          (λ (c : ManagedChildRecord).
            is_some_and c.identity (λ other. same_process other identity))
          s.children))
      StoreError.constraint_failed
  ok (
      save_child s (record child {
        identity = some identity;
        controls = evidence;
        phase = ManagedChildPhase.prepared;
        detail = "direct child identity and required controls verified before authorization";
      }))

pub prepare_known :
    Store
    → ManagedChildRecord
    → ProcessIdentity
    → List ControlEvidence
    → ExecutionRow
    → Result StoreError Store
unfolding prepare_new
prepare_known s child identity evidence parent =
    if is_some child.identity
    then ensure (child.identity == some identity && child.controls == evidence)
        StoreError.child_changed
      >> ok s
    else prepare_new s child identity evidence parent

-- `StateStore::prepare_managed_child`
unfoldable pub prepare_managed_child :
    Store → String → ProcessIdentity → List ControlEvidence → Result StoreError Store
unfolding check_identity prepare_known
prepare_managed_child s child_id identity evidence = do
  child ← context (find_child child_id s.children) StoreError.unknown_child
  ensure
      (ltb 0 identity.pid
        && ltb 0 identity.start_time
        && not (is_empty_text identity.boot_id)
        && identity.assignment_id == child.assignment_id
        && identity.generation == child.generation)
      StoreError.invalid_identity
  parent ← context (find_execution child.assignment_id s.executions) StoreError.unknown_assignment
  check_identity child identity parent
  prepare_known s child identity evidence parent

-- `Authorized | Running`
abbrev pub is_child_authorizing : ManagedChildPhase → Bool
is_child_authorizing ManagedChildPhase.authorized = true
is_child_authorizing ManagedChildPhase.running = true
is_child_authorizing _ = false

-- the checks before a child may run
pub check_start : Store → ManagedChildRecord → Result StoreError (Unit {0})
check_start s child = do
  ensure (is_some child.identity) StoreError.child_identity
  ensure (verify_controls child.request child.controls) StoreError.control_unverified
  parent ← context (find_execution child.assignment_id s.executions) StoreError.unknown_assignment
  ensure (parent.entry.generation == child.generation && is_authorizing parent.entry.phase)
      StoreError.parent_inactive

pub move_child :
    Store
    → ManagedChildRecord
    → ManagedChildPhase
    → Option ℤ
    → Option ℤ
    → String
    → Result StoreError Store
unfolding check_start save_child
move_child s child phase exit_code signal detail = do
  if is_child_authorizing phase then check_start s child else ok tt
  ok (
      save_child s
        (record child { phase = phase; exit_code = exit_code; signal = signal; detail = detail }))

-- `StateStore::transition_managed_child`
unfoldable pub transition_managed_child :
    Store → String → ManagedChildPhase → Option ℤ → Option ℤ → String → Result StoreError Store
unfolding move_child
transition_managed_child s child_id phase exit_code signal detail = do
  child ← context (find_child child_id s.children) StoreError.unknown_child
  ensure (is_none exit_code || is_none signal) StoreError.exit_status
  ensure (is_none_or signal is_positive) StoreError.exit_status
  ensure (is_child_released phase || is_none exit_code && is_none signal) StoreError.exit_status
  ensure (valid_child_transition child.phase phase) StoreError.invalid_transition
  if is_child_released child.phase
      then ensure (child.exit_code == exit_code && child.signal == signal)
          StoreError.released_changed
        >> ok s
      else move_child s child phase exit_code signal detail
