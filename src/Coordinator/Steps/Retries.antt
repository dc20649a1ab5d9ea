-- ===== src/Coordinator/Steps/Retries.antt =====
-- src/coordinator.rs, `record_failure`: whether and when an attempt that failed is repeated.
use cede_grid.Common.{
  Result, saturating_add, ℕ, ◌+◌, ◌≤◌, ◌<◌, String, Bool, true, false, ◌&&◌, Option, none, some,
  List, [], ◌∷◌, ◌++◌, ◌==◌, String_eq, ℕ_eq, Option_eq, ◌≡◌, refl, sym, ◌⊎◌, ap, subst, arith, ltb,
  any, if◌then◌else◌, Bool-cases, inl, inr, is_none_or, ok, context, >>=-eq-ok, ensure-eq-ok,
  context-eq-ok, ok-injective, eq_iff,
}
use cede_grid.Execution.{LaunchRequest}
use cede_grid.Protocol.{CoordinatorConfig, FailureKind, RemotePhase, RemotePhase_eq, is_yielded}
use cede_grid.Store.Tables.{TaskRow, TaskStatus, is_completed, find_assignment, find_task}
use cede_grid.Store.Tables.Laws.{find-key, find-update}
use cede_grid.Coordinator.Tables.{
  CoordinatorError, Ledger, Reservation, RetryRow, find_reservation, find_retry, read_task, db,
}
use cede_grid.Coordinator.Lookup.{assignment_request, should_drain}
use cede_grid.Coordinator.Failure.{
  record_failure, record_current, requeue, may_retry, delay_of, next_counts, increment, failures_of,
  yields_of,
}
use cede_grid.Coordinator.Steps.Delay.{Waits, retry_delay-Waits}
use cede_grid.Coordinator.Steps.Receipts.{find-put}

-- How a report counts, by whether the attempt was asked to yield: a yield adds to the yields, any other
-- failure adds to the failures and resets the yields, and the delay grows with the count that grew.
pub data Counts (config : CoordinatorConfig) (old : Option RetryRow) (now : ℕ) (row : RetryRow)
    : Bool → Type 0 where
  yields_more :
      row.failures ≡ failures_of old
      → row.yield_count ≡ yields_of old + 1
      → Waits config.yield_retry_backoff_ms config.yield_retry_backoff_max_ms row.yield_count now
          row.not_before_ms
      → Counts config old now row true
  fails_more :
      row.failures ≡ failures_of old + 1
      → row.yield_count ≡ 0
      → Waits config.retry_backoff_ms config.retry_backoff_max_ms row.failures now row.not_before_ms
      → Counts config old now row false

counted :
    (config : CoordinatorConfig) (old : Option RetryRow) (drain : Bool) (task : String) (now : ℕ)
    (failures yields : ℕ)
    → next_counts drain old ≡ ok (failures, yields)
    → db (saturating_add now (delay_of config drain failures yields)) ≡ ok tt
    → Counts config old now
        (record {
          task_id = task;
          failures = failures;
          not_before_ms = saturating_add now (delay_of config drain failures yields);
          yield_count = yields;
        })
        drain
unfolding next_counts increment
counted config old true task now failures yields c d =
    yields_more (ground (arith, c)) (ground (arith, c)) (
      retry_delay-Waits config.yield_retry_backoff_ms config.yield_retry_backoff_max_ms yields now
        d)
counted config old false task now failures yields c d =
    fails_more (ground (arith, c)) (ground (arith, c))
      (retry_delay-Waits config.retry_backoff_ms config.retry_backoff_max_ms failures now d)

-- What a failure leaves of an attempt's task that is not completed: the counts, the earliest time
-- of the next attempt, and the status.
pub record IsRequeued (config : CoordinatorConfig) (l : Ledger) (t : TaskRow)
    (request : LaunchRequest) (drain : Bool) (generation now : ℕ) (l' : Ledger) : Type 0 where
  pub row : RetryRow
  pub found : find_retry t.task_id l'.retries ≡ some row
  pub counts : Counts config (find_retry t.task_id l.retries) now row drain
  pub status : TaskStatus
  pub task : find_task t.task_id l'.store.tasks ≡ some (record t { status = status })
  pub retried :
      (status ≡ TaskStatus.needs_reconciliation)
        × ((t.replay_safe ≡ false)
            ⊎ (config.retry_limit ≤ row.failures)
            ⊎ (is_none_or request.max_attempts (λ limit. ltb generation limit) ≡ false))
      ⊎ (status ≡ TaskStatus.queued)
        × (t.replay_safe ≡ true)
        × (row.failures < config.retry_limit)
        × (is_none_or request.max_attempts (λ limit. ltb generation limit) ≡ true)

may_retry-status :
    (config : CoordinatorConfig) (t : TaskRow) (request : LaunchRequest) (failures generation : ℕ)
    → (let status =
          if may_retry config t request failures generation
          then TaskStatus.queued
          else TaskStatus.needs_reconciliation in
        (status ≡ TaskStatus.needs_reconciliation)
          × ((t.replay_safe ≡ false)
              ⊎ (config.retry_limit ≤ failures)
              ⊎ (is_none_or request.max_attempts (λ limit. ltb generation limit) ≡ false))
        ⊎ (status ≡ TaskStatus.queued)
          × (t.replay_safe ≡ true)
          × (failures < config.retry_limit)
          × (is_none_or request.max_attempts (λ limit. ltb generation limit) ≡ true))
unfolding may_retry
may_retry-status config t request failures generation = ground arith

requeue-IsRequeued :
    (config : CoordinatorConfig) (l : Ledger) (t : TaskRow) (request : LaunchRequest)
    (yielded : Bool) (failures yields generation now : ℕ) {l' : Ledger}
    → requeue config l t request yielded failures yields generation now ≡ ok l'
    → find_task t.task_id l.store.tasks ≡ some t
    → next_counts yielded (find_retry t.task_id l.retries) ≡ ok (failures, yields)
    → (l' ≡ l) × (is_completed t.status ≡ true)
      ⊎ IsRequeued config l t request yielded generation now l'
unfolding requeue
requeue-IsRequeued config l t request yielded failures yields generation now {l'} h f c =
    elim (Bool-cases (is_completed t.status)) [
      | inl y ↦ inl (sym (ok-injective (rw y at h)), y)
      | inr n ↦
          let not_before = saturating_add now (delay_of config yielded failures yields) in
          let (_, e, h1) = >>=-eq-ok (db not_before) _ (rw n at h) in
          let row : RetryRow = record {
            task_id = t.task_id;
            failures = failures;
            not_before_ms = not_before;
            yield_count = yields;
          } in
          let status =
            if may_retry config t request failures generation
            then TaskStatus.queued
            else TaskStatus.needs_reconciliation in
          inr (
            subst (IsRequeued config l t request yielded generation now) (ok-injective h1) (record {
              row = row;
              found = find-put (λ (r : RetryRow). r.task_id) row l.retries;
              counts =
                  counted config (find_retry t.task_id l.retries) yielded t.task_id now failures
                    yields c e;
              status = status;
              task = ground (
                arith,
                f,
                (eq_iff t.task_id t.task_id).1 refl,
                find-update (λ (x : TaskRow). x.task_id) t.task_id t.task_id
                    (λ r. record r { status = status }) l.store.tasks (λ r q. q),
              );
              retried = may_retry-status config t request failures generation;
            }))
    ]

-- A failure that is recorded for the first time.
pub record Records (config : CoordinatorConfig) (l : Ledger) (id : String) (generation : ℕ)
    (kind : FailureKind) (now : ℕ) (l' : Ledger) : Type 0 where
  pub task : TaskRow
  pub request : LaunchRequest
  pub found : find_task task.task_id l.store.tasks ≡ some task
  pub current : (task.generation ≡ generation) × (task.assignment_id ≡ some id)
  pub requested : assignment_request l id ≡ ok request
  pub drain : Bool
  pub asked :
      (is_yielded kind ≡ true) × (drain ≡ true)
      ⊎ (is_yielded kind ≡ false) × (should_drain l id ≡ ok drain)
  pub written : Ledger
  pub receipts : l' ≡ record written {
    failure_receipts =
        written.failure_receipts
        ++ ((id, if drain then FailureKind.yielded else FailureKind.execution_failure) ∷ []);
  }
  pub requeued :
      (written ≡ l) × (is_completed task.status ≡ true)
      ⊎ IsRequeued config l task request drain generation now written

attempt-same :
    (m generation : ℕ) (o : Option String) (id : String)
    → (m == generation && o == some id) ≡ true
    → (m ≡ generation) × (o ≡ some id)
attempt-same m generation none id h = ground (arith, h)
attempt-same m generation (some x) id h =
    (ground (arith, h), ap {B = Option String} some (ground (arith, h, eq_iff x id)))

asked-cases :
    (kind : FailureKind) (l : Ledger) (id : String) (drain : Bool)
    → ◌≡◌ {A = Result CoordinatorError Bool}
        (if is_yielded kind then ok true else should_drain l id)
        (ok drain)
    → (is_yielded kind ≡ true) × (drain ≡ true)
      ⊎ (is_yielded kind ≡ false) × (should_drain l id ≡ ok drain)
asked-cases kind l id drain h = elim (Bool-cases (is_yielded kind)) [
  | inl y ↦ inl (y, sym (ok-injective (rw y at h)))
  | inr n ↦ inr (n, rw n at h)
]

record_current-Records :
    (config : CoordinatorConfig) (l : Ledger) (id : String) (generation : ℕ) (kind : FailureKind)
    (now : ℕ) (task : String) {l' : Ledger}
    → record_current config l id generation kind now task ≡ ok l'
    → Records config l id generation kind now l'
unfolding record_current
record_current-Records config l id generation kind now task {l'} h =
    let (t, e1, h1) = >>=-eq-ok (read_task l task) _ h in
    let f = context-eq-ok (find_task task l.store.tasks) _ e1 in
    let k = find-key (λ (x : TaskRow). x.task_id) task l.store.tasks t f in
    let f' : find_task t.task_id l.store.tasks ≡ some t =
      subst (λ x. find_task x l.store.tasks ≡ some t) (sym k) f in
    let (b, h2) =
      ensure-eq-ok (t.generation == generation && t.assignment_id == some id)
        CoordinatorError.stale_failure _ h1 in
    let (drain, e3, h3) =
      >>=-eq-ok {A = Bool} (if is_yielded kind then ok true else should_drain l id) _ h2 in
    let (counts, e4, h4) = >>=-eq-ok (next_counts drain (find_retry task l.retries)) _ h3 in
    let (request, e5, h5) = >>=-eq-ok (assignment_request l id) _ h4 in
    let (m, e6, h6) =
      >>=-eq-ok (requeue config l t request drain counts.0 counts.1 generation now) _ h5 in
    record {
      task = t;
      request = request;
      found = f';
      current = attempt-same t.generation generation t.assignment_id id b;
      requested = e5;
      drain = drain;
      asked = asked-cases kind l id drain e3;
      written = m;
      receipts = sym (ok-injective h6);
      requeued =
          requeue-IsRequeued config l t request drain counts.0 counts.1 generation now e6 f'
            (subst (λ x. next_counts drain (find_retry x l.retries) ≡ ok counts) (sym k) e4);
    }

-- whether the failure of an attempt has a receipt
abbrev pub receipted : String → List (String × FailureKind) → Bool
receipted id receipts = any (λ (f : String × FailureKind). f.0 == id) receipts

receipted-append :
    (id : String) (kind : FailureKind) (receipts : List (String × FailureKind))
    → receipted id (receipts ++ ((id, kind) ∷ [])) ≡ true
receipted-append id kind [] = ground (arith, (eq_iff id id).1 refl)
receipted-append id kind (x ∷ rest) = ground (arith, receipted-append id kind rest)

-- A failure that is recorded: the capacity of the attempt is released, and its task is requeued.
pub record IsRecorded (config : CoordinatorConfig) (l : Ledger) (id : String) (generation : ℕ)
    (kind : FailureKind) (now : ℕ) (l' : Ledger) : Type 0 where
  pub row : Reservation
  pub held : find_reservation id l.reservations ≡ some row
  pub released : row.phase ≡ RemotePhase.released
  pub records : Records config l id generation kind now l'

-- A failure that was recorded before changes nothing. Else the attempt is the current one of its task
-- and its capacity is released, and a task that is not completed counts one yield more, if it yielded
-- or was asked to drain, or else one failure more. Its delay is that of the count: the base, doubled
-- for each count after the first, up to the maximum, and between the two beyond 64 counts. It is
-- queued if it is safe to repeat, it failed less often than the retry limit and its generation is
-- below the attempts that its request allows; else it needs reconciliation.
pub record_failure-IsRecorded :
    (config : CoordinatorConfig) (l : Ledger) (id : String) (generation : ℕ) (kind : FailureKind)
    (now : ℕ) {l' : Ledger}
    → record_failure config l id generation kind now ≡ ok l'
    → (l' ≡ l) × (receipted id l.failure_receipts ≡ true)
      ⊎ IsRecorded config l id generation kind now l'
unfolding record_failure
record_failure-IsRecorded config l id generation kind now h =
    elim (Bool-cases (any (λ (f : String × FailureKind). f.0 == id) l.failure_receipts)) [
      | inl y ↦ inl (sym (ok-injective (rw (y, record_failure) at h)), y)
      | inr n ↦
          let (r, e1, h1) =
            >>=-eq-ok (context (find_reservation id l.reservations) CoordinatorError.no_row) _
              (rw (n, record_failure) at h) in
          let (a, e2, h2) =
            >>=-eq-ok (context (find_assignment id l.store.assignments) CoordinatorError.no_row) _
              h1 in
          let (b, h3) =
            ensure-eq-ok (r.phase == RemotePhase.released) CoordinatorError.capacity_held
              (record_current config l id generation kind now a.task_id) h2 in
          inr (record {
            row = r;
            held = context-eq-ok (find_reservation id l.reservations) _ e1;
            released = ground (arith, b);
            records = record_current-Records config l id generation kind now a.task_id h3;
          })
    ]

receipted-runs :
    (config : CoordinatorConfig) (l : Ledger) (id : String) (generation : ℕ) (kind : FailureKind)
    (now : ℕ)
    → receipted id l.failure_receipts ≡ true
    → record_failure config l id generation kind now ≡ ok l
unfolding record_failure
receipted-runs config l id generation kind now h = rw (h, record_failure) refl

-- A failure of an attempt that was recorded is answered again, whatever it then reports and when,
-- and changes nothing.
pub record_failure_again :
    (config : CoordinatorConfig) (l : Ledger) (id : String) (generation generation' : ℕ)
    (kind kind' : FailureKind) (now now' : ℕ) {l' : Ledger}
    → record_failure config l id generation kind now ≡ ok l'
    → record_failure config l' id generation' kind' now' ≡ ok l'
record_failure_again config l id generation generation' kind kind' now now' {l'} h =
    receipted-runs config l' id generation' kind' now'
      (elim (record_failure-IsRecorded config l id generation kind now h) [
        | inl (e, y) ↦ subst (λ (x : Ledger). receipted id x.failure_receipts ≡ true) (sym e) y
        | inr r ↦
            subst (λ (x : Ledger). receipted id x.failure_receipts ≡ true) (sym r.records.receipts)
              (receipted-append id
                (if r.records.drain then FailureKind.yielded else FailureKind.execution_failure)
                r.records.written.failure_receipts)
      ])
