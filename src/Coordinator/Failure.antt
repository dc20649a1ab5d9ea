-- ===== src/Coordinator/Failure.antt =====
-- src/coordinator.rs, `record_failure`: a failed or yielded attempt is queued again within the
-- limits, after a delay.
use cede_grid.Common.{
  saturating_add, ℕ, ◌+◌, ◌-◌, ◌^◌, min, String, Bool, true, false, ◌&&◌, Option, none, some, [],
  ◌∷◌, ◌++◌, ◌==◌, String_eq, ℕ_eq, Option_eq, ltb, leb, any, u64_max, saturating_mul, is_none_or,
  if◌then◌else◌, Result, ok, ensure, context, ◌>>=◌, ◌>>◌,
}
use cede_grid.Execution.{LaunchRequest}
use cede_grid.Protocol.{CoordinatorConfig, FailureKind, RemotePhase, RemotePhase_eq, is_yielded}
use cede_grid.Store.Tables.{TaskRow, TaskStatus, is_completed, find_assignment, update_task}
use cede_grid.Coordinator.Tables.{
  CoordinatorError, Ledger, RetryRow, find_reservation, find_retry, read_task, put_row, db,
}
use cede_grid.Coordinator.Lookup.{assignment_request, should_drain}

abbrev u32_max : ℕ
u32_max = 4294967295

-- `checked_add(1)` on a `u32`
unfoldable pub increment : ℕ → Result CoordinatorError ℕ
increment n = ensure (leb (n + 1) u32_max) CoordinatorError.overflow >> ok (n + 1)

-- `1u64.checked_shl(n).unwrap_or(u64::MAX)`
unfoldable pub shifted : ℕ → ℕ
shifted n = if ltb n 64 then 2 ^ n else u64_max

-- The delay before the next attempt: doubled for each failure or yield, up to the maximum.
unfoldable pub retry_delay : ℕ → ℕ → ℕ → ℕ
unfolding shifted
retry_delay base maximum exponent = min (saturating_mul base (shifted (exponent - 1))) maximum

-- the counts of a task, with 0 where it has no row
abbrev pub failures_of : Option RetryRow → ℕ
failures_of none = 0
failures_of (some r) = r.failures

abbrev pub yields_of : Option RetryRow → ℕ
yields_of none = 0
yields_of (some r) = r.yield_count

-- the failures and the yields after this report
unfoldable pub next_counts : Bool → Option RetryRow → Result CoordinatorError (ℕ × ℕ)
unfolding increment
next_counts true old = increment (yields_of old) >>= λ yields. ok (failures_of old, yields)
next_counts false old = increment (failures_of old) >>= λ failures. ok (failures, 0)

abbrev pub delay_of : CoordinatorConfig → Bool → ℕ → ℕ → ℕ
delay_of config yielded failures yields =
    if yielded
    then retry_delay config.yield_retry_backoff_ms config.yield_retry_backoff_max_ms yields
    else retry_delay config.retry_backoff_ms config.retry_backoff_max_ms failures

-- whether the attempt may be repeated without an operator
unfoldable pub may_retry : CoordinatorConfig → TaskRow → LaunchRequest → ℕ → ℕ → Bool
may_retry config t request failures generation =
    t.replay_safe
    && ltb failures config.retry_limit
    && is_none_or request.max_attempts (λ limit. ltb generation limit)

-- the writes on the task, unless it is completed
unfoldable pub requeue :
    CoordinatorConfig
    → Ledger
    → TaskRow
    → LaunchRequest
    → Bool
    → ℕ
    → ℕ
    → ℕ
    → ℕ
    → Result CoordinatorError Ledger
requeue config l t request yielded failures yields generation now =
    let not_before = saturating_add now (delay_of config yielded failures yields) in
    let row : RetryRow = record {
      task_id = t.task_id;
      failures = failures;
      not_before_ms = not_before;
      yield_count = yields;
    } in
    let status =
      if may_retry config t request failures generation
      then TaskStatus.queued
      else TaskStatus.needs_reconciliation in
    if is_completed t.status
    then ok l
    else (db not_before
        >> ok (record l {
          store = record l.store {
            tasks = update_task t.task_id (λ r. record r { status = status }) l.store.tasks;
          };
          retries = put_row (λ r. r.task_id) row (λ _. row) l.retries;
        }))

-- the attempt whose failure is reported, once it is known to be the current one
unfoldable pub record_current :
    CoordinatorConfig
    → Ledger
    → String
    → ℕ
    → FailureKind
    → ℕ
    → String
    → Result CoordinatorError Ledger
unfolding next_counts
record_current config l id generation kind now task = do
  t ← read_task l task
  ensure (t.generation == generation && t.assignment_id == some id) CoordinatorError.stale_failure
  drain ← if is_yielded kind then ok true else should_drain l id
  counts ← next_counts drain (find_retry task l.retries)
  request ← assignment_request l id
  next ← requeue config l t request drain counts.0 counts.1 generation now
  ok (record next {
    failure_receipts =
        next.failure_receipts
        ++ ((id, if drain then FailureKind.yielded else FailureKind.execution_failure) ∷ []);
  })

-- `record_failure`
unfoldable pub record_failure :
    CoordinatorConfig → Ledger → String → ℕ → FailureKind → ℕ → Result CoordinatorError Ledger
record_failure config l id generation kind now =
    let recorded : Result CoordinatorError Ledger = (do
      r ← context (find_reservation id l.reservations) CoordinatorError.no_row
      a ← context (find_assignment id l.store.assignments) CoordinatorError.no_row
      ensure (r.phase == RemotePhase.released) CoordinatorError.capacity_held
      record_current config l id generation kind now a.task_id) in
    if any (λ (f : String × FailureKind). f.0 == id) l.failure_receipts then ok l else recorded
