-- ===== src/Coordinator/Submit.antt =====
-- src/coordinator.rs, `submit`: a job's tasks enter the queue together, or not at all.
use cede_grid.Common.{
  ℕ, ◌+◌, String, Bool, false, ◌&&◌, ◌||◌, not, Option, none, some, List, [], ◌∷◌, ◌++◌, ◌==◌,
  String_eq, ℕ_eq, ltb, leb, nat_eq, any, all, contains, length, len, codes, checked_add, is_empty,
  is_empty_text, is_none, is_none_or, is_absolute, is_ascii_alphanumeric, max, Result, ok, ensure,
  context, ◌>>=◌, ◌>>◌,
}
use cede_grid.Execution.{LaunchRequest, NamedArtifact, AllocationClass_eq}
use cede_grid.Protocol.{CoordinatorConfig, PoolSpec, JobSpec}
use cede_grid.Protocol.Validate.{validate_launch_request, has_command}
use cede_grid.Store.Tables.{find_task}
use cede_grid.Store.Tasks.{fresh_task}
use cede_grid.Coordinator.Tables.{
  CoordinatorError, Ledger, Services, SpecRow, JobRow, PublicationRow, find_job, find_spec, db,
  from_protocol,
}
use cede_grid.Coordinator.Lookup.{pool}
use cede_grid.Coordinator.Session.{check_id}

-- `b"._-".contains(&b)`
abbrev is_name_mark : ℕ → Bool
is_name_mark c = nat_eq c b'.' || nat_eq c b'_' || nat_eq c b'-'

-- a basename that no other input of the task has
unfoldable pub is_input_name : List String → String → Bool
is_input_name names name =
    not (is_empty_text name)
    && leb (len name) 128
    && not (name == "." || name == "..")
    && all (λ c. is_ascii_alphanumeric c || is_name_mark c) (codes name)
    && not (contains names name)

-- the loop over the inputs, with their names and their size so far
unfoldable pub check_inputs :
    Services
    → CoordinatorConfig
    → Ledger
    → List String
    → ℕ
    → List NamedArtifact
    → Result CoordinatorError (Unit {0})
check_inputs env config l names bytes [] = ok tt
check_inputs env config l names bytes (i ∷ rest) =
    ensure (is_input_name names i.name) CoordinatorError.input_name
    >> (context (checked_add bytes i.size) CoordinatorError.input_overflow >>= λ total.
        ensure (leb total config.artifact_quota_bytes) CoordinatorError.input_bound
        >> (db i.size
            >> (ensure
                  (any
                    (λ (p : PublicationRow).
                      p.artifact.sha256 == i.sha256 && p.artifact.size == i.size)
                    l.publications)
                  CoordinatorError.input_unpublished
                >> (ensure (env.holds_artifact (record { sha256 = i.sha256; size = i.size }))
                      CoordinatorError.artifact_unverified
                    >> check_inputs env config l (i.name ∷ names) total rest))))

-- the checks on one task
unfoldable pub check_task :
    Services
    → CoordinatorConfig
    → Ledger
    → PoolSpec
    → LaunchRequest
    → Result CoordinatorError (Unit {0})
check_task env config l p request = do
  from_protocol (validate_launch_request env.accepts_json request)
  check_id request.task_id
  ensure (is_empty_text request.assignment_id) CoordinatorError.assignment_id_given
  ensure (has_command request.argv) CoordinatorError.empty_command
  ensure (request.class == p.class) CoordinatorError.class_differs
  ensure (is_absolute request.cwd) CoordinatorError.relative_cwd
  ensure (is_none_or request.max_attempts (λ limit. ltb 0 limit)) CoordinatorError.attempts_required
  ensure (ltb 0 request.resources.cpu_millicores && ltb 0 request.resources.ram_mib)
      CoordinatorError.amounts_required
  ensure (leb (length request.input_artifacts) 64) CoordinatorError.input_count
  check_inputs env config l [] 0 request.input_artifacts

-- the number of the next row: `INTEGER PRIMARY KEY AUTOINCREMENT`, of a table that keeps its rows
abbrev next_sequence : List SpecRow → ℕ
next_sequence [] = 1
next_sequence (s ∷ rest) = max (s.sequence + 1) (next_sequence rest)

-- the rows of one task, whose ID is new
unfoldable pub insert_task : Ledger → String → LaunchRequest → Result CoordinatorError Ledger
insert_task l job_id request =
    ensure
      (is_none (find_task request.task_id l.store.tasks)
        && is_none (find_spec request.task_id l.task_specs))
      CoordinatorError.constraint_failed
    >> ok (record l {
      store = record l.store {
        tasks = l.store.tasks ++ (fresh_task request.task_id request.replay_safe ∷ []);
      };
      task_specs =
          l.task_specs
          ++ (record {
            sequence = next_sequence l.task_specs;
            task_id = request.task_id;
            job_id = job_id;
            request = request;
          }
              ∷ []);
    })

unfoldable pub insert_tasks :
    Services
    → CoordinatorConfig
    → PoolSpec
    → String
    → Ledger
    → List LaunchRequest
    → Result CoordinatorError Ledger
insert_tasks env config p job_id l [] = ok l
insert_tasks env config p job_id l (request ∷ rest) =
    check_task env config l p request
    >> (insert_task l job_id request >>= λ next. insert_tasks env config p job_id next rest)

-- a job whose ID is known, and one whose ID is new
unfoldable pub submit_at :
    Services
    → CoordinatorConfig
    → Ledger
    → JobSpec
    → ℕ
    → PoolSpec
    → Option JobRow
    → Result CoordinatorError Ledger
submit_at env config l job now p (some old) =
    ensure (env.same_job old.spec job) CoordinatorError.job_changed >> ok l
submit_at env config l job now p none =
    db now
    >> insert_tasks env config p job.job_id
        (record l {
          jobs =
              l.jobs
              ++ (record {
                job_id = job.job_id;
                pool_id = job.pool_id;
                priority = job.priority;
                cancelled = false;
                submitted_ms = now;
                spec = job;
              }
                  ∷ []);
        })
        job.tasks

-- `submit`
unfoldable pub submit_job :
    Services → CoordinatorConfig → Ledger → JobSpec → ℕ → Result CoordinatorError Ledger
submit_job env config l job now = do
  check_id job.job_id
  ensure (not (is_empty job.tasks) && leb (length job.tasks) 100_000) CoordinatorError.job_tasks
  p ← pool l job.pool_id
  submit_at env config l job now p (find_job job.job_id l.jobs)
