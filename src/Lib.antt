-- ===== src/Lib.antt =====
-- CedeGrid shares a node's spare CPU, RAM and GPU memory with managed work and gives it back when
-- its owner needs it. Four parts of it are modelled here.
--
-- The policy (src/policy.rs) is a pure decision: PolicyEngine::evaluate reads the configuration, an
-- observation of the node and the allocations, and gives a budget, an admission headroom and the
-- allocations to drain. Policy/Amounts has its arithmetic, Policy/Input the checks of its input,
-- Policy/Charges the first loop, Policy/Host the CPU and RAM budget, Policy/Gpu the loops over the
-- devices, Policy/Victims the choice of drains, Policy/Engine the state and the composition,
-- Policy/Capability the contract of a GPU launch,
-- Policy/Schedulable what the coordinator may place. The engine's state is passed on explicitly; the
-- texts that explain a decision are left out. Sorting is by insertion, and sets are lists without
-- duplicates.
--
-- The local store (src/state.rs, src/execution_state.rs, src/managed_children.rs) keeps tasks,
-- attempts, executions and managed children in SQLite. Store/Tables has the tables as lists of rows
-- in insertion order; an operation is a function from a store to an error or to the next store,
-- since each is one transaction. Store/Tasks has submit, assign, mark_uncertain and accept_result;
-- Store/Profile has the storage profiles and their names.
-- Store/Reserve has reserve_generation with its checks in their order; Store/Transition the phases
-- of an execution and transition, and execution_allocations, which the policy is shown;
-- Store/Recovery import_replay_reservation; Store/Children the registry of managed children.
-- Store/Steps makes the operations constructors of a step relation, and its children prove
-- invariants by induction on the steps. The boot identity that transition reads from the operating
-- system is a parameter, as is the comparison of the JSON values of two requests.
--
-- The coordinator (src/coordinator.rs, with the messages of src/protocol.rs) keeps the jobs, the
-- attempts and the reservations on all nodes. Protocol has the messages and Protocol/Validate their
-- checks. Coordinator/Tables has the ledger as lists of rows, the columns that are only displayed left
-- out; it holds a store for the tables of tasks and attempts. Coordinator/Lookup and
-- Coordinator/Charge are the reads, Coordinator/Outcome the transactions: an operation in one
-- transaction is a function to an error or to the next ledger, and a request of several gives the
-- ledger that it leaves also where it fails. Coordinator/Session is validate_node_session and
-- open_replay_session, Expire advance_clock and expire, Grant grant, Failure record_failure, Schedule
-- schedule, Preempt request_preemption, Heartbeat heartbeat with its first transaction in Report and
-- its answer in Reply, Accept accept, Submit submit, Command the other requests, and Handle handle_at
-- and open. What the coordinator asks of other libraries and of the artifact files is the record
-- Services: random identifiers, UUID parsing, JSON comparison and sizes, SHA-256. Coordinator/Steps
-- makes requests and restarts the steps of a ledger, and its children prove what each operation does
-- to reservations, fences and attempts.
--
-- The configuration (src/config.rs, src/cgroup.rs, src/kernel.rs) is validated before the policy
-- uses it: Config, Config/Cgroup and Config/Kernel. Model, Execution and Kernel have the shared data
-- (src/model.rs, src/execution_model.rs, the snapshot of src/kernel.rs). Common has Results for `?`
-- and `ensure!`, Equality, Lists, Maps for ordered maps, Text, Paths, Word for u64 and i64, and Int.
--
-- Integers of the source are natural numbers: a u64 sum is checked_add, a saturating subtraction is
-- the subtraction of natural numbers, and a product in u128 cannot overflow. The loops are over
-- lists, so no fuel is used.
--
-- Agent is src/agent.rs: validate_lease, allocation_charge with allocations_fit and
-- remaining_capacity, and the due times of its timers in nanoseconds, where the sum of an Instant and
-- a Duration does not overflow. Agent/Charges compares its charge with that of the policy, and
-- Agent/Leases its check with the leases of the coordinator.
--
-- Not modelled: the transfer of artifacts and the status queries of the coordinator, the loop of the
-- agent with its supervisors, publication and its collection, backup, upgrade, supervision of processes, telemetry, and the
-- parsing of configuration files. SQL errors of the database itself, and the readers that only select
-- rows, are left out.
pub mod Common
pub mod Model
pub mod Execution
pub mod Kernel
pub mod Config
pub mod Protocol
pub mod Policy
pub mod Store
pub mod Coordinator
pub mod Agent
pub mod Tests
