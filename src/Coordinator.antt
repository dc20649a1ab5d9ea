-- ===== src/Coordinator.antt =====
-- src/coordinator.rs: the coordinator's ledger of jobs, attempts and reservations on nodes, and the
-- requests that change it.
pub mod Tables
pub mod Lookup
pub mod Charge
pub mod Outcome
pub mod Grant
pub mod Expire
pub mod Failure
pub mod Session
pub mod Schedule
pub mod Preempt
pub mod Heartbeat
pub mod Accept
pub mod Submit
pub mod Command
pub mod Handle
pub mod Steps
