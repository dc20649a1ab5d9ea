-- ===== src/Store.antt =====
-- The local SQLite store: tasks and results (src/state.rs), the execution journal
-- (src/execution_state.rs) and the managed children (src/managed_children.rs).
pub mod Tables
pub mod Profile
pub mod Tasks
pub mod Reserve
pub mod Transition
pub mod Recovery
pub mod Children
pub mod Steps
pub mod Allocations
