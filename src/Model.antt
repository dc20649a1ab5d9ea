-- ===== src/Model.antt =====
-- src/model.rs, in two children: `Resources` stands below the execution and kernel types, and
-- `Snapshot` above them.
pub mod Resources
pub mod Snapshot
