-- ===== src/Policy.antt =====
-- src/policy.rs: deterministic admission and yielding recommendations.
pub mod Amounts
pub mod Capability
pub mod Input
pub mod Charges
pub mod Host
pub mod Gpu
pub mod Victims
pub mod Engine
pub mod Admission
pub mod Yield
pub mod Cooldown
pub mod Budget
pub mod Launch
pub mod Shrink
pub mod Schedulable
