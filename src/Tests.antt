-- ===== src/Tests.antt =====
-- The examples: each theorem at files where its conditions hold.
pub mod Data
pub mod Leases
pub mod Claims
pub mod Quotas
pub mod Pools
pub mod Choices
pub mod States
pub mod People
pub mod Logs
pub mod Locks
pub mod Refined
pub mod Profiles
pub mod Remotes
pub mod Limits
