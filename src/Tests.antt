-- ===== src/Tests.antt =====
-- Concrete runs of the components.
pub mod Models
pub mod Control
pub mod Knowledge
pub mod Calls
pub mod Process
pub mod Draft
pub mod Repair
pub mod Scope
pub mod Stores
pub mod Counters
pub mod Gates
pub mod Bootstrap
pub mod Run
