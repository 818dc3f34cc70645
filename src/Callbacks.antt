-- ===== src/Callbacks.antt =====
-- valibra_agent/grounding_callbacks.py: the records the agent's callbacks keep in the session between
-- calls, and the stores, counters and decisions on them.
pub mod Values
pub mod Records
pub mod Session
pub mod Store
pub mod Stores
pub mod Providers
pub mod Outcomes
pub mod Clarifications
pub mod Trajectory
pub mod Policy
pub mod Execute
pub mod Bootstrap
pub mod Audits
pub mod PendingCheck
