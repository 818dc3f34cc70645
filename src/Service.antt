-- ===== src/Service.antt =====
-- valibra_agent/sql_grounding/service.py: one Grounding call, from a proposal to an accepted State.
pub mod Documents
pub mod Knowledge
pub mod Stages
pub mod Scope
pub mod Diff
pub mod Inputs
pub mod Repair
pub mod FormRepair
pub mod Outcome
pub mod Candidate
pub mod Commit
pub mod Draft
pub mod Attempt
pub mod Process
pub mod Run
