-- ===== src/Models.antt =====
-- valibra_agent/sql_grounding/models.py: the State, the Runtime, the stage forms and the
-- validators. The children follow the file's parts.
pub mod Vocabulary
pub mod Types
pub mod State
pub mod Transition
pub mod Expressions
pub mod Validation
pub mod Forms
