-- ===== src/Lib.antt =====
-- The SQL grounding kernel of Valibra, valibra_agent/sql_grounding: a State of four dimensions (tables,
-- relations, column mapping, domain knowledge) that a language model proposes and that deterministic
-- code alone accepts.
--
-- The parts, and how they interact. A Runtime holds the State, a focus, a stage and a revision. Each
-- legal observation starts one Grounding call: the service checks its inputs, asks the updater for a
-- proposal (a typed form of one stage), merges the form into a candidate State, validates it against
-- the evidence, and hands back the candidate Runtime or the one before, with telemetry. A Mapping may
-- be repaired once, by a second proposal limited to a scope. Control events move the stage, and a gate
-- decides on the first submission. The callbacks of the agent keep their own records in the session:
-- pending and refused calls, counters, questions, and each phase's outcome, on which the gate of the
-- Main agent's SQL rests.
--
-- Which file models which part:
--   Models/Vocabulary, Types, State   models.py: literals, limits, value objects and their validators
--   Models/Expressions                models.py: the columns and JSON paths that an expression may name
--   Models/Forms                      models.py: the forms of each stage
--   Models/Validation                 models.py: `validate_sql_grounding_state`, `validate_grounding_llm_response`
--   Models/Transition                 models.py: the State and Runtime transition validators
--   Control                           control.py: stage events, gate, tool directions, hint text
--   Telemetry, Observations           telemetry.py, observations.py: records and their validators
--   Updater                           updater.py: `classify_grounding_input` and the result records
--   Service/Inputs                    service.py: `_validate_service_inputs`
--   Service/Stages, Knowledge         service.py: `_materialize_stage_response` and the Knowledge stage
--   Service/Scope, Diff               service.py: Check scope, staged responses, observation diffs
--   Service/Repair, FormRepair        service.py: the two repair scopes and the check of a repair
--   Service/Candidate, Attempt        service.py: the `try` blocks of a call, on the variables they assign
--   Service/Outcome, Process          service.py: the records handed back, the handlers and the whole call
--   Service/Draft, Commit             service.py: a Draft stage, and the commit of a Draft
--   Service/Run                       service.py, control.py: calls, commits and events in any order
--   Callbacks/Values, Records         grounding_callbacks.py: the JSON records kept between calls
--   Callbacks/Session, Store, Stores  grounding_callbacks.py: the session state and its four stores of calls
--   Callbacks/Outcomes                grounding_callbacks.py: how each phase's grounding ended
--   Callbacks/Clarifications          grounding_callbacks.py: questions to the user and their answers
--   Callbacks/Providers               grounding_callbacks.py: the counters of Provider calls
--   Callbacks/Trajectory              grounding_callbacks.py: the completed Official trajectory
--   Callbacks/Policy                  grounding_callbacks.py: `_evaluate_gate_execution_policy`, submit events
--   Callbacks/Execute                 grounding_callbacks.py: `_evaluate_main_execute_gate`
--   Callbacks/Bootstrap               grounding_callbacks.py: the fixed first tools, the sequence counter
--   Callbacks/PendingCheck            grounding_callbacks.py: the action that a Check has asked for
--   Callbacks/Audits                  grounding_callbacks.py: the audits of the gate and of tool calls
--   Prelude                           results, tests, lists, Python's texts and JSON
--   Tests                             concrete runs
--
-- How code becomes a definition. Exceptions are values of `Raised`: a `SQLGroundingValidationError`
-- with its message, or any other. A pydantic validator is a function that refuses or returns the
-- canonical value. The variables that the body of `process_sql_grounding_observation` assigns before
-- an exception are the record `Progress`, which a handler reads. Sets that are only asked for members
-- are lists. The session is a JSON mapping that is passed on explicitly; the callbacks' exceptions
-- are values of `Failure`, a `ValueError` with its message, a `TypeError` or a `KeyError`. Numbers are
-- natural; identifiers of rules are integers. There is no fuel: every function is by structural
-- recursion.
--
-- `Raised` and `Failure` stand for Python's `Exception`; a `BaseException` that is none, such as
-- `CancelledError`, passes every handler and is outside of the model.
--
-- What is a parameter: sqlglot's parser with what the checks read of its trees, and the checks of an
-- expression's canonical form and of a correlated relation's shape (`SqlExpressions`), the searches by
-- regular expressions and the parse of a SELECT in forms (`FormTexts`), the SHA-256 digests, the JSON
-- decoder and the fixed digests of the configuration (`Externals`), and the provider, as the function
-- from the repair scope to its proposal.
--
-- The callbacks add: the size of an audit in canonical JSON, the digest of a result, the floats of
-- budgets and costs with their order, and sqlglot's trees of a statement (`SqlTrees`).
--
-- What is not modelled: the provider client and prompts of updater.py, the handlers of the agent's
-- callbacks and their drafts, the carriers of the entry agent, and the servers
-- around them.
pub mod Prelude
pub mod Models
pub mod Callbacks
pub mod Control
pub mod Telemetry
pub mod Updater
pub mod Observations
pub mod Service
pub mod Tests
