-- ===== src/Tests/Bootstrap.antt =====
-- grounding_callbacks.py: a task that has seen its schema asks for the column meanings.
use valibra.Callbacks.Providers.{provider_phase_stage_call_count}
use valibra.Callbacks.Trajectory.{tool_observation_type}
use valibra.Callbacks.Records.{bootstrap_tool_sequence}
use valibra.Callbacks.Bootstrap.{request_exposes_bootstrap_tools}
use valibra.Callbacks.Bootstrap.{left_over}
use valibra.Prelude.Json.{items}
use valibra.Callbacks.Trajectory.{completed_event}
use valibra.Callbacks.Trajectory.{error_prefixes}
use valibra.Callbacks.Trajectory.{completed_of}
use valibra.Callbacks.Trajectory.{tool_event}
use valibra.Callbacks.Trajectory.{classified_event}
use valibra.Callbacks.Providers.{provider_phase_call_counts}
use valibra.Callbacks.Providers.{counter_value}
use valibra.Callbacks.Providers.{read_phase_counts}
use valibra.Callbacks.Trajectory.{drop_first}
use valibra.Callbacks.Bootstrap.{observed_next_tool}
use valibra.Callbacks.Trajectory.{completed_events}
use valibra.Callbacks.Bootstrap.{next_of}
use valibra.Callbacks.Providers.{read_repair_counts}
use valibra.Callbacks.Trajectory.{classify_tool_observation_type}
use valibra.Callbacks.Providers.{provider_call_count}
use valibra.Callbacks.Outcomes.{checked_phase}
use valibra.Callbacks.Trajectory.{starts_with}
use valibra.Callbacks.Outcomes.{selected_phase}
use valibra.Prelude.Json.{keys}
use valibra.Callbacks.Trajectory.{tool_trajectory}
use valibra.Callbacks.Providers.{provider_repair_phase_call_counts}
use valibra.Prelude.{any}
use valibra.Prelude.{keep}
use valibra.Prelude.{contains}
use valibra.Prelude.{all}
use valibra.Prelude.{◌≡◌, refl, List, true, some, [], ok, ◌==◌}
use valibra.Prelude.Json.{int, pos, text, arr, cons, nil, obj, end, field, get}
use valibra.Models.Vocabulary.{GroundingStage, FocusDimension, stage_eq}
use valibra.Models.Types.{GroundingRuntime}
use valibra.Callbacks.Session.{Session}
use valibra.Callbacks.Trajectory.{CompletedEvent, completed_sql_grounding_trajectory}
use valibra.Callbacks.Bootstrap.{observed_tools, next_bootstrap_tool}
use valibra.Callbacks.Bootstrap.Laws.{IsNext, next_bootstrap_tool-IsNext}

abbrev runtime : GroundingRuntime
runtime = record {
  grounding_revision = 1;
  stage = GroundingStage.initial_grounding;
  focus_dimension = FocusDimension.tables;
  grounding_state = record {
    tables = some [];
    join_keys = some [];
    column_mapping = some [];
    domain_knowledge = some [];
  };
}

abbrev session : Session
session =
    field "tool_trajectory"
      (arr (cons (obj (field "tool" (text "get_schema") (field "result" (text "t") end))) nil))
      (field "valibra:sql_grounding_provider_calls" (int (pos 1)) end)

asks_for_meanings :
    next_bootstrap_tool (λ _. ok "d") true session runtime (some bootstrap_tool_sequence)
    ≡ ok (some "get_all_column_meanings")
unfolding next_bootstrap_tool provider_phase_stage_call_count tool_observation_type
    request_exposes_bootstrap_tools left_over items completed_event get error_prefixes
    completed_sql_grounding_trajectory completed_of tool_event classified_event
    provider_phase_call_counts counter_value all observed_tools read_phase_counts contains keep
    drop_first any observed_next_tool completed_events next_of read_repair_counts
    classify_tool_observation_type provider_call_count checked_phase starts_with selected_phase keys
    tool_trajectory provider_repair_phase_call_counts
asks_for_meanings = refl

next_bootstrap_tool-IsNext_example :
    (true ≡ true)
    × (runtime.stage == GroundingStage.initial_grounding ≡ true)
    × (events : List CompletedEvent) × (completed_sql_grounding_trajectory (λ _. ok "d") session
        ≡ ok events)
    × IsNext (observed_tools events) session "get_all_column_meanings"
next_bootstrap_tool-IsNext_example =
    next_bootstrap_tool-IsNext (λ _. ok "d") true session runtime (some bootstrap_tool_sequence)
      asks_for_meanings
