-- ===== src/Tests/Gates.antt =====
-- grounding_callbacks.py: a submit that the budget lets through, a finished task, and an `execute_sql`
-- that the gate allows.
use valibra.Callbacks.Policy.{
  focused_policy, tool_cost, budget_amount, cost_table, affordable, read_submit, classify_submit,
  flag_value, GateExecutionPolicy, budget_liveness_bypass, open_gate, blocked,
  evaluate_gate_execution_policy, SubmitOutcome, official_bool, official_submit_control_event,
}
use valibra.Control.{
  tool_directions_for_focus, StageEvent, official_task_completed, AttemptGateDecision,
  dimension_not_evaluated,
}
use valibra.Prelude.Json.{
  get, items, keys, pos, Json, int, bool, text, arr, cons, nil, obj, end, field,
}
use valibra.Callbacks.Execute.{
  main_sql_base_tables, frozen_tables, without_quotes, gate_tables, scope_tables,
  canonical_frozen_table_identifier, canonical_table_identifier, gate_duplicate,
  canonical_table_identifiers, identifier_parts, gate_sql, gate_statement, previous_sql,
  sql_argument, is_duplicate, gate_frozen_tables, split_dots, has_star_projection, gate_frozen,
  is_system_catalog_identifier, table_source, no_part, identifier_part, SqlTrees,
  MainExecuteGateDecision, evaluate_main_execute_gate,
}
use valibra.Callbacks.Trajectory.{
  tool_trajectory, classified_event, drop_first, tool_event, completed_events, starts_with,
  error_prefixes, classify_tool_observation_type, completed_of, completed_sql_grounding_trajectory,
  completed_event, tool_observation_type,
}
use valibra.Callbacks.Values.{
  object_value, phase_value, matching, is_identifier, exact_nat, member_text, exact_bool,
}
use valibra.Callbacks.Records.{
  outcome_fields, outcome_to_json, outcome_from_json, error_type_value, status_value,
}
use valibra.Callbacks.Store.{load_entries, load_records, load_payload}
use valibra.Callbacks.Outcomes.{phase_grounding_outcomes, selected_phase, checked_phase, outcome_of}
use valibra.Prelude.Text.{ends_with_space, is_tight, is_space, starts_with_space}
use valibra.Callbacks.Session.{find_record, Session}
use valibra.Telemetry.{is_sha256}
use valibra.Callbacks.Policy.{checked_cost}
use valibra.Callbacks.Policy.{checked_budget}
use valibra.Prelude.{
  any, contains, all, join, ℕ, ◌≡◌, ◌≢◌, ◌⊎◌, refl, String, Bool, true, false, not, ◌||◌, Option,
  none, some, [], ◌∷◌, leb, ok, string_eq, nat_eq, ◌==◌, ◌!=◌, if◌then◌else◌,
}
use valibra.Models.Vocabulary.{GroundingStage, FocusDimension, stage_eq, focus_eq}
use valibra.Models.Types.{GroundingRuntime}
use valibra.Observations.{ObservationType}
use valibra.Callbacks.Policy.Budget.{IsBudgeted}
use valibra.Callbacks.Policy.Laws.{evaluate_gate_execution_policy-IsBudgeted}
use valibra.Callbacks.Policy.Submit.{FlagsOf, official_submit_control_event-IsClassified}
use valibra.Callbacks.Execute.Laws.{IsAllowed, evaluate_main_execute_gate-IsAllowed}

abbrev whole : Json → Option ℕ
whole (int (pos n)) = some n
whole _ = none

abbrev runtime : GroundingRuntime
runtime = record {
  grounding_revision = 2;
  stage = GroundingStage.initial_grounding;
  focus_dimension = FocusDimension.tables;
  grounding_state = record {
    tables = some ("orders" ∷ []);
    join_keys = none;
    column_mapping = none;
    domain_knowledge = none;
  };
}

abbrev closed : AttemptGateDecision
closed = record { applicable = true; is_open = false; reason = dimension_not_evaluated }

abbrev poor : Session
poor = field "budget_remaining" (int (pos 1)) end

abbrev costs : Json
costs = obj (field "get_schema" (int (pos 3)) end)

abbrev bypass : GateExecutionPolicy ℕ
bypass = record {
  action = budget_liveness_bypass;
  budget_remaining = some 1;
  focus_directions = "get_schema" ∷ [];
  affordable_directions = [];
  liveness_bypass_reason = some "no_affordable_focus_direction";
}

evaluated :
    evaluate_gate_execution_policy whole leb (λ _. false) runtime closed poor costs ≡ ok bypass
unfolding evaluate_gate_execution_policy focused_policy tool_cost budget_amount cost_table
    tool_directions_for_focus affordable get checked_cost checked_budget
evaluated = refl

evaluate_gate_execution_policy-IsBudgeted_example :
    (((not closed.applicable || closed.is_open) ≡ true) × (bypass.action ≡ open_gate))
    ⊎ (((not closed.applicable || closed.is_open) ≡ false)
        × ((((runtime.stage != GroundingStage.initial_grounding
                  || runtime.focus_dimension == FocusDimension.none)
                ≡ true)
              × (bypass.action ≡ blocked))
            ⊎ ((runtime.stage ≡ GroundingStage.initial_grounding)
                × (runtime.focus_dimension ≢ FocusDimension.none)
                × IsBudgeted whole leb (λ _. false) runtime.focus_dimension poor costs bypass)))
evaluate_gate_execution_policy-IsBudgeted_example =
    evaluate_gate_execution_policy-IsBudgeted whole leb (λ _. false) runtime closed poor costs
      evaluated

abbrev done : Session
done = field "task_done" (bool true) (field "phase1_completed" (bool true) end)

abbrev completed : SubmitOutcome
completed = record {
  label = "task_completed_p1";
  event = some official_task_completed;
  error = none;
}

classified : official_submit_control_event 1 2 ObservationType.submission done ≡ ok completed
unfolding official_submit_control_event official_bool read_submit classify_submit get flag_value
classified = refl

official_submit_control_event-IsClassified_example :
    ((completed.event ≡ none) × (e : String) × (completed.error ≡ some e))
    ⊎ ((event : StageEvent) × (p1 : Bool) × (p2 : Bool) × (is_done : Bool) × (completed.event
          ≡ some event)
        × (completed.error ≡ none)
        × (official_bool "phase1_completed" done ≡ ok p1)
        × (official_bool "phase2_completed" done ≡ ok p2)
        × (official_bool "task_done" done ≡ ok is_done)
        × FlagsOf 1 2 p1 p2 is_done event)
official_submit_control_event-IsClassified_example =
    official_submit_control_event-IsClassified 1 2 ObservationType.submission done classified

abbrev event : String → String → Json
event tool sql = obj (
    field "tool" (text tool) (
      field "phase" (int (pos 1))
        (field "args" (obj (field "sql" (text sql) end)) (field "result" (text "rows") end))))

abbrev digest : String
digest = "cccccccccccccccccccccccccccccccccccccccccccccccccccccccccccccccc"

abbrev stored_outcome : Json
stored_outcome = obj (
    field "phase" (int (pos 1)) (
      field "status" (text "succeeded") (
        field "observation_id" (text "obs-1") (
          field "error_type" Json.null (
            field "provider_attempted" (bool true) (
              field "grounding_revision" (int (pos 2))
                (field "state_sha256" (text digest) end)))))))

abbrev grounded : Session
grounded =
    field "valibra:sql_grounding_phase_outcomes" (obj (field "1" stored_outcome end))
      (field "tool_trajectory" (arr (cons (event "execute_sql" "SELECT 1") nil)) end)

-- Trees of two statements: `true` selects from `orders`, `false` from nothing.
abbrev trees : SqlTrees Bool Unit
trees = record {
  parse = λ sql. some (some (sql == "SELECT id FROM orders") ∷ []);
  projected_nodes = λ _. tt ∷ [];
  returned_nodes = λ _. [];
  is_star = λ _. false;
  is_counted = λ _. false;
  all_tables = λ statement. if statement then 4 ∷ [] else [];
  is_query = λ _. true;
  scopes = λ _. (table_source 4 ∷ []) ∷ [];
  table_parts = λ _ _. no_part ∷ no_part ∷ identifier_part "orders" false ∷ [];
  canonical_sql = λ statement. if statement then "SELECT id FROM orders" else "SELECT 1";
  lower = λ s. s;
}

abbrev args : Json
args = obj (field "sql" (text "SELECT id FROM orders") end)

abbrev allowed : MainExecuteGateDecision
allowed = record {
  allowed = true;
  reason = "allowed";
  canonical_sql = some "SELECT id FROM orders";
}

let_through :
    evaluate_main_execute_gate trees (λ _. digest) (λ _. ok "d") grounded runtime false args
    ≡ ok allowed
unfolding evaluate_main_execute_gate main_sql_base_tables tool_trajectory classified_event
    frozen_tables object_value outcome_fields load_entries without_quotes drop_first
    phase_grounding_outcomes outcome_to_json gate_tables scope_tables join items ends_with_space
    outcome_from_json is_tight canonical_frozen_table_identifier tool_event load_records all
    is_space canonical_table_identifier completed_events gate_duplicate starts_with
    canonical_table_identifiers starts_with_space keys identifier_parts phase_value matching
    load_payload gate_sql gate_statement previous_sql sql_argument find_record is_duplicate
    gate_frozen_tables error_prefixes error_type_value classify_tool_observation_type is_identifier
    contains split_dots selected_phase is_sha256 checked_phase status_value has_star_projection
    gate_frozen completed_of any outcome_of get is_system_catalog_identifier
    completed_sql_grounding_trajectory completed_event tool_observation_type exact_nat member_text
    exact_bool
let_through = refl

evaluate_main_execute_gate-IsAllowed_example :
    (statement : Bool) × IsAllowed trees
      (λ _. digest)
      (λ _. ok "d")
      grounded
      runtime
      false
      args
      statement
evaluate_main_execute_gate-IsAllowed_example =
    evaluate_main_execute_gate-IsAllowed trees (λ _. digest) (λ _. ok "d") grounded runtime false
      args let_through refl
