-- ===== src/Tests/Models.antt =====
-- A State whose mapping is settled, and the checks of what follows it.
use valibra.Models.State.{is_bounded_text, is_table_identifier, matches_table_identifier, is_some}
use valibra.Models.Expressions.{
  has_control_token, parse_expression, table_of_parts, before_last_dot, qualified_column_table,
  only_statement, resolve_columns, resolve_column, json_path_reference, split_at_last_dot,
  local_aliases, check_json_node, validate_expression_identifiers,
}
use valibra.Prelude.Text.{
  ends_with_space, is_tight, fits, starts_with_space, is_space, is_substring,
}
use valibra.Models.Validation.{
  check_expression, check_table, check_mapping, check_knowledge, is_in_query, query_texts,
  validate_sql_grounding_state,
}
use valibra.Prelude.{
  join, err, false, String, ◌≡◌, ◌↔◌, refl, true, none, some, [], ◌∷◌, ok, contains, string_eq,
  for_each, keep, all, any, if◌then◌else◌,
}
use valibra.Models.Vocabulary.{GroundingStage, FocusDimension, GroundingDimension}
use valibra.Models.Types.{
  SqlGroundingState, GroundingRuntime, StateDiffAuthorization, ValidationContext, ParsedExpression,
  SqlExpressions, other_error, ColumnMapping,
}
use valibra.Models.Transition.{
  is_changed, is_evaluated, changed_dimensions, validate_grounding_state_transition,
  validate_grounding_runtime_transition,
}
use valibra.Models.Transition.Laws.{
  IsAllowedDiff, state_transition_iff, transition-ok→IsAllowedDiff,
}
use valibra.Models.Transition.Runtime.{
  IsAllowedStep, NoCollision, runtime_transition-ok, IsAllowedStep→ok,
}
use valibra.Models.Validation.Laws.{IsSupported, validate-ok→IsSupported, IsSupported→validate-ok}

abbrev mapping : ColumnMapping
mapping = record { phrase = "total"; targets = "orders.total" ∷ [] }

abbrev before : SqlGroundingState
before = record {
  tables = some ("orders" ∷ []);
  join_keys = some [];
  column_mapping = none;
  domain_knowledge = none;
}

abbrev after : SqlGroundingState
after = record before { column_mapping = some (mapping ∷ []) }

abbrev mapping_authorization : StateDiffAuthorization
mapping_authorization = record {
  stage = GroundingStage.initial_grounding;
  authorized_dimensions = GroundingDimension.column_mapping ∷ [];
}

abbrev runtime_before : GroundingRuntime
runtime_before = record {
  grounding_revision = 2;
  stage = GroundingStage.initial_grounding;
  focus_dimension = FocusDimension.column_mapping;
  grounding_state = before;
}

abbrev runtime_after : GroundingRuntime
runtime_after = record {
  grounding_revision = 3;
  stage = GroundingStage.initial_grounding;
  focus_dimension = FocusDimension.domain_knowledge;
  grounding_state = after;
}

abbrev digest : SqlGroundingState → String
digest s = if is_some s.column_mapping then "b" else ""

abbrev context : ValidationContext
context = record {
  current_query = "total of orders";
  latest_observation_id = "obs_1";
  follow_up_query = none;
  known_tables = "orders" ∷ [];
  known_columns = "orders.total" ∷ [];
  supported_json_paths = [];
  supported_domain_knowledge = [];
}

-- `orders.total`.
abbrev total : ParsedExpression
total = record {
  columns = record { catalog = ""; db = ""; table = "orders"; name = "total" } ∷ [];
  has_query = false;
  json_nodes = [];
  inner_table = err other_error;
}

abbrev sql : SqlExpressions
sql = record {
  canonical_field = λ _. true;
  canonical_relation = λ _. true;
  field_tables = λ _. some ("orders" ∷ []);
  relation_tables = λ _. some ("orders" ∷ []);
  parse = λ _. some (some total ∷ []);
}

transition_passes :
    validate_grounding_state_transition before after mapping_authorization
    ≡ ok (GroundingDimension.column_mapping ∷ [])
unfolding validate_grounding_state_transition changed_dimensions is_changed is_evaluated keep
    contains for_each
transition_passes = refl

state_transition_iff_example :
    (validate_grounding_state_transition before after mapping_authorization
      ≡ ok (changed_dimensions before after))
    ↔ IsAllowedDiff before after mapping_authorization
state_transition_iff_example = state_transition_iff before after mapping_authorization

runtime_passes :
    validate_grounding_runtime_transition digest runtime_before runtime_after
      (some mapping_authorization)
    ≡ ok runtime_after
unfolding validate_grounding_runtime_transition validate_grounding_state_transition
    changed_dimensions is_changed is_evaluated keep contains for_each
runtime_passes = refl

digests_differ : NoCollision digest before after
digests_differ h = cc

runtime_transition-ok_example :
    IsAllowedStep runtime_before runtime_after mapping_authorization
    × (runtime_after ≡ runtime_after)
runtime_transition-ok_example =
    runtime_transition-ok digest runtime_before runtime_after mapping_authorization digests_differ
      runtime_passes

allowed : IsAllowedStep runtime_before runtime_after mapping_authorization
unfolding changed_dimensions is_changed keep
allowed = record {
  same_stage = refl;
  diff = (transition-ok→IsAllowedDiff before after mapping_authorization transition_passes).0;
  revision = refl;
}

IsAllowedStep→ok_example :
    validate_grounding_runtime_transition digest runtime_before runtime_after
      (some mapping_authorization)
    ≡ ok runtime_after
IsAllowedStep→ok_example =
    IsAllowedStep→ok digest runtime_before runtime_after mapping_authorization digests_differ
      allowed

state_passes : validate_sql_grounding_state sql after context ≡ ok after
unfolding validate_sql_grounding_state for_each contains is_in_query query_texts is_substring all
    any is_bounded_text is_table_identifier matches_table_identifier has_control_token join
    ends_with_space check_expression parse_expression table_of_parts is_tight before_last_dot
    qualified_column_table only_statement check_table check_mapping fits check_knowledge keep
    resolve_columns resolve_column json_path_reference split_at_last_dot local_aliases
    starts_with_space check_json_node is_space validate_expression_identifiers
state_passes = refl

validate-ok→IsSupported_example : IsSupported sql after context × (after ≡ after)
validate-ok→IsSupported_example = validate-ok→IsSupported sql after context state_passes

IsSupported→validate-ok_example : validate_sql_grounding_state sql after context ≡ ok after
IsSupported→validate-ok_example =
    IsSupported→validate-ok sql after context
      (validate-ok→IsSupported sql after context state_passes).0
