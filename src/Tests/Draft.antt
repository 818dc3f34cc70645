-- ===== src/Tests/Draft.antt =====
-- A Draft stage, and the commit of a complete Draft.
use valibra.Models.Expressions.{
  has_control_token, local_aliases, before_last_dot, validate_expression_identifiers,
  resolve_column, table_of_parts, qualified_column_table, only_statement, split_at_last_dot,
  parse_expression, resolve_columns, check_json_node, json_path_reference,
}
use valibra.Models.State.{
  is_bounded_text, is_table_identifier, matches_table_identifier, is_some, make_runtime,
  all_dimensions_evaluated,
}
use valibra.Prelude.Text.{
  is_tight, ends_with_space, is_space, starts_with_space, is_substring, fits,
}
use valibra.Models.Validation.{
  check_expression, check_mapping, check_table, check_knowledge, validate_sql_grounding_state,
  validate_grounding_llm_response, is_in_query, query_texts,
}
use valibra.Prelude.{
  join, ◌≡◌, ◌⊎◌, refl, true, false, none, some, [], ◌∷◌, ok, for_each, contains, has_no_duplicates,
  keep, sorted, all, any, string_eq, if◌then◌else◌,
}
use valibra.Models.Vocabulary.{
  GroundingStage, FocusDimension, GroundingDimension, GroundingCheckStatus,
  GroundingClarificationRoute,
}
use valibra.Models.Types.{SqlGroundingState, GroundingRuntime}
use valibra.Models.Transition.{
  is_evaluated, changed_dimensions, is_changed, validate_grounding_state_transition,
  validate_grounding_runtime_transition,
}
use valibra.Models.Validation.Laws.{IsSupported, validate-ok→IsSupported}
use valibra.Models.Forms.{GroundingCheckResponse}
use valibra.Telemetry.{UpdateStatus, make_state_update, is_sha256}
use valibra.Updater.{GroundingCallKind, classify_grounding_input, TransportNormalization}
use valibra.Service.Outcome.{Externals, not_attempted_telemetry}
use valibra.Service.Commit.{commit_sql_grounding_draft, is_open_check}
use valibra.Service.Commit.Laws.{IsCommitted, commit-IsCommitted}
use valibra.Service.Commit.Succeeds.{commit-succeeds}
use valibra.Service.Draft.{
  SqlGroundingDraftStageResult, process_sql_grounding_draft_stage, draft_kind, accept_draft,
}
use valibra.Service.Draft.Laws.{IsDraftRefused, IsDraftOutcome, draft-IsDraftOutcome}
use valibra.Prelude.Json.{keys, get, json_beq}
use valibra.Service.Documents.{dump_state}
use valibra.Service.Stages.{
  make_authorization, materialize_stage_response, is_clarification_cycle,
  authorization_for_observation,
}
use valibra.Service.Attempt.{prepare_knowledge}
use valibra.Service.Repair.{validate_mapping_omission_phrases}
use valibra.Service.Diff.{validate_observation_specific_diff}
use valibra.Service.Scope.{validate_staged_response}
use valibra.Tests.Calls.{
  runtime, externals, o, context, response, proposal, digest_of_empty, digest_of_other,
  input_fields, sql, empty_state,
}

abbrev draft_result : SqlGroundingDraftStageResult
draft_result = record {
  runtime = record {
    grounding_revision = 5;
    stage = GroundingStage.initial_grounding;
    focus_dimension = FocusDimension.none;
    grounding_state = record empty_state { tables = some ("orders" ∷ []); join_keys = some [] };
  };
  llm_telemetry = not_attempted_telemetry externals "";
  state_update = record {
    observation_id = "obs_1";
    stage = GroundingStage.initial_grounding;
    status = UpdateStatus.accepted;
    old_state_sha256 = digest_of_empty;
    new_state_sha256 = digest_of_other;
    changed_dimensions = GroundingDimension.tables ∷ GroundingDimension.join_keys ∷ [];
    revision_before = 4;
    revision_after = 5;
    focus_before = FocusDimension.tables;
    focus_after = FocusDimension.none;
    error_type = none;
  };
  response = some response;
  transport_normalization = some TransportNormalization.unchanged;
  knowledge_omission_mapping_ignored = [];
  knowledge_preserved_by_default_refs = [];
  knowledge_retirement_audit_sidecar = none;
}

drafted :
    process_sql_grounding_draft_stage externals runtime o context input_fields proposal
    ≡ ok draft_result
unfolding process_sql_grounding_draft_stage classify_grounding_input any all keys contains get
    json_beq dump_state make_authorization has_no_duplicates prepare_knowledge accept_draft
    validate_mapping_omission_phrases materialize_stage_response is_clarification_cycle
    authorization_for_observation validate_grounding_state_transition keep changed_dimensions
    is_changed sorted is_evaluated for_each validate_observation_specific_diff
    validate_staged_response make_state_update fits is_sha256
drafted = refl

draft-IsDraftOutcome_example :
    IsDraftRefused externals runtime o context input_fields proposal draft_result
    ⊎ ((kind : GroundingCallKind) × (draft_kind externals runtime o context input_fields proposal
          ≡ ok kind)
        × IsDraftOutcome externals runtime o context input_fields proposal kind draft_result)
draft-IsDraftOutcome_example =
    draft-IsDraftOutcome externals runtime o context input_fields proposal drafted

abbrev complete_state : SqlGroundingState
complete_state = record {
  tables = some ("orders" ∷ []);
  join_keys = some [];
  column_mapping = some (record { phrase = "total"; targets = "orders.total" ∷ [] } ∷ []);
  domain_knowledge = some [];
}

abbrev pub draft : GroundingRuntime
draft = record runtime { grounding_state = complete_state }

abbrev pub short_digests : Externals
short_digests = record externals { sha256 = λ s. if is_some s.tables then "1" else "" }

abbrev pub final_check : GroundingCheckResponse
final_check = record {
  column_mapping = [];
  domain_knowledge = [];
  status = GroundingCheckStatus.complete;
  clarification_route = GroundingClarificationRoute.none;
  missing_information = none;
  next_tool = none;
}

abbrev pub committed : GroundingRuntime
committed = record runtime {
  grounding_revision = 5;
  focus_dimension = FocusDimension.none;
  grounding_state = complete_state;
}

supported : IsSupported sql complete_state context
unfolding validate_sql_grounding_state for_each contains is_in_query query_texts is_substring all
    any has_control_token local_aliases keep before_last_dot ends_with_space check_expression
    is_space starts_with_space validate_expression_identifiers resolve_column table_of_parts
    check_json_node is_bounded_text is_tight qualified_column_table matches_table_identifier
    is_table_identifier only_statement join check_mapping split_at_last_dot check_table
    parse_expression json_path_reference fits check_knowledge resolve_columns
supported = (validate-ok→IsSupported sql complete_state context refl).0

pub is_complete : all_dimensions_evaluated complete_state ≡ true
unfolding all_dimensions_evaluated
is_complete = refl

none_evaluated :
    (d : GroundingDimension)
    → is_evaluated empty_state d ≡ true
    → is_evaluated complete_state d ≡ true
unfolding is_evaluated
none_evaluated GroundingDimension.tables h = refl
none_evaluated GroundingDimension.join_keys h = refl
none_evaluated GroundingDimension.column_mapping h = refl
none_evaluated GroundingDimension.domain_knowledge h = refl

commit-succeeds_example :
    commit_sql_grounding_draft short_digests runtime draft context final_check ≡ ok committed
unfolding changed_dimensions keep is_changed
commit-succeeds_example =
    commit-succeeds short_digests runtime draft context supported (λ h. is_complete) final_check
      refl none_evaluated (λ h. cc) (λ h. cc)

pub committed_once :
    commit_sql_grounding_draft short_digests runtime draft context final_check ≡ ok committed
unfolding commit_sql_grounding_draft validate_sql_grounding_state for_each contains is_in_query
    query_texts any is_substring all validate_grounding_llm_response
    validate_grounding_state_transition keep changed_dimensions is_changed is_evaluated make_runtime
    validate_grounding_runtime_transition all_dimensions_evaluated has_control_token local_aliases
    before_last_dot validate_expression_identifiers resolve_column table_of_parts is_bounded_text
    is_tight qualified_column_table is_table_identifier only_statement join split_at_last_dot
    parse_expression fits resolve_columns
committed_once = refl

commit-IsCommitted_example :
    (is_open_check final_check ≡ false) × IsCommitted short_digests runtime draft context committed
commit-IsCommitted_example =
    commit-IsCommitted short_digests runtime draft context final_check committed_once
