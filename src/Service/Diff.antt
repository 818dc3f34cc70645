-- ===== src/Service/Diff.antt =====
-- service.py: `_validate_observation_specific_diff`, which every proposal must pass.
use valibra.Prelude.{
  String, Bool, true, false, not, ◌&&◌, ◌||◌, Option, none, some, List, [], is_empty, contains,
  option_eq, ◌!=◌, Result, ok, raise_if, ◌>>=◌, ◌>>◌, text_append, if◌then◌else◌,
}
use valibra.Prelude.Json.{Json, Fields, has_key}
use valibra.Models.Vocabulary.{GroundingDimension, focus_eq, dimension_eq}
use valibra.Models.Types.{Raised, GroundingRuntime}
use valibra.Models.State.{is_some}
use valibra.Models.Validation.{GroundingLlmResponse}
use valibra.Models.Forms.{GroundingCheckResponse}
use valibra.Observations.{ObservationType, type_text}
use valibra.Updater.{GroundingCallKind}
use valibra.Service.Scope.{fail, validate_check_route_and_repair_scope, validate_staged_response}

abbrev is_check : Option GroundingCallKind → Bool
is_check (some GroundingCallKind.check) = true
is_check _ = false

abbrev is_schema_or_metadata : ObservationType → Bool
is_schema_or_metadata ObservationType.schema = true
is_schema_or_metadata ObservationType.metadata = true
is_schema_or_metadata _ = false

-- The types that may not change the State outside a staged call.
abbrev is_inert : ObservationType → Bool
is_inert ObservationType.user_query = true
is_inert ObservationType.tool_error = true
is_inert ObservationType.user_answer = true
is_inert ObservationType.sql_execution = true
is_inert _ = false

-- The types that may not change the focus outside a staged call.
abbrev keeps_focus : ObservationType → Bool
keeps_focus ObservationType.tool_error = true
keeps_focus ObservationType.user_answer = true
keeps_focus ObservationType.sql_execution = true
keeps_focus ObservationType.submission = true
keeps_focus _ = false

abbrev is_submission : ObservationType → Bool
is_submission ObservationType.submission = true
is_submission _ = false

-- `new != ()`.
abbrev is_empty_list {ℓ} : {A : Type ℓ} → Option (List A) → Bool
is_empty_list (some []) = true
is_empty_list _ = false

module _ (loads : String → Option Json) where
  -- What only a staged call is asked.
  unfoldable pub validate_staged_diff :
      GroundingRuntime
      → GroundingLlmResponse
      → List GroundingDimension
      → Option GroundingCallKind
      → Option Fields
      → Option GroundingCheckResponse
      → Bool
      → Result Raised Unit
  validate_staged_diff runtime response changed none input form draft_cycle = ok tt
  validate_staged_diff runtime response changed (some kind) none form draft_cycle =
      validate_staged_response runtime response kind none draft_cycle
  validate_staged_diff runtime response changed (some kind) (some input) form draft_cycle = do
    _ ← validate_staged_response runtime response kind (some input) draft_cycle
    raise_if (is_check (some kind) && has_key "latest_user_answer" input && not (is_empty changed))
        (fail "Check latest_user_answer cannot directly change Grounding State")
    if is_check (some kind)
        then validate_check_route_and_repair_scope loads runtime.grounding_state
            response.sql_grounding_state (not (is_empty changed)) input form
        else ok tt

  -- What only a call outside the stages is asked.
  unfoldable pub validate_unstaged_diff :
      GroundingRuntime
      → ObservationType
      → GroundingLlmResponse
      → List GroundingDimension
      → Result Raised Unit
  validate_unstaged_diff runtime observation_type response changed = do
    raise_if (is_inert observation_type && not (is_empty changed))
        (fail (text_append (type_text observation_type) " cannot directly change Grounding State"))
    raise_if
        (keeps_focus observation_type && response.next_focus_dimension != runtime.focus_dimension)
        (fail (text_append (type_text observation_type) " cannot change Grounding focus"))
    raise_if (is_submission observation_type && not (is_empty changed))
        (fail "submission cannot change Grounding State")

  unfoldable pub validate_observation_specific_diff :
      GroundingRuntime
      → ObservationType
      → GroundingLlmResponse
      → List GroundingDimension
      → Option GroundingCallKind
      → Option Fields
      → Option GroundingCheckResponse
      → Bool
      → Result Raised Unit
  unfolding validate_staged_diff validate_unstaged_diff
  validate_observation_specific_diff runtime observation_type response changed kind input form
        draft_cycle =
      do
        _ ← validate_staged_diff runtime response changed kind input form draft_cycle
        raise_if
            (is_schema_or_metadata observation_type
              && contains GroundingDimension.domain_knowledge changed
              && (is_some runtime.grounding_state.domain_knowledge
                  || not (is_empty_list response.sql_grounding_state.domain_knowledge)))
            (fail (
              text_append (type_text observation_type)
                " can only resolve null domain_knowledge to []"))
        if is_some kind
            then ok tt
            else validate_unstaged_diff runtime observation_type response changed
