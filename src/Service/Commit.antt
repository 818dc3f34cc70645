-- ===== src/Service/Commit.antt =====
-- service.py: `commit_sql_grounding_draft`, which turns a private Draft into one formal revision.
pub mod Laws
pub mod Succeeds
use valibra.Prelude.{
  ◌+◌, Bool, not, ◌||◌, none, some, List, [], is_empty, Result, ok, raise_if, ◌>>=◌, ◌>>◌, to_int,
  string_eq, ◌!=◌,
}
use valibra.Models.Vocabulary.{
  FocusDimension, GroundingCheckStatus, GroundingClarificationRoute, grounding_dimensions,
  status_eq, route_eq,
}
use valibra.Models.Types.{Raised, GroundingRuntime, StateDiffAuthorization, ValidationContext}
use valibra.Models.State.{is_some, make_runtime}
use valibra.Models.Transition.{
  validate_grounding_state_transition, validate_grounding_runtime_transition,
}
use valibra.Models.Validation.{
  GroundingLlmResponse, validate_sql_grounding_state, validate_grounding_llm_response,
}
use valibra.Models.Forms.{GroundingCheckResponse}
use valibra.Service.Scope.{fail}
use valibra.Service.Outcome.{Externals}

-- `SQLGroundingDraftRuntime`: the fields of a Runtime, with no validator.
abbrev pub SqlGroundingDraftRuntime : Type 0
SqlGroundingDraftRuntime = GroundingRuntime

-- The final Check leaves something open.
abbrev pub is_open_check : GroundingCheckResponse → Bool
is_open_check final_check =
    final_check.status != GroundingCheckStatus.complete
    || final_check.clarification_route != GroundingClarificationRoute.none
    || is_some final_check.next_tool
    || is_some final_check.missing_information

abbrev pub draft_response : SqlGroundingDraftRuntime → GroundingLlmResponse
draft_response draft = record {
  sql_grounding_state = draft.grounding_state;
  user_clarification_requests = [];
  next_focus_dimension = FocusDimension.none;
}

-- Every dimension may change.
abbrev pub full_authorization : GroundingRuntime → StateDiffAuthorization
full_authorization formal = record {
  stage = formal.stage;
  authorized_dimensions = grounding_dimensions;
}

module _ (externals : Externals) where
  unfoldable pub commit_sql_grounding_draft :
      GroundingRuntime
      → SqlGroundingDraftRuntime
      → ValidationContext
      → GroundingCheckResponse
      → Result Raised GroundingRuntime
  commit_sql_grounding_draft formal draft context final_check = do
    raise_if (is_open_check final_check)
        (fail "atomic Draft commits only after a complete final Check")
    _ ← validate_sql_grounding_state externals.sql draft.grounding_state context
    _ ← validate_grounding_llm_response externals.sql (draft_response draft) formal.stage context
    changed ←
        validate_grounding_state_transition formal.grounding_state draft.grounding_state
          (full_authorization formal)
    candidate ←
        make_runtime (formal.grounding_revision + to_int (not (is_empty changed))) formal.stage
          FocusDimension.none draft.grounding_state
    validate_grounding_runtime_transition externals.sha256 formal candidate
        (some (full_authorization formal))
