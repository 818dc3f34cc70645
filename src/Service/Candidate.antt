-- ===== src/Service/Candidate.antt =====
-- service.py: the last checks of a materialized State, from the response contract to the Runtime's
-- revision.
pub mod Laws
use valibra.Prelude.{
  ◌+◌, false, not, Option, some, List, is_empty, Result, ok, ◌>>=◌, to_int, string_eq,
}
use valibra.Prelude.Json.{Fields}
use valibra.Models.Vocabulary.{GroundingDimension}
use valibra.Models.Types.{Raised, GroundingRuntime, ValidationContext}
use valibra.Models.State.{make_runtime}
use valibra.Models.Transition.{
  validate_grounding_state_transition, validate_grounding_runtime_transition,
}
use valibra.Models.Validation.{GroundingLlmResponse, validate_grounding_llm_response}
use valibra.Models.Forms.{GroundingCheckResponse}
use valibra.Observations.{SqlGroundingObservation}
use valibra.Updater.{GroundingCallKind}
use valibra.Service.Stages.{authorization_for_observation}
use valibra.Service.Diff.{validate_observation_specific_diff}
use valibra.Service.Outcome.{Externals}

module _ (externals : Externals) (runtime : GroundingRuntime) (o : SqlGroundingObservation)
    (context : ValidationContext) (affected : List GroundingDimension) (input : Option Fields) where
  -- The changed dimensions and the candidate Runtime.
  unfoldable pub accept_candidate :
      Option GroundingCallKind
      → GroundingLlmResponse
      → Option GroundingCheckResponse
      → Result Raised (List GroundingDimension × GroundingRuntime)
  accept_candidate kind m form = do
    _ ← validate_grounding_llm_response externals.sql m runtime.stage context
    authorization ← authorization_for_observation runtime.stage o.observation_type affected kind
    changed ←
        validate_grounding_state_transition runtime.grounding_state m.sql_grounding_state
          authorization
    _ ←
        validate_observation_specific_diff externals.loads runtime o.observation_type m changed kind
          input form false
    candidate ←
        make_runtime (runtime.grounding_revision + to_int (not (is_empty changed))) runtime.stage
          m.next_focus_dimension m.sql_grounding_state
    _ ←
        validate_grounding_runtime_transition externals.sha256 runtime candidate
          (some authorization)
    ok (changed, candidate)
