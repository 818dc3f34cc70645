-- ===== src/Models/Transition.antt =====
-- models.py: `validate_grounding_state_transition` and `validate_grounding_runtime_transition`.
pub mod Laws
pub mod Runtime
use valibra.Prelude.{
  ◌+◌, Bool, not, ◌&&◌, ◌||◌, Option, none, some, List, [], map, is_empty, keep, contains, join,
  text_append, string_eq, nat_eq, list_eq, option_eq, ◌==◌, ◌!=◌, Eq, Result, ok, raise_if,
  for_each, ◌>>=◌, ◌>>◌, to_int,
}
use valibra.Models.Vocabulary.{
  GroundingStage, GroundingDimension, stage_eq, stage_text, dimension_eq, dimension_text,
  grounding_dimensions,
}
use valibra.Models.Types.{
  Raised, validation_error, SqlGroundingState, GroundingRuntime, StateDiffAuthorization, mapping_eq,
  knowledge_eq,
}
use valibra.Models.State.{is_some}

-- `getattr(previous, dimension) != getattr(candidate, dimension)`.
unfoldable pub is_changed : SqlGroundingState → SqlGroundingState → GroundingDimension → Bool
is_changed p c GroundingDimension.tables = p.tables != c.tables
is_changed p c GroundingDimension.join_keys = p.join_keys != c.join_keys
is_changed p c GroundingDimension.column_mapping = p.column_mapping != c.column_mapping
is_changed p c GroundingDimension.domain_knowledge = p.domain_knowledge != c.domain_knowledge

unfoldable pub is_evaluated : SqlGroundingState → GroundingDimension → Bool
is_evaluated s GroundingDimension.tables = is_some s.tables
is_evaluated s GroundingDimension.join_keys = is_some s.join_keys
is_evaluated s GroundingDimension.column_mapping = is_some s.column_mapping
is_evaluated s GroundingDimension.domain_knowledge = is_some s.domain_knowledge

abbrev pub is_frozen_stage : GroundingStage → Bool
is_frozen_stage stage = stage == GroundingStage.sql_attempt || stage == GroundingStage.done

unfoldable pub changed_dimensions : SqlGroundingState → SqlGroundingState → List GroundingDimension
changed_dimensions p c = keep (is_changed p c) grounding_dimensions

-- The loop's body: an evaluated dimension may not become null.
unfoldable pub refuse_regression :
    SqlGroundingState → SqlGroundingState → GroundingDimension → Result Raised Unit
refuse_regression p c dimension =
    raise_if (is_evaluated p dimension && not (is_evaluated c dimension)) (
      validation_error
        (text_append (dimension_text dimension) " cannot regress from evaluated to null"))

unfoldable pub validate_grounding_state_transition :
    SqlGroundingState
    → SqlGroundingState
    → StateDiffAuthorization
    → Result Raised (List GroundingDimension)
unfolding refuse_regression
validate_grounding_state_transition previous candidate authorization = do
  let changed = changed_dimensions previous candidate
  let unauthorized = keep (λ d. not (contains d authorization.authorized_dimensions)) changed
  raise_if (not (is_empty unauthorized)) (
      validation_error (
        text_append "State changes an unauthorized dimension: "
          (join ", " (map dimension_text unauthorized))))
  raise_if (is_frozen_stage authorization.stage && not (is_empty changed)) (
      validation_error (
        text_append (stage_text authorization.stage) " does not authorize Grounding State changes"))
  for_each (refuse_regression previous candidate) changed
  ok changed

-- `authorization or StateDiffAuthorization(stage=previous.stage)`.
abbrev pub effective_authorization :
    GroundingRuntime → Option StateDiffAuthorization → StateDiffAuthorization
effective_authorization previous none = record {
  stage = previous.stage;
  authorized_dimensions = [];
}
effective_authorization previous (some authorization) = authorization

-- The digests are compared as `sql_grounding_state_sha256` gives them: a parameter, since SHA-256
-- and the JSON encoder are no code of the repository.
module _ {Digest : Type 0} ⦃e : Eq Digest⦄ (sha256 : SqlGroundingState → Digest) where
  -- `none` for the authorization is the default, which authorizes nothing.
  unfoldable pub validate_grounding_runtime_transition :
      GroundingRuntime
      → GroundingRuntime
      → Option StateDiffAuthorization
      → Result Raised GroundingRuntime
  validate_grounding_runtime_transition previous current authorization = do
    let effective = effective_authorization previous authorization
    raise_if (effective.stage != previous.stage)
        (validation_error "State diff authorization stage must match the previous Runtime stage")
    changed ←
        validate_grounding_state_transition previous.grounding_state current.grounding_state
          effective
    let state_changed = sha256 previous.grounding_state != sha256 current.grounding_state
    raise_if (current.grounding_revision != previous.grounding_revision + to_int state_changed) (
        validation_error
          "grounding_revision must increase exactly once iff canonical State changes")
    ok current
