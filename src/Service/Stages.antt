-- ===== src/Service/Stages.antt =====
-- service.py: merging one stage form into a complete candidate State, and what each stage may change.
use valibra.Prelude.{
  String, Bool, true, false, ◌&&◌, ◌||◌, Option, none, some, List, [], ◌∷◌, has_no_duplicates,
  sorted, string_eq, ◌==◌, Result, ok, err, check, ◌>>=◌,
}
use valibra.Prelude.Json.{Fields, get, is_truthy}
use valibra.Models.Vocabulary.{
  GroundingStage, FocusDimension, GroundingDimension, stage_eq, dimension_eq,
}
use valibra.Models.Types.{
  Raised, validation_error, other_error, DomainKnowledge, SqlGroundingState, GroundingRuntime,
  StateDiffAuthorization, SqlExpressions,
}
use valibra.Models.State.{all_dimensions_evaluated, make_state}
use valibra.Models.Validation.{GroundingLlmResponse}
use valibra.Models.Forms.{
  GroundingResponse, StructureGroundingResponse, MappingGroundingResponse,
  KnowledgeGroundingResponse, GroundingCheckResponse,
}
use valibra.Observations.{ObservationType}
use valibra.Updater.{GroundingCallKind}
use valibra.Service.Knowledge.{materialize_knowledge_update, validate_knowledge_mapping_mutation}

abbrev pub is_truthy_field : String → Option Fields → Bool
is_truthy_field key none = false
is_truthy_field key (some input) = elim (get key input) [
  | none ↦ false
  | some value ↦ is_truthy value
]

-- The State is complete and the input brings answers of the user, or a Draft is being built.
unfoldable pub is_clarification_cycle : GroundingRuntime → Option Fields → Bool → Bool
unfolding get
is_clarification_cycle runtime input draft_cycle =
    draft_cycle
    || (runtime.stage == GroundingStage.initial_grounding
        && all_dimensions_evaluated runtime.grounding_state
        && is_truthy_field "user_clarifications" input)

abbrev focus_after : Bool → FocusDimension → FocusDimension
focus_after true next = FocusDimension.none
focus_after false next = next

-- The complete State and the next focus, with no clarification requests.
abbrev materialized : SqlGroundingState → FocusDimension → GroundingLlmResponse
materialized state focus = record {
  sql_grounding_state = state;
  user_clarification_requests = [];
  next_focus_dimension = focus;
}

-- `old.model_copy(update=…)`, which runs no validator.
unfoldable pub structure_update : SqlGroundingState → StructureGroundingResponse → SqlGroundingState
structure_update old r = record old { tables = some r.tables; join_keys = some r.join_keys }

unfoldable pub mapping_update : SqlGroundingState → MappingGroundingResponse → SqlGroundingState
mapping_update old r = record old {
  tables = some r.tables;
  join_keys = some r.join_keys;
  column_mapping = some r.column_mapping;
}

unfoldable pub check_update : SqlGroundingState → GroundingCheckResponse → SqlGroundingState
check_update old r = record old {
  column_mapping = some r.column_mapping;
  domain_knowledge = some r.domain_knowledge;
}

module _ (x : SqlExpressions) (semantic_ref : DomainKnowledge → String) where
  -- The Knowledge stage alone builds a new State, which validates it.
  unfoldable pub knowledge_update :
      SqlGroundingState
      → KnowledgeGroundingResponse
      → Option Fields
      → Result Raised SqlGroundingState
  knowledge_update old response input = do
    _ ← validate_knowledge_mapping_mutation old response
    update ← materialize_knowledge_update semantic_ref old response input
    make_state x old.tables old.join_keys (some response.column_mapping) (some update.0)

  unfoldable pub materialize_stage_response :
      GroundingRuntime
      → GroundingResponse
      → Option GroundingCallKind
      → Option Fields
      → Bool
      → Result Raised GroundingLlmResponse
  unfolding structure_update mapping_update check_update
  materialize_stage_response runtime (GroundingResponse.whole r) kind input draft_cycle = ok r
  materialize_stage_response runtime (GroundingResponse.structure r)
        (some GroundingCallKind.structure) input draft_cycle =
      ok (
        materialized (structure_update runtime.grounding_state r) (
          focus_after (is_clarification_cycle runtime input draft_cycle)
            FocusDimension.column_mapping))
  materialize_stage_response runtime (GroundingResponse.mapping r) (some GroundingCallKind.mapping)
        input draft_cycle =
      ok (
        materialized (mapping_update runtime.grounding_state r) (
          focus_after (is_clarification_cycle runtime input draft_cycle)
            FocusDimension.domain_knowledge))
  materialize_stage_response runtime (GroundingResponse.knowledge r)
        (some GroundingCallKind.knowledge) input draft_cycle =
      do
        state ← knowledge_update runtime.grounding_state r input
        ok (materialized state FocusDimension.none)
  materialize_stage_response runtime (GroundingResponse.check_form r) (some GroundingCallKind.check)
        input draft_cycle =
      ok (materialized (check_update runtime.grounding_state r) FocusDimension.none)
  materialize_stage_response _ _ _ _ _ =
      err (validation_error "stage response does not match call kind")

abbrev pub dimension_order : GroundingDimension → GroundingDimension → Bool
dimension_order GroundingDimension.tables _ = true
dimension_order GroundingDimension.join_keys GroundingDimension.tables = false
dimension_order GroundingDimension.join_keys _ = true
dimension_order GroundingDimension.column_mapping GroundingDimension.tables = false
dimension_order GroundingDimension.column_mapping GroundingDimension.join_keys = false
dimension_order GroundingDimension.column_mapping _ = true
dimension_order GroundingDimension.domain_knowledge GroundingDimension.domain_knowledge = true
dimension_order GroundingDimension.domain_knowledge _ = false

-- `StateDiffAuthorization(…)`: no duplicates, and the canonical order.
unfoldable pub make_authorization :
    GroundingStage → List GroundingDimension → Result Raised StateDiffAuthorization
make_authorization stage dimensions =
    check (has_no_duplicates dimensions) other_error
      (record { stage = stage; authorized_dimensions = sorted dimension_order dimensions })

-- `dimensions_by_kind`; a missing key is a `KeyError`.
abbrev pub dimensions_by_kind : GroundingCallKind → Option (List GroundingDimension)
dimensions_by_kind GroundingCallKind.structure =
    some (GroundingDimension.tables ∷ GroundingDimension.join_keys ∷ [])
dimensions_by_kind GroundingCallKind.mapping = some (
    GroundingDimension.tables ∷ GroundingDimension.join_keys ∷ GroundingDimension.column_mapping
    ∷ [])
dimensions_by_kind GroundingCallKind.knowledge =
    some (GroundingDimension.column_mapping ∷ GroundingDimension.domain_knowledge ∷ [])
dimensions_by_kind GroundingCallKind.check =
    some (GroundingDimension.column_mapping ∷ GroundingDimension.domain_knowledge ∷ [])
dimensions_by_kind GroundingCallKind.final_gate = none

abbrev pub dimensions_by_type : ObservationType → List GroundingDimension → List GroundingDimension
dimensions_by_type ObservationType.schema affected =
    GroundingDimension.tables ∷ GroundingDimension.join_keys ∷ GroundingDimension.column_mapping
    ∷ GroundingDimension.domain_knowledge ∷ []
dimensions_by_type ObservationType.metadata affected =
    GroundingDimension.column_mapping ∷ GroundingDimension.domain_knowledge ∷ []
dimensions_by_type ObservationType.knowledge affected = GroundingDimension.domain_knowledge ∷ []
dimensions_by_type ObservationType.p2_follow_up affected = affected
dimensions_by_type _ affected = []

unfoldable pub authorization_for_observation :
    GroundingStage
    → ObservationType
    → List GroundingDimension
    → Option GroundingCallKind
    → Result Raised StateDiffAuthorization
unfolding make_authorization
authorization_for_observation stage observation_type affected none =
    make_authorization stage (dimensions_by_type observation_type affected)
authorization_for_observation stage observation_type affected (some kind) =
    elim (dimensions_by_kind kind) [
      | none ↦ err other_error
      | some dimensions ↦ make_authorization stage dimensions
    ]
