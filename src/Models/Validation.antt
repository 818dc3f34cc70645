-- ===== src/Models/Validation.antt =====
-- models.py: `validate_sql_grounding_state` and `validate_grounding_llm_response`.
pub mod Laws
use valibra.Prelude.{
  String, Bool, true, false, not, ◌&&◌, none, some, List, [], ◌∷◌, all, any, contains, text_append,
  string_eq, ◌==◌, ◌!=◌, Result, ok, raise_if, for_each, ◌>>=◌, ◌>>◌,
}
use valibra.Prelude.Text.{is_substring}
use valibra.Models.Vocabulary.{
  GroundingStage, FocusDimension, UserClarificationKind, stage_eq, focus_eq,
}
use valibra.Models.Types.{
  Raised, validation_error, ColumnMapping, DomainKnowledge, SqlGroundingState, ValidationContext,
  SqlExpressions, knowledge_eq,
}
use valibra.Models.Expressions.{validate_expression_identifiers}
use valibra.Models.State.{or_empty, all_dimensions_evaluated}

-- The field names are the source's; the phase and the answer are `UserClarificationRecord`'s.
pub record UserClarificationRequest : Type 0 where
  pub phrase : String
  pub kind : UserClarificationKind
  pub question : String

pub record GroundingLlmResponse : Type 0 where
  pub sql_grounding_state : SqlGroundingState
  pub user_clarification_requests : List UserClarificationRequest
  pub next_focus_dimension : FocusDimension

unfoldable pub query_texts : ValidationContext → List String
query_texts context = elim context.follow_up_query [
  | none ↦ context.current_query ∷ []
  | some follow_up ↦ context.current_query ∷ follow_up ∷ []
]

-- `any(phrase in source for source in context.query_texts)`.
unfoldable pub is_in_query : ValidationContext → String → Bool
unfolding query_texts
is_in_query context phrase = any (is_substring phrase) (query_texts context)

unfoldable pub check_table : ValidationContext → String → Result Raised Unit
check_table context table =
    raise_if (not (contains table context.known_tables))
      (validation_error (text_append "unknown table " table))

unfoldable pub check_knowledge : ValidationContext → DomainKnowledge → Result Raised Unit
check_knowledge context knowledge =
    raise_if (not (contains knowledge context.supported_domain_knowledge))
      (validation_error "domain knowledge lacks an allowed Official BIRD evidence source")

module _ (x : SqlExpressions) where
  -- One join key, or one target of a mapping: it names known columns of declared tables.
  unfoldable pub check_expression :
      SqlGroundingState → ValidationContext → Bool → String → String → Result Raised Unit
  check_expression state context relation message expression = do
    referenced ← validate_expression_identifiers x context relation expression
    raise_if (not (all (λ t. contains t (or_empty state.tables)) referenced))
        (validation_error message)

  unfoldable pub check_mapping :
      SqlGroundingState → ValidationContext → ColumnMapping → Result Raised Unit
  unfolding check_expression
  check_mapping state context mapping = do
    raise_if (not (is_in_query context mapping.phrase))
        (validation_error (text_append "phrase is not a verbatim query substring: " mapping.phrase))
    for_each
        (check_expression state context false
          "field expression references a table absent from State.tables")
        mapping.targets

  unfoldable pub validate_sql_grounding_state :
      SqlGroundingState → ValidationContext → Result Raised SqlGroundingState
  unfolding check_table check_mapping check_knowledge
  validate_sql_grounding_state state context = do
    for_each (check_table context) (or_empty state.tables)
    for_each
        (check_expression state context true
          "relation expression references a table absent from State.tables")
        (or_empty state.join_keys)
    for_each (check_mapping state context) (or_empty state.column_mapping)
    for_each (check_knowledge context) (or_empty state.domain_knowledge)
    ok state

  unfoldable pub validate_grounding_llm_response :
      GroundingLlmResponse → GroundingStage → ValidationContext → Result Raised GroundingLlmResponse
  unfolding validate_sql_grounding_state all_dimensions_evaluated
  validate_grounding_llm_response response stage context = do
    _ ← validate_sql_grounding_state response.sql_grounding_state context
    for_each
        (λ request.
          raise_if (not (is_in_query context request.phrase))
            (validation_error "clarification phrase is not a verbatim query substring"))
        response.user_clarification_requests
    let complete = all_dimensions_evaluated response.sql_grounding_state
    raise_if
        (stage == GroundingStage.initial_grounding
          && not complete
          && response.next_focus_dimension == FocusDimension.none)
        (validation_error "INITIAL_GROUNDING cannot return none while a dimension is null")
    raise_if
        (stage == GroundingStage.initial_grounding
          && complete
          && response.next_focus_dimension != FocusDimension.none)
        (validation_error "INITIAL_GROUNDING must return none after all dimensions are evaluated")
    ok response
