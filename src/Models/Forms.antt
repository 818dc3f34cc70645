-- ===== src/Models/Forms.antt =====
-- models.py: the stage-specific forms, each with the validation that pydantic runs when one is built
-- from its fields.
use valibra.Prelude.{
  String, Bool, true, false, not, ◌&&◌, ◌||◌, Option, none, some, List, [], ◌∷◌, map, leb, length,
  is_empty, all, any, contains, has_no_duplicates, sorted, string_eq, option_eq, ◌==◌, ◌!=◌, Result,
  ok, err, check, ◌>>=◌, if◌then◌else◌,
}
use valibra.Prelude.Text.{text_le, is_blank}
use valibra.Prelude.Json.{ℤ, pos, negsuc, int_eq}
use valibra.Models.Vocabulary.{
  UnresolvedMappingReason, UserClarificationKind, CheckRequirementType, GroundingCheckStatus,
  GroundingClarificationRoute, FinalRegroundingDecision, GroundingCheckToolName, status_eq,
  route_eq, tool_name_eq,
}
use valibra.Models.Types.{
  Raised, other_error, max_phrase_chars, max_knowledge_chars, max_column_mappings,
  max_domain_knowledge, max_clarification_question_chars, ColumnMapping, DomainKnowledge,
  SqlExpressions,
}
use valibra.Models.State.{
  is_bounded_text, is_some, optional, validate_tables, validate_join_keys, validate_column_mappings,
  validate_domain_knowledge,
}
use valibra.Models.Expressions.{has_control_token}
use valibra.Models.Validation.{UserClarificationRequest, GroundingLlmResponse}

pub record UnresolvedMapping : Type 0 where
  pub phrase : String
  pub reason : UnresolvedMappingReason

pub record StructureGroundingResponse : Type 0 where
  pub tables : List String
  pub join_keys : List String

pub record MappingGroundingResponse : Type 0 where
  pub tables : List String
  pub join_keys : List String
  pub column_mapping : List ColumnMapping
  pub unresolved_mappings : List UnresolvedMapping

pub record KnowledgeGroundingResponse : Type 0 where
  pub column_mapping : List ColumnMapping
  pub selected_knowledge_ids : List ℤ

pub record GroundingCheckClarificationProposal : Type 0 where
  pub phrase : String
  pub kind : UserClarificationKind
  pub requirement_type : Option CheckRequirementType
  pub related_mapping_phrases : List String

pub record GroundingCheckToolRequest : Type 0 where
  pub tool_name : GroundingCheckToolName
  pub arguments : List (String × String)
  pub user_clarification_request : Option GroundingCheckClarificationProposal

pub record GroundingCheckResponse : Type 0 where
  pub status : GroundingCheckStatus
  pub clarification_route : GroundingClarificationRoute
  pub missing_information : Option String
  pub next_tool : Option GroundingCheckToolRequest
  pub column_mapping : List ColumnMapping
  pub domain_knowledge : List DomainKnowledge

pub record FinalRegroundingGateResponse : Type 0 where
  pub decision : FinalRegroundingDecision
  pub reason : String

-- `GroundingLLMResponse | StageGroundingResponse`.
pub data GroundingResponse : Type 0 where
  whole : GroundingLlmResponse → GroundingResponse
  structure : StructureGroundingResponse → GroundingResponse
  mapping : MappingGroundingResponse → GroundingResponse
  knowledge : KnowledgeGroundingResponse → GroundingResponse
  check_form : GroundingCheckResponse → GroundingResponse
  final_gate : FinalRegroundingGateResponse → GroundingResponse

-- What the forms ask of code outside the repository: `asks_for_database_implementation` searches by
-- the regular expressions of `re`, and `is_plain_select` is the check of `execute_sql` by `sqlglot`:
-- the text parses to one `SELECT` without `*`.
pub record FormTexts : Type 0 where
  pub asks_for_database_implementation : String → Bool
  pub is_plain_select : String → Bool

unfoldable pub make_unresolved_mapping :
    String → UnresolvedMappingReason → Result Raised UnresolvedMapping
make_unresolved_mapping phrase reason =
    check (is_bounded_text max_phrase_chars phrase) other_error
      (record { phrase = phrase; reason = reason })

abbrev pub unresolved_phrases : List UnresolvedMapping → List String
unresolved_phrases us = map (λ u. u.phrase) us

abbrev pub unresolved_le : UnresolvedMapping → UnresolvedMapping → Bool
unresolved_le a b = text_le a.phrase b.phrase

unfoldable pub validate_unresolved_mappings :
    List UnresolvedMapping → Result Raised (List UnresolvedMapping)
validate_unresolved_mappings value =
    check (leb (length value) max_column_mappings && has_no_duplicates (unresolved_phrases value))
      other_error (sorted unresolved_le value)

abbrev pub int_le : ℤ → ℤ → Bool
int_le (pos a) (pos b) = leb a b
int_le (negsuc a) (negsuc b) = leb b a
int_le (negsuc _) (pos _) = true
int_le (pos _) (negsuc _) = false

unfoldable pub make_knowledge_response :
    List ColumnMapping → List ℤ → Result Raised KnowledgeGroundingResponse
make_knowledge_response column_mapping ids = do
  ms ← validate_column_mappings column_mapping
  check (leb (length ids) max_domain_knowledge && has_no_duplicates ids) other_error
      (record { column_mapping = ms; selected_knowledge_ids = sorted int_le ids })

module _ (x : SqlExpressions) where
  unfoldable pub make_structure_response :
      List String → List String → Result Raised StructureGroundingResponse
  make_structure_response tables join_keys = do
    ts ← validate_tables tables
    js ← validate_join_keys x join_keys
    ok (record { tables = ts; join_keys = js })

  -- The last check is `validate_mapping_partition`.
  unfoldable pub make_mapping_response :
      List String
      → List String
      → List ColumnMapping
      → List UnresolvedMapping
      → Result Raised MappingGroundingResponse
  make_mapping_response tables join_keys column_mapping unresolved_mappings = do
    ts ← validate_tables tables
    js ← validate_join_keys x join_keys
    ms ← validate_column_mappings column_mapping
    us ← validate_unresolved_mappings unresolved_mappings
    check (not (any (λ m. contains m.phrase (unresolved_phrases us)) ms)) other_error
        (record { tables = ts; join_keys = js; column_mapping = ms; unresolved_mappings = us })

unfoldable pub make_clarification_proposal :
    String
    → UserClarificationKind
    → Option CheckRequirementType
    → List String
    → Result Raised GroundingCheckClarificationProposal
make_clarification_proposal phrase kind requirement_type related =
    check
      (is_bounded_text max_phrase_chars phrase
        && leb (length related) max_column_mappings
        && all (is_bounded_text max_phrase_chars) related
        && has_no_duplicates related
        && (if is_some requirement_type then not (is_empty related) else is_empty related))
      other_error
      (record {
        phrase = phrase;
        kind = kind;
        requirement_type = requirement_type;
        related_mapping_phrases = related;
      })

unfoldable pub argument : String → List (String × String) → Option String
argument name [] = none
argument name ((key, value) ∷ rest) = if key == name then some value else argument name rest

abbrev pub required_arguments : GroundingCheckToolName → List String
required_arguments GroundingCheckToolName.ask_user = "question" ∷ []
required_arguments GroundingCheckToolName.get_column_meaning = "table_name" ∷ "column_name" ∷ []
required_arguments GroundingCheckToolName.get_all_external_knowledge_names = []
required_arguments GroundingCheckToolName.get_knowledge_definition = "knowledge_name" ∷ []
required_arguments GroundingCheckToolName.execute_sql = "sql" ∷ []

-- `set(a) == set(b)`.
abbrev pub is_same_set : List String → List String → Bool
is_same_set a b = all (λ k. contains k b) a && all (λ k. contains k a) b

module _ (f : FormTexts) where
  unfoldable pub make_clarification_request :
      String → UserClarificationKind → String → Result Raised UserClarificationRequest
  make_clarification_request phrase kind question =
      check
        (is_bounded_text max_phrase_chars phrase
          && is_bounded_text max_clarification_question_chars question
          && not (f.asks_for_database_implementation question))
        other_error (record { phrase = phrase; kind = kind; question = question })

  -- A missing `question` is a `KeyError`.
  unfoldable pub materialize_user_clarification_request :
      GroundingCheckToolRequest → Result Raised (Option UserClarificationRequest)
  materialize_user_clarification_request tool = elim tool.user_clarification_request [
    | none ↦ ok none
    | some clarification ↦
        if tool.tool_name != GroundingCheckToolName.ask_user
        then ok none
        else elim (argument "question" tool.arguments) [
          | none ↦ err other_error
          | some question ↦
              make_clarification_request clarification.phrase clarification.kind question
              >>= λ request. ok (some request)
        ]
  ]

  abbrev passes_execute_sql : GroundingCheckToolRequest → Bool
  passes_execute_sql tool = elim (argument "sql" tool.arguments) [
    | none ↦ false
    | some sql ↦ not (has_control_token sql) && f.is_plain_select sql
  ]

  unfoldable pub make_tool_request :
      GroundingCheckToolName
      → List (String × String)
      → Option GroundingCheckClarificationProposal
      → Result Raised GroundingCheckToolRequest
  make_tool_request tool_name arguments clarification = do
    let tool : GroundingCheckToolRequest = record {
      tool_name = tool_name;
      arguments = arguments;
      user_clarification_request = clarification;
    }
    _ ←
        check
          (is_same_set (map (λ a. a.0) arguments) (required_arguments tool_name)
            && all (λ a. is_bounded_text max_knowledge_chars a.1) arguments)
          other_error tt
    _ ←
        check
          (if tool_name == GroundingCheckToolName.ask_user
            then is_some clarification
            else not (is_some clarification))
          other_error tt
    _ ← materialize_user_clarification_request tool
    check (tool_name != GroundingCheckToolName.execute_sql || passes_execute_sql tool) other_error
        tool

-- `normalize_complete_blank_missing_information`.
unfoldable pub normalize_missing_information : GroundingCheckStatus → Option String → Option String
normalize_missing_information status none = none
normalize_missing_information status (some text) =
    if status == GroundingCheckStatus.complete && is_blank text then none else some text

abbrev pub is_control_route : GroundingClarificationRoute → Bool
is_control_route route =
    route == GroundingClarificationRoute.restart_grounding
    || route == GroundingClarificationRoute.terminal

-- `validate_decision` does not raise.
unfoldable pub is_consistent_decision : GroundingCheckResponse → Bool
is_consistent_decision r =
    (not (is_control_route r.clarification_route)
      || (r.status == GroundingCheckStatus.incomplete && not (is_some r.next_tool)))
    && (if r.status == GroundingCheckStatus.complete
        then not (is_some r.missing_information) && not (is_some r.next_tool)
        else is_some r.missing_information)

unfoldable pub make_check_response :
    GroundingCheckStatus
    → GroundingClarificationRoute
    → Option String
    → Option GroundingCheckToolRequest
    → List ColumnMapping
    → List DomainKnowledge
    → Result Raised GroundingCheckResponse
unfolding is_consistent_decision normalize_missing_information
make_check_response status route missing next_tool column_mapping domain_knowledge = do
  gap ←
      optional
        (λ text. check (is_bounded_text max_clarification_question_chars text) other_error text)
        (normalize_missing_information status missing)
  ms ← validate_column_mappings column_mapping
  ks ← validate_domain_knowledge domain_knowledge
  let response : GroundingCheckResponse = record {
    status = status;
    clarification_route = route;
    missing_information = gap;
    next_tool = next_tool;
    column_mapping = ms;
    domain_knowledge = ks;
  }
  check (is_consistent_decision response) other_error response
