-- ===== src/Service/Scope.antt =====
-- service.py: the limits on what one observation and one stage form may change.
pub mod Laws
use valibra.Prelude.{
  ℕ, ◌+◌, String, Bool, false, not, ◌&&◌, ◌||◌, Option, none, some, List, [], ◌∷◌, ◌++◌, leb,
  length, is_empty, all, any, keep, contains, distinct, string_eq, list_eq, option_eq, ◌==◌, ◌!=◌,
  Result, ok, err, raise_if, ◌>>=◌, ◌>>◌, if◌then◌else◌, to_int, text_append,
}
use valibra.Prelude.Text.{starts_with_space, ends_with_space}
use valibra.Prelude.Json.{Json, Fields, null, text, arr, nil, cons, obj, get, has_key}
use valibra.Models.Vocabulary.{
  FocusDimension, DomainKnowledgeKind, GroundingCheckStatus, GroundingClarificationRoute, focus_eq,
  dimension_eq, status_eq, route_eq, focus_text,
}
use valibra.Models.Types.{
  Raised, validation_error, ColumnMapping, DomainKnowledge, SqlGroundingState, GroundingRuntime,
  mapping_eq, knowledge_eq,
}
use valibra.Models.State.{or_empty, is_some, phrases, all_dimensions_evaluated}
use valibra.Models.Validation.{GroundingLlmResponse}
use valibra.Models.Forms.{GroundingCheckResponse}
use valibra.Updater.{GroundingCallKind}
use valibra.Service.Stages.{is_clarification_cycle}

abbrev pub fail : String → Raised
fail message = validation_error message

-- `definition` is a text with no outer whitespace; the empty text counts.
abbrev exact_definition : Fields → Option String
exact_definition fields = elim (get "definition" fields) [
  | some (text s) ↦ if not (starts_with_space s) && not (ends_with_space s) then some s else none
  | _ ↦ none
]

abbrev nested_definition : Fields → Option String
nested_definition fields = elim (exact_definition fields) [
  | some s ↦ some s
  | none ↦ elim (get "knowledge" fields) [ some (obj nested) ↦ exact_definition nested | _ ↦ none ]
]

-- What `json.loads` makes of a text result; a text that is no JSON stays a text.
abbrev decoded : (String → Option Json) → Option Json → Option Json
decoded loads (some (text s)) = elim (loads s) [ some value ↦ some value | none ↦ some (text s) ]
decoded loads other = other

-- The value of `{item.phrase: item for item in items}` at a phrase: the last one counts.
unfoldable pub find_mapping : String → List ColumnMapping → Option ColumnMapping
find_mapping phrase [] = none
find_mapping phrase (m ∷ ms) = elim (find_mapping phrase ms) [
  | some found ↦ some found
  | none ↦ if m.phrase == phrase then some m else none
]

unfoldable pub count_where {ℓ} : {A : Type ℓ} → (A → Bool) → List A → ℕ
count_where p [] = 0
count_where p (a ∷ rest) = to_int (p a) + count_where p rest

-- `_column_mapping_change_count`.
unfoldable pub column_mapping_change_count : List ColumnMapping → List ColumnMapping → ℕ
column_mapping_change_count old new =
    count_where (λ phrase. find_mapping phrase old != find_mapping phrase new)
      (distinct (phrases old ++ phrases new))

-- Evidence of one column's meaning.
unfoldable pub check_column_meaning : SqlGroundingState → SqlGroundingState → Result Raised Unit
check_column_meaning old new = do
  raise_if (new.domain_knowledge != old.domain_knowledge)
      (fail "column meaning evidence cannot change domain_knowledge")
  raise_if
      (any (λ p. not (contains p (phrases (or_empty old.column_mapping))))
        (phrases (or_empty new.column_mapping)))
      (fail "column meaning evidence cannot create a new mapping phrase")
  raise_if
      (leb 2
        (column_mapping_change_count (or_empty old.column_mapping) (or_empty new.column_mapping)))
      (fail "one column meaning may repair at most one mapping phrase")

-- `new_knowledge - old_knowledge`, as a set.
unfoldable pub added_knowledge : SqlGroundingState → SqlGroundingState → List DomainKnowledge
added_knowledge old new =
    distinct
      (keep (λ k. not (contains k (or_empty old.domain_knowledge))) (or_empty new.domain_knowledge))

abbrev exactly_rule : String → DomainKnowledge → Bool
exactly_rule definition k =
    k == record { kind = DomainKnowledgeKind.business_rule; content = definition }

module _ (loads : String → Option Json) where
  -- `_latest_official_knowledge_definition`; `loads` is `json.loads`, `none` where it raises.
  unfoldable pub latest_official_definition : Fields → Result Raised String
  latest_official_definition latest_tool = elim (decoded loads (get "result" latest_tool)) [
    | some (obj fields) ↦ elim (nested_definition fields) [
      | some s ↦ ok s
      | none ↦ err (fail "latest knowledge definition is missing an exact Official definition")
    ]
    | _ ↦ err (fail "latest knowledge definition is missing an exact Official definition")
  ]

  -- Evidence of one knowledge definition: at most its own rule is added, and nothing is lost.
  unfoldable pub check_knowledge_definition :
      Fields → SqlGroundingState → SqlGroundingState → Result Raised Unit
  check_knowledge_definition latest_tool old new = do
    raise_if (new.column_mapping != old.column_mapping)
        (fail "knowledge definition evidence cannot change column_mapping")
    let added = added_knowledge old new
    raise_if
        (any (λ k. not (contains k (or_empty new.domain_knowledge))) (or_empty old.domain_knowledge)
          || leb 2 (length added))
        (fail "one knowledge definition may only preserve or add its exact Official rule")
    if is_empty added then ok tt else do
      definition ← latest_official_definition latest_tool
      raise_if (not (all (exactly_rule definition) added))
          (fail "Check domain_knowledge must materialize the exact latest Official definition")

  abbrev is_tool : String → Fields → Bool
  is_tool name latest_tool = elim (get "name" latest_tool) [ some (text s) ↦ s == name | _ ↦ false ]

  -- The evidence is the latest tool result.
  unfoldable pub check_latest_tool :
      SqlGroundingState → SqlGroundingState → Bool → Option Json → Result Raised Unit
  check_latest_tool old new changed (some (obj latest_tool)) =
      if is_tool "get_column_meaning" latest_tool
      then check_column_meaning old new
      else (if is_tool "get_knowledge_definition" latest_tool
          then check_knowledge_definition latest_tool old new
          else raise_if changed (fail "this Check evidence source cannot change Grounding State"))
  check_latest_tool old new changed none =
      raise_if changed
        (fail "initial Check cannot change Grounding State without new Official evidence")
  check_latest_tool old new changed (some null) =
      raise_if changed
        (fail "initial Check cannot change Grounding State without new Official evidence")
  check_latest_tool old new changed (some _) = err (fail "Check latest_tool must be a mapping")

  -- The carrier is a list, and an empty one where the Check is complete.
  unfoldable pub check_carrier : Fields → GroundingCheckResponse → Result Raised Unit
  check_carrier input form = elim (get "unresolved_mappings" input) [
    | some (arr nil) ↦ ok tt
    | some (arr (cons _ _)) ↦
        raise_if (form.status == GroundingCheckStatus.complete)
          (fail "Check cannot complete while unresolved_mappings is non-empty")
    | _ ↦ err (fail "Check requires the read-only unresolved_mappings carrier")
  ]

  -- `_validate_check_route_and_repair_scope`; without a typed form it returns at once.
  unfoldable pub validate_check_route_and_repair_scope :
      SqlGroundingState
      → SqlGroundingState
      → Bool
      → Fields
      → Option GroundingCheckResponse
      → Result Raised Unit
  unfolding check_carrier check_latest_tool check_column_meaning check_knowledge_definition
  validate_check_route_and_repair_scope old new changed input none = ok tt
  validate_check_route_and_repair_scope old new changed input (some form) = do
    _ ← check_carrier input form
    let answered = has_key "latest_user_answer" input
    let unrouted = form.clarification_route == GroundingClarificationRoute.none
    raise_if (answered && unrouted)
        (fail "Check latest_user_answer requires one clarification route")
    raise_if (not answered && not unrouted)
        (fail "clarification route is legal only for latest_user_answer")
    if answered then ok tt else check_latest_tool old new changed (get "latest_tool" input)

abbrev expected_focus : GroundingCallKind → Bool → FocusDimension
expected_focus GroundingCallKind.structure false = FocusDimension.column_mapping
expected_focus GroundingCallKind.mapping false = FocusDimension.domain_knowledge
expected_focus _ _ = FocusDimension.none

-- The dimensions that each stage must evaluate and must leave alone.
unfoldable pub validate_stage_dimensions :
    SqlGroundingState → SqlGroundingState → GroundingCallKind → Result Raised Unit
validate_stage_dimensions old new GroundingCallKind.structure = do
  raise_if (not (is_some new.tables && is_some new.join_keys))
      (fail "Structure Grounding must evaluate tables and join_keys")
  raise_if
      (new.column_mapping != old.column_mapping || new.domain_knowledge != old.domain_knowledge)
      (fail "Structure Grounding cannot change mapping or knowledge")
validate_stage_dimensions old new GroundingCallKind.mapping = do
  raise_if (not (is_some new.tables && is_some new.join_keys && is_some new.column_mapping))
      (fail "Mapping Grounding must evaluate structure and column_mapping")
  raise_if (new.domain_knowledge != old.domain_knowledge)
      (fail "Mapping Grounding cannot change domain_knowledge")
validate_stage_dimensions old new GroundingCallKind.knowledge = do
  raise_if (not (all_dimensions_evaluated new))
      (fail "Knowledge Grounding must complete all four dimensions")
  raise_if (new.tables != old.tables || new.join_keys != old.join_keys)
      (fail "Knowledge Grounding cannot change tables or join_keys")
validate_stage_dimensions old new _ = do
  raise_if (not (all_dimensions_evaluated new)) (fail "Check requires a complete State")
  raise_if (new.tables != old.tables || new.join_keys != old.join_keys)
      (fail "Check cannot change tables or join_keys")

abbrev kind_text : GroundingCallKind → String
kind_text GroundingCallKind.structure = "structure"
kind_text GroundingCallKind.mapping = "mapping"
kind_text GroundingCallKind.knowledge = "knowledge"
kind_text GroundingCallKind.check = "check"
kind_text GroundingCallKind.final_gate = "final_gate"

-- `_validate_staged_response`.
unfoldable pub validate_staged_response :
    GroundingRuntime
    → GroundingLlmResponse
    → GroundingCallKind
    → Option Fields
    → Bool
    → Result Raised Unit
unfolding validate_stage_dimensions
validate_staged_response runtime response kind input draft_cycle = do
  _ ← validate_stage_dimensions runtime.grounding_state response.sql_grounding_state kind
  let expected = expected_focus kind (is_clarification_cycle runtime input draft_cycle)
  raise_if (response.next_focus_dimension != expected) (
      fail (
        text_append (kind_text kind)
          (text_append " Grounding must set focus to " (focus_text expected))))
  raise_if (not (is_empty response.user_clarification_requests))
      (fail "stage-specific Grounding forms cannot embed clarification requests")
