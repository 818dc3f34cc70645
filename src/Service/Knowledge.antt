-- ===== src/Service/Knowledge.antt =====
-- service.py: the Knowledge stage. Official rules are looked up by their identifiers, a second phase
-- keeps what the first one knew, and mappings that the omission carrier owns are dropped.
pub mod Laws
use valibra.Prelude.{
  String, Bool, true, false, not, ◌&&◌, ◌||◌, Option, none, some, List, [], ◌∷◌, ◌++◌, map,
  is_empty, all, any, keep, contains, distinct, sorted, string_eq, list_eq, ◌==◌, ◌!=◌, Result, ok,
  err, raise_if, ◌>>=◌, ◌>>◌, if◌then◌else◌,
}
use valibra.Prelude.Text.{text_le}
use valibra.Prelude.Json.{
  ℤ, int_eq, Json, Items, Fields, null, bool, int, float, text, arr, obj, get, keys, items,
}
use valibra.Models.Vocabulary.{DomainKnowledgeKind}
use valibra.Models.Types.{
  Raised, validation_error, ColumnMapping, DomainKnowledge, SqlGroundingState, mapping_eq,
  knowledge_eq,
}
use valibra.Models.State.{or_empty, phrases, knowledge_le, make_domain_knowledge}
use valibra.Models.Forms.{UnresolvedMapping, KnowledgeGroundingResponse, unresolved_phrases}
use valibra.Service.Documents.{parse_unresolved}

abbrev find_rule : ℤ → List (ℤ × DomainKnowledge) → Option DomainKnowledge
find_rule n [] = none
find_rule n ((m, k) ∷ rest) = if m == n then some k else find_rule n rest

abbrev is_known_id : ℤ → List (ℤ × DomainKnowledge) → Bool
is_known_id n by_id = elim (find_rule n by_id) [ none ↦ false | some _ ↦ true ]

abbrev official_fields : List String
official_fields = "id" ∷ "knowledge" ∷ "description" ∷ "definition" ∷ []

-- `isinstance(id, int)` and no Boolean.
integer_id : Option Json → Result Raised ℤ
integer_id (some (int n)) = ok n
integer_id _ = err (validation_error "Official knowledge id must be an integer")

-- Whatever building the item raises comes out as one validation error.
official_rule : Option Json → Result Raised DomainKnowledge
official_rule (some (text s)) = elim (make_domain_knowledge DomainKnowledgeKind.business_rule s) [
  | ok k ↦ ok k
  | err _ ↦ err (validation_error "Official knowledge definition is invalid")
]
official_rule _ = err (validation_error "Official knowledge definition is invalid")

-- One entry of `knowledge_definitions`, beside those that were read before it.
read_entry : List (ℤ × DomainKnowledge) → Json → Result Raised (List (ℤ × DomainKnowledge))
unfolding integer_id official_rule get keys
read_entry by_id (obj fields) = do
  raise_if (not (all (λ k. contains k official_fields) (keys fields)))
      (validation_error "Official knowledge entry contains a hidden or unsupported field")
  knowledge_id ← integer_id (get "id" fields)
  raise_if (is_known_id knowledge_id by_id)
      (validation_error "Official knowledge ids must be unique")
  knowledge ← official_rule (get "definition" fields)
  ok ((knowledge_id, knowledge) ∷ by_id)
read_entry by_id _ = err (validation_error "Official knowledge entry must be an object")

read_entries : List (ℤ × DomainKnowledge) → List Json → Result Raised (List (ℤ × DomainKnowledge))
unfolding read_entry
read_entries by_id [] = ok by_id
read_entries by_id (entry ∷ rest) = read_entry by_id entry >>= λ more. read_entries more rest

select_rules : List (ℤ × DomainKnowledge) → List ℤ → Result Raised (List DomainKnowledge)
select_rules by_id [] = ok []
select_rules by_id (n ∷ ns) = do
  rest ← select_rules by_id ns
  elim (find_rule n by_id) [
    | none ↦ err (validation_error "selected knowledge id is absent from Official evidence")
    | some k ↦ ok (k ∷ rest)
  ]

-- `None` for the input is refused before anything is read.
unfoldable pub materialize_official_business_rules :
    List ℤ → Option Fields → Result Raised (List DomainKnowledge)
unfolding read_entries select_rules get items
materialize_official_business_rules selected_ids none =
    err (validation_error "Knowledge selection requires current Official knowledge definitions")
materialize_official_business_rules selected_ids (some input) =
    elim (get "knowledge_definitions" input) [
      | some (arr entries) ↦
          read_entries [] (items entries) >>= λ by_id. select_rules by_id selected_ids
      | _ ↦ err (validation_error "Official knowledge definitions must be a JSON array")
    ]

-- `_is_p2_grounding_input`.
unfoldable pub is_p2_grounding_input : Option Fields → Bool
unfolding get
is_p2_grounding_input none = false
is_p2_grounding_input (some input) = elim (get "follow_up" input) [
  | some (text _) ↦ true
  | _ ↦ false
]

module _ (semantic_ref : DomainKnowledge → String) where
  -- The second phase: what was known before stays, and the references name what was not selected
  -- again. An item is its own key `(kind, content)`. `semantic_ref` is `domain_knowledge_semantic_ref`, a SHA-256.
  unfoldable pub merge_knowledge :
      List DomainKnowledge → List DomainKnowledge → List DomainKnowledge × List String
  merge_knowledge prior selected = (
    sorted knowledge_le (distinct (prior ++ selected)),
    map semantic_ref (keep (λ item. not (contains item selected)) prior),
  )

  unfoldable pub materialize_knowledge_update :
      SqlGroundingState
      → KnowledgeGroundingResponse
      → Option Fields
      → Result Raised (List DomainKnowledge × List String)
  unfolding merge_knowledge
  materialize_knowledge_update old response input = do
    selected ← materialize_official_business_rules response.selected_knowledge_ids input
    if not (is_p2_grounding_input input)
        then ok (selected, [])
        else ok (merge_knowledge (or_empty old.domain_knowledge) selected)

-- `_validate_knowledge_mapping_mutation`.
unfoldable pub validate_knowledge_mapping_mutation :
    SqlGroundingState → KnowledgeGroundingResponse → Result Raised Unit
validate_knowledge_mapping_mutation old response =
    raise_if
      (is_empty response.selected_knowledge_ids
        && response.column_mapping != or_empty old.column_mapping)
      (validation_error
        "Knowledge cannot change column_mapping without selected Official knowledge")

parse_all : List Json → Result Raised (List UnresolvedMapping)
parse_all [] = ok []
parse_all (item ∷ rest) = do u ← parse_unresolved item; us ← parse_all rest; ok (u ∷ us)

-- The phrases that are taken out, and the response without them.
unfoldable pub ignored_phrases : KnowledgeGroundingResponse → List String → List String
ignored_phrases response unresolved =
    sorted text_le (keep (λ p. contains p unresolved) (phrases response.column_mapping))

unfoldable pub sanitize : KnowledgeGroundingResponse → List String → KnowledgeGroundingResponse
sanitize response unresolved = record response {
  column_mapping = keep (λ m. not (contains m.phrase unresolved)) response.column_mapping;
}

-- `_ignore_knowledge_mapping_for_unresolved_phrases`, with the carrier's phrases at hand.
unfoldable pub ignore_phrases :
    SqlGroundingState
    → KnowledgeGroundingResponse
    → List String
    → Result Raised (KnowledgeGroundingResponse × List String)
unfolding ignored_phrases sanitize
ignore_phrases old response unresolved =
    if is_empty unresolved
    then ok (response, [])
    else (if any (λ p. contains p unresolved) (phrases (or_empty old.column_mapping))
        then err (validation_error "Mapping omission carrier conflicts with current State")
        else (if is_empty (ignored_phrases response unresolved)
            then ok (response, [])
            else ok (sanitize response unresolved, ignored_phrases response unresolved)))

unfoldable pub ignore_knowledge_mapping :
    SqlGroundingState
    → KnowledgeGroundingResponse
    → Option Fields
    → Result Raised (KnowledgeGroundingResponse × List String)
unfolding ignore_phrases parse_all get items
ignore_knowledge_mapping old response none = ok (response, [])
ignore_knowledge_mapping old response (some input) = elim (get "unresolved_mappings" input) [
  | some (arr raw) ↦ parse_all (items raw) >>= λ unresolved.
      ignore_phrases old response (unresolved_phrases unresolved)
  | _ ↦ ok (response, [])
]
