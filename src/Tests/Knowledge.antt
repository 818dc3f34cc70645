-- ===== src/Tests/Knowledge.antt =====
-- A second phase that selects one official rule beside the one known.
use valibra.Prelude.{
  String, ◌≡◌, refl, true, Option, some, List, [], ◌∷◌, ok, contains, string_eq, any, all, keep,
  sorted, distinct,
}
use valibra.Prelude.Json.{pos, Fields, text, int, arr, obj, field, end, cons, nil, get, keys}
use valibra.Prelude.Text.{text_le, fits, is_tight}
use valibra.Models.Vocabulary.{DomainKnowledgeKind}
use valibra.Models.Types.{SqlGroundingState, DomainKnowledge, ColumnMapping}
use valibra.Models.State.{make_domain_knowledge, is_bounded_text}
use valibra.Models.Forms.{KnowledgeGroundingResponse}
use valibra.Service.Knowledge.{
  merge_knowledge, materialize_knowledge_update, materialize_official_business_rules,
  is_p2_grounding_input, ignored_phrases, sanitize, ignore_phrases,
}
use valibra.Service.Knowledge.Laws.{
  IsMerge, IsSanitized, p2_knowledge_update, ignore_phrases-IsSanitized,
}

abbrev known : DomainKnowledge
known = record { kind = DomainKnowledgeKind.business_rule; content = "a sale is an order" }

abbrev chosen : DomainKnowledge
chosen = record { kind = DomainKnowledgeKind.business_rule; content = "big means 100" }

abbrev old : SqlGroundingState
old = record {
  tables = some ("orders" ∷ []);
  join_keys = some [];
  column_mapping = some [];
  domain_knowledge = some (known ∷ []);
}

abbrev total : ColumnMapping
total = record { phrase = "total"; targets = "orders.total" ∷ [] }

abbrev big : ColumnMapping
big = record { phrase = "big"; targets = "orders.size" ∷ [] }

abbrev response : KnowledgeGroundingResponse
response = record { column_mapping = total ∷ big ∷ []; selected_knowledge_ids = pos 5 ∷ [] }

abbrev input : Option Fields
input = some (
    field "follow_up" (text "only big ones") (
      field "knowledge_definitions"
        (arr (
          cons (obj (field "id" (int (pos 5)) (field "definition" (text "big means 100") end)))
            nil))
        end))

abbrev reference : DomainKnowledge → String
reference k = k.content

is_p2 : is_p2_grounding_input input ≡ true
unfolding is_p2_grounding_input get
is_p2 = refl

updated :
    materialize_knowledge_update reference old response input
    ≡ ok (known ∷ chosen ∷ [], "a sale is an order" ∷ [])
unfolding materialize_knowledge_update materialize_official_business_rules all contains
    make_domain_knowledge is_bounded_text is_tight fits is_p2_grounding_input sorted keep distinct
    text_le get keys merge_knowledge
updated = refl

p2_knowledge_update_example :
    (selected : List DomainKnowledge) × (materialize_official_business_rules (pos 5 ∷ []) input
      ≡ ok selected)
    × IsMerge reference old selected (known ∷ chosen ∷ [])
p2_knowledge_update_example = p2_knowledge_update reference old response input is_p2 updated

ignored :
    ignore_phrases old response ("big" ∷ [])
    ≡ ok (record { column_mapping = total ∷ []; selected_knowledge_ids = pos 5 ∷ [] }, "big" ∷ [])
unfolding ignore_phrases ignored_phrases sanitize any keep contains sorted
ignored = refl

ignore_phrases-IsSanitized_example :
    IsSanitized response
      (record { column_mapping = total ∷ []; selected_knowledge_ids = pos 5 ∷ [] })
      ("big" ∷ [])
ignore_phrases-IsSanitized_example = ignore_phrases-IsSanitized old response ("big" ∷ []) ignored
