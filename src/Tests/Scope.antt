-- ===== src/Tests/Scope.antt =====
-- A Check that adds the rule that the latest tool returned.
use valibra.Prelude.{
  String, ◌≡◌, refl, Option, none, some, [], ◌∷◌, ok, all, any, keep, distinct, contains,
}
use valibra.Prelude.Json.{Json, Fields, text, obj, field, end, get}
use valibra.Prelude.Text.{starts_with_space, ends_with_space}
use valibra.Models.Vocabulary.{DomainKnowledgeKind}
use valibra.Models.Types.{DomainKnowledge, SqlGroundingState}
use valibra.Service.Scope.{added_knowledge, latest_official_definition, check_knowledge_definition}
use valibra.Service.Scope.Laws.{IsExactAddition, check_knowledge_definition-IsExactAddition}

abbrev known : DomainKnowledge
known = record { kind = DomainKnowledgeKind.business_rule; content = "a sale is an order" }

abbrev returned : DomainKnowledge
returned = record { kind = DomainKnowledgeKind.business_rule; content = "big means 100" }

abbrev old : SqlGroundingState
old = record {
  tables = some ("orders" ∷ []);
  join_keys = some [];
  column_mapping = some [];
  domain_knowledge = some (known ∷ []);
}

abbrev new : SqlGroundingState
new = record old { domain_knowledge = some (known ∷ returned ∷ []) }

abbrev latest_tool : Fields
latest_tool =
    field "name" (text "get_knowledge_definition")
      (field "result" (obj (field "definition" (text "big means 100") end)) end)

abbrev loads : String → Option Json
loads _ = none

passes : check_knowledge_definition loads latest_tool old new ≡ ok tt
unfolding check_knowledge_definition latest_official_definition added_knowledge get all any keep
    distinct contains starts_with_space ends_with_space
passes = refl

check_knowledge_definition-IsExactAddition_example : IsExactAddition loads latest_tool old new
check_knowledge_definition-IsExactAddition_example =
    check_knowledge_definition-IsExactAddition loads latest_tool old new passes
