-- ===== src/Service/Documents.antt =====
-- The JSON that the service reads and compares: a State's dump, and the models validated from the
-- input's lists.
use valibra.Prelude.{
  ℕ, String, not, ◌&&◌, ◌||◌, nat_eq, Option, none, some, List, [], ◌∷◌, all, contains, string_eq,
  ◌==◌, Result, ok, err, check, ◌>>=◌, if◌then◌else◌,
}
use valibra.Prelude.Text.{is_blank, fits}
use valibra.Prelude.Json.{
  Json, Items, Fields, null, int, text, arr, obj, nil, cons, end, field, pos, get, keys, text_items,
}
use valibra.Models.Vocabulary.{UnresolvedMappingReason, UserClarificationKind, kind_text}
use valibra.Models.Types.{
  Raised, other_error, max_clarification_answer_chars, ColumnMapping, DomainKnowledge,
  SqlGroundingState,
}
use valibra.Models.Forms.{
  UnresolvedMapping, FormTexts, make_unresolved_mapping, make_clarification_request,
}

dump_texts : Option (List String) → Json
dump_texts none = null
dump_texts (some ts) = arr (text_items ts)

mapping_items : List ColumnMapping → Items
mapping_items [] = nil
mapping_items (m ∷ ms) =
    cons (obj (field "phrase" (text m.phrase) (field "targets" (arr (text_items m.targets)) end)))
      (mapping_items ms)

dump_mappings : Option (List ColumnMapping) → Json
unfolding mapping_items
dump_mappings none = null
dump_mappings (some ms) = arr (mapping_items ms)

knowledge_items : List DomainKnowledge → Items
knowledge_items [] = nil
knowledge_items (k ∷ ks) =
    cons (obj (field "kind" (text (kind_text k.kind)) (field "content" (text k.content) end)))
      (knowledge_items ks)

dump_knowledge : Option (List DomainKnowledge) → Json
unfolding knowledge_items
dump_knowledge none = null
dump_knowledge (some ks) = arr (knowledge_items ks)

-- `state.model_dump(mode="json")`.
unfoldable pub dump_state : SqlGroundingState → Json
unfolding dump_texts dump_mappings dump_knowledge text_items
dump_state s = obj (
    field "tables" (dump_texts s.tables) (
      field "join_keys" (dump_texts s.join_keys) (
        field "column_mapping" (dump_mappings s.column_mapping)
          (field "domain_knowledge" (dump_knowledge s.domain_knowledge) end))))

abbrev reason_of_text : String → Option UnresolvedMappingReason
reason_of_text s =
    if s == "ambiguous_user_intent"
    then some UnresolvedMappingReason.ambiguous_user_intent
    else (if s == "no_direct_metadata"
        then some UnresolvedMappingReason.no_direct_metadata
        else (if s == "derived_rule_required"
            then some UnresolvedMappingReason.derived_rule_required
            else (if s == "scope_insufficient"
                then some UnresolvedMappingReason.scope_insufficient
                else none)))

abbrev kind_of_text : String → Option UserClarificationKind
kind_of_text s =
    if s == "user_intent"
    then some UserClarificationKind.user_intent
    else (if s == "missing_knowledge" then some UserClarificationKind.missing_knowledge else none)

-- A required field that holds a text.
unfoldable pub text_field : String → Fields → Result Raised String
unfolding get
text_field key fields = elim (get key fields) [ some (text s) ↦ ok s | _ ↦ err other_error ]

from_option : {A : Type 0} → Option A → Result Raised A
from_option none = err other_error
from_option (some a) = ok a

-- No other field is allowed.
abbrev only_fields : List String → Fields → Result Raised Unit
only_fields allowed fields = check (all (λ k. contains k allowed) (keys fields)) other_error tt

-- `UnresolvedMapping.model_validate(item)`.
unfoldable pub parse_unresolved : Json → Result Raised UnresolvedMapping
unfolding text_field from_option keys
parse_unresolved (obj fields) = do
  _ ← only_fields ("phrase" ∷ "reason" ∷ []) fields
  phrase ← text_field "phrase" fields
  name ← text_field "reason" fields
  reason ← from_option (reason_of_text name)
  make_unresolved_mapping phrase reason
parse_unresolved _ = err other_error

pub record UserClarificationRecord : Type 0 where
  pub phrase : String
  pub kind : UserClarificationKind
  pub question : String
  pub phase : ℕ
  pub answer : Option String

parse_answer : Option Json → Result Raised (Option String)
parse_answer none = ok none
parse_answer (some null) = ok none
parse_answer (some (text s)) =
    check (not (is_blank s) && fits max_clarification_answer_chars s) other_error (some s)
parse_answer (some _) = err other_error

-- `Literal[1, 2]`.
parse_phase : Option Json → Result Raised ℕ
parse_phase (some (int (pos n))) = check (n == 1 || n == 2) other_error n
parse_phase _ = err other_error

-- `UserClarificationRecord.model_validate(item)`.
module _ (f : FormTexts) where
  unfoldable pub parse_clarification : Json → Result Raised UserClarificationRecord
  unfolding text_field from_option keys parse_answer parse_phase get
  parse_clarification (obj fields) = do
    _ ← only_fields ("phrase" ∷ "kind" ∷ "question" ∷ "phase" ∷ "answer" ∷ []) fields
    phrase ← text_field "phrase" fields
    name ← text_field "kind" fields
    kind ← from_option (kind_of_text name)
    question ← text_field "question" fields
    phase ← parse_phase (get "phase" fields)
    answer ← parse_answer (get "answer" fields)
    request ← make_clarification_request f phrase kind question
    ok (record {
      phrase = request.phrase;
      kind = request.kind;
      question = request.question;
      phase = phase;
      answer = answer;
    })
  parse_clarification _ = err other_error
