-- ===== src/Models/State.antt =====
-- models.py: building a State, a mapping or a knowledge item, which pydantic does by running every
-- validator. Whatever a validator raises comes out as one `ValidationError`, `other_error` here.
use Prim.Native.Char.{Char, code}
use Prim.Native.String.{◌∷◌ as char_cons, count}
use valibra.Prelude.{
  ℕ, String, Bool, true, false, ◌&&◌, ◌||◌, Option, none, some, List, [], leb, nat_beq, length, all,
  contains, has_no_duplicates, sorted, string_eq, ◌==◌, Result, ok, check, ◌>>=◌, map,
  if◌then◌else◌,
}
use valibra.Prelude.Text.{text_le, is_tight, fits}
use valibra.Models.Vocabulary.{
  DomainKnowledgeKind, kind_text, kind_eq, FocusDimension, GroundingStage, stage_eq, focus_eq,
}
use valibra.Models.Types.{
  Raised, other_error, max_tables, max_join_keys, max_column_mappings, max_targets_per_mapping,
  max_domain_knowledge, max_identifier_chars, max_expression_chars, max_phrase_chars,
  max_knowledge_chars, ColumnMapping, DomainKnowledge, SqlGroundingState, GroundingRuntime,
  SqlExpressions, knowledge_eq,
}

-- `_require_bounded_text` does not raise.
unfoldable pub is_bounded_text : ℕ → String → Bool
is_bounded_text maximum value = is_tight value && fits maximum value

is_word_start : Char → Bool
is_word_start ch =
    let c = code ch in (leb b'A' c && leb c b'Z') || (leb b'a' c && leb c b'z') || nat_beq c b'_'

is_word : Char → Bool
unfolding is_word_start
is_word ch =
    is_word_start ch || (leb b'0' (code ch) && leb (code ch) b'9') || nat_beq (code ch) b'$'

last_part_rest : String → Bool
unfolding is_word
last_part_rest String.[] = true
last_part_rest (char_cons c s) = is_word c && last_part_rest s

last_part : String → Bool
unfolding last_part_rest is_word_start
last_part String.[] = false
last_part (char_cons c s) = is_word_start c && last_part_rest s

first_part_rest : String → Bool
unfolding last_part is_word
first_part_rest String.[] = true
first_part_rest (char_cons c s) =
    (is_word c && first_part_rest s) || (nat_beq (code c) b'.' && last_part s)

-- `_TABLE_IDENTIFIER_RE`: one identifier, or two with a dot between them.
unfoldable pub matches_table_identifier : String → Bool
unfolding first_part_rest is_word_start
matches_table_identifier String.[] = false
matches_table_identifier (char_cons c s) = is_word_start c && first_part_rest s

-- `_require_table_identifier` does not raise.
unfoldable pub is_table_identifier : String → Bool
unfolding is_bounded_text matches_table_identifier
is_table_identifier value =
    is_bounded_text max_identifier_chars value && matches_table_identifier value

-- `value or ()`.
abbrev pub or_empty {ℓ} : {A : Type ℓ} → Option (List A) → List A
or_empty none = []
or_empty (some xs) = xs

abbrev pub is_some {ℓ} : {A : Type ℓ} → Option A → Bool
is_some none = false
is_some (some _) = true

abbrev pub mapping_le : ColumnMapping → ColumnMapping → Bool
mapping_le a b = text_le a.phrase b.phrase

-- The order of the keys `(kind, content)`.
abbrev pub knowledge_le : DomainKnowledge → DomainKnowledge → Bool
knowledge_le a b =
    if a.kind == b.kind
    then text_le a.content b.content
    else text_le (kind_text a.kind) (kind_text b.kind)

abbrev pub phrases : List ColumnMapping → List String
phrases ms = map (λ m. m.phrase) ms

unfoldable pub make_domain_knowledge : DomainKnowledgeKind → String → Result Raised DomainKnowledge
make_domain_knowledge kind content =
    check (is_bounded_text max_knowledge_chars content) other_error
      (record { kind = kind; content = content })

unfoldable pub validate_tables : List String → Result Raised (List String)
validate_tables value =
    check
      (leb (length value) max_tables && all is_table_identifier value && has_no_duplicates value)
      other_error (sorted text_le value)

unfoldable pub validate_column_mappings : List ColumnMapping → Result Raised (List ColumnMapping)
validate_column_mappings value =
    check (leb (length value) max_column_mappings && has_no_duplicates (phrases value)) other_error
      (sorted mapping_le value)

unfoldable pub validate_domain_knowledge :
    List DomainKnowledge → Result Raised (List DomainKnowledge)
validate_domain_knowledge value =
    check (leb (length value) max_domain_knowledge && has_no_duplicates value) other_error
      (sorted knowledge_le value)

-- A validator of a dimension passes `None` on.
abbrev pub optional : {A : Type 0} → (A → Result Raised A) → Option A → Result Raised (Option A)
optional f none = ok none
optional f (some a) = f a >>= λ r. ok (some r)

unfoldable pub all_dimensions_evaluated : SqlGroundingState → Bool
all_dimensions_evaluated s =
    is_some s.tables
    && is_some s.join_keys
    && is_some s.column_mapping
    && is_some s.domain_knowledge

-- The references were read, and each is a declared table.
abbrev pub are_declared : List String → Option (List String) → Bool
are_declared declared none = false
are_declared declared (some referenced) = all (λ t. contains t declared) referenced

-- `validate_initial_focus`, on building a Runtime.
unfoldable pub make_runtime :
    ℕ → GroundingStage → FocusDimension → SqlGroundingState → Result Raised GroundingRuntime
unfolding all_dimensions_evaluated
make_runtime revision stage focus state =
    check
      (if stage == GroundingStage.initial_grounding
        then (if all_dimensions_evaluated state
            then focus == FocusDimension.none
            else (if focus == FocusDimension.none then false else true))
        else true)
      other_error
      (record {
        grounding_revision = revision;
        stage = stage;
        focus_dimension = focus;
        grounding_state = state;
      })

module _ (x : SqlExpressions) where
  unfoldable pub make_column_mapping : String → List String → Result Raised ColumnMapping
  make_column_mapping phrase targets =
      check
        (is_bounded_text max_phrase_chars phrase
          && leb 1 (length targets)
          && leb (length targets) max_targets_per_mapping
          && all (λ t. leb 1 (count t) && fits max_expression_chars t && x.canonical_field t)
              targets
          && has_no_duplicates targets)
        other_error (record { phrase = phrase; targets = sorted text_le targets })

  unfoldable pub validate_join_keys : List String → Result Raised (List String)
  validate_join_keys value =
      check
        (leb (length value) max_join_keys
          && all (λ r. leb 1 (count r) && fits max_expression_chars r && x.canonical_relation r)
              value
          && has_no_duplicates value)
        other_error (sorted text_le value)

  -- `validate_cross_dimension_references` does not raise.
  unfoldable pub has_declared_references : SqlGroundingState → Bool
  has_declared_references s =
      let declared = or_empty s.tables in
      all (λ r. are_declared declared (x.relation_tables r)) (or_empty s.join_keys)
      && all (λ m. all (λ t. are_declared declared (x.field_tables t)) m.targets)
          (or_empty s.column_mapping)

  unfoldable pub make_state :
      Option (List String)
      → Option (List String)
      → Option (List ColumnMapping)
      → Option (List DomainKnowledge)
      → Result Raised SqlGroundingState
  unfolding validate_tables validate_join_keys validate_column_mappings validate_domain_knowledge
      has_declared_references
  make_state tables join_keys column_mapping domain_knowledge = do
    ts ← optional validate_tables tables
    js ← optional validate_join_keys join_keys
    ms ← optional validate_column_mappings column_mapping
    ks ← optional validate_domain_knowledge domain_knowledge
    let s : SqlGroundingState = record {
      tables = ts;
      join_keys = js;
      column_mapping = ms;
      domain_knowledge = ks;
    }
    check (has_declared_references s) other_error s
