-- ===== src/Models/Types.antt =====
-- models.py: the State, the Runtime, the validation context, the limits, and what is raised.
use valibra.Prelude.{
  ℕ, String, ◌≡◌, ◌↔◌, Bool, true, ◌&&◌, Option, List, Eq, ◌==◌, string_eq, list_eq, option_eq,
  eq_of_beq, beq_refl, &&-eq-true, Result,
}
use valibra.Models.Vocabulary.{
  GroundingStage, FocusDimension, GroundingDimension, DomainKnowledgeKind, kind_eq,
}

-- What the code raises: a `SQLGroundingValidationError` with its text, or any other exception, such
-- as the `ValidationError` into which pydantic turns what a validator raises.
pub data Raised : Type 0 where
  validation_error : String → Raised
  other_error : Raised

abbrev pub max_tables : ℕ
max_tables = 64

abbrev pub max_join_keys : ℕ
max_join_keys = 64

abbrev pub max_column_mappings : ℕ
max_column_mappings = 128

abbrev pub max_targets_per_mapping : ℕ
max_targets_per_mapping = 16

abbrev pub max_domain_knowledge : ℕ
max_domain_knowledge = 64

abbrev pub max_identifier_chars : ℕ
max_identifier_chars = 128

abbrev pub max_expression_chars : ℕ
max_expression_chars = 1024

abbrev pub max_phrase_chars : ℕ
max_phrase_chars = 256

abbrev pub max_knowledge_chars : ℕ
max_knowledge_chars = 2048

abbrev pub max_user_clarification_requests : ℕ
max_user_clarification_requests = 8

abbrev pub max_clarification_question_chars : ℕ
max_clarification_question_chars = 1024

abbrev pub max_clarification_answer_chars : ℕ
max_clarification_answer_chars = 4096

pub record ColumnMapping : Type 0 where
  pub phrase : String
  pub targets : List String

pub record DomainKnowledge : Type 0 where
  pub kind : DomainKnowledgeKind
  pub content : String

-- `none` is a dimension that is not evaluated, an empty list one that is not needed.
pub record SqlGroundingState : Type 0 where
  pub tables : Option (List String)
  pub join_keys : Option (List String)
  pub column_mapping : Option (List ColumnMapping)
  pub domain_knowledge : Option (List DomainKnowledge)

pub record GroundingRuntime : Type 0 where
  pub grounding_revision : ℕ
  pub stage : GroundingStage
  pub focus_dimension : FocusDimension
  pub grounding_state : SqlGroundingState

pub record StateDiffAuthorization : Type 0 where
  pub stage : GroundingStage
  pub authorized_dimensions : List GroundingDimension

-- The fields that the validators read; the sets are lists, used by membership only.
pub record ValidationContext : Type 0 where
  pub current_query : String
  pub latest_observation_id : String
  pub follow_up_query : Option String
  pub known_tables : List String
  pub known_columns : List String
  pub supported_json_paths : List (String × List String)
  pub supported_domain_knowledge : List DomainKnowledge

-- `exp.Column`: its catalog, schema and table, empty where it has none, and its name.
pub record SqlColumn : Type 0 where
  pub catalog : String
  pub db : String
  pub table : String
  pub name : String

-- What a JSON path may lie on: `exp.JSONExtract` and `exp.JSONExtractScalar` with the keys of the
-- path (`none`: no `exp.JSONPath`), `exp.Cast` and `exp.Paren`, a column, and any other node.
pub data JsonNode : Type 0 where
  extract : JsonNode → Option (List String) → JsonNode
  wrapped : JsonNode → JsonNode
  column : SqlColumn → JsonNode
  other_node : JsonNode

-- What the checks read of a parsed tree: its columns, whether it has a subquery or a `SELECT`, its
-- outermost JSON extractions, and the alias and the table that `_require_correlated_relation_shape`
-- finds in it.
pub record ParsedExpression : Type 0 where
  pub columns : List SqlColumn
  pub has_query : Bool
  pub json_nodes : List JsonNode
  pub inner_table : Result Raised (String × String)

-- A development over this interface holds for every parser: `parse` is `sqlglot.parse`, with `none`
-- for a `ParseError` and for a statement that is `None`, `canonical_field` and `canonical_relation`
-- say that `canonicalize_field_expression` and `canonicalize_relation_expression` do not raise, and
-- `field_tables` and `relation_tables` are the `_…_real_table_references` (`none`: they raise).
pub record SqlExpressions : Type 0 where
  pub canonical_field : String → Bool
  pub canonical_relation : String → Bool
  pub field_tables : String → Option (List String)
  pub relation_tables : String → Option (List String)
  pub parse : String → Option (List (Option ParsedExpression))

abbrev pub mapping_beq : ColumnMapping → ColumnMapping → Bool
mapping_beq a b = (a.phrase == b.phrase) && (a.targets == b.targets)

pub mapping_beq_iff : (a b : ColumnMapping) → (mapping_beq a b ≡ true) ↔ (a ≡ b)
mapping_beq_iff a b = (forth, λ p. rw (← p) back)
  where
    forth : mapping_beq a b ≡ true → a ≡ b
    forth h =
        let (p, q) = &&-eq-true (a.phrase == b.phrase) (a.targets == b.targets) h in
        let e : a.phrase ≡ b.phrase = eq_of_beq a.phrase b.phrase p in
        let f : a.targets ≡ b.targets = eq_of_beq a.targets b.targets q in
        λ i. record { phrase = e i; targets = f i }

    back : mapping_beq a a ≡ true
    back = rw (beq_refl a.phrase, beq_refl a.targets)

instance abbrev pub mapping_eq : Eq ColumnMapping
mapping_eq = record { is_equal = mapping_beq; is_equal_iff = mapping_beq_iff }

abbrev pub knowledge_beq : DomainKnowledge → DomainKnowledge → Bool
knowledge_beq a b = (a.kind == b.kind) && (a.content == b.content)

pub knowledge_beq_iff : (a b : DomainKnowledge) → (knowledge_beq a b ≡ true) ↔ (a ≡ b)
knowledge_beq_iff a b = (forth, λ p. rw (← p) back)
  where
    forth : knowledge_beq a b ≡ true → a ≡ b
    forth h =
        let (p, q) = &&-eq-true (a.kind == b.kind) (a.content == b.content) h in
        let e : a.kind ≡ b.kind = eq_of_beq a.kind b.kind p in
        let f : a.content ≡ b.content = eq_of_beq a.content b.content q in
        λ i. record { kind = e i; content = f i }

    back : knowledge_beq a a ≡ true
    back = rw (beq_refl a.kind, beq_refl a.content)

instance abbrev pub knowledge_eq : Eq DomainKnowledge
knowledge_eq = record { is_equal = knowledge_beq; is_equal_iff = knowledge_beq_iff }
