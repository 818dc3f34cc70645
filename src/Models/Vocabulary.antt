-- ===== src/Models/Vocabulary.antt =====
-- models.py: the closed vocabularies, each with its spelling in the source. Two members are the
-- same exactly when their spellings are, so `==` goes by the place in the list.
use valibra.Prelude.{ℕ, String, ◌≡◌, ◌↔◌, true, arith, nat_beq, Eq, List, [], ◌∷◌}

pub data GroundingStage : Type 0 where
  initial_grounding sql_attempt p2_incremental done : GroundingStage

pub data FocusDimension : Type 0 where
  tables join_keys column_mapping domain_knowledge none : FocusDimension

pub data GroundingDimension : Type 0 where
  tables join_keys column_mapping domain_knowledge : GroundingDimension

pub data DomainKnowledgeKind : Type 0 where
  business_rule runtime_state database_capability : DomainKnowledgeKind

pub data UnresolvedMappingReason : Type 0 where
  ambiguous_user_intent no_direct_metadata derived_rule_required scope_insufficient :
      UnresolvedMappingReason

pub data UserClarificationKind : Type 0 where
  user_intent missing_knowledge : UserClarificationKind

pub data CheckRequirementType : Type 0 where
  threshold category literal predicate : CheckRequirementType

pub data GroundingCheckStatus : Type 0 where
  complete incomplete : GroundingCheckStatus

pub data GroundingClarificationRoute : Type 0 where
  none stay_check restart_grounding terminal : GroundingClarificationRoute

pub data FinalRegroundingDecision : Type 0 where
  no_reground reground_mapping reground_structure terminal : FinalRegroundingDecision

pub data GroundingCheckToolName : Type 0 where
  ask_user get_column_meaning get_all_external_knowledge_names get_knowledge_definition
        execute_sql :
      GroundingCheckToolName

abbrev stage_index : GroundingStage → ℕ
stage_index GroundingStage.initial_grounding = 0
stage_index GroundingStage.sql_attempt = 1
stage_index GroundingStage.p2_incremental = 2
stage_index GroundingStage.done = 3

pub stage_beq_iff :
    (a b : GroundingStage) → (nat_beq (stage_index a) (stage_index b) ≡ true) ↔ (a ≡ b)
stage_beq_iff a b = ground arith

instance abbrev pub stage_eq : Eq GroundingStage
stage_eq = record {
  is_equal = λ a b. nat_beq (stage_index a) (stage_index b);
  is_equal_iff = stage_beq_iff;
}

abbrev pub stage_text : GroundingStage → String
stage_text GroundingStage.initial_grounding = "INITIAL_GROUNDING"
stage_text GroundingStage.sql_attempt = "SQL_ATTEMPT"
stage_text GroundingStage.p2_incremental = "P2_INCREMENTAL"
stage_text GroundingStage.done = "DONE"

abbrev focus_index : FocusDimension → ℕ
focus_index FocusDimension.tables = 0
focus_index FocusDimension.join_keys = 1
focus_index FocusDimension.column_mapping = 2
focus_index FocusDimension.domain_knowledge = 3
focus_index FocusDimension.none = 4

pub focus_beq_iff :
    (a b : FocusDimension) → (nat_beq (focus_index a) (focus_index b) ≡ true) ↔ (a ≡ b)
focus_beq_iff a b = ground arith

instance abbrev pub focus_eq : Eq FocusDimension
focus_eq = record {
  is_equal = λ a b. nat_beq (focus_index a) (focus_index b);
  is_equal_iff = focus_beq_iff;
}

abbrev pub focus_text : FocusDimension → String
focus_text FocusDimension.tables = "tables"
focus_text FocusDimension.join_keys = "join_keys"
focus_text FocusDimension.column_mapping = "column_mapping"
focus_text FocusDimension.domain_knowledge = "domain_knowledge"
focus_text FocusDimension.none = "none"

abbrev dimension_index : GroundingDimension → ℕ
dimension_index GroundingDimension.tables = 0
dimension_index GroundingDimension.join_keys = 1
dimension_index GroundingDimension.column_mapping = 2
dimension_index GroundingDimension.domain_knowledge = 3

pub dimension_beq_iff :
    (a b : GroundingDimension) → (nat_beq (dimension_index a) (dimension_index b) ≡ true) ↔ (a ≡ b)
dimension_beq_iff a b = ground arith

instance abbrev pub dimension_eq : Eq GroundingDimension
dimension_eq = record {
  is_equal = λ a b. nat_beq (dimension_index a) (dimension_index b);
  is_equal_iff = dimension_beq_iff;
}

abbrev pub dimension_text : GroundingDimension → String
dimension_text GroundingDimension.tables = "tables"
dimension_text GroundingDimension.join_keys = "join_keys"
dimension_text GroundingDimension.column_mapping = "column_mapping"
dimension_text GroundingDimension.domain_knowledge = "domain_knowledge"

abbrev kind_index : DomainKnowledgeKind → ℕ
kind_index DomainKnowledgeKind.business_rule = 0
kind_index DomainKnowledgeKind.runtime_state = 1
kind_index DomainKnowledgeKind.database_capability = 2

pub kind_beq_iff :
    (a b : DomainKnowledgeKind) → (nat_beq (kind_index a) (kind_index b) ≡ true) ↔ (a ≡ b)
kind_beq_iff a b = ground arith

instance abbrev pub kind_eq : Eq DomainKnowledgeKind
kind_eq = record {
  is_equal = λ a b. nat_beq (kind_index a) (kind_index b);
  is_equal_iff = kind_beq_iff;
}

abbrev pub kind_text : DomainKnowledgeKind → String
kind_text DomainKnowledgeKind.business_rule = "business_rule"
kind_text DomainKnowledgeKind.runtime_state = "runtime_state"
kind_text DomainKnowledgeKind.database_capability = "database_capability"

abbrev reason_index : UnresolvedMappingReason → ℕ
reason_index UnresolvedMappingReason.ambiguous_user_intent = 0
reason_index UnresolvedMappingReason.no_direct_metadata = 1
reason_index UnresolvedMappingReason.derived_rule_required = 2
reason_index UnresolvedMappingReason.scope_insufficient = 3

pub reason_beq_iff :
    (a b : UnresolvedMappingReason) → (nat_beq (reason_index a) (reason_index b) ≡ true) ↔ (a ≡ b)
reason_beq_iff a b = ground arith

instance abbrev pub reason_eq : Eq UnresolvedMappingReason
reason_eq = record {
  is_equal = λ a b. nat_beq (reason_index a) (reason_index b);
  is_equal_iff = reason_beq_iff;
}

abbrev pub reason_text : UnresolvedMappingReason → String
reason_text UnresolvedMappingReason.ambiguous_user_intent = "ambiguous_user_intent"
reason_text UnresolvedMappingReason.no_direct_metadata = "no_direct_metadata"
reason_text UnresolvedMappingReason.derived_rule_required = "derived_rule_required"
reason_text UnresolvedMappingReason.scope_insufficient = "scope_insufficient"

abbrev clarification_kind_index : UserClarificationKind → ℕ
clarification_kind_index UserClarificationKind.user_intent = 0
clarification_kind_index UserClarificationKind.missing_knowledge = 1

pub clarification_kind_beq_iff :
    (a b : UserClarificationKind)
    → (nat_beq (clarification_kind_index a) (clarification_kind_index b) ≡ true) ↔ (a ≡ b)
clarification_kind_beq_iff a b = ground arith

instance abbrev pub clarification_kind_eq : Eq UserClarificationKind
clarification_kind_eq = record {
  is_equal = λ a b. nat_beq (clarification_kind_index a) (clarification_kind_index b);
  is_equal_iff = clarification_kind_beq_iff;
}

abbrev requirement_type_index : CheckRequirementType → ℕ
requirement_type_index CheckRequirementType.threshold = 0
requirement_type_index CheckRequirementType.category = 1
requirement_type_index CheckRequirementType.literal = 2
requirement_type_index CheckRequirementType.predicate = 3

pub requirement_type_beq_iff :
    (a b : CheckRequirementType)
    → (nat_beq (requirement_type_index a) (requirement_type_index b) ≡ true) ↔ (a ≡ b)
requirement_type_beq_iff a b = ground arith

instance abbrev pub requirement_type_eq : Eq CheckRequirementType
requirement_type_eq = record {
  is_equal = λ a b. nat_beq (requirement_type_index a) (requirement_type_index b);
  is_equal_iff = requirement_type_beq_iff;
}

abbrev status_index : GroundingCheckStatus → ℕ
status_index GroundingCheckStatus.complete = 0
status_index GroundingCheckStatus.incomplete = 1

pub status_beq_iff :
    (a b : GroundingCheckStatus) → (nat_beq (status_index a) (status_index b) ≡ true) ↔ (a ≡ b)
status_beq_iff a b = ground arith

instance abbrev pub status_eq : Eq GroundingCheckStatus
status_eq = record {
  is_equal = λ a b. nat_beq (status_index a) (status_index b);
  is_equal_iff = status_beq_iff;
}

abbrev route_index : GroundingClarificationRoute → ℕ
route_index GroundingClarificationRoute.none = 0
route_index GroundingClarificationRoute.stay_check = 1
route_index GroundingClarificationRoute.restart_grounding = 2
route_index GroundingClarificationRoute.terminal = 3

pub route_beq_iff :
    (a b : GroundingClarificationRoute) → (nat_beq (route_index a) (route_index b) ≡ true) ↔ (a ≡ b)
route_beq_iff a b = ground arith

instance abbrev pub route_eq : Eq GroundingClarificationRoute
route_eq = record {
  is_equal = λ a b. nat_beq (route_index a) (route_index b);
  is_equal_iff = route_beq_iff;
}

abbrev decision_index : FinalRegroundingDecision → ℕ
decision_index FinalRegroundingDecision.no_reground = 0
decision_index FinalRegroundingDecision.reground_mapping = 1
decision_index FinalRegroundingDecision.reground_structure = 2
decision_index FinalRegroundingDecision.terminal = 3

pub decision_beq_iff :
    (a b : FinalRegroundingDecision)
    → (nat_beq (decision_index a) (decision_index b) ≡ true) ↔ (a ≡ b)
decision_beq_iff a b = ground arith

instance abbrev pub decision_eq : Eq FinalRegroundingDecision
decision_eq = record {
  is_equal = λ a b. nat_beq (decision_index a) (decision_index b);
  is_equal_iff = decision_beq_iff;
}

abbrev tool_name_index : GroundingCheckToolName → ℕ
tool_name_index GroundingCheckToolName.ask_user = 0
tool_name_index GroundingCheckToolName.get_column_meaning = 1
tool_name_index GroundingCheckToolName.get_all_external_knowledge_names = 2
tool_name_index GroundingCheckToolName.get_knowledge_definition = 3
tool_name_index GroundingCheckToolName.execute_sql = 4

pub tool_name_beq_iff :
    (a b : GroundingCheckToolName)
    → (nat_beq (tool_name_index a) (tool_name_index b) ≡ true) ↔ (a ≡ b)
tool_name_beq_iff a b = ground arith

instance abbrev pub tool_name_eq : Eq GroundingCheckToolName
tool_name_eq = record {
  is_equal = λ a b. nat_beq (tool_name_index a) (tool_name_index b);
  is_equal_iff = tool_name_beq_iff;
}

abbrev pub tool_name_text : GroundingCheckToolName → String
tool_name_text GroundingCheckToolName.ask_user = "ask_user"
tool_name_text GroundingCheckToolName.get_column_meaning = "get_column_meaning"
tool_name_text GroundingCheckToolName.get_all_external_knowledge_names =
    "get_all_external_knowledge_names"
tool_name_text GroundingCheckToolName.get_knowledge_definition = "get_knowledge_definition"
tool_name_text GroundingCheckToolName.execute_sql = "execute_sql"

abbrev pub grounding_dimensions : List GroundingDimension
grounding_dimensions =
    GroundingDimension.tables ∷ GroundingDimension.join_keys ∷ GroundingDimension.column_mapping
    ∷ GroundingDimension.domain_knowledge ∷ []
