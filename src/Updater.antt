-- ===== src/Updater.antt =====
-- valibra_agent/sql_grounding/updater.py: the kinds of call, told apart by the fields of the input,
-- and what `SQLGroundingUpdater.propose` hands back.
use valibra.Prelude.{
  ℕ, String, Bool, true, false, not, ◌&&◌, Option, none, some, List, [], ◌∷◌, ◌++◌, map, any,
  contains, string_eq, nat_eq, ◌==◌, Result, ok, err, if◌then◌else◌,
}
use valibra.Prelude.Json.{Fields, keys}
use valibra.Models.Types.{Raised, other_error}
use valibra.Models.Forms.{GroundingResponse, is_same_set}
use valibra.Telemetry.{GroundingLlmTelemetry}

pub data GroundingCallKind : Type 0 where
  structure mapping knowledge check final_gate : GroundingCallKind

abbrev evidence_fields : List (GroundingCallKind × List String)
evidence_fields =
    (GroundingCallKind.structure, "schema" ∷ [])
    ∷ (GroundingCallKind.mapping, "column_meanings" ∷ "unresolved_mappings" ∷ [])
    ∷ (
      GroundingCallKind.knowledge,
      "knowledge_definitions" ∷ "relevant_column_meanings" ∷ "unresolved_mappings" ∷ [],
    )
    ∷ (
      GroundingCallKind.check,
      "answered_clarifications" ∷ "check_context" ∷ "previous_official_calls"
          ∷ "unresolved_mappings" ∷ [],
    )
    ∷ (GroundingCallKind.final_gate, "final_gate_context" ∷ [])
    ∷ []

abbrev check_context_fields : List String
check_context_fields =
    "answered_clarifications" ∷ "previous_official_calls" ∷ "unresolved_mappings" ∷ []

abbrev check_suffixes : List (List String)
check_suffixes =
    map (λ field. field ∷ check_context_fields)
      ("check_context" ∷ "latest_tool" ∷ "latest_user_answer" ∷ [])
    ++ map (λ field. field ∷ "check_evidence_context" ∷ check_context_fields)
        ("check_context" ∷ "latest_tool" ∷ "latest_user_answer" ∷ [])

abbrev common_fields : List String
common_fields = "query" ∷ "current_state" ∷ []

-- `common_variants`; any phase but 1 and 2 is a `ValueError`.
abbrev common_variants : ℕ → Option (List (List String))
common_variants phase =
    if phase == 2
    then some (("follow_up" ∷ "user_clarifications" ∷ common_fields) ∷ [])
    else (if phase == 1
        then some (common_fields ∷ ("user_clarifications" ∷ common_fields) ∷ [])
        else none)

abbrev with_regrounding : List (List String) → List (List String)
with_regrounding [] = []
with_regrounding (variant ∷ rest) =
    variant ∷ ("regrounding_context" ∷ variant) ∷ with_regrounding rest

abbrev is_check_kind : GroundingCallKind → Bool
is_check_kind GroundingCallKind.check = true
is_check_kind _ = false

abbrev is_gate_kind : GroundingCallKind → Bool
is_gate_kind GroundingCallKind.final_gate = true
is_gate_kind _ = false

-- The kinds whose exact field set, over one common variant, is that of the input.
matches_of :
    List String → List String → List (GroundingCallKind × List String) → List GroundingCallKind
matches_of fields common [] = []
matches_of fields common ((kind, evidence) ∷ rest) =
    let more = matches_of fields common rest in
    if is_same_set fields (common ++ evidence)
      && not (contains "regrounding_context" common && is_gate_kind kind)
    then kind ∷ more
    else more

all_matches : List String → List (List String) → List GroundingCallKind
unfolding matches_of
all_matches fields [] = []
all_matches fields (common ∷ rest) =
    matches_of fields common evidence_fields ++ all_matches fields rest

abbrev single : List GroundingCallKind → Result Raised GroundingCallKind
single (kind ∷ []) = ok kind
single _ = err other_error

classify_fields : List String → List (List String) → Result Raised GroundingCallKind
unfolding all_matches
classify_fields fields variants =
    let matches = all_matches fields variants in
    if not (any is_check_kind matches)
      && any (λ common. any (λ suffix. is_same_set fields (common ++ suffix)) check_suffixes)
          variants
    then single (matches ++ GroundingCallKind.check ∷ [])
    else single matches

unfoldable pub classify_grounding_input : Fields → ℕ → Result Raised GroundingCallKind
unfolding classify_fields
classify_grounding_input grounding_input phase = elim (common_variants phase) [
  | none ↦ err other_error
  | some variants ↦ classify_fields (keys grounding_input) (with_regrounding variants)
]

-- `unchanged` is the literal `none`.
pub data TransportNormalization : Type 0 where
  unchanged single_json_fence : TransportNormalization

pub record KnowledgeRetirementAuditSidecar : Type 0 where
  pub value_is_array : Bool
  pub item_count : ℕ
  pub value_sha256 : String

pub record GroundingUpdaterResult : Type 0 where
  pub response : GroundingResponse
  pub telemetry : GroundingLlmTelemetry
  pub transport_normalization : TransportNormalization
  pub knowledge_omission_mapping_ignored : List String
  pub knowledge_retirement_audit_sidecar : Option KnowledgeRetirementAuditSidecar

pub record GroundingUpdaterError : Type 0 where
  pub reason : String
  pub telemetry : GroundingLlmTelemetry
  pub rejected_mapping_payload : Option String
  pub validation_detail : Option String

-- `propose` returns a result, raises `GroundingUpdaterError`, or raises something else.
pub data Proposal : Type 0 where
  proposed : GroundingUpdaterResult → Proposal
  refused : GroundingUpdaterError → Proposal
  crashed : Raised → Proposal
