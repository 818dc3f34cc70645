-- ===== src/Callbacks/Records.antt =====
-- grounding_callbacks.py: the records of the callbacks, each with `to_json` and `from_json`. A field
-- whose type `from_json` does not test stays JSON.
pub mod Audited
pub mod Stable
pub mod RoundTrip
use valibra.Prelude.{
  ℕ, String, Bool, true, false, not, ◌&&◌, ◌||◌, Option, none, some, List, [], ◌∷◌, leb, Result, ok,
  err, check, raise_if, ◌>>=◌, ◌>>◌, if◌then◌else◌, ◌==◌, string_eq,
}
use valibra.Prelude.Json.{pos, Json, null, bool, int, text, obj, Fields, end, field}
use valibra.Telemetry.{is_sha256}
use valibra.Callbacks.Values.{
  Failure, value_error, type_error, is_identifier, object_value, value_of, has_names, matching,
  short_value, bounded_value, phase_value, sequence_value, exact_sequence, exact_text, member_text,
  exact_bool, exact_nat,
}

pub record PendingToolCall : Type 0 where
  pub function_call_id : String
  pub tool_name : Json
  pub phase_before : Json
  pub args_digest : String
  pub args_summary : Json
  pub sequence : Json
  pub control_gate_audit : Option Fields

pub record BlockedSubmitCall : Type 0 where
  pub function_call_id : String
  pub tool_name : String
  pub args_digest : String
  pub gate_reason : String
  pub stage : String
  pub focus : String
  pub denial_sha256 : String
  pub sequence : ℕ
  pub gate_audit : Fields

pub record SuppressedBootstrapCall : Type 0 where
  pub function_call_id : String
  pub tool_name : String
  pub args_digest : String
  pub response_sha256 : String
  pub sequence : ℕ

pub record FailedClosedToolCall : Type 0 where
  pub function_call_id : String
  pub tool_name : Json
  pub phase : Json
  pub response_sha256 : String

pub data PhaseStatus : Type 0 where
  succeeded failed : PhaseStatus

pub record PhaseGroundingOutcome : Type 0 where
  pub phase : Json
  pub status : PhaseStatus
  pub observation_id : String
  pub error_type : Option String
  pub provider_attempted : Bool
  pub grounding_revision : ℕ
  pub state_sha256 : String

-- The optional values of `to_json`.
abbrev pub optional_object : Option Fields → Json
optional_object none = null
optional_object (some fields) = obj fields

abbrev pub optional_text : Option String → Json
optional_text none = null
optional_text (some s) = text s

abbrev pub status_text : PhaseStatus → Json
status_text succeeded = text "succeeded"
status_text failed = text "failed"

unfoldable pub pending_to_json : PendingToolCall → Json
pending_to_json r = obj (
    field "function_call_id" (text r.function_call_id) (
      field "tool_name" r.tool_name (
        field "phase_before" r.phase_before (
          field "args_digest" (text r.args_digest) (
            field "args_summary" r.args_summary (
              field "sequence" r.sequence
                (field "control_gate_audit" (optional_object r.control_gate_audit) end)))))))

unfoldable pub blocked_to_json : BlockedSubmitCall → Json
blocked_to_json r = obj (
    field "function_call_id" (text r.function_call_id) (
      field "tool_name" (text r.tool_name) (
        field "args_digest" (text r.args_digest) (
          field "gate_reason" (text r.gate_reason) (
            field "stage" (text r.stage) (
              field "focus" (text r.focus) (
                field "denial_sha256" (text r.denial_sha256) (
                  field "sequence" (int (pos r.sequence))
                    (field "gate_audit" (obj r.gate_audit) end)))))))))

unfoldable pub suppressed_to_json : SuppressedBootstrapCall → Json
suppressed_to_json r = obj (
    field "function_call_id" (text r.function_call_id) (
      field "tool_name" (text r.tool_name) (
        field "args_digest" (text r.args_digest) (
          field "response_sha256" (text r.response_sha256)
            (field "sequence" (int (pos r.sequence)) end)))))

unfoldable pub failed_closed_to_json : FailedClosedToolCall → Json
failed_closed_to_json r = obj (
    field "function_call_id" (text r.function_call_id) (
      field "tool_name" r.tool_name
        (field "phase" r.phase (field "response_sha256" (text r.response_sha256) end))))

unfoldable pub outcome_to_json : PhaseGroundingOutcome → Json
outcome_to_json r = obj (
    field "phase" r.phase (
      field "status" (status_text r.status) (
        field "observation_id" (text r.observation_id) (
          field "error_type" (optional_text r.error_type) (
            field "provider_attempted" (bool r.provider_attempted) (
              field "grounding_revision" (int (pos r.grounding_revision))
                (field "state_sha256" (text r.state_sha256) end)))))))

-- The set of names that each `from_json` requires.
abbrev suppressed_names : List String
suppressed_names =
    "function_call_id" ∷ "tool_name" ∷ "args_digest" ∷ "response_sha256" ∷ "sequence" ∷ []

abbrev failed_closed_names : List String
failed_closed_names = "function_call_id" ∷ "tool_name" ∷ "phase" ∷ "response_sha256" ∷ []

abbrev outcome_names : List String
outcome_names =
    "phase" ∷ "status" ∷ "observation_id" ∷ "error_type" ∷ "provider_attempted"
    ∷ "grounding_revision" ∷ "state_sha256" ∷ []

-- `_BOOTSTRAP_TOOL_SEQUENCE`.
abbrev pub bootstrap_tool_sequence : List String
bootstrap_tool_sequence =
    "get_schema" ∷ "get_all_column_meanings" ∷ "get_all_knowledge_definitions" ∷ []

unfoldable pub status_value : Json → Result Failure PhaseStatus
unfolding member_text
status_value j =
    member_text ("succeeded" ∷ "failed" ∷ []) "invalid phase Grounding outcome status" j >>= λ s.
    if s == "succeeded" then ok succeeded else ok failed

-- The error type that a status allows.
unfoldable pub error_type_value : PhaseStatus → Json → Result Failure (Option String)
error_type_value succeeded null = ok none
error_type_value succeeded _ = err (value_error "successful phase Grounding cannot have an error")
error_type_value failed (text s) =
    check (is_identifier s) (value_error "failed phase Grounding requires a bounded error") (some s)
error_type_value failed _ = err (value_error "failed phase Grounding requires a bounded error")

-- The fields, read in the order of the tests.
unfoldable pub suppressed_fields : Fields → Result Failure SuppressedBootstrapCall
suppressed_fields payload = do
  function_call_id ←
      matching is_identifier "invalid suppressed-bootstrap function_call_id"
        (value_of "function_call_id" payload)
  tool_name ←
      member_text bootstrap_tool_sequence "invalid suppressed-bootstrap tool"
        (value_of "tool_name" payload)
  args_digest ←
      matching is_sha256 "invalid suppressed-bootstrap digest" (value_of "args_digest" payload)
  response_sha256 ←
      matching is_sha256 "invalid suppressed-bootstrap digest" (value_of "response_sha256" payload)
  sequence ← exact_sequence "invalid suppressed-bootstrap sequence" (value_of "sequence" payload)
  ok (record {
    function_call_id = function_call_id;
    tool_name = tool_name;
    args_digest = args_digest;
    response_sha256 = response_sha256;
    sequence = sequence;
  })

unfoldable pub suppressed_from_json : Json → Result Failure SuppressedBootstrapCall
suppressed_from_json =
    object_value (has_names suppressed_names) "invalid suppressed-bootstrap record"
      suppressed_fields

-- The fields, read in the order of the tests.
unfoldable pub failed_closed_fields : Fields → Result Failure FailedClosedToolCall
failed_closed_fields payload = do
  function_call_id ←
      matching is_identifier "invalid failed-closed function_call_id"
        (value_of "function_call_id" payload)
  tool_name ← bounded_value 64 "invalid failed-closed tool name" (value_of "tool_name" payload)
  phase ← phase_value "invalid failed-closed phase" (value_of "phase" payload)
  response_sha256 ←
      matching is_sha256 "invalid failed-closed response SHA" (value_of "response_sha256" payload)
  ok (record {
    function_call_id = function_call_id;
    tool_name = tool_name;
    phase = phase;
    response_sha256 = response_sha256;
  })

unfoldable pub failed_closed_from_json : Json → Result Failure FailedClosedToolCall
failed_closed_from_json =
    object_value (has_names failed_closed_names) "invalid failed-closed tool record"
      failed_closed_fields

-- The fields, read in the order of the tests.
unfoldable pub outcome_fields : Fields → Result Failure PhaseGroundingOutcome
outcome_fields payload = do
  phase ← phase_value "invalid phase Grounding outcome phase" (value_of "phase" payload)
  status ← status_value (value_of "status" payload)
  observation_id ←
      matching is_identifier "invalid phase Grounding observation_id"
        (value_of "observation_id" payload)
  error_type ← error_type_value status (value_of "error_type" payload)
  provider_attempted ←
      exact_bool "invalid phase Grounding attempted flag" (value_of "provider_attempted" payload)
  grounding_revision ←
      exact_nat "invalid phase Grounding revision" (value_of "grounding_revision" payload)
  state_sha256 ←
      matching is_sha256 "invalid phase Grounding State SHA" (value_of "state_sha256" payload)
  ok (record {
    phase = phase;
    status = status;
    observation_id = observation_id;
    error_type = error_type;
    provider_attempted = provider_attempted;
    grounding_revision = grounding_revision;
    state_sha256 = state_sha256;
  })

unfoldable pub outcome_from_json : Json → Result Failure PhaseGroundingOutcome
outcome_from_json =
    object_value (has_names outcome_names) "invalid phase Grounding outcome" outcome_fields
