-- ===== src/Callbacks/Records/Audited.antt =====
-- grounding_callbacks.py: `from_json` of the records that carry a Gate audit, whose size is bounded.
pub mod RoundTrip
use valibra.Prelude.{
  ℕ, String, Bool, true, false, not, ◌&&◌, ◌||◌, Option, none, some, List, [], ◌∷◌, leb, Result, ok,
  err, check, raise_if, ◌>>=◌, ◌>>◌, if◌then◌else◌, ◌==◌, string_eq,
}
use valibra.Prelude.Json.{pos, Json, null, bool, int, text, obj, Fields, end, field}
use valibra.Telemetry.{is_sha256}
use valibra.Callbacks.Values.{
  Failure, value_error, type_error, is_identifier, object_value, value_of, has_names, matching,
  short_value, bounded_value, phase_value, sequence_value, exact_sequence, exact_text, member_text,
  exact_bool, exact_nat,
}
use valibra.Callbacks.Records.{PendingToolCall, BlockedSubmitCall}

abbrev pending_names : List String
pending_names =
    "function_call_id" ∷ "tool_name" ∷ "phase_before" ∷ "args_digest" ∷ "args_summary" ∷ "sequence"
    ∷ []

abbrev blocked_names : List String
blocked_names =
    "function_call_id" ∷ "tool_name" ∷ "args_digest" ∷ "gate_reason" ∷ "stage" ∷ "focus"
    ∷ "denial_sha256" ∷ "sequence" ∷ "gate_audit" ∷ []

abbrev pub blocked_stages : List String
blocked_stages = "INITIAL_GROUNDING" ∷ "SQL_ATTEMPT" ∷ "P2_INCREMENTAL" ∷ "DONE" ∷ []

abbrev pub blocked_focuses : List String
blocked_focuses = "tables" ∷ "join_keys" ∷ "column_mapping" ∷ "domain_knowledge" ∷ "none" ∷ []

-- `encoded_size` stands for `len(canonical_json(value).encode("utf-8"))`, which `json` computes.
module _ (encoded_size : Json → Result Failure ℕ) where
  -- `_require_bounded_audit`.
  unfoldable pub require_bounded_audit : Json → Result Failure Unit
  require_bounded_audit metadata = encoded_size metadata >>= λ size.
      raise_if (not (leb size 4096)) (value_error "SQL Grounding audit exceeds bounded size")

  unfoldable pub gate_audit_value : Json → Result Failure Fields
  unfolding require_bounded_audit
  gate_audit_value (obj audit) = require_bounded_audit (obj audit) >>= λ _. ok audit
  gate_audit_value _ = err (value_error "invalid blocked-submit Gate audit")

  unfoldable pub control_audit_value : Json → Result Failure (Option Fields)
  unfolding require_bounded_audit
  control_audit_value null = ok none
  control_audit_value (obj audit) = require_bounded_audit (obj audit) >>= λ _. ok (some audit)
  control_audit_value _ = err (value_error "invalid pending Control audit")

  -- The fields, read in the order of the tests.
  unfoldable pub pending_fields : Fields → Result Failure PendingToolCall
  pending_fields payload = do
    function_call_id ←
        matching is_identifier "invalid pending function_call_id"
          (value_of "function_call_id" payload)
    tool_name ← bounded_value 64 "invalid pending tool_name" (value_of "tool_name" payload)
    phase_before ← phase_value "invalid pending phase" (value_of "phase_before" payload)
    args_digest ← matching is_sha256 "invalid pending args digest" (value_of "args_digest" payload)
    args_summary ←
        short_value 768 "pending args summary is too large" (value_of "args_summary" payload)
    sequence ← sequence_value "invalid pending sequence" (value_of "sequence" payload)
    control_gate_audit ← control_audit_value (value_of "control_gate_audit" payload)
    ok (record {
      function_call_id = function_call_id;
      tool_name = tool_name;
      phase_before = phase_before;
      args_digest = args_digest;
      args_summary = args_summary;
      sequence = sequence;
      control_gate_audit = control_gate_audit;
    })

  unfoldable pub pending_from_json : Json → Result Failure PendingToolCall
  pending_from_json =
      object_value
        (λ payload.
          has_names pending_names payload
          || has_names ("control_gate_audit" ∷ pending_names) payload)
        "invalid SQL Grounding pending record" pending_fields

  -- The fields, read in the order of the tests.
  unfoldable pub blocked_fields : Fields → Result Failure BlockedSubmitCall
  blocked_fields payload = do
    function_call_id ←
        matching is_identifier "invalid blocked-submit function_call_id"
          (value_of "function_call_id" payload)
    tool_name ←
        exact_text "submit_sql" "blocked record must be submit_sql" (value_of "tool_name" payload)
    args_digest ←
        matching is_sha256 "invalid blocked-submit args digest" (value_of "args_digest" payload)
    denial_sha256 ←
        matching is_sha256 "invalid blocked-submit denial digest" (value_of "denial_sha256" payload)
    gate_reason ←
        matching is_identifier "invalid blocked-submit Gate reason" (value_of "gate_reason" payload)
    stage ← member_text blocked_stages "invalid blocked-submit stage" (value_of "stage" payload)
    focus ← member_text blocked_focuses "invalid blocked-submit focus" (value_of "focus" payload)
    sequence ← exact_sequence "invalid blocked-submit sequence" (value_of "sequence" payload)
    gate_audit ← gate_audit_value (value_of "gate_audit" payload)
    ok (record {
      function_call_id = function_call_id;
      tool_name = tool_name;
      args_digest = args_digest;
      gate_reason = gate_reason;
      stage = stage;
      focus = focus;
      denial_sha256 = denial_sha256;
      sequence = sequence;
      gate_audit = gate_audit;
    })

  unfoldable pub blocked_from_json : Json → Result Failure BlockedSubmitCall
  blocked_from_json =
      object_value (has_names blocked_names) "invalid blocked-submit record" blocked_fields
