-- ===== src/Callbacks/Records/RoundTrip.antt =====
-- grounding_callbacks.py: every record that a `from_json` lets in is read back from its `to_json`.
use valibra.Prelude.{◌≡◌, all, contains, ok, split_steps, ok_injective}
use valibra.Prelude.Json.{Json, Fields, keys, get}
use valibra.Telemetry.{is_sha256}
use valibra.Callbacks.Values.{
  is_identifier, object_value, object_value-eq-ok, value_of, matching, bounded_value, phase_value,
  exact_sequence, member_text, exact_bool, exact_nat,
}
use valibra.Callbacks.Records.{
  SuppressedBootstrapCall, suppressed_fields, suppressed_from_json, suppressed_to_json,
  FailedClosedToolCall, failed_closed_fields, failed_closed_from_json, failed_closed_to_json,
  PhaseGroundingOutcome, outcome_fields, outcome_from_json, outcome_to_json, status_value,
  error_type_value, bootstrap_tool_sequence,
}
use valibra.Callbacks.Records.Stable.{
  matching_again, member_text_again, exact_sequence_again, phase_value_again, bounded_value_again,
  status_value_again, error_type_value_again,
}

suppressed_fields_again :
    (p : Fields) {r : SuppressedBootstrapCall}
    → suppressed_fields p ≡ ok r
    → suppressed_from_json (suppressed_to_json r) ≡ ok r
unfolding suppressed_fields suppressed_from_json suppressed_to_json contains all keys get
    object_value
suppressed_fields_again p {r = r} h =
    split_steps (matching is_identifier _ (value_of "function_call_id" p)) _ h
      λ function_call_id h0 k0.
        split_steps (member_text bootstrap_tool_sequence _ (value_of "tool_name" p)) _ k0
          λ tool_name h1 k1.
            split_steps (matching is_sha256 _ (value_of "args_digest" p)) _ k1 λ args_digest h2 k2.
              split_steps (matching is_sha256 _ (value_of "response_sha256" p)) _ k2
                λ response_sha256 h3 k3.
                  split_steps (exact_sequence _ (value_of "sequence" p)) _ k3 λ sequence h4 k4.
                    let made : SuppressedBootstrapCall = record {
                      function_call_id = function_call_id;
                      tool_name = tool_name;
                      args_digest = args_digest;
                      response_sha256 = response_sha256;
                      sequence = sequence;
                    } in
                    let same : made ≡ r = ok_injective k4 in
                    rw (
                      ← same,
                      matching_again _ _ (value_of "function_call_id" p) h0,
                      member_text_again _ _ (value_of "tool_name" p) h1,
                      matching_again _ _ (value_of "args_digest" p) h2,
                      matching_again _ _ (value_of "response_sha256" p) h3,
                      exact_sequence_again _ (value_of "sequence" p) h4,
                    )

pub suppressed_from_json-to_json :
    (j : Json) {r : SuppressedBootstrapCall}
    → suppressed_from_json j ≡ ok r
    → suppressed_from_json (suppressed_to_json r) ≡ ok r
unfolding suppressed_from_json
suppressed_from_json-to_json j h =
    let (p, same, k) = object_value-eq-ok _ _ _ j h in suppressed_fields_again p k

failed_closed_fields_again :
    (p : Fields) {r : FailedClosedToolCall}
    → failed_closed_fields p ≡ ok r
    → failed_closed_from_json (failed_closed_to_json r) ≡ ok r
unfolding failed_closed_fields failed_closed_from_json failed_closed_to_json contains all keys get
    object_value
failed_closed_fields_again p {r = r} h =
    split_steps (matching is_identifier _ (value_of "function_call_id" p)) _ h
      λ function_call_id h0 k0.
        split_steps (bounded_value 64 _ (value_of "tool_name" p)) _ k0 λ tool_name h1 k1.
          split_steps (phase_value _ (value_of "phase" p)) _ k1 λ phase h2 k2.
            split_steps (matching is_sha256 _ (value_of "response_sha256" p)) _ k2
              λ response_sha256 h3 k3.
                let made : FailedClosedToolCall = record {
                  function_call_id = function_call_id;
                  tool_name = tool_name;
                  phase = phase;
                  response_sha256 = response_sha256;
                } in
                let same : made ≡ r = ok_injective k3 in
                rw (
                  ← same,
                  matching_again _ _ (value_of "function_call_id" p) h0,
                  bounded_value_again _ _ (value_of "tool_name" p) h1,
                  phase_value_again _ (value_of "phase" p) h2,
                  matching_again _ _ (value_of "response_sha256" p) h3,
                )

pub failed_closed_from_json-to_json :
    (j : Json) {r : FailedClosedToolCall}
    → failed_closed_from_json j ≡ ok r
    → failed_closed_from_json (failed_closed_to_json r) ≡ ok r
unfolding failed_closed_from_json
failed_closed_from_json-to_json j h =
    let (p, same, k) = object_value-eq-ok _ _ _ j h in failed_closed_fields_again p k

outcome_fields_again :
    (p : Fields) {r : PhaseGroundingOutcome}
    → outcome_fields p ≡ ok r
    → outcome_from_json (outcome_to_json r) ≡ ok r
unfolding outcome_fields outcome_from_json outcome_to_json contains all keys get object_value
    exact_bool exact_nat
outcome_fields_again p {r = r} h =
    split_steps (phase_value _ (value_of "phase" p)) _ h λ phase h0 k0.
      split_steps (status_value (value_of "status" p)) _ k0 λ status h1 k1.
        split_steps (matching is_identifier _ (value_of "observation_id" p)) _ k1
          λ observation_id h2 k2.
            split_steps (error_type_value status (value_of "error_type" p)) _ k2 λ error_type h3 k3.
              split_steps (exact_bool _ (value_of "provider_attempted" p)) _ k3
                λ provider_attempted h4 k4.
                  split_steps (exact_nat _ (value_of "grounding_revision" p)) _ k4
                    λ grounding_revision h5 k5.
                      split_steps (matching is_sha256 _ (value_of "state_sha256" p)) _ k5
                        λ state_sha256 h6 k6.
                          let made : PhaseGroundingOutcome = record {
                            phase = phase;
                            status = status;
                            observation_id = observation_id;
                            error_type = error_type;
                            provider_attempted = provider_attempted;
                            grounding_revision = grounding_revision;
                            state_sha256 = state_sha256;
                          } in
                          let same : made ≡ r = ok_injective k6 in
                          rw (
                            ← same,
                            phase_value_again _ (value_of "phase" p) h0,
                            status_value_again status,
                            matching_again _ _ (value_of "observation_id" p) h2,
                            error_type_value_again _ (value_of "error_type" p) h3,
                            matching_again _ _ (value_of "state_sha256" p) h6,
                          )

pub outcome_from_json-to_json :
    (j : Json) {r : PhaseGroundingOutcome}
    → outcome_from_json j ≡ ok r
    → outcome_from_json (outcome_to_json r) ≡ ok r
unfolding outcome_from_json
outcome_from_json-to_json j h =
    let (p, same, k) = object_value-eq-ok _ _ _ j h in outcome_fields_again p k
