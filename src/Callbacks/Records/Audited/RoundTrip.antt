-- ===== src/Callbacks/Records/Audited/RoundTrip.antt =====
-- grounding_callbacks.py: every record with a Gate audit that `from_json` lets in is read back from its
-- `to_json`.
use valibra.Prelude.{
  ℕ, ◌≡◌, refl, all, contains, Option, none, some, ok, Result, split_steps, subst, ok_injective,
}
use valibra.Prelude.Json.{Json, null, bool, int, float, text, arr, obj, Fields, keys, get}
use valibra.Telemetry.{is_sha256}
use valibra.Callbacks.Values.{
  Failure, is_identifier, object_value, object_value-eq-ok, value_of, matching, short_value,
  bounded_value, phase_value, sequence_value, exact_sequence, exact_text, member_text,
}
use valibra.Callbacks.Records.{
  PendingToolCall, pending_to_json, BlockedSubmitCall, blocked_to_json, optional_object,
}
use valibra.Callbacks.Records.Audited.{
  pending_fields, pending_from_json, blocked_fields, blocked_from_json, require_bounded_audit,
  gate_audit_value, control_audit_value, blocked_stages, blocked_focuses,
}
use valibra.Callbacks.Records.Stable.{
  matching_again, member_text_again, exact_text_again, exact_sequence_again, phase_value_again,
  sequence_value_again, short_value_again, bounded_value_again,
}

module _ (size : Json → Result Failure ℕ) where
  gate_audit_value_again :
      (j : Json) {a : Fields}
      → gate_audit_value size j ≡ ok a
      → gate_audit_value size (obj a) ≡ ok a
  unfolding gate_audit_value
  gate_audit_value_again (obj b) {a = a} h =
      split_steps (require_bounded_audit size (obj b)) _ h λ u p q.
        let same : b ≡ a = ok_injective q in
        subst (λ x. gate_audit_value size (obj x) ≡ ok a) same h
  gate_audit_value_again null h = cc
  gate_audit_value_again (bool _) h = cc
  gate_audit_value_again (int _) h = cc
  gate_audit_value_again (float _) h = cc
  gate_audit_value_again (text _) h = cc
  gate_audit_value_again (arr _) h = cc

  control_audit_value_again :
      (j : Json) {a : Option Fields}
      → control_audit_value size j ≡ ok a
      → control_audit_value size (optional_object a) ≡ ok a
  unfolding control_audit_value
  control_audit_value_again null {a = none} h = refl
  control_audit_value_again null {a = some _} h = cc
  control_audit_value_again (obj b) {a = a} h =
      split_steps (require_bounded_audit size (obj b)) _ h λ u p q.
        let same : some b ≡ a = ok_injective q in
        subst (λ x. control_audit_value size (optional_object x) ≡ ok a) same h
  control_audit_value_again (bool _) h = cc
  control_audit_value_again (int _) h = cc
  control_audit_value_again (float _) h = cc
  control_audit_value_again (text _) h = cc
  control_audit_value_again (arr _) h = cc

  pending_fields_again :
      (p : Fields) {r : PendingToolCall}
      → pending_fields size p ≡ ok r
      → pending_from_json size (pending_to_json r) ≡ ok r
  unfolding pending_fields pending_from_json pending_to_json contains all keys get object_value
  pending_fields_again p {r = r} h =
      split_steps (matching is_identifier _ (value_of "function_call_id" p)) _ h
        λ function_call_id h0 k0.
          split_steps (bounded_value 64 _ (value_of "tool_name" p)) _ k0 λ tool_name h1 k1.
            split_steps (phase_value _ (value_of "phase_before" p)) _ k1 λ phase_before h2 k2.
              split_steps (matching is_sha256 _ (value_of "args_digest" p)) _ k2
                λ args_digest h3 k3.
                  split_steps (short_value 768 _ (value_of "args_summary" p)) _ k3
                    λ args_summary h4 k4.
                      split_steps (sequence_value _ (value_of "sequence" p)) _ k4 λ sequence h5 k5.
                        split_steps (control_audit_value size (value_of "control_gate_audit" p)) _
                          k5
                          λ control_gate_audit h6 k6.
                            let made : PendingToolCall = record {
                              function_call_id = function_call_id;
                              tool_name = tool_name;
                              phase_before = phase_before;
                              args_digest = args_digest;
                              args_summary = args_summary;
                              sequence = sequence;
                              control_gate_audit = control_gate_audit;
                            } in
                            let same : made ≡ r = ok_injective k6 in
                            rw (
                              ← same,
                              matching_again _ _ (value_of "function_call_id" p) h0,
                              bounded_value_again _ _ (value_of "tool_name" p) h1,
                              phase_value_again _ (value_of "phase_before" p) h2,
                              matching_again _ _ (value_of "args_digest" p) h3,
                              short_value_again _ _ (value_of "args_summary" p) h4,
                              sequence_value_again _ (value_of "sequence" p) h5,
                              control_audit_value_again (value_of "control_gate_audit" p) h6,
                            )

  pub pending_from_json-to_json :
      (j : Json) {r : PendingToolCall}
      → pending_from_json size j ≡ ok r
      → pending_from_json size (pending_to_json r) ≡ ok r
  unfolding pending_from_json
  pending_from_json-to_json j h =
      let (p, same, k) = object_value-eq-ok _ _ _ j h in pending_fields_again p k

  blocked_fields_again :
      (p : Fields) {r : BlockedSubmitCall}
      → blocked_fields size p ≡ ok r
      → blocked_from_json size (blocked_to_json r) ≡ ok r
  unfolding blocked_fields blocked_from_json blocked_to_json contains all keys get object_value
  blocked_fields_again p {r = r} h =
      split_steps (matching is_identifier _ (value_of "function_call_id" p)) _ h
        λ function_call_id h0 k0.
          split_steps (exact_text "submit_sql" _ (value_of "tool_name" p)) _ k0 λ tool_name h1 k1.
            split_steps (matching is_sha256 _ (value_of "args_digest" p)) _ k1 λ args_digest h2 k2.
              split_steps (matching is_sha256 _ (value_of "denial_sha256" p)) _ k2
                λ denial_sha256 h3 k3.
                  split_steps (matching is_identifier _ (value_of "gate_reason" p)) _ k3
                    λ gate_reason h4 k4.
                      split_steps (member_text blocked_stages _ (value_of "stage" p)) _ k4
                        λ stage h5 k5.
                          split_steps (member_text blocked_focuses _ (value_of "focus" p)) _ k5
                            λ focus h6 k6.
                              split_steps (exact_sequence _ (value_of "sequence" p)) _ k6
                                λ sequence h7 k7.
                                  split_steps (gate_audit_value size (value_of "gate_audit" p)) _ k7
                                    λ gate_audit h8 k8.
                                      let made : BlockedSubmitCall = record {
                                        function_call_id = function_call_id;
                                        tool_name = tool_name;
                                        args_digest = args_digest;
                                        denial_sha256 = denial_sha256;
                                        gate_reason = gate_reason;
                                        stage = stage;
                                        focus = focus;
                                        sequence = sequence;
                                        gate_audit = gate_audit;
                                      } in
                                      let same : made ≡ r = ok_injective k8 in
                                      rw (
                                        ← same,
                                        matching_again _ _ (value_of "function_call_id" p) h0,
                                        exact_text_again _ _ (value_of "tool_name" p) h1,
                                        matching_again _ _ (value_of "args_digest" p) h2,
                                        matching_again _ _ (value_of "denial_sha256" p) h3,
                                        matching_again _ _ (value_of "gate_reason" p) h4,
                                        member_text_again _ _ (value_of "stage" p) h5,
                                        member_text_again _ _ (value_of "focus" p) h6,
                                        exact_sequence_again _ (value_of "sequence" p) h7,
                                        gate_audit_value_again (value_of "gate_audit" p) h8,
                                      )

  -- Every blocked call that `from_json` lets in, from whatever JSON, is read back as itself from
  -- its own `to_json`.
  pub blocked_from_json-to_json :
      (j : Json) {r : BlockedSubmitCall}
      → blocked_from_json size j ≡ ok r
      → blocked_from_json size (blocked_to_json r) ≡ ok r
  unfolding blocked_from_json
  blocked_from_json-to_json j h =
      let (p, same, k) = object_value-eq-ok _ _ _ j h in blocked_fields_again p k
