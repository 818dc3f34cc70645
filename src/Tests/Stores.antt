-- ===== src/Tests/Stores.antt =====
-- grounding_callbacks.py: a blocked call and a suppressed call, through JSON and through their store.
use valibra.Callbacks.Values.{
  object_value, matching, is_identifier, exact_text, member_text, exact_sequence, Failure,
}
use valibra.Callbacks.Records.Audited.{blocked_fields, gate_audit_value, blocked_from_json}
use valibra.Telemetry.{is_sha256}
use valibra.Callbacks.Records.{
  suppressed_fields, BlockedSubmitCall, blocked_to_json, SuppressedBootstrapCall,
  suppressed_to_json, suppressed_from_json,
}
use valibra.Callbacks.Store.{load_payload, load_entries, load_records, add_record, pop_record}
use valibra.Prelude.{
  all, ℕ, ◌≡◌, refl, String, Option, none, some, [], string_eq, Result, ok, arith, contains,
}
use valibra.Prelude.Json.{Json, text, end, field, get, keys}
use valibra.Callbacks.Session.{Session, find_record}
use valibra.Callbacks.Records.Audited.RoundTrip.{blocked_from_json-to_json}
use valibra.Callbacks.Store.Refines.{Holds, KeepsOthers, with_record, add_record-adds}
use valibra.Callbacks.Store.RoundTrip.{IsWithinLimit, pop_record-add_record, writes-IsWithinLimit}
use valibra.Callbacks.Stores.{suppressed_codec, suppressed_shape}

abbrev digest : String
digest = "aaaaaaaaaaaaaaaaaaaaaaaaaaaaaaaaaaaaaaaaaaaaaaaaaaaaaaaaaaaaaaaa"

abbrev small : Json → Result Failure ℕ
small _ = ok 40

abbrev blocked_call : BlockedSubmitCall
blocked_call = record {
  function_call_id = "call-7";
  tool_name = "submit_sql";
  args_digest = digest;
  gate_reason = "pending_user_clarification";
  stage = "INITIAL_GROUNDING";
  focus = "tables";
  denial_sha256 = digest;
  sequence = 3;
  gate_audit = field "control_status" (text "succeeded") end;
}

blocked_read : blocked_from_json small (blocked_to_json blocked_call) ≡ ok blocked_call
unfolding blocked_from_json blocked_to_json object_value all keys contains blocked_fields matching
    get is_identifier exact_text is_sha256 member_text exact_sequence gate_audit_value
blocked_read = refl

blocked_from_json-to_json_example :
    blocked_from_json small (blocked_to_json blocked_call) ≡ ok blocked_call
blocked_from_json-to_json_example =
    blocked_from_json-to_json small (blocked_to_json blocked_call) blocked_read

abbrev call : SuppressedBootstrapCall
call = record {
  function_call_id = "bootstrap-2";
  tool_name = "get_schema";
  args_digest = digest;
  response_sha256 = digest;
  sequence = 5;
}

call_read : suppressed_from_json (suppressed_to_json call) ≡ ok call
unfolding suppressed_from_json suppressed_to_json object_value all keys contains suppressed_fields
    matching get is_identifier member_text is_sha256 exact_sequence
call_read = refl

abbrev session : Session
session = field "task_id" (text "t1") end

loads : load_records suppressed_codec suppressed_shape session ≡ ok []
unfolding load_records load_payload get keys load_entries
loads = refl

new : find_record {R = SuppressedBootstrapCall} "bootstrap-2" [] ≡ none
unfolding find_record
new = refl

add_record-adds_example :
    (s' : Session) × (add_record suppressed_codec suppressed_shape call session ≡ ok s')
    × Holds suppressed_codec suppressed_shape s' (
        with_record suppressed_codec suppressed_shape call
          (λ k. find_record {R = SuppressedBootstrapCall} k []))
    × KeepsOthers suppressed_codec suppressed_shape session s'
add_record-adds_example =
    add_record-adds suppressed_codec suppressed_shape call session (call_read, refl) loads new
      (omega arith)

pop_record-add_record_example :
    (s' : Session) × (s'' : Session) × (add_record suppressed_codec suppressed_shape call session
      ≡ ok s')
    × (pop_record suppressed_codec suppressed_shape "bootstrap-2" s' ≡ ok (some call, s''))
    × Holds suppressed_codec suppressed_shape s''
        (λ k. find_record {R = SuppressedBootstrapCall} k [])
    × KeepsOthers suppressed_codec suppressed_shape session s''
pop_record-add_record_example =
    pop_record-add_record suppressed_codec suppressed_shape call session (call_read, refl) loads new
      (omega arith)

writes-IsWithinLimit_example :
    ((r : SuppressedBootstrapCall) (s' : Session)
      → add_record suppressed_codec suppressed_shape r session ≡ ok s'
      → IsWithinLimit suppressed_codec suppressed_shape s')
    × ((key : String) (q : Option SuppressedBootstrapCall) (s' : Session)
        → pop_record suppressed_codec suppressed_shape key session ≡ ok (q, s')
        → IsWithinLimit suppressed_codec suppressed_shape s')
writes-IsWithinLimit_example = writes-IsWithinLimit suppressed_codec suppressed_shape session
