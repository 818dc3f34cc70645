-- ===== src/Callbacks/Stores.antt =====
-- grounding_callbacks.py: the four stores of calls, each with its key, its limit, its messages and
-- its operations.
use valibra.Prelude.{
  ℕ, String, Bool, true, false, Option, none, some, Result, ok, err, if◌then◌else◌,
}
use valibra.Prelude.Json.{Json, text}
use valibra.Callbacks.Values.{Failure, is_identifier}
use valibra.Callbacks.Session.{Session, Records}
use valibra.Callbacks.Records.{
  PendingToolCall, pending_to_json, BlockedSubmitCall, blocked_to_json, SuppressedBootstrapCall,
  suppressed_to_json, suppressed_from_json, FailedClosedToolCall, failed_closed_to_json,
  failed_closed_from_json,
}
use valibra.Callbacks.Records.Audited.{pending_from_json, blocked_from_json}
use valibra.Callbacks.Records.Audited.RoundTrip.{
  pending_from_json-to_json, blocked_from_json-to_json,
}
use valibra.Callbacks.Records.RoundTrip.{
  suppressed_from_json-to_json, failed_closed_from_json-to_json,
}
use valibra.Callbacks.Store.{
  Codec, StoreShape, load_records, store_records, add_record, pop_record, call_present,
  cleanup_call,
}

-- `_valid_context_identifier`: the context's `function_call_id`, where it is an identifier.
unfoldable pub valid_context_identifier : Json → Option String
valid_context_identifier (text s) = if is_identifier s then some s else none
valid_context_identifier _ = none

abbrev pub blocked_shape : StoreShape
blocked_shape = record {
  state_key = "valibra:sql_grounding_blocked_submits";
  limit = 64;
  allows_key = λ _. true;
  invalid_store = "invalid blocked-submit store";
  invalid_key = "blocked-submit key must be a string";
  mismatched_key = "blocked-submit key does not match function_call_id";
  too_many = "too many blocked-submit records";
  duplicate = "duplicate blocked-submit function_call_id";
  checks_added = true;
  checks_stored = true;
}

abbrev pub suppressed_shape : StoreShape
suppressed_shape = record {
  state_key = "valibra:sql_grounding_suppressed_bootstrap";
  limit = 64;
  allows_key = λ _. true;
  invalid_store = "invalid suppressed-bootstrap store";
  invalid_key = "suppressed-bootstrap key must be a string";
  mismatched_key = "suppressed-bootstrap key does not match function_call_id";
  too_many = "too many suppressed-bootstrap records";
  duplicate = "duplicate suppressed-bootstrap function_call_id";
  checks_added = true;
  checks_stored = true;
}

abbrev pub pending_shape : StoreShape
pending_shape = record {
  state_key = "valibra:sql_grounding_pending";
  limit = 64;
  allows_key = λ _. true;
  invalid_store = "invalid SQL Grounding pending store";
  invalid_key = "pending key must be a string";
  mismatched_key = "pending key does not match function_call_id";
  too_many = "too many pending SQL Grounding calls";
  duplicate = "duplicate pending function_call_id";
  checks_added = false;
  checks_stored = false;
}

abbrev pub failed_closed_shape : StoreShape
failed_closed_shape = record {
  state_key = "valibra:sql_grounding_failed_closed_calls";
  limit = 64;
  allows_key = λ _. true;
  invalid_store = "invalid failed-closed call store";
  invalid_key = "";
  mismatched_key = "failed-closed call key mismatch";
  too_many = "failed-closed call store is full";
  duplicate = "duplicate failed-closed function_call_id";
  checks_added = false;
  checks_stored = true;
}

abbrev pub suppressed_codec : Codec SuppressedBootstrapCall
suppressed_codec = record {
  to_json = suppressed_to_json;
  from_json = suppressed_from_json;
  call_id = λ r. r.function_call_id;
  from_json-to_json = λ j r h. suppressed_from_json-to_json j h;
}

abbrev pub failed_closed_codec : Codec FailedClosedToolCall
failed_closed_codec = record {
  to_json = failed_closed_to_json;
  from_json = failed_closed_from_json;
  call_id = λ r. r.function_call_id;
  from_json-to_json = λ j r h. failed_closed_from_json-to_json j h;
}

module _ (encoded_size : Json → Result Failure ℕ) where
  abbrev pub pending_codec : Codec PendingToolCall
  pending_codec = record {
    to_json = pending_to_json;
    from_json = pending_from_json encoded_size;
    call_id = λ r. r.function_call_id;
    from_json-to_json = λ j r h. pending_from_json-to_json encoded_size j h;
  }

  abbrev pub blocked_codec : Codec BlockedSubmitCall
  blocked_codec = record {
    to_json = blocked_to_json;
    from_json = blocked_from_json encoded_size;
    call_id = λ r. r.function_call_id;
    from_json-to_json = λ j r h. blocked_from_json-to_json encoded_size j h;
  }

  unfoldable pub load_blocked_submits : Session → Result Failure (Records BlockedSubmitCall)
  load_blocked_submits = load_records blocked_codec blocked_shape

  unfoldable pub store_blocked_submits :
      Records BlockedSubmitCall → Session → Result Failure Session
  store_blocked_submits = store_records blocked_codec blocked_shape

  unfoldable pub add_blocked_submit : BlockedSubmitCall → Session → Result Failure Session
  add_blocked_submit = add_record blocked_codec blocked_shape

  unfoldable pub pop_blocked_submit :
      String → Session → Result Failure (Option BlockedSubmitCall × Session)
  pop_blocked_submit = pop_record blocked_codec blocked_shape

  unfoldable pub load_pending : Session → Result Failure (Records PendingToolCall)
  load_pending = load_records pending_codec pending_shape

  unfoldable pub store_pending : Records PendingToolCall → Session → Result Failure Session
  store_pending = store_records pending_codec pending_shape

  unfoldable pub add_pending : PendingToolCall → Session → Result Failure Session
  add_pending = add_record pending_codec pending_shape

  unfoldable pub pop_pending : String → Session → Result Failure (Option PendingToolCall × Session)
  pop_pending = pop_record pending_codec pending_shape

  -- A pop whose exceptions are swallowed.
  unfoldable pub cleanup_pending_best_effort : Json → Session → Session
  unfolding valid_context_identifier pop_pending
  cleanup_pending_best_effort context_id s = elim (valid_context_identifier context_id) [
    | none ↦ s
    | some function_call_id ↦ elim (pop_pending function_call_id s) [
      | ok popped ↦ popped.1
      | err _ ↦ s
    ]
  ]

unfoldable pub load_suppressed_bootstrap :
    Session → Result Failure (Records SuppressedBootstrapCall)
load_suppressed_bootstrap = load_records suppressed_codec suppressed_shape

unfoldable pub store_suppressed_bootstrap :
    Records SuppressedBootstrapCall → Session → Result Failure Session
store_suppressed_bootstrap = store_records suppressed_codec suppressed_shape

unfoldable pub add_suppressed_bootstrap : SuppressedBootstrapCall → Session → Result Failure Session
add_suppressed_bootstrap = add_record suppressed_codec suppressed_shape

unfoldable pub pop_suppressed_bootstrap :
    String → Session → Result Failure (Option SuppressedBootstrapCall × Session)
pop_suppressed_bootstrap = pop_record suppressed_codec suppressed_shape

unfoldable pub load_failed_closed_calls : Session → Result Failure (Records FailedClosedToolCall)
load_failed_closed_calls = load_records failed_closed_codec failed_closed_shape

unfoldable pub store_failed_closed_calls :
    Records FailedClosedToolCall → Session → Result Failure Session
store_failed_closed_calls = store_records failed_closed_codec failed_closed_shape

unfoldable pub add_failed_closed_call : FailedClosedToolCall → Session → Result Failure Session
add_failed_closed_call = add_record failed_closed_codec failed_closed_shape

unfoldable pub pop_failed_closed_call :
    String → Session → Result Failure (Option FailedClosedToolCall × Session)
pop_failed_closed_call = pop_record failed_closed_codec failed_closed_shape

unfoldable pub blocked_submit_present : String → Session → Bool
blocked_submit_present = call_present blocked_shape.state_key

unfoldable pub suppressed_bootstrap_present : String → Session → Bool
suppressed_bootstrap_present = call_present suppressed_shape.state_key

unfoldable pub failed_closed_call_present : String → Session → Bool
failed_closed_call_present = call_present failed_closed_shape.state_key

unfoldable pub cleanup_blocked_best_effort : Json → Session → Session
unfolding valid_context_identifier
cleanup_blocked_best_effort context_id =
    cleanup_call blocked_shape.state_key (valid_context_identifier context_id)

unfoldable pub cleanup_suppressed_bootstrap_best_effort : Json → Session → Session
unfolding valid_context_identifier
cleanup_suppressed_bootstrap_best_effort context_id =
    cleanup_call suppressed_shape.state_key (valid_context_identifier context_id)
