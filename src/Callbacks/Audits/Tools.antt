-- ===== src/Callbacks/Audits/Tools.antt =====
-- grounding_callbacks.py: the audits of the finished tool calls, a dict by function_call_id under one
-- key of the session.
use valibra.Prelude.{
  ℕ, String, not, ◌&&◌, Option, none, some, [], ◌∷◌, leb, length, contains, Result, ok, err,
  raise_if, ◌>>=◌, ◌>>◌, string_eq, nat_eq,
}
use valibra.Prelude.Json.{keys, Json, text, obj, Fields, end, field, get}
use valibra.Callbacks.Values.{Failure, value_error, value_of, is_identifier}
use valibra.Callbacks.Records.Audited.{require_bounded_audit}
use valibra.Callbacks.Session.{Session, put, Records, record_keys, put_record}
use valibra.Callbacks.Audits.{
  max_tool_audits, max_tool_audit_record_bytes, is_text, require_bounded_tool_audit,
}

abbrev tool_audits_key : String
tool_audits_key = "valibra:sql_grounding_tool_audits"

abbrev shadow_audit_key : String
shadow_audit_key = "valibra_sql_grounding_shadow"

abbrev control_audit_key : String
control_audit_key = "valibra_sql_grounding_control"

unfoldable pub record_fields : Records Fields → Fields
record_fields [] = end
record_fields (e ∷ rest) = field e.0 (obj e.1) (record_fields rest)

-- `encoded_size` is the length of the canonical JSON in UTF-8, which `json.dumps` gives.
module _ (encoded_size : Json → Result Failure ℕ) where
  -- A record of a tool call has at most that many bytes as canonical JSON.
  unfoldable pub require_bounded_record : Fields → Result Failure Unit
  require_bounded_record value = do
    n ← encoded_size (obj value)
    raise_if (not (leb n max_tool_audit_record_bytes))
        (value_error "exact tool callback audit record exceeds bound")

  unfoldable pub require_bounded_control : Option Json → Result Failure Unit
  require_bounded_control none = ok tt
  require_bounded_control (some control) = require_bounded_audit encoded_size control

  unfoldable pub require_tool_record : String → Json → Result Failure Fields
  require_tool_record key (obj value) = do
    raise_if (not (is_text key (value_of "function_call_id" value)))
        (value_error "invalid exact tool callback audit record")
    require_bounded_tool_audit encoded_size (value_of shadow_audit_key value)
    require_bounded_control (get control_audit_key value)
    require_bounded_record value
    ok value
  require_tool_record key _ = err (value_error "invalid exact tool callback audit record")

  unfoldable pub read_tool_audits : Fields → Result Failure (Records Fields)
  read_tool_audits end = ok []
  read_tool_audits (field key value rest) = do
    raise_if (not (is_identifier key)) (value_error "invalid exact tool callback audit key")
    audit ← require_tool_record key value
    records ← read_tool_audits rest
    ok ((key, audit) ∷ records)

  unfoldable pub load_tool_payload : Json → Result Failure (Records Fields)
  load_tool_payload (obj fields) =
      raise_if (not (leb (length (keys fields)) max_tool_audits))
        (value_error "invalid exact tool callback audit store")
      >> read_tool_audits fields
  load_tool_payload _ = err (value_error "invalid exact tool callback audit store")

  unfoldable pub load_tool_callback_audits : Session → Result Failure (Records Fields)
  load_tool_callback_audits s =
      load_tool_payload (elim (get tool_audits_key s) [ none ↦ obj end | some value ↦ value ])

  abbrev with_control : Option Fields → Fields
  with_control none = end
  with_control (some control) = field control_audit_key (obj control) end

  abbrev control_json : Option Fields → Option Json
  control_json none = none
  control_json (some control) = some (obj control)

  abbrev tool_record : String → Fields → Option Fields → Fields
  tool_record id shadow control =
      field "function_call_id" (text id)
        (field shadow_audit_key (obj shadow) (with_control control))

  unfoldable pub upsert_tool_callback_audit :
      String → Fields → Option Fields → Session → Result Failure Session
  upsert_tool_callback_audit id shadow control s = do
    raise_if (not (is_identifier id))
        (value_error "exact tool callback audit requires function_call_id")
    require_bounded_tool_audit encoded_size (obj shadow)
    require_bounded_control (control_json control)
    records ← load_tool_callback_audits s
    n ← encoded_size (obj (tool_record id shadow control))
    raise_if (not (leb n max_tool_audit_record_bytes))
        (value_error "exact tool callback audit record exceeds bound")
    raise_if (not (contains id (record_keys records)) && leb max_tool_audits (length records))
        (value_error "exact tool callback audit store is full")
    ok (
        put tool_audits_key
          (obj (record_fields (put_record id (tool_record id shadow control) records))) s)
