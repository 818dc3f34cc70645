-- ===== src/Callbacks/Audits.antt =====
-- grounding_callbacks.py: the bounds of the audits, and the audits of the submit gate, a list under one
-- key of the session.
pub mod Tools
use valibra.Prelude.{
  ℕ, zero, suc, ◌+◌, String, Bool, true, false, not, ◌&&◌, ◌||◌, Option, none, some, List, [], ◌∷◌,
  leb, length, to_int, contains, Result, ok, err, check, raise_if, ◌>>=◌, ◌>>◌, string_eq, nat_eq,
  ◌==◌, ◌!=◌, if◌then◌else◌,
}
use valibra.Prelude.Json.{
  Json, text, arr, obj, Items, nil, cons, Fields, end, field, get, has_key, items,
}
use valibra.Callbacks.Values.{Failure, value_error, key_error, value_of, has_names, is_identifier}
use valibra.Callbacks.Records.Audited.{require_bounded_audit}
use valibra.Callbacks.Session.{Session, put, Records, record_keys, put_record}

-- `_MAX_GATE_AUDITS`, `_MAX_TOOL_AUDITS`, `_MAX_P2_AUDIT_STAGES` and
-- `_MAX_TOOL_AUDIT_RECORD_BYTES`, which is (2 + 4) * 4096 + 256.
abbrev pub max_gate_audits : ℕ
max_gate_audits = 64

abbrev pub max_tool_audits : ℕ
max_tool_audits = 64

abbrev pub max_p2_audit_stages : ℕ
max_p2_audit_stages = 4

abbrev pub max_tool_audit_record_bytes : ℕ
max_tool_audit_record_bytes = 24832

abbrev gate_audits_key : String
gate_audits_key = "valibra:sql_grounding_gate_audits"

-- `value == expected` for a text on the right.
abbrev pub is_text : String → Json → Bool
is_text expected (text value) = value == expected
is_text expected _ = false

-- How many audits have the function_call_id.
unfoldable pub count_of_call : String → List Fields → ℕ
count_of_call id [] = 0
count_of_call id (audit ∷ audits) =
    to_int (is_text id (value_of "function_call_id" audit)) + count_of_call id audits

-- `records[indexes[0]] = dict(audit)`.
unfoldable pub replace_first : String → Fields → List Fields → List Fields
replace_first id new [] = []
replace_first id new (audit ∷ audits) =
    let changed = replace_first id new audits in
    if is_text id (value_of "function_call_id" audit) then new ∷ audits else audit ∷ changed

unfoldable pub append_audit : Fields → List Fields → List Fields
append_audit new [] = new ∷ []
append_audit new (audit ∷ audits) = audit ∷ append_audit new audits

unfoldable pub audit_items : List Fields → Items
audit_items [] = nil
audit_items (audit ∷ audits) = cons (obj audit) (audit_items audits)

-- The audit with its composite emptied.
abbrev header_of : Fields → Fields
header_of metadata = put "p2_follow_up" (obj (field "staged_grounding" (arr nil) end)) metadata

-- `encoded_size` is the length of the canonical JSON in UTF-8, which `json.dumps` gives.
module _ (encoded_size : Json → Result Failure ℕ) where
  -- One stage of a composite, which holds no composite itself.
  unfoldable pub require_stage : String → Json → Result Failure Unit
  require_stage expected (obj stage) = do
    raise_if
        (not (is_text expected (value_of "staged_grounding_kind" stage))
          || has_key "p2_follow_up" stage)
        (value_error "invalid P2 tool audit stage")
    require_bounded_audit encoded_size (obj stage)
  require_stage expected _ = err (value_error "invalid P2 tool audit stage")

  -- There are at most as many stages as names: `expected[index]` never raises.
  unfoldable pub require_stages : List String → List Json → Result Failure Unit
  require_stages expected [] = ok tt
  require_stages [] (stage ∷ stages) = err key_error
  require_stages (kind ∷ expected) (stage ∷ stages) =
      require_stage kind stage >> require_stages expected stages

  unfoldable pub require_staged : Json → Result Failure Unit
  require_staged (arr stages) =
      raise_if
        (not (leb 1 (length (items stages)) && leb (length (items stages)) max_p2_audit_stages))
        (value_error "invalid P2 tool audit stage count")
      >> require_stages ("structure" ∷ "mapping" ∷ "knowledge" ∷ "check" ∷ []) (items stages)
  require_staged _ = err (value_error "invalid P2 tool audit stage count")

  unfoldable pub require_follow_up : Json → Result Failure Unit
  require_follow_up (obj follow_up) =
      raise_if (not (has_names ("staged_grounding" ∷ []) follow_up))
        (value_error "invalid P2 tool audit envelope")
      >> require_staged (value_of "staged_grounding" follow_up)
  require_follow_up _ = err (value_error "invalid P2 tool audit envelope")

  unfoldable pub require_bounded_tool_audit : Json → Result Failure Unit
  require_bounded_tool_audit (obj metadata) =
      if not (has_key "p2_follow_up" metadata)
      then require_bounded_audit encoded_size (obj metadata)
      else require_follow_up (value_of "p2_follow_up" metadata)
        >> require_bounded_audit encoded_size (obj (header_of metadata))
  require_bounded_tool_audit _ = err (value_error "invalid tool callback audit")

  unfoldable pub read_gate_audits : List Json → Result Failure (List Fields)
  read_gate_audits [] = ok []
  read_gate_audits (obj audit ∷ values) = do
    _ ← require_bounded_audit encoded_size (obj audit)
    audits ← read_gate_audits values
    ok (audit ∷ audits)
  read_gate_audits (_ ∷ values) = err (value_error "active Gate audit must be an object")

  unfoldable pub load_gate_payload : Json → Result Failure (List Fields)
  load_gate_payload (arr values) =
      raise_if (not (leb (length (items values)) max_gate_audits))
        (value_error "invalid active Gate audit store")
      >> read_gate_audits (items values)
  load_gate_payload _ = err (value_error "invalid active Gate audit store")

  unfoldable pub load_gate_audits : Session → Result Failure (List Fields)
  load_gate_audits s =
      load_gate_payload (elim (get gate_audits_key s) [ none ↦ arr nil | some value ↦ value ])

  -- The audits with the new one in the place of the call's own, or behind the others.
  unfoldable pub place_gate_audit : String → Fields → List Fields → ℕ → Result Failure (List Fields)
  place_gate_audit id audit records zero =
      raise_if (leb max_gate_audits (length records))
        (value_error "active Gate audit store is full")
      >> ok (append_audit audit records)
  place_gate_audit id audit records (suc zero) = ok (replace_first id audit records)
  place_gate_audit id audit records (suc (suc n)) = err (value_error "duplicate active Gate audits")

  abbrev exact_call_id : Json → Result Failure String
  exact_call_id (text id) =
      check (is_identifier id) (value_error "active Gate audit requires exact function_call_id") id
  exact_call_id _ = err (value_error "active Gate audit requires exact function_call_id")

  unfoldable pub upsert_gate_audit : Fields → Session → Result Failure Session
  upsert_gate_audit audit s = do
    _ ← require_bounded_audit encoded_size (obj audit)
    id ← exact_call_id (value_of "function_call_id" audit)
    records ← load_gate_audits s
    changed ← place_gate_audit id audit records (count_of_call id records)
    ok (put gate_audits_key (arr (audit_items changed)) s)
