-- ===== src/Callbacks/Store.antt =====
-- grounding_callbacks.py: the stores of pending, blocked, suppressed and failed-closed calls. They
-- share one shape: a dict of records by function_call_id under one key of the session, loaded and
-- checked as a whole, changed, and written back in the order of the keys.
pub mod Laws
pub mod Refines
pub mod RoundTrip
use valibra.Prelude.{
  ℕ, ◌≡◌, String, Bool, true, false, not, ◌||◌, all, Option, none, some, List, [], ◌∷◌, leb, length,
  sorted, contains, Result, ok, err, raise_if, ◌>>=◌, ◌>>◌, string_eq, ◌!=◌, if◌then◌else◌,
}
use valibra.Prelude.Text.{text_le}
use valibra.Prelude.Json.{Json, obj, Fields, end, field, get, has_key, keys}
use valibra.Callbacks.Values.{Failure, value_error, key_error}
use valibra.Callbacks.Session.{
  Session, put, drop_key, Records, record_keys, find_record, put_record, drop_record,
}

-- What a store uses of its records, with the law that a record it has read is read again.
pub record Codec (R : Type 0) : Type 0 where
  pub to_json : R → Json
  pub from_json : Json → Result Failure R
  pub call_id : R → String
  pub from_json-to_json : (j : Json) (r : R) → from_json j ≡ ok r → from_json (to_json r) ≡ ok r

-- Where a store lies, how many records it takes under which keys, what it raises, and whether a record passes
-- through JSON when it is added and when it is written.
pub record StoreShape : Type 0 where
  pub state_key : String
  pub limit : ℕ
  pub allows_key : String → Bool
  pub invalid_store : String
  pub invalid_key : String
  pub mismatched_key : String
  pub too_many : String
  pub duplicate : String
  pub checks_added : Bool
  pub checks_stored : Bool

module _ {R : Type 0} (c : Codec R) (shape : StoreShape) where
  unfoldable pub load_entries : Fields → Result Failure (Records R)
  load_entries end = ok []
  load_entries (field key value rest) = do
    raise_if (not (shape.allows_key key)) (value_error shape.invalid_key)
    r ← c.from_json value
    raise_if (c.call_id r != key) (value_error shape.mismatched_key)
    records ← load_entries rest
    ok ((key, r) ∷ records)

  unfoldable pub load_payload : Json → Result Failure (Records R)
  load_payload (obj fields) =
      raise_if (not (leb (length (keys fields)) shape.limit)) (value_error shape.invalid_store)
      >> load_entries fields
  load_payload _ = err (value_error shape.invalid_store)

  unfoldable pub load_records : Session → Result Failure (Records R)
  load_records s =
      load_payload (elim (get shape.state_key s) [ none ↦ obj end | some value ↦ value ])

  -- `from_json(record.to_json())` where the store has it.
  abbrev pub passed : Bool → R → Result Failure R
  passed true r = c.from_json (c.to_json r)
  passed false r = ok r

  -- The dict comprehension over the sorted keys.
  unfoldable pub encode_records : Records R → List String → Result Failure Fields
  encode_records records [] = ok end
  encode_records records (key ∷ rest) = elim (find_record key records) [
    | none ↦ err key_error
    | some r ↦ passed shape.checks_stored r >>= λ r'.
        encode_records records rest >>= λ fields. ok (field key (c.to_json r') fields)
  ]

  unfoldable pub store_records : Records R → Session → Result Failure Session
  store_records records s = do
    raise_if
        (not (leb (length records) shape.limit) || not (all shape.allows_key (record_keys records)))
        (value_error shape.too_many)
    fields ← encode_records records (sorted text_le (record_keys records))
    ok (put shape.state_key (obj fields) s)

  unfoldable pub add_record : R → Session → Result Failure Session
  add_record r s = do
    records ← load_records s
    raise_if (contains (c.call_id r) (record_keys records)) (value_error shape.duplicate)
    added ← passed shape.checks_added r
    store_records (put_record (c.call_id r) added records) s

  -- The record and the session after the call.
  unfoldable pub pop_record : String → Session → Result Failure (Option R × Session)
  pop_record key s = do
    records ← load_records s
    rest ← store_records (drop_record key records) s
    ok (find_record key records, rest)

module _ (state_key : String) where
  -- Whether the dict under the key holds the call, without reading its records.
  unfoldable pub call_present : String → Session → Bool
  call_present key s = elim (get state_key s) [ some (obj fields) ↦ has_key key fields | _ ↦ false ]

  -- The call is dropped from the dict, whatever its record is. `key` is the context's
  -- `function_call_id` where that is an identifier.
  unfoldable pub cleanup_call : Option String → Session → Session
  cleanup_call none s = s
  cleanup_call (some key) s = elim (get state_key s) [
    | some (obj fields) ↦
        if has_key key fields then put state_key (obj (drop_key key fields)) s else s
    | _ ↦ s
  ]
