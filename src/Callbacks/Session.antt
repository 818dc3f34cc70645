-- ===== src/Callbacks/Session.antt =====
-- grounding_callbacks.py: the session state, a JSON mapping that the callbacks read with `state.get`
-- and write with `state[key] = value`, and the mappings of records that are loaded from it.
use valibra.Prelude.{
  ◌≡◌, refl, suc, ◌≤◌, String, true, false, not, Option, none, some, List, [], ◌∷◌, keep, contains,
  length, inl, inr, Bool-cases, eq_of_beq, beq_refl, string_eq, ◌==◌, arith, if◌then◌else◌,
}
use valibra.Prelude.Json.{Json, Fields, end, field, get, has_key}

abbrev pub Session : Type 0
Session = Fields

-- `state[key] = value`.
unfoldable pub put : String → Json → Fields → Fields
put key value end = field key value end
put key value (field k v rest) =
    let changed = put key value rest in if k == key then field key value rest else field k v changed

-- `mapping.pop(key, None)` on a copy.
unfoldable pub drop_key : String → Fields → Fields
drop_key key end = end
drop_key key (field k v rest) =
    let remaining = drop_key key rest in if k == key then remaining else field k v remaining

pub get-put_self : (key : String) (v : Json) (s : Session) → get key (put key v s) ≡ some v
unfolding get put
get-put_self key v end = rw (beq_refl key)
get-put_self key v (field k w rest) = elim (Bool-cases (k == key)) [
  | inl p ↦ rw (p, beq_refl key)
  | inr p ↦ rw (p) (rw p (get-put_self key v rest))
]

pub get-put_other :
    (key other : String) (v : Json) (s : Session)
    → (key == other) ≡ false
    → get other (put key v s) ≡ get other s
unfolding get put
get-put_other key other v end h = rw h
get-put_other key other v (field k w rest) h = elim (Bool-cases (k == key)) [
  | inl p ↦ let same = eq_of_beq k key p in ground arith
  | inr p ↦ ground (arith, get-put_other key other v rest h)
]

pub has_key-drop_key : (key : String) (fields : Fields) → has_key key (drop_key key fields) ≡ false
unfolding has_key get drop_key
has_key-drop_key key end = refl
has_key-drop_key key (field k v rest) = ground (arith, has_key-drop_key key rest)

-- A dict of records by key, in insertion order. The keys of a dict are distinct.
abbrev pub Records : Type 0 → Type 0
Records R = List (String × R)

module _ {R : Type 0} where
  unfoldable pub record_keys : Records R → List String
  record_keys [] = []
  record_keys (e ∷ rest) = e.0 ∷ record_keys rest

  unfoldable pub find_record : String → Records R → Option R
  find_record key [] = none
  find_record key (e ∷ rest) = if e.0 == key then some e.1 else find_record key rest

  -- `records[key] = record`.
  unfoldable pub put_record : String → R → Records R → Records R
  put_record key r [] = (key, r) ∷ []
  put_record key r (e ∷ rest) =
      let changed = put_record key r rest in if e.0 == key then (key, r) ∷ rest else e ∷ changed

  -- What `records.pop(key, None)` leaves.
  unfoldable pub drop_record : String → Records R → Records R
  drop_record key records = keep (λ e. not (e.0 == key)) records

  pub find_record-put_record :
      (key k : String) (r : R) (records : Records R)
      → find_record k (put_record key r records)
        ≡ (if key == k then some r else find_record k records)
  unfolding find_record put_record
  find_record-put_record key k r [] = refl
  find_record-put_record key k r (e ∷ rest) = elim (Bool-cases (e.0 == key)) [
    | inl p ↦ let same = eq_of_beq e.0 key p in ground arith
    | inr p ↦ elim (Bool-cases (key == k)) [
      | inl q ↦ let same = eq_of_beq key k q in ground (arith, find_record-put_record key k r rest)
      | inr q ↦ ground (arith, find_record-put_record key k r rest)
    ]
  ]

  pub find_record-drop_record :
      (key k : String) (records : Records R)
      → find_record k (drop_record key records) ≡ (if key == k then none else find_record k records)
  unfolding find_record drop_record keep
  find_record-drop_record key k [] = ground arith
  find_record-drop_record key k (e ∷ rest) = elim (Bool-cases (e.0 == key)) [
    | inl p ↦ let same = eq_of_beq e.0 key p in ground (arith, find_record-drop_record key k rest)
    | inr p ↦ elim (Bool-cases (key == k)) [
      | inl q ↦ let same = eq_of_beq key k q in ground (arith, find_record-drop_record key k rest)
      | inr q ↦ ground (arith, find_record-drop_record key k rest)
    ]
  ]

  pub missing_record :
      (k : String) (records : Records R)
      → contains k (record_keys records) ≡ false
      → find_record k records ≡ none
  unfolding find_record record_keys contains
  missing_record k [] h = refl
  missing_record k (e ∷ rest) h = ground (arith, missing_record k rest)

  pub present_record :
      (k : String) (records : Records R)
      → contains k (record_keys records) ≡ true
      → (r : R) × (find_record k records ≡ some r)
  unfolding find_record record_keys contains
  present_record k (e ∷ rest) h = elim (Bool-cases (e.0 == k)) [
    | inl p ↦ (e.1, rw p)
    | inr p ↦ let (r, q) = present_record k rest (rw p at h) in (r, rw (p) q)
  ]
  present_record k [] h = cc

  pub length-record_keys : (records : Records R) → length (record_keys records) ≡ length records
  unfolding record_keys
  length-record_keys [] = refl
  length-record_keys (e ∷ rest) = rw (length-record_keys rest)

  pub length-put_record_new :
      (key : String) (r : R) (records : Records R)
      → contains key (record_keys records) ≡ false
      → length (put_record key r records) ≡ suc (length records)
  unfolding put_record record_keys contains
  length-put_record_new key r [] h = refl
  length-put_record_new key r (e ∷ rest) h = ground (arith, length-put_record_new key r rest)

  pub length-drop_record :
      (key : String) (records : Records R) → length (drop_record key records) ≤ length records
  unfolding drop_record keep
  length-drop_record key [] = ground arith
  length-drop_record key (e ∷ rest) = ground (arith, length-drop_record key rest)
