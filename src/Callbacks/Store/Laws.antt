-- ===== src/Callbacks/Store/Laws.antt =====
-- grounding_callbacks.py: what the stores of calls keep. A store that loads holds valid records under
-- their own keys, and writing them back loses none.
use valibra.Prelude.{
  ◌≡◌, ◌≤◌, refl, String, Bool, true, false, none, some, List, [], ◌∷◌, leb, length, sorted, all,
  contains, contains-sorted, length-sorted, at→all, &&-eq-true, ok, raise_if-eq-ok, not,
  Option-cases, beq_of_eq, split_steps, ok_injective, subst, Bool-cases, inl, inr, eq_of_beq,
  string_eq, ◌==◌, if◌then◌else◌, arith, sym, ◌∙◌,
}
use valibra.Prelude.Text.{text_le}
use valibra.Prelude.Json.{obj, Fields, end, field, get, keys}
use valibra.Callbacks.Session.{
  Session, put, get-put_self, get-put_other, Records, record_keys, find_record, missing_record,
  present_record, length-record_keys,
}
use valibra.Callbacks.Store.{
  Codec, StoreShape, load_entries, load_payload, load_records, passed, encode_records,
  store_records,
}

module _ {R : Type 0} (c : Codec R) (shape : StoreShape) where
  -- A record that its own JSON gives back, under a key that the store allows.
  abbrev pub IsValid : R → Type 0
  IsValid r = (c.from_json (c.to_json r) ≡ ok r) × (shape.allows_key (c.call_id r) ≡ true)

  -- Every record is valid and lies under its own key.
  abbrev pub AllValid : Records R → Type 0
  AllValid records =
      (k : String) (r : R) → find_record k records ≡ some r → IsValid r × (c.call_id r ≡ k)

  pub passed_valid : (b : Bool) (r : R) → IsValid r → passed c shape b r ≡ ok r
  passed_valid true r h = h.0
  passed_valid false r h = refl

  pub load_entries-AllValid :
      (fields : Fields) {records : Records R}
      → load_entries c shape fields ≡ ok records
      → AllValid records
  unfolding load_entries find_record
  load_entries-AllValid end {records = records} h k r found =
      let same : [] ≡ records = ok_injective h in
      let none_found : find_record k records ≡ none = rw (← same) in cc
  load_entries-AllValid (field key value rest) {records = records} h k r found =
      let (allowed, h0) = raise_if-eq-ok (not (shape.allows_key key)) _ _ h in
      split_steps (c.from_json value) _ h0 λ q h1 k1.
        let (other, k2) = raise_if-eq-ok (not (c.call_id q == key)) _ _ k1 in
        split_steps (load_entries c shape rest) _ k2 λ tail h3 k3.
          let same : ((key, q) ∷ tail) ≡ records = ok_injective k3 in
          let found' : find_record k ((key, q) ∷ tail) ≡ some r =
            subst (λ x. find_record k x ≡ some r) (sym same) found in
          elim (Bool-cases (key == k)) [
            | inl p ↦
                let it : some q ≡ some r = rw p at found' in
                let id : (c.call_id q == key) ≡ true = ground arith in
                let named : c.call_id q ≡ k = eq_of_beq (c.call_id q) key id ∙ eq_of_beq key k p in
                let q≡r : q ≡ r = cc in
                subst (λ x. IsValid x × (c.call_id x ≡ k)) q≡r
                  (
                    (
                      c.from_json-to_json value q h1,
                      subst (λ x. shape.allows_key x ≡ true) (sym (eq_of_beq (c.call_id q) key id))
                          (ground arith),
                    ),
                    named,
                  )
            | inr p ↦ load_entries-AllValid rest h3 k r (rw p at found')
          ]

  pub keys-encode_records :
      (records : Records R) (ks : List String) {fields : Fields}
      → encode_records c shape records ks ≡ ok fields
      → keys fields ≡ ks
  unfolding encode_records keys
  keys-encode_records records [] {fields = fields} h =
      let same : end ≡ fields = ok_injective h in rw (← same)
  keys-encode_records records (k ∷ ks) {fields = fields} h =
      elim (Option-cases (find_record k records)) [
        | inl p ↦ let wrong = rw (encode_records, p) at h in cc
        | inr (r, p) ↦
            split_steps (passed c shape shape.checks_stored r) _ (rw (encode_records, p) at h)
              λ r' h1 k1. split_steps (encode_records c shape records ks) _ k1 λ tail h2 k2.
                let same : field k (c.to_json r') tail ≡ fields = ok_injective k2 in
                rw (← same, keys-encode_records records ks h2)
      ]

  -- Writing the named records and loading them gives back each of them, and no other.
  load-encode :
      (records : Records R)
      → AllValid records
      → (ks : List String) → all (λ k. contains k (record_keys records)) ks ≡ true
      → (fields : Fields) × (loaded : Records R) × (encode_records c shape records ks ≡ ok fields)
        × (load_entries c shape fields ≡ ok loaded)
        × ((k : String)
            → find_record k loaded ≡ (if contains k ks then find_record k records else none))
  unfolding encode_records load_entries find_record all contains
  load-encode records valid [] h = (end, [], refl, refl, λ k. refl)
  load-encode records valid (k ∷ ks) h =
      let (here, later) = &&-eq-true (contains k (record_keys records)) _ h in
      let (r, found) = present_record k records here in
      let (good, named) = valid k r found in
      let (fields, loaded, e, l, same) = load-encode records valid ks later in
      (
        field k (c.to_json r) fields,
        (k, r) ∷ loaded,
        rw (encode_records, found, passed_valid shape.checks_stored r good, e),
        rw (
          subst (λ x. shape.allows_key x ≡ true) named good.1,
          good.0,
          beq_of_eq (c.call_id r) k named,
          l,
        ),
        λ j. elim (Bool-cases (k == j)) [
          | inl p ↦ let eq = eq_of_beq k j p in rw (p) (rw (← eq) (sym found))
          | inr p ↦ rw (p) (same j)
        ],
      )

  -- A write of valid records that fit is loaded back, and no other key of the session changes.
  pub store-load :
      (records : Records R) (s : Session)
      → AllValid records
      → length records ≤ shape.limit
      → (s' : Session) × (loaded : Records R) × (store_records c shape records s ≡ ok s')
        × (load_records c shape s' ≡ ok loaded)
        × ((k : String) → find_record k loaded ≡ find_record k records)
        × ((k : String) → (shape.state_key == k) ≡ false → get k s' ≡ get k s)
  unfolding store_records load_records load_payload
  store-load records s valid fits =
      let ks = sorted text_le (record_keys records) in
      let here =
        at→all (λ k. contains k (record_keys records)) ks
          (λ k m. rw (contains-sorted text_le k (record_keys records)) at m) in
      let (fields, loaded, e, l, same) = load-encode records valid ks here in
      let size : length (keys fields) ≡ length records = rw (
        keys-encode_records records ks e,
        length-sorted text_le (record_keys records),
        length-record_keys records,
      ) in
      let few : leb (length records) shape.limit ≡ true = ground arith in
      let allowed = at→all shape.allows_key (record_keys records) (λ k m.
        let (r, found) = present_record k records m in
        let (good, named) = valid k r found in
        subst (λ x. shape.allows_key x ≡ true) named good.1) in
      (
        put shape.state_key (obj fields) s,
        loaded,
        rw (few, allowed, e),
        rw (get-put_self shape.state_key (obj fields) s, size, few, l),
        λ k. elim (Bool-cases (contains k (record_keys records))) [
          | inl p ↦ rw (same k, contains-sorted text_le k (record_keys records), p)
          | inr p ↦
              rw (same k, contains-sorted text_le k (record_keys records), p)
                (sym (missing_record k records p))
        ],
        λ k h. get-put_other shape.state_key k (obj fields) s h,
      )
