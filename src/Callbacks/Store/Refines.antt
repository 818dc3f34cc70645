-- ===== src/Callbacks/Store/Refines.antt =====
-- grounding_callbacks.py: a store of calls, seen from outside, is a bounded partial function from
-- function_call_id to records; `_add_…` and `_pop_…` change it at one id.
use valibra.Prelude.{
  suc, ◌≡◌, ◌≤◌, ◌<◌, String, false, not, ◌||◌, all, Option, none, some, [], ◌∷◌, leb, length,
  contains, ok, err, raise_if-eq-ok, split_steps, ok_injective, subst, Bool-cases, inl, inr,
  eq_of_beq, string_eq, ◌==◌, if◌then◌else◌, arith, ◌∙◌,
}
use valibra.Prelude.Json.{
  Json, null, bool, int, float, text, arr, obj, Fields, end, field, get, keys,
}
use valibra.Callbacks.Values.{value_error}
use valibra.Callbacks.Session.{
  Session, Records, record_keys, find_record, put_record, drop_record, find_record-put_record,
  find_record-drop_record, missing_record, present_record, length-put_record_new,
  length-drop_record,
}
use valibra.Callbacks.Store.{
  Codec, StoreShape, load_entries, load_payload, load_records, store_records, add_record,
  pop_record,
}
use valibra.Callbacks.Store.Laws.{
  IsValid, AllValid, passed_valid, load_entries-AllValid, store-load,
}

module _ {R : Type 0} (c : Codec R) (shape : StoreShape) where
  -- The session's store loads, and holds at each id what `content` says.
  abbrev pub Holds : Session → (String → Option R) → Type 0
  Holds s content =
      (records : Records R) × (load_records c shape s ≡ ok records)
      × ((k : String) → find_record k records ≡ content k)

  -- The other keys of the session are as they were.
  abbrev pub KeepsOthers : Session → Session → Type 0
  KeepsOthers s s' = (k : String) → (shape.state_key == k) ≡ false → get k s' ≡ get k s

  abbrev pub with_record : R → (String → Option R) → String → Option R
  with_record r content k = if c.call_id r == k then some r else content k

  abbrev pub without_key : String → (String → Option R) → String → Option R
  without_key key content k = if key == k then none else content k

  length-load_entries :
      (fields : Fields) {records : Records R}
      → load_entries c shape fields ≡ ok records
      → length records ≡ length (keys fields)
  unfolding load_entries keys
  length-load_entries end {records = records} h =
      let same : [] ≡ records = ok_injective h in rw (← same)
  length-load_entries (field key value rest) {records = records} h =
      let (allowed, h0) = raise_if-eq-ok (not (shape.allows_key key)) _ _ h in
      split_steps (c.from_json value) _ h0 λ q h1 k1.
        let (other, k2) = raise_if-eq-ok (not (c.call_id q == key)) _ _ k1 in
        split_steps (load_entries c shape rest) _ k2 λ tail h3 k3.
          let same : ((key, q) ∷ tail) ≡ records = ok_injective k3 in
          rw (← same, length-load_entries rest h3)

  loaded_payload :
      (payload : Json) {records : Records R}
      → load_payload c shape payload ≡ ok records
      → AllValid c shape records × (length records ≤ shape.limit)
  unfolding load_payload
  loaded_payload (obj fields) h =
      let (few, k) = raise_if-eq-ok (not (leb (length (keys fields)) shape.limit)) _ _ h in
      let size = length-load_entries fields k in
      (load_entries-AllValid c shape fields k, ground arith)
  loaded_payload null h = cc
  loaded_payload (bool _) h = cc
  loaded_payload (int _) h = cc
  loaded_payload (float _) h = cc
  loaded_payload (text _) h = cc
  loaded_payload (arr _) h = cc

  -- A store that loads holds valid records under their own ids, at most as many as it takes.
  pub load_records-fits :
      (s : Session) {records : Records R}
      → load_records c shape s ≡ ok records
      → AllValid c shape records × (length records ≤ shape.limit)
  unfolding load_records
  load_records-fits s h = loaded_payload _ h

  fresh :
      (k : String) (records : Records R)
      → find_record k records ≡ none
      → contains k (record_keys records) ≡ false
  fresh k records h = elim (Bool-cases (contains k (record_keys records))) [
    | inl p ↦ let (r, found) = present_record k records p in cc
    | inr p ↦ p
  ]

  -- A write of valid records that succeeds is loaded back.
  pub store_records-Holds :
      (records : Records R) (s : Session) {s' : Session}
      → AllValid c shape records
      → store_records c shape records s ≡ ok s'
      → Holds s' (λ k. find_record k records) × KeepsOthers s s'
  unfolding store_records
  store_records-Holds records s {s' = s'} valid h =
      let (few, k) =
        raise_if-eq-ok
          (not (leb (length records) shape.limit)
            || not (all shape.allows_key (record_keys records)))
          _ _ h in
      let (t, loaded, stored, l, same, others) =
        store-load c shape records s valid (ground arith) in
      let it : t ≡ s' = cc in
      subst (λ x. Holds x (λ k. find_record k records) × KeepsOthers s x) it
        ((loaded, l, same), others)

  module _ (r : R) (s : Session) {records : Records R} (valid : IsValid c shape r)
      (loads : load_records c shape s ≡ ok records) where
    pub put_record-AllValid : AllValid c shape (put_record (c.call_id r) r records)
    put_record-AllValid k q found =
        let found' = rw (find_record-put_record (c.call_id r) k r records) at found in
        elim (Bool-cases (c.call_id r == k)) [
          | inl p ↦
              let it : some r ≡ some q = rw p at found' in
              let same : r ≡ q = cc in
              subst (λ x. IsValid c shape x × (c.call_id x ≡ k)) same
                (valid, eq_of_beq (c.call_id r) k p)
          | inr p ↦ (load_records-fits s loads).0 k q (rw p at found')
        ]

    -- A call whose JSON gives it back under an allowed key is added to a store that loads, does
    -- not hold its id and has room: afterwards the store loads as the partial function it was with
    -- the call at its id, and the other keys of the session are as they were.
    pub add_record-adds :
        find_record (c.call_id r) records ≡ none
        → length records < shape.limit
        → (s' : Session) × (add_record c shape r s ≡ ok s')
          × Holds s' (with_record r (λ k. find_record k records))
          × KeepsOthers s s'
    unfolding add_record
    add_record-adds new room =
        let absent = fresh (c.call_id r) records new in
        let size = length-put_record_new (c.call_id r) r records absent in
        let (s', loaded, stored, l, same, others) =
          store-load c shape (put_record (c.call_id r) r records) s put_record-AllValid
            (rw size (omega arith)) in
        (
          s',
          rw (loads, absent, passed_valid c shape shape.checks_added r valid, stored),
          (loaded, l, λ k. same k ∙ find_record-put_record (c.call_id r) k r records),
          others,
        )

    -- An id the store holds is refused, and so is a new one when the store is full.
    pub add_record-refuses :
        ((q : R)
          → find_record (c.call_id r) records ≡ some q
          → add_record c shape r s ≡ err (value_error shape.duplicate))
        × (find_record (c.call_id r) records ≡ none
            → shape.limit ≤ length records
            → add_record c shape r s ≡ err (value_error shape.too_many))
    unfolding add_record store_records
    add_record-refuses = (
      λ q found. elim (Bool-cases (contains (c.call_id r) (record_keys records))) [
        | inl p ↦ rw (loads, p)
        | inr p ↦ let missing = missing_record (c.call_id r) records p in cc
      ],
      λ new full.
          let absent = fresh (c.call_id r) records new in
          let size = length-put_record_new (c.call_id r) r records absent in
          let over : leb (suc (length records)) shape.limit ≡ false = ground arith in
          rw (loads, absent, passed_valid c shape shape.checks_added r valid, size, over),
    )

  -- A call is popped from every store that loads: the result is what the store held at the id, and
  -- afterwards it holds the rest.
  pub pop_record-pops :
      (key : String) (s : Session) {records : Records R}
      → load_records c shape s ≡ ok records
      → (s' : Session) × (pop_record c shape key s ≡ ok (find_record key records, s'))
        × Holds s' (without_key key (λ k. find_record k records))
        × KeepsOthers s s'
  unfolding pop_record
  pop_record-pops key s {records = records} loads =
      let (valid, fits) = load_records-fits s loads in
      let fewer = length-drop_record key records in
      let (s', loaded, stored, l, same, others) =
        store-load c shape (drop_record key records) s
          (λ k q found.
            let found' = rw (find_record-drop_record key k records) at found in
            elim (Bool-cases (key == k)) [
              | inl p ↦ let wrong = rw p at found' in cc
              | inr p ↦ valid k q (rw p at found')
            ])
          (omega arith) in
      (
        s',
        rw (loads, stored),
        (loaded, l, λ k. same k ∙ find_record-drop_record key k records),
        others,
      )
