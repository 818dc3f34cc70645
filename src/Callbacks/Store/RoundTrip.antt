-- ===== src/Callbacks/Store/RoundTrip.antt =====
-- grounding_callbacks.py: a call that was added is popped again, and no write exceeds the limit.
use valibra.Prelude.{
  ◌≡◌, ◌≤◌, ◌<◌, String, not, ◌||◌, all, Option, none, some, leb, length, sorted, contains,
  length-sorted, ok, raise_if-eq-ok, split_steps, ok_injective, subst, Bool-cases, inl, inr,
  eq_of_beq, beq_refl, string_eq, ◌==◌, arith, sym, ◌∙◌,
}
use valibra.Prelude.Text.{text_le}
use valibra.Prelude.Json.{obj, Fields, get, keys}
use valibra.Callbacks.Session.{
  Session, put, get-put_self, Records, record_keys, find_record, put_record, drop_record,
  length-record_keys,
}
use valibra.Callbacks.Store.{
  Codec, StoreShape, load_records, passed, encode_records, store_records, add_record, pop_record,
}
use valibra.Callbacks.Store.Laws.{IsValid, keys-encode_records}
use valibra.Callbacks.Store.Refines.{Holds, KeepsOthers, add_record-adds, pop_record-pops}

module _ {R : Type 0} (c : Codec R) (shape : StoreShape) where
  -- A call whose JSON gives it back under an allowed key, added to a store that loads, does not
  -- hold its id and has room, is popped by its id as it was; what the store holds at each id after
  -- both is what it held before, and the other keys of the session are as they were.
  pub pop_record-add_record :
      (r : R) (s : Session) {records : Records R}
      → IsValid c shape r
      → load_records c shape s ≡ ok records
      → find_record (c.call_id r) records ≡ none
      → length records < shape.limit
      → (s' : Session) × (s'' : Session) × (add_record c shape r s ≡ ok s')
        × (pop_record c shape (c.call_id r) s' ≡ ok (some r, s''))
        × Holds c shape s'' (λ k. find_record k records)
        × KeepsOthers c shape s s''
  pop_record-add_record r s {records = records} valid loads new room =
      let (s', added, (held, l, at), kept) = add_record-adds c shape r s valid loads new room in
      let (s'', popped, (left, m, rest), kept') = pop_record-pops c shape (c.call_id r) s' l in
      let it : find_record (c.call_id r) held ≡ some r =
        rw (at (c.call_id r), beq_refl (c.call_id r)) in
      (
        s',
        s'',
        added,
        rw (popped, it),
        (
          left,
          m,
          λ k. elim (Bool-cases (c.call_id r == k)) [
            | inl p ↦
                let same = eq_of_beq (c.call_id r) k p in
                rw (rest k, p) (subst (λ x. none ≡ find_record x records) same (sym new))
            | inr p ↦ rw (rest k, p) (rw (at k) (rw p))
          ],
        ),
        λ k h. kept' k h ∙ kept k h,
      )

  -- The store lies under its key as an object of at most `limit` entries.
  abbrev pub IsWithinLimit : Session → Type 0
  IsWithinLimit s =
      (fields : Fields) × (get shape.state_key s ≡ some (obj fields))
      × (length (keys fields) ≤ shape.limit)

  store_records-IsWithinLimit :
      (records : Records R) (s : Session) {s' : Session}
      → store_records c shape records s ≡ ok s'
      → IsWithinLimit s'
  unfolding store_records
  store_records-IsWithinLimit records s {s' = s'} h =
      let (few, k) =
        raise_if-eq-ok
          (not (leb (length records) shape.limit)
            || not (all shape.allows_key (record_keys records)))
          _ _ h in
      split_steps (encode_records c shape records (sorted text_le (record_keys records))) _ k
        λ fields e j.
          let same : put shape.state_key (obj fields) s ≡ s' = ok_injective j in
          let size : length (keys fields) ≡ length records = rw (
            keys-encode_records c shape records (sorted text_le (record_keys records)) e,
            length-sorted text_le (record_keys records),
            length-record_keys records,
          ) in
          subst IsWithinLimit same
            (fields, get-put_self shape.state_key (obj fields) s, ground arith)

  -- Whatever a session held before, after an addition or a pop that succeeds the store lies in it
  -- as an object of at most as many entries as its limit.
  pub writes-IsWithinLimit :
      (s : Session)
      → ((r : R) (s' : Session) → add_record c shape r s ≡ ok s' → IsWithinLimit s')
        × ((key : String) (q : Option R) (s' : Session)
            → pop_record c shape key s ≡ ok (q, s')
            → IsWithinLimit s')
  unfolding add_record pop_record
  writes-IsWithinLimit s = (
    λ r s' h. split_steps (load_records c shape s) _ h λ records l k.
        let (new, k2) = raise_if-eq-ok (contains (c.call_id r) (record_keys records)) _ _ k in
        split_steps (passed c shape shape.checks_added r) _ k2
          λ added p k3. store_records-IsWithinLimit (put_record (c.call_id r) added records) s k3,
    λ key q s' h. split_steps (load_records c shape s) _ h λ records l k.
        split_steps (store_records c shape (drop_record key records) s) _ k λ rest p k2.
          let same : (find_record key records, rest) ≡ (q, s') = ok_injective k2 in
          let it : rest ≡ s' = cc in
          subst IsWithinLimit it (store_records-IsWithinLimit (drop_record key records) s p),
  )
