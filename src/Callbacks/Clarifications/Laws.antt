-- ===== src/Callbacks/Clarifications/Laws.antt =====
-- grounding_callbacks.py: what the clarification overlay keeps. Questions are unique within a phase,
-- an answer is given once, and each answer settles one pending question.
use valibra.Prelude.{
  ℕ, ◌+◌, ◌≡◌, ◌≤◌, refl, String, Bool, true, false, not, ◌&&◌, ◌||◌, List, [], ◌∷◌, ◌++◌, map,
  length, leb, any, contains, has_no_duplicates, ok, raise_if-eq-ok, split_steps, ok_injective,
  subst, &&-eq-true, eq_of_beq, beq_refl, string_eq, nat_eq, ◌==◌, arith, sym, ap, ◌∙◌, Bool_ext,
}
use valibra.Models.Validation.{UserClarificationRequest}
use valibra.Service.Documents.{UserClarificationRecord}
use valibra.Callbacks.Clarifications.{
  Overlay, max_clarification_records, has_key, is_pending, has_unique_keys, clarification_records,
  store_clarification_records, record_of, register_clarification_requests, count_pending,
}

-- The overlay is one that is read.
abbrev pub IsOverlay : Overlay → Type 0
IsOverlay overlay = clarification_records overlay ≡ ok overlay

pub has_key_iff :
    (p : ℕ) (q : String) (item : UserClarificationRecord)
    → has_key p q item ≡ true
    → (item.phase ≡ p) × (item.question ≡ q)
has_key_iff p q item h =
    let (a, b) = &&-eq-true (item.phase == p) (item.question == q) h in
    (eq_of_beq item.phase p a, eq_of_beq item.question q b)

pub has_key_own : (item : UserClarificationRecord) → has_key item.phase item.question item ≡ true
has_key_own item = rw (beq_refl item.phase, beq_refl item.question)

has_key_sym :
    (x y : UserClarificationRecord) → has_key x.phase x.question y ≡ has_key y.phase y.question x
has_key_sym x y = Bool_ext _ _ (turn x y) (turn y x)
  where
    turn :
        (a b : UserClarificationRecord)
        → has_key a.phase a.question b ≡ true
        → has_key b.phase b.question a ≡ true
    turn a b h = let (p, q) = has_key_iff a.phase a.question b h in rw (p, q) (has_key_own a)

pub overlay_bounds :
    (overlay : Overlay) {records : Overlay}
    → clarification_records overlay ≡ ok records
    → (overlay ≡ records)
      × (length overlay ≤ max_clarification_records)
      × (has_unique_keys overlay ≡ true)
unfolding clarification_records
overlay_bounds overlay h =
    let (few, k) = raise_if-eq-ok (not (leb (length overlay) max_clarification_records)) _ _ h in
    let (own, k2) = raise_if-eq-ok (not (has_unique_keys overlay)) _ _ k in
    (ok_injective k2, ground arith, ground arith)

pub overlay_of_bounds :
    (overlay : Overlay)
    → leb (length overlay) max_clarification_records ≡ true
    → has_unique_keys overlay ≡ true
    → IsOverlay overlay
unfolding clarification_records
overlay_of_bounds overlay h k = rw (h, k)

any_append :
    (f : UserClarificationRecord → Bool) (xs ys : Overlay)
    → any f (xs ++ ys) ≡ (any f xs || any f ys)
unfolding any
any_append f [] ys = refl
any_append f (x ∷ xs) ys = ground (arith, any_append f xs ys)

any_question :
    (phase : ℕ) (q : String) (requests : List UserClarificationRequest)
    → any (has_key phase q) (map (record_of phase) requests)
      ≡ contains q (map (λ (item : UserClarificationRequest). item.question) requests)
unfolding any contains
any_question phase q [] = refl
any_question phase q (item ∷ rest) =
    let own = beq_refl phase in ground (arith, any_question phase q rest)

unique_new :
    (phase : ℕ) (requests : List UserClarificationRequest)
    → has_no_duplicates (map (λ (item : UserClarificationRequest). item.question) requests) ≡ true
    → has_unique_keys (map (record_of phase) requests) ≡ true
unfolding has_unique_keys has_no_duplicates
unique_new phase [] h = refl
unique_new phase (item ∷ rest) h =
    let same = any_question phase item.question rest in ground (arith, unique_new phase rest)

-- No request has the key of any record: so for the first record and for the others.
apart_head :
    (phase : ℕ) (x : UserClarificationRecord) (xs : Overlay)
    (requests : List UserClarificationRequest)
    → any (λ (item : UserClarificationRequest). any (has_key phase item.question) (x ∷ xs)) requests
      ≡ false
    → (any (has_key x.phase x.question) (map (record_of phase) requests) ≡ false)
      × (any (λ (item : UserClarificationRequest). any (has_key phase item.question) xs) requests
          ≡ false)
unfolding any
apart_head phase x xs [] h = (refl, refl)
apart_head phase x xs (item ∷ rest) h =
    let turn = has_key_sym x (record_of phase item) in ground (arith, apart_head phase x xs rest)

unique_append :
    (phase : ℕ) (xs : Overlay) (requests : List UserClarificationRequest)
    → has_unique_keys xs ≡ true
    → has_unique_keys (map (record_of phase) requests) ≡ true
    → any (λ (item : UserClarificationRequest). any (has_key phase item.question) xs) requests
      ≡ false
    → has_unique_keys (xs ++ map (record_of phase) requests) ≡ true
unfolding has_unique_keys
unique_append phase [] requests h k apart = k
unique_append phase (x ∷ xs) requests h k apart =
    let (here, later) = apart_head phase x xs requests apart in
    let split = any_append (has_key x.phase x.question) xs (map (record_of phase) requests) in
    ground (arith, unique_append phase xs requests)

count_append :
    (phase : ℕ) (xs : Overlay) (requests : List UserClarificationRequest)
    → count_pending (xs ++ map (record_of phase) requests) ≡ count_pending xs + length requests
unfolding count_pending
count_append phase [] [] = refl
count_append phase [] (item ∷ rest) = omega (arith, count_append phase [] rest)
count_append phase (x ∷ xs) requests = omega (arith, count_append phase xs requests)

-- Clarification requests that are registered stand behind the overlay as pending records of the
-- phase, the overlay still reads (at most 16 records, no question twice within a phase), and the
-- count of pending ones grows by their number.
pub register_clarification_requests-IsOverlay :
    (phase : ℕ) (requests : List UserClarificationRequest) (overlay : Overlay) {after : Overlay}
    → register_clarification_requests phase requests overlay ≡ ok after
    → (after ≡ overlay ++ map (record_of phase) requests)
      × IsOverlay after
      × (count_pending after ≡ count_pending overlay + length requests)
unfolding register_clarification_requests store_clarification_records
register_clarification_requests-IsOverlay phase requests overlay {after = after} h =
    split_steps (clarification_records overlay) _ h λ records loads k1.
      let (a, k2) =
        raise_if-eq-ok
          (not
            (has_no_duplicates (map (λ (item : UserClarificationRequest). item.question) requests)))
          _ _ k1 in
      let (b, k3) =
        raise_if-eq-ok
          (any (λ (item : UserClarificationRequest). any (has_key phase item.question) records)
            requests)
          _ _ k2 in
      let (c, k4) =
        raise_if-eq-ok
          (any
            (λ (item : UserClarificationRequest).
              any
                (λ (old : UserClarificationRecord).
                  not (is_pending old) && old.phrase == item.phrase)
                records)
            requests)
          _ _ k3 in
      let (d, k5) =
        raise_if-eq-ok
          (not (leb (length (records ++ map (record_of phase) requests)) max_clarification_records))
          _ _ k4 in
      let (same, few, unique) = overlay_bounds overlay loads in
      let made : (records ++ map (record_of phase) requests) ≡ after = ok_injective k5 in
      let own : has_unique_keys (records ++ map (record_of phase) requests) ≡ true =
        unique_append phase records requests (subst (λ x. has_unique_keys x ≡ true) same unique)
          (unique_new phase requests (ground arith)) b in
      let fits : leb (length (records ++ map (record_of phase) requests)) max_clarification_records
          ≡ true =
        ground arith in
      (
        sym made ∙ ap (λ x. x ++ map (record_of phase) requests) (sym same),
        subst IsOverlay made (overlay_of_bounds _ fits own),
        subst (λ x. count_pending x ≡ count_pending overlay + length requests) made
            (subst
              (λ x.
                count_pending (x ++ map (record_of phase) requests)
                ≡ count_pending overlay + length requests)
              same (count_append phase overlay requests)),
      )
