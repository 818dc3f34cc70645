-- ===== src/Callbacks/Clarifications/Answers.antt =====
-- grounding_callbacks.py: what an answer does to the overlay.
use valibra.Prelude.{
  ℕ, suc, ◌≡◌, ◌⊎◌, refl, String, true, false, not, ◌||◌, Option, none, some, [], ◌∷◌, length, leb,
  any, ok, raise_if-eq-ok, split_steps, ok_injective, subst, Bool-cases, Option-cases, inl, inr,
  eq_of_beq, string_eq, nat_eq, ◌==◌, ◌!=◌, arith, sym, ap, ◌∙◌,
}
use valibra.Prelude.Json.{text}
use valibra.Service.Documents.{UserClarificationRecord}
use valibra.Callbacks.Clarifications.{
  Overlay, max_clarification_records, has_key, is_pending, has_unique_keys, clarification_records,
  store_clarification_records, first_pending, next_pending_clarification, count_pending,
  count_matches, find_match, replace_match, is_answer, answer_with, give_answer, answer_match,
  record_clarification_answer,
}
use valibra.Callbacks.Clarifications.Laws.{
  IsOverlay, has_key_iff, has_key_own, overlay_bounds, overlay_of_bounds,
}

module _ (p : ℕ) (q : String) where
  found_key :
      (xs : Overlay) {item : UserClarificationRecord}
      → find_match p q xs ≡ some item
      → has_key p q item ≡ true
  unfolding find_match
  found_key [] h = cc
  found_key (x ∷ xs) {item = item} h = elim (Bool-cases (has_key p q x)) [
    | inl e ↦ let it : some x ≡ some item = rw e at h in let same : x ≡ item = cc in rw (← same) e
    | inr e ↦ found_key xs (rw e at h)
  ]

  module _ (new : UserClarificationRecord) (its : has_key p q new ≡ true) where
    length-replace_match : (xs : Overlay) → length (replace_match p q new xs) ≡ length xs
    unfolding replace_match
    length-replace_match [] = refl
    length-replace_match (x ∷ xs) = ground (arith, length-replace_match xs)

    any-replace_match :
        (p' : ℕ) (q' : String) (xs : Overlay)
        → any (has_key p' q') (replace_match p q new xs) ≡ any (has_key p' q') xs
    unfolding replace_match any
    any-replace_match p' q' [] = refl
    any-replace_match p' q' (x ∷ xs) = elim (Bool-cases (has_key p q x)) [
      | inl e ↦
          let (a, b) = has_key_iff p q x e in
          let (c, d) = has_key_iff p q new its in
          let same : has_key p' q' new ≡ has_key p' q' x = rw (a, b, c, d) in ground arith
      | inr e ↦ ground (arith, any-replace_match p' q' xs)
    ]

    unique-replace_match :
        (xs : Overlay) → has_unique_keys (replace_match p q new xs) ≡ has_unique_keys xs
    unfolding replace_match has_unique_keys
    unique-replace_match [] = refl
    unique-replace_match (x ∷ xs) = elim (Bool-cases (has_key p q x)) [
      | inl e ↦
          let (a, b) = has_key_iff p q x e in
          let (c, d) = has_key_iff p q new its in
          let same : any (has_key new.phase new.question) xs ≡ any (has_key x.phase x.question) xs =
            rw (a, b, c, d) in
          ground arith
      | inr e ↦ ground (arith, any-replace_match x.phase x.question xs, unique-replace_match xs)
    ]

    find-replace_self :
        (xs : Overlay) {item : UserClarificationRecord}
        → find_match p q xs ≡ some item
        → find_match p q (replace_match p q new xs) ≡ some new
    unfolding replace_match find_match
    find-replace_self [] h = cc
    find-replace_self (x ∷ xs) h = elim (Bool-cases (has_key p q x)) [
      | inl e ↦ ground arith
      | inr e ↦ ground (arith, find-replace_self xs (rw e at h))
    ]

    -- The records under other keys are found as before.
    find-replace_other :
        (p' : ℕ) (q' : String) (xs : Overlay)
        → has_key p' q' new ≡ false
        → find_match p' q' (replace_match p q new xs) ≡ find_match p' q' xs
    unfolding replace_match find_match
    find-replace_other p' q' [] h = refl
    find-replace_other p' q' (x ∷ xs) h = elim (Bool-cases (has_key p q x)) [
      | inl e ↦
          let (a, b) = has_key_iff p q x e in
          let (c, d) = has_key_iff p q new its in
          let same : has_key p' q' new ≡ has_key p' q' x = rw (a, b, c, d) in ground arith
      | inr e ↦ ground (arith, find-replace_other p' q' xs)
    ]

    count-replace_match :
        (xs : Overlay) {item : UserClarificationRecord}
        → find_match p q xs ≡ some item
        → is_pending item ≡ true
        → is_pending new ≡ false
        → count_pending xs ≡ suc (count_pending (replace_match p q new xs))
    unfolding replace_match find_match count_pending
    count-replace_match [] h k l = cc
    count-replace_match (x ∷ xs) {item = item} h k l = elim (Bool-cases (has_key p q x)) [
      | inl e ↦
          let it : some x ≡ some item = rw e at h in
          let same : x ≡ item = cc in let pending : is_pending x ≡ true = rw same k in ground arith
      | inr e ↦ let ih = count-replace_match xs (rw e at h) k l in ground arith
    ]

-- What an answer that is taken does: either the record has just this answer and nothing changes, or it
-- was pending and is answered now; the records of the other questions are as they were.
abbrev pub IsAnswered : ℕ → String → String → Overlay → Overlay → UserClarificationRecord → Type 0
IsAnswered p q a before after old =
    ((old.answer ≡ some a) × (after ≡ before))
    ⊎ ((old.answer ≡ none)
        × (find_match p q after ≡ some (answer_with a old))
        × (count_pending before ≡ suc (count_pending after))
        × ((p' : ℕ) (q' : String)
            → has_key p' q' old ≡ false
            → find_match p' q' after ≡ find_match p' q' before))

module _ (p : ℕ) (q a : String) (xs : Overlay) (overlay : IsOverlay xs)
    (old : UserClarificationRecord) (found : find_match p q xs ≡ some old) where
  new_key : has_key p q (answer_with a old) ≡ true
  new_key = found_key p q xs found

  new-IsOverlay : IsOverlay (replace_match p q (answer_with a old) xs)
  new-IsOverlay =
      let (same, few, unique) = overlay_bounds xs overlay in
      let size = length-replace_match p q (answer_with a old) new_key xs in
      overlay_of_bounds (replace_match p q (answer_with a old) xs) (ground arith)
        (unique-replace_match p q (answer_with a old) new_key xs ∙ unique)

  answered : old.answer ≡ none → IsAnswered p q a xs (replace_match p q (answer_with a old) xs) old
  answered h = inr (
    h,
    find-replace_self p q (answer_with a old) new_key xs found,
    count-replace_match p q (answer_with a old) new_key xs found (rw h) refl,
    λ p' q' other. find-replace_other p q (answer_with a old) new_key p' q' xs other,
  )

  given :
      (o : Option String) {ys : Overlay}
      → old.answer ≡ o
      → give_answer a old xs o ≡ ok ys
      → IsAnswered p q a xs ys old × IsOverlay ys
  unfolding give_answer store_clarification_records
  given (some b) {ys = ys} e h = elim (Bool-cases (b == a)) [
    | inl t ↦
        let same : xs ≡ ys = ok_injective (rw t at h) in
        (inl (e ∙ ap some (eq_of_beq b a t), sym same), subst IsOverlay same overlay)
    | inr t ↦ let wrong = rw t at h in cc
  ]
  given none {ys = ys} e h =
      let (good, k) = raise_if-eq-ok (not (is_answer a)) _ _ h in
      let (few, k2) =
        raise_if-eq-ok
          (not (
            leb (length (replace_match old.phase old.question (answer_with a old) xs))
              max_clarification_records))
          _ _ k in
      let (c, d) = has_key_iff p q old (found_key p q xs found) in
      let made : replace_match old.phase old.question (answer_with a old) xs ≡ ys =
        ok_injective k2 in
      let same : replace_match p q (answer_with a old) xs ≡ ys = rw (← c, ← d) made in
      (subst (λ x. IsAnswered p q a xs x old) same (answered e), subst IsOverlay same new-IsOverlay)

-- An answer that is recorded belongs to a question of the overlay; either that had just this
-- answer and nothing changes, or it was pending, now has the answer, one question less is pending
-- and the records of the other questions are as they were; the overlay reads again.
pub record_clarification_answer-IsAnswered :
    (p : ℕ) (q a : String) (xs : Overlay) {ys : Overlay}
    → record_clarification_answer p q (text a) xs ≡ ok ys
    → (old : UserClarificationRecord) × (find_match p q xs ≡ some old)
      × IsAnswered p q a xs ys old
      × IsOverlay ys
unfolding record_clarification_answer answer_match
record_clarification_answer-IsAnswered p q a xs {ys = ys} h =
    split_steps (clarification_records xs) _ h λ records loads k1.
      let (one, k2) = raise_if-eq-ok (count_matches p q records != 1) _ _ k1 in
      let (same, few, unique) = overlay_bounds xs loads in
      let k3 : answer_match a xs (find_match p q xs) ≡ ok ys = rw same k2 in
      elim (Option-cases (find_match p q xs)) [
        | inl none' ↦ let wrong = rw none' at k3 in cc
        | inr (old, found) ↦
            let (is, again) =
              given p q a xs (loads ∙ ap ok (sym same)) old found old.answer refl
                (rw found at k3) in
            (old, found, is, again)
      ]

no_match :
    (p : ℕ) (q : String) (xs : Overlay) → any (has_key p q) xs ≡ false → count_matches p q xs ≡ 0
unfolding any count_matches
no_match p q [] h = refl
no_match p q (x ∷ xs) h = ground (arith, no_match p q xs)

pending_match :
    (xs : Overlay) {item : UserClarificationRecord}
    → first_pending xs ≡ some item
    → (any (has_key item.phase item.question) xs ≡ true) × (is_pending item ≡ true)
unfolding first_pending any
pending_match [] h = cc
pending_match (x ∷ xs) {item = item} h = elim (Bool-cases (is_pending x)) [
  | inl e ↦
      let it : some x ≡ some item = rw e at h in
      let same : x ≡ item = cc in
      subst
        (λ y.
          ((has_key y.phase y.question x || any (has_key y.phase y.question) xs) ≡ true)
          × (is_pending y ≡ true))
        same (rw (has_key_own x), e)
  | inr e ↦ let (m, n) = pending_match xs (rw e at h) in (ground arith, n)
]

pending_unique :
    (xs : Overlay) {item : UserClarificationRecord}
    → has_unique_keys xs ≡ true
    → first_pending xs ≡ some item
    → (count_matches item.phase item.question xs ≡ 1)
      × (find_match item.phase item.question xs ≡ some item)
unfolding first_pending has_unique_keys count_matches find_match
pending_unique [] u h = cc
pending_unique (x ∷ xs) {item = item} u h = elim (Bool-cases (is_pending x)) [
  | inl e ↦
      let it : some x ≡ some item = rw e at h in
      let same : x ≡ item = cc in
      let alone = no_match x.phase x.question xs (ground arith) in
      subst
        (λ y.
          (count_matches y.phase y.question (x ∷ xs) ≡ 1)
          × (find_match y.phase y.question (x ∷ xs) ≡ some y))
        same (rw (has_key_own x, alone), rw (has_key_own x))
  | inr e ↦
      let h' = rw e at h in
      let (c, d) = pending_unique xs (ground arith) h' in
      let (there, pending) = pending_match xs h' in
      let other : has_key item.phase item.question x ≡ false =
        elim (Bool-cases (has_key item.phase item.question x)) [
          | inl f ↦
              let (a, b) = has_key_iff item.phase item.question x f in
              let hit : any (has_key x.phase x.question) xs ≡ true = rw (a, b) there in ground arith
          | inr f ↦ f
        ] in
      (rw (other, c), rw (other, d))
]

-- An answer of 1 to 4096 characters that are not all whitespace to the next pending clarification
-- is recorded, and one question less is pending in an overlay that reads.
pub next_pending_clarification-settles :
    (a : String) (xs : Overlay) {item : UserClarificationRecord}
    → next_pending_clarification xs ≡ ok (some item)
    → is_answer a ≡ true
    → (ys : Overlay) × (record_clarification_answer item.phase item.question (text a) xs ≡ ok ys)
      × IsOverlay ys
      × (count_pending xs ≡ suc (count_pending ys))
unfolding next_pending_clarification record_clarification_answer answer_match give_answer
    store_clarification_records
next_pending_clarification-settles a xs {item = item} h good =
    split_steps (clarification_records xs) _ h λ records loads k.
      let (same, few, unique) = overlay_bounds xs loads in
      let overlay : IsOverlay xs = loads ∙ ap ok (sym same) in
      let next : first_pending xs ≡ some item = ok_injective (rw (← same) at k) in
      let (one, found) = pending_unique xs unique next in
      let (m, pending) = pending_match xs next in
      let open' : item.answer ≡ none = elim (Option-cases item.answer) [
        | inl e ↦ e
        | inr (b, e) ↦ let wrong = rw e at pending in cc
      ] in
      let size =
        length-replace_match item.phase item.question (answer_with a item) (has_key_own item) xs in
      let fits : leb (length (replace_match item.phase item.question (answer_with a item) xs))
            max_clarification_records
          ≡ true =
        ground arith in
      (
        replace_match item.phase item.question (answer_with a item) xs,
        rw (overlay, one, found, open', good, fits),
        new-IsOverlay item.phase item.question a xs overlay item found,
        count-replace_match item.phase item.question (answer_with a item) (has_key_own item) xs
            found pending refl,
      )
