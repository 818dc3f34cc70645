-- ===== src/Prelude/Membership.antt =====
-- Tests over a whole list, read at each of its members, and back.
use mathlib.Core.Path.{◌≡◌, refl}
use mathlib.Core.Logic.{◌⊎◌, inl, inr}
use mathlib.Core.Bool.{Bool, true, false, ◌&&◌}
use mathlib.Core.List.{List, [], ◌∷◌}
use native.Mathlib.Omega.{arith}
use valibra.Prelude.Tests.{Bool-cases, &&-eq-true}
use valibra.Prelude.Lists.{is_empty, all, keep}
use valibra.Prelude.Equality.{Eq, ◌==◌, eq_of_beq, beq_refl}
use valibra.Prelude.Sort.{contains}
use valibra.Prelude.Errors.{Result, ok, for_each, for_each-eq-ok}

module _ {ℓ} {A : Type ℓ} ⦃e : Eq A⦄ where
  pub contains-cons :
      (a x : A) (xs : List A) → contains a (x ∷ xs) ≡ true → (x ≡ a) ⊎ (contains a xs ≡ true)
  unfolding contains
  contains-cons a x xs h = elim (Bool-cases (x == a)) [
    | inl p ↦ inl (eq_of_beq x a p)
    | inr p ↦ inr (rw p at h)
  ]

  pub contains_head : (x : A) (xs : List A) → contains x (x ∷ xs) ≡ true
  unfolding contains
  contains_head x xs = rw (beq_refl x)

  pub contains_tail : (a x : A) (xs : List A) → contains a xs ≡ true → contains a (x ∷ xs) ≡ true
  unfolding contains
  contains_tail a x xs h = ground arith

  pub all→at :
      (p : A → Bool) (xs : List A) → all p xs ≡ true → (a : A) → contains a xs ≡ true → p a ≡ true
  unfolding all
  all→at p [] h a m = unfold contains in cc
  all→at p (x ∷ xs) h a m =
      let (px, rest) = &&-eq-true (p x) (all p xs) h in
      elim (contains-cons a x xs m) [ inl q ↦ rw (← q) px | inr q ↦ all→at p xs rest a q ]

  pub at→all :
      (p : A → Bool) (xs : List A) → ((a : A) → contains a xs ≡ true → p a ≡ true) → all p xs ≡ true
  unfolding all
  at→all p [] h = refl
  at→all p (x ∷ xs) h =
      rw (h x (contains_head x xs), at→all p xs (λ a m. h a (contains_tail a x xs m)))

  pub contains-keep :
      (p : A → Bool) (xs : List A) (a : A) → contains a (keep p xs) ≡ (p a && contains a xs)
  unfolding keep contains
  contains-keep p [] a = elim (p a) as (λ b. false ≡ (b && false)) [ true ↦ refl | false ↦ refl ]
  contains-keep p (x ∷ xs) a = elim (Bool-cases (x == a)) [
    | inl q ↦ let s = eq_of_beq x a q in ground (arith, contains-keep p xs a)
    | inr q ↦ ground (arith, contains-keep p xs a)
  ]

  -- Nothing passes the filter: no member passes the test.
  pub is_empty-keep :
      (p : A → Bool) (xs : List A)
      → is_empty (keep p xs) ≡ true
      → (a : A) → contains a xs ≡ true
      → p a ≡ false
  is_empty-keep p xs h a m = elim (Bool-cases (p a)) [
    | inl q ↦ absurd (nothing (keep p xs) h (rw (contains-keep p xs a, q, m)))
    | inr q ↦ q
  ]
    where
      nothing : (ys : List A) → is_empty ys ≡ true → contains a ys ≡ true → ⊥
      nothing [] k n = unfold contains in cc
      nothing (y ∷ ys) k n = cc

  pub is_empty-keep_of_none :
      (p : A → Bool) (xs : List A)
      → ((a : A) → contains a xs ≡ true → p a ≡ false)
      → is_empty (keep p xs) ≡ true
  unfolding keep
  is_empty-keep_of_none p [] h = refl
  is_empty-keep_of_none p (x ∷ xs) h =
      rw (h x (contains_head x xs))
        (is_empty-keep_of_none p xs (λ a m. h a (contains_tail a x xs m)))

module _ {ℓ} {E A : Type ℓ} ⦃e : Eq A⦄ (f : A → Result E Unit) where
  -- A loop of checks passes exactly when every member's check does.
  pub for_each→at :
      (xs : List A) → for_each f xs ≡ ok tt → (a : A) → contains a xs ≡ true → f a ≡ ok tt
  for_each→at [] h a m = unfold contains in cc
  for_each→at (x ∷ xs) h a m =
      let (p, q) = for_each-eq-ok f x xs h in
      elim (contains-cons a x xs m) [ inl r ↦ rw (← r) p | inr r ↦ for_each→at xs q a r ]

  pub at→for_each :
      (xs : List A) → ((a : A) → contains a xs ≡ true → f a ≡ ok tt) → for_each f xs ≡ ok tt
  unfolding for_each
  at→for_each [] h = refl
  at→for_each (x ∷ xs) h =
      rw (h x (contains_head x xs)) (at→for_each xs (λ a m. h a (contains_tail a x xs m)))
