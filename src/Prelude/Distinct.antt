-- ===== src/Prelude/Distinct.antt =====
-- The members of `distinct` and of a joined list.
use mathlib.Core.Path.{◌≡◌, refl}
use mathlib.Core.Logic.{inl, inr}
use mathlib.Core.Bool.{Bool, true, false, not, ◌||◌}
use mathlib.Core.List.{List, [], ◌∷◌, ◌++◌}
use native.Mathlib.Omega.{arith}
use valibra.Prelude.Tests.{Bool-cases}
use valibra.Prelude.Lists.{keep, is_empty}
use valibra.Prelude.Equality.{Eq, ◌==◌, eq_of_beq, beq_refl}
use valibra.Prelude.Sort.{contains, distinct, has_no_duplicates}
use valibra.Prelude.Membership.{contains-keep}

module _ {ℓ} {A : Type ℓ} ⦃e : Eq A⦄ where
  pub contains-append :
      (a : A) (xs ys : List A) → contains a (xs ++ ys) ≡ (contains a xs || contains a ys)
  unfolding contains
  contains-append a [] ys = refl
  contains-append a (x ∷ xs) ys = ground (arith, contains-append a xs ys)

  pub contains-distinct : (a : A) (xs : List A) → contains a (distinct xs) ≡ contains a xs
  unfolding contains distinct
  contains-distinct a [] = refl
  contains-distinct a (x ∷ xs) = elim (Bool-cases (x == a)) [
    | inl q ↦ rw q
    | inr q ↦ elim (Bool-cases (a == x)) [
      | inl k ↦
          let s = eq_of_beq a x k in
          let t = beq_refl x in
          ground (
            arith,
            contains-keep (λ other. not (other == x)) (distinct xs) a,
            contains-distinct a xs,
          )
      | inr k ↦
          ground (
            arith,
            contains-keep (λ other. not (other == x)) (distinct xs) a,
            contains-distinct a xs,
          )
    ]
  ]

  has_no_duplicates-keep :
      (p : A → Bool) (xs : List A)
      → has_no_duplicates xs ≡ true
      → has_no_duplicates (keep p xs) ≡ true
  unfolding has_no_duplicates keep
  has_no_duplicates-keep p [] h = refl
  has_no_duplicates-keep p (x ∷ xs) h =
      ground (arith, contains-keep p xs x, has_no_duplicates-keep p xs)

  pub has_no_duplicates-distinct : (xs : List A) → has_no_duplicates (distinct xs) ≡ true
  unfolding has_no_duplicates distinct
  has_no_duplicates-distinct [] = refl
  has_no_duplicates-distinct (x ∷ xs) =
      let others = λ (other : A). not (other == x) in
      let t = beq_refl x in
      let k = has_no_duplicates-keep others (distinct xs) (has_no_duplicates-distinct xs) in
      ground (arith, contains-keep others (distinct xs) x, k)

  pub empty_contains : (a : A) (xs : List A) → is_empty xs ≡ true → contains a xs ≡ false
  unfolding contains
  empty_contains a [] h = refl
  empty_contains a (x ∷ xs) h = cc
