-- ===== src/Prelude/Sort.antt =====
-- Membership, duplicates and Python's stable `sorted`.
use mathlib.Core.Path.{◌≡◌, refl}
use mathlib.Core.Bool.{Bool, true, false, ◌&&◌, ◌||◌, not}
use mathlib.Core.List.{List, [], ◌∷◌}
use native.Mathlib.Omega.{arith}
use valibra.Prelude.Tests.{if◌then◌else◌}
use valibra.Prelude.Lists.{keep, length}
use valibra.Prelude.Equality.{Eq, ◌==◌, eq_of_beq}

module _ {ℓ} {A : Type ℓ} ⦃e : Eq A⦄ where
  unfoldable pub contains : A → List A → Bool
  contains a [] = false
  contains a (x ∷ xs) = (x == a) || contains a xs

  -- `len(values) == len(set(values))`: no value occurs again behind itself.
  unfoldable pub has_no_duplicates : List A → Bool
  unfolding contains
  has_no_duplicates [] = true
  has_no_duplicates (x ∷ xs) = not (contains x xs) && has_no_duplicates xs

  -- The members, each at its first place.
  unfoldable pub distinct : List A → List A
  distinct [] = []
  distinct (x ∷ xs) = x ∷ keep (λ other. not (other == x)) (distinct xs)

-- `sorted(values, key=…)` by the comparison `le` of the keys: insertion, which is stable.
module _ {ℓ} {A : Type ℓ} (le : A → A → Bool) where
  unfoldable pub insert_sorted : A → List A → List A
  insert_sorted a [] = a ∷ []
  insert_sorted a (x ∷ xs) = if le a x then a ∷ x ∷ xs else x ∷ insert_sorted a xs

  unfoldable pub sorted : List A → List A
  unfolding insert_sorted
  sorted [] = []
  sorted (x ∷ xs) = insert_sorted x (sorted xs)

module _ {ℓ} {A : Type ℓ} (le : A → A → Bool) where
  length-insert_sorted : (x : A) (xs : List A) → length (insert_sorted le x xs) ≡ length (x ∷ xs)
  unfolding insert_sorted
  length-insert_sorted x [] = refl
  length-insert_sorted x (y ∷ ys) = ground (arith, length-insert_sorted x ys)

  pub length-sorted : (xs : List A) → length (sorted le xs) ≡ length xs
  unfolding sorted
  length-sorted [] = refl
  length-sorted (x ∷ xs) = rw (length-insert_sorted x (sorted le xs), length-sorted xs)

module _ {ℓ} {A : Type ℓ} ⦃e : Eq A⦄ (le : A → A → Bool) where
  contains-insert_sorted :
      (a x : A) (xs : List A) → contains a (insert_sorted le x xs) ≡ ((x == a) || contains a xs)
  unfolding contains insert_sorted
  contains-insert_sorted a x [] = refl
  contains-insert_sorted a x (y ∷ ys) = ground (arith, contains-insert_sorted a x ys)

  -- Sorting keeps the members.
  pub contains-sorted : (a : A) (xs : List A) → contains a (sorted le xs) ≡ contains a xs
  unfolding contains sorted
  contains-sorted a [] = refl
  contains-sorted a (x ∷ xs) =
      ground (arith, contains-insert_sorted a x (sorted le xs), contains-sorted a xs)

  has_no_duplicates-insert_sorted :
      (x : A) (xs : List A)
      → contains x xs ≡ false
      → has_no_duplicates xs ≡ true
      → has_no_duplicates (insert_sorted le x xs) ≡ true
  unfolding has_no_duplicates insert_sorted
  has_no_duplicates-insert_sorted x [] h k = refl
  has_no_duplicates-insert_sorted x (y ∷ ys) h k = ground (
    arith,
    has_no_duplicates-insert_sorted x ys,
    contains-insert_sorted y x ys,
    eq_of_beq x y,
    e.is_equal_iff x y,
    e.is_equal_iff y x,
  )

  pub has_no_duplicates-sorted :
      (xs : List A) → has_no_duplicates xs ≡ true → has_no_duplicates (sorted le xs) ≡ true
  unfolding has_no_duplicates sorted
  has_no_duplicates-sorted [] h = refl
  has_no_duplicates-sorted (x ∷ xs) h = ground (
    arith,
    has_no_duplicates-insert_sorted x (sorted le xs),
    contains-sorted x xs,
    has_no_duplicates-sorted xs,
  )
