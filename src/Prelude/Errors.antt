-- ===== src/Prelude/Errors.antt =====
-- Exceptions as values. `E` is what the code may raise.
use mathlib.Core.Path.{◌≡◌, refl}
use mathlib.Core.Bool.{Bool, true, false}
use mathlib.Core.List.{List, [], ◌∷◌}

pub data Result {ℓ} (E A : Type ℓ) : Type ℓ where
  ok : A → Result E A
  err : E → Result E A

module _ {ℓ} {E A B : Type ℓ} where
  infixl 5 ◌>>=◌
  abbrev pub ◌>>=◌ : Result E A → (A → Result E B) → Result E B
  ok a >>= f = f a
  err e >>= f = err e

module _ {ℓ} {E B : Type ℓ} where
  infixl 5 ◌>>◌
  abbrev pub ◌>>◌ : Result E Unit → Result E B → Result E B
  m >> k = m >>= λ _. k

-- `if test: raise e`.
abbrev pub raise_if {ℓ} : {E : Type ℓ} → Bool → E → Result E Unit
raise_if true e = err e
raise_if false e = ok tt

-- A loop that checks every element and stops at the first that raises.
unfoldable pub for_each {ℓ} : {E A : Type ℓ} → (A → Result E Unit) → List A → Result E Unit
for_each f [] = ok tt
for_each f (x ∷ xs) = f x >>= λ _. for_each f xs

module _ {ℓ} {E A B : Type ℓ} where
  pub >>=-eq-ok :
      (first : Result E A) (rest : A → Result E B) {last : B}
      → (first >>= rest) ≡ ok last
      → (middle : A) × (first ≡ ok middle) × (rest middle ≡ ok last)
  >>=-eq-ok (ok middle) rest h = (middle, refl, h)
  >>=-eq-ok (err raised) rest h = cc

module _ {ℓ κ} {E A B : Type ℓ} {G : Type κ} where
  -- What follows from a success of two steps, given what the first one returned.
  pub split_steps :
      (first : Result E A) (rest : A → Result E B) {last : B}
      → (first >>= rest) ≡ ok last
      → ((middle : A) → first ≡ ok middle → rest middle ≡ ok last → G)
      → G
  split_steps (ok middle) rest h use_it = use_it middle refl h
  split_steps (err raised) rest h use_it = cc

module _ {ℓ} {E B : Type ℓ} where
  pub raise_if-eq-ok :
      (b : Bool) (e : E) (k : Result E B) {r : B}
      → (raise_if b e >> k) ≡ ok r
      → (b ≡ false) × (k ≡ ok r)
  raise_if-eq-ok true e k h = cc
  raise_if-eq-ok false e k h = (refl, h)

-- A value that is refused unless it passes a test.
abbrev pub check {ℓ} : {E A : Type ℓ} → Bool → E → A → Result E A
check true e a = ok a
check false e a = err e

pub check-eq-ok {ℓ} :
    {E A : Type ℓ} (b : Bool) (e : E) (a : A) {r : A} → check b e a ≡ ok r → (b ≡ true) × (a ≡ r)
check-eq-ok true e a h = (refl, cc)
check-eq-ok false e a h = cc

module _ {ℓ} {E A : Type ℓ} (f : A → Result E Unit) where
  -- A loop of checks passes exactly when every check does.
  pub for_each-eq-ok :
      (x : A) (xs : List A) {u : Unit {ℓ}}
      → for_each f (x ∷ xs) ≡ ok u
      → (f x ≡ ok tt) × (for_each f xs ≡ ok tt)
  unfolding for_each
  for_each-eq-ok x xs h = let (t, p, q) = >>=-eq-ok (f x) (λ _. for_each f xs) h in (p, q)

  pub for_each_of_all :
      (x : A) (xs : List A) → f x ≡ ok tt → for_each f xs ≡ ok tt → for_each f (x ∷ xs) ≡ ok tt
  unfolding for_each
  for_each_of_all x xs h k = rw h k

pub ok_injective {ℓ} : {E A : Type ℓ} {a b : A} → ◌≡◌ {A = Result E A} (ok a) (ok b) → a ≡ b
ok_injective h = cc

abbrev pub is_ok {ℓ} : {E A : Type ℓ} → Result E A → Bool
is_ok (ok _) = true
is_ok (err _) = false

pub is_ok→value {ℓ} : {E A : Type ℓ} (r : Result E A) → is_ok r ≡ true → (a : A) × (r ≡ ok a)
is_ok→value (ok a) h = (a, refl)
is_ok→value (err e) h = cc
