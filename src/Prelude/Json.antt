-- ===== src/Prelude/Json.antt =====
-- JSON data as the code reads it: `dict`, `list`, `str`, `int`, `bool`, `float` and `None`.
use Prim.Native.Nat.{ℕ}
use Prim.Native.String.{String}
use mathlib.Core.Bool.{Bool, true, false, ◌&&◌, not}
use mathlib.Core.Option.{Option, none, some}
use mathlib.Core.List.{List, [], ◌∷◌}
use mathlib.Core.Path.{◌≡◌, ap}
use mathlib.Core.Logic.{◌↔◌}
use valibra.Prelude.Tests.{if◌then◌else◌, nat_beq, nat_beq_iff}
use valibra.Prelude.Lists.{length}
use valibra.Prelude.Equality.{Eq, ◌==◌, string_eq, nat_eq}

-- `negsuc n` is -(n + 1).
pub data ℤ : Type 0 where
  pos : ℕ → ℤ
  negsuc : ℕ → ℤ

abbrev pub int_beq : ℤ → ℤ → Bool
int_beq (pos a) (pos b) = nat_beq a b
int_beq (negsuc a) (negsuc b) = nat_beq a b
int_beq _ _ = false

pub int_beq_iff : (a b : ℤ) → (int_beq a b ≡ true) ↔ (a ≡ b)
int_beq_iff (pos a) (pos b) = (λ h. ap pos ((nat_beq_iff a b).0 h), λ h. (nat_beq_iff a b).1 (cc))
int_beq_iff (negsuc a) (negsuc b) =
    (λ h. ap negsuc ((nat_beq_iff a b).0 h), λ h. (nat_beq_iff a b).1 (cc))
int_beq_iff (pos a) (negsuc b) = (λ h. cc, λ h. cc)
int_beq_iff (negsuc a) (pos b) = (λ h. cc, λ h. cc)

instance abbrev pub int_eq : Eq ℤ
int_eq = record { is_equal = int_beq; is_equal_iff = int_beq_iff }

-- A number that is no integer is kept by Python's text of it.
mutual
  pub data Json : Type 0 where
    null : Json
    bool : Bool → Json
    int : ℤ → Json
    float : String → Json
    text : String → Json
    arr : Items → Json
    obj : Fields → Json

  pub data Items : Type 0 where
    nil : Items
    cons : Json → Items → Items

  pub data Fields : Type 0 where
    end : Fields
    field : String → Json → Fields → Fields

unfoldable pub get : String → Fields → Option Json
get k end = none
get k (field j v rest) = if j == k then some v else get k rest

-- `key in mapping`.
unfoldable pub has_key : String → Fields → Bool
unfolding get
has_key k fields = elim (get k fields) [ none ↦ false | some _ ↦ true ]

unfoldable pub keys : Fields → List String
keys end = []
keys (field k _ rest) = k ∷ keys rest

unfoldable pub items : Items → List Json
items nil = []
items (cons x xs) = x ∷ items xs

unfoldable pub text_items : List String → Items
text_items [] = nil
text_items (s ∷ ss) = cons (text s) (text_items ss)

-- Python's truth of a value.
abbrev pub is_truthy : Json → Bool
is_truthy null = false
is_truthy (bool b) = b
is_truthy (int n) = not (int_beq n (pos 0))
is_truthy (float s) = not (s == "0.0") && not (s == "-0.0")
is_truthy (text s) = not (s == "")
is_truthy (arr nil) = false
is_truthy (arr (cons _ _)) = true
is_truthy (obj end) = false
is_truthy (obj (field _ _ _)) = true

-- `==`: lists in order, objects by key.
unfoldable mutual
  pub json_beq : Json → Json → Bool
  json_beq null null = true
  json_beq (bool true) (bool true) = true
  json_beq (bool false) (bool false) = true
  json_beq (int a) (int b) = a == b
  json_beq (float a) (float b) = a == b
  json_beq (text a) (text b) = a == b
  json_beq (arr xs) (arr ys) = items_beq xs ys
  json_beq (obj a) (obj b) = nat_beq (length (keys a)) (length (keys b)) && fields_beq a b
  json_beq _ _ = false

  pub items_beq : Items → Items → Bool
  items_beq nil nil = true
  items_beq (cons x xs) (cons y ys) = json_beq x y && items_beq xs ys
  items_beq _ _ = false

  pub fields_beq : Fields → Fields → Bool
  fields_beq end b = true
  fields_beq (field k v rest) b =
      (elim (get k b) [ none ↦ false | some w ↦ json_beq v w ]) && fields_beq rest b
