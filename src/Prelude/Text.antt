-- ===== src/Prelude/Text.antt =====
-- Python's texts: whitespace, substrings, order and lengths in characters.
use Prim.Native.Nat.{ℕ}
use Prim.Native.Nat.{Ordering}
use Prim.Native.Char.{Char, code}
use Prim.Native.String.{String, [], ◌∷◌, compare, count}
use mathlib.Core.Bool.{Bool, true, false, ◌&&◌, ◌||◌, not}
use mathlib.Core.Option.{none, some}
use text.Mathlib.Text.{find?}
use valibra.Prelude.Tests.{leb, nat_beq}
use valibra.Prelude.Equality.{◌==◌, string_eq}

-- `a <= b`: Python compares code points, and UTF-8 keeps their order.
unfoldable pub text_le : String → String → Bool
text_le a b = elim (compare a b) [ Ordering.gt ↦ false | _ ↦ true ]

-- `needle in hay`.
unfoldable pub is_substring : String → String → Bool
is_substring needle hay = elim (find? hay needle) [ none ↦ false | some _ ↦ true ]

-- The characters that `str.strip` removes.
unfoldable pub is_space : Char → Bool
is_space ch =
    let c = code ch in
    (leb 9 c && leb c 13)
    || (leb 28 c && leb c 32)
    || nat_beq c 133
    || nat_beq c 160
    || nat_beq c 5760
    || (leb 8192 c && leb c 8202)
    || nat_beq c 8232
    || nat_beq c 8233
    || nat_beq c 8239
    || nat_beq c 8287
    || nat_beq c 12288

unfoldable pub starts_with_space : String → Bool
unfolding is_space
starts_with_space [] = false
starts_with_space (c ∷ _) = is_space c

unfoldable pub ends_with_space : String → Bool
unfolding is_space
ends_with_space [] = false
ends_with_space (c ∷ []) = is_space c
ends_with_space (_ ∷ d ∷ s) = ends_with_space (d ∷ s)

-- `not value.strip()`.
unfoldable pub is_blank : String → Bool
unfolding is_space
is_blank [] = true
is_blank (c ∷ s) = is_space c && is_blank s

-- `not value or value != value.strip()` is false.
unfoldable pub is_tight : String → Bool
unfolding starts_with_space ends_with_space
is_tight s = not (s == "") && not (starts_with_space s) && not (ends_with_space s)

-- `len(value) > maximum` is false.
unfoldable pub fits : ℕ → String → Bool
fits maximum s = leb (count s) maximum
