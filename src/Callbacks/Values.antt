-- ===== src/Callbacks/Values.antt =====
-- valibra_agent/grounding_callbacks.py: what the callbacks keep between calls is JSON. The readers
-- here are the tests that every `from_json` puts on a field, and what each raises.
use Prim.Native.String.{count, ◌∷◌ as char_cons}
use Prim.Native.Char.{Char, code}
use valibra.Prelude.{
  ℕ, String, ◌≡◌, refl, Bool, true, false, not, ◌&&◌, ◌||◌, Option, none, some, List, leb, nat_beq,
  length, all, contains, string_eq, ◌==◌, Result, ok, err, check, raise_if, raise_if-eq-ok, ◌>>=◌,
  ◌>>◌,
}
use valibra.Prelude.Json.{
  pos, Json, null, bool, int, float, text, arr, obj, Fields, get, keys, items, is_truthy,
}

-- The exceptions the stores raise: a `ValueError` with its message, a `TypeError`, a `KeyError`.
pub data Failure : Type 0 where
  value_error : String → Failure
  type_error key_error : Failure

-- `[A-Za-z0-9]`.
is_alphanumeric : Char → Bool
is_alphanumeric ch =
    let c = code ch in
    (leb b'0' c && leb c b'9') || (leb b'A' c && leb c b'Z') || (leb b'a' c && leb c b'z')

-- `[A-Za-z0-9_.:-]*`.
is_identifier_tail : String → Bool
unfolding is_alphanumeric
is_identifier_tail String.[] = true
is_identifier_tail (char_cons ch s) =
    let c = code ch in
    (is_alphanumeric ch || nat_beq c b'_' || nat_beq c b'.' || nat_beq c b':' || nat_beq c b'-')
    && is_identifier_tail s

-- `_IDENTIFIER_RE.fullmatch`.
unfoldable pub is_identifier : String → Bool
unfolding is_identifier_tail
is_identifier String.[] = false
is_identifier (char_cons ch s) = is_alphanumeric ch && is_identifier_tail s && leb (count s) 255

abbrev or_null : Option Json → Json
or_null none = null
or_null (some v) = v

-- `payload[name]`, where the names were compared before.
abbrev pub value_of : String → Fields → Json
value_of name payload = or_null (get name payload)

-- `set(payload) == names`.
abbrev pub has_names : List String → Fields → Bool
has_names names payload =
    all (λ name. contains name names) (keys payload)
    && all (λ name. contains name (keys payload)) names

-- A regular expression that matches a text whole; another value is a `TypeError`.
unfoldable pub matching : (String → Bool) → String → Json → Result Failure String
matching test message (text s) = check (test s) (value_error message) s
matching test message _ = err type_error

-- `len(value)`.
unfoldable pub python_length : Json → Result Failure ℕ
python_length (text s) = ok (count s)
python_length (arr xs) = ok (length (items xs))
python_length (obj fields) = ok (length (keys fields))
python_length _ = err type_error

-- `len(value) > maximum` raises.
unfoldable pub short_value : ℕ → String → Json → Result Failure Json
short_value maximum message value =
    python_length value >>= λ n. check (leb n maximum) (value_error message) value

-- `not value or len(value) > maximum` raises.
unfoldable pub bounded_value : ℕ → String → Json → Result Failure Json
bounded_value maximum message value =
    raise_if (not (is_truthy value)) (value_error message) >> short_value maximum message value

-- `value in (1, 2)`: Python's `True` and `1.0` are equal to 1.
abbrev pub is_phase : Json → Bool
is_phase (int (pos n)) = nat_beq n 1 || nat_beq n 2
is_phase (bool b) = b
is_phase (float s) = s == "1.0" || s == "2.0"
is_phase _ = false

unfoldable pub phase_value : String → Json → Result Failure Json
phase_value message value = check (is_phase value) (value_error message) value

-- `_MAX_SEQUENCE`.
abbrev pub max_sequence : ℕ
max_sequence = 9223372036854775807

-- `isinstance(value, int) and 1 <= value <= _MAX_SEQUENCE`, which `True` passes.
abbrev pub is_sequence : Json → Bool
is_sequence (int (pos n)) = leb 1 n && leb n max_sequence
is_sequence (bool b) = b
is_sequence _ = false

unfoldable pub sequence_value : String → Json → Result Failure Json
sequence_value message value = check (is_sequence value) (value_error message) value

-- The same, where a Boolean is refused first.
unfoldable pub exact_sequence : String → Json → Result Failure ℕ
exact_sequence message (int (pos n)) = check (leb 1 n && leb n max_sequence) (value_error message) n
exact_sequence message _ = err (value_error message)

-- `value in {…}` for a set of texts: a list or a dict cannot be hashed.
unfoldable pub member_text : List String → String → Json → Result Failure String
member_text names message (text s) = check (contains s names) (value_error message) s
member_text names message (arr _) = err type_error
member_text names message (obj _) = err type_error
member_text names message _ = err (value_error message)

-- `value != expected` raises.
unfoldable pub exact_text : String → String → Json → Result Failure String
exact_text expected message (text s) = check (s == expected) (value_error message) s
exact_text expected message _ = err (value_error message)

-- `isinstance(value, bool)`.
unfoldable pub exact_bool : String → Json → Result Failure Bool
exact_bool message (bool b) = ok b
exact_bool message _ = err (value_error message)

-- An integer that is no Boolean and not negative.
unfoldable pub exact_nat : String → Json → Result Failure ℕ
exact_nat message (int (pos n)) = ok n
exact_nat message _ = err (value_error message)

-- `not isinstance(payload, dict) or not named(payload)` raises.
unfoldable pub object_value :
    {R : Type 0} → (Fields → Bool) → String → (Fields → Result Failure R) → Json → Result Failure R
object_value named message read (obj payload) =
    raise_if (not (named payload)) (value_error message) >> read payload
object_value named message read _ = err (value_error message)

pub object_value-eq-ok :
    {R : Type 0} (named : Fields → Bool) (m : String) (read : Fields → Result Failure R) (j : Json)
    {r : R}
    → object_value named m read j ≡ ok r
    → (p : Fields) × (j ≡ obj p) × (read p ≡ ok r)
unfolding object_value
object_value-eq-ok named m read (obj p) h =
    let (t, k) = raise_if-eq-ok (not (named p)) _ _ h in (p, refl, k)
object_value-eq-ok named m read null h = cc
object_value-eq-ok named m read (bool _) h = cc
object_value-eq-ok named m read (int _) h = cc
object_value-eq-ok named m read (float _) h = cc
object_value-eq-ok named m read (text _) h = cc
object_value-eq-ok named m read (arr _) h = cc
