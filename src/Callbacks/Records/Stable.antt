-- ===== src/Callbacks/Records/Stable.antt =====
-- grounding_callbacks.py: each field that a `from_json` lets in passes the same test again.
use valibra.Prelude.{
  ℕ, ◌≡◌, refl, String, Bool, not, leb, contains, List, Option, none, some, ok, check-eq-ok,
  raise_if-eq-ok, >>=-eq-ok, subst, arith,
}
use valibra.Prelude.Json.{pos, negsuc, Json, null, bool, int, float, text, arr, obj, is_truthy}
use valibra.Callbacks.Values.{
  matching, short_value, python_length, is_phase, is_sequence, bounded_value, phase_value,
  sequence_value, exact_sequence, exact_text, member_text,
}
use valibra.Callbacks.Records.{
  PhaseStatus, succeeded, failed, status_value, status_text, error_type_value, optional_text,
}

pub matching_again :
    (test : String → Bool) (m : String) (j : Json) {s : String}
    → matching test m j ≡ ok s
    → matching test m (text s) ≡ ok s
unfolding matching
matching_again test m (text a) h = ground arith
matching_again test m null h = cc
matching_again test m (bool _) h = cc
matching_again test m (int _) h = cc
matching_again test m (float _) h = cc
matching_again test m (arr _) h = cc
matching_again test m (obj _) h = cc

pub member_text_again :
    (names : List String) (m : String) (j : Json) {s : String}
    → member_text names m j ≡ ok s
    → member_text names m (text s) ≡ ok s
unfolding member_text
member_text_again names m (text a) h = ground arith
member_text_again names m null h = cc
member_text_again names m (bool _) h = cc
member_text_again names m (int _) h = cc
member_text_again names m (float _) h = cc
member_text_again names m (arr _) h = cc
member_text_again names m (obj _) h = cc

pub exact_text_again :
    (expected : String) (m : String) (j : Json) {s : String}
    → exact_text expected m j ≡ ok s
    → exact_text expected m (text s) ≡ ok s
unfolding exact_text
exact_text_again expected m (text a) h = ground arith
exact_text_again expected m null h = cc
exact_text_again expected m (bool _) h = cc
exact_text_again expected m (int _) h = cc
exact_text_again expected m (float _) h = cc
exact_text_again expected m (arr _) h = cc
exact_text_again expected m (obj _) h = cc

pub exact_sequence_again :
    (m : String) (j : Json) {n : ℕ}
    → exact_sequence m j ≡ ok n
    → exact_sequence m (int (pos n)) ≡ ok n
unfolding exact_sequence
exact_sequence_again m (int (pos k)) h = let (t, e) = check-eq-ok _ _ _ h in ground arith
exact_sequence_again m (int (negsuc k)) h = cc
exact_sequence_again m null h = cc
exact_sequence_again m (bool _) h = cc
exact_sequence_again m (float _) h = cc
exact_sequence_again m (text _) h = cc
exact_sequence_again m (arr _) h = cc
exact_sequence_again m (obj _) h = cc

pub phase_value_again :
    (m : String) (j : Json) {v : Json} → phase_value m j ≡ ok v → phase_value m v ≡ ok v
unfolding phase_value
phase_value_again m j {v = v} h =
    subst (λ x. phase_value m x ≡ ok v) (check-eq-ok (is_phase j) _ _ h).1 h

pub sequence_value_again :
    (m : String) (j : Json) {v : Json} → sequence_value m j ≡ ok v → sequence_value m v ≡ ok v
unfolding sequence_value
sequence_value_again m j {v = v} h =
    subst (λ x. sequence_value m x ≡ ok v) (check-eq-ok (is_sequence j) _ _ h).1 h

short_value_same : (n : ℕ) (m : String) (j : Json) {v : Json} → short_value n m j ≡ ok v → j ≡ v
unfolding short_value
short_value_same n m j h =
    let (size, p, q) = >>=-eq-ok (python_length j) _ h in (check-eq-ok (leb size n) _ _ q).1

pub short_value_again :
    (n : ℕ) (m : String) (j : Json) {v : Json} → short_value n m j ≡ ok v → short_value n m v ≡ ok v
short_value_again n m j {v = v} h =
    subst (λ x. short_value n m x ≡ ok v) (short_value_same n m j h) h

pub bounded_value_again :
    (n : ℕ) (m : String) (j : Json) {v : Json}
    → bounded_value n m j ≡ ok v
    → bounded_value n m v ≡ ok v
unfolding bounded_value
bounded_value_again n m j {v = v} h =
    let (t, p) = raise_if-eq-ok (not (is_truthy j)) _ _ h in
    subst (λ x. bounded_value n m x ≡ ok v) (short_value_same n m j p) h

pub status_value_again : (s : PhaseStatus) → status_value (status_text s) ≡ ok s
unfolding status_value contains
status_value_again succeeded = refl
status_value_again failed = refl

pub error_type_value_again :
    (s : PhaseStatus) (j : Json) {e : Option String}
    → error_type_value s j ≡ ok e
    → error_type_value s (optional_text e) ≡ ok e
unfolding error_type_value
error_type_value_again succeeded null {e = none} h = refl
error_type_value_again succeeded null {e = some _} h = cc
error_type_value_again failed (text a) {e = none} h = ground arith
error_type_value_again failed (text a) {e = some b} h = ground arith
error_type_value_again succeeded (bool _) h = cc
error_type_value_again succeeded (int _) h = cc
error_type_value_again succeeded (float _) h = cc
error_type_value_again succeeded (text _) h = cc
error_type_value_again succeeded (arr _) h = cc
error_type_value_again succeeded (obj _) h = cc
error_type_value_again failed null h = cc
error_type_value_again failed (bool _) h = cc
error_type_value_again failed (int _) h = cc
error_type_value_again failed (float _) h = cc
error_type_value_again failed (arr _) h = cc
error_type_value_again failed (obj _) h = cc
