-- ===== src/Callbacks/Clarifications.antt =====
-- grounding_callbacks.py: the questions put to the user and their answers, kept in the session
-- outside the Runtime. The overlay is the list of its records: pydantic's `model_dump` and
-- `model_validate`, through which it passes on its way to the session and back, are left out.
pub mod Laws
pub mod Answers
use valibra.Prelude.{
  ℕ, suc, ◌+◌, String, Bool, true, false, not, ◌&&◌, ◌||◌, Option, none, some, List, [], ◌∷◌, ◌++◌,
  map, keep, leb, length, any, all, contains, has_no_duplicates, to_int, Result, ok, err, raise_if,
  ◌>>=◌, ◌>>◌, string_eq, nat_eq, ◌==◌, ◌!=◌, Eq, if◌then◌else◌,
}
use valibra.Prelude.Json.{Json, text}
use valibra.Prelude.Text.{is_blank, fits}
use valibra.Models.Types.{max_clarification_answer_chars}
use valibra.Service.Documents.{UserClarificationRecord}
use valibra.Models.Validation.{UserClarificationRequest}
use valibra.Callbacks.Values.{Failure, value_error}

abbrev pub Overlay : Type 0
Overlay = List UserClarificationRecord

-- `_MAX_CLARIFICATION_RECORDS`.
abbrev pub max_clarification_records : ℕ
max_clarification_records = 16

-- `(item.phase, item.question) == (phase, question)`.
abbrev pub has_key : ℕ → String → UserClarificationRecord → Bool
has_key phase question item = item.phase == phase && item.question == question

abbrev is_unanswered : Option String → Bool
is_unanswered none = true
is_unanswered (some _) = false

abbrev pub is_pending : UserClarificationRecord → Bool
is_pending item = is_unanswered item.answer

-- `len(keys) == len(set(keys))`.
unfoldable pub has_unique_keys : Overlay → Bool
has_unique_keys [] = true
has_unique_keys (item ∷ rest) =
    not (any (has_key item.phase item.question) rest) && has_unique_keys rest

unfoldable pub clarification_records : Overlay → Result Failure Overlay
clarification_records overlay = do
  raise_if (not (leb (length overlay) max_clarification_records))
      (value_error "invalid clarification overlay")
  raise_if (not (has_unique_keys overlay)) (value_error "clarification overlay contains duplicates")
  ok overlay

unfoldable pub store_clarification_records : Overlay → Result Failure Overlay
store_clarification_records records =
    raise_if (not (leb (length records) max_clarification_records))
      (value_error "clarification overlay exceeds its task bound")
    >> ok records

-- A request is already validated, so its record is.
abbrev pub record_of : ℕ → UserClarificationRequest → UserClarificationRecord
record_of phase item = record {
  phase = phase;
  phrase = item.phrase;
  kind = item.kind;
  question = item.question;
  answer = none;
}

unfoldable pub register_clarification_requests :
    ℕ → List UserClarificationRequest → Overlay → Result Failure Overlay
register_clarification_requests phase requests overlay = do
  records ← clarification_records overlay
  raise_if
      (not (has_no_duplicates (map (λ (item : UserClarificationRequest). item.question) requests)))
      (value_error "clarification questions must be unique within a phase")
  raise_if
      (any (λ (item : UserClarificationRequest). any (has_key phase item.question) records)
        requests)
      (value_error "clarification question already exists in this phase")
  raise_if
      (any
        (λ (item : UserClarificationRequest).
          any (λ (old : UserClarificationRecord). not (is_pending old) && old.phrase == item.phrase)
            records)
        requests)
      (value_error "answered clarification phrase cannot be requested again")
  store_clarification_records (records ++ map (record_of phase) requests)

-- The first record without an answer.
unfoldable pub first_pending : Overlay → Option UserClarificationRecord
first_pending [] = none
first_pending (item ∷ rest) = if is_pending item then some item else first_pending rest

unfoldable pub next_pending_clarification :
    Overlay → Result Failure (Option UserClarificationRecord)
next_pending_clarification overlay =
    clarification_records overlay >>= λ records. ok (first_pending records)

unfoldable pub count_pending : Overlay → ℕ
count_pending [] = 0
count_pending (item ∷ rest) = to_int (is_pending item) + count_pending rest

unfoldable pub pending_clarification_count : Overlay → Result Failure ℕ
pending_clarification_count overlay =
    clarification_records overlay >>= λ records. ok (count_pending records)

unfoldable pub count_matches : ℕ → String → Overlay → ℕ
count_matches phase question [] = 0
count_matches phase question (item ∷ rest) =
    to_int (has_key phase question item) + count_matches phase question rest

unfoldable pub find_match : ℕ → String → Overlay → Option UserClarificationRecord
find_match phase question [] = none
find_match phase question (item ∷ rest) =
    if has_key phase question item then some item else find_match phase question rest

-- `records[index] = record` at the one match.
unfoldable pub replace_match : ℕ → String → UserClarificationRecord → Overlay → Overlay
replace_match phase question new [] = []
replace_match phase question new (item ∷ rest) =
    let changed = replace_match phase question new rest in
    if has_key phase question item then new ∷ rest else item ∷ changed

-- models.py: `min_length`, `max_length` and `validate_answer`.
unfoldable pub is_answer : String → Bool
is_answer value = fits max_clarification_answer_chars value && not (is_blank value)

-- The record with its answer.
abbrev pub answer_with : String → UserClarificationRecord → UserClarificationRecord
answer_with answer current = record {
  phase = current.phase;
  phrase = current.phrase;
  kind = current.kind;
  question = current.question;
  answer = some answer;
}

-- What an answer does to the overlay, by the answer that its record has.
unfoldable pub give_answer :
    String → UserClarificationRecord → Overlay → Option String → Result Failure Overlay
give_answer answer current records (some given) =
    if given == answer then ok records else err (value_error "clarification answer is immutable")
give_answer answer current records none =
    raise_if (not (is_answer answer))
      (value_error "clarification answer must contain non-whitespace text")
    >> store_clarification_records
        (replace_match current.phase current.question (answer_with answer current) records)

unfoldable pub answer_match :
    String → Overlay → Option UserClarificationRecord → Result Failure Overlay
answer_match answer records none = err (value_error "clarification answer does not pair uniquely")
answer_match answer records (some current) = give_answer answer current records current.answer

unfoldable pub record_clarification_answer : ℕ → String → Json → Overlay → Result Failure Overlay
record_clarification_answer phase question (text answer) overlay = do
  records ← clarification_records overlay
  raise_if (count_matches phase question records != 1)
      (value_error "clarification answer does not pair uniquely")
  answer_match answer records (find_match phase question records)
record_clarification_answer phase question _ overlay =
    err (value_error "clarification answer must be a string")
