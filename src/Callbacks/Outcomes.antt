-- ===== src/Callbacks/Outcomes.antt =====
-- grounding_callbacks.py: how each phase's grounding ended. An outcome is written once.
pub mod Laws
use valibra.Prelude.{
  ℕ, String, Bool, true, false, not, ◌&&◌, ◌||◌, Option, none, some, [], ◌∷◌, contains, Result, ok,
  err, raise_if, check, ◌>>=◌, ◌>>◌, string_eq, nat_eq, option_eq, ◌==◌, ◌!=◌, Eq, if◌then◌else◌,
}
use valibra.Prelude.Json.{pos, Json, null, bool, int, float, text, get, json_beq}
use valibra.Models.Vocabulary.{FocusDimension, focus_eq}
use valibra.Models.Types.{SqlGroundingState, GroundingRuntime}
use valibra.Models.State.{all_dimensions_evaluated}
use valibra.Callbacks.Values.{Failure, value_error, is_phase}
use valibra.Callbacks.Records.{
  PhaseStatus, succeeded, failed, PhaseGroundingOutcome, outcome_to_json, outcome_from_json,
}
use valibra.Callbacks.Records.RoundTrip.{outcome_from_json-to_json}
use valibra.Callbacks.Session.{Session, put, Records, find_record, put_record}
use valibra.Callbacks.Store.{Codec, StoreShape, load_records, store_records}

-- `str(phase)` of a value that passed `phase in (1, 2)`.
abbrev pub phase_text : Json → String
phase_text (int (pos n)) = if n == 1 then "1" else "2"
phase_text (bool true) = "True"
phase_text (float s) = s
phase_text _ = ""

abbrev pub outcome_shape : StoreShape
outcome_shape = record {
  state_key = "valibra:sql_grounding_phase_outcomes";
  limit = 2;
  allows_key = λ key. contains key ("1" ∷ "2" ∷ []);
  invalid_store = "invalid phase Grounding outcome store";
  invalid_key = "invalid phase Grounding outcome key";
  mismatched_key = "phase Grounding outcome key mismatch";
  too_many = "invalid phase Grounding outcomes";
  duplicate = "phase Grounding outcome is immutable";
  checks_added = false;
  checks_stored = true;
}

abbrev pub outcome_codec : Codec PhaseGroundingOutcome
outcome_codec = record {
  to_json = outcome_to_json;
  from_json = outcome_from_json;
  call_id = λ r. phase_text r.phase;
  from_json-to_json = λ j r h. outcome_from_json-to_json j h;
}

unfoldable pub phase_grounding_outcomes : Session → Result Failure (Records PhaseGroundingOutcome)
phase_grounding_outcomes = load_records outcome_codec outcome_shape

unfoldable pub store_phase_grounding_outcomes :
    Records PhaseGroundingOutcome → Session → Result Failure Session
store_phase_grounding_outcomes = store_records outcome_codec outcome_shape

abbrev pub status_beq : PhaseStatus → PhaseStatus → Bool
status_beq succeeded succeeded = true
status_beq failed failed = true
status_beq _ _ = false

abbrev pub bool_beq : Bool → Bool → Bool
bool_beq true b = b
bool_beq false b = not b

-- `existing == record`: the dataclass compares its fields.
unfoldable pub outcome_beq : PhaseGroundingOutcome → PhaseGroundingOutcome → Bool
outcome_beq a b =
    json_beq a.phase b.phase
    && status_beq a.status b.status
    && a.observation_id == b.observation_id
    && a.error_type == b.error_type
    && bool_beq a.provider_attempted b.provider_attempted
    && a.grounding_revision == b.grounding_revision
    && a.state_sha256 == b.state_sha256

-- The part of an Observation that the outcome names. Its phase is 1 or 2.
pub record OutcomeCause : Type 0 where
  pub phase : ℕ
  pub observation_id : String

abbrev pub p2_evidence_key : String
p2_evidence_key = "valibra:p2_check_cumulative_official_evidence_r1"

-- `value is not None`.
abbrev pub is_stored : Option Json → Bool
is_stored none = false
is_stored (some null) = false
is_stored (some _) = true

-- The record of the second phase's Check is reset.
unfoldable pub clear_p2_check_cumulative_evidence : Session → Session
clear_p2_check_cumulative_evidence s =
    if is_stored (get p2_evidence_key s) then put p2_evidence_key null s else s

-- What is done with an outcome that `from_json` let through, by the one its phase has.
unfoldable pub keep_outcome :
    PhaseGroundingOutcome
    → Records PhaseGroundingOutcome
    → String
    → Session
    → Option PhaseGroundingOutcome
    → Result Failure (PhaseGroundingOutcome × Session)
keep_outcome r records key s (some existing) =
    if outcome_beq existing r
    then ok (existing, s)
    else err (value_error "phase Grounding outcome is immutable")
keep_outcome r records key s none =
    store_phase_grounding_outcomes (put_record key r records) s >>= λ s'. ok (r, s')

module _ (sha256 : SqlGroundingState → String) where
  unfoldable pub make_outcome :
      OutcomeCause → GroundingRuntime → PhaseStatus → Option String → Bool → PhaseGroundingOutcome
  make_outcome cause runtime status error_type provider_attempted = record {
    phase = int (pos cause.phase);
    status = status;
    observation_id = cause.observation_id;
    error_type = error_type;
    provider_attempted = provider_attempted;
    grounding_revision = runtime.grounding_revision;
    state_sha256 = sha256 runtime.grounding_state;
  }

  -- `_record_phase_grounding_outcome` after the reset of the second phase's Check.
  unfoldable pub record_outcome :
      OutcomeCause
      → GroundingRuntime
      → PhaseStatus
      → Option String
      → Bool
      → Session
      → Result Failure (PhaseGroundingOutcome × Session)
  record_outcome cause runtime status error_type provider_attempted s = do
    raise_if
        (status_beq status succeeded
          && (not (all_dimensions_evaluated runtime.grounding_state)
              || runtime.focus_dimension != FocusDimension.none))
        (value_error "successful phase Grounding requires a complete State")
    r ←
        outcome_from_json
          (outcome_to_json (make_outcome cause runtime status error_type provider_attempted))
    records ← phase_grounding_outcomes s
    let key = phase_text (int (pos cause.phase)) in
        keep_outcome r records key s (find_record key records)

  -- What raises leaves the session with that reset.
  unfoldable pub record_phase_grounding_outcome :
      OutcomeCause
      → GroundingRuntime
      → PhaseStatus
      → Option String
      → Bool
      → Session
      → Result Failure (PhaseGroundingOutcome × Session)
  record_phase_grounding_outcome cause runtime status error_type provider_attempted s =
      record_outcome cause runtime status error_type provider_attempted
        (if cause.phase == 2 then clear_p2_check_cumulative_evidence s else s)

-- `_phase`.
unfoldable pub checked_phase : Json → Result Failure Json
checked_phase (bool _) = err (value_error "phase must be exactly 1 or 2")
checked_phase value = check (is_phase value) (value_error "phase must be exactly 1 or 2") value

-- `phase or _phase(state.get("current_phase", 1))`.
unfoldable pub selected_phase : Option ℕ → Session → Result Failure Json
selected_phase (some phase) s = ok (int (pos phase))
selected_phase none s =
    checked_phase (elim (get "current_phase" s) [ none ↦ int (pos 1) | some value ↦ value ])

-- The outcome of the selected phase.
unfoldable pub outcome_of : Option ℕ → Session → Result Failure (Option PhaseGroundingOutcome)
outcome_of phase s = do
  selected ← selected_phase phase s
  records ← phase_grounding_outcomes s
  ok (find_record (phase_text selected) records)

abbrev failed_only : Option PhaseGroundingOutcome → Option PhaseGroundingOutcome
failed_only none = none
failed_only (some r) = if status_beq r.status failed then some r else none

abbrev is_success : Option PhaseGroundingOutcome → Bool
is_success none = false
is_success (some r) = status_beq r.status succeeded

unfoldable pub phase_grounding_failure :
    Option ℕ → Session → Result Failure (Option PhaseGroundingOutcome)
unfolding outcome_of
phase_grounding_failure phase s = outcome_of phase s >>= λ found. ok (failed_only found)

unfoldable pub phase_grounding_succeeded : Option ℕ → Session → Result Failure Bool
unfolding outcome_of
phase_grounding_succeeded phase s = outcome_of phase s >>= λ found. ok (is_success found)
