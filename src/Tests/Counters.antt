-- ===== src/Tests/Counters.antt =====
-- grounding_callbacks.py: the Provider counters, an outcome and two clarifications of one session.
use valibra.Callbacks.Providers.{
  read_phase_counts, read_repair_counts, first, second, PhaseCounts, max_provider_calls_per_task,
  provider_call_count, provider_phase_call_counts, provider_repair_phase_call_counts,
}
use valibra.Prelude.Json.{get, keys, json_beq, int, pos, text, end, field}
use valibra.Callbacks.Store.{
  load_payload, load_entries, load_records, encode_records, store_records,
}
use valibra.Service.Documents.{UserClarificationRecord}
use valibra.Callbacks.Clarifications.{
  store_clarification_records, has_unique_keys, clarification_records, answer_match, count_matches,
  give_answer, replace_match, first_pending, Overlay, record_of, register_clarification_requests,
  count_pending, find_match, next_pending_clarification, is_answer, record_clarification_answer,
}
use valibra.Prelude.Text.{is_blank, fits, text_le}
use valibra.Callbacks.Session.{record_keys, put, put_record, Session, find_record}
use valibra.Callbacks.Values.{
  exact_bool, phase_value, member_text, object_value, exact_nat, matching, is_identifier,
}
use valibra.Callbacks.Outcomes.{
  record_outcome, keep_outcome, outcome_beq, make_outcome, store_phase_grounding_outcomes,
  clear_p2_check_cumulative_evidence, OutcomeCause, phase_grounding_outcomes,
  record_phase_grounding_outcome,
}
use valibra.Telemetry.{is_sha256}
use valibra.Callbacks.Records.{
  outcome_from_json, status_value, error_type_value, outcome_fields, outcome_to_json, succeeded,
  PhaseGroundingOutcome,
}
use valibra.Prelude.{
  sorted, contains, all, insert_sorted, has_no_duplicates, any, ◌+◌, ◌≡◌, ◌≤◌, suc, refl, String,
  true, false, none, some, [], ◌∷◌, ◌++◌, map, length, ok, arith, string_eq,
}
use valibra.Models.Vocabulary.{GroundingStage, FocusDimension, UserClarificationKind}
use valibra.Models.Types.{GroundingRuntime}
use valibra.Models.State.{all_dimensions_evaluated}
use valibra.Models.Validation.{UserClarificationRequest}
use valibra.Callbacks.Providers.Laws.{Ledger, record_all, record_all_iff}
use valibra.Callbacks.Outcomes.Laws.{IsRecorded, record_phase_grounding_outcome-IsRecorded}
use valibra.Callbacks.Clarifications.Laws.{IsOverlay, register_clarification_requests-IsOverlay}
use valibra.Callbacks.Clarifications.Answers.{
  IsAnswered, record_clarification_answer-IsAnswered, next_pending_clarification-settles,
}

abbrev session : Session
session = field "task_id" (text "t1") end

abbrev no_calls : PhaseCounts
no_calls = record { p1 = 0; p2 = 0 }

empty-Ledger : Ledger session 0 no_calls no_calls
unfolding provider_call_count provider_phase_call_counts provider_repair_phase_call_counts
    read_phase_counts read_repair_counts get
empty-Ledger = record {
  reads_total = refl;
  reads_counts = refl;
  reads_repairs = refl;
  adds_up = refl;
  within = omega arith;
  repairs1 = omega arith;
  repairs2 = omega arith;
}

record_all_iff_example :
    (0 + 2 ≤ max_provider_calls_per_task
      → (s' : Session) × (record_all ((first, false) ∷ (second, true) ∷ []) session ≡ ok s')
        × (provider_call_count s' ≡ ok (0 + 2)))
    × ((s' : Session)
        → record_all ((first, false) ∷ (second, true) ∷ []) session ≡ ok s'
        → 0 + 2 ≤ max_provider_calls_per_task)
record_all_iff_example = record_all_iff ((first, false) ∷ (second, true) ∷ []) session empty-Ledger

abbrev digest : String
digest = "bbbbbbbbbbbbbbbbbbbbbbbbbbbbbbbbbbbbbbbbbbbbbbbbbbbbbbbbbbbbbbbb"

abbrev runtime : GroundingRuntime
runtime = record {
  grounding_revision = 2;
  stage = GroundingStage.initial_grounding;
  focus_dimension = FocusDimension.none;
  grounding_state = record {
    tables = some [];
    join_keys = some [];
    column_mapping = some [];
    domain_knowledge = some [];
  };
}

abbrev cause : OutcomeCause
cause = record { phase = 1; observation_id = "obs-1" }

abbrev outcome : PhaseGroundingOutcome
outcome = record {
  phase = int (pos 1);
  status = succeeded;
  observation_id = "obs-1";
  error_type = none;
  provider_attempted = true;
  grounding_revision = 2;
  state_sha256 = digest;
}

no_outcomes : phase_grounding_outcomes session ≡ ok []
unfolding phase_grounding_outcomes load_payload load_entries keys load_records get
no_outcomes = refl

recorded :
    (s' : Session) × (record_phase_grounding_outcome
        (λ _. digest)
        cause
        runtime
        succeeded
        none
        true
        session
      ≡ ok (outcome, s'))
unfolding record_phase_grounding_outcome record_keys exact_bool load_payload record_outcome get
    is_sha256 phase_value member_text insert_sorted object_value keep_outcome exact_nat all
    outcome_from_json status_value json_beq outcome_beq load_entries text_le encode_records
    make_outcome matching put store_phase_grounding_outcomes load_records error_type_value keys
    contains sorted find_record put_record is_identifier store_records
    clear_p2_check_cumulative_evidence outcome_fields outcome_to_json phase_grounding_outcomes
    all_dimensions_evaluated
recorded = (_, refl)

record_phase_grounding_outcome-IsRecorded_example :
    IsRecorded (λ _. digest) cause runtime succeeded none true recorded.0 [] outcome
    × (succeeded ≡ succeeded
        → (all_dimensions_evaluated runtime.grounding_state ≡ true)
          × (runtime.focus_dimension ≡ FocusDimension.none))
record_phase_grounding_outcome-IsRecorded_example =
    record_phase_grounding_outcome-IsRecorded (λ _. digest) cause runtime succeeded none true
      session no_outcomes recorded.1

abbrev request : UserClarificationRequest
request = record {
  phrase = "big orders";
  kind = UserClarificationKind.user_intent;
  question = "How big?";
}

abbrev asked : UserClarificationRecord
asked = record_of 1 request

abbrev answered : UserClarificationRecord
answered = record asked { answer = some "Over 100" }

registered : register_clarification_requests 1 (request ∷ []) [] ≡ ok (asked ∷ [])
unfolding register_clarification_requests store_clarification_records has_unique_keys
    clarification_records any has_no_duplicates
registered = refl

register_clarification_requests-IsOverlay_example :
    ((asked ∷ []) ≡ [] ++ map (record_of 1) (request ∷ []))
    × IsOverlay (asked ∷ [])
    × (count_pending (asked ∷ []) ≡ count_pending [] + length (request ∷ []))
register_clarification_requests-IsOverlay_example =
    register_clarification_requests-IsOverlay 1 (request ∷ []) [] registered

answer_recorded :
    record_clarification_answer 1 "How big?" (text "Over 100") (asked ∷ []) ≡ ok (answered ∷ [])
unfolding record_clarification_answer is_answer store_clarification_records is_blank answer_match
    has_unique_keys find_match count_matches give_answer clarification_records replace_match any
    fits
answer_recorded = refl

record_clarification_answer-IsAnswered_example :
    (old : UserClarificationRecord) × (find_match 1 "How big?" (asked ∷ []) ≡ some old)
    × IsAnswered 1 "How big?" "Over 100" (asked ∷ []) (answered ∷ []) old
    × IsOverlay (answered ∷ [])
record_clarification_answer-IsAnswered_example =
    record_clarification_answer-IsAnswered 1 "How big?" "Over 100" (asked ∷ []) answer_recorded

next_is : next_pending_clarification (asked ∷ []) ≡ ok (some asked)
unfolding next_pending_clarification has_unique_keys clarification_records any first_pending
next_is = refl

is_valid : is_answer "Over 100" ≡ true
unfolding is_answer is_blank fits
is_valid = refl

next_pending_clarification-settles_example :
    (ys : Overlay) × (record_clarification_answer 1 "How big?" (text "Over 100") (asked ∷ [])
      ≡ ok ys)
    × IsOverlay ys
    × (count_pending (asked ∷ []) ≡ suc (count_pending ys))
next_pending_clarification-settles_example =
    next_pending_clarification-settles "Over 100" (asked ∷ []) next_is is_valid
