-- ===== src/Tests/Control.antt =====
-- A complete Grounding is attempted, fails once and is followed up.
use valibra.Prelude.{ℕ, String, ◌≡◌, ◌↔◌, ◌≤◌, refl, inl, true, false, some, [], ok, string_eq}
use valibra.Prelude.Json.{pos}
use valibra.Models.Vocabulary.{GroundingStage, FocusDimension}
use valibra.Models.Types.{SqlGroundingState, GroundingRuntime}
use valibra.Models.State.{all_dimensions_evaluated}
use valibra.Control.{
  grounding_completed, official_submit_failed, official_p2_follow_up, transition_grounding_stage,
  AttemptGateDecision, ready, evaluate_first_submit_gate, gate_without_pending,
}
use valibra.Control.Lifecycle.{
  StageStep, StageStep→transition-ok, transition-ok→StageStep, Lives, lifecycle_forward,
}
use valibra.Control.Gate.{MayAttempt, gate-open_iff, completed-opens_gate}

abbrev complete_state : SqlGroundingState
complete_state = record {
  tables = some [];
  join_keys = some [];
  column_mapping = some [];
  domain_knowledge = some [];
}

abbrev grounded : GroundingRuntime
grounded = record {
  grounding_revision = 7;
  stage = GroundingStage.initial_grounding;
  focus_dimension = FocusDimension.none;
  grounding_state = complete_state;
}

abbrev attempting : GroundingRuntime
attempting = record grounded { stage = GroundingStage.sql_attempt }

abbrev digest : SqlGroundingState → String
digest _ = "d"

is_complete : all_dimensions_evaluated complete_state ≡ true
unfolding all_dimensions_evaluated
is_complete = refl

completed : transition_grounding_stage digest grounded grounding_completed false ≡ ok attempting
completed = StageStep→transition-ok digest (StageStep.complete refl is_complete refl)

failed_once :
    transition_grounding_stage digest attempting official_submit_failed false ≡ ok attempting
failed_once = StageStep→transition-ok digest (StageStep.failed_attempt (inl refl) refl)

life : Lives digest grounded attempting
life =
    Lives.next false official_submit_failed
      (Lives.next false grounding_completed Lives.here completed) failed_once

StageStep→transition-ok_example :
    transition_grounding_stage digest attempting official_p2_follow_up false
    ≡ ok (record attempting { stage = GroundingStage.p2_incremental })
StageStep→transition-ok_example = StageStep→transition-ok digest (StageStep.follow_up refl)

transition-ok→StageStep_example :
    StageStep false grounded grounding_completed GroundingStage.sql_attempt
    × (attempting ≡ attempting)
transition-ok→StageStep_example =
    transition-ok→StageStep digest false grounded grounding_completed completed

lifecycle_forward_example : (0 ≤ 1) × (attempting ≡ attempting)
lifecycle_forward_example = lifecycle_forward digest life

abbrev opened : AttemptGateDecision
opened = record { applicable = true; is_open = true; reason = ready }

gate_opens : evaluate_first_submit_gate grounded true (pos 0) ≡ ok opened
unfolding evaluate_first_submit_gate gate_without_pending all_dimensions_evaluated
gate_opens = refl

gate-open_iff_example : (opened.is_open ≡ true) ↔ (◌≡◌ {A = ℕ} 0 0 × MayAttempt grounded true)
gate-open_iff_example = gate-open_iff grounded true 0 gate_opens

completed-opens_gate_example : evaluate_first_submit_gate attempting true (pos 0) ≡ ok opened
completed-opens_gate_example = completed-opens_gate digest false grounded completed
