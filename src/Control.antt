-- ===== src/Control.antt =====
-- valibra_agent/sql_grounding/control.py: the lifecycle of the stage, the gate of the first submit,
-- and the hint for a focus.
pub mod Lifecycle
pub mod Gate
use valibra.Prelude.{
  zero, suc, String, Bool, true, false, not, ◌&&◌, ◌||◌, some, List, [], ◌∷◌, is_empty, join,
  text_append, Eq, ◌==◌, ◌!=◌, Result, ok, err, raise_if, ◌>>=◌, ◌>>◌, if◌then◌else◌,
}
use valibra.Prelude.Json.{ℤ, pos, negsuc}
use valibra.Models.Vocabulary.{GroundingStage, FocusDimension, stage_eq, focus_eq, focus_text}
use valibra.Models.Types.{
  Raised, validation_error, other_error, SqlGroundingState, GroundingRuntime,
}
use valibra.Models.State.{all_dimensions_evaluated}
use valibra.Models.Transition.{validate_grounding_runtime_transition}

pub data StageEvent : Type 0 where
  grounding_completed official_submit_failed official_p2_follow_up official_task_completed :
      StageEvent

pub data GateReason : Type 0 where
  ready dimension_not_evaluated initial_focus_pending pending_user_clarification : GateReason
  invalid_first_submit_stage subsequent_submit_not_gated : GateReason

pub record AttemptGateDecision : Type 0 where
  pub applicable : Bool
  pub is_open : Bool
  pub reason : GateReason

unfoldable pub tool_directions_for_focus : FocusDimension → List String
tool_directions_for_focus FocusDimension.tables = "get_schema" ∷ []
tool_directions_for_focus FocusDimension.join_keys = "get_schema" ∷ "execute_sql" ∷ []
tool_directions_for_focus FocusDimension.column_mapping =
    "get_schema" ∷ "get_column_meaning" ∷ "get_all_column_meanings" ∷ "execute_sql" ∷ []
tool_directions_for_focus FocusDimension.domain_knowledge =
    "get_all_external_knowledge_names" ∷ "get_knowledge_definition"
    ∷ "get_all_knowledge_definitions" ∷ []
tool_directions_for_focus FocusDimension.none = []

-- The text of `render_control_hint`; its digest is left out.
unfoldable pub control_hint_text : FocusDimension → String
unfolding tool_directions_for_focus
control_hint_text focus =
    let directions = tool_directions_for_focus focus in
    join "\n" (
      "[VALIBRA CONTROL]"
      ∷ text_append "Current grounding focus: " (text_append (focus_text focus) ".")
      ∷ (if is_empty directions
          then "Grounding is final for this phase. Use the current State for targeted verification only; do not repeat get_schema, get_all_column_meanings, or get_all_knowledge_definitions."
          else text_append "Prefer the relevant BIRD tool direction before submit_sql: "
              (text_append (join " / " directions) "."))
      ∷ [])

-- `runtime.stage in allowed_stages`, where a forced exit adds `INITIAL_GROUNDING`.
abbrev is_attempt_stage : Bool → GroundingStage → Bool
is_attempt_stage forced_exit stage =
    stage == GroundingStage.sql_attempt
    || (forced_exit && stage == GroundingStage.initial_grounding)

module _ {Digest : Type 0} ⦃e : Eq Digest⦄ (sha256 : SqlGroundingState → Digest) where
  -- The candidate, which shares all but the stage, goes through the Runtime validator.
  pub move_to : GroundingRuntime → GroundingStage → Result Raised GroundingRuntime
  move_to runtime stage = do
    let candidate : GroundingRuntime = record runtime { stage = stage }
    _ ←
        validate_grounding_runtime_transition sha256 runtime candidate
          (some (record { stage = runtime.stage; authorized_dimensions = [] }))
    ok candidate

  unfoldable pub transition_grounding_stage :
      GroundingRuntime → StageEvent → Bool → Result Raised GroundingRuntime
  unfolding move_to
  transition_grounding_stage runtime grounding_completed allow_initial_forced_exit = do
    raise_if
        (runtime.stage != GroundingStage.initial_grounding
          || not (all_dimensions_evaluated runtime.grounding_state)
          || runtime.focus_dimension != FocusDimension.none)
        (validation_error "grounding_completed requires complete INITIAL_GROUNDING with focus none")
    move_to runtime GroundingStage.sql_attempt
  transition_grounding_stage runtime official_submit_failed allow_initial_forced_exit = do
    raise_if
        (not (
          is_attempt_stage allow_initial_forced_exit runtime.stage
          || runtime.stage == GroundingStage.p2_incremental))
        (validation_error "official_submit_failed requires an SQL attempt stage")
    move_to runtime runtime.stage
  transition_grounding_stage runtime official_p2_follow_up allow_initial_forced_exit = do
    raise_if (not (is_attempt_stage allow_initial_forced_exit runtime.stage))
        (validation_error "official_p2_follow_up requires SQL_ATTEMPT")
    move_to runtime GroundingStage.p2_incremental
  transition_grounding_stage runtime official_task_completed allow_initial_forced_exit =
      if runtime.stage == GroundingStage.done
      then ok runtime
      else move_to runtime GroundingStage.done

abbrev decision : Bool → Bool → GateReason → Result Raised AttemptGateDecision
decision applicable opens reason =
    ok (record { applicable = applicable; is_open = opens; reason = reason })

unfoldable pub gate_without_pending : GroundingRuntime → Bool → Result Raised AttemptGateDecision
gate_without_pending runtime first_submit =
    if not first_submit
    then decision false true subsequent_submit_not_gated
    else (if not (all_dimensions_evaluated runtime.grounding_state)
        then decision true false dimension_not_evaluated
        else (if runtime.stage == GroundingStage.initial_grounding
              && runtime.focus_dimension != FocusDimension.none
            then decision true false initial_focus_pending
            else (if (runtime.stage == GroundingStage.initial_grounding
                    || runtime.stage == GroundingStage.sql_attempt)
                  && runtime.focus_dimension == FocusDimension.none
                then decision true true ready
                else decision true false invalid_first_submit_stage)))

-- A negative count is a `ValueError`.
unfoldable pub evaluate_first_submit_gate :
    GroundingRuntime → Bool → ℤ → Result Raised AttemptGateDecision
unfolding gate_without_pending all_dimensions_evaluated
evaluate_first_submit_gate runtime first_submit (negsuc n) = err other_error
evaluate_first_submit_gate runtime first_submit (pos (suc n)) =
    decision true false pending_user_clarification
evaluate_first_submit_gate runtime first_submit (pos zero) =
    gate_without_pending runtime first_submit
