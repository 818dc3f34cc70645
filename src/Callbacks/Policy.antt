-- ===== src/Callbacks/Policy.antt =====
-- grounding_callbacks.py: what is done with a submit that the gate would hold back, and which event a
-- finished submit raises.
pub mod Budget
pub mod Laws
pub mod Submit
use valibra.Prelude.{
  ℕ, String, Bool, true, false, not, ◌&&◌, ◌||◌, Option, none, some, List, [], ◌∷◌, is_empty,
  text_append, Result, ok, err, raise_if, ◌>>=◌, ◌>>◌, nat_eq, ◌==◌, ◌!=◌, if◌then◌else◌,
}
use valibra.Prelude.Json.{Json, bool, obj, Fields, get}
use valibra.Models.Vocabulary.{GroundingStage, FocusDimension, stage_eq, focus_eq}
use valibra.Models.Types.{GroundingRuntime}
use valibra.Observations.{ObservationType}
use valibra.Control.{
  StageEvent, official_submit_failed, official_p2_follow_up, official_task_completed,
  AttemptGateDecision, tool_directions_for_focus,
}
use valibra.Callbacks.Values.{Failure, value_error}
use valibra.Callbacks.Session.{Session}

pub data GateAction : Type 0 where
  blocked open_gate budget_liveness_bypass failed_open : GateAction

-- `_GateExecutionPolicy`. The amounts are Python's floats.
pub record GateExecutionPolicy (Amount : Type 0) : Type 0 where
  pub action : GateAction
  pub budget_remaining : Option Amount
  pub focus_directions : List String
  pub affordable_directions : List String
  pub liveness_bypass_reason : Option String

-- `finite` is `float(value)` of an `int` or a `float` that is finite, and `none` of any other value,
-- a Boolean too; `is_within` and `is_negative` are `<=` and `< 0` of floats.
module _ {Amount : Type 0} (finite : Json → Option Amount) (is_within : Amount → Amount → Bool)
    (is_negative : Amount → Bool) where
  -- A finite cost, where there is one, that is not negative.
  unfoldable pub checked_cost : Option Amount → Result Failure Amount
  checked_cost none = err (value_error "Baseline tool cost must be finite and non-negative")
  checked_cost (some amount) =
      raise_if (is_negative amount)
        (value_error "Baseline tool cost must be finite and non-negative")
      >> ok amount

  unfoldable pub tool_cost : Option Json → Result Failure Amount
  tool_cost none = err (value_error "focus direction has no Baseline cost")
  tool_cost (some cost) = checked_cost (finite cost)

  -- The loop over the directions.
  unfoldable pub affordable : Fields → Amount → List String → Result Failure (List String)
  affordable costs budget [] = ok []
  affordable costs budget (direction ∷ directions) = do
    cost ← tool_cost (get direction costs)
    rest ← affordable costs budget directions
    ok (if is_within cost budget then direction ∷ rest else rest)

  abbrev pub plain_policy : GateAction → GateExecutionPolicy Amount
  plain_policy action = record {
    action = action;
    budget_remaining = none;
    focus_directions = [];
    affordable_directions = [];
    liveness_bypass_reason = none;
  }

  -- The decision by what the focus can still afford.
  abbrev pub budget_policy : List String → Amount → List String → GateExecutionPolicy Amount
  budget_policy directions budget [] = record {
    action = budget_liveness_bypass;
    budget_remaining = some budget;
    focus_directions = directions;
    affordable_directions = [];
    liveness_bypass_reason = some "no_affordable_focus_direction";
  }
  budget_policy directions budget (direction ∷ rest) = record {
    action = blocked;
    budget_remaining = some budget;
    focus_directions = directions;
    affordable_directions = direction ∷ rest;
    liveness_bypass_reason = none;
  }

  unfoldable pub checked_budget : Option Amount → Result Failure Amount
  checked_budget none = err (value_error "budget_remaining must be a finite number")
  checked_budget (some amount) = ok amount

  unfoldable pub budget_amount : Option Json → Result Failure Amount
  budget_amount none = err (value_error "budget_remaining must be a finite number")
  budget_amount (some value) = checked_budget (finite value)

  unfoldable pub cost_table : Json → Result Failure Fields
  cost_table (obj costs) = ok costs
  cost_table _ = err (value_error "Baseline TOOL_COSTS is unavailable")

  -- A closed gate with a focus to work on.
  unfoldable pub focused_policy :
      FocusDimension → Session → Json → Result Failure (GateExecutionPolicy Amount)
  focused_policy focus s tool_costs = do
    raise_if (is_empty (tool_directions_for_focus focus))
        (value_error "current focus has no frozen tool directions")
    budget ← budget_amount (get "budget_remaining" s)
    costs ← cost_table tool_costs
    found ← affordable costs budget (tool_directions_for_focus focus)
    ok (budget_policy (tool_directions_for_focus focus) budget found)

  unfoldable pub evaluate_gate_execution_policy :
      GroundingRuntime
      → AttemptGateDecision
      → Session
      → Json
      → Result Failure (GateExecutionPolicy Amount)
  evaluate_gate_execution_policy runtime gate s tool_costs =
      let focused = focused_policy runtime.focus_dimension s tool_costs in
      if not gate.applicable || gate.is_open
      then ok (plain_policy open_gate)
      else if runtime.stage != GroundingStage.initial_grounding
          || runtime.focus_dimension == FocusDimension.none
      then ok (plain_policy blocked)
      else focused

-- What `_official_submit_control_event` says of a submit.
pub record SubmitOutcome : Type 0 where
  pub label : String
  pub event : Option StageEvent
  pub error : Option String

-- `_official_bool`: a missing flag is false.
unfoldable pub flag_value : String → Option Json → Result Failure Bool
flag_value key none = ok false
flag_value key (some (bool b)) = ok b
flag_value key (some _) =
    err (value_error (text_append "official " (text_append key " must be boolean")))

unfoldable pub official_bool : String → Session → Result Failure Bool
official_bool key s = flag_value key (get key s)

abbrev pub submit_outcome : String → StageEvent → SubmitOutcome
submit_outcome label event = record { label = label; event = some event; error = none }

abbrev pub inconsistent : SubmitOutcome
inconsistent = record {
  label = "inconsistent_official_state";
  event = none;
  error = some "OfficialSubmitStateError";
}

-- The classification of the three flags; the phases are 1 or 2.
unfoldable pub classify_submit : ℕ → ℕ → Bool → Bool → Bool → SubmitOutcome
classify_submit phase_before phase_after phase1_completed phase2_completed task_done =
    if phase_before == 1
    then if task_done && phase1_completed && not phase2_completed && phase_after == 2
      then submit_outcome "task_completed_p1" official_task_completed
      else if not task_done && phase1_completed && not phase2_completed && phase_after == 2
      then submit_outcome "p1_follow_up" official_p2_follow_up
      else if not task_done && not phase1_completed && not phase2_completed && phase_after == 1
      then submit_outcome "p1_failed" official_submit_failed
      else inconsistent
    else if task_done && phase2_completed && phase_after == 2
    then submit_outcome "task_completed_p2" official_task_completed
    else if not task_done && not phase2_completed && phase_after == 2
    then submit_outcome "p2_failed" official_submit_failed
    else inconsistent

abbrev pub is_tool_error : ObservationType → Bool
is_tool_error ObservationType.tool_error = true
is_tool_error _ = false

unfoldable pub read_submit : ℕ → ℕ → Session → Result Failure SubmitOutcome
read_submit phase_before phase_after s = do
  phase1_completed ← official_bool "phase1_completed" s
  phase2_completed ← official_bool "phase2_completed" s
  task_done ← official_bool "task_done" s
  ok (classify_submit phase_before phase_after phase1_completed phase2_completed task_done)

unfoldable pub official_submit_control_event :
    ℕ → ℕ → ObservationType → Session → Result Failure SubmitOutcome
official_submit_control_event phase_before phase_after kind s =
    let read = read_submit phase_before phase_after s in
    if is_tool_error kind
    then ok (record { label = "tool_error"; event = none; error = some "OfficialToolError" })
    else read
