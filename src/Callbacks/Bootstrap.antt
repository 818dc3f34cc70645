-- ===== src/Callbacks/Bootstrap.antt =====
-- grounding_callbacks.py: the fixed tools that start a task, the session's sequence counter, the
-- stage that a complete first Grounding ends, and the audits of the submit gate.
pub mod Laws
use valibra.Prelude.{
  Eq, ℕ, zero, suc, ◌+◌, String, Bool, true, false, not, ◌&&◌, ◌||◌, Option, none, some, List, [],
  ◌∷◌, ◌++◌, map, keep, all, contains, leb, length, to_int, Result, ok, err, check, raise_if, ◌>>=◌,
  ◌>>◌, string_eq, nat_eq, ◌==◌, ◌!=◌, if◌then◌else◌,
}
use valibra.Prelude.Json.{
  ℤ, pos, Json, null, bool, int, text, arr, obj, Items, nil, cons, Fields, get, items,
}
use valibra.Models.Vocabulary.{GroundingStage, FocusDimension, stage_eq, focus_eq}
use valibra.Models.Types.{Raised, SqlGroundingState, GroundingRuntime}
use valibra.Models.State.{all_dimensions_evaluated}
use valibra.Control.{StageEvent, grounding_completed, transition_grounding_stage}
use valibra.Callbacks.Values.{Failure, value_error, value_of, is_identifier, max_sequence}
use valibra.Callbacks.Records.{bootstrap_tool_sequence}
use valibra.Callbacks.Session.{Session, put}
use valibra.Callbacks.Trajectory.{CompletedEvent, completed_sql_grounding_trajectory, is_in_phase}
use valibra.Callbacks.Providers.{Phase, first, provider_phase_stage_call_count}
use valibra.Callbacks.Outcomes.{selected_phase}

-- The names in the request's `tools_dict`, where it is a dict.
unfoldable pub request_exposes_bootstrap_tools : Option (List String) → Bool
request_exposes_bootstrap_tools none = false
request_exposes_bootstrap_tools (some names) =
    all (λ tool. contains tool names) bootstrap_tool_sequence

-- The bootstrap tools among the completed events, in their order.
unfoldable pub observed_tools : List CompletedEvent → List String
observed_tools events =
    keep (λ tool. contains tool bootstrap_tool_sequence)
      (map (λ (event : CompletedEvent). event.tool_name) events)

-- The tools of `sequence` that follow those already seen, where these are its first ones.
unfoldable pub left_over : List String → List String → Option (List String)
left_over [] sequence = some sequence
left_over (tool ∷ tools) [] = none
left_over (tool ∷ tools) (expected ∷ sequence) =
    let rest = left_over tools sequence in if tool == expected then rest else none

-- The next tool, once the completed ones have each had their Grounding call.
unfoldable pub next_of : ℕ → Session → Option (List String) → Result Failure (Option String)
next_of seen s none = err (value_error "Official bootstrap trajectory is duplicate or out of order")
next_of seen s (some []) = ok none
next_of seen s (some (tool ∷ tools)) = do
  calls ← provider_phase_stage_call_count first s
  raise_if (calls != seen) (value_error "bootstrap evidence and staged Grounding calls differ")
  ok (some tool)

-- `digest` is the SHA-256 of a tool's result, `real_provider` the mode of the updater, and `tools`
-- the names that the request exposes.
module _ (digest : Json → Result Failure String) (real_provider : Bool) where
  unfoldable pub observed_next_tool : Session → Result Failure (Option String)
  observed_next_tool s = do
    events ← completed_sql_grounding_trajectory digest s
    next_of (length (observed_tools events)) s
        (left_over (observed_tools events) bootstrap_tool_sequence)

  unfoldable pub next_bootstrap_tool :
      Session → GroundingRuntime → Option (List String) → Result Failure (Option String)
  next_bootstrap_tool s runtime tools =
      if not real_provider || runtime.stage != GroundingStage.initial_grounding
      then ok none
      else selected_phase none s >>= λ phase.
          if not (is_in_phase 1 phase) || not (request_exposes_bootstrap_tools tools)
          then ok none
          else observed_next_tool s

abbrev pub sequence_key : String
sequence_key = "valibra:sql_grounding_sequence"

abbrev exhausted : Failure
exhausted = value_error "invalid or exhausted SQL Grounding sequence"

unfoldable pub sequence_after : Option Json → Result Failure ℕ
sequence_after none = ok 1
sequence_after (some (int (pos n))) = check (not (leb max_sequence n)) exhausted (suc n)
sequence_after (some _) = err exhausted

-- The number and the session that keeps it.
unfoldable pub next_sequence : Session → Result Failure (ℕ × Session)
next_sequence s =
    sequence_after (get sequence_key s) >>= λ n. ok (n, put sequence_key (int (pos n)) s)

-- What `_apply_control_event` records beside the Runtime.
pub record ControlRecord : Type 0 where
  pub event : StageEvent
  pub stage_before : GroundingStage
  pub stage_after : GroundingStage

module _ {Digest : Type 0} ⦃e : Eq Digest⦄ (sha256 : SqlGroundingState → Digest) where
  unfoldable pub apply_control_event :
      GroundingRuntime → StageEvent → Bool → Result Raised (GroundingRuntime × ControlRecord)
  apply_control_event runtime event allow_initial_forced_exit = do
    candidate ← transition_grounding_stage sha256 runtime event allow_initial_forced_exit
    ok (
      candidate,
      record { event = event; stage_before = runtime.stage; stage_after = candidate.stage },
    )

  -- The list has the one record when the stage moves.
  unfoldable pub advance_ready_control_stage :
      GroundingRuntime → Result Raised (GroundingRuntime × List ControlRecord)
  advance_ready_control_stage runtime =
      if runtime.stage == GroundingStage.initial_grounding
        && all_dimensions_evaluated runtime.grounding_state
        && runtime.focus_dimension == FocusDimension.none
      then (do
        (candidate, moved) ← apply_control_event runtime grounding_completed false
        ok (candidate, moved ∷ []))
      else ok (runtime, [])
