-- ===== src/Tests/Run.antt =====
-- A session that commits a Draft and goes on to the attempt, and a pending Check action.
use valibra.Callbacks.Values.{matching}
use valibra.Models.Expressions.{has_control_token}
use valibra.Callbacks.Values.{object_value}
use valibra.Prelude.Json.{keys}
use valibra.Callbacks.Values.{is_identifier}
use valibra.Telemetry.{is_sha256}
use valibra.Callbacks.PendingCheck.{check_tool_fields}
use valibra.Callbacks.PendingCheck.{requirement_value}
use valibra.Models.Forms.{make_clarification_request}
use valibra.Callbacks.PendingCheck.{check_tool_from_json}
use valibra.Models.State.{is_bounded_text}
use valibra.Callbacks.PendingCheck.{check_tool_name}
use valibra.Models.Forms.{argument}
use valibra.Prelude.Json.{items}
use valibra.Callbacks.Values.{bounded_value}
use valibra.Callbacks.PendingCheck.{require_question}
use valibra.Callbacks.PendingCheck.{text_arguments}
use valibra.Callbacks.Values.{python_length}
use valibra.Callbacks.PendingCheck.{read_phrases}
use valibra.Callbacks.PendingCheck.{require_request}
use valibra.Prelude.Text.{starts_with_space}
use valibra.Prelude.Json.{get}
use valibra.Prelude.Json.{text_items}
use valibra.Callbacks.Session.{put}
use valibra.Callbacks.Values.{member_text}
use valibra.Callbacks.Values.{short_value}
use valibra.Prelude.Text.{is_substring}
use valibra.Callbacks.PendingCheck.{check_arguments}
use valibra.Callbacks.PendingCheck.{phrases_value}
use valibra.Callbacks.Values.{phase_value}
use valibra.Prelude.Text.{is_tight}
use valibra.Models.Forms.{make_tool_request}
use valibra.Prelude.Text.{ends_with_space}
use valibra.Models.Forms.{materialize_user_clarification_request}
use valibra.Prelude.Text.{fits}
use valibra.Prelude.Text.{is_space}
use valibra.Prelude.{◌⊎◌, string_eq, has_no_duplicates}
use valibra.Prelude.{all}
use valibra.Prelude.{contains}
use valibra.Prelude.{◌≡◌, ◌≤◌, refl, true, false, some, none, [], ok}
use valibra.Prelude.Json.{text, int, pos, null, end, field}
use valibra.Models.Vocabulary.{GroundingStage, GroundingDimension}
use valibra.Models.Types.{GroundingRuntime}
use valibra.Models.State.{all_dimensions_evaluated}
use valibra.Models.Transition.{is_evaluated}
use valibra.Control.{grounding_completed, transition_grounding_stage}
use valibra.Control.Lifecycle.{StageStep, StageStep→transition-ok}
use valibra.Service.Run.{RuntimeStep, Reaches}
use valibra.Service.Run.Laws.{session_forward, session_same_revision, session_attempt_complete}
use valibra.Callbacks.Session.{Session}
use valibra.Callbacks.PendingCheck.{
  PendingCheckTool, pending_check_tool, consume_pending_check_tool, check_tool_to_json,
}
use valibra.Callbacks.PendingCheck.Laws.{IsConsumed, consume_pending_check_tool-IsConsumed}
use valibra.Tests.Calls.{runtime, context, externals}
use valibra.Tests.Draft.{draft, final_check, committed, short_digests, committed_once, is_complete}

abbrev attempting : GroundingRuntime
attempting = record committed { stage = GroundingStage.sql_attempt }

completed :
    transition_grounding_stage short_digests.sha256 committed grounding_completed false
    ≡ ok attempting
completed = StageStep→transition-ok short_digests.sha256 (StageStep.complete refl is_complete refl)

after_commit : Reaches short_digests runtime committed
after_commit =
    Reaches.next Reaches.here (RuntimeStep.committed draft context final_check committed_once)

attempt : RuntimeStep short_digests committed attempting
attempt = RuntimeStep.moved grounding_completed false completed

session_forward_example :
    (0 ≤ 1)
    × (4 ≤ 5)
    × ((d : GroundingDimension)
        → is_evaluated runtime.grounding_state d ≡ true
        → is_evaluated attempting.grounding_state d ≡ true)
session_forward_example = session_forward short_digests (Reaches.next after_commit attempt)

session_same_revision_example : committed.grounding_state ≡ attempting.grounding_state
session_same_revision_example =
    session_same_revision short_digests (Reaches.next Reaches.here attempt) refl

session_attempt_complete_example : all_dimensions_evaluated attempting.grounding_state ≡ true
session_attempt_complete_example =
    session_attempt_complete short_digests (Reaches.next after_commit attempt) refl refl

abbrev asked : PendingCheckTool
asked = record {
  phase = int (pos 1);
  function_call_id = "call-1";
  missing_information = text "the unit";
  tool_name = "ask_user";
  arguments = field "question" (text "Which unit?") end;
  request_digest = "bbbbbbbbbbbbbbbbbbbbbbbbbbbbbbbbbbbbbbbbbbbbbbbbbbbbbbbbbbbbbbbb";
  origin = "ordinary_check";
  requirement_type = none;
  related_mapping_phrases = [];
}

abbrev session : Session
session = field "valibra:sql_grounding_pending_check" (check_tool_to_json asked) end

abbrev emptied : Session
emptied = field "valibra:sql_grounding_pending_check" null end

consumed :
    consume_pending_check_tool externals.texts "call-1" "ask_user" session
    ≡ ok (some asked, emptied)
unfolding consume_pending_check_tool check_tool_to_json matching has_control_token object_value keys
    is_identifier is_sha256 check_tool_fields requirement_value make_clarification_request
    check_tool_from_json is_bounded_text check_tool_name argument items bounded_value
    require_question text_arguments python_length read_phrases require_request contains
    starts_with_space get text_items pending_check_tool put all member_text short_value is_substring
    check_arguments phrases_value has_no_duplicates phase_value is_tight make_tool_request
    ends_with_space materialize_user_clarification_request fits is_space
consumed = refl

consume_pending_check_tool-IsConsumed_example :
    ((some asked ≡ none) × (emptied ≡ session))
    ⊎ ((r : PendingCheckTool) × (some asked ≡ some r)
        × IsConsumed externals.texts "call-1" "ask_user" session r emptied)
consume_pending_check_tool-IsConsumed_example =
    consume_pending_check_tool-IsConsumed externals.texts "call-1" "ask_user" session consumed
