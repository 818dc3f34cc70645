-- ===== src/Callbacks/Trajectory.antt =====
-- grounding_callbacks.py: the Official tool trajectory, from which the callbacks rebuild what was
-- observed and count the submits.
pub mod Laws
use Prim.Native.Char.{code}
use Prim.Native.String.{◌∷◌ as char_cons}
use valibra.Prelude.{
  ℕ, suc, ◌+◌, ◌-◌, String, Bool, true, false, not, ◌&&◌, ◌||◌, Option, none, some, List, [], ◌∷◌,
  any, length, nat_beq, to_int, Result, ok, err, ◌>>=◌, string_eq, nat_eq, ◌==◌, if◌then◌else◌,
}
use valibra.Prelude.Json.{pos, Json, bool, int, float, text, arr, obj, Fields, get, items}
use valibra.Observations.{ObservationType}
use valibra.Callbacks.Values.{Failure, value_error, value_of}
use valibra.Callbacks.Session.{Session}

-- `value.startswith(prefix)`.
unfoldable pub starts_with : String → String → Bool
starts_with String.[] value = true
starts_with (char_cons c rest) String.[] = false
starts_with (char_cons c rest) (char_cons d value) =
    nat_beq (code c) (code d) && starts_with rest value

-- `_OFFICIAL_TOOL_ERROR_PREFIXES`.
unfoldable pub error_prefixes : String → List String
error_prefixes tool =
    if tool == "execute_sql"
    then "SQL Error:" ∷ "Error calling DB environment:" ∷ []
    else if (tool == "get_schema")
        || (tool == "get_all_column_meanings")
        || (tool == "get_column_meaning")
        || (tool == "get_all_external_knowledge_names")
        || (tool == "get_knowledge_definition")
        || (tool == "get_all_knowledge_definitions")
        || (tool == "submit_sql")
    then "Error:" ∷ []
    else []

-- `_TOOL_OBSERVATION_TYPES`.
unfoldable pub tool_observation_type : String → Option ObservationType
tool_observation_type tool =
    if tool == "execute_sql"
    then some ObservationType.sql_execution
    else if tool == "get_schema"
    then some ObservationType.schema
    else if (tool == "get_all_column_meanings") || (tool == "get_column_meaning")
    then some ObservationType.metadata
    else if (tool == "get_all_external_knowledge_names")
        || (tool == "get_knowledge_definition")
        || (tool == "get_all_knowledge_definitions")
    then some ObservationType.knowledge
    else if tool == "ask_user"
    then some ObservationType.user_answer
    else if tool == "submit_sql"
    then some ObservationType.submission
    else none

abbrev is_error_text : String → Json → Bool
is_error_text tool (text response) =
    any (λ prefix. starts_with prefix response) (error_prefixes tool)
is_error_text tool _ = false

-- `none` is the `ValueError` of an unsupported tool.
unfoldable pub classify_tool_observation_type : String → Json → Option ObservationType
classify_tool_observation_type tool response =
    if is_error_text tool response
    then some ObservationType.tool_error
    else tool_observation_type tool

-- An entry of `_completed_sql_grounding_trajectory`.
pub record CompletedEvent : Type 0 where
  pub tool_name : String
  pub observation_type : ObservationType
  pub content : Json
  pub phase : Json
  pub args : Json
  pub trajectory_index : ℕ
  pub raw_digest : String

-- The raw events, where the trajectory is a list.
abbrev trajectory_items : Option Json → Option (List Json)
trajectory_items none = some []
trajectory_items (some (arr events)) = some (items events)
trajectory_items (some _) = none

unfoldable pub tool_trajectory : Session → Option (List Json)
tool_trajectory s = trajectory_items (get "tool_trajectory" s)

-- The last `n` of a list.
unfoldable pub drop_first {ℓ} : {A : Type ℓ} → ℕ → List A → List A
drop_first n [] = []
drop_first ℕ.zero (x ∷ xs) = x ∷ xs
drop_first (suc n) (x ∷ xs) = drop_first n xs

-- `result[-512:]`.
abbrev pub last_512 {ℓ} : {A : Type ℓ} → List A → List A
last_512 xs = drop_first (length xs - 512) xs

-- `event["phase"] == phase`.
abbrev pub is_in_phase : ℕ → Json → Bool
is_in_phase phase (int (pos n)) = n == phase
is_in_phase phase (bool b) = to_int b == phase
is_in_phase phase (float s) = (s == "1.0" && phase == 1) || (s == "2.0" && phase == 2)
is_in_phase phase _ = false

unfoldable pub count_in_phase : ℕ → List CompletedEvent → ℕ
count_in_phase phase [] = 0
count_in_phase phase (event ∷ events) =
    to_int (event.tool_name == "submit_sql" && is_in_phase phase event.phase)
    + count_in_phase phase events

abbrev pub and_then : Option CompletedEvent → List CompletedEvent → List CompletedEvent
and_then none rest = rest
and_then (some event) rest = event ∷ rest

-- `digest` stands for `_sha256_text(canonical_json(to_jsonable(content)))`, which may raise.
module _ (digest : Json → Result Failure String) where
  -- An event whose tool is text, by the type of what was observed.
  unfoldable pub classified_event :
      ℕ → Fields → String → Option ObservationType → Result Failure (Option CompletedEvent)
  classified_event index event tool none = ok none
  classified_event index event tool (some kind) = do
    raw_digest ← digest (value_of "result" event)
    ok (
        some (record {
          tool_name = tool;
          observation_type = kind;
          content = value_of "result" event;
          phase = value_of "phase" event;
          args = value_of "args" event;
          trajectory_index = index;
          raw_digest = raw_digest;
        }))

  unfoldable pub tool_event : ℕ → Fields → Json → Result Failure (Option CompletedEvent)
  unfolding classified_event
  tool_event index event (text tool) =
      classified_event index event tool
        (classify_tool_observation_type tool (value_of "result" event))
  tool_event index event _ = ok none

  unfoldable pub completed_event : ℕ → Json → Result Failure (Option CompletedEvent)
  unfolding tool_event
  completed_event index (obj event) = tool_event index event (value_of "tool" event)
  completed_event index _ = ok none

  unfoldable pub completed_events : ℕ → List Json → Result Failure (List CompletedEvent)
  completed_events index [] = ok []
  completed_events index (event ∷ events) = do
    completed ← completed_event index event
    rest ← completed_events (index + 1) events
    ok (and_then completed rest)

  unfoldable pub completed_of : Option (List Json) → Result Failure (List CompletedEvent)
  completed_of none = ok []
  completed_of (some events) = completed_events 0 events >>= λ completed. ok (last_512 completed)

  unfoldable pub completed_sql_grounding_trajectory : Session → Result Failure (List CompletedEvent)
  unfolding completed_of
  completed_sql_grounding_trajectory s = completed_of (tool_trajectory s)

  unfoldable pub official_submit_count_for_phase : ℕ → Session → Result Failure ℕ
  official_submit_count_for_phase phase s =
      completed_sql_grounding_trajectory s >>= λ events. ok (count_in_phase phase events)

-- `isinstance(event, dict) and event.get("tool") == "submit_sql"`.
abbrev pub is_submit_tool : Json → Bool
is_submit_tool (text tool) = tool == "submit_sql"
is_submit_tool _ = false

abbrev pub is_submit_event : Json → Bool
is_submit_event (obj event) = is_submit_tool (value_of "tool" event)
is_submit_event _ = false

unfoldable pub count_submits : List Json → ℕ
count_submits [] = 0
count_submits (event ∷ events) = to_int (is_submit_event event) + count_submits events

-- A trajectory that is no list is a `ValueError`.
abbrev pub required_trajectory : Option (List Json) → Result Failure (List Json)
required_trajectory none = err (value_error "official tool_trajectory must be a list")
required_trajectory (some events) = ok events

unfoldable pub official_submit_count : Session → Result Failure ℕ
official_submit_count s =
    required_trajectory (tool_trajectory s) >>= λ events. ok (count_submits events)

unfoldable pub is_first_official_submit : Session → Result Failure Bool
is_first_official_submit s =
    required_trajectory (tool_trajectory s) >>= λ events. ok (not (any is_submit_event events))
