-- ===== src/Callbacks/PendingCheck.antt =====
-- grounding_callbacks.py: the one Official action that a Check has asked for, between the Check and the
-- tool's result. It lies in the session under one key, where null stands for none.
pub mod Laws
use valibra.Prelude.{
  ℕ, String, Bool, true, false, not, ◌&&◌, ◌||◌, Option, none, some, List, [], ◌∷◌, all, leb, check,
  contains, has_no_duplicates, Result, ok, err, raise_if, ◌>>=◌, ◌>>◌, string_eq, ◌==◌, ◌!=◌,
  if◌then◌else◌,
}
use valibra.Prelude.Text.{fits, is_tight}
use valibra.Prelude.Json.{Json, null, text, arr, obj, Fields, end, field, get, items, text_items}
use valibra.Models.Vocabulary.{GroundingCheckToolName, tool_name_text}
use valibra.Models.Forms.{FormTexts, make_tool_request}
use valibra.Telemetry.{is_sha256}
use valibra.Callbacks.Values.{
  Failure, value_error, type_error, value_of, has_names, is_identifier, matching, bounded_value,
  phase_value, member_text, object_value,
}
use valibra.Callbacks.Session.{Session, put}
use valibra.Callbacks.Records.{optional_text}

pub record PendingCheckTool : Type 0 where
  pub phase : Json
  pub function_call_id : String
  pub missing_information : Json
  pub tool_name : String
  pub arguments : Fields
  pub request_digest : String
  pub origin : String
  pub requirement_type : Option String
  pub related_mapping_phrases : List String

unfoldable pub check_tool_to_json : PendingCheckTool → Json
check_tool_to_json r = obj (
    field "phase" r.phase (
      field "function_call_id" (text r.function_call_id) (
        field "missing_information" r.missing_information (
          field "tool_name" (text r.tool_name) (
            field "arguments" (obj r.arguments) (
              field "request_digest" (text r.request_digest) (
                field "origin" (text r.origin) (
                  field "requirement_type" (optional_text r.requirement_type) (
                    field "related_mapping_phrases" (arr (text_items r.related_mapping_phrases))
                      end)))))))))

abbrev pub check_tool_names : List String
check_tool_names =
    "phase" ∷ "function_call_id" ∷ "missing_information" ∷ "tool_name" ∷ "arguments"
    ∷ "request_digest" ∷ "origin" ∷ "requirement_type" ∷ "related_mapping_phrases" ∷ []

-- The tools that a Check may ask for.
unfoldable pub check_tool_name : Json → Result Failure String
check_tool_name =
    member_text
      ("ask_user" ∷ "get_column_meaning" ∷ "get_all_external_knowledge_names"
        ∷ "get_knowledge_definition" ∷ "execute_sql" ∷ [])
      "invalid pending Check tool name"

-- The same tools but `ask_user`, as the model of a request reads them.
abbrev pub official_tool : String → GroundingCheckToolName
official_tool name =
    if name == "get_column_meaning"
    then GroundingCheckToolName.get_column_meaning
    else if name == "get_all_external_knowledge_names"
    then GroundingCheckToolName.get_all_external_knowledge_names
    else if name == "get_knowledge_definition"
    then GroundingCheckToolName.get_knowledge_definition
    else GroundingCheckToolName.execute_sql

-- A question of 1 to 1024 characters.
unfoldable pub require_question : Json → Result Failure Unit
require_question (text question) =
    raise_if (question == "" || not (fits 1024 question))
      (value_error "invalid pending ask_user question")
require_question _ = err (value_error "invalid pending ask_user question")

-- The values of a `dict[str, str]`, where each is a text.
unfoldable pub text_arguments : Fields → Option (List (String × String))
text_arguments end = some []
text_arguments (field name (text value) rest) = elim (text_arguments rest) [
  | none ↦ none
  | some arguments ↦ some ((name, value) ∷ arguments)
]
text_arguments (field name _ rest) = none

-- The requirement of a Check, or none.
unfoldable pub requirement_value : Json → Result Failure (Option String)
requirement_value null = ok none
requirement_value value =
    member_text ("threshold" ∷ "category" ∷ "literal" ∷ "predicate" ∷ [])
      "invalid pending Check requirement type" value
    >>= λ name. ok (some name)

-- Texts of 1 to 256 characters without whitespace at their ends.
unfoldable pub read_phrases : List Json → Result Failure (List String)
read_phrases [] = ok []
read_phrases (text phrase ∷ values) = do
  raise_if (not (is_tight phrase) || not (fits 256 phrase))
      (value_error "invalid pending Check related mapping phrase")
  phrases ← read_phrases values
  ok (phrase ∷ phrases)
read_phrases (_ ∷ values) = err (value_error "invalid pending Check related mapping phrase")

unfoldable pub phrases_value : Json → Result Failure (List String)
phrases_value (arr values) = do
  phrases ← read_phrases (items values)
  raise_if (not (has_no_duplicates phrases))
      (value_error "duplicate pending Check related mapping phrase")
  ok phrases
phrases_value _ = err (value_error "invalid pending Check related mapping phrases")

-- `(requirement_type is None) != (not related_mapping_phrases)`.
abbrev pub is_incomplete : Option String → List String → Bool
is_incomplete none [] = false
is_incomplete none (_ ∷ _) = true
is_incomplete (some _) [] = true
is_incomplete (some _) (_ ∷ _) = false

abbrev pub pending_check_key : String
pending_check_key = "valibra:sql_grounding_pending_check"

module _ (f : FormTexts) where
  -- Pydantic's own message is left out.
  unfoldable pub require_request : String → Option (List (String × String)) → Result Failure Unit
  require_request name none = err (value_error "GroundingCheckToolRequest")
  require_request name (some arguments) =
      elim (make_tool_request f (official_tool name) arguments none) [
        | ok _ ↦ ok tt
        | err _ ↦ err (value_error "GroundingCheckToolRequest")
      ]

  unfoldable pub check_arguments : String → Json → Result Failure Fields
  check_arguments name (obj arguments) =
      if name == "ask_user"
      then raise_if (not (has_names ("question" ∷ []) arguments))
          (value_error "invalid pending ask_user arguments")
        >> require_question (value_of "question" arguments)
        >> ok arguments
      else require_request name (text_arguments arguments) >> ok arguments
  check_arguments name _ = err (value_error "invalid pending Check arguments")

  -- The fields, read in the order of the tests.
  unfoldable pub check_tool_fields : Fields → Result Failure PendingCheckTool
  check_tool_fields payload = do
    phase ← phase_value "invalid pending Check phase" (value_of "phase" payload)
    function_call_id ←
        matching is_identifier "invalid pending Check function_call_id"
          (value_of "function_call_id" payload)
    tool_name ← check_tool_name (value_of "tool_name" payload)
    arguments ← check_arguments tool_name (value_of "arguments" payload)
    missing_information ←
        bounded_value 1024 "invalid pending Check gap" (value_of "missing_information" payload)
    request_digest ←
        matching is_sha256 "invalid pending Check digest" (value_of "request_digest" payload)
    origin ←
        member_text ("ordinary_check" ∷ "atomic_draft" ∷ []) "invalid pending Check origin"
          (value_of "origin" payload)
    requirement_type ← requirement_value (value_of "requirement_type" payload)
    related_mapping_phrases ← phrases_value (value_of "related_mapping_phrases" payload)
    raise_if (is_incomplete requirement_type related_mapping_phrases)
        (value_error "incomplete pending Check requirement event")
    ok (record {
      phase = phase;
      function_call_id = function_call_id;
      missing_information = missing_information;
      tool_name = tool_name;
      arguments = arguments;
      request_digest = request_digest;
      origin = origin;
      requirement_type = requirement_type;
      related_mapping_phrases = related_mapping_phrases;
    })

  unfoldable pub check_tool_from_json : Json → Result Failure PendingCheckTool
  check_tool_from_json =
      object_value (has_names check_tool_names) "invalid pending Check tool" check_tool_fields

  abbrev pub read_stored : Json → Result Failure (Option PendingCheckTool)
  read_stored null = ok none
  read_stored value = check_tool_from_json value >>= λ r. ok (some r)

  unfoldable pub pending_check_tool : Session → Result Failure (Option PendingCheckTool)
  pending_check_tool s = read_stored (value_of pending_check_key s)

  abbrev is_free : Option PendingCheckTool → Bool
  is_free none = true
  is_free (some _) = false

  unfoldable pub store_pending_check_tool :
      Option PendingCheckTool → Session → Result Failure Session
  store_pending_check_tool none s = ok (put pending_check_key null s)
  store_pending_check_tool (some r) s = do
    pending ← pending_check_tool s
    raise_if (not (is_free pending)) (value_error "a Check tool is already pending")
    ok (put pending_check_key (check_tool_to_json r) s)

  abbrev pub consume :
      String → String → Session → Option PendingCheckTool → Option PendingCheckTool × Session
  consume id tool_name s none = (none, s)
  consume id tool_name s (some r) =
      if r.function_call_id == id && r.tool_name == tool_name
      then (some r, put pending_check_key null s)
      else (none, s)

  -- The action where it is this call's, and the session without it.
  unfoldable pub consume_pending_check_tool :
      String → String → Session → Result Failure (Option PendingCheckTool × Session)
  consume_pending_check_tool id tool_name s =
      pending_check_tool s >>= λ pending. ok (consume id tool_name s pending)
