-- ===== src/Service/Inputs.antt =====
-- service.py: `_validate_service_inputs`, the checks before the updater is called.
use valibra.Prelude.{
  ℕ, String, Bool, true, false, not, ◌&&◌, ◌||◌, Option, none, some, List, [], ◌∷◌, map, is_empty,
  any, ltb, has_no_duplicates, string_eq, nat_eq, option_eq, ◌==◌, ◌!=◌, Result, ok, err, raise_if,
  ◌>>=◌, ◌>>◌, if◌then◌else◌,
}
use valibra.Prelude.Json.{Json, Fields, text, arr, obj, get, has_key, items, json_beq}
use valibra.Models.Vocabulary.{GroundingStage, GroundingDimension, stage_eq}
use valibra.Models.Types.{Raised, GroundingRuntime, ValidationContext}
use valibra.Models.State.{is_some}
use valibra.Models.Forms.{FormTexts}
use valibra.Observations.{ObservationType, SqlGroundingObservation}
use valibra.Updater.{GroundingCallKind, classify_grounding_input}
use valibra.Service.Documents.{UserClarificationRecord, parse_clarification, dump_state}
use valibra.Service.Stages.{make_authorization}
use valibra.Service.Scope.{fail}

-- `value == text`, of a JSON value that may be missing.
abbrev pub is_text : String → Option Json → Bool
is_text s (some (text t)) = t == s
is_text s _ = false

-- The missing follow-up is `None`, as is a JSON null.
abbrev is_follow_up : Option String → Option Json → Bool
is_follow_up (some s) value = is_text s value
is_follow_up none none = true
is_follow_up none (some Json.null) = true
is_follow_up none (some _) = false

abbrev is_type : ObservationType → ObservationType → Bool
is_type ObservationType.user_query ObservationType.user_query = true
is_type ObservationType.p2_follow_up ObservationType.p2_follow_up = true
is_type ObservationType.schema ObservationType.schema = true
is_type ObservationType.metadata ObservationType.metadata = true
is_type ObservationType.knowledge ObservationType.knowledge = true
is_type ObservationType.user_answer ObservationType.user_answer = true
is_type _ _ = false

abbrev is_initial : GroundingRuntime → SqlGroundingObservation → Bool
is_initial runtime o = runtime.stage == GroundingStage.initial_grounding && o.phase == 1

abbrev is_incremental : GroundingRuntime → SqlGroundingObservation → Bool
is_incremental runtime o = runtime.stage == GroundingStage.p2_incremental && o.phase == 2

-- The observation is of this type and comes from this tool.
abbrev comes_from : ObservationType → String → SqlGroundingObservation → Bool
comes_from type tool o = is_type type o.observation_type && o.tool_name == some tool

-- The user's query and the follow-up are what the context holds.
unfoldable pub validate_query_observation :
    GroundingRuntime → SqlGroundingObservation → ValidationContext → Result Raised Unit
validate_query_observation runtime o context = do
  raise_if (context.latest_observation_id != o.observation_id)
      (fail "ValidationContext must identify the latest legal Observation")
  raise_if (is_type ObservationType.user_query o.observation_type && not (is_initial runtime o))
      (fail "user_query initialization requires Phase 1 INITIAL_GROUNDING")
  raise_if
      (is_type ObservationType.user_query o.observation_type
        && not (is_text context.current_query (some o.content)))
      (fail "user_query Observation must equal ValidationContext.current_query")
  raise_if
      (is_type ObservationType.p2_follow_up o.observation_type && not (is_incremental runtime o))
      (fail "p2_follow_up requires Phase 2 P2_INCREMENTAL")
  raise_if
      (is_type ObservationType.p2_follow_up o.observation_type
        && not (
            is_some context.follow_up_query
            && is_follow_up context.follow_up_query (some o.content)))
      (fail "p2_follow_up must equal ValidationContext.follow_up_query")

-- Which of the three names of Check evidence the input holds first.
pub data CheckInput : Type 0 where
  check_context latest_tool latest_user_answer missing : CheckInput

unfoldable pub check_input_of : Fields → CheckInput
check_input_of input =
    if has_key "check_context" input
    then CheckInput.check_context
    else (if has_key "latest_tool" input
        then CheckInput.latest_tool
        else (if has_key "latest_user_answer" input
            then CheckInput.latest_user_answer
            else CheckInput.missing))

abbrev matches_evidence : GroundingCallKind → SqlGroundingObservation → Bool
matches_evidence GroundingCallKind.structure o = comes_from ObservationType.schema "get_schema" o
matches_evidence GroundingCallKind.mapping o =
    comes_from ObservationType.metadata "get_all_column_meanings" o
matches_evidence GroundingCallKind.knowledge o =
    comes_from ObservationType.knowledge "get_all_knowledge_definitions" o
matches_evidence GroundingCallKind.check o = false
matches_evidence GroundingCallKind.final_gate o = false

-- The evidence that a first-phase call rests on, apart from its stage and phase.
abbrev p1_evidence : GroundingCallKind → CheckInput → SqlGroundingObservation → Bool
p1_evidence GroundingCallKind.check CheckInput.check_context o =
    comes_from ObservationType.knowledge "get_all_knowledge_definitions" o
p1_evidence GroundingCallKind.check CheckInput.latest_user_answer o =
    comes_from ObservationType.user_answer "ask_user" o
p1_evidence GroundingCallKind.check _ o = true
p1_evidence kind _ o = matches_evidence kind o

-- `latest_tool` is asked for a tool name even after a clarification.
abbrev p1_staged : GroundingCallKind → CheckInput → Bool → SqlGroundingObservation → Bool
p1_staged GroundingCallKind.check CheckInput.latest_tool again o = is_some o.tool_name
p1_staged kind which again o = again || p1_evidence kind which o

abbrev p2_staged : GroundingCallKind → CheckInput → Bool → SqlGroundingObservation → Bool
p2_staged GroundingCallKind.check CheckInput.latest_user_answer again o =
    comes_from ObservationType.user_answer "ask_user" o
p2_staged GroundingCallKind.check CheckInput.latest_tool again o = is_some o.tool_name
p2_staged GroundingCallKind.check CheckInput.missing again o = is_some o.tool_name
p2_staged kind which again o = again || is_type ObservationType.p2_follow_up o.observation_type

abbrev is_latest_tool_check : GroundingCallKind → CheckInput → Bool
is_latest_tool_check GroundingCallKind.check CheckInput.latest_tool = true
is_latest_tool_check _ _ = false

abbrev is_latest_answer_check : GroundingCallKind → CheckInput → Bool
is_latest_answer_check GroundingCallKind.check CheckInput.latest_user_answer = true
is_latest_answer_check _ _ = false

-- `latest_tool` is a mapping whose name is the observation's tool.
abbrev names_tool : Option Json → SqlGroundingObservation → Bool
names_tool (some (obj latest)) o = elim o.tool_name [
  | none ↦ false
  | some name ↦ is_text name (get "name" latest)
]
names_tool _ o = false

abbrev pub is_gate : GroundingCallKind → Bool
is_gate GroundingCallKind.final_gate = true
is_gate _ = false

module _ (f : FormTexts) where
  parse_records : List Json → Result Raised (List UserClarificationRecord)
  parse_records [] = ok []
  parse_records (item ∷ rest) = do
    r ← parse_clarification f item
    rs ← parse_records rest
    ok (r ∷ rs)

  -- The answered clarifications of the input, each of this phase or an earlier one.
  unfoldable pub read_clarifications : Fields → ℕ → Result Raised (List UserClarificationRecord)
  unfolding parse_records items
  read_clarifications input phase = elim (get "user_clarifications" input) [
    | none ↦ ok []
    | some (arr raw) ↦ do
      records ← parse_records (items raw)
      raise_if (any (λ r. ltb phase r.phase || not (is_some r.answer)) records)
          (fail "Grounding may include only prior answered clarifications")
      raise_if (not (has_no_duplicates (map (λ r. r.question) records)))
          (fail "Grounding clarification questions must be unique")
      ok records
    | some _ ↦ err (fail "Grounding user_clarifications must be a list")
  ]

  -- The observation is the answer that a record holds.
  unfoldable pub is_clarification_regrounding :
      SqlGroundingObservation → List UserClarificationRecord → Bool
  is_clarification_regrounding o records =
      comes_from ObservationType.user_answer "ask_user" o
      && any
          (λ r.
            r.phase == o.phase
            && (elim r.answer [ none ↦ false | some a ↦ is_text a (some o.content) ]))
          records

  unfoldable pub validate_staged_inputs :
      GroundingRuntime
      → SqlGroundingObservation
      → ValidationContext
      → Fields
      → Result Raised GroundingCallKind
  unfolding check_input_of read_clarifications is_clarification_regrounding
  validate_staged_inputs runtime o context input = do
    kind ← classify_grounding_input input o.phase
    raise_if (is_gate kind)
        (fail "Final re-Grounding Gate is control-only and cannot materialize State")
    let which = check_input_of input
    records ← read_clarifications input o.phase
    let again = is_clarification_regrounding o records
    raise_if
        (not (
          (is_initial runtime o && p1_staged kind which again o)
          || (is_incremental runtime o && p2_staged kind which again o)))
        (fail "staged Grounding requires the matching P1 evidence or P2 follow-up")
    raise_if (is_latest_tool_check kind which && not (names_tool (get "latest_tool" input) o))
        (fail "Check latest tool differs from the legal Observation")
    raise_if
        (is_latest_answer_check kind which
          && not (is_type ObservationType.user_answer o.observation_type))
        (fail "Check latest user answer requires a user_answer Observation")
    raise_if (not (is_text context.current_query (get "query" input)))
        (fail "Primary Grounding query differs from ValidationContext")
    raise_if
        (elim (get "current_state" input) [
          | none ↦ true
          | some dump ↦ not (json_beq dump (dump_state runtime.grounding_state))
        ])
        (fail "bundled Grounding current_state differs from Runtime")
    raise_if (o.phase == 2 && not (is_follow_up context.follow_up_query (get "follow_up" input)))
        (fail "P2 Grounding follow_up differs from ValidationContext")
    raise_if (o.phase == 2 && not (has_key "user_clarifications" input))
        (fail "P2 Grounding user_clarifications must be present")
    ok kind

  unfoldable pub validate_service_inputs :
      GroundingRuntime
      → SqlGroundingObservation
      → ValidationContext
      → List GroundingDimension
      → Option Fields
      → Result Raised (Option GroundingCallKind)
  unfolding validate_query_observation validate_staged_inputs
  validate_service_inputs runtime o context affected none = do
    _ ← validate_query_observation runtime o context
    raise_if
        (not (is_empty affected) && not (is_type ObservationType.p2_follow_up o.observation_type))
        (fail "explicit affected_dimensions are only valid for a P2 follow-up")
    _ ← make_authorization runtime.stage affected
    ok none
  validate_service_inputs runtime o context affected (some input) = do
    _ ← validate_query_observation runtime o context
    raise_if
        (not (is_empty affected) && not (is_type ObservationType.p2_follow_up o.observation_type))
        (fail "explicit affected_dimensions are only valid for a P2 follow-up")
    raise_if (not (is_empty affected)) (fail "staged Grounding cannot combine affected_dimensions")
    kind ← validate_staged_inputs runtime o context input
    _ ← make_authorization runtime.stage affected
    ok (some kind)
