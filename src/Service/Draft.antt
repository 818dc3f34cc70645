-- ===== src/Service/Draft.antt =====
-- service.py: `process_sql_grounding_draft_stage`. A Draft goes through the stages without the checks of
-- a complete State.
pub mod Laws
use valibra.Prelude.{
  String, ◌+◌, Bool, true, false, not, ◌&&◌, Option, none, some, List, [], is_empty, Result, ok,
  err, raise_if, ◌>>=◌, to_int, string_eq, ◌==◌, ◌!=◌, if◌then◌else◌,
}
use valibra.Prelude.Json.{Json, Fields, get, json_beq}
use valibra.Models.Vocabulary.{GroundingDimension, FocusDimension, focus_eq}
use valibra.Models.Types.{Raised, other_error, GroundingRuntime, ValidationContext}
use valibra.Models.Transition.{validate_grounding_state_transition}
use valibra.Models.Forms.{GroundingResponse}
use valibra.Telemetry.{GroundingLlmTelemetry, UpdateStatus, StateUpdateTelemetry, make_state_update}
use valibra.Observations.{SqlGroundingObservation}
use valibra.Updater.{
  GroundingCallKind, classify_grounding_input, GroundingUpdaterResult, Proposal, proposed, refused,
  crashed, TransportNormalization, KnowledgeRetirementAuditSidecar,
}
use valibra.Service.Documents.{dump_state}
use valibra.Service.Scope.{fail}
use valibra.Service.Inputs.{is_text, is_gate}
use valibra.Service.Stages.{materialize_stage_response, authorization_for_observation}
use valibra.Service.Diff.{validate_observation_specific_diff}
use valibra.Service.Repair.{MappingRepairScope, validate_mapping_omission_phrases}
use valibra.Service.Outcome.{
  Externals, service_error_type, rejected_update, not_attempted_telemetry,
}
use valibra.Service.Attempt.{
  Failure, raised, updater_error, Progress, Step, ◌>>=◌ as bind, lift, prepare_knowledge,
  check_form_of,
}
use valibra.Service.Commit.{SqlGroundingDraftRuntime}
use valibra.Service.Process.{start}

pub record SqlGroundingDraftStageResult : Type 0 where
  pub runtime : SqlGroundingDraftRuntime
  pub llm_telemetry : GroundingLlmTelemetry
  pub state_update : StateUpdateTelemetry
  pub response : Option GroundingResponse
  pub transport_normalization : Option TransportNormalization
  pub knowledge_omission_mapping_ignored : List String
  pub knowledge_preserved_by_default_refs : List String
  pub knowledge_retirement_audit_sidecar : Option KnowledgeRetirementAuditSidecar

-- The response is one of the four stage forms.
abbrev pub is_stage_form : GroundingResponse → Bool
is_stage_form (GroundingResponse.structure _) = true
is_stage_form (GroundingResponse.mapping _) = true
is_stage_form (GroundingResponse.knowledge _) = true
is_stage_form (GroundingResponse.check_form _) = true
is_stage_form _ = false

module _ (externals : Externals) (runtime : SqlGroundingDraftRuntime) (o : SqlGroundingObservation)
    (context : ValidationContext) (input : Fields) (propose : Proposal) where
  -- The checks before the updater is asked.
  unfoldable pub draft_kind : Result Raised GroundingCallKind
  draft_kind = classify_grounding_input input o.phase >>= λ kind.
      raise_if (is_gate kind) (fail "unsupported Draft stage") >>= λ _.
      raise_if (not (is_text context.current_query (get "query" input)))
        (fail "Draft query differs from ValidationContext")
      >>= λ _.
          raise_if
            (elim (get "current_state" input) [
              | none ↦ true
              | some dump ↦ not (json_beq dump (dump_state runtime.grounding_state))
            ])
            (fail "Draft input State differs from private Runtime")
          >>= λ _. ok kind

  -- The last checks, on a response that has been prepared.
  unfoldable pub accept_draft :
      GroundingCallKind
      → GroundingResponse
      → Result Raised (List GroundingDimension × SqlGroundingDraftRuntime)
  accept_draft kind response = validate_mapping_omission_phrases response context >>= λ _.
      materialize_stage_response externals.sql externals.semantic_ref runtime response (some kind)
        (some input) true
      >>= λ m.
          authorization_for_observation runtime.stage o.observation_type [] (some kind)
          >>= λ authorization.
              validate_grounding_state_transition runtime.grounding_state m.sql_grounding_state
                authorization
              >>= λ changed.
                  validate_observation_specific_diff externals.loads runtime o.observation_type m
                    changed (some kind) (some input) (check_form_of response) true
                  >>= λ _. ok (
                    changed,
                    record {
                      grounding_revision =
                          runtime.grounding_revision + to_int (not (is_empty changed));
                      stage = runtime.stage;
                      focus_dimension = m.next_focus_dimension;
                      grounding_state = m.sql_grounding_state;
                    },
                  )

  -- The second `try` block.
  unfoldable pub judge_draft :
      GroundingCallKind → Step (List GroundingDimension × SqlGroundingDraftRuntime)
  judge_draft kind p =
      bind
        (lift
          (raise_if (not (is_stage_form p.response)) (fail "Draft received a control response")))
        (λ _.
          bind
            (prepare_knowledge externals runtime o context [] (some input) false (λ _. propose)
              (some kind) p.response)
            (λ _. bind (λ q. (ok q.response, q)) (λ response. lift (accept_draft kind response))))
        p

  unfoldable pub is_draft_noop : List GroundingDimension → SqlGroundingDraftRuntime → Bool
  is_draft_noop changed candidate =
      is_empty changed && not (candidate.focus_dimension != runtime.focus_dimension)

  abbrev pub draft_result :
      SqlGroundingDraftRuntime → Progress → StateUpdateTelemetry → SqlGroundingDraftStageResult
  draft_result after p update = record {
    runtime = after;
    llm_telemetry = p.updater_result.telemetry;
    state_update = update;
    response = some p.response;
    transport_normalization = some p.updater_result.transport_normalization;
    knowledge_omission_mapping_ignored = p.ignored;
    knowledge_preserved_by_default_refs = p.preserved_refs;
    knowledge_retirement_audit_sidecar = p.sidecar;
  }

  unfoldable pub draft_update :
      List GroundingDimension → SqlGroundingDraftRuntime → StateUpdateTelemetry
  unfolding is_draft_noop
  draft_update changed candidate = record {
    observation_id = o.observation_id;
    stage = runtime.stage;
    status = if is_draft_noop changed candidate then UpdateStatus.noop else UpdateStatus.accepted;
    old_state_sha256 = externals.sha256 runtime.grounding_state;
    new_state_sha256 = externals.sha256 candidate.grounding_state;
    changed_dimensions = changed;
    revision_before = runtime.grounding_revision;
    revision_after = candidate.grounding_revision;
    focus_before = runtime.focus_dimension;
    focus_after = candidate.focus_dimension;
    error_type = none;
  }

  abbrev failure_type : Failure → String
  failure_type (raised e) = service_error_type e
  failure_type (updater_error _) = service_error_type other_error

  -- The handler of the second `try` block, and the accepted path.
  unfoldable pub conclude_draft :
      Result Failure (List GroundingDimension × SqlGroundingDraftRuntime)
      → Progress
      → Result Raised SqlGroundingDraftStageResult
  unfolding draft_update is_draft_noop
  conclude_draft (ok (changed, candidate)) p =
      make_state_update (draft_update changed candidate) >>= λ update.
      ok (draft_result (if is_draft_noop changed candidate then runtime else candidate) p update)
  conclude_draft (err e) p =
      make_state_update (rejected_update externals runtime o (failure_type e)) >>= λ update.
      ok (draft_result runtime p update)

  -- A Draft stage that is refused before there is a response.
  unfoldable pub refuse_draft :
      GroundingLlmTelemetry → String → Result Raised SqlGroundingDraftStageResult
  refuse_draft telemetry error_type =
      make_state_update (rejected_update externals runtime o error_type) >>= λ update. ok (record {
        runtime = runtime;
        llm_telemetry = telemetry;
        state_update = update;
        response = none;
        transport_normalization = none;
        knowledge_omission_mapping_ignored = [];
        knowledge_preserved_by_default_refs = [];
        knowledge_retirement_audit_sidecar = none;
      })

  unfoldable pub after_draft_proposal :
      GroundingCallKind → Proposal → Result Raised SqlGroundingDraftStageResult
  unfolding judge_draft conclude_draft refuse_draft
  after_draft_proposal kind (refused e) = refuse_draft e.telemetry e.reason
  after_draft_proposal kind (crashed e) =
      refuse_draft (not_attempted_telemetry externals "draft_input_invalid") (service_error_type e)
  after_draft_proposal kind (proposed result) =
      let (r, p) = judge_draft kind (start none result) in conclude_draft r p

  unfoldable pub after_draft_kind :
      Result Raised GroundingCallKind → Result Raised SqlGroundingDraftStageResult
  unfolding after_draft_proposal refuse_draft
  after_draft_kind (err e) =
      refuse_draft (not_attempted_telemetry externals "draft_input_invalid") (service_error_type e)
  after_draft_kind (ok kind) = after_draft_proposal kind propose

  unfoldable pub process_sql_grounding_draft_stage : Result Raised SqlGroundingDraftStageResult
  unfolding after_draft_kind draft_kind
  process_sql_grounding_draft_stage = after_draft_kind draft_kind
