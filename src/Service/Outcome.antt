-- ===== src/Service/Outcome.antt =====
-- service.py: the records that a Grounding call hands back, and the rejected update.
use valibra.Prelude.{
  String, false, ◌||◌, Option, none, some, List, [], Result, ok, ◌>>=◌, if◌then◌else◌,
}
use valibra.Prelude.Text.{is_substring}
use valibra.Prelude.Json.{Json}
use valibra.Models.Types.{
  Raised, validation_error, other_error, DomainKnowledge, SqlGroundingState, GroundingRuntime,
  SqlExpressions,
}
use valibra.Models.Forms.{FormTexts, GroundingResponse}
use valibra.Telemetry.{
  zero_float, LlmStatus, GroundingLlmTelemetry, UpdateStatus, StateUpdateTelemetry,
  make_state_update,
}
use valibra.Observations.{SqlGroundingObservation}
use valibra.Updater.{TransportNormalization, KnowledgeRetirementAuditSidecar}

-- What the service asks of code outside the repository, or of the parsers over `sqlglot`: the checks
-- of expressions and texts, `json.loads` and the reading of a payload (`none` where they raise), the
-- SHA-256 digests, and the three digests of the configuration.
pub record Externals : Type 0 where
  pub sql : SqlExpressions
  pub texts : FormTexts
  pub loads : String → Option Json
  pub load_payload : String → Option Json
  pub sha256 : SqlGroundingState → String
  pub semantic_ref : DomainKnowledge → String
  pub prompt_sha256 : String
  pub form_schema_sha256 : String
  pub configuration_sha256 : String

pub data RepairTrigger : Type 0 where
  form_validation_failed state_validation_failed : RepairTrigger

pub data RepairOutcome : Type 0 where
  accepted repair_provider_failed repair_validation_failed : RepairOutcome

pub record MappingValidationRepairAudit : Type 0 where
  pub trigger : RepairTrigger
  pub outcome : RepairOutcome
  pub invalid_phrases : List String
  pub initial_llm_telemetry : GroundingLlmTelemetry
  pub repair_llm_telemetry : Option GroundingLlmTelemetry

pub record SqlGroundingServiceResult : Type 0 where
  pub runtime : GroundingRuntime
  pub response : Option GroundingResponse
  pub llm_telemetry : GroundingLlmTelemetry
  pub state_update : StateUpdateTelemetry
  pub transport_normalization : Option TransportNormalization
  pub mapping_validation_repair : Option MappingValidationRepairAudit
  pub knowledge_omission_mapping_ignored : List String
  pub knowledge_preserved_by_default_refs : List String
  pub knowledge_retirement_audit_sidecar : Option KnowledgeRetirementAuditSidecar

-- `_service_error_type`: the class and the words of the message decide.
unfoldable pub service_error_type : Raised → String
service_error_type (validation_error message) =
    if is_substring "unauthorized" message
      || is_substring "can only" message
      || is_substring "cannot directly" message
    then "authorization_rejected"
    else (if is_substring "revision" message || is_substring "Runtime" message
        then "runtime_transition_rejected"
        else "state_validation_failed")
service_error_type other_error = "unexpected_error"

module _ (externals : Externals) where
  -- `_rejected_update`, before its validation.
  unfoldable pub rejected_update :
      GroundingRuntime → SqlGroundingObservation → String → StateUpdateTelemetry
  rejected_update runtime o error_type = record {
    observation_id = o.observation_id;
    stage = runtime.stage;
    status = UpdateStatus.rejected;
    old_state_sha256 = externals.sha256 runtime.grounding_state;
    new_state_sha256 = externals.sha256 runtime.grounding_state;
    changed_dimensions = [];
    revision_before = runtime.grounding_revision;
    revision_after = runtime.grounding_revision;
    focus_before = runtime.focus_dimension;
    focus_after = runtime.focus_dimension;
    error_type = some error_type;
  }

  -- `_not_attempted_telemetry`.
  unfoldable pub not_attempted_telemetry : String → GroundingLlmTelemetry
  not_attempted_telemetry error_type = record {
    attempted = false;
    status = LlmStatus.rejected;
    usage = record { input_tokens = 0; output_tokens = 0; reasoning_tokens = 0; total_tokens = 0 };
    latency_ms = zero_float;
    timed_out = false;
    error_type = some error_type;
    provider_reported_cost = none;
    model = "";
    provider = "";
    credential_source = "";
    raw_private_audit_ref = "";
    provider_may_continue_after_cancel = none;
    provider_may_bill_after_cancel = none;
    configured_max_tokens = 0;
    attempt_count = 0;
    retry_triggered = false;
    retry_trigger_reason = none;
    provider_attempts = [];
    final_selected_attempt = none;
    request_sha256 = "";
    response_sha256 = "";
    prompt_sha256 = externals.prompt_sha256;
    form_schema_sha256 = externals.form_schema_sha256;
    configuration_sha256 = externals.configuration_sha256;
  }

  -- A result that leaves the Runtime as it was, with nothing but the telemetry.
  unfoldable pub reject :
      GroundingRuntime
      → SqlGroundingObservation
      → GroundingLlmTelemetry
      → String
      → Option MappingValidationRepairAudit
      → Result Raised SqlGroundingServiceResult
  unfolding rejected_update
  reject runtime o telemetry error_type audit = do
    update ← make_state_update (rejected_update runtime o error_type)
    ok (record {
      runtime = runtime;
      response = none;
      llm_telemetry = telemetry;
      state_update = update;
      transport_normalization = none;
      mapping_validation_repair = audit;
      knowledge_omission_mapping_ignored = [];
      knowledge_preserved_by_default_refs = [];
      knowledge_retirement_audit_sidecar = none;
    })
