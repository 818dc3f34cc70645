-- ===== src/Service/Process.antt =====
-- service.py: `process_sql_grounding_observation`.
pub mod Laws
pub mod Guarantees
pub mod Total
use valibra.Prelude.{
  ℕ, Bool, true, false, not, ◌&&◌, ◌||◌, Option, none, some, List, [], is_empty, ◌!=◌, Result, ok,
  err, ◌>>=◌, if◌then◌else◌,
}
use valibra.Prelude.Json.{Fields}
use valibra.Models.Vocabulary.{GroundingDimension, focus_eq}
use valibra.Models.Types.{Raised, GroundingRuntime, ValidationContext}
use valibra.Models.Forms.{GroundingResponse}
use valibra.Telemetry.{GroundingLlmTelemetry, UpdateStatus, StateUpdateTelemetry, make_state_update}
use valibra.Observations.{SqlGroundingObservation}
use valibra.Updater.{
  GroundingCallKind, GroundingUpdaterResult, GroundingUpdaterError, Proposal, proposed, refused,
  crashed, TransportNormalization,
}
use valibra.Service.Inputs.{validate_service_inputs}
use valibra.Service.Repair.{MappingRepairScope}
use valibra.Service.FormRepair.{mapping_form_repair_scope}
use valibra.Service.Outcome.{
  Externals, RepairTrigger, RepairOutcome, MappingValidationRepairAudit, SqlGroundingServiceResult,
  service_error_type, rejected_update, not_attempted_telemetry, reject,
}
use valibra.Service.Attempt.{Failure, raised, updater_error, Repair, Progress, judge, is_mapping}

abbrev audit_of :
    RepairOutcome → GroundingLlmTelemetry → Option Repair → Option MappingValidationRepairAudit
audit_of outcome telemetry none = none
audit_of outcome telemetry (some repair) = some (record {
  trigger = repair.trigger;
  outcome = outcome;
  invalid_phrases = repair.scope.invalid_phrases;
  initial_llm_telemetry = repair.initial_telemetry;
  repair_llm_telemetry = some telemetry;
})

-- The result of the outer handlers and of the accepted path, with what `Progress` holds.
abbrev pub result_with :
    GroundingRuntime
    → Progress
    → GroundingLlmTelemetry
    → StateUpdateTelemetry
    → Option TransportNormalization
    → RepairOutcome
    → SqlGroundingServiceResult
result_with runtime p telemetry update normalization outcome = record {
  runtime = runtime;
  response = some p.response;
  llm_telemetry = telemetry;
  state_update = update;
  transport_normalization = normalization;
  mapping_validation_repair = audit_of outcome telemetry p.repair;
  knowledge_omission_mapping_ignored = p.ignored;
  knowledge_preserved_by_default_refs = p.preserved_refs;
  knowledge_retirement_audit_sidecar = p.sidecar;
}

-- The updater's telemetry is the last one's.
abbrev pub start : Option Repair → GroundingUpdaterResult → Progress
start repair result = record {
  updater_result = result;
  response = result.response;
  repair = repair;
  ignored = result.knowledge_omission_mapping_ignored;
  preserved_refs = [];
  sidecar = result.knowledge_retirement_audit_sidecar;
}

module _ (externals : Externals) (runtime : GroundingRuntime) (o : SqlGroundingObservation)
    (context : ValidationContext) (affected : List GroundingDimension) (input : Option Fields)
    (allow_repair : Bool) (propose : Option MappingRepairScope → Proposal) where
  unfoldable pub is_noop : List GroundingDimension → GroundingRuntime → Bool
  is_noop changed candidate =
      is_empty changed && not (candidate.focus_dimension != runtime.focus_dimension)

  -- `accepted`, or `noop` where neither the State nor the focus changed.
  unfoldable pub accepted_update : List GroundingDimension → GroundingRuntime → StateUpdateTelemetry
  unfolding is_noop
  accepted_update changed candidate = record {
    observation_id = o.observation_id;
    stage = runtime.stage;
    status = if is_noop changed candidate then UpdateStatus.noop else UpdateStatus.accepted;
    old_state_sha256 = externals.sha256 runtime.grounding_state;
    new_state_sha256 = externals.sha256 candidate.grounding_state;
    changed_dimensions = changed;
    revision_before = runtime.grounding_revision;
    revision_after = candidate.grounding_revision;
    focus_before = runtime.focus_dimension;
    focus_after = candidate.focus_dimension;
    error_type = none;
  }

  -- A `noop` hands back the Runtime itself.
  unfoldable pub accepted_runtime : List GroundingDimension → GroundingRuntime → GroundingRuntime
  unfolding is_noop
  accepted_runtime changed candidate = if is_noop changed candidate then runtime else candidate

  -- What follows the `try` block, and its two handlers.
  unfoldable pub conclude :
      Result Failure (List GroundingDimension × GroundingRuntime)
      → Progress
      → Result Raised SqlGroundingServiceResult
  unfolding accepted_update accepted_runtime
  conclude (ok (changed, candidate)) p =
      make_state_update (accepted_update changed candidate) >>= λ update. ok (
        result_with (accepted_runtime changed candidate) p p.updater_result.telemetry update
          (some p.updater_result.transport_normalization) RepairOutcome.accepted)
  conclude (err (updater_error e)) p =
      make_state_update (rejected_update externals runtime o e.reason) >>= λ update.
      ok (result_with runtime p e.telemetry update none RepairOutcome.repair_provider_failed)
  conclude (err (raised e)) p =
      make_state_update (rejected_update externals runtime o (service_error_type e)) >>= λ update.
      ok (
        result_with runtime p p.updater_result.telemetry update
          (some p.updater_result.transport_normalization) RepairOutcome.repair_validation_failed)

  unfoldable pub finish :
      Option GroundingCallKind
      → Option Repair
      → GroundingUpdaterResult
      → Result Raised SqlGroundingServiceResult
  unfolding conclude
  finish kind repair result =
      let (r, p) =
        judge externals runtime o context affected input allow_repair propose kind
          (start repair result) in
      conclude r p

  -- The first proposal was refused with a form that may be repaired, and this is the second one.
  -- What else the second raises leaves the function.
  unfoldable pub after_form_repair :
      Option GroundingCallKind
      → GroundingUpdaterError
      → MappingRepairScope
      → Proposal
      → Result Raised SqlGroundingServiceResult
  unfolding finish
  after_form_repair kind e scope (refused second) =
      reject externals runtime o second.telemetry second.reason (
        some (record {
          trigger = RepairTrigger.form_validation_failed;
          outcome = RepairOutcome.repair_provider_failed;
          invalid_phrases = scope.invalid_phrases;
          initial_llm_telemetry = e.telemetry;
          repair_llm_telemetry = some second.telemetry;
        }))
  after_form_repair kind e scope (crashed other) = err other
  after_form_repair kind e scope (proposed result) =
      finish kind
        (some (record {
          trigger = RepairTrigger.form_validation_failed;
          scope = scope;
          initial_telemetry = e.telemetry;
        }))
        result

  unfoldable pub form_scope :
      Option GroundingCallKind → GroundingUpdaterError → Option MappingRepairScope
  form_scope kind e =
      if allow_repair && is_mapping kind
      then mapping_form_repair_scope externals.sql externals.load_payload e
      else none

  unfoldable pub after_refusal :
      Option GroundingCallKind
      → GroundingUpdaterError
      → Option MappingRepairScope
      → Result Raised SqlGroundingServiceResult
  unfolding after_form_repair
  after_refusal kind e none = reject externals runtime o e.telemetry e.reason none
  after_refusal kind e (some scope) = after_form_repair kind e scope (propose (some scope))

  unfoldable pub after_proposal :
      Option GroundingCallKind → Proposal → Result Raised SqlGroundingServiceResult
  unfolding after_refusal form_scope
  after_proposal kind (refused e) = after_refusal kind e (form_scope kind e)
  after_proposal kind (crashed e) =
      reject externals runtime o (not_attempted_telemetry externals "updater_failed")
        (service_error_type e) none
  after_proposal kind (proposed result) = finish kind none result

  unfoldable pub after_inputs :
      Result Raised (Option GroundingCallKind) → Result Raised SqlGroundingServiceResult
  unfolding after_proposal
  after_inputs (err e) =
      reject externals runtime o (not_attempted_telemetry externals "service_input_invalid")
        (service_error_type e) none
  after_inputs (ok kind) = after_proposal kind (propose none)

  unfoldable pub process_sql_grounding_observation : Result Raised SqlGroundingServiceResult
  unfolding after_inputs
  process_sql_grounding_observation =
      after_inputs (validate_service_inputs externals.texts runtime o context affected input)
