-- ===== src/Tests/Process.antt =====
-- What the two calls return, and the guarantees read at them.
use valibra.Service.Inputs.{validate_service_inputs}
use valibra.Updater.{classify_grounding_input}
use valibra.Prelude.Json.{keys}
use valibra.Prelude.Json.{get}
use valibra.Prelude.Json.{json_beq}
use valibra.Service.Stages.{make_authorization}
use valibra.Service.Attempt.{judge}
use valibra.Service.Attempt.{materialize_with_repair}
use valibra.Service.Attempt.{first_attempt}
use valibra.Service.Attempt.{prepare_knowledge}
use valibra.Service.Attempt.{materialize_valid}
use valibra.Service.Repair.{validate_mapping_omission_phrases}
use valibra.Service.Stages.{materialize_stage_response}
use valibra.Models.Validation.{validate_sql_grounding_state}
use valibra.Service.Attempt.{check_clarification}
use valibra.Service.Candidate.{accept_candidate}
use valibra.Models.Validation.{validate_grounding_llm_response}
use valibra.Service.Stages.{is_clarification_cycle}
use valibra.Service.Stages.{authorization_for_observation}
use valibra.Models.Transition.{validate_grounding_state_transition}
use valibra.Models.Transition.{changed_dimensions}
use valibra.Models.Transition.{is_changed}
use valibra.Models.Transition.{is_evaluated}
use valibra.Service.Diff.{validate_observation_specific_diff}
use valibra.Service.Scope.{validate_staged_response}
use valibra.Models.State.{make_runtime}
use valibra.Models.Transition.{validate_grounding_runtime_transition}
use valibra.Telemetry.{make_state_update}
use valibra.Prelude.Text.{fits}
use valibra.Telemetry.{is_sha256}
use valibra.Prelude.{sorted}
use valibra.Prelude.{keep}
use valibra.Prelude.{for_each}
use valibra.Prelude.{has_no_duplicates}
use valibra.Prelude.{contains}
use valibra.Prelude.{all}
use valibra.Prelude.{any}
use valibra.Prelude.{
  String, ◌≡◌, ◌⊎◌, refl, true, false, Option, none, some, List, [], ◌∷◌, ok, inl, inr, Bool-cases,
  string_eq,
}
use valibra.Models.Vocabulary.{GroundingDimension}
use valibra.Models.Types.{Raised, SqlGroundingState}
use valibra.Models.State.{is_some}
use valibra.Updater.{GroundingCallKind, GroundingUpdaterError, refused, crashed}
use valibra.Service.Documents.{dump_state}
use valibra.Prelude.Text.{is_substring}
use valibra.Service.Outcome.{rejected_update, service_error_type, SqlGroundingServiceResult}
use valibra.Service.Process.Laws.{IsRefused, IsOutcome, process-IsOutcome}
use valibra.Service.Process.Total.{process-Returns}
use valibra.Service.Process.Guarantees.{may_change, process-staged, process-frozen}
use valibra.Service.Process.{process_sql_grounding_observation}
use valibra.Tests.Calls.{
  runtime, externals, o, context, input, proposal, propose, run, accepted_result, frozen_runtime,
  propose_whole, frozen_run, frozen_result,
}

returned : run ≡ ok accepted_result
unfolding process_sql_grounding_observation validate_service_inputs classify_grounding_input any all
    keys contains get json_beq dump_state make_authorization has_no_duplicates judge
    materialize_with_repair first_attempt prepare_knowledge materialize_valid
    validate_mapping_omission_phrases materialize_stage_response validate_sql_grounding_state
    for_each check_clarification accept_candidate validate_grounding_llm_response
    is_clarification_cycle authorization_for_observation validate_grounding_state_transition keep
    changed_dimensions is_changed sorted is_evaluated validate_observation_specific_diff
    validate_staged_response make_runtime validate_grounding_runtime_transition make_state_update
    fits is_sha256
returned = refl

frozen_returned : frozen_run ≡ ok frozen_result
unfolding process_sql_grounding_observation validate_service_inputs classify_grounding_input any all
    keys contains get json_beq dump_state make_authorization has_no_duplicates judge
    materialize_with_repair first_attempt prepare_knowledge materialize_valid
    validate_mapping_omission_phrases materialize_stage_response validate_sql_grounding_state
    for_each check_clarification accept_candidate validate_grounding_llm_response
    is_clarification_cycle authorization_for_observation validate_grounding_state_transition keep
    changed_dimensions is_changed sorted is_evaluated validate_observation_specific_diff
    validate_staged_response make_runtime validate_grounding_runtime_transition make_state_update
    fits is_sha256 rejected_update service_error_type is_substring
frozen_returned = refl

digests : (s : SqlGroundingState) → is_sha256 (externals.sha256 s) ≡ true
unfolding is_sha256
digests s = elim (Bool-cases (is_some s.tables)) [ inl q ↦ rw q | inr q ↦ rw q ]

inputs_passed :
    validate_service_inputs externals.texts runtime o context [] input
    ≡ ok (some GroundingCallKind.structure)
unfolding process_sql_grounding_observation validate_service_inputs classify_grounding_input any all
    keys contains get json_beq dump_state make_authorization has_no_duplicates judge
    materialize_with_repair first_attempt prepare_knowledge materialize_valid
    validate_mapping_omission_phrases materialize_stage_response validate_sql_grounding_state
    for_each check_clarification accept_candidate validate_grounding_llm_response
    is_clarification_cycle authorization_for_observation validate_grounding_state_transition keep
    changed_dimensions is_changed sorted is_evaluated validate_observation_specific_diff
    validate_staged_response make_runtime validate_grounding_runtime_transition make_state_update
    fits is_sha256
inputs_passed = refl

process-IsOutcome_example :
    IsRefused externals runtime o context [] input accepted_result
    ⊎ ((kind : Option GroundingCallKind) × (validate_service_inputs externals.texts runtime o
            context [] input
          ≡ ok kind)
        × IsOutcome externals runtime o context [] input kind accepted_result)
process-IsOutcome_example =
    process-IsOutcome externals runtime o context [] input false propose returned

process-Returns_example :
    (result : SqlGroundingServiceResult) × (process_sql_grounding_observation externals runtime o
        context [] input false propose
      ≡ ok result)
unfolding fits
process-Returns_example =
    process-Returns externals runtime o refl digests context [] input false propose
      (λ scope e h. absurd (not_refused e h)) (λ scope e h. absurd (not_crashed e h))
  where
    not_refused : (e : GroundingUpdaterError) → proposal ≡ refused e → ⊥
    not_refused e h = cc

    not_crashed : (e : Raised) → proposal ≡ crashed e → ⊥
    not_crashed e h = cc

process-staged_example : may_change GroundingCallKind.structure GroundingDimension.tables ≡ true
process-staged_example =
    process-staged externals runtime o context [] input false propose returned
      GroundingCallKind.structure inputs_passed GroundingDimension.tables (λ h. none_is_some h)
  where
    none_is_some : ◌≡◌ {A = Option (List String)} none (some ("orders" ∷ [])) → ⊥
    none_is_some h = cc

process-frozen_example : frozen_result.runtime.grounding_state ≡ frozen_runtime.grounding_state
process-frozen_example =
    process-frozen externals frozen_runtime o context [] none false propose_whole frozen_returned
      refl
