-- ===== src/Service/Process/Laws.antt =====
-- What a Grounding call may do to the Runtime.
use valibra.Prelude.{
  ◌≡◌, ◌⊎◌, refl, Bool, Option, none, some, List, Result, ok, err, ◌>>=◌, >>=-eq-ok, ok_injective,
  check-eq-ok, inl, inr, Bool-cases, String,
}
use valibra.Prelude.Json.{Fields}
use valibra.Models.Vocabulary.{GroundingDimension}
use valibra.Models.Types.{Raised, other_error, GroundingRuntime, ValidationContext}
use valibra.Telemetry.{GroundingLlmTelemetry, UpdateStatus, StateUpdateTelemetry, make_state_update}
use valibra.Observations.{SqlGroundingObservation}
use valibra.Updater.{
  GroundingCallKind, GroundingUpdaterResult, GroundingUpdaterError, Proposal, proposed, refused,
  crashed,
}
use valibra.Service.Inputs.{validate_service_inputs}
use valibra.Service.Repair.{MappingRepairScope}
use valibra.Service.Candidate.Laws.{IsAccepted, accept_candidate-ok}
use valibra.Service.Outcome.{
  Externals, RepairOutcome, MappingValidationRepairAudit, SqlGroundingServiceResult,
  service_error_type, rejected_update, not_attempted_telemetry, reject,
}
use valibra.Service.Attempt.{Failure, raised, updater_error, Repair, Progress, judge}
use valibra.Service.Attempt.Laws.{judge-ok}
use valibra.Service.Process.{
  is_noop, accepted_update, accepted_runtime, conclude, finish, result_with, after_form_repair,
  after_refusal, after_proposal, after_inputs, process_sql_grounding_observation, start,
}

module _ (externals : Externals) (runtime : GroundingRuntime) (o : SqlGroundingObservation)
    (context : ValidationContext) (affected : List GroundingDimension) (input : Option Fields) where
  -- A result is a refusal, a `noop` or an accepted candidate; its status says which.
  pub data IsOutcome (kind : Option GroundingCallKind) (result : SqlGroundingServiceResult)
      : Type 0 where
    was_rejected :
        result.state_update.status ≡ UpdateStatus.rejected
        → result.runtime ≡ runtime
        → IsOutcome kind result
    was_noop :
        result.state_update.status ≡ UpdateStatus.noop
        → result.runtime ≡ runtime
        → IsOutcome kind result
    was_accepted :
        result.state_update.status ≡ UpdateStatus.accepted
        → IsAccepted externals runtime o context affected input kind
            result.state_update.changed_dimensions result.runtime
        → IsOutcome kind result

  emitted :
      (update : StateUpdateTelemetry) (f : StateUpdateTelemetry → SqlGroundingServiceResult)
      {result : SqlGroundingServiceResult}
      → (make_state_update update >>= λ v. ok (f v)) ≡ ok result
      → f update ≡ result
  unfolding make_state_update
  emitted update f h =
      let (u, made, q) = >>=-eq-ok (make_state_update update) _ h in
      let (b, e) = check-eq-ok _ other_error update made in rw e (ok_injective q)

  -- The update was refused, and the Runtime is the one before.
  abbrev pub IsRefused : SqlGroundingServiceResult → Type 0
  IsRefused result =
      (result.state_update.status ≡ UpdateStatus.rejected) × (result.runtime ≡ runtime)

  reject-IsRefused :
      (telemetry : GroundingLlmTelemetry) (error_type : String)
      (audit : Option MappingValidationRepairAudit) {result : SqlGroundingServiceResult}
      → reject externals runtime o telemetry error_type audit ≡ ok result
      → IsRefused result
  unfolding reject rejected_update
  reject-IsRefused telemetry error_type audit h =
      rw (← emitted (rejected_update externals runtime o error_type) _ h) (refl, refl)

  reject-IsOutcome :
      (kind : Option GroundingCallKind) (telemetry : GroundingLlmTelemetry) (error_type : String)
      (audit : Option MappingValidationRepairAudit) {result : SqlGroundingServiceResult}
      → reject externals runtime o telemetry error_type audit ≡ ok result
      → IsOutcome kind result
  reject-IsOutcome kind telemetry error_type audit h =
      let (p, q) = reject-IsRefused telemetry error_type audit h in was_rejected p q

  module _ (allow_repair : Bool) (propose : Option MappingRepairScope → Proposal) where
    -- The result of an accepted candidate.
    result_of : List GroundingDimension → GroundingRuntime → Progress → SqlGroundingServiceResult
    result_of changed c p =
        result_with
          (accepted_runtime externals runtime o context affected input allow_repair propose changed
            c)
          p p.updater_result.telemetry
          (accepted_update externals runtime o context affected input allow_repair propose changed
            c)
          (some p.updater_result.transport_normalization) RepairOutcome.accepted

    candidate-IsOutcome :
        (kind : Option GroundingCallKind) (changed : List GroundingDimension) (c : GroundingRuntime)
        (p : Progress)
        → IsAccepted externals runtime o context affected input kind changed c
        → IsOutcome kind (result_of changed c p)
    unfolding result_of accepted_runtime accepted_update is_noop
    candidate-IsOutcome kind changed c p h =
        elim (Bool-cases
          (is_noop externals runtime o context affected input allow_repair propose changed c)) [
            | inl q ↦ was_noop (rw q) (rw q)
            | inr q ↦ was_accepted (rw q) (rw q h)
          ]

    conclude-IsOutcome :
        (kind : Option GroundingCallKind)
        (r : Result Failure (List GroundingDimension × GroundingRuntime)) (p : Progress)
        {result : SqlGroundingServiceResult}
        → ((changed : List GroundingDimension) (c : GroundingRuntime)
            → r ≡ ok (changed, c)
            → IsAccepted externals runtime o context affected input kind changed c)
        → conclude externals runtime o context affected input allow_repair propose r p ≡ ok result
        → IsOutcome kind result
    unfolding conclude rejected_update result_of
    conclude-IsOutcome kind (ok (changed, c)) p passed h =
        rw
          (← emitted
            (accepted_update externals runtime o context affected input allow_repair propose changed
              c)
            _ h)
          (candidate-IsOutcome kind changed c p (passed changed c refl))
    conclude-IsOutcome kind (err (updater_error e)) p passed h =
        rw (← emitted (rejected_update externals runtime o e.reason) _ h) (was_rejected refl refl)
    conclude-IsOutcome kind (err (raised e)) p passed h =
        rw (← emitted (rejected_update externals runtime o (service_error_type e)) _ h)
          (was_rejected refl refl)

    finish-IsOutcome :
        (kind : Option GroundingCallKind) (repair : Option Repair)
        (updated : GroundingUpdaterResult) {result : SqlGroundingServiceResult}
        → finish externals runtime o context affected input allow_repair propose kind repair updated
          ≡ ok result
        → IsOutcome kind result
    unfolding finish
    finish-IsOutcome kind repair updated h =
        let p = start repair updated in
        let judged = judge externals runtime o context affected input allow_repair propose kind p in
        conclude-IsOutcome kind judged.0 judged.1
          (λ changed c e.
            let (m, form, passed) =
              judge-ok externals runtime o context affected input allow_repair propose kind p
                (λ i. (e i, judged.1)) in
            accept_candidate-ok externals runtime o context affected input kind m form passed)
          h

    form_repair-IsOutcome :
        (kind : Option GroundingCallKind) (e : GroundingUpdaterError) (scope : MappingRepairScope)
        (second : Proposal) {result : SqlGroundingServiceResult}
        → after_form_repair externals runtime o context affected input allow_repair propose kind e
            scope second
          ≡ ok result
        → IsOutcome kind result
    unfolding after_form_repair
    form_repair-IsOutcome kind e scope (refused second) h =
        reject-IsOutcome kind second.telemetry second.reason _ h
    form_repair-IsOutcome kind e scope (crashed other) h = cc
    form_repair-IsOutcome kind e scope (proposed updated) h = finish-IsOutcome kind _ updated h

    refusal-IsOutcome :
        (kind : Option GroundingCallKind) (e : GroundingUpdaterError)
        (scope : Option MappingRepairScope) {result : SqlGroundingServiceResult}
        → after_refusal externals runtime o context affected input allow_repair propose kind e scope
          ≡ ok result
        → IsOutcome kind result
    unfolding after_refusal
    refusal-IsOutcome kind e none h = reject-IsOutcome kind e.telemetry e.reason none h
    refusal-IsOutcome kind e (some scope) h =
        form_repair-IsOutcome kind e scope (propose (some scope)) h

    proposal-IsOutcome :
        (kind : Option GroundingCallKind) (first : Proposal) {result : SqlGroundingServiceResult}
        → after_proposal externals runtime o context affected input allow_repair propose kind first
          ≡ ok result
        → IsOutcome kind result
    unfolding after_proposal
    proposal-IsOutcome kind (refused e) h = refusal-IsOutcome kind e _ h
    proposal-IsOutcome kind (crashed e) h =
        reject-IsOutcome kind (not_attempted_telemetry externals "updater_failed")
          (service_error_type e) none h
    proposal-IsOutcome kind (proposed updated) h = finish-IsOutcome kind none updated h

    inputs-IsOutcome :
        (r : Result Raised (Option GroundingCallKind)) {result : SqlGroundingServiceResult}
        → after_inputs externals runtime o context affected input allow_repair propose r ≡ ok result
        → IsRefused result
          ⊎ ((kind : Option GroundingCallKind) × (r ≡ ok kind) × IsOutcome kind result)
    unfolding after_inputs
    inputs-IsOutcome (err e) h = inl (
        reject-IsRefused (not_attempted_telemetry externals "service_input_invalid")
          (service_error_type e) none h)
    inputs-IsOutcome (ok kind) h = inr (kind, refl, proposal-IsOutcome kind (propose none) h)

    -- A Grounding call that returns either refused the update and hands back the Runtime it was
    -- given, or its inputs passed with a call kind and its result is one of three outcomes for
    -- that kind: a rejected update with the same Runtime, a `noop` with the same Runtime, or an
    -- accepted candidate, which keeps the stage, has `none` as its focus in the initial stage
    -- exactly when its State is complete, has a State that the context supports, differs from the
    -- State before only as the authorization of the call kind and observation type allows, reports
    -- exactly the changed dimensions, and counts one revision exactly when a dimension changed.
    pub process-IsOutcome :
        {result : SqlGroundingServiceResult}
        → process_sql_grounding_observation externals runtime o context affected input allow_repair
            propose
          ≡ ok result
        → IsRefused result
          ⊎ ((kind : Option GroundingCallKind) × (validate_service_inputs externals.texts runtime o
                  context affected input
                ≡ ok kind)
              × IsOutcome kind result)
    unfolding process_sql_grounding_observation
    process-IsOutcome h =
        inputs-IsOutcome (validate_service_inputs externals.texts runtime o context affected input)
          h
