-- ===== src/Service/Process/Total.antt =====
-- A Grounding call returns a result: whatever the model proposes, the update record is valid.
use valibra.Prelude.{
  String, ◌≡◌, ◌+◌, refl, arith, Bool, true, false, not, ◌&&◌, ◌||◌, inl, inr, Bool-cases, Option,
  none, some, List, Result, ok, err, ◌>>=◌, leb, beq_refl, beq_of_eq, ◌==◌, ◌!=◌, has_no_duplicates,
  contains, keep, is_empty, to_int, nat_eq, string_eq, if◌then◌else◌,
}
use Prim.Native.String.{count}
use valibra.Prelude.Text.{fits, is_substring}
use valibra.Prelude.Json.{Fields}
use valibra.Models.Vocabulary.{GroundingDimension, dimension_eq, focus_eq}
use valibra.Models.Types.{
  Raised, validation_error, other_error, SqlGroundingState, GroundingRuntime, ValidationContext,
}
use valibra.Models.Transition.{changed_dimensions}
use valibra.Telemetry.{
  GroundingLlmTelemetry, StateUpdateTelemetry, make_state_update, is_state_update, is_sha256,
  is_in_order,
}
use valibra.Observations.{SqlGroundingObservation}
use valibra.Updater.{
  GroundingCallKind, GroundingUpdaterResult, GroundingUpdaterError, Proposal, proposed, refused,
  crashed,
}
use valibra.Service.Repair.{MappingRepairScope}
use valibra.Service.Inputs.{validate_service_inputs}
use valibra.Service.Candidate.Laws.{IsAccepted, accept_candidate-ok}
use valibra.Service.Outcome.{
  Externals, MappingValidationRepairAudit, SqlGroundingServiceResult, service_error_type,
  rejected_update, reject,
}
use valibra.Service.Attempt.{Failure, raised, updater_error, Repair, Progress, judge}
use valibra.Service.Attempt.Laws.{judge-ok}
use valibra.Service.Attempt.Errors.{judge-IsClean}
use valibra.Service.Process.{
  is_noop, accepted_update, conclude, finish, start, after_form_repair, after_refusal,
  after_proposal, after_inputs, process_sql_grounding_observation,
}

-- The changed dimensions are in their order, each once.
changed_dimensions-canonical :
    (p c : SqlGroundingState)
    → (has_no_duplicates (changed_dimensions p c) && is_in_order (changed_dimensions p c)) ≡ true
unfolding changed_dimensions keep has_no_duplicates contains is_in_order
changed_dimensions-canonical p c = ground arith

if-fits :
    (b : Bool) (s t : String)
    → fits 128 s ≡ true
    → fits 128 t ≡ true
    → fits 128 (if b then s else t) ≡ true
if-fits true s t h k = h
if-fits false s t h k = k

service_error_type-fits : (e : Raised) → fits 128 (service_error_type e) ≡ true
unfolding service_error_type fits
service_error_type-fits (validation_error message) =
    if-fits
      (is_substring "unauthorized" message
        || is_substring "can only" message
        || is_substring "cannot directly" message)
      "authorization_rejected" _ refl
      (if-fits (is_substring "revision" message || is_substring "Runtime" message)
        "runtime_transition_rejected" "state_validation_failed" refl refl)
service_error_type-fits other_error = refl

-- A call that returns.
abbrev Returns : Result Raised SqlGroundingServiceResult → Type 0
Returns r = (result : SqlGroundingServiceResult) × (r ≡ ok result)

emit :
    (update : StateUpdateTelemetry) (f : StateUpdateTelemetry → SqlGroundingServiceResult)
    → is_state_update update ≡ true
    → Returns (make_state_update update >>= λ v. ok (f v))
unfolding make_state_update
emit update f h = (f update, rw h)

module _ (externals : Externals) (runtime : GroundingRuntime) (o : SqlGroundingObservation)
    (named : (leb 1 (count o.observation_id) && fits 256 o.observation_id) ≡ true)
    (digests : (state : SqlGroundingState) → is_sha256 (externals.sha256 state) ≡ true) where
  rejected_update-valid :
      (error_type : String)
      → fits 128 error_type ≡ true
      → is_state_update (rejected_update externals runtime o error_type) ≡ true
  unfolding rejected_update is_state_update has_no_duplicates is_in_order
  rejected_update-valid error_type short =
      let d = digests runtime.grounding_state in
      rw
        (
          d,
          short,
          beq_refl runtime.grounding_revision,
          beq_refl (externals.sha256 runtime.grounding_state),
          beq_refl runtime.focus_dimension,
        )
        (ground arith)

  reject-Returns :
      (telemetry : GroundingLlmTelemetry) (error_type : String)
      (audit : Option MappingValidationRepairAudit)
      → fits 128 error_type ≡ true
      → Returns (reject externals runtime o telemetry error_type audit)
  unfolding reject
  reject-Returns telemetry error_type audit short =
      emit _ _ (rejected_update-valid error_type short)

  module _ (context : ValidationContext) (affected : List GroundingDimension)
      (input : Option Fields) (allow_repair : Bool)
      (propose : Option MappingRepairScope → Proposal) where
    accounted :
        (changed : List GroundingDimension) (c : GroundingRuntime)
        → (c.grounding_revision == runtime.grounding_revision + to_int (not (is_empty changed)))
          ≡ true
        → (has_no_duplicates changed && is_in_order changed) ≡ true
        → is_state_update (
            accepted_update externals runtime o context affected input allow_repair propose changed
              c)
          ≡ true
    unfolding accepted_update is_state_update is_noop
    accounted changed c counted canonical =
        let d = digests runtime.grounding_state in
        let d' = digests c.grounding_state in
        elim (Bool-cases (is_empty changed && not (c.focus_dimension != runtime.focus_dimension))) [
          | inl q ↦ rw (q, d, d', counted) (ground arith)
          | inr q ↦ rw (q, d, d', counted) (ground arith)
        ]

    accepted_update-valid :
        (kind : Option GroundingCallKind) (changed : List GroundingDimension) (c : GroundingRuntime)
        → IsAccepted externals runtime o context affected input kind changed c
        → is_state_update (
            accepted_update externals runtime o context affected input allow_repair propose changed
              c)
          ≡ true
    accepted_update-valid kind changed c h =
        accounted changed c (beq_of_eq c.grounding_revision _ (rw h.changes h.revision))
          (rw h.changes (changed_dimensions-canonical runtime.grounding_state c.grounding_state))

    module _
        (short : (scope : Option MappingRepairScope) (e : GroundingUpdaterError)
          → propose scope ≡ refused e
          → fits 128 e.reason ≡ true)
        (steady : (scope : MappingRepairScope) (e : Raised)
          → propose (some scope) ≡ crashed e
          → ⊥) where
      conclude-Returns :
          (kind : Option GroundingCallKind)
          (r : Result Failure (List GroundingDimension × GroundingRuntime)) (p : Progress)
          → ((changed : List GroundingDimension) (c : GroundingRuntime)
              → r ≡ ok (changed, c)
              → IsAccepted externals runtime o context affected input kind changed c)
          → ((e : GroundingUpdaterError) → r ≡ err (updater_error e) → fits 128 e.reason ≡ true)
          → Returns (conclude externals runtime o context affected input allow_repair propose r p)
      unfolding conclude
      conclude-Returns kind (ok (changed, c)) p passed reported =
          emit _ _ (accepted_update-valid kind changed c (passed changed c refl))
      conclude-Returns kind (err (updater_error e)) p passed reported =
          emit _ _ (rejected_update-valid e.reason (reported e refl))
      conclude-Returns kind (err (raised e)) p passed reported =
          emit _ _ (rejected_update-valid _ (service_error_type-fits e))

      finish-Returns :
          (kind : Option GroundingCallKind) (repair : Option Repair)
          (updated : GroundingUpdaterResult)
          → Returns (
              finish externals runtime o context affected input allow_repair propose kind repair
                updated)
      unfolding finish
      finish-Returns kind repair updated =
          let p = start repair updated in
          let judged =
            judge externals runtime o context affected input allow_repair propose kind p in
          conclude-Returns kind judged.0 judged.1
            (λ changed c e.
              let (m, form, passed) =
                judge-ok externals runtime o context affected input allow_repair propose kind p
                  (λ i. (e i, judged.1)) in
              accept_candidate-ok externals runtime o context affected input kind m form passed)
            (λ e q.
              let (scope, refusal) =
                judge-IsClean externals runtime o context affected input allow_repair propose kind p
                  e q in
              short (some scope) e refusal)

      form_repair-Returns :
          (kind : Option GroundingCallKind) (e : GroundingUpdaterError) (scope : MappingRepairScope)
          (second : Proposal)
          → propose (some scope) ≡ second
          → Returns (
              after_form_repair externals runtime o context affected input allow_repair propose kind
                e scope second)
      unfolding after_form_repair
      form_repair-Returns kind e scope (refused x) q = reject-Returns _ _ _ (short (some scope) x q)
      form_repair-Returns kind e scope (crashed x) q = absurd (steady scope x q)
      form_repair-Returns kind e scope (proposed updated) q = finish-Returns kind _ updated

      refusal-Returns :
          (kind : Option GroundingCallKind) (e : GroundingUpdaterError)
          (scope : Option MappingRepairScope)
          → propose none ≡ refused e
          → Returns (
              after_refusal externals runtime o context affected input allow_repair propose kind e
                scope)
      unfolding after_refusal
      refusal-Returns kind e none q = reject-Returns e.telemetry e.reason none (short none e q)
      refusal-Returns kind e (some scope) q =
          form_repair-Returns kind e scope (propose (some scope)) refl

      proposal-Returns :
          (kind : Option GroundingCallKind) (first : Proposal)
          → propose none ≡ first
          → Returns (
              after_proposal externals runtime o context affected input allow_repair propose kind
                first)
      unfolding after_proposal
      proposal-Returns kind (refused e) q = refusal-Returns kind e _ q
      proposal-Returns kind (crashed e) q = reject-Returns _ _ none (service_error_type-fits e)
      proposal-Returns kind (proposed updated) q = finish-Returns kind none updated

      inputs-Returns :
          (r : Result Raised (Option GroundingCallKind))
          → Returns (after_inputs externals runtime o context affected input allow_repair propose r)
      unfolding after_inputs
      inputs-Returns (err e) = reject-Returns _ _ none (service_error_type-fits e)
      inputs-Returns (ok kind) = proposal-Returns kind (propose none) refl

      -- A Grounding call returns a result and never raises, whatever the first proposal is or
      -- raises, when the observation's identifier has 1 to 256 characters, every State's digest is
      -- a SHA-256 in hexadecimal, the reason of every refused proposal has at most 128 characters,
      -- and a second proposal raises nothing but the updater's own error.
      pub process-Returns :
          (result : SqlGroundingServiceResult) × (process_sql_grounding_observation externals
              runtime o context affected input allow_repair propose
            ≡ ok result)
      unfolding process_sql_grounding_observation
      process-Returns =
          inputs-Returns (validate_service_inputs externals.texts runtime o context affected input)
