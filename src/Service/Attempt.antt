-- ===== src/Service/Attempt.antt =====
-- service.py: the body of `process_sql_grounding_observation` between the first proposal and the
-- accepted candidate. Its local variables are the record `Progress`, which an exception leaves as it
-- stands.
pub mod Laws
pub mod Errors
use valibra.Prelude.{
  ℕ, ◌+◌, String, Bool, true, false, not, ◌&&◌, Option, none, some, List, [], ◌∷◌, ◌++◌, is_empty,
  distinct, sorted, string_eq, Result, ok, err, raise_if, if◌then◌else◌,
}
use valibra.Prelude.Text.{text_le}
use valibra.Prelude.Json.{Fields}
use valibra.Models.Vocabulary.{GroundingDimension}
use valibra.Models.Types.{
  Raised, validation_error, other_error, SqlGroundingState, GroundingRuntime, ValidationContext,
}
use valibra.Models.State.{is_some}
use valibra.Models.Validation.{
  UserClarificationRequest, GroundingLlmResponse, is_in_query, validate_sql_grounding_state,
}
use valibra.Models.Forms.{
  KnowledgeGroundingResponse, GroundingCheckResponse, GroundingResponse,
  materialize_user_clarification_request,
}
use valibra.Telemetry.{GroundingLlmTelemetry}
use valibra.Observations.{SqlGroundingObservation}
use valibra.Updater.{
  GroundingCallKind, KnowledgeRetirementAuditSidecar, GroundingUpdaterResult, GroundingUpdaterError,
  Proposal, proposed, refused, crashed,
}
use valibra.Service.Knowledge.{ignore_knowledge_mapping, materialize_knowledge_update}
use valibra.Service.Stages.{materialize_stage_response}
use valibra.Service.Scope.{fail}
use valibra.Service.Repair.{
  MappingRepairScope, validate_mapping_repair_scope, validate_mapping_omission_phrases,
  mapping_state_repair_scope,
}
use valibra.Service.Candidate.{accept_candidate}
use valibra.Service.Outcome.{Externals, RepairTrigger}

-- `GroundingUpdaterError`, or any other exception.
pub data Failure : Type 0 where
  raised : Raised → Failure
  updater_error : GroundingUpdaterError → Failure

-- The repair that is under way: why, of what, and the telemetry before it.
pub record Repair : Type 0 where
  pub trigger : RepairTrigger
  pub scope : MappingRepairScope
  pub initial_telemetry : GroundingLlmTelemetry

pub record Progress : Type 0 where
  pub updater_result : GroundingUpdaterResult
  pub response : GroundingResponse
  pub repair : Option Repair
  pub ignored : List String
  pub preserved_refs : List String
  pub sidecar : Option KnowledgeRetirementAuditSidecar

abbrev pub Step : Type 0 → Type 0
Step A = Progress → Result Failure A × Progress

abbrev continue : {A B : Type 0} → Result Failure A → (A → Step B) → Step B
continue (ok a) f p = f a p
continue (err e) f p = (err e, p)

infixl 5 ◌>>=◌ ◌>>◌
abbrev pub ◌>>=◌ : {A B : Type 0} → Step A → (A → Step B) → Step B
◌>>=◌ m f p = let (r, p') = m p in continue r f p'

abbrev pub ◌>>◌ : {B : Type 0} → Step Unit → Step B → Step B
m >> k = m >>= λ _. k

abbrev as_failure : {A : Type 0} → Result Raised A → Result Failure A
as_failure (ok a) = ok a
as_failure (err e) = err (raised e)

abbrev pub lift : {A : Type 0} → Result Raised A → Step A
lift r p = (as_failure r, p)

abbrev pub pure : {A : Type 0} → A → Step A
pure a p = (ok a, p)

abbrev pub is_mapping : Option GroundingCallKind → Bool
is_mapping (some GroundingCallKind.mapping) = true
is_mapping _ = false

-- `sorted(set(a) | set(b))`.
abbrev union_of : List String → List String → List String
union_of a b = sorted text_le (distinct (a ++ b))

-- The typed Check form, of which the last checks ask.
abbrev pub check_form_of : GroundingResponse → Option GroundingCheckResponse
check_form_of (GroundingResponse.check_form r) = some r
check_form_of _ = none

module _ (externals : Externals) (runtime : GroundingRuntime) (o : SqlGroundingObservation)
    (context : ValidationContext) (affected : List GroundingDimension) (input : Option Fields)
    (allow_repair : Bool) (propose : Option MappingRepairScope → Proposal) where
  -- The Knowledge response loses the mappings that the omission carrier owns.
  unfoldable pub prepare_knowledge : Option GroundingCallKind → GroundingResponse → Step Unit
  prepare_knowledge (some GroundingCallKind.knowledge) (GroundingResponse.knowledge r) = do
    (r', extra) ← lift (ignore_knowledge_mapping runtime.grounding_state r input)
    (λ p. (
      ok tt,
      record p { response = GroundingResponse.knowledge r'; ignored = union_of p.ignored extra },
    ))
    update ←
        lift (materialize_knowledge_update externals.semantic_ref runtime.grounding_state r' input)
    (λ p. (ok tt, record p { preserved_refs = update.1 }))
  prepare_knowledge _ _ = pure tt

  check_repair : Progress → Result Raised Unit
  check_repair p = elim p.repair [
    | none ↦ ok tt
    | some repair ↦ validate_mapping_repair_scope p.response repair.scope
  ]

  -- The response as it stands becomes a complete State, validated against the context.
  unfoldable pub materialize_valid : Option GroundingCallKind → Step GroundingLlmResponse
  materialize_valid kind p =
      (do
        lift (validate_mapping_omission_phrases p.response context)
        m ← lift (
            materialize_stage_response externals.sql externals.semantic_ref runtime p.response kind
              input false)
        _ ← lift (validate_sql_grounding_state externals.sql m.sql_grounding_state context)
        pure m)
        p

  -- The inner `try` block.
  unfoldable pub first_attempt : Option GroundingCallKind → Step GroundingLlmResponse
  unfolding check_repair
  first_attempt kind p =
      (do lift (check_repair p); prepare_knowledge kind p.response; materialize_valid kind) p

  -- What follows one more proposal, limited to the scope of the repair.
  unfoldable pub after_retry :
      Option GroundingCallKind → MappingRepairScope → Proposal → Step GroundingLlmResponse
  after_retry kind scope (refused e) p = (err (updater_error e), p)
  after_retry kind scope (crashed e) p = (err (raised e), p)
  after_retry kind scope (proposed result) p =
      (do lift (validate_mapping_repair_scope result.response scope); materialize_valid kind)
        (record p { updater_result = result; response = result.response })

  -- The second proposal, if the failure has a scope that may be repaired.
  unfoldable pub retry :
      Option GroundingCallKind
      → String
      → Result Raised (Option MappingRepairScope)
      → Step GroundingLlmResponse
  unfolding after_retry
  retry kind message (err e) p = (err (raised e), p)
  retry kind message (ok none) p = (err (raised (validation_error message)), p)
  retry kind message (ok (some scope)) p = after_retry kind scope (propose (some scope)) (record p {
    repair = some (record {
      trigger = RepairTrigger.state_validation_failed;
      scope = scope;
      initial_telemetry = p.updater_result.telemetry;
    });
  })

  -- The handler of the inner `try`: a validation error of a Mapping may open a repair.
  unfoldable pub recover : Option GroundingCallKind → String → Step GroundingLlmResponse
  unfolding retry
  recover kind message p =
      if allow_repair && is_mapping kind && not (is_some p.repair)
      then retry kind message
          (mapping_state_repair_scope externals.sql runtime p.response context message) p
      else (err (raised (validation_error message)), p)

  abbrev recovering :
      Option GroundingCallKind
      → Result Failure GroundingLlmResponse × Progress
      → Result Failure GroundingLlmResponse × Progress
  recovering kind (ok m, p) = (ok m, p)
  recovering kind (err (raised (validation_error message)), p) = recover kind message p
  recovering kind (err (raised other_error), p) = (err (raised other_error), p)
  recovering kind (err (updater_error e), p) = (err (updater_error e), p)

  unfoldable pub materialize_with_repair : Option GroundingCallKind → Step GroundingLlmResponse
  materialize_with_repair kind p = recovering kind (first_attempt kind p)

  -- A clarification that a Check asks for quotes a query.
  unfoldable pub check_clarification : GroundingResponse → Result Raised Unit
  check_clarification (GroundingResponse.check_form form) = elim form.next_tool [
    | none ↦ ok tt
    | some tool ↦ elim (materialize_user_clarification_request externals.texts tool) [
      | err e ↦ err e
      | ok none ↦ ok tt
      | ok (some request) ↦
          raise_if (not (is_in_query context request.phrase))
            (fail "clarification phrase is not a verbatim query substring")
    ]
  ]
  check_clarification _ = ok tt

  -- The outer `try` block: the changed dimensions and the candidate Runtime.
  unfoldable pub judge :
      Option GroundingCallKind → Step (List GroundingDimension × GroundingRuntime)
  judge kind = do
    m ← materialize_with_repair kind
    response ← (λ p. (ok p.response, p))
    lift (check_clarification response)
    lift (
        accept_candidate externals runtime o context affected input kind m (check_form_of response))
