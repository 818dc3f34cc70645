-- ===== src/Service/Attempt/Errors.antt =====
-- Where an updater's error comes from in an attempt: only from a second proposal.
use valibra.Prelude.{
  String, ◌≡◌, refl, arith, inl, inr, Bool-cases, Bool, not, ◌&&◌, Option, none, some, List, Result,
  ok, err,
}
use valibra.Prelude.Json.{Fields}
use valibra.Models.Vocabulary.{GroundingDimension}
use valibra.Models.Types.{
  Raised, validation_error, other_error, GroundingRuntime, ValidationContext,
}
use valibra.Models.Validation.{GroundingLlmResponse}
use valibra.Models.Forms.{GroundingResponse}
use valibra.Observations.{SqlGroundingObservation}
use valibra.Updater.{GroundingCallKind, GroundingUpdaterError, Proposal, proposed, refused, crashed}
use valibra.Models.State.{is_some}
use valibra.Service.Candidate.{accept_candidate}
use valibra.Service.Repair.{MappingRepairScope, validate_mapping_repair_scope}
use valibra.Service.Outcome.{Externals}
use valibra.Service.Attempt.{
  Failure, raised, updater_error, Progress, Step, ◌>>=◌, lift, pure, continue, as_failure,
  is_mapping, check_repair, prepare_knowledge, materialize_valid, first_attempt, after_retry, retry,
  check_form_of, recover, recovering, materialize_with_repair, check_clarification, judge,
}

module _ (P : GroundingUpdaterError → Type 0) where
  -- A result whose updater error, if it is one, satisfies `P`.
  abbrev IsClean : {A : Type 0} → Result Failure A → Type 0
  IsClean r = (e : GroundingUpdaterError) → r ≡ err (updater_error e) → P e

  abbrev IsCleanStep : {A : Type 0} → Step A → Type 0
  IsCleanStep m = (p : Progress) → IsClean (m p).0

  as_failure-IsClean : {A : Type 0} (r : Result Raised A) → IsClean (as_failure r)
  as_failure-IsClean (ok a) e h = cc
  as_failure-IsClean (err x) e h = cc

  failure_of :
      {A B : Type 0} {x e : GroundingUpdaterError}
      → ◌≡◌ {A = Result Failure B} (err (updater_error x)) (err (updater_error e))
      → ◌≡◌ {A = Result Failure A} (err (updater_error x)) (err (updater_error e))
  failure_of h = cc

  continue-IsClean :
      {A B : Type 0} (r : Result Failure A) (f : A → Step B) (p : Progress)
      → IsClean r
      → ((a : A) → IsCleanStep (f a))
      → IsClean (continue r f p).0
  continue-IsClean (ok a) f p clean next e h = next a p e h
  continue-IsClean (err (raised x)) f p clean next e h = cc
  continue-IsClean (err (updater_error x)) f p clean next e h = clean e (failure_of h)

  bind-IsClean :
      {A B : Type 0} (m : Step A) (f : A → Step B)
      → IsCleanStep m
      → ((a : A) → IsCleanStep (f a))
      → IsCleanStep (m >>= f)
  bind-IsClean m f clean next p = continue-IsClean (m p).0 f (m p).1 (clean p) next

  lift-IsClean : {A : Type 0} (r : Result Raised A) → IsCleanStep (lift r)
  lift-IsClean r p = as_failure-IsClean r

  pure-IsClean : {A : Type 0} (a : A) → IsCleanStep (pure a)
  pure-IsClean a p e h = cc

module _ (externals : Externals) (runtime : GroundingRuntime) (o : SqlGroundingObservation)
    (context : ValidationContext) (affected : List GroundingDimension) (input : Option Fields)
    (allow_repair : Bool) (propose : Option MappingRepairScope → Proposal) where
  -- A second proposal was refused with this error.
  abbrev pub IsReported : GroundingUpdaterError → Type 0
  IsReported e = (scope : MappingRepairScope) × (propose (some scope) ≡ refused e)

  abbrev Clean : {A : Type 0} → Step A → Type 0
  Clean m = IsCleanStep IsReported m

  prepare-IsClean :
      (kind : Option GroundingCallKind) (r : GroundingResponse)
      → Clean
          (prepare_knowledge externals runtime o context affected input allow_repair propose kind r)
  unfolding prepare_knowledge
  prepare-IsClean none r p e h = cc
  prepare-IsClean (some GroundingCallKind.structure) r p e h = cc
  prepare-IsClean (some GroundingCallKind.mapping) r p e h = cc
  prepare-IsClean (some GroundingCallKind.check) r p e h = cc
  prepare-IsClean (some GroundingCallKind.final_gate) r p e h = cc
  prepare-IsClean (some GroundingCallKind.knowledge) (GroundingResponse.whole _) p e h = cc
  prepare-IsClean (some GroundingCallKind.knowledge) (GroundingResponse.structure _) p e h = cc
  prepare-IsClean (some GroundingCallKind.knowledge) (GroundingResponse.mapping _) p e h = cc
  prepare-IsClean (some GroundingCallKind.knowledge) (GroundingResponse.check_form _) p e h = cc
  prepare-IsClean (some GroundingCallKind.knowledge) (GroundingResponse.final_gate _) p e h = cc
  prepare-IsClean (some GroundingCallKind.knowledge) (GroundingResponse.knowledge r) p e h =
      ground arith

  materialize_valid-IsClean :
      (kind : Option GroundingCallKind)
      → Clean
          (materialize_valid externals runtime o context affected input allow_repair propose kind)
  unfolding materialize_valid
  materialize_valid-IsClean kind p e h = ground arith

  first_attempt-IsClean :
      (kind : Option GroundingCallKind)
      → Clean (first_attempt externals runtime o context affected input allow_repair propose kind)
  unfolding first_attempt
  first_attempt-IsClean kind p =
      let checked =
        lift (check_repair externals runtime o context affected input allow_repair propose p) in
      let prepare =
        prepare_knowledge externals runtime o context affected input allow_repair propose kind
          p.response in
      let valid =
        materialize_valid externals runtime o context affected input allow_repair propose kind in
      bind-IsClean IsReported checked (λ _. prepare >>= λ _. valid)
        (lift-IsClean IsReported
          (check_repair externals runtime o context affected input allow_repair propose p))
        (λ _.
          bind-IsClean IsReported prepare (λ _. valid) (prepare-IsClean kind p.response)
            (λ _. materialize_valid-IsClean kind))
        p

  after_retry-IsClean :
      (kind : Option GroundingCallKind) (scope : MappingRepairScope) (second : Proposal)
      → propose (some scope) ≡ second
      → Clean (
          after_retry externals runtime o context affected input allow_repair propose kind scope
            second)
  unfolding after_retry
  after_retry-IsClean kind scope (refused x) q p e h = (scope, cc)
  after_retry-IsClean kind scope (crashed x) q p e h = cc
  after_retry-IsClean kind scope (proposed result) q p e h =
      let scoped = validate_mapping_repair_scope result.response scope in
      let valid =
        materialize_valid externals runtime o context affected input allow_repair propose kind in
      bind-IsClean IsReported (lift scoped) (λ _. valid) (lift-IsClean IsReported scoped)
        (λ _. materialize_valid-IsClean kind)
        (record p { updater_result = result; response = result.response }) e h

  retry-IsClean :
      (kind : Option GroundingCallKind) (message : String)
      (found : Result Raised (Option MappingRepairScope))
      → Clean
          (retry externals runtime o context affected input allow_repair propose kind message found)
  unfolding retry
  retry-IsClean kind message (err x) p e h = cc
  retry-IsClean kind message (ok none) p e h = cc
  retry-IsClean kind message (ok (some scope)) p e h =
      after_retry-IsClean kind scope (propose (some scope)) refl _ e h

  recover-IsClean :
      (kind : Option GroundingCallKind) (message : String)
      → Clean (recover externals runtime o context affected input allow_repair propose kind message)
  unfolding recover
  recover-IsClean kind message p e h =
      elim (Bool-cases (allow_repair && is_mapping kind && not (is_some p.repair))) [
        | inl q ↦ retry-IsClean kind message _ p e (rw q at h)
        | inr q ↦ absurd (refusal-raised (rw q at h))
      ]
    where
      refusal-raised :
          ◌≡◌ {A = Result Failure GroundingLlmResponse}
            (err (raised (validation_error message)))
            (err (updater_error e))
          → ⊥
      refusal-raised k = cc

  recovering-IsClean :
      (kind : Option GroundingCallKind) (r : Result Failure GroundingLlmResponse) (p : Progress)
      → IsClean IsReported r
      → IsClean IsReported
          (recovering externals runtime o context affected input allow_repair propose kind (r, p)).0
  recovering-IsClean kind (ok m) p clean e h = cc
  recovering-IsClean kind (err (raised (validation_error message))) p clean e h =
      recover-IsClean kind message p e h
  recovering-IsClean kind (err (raised other_error)) p clean e h = cc
  recovering-IsClean kind (err (updater_error x)) p clean e h = clean e h

  -- Every updater error of an attempt is that of a refused second proposal.
  pub judge-IsClean :
      (kind : Option GroundingCallKind)
      → Clean (judge externals runtime o context affected input allow_repair propose kind)
  unfolding judge materialize_with_repair
  judge-IsClean kind p =
      let material =
        materialize_with_repair externals runtime o context affected input allow_repair propose
          kind in
      let respond : Step GroundingResponse = λ q. (ok q.response, q) in
      let accept = λ (m : GroundingLlmResponse) (r : GroundingResponse).
        lift
          (accept_candidate externals runtime o context affected input kind m (check_form_of r)) in
      let asked = λ (r : GroundingResponse).
        check_clarification externals runtime o context affected input allow_repair propose r in
      bind-IsClean IsReported material (λ m. respond >>= λ r. lift (asked r) >>= λ _. accept m r)
        (λ q. recovering-IsClean kind _ _ (first_attempt-IsClean kind q))
        (λ m.
          bind-IsClean IsReported respond (λ r. lift (asked r) >>= λ _. accept m r) (λ q e h. cc)
            (λ r.
              bind-IsClean IsReported (lift (asked r)) (λ _. accept m r)
                (lift-IsClean IsReported (asked r)) (λ _. lift-IsClean IsReported _)))
        p
