-- ===== src/Service/Attempt/Laws.antt =====
-- How a successful attempt came about.
use valibra.Prelude.{◌≡◌, refl, ap, Bool, Option, List, Result, ok, err}
use valibra.Prelude.Json.{Fields}
use valibra.Models.Vocabulary.{GroundingDimension}
use valibra.Models.Types.{Raised, GroundingRuntime, ValidationContext}
use valibra.Models.Validation.{GroundingLlmResponse}
use valibra.Models.Forms.{GroundingCheckResponse}
use valibra.Observations.{SqlGroundingObservation}
use valibra.Updater.{GroundingCallKind, Proposal}
use valibra.Service.Repair.{MappingRepairScope}
use valibra.Service.Candidate.{accept_candidate}
use valibra.Service.Outcome.{Externals}
use valibra.Service.Attempt.{
  Failure, Progress, Step, ◌>>=◌, lift, continue, as_failure, check_form_of, judge,
  check_clarification, materialize_with_repair,
}

module _ {A B : Type 0} where
  continue-ok :
      (r : Result Failure A) (f : A → Step B) (p : Progress) {b : B} {q : Progress}
      → continue r f p ≡ (ok b, q)
      → (a : A) × (r ≡ ok a) × (f a p ≡ (ok b, q))
  continue-ok (ok a) f p h = (a, refl, h)
  continue-ok (err e) f p h = cc

  -- A step that succeeds began with a step that succeeded.
  pub bind-ok :
      (m : Step A) (f : A → Step B) (p : Progress) {b : B} {q : Progress}
      → (m >>= f) p ≡ (ok b, q)
      → (a : A) × ((m p).0 ≡ ok a) × (f a (m p).1 ≡ (ok b, q))
  bind-ok m f p h = continue-ok (m p).0 f (m p).1 h

pub as_failure-ok : {A : Type 0} (r : Result Raised A) {a : A} → as_failure r ≡ ok a → r ≡ ok a
as_failure-ok (ok b) h = cc
as_failure-ok (err e) h = cc

module _ (externals : Externals) (runtime : GroundingRuntime) (o : SqlGroundingObservation)
    (context : ValidationContext) (affected : List GroundingDimension) (input : Option Fields)
    (allow_repair : Bool) (propose : Option MappingRepairScope → Proposal) where
  -- What is accepted passed the checks of the candidate.
  pub judge-ok :
      (kind : Option GroundingCallKind) (p : Progress) {changed : List GroundingDimension}
      {candidate : GroundingRuntime} {q : Progress}
      → judge externals runtime o context affected input allow_repair propose kind p
        ≡ (ok (changed, candidate), q)
      → (m : GroundingLlmResponse) × (form : Option GroundingCheckResponse) × (accept_candidate
            externals runtime o context affected input kind m form
          ≡ ok (changed, candidate))
  unfolding judge
  judge-ok kind p h =
      let (m, first, rest) =
        bind-ok
          (materialize_with_repair externals runtime o context affected input allow_repair propose
            kind)
          _ p h in
      let p1 =
        (materialize_with_repair externals runtime o context affected input allow_repair propose
          kind p).1 in
      let form = check_form_of p1.response in
      let (u, asked, last) =
        bind-ok
          (lift (
            check_clarification externals runtime o context affected input allow_repair propose
              p1.response))
          (λ _. lift (accept_candidate externals runtime o context affected input kind m form)) p1
          rest in
      (
        m,
        form,
        as_failure-ok _ (
            ap (λ (t : Result Failure (List GroundingDimension × GroundingRuntime) × Progress). t.0)
              last),
      )
