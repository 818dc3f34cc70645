-- ===== src/Service/Process/Guarantees.antt =====
-- What a caller of `process_sql_grounding_observation` may rely on.
use valibra.Prelude.{
  ◌≡◌, ◌⊎◌, ◌+◌, refl, Bool, true, false, Option, none, some, List, [], arith, ok, inl, inr,
  contains, ok_injective, check-eq-ok, contains-sorted,
}
use valibra.Prelude.Json.{Fields}
use valibra.Models.Vocabulary.{GroundingStage, GroundingDimension, dimension_eq, stage_eq}
use valibra.Models.Types.{
  Raised, other_error, SqlGroundingState, GroundingRuntime, ValidationContext,
  StateDiffAuthorization,
}
use valibra.Models.Transition.{is_evaluated, is_frozen_stage}
use valibra.Models.Transition.Laws.{Differs, changed_dimensions_self}
use valibra.Models.Transition.Runtime.{revision_step}
use valibra.Observations.{ObservationType, SqlGroundingObservation}
use valibra.Updater.{GroundingCallKind, Proposal}
use valibra.Service.Inputs.{validate_service_inputs}
use valibra.Service.Repair.{MappingRepairScope}
use valibra.Service.Stages.{
  make_authorization, authorization_for_observation, dimensions_by_kind, dimension_order,
}
use valibra.Service.Candidate.Laws.{IsAccepted}
use valibra.Service.Outcome.{Externals, SqlGroundingServiceResult}
use valibra.Service.Process.{process_sql_grounding_observation}
use valibra.Service.Process.Laws.{IsOutcome, process-IsOutcome}

make_authorization-ok :
    (stage : GroundingStage) (ds : List GroundingDimension) {a : StateDiffAuthorization}
    → make_authorization stage ds ≡ ok a
    → (a.stage ≡ stage)
      × ((d : GroundingDimension) → contains d a.authorized_dimensions ≡ contains d ds)
unfolding make_authorization
make_authorization-ok stage ds h =
    let (b, e) = check-eq-ok _ other_error _ h in
    rw (← e) (refl, λ d. contains-sorted dimension_order d ds)

authorization-stage :
    (stage : GroundingStage) (type : ObservationType) (affected : List GroundingDimension)
    (kind : Option GroundingCallKind) {a : StateDiffAuthorization}
    → authorization_for_observation stage type affected kind ≡ ok a
    → a.stage ≡ stage
unfolding authorization_for_observation
authorization-stage stage type affected none h = (make_authorization-ok stage _ h).0
authorization-stage stage type affected (some GroundingCallKind.structure) h =
    (make_authorization-ok stage _ h).0
authorization-stage stage type affected (some GroundingCallKind.mapping) h =
    (make_authorization-ok stage _ h).0
authorization-stage stage type affected (some GroundingCallKind.knowledge) h =
    (make_authorization-ok stage _ h).0
authorization-stage stage type affected (some GroundingCallKind.check) h =
    (make_authorization-ok stage _ h).0
authorization-stage stage type affected (some GroundingCallKind.final_gate) h = cc

-- The dimensions that a staged call may write.
abbrev pub may_change : GroundingCallKind → GroundingDimension → Bool
may_change GroundingCallKind.structure GroundingDimension.tables = true
may_change GroundingCallKind.structure GroundingDimension.join_keys = true
may_change GroundingCallKind.structure _ = false
may_change GroundingCallKind.mapping GroundingDimension.domain_knowledge = false
may_change GroundingCallKind.mapping _ = true
may_change GroundingCallKind.final_gate _ = false
may_change _ GroundingDimension.tables = false
may_change _ GroundingDimension.join_keys = false
may_change _ _ = true

-- `dimensions_by_kind` as a list.
abbrev listed : GroundingCallKind → List GroundingDimension
listed kind = elim (dimensions_by_kind kind) [ none ↦ [] | some ds ↦ ds ]

may_change_of :
    (kind : GroundingCallKind) (d : GroundingDimension)
    → contains d (listed kind) ≡ may_change kind d
unfolding contains
may_change_of GroundingCallKind.structure GroundingDimension.tables = refl
may_change_of GroundingCallKind.structure GroundingDimension.join_keys = refl
may_change_of GroundingCallKind.structure GroundingDimension.column_mapping = refl
may_change_of GroundingCallKind.structure GroundingDimension.domain_knowledge = refl
may_change_of GroundingCallKind.mapping GroundingDimension.tables = refl
may_change_of GroundingCallKind.mapping GroundingDimension.join_keys = refl
may_change_of GroundingCallKind.mapping GroundingDimension.column_mapping = refl
may_change_of GroundingCallKind.mapping GroundingDimension.domain_knowledge = refl
may_change_of GroundingCallKind.knowledge GroundingDimension.tables = refl
may_change_of GroundingCallKind.knowledge GroundingDimension.join_keys = refl
may_change_of GroundingCallKind.knowledge GroundingDimension.column_mapping = refl
may_change_of GroundingCallKind.knowledge GroundingDimension.domain_knowledge = refl
may_change_of GroundingCallKind.check GroundingDimension.tables = refl
may_change_of GroundingCallKind.check GroundingDimension.join_keys = refl
may_change_of GroundingCallKind.check GroundingDimension.column_mapping = refl
may_change_of GroundingCallKind.check GroundingDimension.domain_knowledge = refl
may_change_of GroundingCallKind.final_gate GroundingDimension.tables = refl
may_change_of GroundingCallKind.final_gate GroundingDimension.join_keys = refl
may_change_of GroundingCallKind.final_gate GroundingDimension.column_mapping = refl
may_change_of GroundingCallKind.final_gate GroundingDimension.domain_knowledge = refl

authorization-may_change :
    (stage : GroundingStage) (type : ObservationType) (affected : List GroundingDimension)
    (kind : GroundingCallKind) {a : StateDiffAuthorization} (d : GroundingDimension)
    → authorization_for_observation stage type affected (some kind) ≡ ok a
    → contains d a.authorized_dimensions ≡ true
    → may_change kind d ≡ true
unfolding authorization_for_observation contains
authorization-may_change stage type affected GroundingCallKind.structure d h k =
    rw (← may_change_of GroundingCallKind.structure d, ← (make_authorization-ok stage _ h).1 d) k
authorization-may_change stage type affected GroundingCallKind.mapping d h k =
    rw (← may_change_of GroundingCallKind.mapping d, ← (make_authorization-ok stage _ h).1 d) k
authorization-may_change stage type affected GroundingCallKind.knowledge d h k =
    rw (← may_change_of GroundingCallKind.knowledge d, ← (make_authorization-ok stage _ h).1 d) k
authorization-may_change stage type affected GroundingCallKind.check d h k =
    rw (← may_change_of GroundingCallKind.check d, ← (make_authorization-ok stage _ h).1 d) k
authorization-may_change stage type affected GroundingCallKind.final_gate d h k = cc

not-Differs-self : (p : SqlGroundingState) (d : GroundingDimension) → Differs p p d → ⊥
not-Differs-self p GroundingDimension.tables h = h refl
not-Differs-self p GroundingDimension.join_keys h = h refl
not-Differs-self p GroundingDimension.column_mapping h = h refl
not-Differs-self p GroundingDimension.domain_knowledge h = h refl

module _ (externals : Externals) (runtime : GroundingRuntime) (o : SqlGroundingObservation)
    (context : ValidationContext) (affected : List GroundingDimension) (input : Option Fields)
    (allow_repair : Bool) (propose : Option MappingRepairScope → Proposal)
    {result : SqlGroundingServiceResult}
    (h : process_sql_grounding_observation externals runtime o context affected input allow_repair
        propose
      ≡ ok result) where
  -- The Runtime of the result is the one before or an accepted candidate.
  process-runtime :
      (result.runtime ≡ runtime)
      ⊎ ((kind : Option GroundingCallKind) × (validate_service_inputs externals.texts runtime o
              context affected input
            ≡ ok kind)
          × IsAccepted externals runtime o context affected input kind
              result.state_update.changed_dimensions result.runtime)
  process-runtime =
      elim (process-IsOutcome externals runtime o context affected input allow_repair propose h) [
        | inl (status, same) ↦ inl same
        | inr (kind, passed, IsOutcome.was_rejected status same) ↦ inl same
        | inr (kind, passed, IsOutcome.was_noop status same) ↦ inl same
        | inr (kind, passed, IsOutcome.was_accepted status candidate) ↦
            inr (kind, passed, candidate)
      ]

  -- A Grounding call that returns does not change the Runtime's stage.
  pub process-stage : result.runtime.stage ≡ runtime.stage
  process-stage = elim process-runtime [
    | inl same ↦ rw same
    | inr (kind, passed, candidate) ↦ candidate.same_stage
  ]

  -- A Grounding call that returns leaves the State as it was when the Runtime's stage is
  -- SQL_ATTEMPT or DONE.
  pub process-frozen :
      is_frozen_stage runtime.stage ≡ true
      → result.runtime.grounding_state ≡ runtime.grounding_state
  process-frozen frozen = elim process-runtime [
    | inl same ↦ rw same
    | inr (kind, passed, candidate) ↦
        let stage =
          authorization-stage runtime.stage o.observation_type affected kind candidate.authorized in
        rw (candidate.diff.frozen (rw stage frozen))
  ]

  -- A Grounding call that returns adds one to the Runtime's revision if some dimension of the
  -- State changed, and nothing otherwise.
  pub process-revision :
      result.runtime.grounding_revision
      ≡ runtime.grounding_revision
        + revision_step runtime.grounding_state result.runtime.grounding_state
  process-revision = elim process-runtime [
    | inl same ↦ rw (same, changed_dimensions_self runtime.grounding_state) (omega arith)
    | inr (kind, passed, candidate) ↦ candidate.revision
  ]

  pub process-monotone :
      (d : GroundingDimension)
      → is_evaluated runtime.grounding_state d ≡ true
      → is_evaluated result.runtime.grounding_state d ≡ true
  process-monotone d evaluated = elim process-runtime [
    | inl same ↦ rw same evaluated
    | inr (kind, passed, candidate) ↦ candidate.diff.kept d evaluated
  ]

  -- When the inputs of a call pass with a stage's call kind and the call returns, each dimension
  -- in which the State of the returned Runtime differs from the one before is one that the stage
  -- may write: tables and relations for Structure, all but the domain knowledge for Mapping,
  -- column mapping and domain knowledge for Knowledge and Check, and none for the Final Gate.
  pub process-staged :
      (kind : GroundingCallKind)
      → validate_service_inputs externals.texts runtime o context affected input ≡ ok (some kind)
      → (d : GroundingDimension) → Differs runtime.grounding_state result.runtime.grounding_state d
      → may_change kind d ≡ true
  process-staged kind inputs d differs = elim process-runtime [
    | inl same ↦ absurd (not-Differs-self runtime.grounding_state d (rw same at differs))
    | inr (k, passed, candidate) ↦
        let same_kind : k ≡ some kind = ok_injective {E = Raised} (rw (← passed) inputs) in
        authorization-may_change runtime.stage o.observation_type affected kind d
          (rw same_kind at candidate.authorized) (candidate.diff.authorized d differs)
  ]
