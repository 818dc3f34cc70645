-- ===== src/Models/Transition/Runtime.antt =====
-- The Runtime transition validator: authorization, revision accounting, and a change of the stage
-- alone.
use valibra.Prelude.{
  ℕ, ◌+◌, ◌≡◌, true, not, some, is_empty, arith, Eq, ◌==◌, ◌!=◌, eq_of_beq, beq_of_eq, beq_refl, ok,
  >>=-eq-ok, nat_eq, to_int, Bool-cases, inl, inr,
}
use valibra.Models.Vocabulary.{stage_eq}
use valibra.Models.Types.{SqlGroundingState, GroundingRuntime, StateDiffAuthorization}
use valibra.Models.Transition.{
  changed_dimensions, validate_grounding_state_transition, validate_grounding_runtime_transition,
}
use valibra.Models.Transition.Laws.{
  IsAllowedDiff, transition-ok→IsAllowedDiff, IsAllowedDiff→transition-ok, changed_dimensions_self,
  eq_of_unchanged,
}

-- `int(bool(changed))`.
abbrev pub revision_step : SqlGroundingState → SqlGroundingState → ℕ
revision_step p c = to_int (not (is_empty (changed_dimensions p c)))

-- What the Runtime validator promises of a step.
pub record IsAllowedStep (previous current : GroundingRuntime)
    (authorization : StateDiffAuthorization) : Type 0 where
  pub same_stage : authorization.stage ≡ previous.stage
  pub diff : IsAllowedDiff previous.grounding_state current.grounding_state authorization
  pub revision :
      current.grounding_revision
      ≡ previous.grounding_revision + revision_step previous.grounding_state current.grounding_state

module _ {Digest : Type 0} ⦃e : Eq Digest⦄ (sha256 : SqlGroundingState → Digest) where
  -- The two States have one digest only if they are equal.
  abbrev pub NoCollision : SqlGroundingState → SqlGroundingState → Type 0
  NoCollision p c = sha256 p ≡ sha256 c → p ≡ c

  sha-changed :
      (p c : SqlGroundingState)
      → NoCollision p c
      → (sha256 p != sha256 c) ≡ not (is_empty (changed_dimensions p c))
  sha-changed p c sound = elim (Bool-cases (sha256 p == sha256 c)) [
    | inl q ↦
        rw (
          ← sound (eq_of_beq (sha256 p) (sha256 c) q),
          changed_dimensions_self,
          beq_refl (sha256 p),
        )
    | inr q ↦ elim (Bool-cases (is_empty (changed_dimensions p c))) [
      | inl k ↦ let s = beq_of_eq (sha256 p) (sha256 c) (ap' (eq_of_unchanged p c k)) in cc
      | inr k ↦ rw (q, k)
    ]
  ]
    where
      ap' : p ≡ c → sha256 p ≡ sha256 c
      ap' r = rw r

  module _ (previous current : GroundingRuntime) (authorization : StateDiffAuthorization) where
    -- The validator returns the Runtime it is given.
    pub runtime_transition-same :
        {r : GroundingRuntime}
        → validate_grounding_runtime_transition sha256 previous current (some authorization) ≡ ok r
        → current ≡ r
    unfolding validate_grounding_runtime_transition
    runtime_transition-same h =
        let same : (authorization.stage == previous.stage) ≡ true = ground arith in
        let (ds, passed, rest) =
          >>=-eq-ok
            (validate_grounding_state_transition previous.grounding_state current.grounding_state
              authorization)
            _ (rw same at h) in
        ground arith

    -- If the two States have one digest only when they are equal, a Runtime that the Runtime
    -- validator passes with an authorization comes from the authorization's stage by an allowed
    -- difference of the States, with a revision one higher exactly when a dimension changed; and
    -- the validator returns that Runtime.
    pub runtime_transition-ok :
        NoCollision previous.grounding_state current.grounding_state
        → {r : GroundingRuntime}
        → validate_grounding_runtime_transition sha256 previous current (some authorization) ≡ ok r
        → IsAllowedStep previous current authorization × (r ≡ current)
    unfolding validate_grounding_runtime_transition
    runtime_transition-ok sound h =
        let p = previous.grounding_state in
        let c = current.grounding_state in
        let same : (authorization.stage == previous.stage) ≡ true = ground arith in
        let (ds, passed, rest) =
          >>=-eq-ok (validate_grounding_state_transition p c authorization) _ (rw same at h) in
        let counted : (current.grounding_revision
              == previous.grounding_revision + to_int (sha256 p != sha256 c))
            ≡ true =
          ground arith in
        (
          record {
            same_stage = eq_of_beq authorization.stage previous.stage same;
            diff = (transition-ok→IsAllowedDiff p c authorization passed).0;
            revision = rw (← sha-changed p c sound) (eq_of_beq _ _ counted);
          },
          ground arith,
        )

    -- If the two States have one digest only when they are equal, the Runtime validator passes
    -- every allowed step and returns the later Runtime.
    pub IsAllowedStep→ok :
        NoCollision previous.grounding_state current.grounding_state
        → IsAllowedStep previous current authorization
        → validate_grounding_runtime_transition sha256 previous current (some authorization)
          ≡ ok current
    unfolding validate_grounding_runtime_transition
    IsAllowedStep→ok sound h =
        let p = previous.grounding_state in
        let c = current.grounding_state in
        rw (
          beq_of_eq authorization.stage previous.stage h.same_stage,
          IsAllowedDiff→transition-ok p c authorization h.diff,
          sha-changed p c sound,
          beq_of_eq current.grounding_revision (previous.grounding_revision + revision_step p c)
              h.revision,
        )
