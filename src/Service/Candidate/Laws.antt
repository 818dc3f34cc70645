-- ===== src/Service/Candidate/Laws.antt =====
-- What a candidate that passed the last checks is.
use valibra.Prelude.{
  ℕ, ◌+◌, ◌≡◌, refl, ap, Bool, true, false, not, Option, some, List, is_empty, arith, Result, ok,
  >>=-eq-ok, check-eq-ok, ok_injective, to_int, string_eq, ◌==◌, if◌then◌else◌,
}
use valibra.Prelude.Json.{Fields}
use valibra.Models.Vocabulary.{
  GroundingStage, FocusDimension, GroundingDimension, dimension_eq, stage_eq, focus_eq,
}
use valibra.Models.Types.{
  SqlExpressions, other_error, Raised, SqlGroundingState, GroundingRuntime, StateDiffAuthorization,
  ValidationContext,
}
use valibra.Models.State.{make_runtime, all_dimensions_evaluated}
use valibra.Models.Transition.{
  changed_dimensions, validate_grounding_state_transition, validate_grounding_runtime_transition,
}
use valibra.Models.Transition.Laws.{IsAllowedDiff, transition-ok→IsAllowedDiff}
use valibra.Models.Transition.Runtime.{revision_step}
use valibra.Models.Validation.{
  GroundingLlmResponse, validate_sql_grounding_state, validate_grounding_llm_response,
}
use valibra.Models.Validation.Laws.{IsSupported, validate-ok→IsSupported}
use valibra.Models.Forms.{GroundingCheckResponse}
use valibra.Observations.{SqlGroundingObservation}
use valibra.Updater.{GroundingCallKind}
use valibra.Service.Stages.{authorization_for_observation}
use valibra.Service.Diff.{validate_observation_specific_diff}
use valibra.Service.Outcome.{Externals}
use valibra.Service.Candidate.{accept_candidate}

-- In the initial stage the focus is `none` exactly when the State is complete.
abbrev pub HasLegalFocus : GroundingRuntime → Type 0
HasLegalFocus r =
    r.stage ≡ GroundingStage.initial_grounding
    → (r.focus_dimension == FocusDimension.none) ≡ all_dimensions_evaluated r.grounding_state

legal_of_test :
    (stage : GroundingStage) (focus : FocusDimension) (complete : Bool)
    → (if stage == GroundingStage.initial_grounding
        then (if complete
            then focus == FocusDimension.none
            else (if focus == FocusDimension.none then false else true))
        else true)
      ≡ true
    → stage ≡ GroundingStage.initial_grounding
    → (focus == FocusDimension.none) ≡ complete
legal_of_test stage focus true h p = ground arith
legal_of_test stage focus false h p = ground arith

-- A contract that passes has a supported State.
contract-IsSupported :
    (x : SqlExpressions) (m : GroundingLlmResponse) (stage : GroundingStage)
    (context : ValidationContext) {a : GroundingLlmResponse}
    → validate_grounding_llm_response x m stage context ≡ ok a
    → IsSupported x m.sql_grounding_state context
unfolding validate_grounding_llm_response
contract-IsSupported x m stage context h =
    let (s, p, rest) =
      >>=-eq-ok (validate_sql_grounding_state x m.sql_grounding_state context) _ h in
    (validate-ok→IsSupported x m.sql_grounding_state context p).0

pub make_runtime-ok :
    (revision : ℕ) (stage : GroundingStage) (focus : FocusDimension) (state : SqlGroundingState)
    {r : GroundingRuntime}
    → make_runtime revision stage focus state ≡ ok r
    → HasLegalFocus r
      × (r.grounding_revision ≡ revision)
      × (r.stage ≡ stage)
      × (r.focus_dimension ≡ focus)
      × (r.grounding_state ≡ state)
unfolding make_runtime
make_runtime-ok revision stage focus state h =
    let (b, e) = check-eq-ok _ other_error _ h in
    rw (← e) (legal_of_test stage focus (all_dimensions_evaluated state) b, refl, refl, refl, refl)

module _ (externals : Externals) (runtime : GroundingRuntime) (o : SqlGroundingObservation)
    (context : ValidationContext) (affected : List GroundingDimension) (input : Option Fields) where
  -- The candidate's relation to the Runtime before it.
  pub record IsAccepted (kind : Option GroundingCallKind) (changed : List GroundingDimension)
      (c : GroundingRuntime) : Type 0 where
    pub same_stage : c.stage ≡ runtime.stage
    pub legal_focus : HasLegalFocus c
    pub supported : IsSupported externals.sql c.grounding_state context
    pub changes : changed ≡ changed_dimensions runtime.grounding_state c.grounding_state
    pub revision :
        c.grounding_revision
        ≡ runtime.grounding_revision + revision_step runtime.grounding_state c.grounding_state
    pub authorization : StateDiffAuthorization
    pub authorized :
        authorization_for_observation runtime.stage o.observation_type affected kind
        ≡ ok authorization
    pub diff : IsAllowedDiff runtime.grounding_state c.grounding_state authorization

  -- The parts of the chain, put together.
  assemble :
      (kind : Option GroundingCallKind) (m : GroundingLlmResponse) {a : GroundingLlmResponse}
      {auth : StateDiffAuthorization} {ds : List GroundingDimension} {r : GroundingRuntime}
      → validate_grounding_llm_response externals.sql m runtime.stage context ≡ ok a
      → authorization_for_observation runtime.stage o.observation_type affected kind ≡ ok auth
      → validate_grounding_state_transition runtime.grounding_state m.sql_grounding_state auth
        ≡ ok ds
      → make_runtime
          (runtime.grounding_revision + to_int (not (is_empty ds)))
          runtime.stage
          m.next_focus_dimension
          m.sql_grounding_state
        ≡ ok r
      → IsAccepted kind ds r
  assemble kind m {a} {auth} {ds} {r} contract authorization transition made =
      let (diff, changes) =
        transition-ok→IsAllowedDiff runtime.grounding_state m.sql_grounding_state auth transition in
      let (legal, revision, stage, focus, state) =
        make_runtime-ok _ runtime.stage m.next_focus_dimension m.sql_grounding_state made in
      record {
        same_stage = stage;
        legal_focus = legal;
        supported = rw state (contract-IsSupported externals.sql m runtime.stage context contract);
        changes = rw state changes;
        revision = rw (state, ← changes) revision;
        authorization = auth;
        authorized = authorization;
        diff = rw state diff;
      }

  of_pair :
      (kind : Option GroundingCallKind) {ds changed : List GroundingDimension}
      {r c : GroundingRuntime}
      → ◌≡◌ {A = Result Raised (List GroundingDimension × GroundingRuntime)}
          (ok (ds, r))
          (ok (changed, c))
      → IsAccepted kind ds r
      → IsAccepted kind changed c
  of_pair kind {ds} {changed} {r} {c} h accepted =
      let e : (ds, r) ≡ (changed, c) = ok_injective h in
      let p : ds ≡ changed = ap (λ (t : List GroundingDimension × GroundingRuntime). t.0) e in
      let q : r ≡ c = ap (λ (t : List GroundingDimension × GroundingRuntime). t.1) e in
      rw (← p, ← q) accepted

  pub accept_candidate-ok :
      (kind : Option GroundingCallKind) (m : GroundingLlmResponse)
      (form : Option GroundingCheckResponse) {changed : List GroundingDimension}
      {c : GroundingRuntime}
      → accept_candidate externals runtime o context affected input kind m form ≡ ok (changed, c)
      → IsAccepted kind changed c
  unfolding accept_candidate
  accept_candidate-ok kind m form h =
      let (a1, p1, h1) =
        >>=-eq-ok (validate_grounding_llm_response externals.sql m runtime.stage context) _ h in
      let (auth, p2, h2) =
        >>=-eq-ok (authorization_for_observation runtime.stage o.observation_type affected kind) _
          h1 in
      let (ds, p3, h3) =
        >>=-eq-ok
          (validate_grounding_state_transition runtime.grounding_state m.sql_grounding_state auth) _
          h2 in
      let (u, p4, h4) =
        >>=-eq-ok
          (validate_observation_specific_diff externals.loads runtime o.observation_type m ds kind
            input form false)
          _ h3 in
      let (r, p5, h5) =
        >>=-eq-ok
          (make_runtime (runtime.grounding_revision + to_int (not (is_empty ds))) runtime.stage
            m.next_focus_dimension m.sql_grounding_state)
          _ h4 in
      let (r', p6, h6) =
        >>=-eq-ok (validate_grounding_runtime_transition externals.sha256 runtime r (some auth)) _
          h5 in
      of_pair kind h6 (assemble kind m p1 p2 p3 p5)
