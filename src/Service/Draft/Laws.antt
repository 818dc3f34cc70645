-- ===== src/Service/Draft/Laws.antt =====
-- What a Draft stage may do to the private Runtime.
use valibra.Prelude.{
  String, ◌≡◌, ◌⊎◌, ◌+◌, refl, ap, true, false, not, none, some, List, [], inl, inr, Bool-cases,
  Result, ok, err, ◌>>=◌, raise_if, >>=-eq-ok, check-eq-ok, ok_injective, string_eq,
}
use valibra.Prelude.Json.{Fields}
use valibra.Models.Vocabulary.{GroundingDimension}
use valibra.Models.Types.{Raised, other_error, ValidationContext, StateDiffAuthorization}
use valibra.Models.Transition.{changed_dimensions, validate_grounding_state_transition}
use valibra.Models.Transition.Laws.{IsAllowedDiff, transition-ok→IsAllowedDiff}
use valibra.Models.Transition.Runtime.{revision_step}
use valibra.Models.Forms.{GroundingResponse}
use valibra.Telemetry.{GroundingLlmTelemetry, UpdateStatus, StateUpdateTelemetry, make_state_update}
use valibra.Observations.{SqlGroundingObservation}
use valibra.Updater.{GroundingCallKind, Proposal, proposed, refused, crashed}
use valibra.Service.Scope.{fail}
use valibra.Service.Stages.{materialize_stage_response, authorization_for_observation}
use valibra.Service.Diff.{validate_observation_specific_diff}
use valibra.Service.Repair.{validate_mapping_omission_phrases}
use valibra.Service.Outcome.{Externals, rejected_update}
use valibra.Service.Attempt.{
  Failure, Progress, Step, ◌>>=◌ as bind, lift, prepare_knowledge, check_form_of,
}
use valibra.Service.Attempt.Laws.{bind-ok, as_failure-ok}
use valibra.Service.Commit.{SqlGroundingDraftRuntime}
use valibra.Service.Process.{start}
use valibra.Service.Draft.{
  SqlGroundingDraftStageResult, is_stage_form, draft_kind, accept_draft, judge_draft, is_draft_noop,
  draft_update, conclude_draft, refuse_draft, after_draft_proposal, after_draft_kind,
  process_sql_grounding_draft_stage, failure_type,
}

module _ (externals : Externals) (runtime : SqlGroundingDraftRuntime) (o : SqlGroundingObservation)
    (context : ValidationContext) (input : Fields) (propose : Proposal) where
  -- The Draft's step: what a stage was authorized to change, and one revision if it did.
  pub record IsDraftStep (kind : GroundingCallKind) (changed : List GroundingDimension)
      (c : SqlGroundingDraftRuntime) : Type 0 where
    pub same_stage : c.stage ≡ runtime.stage
    pub changes : changed ≡ changed_dimensions runtime.grounding_state c.grounding_state
    pub revision :
        c.grounding_revision
        ≡ runtime.grounding_revision + revision_step runtime.grounding_state c.grounding_state
    pub authorization : StateDiffAuthorization
    pub authorized :
        authorization_for_observation runtime.stage o.observation_type [] (some kind)
        ≡ ok authorization
    pub diff : IsAllowedDiff runtime.grounding_state c.grounding_state authorization

  pub data IsDraftOutcome (kind : GroundingCallKind) (result : SqlGroundingDraftStageResult)
      : Type 0 where
    was_rejected :
        result.state_update.status ≡ UpdateStatus.rejected
        → result.runtime ≡ runtime
        → IsDraftOutcome kind result
    was_noop :
        result.state_update.status ≡ UpdateStatus.noop
        → result.runtime ≡ runtime
        → IsDraftOutcome kind result
    was_accepted :
        result.state_update.status ≡ UpdateStatus.accepted
        → IsDraftStep kind result.state_update.changed_dimensions result.runtime
        → IsDraftOutcome kind result

  Drafted : (kind : GroundingCallKind) → List GroundingDimension × SqlGroundingDraftRuntime → Type 0
  Drafted kind t = IsDraftStep kind t.0 t.1

  accept_draft-ok :
      (kind : GroundingCallKind) (response : GroundingResponse)
      {t : List GroundingDimension × SqlGroundingDraftRuntime}
      → accept_draft externals runtime o context input propose kind response ≡ ok t
      → Drafted kind t
  unfolding accept_draft Drafted
  accept_draft-ok kind response {t} h =
      let (u, p, h1) = >>=-eq-ok (validate_mapping_omission_phrases response context) _ h in
      let (m, q, h2) =
        >>=-eq-ok
          (materialize_stage_response externals.sql externals.semantic_ref runtime response
            (some kind) (some input) true)
          _ h1 in
      let (auth, a, h3) =
        >>=-eq-ok (authorization_for_observation runtime.stage o.observation_type [] (some kind)) _
          h2 in
      let (ds, d, h4) =
        >>=-eq-ok
          (validate_grounding_state_transition runtime.grounding_state m.sql_grounding_state auth) _
          h3 in
      let (v, w, h5) =
        >>=-eq-ok
          (validate_observation_specific_diff externals.loads runtime o.observation_type m ds
            (some kind) (some input) (check_form_of response) true)
          _ h4 in
      let (diff, changes) =
        transition-ok→IsAllowedDiff runtime.grounding_state m.sql_grounding_state auth d in
      rw (← ok_injective {E = Raised} h5) (record {
        same_stage = refl;
        changes = changes;
        revision = rw (← changes);
        authorization = auth;
        authorized = a;
        diff = diff;
      })

  judge_draft-ok :
      (kind : GroundingCallKind) (p : Progress)
      {t : List GroundingDimension × SqlGroundingDraftRuntime} {q : Progress}
      → judge_draft externals runtime o context input propose kind p ≡ (ok t, q)
      → Drafted kind t
  unfolding judge_draft
  judge_draft-ok kind p h =
      let form =
        lift
          (raise_if (not (is_stage_form p.response)) (fail "Draft received a control response")) in
      let prepare =
        prepare_knowledge externals runtime o context [] (some input) false (λ _. propose)
          (some kind) p.response in
      let respond : Step GroundingResponse = λ q. (ok q.response, q) in
      let accept = λ (r : GroundingResponse).
        lift (accept_draft externals runtime o context input propose kind r) in
      let (u, a, h1) = bind-ok form (λ _. bind prepare (λ _. bind respond accept)) p h in
      let (v, b, h2) = bind-ok prepare (λ _. bind respond accept) (form p).1 h1 in
      let (r, c, h3) = bind-ok respond accept (prepare (form p).1).1 h2 in
      accept_draft-ok kind r (
        as_failure-ok _ (
          ap
            (λ (x : Result Failure (List GroundingDimension × SqlGroundingDraftRuntime) × Progress).
              x.0)
            h3))

  emitted :
      (update : StateUpdateTelemetry) (f : StateUpdateTelemetry → SqlGroundingDraftStageResult)
      {result : SqlGroundingDraftStageResult}
      → (make_state_update update >>= λ v. ok (f v)) ≡ ok result
      → f update ≡ result
  unfolding make_state_update
  emitted update f h =
      let (u, made, q) = >>=-eq-ok (make_state_update update) _ h in
      let (b, e) = check-eq-ok _ other_error update made in rw e (ok_injective q)

  conclude_draft-IsDraftOutcome :
      (kind : GroundingCallKind)
      (r : Result Failure (List GroundingDimension × SqlGroundingDraftRuntime)) (p : Progress)
      {result : SqlGroundingDraftStageResult}
      → ((t : List GroundingDimension × SqlGroundingDraftRuntime) → r ≡ ok t → Drafted kind t)
      → conclude_draft externals runtime o context input propose r p ≡ ok result
      → IsDraftOutcome kind result
  unfolding conclude_draft draft_update rejected_update is_draft_noop Drafted
  conclude_draft-IsDraftOutcome kind (ok (changed, c)) p passed h =
      rw (← emitted (draft_update externals runtime o context input propose changed c) _ h)
        (elim (Bool-cases (is_draft_noop externals runtime o context input propose changed c)) [
          | inl q ↦ was_noop (rw q) (rw q)
          | inr q ↦ was_accepted (rw q) (rw q (passed (changed, c) refl))
        ])
  conclude_draft-IsDraftOutcome kind (err e) p passed h =
      rw
        (← emitted
          (rejected_update externals runtime o
            (failure_type externals runtime o context input propose e))
          _ h)
        (was_rejected refl refl)

  -- The stage was refused, and the private Runtime is the one before.
  abbrev pub IsDraftRefused : SqlGroundingDraftStageResult → Type 0
  IsDraftRefused result =
      (result.state_update.status ≡ UpdateStatus.rejected) × (result.runtime ≡ runtime)

  refuse_draft-IsDraftRefused :
      (telemetry : GroundingLlmTelemetry) (error_type : String)
      {result : SqlGroundingDraftStageResult}
      → refuse_draft externals runtime o context input propose telemetry error_type ≡ ok result
      → IsDraftRefused result
  unfolding refuse_draft rejected_update
  refuse_draft-IsDraftRefused telemetry error_type h =
      rw (← emitted (rejected_update externals runtime o error_type) _ h) (refl, refl)

  proposal-IsDraftOutcome :
      (kind : GroundingCallKind) (proposal : Proposal) {result : SqlGroundingDraftStageResult}
      → after_draft_proposal externals runtime o context input propose kind proposal ≡ ok result
      → IsDraftOutcome kind result
  unfolding after_draft_proposal
  proposal-IsDraftOutcome kind (refused e) h =
      let (a, b) = refuse_draft-IsDraftRefused _ _ h in was_rejected a b
  proposal-IsDraftOutcome kind (crashed e) h =
      let (a, b) = refuse_draft-IsDraftRefused _ _ h in was_rejected a b
  proposal-IsDraftOutcome kind (proposed result) h =
      let judged = judge_draft externals runtime o context input propose kind (start none result) in
      conclude_draft-IsDraftOutcome kind judged.0 judged.1
        (λ t e. judge_draft-ok kind (start none result) (λ i. (e i, judged.1))) h

  kind-IsDraftOutcome :
      (r : Result Raised GroundingCallKind) {result : SqlGroundingDraftStageResult}
      → after_draft_kind externals runtime o context input propose r ≡ ok result
      → IsDraftRefused result
        ⊎ ((kind : GroundingCallKind) × (r ≡ ok kind) × IsDraftOutcome kind result)
  unfolding after_draft_kind
  kind-IsDraftOutcome (err e) h = inl (refuse_draft-IsDraftRefused _ _ h)
  kind-IsDraftOutcome (ok kind) h = inr (kind, refl, proposal-IsDraftOutcome kind propose h)

  -- A Draft stage that returns either refused and hands back the private Runtime it was given, or
  -- its input passed with a call kind and its result is a rejected update or a `noop` with the
  -- same Runtime, or an accepted candidate, which keeps the stage, differs from the State before
  -- only as that kind's authorization allows, reports exactly the changed dimensions, and counts
  -- one revision exactly when a dimension changed.
  pub draft-IsDraftOutcome :
      {result : SqlGroundingDraftStageResult}
      → process_sql_grounding_draft_stage externals runtime o context input propose ≡ ok result
      → IsDraftRefused result
        ⊎ ((kind : GroundingCallKind) × (draft_kind externals runtime o context input propose
              ≡ ok kind)
            × IsDraftOutcome kind result)
  unfolding process_sql_grounding_draft_stage
  draft-IsDraftOutcome h =
      kind-IsDraftOutcome (draft_kind externals runtime o context input propose) h
