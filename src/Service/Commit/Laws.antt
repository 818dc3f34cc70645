-- ===== src/Service/Commit/Laws.antt =====
-- What a commit promises of the Runtime it returns, and when it succeeds.
use valibra.Prelude.{
  ◌≡◌, ◌+◌, List, true, false, not, is_empty, ok, >>=-eq-ok, raise_if-eq-ok, to_int, string_eq,
}
use valibra.Models.Vocabulary.{
  GroundingStage, GroundingDimension, FocusDimension, stage_eq, focus_eq,
}
use valibra.Models.Types.{SqlGroundingState, GroundingRuntime, ValidationContext}
use valibra.Models.State.{make_runtime, all_dimensions_evaluated}
use valibra.Models.Transition.{is_evaluated, is_frozen_stage, validate_grounding_state_transition}
use valibra.Models.Transition.Laws.{transition-ok→IsAllowedDiff}
use valibra.Models.Transition.Runtime.{revision_step, runtime_transition-same}
use valibra.Models.Validation.{validate_sql_grounding_state, validate_grounding_llm_response}
use valibra.Models.Validation.Laws.{IsSupported, validate-ok→IsSupported}
use valibra.Models.Forms.{GroundingCheckResponse}
use valibra.Service.Candidate.Laws.{make_runtime-ok}
use valibra.Service.Outcome.{Externals}
use valibra.Service.Commit.{
  SqlGroundingDraftRuntime, is_open_check, draft_response, full_authorization,
  commit_sql_grounding_draft,
}

module _ (externals : Externals) (formal : GroundingRuntime) (draft : SqlGroundingDraftRuntime)
    (context : ValidationContext) where
  -- The Draft's State in the formal stage, one revision on if it differs.
  pub record IsCommitted (c : GroundingRuntime) : Type 0 where
    pub committed_state : c.grounding_state ≡ draft.grounding_state
    pub same_stage : c.stage ≡ formal.stage
    pub no_focus : c.focus_dimension ≡ FocusDimension.none
    pub supported : IsSupported externals.sql draft.grounding_state context
    pub complete :
        formal.stage ≡ GroundingStage.initial_grounding
        → all_dimensions_evaluated draft.grounding_state ≡ true
    pub kept :
        (d : GroundingDimension)
        → is_evaluated formal.grounding_state d ≡ true
        → is_evaluated draft.grounding_state d ≡ true
    pub frozen :
        is_frozen_stage formal.stage ≡ true → formal.grounding_state ≡ draft.grounding_state
    pub revision :
        c.grounding_revision
        ≡ formal.grounding_revision + revision_step formal.grounding_state draft.grounding_state

  -- The parts of the chain, put together.
  assemble :
      {s : SqlGroundingState} {ds : List GroundingDimension} {r : GroundingRuntime}
      → validate_sql_grounding_state externals.sql draft.grounding_state context ≡ ok s
      → validate_grounding_state_transition formal.grounding_state draft.grounding_state
          (full_authorization formal)
        ≡ ok ds
      → make_runtime
          (formal.grounding_revision + to_int (not (is_empty ds)))
          formal.stage
          FocusDimension.none
          draft.grounding_state
        ≡ ok r
      → IsCommitted r
  assemble p t made =
      let (diff, changes) =
        transition-ok→IsAllowedDiff formal.grounding_state draft.grounding_state
          (full_authorization formal) t in
      let (legal, revision, stage, focus, state) =
        make_runtime-ok _ formal.stage FocusDimension.none draft.grounding_state made in
      record {
        committed_state = state;
        same_stage = stage;
        no_focus = focus;
        supported = (validate-ok→IsSupported externals.sql draft.grounding_state context p).0;
        complete = λ h. rw (← state, ← legal (rw stage h), focus);
        kept = diff.kept;
        frozen = diff.frozen;
        revision = rw (← changes) revision;
      }

  -- A commit that returns a Runtime had a final Check that leaves nothing open, and the Runtime
  -- holds the Draft's State in the formal stage with no focus: every entry of that State has its
  -- evidence, in the initial stage it is complete, no evaluated dimension is lost, a frozen stage
  -- has the same State, and the formal revision grows by one exactly when a dimension differs.
  pub commit-IsCommitted :
      (final_check : GroundingCheckResponse) {c : GroundingRuntime}
      → commit_sql_grounding_draft externals formal draft context final_check ≡ ok c
      → (is_open_check final_check ≡ false) × IsCommitted c
  unfolding commit_sql_grounding_draft
  commit-IsCommitted final_check h =
      let (closed, h1) = raise_if-eq-ok (is_open_check final_check) _ _ h in
      let (s, p, h2) =
        >>=-eq-ok (validate_sql_grounding_state externals.sql draft.grounding_state context) _ h1 in
      let (m, q, h3) =
        >>=-eq-ok
          (validate_grounding_llm_response externals.sql (draft_response draft) formal.stage
            context)
          _ h2 in
      let (ds, t, h4) =
        >>=-eq-ok
          (validate_grounding_state_transition formal.grounding_state draft.grounding_state
            (full_authorization formal))
          _ h3 in
      let (r, made, h5) =
        >>=-eq-ok
          (make_runtime (formal.grounding_revision + to_int (not (is_empty ds))) formal.stage
            FocusDimension.none draft.grounding_state)
          _ h4 in
      (
        closed,
        rw (← runtime_transition-same externals.sha256 formal r (full_authorization formal) h5)
            (assemble p t made),
      )
