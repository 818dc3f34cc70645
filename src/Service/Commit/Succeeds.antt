-- ===== src/Service/Commit/Succeeds.antt =====
-- When a commit succeeds.
use valibra.Prelude.{ℕ, ◌≡◌, ◌+◌, refl, true, false, ok, for_each, string_eq, contains}
use valibra.Models.Vocabulary.{
  GroundingStage, GroundingDimension, FocusDimension, stage_eq, focus_eq, dimension_eq,
  grounding_dimensions,
}
use valibra.Models.Types.{SqlGroundingState, GroundingRuntime, ValidationContext}
use valibra.Models.State.{make_runtime, all_dimensions_evaluated}
use valibra.Models.Transition.{is_evaluated, is_frozen_stage}
use valibra.Models.Transition.Laws.{IsAllowedDiff, IsAllowedDiff→transition-ok}
use valibra.Models.Transition.Runtime.{IsAllowedStep→ok, NoCollision, revision_step}
use valibra.Models.Validation.{validate_grounding_llm_response}
use valibra.Models.Validation.Laws.{IsSupported, IsSupported→validate-ok}
use valibra.Models.Forms.{GroundingCheckResponse}
use valibra.Service.Outcome.{Externals}
use valibra.Service.Commit.{
  SqlGroundingDraftRuntime, is_open_check, draft_response, full_authorization,
  commit_sql_grounding_draft,
}

every_dimension : (d : GroundingDimension) → contains d grounding_dimensions ≡ true
unfolding contains
every_dimension GroundingDimension.tables = refl
every_dimension GroundingDimension.join_keys = refl
every_dimension GroundingDimension.column_mapping = refl
every_dimension GroundingDimension.domain_knowledge = refl

make_runtime-final :
    (revision : ℕ) (stage : GroundingStage) (state : SqlGroundingState)
    → (stage ≡ GroundingStage.initial_grounding → all_dimensions_evaluated state ≡ true)
    → make_runtime revision stage FocusDimension.none state
      ≡ ok (record {
        grounding_revision = revision;
        stage = stage;
        focus_dimension = FocusDimension.none;
        grounding_state = state;
      })
unfolding make_runtime
make_runtime-final revision GroundingStage.initial_grounding state h = rw (h refl)
make_runtime-final revision GroundingStage.sql_attempt state h = refl
make_runtime-final revision GroundingStage.p2_incremental state h = refl
make_runtime-final revision GroundingStage.done state h = refl

module _ (externals : Externals) (formal : GroundingRuntime) (draft : SqlGroundingDraftRuntime)
    (context : ValidationContext)
    (supported : IsSupported externals.sql draft.grounding_state context)
    (complete : formal.stage ≡ GroundingStage.initial_grounding
      → all_dimensions_evaluated draft.grounding_state ≡ true) where
  contract-ok :
      (stage : GroundingStage)
      → (stage ≡ GroundingStage.initial_grounding
          → all_dimensions_evaluated draft.grounding_state ≡ true)
      → validate_grounding_llm_response externals.sql (draft_response draft) stage context
        ≡ ok (draft_response draft)
  unfolding validate_grounding_llm_response for_each
  contract-ok GroundingStage.initial_grounding h =
      rw (IsSupported→validate-ok externals.sql draft.grounding_state context supported, h refl)
  contract-ok GroundingStage.sql_attempt h =
      rw (IsSupported→validate-ok externals.sql draft.grounding_state context supported)
  contract-ok GroundingStage.p2_incremental h =
      rw (IsSupported→validate-ok externals.sql draft.grounding_state context supported)
  contract-ok GroundingStage.done h =
      rw (IsSupported→validate-ok externals.sql draft.grounding_state context supported)

  abbrev committed : GroundingRuntime
  committed = record {
    grounding_revision =
        formal.grounding_revision + revision_step formal.grounding_state draft.grounding_state;
    stage = formal.stage;
    focus_dimension = FocusDimension.none;
    grounding_state = draft.grounding_state;
  }

  -- A commit returns the Draft's State as one formal revision when the final Check leaves nothing
  -- open, the State is supported, complete in the initial stage, loses no evaluated dimension and
  -- is the same in a frozen stage, and the two States have one digest only when they are equal.
  pub commit-succeeds :
      (final_check : GroundingCheckResponse)
      → is_open_check final_check ≡ false
      → ((d : GroundingDimension)
          → is_evaluated formal.grounding_state d ≡ true
          → is_evaluated draft.grounding_state d ≡ true)
      → (is_frozen_stage formal.stage ≡ true → formal.grounding_state ≡ draft.grounding_state)
      → NoCollision externals.sha256 formal.grounding_state draft.grounding_state
      → commit_sql_grounding_draft externals formal draft context final_check
        ≡ ok (record {
          grounding_revision =
              formal.grounding_revision
              + revision_step formal.grounding_state draft.grounding_state;
          stage = formal.stage;
          focus_dimension = FocusDimension.none;
          grounding_state = draft.grounding_state;
        })
  unfolding commit_sql_grounding_draft
  commit-succeeds final_check closed kept frozen sound =
      let diff : IsAllowedDiff formal.grounding_state draft.grounding_state
          (full_authorization formal) =
        record { authorized = λ d _. every_dimension d; frozen = frozen; kept = kept } in
      rw
        (
          closed,
          IsSupported→validate-ok externals.sql draft.grounding_state context supported,
          contract-ok formal.stage complete,
          IsAllowedDiff→transition-ok formal.grounding_state draft.grounding_state
              (full_authorization formal) diff,
          make_runtime-final
              (formal.grounding_revision
                + revision_step formal.grounding_state draft.grounding_state)
              formal.stage draft.grounding_state complete,
        )
        (IsAllowedStep→ok externals.sha256 formal committed (full_authorization formal) sound
          (record { same_stage = refl; diff = diff; revision = refl }))
