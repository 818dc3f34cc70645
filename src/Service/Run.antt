-- ===== src/Service/Run.antt =====
-- service.py and control.py: the ways in which a session replaces its Runtime, in any order. Each step
-- is one accepted call of the code on the Runtime that the step before left.
pub mod Laws
use valibra.Prelude.{string_eq, ◌≡◌, Bool, Option, List, ok}
use valibra.Prelude.Json.{Fields}
use valibra.Models.Vocabulary.{GroundingDimension}
use valibra.Models.Types.{GroundingRuntime, ValidationContext}
use valibra.Models.Forms.{GroundingCheckResponse}
use valibra.Control.{StageEvent, transition_grounding_stage}
use valibra.Observations.{SqlGroundingObservation}
use valibra.Updater.{Proposal}
use valibra.Service.Repair.{MappingRepairScope}
use valibra.Service.Outcome.{Externals, SqlGroundingServiceResult}
use valibra.Service.Process.{process_sql_grounding_observation}
use valibra.Service.Commit.{SqlGroundingDraftRuntime, commit_sql_grounding_draft}

module _ (externals : Externals) where
  -- A Grounding call that returns, a Draft that is committed, or an accepted control event. The
  -- observation, the context and the updater may be others in each step.
  pub data RuntimeStep (s t : GroundingRuntime) : Type 0 where
    called :
        (o : SqlGroundingObservation) (context : ValidationContext)
        (affected : List GroundingDimension) (input : Option Fields) (allow_repair : Bool)
        (propose : Option MappingRepairScope → Proposal) (result : SqlGroundingServiceResult)
        → process_sql_grounding_observation externals s o context affected input allow_repair
            propose
          ≡ ok result
        → result.runtime ≡ t
        → RuntimeStep s t
    committed :
        (draft : SqlGroundingDraftRuntime) (context : ValidationContext)
        (final_check : GroundingCheckResponse)
        → commit_sql_grounding_draft externals s draft context final_check ≡ ok t
        → RuntimeStep s t
    moved :
        (event : StageEvent) (forced : Bool)
        → transition_grounding_stage externals.sha256 s event forced ≡ ok t
        → RuntimeStep s t

  -- Any number of steps.
  pub data Reaches (r : GroundingRuntime) : GroundingRuntime → Type 0 where
    here : Reaches r r
    next : {s t : GroundingRuntime} → Reaches r s → RuntimeStep s t → Reaches r t
