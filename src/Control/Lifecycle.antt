-- ===== src/Control/Lifecycle.antt =====
-- The stages that `transition_grounding_stage` moves a Runtime through.
use valibra.Prelude.{
  ℕ, ◌≤◌, ◌≡◌, ◌⊎◌, inl, inr, refl, sym, ◌∙◌, subst, ap, ok_injective, Bool, true, [], arith, Eq,
  ◌==◌, ok, Bool-cases,
}
use valibra.Models.Vocabulary.{
  GroundingStage, FocusDimension, GroundingDimension, stage_eq, focus_eq,
}
use valibra.Models.Types.{SqlGroundingState, GroundingRuntime, StateDiffAuthorization}
use valibra.Models.State.{all_dimensions_evaluated}
use valibra.Models.Transition.Laws.{Differs, changed_dimensions_self}
use valibra.Models.Transition.Runtime.{IsAllowedStep→ok}
use valibra.Control.{
  StageEvent, grounding_completed, official_submit_failed, official_p2_follow_up,
  official_task_completed, move_to, transition_grounding_stage,
}

-- The lifecycle as a relation: what each event asks of the stage before, and the stage after.
-- `forced` is `allow_initial_forced_exit`.
pub data StageStep (forced : Bool) : GroundingRuntime → StageEvent → GroundingStage → Type 0 where
  complete :
      {r : GroundingRuntime}
      → r.stage ≡ GroundingStage.initial_grounding
      → all_dimensions_evaluated r.grounding_state ≡ true
      → r.focus_dimension ≡ FocusDimension.none
      → StageStep forced r grounding_completed GroundingStage.sql_attempt
  failed_attempt :
      {r : GroundingRuntime} {s : GroundingStage}
      → (r.stage ≡ GroundingStage.sql_attempt) ⊎ (r.stage ≡ GroundingStage.p2_incremental)
      → s ≡ r.stage
      → StageStep forced r official_submit_failed s
  failed_early :
      {r : GroundingRuntime} {s : GroundingStage}
      → forced ≡ true
      → r.stage ≡ GroundingStage.initial_grounding
      → s ≡ r.stage
      → StageStep forced r official_submit_failed s
  follow_up :
      {r : GroundingRuntime}
      → r.stage ≡ GroundingStage.sql_attempt
      → StageStep forced r official_p2_follow_up GroundingStage.p2_incremental
  follow_up_early :
      {r : GroundingRuntime}
      → forced ≡ true
      → r.stage ≡ GroundingStage.initial_grounding
      → StageStep forced r official_p2_follow_up GroundingStage.p2_incremental
  task_completed :
      {r : GroundingRuntime} → StageStep forced r official_task_completed GroundingStage.done

pub ruleset stage_steps =
    (complete, failed_attempt, failed_early, follow_up, follow_up_early, task_completed)

not_Differs_self : (p : SqlGroundingState) (d : GroundingDimension) → ¬ Differs p p d
not_Differs_self p GroundingDimension.tables h = h refl
not_Differs_self p GroundingDimension.join_keys h = h refl
not_Differs_self p GroundingDimension.column_mapping h = h refl
not_Differs_self p GroundingDimension.domain_knowledge h = h refl

module _ {Digest : Type 0} ⦃e : Eq Digest⦄ (sha256 : SqlGroundingState → Digest) where
  -- A change of the stage alone passes the Runtime validator.
  pub move_to-ok :
      (r : GroundingRuntime) (stage : GroundingStage)
      → move_to sha256 r stage ≡ ok (record r { stage = stage })
  unfolding move_to
  move_to-ok r stage =
      let candidate : GroundingRuntime = record r { stage = stage } in
      let authorization : StateDiffAuthorization = record {
        stage = r.stage;
        authorized_dimensions = [];
      } in
      rw (
        IsAllowedStep→ok sha256 r candidate authorization (λ _. refl)
          (record {
            same_stage = refl;
            diff = record {
              authorized = λ d q. absurd (not_Differs_self r.grounding_state d q);
              frozen = λ _. refl;
              kept = λ d q. q;
            };
            revision = rw (changed_dimensions_self r.grounding_state) (omega arith);
          }))

  -- Every step of the lifecycle relation is accepted as a control event, and yields the Runtime
  -- with the new stage.
  pub StageStep→transition-ok :
      {forced : Bool} {r : GroundingRuntime} {event : StageEvent} {s : GroundingStage}
      → StageStep forced r event s
      → transition_grounding_stage sha256 r event forced ≡ ok (record r { stage = s })
  unfolding transition_grounding_stage
  StageStep→transition-ok {r = r} (complete a b c) =
      ground (arith, move_to-ok r GroundingStage.sql_attempt)
  StageStep→transition-ok {r = r} {s = s} (failed_attempt a b) =
      rw b (ground (arith, move_to-ok r r.stage))
  StageStep→transition-ok {r = r} {s = s} (failed_early a b c) =
      rw c (ground (arith, move_to-ok r r.stage))
  StageStep→transition-ok {r = r} (follow_up a) =
      ground (arith, move_to-ok r GroundingStage.p2_incremental)
  StageStep→transition-ok {r = r} (follow_up_early a b) =
      ground (arith, move_to-ok r GroundingStage.p2_incremental)
  StageStep→transition-ok {r = r} task_completed = ground (arith, move_to-ok r GroundingStage.done)

  arrives :
      {forced : Bool} {r r' : GroundingRuntime} {event : StageEvent} {stage : GroundingStage}
      → transition_grounding_stage sha256 r event forced ≡ ok r'
      → StageStep forced r event stage
      → StageStep forced r event r'.stage × (r' ≡ record r { stage = r'.stage })
  arrives {forced} {r} {r'} {event} {stage} h step =
      let t : record r { stage = stage } ≡ r' =
        ok_injective (sym (StageStep→transition-ok step) ∙ h) in
      subst
        (λ (x : GroundingRuntime).
          StageStep forced r event x.stage × (x ≡ record r { stage = x.stage }))
        t (step, refl)

  -- A control event that is accepted is a step of the lifecycle relation from the Runtime before
  -- to the stage after, and it changes nothing of the Runtime but the stage.
  pub transition-ok→StageStep :
      (forced : Bool) (r : GroundingRuntime) (event : StageEvent) {r' : GroundingRuntime}
      → transition_grounding_stage sha256 r event forced ≡ ok r'
      → StageStep forced r event r'.stage × (r' ≡ record r { stage = r'.stage })
  unfolding transition_grounding_stage
  transition-ok→StageStep forced r grounding_completed h =
      arrives h (complete (ground arith) (ground arith) (ground arith))
  transition-ok→StageStep forced r official_submit_failed h =
      elim (Bool-cases (r.stage == GroundingStage.initial_grounding)) [
        | inl p ↦ arrives h (failed_early (ground arith) (ground arith) refl)
        | inr p ↦ arrives h (failed_attempt (ground arith) refl)
      ]
  transition-ok→StageStep forced r official_p2_follow_up h =
      elim (Bool-cases (r.stage == GroundingStage.initial_grounding)) [
        | inl p ↦ arrives h (follow_up_early (ground arith) (ground arith))
        | inr p ↦ arrives h (follow_up (ground arith))
      ]
  transition-ok→StageStep forced r official_task_completed h = arrives h task_completed

  -- A sequence of control events, each with its own permission of a forced exit.
  pub data Lives (r : GroundingRuntime) : GroundingRuntime → Type 0 where
    here : Lives r r
    next :
        {s t : GroundingRuntime} (forced : Bool) (event : StageEvent)
        → Lives r s
        → transition_grounding_stage sha256 s event forced ≡ ok t
        → Lives r t

-- The order of the stages.
abbrev pub stage_rank : GroundingStage → ℕ
stage_rank GroundingStage.initial_grounding = 0
stage_rank GroundingStage.sql_attempt = 1
stage_rank GroundingStage.p2_incremental = 2
stage_rank GroundingStage.done = 3

pub stage_rank-step :
    {forced : Bool} {r : GroundingRuntime} {event : StageEvent} {s : GroundingStage}
    → StageStep forced r event s
    → stage_rank r.stage ≤ stage_rank s
stage_rank-step (complete a b c) = ground arith
stage_rank-step (failed_attempt a b) = ground arith
stage_rank-step (failed_early a b c) = ground arith
stage_rank-step (follow_up a) = ground arith
stage_rank-step (follow_up_early a b) = ground arith
stage_rank-step task_completed = ground arith

-- Only a complete State is attempted.
pub attempt_complete :
    {forced : Bool} {r : GroundingRuntime} {event : StageEvent} {s : GroundingStage}
    → StageStep forced r event s
    → s ≡ GroundingStage.sql_attempt
    → (r.stage ≡ GroundingStage.sql_attempt) ⊎ (all_dimensions_evaluated r.grounding_state ≡ true)
attempt_complete (complete a b c) h = inr b
attempt_complete (failed_attempt a b) h = ground arith
attempt_complete (failed_early a b c) h = ground arith
attempt_complete (follow_up a) h = cc
attempt_complete (follow_up_early a b) h = cc
attempt_complete task_completed h = cc

module _ {Digest : Type 0} ⦃e : Eq Digest⦄ (sha256 : SqlGroundingState → Digest) where
  -- Along any sequence of accepted control events the stage never moves back, in the order initial
  -- grounding, attempt, second phase, done, and nothing but the stage changes.
  pub lifecycle_forward :
      {r s : GroundingRuntime}
      → Lives sha256 r s
      → (stage_rank r.stage ≤ stage_rank s.stage) × (s ≡ record r { stage = s.stage })
  lifecycle_forward here = (omega arith, refl)
  lifecycle_forward {r} (next {s = s} {t = t} forced event before step) =
      let (up, same) = lifecycle_forward before in
      let (edge, changed) = transition-ok→StageStep sha256 forced s event step in
      let further = stage_rank-step edge in
      (omega arith, changed ∙ ap (λ (x : GroundingRuntime). record x { stage = t.stage }) same)
