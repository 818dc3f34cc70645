-- ===== src/Service/Run/Laws.antt =====
-- What holds along a session's Runtimes, whatever the order of calls, commits and control events.
use valibra.Prelude.{
  ◌+◌, ◌≤◌, ◌≡◌, ◌⊎◌, inl, inr, refl, sym, ◌∙◌, ap, subst, true, is_empty, Bool-cases, arith,
  string_eq,
}
use valibra.Models.Vocabulary.{GroundingStage, GroundingDimension, stage_eq}
use valibra.Models.Types.{SqlGroundingState, GroundingRuntime}
use valibra.Models.State.{all_dimensions_evaluated}
use valibra.Models.Transition.{is_evaluated, is_frozen_stage, changed_dimensions}
use valibra.Models.Transition.Laws.{changed_dimensions_self, eq_of_unchanged}
use valibra.Models.Transition.Runtime.{revision_step}
use valibra.Control.Lifecycle.{
  stage_rank, stage_rank-step, attempt_complete, transition-ok→StageStep,
}
use valibra.Service.Outcome.{Externals}
use valibra.Service.Process.Guarantees.{
  process-stage, process-frozen, process-revision, process-monotone,
}
use valibra.Service.Commit.Laws.{commit-IsCommitted}
use valibra.Service.Run.{RuntimeStep, called, committed, moved, Reaches, here, next}

-- What one step keeps.
record IsForward (s t : GroundingRuntime) : Type 0 where
  rank : stage_rank s.stage ≤ stage_rank t.stage
  kept :
      (d : GroundingDimension)
      → is_evaluated s.grounding_state d ≡ true
      → is_evaluated t.grounding_state d ≡ true
  revision :
      t.grounding_revision
      ≡ s.grounding_revision + revision_step s.grounding_state t.grounding_state
  frozen : is_frozen_stage s.stage ≡ true → t.grounding_state ≡ s.grounding_state
  completes :
      t.stage ≡ GroundingStage.sql_attempt
      → (s.stage ≡ GroundingStage.sql_attempt) ⊎ (all_dimensions_evaluated t.grounding_state ≡ true)

revision_step_self : (p : SqlGroundingState) → revision_step p p ≡ 0
revision_step_self p = rw (changed_dimensions_self p)

eq_of_no_step : (p c : SqlGroundingState) → revision_step p c ≡ 0 → p ≡ c
eq_of_no_step p c h = elim (Bool-cases (is_empty (changed_dimensions p c))) [
  | inl q ↦ eq_of_unchanged p c q
  | inr q ↦ ground arith
]

module _ (externals : Externals) where
  step-IsForward : {s t : GroundingRuntime} → RuntimeStep externals s t → IsForward s t
  step-IsForward {s} {t} (called o context affected input allow_repair propose result h same) =
      let stage = process-stage externals s o context affected input allow_repair propose h in
      subst (IsForward s) same (record {
        rank = rw stage (omega arith);
        kept = process-monotone externals s o context affected input allow_repair propose h;
        revision = process-revision externals s o context affected input allow_repair propose h;
        frozen = process-frozen externals s o context affected input allow_repair propose h;
        completes = λ at. inl (sym stage ∙ at);
      })
  step-IsForward {s} {t} (committed draft context final_check h) =
      let (closed, c) = commit-IsCommitted externals s draft context final_check h in
      record {
        rank = rw c.same_stage (omega arith);
        kept = λ d e. rw c.committed_state (c.kept d e);
        revision = rw c.committed_state c.revision;
        frozen = λ f. c.committed_state ∙ sym (c.frozen f);
        completes = λ at. inl (sym c.same_stage ∙ at);
      }
  step-IsForward {s} {t} (moved event forced h) =
      let (edge, changed) = transition-ok→StageStep externals.sha256 forced s event h in
      let state : t.grounding_state ≡ s.grounding_state =
        ap (λ (x : GroundingRuntime). x.grounding_state) changed in
      let revision : t.grounding_revision ≡ s.grounding_revision =
        ap (λ (x : GroundingRuntime). x.grounding_revision) changed in
      let still = revision_step_self s.grounding_state in
      record {
        rank = stage_rank-step edge;
        kept = λ d e. rw state e;
        revision = rw (state, still, revision) (omega arith);
        frozen = λ f. state;
        completes =
            λ at. elim (attempt_complete edge at) [ inl q ↦ inl q | inr q ↦ inr (rw state q) ];
      }

  -- However Grounding calls that return, commits of a Draft and accepted control events follow one
  -- another, the stage never moves back in the order initial grounding, attempt, second phase,
  -- done, the revision never falls, and a dimension that is evaluated at the start is evaluated at
  -- the end.
  pub session_forward :
      {r s : GroundingRuntime}
      → Reaches externals r s
      → (stage_rank r.stage ≤ stage_rank s.stage)
        × (r.grounding_revision ≤ s.grounding_revision)
        × ((d : GroundingDimension)
            → is_evaluated r.grounding_state d ≡ true
            → is_evaluated s.grounding_state d ≡ true)
  session_forward here = (omega arith, omega arith, λ d e. e)
  session_forward (next {s = s} {t = t} before step) =
      let (rank, revision, kept) = session_forward before in
      let forward = step-IsForward step in
      let up = forward.rank in
      let counted = forward.revision in (omega arith, omega arith, λ d e. forward.kept d (kept d e))

  -- However Grounding calls that return, commits of a Draft and accepted control events follow one
  -- another, if the Runtime at the end has the revision of the Runtime at the start, then it has
  -- the same State.
  pub session_same_revision :
      {r s : GroundingRuntime}
      → Reaches externals r s
      → r.grounding_revision ≡ s.grounding_revision
      → r.grounding_state ≡ s.grounding_state
  session_same_revision here h = refl
  session_same_revision {r} (next {s = s} {t = t} before step) h =
      let (_, revision, _) = session_forward before in
      let counted = (step-IsForward step).revision in
      let same : r.grounding_revision ≡ s.grounding_revision = omega arith in
      let still : revision_step s.grounding_state t.grounding_state ≡ 0 = omega arith in
      session_same_revision before same ∙ eq_of_no_step s.grounding_state t.grounding_state still

  -- However Grounding calls that return, commits of a Draft and accepted control events follow one
  -- another, and whatever exits are forced, a session that starts in INITIAL_GROUNDING and ends in
  -- SQL_ATTEMPT ends with every dimension of its State evaluated.
  pub session_attempt_complete :
      {r s : GroundingRuntime}
      → Reaches externals r s
      → r.stage ≡ GroundingStage.initial_grounding
      → s.stage ≡ GroundingStage.sql_attempt
      → all_dimensions_evaluated s.grounding_state ≡ true
  session_attempt_complete here h k = ground arith
  session_attempt_complete {r} (next {s = s} {t = t} before step) h k =
      let forward = step-IsForward step in
      elim (forward.completes k) [
        | inl q ↦
            let complete = session_attempt_complete before h q in
            rw (forward.frozen (rw q refl)) complete
        | inr q ↦ q
      ]
