-- ===== src/Control/Gate.antt =====
-- When `evaluate_first_submit_gate` lets a submission through.
use valibra.Prelude.{ℕ, zero, suc, ◌≡◌, ◌↔◌, ◌⊎◌, refl, Bool, true, false, arith, Eq, ok}
use valibra.Prelude.Json.{pos}
use valibra.Models.Vocabulary.{GroundingStage, FocusDimension, stage_eq, focus_eq}
use valibra.Models.Types.{SqlGroundingState, GroundingRuntime}
use valibra.Models.State.{all_dimensions_evaluated}
use valibra.Control.{
  grounding_completed, AttemptGateDecision, ready, gate_without_pending, evaluate_first_submit_gate,
  transition_grounding_stage,
}
use valibra.Control.Lifecycle.{StageStep, complete, transition-ok→StageStep}

-- What a submission must satisfy, apart from open questions to the user.
abbrev pub MayAttempt : GroundingRuntime → Bool → Type 0
MayAttempt r first_submit =
    (first_submit ≡ false)
    ⊎ ((all_dimensions_evaluated r.grounding_state ≡ true)
        × (r.focus_dimension ≡ FocusDimension.none)
        × ((r.stage ≡ GroundingStage.initial_grounding) ⊎ (r.stage ≡ GroundingStage.sql_attempt)))

open_without_pending :
    (r : GroundingRuntime) (first : Bool) {d : AttemptGateDecision}
    → gate_without_pending r first ≡ ok d
    → (d.is_open ≡ true) ↔ MayAttempt r first
unfolding gate_without_pending
open_without_pending r first h = (λ k. ground arith, λ k. ground arith)

-- When the gate decides, it is open exactly if no clarification is pending and the submission is
-- not the first one or the State is complete, the focus is `none` and the stage is
-- INITIAL_GROUNDING or SQL_ATTEMPT.
pub gate-open_iff :
    (r : GroundingRuntime) (first : Bool) (pending : ℕ) {d : AttemptGateDecision}
    → evaluate_first_submit_gate r first (pos pending) ≡ ok d
    → (d.is_open ≡ true) ↔ ((pending ≡ 0) × MayAttempt r first)
unfolding evaluate_first_submit_gate
gate-open_iff r first zero h =
    let (f, g) = open_without_pending r first h in (λ k. (refl, f k), λ k. g k.1)
gate-open_iff r first (suc n) h = (λ k. ground arith, λ k. ground arith)

completion :
    {forced : Bool} {r : GroundingRuntime} {s : GroundingStage}
    → StageStep forced r grounding_completed s
    → (all_dimensions_evaluated r.grounding_state ≡ true)
      × (r.focus_dimension ≡ FocusDimension.none)
      × (s ≡ GroundingStage.sql_attempt)
completion (complete a b c) = (b, c, refl)

module _ {Digest : Type 0} ⦃e : Eq Digest⦄ (sha256 : SqlGroundingState → Digest) where
  -- After an accepted `grounding_completed` event the gate of the first submit is open and ready
  -- when no clarification is pending.
  pub completed-opens_gate :
      (forced : Bool) (r : GroundingRuntime) {r' : GroundingRuntime}
      → transition_grounding_stage sha256 r grounding_completed forced ≡ ok r'
      → evaluate_first_submit_gate r' true (pos 0)
        ≡ ok (record { applicable = true; is_open = true; reason = ready })
  unfolding evaluate_first_submit_gate gate_without_pending
  completed-opens_gate forced r {r'} h =
      let (edge, same) = transition-ok→StageStep sha256 forced r grounding_completed h in
      let (done, none', arrived) = completion edge in ground arith
