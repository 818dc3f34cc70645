-- ===== src/Callbacks/Policy/Laws.antt =====
-- grounding_callbacks.py: when a policy lets a submit through a closed gate.
use valibra.Prelude.{
  ◌≡◌, ◌⊎◌, ◌≢◌, Bool, true, false, not, ◌||◌, Option, ok, ok_injective, Bool-cases, inl, inr,
  string_eq, nat_eq, eq_of_beq, beq_of_eq, ◌==◌, ◌!=◌, arith, sym, ap,
}
use valibra.Prelude.Json.{Json}
use valibra.Models.Vocabulary.{GroundingStage, FocusDimension, stage_eq, focus_eq}
use valibra.Models.Types.{GroundingRuntime}
use valibra.Control.{AttemptGateDecision}
use valibra.Callbacks.Session.{Session}
use valibra.Callbacks.Policy.{
  blocked, open_gate, GateExecutionPolicy, plain_policy, evaluate_gate_execution_policy,
}
use valibra.Callbacks.Policy.Budget.{IsBudgeted, focused}

module _ {Amount : Type 0} (finite : Json → Option Amount) (is_within : Amount → Amount → Bool)
    (is_negative : Amount → Bool) where
  -- When a policy for a submit is returned, the gate is not applicable or open and so is the
  -- policy, or it is closed and the stage or the focus leaves nothing to do and the submit is
  -- blocked, or it is closed in the initial stage with a focus. Then the budget is the session's
  -- finite `budget_remaining`, every tool direction of the focus has a finite cost that is not
  -- negative in the table of tool costs, the policy reports that budget and those directions, its
  -- affordable directions are exactly those whose cost is within the budget, and the submit is
  -- blocked when there is one and let through when there is none.
  pub evaluate_gate_execution_policy-IsBudgeted :
      (runtime : GroundingRuntime) (gate : AttemptGateDecision) (s : Session) (tool_costs : Json)
      {p : GateExecutionPolicy Amount}
      → evaluate_gate_execution_policy finite is_within is_negative runtime gate s tool_costs ≡ ok p
      → (((not gate.applicable || gate.is_open) ≡ true) × (p.action ≡ open_gate))
        ⊎ (((not gate.applicable || gate.is_open) ≡ false)
            × ((((runtime.stage != GroundingStage.initial_grounding
                      || runtime.focus_dimension == FocusDimension.none)
                    ≡ true)
                  × (p.action ≡ blocked))
                ⊎ ((runtime.stage ≡ GroundingStage.initial_grounding)
                    × (runtime.focus_dimension ≢ FocusDimension.none)
                    × IsBudgeted finite is_within is_negative runtime.focus_dimension s tool_costs
                        p)))
  unfolding evaluate_gate_execution_policy
  evaluate_gate_execution_policy-IsBudgeted runtime gate s tool_costs {p = p} h =
      elim (Bool-cases (not gate.applicable || gate.is_open)) [
        | inl a ↦
            let same : plain_policy finite is_within is_negative open_gate ≡ p =
              ok_injective (rw a at h) in
            inl (a, sym (ap (λ (x : GateExecutionPolicy Amount). x.action) same))
        | inr a ↦
            let h' = rw a at h in
            inr (
              a,
              elim (Bool-cases (
                  runtime.stage != GroundingStage.initial_grounding
                  || runtime.focus_dimension == FocusDimension.none)) [
                    | inl b ↦
                        let same : plain_policy finite is_within is_negative blocked ≡ p =
                          ok_injective (rw b at h') in
                        inl (b, sym (ap (λ (x : GateExecutionPolicy Amount). x.action) same))
                    | inr b ↦ inr (
                      eq_of_beq runtime.stage GroundingStage.initial_grounding (ground arith),
                      λ e.
                          let t = beq_of_eq runtime.focus_dimension FocusDimension.none e in
                          ground arith,
                      focused finite is_within is_negative runtime.focus_dimension s tool_costs
                          (rw b at h'),
                    )
                  ],
            )
      ]
