-- ===== src/Callbacks/Policy/Budget.antt =====
-- grounding_callbacks.py: what a focus with a budget decides.
use valibra.Prelude.{
  ◌≡◌, ◌⊎◌, ◌&&◌, refl, String, Bool, true, false, ◌||◌, Option, none, some, List, [], ◌∷◌,
  is_empty, contains, contains-cons, ok, raise_if-eq-ok, split_steps, ok_injective, subst,
  Bool-cases, inl, inr, string_eq, nat_eq, eq_of_beq, ◌==◌, if◌then◌else◌, arith, ap, ◌∙◌,
}
use valibra.Prelude.Json.{Json, null, bool, int, float, text, arr, obj, Fields, get}
use valibra.Models.Vocabulary.{FocusDimension, stage_eq, focus_eq}
use valibra.Control.{tool_directions_for_focus}
use valibra.Callbacks.Session.{Session}
use valibra.Callbacks.Policy.{
  checked_cost, checked_budget, blocked, budget_liveness_bypass, GateExecutionPolicy, tool_cost,
  affordable, budget_policy, budget_amount, cost_table, focused_policy,
}

module _ {Amount : Type 0} (finite : Json → Option Amount) (is_within : Amount → Amount → Bool)
    (is_negative : Amount → Bool) where
  checked_cost-ok :
      (found : Option Amount) {cost : Amount}
      → checked_cost finite is_within is_negative found ≡ ok cost
      → (found ≡ some cost) × (is_negative cost ≡ false)
  unfolding checked_cost
  checked_cost-ok none h = cc
  checked_cost-ok (some amount) {cost = cost} h =
      let (a, k) = raise_if-eq-ok (is_negative amount) _ _ h in
      let same : amount ≡ cost = ok_injective k in
      (ap some same, subst (λ c. is_negative c ≡ false) same a)

  -- The value under the direction's name is a finite cost that is not negative.
  abbrev pub HasCost : Fields → String → Amount → Type 0
  HasCost costs direction cost =
      (value : Json) × (get direction costs ≡ some value)
      × (finite value ≡ some cost)
      × (is_negative cost ≡ false)

  tool_cost-HasCost :
      (costs : Fields) (d : String) (stored : Option Json) {cost : Amount}
      → get d costs ≡ stored
      → tool_cost finite is_within is_negative stored ≡ ok cost
      → HasCost costs d cost
  unfolding tool_cost
  tool_cost-HasCost costs d none g h = cc
  tool_cost-HasCost costs d (some value) g h =
      let (found, positive) = checked_cost-ok (finite value) h in (value, g, found, positive)

  affordable-HasCost :
      (costs : Fields) (budget : Amount) (directions : List String) {found : List String}
      → affordable finite is_within is_negative costs budget directions ≡ ok found
      → (d : String) → contains d directions ≡ true
      → (cost : Amount) × HasCost costs d cost
  unfolding affordable
  affordable-HasCost costs budget [] h d m = unfold contains in cc
  affordable-HasCost costs budget (x ∷ xs) h d m =
      split_steps (tool_cost finite is_within is_negative (get x costs)) _ h λ cost e k.
        split_steps (affordable finite is_within is_negative costs budget xs) _ k λ rest e2 k2.
          elim (contains-cons d x xs m) [
            | inl q ↦
                let its = tool_cost-HasCost costs x (get x costs) refl e in
                subst (λ y. (c : Amount) × HasCost costs y c) q (cost, its)
            | inr q ↦ affordable-HasCost costs budget xs e2 d q
          ]

  unfoldable pub is_amount_within : Amount → Option Amount → Bool
  is_amount_within budget none = false
  is_amount_within budget (some cost) = is_within cost budget

  unfoldable pub is_stored_within : Amount → Option Json → Bool
  is_stored_within budget none = false
  is_stored_within budget (some value) = is_amount_within budget (finite value)

  -- Whether the cost stored for the direction is within the budget.
  abbrev pub is_covered : Fields → Amount → String → Bool
  is_covered costs budget direction = is_stored_within budget (get direction costs)

  covered_by :
      (costs : Fields) (budget : Amount) (d : String) (cost : Amount)
      → HasCost costs d cost
      → is_covered costs budget d ≡ is_within cost budget
  unfolding is_stored_within is_amount_within
  covered_by costs budget d cost (value, g, f, n) = rw (g, f)

  -- Those found are the directions whose cost is within the budget.
  affordable-is_covered :
      (costs : Fields) (budget : Amount) (directions : List String) {found : List String}
      → affordable finite is_within is_negative costs budget directions ≡ ok found
      → (d : String) → contains d found ≡ (contains d directions && is_covered costs budget d)
  unfolding affordable contains
  affordable-is_covered costs budget [] h d =
      subst (λ z. contains d z ≡ false) (ok_injective h) refl
  affordable-is_covered costs budget (x ∷ xs) {found = found} h d =
      split_steps (tool_cost finite is_within is_negative (get x costs)) _ h λ cost e k.
        split_steps (affordable finite is_within is_negative costs budget xs) _ k λ rest e2 k2.
          let same : (if is_within cost budget then x ∷ rest else rest) ≡ found = ok_injective k2 in
          let others = affordable-is_covered costs budget xs e2 d in
          let own : is_covered costs budget x ≡ is_within cost budget =
            covered_by costs budget x cost (tool_cost-HasCost costs x (get x costs) refl e) in
          subst (λ z. contains d z ≡ ((x == d || contains d xs) && is_covered costs budget d)) same
            (elim (Bool-cases (x == d)) [
              | inl p ↦
                  let it : is_covered costs budget d ≡ is_within cost budget =
                    subst (λ y. is_covered costs budget y ≡ is_within cost budget) (eq_of_beq x d p)
                      own in
                  elim (Bool-cases (is_within cost budget)) [
                    | inl w ↦ rw (w, p, it, w)
                    | inr w ↦
                        let uncovered : is_covered costs budget d ≡ false = it ∙ w in
                        let absent : contains d rest ≡ false = ground arith in
                        rw (w, p, uncovered) absent
                  ]
              | inr p ↦ elim (Bool-cases (is_within cost budget)) [
                | inl w ↦ rw (w, p) others
                | inr w ↦ rw (w, p) others
              ]
            ])

  -- What a focused policy says. The budget is the session's `budget_remaining` and every direction of
  -- the focus has its cost in the table of costs; both are the policy's own.
  pub record IsBudgeted (focus : FocusDimension) (s : Session) (tool_costs : Json)
      (policy : GateExecutionPolicy Amount) : Type 0 where
    pub stored : Json
    pub budget : Amount
    pub costs : Fields
    pub has_budget : get "budget_remaining" s ≡ some stored
    pub is_finite : finite stored ≡ some budget
    pub has_table : tool_costs ≡ obj costs
    pub reports_budget : policy.budget_remaining ≡ some budget
    pub reports_directions : policy.focus_directions ≡ tool_directions_for_focus focus
    pub has_costs :
        (d : String)
        → contains d (tool_directions_for_focus focus) ≡ true
        → (cost : Amount) × HasCost costs d cost
    pub affords :
        (d : String)
        → contains d policy.affordable_directions
          ≡ (contains d (tool_directions_for_focus focus) && is_covered costs budget d)
    pub decides :
        ((policy.action ≡ blocked) × (is_empty policy.affordable_directions ≡ false))
        ⊎ ((policy.action ≡ budget_liveness_bypass)
            × (is_empty policy.affordable_directions ≡ true))

  checked_budget-ok :
      (found : Option Amount) {budget : Amount}
      → checked_budget finite is_within is_negative found ≡ ok budget
      → found ≡ some budget
  unfolding checked_budget
  checked_budget-ok none h = cc
  checked_budget-ok (some amount) h = ap some (ok_injective h)

  budget_amount-ok :
      (found : Option Json) {budget : Amount}
      → budget_amount finite is_within is_negative found ≡ ok budget
      → (stored : Json) × (found ≡ some stored) × (finite stored ≡ some budget)
  unfolding budget_amount
  budget_amount-ok none h = cc
  budget_amount-ok (some stored) h = (stored, refl, checked_budget-ok (finite stored) h)

  cost_table-ok :
      (table : Json) {costs : Fields}
      → cost_table finite is_within is_negative table ≡ ok costs
      → table ≡ obj costs
  unfolding cost_table
  cost_table-ok (obj costs) h = ap obj (ok_injective h)
  cost_table-ok null h = cc
  cost_table-ok (bool _) h = cc
  cost_table-ok (int _) h = cc
  cost_table-ok (float _) h = cc
  cost_table-ok (text _) h = cc
  cost_table-ok (arr _) h = cc

  -- The fields of a decision, by what was found.
  decided :
      (directions : List String) (budget : Amount) (found : List String)
      → let policy = budget_policy finite is_within is_negative directions budget found in
        (policy.budget_remaining ≡ some budget)
        × (policy.focus_directions ≡ directions)
        × (policy.affordable_directions ≡ found)
        × (((policy.action ≡ blocked) × (is_empty policy.affordable_directions ≡ false))
            ⊎ ((policy.action ≡ budget_liveness_bypass)
                × (is_empty policy.affordable_directions ≡ true)))
  decided directions budget [] = (refl, refl, refl, inr (refl, refl))
  decided directions budget (d ∷ found) = (refl, refl, refl, inl (refl, refl))

  pub focused :
      (focus : FocusDimension) (s : Session) (tool_costs : Json) {p : GateExecutionPolicy Amount}
      → focused_policy finite is_within is_negative focus s tool_costs ≡ ok p
      → IsBudgeted focus s tool_costs p
  unfolding focused_policy
  focused focus s tool_costs {p = p} h =
      let directions = tool_directions_for_focus focus in
      let (a, k0) = raise_if-eq-ok (is_empty directions) _ _ h in
      split_steps (budget_amount finite is_within is_negative (get "budget_remaining" s)) _ k0
        λ budget e1 k1.
          split_steps (cost_table finite is_within is_negative tool_costs) _ k1 λ costs e2 k2.
            split_steps (affordable finite is_within is_negative costs budget directions) _ k2
              λ found e3 k3.
                let same : budget_policy finite is_within is_negative directions budget found ≡ p =
                  ok_injective k3 in
                let (stored, has_budget, is_finite) =
                  budget_amount-ok (get "budget_remaining" s) e1 in
                let (budgeted, directed, afforded, decides) = decided directions budget found in
                subst (IsBudgeted focus s tool_costs) same (record {
                  stored = stored;
                  budget = budget;
                  costs = costs;
                  has_budget = has_budget;
                  is_finite = is_finite;
                  has_table = cost_table-ok tool_costs e2;
                  reports_budget = budgeted;
                  reports_directions = directed;
                  has_costs = affordable-HasCost costs budget directions e3;
                  affords = λ d.
                      ap (contains d) afforded ∙ affordable-is_covered costs budget directions e3 d;
                  decides = decides;
                })
