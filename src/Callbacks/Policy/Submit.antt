-- ===== src/Callbacks/Policy/Submit.antt =====
-- grounding_callbacks.py: what the Official flags of the session say when a submit raises an event.
use valibra.Prelude.{
  ℕ, ◌≡◌, ◌⊎◌, refl, String, Bool, true, false, not, ◌&&◌, none, some, ok, split_steps,
  ok_injective, subst, Bool-cases, inl, inr, nat_eq, ◌==◌, if◌then◌else◌, arith, sym, ap,
}
use valibra.Observations.{ObservationType}
use valibra.Control.{
  StageEvent, official_submit_failed, official_p2_follow_up, official_task_completed,
}
use valibra.Callbacks.Session.{Session}
use valibra.Callbacks.Policy.{
  SubmitOutcome, submit_outcome, inconsistent, official_bool, classify_submit, is_tool_error,
  read_submit, official_submit_control_event,
}

-- What each event takes for granted of the phases and the three flags.
abbrev pub FlagsOf : ℕ → ℕ → Bool → Bool → Bool → StageEvent → Type 0
FlagsOf before after p1 p2 done official_task_completed =
    (done ≡ true) × (after ≡ 2) × ((if before == 1 then p1 else p2) ≡ true)
FlagsOf before after p1 p2 done official_p2_follow_up =
    (done ≡ false) × (before ≡ 1) × (after ≡ 2) × (p1 ≡ true) × (p2 ≡ false)
FlagsOf before after p1 p2 done official_submit_failed =
    (done ≡ false)
    × (after ≡ (if before == 1 then 1 else 2))
    × ((if before == 1 then p1 else p2) ≡ false)
FlagsOf before after p1 p2 done _ = ⊥

module _ (before after : ℕ) (p1 p2 done : Bool) where
  abbrev Classified : SubmitOutcome → Type 0
  Classified o =
      ((o.event ≡ none) × (e : String) × (o.error ≡ some e))
      ⊎ ((event : StageEvent) × (o.event ≡ some event)
          × (o.error ≡ none)
          × FlagsOf before after p1 p2 done event)

  choose :
      (t : Bool) (label : String) (event : StageEvent) (rest : SubmitOutcome)
      → (t ≡ true → FlagsOf before after p1 p2 done event)
      → Classified rest
      → Classified (if t then submit_outcome label event else rest)
  choose true label event rest h k = inr (event, refl, refl, h refl)
  choose false label event rest h k = k

  nothing : Classified inconsistent
  nothing = inl (refl, "OfficialSubmitStateError", refl)

  classified : Classified (classify_submit before after p1 p2 done)
  unfolding classify_submit
  classified = elim (Bool-cases (before == 1)) [
    | inl b ↦ rw (b) (
        choose (done && p1 && not p2 && after == 2) _ official_task_completed _ (λ t. ground arith)
          (choose (not done && p1 && not p2 && after == 2) _ official_p2_follow_up _
            (λ t. ground arith)
            (choose (not done && not p1 && not p2 && after == 1) _ official_submit_failed _
              (λ t. ground arith) nothing)))
    | inr b ↦ rw (b) (
        choose (done && p2 && after == 2) _ official_task_completed _ (λ t. ground arith)
          (choose (not done && not p2 && after == 2) _ official_submit_failed _ (λ t. ground arith)
            nothing))
  ]

-- A submit that is classified either raises no event and names an error, or raises an event, names
-- none, and the flags of the session read: for a completed task it is done after phase 2 with the
-- phase it came from completed, for a follow-up only the first phase is completed and the task is
-- not done, and for a failed submit the task is not done, the phase is as it was and is not
-- completed.
pub official_submit_control_event-IsClassified :
    (before after : ℕ) (kind : ObservationType) (s : Session) {o : SubmitOutcome}
    → official_submit_control_event before after kind s ≡ ok o
    → ((o.event ≡ none) × (e : String) × (o.error ≡ some e))
      ⊎ ((event : StageEvent) × (p1 : Bool) × (p2 : Bool) × (done : Bool) × (o.event ≡ some event)
          × (o.error ≡ none)
          × (official_bool "phase1_completed" s ≡ ok p1)
          × (official_bool "phase2_completed" s ≡ ok p2)
          × (official_bool "task_done" s ≡ ok done)
          × FlagsOf before after p1 p2 done event)
unfolding official_submit_control_event read_submit
official_submit_control_event-IsClassified before after kind s {o = o} h =
    elim (Bool-cases (is_tool_error kind)) [
      | inl t ↦
          let made : SubmitOutcome = record {
            label = "tool_error";
            event = none;
            error = some "OfficialToolError";
          } in
          let same : made ≡ o = ok_injective (rw t at h) in
          inl (
            sym (ap (λ (x : SubmitOutcome). x.event) same),
            "OfficialToolError",
            sym (ap (λ (x : SubmitOutcome). x.error) same),
          )
      | inr t ↦ split_steps (official_bool "phase1_completed" s) _ (rw t at h) λ p1 e1 k1.
          split_steps (official_bool "phase2_completed" s) _ k1 λ p2 e2 k2.
            split_steps (official_bool "task_done" s) _ k2 λ done e3 k3.
              let same : classify_submit before after p1 p2 done ≡ o = ok_injective k3 in
              elim (subst (Classified before after p1 p2 done) same
                (classified before after p1 p2 done)) [
                  | inl c ↦ inl c
                  | inr (event, a, b, c) ↦ inr (event, p1, p2, done, a, b, e1, e2, e3, c)
                ]
    ]
