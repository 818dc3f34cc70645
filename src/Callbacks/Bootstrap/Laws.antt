-- ===== src/Callbacks/Bootstrap/Laws.antt =====
-- grounding_callbacks.py: the order of the bootstrap tools, and of the numbers of the sequence.
use valibra.Prelude.{
  ℕ, suc, ◌≡◌, refl, String, Bool, true, not, ◌||◌, Option, none, some, List, [], ◌∷◌, ◌++◌, length,
  inl, inr, Bool-cases, eq_of_beq, string_eq, ◌==◌, ◌!=◌, nat_eq, Result, ok, split_steps, subst,
  ok_injective, raise_if-eq-ok, arith,
}
use valibra.Prelude.Json.{pos, Json, int, get}
use valibra.Models.Vocabulary.{GroundingStage, stage_eq}
use valibra.Models.Types.{GroundingRuntime}
use valibra.Callbacks.Values.{Failure}
use valibra.Callbacks.Session.{Session, put, get-put_self}
use valibra.Callbacks.Trajectory.{CompletedEvent, completed_sql_grounding_trajectory, is_in_phase}
use valibra.Callbacks.Providers.{first, provider_phase_stage_call_count}
use valibra.Callbacks.Outcomes.{selected_phase}
use valibra.Callbacks.Records.{bootstrap_tool_sequence}
use valibra.Callbacks.Bootstrap.{
  request_exposes_bootstrap_tools, observed_tools, left_over, next_of, observed_next_tool,
  next_bootstrap_tool, sequence_key, sequence_after, next_sequence,
}

left_over-split :
    (tools sequence : List String) {rest : List String}
    → left_over tools sequence ≡ some rest
    → tools ++ rest ≡ sequence
unfolding left_over
left_over-split [] sequence h = cc
left_over-split (tool ∷ tools) [] h = cc
left_over-split (tool ∷ tools) (expected ∷ sequence) h = elim (Bool-cases (tool == expected)) [
  | inl p ↦
      let same = eq_of_beq tool expected p in
      let rest = left_over-split tools sequence (rw p at h) in cc
  | inr p ↦ let no : none ≡ some _ = rw p at h in cc
]

-- The tool comes after those seen, and each of these has had its Grounding call in the first phase.
abbrev pub IsNext : List String → Session → String → Type 0
IsNext seen s tool =
    (rest : List String) × (seen ++ (tool ∷ rest) ≡ bootstrap_tool_sequence)
    × (provider_phase_stage_call_count first s ≡ ok (length seen))

next_of-IsNext :
    (seen : List String) (s : Session) (left : Option (List String)) {tool : String}
    → left_over seen bootstrap_tool_sequence ≡ left
    → next_of (length seen) s left ≡ ok (some tool)
    → IsNext seen s tool
unfolding next_of
next_of-IsNext seen s none l h = cc
next_of-IsNext seen s (some []) l h = cc
next_of-IsNext seen s (some (t ∷ rest)) {tool = tool} l h =
    split_steps (provider_phase_stage_call_count first s) _ h λ calls counted k.
      let (same, last) = raise_if-eq-ok (calls != length seen) _ _ k in
      let counts : calls ≡ length seen = ground arith in
      let found : t ≡ tool = cc in
      (
        rest,
        subst (λ x. seen ++ (x ∷ rest) ≡ bootstrap_tool_sequence) found
            (left_over-split seen bootstrap_tool_sequence l),
        cc,
      )

module _ (digest : Json → Result Failure String) (real_provider : Bool) where
  -- A bootstrap tool is asked for in the initial stage under a real provider alone, it is the one
  -- that follows the bootstrap tools of the completed trajectory in the fixed order, and the first
  -- phase has had as many staged Grounding calls as there are of these.
  pub next_bootstrap_tool-IsNext :
      (s : Session) (runtime : GroundingRuntime) (tools : Option (List String)) {tool : String}
      → next_bootstrap_tool digest real_provider s runtime tools ≡ ok (some tool)
      → (real_provider ≡ true)
        × (runtime.stage == GroundingStage.initial_grounding ≡ true)
        × (events : List CompletedEvent) × (completed_sql_grounding_trajectory digest s ≡ ok events)
        × IsNext (observed_tools events) s tool
  unfolding next_bootstrap_tool observed_next_tool
  next_bootstrap_tool-IsNext s runtime tools h =
      elim (Bool-cases (not real_provider || runtime.stage != GroundingStage.initial_grounding)) [
        | inl p ↦
            let no : ◌≡◌ {A = Result Failure (Option String)} (ok none) (ok (some _)) = rw p at h in
            cc
        | inr p ↦ split_steps (selected_phase none s) _ (rw p at h) λ phase selected k.
            elim (Bool-cases
              (not (is_in_phase 1 phase) || not (request_exposes_bootstrap_tools tools))) [
                | inl q ↦
                    let no : ◌≡◌ {A = Result Failure (Option String)} (ok none) (ok (some _)) =
                      rw q at k in
                    cc
                | inr q ↦
                    split_steps (completed_sql_grounding_trajectory digest s) _ (rw q at k)
                      λ events completed last. (
                        ground arith,
                        ground arith,
                        events,
                        completed,
                        next_of-IsNext (observed_tools events) s _ refl last,
                      )
              ]
      ]

sequence_after-is_suc : (n : ℕ) {m : ℕ} → sequence_after (some (int (pos n))) ≡ ok m → m ≡ suc n
unfolding sequence_after
sequence_after-is_suc n h = ground arith

next_sequence-puts :
    (s : Session) {n : ℕ} {t : Session}
    → next_sequence s ≡ ok (n, t)
    → (sequence_after (get sequence_key s) ≡ ok n) × (t ≡ put sequence_key (int (pos n)) s)
unfolding next_sequence
next_sequence-puts s {n = n} {t = t} h =
    split_steps (sequence_after (get sequence_key s)) _ h λ a e last.
      let both : (a, put sequence_key (int (pos a)) s) ≡ (n, t) = ok_injective last in
      let number : a ≡ n = cc in let session : put sequence_key (int (pos a)) s ≡ t = cc in (cc, cc)

-- Two numbers in a row differ by one.
pub next_sequence-ascends :
    (s : Session) {n m : ℕ} {t u : Session}
    → next_sequence s ≡ ok (n, t)
    → next_sequence t ≡ ok (m, u)
    → m ≡ suc n
next_sequence-ascends s {n = n} h k =
    let (_, kept) = next_sequence-puts s h in
    let (number, _) = next_sequence-puts _ k in
    let read = get-put_self sequence_key (int (pos n)) s in sequence_after-is_suc n cc
