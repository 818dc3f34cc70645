-- ===== src/Callbacks/Trajectory/Laws.antt =====
-- grounding_callbacks.py: the submits that the trajectory counts.
use valibra.Prelude.{
  ℕ, suc, ◌+◌, ◌-◌, ◌≡◌, ◌≤◌, refl, String, true, false, not, ◌&&◌, Option, none, some, List, [],
  ◌∷◌, any, length, eq_of_beq, to_int, Result, ok, split_steps, ok_injective, Option-cases,
  Bool-cases, inl, inr, subst, string_eq, nat_eq, ◌==◌, arith, sym, ap, ◌∙◌, ◌>>=◌,
}
use valibra.Prelude.Json.{pos, negsuc, Json, null, bool, int, float, text, arr, obj, Fields}
use valibra.Observations.{ObservationType}
use valibra.Callbacks.Values.{Failure, value_of}
use valibra.Callbacks.Session.{Session}
use valibra.Callbacks.Trajectory.{
  CompletedEvent, tool_trajectory, drop_first, last_512, classify_tool_observation_type,
  classified_event, tool_event, completed_event, and_then, completed_events, completed_of,
  completed_sql_grounding_trajectory, is_in_phase, count_in_phase, official_submit_count_for_phase,
  is_submit_tool, is_submit_event, count_submits, required_trajectory, official_submit_count,
  is_first_official_submit,
}

any-count_submits :
    (events : List Json) → not (any is_submit_event events) ≡ (count_submits events == 0)
unfolding any count_submits
any-count_submits [] = refl
any-count_submits (event ∷ events) = ground (arith, any-count_submits events)

-- A submit is the first one exactly when the count of submits in the trajectory is 0, and where
-- the trajectory is no list both raise the same.
pub is_first_official_submit-official_submit_count :
    (s : Session) → is_first_official_submit s ≡ (official_submit_count s >>= λ n. ok (n == 0))
unfolding is_first_official_submit official_submit_count
is_first_official_submit-official_submit_count s = elim (Option-cases (tool_trajectory s)) [
  | inl p ↦ rw p
  | inr (events, p) ↦ rw (p, any-count_submits events)
]

count-drop_first :
    (phase : ℕ) (n : ℕ) (events : List CompletedEvent)
    → count_in_phase phase (drop_first n events) ≤ count_in_phase phase events
unfolding count_in_phase drop_first
count-drop_first phase n [] = ground arith
count-drop_first phase ℕ.zero (x ∷ xs) = ground arith
count-drop_first phase (suc n) (x ∷ xs) = let ih = count-drop_first phase n xs in omega arith

-- An event is in at most one of the phases.
one_phase : (j : Json) → to_int (is_in_phase 1 j) + to_int (is_in_phase 2 j) ≤ 1
one_phase (int (pos n)) = ground arith
one_phase (int (negsuc n)) = ground arith
one_phase (bool true) = ground arith
one_phase (bool false) = ground arith
one_phase (float s) = elim (Bool-cases (s == "1.0")) [
  | inl p ↦
      subst (λ x. to_int (is_in_phase 1 (float x)) + to_int (is_in_phase 2 (float x)) ≤ 1)
        (sym (eq_of_beq s "1.0" p)) (omega arith)
  | inr p ↦ ground arith
]
one_phase null = ground arith
one_phase (text _) = ground arith
one_phase (arr _) = ground arith
one_phase (obj _) = ground arith

module _ (digest : Json → Result Failure String) where
  -- The submits of one event, in either phase.
  abbrev in_phases : Option CompletedEvent → ℕ
  in_phases none = 0
  in_phases (some c) =
      to_int (c.tool_name == "submit_sql" && is_in_phase 1 c.phase)
      + to_int (c.tool_name == "submit_sql" && is_in_phase 2 c.phase)

  classified_submit :
      (i : ℕ) (event : Fields) (tool : String) (kind : Option ObservationType)
      {c : Option CompletedEvent}
      → classified_event digest i event tool kind ≡ ok c
      → in_phases c ≤ to_int (tool == "submit_sql")
  unfolding classified_event
  classified_submit i event tool none {c = c} h =
      let same : none ≡ c = ok_injective h in
      subst (λ x. in_phases x ≤ to_int (tool == "submit_sql")) same (omega arith)
  classified_submit i event tool (some kind) {c = c} h =
      split_steps (digest (value_of "result" event)) _ h λ d e k.
        let made : Option CompletedEvent = some (record {
          tool_name = tool;
          observation_type = kind;
          content = value_of "result" event;
          phase = value_of "phase" event;
          args = value_of "args" event;
          trajectory_index = i;
          raw_digest = d;
        }) in
        let same : made ≡ c = ok_injective k in
        let one = one_phase (value_of "phase" event) in
        subst (λ x. in_phases x ≤ to_int (tool == "submit_sql")) same (ground arith)

  no_event :
      (n : ℕ) {c : Option CompletedEvent}
      → ◌≡◌ {A = Result Failure (Option CompletedEvent)} (ok none) (ok c)
      → in_phases c ≤ n
  no_event n {c = c} h =
      let same : none ≡ c = ok_injective h in subst (λ x. in_phases x ≤ n) same (omega arith)

  tool_submit :
      (i : ℕ) (event : Fields) (tool : Json) {c : Option CompletedEvent}
      → tool_event digest i event tool ≡ ok c
      → in_phases c ≤ to_int (is_submit_tool tool)
  unfolding tool_event
  tool_submit i event (text tool) h =
      classified_submit i event tool (classify_tool_observation_type tool (value_of "result" event))
        h
  tool_submit i event null h = no_event 0 h
  tool_submit i event (bool _) h = no_event 0 h
  tool_submit i event (int _) h = no_event 0 h
  tool_submit i event (float _) h = no_event 0 h
  tool_submit i event (arr _) h = no_event 0 h
  tool_submit i event (obj _) h = no_event 0 h

  event_submit :
      (i : ℕ) (event : Json) {c : Option CompletedEvent}
      → completed_event digest i event ≡ ok c
      → in_phases c ≤ to_int (is_submit_event event)
  unfolding completed_event
  event_submit i (obj event) h = tool_submit i event (value_of "tool" event) h
  event_submit i null h = no_event 0 h
  event_submit i (bool _) h = no_event 0 h
  event_submit i (int _) h = no_event 0 h
  event_submit i (float _) h = no_event 0 h
  event_submit i (text _) h = no_event 0 h
  event_submit i (arr _) h = no_event 0 h

  grown :
      (c : Option CompletedEvent) (rest : List CompletedEvent) (n : ℕ) {m : ℕ}
      → in_phases c ≤ m
      → count_in_phase 1 rest + count_in_phase 2 rest ≤ n
      → count_in_phase 1 (and_then c rest) + count_in_phase 2 (and_then c rest) ≤ m + n
  unfolding count_in_phase
  grown none rest n h k = omega arith
  grown (some c) rest n h k = omega arith

  events_submits :
      (i : ℕ) (events : List Json) {completed : List CompletedEvent}
      → completed_events digest i events ≡ ok completed
      → count_in_phase 1 completed + count_in_phase 2 completed ≤ count_submits events
  unfolding completed_events count_in_phase count_submits
  events_submits i [] {completed = completed} h =
      let same : [] ≡ completed = ok_injective h in
      subst (λ x. count_in_phase 1 x + count_in_phase 2 x ≤ 0) same (omega arith)
  events_submits i (event ∷ events) {completed = completed} h =
      split_steps (completed_event digest i event) _ h λ c e k.
        split_steps (completed_events digest (i + 1) events) _ k λ rest e2 k2.
          let same : and_then c rest ≡ completed = ok_injective k2 in
          let one = event_submit i event e in
          let others = events_submits (i + 1) events e2 in
          subst
            (λ x.
              count_in_phase 1 x + count_in_phase 2 x
              ≤ to_int (is_submit_event event) + count_submits events)
            same (grown c rest (count_submits events) one others)

  completed_fits :
      (o : Option (List Json)) {events : List Json} {completed : List CompletedEvent}
      → required_trajectory o ≡ ok events
      → completed_of digest o ≡ ok completed
      → count_in_phase 1 completed + count_in_phase 2 completed ≤ count_submits events
  unfolding completed_of
  completed_fits none h k = cc
  completed_fits (some raw) {events = events} {completed = completed} h k =
      split_steps (completed_events digest 0 raw) _ k λ whole e l.
        let same : raw ≡ events = ok_injective h in
        let last : last_512 whole ≡ completed = ok_injective l in
        let first_part = count-drop_first 1 (length whole - 512) whole in
        let second_part = count-drop_first 2 (length whole - 512) whole in
        let total = events_submits 0 raw e in
        subst (λ x. count_in_phase 1 completed + count_in_phase 2 completed ≤ count_submits x) same
          (subst (λ x. count_in_phase 1 x + count_in_phase 2 x ≤ count_submits raw) last
            (omega arith))

  -- When the trajectory is a list, the submits counted in the two phases are together at most the
  -- submits counted in all.
  pub official_submit_count_for_phase-fits :
      (s : Session) {n n1 n2 : ℕ}
      → official_submit_count s ≡ ok n
      → official_submit_count_for_phase digest 1 s ≡ ok n1
      → official_submit_count_for_phase digest 2 s ≡ ok n2
      → n1 + n2 ≤ n
  unfolding official_submit_count official_submit_count_for_phase completed_sql_grounding_trajectory
  official_submit_count_for_phase-fits s {n = n} {n1 = n1} {n2 = n2} h h1 h2 =
      split_steps (required_trajectory (tool_trajectory s)) _ h λ events e k.
        split_steps (completed_of digest (tool_trajectory s)) _ h1 λ c1 e1 k1.
          split_steps (completed_of digest (tool_trajectory s)) _ h2 λ c2 e2 k2.
            let same : c1 ≡ c2 = cc in
            let all' : count_submits events ≡ n = ok_injective k in
            let a1 : count_in_phase 1 c1 ≡ n1 = ok_injective k1 in
            let a2 : count_in_phase 2 c2 ≡ n2 = ok_injective k2 in
            let a2' : count_in_phase 2 c1 ≡ n2 = ap (count_in_phase 2) same ∙ a2 in
            let bound = completed_fits (tool_trajectory s) e e1 in omega arith
