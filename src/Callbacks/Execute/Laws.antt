-- ===== src/Callbacks/Execute/Laws.antt =====
-- grounding_callbacks.py: what an `execute_sql` that the gate allows is known to be.
use valibra.Prelude.{
  ℕ, ◌≡◌, ◌≢◌, refl, String, Bool, true, false, not, Option, none, some, List, [], ◌∷◌, any, All,
  contains, contains-cons, Result, ok, err, split_steps, ok_injective, Bool-cases, Option-cases,
  inl, inr, ne_of_beq, string_eq, ◌==◌, arith, sym, ap, ◌∙◌,
}
use valibra.Prelude.Json.{Json}
use valibra.Models.Types.{SqlGroundingState, GroundingRuntime}
use valibra.Callbacks.Values.{Failure}
use valibra.Callbacks.Records.{PhaseGroundingOutcome}
use valibra.Callbacks.Session.{Session}
use valibra.Callbacks.Outcomes.{selected_phase, outcome_of}
use valibra.Callbacks.Trajectory.{CompletedEvent, completed_sql_grounding_trajectory}
use valibra.Callbacks.Execute.{
  SqlTrees, MainExecuteGateDecision, denied, has_star_projection, main_sql_base_tables,
  canonical_table_identifiers, frozen_tables, is_system_catalog_identifier, sql_argument,
  one_statement, previous_sql, phase_number, is_execution, is_duplicate, is_frozen, gate_duplicate,
  gate_frozen_tables, gate_frozen, gate_tables, gate_statement, gate_sql,
  evaluate_main_execute_gate,
}

any→none :
    (f : String → Bool) (xs : List String)
    → any f xs ≡ false
    → (x : String) → contains x xs ≡ true
    → f x ≡ false
unfolding any
any→none f [] h x m = unfold contains in cc
any→none f (y ∷ ys) h x m = elim (contains-cons x y ys m) [
  | inl e ↦ rw (← e) (ground arith)
  | inr k ↦ any→none f ys (ground arith) x k
]

module _ {Statement Node : Type 0} (trees : SqlTrees Statement Node) where
  -- Every earlier `execute_sql` of the phase had another SQL.
  abbrev pub AllDiffer : ℕ → String → List CompletedEvent → Type 0
  AllDiffer phase canonical events =
      All
        (λ event.
          is_execution trees phase event ≡ true
          → (previous : String) × (previous_sql trees event.args ≡ ok previous)
            × (previous ≢ canonical))
        events

  is_duplicate-AllDiffer :
      (phase : ℕ) (canonical : String) (events : List CompletedEvent)
      → is_duplicate trees phase canonical events ≡ ok false
      → AllDiffer phase canonical events
  unfolding is_duplicate
  is_duplicate-AllDiffer phase canonical [] h = tt
  is_duplicate-AllDiffer phase canonical (event ∷ events) h =
      elim (Bool-cases (is_execution trees phase event)) [
        | inl p ↦ split_steps (previous_sql trees event.args) _ (rw p at h) λ previous e k.
            elim (Bool-cases (previous == canonical)) [
              | inl q ↦ let wrong = rw q at k in cc
              | inr q ↦ (
                λ t. (previous, e, ne_of_beq previous canonical q),
                is_duplicate-AllDiffer phase canonical events (rw q at k),
              )
            ]
        | inr p ↦ (
          λ t. let wrong = sym p ∙ t in cc,
          is_duplicate-AllDiffer phase canonical events (rw p at h),
        )
      ]

  module _ (sha256 : SqlGroundingState → String) (digest : Json → Result Failure String)
      (s : Session) (runtime : GroundingRuntime) (degraded : Bool) where
    -- The SQL is new in the phase.
    abbrev pub IsNew : Json → Statement → Type 0
    IsNew phase statement =
        (events : List CompletedEvent) × (completed_sql_grounding_trajectory digest s ≡ ok events)
        × AllDiffer (phase_number trees phase) (trees.canonical_sql statement) events

    -- The phase has its outcome on just this State, and the State declares every table.
    abbrev pub IsFrozenUse : List String → Type 0
    IsFrozenUse identifiers =
        (outcome : PhaseGroundingOutcome) × (tables : List String) × (frozen : List String)
        × (outcome_of none s ≡ ok (some outcome))
        × (is_frozen trees sha256 digest s runtime degraded (some outcome) ≡ true)
        × (runtime.grounding_state.tables ≡ some tables)
        × (frozen_tables trees tables ≡ ok frozen)
        × ((identifier : String)
            → contains identifier identifiers ≡ true
            → contains identifier frozen ≡ true)

    gate_duplicate-IsNew :
        (phase : Json) (statement : Statement) {d : MainExecuteGateDecision}
        → gate_duplicate trees sha256 digest s runtime degraded phase statement ≡ ok d
        → d.allowed ≡ true
        → IsNew phase statement
    unfolding gate_duplicate
    gate_duplicate-IsNew phase statement {d = d} h allowed =
        split_steps (completed_sql_grounding_trajectory digest s) _ h λ events e k.
          split_steps
            (is_duplicate trees (phase_number trees phase) (trees.canonical_sql statement) events) _
            k
            λ duplicate e2 k2.
              let flag : not duplicate ≡ d.allowed =
                ap (λ (x : MainExecuteGateDecision). x.allowed) (ok_injective k2) in
              let fresh : duplicate ≡ false = ground arith in
              (
                events,
                e,
                is_duplicate-AllDiffer (phase_number trees phase) (trees.canonical_sql statement)
                    events (e2 ∙ ap ok fresh),
              )

    denied_not_allowed :
        {reason : String} {d : MainExecuteGateDecision} {P : Type 0}
        → ◌≡◌ {A = Result Failure MainExecuteGateDecision} (ok (denied reason)) (ok d)
        → d.allowed ≡ true
        → P
    denied_not_allowed {reason = reason} {d = d} h allowed =
        let same : denied reason ≡ d = ok_injective h in
        let no : false ≡ d.allowed = ap (λ (x : MainExecuteGateDecision). x.allowed) same in
        let wrong : false ≡ true = no ∙ allowed in cc

    frozen_use :
        (phase : Json) (statement : Statement) (identifiers : List String)
        (outcome : PhaseGroundingOutcome) (tables : Option (List String))
        {d : MainExecuteGateDecision}
        → outcome_of none s ≡ ok (some outcome)
        → is_frozen trees sha256 digest s runtime degraded (some outcome) ≡ true
        → runtime.grounding_state.tables ≡ tables
        → gate_frozen_tables trees sha256 digest s runtime degraded phase statement identifiers
            tables
          ≡ ok d
        → d.allowed ≡ true
        → IsFrozenUse identifiers × IsNew phase statement
    unfolding gate_frozen_tables
    frozen_use phase statement identifiers outcome none o f t h allowed =
        denied_not_allowed h allowed
    frozen_use phase statement identifiers outcome (some tables) o f t h allowed =
        split_steps (frozen_tables trees tables) _ h λ frozen e k.
          elim (Bool-cases (any (λ identifier. not (contains identifier frozen)) identifiers)) [
            | inl p ↦ denied_not_allowed (rw p at k) allowed
            | inr p ↦ (
              (
                outcome,
                tables,
                frozen,
                o,
                f,
                t,
                e,
                λ identifier m.
                    let inside =
                      any→none (λ x. not (contains x frozen)) identifiers p identifier m in
                    ground arith,
              ),
              gate_duplicate-IsNew phase statement (rw p at k) allowed,
            )
          ]

    -- What an allowed statement is.
    abbrev pub IsAllowed : Json → Statement → Type 0
    IsAllowed args statement =
        (sql : String) × (tables : List ℕ) × (identifiers : List String) × (phase : Json)
        × (sql_argument trees args ≡ some sql)
        × (one_statement trees (trees.parse sql) ≡ some statement)
        × (has_star_projection trees statement ≡ false)
        × (main_sql_base_tables trees statement ≡ ok tables)
        × (canonical_table_identifiers trees statement tables ≡ ok identifiers)
        × ((identifier : String)
            → contains identifier identifiers ≡ true
            → is_system_catalog_identifier trees identifier ≡ false)
        × (selected_phase none s ≡ ok phase)
        × IsFrozenUse identifiers
        × IsNew phase statement

    allowed_frozen :
        (statement : Statement) (identifiers : List String) {d : MainExecuteGateDecision}
        → gate_frozen trees sha256 digest s runtime degraded statement identifiers ≡ ok d
        → d.allowed ≡ true
        → (phase : Json) × (selected_phase none s ≡ ok phase)
          × IsFrozenUse identifiers
          × IsNew phase statement
    unfolding gate_frozen
    allowed_frozen statement identifiers {d = d} h allowed =
        split_steps (selected_phase none s) _ h λ phase e k.
          split_steps (outcome_of none s) _ k λ outcome e2 k2.
            elim (Bool-cases (is_frozen trees sha256 digest s runtime degraded outcome)) [
              | inl p ↦
                  let (use_it, new) = with_outcome phase outcome e2 p (rw p at k2) in
                  (phase, e, use_it, new)
              | inr p ↦ denied_not_allowed (rw p at k2) allowed
            ]
      where
        with_outcome :
            (phase : Json) (o : Option PhaseGroundingOutcome)
            → outcome_of none s ≡ ok o
            → is_frozen trees sha256 digest s runtime degraded o ≡ true
            → gate_frozen_tables trees sha256 digest s runtime degraded phase statement identifiers
                runtime.grounding_state.tables
              ≡ ok d
            → IsFrozenUse identifiers × IsNew phase statement
        with_outcome phase none e2 p k = cc
        with_outcome phase (some outcome) e2 p k =
            frozen_use phase statement identifiers outcome runtime.grounding_state.tables e2 p refl
              k allowed

    -- An `execute_sql` that the gate of the Main agent allows has the one argument `sql`, which
    -- parses to one statement without a projected star, whose base tables are no system catalogs
    -- and all stand in the Runtime's State, on which the current phase has a successful outcome
    -- with the same revision and digest, and whose canonical SQL differs from that of every
    -- completed `execute_sql` of the phase.
    pub evaluate_main_execute_gate-IsAllowed :
        (args : Json) {d : MainExecuteGateDecision}
        → evaluate_main_execute_gate trees sha256 digest s runtime degraded args ≡ ok d
        → d.allowed ≡ true
        → (statement : Statement) × IsAllowed args statement
    unfolding evaluate_main_execute_gate gate_sql gate_statement gate_tables
    evaluate_main_execute_gate-IsAllowed args {d = d} h allowed =
        elim (Option-cases (sql_argument trees args)) [
          | inl p ↦ denied_not_allowed (rw p at h) allowed
          | inr (sql, p) ↦ elim (Option-cases (one_statement trees (trees.parse sql))) [
            | inl q ↦ denied_not_allowed (rw (p, q) at h) allowed
            | inr (statement, q) ↦ elim (Bool-cases (has_star_projection trees statement)) [
              | inl r ↦ denied_not_allowed (rw (p, q, r) at h) allowed
              | inr r ↦ (
                statement,
                on_tables statement sql p q r (main_sql_base_tables trees statement) refl
                    (rw (p, q, r) at h),
              )
            ]
          ]
        ]
      where
        on_tables :
            (statement : Statement) (sql : String)
            → sql_argument trees args ≡ some sql
            → one_statement trees (trees.parse sql) ≡ some statement
            → has_star_projection trees statement ≡ false
            → (r : Result Failure (List ℕ)) → main_sql_base_tables trees statement ≡ r
            → gate_tables trees sha256 digest s runtime degraded statement r ≡ ok d
            → IsAllowed args statement
        on_tables statement sql p q star (err _) e h = denied_not_allowed h allowed
        on_tables statement sql p q star (ok tables) e h =
            split_steps (canonical_table_identifiers trees statement tables) _ h λ identifiers e2 k.
              elim (Bool-cases (any (is_system_catalog_identifier trees) identifiers)) [
                | inl t ↦ denied_not_allowed (rw t at k) allowed
                | inr t ↦
                    let (phase, a, b, c) =
                      allowed_frozen statement identifiers (rw t at k) allowed in
                    (
                      sql,
                      tables,
                      identifiers,
                      phase,
                      p,
                      q,
                      star,
                      e,
                      e2,
                      any→none (is_system_catalog_identifier trees) identifiers t,
                      a,
                      b,
                      c,
                    )
              ]
