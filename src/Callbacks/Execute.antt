-- ===== src/Callbacks/Execute.antt =====
-- grounding_callbacks.py: the gate of the Main agent's `execute_sql`, which runs before any cost.
pub mod Laws
use Prim.Native.Char.{code}
use Prim.Native.String.{◌∷◌ as char_cons}
use valibra.Prelude.{
  ℕ, String, Bool, true, false, not, ◌&&◌, ◌||◌, Option, none, some, List, [], ◌∷◌, ◌++◌, map, any,
  all, contains, is_empty, length, leb, nat_beq, join, text_append, Result, ok, err, raise_if,
  ◌>>=◌, ◌>>◌, string_eq, nat_eq, ◌==◌, ◌!=◌, if◌then◌else◌,
}
use valibra.Prelude.Text.{is_tight}
use valibra.Prelude.Json.{pos, Json, null, int, text, obj, Fields, get}
use valibra.Models.Types.{SqlGroundingState, GroundingRuntime}
use valibra.Callbacks.Values.{Failure, value_error, value_of, has_names}
use valibra.Callbacks.Records.{PhaseStatus, succeeded, PhaseGroundingOutcome}
use valibra.Callbacks.Session.{Session}
use valibra.Callbacks.Outcomes.{status_beq, selected_phase, outcome_of}
use valibra.Callbacks.Trajectory.{CompletedEvent, is_in_phase, completed_sql_grounding_trajectory}

-- A part of a table's name in sqlglot's tree: absent, an identifier with whether it is quoted, or
-- something else.
pub data TablePart : Type 0 where
  no_part : TablePart
  identifier_part : String → Bool → TablePart
  other_part : TablePart

-- What a scope selects from: a table, another scope by way of a table node or not, or something else.
pub data SqlSource : Type 0 where
  table_source : ℕ → SqlSource
  scope_source : Option ℕ → SqlSource
  unknown_source : SqlSource

-- What the code reads of sqlglot's trees. A table is known by the number of its node.
pub record SqlTrees (Statement Node : Type 0) : Type 0 where
  pub parse : String → Option (List (Option Statement))
  pub projected_nodes : Statement → List Node
  pub returned_nodes : Statement → List Node
  pub is_star : Node → Bool
  pub is_counted : Node → Bool
  pub all_tables : Statement → List ℕ
  pub is_query : Statement → Bool
  pub scopes : Statement → List (List SqlSource)
  pub table_parts : Statement → ℕ → List TablePart
  pub canonical_sql : Statement → String
  pub lower : String → String

-- `_MainExecuteGateDecision`.
pub record MainExecuteGateDecision : Type 0 where
  pub allowed : Bool
  pub reason : String
  pub canonical_sql : Option String

abbrev pub denied : String → MainExecuteGateDecision
denied reason = record { allowed = false; reason = reason; canonical_sql = none }

-- `value.split(".")`.
unfoldable pub split_dots : String → List String
split_dots String.[] = "" ∷ []
split_dots (char_cons c rest) = elim (split_dots rest) [
  | [] ↦ []
  | part ∷ parts ↦ if nat_beq (code c) b'.' then "" ∷ part ∷ parts else char_cons c part ∷ parts
]

-- `value.replace('"', "")`.
unfoldable pub without_quotes : String → String
without_quotes String.[] = ""
without_quotes (char_cons c rest) =
    let cleaned = without_quotes rest in
    if nat_beq (code c) b'"' then cleaned else char_cons c cleaned

abbrev first_part : List String → String
first_part [] = ""
first_part (part ∷ _) = part

module _ {Statement Node : Type 0} (trees : SqlTrees Statement Node) where
  unfoldable pub has_star_projection : Statement → Bool
  has_star_projection statement =
      any (λ node. trees.is_star node && not (trees.is_counted node))
        (trees.projected_nodes statement)
      || any trees.is_star (trees.returned_nodes statement)

  -- The base tables and the accounted nodes of one scope's sources.
  unfoldable pub scope_tables : List SqlSource → Result Failure (List ℕ × List ℕ)
  scope_tables [] = ok ([], [])
  scope_tables (unknown_source ∷ rest) = err (value_error "SQL source cannot be classified")
  scope_tables (table_source table ∷ rest) =
      scope_tables rest >>= λ found. ok (table ∷ found.0, table ∷ found.1)
  scope_tables (scope_source none ∷ rest) = scope_tables rest
  scope_tables (scope_source (some node) ∷ rest) =
      scope_tables rest >>= λ found. ok (found.0, node ∷ found.1)

  abbrev flatten : List (List SqlSource) → List SqlSource
  flatten [] = []
  flatten (scope ∷ scopes) = scope ++ flatten scopes

  unfoldable pub main_sql_base_tables : Statement → Result Failure (List ℕ)
  main_sql_base_tables statement =
      let scoped = (do
        raise_if (is_empty (trees.scopes statement))
            (value_error "SQL table scope cannot be resolved")
        found ← scope_tables (flatten (trees.scopes statement))
        raise_if (any (λ table. not (contains table found.1)) (trees.all_tables statement))
            (value_error "SQL contains an unclassified table reference")
        ok found.0) in
      if is_empty (trees.all_tables statement) || not (trees.is_query statement)
      then ok (trees.all_tables statement)
      else scoped

  unfoldable pub identifier_parts : List TablePart → Result Failure (List String)
  identifier_parts [] = ok []
  identifier_parts (no_part ∷ rest) = identifier_parts rest
  identifier_parts (other_part ∷ rest) = err (value_error "table identifier is not canonical")
  identifier_parts (identifier_part name quoted ∷ rest) = do
    raise_if (name == "") (value_error "table identifier is empty")
    parts ← identifier_parts rest
    ok ((if quoted then text_append "\"" (text_append name "\"") else trees.lower name) ∷ parts)

  unfoldable pub canonical_table_identifier : List TablePart → Result Failure String
  canonical_table_identifier table = do
    parts ← identifier_parts table
    raise_if (not (leb 1 (length parts) && leb (length parts) 3))
        (value_error "table identifier has an invalid number of parts")
    ok (join "." parts)

  unfoldable pub canonical_table_identifiers : Statement → List ℕ → Result Failure (List String)
  canonical_table_identifiers statement [] = ok []
  canonical_table_identifiers statement (table ∷ tables) = do
    identifier ← canonical_table_identifier (trees.table_parts statement table)
    identifiers ← canonical_table_identifiers statement tables
    ok (identifier ∷ identifiers)

  unfoldable pub canonical_frozen_table_identifier : String → Result Failure String
  canonical_frozen_table_identifier table = do
    raise_if (table == "") (value_error "frozen table identifier is invalid")
    raise_if
        (not (leb (length (split_dots table)) 2) || any (λ part. part == "") (split_dots table))
        (value_error "frozen table identifier is invalid")
    ok (join "." (map trees.lower (split_dots table)))

  unfoldable pub frozen_tables : List String → Result Failure (List String)
  frozen_tables [] = ok []
  frozen_tables (table ∷ tables) = do
    identifier ← canonical_frozen_table_identifier table
    identifiers ← frozen_tables tables
    ok (identifier ∷ identifiers)

  unfoldable pub is_system_catalog_identifier : String → Bool
  is_system_catalog_identifier identifier =
      contains (first_part (split_dots (trees.lower (without_quotes identifier))))
        ("information_schema" ∷ "pg_catalog" ∷ [])

  -- The one text under "sql", not empty and without outer whitespace.
  abbrev tight_text : Json → Option String
  tight_text (text sql) = if is_tight sql then some sql else none
  tight_text _ = none

  unfoldable pub sql_argument : Json → Option String
  sql_argument (obj args) =
      let sql = tight_text (value_of "sql" args) in
      if has_names ("sql" ∷ []) args then sql else none
  sql_argument _ = none

  abbrev pub one_statement : Option (List (Option Statement)) → Option Statement
  one_statement (some (some statement ∷ [])) = some statement
  one_statement _ = none

  -- The SQL of an earlier call, in its canonical form.
  abbrev previous_statement : Option (List (Option Statement)) → Result Failure String
  previous_statement none = err (value_error "Official execute_sql SQL cannot be canonicalized")
  previous_statement (some (some statement ∷ [])) = ok (trees.canonical_sql statement)
  previous_statement (some _) = err (value_error "Official execute_sql SQL is not one statement")

  abbrev previous_text : Json → Result Failure String
  previous_text (text sql) = previous_statement (trees.parse sql)
  previous_text _ = err (value_error "Official execute_sql SQL is unavailable")

  unfoldable pub previous_sql : Json → Result Failure String
  previous_sql (obj args) = previous_text (value_of "sql" args)
  previous_sql _ = err (value_error "Official execute_sql arguments are unavailable")

  abbrev pub phase_number : Json → ℕ
  phase_number (int (pos n)) = n
  phase_number _ = 0

  -- The event is an `execute_sql` of the phase.
  abbrev pub is_execution : ℕ → CompletedEvent → Bool
  is_execution phase event = is_in_phase phase event.phase && event.tool_name == "execute_sql"

  -- The loop over the events, which ends at the first equal SQL.
  unfoldable pub is_duplicate : ℕ → String → List CompletedEvent → Result Failure Bool
  is_duplicate phase canonical [] = ok false
  is_duplicate phase canonical (event ∷ events) =
      let later = is_duplicate phase canonical events in
      let compared =
        previous_sql event.args >>= λ previous. if previous == canonical then ok true else later in
      if is_execution phase event then compared else later

  -- The outcome of the phase is a success on just this State.
  module _ (sha256 : SqlGroundingState → String) (digest : Json → Result Failure String)
      (s : Session) (runtime : GroundingRuntime) (degraded : Bool) where
    abbrev pub is_frozen : Option PhaseGroundingOutcome → Bool
    is_frozen none = false
    is_frozen (some outcome) =
        not degraded
        && status_beq outcome.status succeeded
        && outcome.grounding_revision == runtime.grounding_revision
        && outcome.state_sha256 == sha256 runtime.grounding_state

    unfoldable pub gate_duplicate : Json → Statement → Result Failure MainExecuteGateDecision
    gate_duplicate phase statement = do
      events ← completed_sql_grounding_trajectory digest s
      duplicate ← is_duplicate (phase_number phase) (trees.canonical_sql statement) events
      ok (record {
        allowed = not duplicate;
        reason = if duplicate then "duplicate_sql" else "allowed";
        canonical_sql = some (trees.canonical_sql statement);
      })

    unfoldable pub gate_frozen_tables :
        Json
        → Statement
        → List String
        → Option (List String)
        → Result Failure MainExecuteGateDecision
    gate_frozen_tables phase statement identifiers none = ok (denied "frozen_state_unavailable")
    gate_frozen_tables phase statement identifiers (some tables) = do
      frozen ← frozen_tables tables
      if any (λ identifier. not (contains identifier frozen)) identifiers
          then ok (denied "table_outside_frozen_state")
          else gate_duplicate phase statement

    unfoldable pub gate_frozen : Statement → List String → Result Failure MainExecuteGateDecision
    gate_frozen statement identifiers = do
      phase ← selected_phase none s
      outcome ← outcome_of none s
      if is_frozen outcome
          then gate_frozen_tables phase statement identifiers runtime.grounding_state.tables
          else ok (denied "frozen_state_unavailable")

    unfoldable pub gate_tables :
        Statement → Result Failure (List ℕ) → Result Failure MainExecuteGateDecision
    gate_tables statement (err _) = ok (denied "sql_validation_failed")
    gate_tables statement (ok tables) = do
      identifiers ← canonical_table_identifiers statement tables
      if any is_system_catalog_identifier identifiers
          then ok (denied "system_catalog_forbidden")
          else gate_frozen statement identifiers

    unfoldable pub gate_statement : Option Statement → Result Failure MainExecuteGateDecision
    gate_statement none = ok (denied "sql_validation_failed")
    gate_statement (some statement) =
        if has_star_projection statement
        then ok (denied "star_projection_forbidden")
        else gate_tables statement (main_sql_base_tables statement)

    unfoldable pub gate_sql : Option String → Result Failure MainExecuteGateDecision
    gate_sql none = ok (denied "sql_validation_failed")
    gate_sql (some sql) = gate_statement (one_statement (trees.parse sql))

    unfoldable pub evaluate_main_execute_gate : Json → Result Failure MainExecuteGateDecision
    evaluate_main_execute_gate args = gate_sql (sql_argument args)
