-- ===== src/Models/Expressions.antt =====
-- models.py: the columns and JSON paths that an expression may name.
pub mod Laws
use Prim.Native.Char.{code}
use Prim.Native.String.{◌∷◌ as char_cons}
use valibra.Prelude.{
  String, Bool, true, false, not, ◌&&◌, ◌||◌, Option, none, some, List, [], ◌∷◌, ◌++◌, map, keep,
  any, contains, is_empty, join, text_append, nat_beq, string_eq, list_eq, ◌==◌, ◌!=◌, Result, ok,
  err, raise_if, for_each, ◌>>=◌, ◌>>◌, if◌then◌else◌,
}
use valibra.Prelude.Text.{is_substring}
use valibra.Models.Types.{
  Raised, validation_error, other_error, max_expression_chars, ValidationContext, SqlColumn,
  JsonNode, extract, wrapped, column, other_node, ParsedExpression, SqlExpressions,
}
use valibra.Models.State.{is_bounded_text, is_table_identifier}

-- `_CONTROL_TOKEN_RE.search`.
unfoldable pub has_control_token : String → Bool
has_control_token sql =
    is_substring ";" sql || is_substring "--" sql || is_substring "/*" sql || is_substring "*/" sql

abbrev label_of : Bool → String
label_of true = "relation expression"
label_of false = "field expression"

-- The one statement of the text.
unfoldable pub only_statement :
    String → List (Option ParsedExpression) → Result Raised ParsedExpression
only_statement label (some expression ∷ []) = ok expression
only_statement label _ =
    err (validation_error (text_append label " must contain exactly one expression"))

unfoldable pub parse_expression : SqlExpressions → Bool → String → Result Raised ParsedExpression
parse_expression x relation value = do
  raise_if (not (is_bounded_text max_expression_chars value)) other_error
  raise_if (has_control_token value) (
      validation_error
        (text_append (label_of relation) " cannot contain semicolons or SQL comments"))
  elim (x.parse value) [
    | none ↦ err (validation_error (text_append (label_of relation) " is not valid PostgreSQL"))
    | some statements ↦ only_statement (label_of relation) statements
  ]

-- The parts that are not empty.
abbrev parts_of : SqlColumn → List String
parts_of c = keep (λ part. not (part == "")) (c.catalog ∷ c.db ∷ c.table ∷ [])

unfoldable pub table_of_parts : String → List String → Result Raised String
table_of_parts name [] = err (
    validation_error (
      text_append "column "
        (text_append name " must use a real, fully qualified table identifier")))
table_of_parts name (_ ∷ _ ∷ _ ∷ _) =
    err (validation_error "three-part table identifiers are not allowed")
table_of_parts name parts =
    raise_if (not (is_table_identifier (join "." parts))) other_error >> ok (join "." parts)

unfoldable pub qualified_column_table : SqlColumn → Result Raised String
qualified_column_table c = table_of_parts c.name (parts_of c)

-- `(local_aliases or {}).get(qualifier, qualifier)`: there is one alias at most.
abbrev pub aliased : Option (String × String) → String → String
aliased none qualifier = qualifier
aliased (some alias) qualifier = if alias.0 == qualifier then alias.1 else qualifier

-- `f"{table}.{name}"`.
abbrev pub full_name : String → String → String
full_name table name = text_append table (text_append "." name)

unfoldable pub resolve_column :
    ValidationContext → Option (String × String) → SqlColumn → Result Raised String
resolve_column context aliases c = do
  qualifier ← qualified_column_table c
  raise_if (not (contains (aliased aliases qualifier) context.known_tables)) (
      validation_error
        (text_append "expression references unknown real table " (aliased aliases qualifier)))
  raise_if (not (contains (full_name (aliased aliases qualifier) c.name) context.known_columns)) (
      validation_error (
        text_append "expression references unknown column "
          (full_name (aliased aliases qualifier) c.name)))
  ok (full_name (aliased aliases qualifier) c.name)

unfoldable pub resolve_columns :
    ValidationContext → Option (String × String) → List SqlColumn → Result Raised (List String)
resolve_columns context aliases [] = ok []
resolve_columns context aliases (c ∷ columns) = do
  resolved ← resolve_column context aliases c
  rest ← resolve_columns context aliases columns
  ok (resolved ∷ rest)

-- The keys of a JSON path: the path is one, and it has some.
abbrev path_keys : Option (List String) → Result Raised (List String)
path_keys (some (key ∷ keys)) = ok (key ∷ keys)
path_keys _ = err (validation_error "JSON path is not a fixed key path")

unfoldable pub json_path_reference : JsonNode → Result Raised (SqlColumn × List String)
json_path_reference (extract inner path) = do
  (c, prefix) ← json_path_reference inner
  keys ← path_keys path
  ok (c, prefix ++ keys)
json_path_reference (wrapped inner) = json_path_reference inner
json_path_reference (column c) = ok (c, [])
json_path_reference other_node =
    err (validation_error "JSON path must originate from a known column")

-- `(resolved, path) not in context.supported_json_paths` is false.
abbrev pub is_supported_path : ValidationContext → String → List String → Bool
is_supported_path context resolved path =
    any (λ (e : String × List String). e.0 == resolved && e.1 == path) context.supported_json_paths

unfoldable pub check_json_node :
    ValidationContext → Option (String × String) → JsonNode → Result Raised Unit
check_json_node context aliases node = do
  (c, path) ← json_path_reference node
  resolved ← resolve_column context aliases c
  raise_if (not (is_supported_path context resolved path))
      (validation_error "JSON path lacks an allowed Official column-meaning source")

-- The text before its last dot, where it has one.
unfoldable pub split_at_last_dot : String → Option String
split_at_last_dot String.[] = none
split_at_last_dot (char_cons c s) = elim (split_at_last_dot s) [
  | some before ↦ some (char_cons c before)
  | none ↦ if nat_beq (code c) b'.' then some "" else none
]

-- `column.rsplit(".", 1)[0]`.
unfoldable pub before_last_dot : String → String
before_last_dot s = elim (split_at_last_dot s) [ none ↦ s | some before ↦ before ]

-- `local_aliases`, from the subquery of a relation.
unfoldable pub local_aliases : Bool → ParsedExpression → Result Raised (Option (String × String))
local_aliases relation expression =
    let found = expression.inner_table >>= λ alias. ok (some alias) in
    if relation && expression.has_query then found else ok none

unfoldable pub validate_expression_identifiers :
    SqlExpressions → ValidationContext → Bool → String → Result Raised (List String)
validate_expression_identifiers x context relation value = do
  expression ← parse_expression x relation value
  aliases ← local_aliases relation expression
  resolved ← resolve_columns context aliases expression.columns
  raise_if (is_empty resolved) (validation_error "expression must reference a known column")
  for_each (check_json_node context aliases) expression.json_nodes
  ok (map before_last_dot resolved)
