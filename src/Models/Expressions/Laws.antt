-- ===== src/Models/Expressions/Laws.antt =====
-- models.py: what an expression that passes names, said of each of its columns and JSON paths.
use valibra.Prelude.{
  String, ◌≡◌, refl, Bool, true, false, Option, List, [], ◌∷◌, map, all, contains, is_empty,
  string_eq, arith, ok, raise_if-eq-ok, split_steps, ok_injective, not, sym, subst, for_each,
  for_each-eq-ok, for_each_of_all,
}
use valibra.Models.Types.{ValidationContext, SqlColumn, JsonNode, ParsedExpression, SqlExpressions}
use valibra.Models.Expressions.{
  parse_expression, qualified_column_table, aliased, full_name, resolve_column, resolve_columns,
  json_path_reference, is_supported_path, check_json_node, before_last_dot, local_aliases,
  validate_expression_identifiers,
}

-- Every element has the property.
unfoldable pub All : {A : Type 0} → (A → Type 0) → List A → Type 0
All P [] = Unit
All P (x ∷ xs) = P x × All P xs

module _ (context : ValidationContext) (aliases : Option (String × String)) where
  -- The column names a known table, as it stands or through the alias, and a known column of it.
  pub record IsKnown (c : SqlColumn) : Type 0 where
    pub qualifier : String
    pub qualified : qualified_column_table c ≡ ok qualifier
    pub known_table : contains (aliased aliases qualifier) context.known_tables ≡ true
    pub known_column :
        contains (full_name (aliased aliases qualifier) c.name) context.known_columns ≡ true

  -- The full name of a known column.
  abbrev pub name_of : (c : SqlColumn) → IsKnown c → String
  name_of c known = full_name (aliased aliases known.qualifier) c.name

  -- A JSON path lies on a known column that has it.
  pub record HasPath (node : JsonNode) : Type 0 where
    pub source : SqlColumn
    pub path : List String
    pub reference : json_path_reference node ≡ ok (source, path)
    pub known : IsKnown source
    pub supported : is_supported_path context (name_of source known) path ≡ true

  resolve_column-IsKnown :
      (c : SqlColumn) {r : String}
      → resolve_column context aliases c ≡ ok r
      → (known : IsKnown c) × (r ≡ name_of c known)
  unfolding resolve_column
  resolve_column-IsKnown c {r = r} h = split_steps (qualified_column_table c) _ h λ q e k.
      let (a, k1) =
        raise_if-eq-ok (not (contains (aliased aliases q) context.known_tables)) _ _ k in
      let (b, k2) =
        raise_if-eq-ok (not (contains (full_name (aliased aliases q) c.name) context.known_columns))
          _ _ k1 in
      let same : full_name (aliased aliases q) c.name ≡ r = ok_injective k2 in
      (
        record {
          qualifier = q;
          qualified = e;
          known_table = ground arith;
          known_column = ground arith;
        },
        sym same,
      )

  IsKnown→resolve_column :
      (c : SqlColumn) (known : IsKnown c) → resolve_column context aliases c ≡ ok (name_of c known)
  unfolding resolve_column
  IsKnown→resolve_column c known = rw (known.qualified, known.known_table, known.known_column)

  -- The part of a known column's name before its last dot is a declared table.
  abbrev pub IsDeclared : List String → SqlColumn → Type 0
  IsDeclared tables c =
      (known : IsKnown c) × (contains (before_last_dot (name_of c known)) tables ≡ true)

  resolve_columns-IsDeclared :
      (tables : List String) (columns : List SqlColumn) {rs : List String}
      → resolve_columns context aliases columns ≡ ok rs
      → all (λ t. contains t tables) (map before_last_dot rs) ≡ true
      → All (IsDeclared tables) columns × (is_empty rs ≡ is_empty columns)
  unfolding resolve_columns All all
  resolve_columns-IsDeclared tables [] {rs = rs} h k =
      let same : [] ≡ rs = ok_injective h in (tt, rw (← same))
  resolve_columns-IsDeclared tables (c ∷ columns) {rs = rs} h k =
      split_steps (resolve_column context aliases c) _ h λ r e h1.
        split_steps (resolve_columns context aliases columns) _ h1 λ rest e1 h2.
          let same : (r ∷ rest) ≡ rs = ok_injective h2 in
          let (known, named) = resolve_column-IsKnown c e in
          let parts : all (λ t. contains t tables) (map before_last_dot (r ∷ rest)) ≡ true =
            subst (λ z. all (λ t. contains t tables) (map before_last_dot z) ≡ true) (sym same) k in
          let first : contains (before_last_dot r) tables ≡ true = ground arith in
          let others : all (λ t. contains t tables) (map before_last_dot rest) ≡ true =
            ground arith in
          let (each, _) = resolve_columns-IsDeclared tables columns e1 others in
          (((known, rw (← named) first), each), rw (← same))

  IsDeclared→resolve_columns :
      (tables : List String) (columns : List SqlColumn)
      → All (IsDeclared tables) columns
      → (rs : List String) × (resolve_columns context aliases columns ≡ ok rs)
        × (all (λ t. contains t tables) (map before_last_dot rs) ≡ true)
        × (is_empty rs ≡ is_empty columns)
  unfolding resolve_columns All all
  IsDeclared→resolve_columns tables [] each = ([], refl, refl, refl)
  IsDeclared→resolve_columns tables (c ∷ columns) ((known, declared), each) =
      let (rest, resolved, parts, _) = IsDeclared→resolve_columns tables columns each in
      (name_of c known ∷ rest, rw (IsKnown→resolve_column c known, resolved), ground arith, refl)

  check_json_node-HasPath :
      (node : JsonNode) → check_json_node context aliases node ≡ ok tt → HasPath node
  unfolding check_json_node
  check_json_node-HasPath node h = split_steps (json_path_reference node) _ h λ found e k.
      split_steps (resolve_column context aliases found.0) _ k λ r e1 k1.
        let (known, named) = resolve_column-IsKnown found.0 e1 in
        let supported : is_supported_path context r found.1 ≡ true = ground arith in
        record {
          source = found.0;
          path = found.1;
          reference = e;
          known = known;
          supported = rw (← named) supported;
        }

  HasPath→check_json_node :
      (node : JsonNode) → HasPath node → check_json_node context aliases node ≡ ok tt
  unfolding check_json_node
  HasPath→check_json_node node has =
      rw (has.reference, IsKnown→resolve_column has.source has.known, has.supported)

  nodes-HasPath :
      (nodes : List JsonNode)
      → for_each (check_json_node context aliases) nodes ≡ ok tt
      → All HasPath nodes
  unfolding All
  nodes-HasPath [] h = tt
  nodes-HasPath (node ∷ nodes) h =
      let (p, q) = for_each-eq-ok (check_json_node context aliases) node nodes h in
      (check_json_node-HasPath node p, nodes-HasPath nodes q)

  HasPath→nodes :
      (nodes : List JsonNode)
      → All HasPath nodes
      → for_each (check_json_node context aliases) nodes ≡ ok tt
  unfolding All
  HasPath→nodes [] each = unfold for_each in refl
  HasPath→nodes (node ∷ nodes) (has, each) =
      for_each_of_all (check_json_node context aliases) node nodes
        (HasPath→check_json_node node has) (HasPath→nodes nodes each)

module _ (x : SqlExpressions) where
  -- The expression parses and names a column at least, each of its columns is a known one of a known
  -- and declared table, and each of its JSON paths is one that its column has.
  pub record Resolves (tables : List String) (context : ValidationContext) (relation : Bool)
      (value : String) : Type 0 where
    pub expression : ParsedExpression
    pub aliases : Option (String × String)
    pub parses : parse_expression x relation value ≡ ok expression
    pub has_aliases : local_aliases relation expression ≡ ok aliases
    pub has_column : is_empty expression.columns ≡ false
    pub known_columns : All (IsDeclared context aliases tables) expression.columns
    pub known_paths : All (HasPath context aliases) expression.json_nodes

  pub identifiers-Resolves :
      (tables : List String) (context : ValidationContext) (relation : Bool) (value : String)
      {ts : List String}
      → validate_expression_identifiers x context relation value ≡ ok ts
      → all (λ t. contains t tables) ts ≡ true
      → Resolves tables context relation value
  unfolding validate_expression_identifiers
  identifiers-Resolves tables context relation value {ts = ts} h k =
      split_steps (parse_expression x relation value) _ h λ expression e h1.
        split_steps (local_aliases relation expression) _ h1 λ aliases e1 h2.
          split_steps (resolve_columns context aliases expression.columns) _ h2 λ rs e2 h3.
            let (some_column, h4) = raise_if-eq-ok (is_empty rs) _ _ h3 in
            split_steps (for_each (check_json_node context aliases) expression.json_nodes) _ h4
              λ _ e3 h5.
                let same : map before_last_dot rs ≡ ts = ok_injective h5 in
                let (each, empty) =
                  resolve_columns-IsDeclared context aliases tables expression.columns e2
                    (subst (λ z. all (λ t. contains t tables) z ≡ true) (sym same) k) in
                record {
                  expression = expression;
                  aliases = aliases;
                  parses = e;
                  has_aliases = e1;
                  has_column = rw (← empty) some_column;
                  known_columns = each;
                  known_paths = nodes-HasPath context aliases expression.json_nodes e3;
                }

  pub Resolves→identifiers :
      (tables : List String) (context : ValidationContext) (relation : Bool) (value : String)
      → Resolves tables context relation value
      → (ts : List String) × (validate_expression_identifiers x context relation value ≡ ok ts)
        × (all (λ t. contains t tables) ts ≡ true)
  unfolding validate_expression_identifiers
  Resolves→identifiers tables context relation value resolves =
      let (rs, resolved, declared, empty) =
        IsDeclared→resolve_columns context resolves.aliases tables resolves.expression.columns
          resolves.known_columns in
      let some_column : is_empty rs ≡ false = rw empty resolves.has_column in
      (
        map before_last_dot rs,
        rw (
          resolves.parses,
          resolves.has_aliases,
          resolved,
          some_column,
          HasPath→nodes context resolves.aliases resolves.expression.json_nodes
              resolves.known_paths,
        ),
        declared,
      )
