-- ===== src/Models/Validation/Laws.antt =====
-- What `validate_sql_grounding_state` accepts, said of each table, relation, mapping and rule.
use valibra.Prelude.{
  String, ◌≡◌, Bool, true, false, contains, arith, string_eq, ok, for_each, for_each→at,
  at→for_each, >>=-eq-ok,
}
use valibra.Models.Types.{
  ColumnMapping, DomainKnowledge, SqlGroundingState, ValidationContext, SqlExpressions, mapping_eq,
  knowledge_eq,
}
use valibra.Models.Expressions.{validate_expression_identifiers}
use valibra.Models.Expressions.Laws.{Resolves, identifiers-Resolves, Resolves→identifiers}
use valibra.Models.State.{or_empty}
use valibra.Models.Validation.{
  is_in_query, check_table, check_expression, check_mapping, check_knowledge,
  validate_sql_grounding_state,
}

module _ (x : SqlExpressions) where
  -- Every entry of the State has its evidence in the context.
  pub record IsSupported (state : SqlGroundingState) (context : ValidationContext) : Type 0 where
    pub known_table :
        (t : String)
        → contains t (or_empty state.tables) ≡ true
        → contains t context.known_tables ≡ true
    pub known_relation :
        (r : String)
        → contains r (or_empty state.join_keys) ≡ true
        → Resolves x (or_empty state.tables) context true r
    pub verbatim_phrase :
        (m : ColumnMapping)
        → contains m (or_empty state.column_mapping) ≡ true
        → is_in_query context m.phrase ≡ true
    pub known_target :
        (m : ColumnMapping) (t : String)
        → contains m (or_empty state.column_mapping) ≡ true
        → contains t m.targets ≡ true
        → Resolves x (or_empty state.tables) context false t
    pub official_rule :
        (k : DomainKnowledge)
        → contains k (or_empty state.domain_knowledge) ≡ true
        → contains k context.supported_domain_knowledge ≡ true

  module _ (state : SqlGroundingState) (context : ValidationContext) where
    expression-Resolves :
        (relation : Bool) (message expression : String)
        → check_expression x state context relation message expression ≡ ok tt
        → Resolves x (or_empty state.tables) context relation expression
    unfolding check_expression
    expression-Resolves relation message expression h =
        let (ts, p, q) =
          >>=-eq-ok (validate_expression_identifiers x context relation expression) _ h in
        identifiers-Resolves x (or_empty state.tables) context relation expression p (ground arith)

    Resolves-expression :
        (relation : Bool) (message expression : String)
        → Resolves x (or_empty state.tables) context relation expression
        → check_expression x state context relation message expression ≡ ok tt
    unfolding check_expression
    Resolves-expression relation message expression resolves =
        let (ts, p, q) =
          Resolves→identifiers x (or_empty state.tables) context relation expression resolves in
        rw (p, q)

    table_known :
        (t : String) → check_table context t ≡ ok tt → contains t context.known_tables ≡ true
    unfolding check_table
    table_known t h = ground arith

    rule_known :
        (k : DomainKnowledge)
        → check_knowledge context k ≡ ok tt
        → contains k context.supported_domain_knowledge ≡ true
    unfolding check_knowledge
    rule_known k h = ground arith

    mapping_known :
        (m : ColumnMapping)
        → check_mapping x state context m ≡ ok tt
        → (is_in_query context m.phrase ≡ true)
          × ((t : String)
              → contains t m.targets ≡ true
              → Resolves x (or_empty state.tables) context false t)
    unfolding check_mapping
    mapping_known m h =
        let a : is_in_query context m.phrase ≡ true = ground arith in
        let loop : for_each
              (check_expression x state context false
                "field expression references a table absent from State.tables")
              m.targets
            ≡ ok tt =
          ground arith in
        (a, λ t k. expression-Resolves false _ t (for_each→at _ m.targets loop t k))

    -- A State that its validator passes has only known tables; relations and targets that parse,
    -- name at least one column, name only columns whose table (read through the alias of a
    -- relation's subquery) is known, whose full name is a known column and whose full name up to
    -- its last dot is a table of the State, and have only JSON paths that are supported on a known
    -- column; phrases that the query texts contain; and official rules. The validator returns that
    -- State.
    pub validate-ok→IsSupported :
        {r : SqlGroundingState}
        → validate_sql_grounding_state x state context ≡ ok r
        → IsSupported state context × (r ≡ state)
    unfolding validate_sql_grounding_state
    validate-ok→IsSupported h =
        let (u1, a, h1) = >>=-eq-ok (for_each (check_table context) (or_empty state.tables)) _ h in
        let (u2, b, h2) =
          >>=-eq-ok
            (for_each
              (check_expression x state context true
                "relation expression references a table absent from State.tables")
              (or_empty state.join_keys))
            _ h1 in
        let (u3, c, h3) =
          >>=-eq-ok (for_each (check_mapping x state context) (or_empty state.column_mapping)) _
            h2 in
        let (u4, d, h4) =
          >>=-eq-ok (for_each (check_knowledge context) (or_empty state.domain_knowledge)) _ h3 in
        (
          record {
            known_table = λ t k. table_known t (for_each→at _ (or_empty state.tables) a t k);
            known_relation = λ r k.
                expression-Resolves true _ r (for_each→at _ (or_empty state.join_keys) b r k);
            verbatim_phrase =
                λ m k. (mapping_known m (for_each→at _ (or_empty state.column_mapping) c m k)).0;
            known_target = λ m t k l.
                (mapping_known m (for_each→at _ (or_empty state.column_mapping) c m k)).1 t l;
            official_rule =
                λ r k. rule_known r (for_each→at _ (or_empty state.domain_knowledge) d r k);
          },
          cc,
        )

    mapping_passes :
        (m : ColumnMapping)
        → is_in_query context m.phrase ≡ true
        → ((t : String)
            → contains t m.targets ≡ true
            → Resolves x (or_empty state.tables) context false t)
        → check_mapping x state context m ≡ ok tt
    unfolding check_mapping
    mapping_passes m a b =
        rw a (at→for_each _ m.targets (λ t k. Resolves-expression false _ t (b t k)))

    -- The State validator passes every State whose tables, relations, mappings and rules all have
    -- their evidence in the context.
    pub IsSupported→validate-ok :
        IsSupported state context → validate_sql_grounding_state x state context ≡ ok state
    unfolding validate_sql_grounding_state check_table check_knowledge
    IsSupported→validate-ok s = rw (
      at→for_each (check_table context) (or_empty state.tables) (λ t k. rw (s.known_table t k)),
      at→for_each
          (check_expression x state context true
            "relation expression references a table absent from State.tables")
          (or_empty state.join_keys) (λ r k. Resolves-expression true _ r (s.known_relation r k)),
      at→for_each (check_mapping x state context) (or_empty state.column_mapping)
          (λ m k. mapping_passes m (s.verbatim_phrase m k) (λ t l. s.known_target m t k l)),
      at→for_each (check_knowledge context) (or_empty state.domain_knowledge)
          (λ r k. rw (s.official_rule r k)),
    )
