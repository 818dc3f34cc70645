-- ===== src/Service/Scope/Laws.antt =====
-- What one knowledge definition may add to the State.
use valibra.Prelude.{
  ◌∷◌, String, ◌≡◌, refl, arith, inl, inr, Bool-cases, true, false, not, ◌||◌, Option, List, [],
  all, any, is_empty, length, leb, keep, contains, contains-distinct, contains-keep, empty_contains,
  all→at, Result, ok, raise_if, raise_if-eq-ok, >>=-eq-ok, ◌>>=◌, list_eq, option_eq, ◌==◌, ◌!=◌,
  eq_of_beq,
}
use valibra.Prelude.Json.{Json, Fields}
use valibra.Models.Vocabulary.{DomainKnowledgeKind}
use valibra.Models.Types.{Raised, DomainKnowledge, SqlGroundingState, mapping_eq, knowledge_eq}
use valibra.Models.State.{or_empty}
use valibra.Service.Scope.{
  fail, added_knowledge, exactly_rule, latest_official_definition, check_knowledge_definition,
}

module _ (loads : String → Option Json) (latest_tool : Fields) (old new : SqlGroundingState) where
  -- Nothing is lost, and what is new is the rule that the tool returned.
  pub record IsExactAddition : Type 0 where
    pub same_mapping : new.column_mapping ≡ old.column_mapping
    pub kept :
        (k : DomainKnowledge)
        → contains k (or_empty old.domain_knowledge) ≡ true
        → contains k (or_empty new.domain_knowledge) ≡ true
    pub exact :
        (k : DomainKnowledge)
        → contains k (or_empty new.domain_knowledge) ≡ true
        → contains k (or_empty old.domain_knowledge) ≡ false
        → (definition : String) × (latest_official_definition loads latest_tool ≡ ok definition)
          × (k ≡ record { kind = DomainKnowledgeKind.business_rule; content = definition })

  newly_added :
      (k : DomainKnowledge)
      → contains k (or_empty new.domain_knowledge) ≡ true
      → contains k (or_empty old.domain_knowledge) ≡ false
      → contains k (added_knowledge old new) ≡ true
  unfolding added_knowledge
  newly_added k h g = rw (
    contains-distinct k (
        keep (λ r. not (contains r (or_empty old.domain_knowledge)))
          (or_empty new.domain_knowledge)),
    contains-keep (λ r. not (contains r (or_empty old.domain_knowledge)))
        (or_empty new.domain_knowledge) k,
    h,
    g,
  )

  none_lost :
      (ks : List DomainKnowledge)
      → any (λ k. not (contains k (or_empty new.domain_knowledge))) ks ≡ false
      → all (λ k. contains k (or_empty new.domain_knowledge)) ks ≡ true
  unfolding any all
  none_lost [] h = refl
  none_lost (k ∷ ks) h = ground (arith, none_lost ks)

  rule_of_tool :
      (r : Result Raised String) (ds : List DomainKnowledge) (k : DomainKnowledge)
      → (r >>= λ d.
          raise_if
            (not (all (exactly_rule d) ds))
            (fail "Check domain_knowledge must materialize the exact latest Official definition"))
        ≡ ok tt
      → contains k ds ≡ true
      → (definition : String) × (r ≡ ok definition)
        × (k ≡ record { kind = DomainKnowledgeKind.business_rule; content = definition })
  rule_of_tool r ds k h m =
      let (d, p, q) = >>=-eq-ok r _ h in
      let every : all (exactly_rule d) ds ≡ true = ground arith in
      (d, p, eq_of_beq k _ (all→at (exactly_rule d) ds every k m))

  -- A Check on one knowledge definition that passes leaves the column mapping as it was, keeps
  -- every rule known before, and each rule it adds is the business rule with the exact official
  -- definition that the latest tool result holds.
  pub check_knowledge_definition-IsExactAddition :
      check_knowledge_definition loads latest_tool old new ≡ ok tt → IsExactAddition
  unfolding check_knowledge_definition
  check_knowledge_definition-IsExactAddition h =
      let (a, h1) = raise_if-eq-ok (new.column_mapping != old.column_mapping) _ _ h in
      let (b, h2) =
        raise_if-eq-ok
          (any (λ k. not (contains k (or_empty new.domain_knowledge)))
              (or_empty old.domain_knowledge)
            || leb 2 (length (added_knowledge old new)))
          _ _ h1 in
      let same : (new.column_mapping == old.column_mapping) ≡ true = ground arith in
      let lost : any (λ k. not (contains k (or_empty new.domain_knowledge)))
            (or_empty old.domain_knowledge)
          ≡ false =
        ground arith in
      record {
        same_mapping = eq_of_beq new.column_mapping old.column_mapping same;
        kept =
            all→at _ (or_empty old.domain_knowledge)
              (none_lost (or_empty old.domain_knowledge) lost);
        exact = λ k m g. elim (Bool-cases (is_empty (added_knowledge old new))) [
          | inl q ↦
              absurd
                (clash (rw (empty_contains k (added_knowledge old new) q) at (newly_added k m g)))
          | inr q ↦
              rule_of_tool (latest_official_definition loads latest_tool) (added_knowledge old new)
                k (rw q at h2) (newly_added k m g)
        ];
      }
    where
      clash : false ≡ true → ⊥
      clash c = cc
