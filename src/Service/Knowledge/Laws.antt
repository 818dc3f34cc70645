-- ===== src/Service/Knowledge/Laws.antt =====
-- What the Knowledge stage keeps and what it takes out.
use valibra.Prelude.{
  String, ◌≡◌, refl, arith, true, false, not, ◌&&◌, ◌||◌, inl, inr, Bool-cases, Option, List, [],
  ◌∷◌, ◌++◌, is_empty, any, contains, contains-append, contains-distinct, contains-sorted,
  contains-keep, empty_contains, has_no_duplicates, has_no_duplicates-distinct,
  has_no_duplicates-sorted, keep, distinct, sorted, string_eq, eq_of_beq, beq_refl, ◌==◌, Result,
  ok, err, >>=-eq-ok, ok_injective, ap,
}
use valibra.Prelude.Text.{text_le}
use valibra.Prelude.Json.{Fields}
use valibra.Models.Types.{
  Raised, ColumnMapping, DomainKnowledge, SqlGroundingState, mapping_eq, knowledge_eq,
}
use valibra.Models.State.{or_empty, phrases, knowledge_le}
use valibra.Models.Forms.{KnowledgeGroundingResponse}
use valibra.Service.Knowledge.{
  merge_knowledge, materialize_knowledge_update, materialize_official_business_rules,
  is_p2_grounding_input, ignored_phrases, sanitize, ignore_phrases,
}

module _ (semantic_ref : DomainKnowledge → String) where
  merged-contains :
      (prior selected : List DomainKnowledge) (k : DomainKnowledge)
      → contains k (merge_knowledge semantic_ref prior selected).0
        ≡ (contains k prior || contains k selected)
  unfolding merge_knowledge
  merged-contains prior selected k =
      rw
        (
          contains-sorted knowledge_le k (distinct (prior ++ selected)),
          contains-distinct k (prior ++ selected),
        )
        (contains-append k prior selected)

  merged-has_no_duplicates :
      (prior selected : List DomainKnowledge)
      → has_no_duplicates (merge_knowledge semantic_ref prior selected).0 ≡ true
  unfolding merge_knowledge
  merged-has_no_duplicates prior selected =
      has_no_duplicates-sorted knowledge_le (distinct (prior ++ selected))
        (has_no_duplicates-distinct (prior ++ selected))

  -- What a Knowledge update of the second phase is, for the rules that the response selects.
  abbrev pub IsMerge : SqlGroundingState → List DomainKnowledge → List DomainKnowledge → Type 0
  IsMerge old selected merged =
      ((k : DomainKnowledge)
        → contains k merged ≡ (contains k (or_empty old.domain_knowledge) || contains k selected))
      × (has_no_duplicates merged ≡ true)

  -- A Knowledge update of the second phase that succeeds holds each rule known before and each
  -- rule that the response selects from the official definitions, no other, and none twice.
  pub p2_knowledge_update :
      (old : SqlGroundingState) (response : KnowledgeGroundingResponse) (input : Option Fields)
      {merged : List DomainKnowledge} {refs : List String}
      → is_p2_grounding_input input ≡ true
      → materialize_knowledge_update semantic_ref old response input ≡ ok (merged, refs)
      → (selected : List DomainKnowledge) × (materialize_official_business_rules
            response.selected_knowledge_ids input
          ≡ ok selected)
        × IsMerge old selected merged
  unfolding materialize_knowledge_update
  p2_knowledge_update old response input {merged} {refs} p2 h =
      let (selected, found, rest) =
        >>=-eq-ok (materialize_official_business_rules response.selected_knowledge_ids input) _ h in
      let e : merge_knowledge semantic_ref (or_empty old.domain_knowledge) selected
          ≡ (merged, refs) =
        ok_injective {E = Raised} (rw p2 at rest) in
      let f = ap (λ (t : List DomainKnowledge × List String). t.0) e in
      (
        selected,
        found,
        rw (← f) (
          merged-contains (or_empty old.domain_knowledge) selected,
          merged-has_no_duplicates (or_empty old.domain_knowledge) selected,
        ),
      )

-- A mapping's phrase is among the phrases.
contains-phrases :
    (m : ColumnMapping) (ms : List ColumnMapping)
    → contains m ms ≡ true
    → contains m.phrase (phrases ms) ≡ true
unfolding contains
contains-phrases m [] h = cc
contains-phrases m (x ∷ ms) h = elim (Bool-cases (x == m)) [
  | inl q ↦ let s = eq_of_beq x m q in rw (s, beq_refl m.phrase)
  | inr q ↦ let t = contains-phrases m ms (rw q at h) in ground arith
]

-- Nothing is taken out: no mapping has an unresolved phrase.
untouched :
    (response : KnowledgeGroundingResponse) (unresolved : List String) (m : ColumnMapping)
    → is_empty (ignored_phrases response unresolved) ≡ true
    → contains m response.column_mapping ≡ true
    → contains m.phrase unresolved ≡ false
unfolding ignored_phrases
untouched response unresolved m h k =
    let found = keep (λ p. contains p unresolved) (phrases response.column_mapping) in
    let a : contains m.phrase found ≡ contains m.phrase (sorted text_le found) =
      rw (contains-sorted text_le m.phrase found) in
    let b = empty_contains m.phrase (sorted text_le found) h in
    let c = contains-phrases m response.column_mapping k in
    ground
      (arith, contains-keep (λ p. contains p unresolved) (phrases response.column_mapping) m.phrase)

-- The response without the mappings of the unresolved phrases.
pub record IsSanitized (response r : KnowledgeGroundingResponse) (unresolved : List String)
    : Type 0 where
  pub mappings :
      (m : ColumnMapping)
      → contains m r.column_mapping
        ≡ (not (contains m.phrase unresolved) && contains m response.column_mapping)
  pub selection : r.selected_knowledge_ids ≡ response.selected_knowledge_ids

sanitize-IsSanitized :
    (response : KnowledgeGroundingResponse) (unresolved : List String)
    → IsSanitized response (sanitize response unresolved) unresolved
unfolding sanitize
sanitize-IsSanitized response unresolved = record {
  mappings = λ m. contains-keep (λ n. not (contains n.phrase unresolved)) response.column_mapping m;
  selection = refl;
}

untouched-IsSanitized :
    (response : KnowledgeGroundingResponse) (unresolved : List String)
    → ((m : ColumnMapping)
        → contains m response.column_mapping ≡ true
        → contains m.phrase unresolved ≡ false)
    → IsSanitized response response unresolved
untouched-IsSanitized response unresolved h = record {
  mappings = λ m. elim (Bool-cases (contains m response.column_mapping)) [
    | inl q ↦ rw (q, h m q)
    | inr q ↦ elim (Bool-cases (contains m.phrase unresolved)) [
      | inl k ↦ rw (q, k)
      | inr k ↦ rw (q, k)
    ]
  ];
  selection = refl;
}

same_response :
    {a r : KnowledgeGroundingResponse} {x y : List String}
    → ◌≡◌ {A = Result Raised (KnowledgeGroundingResponse × List String)} (ok (a, x)) (ok (r, y))
    → a ≡ r
same_response h =
    ap (λ (t : KnowledgeGroundingResponse × List String). t.0) (ok_injective {E = Raised} h)

-- When the Knowledge response passes the omission carrier, the response that goes on holds exactly
-- the mappings of the given one whose phrase is not unresolved, and selects the same rules.
pub ignore_phrases-IsSanitized :
    (old : SqlGroundingState) (response : KnowledgeGroundingResponse) (unresolved : List String)
    {r : KnowledgeGroundingResponse} {ignored : List String}
    → ignore_phrases old response unresolved ≡ ok (r, ignored)
    → IsSanitized response r unresolved
unfolding ignore_phrases
ignore_phrases-IsSanitized old response unresolved {r} {ignored} h =
    elim (Bool-cases (is_empty unresolved)) [
      | inl q ↦
          rw (← same_response (rw q at h)) (
            untouched-IsSanitized response unresolved (λ m k. empty_contains m.phrase unresolved q))
      | inr q ↦
          elim (Bool-cases
            (any (λ p. contains p unresolved) (phrases (or_empty old.column_mapping)))) [
              | inl k ↦ absurd (conflict (rw (q, k) at h))
              | inr k ↦ elim (Bool-cases (is_empty (ignored_phrases response unresolved))) [
                | inl t ↦ rw (← same_response (rw (q, k, t) at h)) (
                    untouched-IsSanitized response unresolved
                      (λ m. untouched response unresolved m t))
                | inr t ↦
                    rw (← same_response (rw (q, k, t) at h))
                      (sanitize-IsSanitized response unresolved)
              ]
            ]
    ]
  where
    conflict :
        {e : Raised}
        → ◌≡◌ {A = Result Raised (KnowledgeGroundingResponse × List String)}
            (err e)
            (ok (r, ignored))
        → ⊥
    conflict c = cc
