-- ===== src/Service/Repair/Laws.antt =====
-- What a repaired Mapping may change.
use valibra.Prelude.{
  String, ◌≡◌, ◌⊎◌, refl, arith, inl, inr, Bool-cases, true, false, not, ◌||◌, Option, none, some,
  List, [], ◌∷◌, all, contains, contains-keep, contains_head, contains_tail, all→at, for_each,
  for_each→at, ok, raise_if-eq-ok, >>=-eq-ok, string_eq, list_eq, option_eq, ◌==◌, ◌!=◌, eq_of_beq,
  if◌then◌else◌,
}
use valibra.Models.Types.{ColumnMapping, mapping_eq}
use valibra.Models.State.{phrases}
use valibra.Models.Forms.{MappingGroundingResponse, GroundingResponse, unresolved_phrases}
use valibra.Service.Scope.{find_mapping}
use valibra.Service.Repair.{
  MappingRepairScope, new_unresolved, check_kept_mapping, check_kept_omission, check_not_dropped,
  validate_mapping_repair, validate_mapping_repair_scope,
}

-- The repair touches nothing but the invalid phrases.
pub record IsLimited (r : MappingGroundingResponse) (scope : MappingRepairScope) : Type 0 where
  pub same_tables : r.tables ≡ scope.tables
  pub same_join_keys : r.join_keys ≡ scope.join_keys
  pub no_new_phrase :
      (p : String)
      → contains p (phrases r.column_mapping) ≡ true
      → contains p scope.rejected_phrases ≡ true
  pub kept :
      (m : ColumnMapping)
      → contains m scope.valid_mappings ≡ true
      → contains m r.column_mapping ≡ true
  pub only_invalid_omitted :
      (p : String)
      → contains p (unresolved_phrases r.unresolved_mappings) ≡ true
      → contains p (unresolved_phrases scope.unresolved_mappings) ≡ false
      → contains p scope.invalid_phrases ≡ true
  pub none_dropped :
      (p : String)
      → contains p scope.invalid_phrases ≡ true
      → (contains p (phrases r.column_mapping) ≡ true)
        ⊎ (contains p (unresolved_phrases r.unresolved_mappings) ≡ true)

-- What is found under a phrase is a mapping of the list.
found-contains :
    (phrase : String) (ms : List ColumnMapping) (m : ColumnMapping)
    → find_mapping phrase ms ≡ some m
    → contains m ms ≡ true
unfolding find_mapping
found-contains phrase [] m h = cc
found-contains phrase (x ∷ ms) m h = go (find_mapping phrase ms) (found-contains phrase ms m) h
  where
    missing : ◌≡◌ {A = Option ColumnMapping} none (some m) → ⊥
    missing k = cc

    go :
        (found : Option ColumnMapping)
        → (found ≡ some m → contains m ms ≡ true)
        → (elim found [ some a ↦ some a | none ↦ if x.phrase == phrase then some x else none ])
          ≡ some m
        → contains m (x ∷ ms) ≡ true
    go (some a) deeper k = contains_tail m x ms (deeper k)
    go none deeper k = elim (Bool-cases (x.phrase == phrase)) [
      | inl q ↦
          let s : some x ≡ some m = rw q at k in let t : x ≡ m = cc in rw t (contains_head m ms)
      | inr q ↦ absurd (missing (rw q at k))
    ]

module _ (r : MappingGroundingResponse) (scope : MappingRepairScope) where
  kept_mapping :
      (m : ColumnMapping) → check_kept_mapping r m ≡ ok tt → contains m r.column_mapping ≡ true
  unfolding check_kept_mapping
  kept_mapping m h =
      let same : (find_mapping m.phrase r.column_mapping == some m) ≡ true = ground arith in
      found-contains m.phrase r.column_mapping m (eq_of_beq _ _ same)

  not_dropped :
      (p : String)
      → check_not_dropped r p ≡ ok tt
      → (contains p (phrases r.column_mapping) ≡ true)
        ⊎ (contains p (unresolved_phrases r.unresolved_mappings) ≡ true)
  unfolding check_not_dropped
  not_dropped p h = ground arith

  newly_omitted :
      (p : String)
      → contains p (unresolved_phrases r.unresolved_mappings) ≡ true
      → contains p (unresolved_phrases scope.unresolved_mappings) ≡ false
      → contains p (new_unresolved r scope) ≡ true
  unfolding new_unresolved
  newly_omitted p h k = rw (
    contains-keep (λ q. not (contains q (unresolved_phrases scope.unresolved_mappings)))
        (unresolved_phrases r.unresolved_mappings) p,
    h,
    k,
  )

  validate_mapping_repair-IsLimited :
      {u : Unit {0}} → validate_mapping_repair r scope ≡ ok u → IsLimited r scope
  unfolding validate_mapping_repair
  validate_mapping_repair-IsLimited h =
      let (a, h1) =
        raise_if-eq-ok (r.tables != scope.tables || r.join_keys != scope.join_keys) _ _ h in
      let (b, h2) =
        raise_if-eq-ok
          (not (all (λ p. contains p scope.rejected_phrases) (phrases r.column_mapping))) _ _ h1 in
      let (u, c, h3) = >>=-eq-ok (for_each (check_kept_mapping r) scope.valid_mappings) _ h2 in
      let (v, d, h4) =
        >>=-eq-ok (for_each (check_kept_omission r scope) scope.unresolved_mappings) _ h3 in
      let (e, h5) =
        raise_if-eq-ok (not (all (λ p. contains p scope.invalid_phrases) (new_unresolved r scope)))
          _ _ h4 in
      let (f, h6) = raise_if-eq-ok _ _ (for_each (check_not_dropped r) scope.invalid_phrases) h5 in
      let t : (r.tables == scope.tables) ≡ true = ground arith in
      let j : (r.join_keys == scope.join_keys) ≡ true = ground arith in
      let old : all (λ p. contains p scope.rejected_phrases) (phrases r.column_mapping) ≡ true =
        ground arith in
      let new : all (λ p. contains p scope.invalid_phrases) (new_unresolved r scope) ≡ true =
        ground arith in
      record {
        same_tables = eq_of_beq r.tables scope.tables t;
        same_join_keys = eq_of_beq r.join_keys scope.join_keys j;
        no_new_phrase = all→at _ (phrases r.column_mapping) old;
        kept = λ m k. kept_mapping m (for_each→at _ scope.valid_mappings c m k);
        only_invalid_omitted =
            λ p k l. all→at _ (new_unresolved r scope) new p (newly_omitted p k l);
        none_dropped = λ p k. not_dropped p (for_each→at _ scope.invalid_phrases h6 p k);
      }

-- A response that passes the check of a repair is a Mapping response with the scope's tables and
-- relations, whose phrases were all in the rejected form, which still holds every mapping that was
-- valid, whose new omissions are all invalid phrases, and which drops no invalid phrase silently.
pub validate_mapping_repair_scope-IsLimited :
    (response : GroundingResponse) (scope : MappingRepairScope) {u : Unit {0}}
    → validate_mapping_repair_scope response scope ≡ ok u
    → (r : MappingGroundingResponse) × (response ≡ GroundingResponse.mapping r) × IsLimited r scope
unfolding validate_mapping_repair_scope
validate_mapping_repair_scope-IsLimited (GroundingResponse.mapping r) scope h =
    (r, refl, validate_mapping_repair-IsLimited r scope h)
validate_mapping_repair_scope-IsLimited (GroundingResponse.whole r) scope h = cc
validate_mapping_repair_scope-IsLimited (GroundingResponse.structure r) scope h = cc
validate_mapping_repair_scope-IsLimited (GroundingResponse.knowledge r) scope h = cc
validate_mapping_repair_scope-IsLimited (GroundingResponse.check_form r) scope h = cc
validate_mapping_repair_scope-IsLimited (GroundingResponse.final_gate r) scope h = cc
