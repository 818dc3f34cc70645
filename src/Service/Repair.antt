-- ===== src/Service/Repair.antt =====
-- service.py: the one bounded repair of a rejected Mapping: what may be repaired, and what the repair
-- may change.
pub mod Laws
use valibra.Prelude.{
  String, Bool, true, false, not, ◌&&◌, ◌||◌, Option, none, some, List, [], ◌∷◌, all, any, keep,
  contains, sorted, string_eq, list_eq, option_eq, ◌==◌, ◌!=◌, Result, ok, err, raise_if, for_each,
  ◌>>=◌, ◌>>◌, if◌then◌else◌,
}
use valibra.Prelude.Text.{text_le}
use valibra.Models.Vocabulary.{UnresolvedMappingReason, reason_eq}
use valibra.Models.Types.{
  Raised, validation_error, other_error, ColumnMapping, SqlGroundingState, GroundingRuntime,
  ValidationContext, SqlExpressions, mapping_eq,
}
use valibra.Models.State.{phrases}
use valibra.Models.Validation.{is_in_query, validate_sql_grounding_state}
use valibra.Models.Forms.{
  UnresolvedMapping, MappingGroundingResponse, GroundingResponse, unresolved_phrases,
}
use valibra.Service.Scope.{fail, find_mapping}

-- `_MappingValidationRepairScope`; of `rejected_mapping` the repair reads the phrases only.
pub record MappingRepairScope : Type 0 where
  pub rejected_phrases : List String
  pub tables : List String
  pub join_keys : List String
  pub valid_mappings : List ColumnMapping
  pub unresolved_mappings : List UnresolvedMapping
  pub invalid_phrases : List String
  pub validation_error_text : String

abbrev unresolved_beq : UnresolvedMapping → UnresolvedMapping → Bool
unresolved_beq a b = (a.phrase == b.phrase) && (a.reason == b.reason)

-- The value of `{item.phrase: item for item in items}` at a phrase: the last one counts.
unfoldable pub find_unresolved : String → List UnresolvedMapping → Option UnresolvedMapping
find_unresolved phrase [] = none
find_unresolved phrase (u ∷ us) = elim (find_unresolved phrase us) [
  | some found ↦ some found
  | none ↦ if u.phrase == phrase then some u else none
]

abbrev is_unresolved_as : UnresolvedMapping → Option UnresolvedMapping → Bool
is_unresolved_as u none = false
is_unresolved_as u (some found) = unresolved_beq found u

abbrev has_reason : UnresolvedMappingReason → Option UnresolvedMapping → Bool
has_reason reason none = false
has_reason reason (some found) = found.reason == reason

-- The phrases of the repaired omissions that were no omissions before.
unfoldable pub new_unresolved : MappingGroundingResponse → MappingRepairScope → List String
new_unresolved r scope =
    keep (λ p. not (contains p (unresolved_phrases scope.unresolved_mappings)))
      (unresolved_phrases r.unresolved_mappings)

unfoldable pub check_kept_mapping : MappingGroundingResponse → ColumnMapping → Result Raised Unit
check_kept_mapping r original =
    raise_if (find_mapping original.phrase r.column_mapping != some original)
      (fail "Mapping validation repair changed a previously valid mapping")

-- Each earlier omission is looked up as the dictionary of the earlier ones holds it.
unfoldable pub check_kept_omission :
    MappingGroundingResponse → MappingRepairScope → UnresolvedMapping → Result Raised Unit
check_kept_omission r scope original =
    raise_if
      (elim (find_unresolved original.phrase scope.unresolved_mappings) [
        | none ↦ true
        | some last ↦
            not (is_unresolved_as last (find_unresolved original.phrase r.unresolved_mappings))
      ])
      (fail "Mapping validation repair changed an existing omission")

unfoldable pub check_not_dropped : MappingGroundingResponse → String → Result Raised Unit
check_not_dropped r phrase =
    raise_if
      (not (contains phrase (phrases r.column_mapping))
        && not (contains phrase (unresolved_phrases r.unresolved_mappings)))
      (fail "Mapping validation repair silently dropped an invalid phrase")

unfoldable pub validate_mapping_repair :
    MappingGroundingResponse → MappingRepairScope → Result Raised Unit
unfolding check_kept_mapping check_kept_omission check_not_dropped new_unresolved
validate_mapping_repair r scope = do
  raise_if (r.tables != scope.tables || r.join_keys != scope.join_keys)
      (fail "Mapping validation repair changed tables or join_keys")
  raise_if (not (all (λ p. contains p scope.rejected_phrases) (phrases r.column_mapping)))
      (fail "Mapping validation repair added a new phrase")
  _ ← for_each (check_kept_mapping r) scope.valid_mappings
  _ ← for_each (check_kept_omission r scope) scope.unresolved_mappings
  raise_if (not (all (λ p. contains p scope.invalid_phrases) (new_unresolved r scope)))
      (fail "Mapping validation repair added an unrelated omission")
  raise_if
      (any
        (λ p. not (
          has_reason UnresolvedMappingReason.no_direct_metadata
            (find_unresolved p r.unresolved_mappings)))
        (new_unresolved r scope))
      (fail "deleted invalid mappings must use no_direct_metadata")
  for_each (check_not_dropped r) scope.invalid_phrases

-- `_validate_mapping_repair_scope`.
unfoldable pub validate_mapping_repair_scope :
    GroundingResponse → MappingRepairScope → Result Raised Unit
unfolding validate_mapping_repair
validate_mapping_repair_scope (GroundingResponse.mapping r) scope = validate_mapping_repair r scope
validate_mapping_repair_scope _ scope =
    err (fail "Mapping validation repair returned the wrong response type")

-- `_validate_mapping_omission_phrases`.
unfoldable pub validate_mapping_omission_phrases :
    GroundingResponse → ValidationContext → Result Raised Unit
validate_mapping_omission_phrases (GroundingResponse.mapping r) context =
    for_each
      (λ u.
        raise_if (not (is_in_query context u.phrase))
          (fail "unresolved mapping phrase is not a verbatim query substring"))
      r.unresolved_mappings
validate_mapping_omission_phrases _ context = ok tt

module _ (x : SqlExpressions) where
  -- The State with the proposed structure and these mappings alone.
  abbrev common_state :
      SqlGroundingState → MappingGroundingResponse → List ColumnMapping → SqlGroundingState
  common_state old r ms = record old {
    tables = some r.tables;
    join_keys = some r.join_keys;
    column_mapping = some ms;
  }

  -- The State passes, or fails with a validation error; any other exception goes on.
  abbrev tested : Result Raised SqlGroundingState → Result Raised Bool
  tested (ok _) = ok true
  tested (err (validation_error _)) = ok false
  tested (err other_error) = err other_error

  abbrev put_mapping :
      Bool
      → ColumnMapping
      → Option (List ColumnMapping × List String)
      → Option (List ColumnMapping × List String)
  put_mapping valid m none = none
  put_mapping true m (some (valid, invalid)) = some (m ∷ valid, invalid)
  put_mapping false m (some (valid, invalid)) = some (valid, m.phrase ∷ invalid)

  -- The valid mappings and the phrases of the others; `none` at a phrase that no query holds.
  split_mappings :
      SqlGroundingState
      → MappingGroundingResponse
      → ValidationContext
      → List ColumnMapping
      → Result Raised (Option (List ColumnMapping × List String))
  split_mappings old r context [] = ok (some ([], []))
  split_mappings old r context (m ∷ ms) =
      let rest = split_mappings old r context ms in
      if not (is_in_query context m.phrase)
      then ok none
      else (tested (validate_sql_grounding_state x (common_state old r (m ∷ [])) context)
          >>= λ valid. rest >>= λ found. ok (put_mapping valid m found))

  abbrev scope_of_split :
      MappingGroundingResponse
      → String
      → Option (List ColumnMapping × List String)
      → Option MappingRepairScope
  scope_of_split r message none = none
  scope_of_split r message (some (valid, [])) = none
  scope_of_split r message (some (valid, p ∷ ps)) = some (record {
    rejected_phrases = phrases r.column_mapping;
    tables = r.tables;
    join_keys = r.join_keys;
    valid_mappings = valid;
    unresolved_mappings = r.unresolved_mappings;
    invalid_phrases = sorted text_le (p ∷ ps);
    validation_error_text = message;
  })

  repair_scope_of :
      SqlGroundingState
      → MappingGroundingResponse
      → ValidationContext
      → String
      → Result Raised (Option MappingRepairScope)
  unfolding split_mappings
  repair_scope_of old r context message = do
    common ← tested (validate_sql_grounding_state x (common_state old r []) context)
    if not common
        then ok none
        else (split_mappings old r context r.column_mapping >>= λ found.
            ok (scope_of_split r message found))

  -- `_mapping_state_repair_scope`.
  unfoldable pub mapping_state_repair_scope :
      GroundingRuntime
      → GroundingResponse
      → ValidationContext
      → String
      → Result Raised (Option MappingRepairScope)
  unfolding repair_scope_of
  mapping_state_repair_scope runtime (GroundingResponse.mapping r) context message =
      repair_scope_of runtime.grounding_state r context message
  mapping_state_repair_scope runtime _ context message = ok none
