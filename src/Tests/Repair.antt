-- ===== src/Tests/Repair.antt =====
-- A repair that drops one invalid mapping and keeps the valid one.
use valibra.Prelude.{◌≡◌, refl, [], ◌∷◌, ok, all, any, keep, contains, for_each, string_eq}
use valibra.Models.Vocabulary.{UnresolvedMappingReason}
use valibra.Models.Types.{ColumnMapping}
use valibra.Models.Forms.{MappingGroundingResponse, GroundingResponse}
use valibra.Service.Scope.{find_mapping}
use valibra.Service.Repair.{MappingRepairScope, validate_mapping_repair_scope, find_unresolved}
use valibra.Service.Repair.Laws.{IsLimited, validate_mapping_repair_scope-IsLimited}

abbrev total : ColumnMapping
total = record { phrase = "total"; targets = "orders.total" ∷ [] }

abbrev scope : MappingRepairScope
scope = record {
  rejected_phrases = "total" ∷ "big" ∷ [];
  tables = "orders" ∷ [];
  join_keys = [];
  valid_mappings = total ∷ [];
  unresolved_mappings = [];
  invalid_phrases = "big" ∷ [];
  validation_error_text = "unknown column";
}

abbrev repaired : MappingGroundingResponse
repaired = record {
  tables = "orders" ∷ [];
  join_keys = [];
  column_mapping = total ∷ [];
  unresolved_mappings =
      record { phrase = "big"; reason = UnresolvedMappingReason.no_direct_metadata } ∷ [];
}

passes : validate_mapping_repair_scope (GroundingResponse.mapping repaired) scope ≡ ok tt
unfolding validate_mapping_repair_scope find_mapping find_unresolved all any keep contains for_each
passes = refl

validate_mapping_repair_scope-IsLimited_example :
    (r : MappingGroundingResponse) × (GroundingResponse.mapping repaired
      ≡ GroundingResponse.mapping r)
    × IsLimited r scope
validate_mapping_repair_scope-IsLimited_example =
    validate_mapping_repair_scope-IsLimited (GroundingResponse.mapping repaired) scope passes
