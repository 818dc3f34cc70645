-- ===== src/Service/FormRepair.antt =====
-- service.py: `_mapping_form_repair_scope`, for a Mapping whose JSON was read but whose form was
-- refused.
use valibra.Prelude.{
  String, not, ◌||◌, Option, none, some, List, [], ◌∷◌, any, is_empty, contains, sorted, string_eq,
  ◌==◌, Result, ok, err, ◌>>=◌, if◌then◌else◌,
}
use valibra.Prelude.Text.{text_le, is_blank}
use valibra.Prelude.Json.{Json, Fields, text, arr, obj, get, keys, items}
use valibra.Models.Types.{Raised, other_error, max_phrase_chars, ColumnMapping, SqlExpressions}
use valibra.Models.State.{is_bounded_text, make_column_mapping}
use valibra.Models.Forms.{
  UnresolvedMapping, MappingGroundingResponse, unresolved_phrases, is_same_set,
  make_mapping_response,
}
use valibra.Updater.{GroundingUpdaterError}
use valibra.Service.Documents.{text_field, parse_unresolved}
use valibra.Service.Repair.{MappingRepairScope}

-- A JSON list of texts.
parse_texts : List Json → Result Raised (List String)
parse_texts [] = ok []
parse_texts (text s ∷ rest) = parse_texts rest >>= λ ss. ok (s ∷ ss)
parse_texts (_ ∷ rest) = err other_error

texts_field : String → Fields → Result Raised (List String)
unfolding parse_texts get items
texts_field key fields = elim (get key fields) [
  | some (arr raw) ↦ parse_texts (items raw)
  | _ ↦ err other_error
]

parse_unresolved_items : List Json → Result Raised (List UnresolvedMapping)
parse_unresolved_items [] = ok []
parse_unresolved_items (item ∷ rest) = do
  u ← parse_unresolved item
  us ← parse_unresolved_items rest
  ok (u ∷ us)

unresolved_field : String → Fields → Result Raised (List UnresolvedMapping)
unfolding parse_unresolved_items get items
unresolved_field key fields = elim (get key fields) [
  | some (arr raw) ↦ parse_unresolved_items (items raw)
  | _ ↦ err other_error
]

-- What the loop over the entries has found: the valid mappings and the phrases, latest first.
record Entries : Type 0 where
  valid : List ColumnMapping
  invalid : List String
  seen : List String

abbrev snoc {ℓ} : {A : Type ℓ} → List A → A → List A
snoc [] a = a ∷ []
snoc (x ∷ xs) a = x ∷ snoc xs a

module _ (x : SqlExpressions) where
  -- An entry is valid, or only its targets are at fault; anything else ends the repair.
  add_entry : Entries → String → Fields → Option Entries
  unfolding texts_field
  add_entry found phrase fields =
      if is_blank phrase
        || contains phrase found.seen
        || not (is_bounded_text max_phrase_chars phrase)
      then none
      else elim (texts_field "targets" fields >>= λ targets. make_column_mapping x phrase targets) [
        | ok m ↦ some (record found { valid = snoc found.valid m; seen = snoc found.seen phrase })
        | err _ ↦
            some
              (record found { invalid = snoc found.invalid phrase; seen = snoc found.seen phrase })
      ]

  read_item : Entries → Json → Option Entries
  unfolding add_entry text_field get
  read_item found (obj fields) =
      if not (is_same_set (keys fields) ("phrase" ∷ "targets" ∷ []))
      then none
      else elim (get "phrase" fields) [
        | some (text phrase) ↦ add_entry found phrase fields
        | _ ↦ none
      ]
  read_item found _ = none

  read_items : Entries → List Json → Option Entries
  unfolding read_item
  read_items found [] = some found
  read_items found (item ∷ rest) = elim (read_item found item) [
    | none ↦ none
    | some more ↦ read_items more rest
  ]

  -- The structure and the omissions, validated with no mapping at all.
  common_response : Fields → Result Raised MappingGroundingResponse
  unfolding texts_field unresolved_field
  common_response fields = do
    tables ← texts_field "tables" fields
    join_keys ← texts_field "join_keys" fields
    unresolved ← unresolved_field "unresolved_mappings" fields
    make_mapping_response x tables join_keys [] unresolved

  scope_of_entries : Entries → MappingGroundingResponse → String → Option MappingRepairScope
  scope_of_entries found common message =
      if any (λ p. contains p (unresolved_phrases common.unresolved_mappings)) found.seen
      then none
      else (if is_empty found.invalid
          then none
          else some (record {
            rejected_phrases = found.seen;
            tables = common.tables;
            join_keys = common.join_keys;
            valid_mappings = found.valid;
            unresolved_mappings = common.unresolved_mappings;
            invalid_phrases = sorted text_le found.invalid;
            validation_error_text = message;
          }))

  scope_of_payload : Fields → String → Option MappingRepairScope
  unfolding common_response read_items scope_of_entries keys get items
  scope_of_payload fields message =
      if not (
        is_same_set (keys fields)
          ("tables" ∷ "join_keys" ∷ "column_mapping" ∷ "unresolved_mappings" ∷ []))
      then none
      else elim (get "column_mapping" fields) [
        | some (arr raw) ↦ elim (common_response fields) [
          | err _ ↦ none
          | ok common ↦
              elim (read_items (record { valid = []; invalid = []; seen = [] }) (items raw)) [
                | none ↦ none
                | some found ↦ scope_of_entries found common message
              ]
        ]
        | _ ↦ none
      ]

  -- `validation_detail or reason`.
  abbrev message_of : GroundingUpdaterError → String
  message_of e = elim e.validation_detail [
    | none ↦ e.reason
    | some detail ↦ if detail == "" then e.reason else detail
  ]

  -- `load_payload` takes the transport fence off and reads the JSON, `none` where either raises.
  unfoldable pub mapping_form_repair_scope :
      (String → Option Json) → GroundingUpdaterError → Option MappingRepairScope
  unfolding scope_of_payload
  mapping_form_repair_scope load_payload e =
      if not (e.reason == "form_validation_failed") then none else elim e.rejected_mapping_payload [
        | none ↦ none
        | some payload ↦ elim (load_payload payload) [
          | some (obj fields) ↦ scope_of_payload fields (message_of e)
          | _ ↦ none
        ]
      ]
