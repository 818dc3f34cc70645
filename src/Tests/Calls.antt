-- ===== src/Tests/Calls.antt =====
-- Two Grounding calls: a Structure call of the first phase on an empty State with one table
-- proposed, and a State proposed after the Grounding is over.
use valibra.Prelude.{
  err, String, true, false, Option, none, some, [], ◌∷◌, Result, string_eq, if◌then◌else◌,
}
use valibra.Prelude.Json.{Fields, null, text, field, end}
use valibra.Models.Vocabulary.{GroundingStage, FocusDimension, GroundingDimension}
use valibra.Models.Types.{
  Raised, SqlGroundingState, GroundingRuntime, ValidationContext, ParsedExpression, SqlExpressions,
  other_error,
}
use valibra.Models.State.{is_some}
use valibra.Models.Forms.{GroundingResponse}
use valibra.Observations.{ObservationType, SqlGroundingObservation}
use valibra.Updater.{Proposal, proposed, TransportNormalization}
use valibra.Service.Documents.{dump_state}
use valibra.Service.Repair.{MappingRepairScope}
use valibra.Service.Outcome.{Externals, SqlGroundingServiceResult, not_attempted_telemetry}
use valibra.Telemetry.{UpdateStatus}
use valibra.Service.Process.{process_sql_grounding_observation}

abbrev pub empty_state : SqlGroundingState
empty_state = record {
  tables = none;
  join_keys = none;
  column_mapping = none;
  domain_knowledge = none;
}

abbrev pub runtime : GroundingRuntime
runtime = record {
  grounding_revision = 4;
  stage = GroundingStage.initial_grounding;
  focus_dimension = FocusDimension.tables;
  grounding_state = empty_state;
}

-- `orders.total`.
abbrev total : ParsedExpression
total = record {
  columns = record { catalog = ""; db = ""; table = "orders"; name = "total" } ∷ [];
  has_query = false;
  json_nodes = [];
  inner_table = err other_error;
}

abbrev pub sql : SqlExpressions
sql = record {
  canonical_field = λ _. true;
  canonical_relation = λ _. true;
  field_tables = λ _. some ("orders" ∷ []);
  relation_tables = λ _. some ("orders" ∷ []);
  parse = λ _. some (some total ∷ []);
}

abbrev pub digest_of_empty : String
digest_of_empty = "0000000000000000000000000000000000000000000000000000000000000000"

abbrev pub digest_of_other : String
digest_of_other = "1111111111111111111111111111111111111111111111111111111111111111"

abbrev pub sha256 : SqlGroundingState → String
sha256 s = if is_some s.tables then digest_of_other else digest_of_empty

abbrev pub externals : Externals
externals = record {
  sql = sql;
  texts = record { asks_for_database_implementation = λ _. false; is_plain_select = λ _. true };
  loads = λ _. none;
  load_payload = λ _. none;
  sha256 = sha256;
  semantic_ref = λ _. digest_of_empty;
  prompt_sha256 = "";
  form_schema_sha256 = "";
  configuration_sha256 = "";
}

abbrev pub o : SqlGroundingObservation
o = record {
  observation_id = "obs_1";
  task_id = "task";
  phase = 1;
  sequence = 1;
  observation_type = ObservationType.schema;
  tool_name = some "get_schema";
  function_call_id = some "call";
  content = null;
  summary = "schema";
  raw_digest = digest_of_empty;
  private_raw_ref = none;
}

abbrev pub context : ValidationContext
context = record {
  current_query = "total of orders";
  latest_observation_id = "obs_1";
  follow_up_query = none;
  known_tables = "orders" ∷ [];
  known_columns = "orders.total" ∷ [];
  supported_json_paths = [];
  supported_domain_knowledge = [];
}

abbrev pub input_fields : Fields
input_fields =
    field "query" (text "total of orders")
      (field "current_state" (dump_state empty_state) (field "schema" (text "orders") end))

abbrev pub input : Option Fields
input = some input_fields

abbrev pub response : GroundingResponse
response = GroundingResponse.structure (record { tables = "orders" ∷ []; join_keys = [] })

abbrev pub proposal : Proposal
proposal = proposed (record {
  response = response;
  telemetry = not_attempted_telemetry externals "";
  transport_normalization = TransportNormalization.unchanged;
  knowledge_omission_mapping_ignored = [];
  knowledge_retirement_audit_sidecar = none;
})

abbrev pub propose : Option MappingRepairScope → Proposal
propose _ = proposal

abbrev pub run : Result Raised SqlGroundingServiceResult
run = process_sql_grounding_observation externals runtime o context [] input false propose

abbrev pub accepted_result : SqlGroundingServiceResult
accepted_result = record {
  runtime = record {
    grounding_revision = 5;
    stage = GroundingStage.initial_grounding;
    focus_dimension = FocusDimension.column_mapping;
    grounding_state = record {
      tables = some ("orders" ∷ []);
      join_keys = some [];
      column_mapping = none;
      domain_knowledge = none;
    };
  };
  response = some response;
  llm_telemetry = not_attempted_telemetry externals "";
  state_update = record {
    observation_id = "obs_1";
    stage = GroundingStage.initial_grounding;
    status = UpdateStatus.accepted;
    old_state_sha256 = digest_of_empty;
    new_state_sha256 = digest_of_other;
    changed_dimensions = GroundingDimension.tables ∷ GroundingDimension.join_keys ∷ [];
    revision_before = 4;
    revision_after = 5;
    focus_before = FocusDimension.tables;
    focus_after = FocusDimension.column_mapping;
    error_type = none;
  };
  transport_normalization = some TransportNormalization.unchanged;
  mapping_validation_repair = none;
  knowledge_omission_mapping_ignored = [];
  knowledge_preserved_by_default_refs = [];
  knowledge_retirement_audit_sidecar = none;
}

-- The same table proposed after the Grounding is over.
abbrev pub frozen_runtime : GroundingRuntime
frozen_runtime = record {
  grounding_revision = 4;
  stage = GroundingStage.sql_attempt;
  focus_dimension = FocusDimension.none;
  grounding_state = record empty_state { tables = some ("orders" ∷ []) };
}

abbrev pub whole_response : GroundingResponse
whole_response = GroundingResponse.whole (record {
  sql_grounding_state = record empty_state { tables = some ("orders" ∷ []); join_keys = some [] };
  user_clarification_requests = [];
  next_focus_dimension = FocusDimension.none;
})

abbrev pub propose_whole : Option MappingRepairScope → Proposal
propose_whole _ = proposed (record {
  response = whole_response;
  telemetry = not_attempted_telemetry externals "";
  transport_normalization = TransportNormalization.unchanged;
  knowledge_omission_mapping_ignored = [];
  knowledge_retirement_audit_sidecar = none;
})

abbrev pub frozen_run : Result Raised SqlGroundingServiceResult
frozen_run =
    process_sql_grounding_observation externals frozen_runtime o context [] none false propose_whole

abbrev pub frozen_result : SqlGroundingServiceResult
frozen_result = record {
  runtime = frozen_runtime;
  response = some whole_response;
  llm_telemetry = not_attempted_telemetry externals "";
  state_update = record {
    observation_id = "obs_1";
    stage = GroundingStage.sql_attempt;
    status = UpdateStatus.rejected;
    old_state_sha256 = digest_of_other;
    new_state_sha256 = digest_of_other;
    changed_dimensions = [];
    revision_before = 4;
    revision_after = 4;
    focus_before = FocusDimension.none;
    focus_after = FocusDimension.none;
    error_type = some "state_validation_failed";
  };
  transport_normalization = some TransportNormalization.unchanged;
  mapping_validation_repair = none;
  knowledge_omission_mapping_ignored = [];
  knowledge_preserved_by_default_refs = [];
  knowledge_retirement_audit_sidecar = none;
}
