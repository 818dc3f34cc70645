-- ===== src/Observations.antt =====
-- valibra_agent/sql_grounding/observations.py: what an updater may see, with the checks of its
-- identity. The digest and the identifier are SHA-256 of canonical JSON, and so are parameters.
use Prim.Native.String.{count}
use valibra.Prelude.{
  ℕ, String, Bool, true, false, not, ◌&&◌, ◌||◌, Option, none, some, leb, string_eq, nat_eq, ◌==◌,
  Result, err, check, if◌then◌else◌,
}
use valibra.Prelude.Text.{starts_with_space, ends_with_space, fits}
use valibra.Prelude.Json.{Json}
use valibra.Models.Types.{Raised, other_error}
use valibra.Models.State.{is_some}

pub data ObservationType : Type 0 where
  user_query p2_follow_up schema metadata knowledge user_answer sql_execution submission
        tool_error :
      ObservationType

abbrev pub is_tool_type : ObservationType → Bool
is_tool_type ObservationType.user_query = false
is_tool_type ObservationType.p2_follow_up = false
is_tool_type _ = true

pub record SqlGroundingObservation : Type 0 where
  pub observation_id : String
  pub task_id : String
  pub phase : ℕ
  pub sequence : ℕ
  pub observation_type : ObservationType
  pub tool_name : Option String
  pub function_call_id : Option String
  pub content : Json
  pub summary : String
  pub raw_digest : String
  pub private_raw_ref : Option String

abbrev pub type_text : ObservationType → String
type_text ObservationType.user_query = "user_query"
type_text ObservationType.p2_follow_up = "p2_follow_up"
type_text ObservationType.schema = "schema"
type_text ObservationType.metadata = "metadata"
type_text ObservationType.knowledge = "knowledge"
type_text ObservationType.user_answer = "user_answer"
type_text ObservationType.sql_execution = "sql_execution"
type_text ObservationType.submission = "submission"
type_text ObservationType.tool_error = "tool_error"

-- A text field has no outer whitespace, and its length is between 1 and the limit.
abbrev is_identity : ℕ → String → Bool
is_identity maximum s =
    leb 1 (count s) && fits maximum s && not (starts_with_space s) && not (ends_with_space s)

abbrev is_optional_identity : ℕ → Option String → Bool
is_optional_identity maximum none = true
is_optional_identity maximum (some s) = is_identity maximum s

-- The identity that `_observation_id` digests.
pub record ObservationIdentity : Type 0 where
  pub task_id : String
  pub phase : ℕ
  pub sequence : ℕ
  pub observation_type : ObservationType
  pub tool_name : Option String
  pub function_call_id : Option String
  pub raw_digest : String

-- `content_digest` is `none` where the content is no finite JSON or too large.
module _ (content_digest : Json → Option String)
    (observation_id : ObservationIdentity → String) where
  abbrev identity_of : SqlGroundingObservation → ObservationIdentity
  identity_of o = record {
    task_id = o.task_id;
    phase = o.phase;
    sequence = o.sequence;
    observation_type = o.observation_type;
    tool_name = o.tool_name;
    function_call_id = o.function_call_id;
    raw_digest = o.raw_digest;
  }

  abbrev has_digest : SqlGroundingObservation → Bool
  has_digest o = elim (content_digest o.content) [
    | none ↦ false
    | some digest ↦ o.raw_digest == digest
  ]

  -- The validators of the class.
  unfoldable pub is_observation : SqlGroundingObservation → Bool
  is_observation o =
      is_identity 256 o.task_id
      && (o.phase == 1 || o.phase == 2)
      && leb 1 o.sequence
      && is_optional_identity 256 o.tool_name
      && is_optional_identity 256 o.function_call_id
      && is_identity 2048 o.summary
      && is_optional_identity 1024 o.private_raw_ref
      && (if is_tool_type o.observation_type
          then is_some o.tool_name && is_some o.function_call_id
          else not (is_some o.tool_name) && not (is_some o.function_call_id))
      && has_digest o
      && o.observation_id == observation_id (identity_of o)

  -- `build_sql_grounding_observation`: the digest and the identifier are computed, then checked.
  unfoldable pub build_sql_grounding_observation :
      ObservationIdentity → Json → String → Option String → Result Raised SqlGroundingObservation
  unfolding is_observation
  build_sql_grounding_observation identity content summary private_raw_ref =
      elim (content_digest content) [
        | none ↦ err other_error
        | some digest ↦
            let o : SqlGroundingObservation = record {
              observation_id = observation_id (record identity { raw_digest = digest });
              task_id = identity.task_id;
              phase = identity.phase;
              sequence = identity.sequence;
              observation_type = identity.observation_type;
              tool_name = identity.tool_name;
              function_call_id = identity.function_call_id;
              content = content;
              summary = summary;
              raw_digest = digest;
              private_raw_ref = private_raw_ref;
            } in
            check (is_observation o) other_error o
      ]
