-- ===== src/Telemetry.antt =====
-- valibra_agent/sql_grounding/telemetry.py: the telemetry records, each with the validation that
-- runs when one is built.
use Prim.Native.String.{count, ◌∷◌ as char_cons}
use Prim.Native.Char.{Char, code}
use valibra.Prelude.{
  ℕ, zero, suc, ◌+◌, String, Bool, true, false, not, ◌&&◌, ◌||◌, Option, none, some, List, [], ◌∷◌,
  leb, ltb, nat_beq, length, is_empty, all, map, has_no_duplicates, nat_eq, string_eq, list_eq,
  ◌==◌, ◌!=◌, Result, check, if◌then◌else◌, to_int,
}
use valibra.Prelude.Text.{fits}
use valibra.Models.Vocabulary.{
  GroundingStage, FocusDimension, GroundingDimension, focus_eq, dimension_eq,
}
use valibra.Models.Types.{Raised, other_error}
use valibra.Models.State.{is_some}

-- A float by what the validators ask of it: its sign, whether it is zero, whether it is finite. The
-- text is Python's.
pub data Float : Type 0 where
  zero_float : Float
  positive : String → Float
  negative : String → Float
  not_finite : Float

-- Finite and at least 0.
abbrev pub is_measure : Float → Bool
is_measure zero_float = true
is_measure (positive _) = true
is_measure (negative _) = false
is_measure not_finite = false

abbrev pub is_zero_float : Float → Bool
is_zero_float zero_float = true
is_zero_float _ = false

is_hex_digit : Char → Bool
is_hex_digit ch = let c = code ch in (leb b'0' c && leb c b'9') || (leb b'a' c && leb c b'f')

all_hex : String → Bool
unfolding is_hex_digit
all_hex String.[] = true
all_hex (char_cons c s) = is_hex_digit c && all_hex s

-- `^[0-9a-f]{64}$`.
unfoldable pub is_sha256 : String → Bool
unfolding all_hex
is_sha256 s = nat_beq (count s) 64 && all_hex s

unfoldable pub is_sha256_or_empty : String → Bool
unfolding is_sha256
is_sha256_or_empty s = s == "" || is_sha256 s

abbrev pub optional_test : {A : Type 0} → (A → Bool) → Option A → Bool
optional_test p none = true
optional_test p (some a) = p a

pub record GroundingTokenUsage : Type 0 where
  pub input_tokens : ℕ
  pub output_tokens : ℕ
  pub reasoning_tokens : ℕ
  pub total_tokens : ℕ

unfoldable pub make_token_usage : ℕ → ℕ → ℕ → ℕ → Result Raised GroundingTokenUsage
make_token_usage input_tokens output_tokens reasoning_tokens total_tokens =
    check (leb reasoning_tokens output_tokens && total_tokens == input_tokens + output_tokens)
      other_error
      (record {
        input_tokens = input_tokens;
        output_tokens = output_tokens;
        reasoning_tokens = reasoning_tokens;
        total_tokens = total_tokens;
      })

pub data AttemptStatus : Type 0 where
  response invalid_response failed timed_out : AttemptStatus

pub record GroundingProviderAttemptTelemetry : Type 0 where
  pub attempt_number : ℕ
  pub request_sha256 : String
  pub response_sha256 : String
  pub finish_reason : Option String
  pub usage : GroundingTokenUsage
  pub latency_ms : Float
  pub content_empty : Option Bool
  pub status : AttemptStatus
  pub error_type : Option String

-- `bool(error_type)`.
abbrev pub is_named : Option String → Bool
is_named none = false
is_named (some s) = not (s == "")

abbrev pub fits_attempt_status : AttemptStatus → GroundingProviderAttemptTelemetry → Bool
fits_attempt_status response t = is_some t.content_empty && not (is_some t.error_type)
fits_attempt_status invalid_response t = not (is_some t.content_empty) && is_named t.error_type
fits_attempt_status failed t =
    not (is_some t.content_empty) && not (is_some t.finish_reason) && is_named t.error_type
fits_attempt_status timed_out t =
    not (is_some t.content_empty) && not (is_some t.finish_reason) && is_named t.error_type

-- The field limits and `validate_attempt`.
unfoldable pub is_attempt_telemetry : GroundingProviderAttemptTelemetry → Bool
is_attempt_telemetry t =
    leb 1 t.attempt_number
    && leb t.attempt_number 2
    && is_sha256 t.request_sha256
    && is_sha256_or_empty t.response_sha256
    && optional_test (fits 128) t.finish_reason
    && is_measure t.latency_ms
    && optional_test (fits 128) t.error_type
    && fits_attempt_status t.status t

pub data LlmStatus : Type 0 where
  succeeded failed timed_out rejected : LlmStatus

abbrev is_timed_out : LlmStatus → Bool
is_timed_out LlmStatus.timed_out = true
is_timed_out _ = false

abbrev is_succeeded : LlmStatus → Bool
is_succeeded LlmStatus.succeeded = true
is_succeeded _ = false

pub record GroundingLlmTelemetry : Type 0 where
  pub attempted : Bool
  pub status : LlmStatus
  pub usage : GroundingTokenUsage
  pub latency_ms : Float
  pub timed_out : Bool
  pub error_type : Option String
  pub provider_reported_cost : Option Float
  pub model : String
  pub provider : String
  pub credential_source : String
  pub raw_private_audit_ref : String
  pub provider_may_continue_after_cancel : Option Bool
  pub provider_may_bill_after_cancel : Option Bool
  pub configured_max_tokens : ℕ
  pub attempt_count : ℕ
  pub retry_triggered : Bool
  pub retry_trigger_reason : Option String
  pub provider_attempts : List GroundingProviderAttemptTelemetry
  pub final_selected_attempt : Option ℕ
  pub request_sha256 : String
  pub response_sha256 : String
  pub prompt_sha256 : String
  pub form_schema_sha256 : String
  pub configuration_sha256 : String

-- `range(first, first + n)`.
unfoldable pub numbers_from : ℕ → ℕ → List ℕ
numbers_from first zero = []
numbers_from first (suc n) = first ∷ numbers_from (first + 1) n

-- The limits of the single fields.
unfoldable pub fits_llm_fields : GroundingLlmTelemetry → Bool
fits_llm_fields t =
    is_measure t.latency_ms
    && optional_test (fits 128) t.error_type
    && optional_test is_measure t.provider_reported_cost
    && fits 256 t.model
    && fits 128 t.provider
    && (t.credential_source == ""
        || t.credential_source == "direct"
        || t.credential_source == "file")
    && fits 1024 t.raw_private_audit_ref
    && leb t.configured_max_tokens 131072
    && leb t.attempt_count 2
    && optional_test (fits 128) t.retry_trigger_reason
    && optional_test (λ n. leb 1 n && leb n 2) t.final_selected_attempt
    && is_sha256_or_empty t.request_sha256
    && is_sha256_or_empty t.response_sha256
    && is_sha256 t.prompt_sha256
    && is_sha256 t.form_schema_sha256
    && is_sha256 t.configuration_sha256

-- All attempts carry the request digest of the call.
unfoldable pub fits_attempts : GroundingLlmTelemetry → Bool
fits_attempts t =
    if is_empty t.provider_attempts
    then t.attempt_count == 0
    else (t.attempt_count == length t.provider_attempts
        && map (λ a. a.attempt_number) t.provider_attempts == numbers_from 1 t.attempt_count
        && all (λ a. a.request_sha256 == t.request_sha256) t.provider_attempts
        && ltb 0 t.configured_max_tokens)

unfoldable pub fits_retry : GroundingLlmTelemetry → Bool
fits_retry t =
    (t.attempt_count != 2 || t.retry_triggered)
    && (not t.retry_triggered || leb 1 t.attempt_count)
    && (if t.retry_triggered
        then is_some t.retry_trigger_reason
        else not (is_some t.retry_trigger_reason))
    && optional_test (λ n. not (is_empty t.provider_attempts) && leb n t.attempt_count)
        t.final_selected_attempt

-- A call that was not attempted reports nothing of a provider.
unfoldable pub reports_nothing : GroundingLlmTelemetry → Bool
reports_nothing t =
    t.usage.total_tokens == 0
    && is_zero_float t.latency_ms
    && t.response_sha256 == ""
    && not (is_some t.provider_reported_cost)
    && t.model == ""
    && t.provider == ""
    && t.credential_source == ""
    && t.raw_private_audit_ref == ""
    && t.attempt_count == 0
    && not t.retry_triggered
    && not (is_named t.retry_trigger_reason)
    && is_empty t.provider_attempts
    && not (is_some t.final_selected_attempt)

-- The field limits and `validate_shape`.
unfoldable pub is_llm_telemetry : GroundingLlmTelemetry → Bool
unfolding fits_llm_fields fits_attempts fits_retry reports_nothing
is_llm_telemetry t =
    fits_llm_fields t
    && (if is_timed_out t.status then t.timed_out else not t.timed_out)
    && not (is_succeeded t.status && is_some t.error_type)
    && fits_attempts t
    && fits_retry t
    && (t.attempted || reports_nothing t)

pub data UpdateStatus : Type 0 where
  accepted rejected noop : UpdateStatus

pub record StateUpdateTelemetry : Type 0 where
  pub observation_id : String
  pub stage : GroundingStage
  pub status : UpdateStatus
  pub old_state_sha256 : String
  pub new_state_sha256 : String
  pub changed_dimensions : List GroundingDimension
  pub revision_before : ℕ
  pub revision_after : ℕ
  pub focus_before : FocusDimension
  pub focus_after : FocusDimension
  pub error_type : Option String

abbrev dimension_place : GroundingDimension → ℕ
dimension_place GroundingDimension.tables = 0
dimension_place GroundingDimension.join_keys = 1
dimension_place GroundingDimension.column_mapping = 2
dimension_place GroundingDimension.domain_knowledge = 3

-- `tuple(sorted(value, key=order)) == value`.
unfoldable pub is_in_order : List GroundingDimension → Bool
is_in_order [] = true
is_in_order (_ ∷ []) = true
is_in_order (a ∷ b ∷ rest) = leb (dimension_place a) (dimension_place b) && is_in_order (b ∷ rest)

-- `validate_revision_accounting` does not raise.
abbrev pub fits_accounting : UpdateStatus → StateUpdateTelemetry → Bool
fits_accounting accepted t =
    t.revision_after == t.revision_before + to_int (not (is_empty t.changed_dimensions))
    && (not (is_empty t.changed_dimensions) || t.focus_after != t.focus_before)
    && not (is_some t.error_type)
fits_accounting rejected t =
    t.revision_after == t.revision_before
    && t.old_state_sha256 == t.new_state_sha256
    && is_empty t.changed_dimensions
    && t.focus_after == t.focus_before
    && is_some t.error_type
fits_accounting noop t =
    t.revision_after == t.revision_before + to_int (not (is_empty t.changed_dimensions))
    && is_empty t.changed_dimensions
    && t.focus_after == t.focus_before
    && not (is_some t.error_type)

unfoldable pub is_state_update : StateUpdateTelemetry → Bool
unfolding is_in_order
is_state_update t =
    leb 1 (count t.observation_id)
    && fits 256 t.observation_id
    && is_sha256 t.old_state_sha256
    && is_sha256 t.new_state_sha256
    && has_no_duplicates t.changed_dimensions
    && is_in_order t.changed_dimensions
    && optional_test (fits 128) t.error_type
    && fits_accounting t.status t

unfoldable pub make_state_update : StateUpdateTelemetry → Result Raised StateUpdateTelemetry
unfolding is_state_update
make_state_update t = check (is_state_update t) other_error t
