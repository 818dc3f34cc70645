-- ===== src/Callbacks/Providers.antt =====
-- grounding_callbacks.py: the counters of Provider calls, in total, by phase, and of the Mapping
-- repairs by phase, with the limit of a task.
pub mod Laws
use valibra.Prelude.{
  ℕ, suc, ◌+◌, ◌-◌, String, Bool, true, false, not, ◌||◌, Option, none, some, List, [], ◌∷◌, leb,
  to_int, Result, ok, err, raise_if, ◌>>=◌, ◌>>◌, nat_eq, ◌!=◌, check,
}
use valibra.Prelude.Json.{ℤ, pos, Json, null, int, obj, Fields, end, field, get}
use valibra.Callbacks.Values.{Failure, value_error, value_of, has_names}
use valibra.Callbacks.Session.{Session, put}

pub data Phase : Type 0 where
  first second : Phase

-- A dict with the keys "1" and "2".
pub record PhaseCounts : Type 0 where
  pub p1 : ℕ
  pub p2 : ℕ

abbrev pub at_phase : Phase → PhaseCounts → ℕ
at_phase first counts = counts.p1
at_phase second counts = counts.p2

-- `counts[str(phase)] += n`.
abbrev pub add_at : Phase → ℕ → PhaseCounts → PhaseCounts
add_at first n counts = record { p1 = counts.p1 + n; p2 = counts.p2 }
add_at second n counts = record { p1 = counts.p1; p2 = counts.p2 + n }

abbrev pub counts_json : PhaseCounts → Json
counts_json counts = obj (field "1" (int (pos counts.p1)) (field "2" (int (pos counts.p2)) end))

abbrev pub count_key : String
count_key = "valibra:sql_grounding_provider_calls"

abbrev pub phase_counts_key : String
phase_counts_key = "valibra:sql_grounding_provider_phase_calls"

abbrev pub repair_counts_key : String
repair_counts_key = "valibra:sql_grounding_provider_mapping_repair_phase_calls"

-- `_MAX_PROVIDER_CALLS_PER_TASK`.
abbrev pub max_provider_calls_per_task : ℕ
max_provider_calls_per_task = 32

-- An integer from 0 to the maximum.
unfoldable pub counter_value : ℕ → String → Json → Result Failure ℕ
counter_value maximum message (int (pos n)) = check (leb n maximum) (value_error message) n
counter_value maximum message _ = err (value_error message)

abbrev total_value : Option Json → Result Failure ℕ
total_value none = ok 0
total_value (some (int (pos n))) = ok n
total_value (some _) = err (value_error "invalid SQL Grounding Provider call counter")

unfoldable pub provider_call_count : Session → Result Failure ℕ
provider_call_count s = total_value (get count_key s)

-- The stored counters, read against the total.
unfoldable pub read_phase_counts : ℕ → Json → Result Failure PhaseCounts
read_phase_counts total (obj fields) = do
  raise_if (not (has_names ("1" ∷ "2" ∷ []) fields))
      (value_error "invalid SQL Grounding phase call counters")
  p1 ←
      counter_value max_provider_calls_per_task "invalid SQL Grounding phase call counter"
        (value_of "1" fields)
  p2 ←
      counter_value max_provider_calls_per_task "invalid SQL Grounding phase call counter"
        (value_of "2" fields)
  raise_if (p1 + p2 != total || not (leb total max_provider_calls_per_task))
      (value_error "SQL Grounding total and phase call counters differ")
  ok (record { p1 = p1; p2 = p2 })
read_phase_counts total null = do
  raise_if (not (leb total max_provider_calls_per_task))
      (value_error "legacy Provider counter exceeds the P1 phase limit")
  ok (record { p1 = total; p2 = 0 })
read_phase_counts total _ = err (value_error "invalid SQL Grounding phase call counters")

unfoldable pub provider_phase_call_counts : Session → Result Failure PhaseCounts
provider_phase_call_counts s = do
  total ← provider_call_count s
  read_phase_counts total (value_of phase_counts_key s)

unfoldable pub provider_phase_call_count : Phase → Session → Result Failure ℕ
provider_phase_call_count phase s = do
  counts ← provider_phase_call_counts s
  ok (at_phase phase counts)

unfoldable pub read_repair_counts : Session → Json → Result Failure PhaseCounts
read_repair_counts s null = ok (record { p1 = 0; p2 = 0 })
read_repair_counts s (obj fields) = do
  raise_if (not (has_names ("1" ∷ "2" ∷ []) fields))
      (value_error "invalid Mapping repair Provider call counters")
  counts ← provider_phase_call_counts s
  p1 ← counter_value counts.p1 "invalid Mapping repair Provider call counter" (value_of "1" fields)
  p2 ← counter_value counts.p2 "invalid Mapping repair Provider call counter" (value_of "2" fields)
  ok (record { p1 = p1; p2 = p2 })
read_repair_counts s _ = err (value_error "invalid Mapping repair Provider call counters")

unfoldable pub provider_repair_phase_call_counts : Session → Result Failure PhaseCounts
provider_repair_phase_call_counts s = read_repair_counts s (value_of repair_counts_key s)

-- Repairs never exceed the calls of their phase, so nothing is cut off at 0.
unfoldable pub provider_phase_stage_call_count : Phase → Session → Result Failure ℕ
provider_phase_stage_call_count phase s = do
  counts ← provider_phase_call_counts s
  repairs ← provider_repair_phase_call_counts s
  ok (at_phase phase counts - at_phase phase repairs)

unfoldable pub record_provider_call : Phase → Bool → Session → Result Failure Session
record_provider_call phase mapping_validation_repair s = do
  counts ← provider_phase_call_counts s
  repair_counts ← provider_repair_phase_call_counts s
  total ← provider_call_count s
  raise_if (leb max_provider_calls_per_task total)
      (value_error "SQL Grounding Provider call limit exceeded")
  ok (
      put count_key (int (pos (total + 1))) (
        put repair_counts_key
          (counts_json (add_at phase (to_int mapping_validation_repair) repair_counts))
          (put phase_counts_key (counts_json (add_at phase 1 counts)) s)))
