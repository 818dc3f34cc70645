-- ===== src/Callbacks/Providers/Laws.antt =====
-- grounding_callbacks.py: a recorded Provider call adds one to the total and to its phase, and no task
-- records more than its limit.
use valibra.Prelude.{
  ℕ, ◌+◌, ◌≡◌, ◌≤◌, ◌<◌, refl, Bool, true, false, List, [], ◌∷◌, all, contains, length, leb, to_int,
  Result, ok, err, nat_eq, ◌>>=◌, arith, ap, ◌∙◌, Bool-cases, inl, inr,
}
use valibra.Prelude.Json.{pos, int, get, keys}
use valibra.Callbacks.Values.{Failure, value_error, value_of}
use valibra.Callbacks.Session.{Session, put, get-put_self, get-put_other}
use valibra.Callbacks.Providers.{
  Phase, first, second, PhaseCounts, add_at, counts_json, count_key, phase_counts_key,
  repair_counts_key, max_provider_calls_per_task, counter_value, provider_call_count,
  read_phase_counts, provider_phase_call_counts, read_repair_counts,
  provider_repair_phase_call_counts, record_provider_call,
}

le_add_bit : (b : Bool) (m n : ℕ) → m ≤ n → m + to_int b ≤ n + 1
le_add_bit b m n h = ground arith

-- What the session's counters say: they read, the phases add up to the total, the total is within
-- the limit, and no phase has more repairs than calls.
pub record Ledger (s : Session) (total : ℕ) (counts repairs : PhaseCounts) : Type 0 where
  pub reads_total : provider_call_count s ≡ ok total
  pub reads_counts : provider_phase_call_counts s ≡ ok counts
  pub reads_repairs : provider_repair_phase_call_counts s ≡ ok repairs
  pub adds_up : counts.p1 + counts.p2 ≡ total
  pub within : total ≤ max_provider_calls_per_task
  pub repairs1 : repairs.p1 ≤ counts.p1
  pub repairs2 : repairs.p2 ≤ counts.p2

abbrev written : Session → ℕ → PhaseCounts → PhaseCounts → Session
written s total counts repairs =
    put count_key (int (pos total))
      (put repair_counts_key (counts_json repairs) (put phase_counts_key (counts_json counts) s))

module _ (s : Session) (total : ℕ) (counts repairs : PhaseCounts)
    (adds : counts.p1 + counts.p2 ≡ total) (fits : total ≤ max_provider_calls_per_task)
    (few1 : repairs.p1 ≤ counts.p1) (few2 : repairs.p2 ≤ counts.p2) where
  written-total : provider_call_count (written s total counts repairs) ≡ ok total
  unfolding provider_call_count
  written-total = rw (get-put_self count_key (int (pos total)) _)

  written_repairs :
      value_of repair_counts_key (written s total counts repairs) ≡ counts_json repairs
  written_repairs = rw (
    get-put_other count_key repair_counts_key (int (pos total))
        (put repair_counts_key (counts_json repairs) (put phase_counts_key (counts_json counts) s))
        refl,
    get-put_self repair_counts_key (counts_json repairs)
        (put phase_counts_key (counts_json counts) s),
  )

  written_counts : value_of phase_counts_key (written s total counts repairs) ≡ counts_json counts
  written_counts = rw (
    get-put_other count_key phase_counts_key (int (pos total))
        (put repair_counts_key (counts_json repairs) (put phase_counts_key (counts_json counts) s))
        refl,
    get-put_other repair_counts_key phase_counts_key (counts_json repairs)
        (put phase_counts_key (counts_json counts) s) refl,
    get-put_self phase_counts_key (counts_json counts) s,
  )

  counts_again : read_phase_counts total (counts_json counts) ≡ ok counts
  unfolding read_phase_counts counter_value all contains keys get
  counts_again = ground arith

  written_phase : provider_phase_call_counts (written s total counts repairs) ≡ ok counts
  unfolding provider_phase_call_counts
  written_phase = rw (written-total, written_counts, counts_again)

  repairs_again :
      read_repair_counts (written s total counts repairs) (counts_json repairs) ≡ ok repairs
  unfolding read_repair_counts counter_value all contains keys get
  repairs_again =
      let a : leb repairs.p1 counts.p1 ≡ true = ground arith in
      let b : leb repairs.p2 counts.p2 ≡ true = ground arith in rw (written_phase, a, b)

  written-Ledger : Ledger (written s total counts repairs) total counts repairs
  unfolding provider_repair_phase_call_counts
  written-Ledger = record {
    reads_total = written-total;
    reads_counts = written_phase;
    reads_repairs = rw (written_repairs, repairs_again);
    adds_up = adds;
    within = fits;
    repairs1 = few1;
    repairs2 = few2;
  }

module _ (s : Session) (repair : Bool) {total : ℕ} {counts repairs : PhaseCounts}
    (l : Ledger s total counts repairs) where
  after_call :
      (phase : Phase)
      → total < max_provider_calls_per_task
      → Ledger
          (written s (total + 1) (add_at phase 1 counts) (add_at phase (to_int repair) repairs))
          (total + 1)
          (add_at phase 1 counts)
          (add_at phase (to_int repair) repairs)
  after_call first room =
      written-Ledger s _ _ _ (omega (arith, l.adds_up)) (omega arith)
        (le_add_bit repair repairs.p1 counts.p1 l.repairs1) l.repairs2
  after_call second room =
      written-Ledger s _ _ _ (omega (arith, l.adds_up)) (omega arith) l.repairs1
        (le_add_bit repair repairs.p2 counts.p2 l.repairs2)

  -- Below the limit a call is recorded, and the counters after it say one call more in total and in
  -- its phase, and one repair more in its phase if it was one.
  pub record_provider_call-counts :
      (phase : Phase)
      → total < max_provider_calls_per_task
      → (s' : Session) × (record_provider_call phase repair s ≡ ok s')
        × Ledger s' (total + 1) (add_at phase 1 counts) (add_at phase (to_int repair) repairs)
  unfolding record_provider_call
  record_provider_call-counts phase room =
      let free : leb max_provider_calls_per_task total ≡ false = ground arith in
      (
        written s (total + 1) (add_at phase 1 counts) (add_at phase (to_int repair) repairs),
        rw (l.reads_counts, l.reads_repairs, l.reads_total, free),
        after_call phase room,
      )

  -- At the limit every call is refused.
  record_full :
      (phase : Phase)
      → total ≡ max_provider_calls_per_task
      → record_provider_call phase repair s
        ≡ err (value_error "SQL Grounding Provider call limit exceeded")
  unfolding record_provider_call
  record_full phase h =
      let full : leb max_provider_calls_per_task total ≡ true = ground arith in
      rw (l.reads_counts, l.reads_repairs, l.reads_total, full)

-- Calls recorded one after the other.
unfoldable pub record_all : List (Phase × Bool) → Session → Result Failure Session
record_all [] s = ok s
record_all (call ∷ calls) s = record_provider_call call.0 call.1 s >>= λ s'. record_all calls s'

-- In a session whose counters read and agree, a sequence of Provider calls is recorded if and only
-- if the total before and the calls are together at most 32, and then the total has grown by their
-- number.
pub record_all_iff :
    (calls : List (Phase × Bool)) (s : Session) {total : ℕ} {counts repairs : PhaseCounts}
    → Ledger s total counts repairs
    → (total + length calls ≤ max_provider_calls_per_task
        → (s' : Session) × (record_all calls s ≡ ok s')
          × (provider_call_count s' ≡ ok (total + length calls)))
      × ((s' : Session)
          → record_all calls s ≡ ok s'
          → total + length calls ≤ max_provider_calls_per_task)
unfolding record_all
record_all_iff [] s {total = total} l =
    (λ h. (s, refl, rw (l.reads_total) (ap ok (omega arith))), λ s' h. omega (arith, l.within))
record_all_iff (call ∷ calls) s {total = total} l =
    elim (Bool-cases (leb max_provider_calls_per_task total)) [
      | inl full ↦
          let at_limit : total ≡ max_provider_calls_per_task = ground (arith, l.within) in
          (
            λ h. absurd (omega arith),
            λ s' h. let no = rw (record_full s call.1 l call.0 at_limit) at h in cc,
          )
      | inr free ↦
          let (next, e, l') = record_provider_call-counts s call.1 l call.0 (ground arith) in
          let (f, g) = record_all_iff calls next l' in
          (
            λ h. let (s', e', n) = f (omega arith) in (s', rw (e, e'), n ∙ ap ok (omega arith)),
            λ s' h. let h' = rw e at h in let fits = g s' h' in omega arith,
          )
    ]
