-- ===== src/Callbacks/Outcomes/Laws.antt =====
-- grounding_callbacks.py: a phase's outcome is written once, and read back as it was written.
use valibra.Prelude.{
  ℕ, ◌≡◌, refl, String, Bool, true, false, not, ◌&&◌, ◌||◌, Option, none, some, [], ◌∷◌, contains,
  ok, raise_if-eq-ok, split_steps, check-eq-ok, ok_injective, subst, Bool-cases, inl, inr,
  eq_of_beq, string_eq, nat_eq, ◌==◌, ◌!=◌, if◌then◌else◌, arith, sym, ap, ◌∙◌,
}
use valibra.Prelude.Json.{pos, Json, null, int, obj, Fields, get}
use valibra.Models.Vocabulary.{FocusDimension, focus_eq}
use valibra.Models.Types.{SqlGroundingState, GroundingRuntime}
use valibra.Models.State.{all_dimensions_evaluated}
use valibra.Telemetry.{is_sha256}
use valibra.Callbacks.Values.{
  is_phase, is_identifier, value_of, matching, phase_value, exact_bool, exact_nat,
  object_value-eq-ok,
}
use valibra.Callbacks.Records.{
  PhaseStatus, succeeded, PhaseGroundingOutcome, outcome_fields, outcome_to_json, outcome_from_json,
  status_value, error_type_value,
}
use valibra.Callbacks.Records.RoundTrip.{outcome_from_json-to_json}
use valibra.Callbacks.Session.{
  Session, get-put_other, Records, find_record, put_record, find_record-put_record,
}
use valibra.Callbacks.Store.{load_records}
use valibra.Callbacks.Store.Laws.{IsValid, AllValid}
use valibra.Callbacks.Store.Refines.{Holds, put_record-AllValid, store_records-Holds}
use valibra.Callbacks.Outcomes.{
  phase_text, outcome_shape, outcome_codec, phase_grounding_outcomes,
  store_phase_grounding_outcomes, status_beq, outcome_beq, OutcomeCause, is_stored, p2_evidence_key,
  clear_p2_check_cumulative_evidence, keep_outcome, make_outcome, record_outcome,
  record_phase_grounding_outcome,
}

-- An outcome that is read has the phase its JSON has, and that is one of the two.
read_phase :
    (p : Fields) {r : PhaseGroundingOutcome}
    → outcome_fields p ≡ ok r
    → (value_of "phase" p ≡ r.phase) × (is_phase (value_of "phase" p) ≡ true)
unfolding outcome_fields phase_value
read_phase p {r = r} h =
    split_steps (phase_value "invalid phase Grounding outcome phase" (value_of "phase" p)) _ h
      λ phase h0 k0. split_steps (status_value (value_of "status" p)) _ k0 λ status h1 k1.
        split_steps (matching is_identifier _ (value_of "observation_id" p)) _ k1
          λ observation_id h2 k2.
            split_steps (error_type_value status (value_of "error_type" p)) _ k2 λ error_type h3 k3.
              split_steps (exact_bool _ (value_of "provider_attempted" p)) _ k3
                λ provider_attempted h4 k4.
                  split_steps (exact_nat _ (value_of "grounding_revision" p)) _ k4
                    λ grounding_revision h5 k5.
                      split_steps (matching is_sha256 _ (value_of "state_sha256" p)) _ k5
                        λ state_sha256 h6 k6.
                          let made : PhaseGroundingOutcome = record {
                            phase = phase;
                            status = status;
                            observation_id = observation_id;
                            error_type = error_type;
                            provider_attempted = provider_attempted;
                            grounding_revision = grounding_revision;
                            state_sha256 = state_sha256;
                          } in
                          let same : made ≡ r = ok_injective k6 in
                          let (t, e) = check-eq-ok (is_phase (value_of "phase" p)) _ _ h0 in
                          (e ∙ ap (λ (x : PhaseGroundingOutcome). x.phase) same, t)

allowed_key : (n : ℕ) → contains (phase_text (int (pos n))) ("1" ∷ "2" ∷ []) ≡ true
unfolding contains
allowed_key n = elim (Bool-cases (n == 1)) [ inl p ↦ rw p | inr p ↦ rw p ]

abbrev phase_field : Json → Json
phase_field (obj p) = value_of "phase" p
phase_field _ = null

module _ (sha256 : SqlGroundingState → String) (cause : OutcomeCause) (runtime : GroundingRuntime)
    (status : PhaseStatus) (error_type : Option String) (attempted : Bool) where
  abbrev key : String
  key = phase_text (int (pos cause.phase))

  made-IsValid :
      {r : PhaseGroundingOutcome}
      → outcome_from_json
          (outcome_to_json (make_outcome sha256 cause runtime status error_type attempted))
        ≡ ok r
      → IsValid outcome_codec outcome_shape r × (phase_text r.phase ≡ key)
  unfolding outcome_to_json outcome_from_json make_outcome
  made-IsValid {r = r} h =
      let (p, same, k) =
        object_value-eq-ok _ _ outcome_fields
          (outcome_to_json (make_outcome sha256 cause runtime status error_type attempted)) h in
      let (e, t) = read_phase p k in
      let its : int (pos cause.phase) ≡ r.phase = unfold get in (ap phase_field same ∙ e) in
      (
        (
          outcome_from_json-to_json _ h,
          subst (λ x. contains (phase_text x) ("1" ∷ "2" ∷ []) ≡ true) its
              (allowed_key cause.phase),
        ),
        sym (ap phase_text its),
      )

  -- What a recorded outcome leaves: the store reads, holds the outcome at its phase and what it held
  -- at the other, and an outcome that the phase had is the one that is returned.
  abbrev pub IsRecorded : Session → Records PhaseGroundingOutcome → PhaseGroundingOutcome → Type 0
  IsRecorded s' records r =
      Holds outcome_codec outcome_shape s' (λ k. if key == k then some r else find_record k records)
      × ((old : PhaseGroundingOutcome) → find_record key records ≡ some old → old ≡ r)

  write_new :
      (records : Records PhaseGroundingOutcome) (r : PhaseGroundingOutcome) (s : Session)
      {s' : Session}
      → phase_grounding_outcomes s ≡ ok records
      → IsValid outcome_codec outcome_shape r
      → phase_text r.phase ≡ key
      → store_phase_grounding_outcomes (put_record key r records) s ≡ ok s'
      → Holds outcome_codec outcome_shape s'
          (λ k. if key == k then some r else find_record k records)
  unfolding phase_grounding_outcomes store_phase_grounding_outcomes
  write_new records r s loads valid at_key h =
      let all_valid =
        subst (λ x. AllValid outcome_codec outcome_shape (put_record x r records)) at_key
          (put_record-AllValid outcome_codec outcome_shape r s valid loads) in
      let ((loaded, l, same), others) =
        store_records-Holds outcome_codec outcome_shape (put_record key r records) s all_valid h in
      (loaded, l, λ k. same k ∙ find_record-put_record key k r records)

  kept :
      (records : Records PhaseGroundingOutcome) (r : PhaseGroundingOutcome) (s : Session)
      (o : Option PhaseGroundingOutcome) {q : PhaseGroundingOutcome} {s' : Session}
      → phase_grounding_outcomes s ≡ ok records
      → IsValid outcome_codec outcome_shape r
      → phase_text r.phase ≡ key
      → find_record key records ≡ o
      → keep_outcome r records key s o ≡ ok (q, s')
      → IsRecorded s' records q
  unfolding keep_outcome phase_grounding_outcomes
  kept records r s (some old) {q = q} {s' = s'} loads valid at_key found h =
      elim (Bool-cases (outcome_beq old r)) [
        | inl p ↦
            let same : ◌≡◌ {A = PhaseGroundingOutcome × Session} (old, s) (q, s') =
              ok_injective (rw p at h) in
            let old≡q : old ≡ q = cc in
            let s≡s' : s ≡ s' = cc in
            (
              subst
                  (λ x.
                    Holds outcome_codec outcome_shape x
                      (λ k. if key == k then some q else find_record k records))
                  s≡s'
                  (
                    records,
                    loads,
                    λ k. elim (Bool-cases (key == k)) [
                      | inl e ↦
                          let key≡k = eq_of_beq key k e in
                          rw (e) (
                            subst (λ x. find_record x records ≡ some q) key≡k
                              (found ∙ ap some old≡q))
                      | inr e ↦ rw e
                    ],
                  ),
              λ other hit. let both : some old ≡ some other = sym found ∙ hit in cc,
            )
        | inr p ↦ let wrong = rw p at h in cc
      ]
  kept records r s none {q = q} {s' = s'} loads valid at_key found h =
      split_steps (store_phase_grounding_outcomes (put_record key r records) s) _ h λ t stored k.
        let same : ◌≡◌ {A = PhaseGroundingOutcome × Session} (r, t) (q, s') = ok_injective k in
        let r≡q : r ≡ q = cc in
        let t≡s' : t ≡ s' = cc in
        (
          subst
              (λ x.
                Holds outcome_codec outcome_shape x
                  (λ k. if key == k then some q else find_record k records))
              t≡s'
              (subst
                (λ x.
                  Holds outcome_codec outcome_shape t
                    (λ k. if key == k then some x else find_record k records))
                r≡q (write_new records r s loads valid at_key stored)),
          λ other hit. let both : none ≡ some other = sym found ∙ hit in cc,
        )

  cleared_loads :
      (s : Session) (b : Bool) {records : Records PhaseGroundingOutcome}
      → phase_grounding_outcomes s ≡ ok records
      → phase_grounding_outcomes (if b then clear_p2_check_cumulative_evidence s else s)
        ≡ ok records
  unfolding phase_grounding_outcomes load_records clear_p2_check_cumulative_evidence
  cleared_loads s false h = h
  cleared_loads s true h = elim (Bool-cases (is_stored (get p2_evidence_key s))) [
    | inl p ↦ rw (p, get-put_other p2_evidence_key outcome_shape.state_key null s refl) h
    | inr p ↦ rw (p) h
  ]

  -- When the outcomes of a session read and the outcome of a phase is recorded, the session
  -- afterwards reads as having the returned outcome at that phase and what it had at the other, an
  -- outcome that the phase had before is the one that is returned, and a success had a complete
  -- State and no focus.
  pub record_phase_grounding_outcome-IsRecorded :
      (s : Session) {records : Records PhaseGroundingOutcome} {q : PhaseGroundingOutcome}
      {s' : Session}
      → phase_grounding_outcomes s ≡ ok records
      → record_phase_grounding_outcome sha256 cause runtime status error_type attempted s
        ≡ ok (q, s')
      → IsRecorded s' records q
        × (status ≡ succeeded
            → (all_dimensions_evaluated runtime.grounding_state ≡ true)
              × (runtime.focus_dimension ≡ FocusDimension.none))
  unfolding record_phase_grounding_outcome record_outcome
  record_phase_grounding_outcome-IsRecorded s {records = records} loads h =
      let s1 = if cause.phase == 2 then clear_p2_check_cumulative_evidence s else s in
      let loads1 = cleared_loads s (cause.phase == 2) loads in
      let (complete, k0) =
        raise_if-eq-ok
          (status_beq status succeeded
            && (not (all_dimensions_evaluated runtime.grounding_state)
                || runtime.focus_dimension != FocusDimension.none))
          _ _ h in
      split_steps
        (outcome_from_json
          (outcome_to_json (make_outcome sha256 cause runtime status error_type attempted)))
        _ k0
        λ r read k1.
          let (valid, at_key) = made-IsValid read in
          let k2 = rw loads1 at k1 in
          (
            kept records r s1 (find_record key records) loads1 valid at_key refl k2,
            λ success. let complete' = rw success at complete in ground (arith, complete'),
          )
