-- ===== src/Models/Transition/Laws.antt =====
-- What the State transition validator accepts, against a description by dimensions.
use valibra.Prelude.{
  ◌≡◌, ◌≢◌, ◌↔◌, inl, inr, true, false, not, ◌&&◌, List, [], contains, is_empty, is_empty-keep,
  is_empty-keep_of_none, for_each→at, at→for_each, keep, arith, Eq, ◌==◌, ◌!=◌, eq_of_beq,
  beq_of_eq, beq_refl, ok, for_each, Bool-cases, string_eq, list_eq, option_eq,
}
use valibra.Models.Vocabulary.{GroundingDimension, stage_eq, dimension_eq}
use valibra.Models.Types.{SqlGroundingState, StateDiffAuthorization, mapping_eq, knowledge_eq}
use valibra.Models.Transition.{
  is_changed, is_evaluated, is_frozen_stage, changed_dimensions, refuse_regression,
  validate_grounding_state_transition,
}

-- The two States hold different values in this dimension.
abbrev pub Differs : SqlGroundingState → SqlGroundingState → GroundingDimension → Type 0
Differs p c GroundingDimension.tables = p.tables ≢ c.tables
Differs p c GroundingDimension.join_keys = p.join_keys ≢ c.join_keys
Differs p c GroundingDimension.column_mapping = p.column_mapping ≢ c.column_mapping
Differs p c GroundingDimension.domain_knowledge = p.domain_knowledge ≢ c.domain_knowledge

not-beq→ne {ℓ} : {A : Type ℓ} ⦃e : Eq A⦄ (a b : A) → (a != b) ≡ true → a ≢ b
not-beq→ne a b h p = let q = beq_of_eq a b p in cc

ne→not-beq {ℓ} : {A : Type ℓ} ⦃e : Eq A⦄ (a b : A) → a ≢ b → (a != b) ≡ true
ne→not-beq a b h = elim (Bool-cases (a == b)) [
  | inl p ↦ absurd (h (eq_of_beq a b p))
  | inr p ↦ rw p
]

-- The Boolean test is that of the values.
pub is_changed_iff :
    (p c : SqlGroundingState) (d : GroundingDimension) → (is_changed p c d ≡ true) ↔ Differs p c d
unfolding is_changed
is_changed_iff p c GroundingDimension.tables =
    (not-beq→ne p.tables c.tables, ne→not-beq p.tables c.tables)
is_changed_iff p c GroundingDimension.join_keys =
    (not-beq→ne p.join_keys c.join_keys, ne→not-beq p.join_keys c.join_keys)
is_changed_iff p c GroundingDimension.column_mapping =
    (not-beq→ne p.column_mapping c.column_mapping, ne→not-beq p.column_mapping c.column_mapping)
is_changed_iff p c GroundingDimension.domain_knowledge = (
  not-beq→ne p.domain_knowledge c.domain_knowledge,
  ne→not-beq p.domain_knowledge c.domain_knowledge,
)

-- The tuple of changed dimensions lists just those, each once.
pub contains-changed_dimensions :
    (p c : SqlGroundingState) (d : GroundingDimension)
    → contains d (changed_dimensions p c) ≡ is_changed p c d
unfolding changed_dimensions keep contains
contains-changed_dimensions p c GroundingDimension.tables = ground arith
contains-changed_dimensions p c GroundingDimension.join_keys = ground arith
contains-changed_dimensions p c GroundingDimension.column_mapping = ground arith
contains-changed_dimensions p c GroundingDimension.domain_knowledge = ground arith

-- No change in any dimension: the same State.
pub eq_of_unchanged : (p c : SqlGroundingState) → is_empty (changed_dimensions p c) ≡ true → p ≡ c
unfolding changed_dimensions keep is_changed
eq_of_unchanged p c h =
    let a : (p.tables == c.tables) ≡ true = ground arith in
    let b : (p.join_keys == c.join_keys) ≡ true = ground arith in
    let m : (p.column_mapping == c.column_mapping) ≡ true = ground arith in
    let k : (p.domain_knowledge == c.domain_knowledge) ≡ true = ground arith in
    let a' = eq_of_beq p.tables c.tables a in
    let b' = eq_of_beq p.join_keys c.join_keys b in
    let m' = eq_of_beq p.column_mapping c.column_mapping m in
    let k' = eq_of_beq p.domain_knowledge c.domain_knowledge k in
    λ i. record { tables = a' i; join_keys = b' i; column_mapping = m' i; domain_knowledge = k' i }

pub changed_dimensions_self : (p : SqlGroundingState) → changed_dimensions p p ≡ []
unfolding changed_dimensions keep is_changed
changed_dimensions_self p = rw (
  beq_refl p.tables,
  beq_refl p.join_keys,
  beq_refl p.column_mapping,
  beq_refl p.domain_knowledge,
)

-- What one State may become under an authorization, said of each dimension.
pub record IsAllowedDiff (p c : SqlGroundingState) (authorization : StateDiffAuthorization)
    : Type 0 where
  pub authorized :
      (d : GroundingDimension)
      → Differs p c d
      → contains d authorization.authorized_dimensions ≡ true
  pub frozen : is_frozen_stage authorization.stage ≡ true → p ≡ c
  pub kept : (d : GroundingDimension) → is_evaluated p d ≡ true → is_evaluated c d ≡ true

refuse_regression-kept :
    (p c : SqlGroundingState) (d : GroundingDimension)
    → refuse_regression p c d ≡ ok tt
    → is_evaluated p d ≡ true
    → is_evaluated c d ≡ true
unfolding refuse_regression
refuse_regression-kept p c d h k = ground arith

refuse_regression-ok :
    (p c : SqlGroundingState) (d : GroundingDimension)
    → (is_evaluated p d ≡ true → is_evaluated c d ≡ true)
    → refuse_regression p c d ≡ ok tt
unfolding refuse_regression
refuse_regression-ok p c d h = ground arith

-- A dimension that did not change is evaluated as before.
unchanged-kept :
    (p c : SqlGroundingState) (d : GroundingDimension)
    → is_changed p c d ≡ false
    → is_evaluated p d ≡ true
    → is_evaluated c d ≡ true
unfolding is_changed is_evaluated
unchanged-kept p c GroundingDimension.tables h k =
    rw (← eq_of_beq p.tables c.tables (ground arith)) k
unchanged-kept p c GroundingDimension.join_keys h k =
    rw (← eq_of_beq p.join_keys c.join_keys (ground arith)) k
unchanged-kept p c GroundingDimension.column_mapping h k =
    rw (← eq_of_beq p.column_mapping c.column_mapping (ground arith)) k
unchanged-kept p c GroundingDimension.domain_knowledge h k =
    rw (← eq_of_beq p.domain_knowledge c.domain_knowledge (ground arith)) k

module _ (p c : SqlGroundingState) (authorization : StateDiffAuthorization) where
  unauthorized : List GroundingDimension
  unauthorized =
      keep (λ d. not (contains d authorization.authorized_dimensions)) (changed_dimensions p c)

  changed_is_authorized :
      is_empty unauthorized ≡ true
      → (d : GroundingDimension) → is_changed p c d ≡ true
      → contains d authorization.authorized_dimensions ≡ true
  unfolding unauthorized
  changed_is_authorized h d k =
      let q =
        is_empty-keep
          (λ (a : GroundingDimension). not (contains a authorization.authorized_dimensions))
          (changed_dimensions p c) h d (rw contains-changed_dimensions k) in
      ground arith

  kept_of_loop :
      for_each (refuse_regression p c) (changed_dimensions p c) ≡ ok tt
      → (d : GroundingDimension) → is_evaluated p d ≡ true
      → is_evaluated c d ≡ true
  kept_of_loop h d k = elim (Bool-cases (is_changed p c d)) [
    | inl q ↦
        refuse_regression-kept p c d
          (for_each→at (refuse_regression p c) (changed_dimensions p c) h d
            (rw contains-changed_dimensions q))
          k
    | inr q ↦ unchanged-kept p c d q k
  ]

  -- Soundness: what the validator passes is an allowed difference, and it returns the changed
  -- dimensions.
  pub transition-ok→IsAllowedDiff :
      {ds : List GroundingDimension}
      → validate_grounding_state_transition p c authorization ≡ ok ds
      → IsAllowedDiff p c authorization × (ds ≡ changed_dimensions p c)
  unfolding validate_grounding_state_transition unauthorized
  transition-ok→IsAllowedDiff h =
      let a : is_empty unauthorized ≡ true = ground arith in
      let b : (is_frozen_stage authorization.stage && not (is_empty (changed_dimensions p c)))
          ≡ false =
        ground arith in
      let l : for_each (refuse_regression p c) (changed_dimensions p c) ≡ ok tt = ground arith in
      (
        record {
          authorized = λ d k. changed_is_authorized a d ((is_changed_iff p c d).1 k);
          frozen = λ k. eq_of_unchanged p c (ground arith);
          kept = kept_of_loop l;
        },
        ground arith,
      )

  -- Completeness.
  pub IsAllowedDiff→transition-ok :
      IsAllowedDiff p c authorization
      → validate_grounding_state_transition p c authorization ≡ ok (changed_dimensions p c)
  unfolding validate_grounding_state_transition unauthorized
  IsAllowedDiff→transition-ok h =
      let a : is_empty unauthorized ≡ true =
        is_empty-keep_of_none _ (changed_dimensions p c) (λ d m.
          rw (h.authorized d ((is_changed_iff p c d).0 (rw contains-changed_dimensions at m)))) in
      let b : (is_frozen_stage authorization.stage && not (is_empty (changed_dimensions p c)))
          ≡ false =
        elim (Bool-cases (is_frozen_stage authorization.stage)) [
          | inl q ↦ rw (← h.frozen q, changed_dimensions_self, q)
          | inr q ↦ rw q
        ] in
      let l : for_each (refuse_regression p c) (changed_dimensions p c) ≡ ok tt =
        at→for_each _ _ (λ d m. refuse_regression-ok p c d (h.kept d)) in
      rw (a, b, l)

-- The State validator passes two States with their changed dimensions exactly when each dimension
-- whose values differ is authorized, a frozen stage has the same State, and each dimension
-- evaluated before is evaluated after.
pub state_transition_iff :
    (p c : SqlGroundingState) (authorization : StateDiffAuthorization)
    → (validate_grounding_state_transition p c authorization ≡ ok (changed_dimensions p c))
      ↔ IsAllowedDiff p c authorization
state_transition_iff p c authorization = (
  λ h. (transition-ok→IsAllowedDiff p c authorization h).0,
  IsAllowedDiff→transition-ok p c authorization,
)
