-- ===== src/Callbacks/PendingCheck/Laws.antt =====
-- grounding_callbacks.py: an action that a Check has asked for is used once.
use valibra.Prelude.{
  ◌≡◌, String, false, ◌&&◌, Option, none, some, inl, inr, ◌⊎◌, Bool-cases, eq_of_beq, string_eq,
  ◌==◌, ok, split_steps, ok_injective, ap, sym, subst, arith,
}
use valibra.Prelude.Json.{null, get}
use valibra.Models.Forms.{FormTexts}
use valibra.Callbacks.Session.{Session, put, get-put_self, get-put_other}
use valibra.Callbacks.PendingCheck.{
  PendingCheckTool, pending_check_key, pending_check_tool, consume, consume_pending_check_tool,
}

module _ (f : FormTexts) where
  -- The action was pending, is this call's, and is gone; the other keys of the session are as they were.
  abbrev pub IsConsumed : String → String → Session → PendingCheckTool → Session → Type 0
  IsConsumed id name s r s' =
      (pending_check_tool f s ≡ ok (some r))
      × (r.function_call_id ≡ id)
      × (r.tool_name ≡ name)
      × (pending_check_tool f s' ≡ ok none)
      × ((key : String) → (pending_check_key == key) ≡ false → get key s' ≡ get key s)

  none_pending : (s : Session) → pending_check_tool f (put pending_check_key null s) ≡ ok none
  unfolding pending_check_tool
  none_pending s = rw (get-put_self pending_check_key null s)

  consume-IsConsumed :
      (id name : String) (s : Session) (pending : Option PendingCheckTool)
      {found : Option PendingCheckTool} {s' : Session}
      → pending_check_tool f s ≡ ok pending
      → consume f id name s pending ≡ (found, s')
      → ((found ≡ none) × (s' ≡ s))
        ⊎ ((r : PendingCheckTool) × (found ≡ some r) × IsConsumed id name s r s')
  consume-IsConsumed id name s none read h = inl (sym (ap (λ x. x.0) h), sym (ap (λ x. x.1) h))
  consume-IsConsumed id name s (some q) {s' = s'} read h =
      elim (Bool-cases (q.function_call_id == id && q.tool_name == name)) [
        | inl p ↦
            let used = rw p at h in
            let rest : put pending_check_key null s ≡ s' = ap (λ x. x.1) used in
            inr (
              q,
              sym (ap (λ x. x.0) used),
              (
                read,
                eq_of_beq q.function_call_id id (ground arith),
                eq_of_beq q.tool_name name (ground arith),
                subst (λ x. pending_check_tool f x ≡ ok none) rest (none_pending s),
                λ key other. rw (← rest) (get-put_other pending_check_key key null s other),
              ),
            )
        | inr p ↦
            let unused = rw p at h in inl (sym (ap (λ x. x.0) unused), sym (ap (λ x. x.1) unused))
      ]

  -- A consumption that returns either yields nothing and leaves the session as it was, or yields
  -- the Check action that was pending, which was asked for under the given function_call_id and
  -- tool, and the session afterwards reads as having none pending, with every other key as it was.
  pub consume_pending_check_tool-IsConsumed :
      (id name : String) (s : Session) {found : Option PendingCheckTool} {s' : Session}
      → consume_pending_check_tool f id name s ≡ ok (found, s')
      → ((found ≡ none) × (s' ≡ s))
        ⊎ ((r : PendingCheckTool) × (found ≡ some r) × IsConsumed id name s r s')
  unfolding consume_pending_check_tool
  consume_pending_check_tool-IsConsumed id name s h =
      split_steps (pending_check_tool f s) _ h
        λ pending read k. consume-IsConsumed id name s pending read (ok_injective k)
