-- ===== src/Runtime/Closed.antt =====
-- The guardrail fails closed.
use agent_builder_factory_ap.Base.{
  String, ◌≡◌, refl, ◌∙◌, ap, subst, Bool, true, false, not, Option, none, some, List, [], ◌∷◌,
  Result, ok, err, pure, ◌>>=◌, continue, ◌==◌, if◌then◌else◌, string_key, Bool-cases, Option-cases,
  inl, inr,
}
use agent_builder_factory_ap.Runtime.Guardrail.{
  Source, GuardrailResult, PolicyRow, Applied, GuardrailServices, GuardrailState, fresh_state,
  is_set, unblocked, blocked_for, guardrail_of, remember, resolve_row, resolve, first_text,
  judge_answer, judge, check,
}

-- Bedrock has answered on this text, by not intervening or with a text in its place.
pub record Passed (services : GuardrailServices) (source : Source) (text : String)
    (r : GuardrailResult) : Type 0 where
  pub guardrail : String × String
  pub answer : Applied
  pub applied : services.apply_guardrail guardrail.0 guardrail.1 source text ≡ ok answer
  pub replaced : r.sanitised_text ≡ (if answer.intervened then first_text answer.outputs else none)

judge_answer-Passed :
    (services : GuardrailServices) (source : Source) (text : String) (g : String × String)
    (o : Result String Applied)
    → services.apply_guardrail g.0 g.1 source text ≡ o
    → (judge_answer o).blocked ≡ false
    → Passed services source text (judge_answer o)
judge_answer-Passed services source text g (err e) a h = cc h
judge_answer-Passed services source text g (ok a) p h = record {
  guardrail = g;
  answer = a;
  applied = p;
  replaced = elim (Bool-cases a.intervened) [
    | inl e ↦ elim (Option-cases (first_text a.outputs)) [
      | inl n ↦ cc (e, n)
      | inr (t, n) ↦ rw (e, n) refl
    ]
    | inr e ↦ rw e refl
  ];
}

judge-Passed :
    (services : GuardrailServices) (source : Source) (text : String) (o : Option (String × String))
    → (judge services source text o).blocked ≡ false
    → Passed services source text (judge services source text o)
judge-Passed services source text none h = cc h
judge-Passed services source text (some (i, v)) h =
    judge_answer-Passed services source text (i, v) (services.apply_guardrail i v source text) refl
      h

continue-Passed :
    (services : GuardrailServices) (source : Source) (text : String)
    (x : Result String (Option (String × String))) (s : GuardrailState) (r : GuardrailResult)
    → (continue x (λ o. pure (judge services source text o)) s).0 ≡ ok r
    → r.blocked ≡ false
    → Passed services source text r
unfolding pure
continue-Passed services source text (err e) s r h b = cc h
continue-Passed services source text (ok o) s r h b =
    let e : judge services source text o ≡ r = cc h in
    subst (Passed services source text) e
      (judge-Passed services source text o (ap (λ x. x.blocked) e ∙ b))

-- While a policy is configured, a check that returns without blocking has had Bedrock's answer on the
-- text, and its sanitised text is that of the answer's first output, or missing where the guardrail did
-- not intervene: whatever was resolved before, a failure of the catalog or of Bedrock, or a missing
-- guardrail, never lets a text pass.
pub guardrail_fails_closed :
    (services : GuardrailServices) (tenant_id : String) (policy_id : Option String)
    (source : Source) (text : String) (s : GuardrailState) (r : GuardrailResult)
    → is_set policy_id ≡ true
    → (check services tenant_id policy_id source text s).0 ≡ ok r
    → r.blocked ≡ false
    → Passed services source text r
unfolding check ◌>>=◌
guardrail_fails_closed services tenant_id policy_id source text s r p h b =
    let h' =
      subst
        (λ q.
          ((if not q
              then pure unblocked
              else (resolve services tenant_id policy_id >>= λ o.
                  pure (judge services source text o)))
            s).0
          ≡ ok r)
        p h in
    continue-Passed services source text (resolve services tenant_id policy_id s).0
      (resolve services tenant_id policy_id s).1 r h' b

-- A check of another time: its services, its direction and its text.
pub record Check : Type 0 where
  pub services : GuardrailServices
  pub source : Source
  pub text : String

unfoldable pub check_all : String → Option String → List Check → GuardrailState → GuardrailState
check_all tenant_id policy_id [] s = s
check_all tenant_id policy_id (c ∷ cs) s =
    check_all tenant_id policy_id cs (check c.services tenant_id policy_id c.source c.text s).1

-- the catalog has no provisioned guardrail at this time, or cannot be read
abbrev pub is_unresolved : Result String (Option PolicyRow) → Bool
is_unresolved (err e) = true
is_unresolved (ok row) = elim (guardrail_of row) [ none ↦ true | some g ↦ false ]

module _ (tenant_id policy_id : String) where
  check-unresolved :
      (c : Check)
      → (policy_id == "") ≡ false
      → check c.services tenant_id (some policy_id) c.source c.text (remember none)
        ≡ (ok (blocked_for "guardrail_not_resolved"), remember none)
  unfolding check resolve ◌>>=◌ pure
  check-unresolved c p = rw p refl

  check_all-unresolved :
      (cs : List Check)
      → (policy_id == "") ≡ false
      → check_all tenant_id (some policy_id) cs (remember none) ≡ remember none
  unfolding check_all
  check_all-unresolved [] p = refl
  check_all-unresolved (c ∷ cs) p = rw (check-unresolved c p) (check_all-unresolved cs p)

  first-continue :
      (x : Result String (Option PolicyRow)) (s : GuardrailState)
      → is_unresolved x ≡ true
      → (resolve_row x s).1 ≡ remember none
  first-continue (err e) s h = refl
  first-continue (ok row) s h = elim (Option-cases (guardrail_of row)) [
    | inl e ↦ rw e refl
    | inr (g, e) ↦ cc (e, h)
  ]

  continue-state :
      (services : GuardrailServices) (source : Source) (text : String)
      (x : Result String (Option (String × String))) (s : GuardrailState)
      → (continue x (λ o. pure (judge services source text o)) s).1 ≡ s
  unfolding pure
  continue-state services source text (err e) s = refl
  continue-state services source text (ok o) s = refl

  first-unresolved :
      (c : Check)
      → (policy_id == "") ≡ false
      → is_unresolved (c.services.get_policy tenant_id policy_id) ≡ true
      → (check c.services tenant_id (some policy_id) c.source c.text fresh_state).1 ≡ remember none
  unfolding check resolve ◌>>=◌
  first-unresolved c p u =
      let found = c.services.get_policy tenant_id policy_id in
      let state : (resolve c.services tenant_id (some policy_id) fresh_state).1 ≡ remember none =
        rw p (first-continue found fresh_state u) in
      let (x, s) = resolve c.services tenant_id (some policy_id) fresh_state in
      rw p (continue-state c.services c.source c.text x s ∙ state)

-- When the first check of a process with a configured policy finds no provisioned guardrail, or cannot
-- read the catalog, every later check of the process blocks, whatever the catalog and Bedrock answer
-- then and however many checks there are between.
pub unresolved_blocks_forever :
    (tenant_id policy_id : String) (first : Check) (between : List Check) (later : Check)
    → (policy_id == "") ≡ false
    → is_unresolved (first.services.get_policy tenant_id policy_id) ≡ true
    → (check later.services tenant_id
        (some policy_id)
        later.source
        later.text
        (check_all tenant_id (some policy_id) (first ∷ between) fresh_state)).0
      ≡ ok (blocked_for "guardrail_not_resolved")
unfolding check_all
unresolved_blocks_forever tenant_id policy_id first between later p u =
    rw
      (
        first-unresolved tenant_id policy_id first p u,
        check_all-unresolved tenant_id policy_id between p,
        check-unresolved tenant_id policy_id later p,
      )
      refl
