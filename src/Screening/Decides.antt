-- ===== src/Screening/Decides.antt =====
-- What decides whether an input or an output is blocked.
use agent_builder_factory_ap.Base.{
  ℕ, String, ◌≡◌, refl, ap, ◌∙◌, Bool, true, false, ◌&&◌, ◌||◌, not, none, List, [], ◌∷◌, map,
  Result, ok, err, if◌then◌else◌, ltb, string_key, arith, Bool-cases, inl, inr,
}
use agent_builder_factory_ap.Runtime.Guardrail.{Source, Applied}
use agent_builder_factory_ap.Screening.{
  GuardrailLayerResult, GuardrailDecision, Validation, sentence, full_text, BertConfig,
  GuardrailPolicy, Detectors, split_sentences, largest, score_all, score_with_validation,
  judge_score, run_binary_check, Local, blocked, safe, unresolved, run_toxicity, optional,
  remaining_checks, after_toxicity, run_bert, bedrock_configured, bedrock_answer,
  call_bedrock_guardrail, is_block, consult_bedrock, conclude, check_input, check_output,
}
use agent_builder_factory_ap.Screening.Yields.{
  or_blocked, Yields, Yields-pure, Yields-note, Yields-lift, Yields-bind, Yields-if, Yields-unless,
}

-- the decision of these local checks: toxicity on, over its block threshold, under its escalation
-- threshold; and the three others over their thresholds
abbrev toxicity_local : Bool → Bool → Bool → Local
toxicity_local on over under =
    if not on then unresolved else if over then blocked else if under then safe else unresolved

abbrev refused_by : Local → Bool → Bool
refused_by blocked r = true
refused_by safe r = false
refused_by unresolved r = r

-- every check answers so, whatever the layers before it
-- The scores, where every classifier answers.
module _ (x : Detectors) (f : String → String → String → ℕ) (text : String) where
  abbrev pub measured : String → String → Validation → ℕ
  measured model keyword full_text = f model keyword text
  measured model keyword sentence = largest (map (f model keyword) (split_sentences x text))

  abbrev pub over_nsfw : BertConfig → Bool
  over_nsfw b =
      ltb b.nsfw_threshold
        (measured "eliasalbouzidi/distilbert-nsfw-text-classifier" "nsfw" b.nsfw_validation)

  abbrev pub over_injection : BertConfig → Bool
  over_injection b =
      ltb b.prompt_injection_threshold
        (f "protectai/deberta-v3-base-prompt-injection-v2" "injection" text)

  abbrev pub over_gibberish : BertConfig → Bool
  over_gibberish b =
      ltb b.gibberish_threshold
        (measured "madhurjindal/autonlp-Gibberish-Detector" "gibberish" b.gibberish_validation)

  abbrev pub over_toxicity : BertConfig → Bool
  over_toxicity b = ltb b.block_threshold (f "unitary/toxic-bert" "toxic" text)

  abbrev pub under_toxicity : BertConfig → Bool
  under_toxicity b = ltb (f "unitary/toxic-bert" "toxic" text) b.escalate_threshold

  -- some local check is on and over its threshold
  abbrev pub is_flagged : BertConfig → Bool
  is_flagged b =
      b.enabled
      && (b.check_toxicity && over_toxicity b
          || (b.check_nsfw && over_nsfw b
              || (b.check_prompt_injection && over_injection b
                  || b.check_gibberish && over_gibberish b)))

  -- the toxicity check is on, and its score is below the escalation threshold
  abbrev pub is_cleared : BertConfig → Bool
  is_cleared b = b.enabled && (b.check_toxicity && under_toxicity b)

  abbrev pub refuses : Result String Applied → Bool
  refuses (err e) = true
  refuses (ok a) = a.intervened

  -- Bedrock is configured and not mocked, and it intervenes or cannot be reached
  abbrev pub bedrock_refuses : GuardrailPolicy → Source → Bool
  bedrock_refuses p source =
      bedrock_configured p
      && (not x.mock_enabled
          && refuses
              (x.apply_guardrail p.bedrock_guardrail_id p.bedrock_guardrail_version source text))

  is_block-answer :
      (r : Result String Applied) → is_block (bedrock_answer text r).0.action ≡ refuses r
  is_block-answer (err e) = refl
  is_block-answer (ok a) = elim (Bool-cases a.intervened) [ inl e ↦ rw e refl | inr e ↦ rw e refl ]

  is_block-call :
      (p : GuardrailPolicy) (source : Source)
      → is_block (call_bedrock_guardrail x p source text).0.action ≡ (
          not x.mock_enabled
          && refuses
              (x.apply_guardrail p.bedrock_guardrail_id p.bedrock_guardrail_version source text))
  unfolding call_bedrock_guardrail
  is_block-call p source = elim (Bool-cases x.mock_enabled) [
    | inl e ↦ rw e refl
    | inr e ↦ rw e (is_block-answer _)
  ]

  consult_bedrock-blocked :
      (p : GuardrailPolicy) (ls : List GuardrailLayerResult)
      → (consult_bedrock x p text ls).blocked ≡ bedrock_refuses p Source.input
  consult_bedrock-blocked p ls = elim (Bool-cases (bedrock_configured p)) [
    | inl e ↦ rw e (is_block-call p Source.input)
    | inr e ↦ rw e refl
  ]

  module _ (answers : (m k t : String) → x.score m k t ≡ ok (f m k t)) where
    score_all-ok : (m k : String) (ts : List String) → score_all x m k ts ≡ ok (map (f m k) ts)
    unfolding score_all
    score_all-ok m k [] = refl
    score_all-ok m k (t ∷ ts) = rw (answers m k t, score_all-ok m k ts) refl

    scored :
        (m k : String) (v : Validation) → score_with_validation x m k text v ≡ ok (measured m k v)
    unfolding score_with_validation
    scored m k full_text = answers m k text
    scored m k sentence = rw (score_all-ok m k (split_sentences x text)) refl

    Yields-judge :
        (threshold score : ℕ) (reason : String)
        → Yields (judge_score threshold reason score) (if ltb threshold score then true else false)
    Yields-judge threshold score reason =
        Yields-if _ _ _ true false (Yields-note _ true) (Yields-note _ false)

    Yields-check :
        (on : Bool) (m k : String) (threshold : ℕ) (v : Validation) (reason : String)
        → Yields
            (optional on (run_binary_check x text m k threshold v reason))
            (if on then (if ltb threshold (measured m k v) then true else false) else false)
    unfolding run_binary_check
    Yields-check on m k threshold v reason =
        Yields-if on _ _ _ false
          (Yields-bind _ _ _ _ (Yields-lift _ _ (scored m k v)) (Yields-judge threshold _ reason))
          (Yields-pure false)

    Yields-toxicity :
        (b : BertConfig)
        → Yields
            (run_toxicity x b text)
            (toxicity_local b.check_toxicity (over_toxicity b) (under_toxicity b))
    unfolding run_toxicity
    Yields-toxicity b = Yields-if _ _ _ unresolved _ (Yields-pure unresolved) (
        Yields-bind _ _ _ _ (Yields-lift _ _ (answers _ _ text)) (
          Yields-if _ _ _ blocked _ (Yields-note _ blocked)
            (Yields-if _ _ _ safe unresolved (Yields-note _ safe) (Yields-note _ unresolved))))

    remaining : BertConfig → Local → Local
    remaining b t =
        or_blocked (if b.check_nsfw then (if over_nsfw b then true else false) else false) (
          or_blocked
            (if b.check_prompt_injection then (if over_injection b then true else false) else false)
            (or_blocked
              (if b.check_gibberish then (if over_gibberish b then true else false) else false) t))

    others : BertConfig → Local → Local
    others b blocked = blocked
    others b t = remaining b t

    Yields-remaining :
        (b : BertConfig) (t : Local) → Yields (remaining_checks x b text t) (remaining b t)
    unfolding remaining
    Yields-remaining b t =
        Yields-bind _ _ _ _ (Yields-check b.check_nsfw _ _ _ b.nsfw_validation _) (
          Yields-unless _ _ _ (
            Yields-bind _ _ _ _ (Yields-check b.check_prompt_injection _ _ _ full_text _) (
              Yields-unless _ _ _ (
                Yields-bind _ _ _ _ (Yields-check b.check_gibberish _ _ _ b.gibberish_validation _)
                  (Yields-unless _ _ _ (Yields-pure t))))))

    Yields-others : (b : BertConfig) (t : Local) → Yields (after_toxicity x b text t) (others b t)
    unfolding others
    Yields-others b blocked = Yields-pure blocked
    Yields-others b safe = Yields-remaining b safe
    Yields-others b unresolved = Yields-remaining b unresolved

    local_of : BertConfig → Local
    local_of b =
        if not b.enabled
        then unresolved
        else others b (toxicity_local b.check_toxicity (over_toxicity b) (under_toxicity b))

    Yields-bert : (b : BertConfig) → Yields (run_bert x b text) (local_of b)
    unfolding run_bert local_of
    Yields-bert b =
        Yields-if _ _ _ unresolved _ (Yields-pure unresolved)
          (Yields-bind _ _ _ _ (Yields-toxicity b) (Yields-others b _))

    refused_by-others :
        (b : BertConfig) (r : Bool)
        → refused_by (local_of b) r ≡ (is_flagged b || not (is_cleared b) && r)
    unfolding local_of others remaining
    refused_by-others b r = ground arith

    conclude-blocked :
        (p : GuardrailPolicy) (t : Local) (ls : List GuardrailLayerResult)
        → (d : GuardrailDecision) × (conclude x p text (ok t, ls) ≡ ok d)
          × (d.blocked ≡ refused_by t (bedrock_refuses p Source.input))
    conclude-blocked p blocked ls = (_, refl, refl)
    conclude-blocked p safe ls = (_, refl, refl)
    conclude-blocked p unresolved ls = (_, refl, consult_bedrock-blocked p ls)

    -- Where every classifier answers, the check of an input answers. It blocks exactly when a local check
    -- that is on finds the text over its threshold, or when Bedrock is configured and not mocked and
    -- intervenes or cannot be reached, unless the toxicity check is on and its score is below the
    -- escalation threshold.
    pub input_is_blocked_exactly :
        (p : GuardrailPolicy)
        → (d : GuardrailDecision) × (check_input x p text ≡ ok d)
          × (d.blocked
              ≡ (is_flagged p.bert || not (is_cleared p.bert) && bedrock_refuses p Source.input))
    unfolding check_input
    input_is_blocked_exactly p =
        let (ls, e) = (Yields-bert p.bert).at [] in
        let (d, g, h) = conclude-blocked p (local_of p.bert) ls in
        (
          d,
          ap (conclude x p text) e ∙ g,
          h ∙ refused_by-others p.bert (bedrock_refuses p Source.input),
        )

  -- The check of an output blocks exactly when Bedrock is configured and not mocked and intervenes or
  -- cannot be reached, and where it blocks it gives no text in place of the output.
  pub output_is_blocked_exactly :
      (p : GuardrailPolicy)
      → ((check_output x p text).blocked ≡ bedrock_refuses p Source.output)
        × ((check_output x p text).blocked ≡ true → (check_output x p text).sanitised_text ≡ none)
  unfolding check_output
  output_is_blocked_exactly p = elim (Bool-cases (bedrock_configured p)) [
    | inl e ↦ rw e (is_block-call p Source.output, λ h. rw h refl)
    | inr e ↦ rw e (refl, λ h. refl)
  ]
