-- ===== src/Screening.antt =====
-- app/modules/guardrails/engine.py: the checks of an input and of an output against a guardrail policy. A
-- score or threshold is a number of millionths. The classifiers, the split of a text into sentences and
-- Bedrock are fields of Detectors; a classifier may raise.
pub mod Yields
pub mod Decides
use agent_builder_factory_ap.Base.{
  ℕ, String, Bool, true, false, ◌&&◌, ◌||◌, not, Option, none, some, List, [], ◌∷◌, ◌++◌, Result,
  ok, err, Exec, pure, lift, ◌>>=◌, ◌>>◌, ◌==◌, if◌then◌else◌, ltb, string_key,
}
use agent_builder_factory_ap.Runtime.Guardrail.{Source, Applied, is_set, first_text}

pub data GuardrailLayer : Type 0 where
  bert bedrock : GuardrailLayer

pub data GuardrailAction : Type 0 where
  block escalate pass : GuardrailAction

pub record GuardrailLayerResult : Type 0 where
  pub layer : GuardrailLayer
  pub action : GuardrailAction
  pub confidence : Option ℕ
  pub reason : String

pub record GuardrailDecision : Type 0 where
  pub blocked : Bool
  pub layers : List GuardrailLayerResult
  pub sanitised_text : Option String

pub data Validation : Type 0 where
  sentence full_text : Validation

pub record BertConfig : Type 0 where
  pub enabled : Bool
  pub block_threshold : ℕ
  pub escalate_threshold : ℕ
  pub check_toxicity : Bool
  pub check_nsfw : Bool
  pub nsfw_threshold : ℕ
  pub nsfw_validation : Validation
  pub check_prompt_injection : Bool
  pub prompt_injection_threshold : ℕ
  pub check_gibberish : Bool
  pub gibberish_threshold : ℕ
  pub gibberish_validation : Validation

-- the part of a policy that the engine reads
pub record GuardrailPolicy : Type 0 where
  pub bert : BertConfig
  pub bedrock_enabled : Bool
  pub bedrock_guardrail_id : Option String
  pub bedrock_guardrail_version : String

-- `score` is given the model, the keyword of its target label and the text; `sentences` are the stripped
-- pieces of a text that are not empty.
pub record Detectors : Type 0 where
  pub score : String → String → String → Result String ℕ
  pub sentences : String → List String
  pub apply_guardrail : Option String → String → Source → String → Result String Applied
  pub mock_enabled : Bool

-- the layers so far
abbrev pub Checking : Type 0 → Type 0
Checking A = Exec (List GuardrailLayerResult) String A

unfoldable pub note : GuardrailLayerResult → Checking Unit
note l ls = (ok tt, ls ++ (l ∷ []))

abbrev pub bert_layer : GuardrailAction → ℕ → String → GuardrailLayerResult
bert_layer a score reason = record {
  layer = bert;
  action = a;
  confidence = some score;
  reason = reason;
}

abbrev pub bedrock_layer : GuardrailAction → String → GuardrailLayerResult
bedrock_layer a reason = record { layer = bedrock; action = a; confidence = none; reason = reason }

-- `sentences or [text]`
abbrev or_whole : String → List String → List String
or_whole text [] = text ∷ []
or_whole text (s ∷ ss) = s ∷ ss

abbrev pub split_sentences : Detectors → String → List String
split_sentences x text = or_whole text (x.sentences text)

abbrev larger : ℕ → ℕ → ℕ
larger a b = if ltb a b then b else a

abbrev pub largest : List ℕ → ℕ
largest [] = 0
largest (s ∷ ss) = larger s (largest ss)

abbrev pub then_scored : Result String ℕ → Result String (List ℕ) → Result String (List ℕ)
then_scored (err e) rest = err e
then_scored (ok s) (err e) = err e
then_scored (ok s) (ok ss) = ok (s ∷ ss)

unfoldable pub score_all : Detectors → String → String → List String → Result String (List ℕ)
score_all x model keyword [] = ok []
score_all x model keyword (t ∷ ts) =
    then_scored (x.score model keyword t) (score_all x model keyword ts)

abbrev pub largest_of : Result String (List ℕ) → Result String ℕ
largest_of (err e) = err e
largest_of (ok ss) = ok (largest ss)

-- `_score_with_validation`
unfoldable pub score_with_validation :
    Detectors → String → String → String → Validation → Result String ℕ
score_with_validation x model keyword text full_text = x.score model keyword text
score_with_validation x model keyword text sentence =
    largest_of (score_all x model keyword (split_sentences x text))

abbrev pub judge_score : ℕ → String → ℕ → Checking Bool
judge_score threshold reason score =
    if ltb threshold score
    then (note (bert_layer block score reason) >> pure true)
    else (note (bert_layer pass score reason) >> pure false)

-- `_run_binary_check`: whether it blocks
unfoldable pub run_binary_check :
    Detectors → String → String → String → ℕ → Validation → String → Checking Bool
run_binary_check x text model keyword threshold validation reason = do
  score ← lift (score_with_validation x model keyword text validation)
  judge_score threshold reason score

-- what the local checks leave to do
pub data Local : Type 0 where
  blocked safe unresolved : Local

abbrev pub judge_toxicity : BertConfig → ℕ → Checking Local
judge_toxicity b score =
    if ltb b.block_threshold score
    then (note (bert_layer block score "toxicity") >> pure blocked)
    else if ltb score b.escalate_threshold
    then (note (bert_layer pass score "safe") >> pure safe)
    else (note (bert_layer escalate score "unsure") >> pure unresolved)

unfoldable pub run_toxicity : Detectors → BertConfig → String → Checking Local
run_toxicity x b text =
    if not b.check_toxicity
    then pure unresolved
    else do score ← lift (x.score "unitary/toxic-bert" "toxic" text); judge_toxicity b score

abbrev pub optional : Bool → Checking Bool → Checking Bool
optional wanted check = if wanted then check else pure false

abbrev pub run_nsfw : Detectors → BertConfig → String → Checking Bool
run_nsfw x b text = optional b.check_nsfw (
    run_binary_check x text "eliasalbouzidi/distilbert-nsfw-text-classifier" "nsfw" b.nsfw_threshold
      b.nsfw_validation "nsfw")

abbrev pub run_prompt_injection : Detectors → BertConfig → String → Checking Bool
run_prompt_injection x b text = optional b.check_prompt_injection (
    run_binary_check x text "protectai/deberta-v3-base-prompt-injection-v2" "injection"
      b.prompt_injection_threshold full_text "prompt_injection")

abbrev pub run_gibberish : Detectors → BertConfig → String → Checking Bool
run_gibberish x b text = optional b.check_gibberish (
    run_binary_check x text "madhurjindal/autonlp-Gibberish-Detector" "gibberish"
      b.gibberish_threshold b.gibberish_validation "gibberish")

-- a check that blocks ends the local checks
abbrev pub unless_blocked : Checking Local → Bool → Checking Local
unless_blocked rest true = pure blocked
unless_blocked rest false = rest

-- the three checks after that of toxicity, which left `t`
abbrev pub remaining_checks : Detectors → BertConfig → String → Local → Checking Local
remaining_checks x b text t = do
  nsfw ← run_nsfw x b text
  unless_blocked
      (do
        injection ← run_prompt_injection x b text
        unless_blocked (do gibberish ← run_gibberish x b text; unless_blocked (pure t) gibberish)
            injection)
      nsfw

abbrev pub after_toxicity : Detectors → BertConfig → String → Local → Checking Local
after_toxicity x b text blocked = pure blocked
after_toxicity x b text t = remaining_checks x b text t

unfoldable pub run_bert : Detectors → BertConfig → String → Checking Local
run_bert x b text =
    if not b.enabled
    then pure unresolved
    else do toxicity ← run_toxicity x b text; after_toxicity x b text toxicity

abbrev pub bedrock_configured : GuardrailPolicy → Bool
bedrock_configured p = p.bedrock_enabled && is_set p.bedrock_guardrail_id

abbrev sanitised_or : String → Option (Option String) → String
sanitised_or text none = text
sanitised_or text (some none) = text
sanitised_or text (some (some t)) = t

abbrev first_output : List (Option String) → Option (Option String)
first_output [] = none
first_output (o ∷ os) = some o

abbrev pub bedrock_answer : String → Result String Applied → GuardrailLayerResult × String
bedrock_answer text (err e) = (bedrock_layer block "bedrock_guardrail_unavailable", text)
bedrock_answer text (ok a) = (
  if a.intervened then bedrock_layer block "guardrail_intervened" else bedrock_layer pass "passed",
  sanitised_or text (first_output a.outputs),
)

-- `_call_bedrock_guardrail_with_output`
unfoldable pub call_bedrock_guardrail :
    Detectors → GuardrailPolicy → Source → String → GuardrailLayerResult × String
call_bedrock_guardrail x p source text =
    if x.mock_enabled
    then (bedrock_layer pass "mocked_pass", text)
    else bedrock_answer text
        (x.apply_guardrail p.bedrock_guardrail_id p.bedrock_guardrail_version source text)

abbrev pub is_block : GuardrailAction → Bool
is_block block = true
is_block _ = false

-- `layers and layers[-1].action == "escalate"`
abbrev pub ends_escalated : List GuardrailLayerResult → Bool
ends_escalated [] = false
ends_escalated (l ∷ []) = elim l.action [ block ↦ false | escalate ↦ true | pass ↦ false ]
ends_escalated (l ∷ m ∷ ls) = ends_escalated (m ∷ ls)

abbrev decided : Bool → List GuardrailLayerResult → GuardrailDecision
decided b ls = record { blocked = b; layers = ls; sanitised_text = none }

abbrev pub unconfigured : GuardrailLayerResult
unconfigured = bedrock_layer pass "no_bedrock_guardrail_configured"

abbrev with_answer : List GuardrailLayerResult → GuardrailLayerResult → GuardrailDecision
with_answer ls l = decided (is_block l.action) (ls ++ (l ∷ []))

abbrev pub consult_bedrock :
    Detectors → GuardrailPolicy → String → List GuardrailLayerResult → GuardrailDecision
consult_bedrock x p text ls =
    if bedrock_configured p
    then with_answer ls (call_bedrock_guardrail x p Source.input text).0
    else decided false (if ends_escalated ls then ls ++ (unconfigured ∷ []) else ls)

abbrev pub conclude :
    Detectors
    → GuardrailPolicy
    → String
    → Result String Local × List GuardrailLayerResult
    → Result String GuardrailDecision
conclude x p text (err e, ls) = err e
conclude x p text (ok blocked, ls) = ok (decided true ls)
conclude x p text (ok safe, ls) = ok (decided false ls)
conclude x p text (ok unresolved, ls) = ok (consult_bedrock x p text ls)

unfoldable pub check_input : Detectors → GuardrailPolicy → String → Result String GuardrailDecision
check_input x p text = conclude x p text (run_bert x p.bert text [])

abbrev if_changed : String → String → Option String
if_changed text t = if t == text then none else some t

abbrev pub output_decision : String → GuardrailLayerResult × String → GuardrailDecision
output_decision text (l, t) = record {
  blocked = is_block l.action;
  layers = l ∷ [];
  sanitised_text = if is_block l.action then none else if_changed text t;
}

unfoldable pub check_output : Detectors → GuardrailPolicy → String → GuardrailDecision
check_output x p text =
    if not (bedrock_configured p)
    then decided false (unconfigured ∷ [])
    else output_decision text (call_bedrock_guardrail x p Source.output text)
