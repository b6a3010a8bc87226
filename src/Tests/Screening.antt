-- ===== src/Tests/Screening.antt =====
-- Witnesses on a text whose toxicity is unsure, under a policy with a Bedrock guardrail that intervenes.
use agent_builder_factory_ap.Base.{
  ℕ, String, ◌≡◌, refl, true, false, ◌&&◌, ◌||◌, not, none, some, [], ◌∷◌, ok, ◌==◌, string_key,
  if◌then◌else◌,
}
use agent_builder_factory_ap.Runtime.Guardrail.{Source}
use agent_builder_factory_ap.Screening.{
  GuardrailDecision, full_text, BertConfig, GuardrailPolicy, Detectors, check_input, check_output,
}
use agent_builder_factory_ap.Screening.Decides.{
  is_flagged, is_cleared, bedrock_refuses, input_is_blocked_exactly, output_is_blocked_exactly,
}

abbrev scores : String → String → String → ℕ
scores model keyword text = if keyword == "toxic" then 500000 else 100000

abbrev detectors : Detectors
detectors = record {
  score = λ m k t. ok (scores m k t);
  sentences = λ t. t ∷ [];
  apply_guardrail = λ i v s t. ok (record { intervened = true; outputs = some "[REDACTED]" ∷ [] });
  mock_enabled = false;
}

abbrev bert_config : BertConfig
bert_config = record {
  enabled = true;
  block_threshold = 850000;
  escalate_threshold = 400000;
  check_toxicity = true;
  check_nsfw = true;
  nsfw_threshold = 800000;
  nsfw_validation = full_text;
  check_prompt_injection = true;
  prompt_injection_threshold = 300000;
  check_gibberish = false;
  gibberish_threshold = 500000;
  gibberish_validation = full_text;
}

abbrev policy : GuardrailPolicy
policy = record {
  bert = bert_config;
  bedrock_enabled = true;
  bedrock_guardrail_id = some "gr-1";
  bedrock_guardrail_version = "1";
}

input_is_blocked_exactly_example :
    (d : GuardrailDecision) × (check_input detectors policy "hello" ≡ ok d)
    × (d.blocked ≡ (
        is_flagged detectors scores "hello" bert_config
        || not (is_cleared detectors scores "hello" bert_config)
          && bedrock_refuses detectors scores "hello" policy Source.input))
input_is_blocked_exactly_example =
    input_is_blocked_exactly detectors scores "hello" (λ m k t. refl) policy

output_is_blocked_exactly_example :
    ((check_output detectors policy "hello").blocked
      ≡ bedrock_refuses detectors scores "hello" policy Source.output)
    × ((check_output detectors policy "hello").blocked ≡ true
        → (check_output detectors policy "hello").sanitised_text ≡ none)
output_is_blocked_exactly_example = output_is_blocked_exactly detectors scores "hello" policy
