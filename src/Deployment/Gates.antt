-- ===== src/Deployment/Gates.antt =====
-- app/modules/security/policy_gate.py and app/modules/evaluation/gate.py. A score is a number of
-- millionths, as are the thresholds.
use Prim.Native.String.{◌++◌ as append}
use agent_builder_factory_ap.Base.{
  ℕ, String, Bool, true, false, ◌&&◌, Option, none, some, List, [], ◌∷◌, ltb, contains,
  if◌then◌else◌, ◌==◌, string_key,
}

pub data Severity : Type 0 where
  low : Severity
  medium : Severity
  high : Severity
  critical : Severity

pub record SecurityFinding : Type 0 where
  pub scan_type : String
  pub severity : Severity
  pub category : String
  pub description : String
  pub location : Option String

pub data Decision : Type 0 where
  pass : Decision
  block : Decision

pub record PolicyGateResult : Type 0 where
  pub decision : Decision
  pub reason : String
  pub blocking_finding : Option SecurityFinding

-- CRITICAL_BLOCK_CONDITIONS
abbrev pub critical_block_conditions : List String
critical_block_conditions =
    "hardcoded_secret_found" ∷ "critical_cve_found" ∷ "iam_privilege_escalation"
    ∷ "prompt_injection_vulnerability" ∷ "data_exfiltration_risk" ∷ []

abbrev pub is_critical : Severity → Bool
is_critical Severity.low = false
is_critical Severity.medium = false
is_critical Severity.high = false
is_critical Severity.critical = true

abbrev pub is_blocking : SecurityFinding → Bool
is_blocking f = is_critical f.severity && contains critical_block_conditions f.category

abbrev pub blocked_by : SecurityFinding → PolicyGateResult
blocked_by f = record {
  decision = Decision.block;
  reason = append "Critical finding: " f.description;
  blocking_finding = some f;
}

unfoldable pub policy_gate : List SecurityFinding → PolicyGateResult
policy_gate [] = record {
  decision = Decision.pass;
  reason = "All security gates passed";
  blocking_finding = none;
}
policy_gate (f ∷ fs) = if is_blocking f then blocked_by f else policy_gate fs

pub record RagasMetric : Type 0 where
  pub name : String
  pub threshold : ℕ
  pub blocks_deployment : Bool

abbrev metric : String → ℕ → Bool → RagasMetric
metric name threshold blocks = record {
  name = name;
  threshold = threshold;
  blocks_deployment = blocks;
}

-- RAGAS_METRICS
abbrev pub ragas_metrics : List RagasMetric
ragas_metrics =
    metric "faithfulness" 700000 true
    ∷ metric "answer_relevancy" 750000 true
    ∷ metric "context_precision" 600000 true
    ∷ metric "context_recall" 650000 true
    ∷ metric "noise_sensitivity" 650000 true
    ∷ metric "groundedness" 750000 false
    ∷ metric "citation_accuracy" 700000 false
    ∷ []

pub record EvaluationGateResult : Type 0 where
  pub decision : Decision
  pub reason : String
  pub failed_metrics : List String

abbrev pub score_of : List (String × ℕ) → String → Option ℕ
score_of [] name = none
score_of (s ∷ scores) name = if s.0 == name then some s.1 else score_of scores name

abbrev pub below : Option ℕ → ℕ → Bool
below none threshold = false
below (some score) threshold = ltb score threshold

abbrev pub fails : List (String × ℕ) → RagasMetric → Bool
fails scores m = m.blocks_deployment && below (score_of scores m.name) m.threshold

unfoldable pub failed_of : List (String × ℕ) → List RagasMetric → List String
failed_of scores [] = []
failed_of scores (m ∷ ms) =
    if fails scores m then m.name ∷ failed_of scores ms else failed_of scores ms

-- `", ".join(names)`
abbrev join : List String → String
join [] = ""
join (s ∷ []) = s
join (s ∷ t ∷ rest) = append s (append ", " (join (t ∷ rest)))

abbrev pub gate_on : List String → EvaluationGateResult
gate_on [] = record {
  decision = Decision.pass;
  reason = "All evaluation gates passed";
  failed_metrics = [];
}
gate_on (n ∷ ns) = record {
  decision = Decision.block;
  reason = append "RAGAS metric(s) below threshold: " (join (n ∷ ns));
  failed_metrics = n ∷ ns;
}

unfoldable pub evaluation_gate : List (String × ℕ) → EvaluationGateResult
unfolding failed_of
evaluation_gate scores = gate_on (failed_of scores ragas_metrics)
