-- ===== src/Tests/Deployment.antt =====
-- Witnesses on a deployment of an agent that has no live version yet.
use agent_builder_factory_ap.Base.{
  ap, sym, ◌∙◌, ==_sound, Bool-cases, inl, inr, ◌==◌, ◌&&◌, List, ◌≡◌, refl, ◌↔◌, true, none, some,
  [], ◌∷◌, Memᴰ, contains, string_key, ◌>>=◌, nat_key,
}
use agent_builder_factory_ap.Table.Assoc.{assoc_table}
use agent_builder_factory_ap.Registry.Models.{
  agent_of_item, typed, normalise_agent_type, is_agent_type,
}
use agent_builder_factory_ap.Registry.Agents.{require_agent, get_agent}
use agent_builder_factory_ap.Registry.Create.{new_agent}
use agent_builder_factory_ap.Deployment.Models.{ApprovalMode, DeploymentStatus, DeploymentRecord}
use agent_builder_factory_ap.Deployment.Gates.{
  Severity, SecurityFinding, Decision, policy_gate, evaluation_gate, critical_block_conditions,
  ragas_metrics,
}
use agent_builder_factory_ap.Deployment.GateLaws.{
  BlockedBy, FailsOn, policy_gate_decides, evaluation_gate_decides,
}
use agent_builder_factory_ap.Deployment.Status.{
  Deployments, Platform, in_registry, send, put_deployment, get_deployment, require_deployment,
  record_approval,
}
use agent_builder_factory_ap.Deployment.Enforce.{decide, enforce_policy_gate}
use agent_builder_factory_ap.Deployment.Approve.{require_approvable, approve_deployment}
use agent_builder_factory_ap.Deployment.Later.{IsFiled, Refused, both}
use agent_builder_factory_ap.Deployment.Once.{Event, happen_all, approved_once}
use agent_builder_factory_ap.Deployment.Outcomes.{Enforced, gate_outcome}
use agent_builder_factory_ap.Deployment.Simulator.{Simulator, park, run}
use agent_builder_factory_ap.Deployment.Leaves.{Any, Leaves}
use agent_builder_factory_ap.Deployment.Parks.{manual_run_parks}
use agent_builder_factory_ap.Tests.Registry.{env, agent}

instance abbrev deployments : Deployments
deployments = record {
  registry = record { agents = assoc_table; versions = assoc_table };
  table = assoc_table;
}

abbrev secret : SecurityFinding
secret = record {
  scan_type = "secret_scan";
  severity = Severity.critical;
  category = "hardcoded_secret_found";
  description = "a key in app/main.py";
  location = none;
}

policy_gate_decides_example :
    ((policy_gate (secret ∷ [])).decision ≡ Decision.block
      → BlockedBy (secret ∷ []) (policy_gate (secret ∷ [])))
    × ((f : SecurityFinding)
        → Memᴰ f (secret ∷ [])
        → f.severity ≡ Severity.critical
        → contains critical_block_conditions f.category ≡ true
        → (policy_gate (secret ∷ [])).decision ≡ Decision.block)
policy_gate_decides_example = policy_gate_decides (secret ∷ [])

evaluation_gate_decides_example :
    ((evaluation_gate (("faithfulness", 650000) ∷ [])).decision ≡ Decision.block)
    ↔ FailsOn (("faithfulness", 650000) ∷ []) ragas_metrics
evaluation_gate_decides_example = evaluation_gate_decides (("faithfulness", 650000) ∷ [])

abbrev deployment : DeploymentStatus → DeploymentRecord
deployment s = record {
  agent_id = "support";
  deployment_id = "d1";
  version = 2;
  triggered_by = "ann";
  triggered_at = "now";
  status = s;
  current_stage = "POLICY_CHECK";
  approval_mode = ApprovalMode.manual;
  approved_by = none;
  approved_at = none;
  stages = [];
  terraform_plan_summary = none;
  terraform_apply_output = none;
  iac_s3_key = none;
  branch = none;
  pull_request_id = none;
  health_check_url = none;
  health_check_passed = none;
  failure_reason = none;
  failed_stage = none;
  updated_at = "now";
}

abbrev platform : DeploymentStatus → Platform
platform s = record {
  db = record { agents = ("t1", "support", agent) ∷ []; versions = [] };
  deployments = ("support", "d1", deployment s) ∷ [];
  sent = [];
}

gate_outcome_example :
    Enforced
      (platform DeploymentStatus.terraform_plan)
      (deployment DeploymentStatus.terraform_plan)
      agent
      (decide (secret ∷ []) none)
      (enforce_policy_gate env "t1" "support" "d1" "ann"
        (secret ∷ [])
        none
        true
        (platform DeploymentStatus.terraform_plan))
unfolding require_agent get_agent agent_of_item typed normalise_agent_type is_agent_type agent
    new_agent ◌>>=◌
gate_outcome_example =
    gate_outcome env "t1" "support" "d1" "ann" (secret ∷ []) none true
      (platform DeploymentStatus.terraform_plan) {r = deployment DeploymentStatus.terraform_plan}
      {o = agent} refl refl

abbrev simulator : Simulator
simulator = record { repo = some "agents/support"; passed_text = λ stage. stage }

-- the stage that CI/CD writes, and another approval
abbrev events : List Event
events =
    Event.resume env simulator "t1" "support" "d1"
    ∷ Event.approve "soon" "t1" "support" "d1" "bob"
    ∷ Event.write_stage "soon" "support" "d1" park
    ∷ []

one_deployment : IsFiled (platform DeploymentStatus.pending_approval)
one_deployment x y r e = elim (Bool-cases ("support" == x && "d1" == y)) [
  | inl k ↦
      let (i, j) = both ("support" == x) ("d1" == y) k in
      let same : deployment DeploymentStatus.pending_approval ≡ r = cc (rw k at e) in
      (
        ap (λ z. z.agent_id) (sym same) ∙ ==_sound "support" x i,
        ap (λ z. z.deployment_id) (sym same) ∙ ==_sound "d1" y j,
      )
  | inr k ↦ cc (rw k at e)
]

approved_once_example : Refused "support" "d1" "ann" "t1" "later" "eve" (
    happen_all events
      (approve_deployment "now" "t1" "support" "d1" "ann"
        (platform DeploymentStatus.pending_approval)).1)
unfolding approve_deployment require_approvable in_registry send put_deployment get_deployment
    require_deployment record_approval get_agent agent_of_item typed normalise_agent_type
    is_agent_type agent new_agent ◌>>=◌
approved_once_example =
    approved_once "now" "t1" "support" "d1" "ann" (platform DeploymentStatus.pending_approval)
      one_deployment refl events "later" "t1" "eve"

manual_run_parks_example :
    Leaves "support" "d1" Any
      (platform DeploymentStatus.pending)
      DeploymentStatus.pending_approval
      (run env simulator "t1" "support" "d1" none)
      (platform DeploymentStatus.pending)
manual_run_parks_example =
    manual_run_parks "support" "d1" env simulator "t1" (platform DeploymentStatus.pending) none
      (deployment DeploymentStatus.pending) refl refl refl refl refl refl
