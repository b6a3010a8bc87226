-- ===== src/Deployment/Enforce.antt =====
-- app/modules/security/policy_enforcement.py, and lambda_handlers/policy_check.py, mark_active.py and
-- mark_failed.py.
use agent_builder_factory_ap.Base.{
  ℕ, String, Bool, true, false, not, ◌&&◌, Option, none, some, List, [], ◌∷◌, pure, ◌>>=◌, ◌>>◌,
  ◌==◌, if◌then◌else◌, string_key,
}
use agent_builder_factory_ap.Registry.Agents.{Env}
use agent_builder_factory_ap.Registry.Pipeline.{
  mark_deployment_blocked, mark_deployment_active, mark_deployment_failed,
}
use agent_builder_factory_ap.Deployment.Models.{
  StageStatus, DeploymentStatus, StageResult, DeploymentRecord,
}
use agent_builder_factory_ap.Deployment.Gates.{
  Severity, SecurityFinding, Decision, PolicyGateResult, policy_gate, EvaluationGateResult,
  evaluation_gate,
}
use agent_builder_factory_ap.Deployment.Status.{
  Deployments, registry_tables, Step, StageUpdate, Message, stage_update, stage_of, in_registry,
  send, require_deployment, update_stage, or_else,
}

abbrev from_evaluation : PolicyGateResult → EvaluationGateResult → PolicyGateResult
from_evaluation r e = elim e.decision [
  | Decision.block ↦ record {
    decision = Decision.block;
    reason = e.reason;
    blocking_finding = none;
  }
  | Decision.pass ↦ r
]

-- the evaluation gate is asked only once the policy gate passed
abbrev with_scores : PolicyGateResult → Option (List (String × ℕ)) → PolicyGateResult
with_scores r none = r
with_scores r (some scores) = elim r.decision [
  | Decision.block ↦ r
  | Decision.pass ↦ from_evaluation r (evaluation_gate scores)
]

unfoldable pub decide : List SecurityFinding → Option (List (String × ℕ)) → PolicyGateResult
decide findings scores = with_scores (policy_gate findings) scores

abbrev pub blocked_update : String → StageUpdate
blocked_update reason = record {
  stage = "POLICY_CHECK";
  stage_status = StageStatus.blocked;
  output_summary = some reason;
  blocking_issue = some reason;
  overall_status = some DeploymentStatus.blocked;
  failure_reason = some reason;
  failed_stage = some "POLICY_CHECK";
}

abbrev pub passed_update : String → StageUpdate
passed_update reason = record (stage_update "POLICY_CHECK" StageStatus.passed) {
  output_summary = some reason;
  overall_status = some DeploymentStatus.applying;
}

-- the event and the metric, for a caller that passes both writers
module _ ⦃d : Deployments⦄ where
  abbrev pub announce : Bool → String → String → String → Step Unit
  announce false tenant_id deployment_id reason = pure tt
  announce true tenant_id deployment_id reason = do
    send (Message.block_event deployment_id reason)
    send (Message.blocked_metric tenant_id)

module _ ⦃d : Deployments⦄ (env : Env) (tenant_id agent_id deployment_id updated_by : String) where
  abbrev pub persist : Bool → Decision → String → Step Unit
  persist observed Decision.block reason = do
    announce observed tenant_id deployment_id reason
    update_stage env.now agent_id deployment_id (blocked_update reason)
    in_registry (mark_deployment_blocked env tenant_id agent_id updated_by)
    pure tt
  persist observed Decision.pass reason = do
    update_stage env.now agent_id deployment_id (passed_update reason)
    pure tt

  unfoldable pub enforce_policy_gate :
      List SecurityFinding → Option (List (String × ℕ)) → Bool → Step PolicyGateResult
  enforce_policy_gate findings scores observed = do
    let r = decide findings scores
    persist observed r.decision r.reason
    pure r

-- `a or b` on texts that may be missing
abbrev or_text : Option String → String → String
or_text none b = b
or_text (some a) b = if a == "" then b else a

abbrev is_failed : StageStatus → Bool
is_failed StageStatus.failed = true
is_failed StageStatus.pending = false
is_failed StageStatus.running = false
is_failed StageStatus.passed = false
is_failed StageStatus.skipped = false
is_failed StageStatus.blocked = false

-- why a failed EVALUATING stage blocks
abbrev pub evaluation_failure : Option StageResult → Option String
evaluation_failure none = none
evaluation_failure (some s) =
    if is_failed s.status
    then some (or_text s.blocking_issue (or_text s.output_summary "Evaluation failed"))
    else none

abbrev reported : StageResult → Option String → List SecurityFinding
reported s none = []
reported s (some issue) =
    if is_failed s.status && not (issue == "")
    then record {
      scan_type = "sast";
      severity = Severity.critical;
      category = issue;
      description = or_text s.output_summary issue;
      location = none;
    }
      ∷ []
    else []

-- the finding that is read back from the SECURITY_SCANNING stage
abbrev pub findings_of : Option StageResult → List SecurityFinding
findings_of none = []
findings_of (some s) = reported s s.blocking_issue

-- `require_agent_repo` gives the repository of the agent
module _ ⦃d : Deployments⦄ (env : Env) (repo : String)
    (tenant_id agent_id deployment_id : String) where
  abbrev pub settle_pull_request : Option String → Decision → String → Step Unit
  settle_pull_request none decision reason = pure tt
  settle_pull_request (some pr) Decision.block reason =
      send (Message.close_pull_request repo pr reason)
  settle_pull_request (some pr) Decision.pass reason = send (Message.merge_pull_request repo pr)

  abbrev pub check_gate : DeploymentRecord → Option String → Step (Decision × String)
  check_gate r (some reason) = do
    update_stage env.now agent_id deployment_id (blocked_update reason)
    in_registry (mark_deployment_blocked env tenant_id agent_id "step-functions")
    announce true tenant_id deployment_id reason
    pure (Decision.block, reason)
  check_gate r none = do
    g ←
        enforce_policy_gate env tenant_id agent_id deployment_id "step-functions"
          (findings_of (stage_of r.stages "SECURITY_SCANNING")) none true
    pure (g.decision, g.reason)

  -- `_decide` of policy_check.py
  unfoldable pub policy_check : Option String → Step (Decision × String)
  policy_check pr_id = do
    r ← require_deployment agent_id deployment_id
    result ← check_gate r (evaluation_failure (stage_of r.stages "EVALUATING"))
    settle_pull_request pr_id result.0 result.1
    pure result

  unfoldable pub mark_active : ℕ → Step Unit
  mark_active version = do
    in_registry (mark_deployment_active env tenant_id agent_id version "step-functions")
    update_stage env.now agent_id deployment_id
        (record (stage_update "HEALTH_CHECK" StageStatus.passed) {
          overall_status = some DeploymentStatus.active;
        })
    pure tt

  -- the reason is cut to 2000 characters before it is passed here
  unfoldable pub mark_failed : Option String → String → Step Unit
  mark_failed stage reason = do
    in_registry (mark_deployment_failed env tenant_id agent_id "step-functions")
    update_stage env.now agent_id deployment_id (record {
      stage = or_else stage "UNKNOWN";
      stage_status = StageStatus.failed;
      output_summary = some reason;
      blocking_issue = none;
      overall_status = some DeploymentStatus.failed;
      failure_reason = some reason;
      failed_stage = some (or_else stage "UNKNOWN");
    })
    pure tt
