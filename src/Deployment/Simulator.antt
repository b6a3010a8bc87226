-- ===== src/Deployment/Simulator.antt =====
-- app/modules/deployment/pipeline_simulator.py: the pipeline that local development runs.
use agent_builder_factory_ap.Base.{
  String, Bool, true, false, Option, none, some, List, [], ◌∷◌, ok, pure, ◌>>=◌, ◌>>◌,
  if◌then◌else◌, string_key,
}
use agent_builder_factory_ap.Registry.Agents.{Env}
use agent_builder_factory_ap.Registry.Pipeline.{mark_deployment_blocked, mark_deployment_active}
use agent_builder_factory_ap.Deployment.Models.{
  StageStatus, DeploymentStatus, ApprovalMode, DeploymentRecord,
}
use agent_builder_factory_ap.Deployment.Gates.{Decision}
use agent_builder_factory_ap.Deployment.Status.{
  Deployments, registry_tables, Step, StageUpdate, Message, stage_update, in_registry, send,
  get_deployment, update_stage,
}

-- What IaCScanRunner reports, with its findings and checks already formatted as texts.
pub record ScanResult : Type 0 where
  pub security_summary : String
  pub validation_passed : Bool
  pub validation_lines : String
  pub policy_decision : Decision
  pub policy_reason : String

-- `agent_repo_identifier` for the agent, and f"[simulated] {stage} passed." for a stage
pub record Simulator : Type 0 where
  pub repo : Option String
  pub passed_text : String → String

abbrev updated_by : String
updated_by = "deployment-pipeline-simulator"

-- what a manual deployment waits with
abbrev pub park : StageUpdate
park = record (stage_update "POLICY_CHECK" StageStatus.passed) {
  overall_status = some DeploymentStatus.pending_approval;
}

module _ ⦃d : Deployments⦄ (env : Env) (sim : Simulator)
    (tenant_id agent_id deployment_id : String) where
  abbrev pub update : StageUpdate → Step DeploymentRecord
  update u = update_stage env.now agent_id deployment_id u

  abbrev pub passed_stage : String → StageUpdate
  passed_stage stage = record (stage_update stage StageStatus.passed) {
    output_summary = some (sim.passed_text stage);
  }

  -- `_advance_stages`, without its pauses
  unfoldable pub advance_stages : List String → Step Unit
  advance_stages [] = pure tt
  advance_stages (stage ∷ stages) = do
    update (stage_update stage StageStatus.running)
    update (passed_stage stage)
    advance_stages stages

  abbrev pub merge : Option String → Option String → Step Unit
  merge none repo = pure tt
  merge (some pr) none = pure tt
  merge (some pr) (some repo) = send (Message.merge_pull_request repo pr)

  abbrev pub close : Option String → Option String → String → Step Unit
  close none repo reason = pure tt
  close (some pr) none reason = pure tt
  close (some pr) (some repo) reason = send (Message.close_pull_request repo pr reason)

  -- `_block`
  unfoldable pub block : DeploymentRecord → String → Step Unit
  block r reason = do
    close r.pull_request_id sim.repo reason
    in_registry (mark_deployment_blocked env tenant_id agent_id updated_by)
    update (record {
      stage = "POLICY_CHECK";
      stage_status = StageStatus.blocked;
      output_summary = some reason;
      blocking_issue = none;
      overall_status = some DeploymentStatus.blocked;
      failure_reason = some reason;
      failed_stage = some "POLICY_CHECK";
    })
    pure tt

  -- `_finish`
  unfoldable pub finish : DeploymentRecord → Step Unit
  finish r = do
    merge r.pull_request_id sim.repo
    advance_stages ("APPLYING" ∷ "DEPLOYING" ∷ [])
    in_registry (mark_deployment_active env tenant_id agent_id r.version updated_by)
    update (record (stage_update "HEALTH_CHECK" StageStatus.passed) {
      output_summary = some "[simulated] Health check passed.";
      overall_status = some DeploymentStatus.active;
    })
    pure tt

  abbrev pub settle_policy : DeploymentRecord → ScanResult → Decision → Step Bool
  settle_policy r scan Decision.block = do block r scan.policy_reason; pure false
  settle_policy r scan Decision.pass = do
    update (record (stage_update "POLICY_CHECK" StageStatus.passed) {
      output_summary = some scan.policy_reason;
    })
    pure true

  -- `_run_scan_and_policy_check`; no result without a runner, a configuration or the files
  unfoldable pub run_scan_and_policy_check : DeploymentRecord → Option ScanResult → Step Bool
  run_scan_and_policy_check r none = do
    advance_stages
        ("SECURITY_SCANNING" ∷ "EVALUATING" ∷ "TERRAFORM_VALIDATE" ∷ "TERRAFORM_PLAN" ∷ [])
    advance_stages ("POLICY_CHECK" ∷ [])
    pure true
  run_scan_and_policy_check r (some scan) = do
    update (stage_update "SECURITY_SCANNING" StageStatus.running)
    update (record (stage_update "SECURITY_SCANNING" StageStatus.passed) {
      output_summary = some scan.security_summary;
    })
    advance_stages ("EVALUATING" ∷ [])
    update
        (record (stage_update "TERRAFORM_VALIDATE"
          (if scan.validation_passed then StageStatus.passed else StageStatus.failed)) {
            output_summary = some scan.validation_lines;
          })
    advance_stages ("TERRAFORM_PLAN" ∷ [])
    settle_policy r scan scan.policy_decision

  abbrev pub after_check : DeploymentRecord → ApprovalMode → Bool → Step Unit
  after_check r mode false = pure tt
  after_check r ApprovalMode.manual true = do update park; pure tt
  after_check r ApprovalMode.automated true = finish r

  abbrev pub run_record : Option ScanResult → Option DeploymentRecord → Step Unit
  run_record scan none = pure tt
  run_record scan (some r) = do
    advance_stages ("VALIDATING" ∷ "CHANGE_IMPACT" ∷ "GENERATING_IAC" ∷ [])
    passed ← run_scan_and_policy_check r scan
    after_check r r.approval_mode passed

  -- an exception is logged and dropped
  abbrev pub quietly : Step Unit → Step Unit
  quietly m w = (ok tt, (m w).1)

  abbrev pub read_and_run : Option ScanResult → Step Unit
  read_and_run scan = do found ← get_deployment agent_id deployment_id; run_record scan found

  unfoldable pub run : Option ScanResult → Step Unit
  run scan = quietly (read_and_run scan)

  abbrev pub finish_found : Option DeploymentRecord → Step Unit
  finish_found none = pure tt
  finish_found (some r) = finish r

  abbrev read_and_finish : Step Unit
  read_and_finish = do found ← get_deployment agent_id deployment_id; finish_found found

  -- `resume_after_approval` of the simulator
  unfoldable pub resume_approved : Step Unit
  resume_approved = quietly read_and_finish
