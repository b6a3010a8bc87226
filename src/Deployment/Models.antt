-- ===== src/Deployment/Models.antt =====
-- app/modules/deployment/models.py: the record of a deployment and of its stages.
use agent_builder_factory_ap.Base.{ℕ, String, Bool, Option, none, List, [], ◌∷◌, map}

pub data StageStatus : Type 0 where
  pending : StageStatus
  running : StageStatus
  passed : StageStatus
  failed : StageStatus
  skipped : StageStatus
  blocked : StageStatus

pub data DeploymentStatus : Type 0 where
  pending : DeploymentStatus
  validating : DeploymentStatus
  change_impact : DeploymentStatus
  generating_iac : DeploymentStatus
  security_scanning : DeploymentStatus
  evaluating : DeploymentStatus
  terraform_validate : DeploymentStatus
  terraform_plan : DeploymentStatus
  policy_check : DeploymentStatus
  pending_approval : DeploymentStatus
  applying : DeploymentStatus
  deploying : DeploymentStatus
  health_check : DeploymentStatus
  active : DeploymentStatus
  failed : DeploymentStatus
  blocked : DeploymentStatus

pub data ApprovalMode : Type 0 where
  automated : ApprovalMode
  manual : ApprovalMode

pub record StageResult : Type 0 where
  pub stage : String
  pub status : StageStatus
  pub started_at : Option String
  pub completed_at : Option String
  pub output_summary : Option String
  pub blocking_issue : Option String

pub record DeploymentRecord : Type 0 where
  pub agent_id : String
  pub deployment_id : String
  pub version : ℕ
  pub triggered_by : String
  pub triggered_at : String
  pub status : DeploymentStatus
  pub current_stage : String
  pub approval_mode : ApprovalMode
  pub approved_by : Option String
  pub approved_at : Option String
  pub stages : List (String × StageResult)
  pub terraform_plan_summary : Option String
  pub terraform_apply_output : Option String
  pub iac_s3_key : Option String
  pub branch : Option String
  pub pull_request_id : Option String
  pub health_check_url : Option String
  pub health_check_passed : Option Bool
  pub failure_reason : Option String
  pub failed_stage : Option String
  pub updated_at : String

abbrev stage_order : List String
stage_order =
    "VALIDATING" ∷ "CHANGE_IMPACT" ∷ "GENERATING_IAC" ∷ "SECURITY_SCANNING" ∷ "EVALUATING"
    ∷ "TERRAFORM_VALIDATE" ∷ "TERRAFORM_PLAN" ∷ "POLICY_CHECK" ∷ "APPLYING" ∷ "DEPLOYING"
    ∷ "HEALTH_CHECK" ∷ []

-- `StageResult(stage=stage)`
abbrev pub new_stage : String → StageResult
new_stage stage = record {
  stage = stage;
  status = StageStatus.pending;
  started_at = none;
  completed_at = none;
  output_summary = none;
  blocking_issue = none;
}

unfoldable pub initial_stages : List (String × StageResult)
initial_stages = map (λ stage. (stage, new_stage stage)) stage_order
