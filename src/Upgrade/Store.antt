-- ===== src/Upgrade/Store.antt =====
-- app/modules/platform/upgrade_models.py and upgrade_store.py, with the service that an upgrade changes.
use agent_builder_factory_ap.Base.{
  String, ◌≡◌, refl, ◌↔◌, true, Option, none, some, List, [], ◌∷◌, ok, Exec, require_some, ◌>>=◌,
  Key, ◌==◌, if◌then◌else◌, string_key,
}
use agent_builder_factory_ap.Table.{Table}
use agent_builder_factory_ap.Deployment.Status.{or_else, or_keep}

pub data UpgradeStatus : Type 0 where
  pending : UpgradeStatus
  pulling_image : UpgradeStatus
  registering_task_definition : UpgradeStatus
  updating_service : UpgradeStatus
  health_check : UpgradeStatus
  active : UpgradeStatus
  failed : UpgradeStatus
  rolled_back : UpgradeStatus

pub data UpgradeStageStatus : Type 0 where
  waiting : UpgradeStageStatus
  running : UpgradeStageStatus
  passed : UpgradeStageStatus
  stopped : UpgradeStageStatus

pub record UpgradeStageResult : Type 0 where
  pub stage : String
  pub status : UpgradeStageStatus
  pub started_at : Option String
  pub completed_at : Option String
  pub output_summary : Option String

pub record PlatformUpgradeRecord : Type 0 where
  pub upgrade_id : String
  pub from_version : String
  pub target_version : String
  pub target_image : String
  pub previous_task_definition_arn : Option String
  pub new_task_definition_arn : Option String
  pub status : UpgradeStatus
  pub current_stage : String
  pub stages : List (String × UpgradeStageResult)
  pub triggered_by : String
  pub triggered_at : String
  pub failure_reason : Option String
  pub failed_stage : Option String
  pub updated_at : String

-- the arguments of update_stage besides the upgrade's id
pub record StageChange : Type 0 where
  pub stage : String
  pub stage_status : UpgradeStageStatus
  pub output_summary : Option String
  pub overall_status : Option UpgradeStatus
  pub failure_reason : Option String
  pub failed_stage : Option String
  pub previous_task_definition_arn : Option String
  pub new_task_definition_arn : Option String

abbrev pub stage_change : String → UpgradeStageStatus → Option String → UpgradeStatus → StageChange
stage_change stage status summary overall = record {
  stage = stage;
  stage_status = status;
  output_summary = summary;
  overall_status = some overall;
  failure_reason = none;
  failed_stage = none;
  previous_task_definition_arn = none;
  new_task_definition_arn = none;
}

abbrev new_result : String → UpgradeStageResult
new_result stage = record {
  stage = stage;
  status = UpgradeStageStatus.waiting;
  started_at = none;
  completed_at = none;
  output_summary = none;
}

-- `stages.get(stage, ...)`, and `{**stages, stage: result}`
abbrev result_at : List (String × UpgradeStageResult) → String → UpgradeStageResult
result_at [] stage = new_result stage
result_at (s ∷ ss) stage = if s.0 == stage then s.1 else result_at ss stage

abbrev with_result :
    List (String × UpgradeStageResult)
    → String
    → UpgradeStageResult
    → List (String × UpgradeStageResult)
with_result [] stage r = (stage, r) ∷ []
with_result (s ∷ ss) stage r = if s.0 == stage then (stage, r) ∷ ss else s ∷ with_result ss stage r

abbrev completed : UpgradeStageStatus → String → Option String → Option String
completed UpgradeStageStatus.passed now t = some now
completed UpgradeStageStatus.stopped now t = some now
completed UpgradeStageStatus.waiting now t = t
completed UpgradeStageStatus.running now t = t

abbrev started : UpgradeStageStatus → String → Option String
started UpgradeStageStatus.running now = some now
started UpgradeStageStatus.passed now = none
started UpgradeStageStatus.stopped now = none
started UpgradeStageStatus.waiting now = none

-- `existing.started_at or ...`
abbrev or_started : Option String → Option String → Option String
or_started none o = o
or_started (some t) o = if t == "" then o else some t

unfoldable pub updated_result : String → StageChange → UpgradeStageResult → UpgradeStageResult
updated_result now u existing = record existing {
  status = u.stage_status;
  output_summary = or_keep u.output_summary existing.output_summary;
  started_at = or_started existing.started_at (started u.stage_status now);
  completed_at = completed u.stage_status now existing.completed_at;
}

abbrev pub updated_upgrade : String → StageChange → PlatformUpgradeRecord → PlatformUpgradeRecord
updated_upgrade now u r = record r {
  stages = with_result r.stages u.stage (updated_result now u (result_at r.stages u.stage));
  current_stage = u.stage;
  updated_at = now;
  status = or_else u.overall_status r.status;
  failure_reason = or_keep u.failure_reason r.failure_reason;
  failed_stage = or_keep u.failed_stage r.failed_stage;
  previous_task_definition_arn =
      or_keep u.previous_task_definition_arn r.previous_task_definition_arn;
  new_task_definition_arn = or_keep u.new_task_definition_arn r.new_task_definition_arn;
}

pub data UpgradeError : Type 0 where
  upgrade_not_found : String → UpgradeError
  runtime_error : String → UpgradeError

-- a table without a sort key
pub unit_iff : (a b : Unit {0}) → (true ≡ true) ↔ (a ≡ b)
unit_iff a b = (λ h. refl, λ h. refl)

instance abbrev pub unit_key : Key (Unit {0})
unit_key = record { same = λ a b. true; same_iff = unit_iff }

module _ ⦃t : Table String Unit PlatformUpgradeRecord⦄ where
  -- the upgrades, and the task definition that the platform's service is on
  pub record Platform : Type 0 where
    pub upgrades : t.Contents
    pub task_definition : String

  abbrev pub Handler : Type 0 → Type 0
  Handler A = Exec Platform UpgradeError A

  unfoldable pub put_upgrade : PlatformUpgradeRecord → Handler Unit
  put_upgrade r s = (ok tt, record s { upgrades = t.put_item s.upgrades r.upgrade_id tt r })

  unfoldable pub get_upgrade : String → Handler (Option PlatformUpgradeRecord)
  get_upgrade upgrade_id s = (ok (t.get_item s.upgrades upgrade_id tt), s)

  unfoldable pub update_stage : String → String → StageChange → Handler Unit
  update_stage now upgrade_id u = do
    found ← get_upgrade upgrade_id
    r ← require_some (UpgradeError.upgrade_not_found upgrade_id) found
    put_upgrade (updated_upgrade now u r)
