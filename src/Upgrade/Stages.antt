-- ===== src/Upgrade/Stages.antt =====
-- The handlers platform_pull_image.py, platform_register_task_definition.py, platform_update_service.py,
-- platform_health_check.py, platform_mark_upgraded.py and platform_mark_upgrade_failed.py of
-- lambda_handlers, in the order of step_functions/platform_upgrade_workflow.json. ECR, ECS and the health
-- endpoint are the fields of Aws.
use agent_builder_factory_ap.Base.{
  ℕ, zero, suc, String, Bool, ◌&&◌, not, Option, none, some, Result, ok, err, pure, raise, lift,
  ◌>>=◌, ◌>>◌, ◌==◌, if◌then◌else◌, string_key, nat_key,
}
use agent_builder_factory_ap.Table.{Table}
use agent_builder_factory_ap.Upgrade.Store.{
  UpgradeStatus, UpgradeStageStatus, PlatformUpgradeRecord, StageChange, stage_change, UpgradeError,
  unit_key, Handler, get_upgrade, update_stage,
}

-- what DescribeServices says of the service
pub record Service : Type 0 where
  pub task_definition : String
  pub running_count : ℕ
  pub desired_count : ℕ

pub record Health : Type 0 where
  pub status_code : ℕ
  pub version : String

-- The answers of AWS to one execution: each call may raise. `confirm` stands for the checks on the image;
-- `register` is given the revision that the service is on, and the image and version of the new one; the
-- polls are numbered from the last one. `cause` is the text of an exception.
pub record Aws : Type 0 where
  pub confirm : String → Result UpgradeError String
  pub register : String → String → String → Result UpgradeError String
  pub update_service : String → Result UpgradeError Unit
  pub describe : ℕ → Result UpgradeError Service
  pub health : Result UpgradeError Health
  pub cause : UpgradeError → String

-- the input of the execution, and the clock
pub record Execution : Type 0 where
  pub upgrade_id : String
  pub target_version : String
  pub target_image : String
  pub now : String

abbrev pub poll_attempts : ℕ
poll_attempts = 20

abbrev pub is_stable : String → Service → Bool
is_stable arn s = s.task_definition == arn && s.running_count == s.desired_count

-- the loop over the polls, of which so many are left
unfoldable pub poll : Aws → String → ℕ → Result UpgradeError String
poll aws arn zero = err (UpgradeError.runtime_error "Service did not stabilize")
poll aws arn (suc n) =
    let rest = poll aws arn n in
    elim (aws.describe n) [
      | err e ↦ err e
      | ok s ↦ if is_stable arn s then ok "Service stable" else rest
    ]

abbrev healthy : String → Health → Result UpgradeError String
healthy version h =
    if not (h.status_code == 200)
    then err (UpgradeError.runtime_error "status")
    else if not (h.version == version)
    then err (UpgradeError.runtime_error "Version mismatch after upgrade")
    else ok "confirmed"

abbrev pub check_health : Aws → String → Result UpgradeError String
check_health aws version = elim aws.health [ err e ↦ err e | ok h ↦ healthy version h ]

module _ ⦃t : Table String Unit PlatformUpgradeRecord⦄ where
  abbrev pub pointed : String → Result UpgradeError Unit → Handler Unit
  pointed arn (err e) s = (err e, s)
  pointed arn (ok u) s = (ok tt, record s { task_definition = arn })

  -- UpdateService
  unfoldable pub point_service : Aws → String → Handler Unit
  point_service aws arn s = pointed arn (aws.update_service arn) s

  abbrev pub failure : Aws → String → UpgradeError → StageChange
  failure aws stage e =
      record (stage_change stage UpgradeStageStatus.stopped (some (aws.cause e))
        UpgradeStatus.failed) { failure_reason = some (aws.cause e); failed_stage = some stage }

  -- what every handler does with the outcome of its work: the record, and the exception again
  abbrev pub settle :
      {A : Type 0}
      → Aws
      → Execution
      → String
      → (A → StageChange)
      → Result UpgradeError A
      → Handler A
  settle aws x stage success (err e) = do
    update_stage x.now x.upgrade_id (failure aws stage e)
    raise e
  settle aws x stage success (ok a) = do update_stage x.now x.upgrade_id (success a); pure a

  unfoldable pub attempt : {A : Type 0} → Handler A → Handler (Result UpgradeError A)
  attempt m s = (ok (m s).0, (m s).1)

  abbrev pub staged :
      {A : Type 0} → Aws → Execution → String → (A → StageChange) → Handler A → Handler A
  staged aws x stage success m = do outcome ← attempt m; settle aws x stage success outcome

  unfoldable pub pull_image : Aws → Execution → Handler String
  pull_image aws x =
      staged aws x "PULLING_IMAGE"
        (λ summary.
          stage_change "PULLING_IMAGE" UpgradeStageStatus.passed (some summary)
            UpgradeStatus.pulling_image)
        (lift (aws.confirm x.target_image))

  abbrev pub registered : String → Result UpgradeError String → Handler (String × String)
  registered previous (err e) s = (err e, s)
  registered previous (ok arn) s = (ok (previous, arn), s)

  -- the two revisions, the one before first
  unfoldable pub register_new_revision : Aws → Execution → Handler (String × String)
  register_new_revision aws x s =
      registered s.task_definition (aws.register s.task_definition x.target_image x.target_version)
        s

  unfoldable pub register_task_definition : Aws → Execution → Handler (String × String)
  register_task_definition aws x =
      staged aws x "REGISTERING_TASK_DEFINITION"
        (λ arns.
          record (stage_change "REGISTERING_TASK_DEFINITION" UpgradeStageStatus.passed (some arns.1)
            UpgradeStatus.registering_task_definition) {
              previous_task_definition_arn = some arns.0;
              new_task_definition_arn = some arns.1;
            })
        (register_new_revision aws x)

  unfoldable pub update_service : Aws → Execution → String → Handler String
  update_service aws x arn =
      staged aws x "UPDATING_SERVICE"
        (λ summary.
          stage_change "UPDATING_SERVICE" UpgradeStageStatus.passed (some summary)
            UpgradeStatus.updating_service)
        (do point_service aws arn; lift (poll aws arn poll_attempts))

  unfoldable pub health_check : Aws → Execution → Handler String
  health_check aws x =
      staged aws x "HEALTH_CHECK"
        (λ summary.
          stage_change "HEALTH_CHECK" UpgradeStageStatus.passed (some summary)
            UpgradeStatus.health_check)
        (lift (check_health aws x.target_version))

  unfoldable pub mark_upgraded : Execution → Handler Unit
  mark_upgraded x =
      update_stage x.now x.upgrade_id
        (stage_change "HEALTH_CHECK" UpgradeStageStatus.passed none UpgradeStatus.active)

  -- the state machine passes no failedStage, so the handler's default is what it takes
  abbrev pub marked : Aws → UpgradeError → UpgradeStatus → StageChange
  marked aws e overall =
      record (stage_change "UNKNOWN" UpgradeStageStatus.stopped (some (aws.cause e)) overall) {
        failure_reason = some (aws.cause e);
        failed_stage = some "UNKNOWN";
      }

  abbrev pub arn_of : Option PlatformUpgradeRecord → Option String
  arn_of none = none
  arn_of (some r) = r.previous_task_definition_arn

  abbrev pub roll_back : Aws → Execution → UpgradeError → Option String → Handler Unit
  roll_back aws x e none = update_stage x.now x.upgrade_id (marked aws e UpgradeStatus.failed)
  roll_back aws x e (some arn) =
      if arn == ""
      then update_stage x.now x.upgrade_id (marked aws e UpgradeStatus.failed)
      else (point_service aws arn
          >> update_stage x.now x.upgrade_id (marked aws e UpgradeStatus.rolled_back))

  unfoldable pub mark_upgrade_failed : Aws → Execution → UpgradeError → Handler Unit
  mark_upgrade_failed aws x e = do
    found ← get_upgrade x.upgrade_id
    roll_back aws x e (arn_of found)

  -- the four stages, each with a Catch
  unfoldable pub advance : Aws → Execution → Handler String
  advance aws x = do
    pull_image aws x
    arns ← register_task_definition aws x
    update_service aws x arns.1
    health_check aws x

  abbrev pub conclude : Aws → Execution → Result UpgradeError String → Handler Unit
  conclude aws x (ok summary) = mark_upgraded x
  conclude aws x (err e) = mark_upgrade_failed aws x e

  unfoldable pub upgrade_workflow : Aws → Execution → Handler Unit
  upgrade_workflow aws x = do outcome ← attempt (advance aws x); conclude aws x outcome
