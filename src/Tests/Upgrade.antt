-- ===== src/Tests/Upgrade.antt =====
-- A witness on an upgrade whose new version does not answer its health check.
use agent_builder_factory_ap.Base.{String, ◌≡◌, refl, none, [], ◌∷◌, ok, string_key}
use agent_builder_factory_ap.Table.{Table}
use agent_builder_factory_ap.Table.Assoc.{assoc_table}
use agent_builder_factory_ap.Upgrade.Store.{
  UpgradeStatus, PlatformUpgradeRecord, unit_key, Platform,
}
use agent_builder_factory_ap.Upgrade.Stages.{Aws, Execution, upgrade_workflow}
use agent_builder_factory_ap.Upgrade.Forward.{Start}
use agent_builder_factory_ap.Upgrade.Atomic.{Ended, upgrade_is_atomic}

instance abbrev upgrades : Table String Unit PlatformUpgradeRecord
upgrades = assoc_table

abbrev upgrade : PlatformUpgradeRecord
upgrade = record {
  upgrade_id = "u1";
  from_version = "1.0.0";
  target_version = "1.1.0";
  target_image = "repo:1.1.0";
  previous_task_definition_arn = none;
  new_task_definition_arn = none;
  status = UpgradeStatus.pending;
  current_stage = "PULLING_IMAGE";
  stages = [];
  triggered_by = "ann";
  triggered_at = "now";
  failure_reason = none;
  failed_stage = none;
  updated_at = "now";
}

abbrev aws : Aws
aws = record {
  confirm = λ image. ok "found";
  register = λ previous image version. ok "task:8";
  update_service = λ arn. ok tt;
  describe = λ n. ok (record { task_definition = "task:8"; running_count = 2; desired_count = 2 });
  health = ok (record { status_code = 200; version = "1.0.0" });
  cause = λ e. "failed";
}

abbrev execution : Execution
execution = record {
  upgrade_id = "u1";
  target_version = "1.1.0";
  target_image = "repo:1.1.0";
  now = "later";
}

abbrev platform : Platform
platform = record { upgrades = ("u1", tt, upgrade) ∷ []; task_definition = "task:7" }

platform-Start : Start aws execution "task:7" platform
platform-Start = record {
  stored = upgrade;
  found = refl;
  filed = refl;
  upgrade = refl;
  service = refl;
}

upgrade_is_atomic_example :
    ((upgrade_workflow aws execution platform).0 ≡ ok tt)
    × Ended aws execution "task:7" (upgrade_workflow aws execution platform).1
upgrade_is_atomic_example =
    upgrade_is_atomic aws execution "task:7" refl refl platform platform-Start
