-- ===== src/Deployment/Status.antt =====
-- app/modules/deployment/status_store.py, over the registry's store, the deployments table, and what
-- was sent to the git provider, the audit trail and the metrics.
use agent_builder_factory_ap.Base.{
  String, Bool, true, false, Option, none, some, List, [], ◌∷◌, Result, ok, err, Exec, pure,
  require_some, ◌>>=◌, ◌>>◌, ◌==◌, if◌then◌else◌, string_key,
}
use agent_builder_factory_ap.Table.{Table}
use agent_builder_factory_ap.Registry.Models.{RegistryError}
use agent_builder_factory_ap.Registry.Db.{RegistryTables, Db, Method}
use agent_builder_factory_ap.Deployment.Models.{
  StageStatus, DeploymentStatus, StageResult, DeploymentRecord, new_stage,
}

pub data DeploymentError : Type 0 where
  deployment_not_found : String → String → DeploymentError
  agent_missing : String → DeploymentError
  not_applicable : String → DeploymentError
  not_pending_approval : String → DeploymentStatus → DeploymentError
  already_approved : String → String → DeploymentError
  registry_error : RegistryError → DeploymentError

-- a call of the git provider, an event or metric of a blocked deployment, or the event of an approval
pub data Message : Type 0 where
  merge_pull_request : String → String → Message
  close_pull_request : String → String → String → Message
  block_event : String → String → Message
  blocked_metric : String → Message
  deployment_approved : String → String → String → Message

pub record StageUpdate : Type 0 where
  pub stage : String
  pub stage_status : StageStatus
  pub output_summary : Option String
  pub blocking_issue : Option String
  pub overall_status : Option DeploymentStatus
  pub failure_reason : Option String
  pub failed_stage : Option String

-- `update_stage(stage=..., stage_status=...)`, the other arguments None
abbrev pub stage_update : String → StageStatus → StageUpdate
stage_update stage status = record {
  stage = stage;
  stage_status = status;
  output_summary = none;
  blocking_issue = none;
  overall_status = none;
  failure_reason = none;
  failed_stage = none;
}

abbrev pub or_else {ℓ} : {A : Type ℓ} → Option A → A → A
or_else none d = d
or_else (some a) d = a

-- `x if x is not None else y`
abbrev pub or_keep {ℓ} : {A : Type ℓ} → Option A → Option A → Option A
or_keep none o = o
or_keep (some a) o = some a

abbrev is_terminal : StageStatus → Bool
is_terminal StageStatus.pending = false
is_terminal StageStatus.running = false
is_terminal StageStatus.passed = true
is_terminal StageStatus.failed = true
is_terminal StageStatus.skipped = true
is_terminal StageStatus.blocked = true

abbrev is_running : StageStatus → Bool
is_running StageStatus.running = true
is_running StageStatus.pending = false
is_running StageStatus.passed = false
is_running StageStatus.failed = false
is_running StageStatus.skipped = false
is_running StageStatus.blocked = false

-- `started or (now if running else None)`
abbrev started_or : Option String → Option String → Option String
started_or none o = o
started_or (some t) o = if t == "" then o else some t

abbrev pub stage_of : List (String × StageResult) → String → Option StageResult
stage_of [] stage = none
stage_of (s ∷ ss) stage = if s.0 == stage then some s.1 else stage_of ss stage

-- `{**stages, stage: result}`
abbrev pub with_stage :
    List (String × StageResult) → String → StageResult → List (String × StageResult)
with_stage [] stage r = (stage, r) ∷ []
with_stage (s ∷ ss) stage r = if s.0 == stage then (stage, r) ∷ ss else s ∷ with_stage ss stage r

unfoldable pub updated_stage : StageResult → StageUpdate → String → StageResult
updated_stage existing u now = record existing {
  status = u.stage_status;
  output_summary = or_keep u.output_summary existing.output_summary;
  blocking_issue = or_keep u.blocking_issue existing.blocking_issue;
  started_at =
      started_or existing.started_at (if is_running u.stage_status then some now else none);
  completed_at = if is_terminal u.stage_status then some now else existing.completed_at;
}

unfoldable pub updated_record : DeploymentRecord → StageUpdate → String → DeploymentRecord
updated_record r u now = record r {
  stages =
      with_stage r.stages u.stage
        (updated_stage (or_else (stage_of r.stages u.stage) (new_stage u.stage)) u now);
  current_stage = u.stage;
  updated_at = now;
  status = or_else u.overall_status r.status;
  failure_reason = or_keep u.failure_reason r.failure_reason;
  failed_stage = or_keep u.failed_stage r.failed_stage;
}

pub record Deployments : Type 1 where
  pub registry : RegistryTables
  pub table : Table String String DeploymentRecord

module _ ⦃d : Deployments⦄ where
  instance abbrev pub registry_tables : RegistryTables
  registry_tables = d.registry

  pub record Platform : Type 0 where
    pub db : Db
    pub deployments : d.table.Contents
    pub sent : List Message

  abbrev pub Step : Type 0 → Type 0
  Step A = Exec Platform DeploymentError A

  abbrev as_deployment_error : {A : Type 0} → Result RegistryError A → Result DeploymentError A
  as_deployment_error (ok a) = ok a
  as_deployment_error (err e) = err (DeploymentError.registry_error e)

  -- a call of the registry's store
  unfoldable pub in_registry : {A : Type 0} → Method A → Step A
  in_registry m w = (as_deployment_error (m w.db).0, record w { db = (m w.db).1 })

  unfoldable pub send : Message → Step Unit
  send m w = (ok tt, record w { sent = m ∷ w.sent })

  unfoldable pub put_deployment : DeploymentRecord → Step Unit
  put_deployment r w = (
    ok tt,
    record w { deployments = d.table.put_item w.deployments r.agent_id r.deployment_id r },
  )

  abbrev pub create_deployment : DeploymentRecord → Step Unit
  create_deployment r = put_deployment r

  unfoldable pub get_deployment : String → String → Step (Option DeploymentRecord)
  get_deployment agent_id deployment_id w =
      (ok (d.table.get_item w.deployments agent_id deployment_id), w)

  unfoldable pub require_deployment : String → String → Step DeploymentRecord
  require_deployment agent_id deployment_id = do
    found ← get_deployment agent_id deployment_id
    require_some (DeploymentError.deployment_not_found agent_id deployment_id) found

  unfoldable pub update_stage : String → String → String → StageUpdate → Step DeploymentRecord
  update_stage now agent_id deployment_id u = do
    r ← require_deployment agent_id deployment_id
    let r' = updated_record r u now
    put_deployment r'
    pure r'

  unfoldable pub record_git_reference :
      String → String → String → String → Option String → Step DeploymentRecord
  record_git_reference now agent_id deployment_id branch pull_request_id = do
    r ← require_deployment agent_id deployment_id
    let r' = record r { branch = some branch; pull_request_id = pull_request_id; updated_at = now }
    put_deployment r'
    pure r'

  unfoldable pub record_approval : String → String → String → String → Step DeploymentRecord
  record_approval now agent_id deployment_id approved_by = do
    r ← require_deployment agent_id deployment_id
    let r' = record r { approved_by = some approved_by; approved_at = some now; updated_at = now }
    put_deployment r'
    pure r'
