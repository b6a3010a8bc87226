-- ===== src/Registry/Pipeline.antt =====
-- app/modules/registry/store.py: what the deployment pipeline records on an agent and its versions.
use agent_builder_factory_ap.Base.{
  ℕ, String, Option, none, some, List, [], ◌∷◌, ◌++◌, pure, ◌>>=◌, ◌>>◌, nat_key, string_key,
}
use agent_builder_factory_ap.Registry.Models.{AgentStatus, AgentRecord}
use agent_builder_factory_ap.Registry.Db.{RegistryTables, Method}
use agent_builder_factory_ap.Registry.Versioner.{
  VersionField, iac_version, iac_s3_key, iac_modules, iac_validation_report, deployment_id,
  evaluation_result, record_derived_fields,
}
use agent_builder_factory_ap.Registry.Agents.{Env, put_agent, require_agent, require_version}

abbrev pub if_given {ℓ} : {A : Type ℓ} → (A → VersionField) → Option A → List VersionField
if_given f none = []
if_given f (some a) = f a ∷ []

-- the previous version stays live; without one, the agent takes the status of the failure
unfoldable pub fallback_status : Option ℕ → AgentStatus → AgentStatus
fallback_status none s = s
fallback_status (some _) s = AgentStatus.active

module _ ⦃t : RegistryTables⦄ where
  unfoldable pub record_iac_artifact :
      String → String → ℕ → String → String → Option (List String) → Option String → Method Unit
  record_iac_artifact tenant_id agent_id version iac s3_key modules report = do
    require_agent tenant_id agent_id
    require_version agent_id version
    record_derived_fields agent_id version (
        iac_version iac
        ∷ iac_s3_key s3_key
        ∷ (if_given iac_modules modules ++ if_given iac_validation_report report))

  unfoldable pub record_evaluation_result : String → String → ℕ → String → Method Unit
  record_evaluation_result tenant_id agent_id version result = do
    require_agent tenant_id agent_id
    require_version agent_id version
    record_derived_fields agent_id version (evaluation_result result ∷ [])

module _ ⦃t : RegistryTables⦄ (env : Env) where
  unfoldable pub record_deployment_trigger :
      String → String → ℕ → String → String → Method AgentRecord
  record_deployment_trigger tenant_id agent_id version deployment updated_by = do
    r ← require_agent tenant_id agent_id
    require_version agent_id version
    record_derived_fields agent_id version (deployment_id deployment ∷ [])
    let r' = record r {
      status = AgentStatus.deploying;
      updated_by = updated_by;
      updated_at = env.now;
    }
    put_agent r'
    pure r'

  unfoldable pub mark_deployment_blocked : String → String → String → Method AgentRecord
  mark_deployment_blocked tenant_id agent_id updated_by = do
    r ← require_agent tenant_id agent_id
    let r' = record r {
      status = fallback_status r.live_version AgentStatus.blocked;
      updated_by = updated_by;
      updated_at = env.now;
    }
    put_agent r'
    pure r'

  unfoldable pub mark_deployment_active : String → String → ℕ → String → Method AgentRecord
  mark_deployment_active tenant_id agent_id live_version updated_by = do
    r ← require_agent tenant_id agent_id
    let r' = record r {
      status = AgentStatus.active;
      live_version = some live_version;
      updated_by = updated_by;
      updated_at = env.now;
    }
    put_agent r'
    pure r'

  unfoldable pub mark_deployment_failed : String → String → String → Method AgentRecord
  mark_deployment_failed tenant_id agent_id updated_by = do
    r ← require_agent tenant_id agent_id
    let r' = record r {
      status = fallback_status r.live_version AgentStatus.failed;
      updated_by = updated_by;
      updated_at = env.now;
    }
    put_agent r'
    pure r'

  unfoldable pub soft_delete_agent : String → String → String → Method AgentRecord
  soft_delete_agent tenant_id agent_id updated_by = do
    r ← require_agent tenant_id agent_id
    let r' = record r {
      status = AgentStatus.deprecated;
      updated_by = updated_by;
      updated_at = env.now;
    }
    put_agent r'
    pure r'
