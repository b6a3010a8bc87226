-- ===== src/Registry/Project.antt =====
-- app/modules/registry/store.py: the project lifecycle of an agent's versions (draft, published,
-- deprecated, archived), the rollback in place, and the hard delete.
pub mod Laws
use agent_builder_factory_ap.Base.{
  ℕ, String, Bool, true, false, not, Option, none, some, List, [], ◌∷◌, Result, ok, err, Exec, pure,
  lift, guard, ◌>>=◌, ◌>>◌, ◌==◌, if◌then◌else◌, nat_key, string_key,
}
use agent_builder_factory_ap.Registry.Models.{
  LifecycleStatus, draft, published, deprecated, archived, AgentRecord, AgentVersionRecord,
  RegistryError, invalid_rollback,
}
use agent_builder_factory_ap.Registry.Db.{RegistryTables, Db, Method}
use agent_builder_factory_ap.Registry.Versioner.{
  VersionField, project_lifecycle_status, record_derived_fields, list_all, delete,
}
use agent_builder_factory_ap.Registry.Agents.{Env, put_agent, require_agent, require_version}

abbrev pub lifecycle_beq : LifecycleStatus → LifecycleStatus → Bool
lifecycle_beq draft draft = true
lifecycle_beq published published = true
lifecycle_beq deprecated deprecated = true
lifecycle_beq archived archived = true
lifecycle_beq _ _ = false

abbrev pub has_status : LifecycleStatus → Option LifecycleStatus → Bool
has_status s none = false
has_status s (some u) = lifecycle_beq u s

-- the loop of `_find_version_with_status`
unfoldable pub first_with_status :
    LifecycleStatus → List AgentVersionRecord → Option AgentVersionRecord
first_with_status s [] = none
first_with_status s (v ∷ vs) =
    if has_status s v.derived.project_lifecycle_status then some v else first_with_status s vs

module _ ⦃t : RegistryTables⦄ where
  unfoldable pub set_version_lifecycle : String → ℕ → LifecycleStatus → Method Unit
  set_version_lifecycle agent_id version s =
      record_derived_fields agent_id version (project_lifecycle_status s ∷ [])

  unfoldable pub find_version_with_status :
      String → LifecycleStatus → Method (Option AgentVersionRecord)
  find_version_with_status agent_id s = do
    versions ← list_all agent_id
    pure (first_with_status s versions)

  -- deprecate what was published, unless it is the version that is published now
  abbrev pub deprecate_previous : String → ℕ → Option AgentVersionRecord → Method Unit
  deprecate_previous agent_id current none = pure tt
  deprecate_previous agent_id current (some v) =
      if v.snapshot.version == current
      then pure tt
      else set_version_lifecycle agent_id v.snapshot.version deprecated

  unfoldable pub delete_versions : String → List AgentVersionRecord → Method Unit
  delete_versions agent_id [] = pure tt
  delete_versions agent_id (v ∷ vs) = do
    delete agent_id v.snapshot.version
    delete_versions agent_id vs

  unfoldable pub hard_delete_agent : String → String → Method Unit
  hard_delete_agent tenant_id agent_id = do
    r ← require_agent tenant_id agent_id
    versions ← list_all agent_id
    delete_versions agent_id versions
    (λ db. (ok tt, record db { agents = t.agents.delete_item db.agents tenant_id r.agent_id }))

module _ ⦃t : RegistryTables⦄ (env : Env) where
  unfoldable pub set_project_draft_after_edit : String → String → String → Method AgentRecord
  set_project_draft_after_edit tenant_id agent_id actor = do
    r ← require_agent tenant_id agent_id
    set_version_lifecycle agent_id r.current_version draft
    let r' = record r {
      project_lifecycle_status = some draft;
      updated_by = actor;
      updated_at = env.now;
    }
    put_agent r'
    pure r'

  unfoldable pub publish_agent : String → String → String → Method AgentRecord
  publish_agent tenant_id agent_id actor = do
    r ← require_agent tenant_id agent_id
    previous ← find_version_with_status agent_id published
    deprecate_previous agent_id r.current_version previous
    set_version_lifecycle agent_id r.current_version published
    let r' = record r {
      project_lifecycle_status = some published;
      updated_by = actor;
      updated_at = env.now;
    }
    put_agent r'
    pure r'

  unfoldable pub archive_agent : String → String → String → Method AgentRecord
  archive_agent tenant_id agent_id actor = do
    r ← require_agent tenant_id agent_id
    set_version_lifecycle agent_id r.current_version archived
    let r' = record r {
      project_lifecycle_status = some archived;
      updated_by = actor;
      updated_at = env.now;
    }
    put_agent r'
    pure r'

  unfoldable pub rollback_project_agent : String → String → ℕ → String → Method AgentRecord
  rollback_project_agent tenant_id agent_id target actor = do
    r ← require_agent tenant_id agent_id
    require_version agent_id target
    guard (not (target == r.current_version)) (invalid_rollback agent_id target)
    set_version_lifecycle agent_id r.current_version deprecated
    set_version_lifecycle agent_id target published
    let r' = record r {
      current_version = target;
      project_lifecycle_status = some published;
      updated_by = actor;
      updated_at = env.now;
    }
    put_agent r'
    pure r'
