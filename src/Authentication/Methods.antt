-- ===== src/Authentication/Methods.antt =====
-- Every method of the store that leaves the ids alone keeps a revoked key revoked.
use agent_builder_factory_ap.Base.{ℕ, String, Option, none, some, List, nat_key, string_key}
use agent_builder_factory_ap.Registry.Models.{
  AgentRecord, AgentConfiguration, AgentStatus, AgentVersionRecord, LifecycleStatus,
}
use agent_builder_factory_ap.Registry.Db.{RegistryTables}
use agent_builder_factory_ap.Registry.Agents.{Env, require_version, validate_no_circular_dependency}
use agent_builder_factory_ap.Registry.Create.{
  IdentityUpdates, next_record, create_new_version, update_agent, rollback_agent,
}
use agent_builder_factory_ap.Registry.Pipeline.{
  record_iac_artifact, record_evaluation_result, record_deployment_trigger, mark_deployment_blocked,
  mark_deployment_active, mark_deployment_failed, soft_delete_agent,
}
use agent_builder_factory_ap.Registry.Credentials.{
  provision_api_key, rotate_api_key, revoke_api_key, set_jwt_config,
}
use agent_builder_factory_ap.Registry.Project.{
  set_version_lifecycle, find_version_with_status, deprecate_previous, set_project_draft_after_edit,
  publish_agent, archive_agent, rollback_project_agent,
}
use agent_builder_factory_ap.Registry.Reading.{Reads-require_version, Reads-validate, Reads-find}
use agent_builder_factory_ap.Authentication.Keeps.{Keeps, Sound, Keeps-of_reading, keeps_rules}

module _ ⦃t : RegistryTables⦄ (tenant_id agent_id : String) (env : Env) where
  Keeps-require_version : (id : String) (n : ℕ) → Keeps tenant_id agent_id (require_version id n)
  Keeps-require_version id n =
      Keeps-of_reading tenant_id agent_id (require_version id n) (Reads-require_version id n)

  pub Keeps-provision :
      (a b arn by : String) → Keeps tenant_id agent_id (provision_api_key env a b arn by)
  unfolding provision_api_key
  Keeps-provision a b arn by = search keeps_rules depth 8

  pub Keeps-rotate :
      (a b arn : String) (n : ℕ) (by : String)
      → Keeps tenant_id agent_id (rotate_api_key env a b arn n by)
  unfolding rotate_api_key
  Keeps-rotate a b arn n by = search keeps_rules depth 10

  pub Keeps-set_jwt :
      (a b : String) (i u j : Option String) (c by : String)
      → Keeps tenant_id agent_id (set_jwt_config env a b i u j c by)
  unfolding set_jwt_config
  Keeps-set_jwt a b i u j c by = search keeps_rules depth 8

  pub Keeps-revoke : (a b by : String) → Keeps tenant_id agent_id (revoke_api_key env a b by)
  unfolding revoke_api_key
  Keeps-revoke a b by = search keeps_rules depth 8

  pub Keeps-mark_blocked :
      (a b by : String) → Keeps tenant_id agent_id (mark_deployment_blocked env a b by)
  unfolding mark_deployment_blocked
  Keeps-mark_blocked a b by = search keeps_rules depth 8

  pub Keeps-mark_failed :
      (a b by : String) → Keeps tenant_id agent_id (mark_deployment_failed env a b by)
  unfolding mark_deployment_failed
  Keeps-mark_failed a b by = search keeps_rules depth 8

  pub Keeps-mark_active :
      (a b : String) (n : ℕ) (by : String)
      → Keeps tenant_id agent_id (mark_deployment_active env a b n by)
  unfolding mark_deployment_active
  Keeps-mark_active a b n by = search keeps_rules depth 8

  pub Keeps-soft_delete :
      (a b by : String) → Keeps tenant_id agent_id (soft_delete_agent env a b by)
  unfolding soft_delete_agent
  Keeps-soft_delete a b by = search keeps_rules depth 8

  pub Keeps-trigger :
      (a b : String) (n : ℕ) (d by : String)
      → Keeps tenant_id agent_id (record_deployment_trigger env a b n d by)
  unfolding record_deployment_trigger
  Keeps-trigger a b n d by = search (keeps_rules, Keeps-require_version) depth 12

  pub Keeps-iac_artifact :
      (a b : String) (n : ℕ) (iac key : String) (ms : Option (List String)) (report : Option String)
      → Keeps tenant_id agent_id (record_iac_artifact a b n iac key ms report)
  unfolding record_iac_artifact
  Keeps-iac_artifact a b n iac key ms report = search (keeps_rules, Keeps-require_version) depth 8

  pub Keeps-evaluation :
      (a b : String) (n : ℕ) (result : String)
      → Keeps tenant_id agent_id (record_evaluation_result a b n result)
  unfolding record_evaluation_result
  Keeps-evaluation a b n result = search (keeps_rules, Keeps-require_version) depth 8

  next_record-Sound :
      (r : AgentRecord) (u : IdentityUpdates) (s : Option AgentStatus) (by : String)
      → Sound tenant_id agent_id r
      → Sound tenant_id agent_id (next_record env r u s by)
  unfolding next_record
  next_record-Sound r u s by h = h

  Keeps-validate :
      (a : String) (id : Option String) (c : AgentConfiguration)
      → Keeps tenant_id agent_id (validate_no_circular_dependency a id c)
  Keeps-validate a id c =
      Keeps-of_reading tenant_id agent_id (validate_no_circular_dependency a id c)
        (Reads-validate a id c)

  Keeps-create_new_version :
      (a b : String) (r : AgentRecord) (c : AgentConfiguration) (by why : String) (from : Option ℕ)
      (u : IdentityUpdates) (s : Option AgentStatus)
      → Sound tenant_id agent_id r
      → Keeps tenant_id agent_id (create_new_version env a b r c by why from u s)
  unfolding create_new_version
  Keeps-create_new_version a b r c by why from u s h =
      let sound = next_record-Sound r u s by h in
      search (keeps_rules, Keeps-validate, sound) depth 12

  pub Keeps-update :
      (a b : String) (c : AgentConfiguration) (by why : String) (u : IdentityUpdates)
      → Keeps tenant_id agent_id (update_agent env a b c by why u)
  unfolding update_agent
  Keeps-update a b c by why u = search (keeps_rules, Keeps-create_new_version) depth 8

  pub Keeps-rollback :
      (a b : String) (n : ℕ) (why by : String)
      → Keeps tenant_id agent_id (rollback_agent env a b n why by)
  unfolding rollback_agent
  Keeps-rollback a b n why by =
      search (keeps_rules, Keeps-require_version, Keeps-create_new_version) depth 10

  Keeps-lifecycle :
      (id : String) (n : ℕ) (s : LifecycleStatus)
      → Keeps tenant_id agent_id (set_version_lifecycle id n s)
  unfolding set_version_lifecycle
  Keeps-lifecycle id n s = search keeps_rules

  Keeps-find :
      (id : String) (s : LifecycleStatus) → Keeps tenant_id agent_id (find_version_with_status id s)
  Keeps-find id s =
      Keeps-of_reading tenant_id agent_id (find_version_with_status id s) (Reads-find id s)

  Keeps-deprecate :
      (id : String) (n : ℕ) (o : Option AgentVersionRecord)
      → Keeps tenant_id agent_id (deprecate_previous id n o)
  Keeps-deprecate id n none = search keeps_rules
  Keeps-deprecate id n (some v) = search (keeps_rules, Keeps-lifecycle)

  pub Keeps-draft :
      (a b by : String) → Keeps tenant_id agent_id (set_project_draft_after_edit env a b by)
  unfolding set_project_draft_after_edit
  Keeps-draft a b by = search (keeps_rules, Keeps-lifecycle) depth 8

  pub Keeps-publish : (a b by : String) → Keeps tenant_id agent_id (publish_agent env a b by)
  unfolding publish_agent
  Keeps-publish a b by = search (keeps_rules, Keeps-lifecycle, Keeps-find, Keeps-deprecate) depth 12

  pub Keeps-archive : (a b by : String) → Keeps tenant_id agent_id (archive_agent env a b by)
  unfolding archive_agent
  Keeps-archive a b by = search (keeps_rules, Keeps-lifecycle) depth 8

  pub Keeps-rollback_project :
      (a b : String) (n : ℕ) (by : String)
      → Keeps tenant_id agent_id (rollback_project_agent env a b n by)
  unfolding rollback_project_agent
  Keeps-rollback_project a b n by =
      search (keeps_rules, Keeps-require_version, Keeps-lifecycle) depth 12
