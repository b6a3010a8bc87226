-- ===== src/Registry/History/Methods.antt =====
-- Every method of the store keeps the version history, but the hard delete.
use mathlib.Core.List.{flatten}
use agent_builder_factory_ap.Base.{
  ℕ, String, refl, Option, none, some, List, [], ◌∷◌, nat_key, string_key,
}
use agent_builder_factory_ap.Dependency.{Graph}
use agent_builder_factory_ap.Registry.Models.{
  AgentConfiguration, AgentRecord, AgentVersionRecord, AgentStatus, LifecycleStatus,
}
use agent_builder_factory_ap.Registry.Db.{RegistryTables}
use agent_builder_factory_ap.Registry.Versioner.{get, list_all}
use agent_builder_factory_ap.Registry.Agents.{
  Env, get_agent, require_agent, require_version, allocate_agent_id, graph_of,
  build_sub_agent_graph, check_sub_agents, validate_no_circular_dependency,
}
use agent_builder_factory_ap.Registry.Create.{
  CreateRequest, IdentityUpdates, create_agent, clone_of, clone_agent, create_new_version,
  update_agent, rollback_agent,
}
use agent_builder_factory_ap.Registry.Pipeline.{
  record_iac_artifact, record_evaluation_result, record_deployment_trigger, mark_deployment_blocked,
  mark_deployment_active, mark_deployment_failed, soft_delete_agent,
}
use agent_builder_factory_ap.Registry.Credentials.{
  provision_api_key, rotate_api_key, revoke_api_key, set_jwt_config,
}
use agent_builder_factory_ap.Registry.Project.{
  set_version_lifecycle, find_version_with_status, set_project_draft_after_edit, deprecate_previous,
  publish_agent, archive_agent, rollback_project_agent,
}
use agent_builder_factory_ap.Registry.History.{Grows, Grows-of_same, grows_rules}

module _ ⦃t : RegistryTables⦄ where
  Grows-get : (id : String) (n : ℕ) → Grows (get id n)
  unfolding get
  Grows-get id n = Grows-of_same (get id n) (λ db. refl)

  Grows-list_all : (id : String) → Grows (list_all id)
  unfolding list_all
  Grows-list_all id = Grows-of_same (list_all id) (λ db. refl)

  Grows-get_agent : (tenant id : String) → Grows (get_agent tenant id)
  unfolding get_agent
  Grows-get_agent tenant id = Grows-of_same (get_agent tenant id) (λ db. refl)

  Grows-allocate : (env : Env) → Grows (allocate_agent_id env)
  unfolding allocate_agent_id
  Grows-allocate env = Grows-of_same (allocate_agent_id env) (λ db. refl)

  Grows-require_agent : (tenant id : String) → Grows (require_agent tenant id)
  unfolding require_agent
  Grows-require_agent tenant id = search (grows_rules, Grows-get_agent)

  Grows-require_version : (id : String) (n : ℕ) → Grows (require_version id n)
  unfolding require_version
  Grows-require_version id n = search (grows_rules, Grows-get)

  Grows-graph_of : (e : Option String) (rs : List AgentRecord) (g : Graph) → Grows (graph_of e rs g)
  unfolding graph_of
  Grows-graph_of e [] g = search grows_rules
  Grows-graph_of e (r ∷ rs) g =
      let rest : (h : Graph) → Grows (graph_of e rs h) = λ h. Grows-graph_of e rs h in
      search (grows_rules, Grows-get, rest)

  Grows-build : (tenant : String) (e : Option String) → Grows (build_sub_agent_graph tenant e)
  unfolding build_sub_agent_graph
  Grows-build tenant e = record {
    at = λ db. (Grows-graph_of e (flatten (t.agents.query db.agents tenant)) []).at db;
  }

  Grows-check :
      (tenant : String) (id : Option String) (o : Option (List String))
      → Grows (check_sub_agents tenant id o)
  Grows-check tenant id none = search grows_rules
  Grows-check tenant id (some []) = search grows_rules
  Grows-check tenant id (some (a ∷ rest)) = search (grows_rules, Grows-build)

  Grows-validate :
      (tenant : String) (id : Option String) (c : AgentConfiguration)
      → Grows (validate_no_circular_dependency tenant id c)
  unfolding validate_no_circular_dependency
  Grows-validate tenant id c = Grows-check tenant id c.sub_agents

  ruleset reads = (
    grows_rules, Grows-get, Grows-list_all, Grows-get_agent, Grows-allocate, Grows-require_agent,
    Grows-require_version, Grows-validate,
  )

  pub Grows-record_iac_artifact :
      (tenant id : String) (n : ℕ) (iac key : String) (ms : Option (List String))
      (report : Option String)
      → Grows (record_iac_artifact tenant id n iac key ms report)
  unfolding record_iac_artifact
  Grows-record_iac_artifact tenant id n iac key ms report = search reads depth 8

  pub Grows-record_evaluation_result :
      (tenant id : String) (n : ℕ) (result : String)
      → Grows (record_evaluation_result tenant id n result)
  unfolding record_evaluation_result
  Grows-record_evaluation_result tenant id n result = search reads depth 8

  Grows-set_version_lifecycle :
      (id : String) (n : ℕ) (s : LifecycleStatus) → Grows (set_version_lifecycle id n s)
  unfolding set_version_lifecycle
  Grows-set_version_lifecycle id n s = search reads

  Grows-find : (id : String) (s : LifecycleStatus) → Grows (find_version_with_status id s)
  unfolding find_version_with_status
  Grows-find id s = search reads

  Grows-deprecate_previous :
      (id : String) (n : ℕ) (o : Option AgentVersionRecord) → Grows (deprecate_previous id n o)
  Grows-deprecate_previous id n none = search reads
  Grows-deprecate_previous id n (some v) = search (reads, Grows-set_version_lifecycle)

  ruleset lifecycle = (reads, Grows-set_version_lifecycle, Grows-find, Grows-deprecate_previous)

  module _ (env : Env) where
    pub Grows-create_agent : (q : CreateRequest) → Grows (create_agent env q)
    unfolding create_agent
    Grows-create_agent q = search reads depth 12

    Grows-clone_of :
        (tenant id name by : String) (r : AgentRecord) (o : Option AgentVersionRecord)
        → Grows (clone_of env tenant id name by r o)
    Grows-clone_of tenant id name by r none = search reads
    Grows-clone_of tenant id name by r (some v) = Grows-create_agent _

    pub Grows-clone_agent : (tenant id name by : String) → Grows (clone_agent env tenant id name by)
    unfolding clone_agent
    Grows-clone_agent tenant id name by = search (reads, Grows-clone_of) depth 8

    Grows-create_new_version :
        (tenant id : String) (r : AgentRecord) (c : AgentConfiguration) (by why : String)
        (from : Option ℕ) (u : IdentityUpdates) (s : Option AgentStatus)
        → Grows (create_new_version env tenant id r c by why from u s)
    unfolding create_new_version
    Grows-create_new_version tenant id r c by why from u s = search reads depth 12

    pub Grows-update_agent :
        (tenant id : String) (c : AgentConfiguration) (by why : String) (u : IdentityUpdates)
        → Grows (update_agent env tenant id c by why u)
    unfolding update_agent
    Grows-update_agent tenant id c by why u = search (reads, Grows-create_new_version) depth 8

    pub Grows-rollback_agent :
        (tenant id : String) (n : ℕ) (why by : String)
        → Grows (rollback_agent env tenant id n why by)
    unfolding rollback_agent
    Grows-rollback_agent tenant id n why by = search (reads, Grows-create_new_version) depth 10

    pub Grows-record_deployment_trigger :
        (tenant id : String) (n : ℕ) (d by : String)
        → Grows (record_deployment_trigger env tenant id n d by)
    unfolding record_deployment_trigger
    Grows-record_deployment_trigger tenant id n d by = search reads depth 12

    pub Grows-mark_deployment_blocked :
        (tenant id by : String) → Grows (mark_deployment_blocked env tenant id by)
    unfolding mark_deployment_blocked
    Grows-mark_deployment_blocked tenant id by = search reads depth 8

    pub Grows-mark_deployment_active :
        (tenant id : String) (n : ℕ) (by : String)
        → Grows (mark_deployment_active env tenant id n by)
    unfolding mark_deployment_active
    Grows-mark_deployment_active tenant id n by = search reads depth 8

    pub Grows-mark_deployment_failed :
        (tenant id by : String) → Grows (mark_deployment_failed env tenant id by)
    unfolding mark_deployment_failed
    Grows-mark_deployment_failed tenant id by = search reads depth 8

    pub Grows-soft_delete_agent :
        (tenant id by : String) → Grows (soft_delete_agent env tenant id by)
    unfolding soft_delete_agent
    Grows-soft_delete_agent tenant id by = search reads depth 8

    pub Grows-provision_api_key :
        (tenant id arn by : String) → Grows (provision_api_key env tenant id arn by)
    unfolding provision_api_key
    Grows-provision_api_key tenant id arn by = search reads depth 8

    pub Grows-rotate_api_key :
        (tenant id arn : String) (n : ℕ) (by : String)
        → Grows (rotate_api_key env tenant id arn n by)
    unfolding rotate_api_key
    Grows-rotate_api_key tenant id arn n by = search reads depth 8

    pub Grows-revoke_api_key : (tenant id by : String) → Grows (revoke_api_key env tenant id by)
    unfolding revoke_api_key
    Grows-revoke_api_key tenant id by = search reads depth 8

    pub Grows-set_jwt_config :
        (tenant id : String) (i a j : Option String) (c by : String)
        → Grows (set_jwt_config env tenant id i a j c by)
    unfolding set_jwt_config
    Grows-set_jwt_config tenant id i a j c by = search reads depth 8

    pub Grows-set_project_draft_after_edit :
        (tenant id by : String) → Grows (set_project_draft_after_edit env tenant id by)
    unfolding set_project_draft_after_edit
    Grows-set_project_draft_after_edit tenant id by = search lifecycle depth 8

    pub Grows-publish_agent : (tenant id by : String) → Grows (publish_agent env tenant id by)
    unfolding publish_agent
    Grows-publish_agent tenant id by = search lifecycle depth 12

    pub Grows-archive_agent : (tenant id by : String) → Grows (archive_agent env tenant id by)
    unfolding archive_agent
    Grows-archive_agent tenant id by = search lifecycle depth 8

    pub Grows-rollback_project_agent :
        (tenant id : String) (n : ℕ) (by : String)
        → Grows (rollback_project_agent env tenant id n by)
    unfolding rollback_project_agent
    Grows-rollback_project_agent tenant id n by = search lifecycle depth 14
