-- ===== src/Registry/Reading.antt =====
-- The methods of the store that only read.
use mathlib.Core.List.{flatten}
use agent_builder_factory_ap.Base.{
  ℕ, String, refl, Option, none, some, List, [], ◌∷◌, Reads, reads_rules, nat_key, string_key,
}
use agent_builder_factory_ap.Dependency.{Graph}
use agent_builder_factory_ap.Registry.Models.{AgentConfiguration, AgentRecord, LifecycleStatus}
use agent_builder_factory_ap.Registry.Db.{RegistryTables}
use agent_builder_factory_ap.Registry.Versioner.{get, list_all}
use agent_builder_factory_ap.Registry.Agents.{
  Env, get_agent, require_agent, require_version, allocate_agent_id, graph_of,
  build_sub_agent_graph, check_sub_agents, validate_no_circular_dependency,
}
use agent_builder_factory_ap.Registry.Project.{find_version_with_status}

module _ ⦃t : RegistryTables⦄ where
  pub Reads-get : (id : String) (n : ℕ) → Reads (get id n)
  unfolding get
  Reads-get id n = record { at = λ db. refl }

  pub Reads-list_all : (id : String) → Reads (list_all id)
  unfolding list_all
  Reads-list_all id = record { at = λ db. refl }

  pub Reads-get_agent : (tenant id : String) → Reads (get_agent tenant id)
  unfolding get_agent
  Reads-get_agent tenant id = record { at = λ db. refl }

  pub Reads-allocate : (env : Env) → Reads (allocate_agent_id env)
  unfolding allocate_agent_id
  Reads-allocate env = record { at = λ db. refl }

  pub Reads-require_agent : (tenant id : String) → Reads (require_agent tenant id)
  unfolding require_agent
  Reads-require_agent tenant id = search (reads_rules, Reads-get_agent)

  pub Reads-require_version : (id : String) (n : ℕ) → Reads (require_version id n)
  unfolding require_version
  Reads-require_version id n = search (reads_rules, Reads-get)

  Reads-graph_of : (e : Option String) (rs : List AgentRecord) (g : Graph) → Reads (graph_of e rs g)
  unfolding graph_of
  Reads-graph_of e [] g = search reads_rules
  Reads-graph_of e (r ∷ rs) g =
      let rest : (h : Graph) → Reads (graph_of e rs h) = λ h. Reads-graph_of e rs h in
      search (reads_rules, Reads-get, rest)

  pub Reads-build : (tenant : String) (e : Option String) → Reads (build_sub_agent_graph tenant e)
  unfolding build_sub_agent_graph
  Reads-build tenant e = record {
    at = λ db. (Reads-graph_of e (flatten (t.agents.query db.agents tenant)) []).at db;
  }

  Reads-check :
      (tenant : String) (id : Option String) (o : Option (List String))
      → Reads (check_sub_agents tenant id o)
  Reads-check tenant id none = search reads_rules
  Reads-check tenant id (some []) = search reads_rules
  Reads-check tenant id (some (a ∷ rest)) = search (reads_rules, Reads-build)

  pub Reads-validate :
      (tenant : String) (id : Option String) (c : AgentConfiguration)
      → Reads (validate_no_circular_dependency tenant id c)
  unfolding validate_no_circular_dependency
  Reads-validate tenant id c = Reads-check tenant id c.sub_agents

  pub Reads-find : (id : String) (s : LifecycleStatus) → Reads (find_version_with_status id s)
  unfolding find_version_with_status
  Reads-find id s = search (reads_rules, Reads-list_all)
