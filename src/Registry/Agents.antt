-- ===== src/Registry/Agents.antt =====
-- app/modules/registry/store.py: how the store reads and writes agents, allocates an agent_id, and
-- guards a save against circular sub-agents.
use mathlib.Core.List.{flatten}
use agent_builder_factory_ap.Base.{
  ℕ, zero, suc, String, Bool, true, false, ◌||◌, Option, none, some, List, [], ◌∷◌, Result, ok, err,
  pure, lift, guard, require_some, ◌>>=◌, ◌>>◌, ◌==◌, if◌then◌else◌, nat_key, string_key, take,
}
use agent_builder_factory_ap.Dependency
use agent_builder_factory_ap.Dependency.{Graph}
use agent_builder_factory_ap.Registry.Models.{
  AgentConfiguration, AgentRecord, AgentVersionRecord, RegistryError, agent_not_found,
  version_not_found, circular_dependency, runtime_error, agent_of_item,
}
use agent_builder_factory_ap.Registry.Db.{RegistryTables, Method}
use agent_builder_factory_ap.Registry.Versioner.{get}

-- What a request takes from outside: the clock, `settings.platform_version`, the ids that
-- `_new_agent_id` returns at each attempt, `compute_config_hash`, and the text of a
-- clone's change description.
pub record Env : Type 0 where
  pub now : String
  pub platform_version : String
  pub fresh_id : ℕ → String
  pub config_hash : AgentConfiguration → String
  -- f"Cloned from {source_agent_id!r} (v{version})"
  pub clone_note : String → ℕ → String

abbrev has_id : String → List AgentRecord → Bool
has_id c [] = false
has_id c (r ∷ rs) = r.agent_id == c || has_id c rs

-- the loop of `_allocate_agent_id` over the attempts that are left
unfoldable pub allocate : List AgentRecord → (ℕ → String) → ℕ → ℕ → Result RegistryError String
allocate examined fresh zero i = err runtime_error
allocate examined fresh (suc attempts) i =
    let rest = allocate examined fresh attempts (suc i) in
    if has_id (fresh i) examined then rest else ok (fresh i)

abbrev pub parse_agent : Option AgentRecord → Result RegistryError (Option AgentRecord)
parse_agent none = ok none
parse_agent (some item) = elim (agent_of_item item) [ ok r ↦ ok (some r) | err e ↦ err e ]

abbrev pub sub_agents_of : Option AgentVersionRecord → List String
sub_agents_of none = []
sub_agents_of (some v) = elim (v.snapshot.configuration.sub_agents) [ none ↦ [] | some ids ↦ ids ]

abbrev pub same_id : Option String → String → Bool
same_id none a = false
same_id (some e) a = a == e

abbrev pub node_name : Option String → String
node_name none = "__new_agent__"
node_name (some a) = a

abbrev pub accepts : Option Bool → Bool
accepts (some true) = true
accepts _ = false

module _ ⦃t : RegistryTables⦄ where
  unfoldable pub put_agent : AgentRecord → Method Unit
  put_agent r db =
      (ok tt, record db { agents = t.agents.put_item db.agents r.tenant_id r.agent_id r })

  -- `_allocate_agent_id`: a Scan with `Limit=1` examines one item, and filters afterwards
  unfoldable pub allocate_agent_id : Env → Method String
  allocate_agent_id env db = (allocate (take 1 (t.agents.scan db.agents)) env.fresh_id 5 0, db)

  unfoldable pub get_agent : String → String → Method (Option AgentRecord)
  get_agent tenant_id agent_id db =
      (parse_agent (t.agents.get_item db.agents tenant_id agent_id), db)

  unfoldable pub require_agent : String → String → Method AgentRecord
  require_agent tenant_id agent_id = do
    found ← get_agent tenant_id agent_id
    require_some (agent_not_found agent_id) found

  unfoldable pub require_version : String → ℕ → Method AgentVersionRecord
  require_version agent_id version = do
    found ← get agent_id version
    require_some (version_not_found agent_id version) found

  unfoldable pub get_version_detail : String → String → ℕ → Method (Option AgentVersionRecord)
  get_version_detail tenant_id agent_id version = do
    require_agent tenant_id agent_id
    get agent_id version

  -- one agent in that loop: the agent to leave out is skipped before its version is read
  abbrev pub add_agent : Option String → AgentRecord → Graph → Method Graph
  add_agent exclude record' g =
      if same_id exclude record'.agent_id
      then pure g
      else (get record'.agent_id record'.current_version >>= λ found.
          pure ((record'.agent_id, sub_agents_of found) ∷ g))

  -- the loop of `_build_sub_agent_graph` over the agents of the tenant
  unfoldable pub graph_of : Option String → List AgentRecord → Graph → Method Graph
  graph_of exclude [] g = pure g
  graph_of exclude (item ∷ items) g = do
    record' ← lift (agent_of_item item)
    g' ← add_agent exclude record' g
    graph_of exclude items g'

  unfoldable pub build_sub_agent_graph : String → Option String → Method Graph
  build_sub_agent_graph tenant_id exclude db =
      graph_of exclude (flatten (t.agents.query db.agents tenant_id)) [] db

  abbrev pub check_graph : String → Option String → List String → Method Unit
  check_graph tenant_id agent_id proposed = do
    graph ← build_sub_agent_graph tenant_id agent_id
    guard (accepts (Dependency.validate (node_name agent_id) proposed graph)) circular_dependency

  abbrev pub check_sub_agents : String → Option String → Option (List String) → Method Unit
  check_sub_agents tenant_id agent_id none = pure tt
  check_sub_agents tenant_id agent_id (some []) = pure tt
  check_sub_agents tenant_id agent_id (some (a ∷ rest)) = check_graph tenant_id agent_id (a ∷ rest)

  unfoldable pub validate_no_circular_dependency :
      String → Option String → AgentConfiguration → Method Unit
  validate_no_circular_dependency tenant_id agent_id configuration =
      check_sub_agents tenant_id agent_id configuration.sub_agents
