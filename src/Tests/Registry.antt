-- ===== src/Tests/Registry.antt =====
-- Witnesses on a registry with one agent, which has two versions.
use agent_builder_factory_ap.Base.{
  ℕ, ◌≡◌, refl, none, some, [], ◌∷◌, err, ◌>>=◌, nat_key, string_key, arith,
}
use agent_builder_factory_ap.Table.Assoc.{assoc_table}
use agent_builder_factory_ap.Registry.Models.{
  AgentConfiguration, AgentRecord, AgentVersionRecord, version_already_exists, agent_of_item, typed,
  normalise_agent_type, is_agent_type,
}
use agent_builder_factory_ap.Registry.Db.{RegistryTables, Db}
use agent_builder_factory_ap.Registry.Versioner.{build_version, to_item, from_item, get}
use agent_builder_factory_ap.Registry.Agents.{
  Env, require_agent, get_agent, require_version, validate_no_circular_dependency,
}
use agent_builder_factory_ap.Registry.Create.{
  CreateRequest, no_updates, new_agent, update_agent, rollback_agent,
}
use agent_builder_factory_ap.Registry.Create.Laws.{
  Updated, RolledBack, update_adds_a_version, rollback_adds_a_version,
}
use agent_builder_factory_ap.Registry.Project.{rollback_project_agent}
use agent_builder_factory_ap.Registry.Project.Laws.{edit_after_project_rollback}
use agent_builder_factory_ap.Registry.History.{snapshot_at}
use agent_builder_factory_ap.Registry.History.Commands.{Command, apply_all, history_is_immutable}

instance abbrev pub tables : RegistryTables
tables = record { agents = assoc_table; versions = assoc_table }

abbrev pub env : Env
env = record {
  now = "2026-01-01T00:00:00+00:00";
  platform_version = "1.0.0";
  fresh_id = λ n. "support-0a1b2c";
  config_hash = λ c. "hash";
  clone_note = λ s n. "Cloned";
}

abbrev pub config : AgentConfiguration
config = record {
  system_prompt = "You answer questions.";
  max_tokens = 2048;
  output_schema = none;
  skills = [];
  tools = [];
  mcp_servers = [];
  knowledge_base = none;
  sub_agents = none;
  rest = "";
}

abbrev pub request : CreateRequest
request = record {
  tenant_id = "t1";
  name = "Support";
  description = "";
  business_purpose = "";
  agent_type = "standard";
  configuration = config;
  created_by = "ann";
  project_id = some "p1";
  owner_email = none;
  tags = [];
  changelog = none;
}

unfoldable pub agent : AgentRecord
unfolding new_agent
agent = record (new_agent env request "support") { current_version = 2 }

unfoldable pub version : ℕ → AgentVersionRecord
version n = build_version "support" "Support" "standard" n config "ann" "edit" none "hash" "now"

abbrev pub db : Db
db = record {
  agents = ("t1", "support", agent) ∷ [];
  versions = ("support", 2, to_item (version 2)) ∷ ("support", 1, to_item (version 1)) ∷ [];
}

history_is_immutable_example :
    snapshot_at
      (apply_all
        ((env, Command.rollback "t1" "support" 1 "bad" "ann")
          ∷ (env, Command.publish "t1" "support" "ann")
          ∷ [])
        db)
      "support"
      1
    ≡ some (version 1).snapshot
unfolding to_item
history_is_immutable_example =
    history_is_immutable
      ((env, Command.rollback "t1" "support" 1 "bad" "ann")
        ∷ (env, Command.publish "t1" "support" "ann")
        ∷ [])
      db "support" 1 (version 1).snapshot refl

update_adds_a_version_example :
    Updated "t1" "support" config db
      (update_agent env "t1" "support" config "bob" "edit" no_updates db)
update_adds_a_version_example =
    update_adds_a_version env "t1" "support" config "bob" "edit" no_updates db

rollback_adds_a_version_example :
    RolledBack "t1" "support" 1 db (rollback_agent env "t1" "support" 1 "bad" "bob" db)
rollback_adds_a_version_example = rollback_adds_a_version env "t1" "support" 1 "bad" "bob" db

edit_after_project_rollback_example :
    update_agent env "t1" "support" config "bob" "edit" no_updates
      (rollback_project_agent env "t1" "support" 1 "ann" db).1
    ≡ (
      err (version_already_exists "support" 2),
      (rollback_project_agent env "t1" "support" 1 "ann" db).1,
    )
unfolding require_agent get_agent require_version get agent_of_item typed normalise_agent_type
    is_agent_type from_item agent new_agent version build_version to_item ◌>>=◌
    validate_no_circular_dependency
edit_after_project_rollback_example =
    edit_after_project_rollback env "t1" "support" 1 "ann" db {r = agent} {v = version 1} refl refl
      (omega arith) env config "bob" "edit" no_updates {i = to_item (version 2)} refl refl refl refl
