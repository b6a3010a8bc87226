-- ===== src/Tests/Startup.antt =====
-- Witnesses on an agent whose first version is live.
use agent_builder_factory_ap.Base.{
  String, ◌≡◌, refl, none, some, [], ◌∷◌, ok, err, ◌>>=◌, pure, pair_eq, nat_key, string_key,
}
use agent_builder_factory_ap.Registry.Models.{
  AgentStatus, AgentConfiguration, AgentRecord, AgentVersionRecord, agent_of_item, typed,
  normalise_agent_type, is_agent_type,
}
use agent_builder_factory_ap.Registry.Db.{Db}
use agent_builder_factory_ap.Registry.Versioner.{build_version, to_item, write}
use agent_builder_factory_ap.Registry.Agents.{
  require_agent, get_agent, put_agent, validate_no_circular_dependency,
}
use agent_builder_factory_ap.Registry.Create.{
  no_updates, new_agent, next_record, next_version, update_agent, create_new_version,
}
use agent_builder_factory_ap.Tools.Policy.{Effects}
use agent_builder_factory_ap.Runtime.Startup.{
  Hashing, compute_config_hash, container_for, AgentConfig, config_integrity, load_agent_config,
  version_to_load, verify_config_hash,
}
use agent_builder_factory_ap.Runtime.Starts.{Traced, startup_is_pinned}
use agent_builder_factory_ap.Runtime.Redeploys.{redeployed_container_refuses}
use agent_builder_factory_ap.Tests.Registry.{tables, env, config, agent, version}

abbrev hashing : Hashing
hashing = record {
  Json = String;
  model_dump = λ c. c.system_prompt;
  loads_stored = λ s. s.configuration.system_prompt;
  dumps = λ j. j;
  sha256 = λ s. s;
}

unfoldable live_agent : AgentRecord
live_agent = record agent { live_version = some 1 }

abbrev live_db : Db
live_db = record {
  agents = ("t1", "support", live_agent) ∷ [];
  versions = ("support", 2, to_item (version 2)) ∷ ("support", 1, to_item (version 1)) ∷ [];
}

abbrev quiet : Effects
quiet = record { audit = []; invocations = [] }

abbrev loaded : AgentConfig hashing
loaded = record {
  agent_id = "support";
  tenant_id = "t1";
  name = "Support";
  version = 1;
  configuration = "You answer questions.";
}

startup_is_pinned_example :
    Traced hashing
      (container_for hashing "t1" "support" config)
      live_db
      "You answer questions."
      loaded
unfolding compute_config_hash load_agent_config ◌>>=◌ pure version_to_load verify_config_hash
    live_agent agent new_agent version build_version to_item
startup_is_pinned_example =
    startup_is_pinned hashing (container_for hashing "t1" "support" config) live_db quiet
      "You answer questions." loaded refl refl refl

abbrev edited : AgentConfiguration
edited = record config { system_prompt = "You answer politely." }

unfoldable edited_agent : AgentRecord
edited_agent = next_record env live_agent no_updates (some AgentStatus.draft) "bob"

unfoldable edited_version : AgentVersionRecord
edited_version = next_version env "support" live_agent no_updates edited "bob" "edit" none

unfoldable edited_db : Db
edited_db = (update_agent env "t1" "support" edited "bob" "edit" no_updates live_db).1

update_agent-edited :
    (update_agent env "t1" "support" edited "bob" "edit" no_updates live_db).0
    ≡ ok (edited_agent, edited_version)
unfolding edited_agent edited_version update_agent create_new_version require_agent get_agent
    validate_no_circular_dependency ◌>>=◌ pure agent_of_item typed normalise_agent_type
    is_agent_type live_agent agent new_agent next_record next_version build_version write put_agent
update_agent-edited = refl

redeployed_container_refuses_example :
    (load_agent_config hashing (container_for hashing "t1" "support" edited) edited_db quiet).0
    ≡ err (config_integrity "You answer politely." "You answer questions.")
unfolding compute_config_hash require_agent get_agent ◌>>=◌ agent_of_item typed normalise_agent_type
    is_agent_type live_agent agent new_agent version build_version to_item edited_db
redeployed_container_refuses_example =
    redeployed_container_refuses hashing env "t1" "support" edited "bob" "edit" no_updates 1
      (version 1).snapshot live_db edited_db live_agent edited_agent edited_version quiet refl refl
      refl refl refl refl refl refl
      (pair_eq (update_agent env "t1" "support" edited "bob" "edit" no_updates live_db)
        update_agent-edited refl)
