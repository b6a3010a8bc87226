-- ===== src/Runtime/Startup.antt =====
-- services/agent-runtime/config_loader.py and config_hash.py: what a container loads before it serves. The
-- documents of configurations, JSON and SHA-256 are a parameter; the registry's tables are read, and the audit log
-- is written.
use agent_builder_factory_ap.Base.{
  ℕ, String, Option, none, some, err, Exec, pure, raise, ◌>>=◌, ◌>>◌, ◌==◌, if◌then◌else◌, nat_key,
  string_key,
}
use agent_builder_factory_ap.Registry.Models.{AgentConfiguration, AgentRecord, Snapshot}
use agent_builder_factory_ap.Registry.Db.{RegistryTables, Db}
use agent_builder_factory_ap.Registry.History.{snapshot_in}
use agent_builder_factory_ap.Tools.Policy.{Effects, write_audit_event}

-- Documents and their hash: `model_dump` of a parsed configuration, what `json.loads` reads back from the
-- item of a version (a version that was stored under an older model may lack its defaults),
-- `json.dumps(…, sort_keys=True)`, and SHA-256 in hexadecimal.
pub record Hashing : Type 1 where
  pub Json : Type 0
  pub model_dump : AgentConfiguration → Json
  pub loads_stored : Snapshot → Json
  pub dumps : Json → String
  pub sha256 : String → String

-- `compute_config_hash` of the runtime, on a document
unfoldable pub compute_config_hash : (h : Hashing) → h.Json → String
compute_config_hash h c = h.sha256 (h.dumps c)

-- `compute_config_hash` of app/shared, on a parsed configuration
abbrev pub rendered_hash : Hashing → AgentConfiguration → String
rendered_hash h c = compute_config_hash h (h.model_dump c)

-- the environment of the container
pub record Container : Type 0 where
  pub agent_id : String
  pub tenant_id : String
  pub agent_config_hash : Option String

-- The environment that app/modules/iac_generator/backends/terraform.py renders for a configuration.
abbrev pub container_for : Hashing → String → String → AgentConfiguration → Container
container_for h tenant_id agent_id config = record {
  agent_id = agent_id;
  tenant_id = tenant_id;
  agent_config_hash = some (rendered_hash h config);
}

pub record AgentConfig (h : Hashing) : Type 0 where
  pub agent_id : String
  pub tenant_id : String
  pub name : String
  pub version : ℕ
  pub configuration : h.Json

pub data StartupError : Type 0 where
  agent_not_found : StartupError
  version_not_found : ℕ → StartupError
  config_integrity : String → String → StartupError  -- the expected hash, and the actual one

abbrev pub Startup : Type 0 → Type 0
Startup A = Exec Effects StartupError A

unfoldable pub refuse : Container → String → String → Startup Unit
refuse k expected actual e = (
  err (config_integrity expected actual),
  (write_audit_event "agent.config_integrity_failed" k.agent_id "denied" none e).1,
)

abbrev pub verify_pin : (h : Hashing) → Container → h.Json → Option String → Startup Unit
verify_pin h k c none = pure tt
verify_pin h k c (some expected) =
    if expected == ""
    then pure tt
    else if compute_config_hash h c == expected
    then pure tt
    else refuse k expected (compute_config_hash h c)

-- `_verify_config_hash`
unfoldable pub verify_config_hash : (h : Hashing) → Container → h.Json → Startup Unit
verify_config_hash h k c = verify_pin h k c k.agent_config_hash

-- `live_version or current_version`
abbrev pub live_or : Option ℕ → ℕ → ℕ
live_or none current = current
live_or (some n) current = if n == 0 then current else n

unfoldable pub version_to_load : AgentRecord → ℕ
version_to_load r = live_or r.live_version r.current_version

abbrev pub agent_config : (h : Hashing) → Container → AgentRecord → ℕ → h.Json → AgentConfig h
agent_config h k r n c = record {
  agent_id = k.agent_id;
  tenant_id = k.tenant_id;
  name = r.name;
  version = n;
  configuration = c;
}

module _ ⦃t : RegistryTables⦄ where
  abbrev pub find_agent : Option AgentRecord → Startup AgentRecord
  find_agent none = raise agent_not_found
  find_agent (some r) = pure r

  -- the `configuration` of a version's item, if it has one
  abbrev pub find_configuration : (h : Hashing) → ℕ → Option Snapshot → Startup h.Json
  find_configuration h n none = raise (version_not_found n)
  find_configuration h n (some s) = pure (h.loads_stored s)

  unfoldable pub load_agent_config : (h : Hashing) → Container → Db → Startup (AgentConfig h)
  load_agent_config h k db = do
    r ← find_agent (t.agents.get_item db.agents k.tenant_id k.agent_id)
    let n = version_to_load r
    c ← find_configuration h n (snapshot_in (t.versions.get_item db.versions k.agent_id n))
    verify_config_hash h k c
    pure (agent_config h k r n c)
