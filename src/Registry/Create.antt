-- ===== src/Registry/Create.antt =====
-- app/modules/registry/store.py: creating and cloning an agent, and saving a new version of one by
-- an edit or a rollback.
pub mod Laws
use agent_builder_factory_ap.Base.{
  ℕ, ◌+◌, String, Bool, true, false, not, Option, none, some, List, [], ◌∷◌, Result, ok, err, Exec,
  pure, raise, lift, guard, require_some, ◌>>=◌, ◌>>◌, ◌==◌, if◌then◌else◌, nat_key, string_key,
}
use agent_builder_factory_ap.Registry.Models.{
  AgentStatus, AgentConfiguration, AgentRecord, AgentVersionRecord, LifecycleStatus, RegistryError,
  agent_not_found, invalid_rollback,
}
use agent_builder_factory_ap.Registry.Db.{RegistryTables, Db, Method}
use agent_builder_factory_ap.Registry.Versioner.{write, get, build_version}
use agent_builder_factory_ap.Registry.Agents.{
  Env, put_agent, require_agent, require_version, allocate_agent_id,
  validate_no_circular_dependency,
}

pub record CreateRequest : Type 0 where
  pub tenant_id : String
  pub name : String
  pub description : String
  pub business_purpose : String
  pub agent_type : String
  pub configuration : AgentConfiguration
  pub created_by : String
  pub project_id : Option String
  pub owner_email : Option String
  pub tags : List (String × String)
  pub changelog : Option String

-- changelog or "Initial version"
abbrev pub description_of : Option String → String
description_of none = "Initial version"
description_of (some c) = if c == "" then "Initial version" else c

abbrev first_lifecycle : Option String → Option LifecycleStatus
first_lifecycle none = none
first_lifecycle (some p) = some LifecycleStatus.draft

unfoldable pub new_agent : Env → CreateRequest → String → AgentRecord
new_agent env q agent_id = record {
  tenant_id = q.tenant_id;
  agent_id = agent_id;
  name = q.name;
  description = q.description;
  business_purpose = q.business_purpose;
  agent_type = q.agent_type;
  current_version = 1;
  live_version = none;
  status = AgentStatus.draft;
  platform_version = env.platform_version;
  runtime_version = env.platform_version;
  created_by = q.created_by;
  created_at = env.now;
  updated_by = q.created_by;
  updated_at = env.now;
  tags = q.tags;
  project_id = q.project_id;
  project_lifecycle_status = first_lifecycle q.project_id;
  owner_email = q.owner_email;
  api_key_secret_arn = none;
  previous_api_key_secret_arn = none;
  previous_key_expires_at = none;
  rotated_at = none;
  api_key_revoked = false;
  jwt_issuer = none;
  jwt_audience = none;
  jwt_jwks_url = none;
  jwt_tenant_claim = "tenant_id";
  current_month_spend_usd = 0;
  current_month_spend_period = none;
}

-- the keyword arguments of `update_agent` that may be None
pub record IdentityUpdates : Type 0 where
  pub name : Option String
  pub description : Option String
  pub business_purpose : Option String
  pub tags : Option (List (String × String))

abbrev pub no_updates : IdentityUpdates
no_updates = record { name = none; description = none; business_purpose = none; tags = none }

abbrev pub or_else {ℓ} : {A : Type ℓ} → Option A → A → A
or_else none a = a
or_else (some b) a = b

-- the `model_copy` of `_create_new_version`
unfoldable pub next_record :
    Env → AgentRecord → IdentityUpdates → Option AgentStatus → String → AgentRecord
next_record env r u status changed_by = record r {
  name = or_else u.name r.name;
  description = or_else u.description r.description;
  business_purpose = or_else u.business_purpose r.business_purpose;
  tags = or_else u.tags r.tags;
  current_version = r.current_version + 1;
  updated_by = changed_by;
  updated_at = env.now;
  status = or_else status r.status;
}

-- app/shared/config_hash.py enters through `env`
unfoldable pub next_version :
    Env
    → String
    → AgentRecord
    → IdentityUpdates
    → AgentConfiguration
    → String
    → String
    → Option ℕ
    → AgentVersionRecord
unfolding build_version
next_version env agent_id r u config changed_by description from =
    build_version agent_id (or_else u.name r.name) r.agent_type (r.current_version + 1) config
      changed_by description from (env.config_hash config) env.now

module _ ⦃t : RegistryTables⦄ (env : Env) where
  unfoldable pub create_agent : CreateRequest → Method (AgentRecord × AgentVersionRecord)
  create_agent q = do
    validate_no_circular_dependency q.tenant_id none q.configuration
    agent_id ← allocate_agent_id env
    let r = new_agent env q agent_id
    let v =
        build_version agent_id q.name q.agent_type 1 q.configuration q.created_by
          (description_of q.changelog) none (env.config_hash q.configuration) env.now
    put_agent r
    write v
    pure (r, v)

  -- the part of `clone_agent` that depends on the source's version
  abbrev pub clone_of :
      String
      → String
      → String
      → String
      → AgentRecord
      → Option AgentVersionRecord
      → Method (AgentRecord × AgentVersionRecord)
  clone_of tenant_id source_agent_id new_name created_by source none =
      raise (agent_not_found source_agent_id)
  clone_of tenant_id source_agent_id new_name created_by source (some v) = create_agent (record {
    tenant_id = tenant_id;
    name = new_name;
    description = source.description;
    business_purpose = source.business_purpose;
    agent_type = source.agent_type;
    configuration = v.snapshot.configuration;
    created_by = created_by;
    project_id = none;
    owner_email = none;
    tags = source.tags;
    changelog = some (env.clone_note source_agent_id source.current_version);
  })

  unfoldable pub clone_agent :
      String → String → String → String → Method (AgentRecord × AgentVersionRecord)
  clone_agent tenant_id source_agent_id new_name created_by = do
    source ← require_agent tenant_id source_agent_id
    found ← get source_agent_id source.current_version
    clone_of tenant_id source_agent_id new_name created_by source found

  -- `_create_new_version` on the agent's record
  unfoldable pub create_new_version :
      String
      → String
      → AgentRecord
      → AgentConfiguration
      → String
      → String
      → Option ℕ
      → IdentityUpdates
      → Option AgentStatus
      → Method (AgentRecord × AgentVersionRecord)
  create_new_version tenant_id agent_id r config changed_by description from u status = do
    validate_no_circular_dependency tenant_id (some agent_id) config
    let v = next_version env agent_id r u config changed_by description from
    let r' = next_record env r u status changed_by
    write v
    put_agent r'
    pure (r', v)

  unfoldable pub update_agent :
      String
      → String
      → AgentConfiguration
      → String
      → String
      → IdentityUpdates
      → Method (AgentRecord × AgentVersionRecord)
  update_agent tenant_id agent_id config changed_by description u = do
    r ← require_agent tenant_id agent_id
    create_new_version tenant_id agent_id r config changed_by description none u
        (some AgentStatus.draft)

  unfoldable pub rollback_agent :
      String → String → ℕ → String → String → Method (AgentRecord × AgentVersionRecord)
  rollback_agent tenant_id agent_id target reason changed_by = do
    r ← require_agent tenant_id agent_id
    v ← require_version agent_id target
    guard (not (target == r.current_version)) (invalid_rollback agent_id target)
    create_new_version tenant_id agent_id r v.snapshot.configuration changed_by reason
        (some r.current_version) no_updates none
