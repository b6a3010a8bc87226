-- ===== src/Registry/Credentials.antt =====
-- app/modules/registry/store.py: the API key and the JWT trust of an agent, and the check that
-- services/agent-runtime/auth.py makes against them.
use agent_builder_factory_ap.Base.{ℕ, String, true, Option, some, pure, require_some, ◌>>=◌, ◌>>◌}
use agent_builder_factory_ap.Registry.Models.{AgentRecord, no_api_key_provisioned}
use agent_builder_factory_ap.Registry.Db.{RegistryTables, Method}
use agent_builder_factory_ap.Registry.Agents.{Env, put_agent, require_agent}

module _ ⦃t : RegistryTables⦄ (env : Env) where
  unfoldable pub provision_api_key : String → String → String → String → Method AgentRecord
  provision_api_key tenant_id agent_id arn updated_by = do
    r ← require_agent tenant_id agent_id
    let r' = record r {
      api_key_secret_arn = some arn;
      updated_by = updated_by;
      updated_at = env.now;
    }
    put_agent r'
    pure r'

  unfoldable pub rotate_api_key : String → String → String → ℕ → String → Method AgentRecord
  rotate_api_key tenant_id agent_id new_arn expires_at updated_by = do
    r ← require_agent tenant_id agent_id
    current ← require_some (no_api_key_provisioned agent_id) r.api_key_secret_arn
    let r' = record r {
      previous_api_key_secret_arn = some current;
      previous_key_expires_at = some expires_at;
      api_key_secret_arn = some new_arn;
      rotated_at = some env.now;
      updated_by = updated_by;
      updated_at = env.now;
    }
    put_agent r'
    pure r'

  unfoldable pub revoke_api_key : String → String → String → Method AgentRecord
  revoke_api_key tenant_id agent_id updated_by = do
    r ← require_agent tenant_id agent_id
    let r' = record r { api_key_revoked = true; updated_by = updated_by; updated_at = env.now }
    put_agent r'
    pure r'

  unfoldable pub set_jwt_config :
      String
      → String
      → Option String
      → Option String
      → Option String
      → String
      → String
      → Method AgentRecord
  set_jwt_config tenant_id agent_id issuer audience jwks_url claim updated_by = do
    r ← require_agent tenant_id agent_id
    let r' = record r {
      jwt_issuer = issuer;
      jwt_audience = audience;
      jwt_jwks_url = jwks_url;
      jwt_tenant_claim = claim;
      updated_by = updated_by;
      updated_at = env.now;
    }
    put_agent r'
    pure r'
