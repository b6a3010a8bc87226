-- ===== src/Authentication.antt =====
-- services/agent-runtime/auth.py: the check of an API key against the agent's record.
pub mod Filed
pub mod Keeps
pub mod Methods
pub mod Forever
use agent_builder_factory_ap.Base.{
  ℕ, String, Bool, true, false, ◌&&◌, ◌||◌, not, Option, none, some, ◌==◌, if◌then◌else◌, ltb,
  string_key,
}
use agent_builder_factory_ap.Registry.Models.{AgentRecord}

pub record AuthContext : Type 0 where
  pub tenant_id : String
  pub agent_id : String
  pub principal_id : String
  pub auth_method : String

abbrev context_of : AgentRecord → AuthContext
context_of r = record {
  tenant_id = r.tenant_id;
  agent_id = r.agent_id;
  principal_id = "api_key_caller";
  auth_method = "api_key";
}

abbrev matches : (String → String) → String → Option String → Bool
matches secret provided none = false
matches secret provided (some arn) = not (arn == "") && provided == secret arn

abbrev in_grace : ℕ → Option ℕ → Bool
in_grace now none = false
in_grace now (some expires_at) = ltb now expires_at

abbrev is_provisioned : Option String → Bool
is_provisioned none = false
is_provisioned (some arn) = not (arn == "")

abbrev accepts : (String → String) → ℕ → String → AgentRecord → Bool
accepts secret now provided r =
    matches secret provided r.api_key_secret_arn
    || (in_grace now r.previous_key_expires_at
        && matches secret provided r.previous_api_key_secret_arn)

-- `ApiKeyAuthProvider.authenticate` on the key that the header carries after `Bearer `; `secret` is
-- the value that the secrets store has for an ARN.
unfoldable pub authenticate : (String → String) → ℕ → String → AgentRecord → Option AuthContext
authenticate secret now provided r =
    if provided == ""
    then none
    else if r.api_key_revoked
    then none
    else if not (is_provisioned r.api_key_secret_arn)
    then none
    else if accepts secret now provided r
    then some (context_of r)
    else none
