-- ===== src/Runtime/Admits.antt =====
-- Whom the gate lets through.
use agent_builder_factory_ap.Base.{
  ℕ, String, ◌≡◌, Bool, true, false, ◌||◌, Option, some, List, ok, ◌==◌, string_key,
}
use text.Mathlib.Text.{starts_with}
use agent_builder_factory_ap.Registry.Models.{AgentRecord}
use agent_builder_factory_ap.Authentication.{AuthContext, authenticate}
use agent_builder_factory_ap.Quota.Counters.{Redis}
use agent_builder_factory_ap.Quota.{Verdict, check_rate_limit, check_monthly_budget}
use agent_builder_factory_ap.Runtime.Jwt.{
  Authorization, Jwk, Claims, JwtServices, first_key, tenant_claim_of, principal_of,
}
use agent_builder_factory_ap.Runtime.Gate.{
  Limits, HttpRequest, Credentials, has_limit, spending_of, is_limited, GateState, rated,
}

-- The token was decoded with a key of the agent's own key set, which an https address serves, and for
-- the agent's issuer and audience; its claim under the agent's name for it is the tenant of the
-- context, and its subject, or else its client, the principal.
pub record Verified (services : JwtServices) (a : AgentRecord) (token : String) (ctx : AuthContext)
    : Type 0 where
  pub url : String
  pub issuer : String
  pub trusted_url : a.jwt_jwks_url ≡ some url
  pub trusted_issuer : a.jwt_issuer ≡ some issuer
  pub secure : starts_with url "https://" ≡ true
  pub key_id : Option String
  pub keys : List Jwk
  pub fetched : services.fetch_jwks url ≡ some keys
  pub key : Jwk
  pub selected : first_key key_id keys ≡ some key
  pub claims : Claims
  pub decoded : services.decode token key.key issuer a.jwt_audience ≡ some claims
  pub claimed : claims.get (tenant_claim_of a) ≡ some ctx.tenant_id
  pub tenant_not_empty : (ctx.tenant_id == "") ≡ false
  pub principal : ctx.principal_id ≡ principal_of claims
  pub for_agent : ctx.agent_id ≡ a.agent_id
  pub by_jwt : ctx.auth_method ≡ "jwt"

-- the caller of this header has a key or a token of the agent
pub data Proven (c : Credentials) (now : ℕ) (a : AgentRecord) (ctx : AuthContext)
    : Authorization → Type 0 where
  by_key :
      {token : String} {shaped : Bool}
      → authenticate c.secret now token a ≡ some ctx
      → Proven c now a ctx (Authorization.bearer token shaped)
  by_token :
      {token : String} {shaped : Bool}
      → Verified c.jwt a token ctx
      → Proven c now a ctx (Authorization.bearer token shaped)

-- what a context says of the claims that it was made from
record Claimed (a : AgentRecord) (claims : Claims) (ctx : AuthContext) : Type 0 where
  claimed : claims.get (tenant_claim_of a) ≡ some ctx.tenant_id
  tenant_not_empty : (ctx.tenant_id == "") ≡ false
  principal : ctx.principal_id ≡ principal_of claims
  for_agent : ctx.agent_id ≡ a.agent_id
  by_jwt : ctx.auth_method ≡ "jwt"

module _ (r : Redis) (l : Limits) (q : HttpRequest) (a : AgentRecord) (ctx : AuthContext) where
  -- a request that passes the limits of the agent
  pub record Within (s : GateState r) : Type 0 where
    pub affordable : check_monthly_budget q.period (spending_of a) l.monthly_budget_usd ≡ true
    pub not_too_many :
        has_limit l.rate_limit_rpm || has_limit l.rate_limit_rpd ≡ true
        → (check_rate_limit r (rated r l q a ctx) s.counters).0 ≡ Verdict.allowed

-- what the gate has established of a request that it lets through
pub record Admitted (r : Redis) (c : Credentials) (l : Limits) (q : HttpRequest) (s : GateState r)
    (ctx : AuthContext) : Type 0 where
  pub agent : AgentRecord
  pub looked_up : q.agent_record ≡ ok agent
  pub own_tenant : agent.tenant_id ≡ ctx.tenant_id
  pub proven : Proven c q.now agent ctx q.authorization
  pub within : is_limited q.path ≡ true → Within r l q agent ctx s
