-- ===== src/Runtime/Jwt.antt =====
-- JwtAuthProvider and AuthChain of services/agent-runtime/auth.py. PyJWT and the fetch of the key set are
-- fields of JwtServices: each returns none where it raises. Scopes are left out.
use agent_builder_factory_ap.Base.{
  ℕ, String, Bool, not, Option, none, some, List, [], ◌∷◌, ◌==◌, if◌then◌else◌, string_key,
}
use text.Mathlib.Text.{starts_with}
use agent_builder_factory_ap.Registry.Models.{AgentRecord}
use agent_builder_factory_ap.Authentication.{AuthContext, authenticate}
use agent_builder_factory_ap.Tools.Executor.{same_id}

-- The Authorization header: the text after `Bearer `, with white space stripped at its ends, and whether
-- that text begins with `ey` before it is stripped.
pub data Authorization : Type 0 where
  other : Authorization
  bearer : String → Bool → Authorization

-- a key of a JWKS document
pub record Jwk : Type 0 where
  pub kid : Option String
  pub key : String

-- The text of each claim whose value is true.
pub record Claims : Type 0 where
  pub get : String → Option String

pub record JwtServices : Type 0 where
  pub unverified_kid : String → Option (Option String)
  pub fetch_jwks : String → Option (List Jwk)
  -- token, key, issuer and audience; the algorithm and the required claims are fixed
  pub decode : String → String → String → Option String → Option Claims

abbrev pub first_key : Option String → List Jwk → Option Jwk
first_key kid [] = none
first_key kid (k ∷ ks) = if same_id k.kid kid then some k else first_key kid ks

abbrev or_text : Option String → String → String
or_text none d = d
or_text (some t) d = if t == "" then d else t

abbrev or_claim : Option String → Option String → Option String
or_claim none c = c
or_claim (some a) c = some a

abbrev pub principal_of : Claims → String
principal_of c = or_text (or_claim (c.get "sub") (c.get "client_id")) "jwt_caller"

abbrev pub context_for : AgentRecord → Claims → String → AuthContext
context_for r c tenant_id = record {
  tenant_id = tenant_id;
  agent_id = r.agent_id;
  principal_id = principal_of c;
  auth_method = "jwt";
}

abbrev pub jwt_context : AgentRecord → Claims → Option String → Option AuthContext
jwt_context r c none = none
jwt_context r c (some tenant_id) =
    if tenant_id == "" then none else some (context_for r c tenant_id)

-- the claim that holds the tenant
abbrev pub tenant_claim_of : AgentRecord → String
tenant_claim_of r = or_text (some r.jwt_tenant_claim) "tenant_id"

abbrev pub with_claims : AgentRecord → Option Claims → Option AuthContext
with_claims r none = none
with_claims r (some c) = jwt_context r c (c.get (tenant_claim_of r))

module _ (services : JwtServices) (r : AgentRecord) (token : String) where
  abbrev pub with_key : String → Option Jwk → Option AuthContext
  with_key issuer none = none
  with_key issuer (some k) = with_claims r (services.decode token k.key issuer r.jwt_audience)

  abbrev pub with_jwks : String → Option String → Option (List Jwk) → Option AuthContext
  with_jwks issuer kid none = none
  with_jwks issuer kid (some ks) = with_key issuer (first_key kid ks)

  abbrev pub with_kid : String → String → Option (Option String) → Option AuthContext
  with_kid url issuer none = none
  with_kid url issuer (some kid) = with_jwks issuer kid (services.fetch_jwks url)

  -- the configured addresses, each of which may be missing or empty
  abbrev pub with_trust : Option String → Option String → Option AuthContext
  with_trust none issuer = none
  with_trust (some url) none = none
  with_trust (some url) (some issuer) =
      if url == ""
      then none
      else if issuer == ""
      then none
      else if not (starts_with url "https://")
      then none
      else with_kid url issuer (services.unverified_kid token)

-- `JwtAuthProvider.authenticate`
unfoldable pub authenticate_jwt : JwtServices → AgentRecord → Authorization → Option AuthContext
authenticate_jwt services r Authorization.other = none
authenticate_jwt services r (Authorization.bearer token shaped) =
    if not shaped then none else with_trust services r token r.jwt_jwks_url r.jwt_issuer

abbrev api_key_context : (String → String) → ℕ → AgentRecord → Authorization → Option AuthContext
api_key_context secret now r Authorization.other = none
api_key_context secret now r (Authorization.bearer token shaped) = authenticate secret now token r

abbrev pub first_context : Option AuthContext → Option AuthContext → Option AuthContext
first_context none c = c
first_context (some a) c = some a

-- `AuthChain.authenticate` on the two providers of `auth_chain`
unfoldable pub authenticate_any :
    (String → String) → JwtServices → ℕ → AgentRecord → Authorization → Option AuthContext
authenticate_any secret services now r header =
    first_context (api_key_context secret now r header) (authenticate_jwt services r header)
