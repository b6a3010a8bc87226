-- ===== src/Planner/Executor.antt =====
-- app/modules/task_planner/executor.py: the configurations of the planned agents, and `execute_approval`,
-- which creates the sub-agents before the orchestrator that refers to them.
use Prim.Native.String.{◌++◌ as append}
use agent_builder_factory_ap.Base.{
  ℕ, suc, String, Bool, true, false, Option, none, some, List, [], ◌∷◌, ◌++◌, map, length, pure,
  lift, ◌>>=◌, ◌==◌, if◌then◌else◌, string_key,
}
use agent_builder_factory_ap.Registry.Models.{Skill, AgentConfiguration, AgentRecord}
use agent_builder_factory_ap.Registry.Db.{RegistryTables, Method}
use agent_builder_factory_ap.Registry.Agents.{Env}
use agent_builder_factory_ap.Registry.Create.{CreateRequest, create_agent}
use agent_builder_factory_ap.Planner.{
  ResourceKind, tool, knowledge_base, guardrail_policy, skill, CatalogSuggestion, AgentProposal,
  Session, CreatedResource, ResourceStores, Decisions, Made, value_of, create_missing_resources,
}

pub record SubAgentRef : Type 0 where
  pub agent_id : String
  pub agent_name : String
  pub capability_description : String

pub record CreatedAgent : Type 0 where
  pub agent_id : String
  pub name : String
  pub role : String

-- What a built configuration sets beside its prompt and its skills: the registry keeps it unread.
pub record Wiring : Type 0 where
  pub model_id : String
  pub model_provider : String
  pub kb_id : Option String
  pub guardrail_policy_id : Option String
  pub tool_instances : List String  -- the connector of each
  pub orchestration : Option (List SubAgentRef)

-- the regular expressions of Python, and the document that Pydantic makes of the wiring
pub record Texts : Type 0 where
  pub slug : String → String
  pub document : Wiring → String

abbrev slugify_key : Texts → String → String
slugify_key x name = if x.slug name == "" then "resource" else x.slug name

abbrev kind_name : ResourceKind → String
kind_name tool = "tool"
kind_name knowledge_base = "knowledge_base"
kind_name guardrail_policy = "guardrail_policy"
kind_name skill = "skill"

-- `_resource_key`
abbrev pub resource_key_of : Texts → ResourceKind → String → String
resource_key_of x kind name = append (kind_name kind) (append ":" (slugify_key x name))

-- `_resolve_id`
abbrev from_catalog : Bool → Option String → Option String → Option String
from_catalog true (some id) found = some id
from_catalog true none found = found
from_catalog false id found = found

unfoldable pub resolve_id :
    Texts → CatalogSuggestion → ResourceKind → List (String × String) → Option String
resolve_id x s kind lookup =
    from_catalog s.in_catalog s.resource_id (value_of lookup (resource_key_of x kind s.name))

abbrev cons_some : Option String → List String → List String
cons_some none ids = ids
cons_some (some id) ids = id ∷ ids

abbrev pub resolve_all :
    Texts → List CatalogSuggestion → ResourceKind → List (String × String) → List String
resolve_all x [] kind lookup = []
resolve_all x (s ∷ ss) kind lookup =
    cons_some (resolve_id x s kind lookup) (resolve_all x ss kind lookup)

abbrev resolve_policy : Texts → Option CatalogSuggestion → List (String × String) → Option String
resolve_policy x none lookup = none
resolve_policy x (some s) lookup = resolve_id x s guardrail_policy lookup

abbrev first_id : List String → Option String
first_id [] = none
first_id (id ∷ ids) = some id

abbrev enabled_skill : String → Skill
enabled_skill id = record { skill_id = id; enabled = true }

abbrev wiring_of :
    Texts → AgentProposal → List (String × String) → Option (List SubAgentRef) → Wiring
wiring_of x p lookup refs = record {
  model_id = "anthropic.claude-3-5-sonnet-20241022-v2:0";
  model_provider = "bedrock";
  kb_id = first_id (resolve_all x p.knowledge_bases knowledge_base lookup);
  guardrail_policy_id = resolve_policy x p.guardrail_policy lookup;
  tool_instances = resolve_all x p.tools tool lookup;
  orchestration = refs;
}

abbrev ids_of_refs : Option (List SubAgentRef) → Option (List String)
ids_of_refs none = none
ids_of_refs (some refs) = some (map (λ r. r.agent_id) refs)

-- `_build_configuration`, with the orchestration that `model_copy` puts in
abbrev pub wired_configuration :
    Texts → AgentProposal → List (String × String) → Option (List SubAgentRef) → AgentConfiguration
wired_configuration x p lookup refs = record {
  system_prompt = p.system_prompt;
  max_tokens = 2048;
  output_schema = none;
  skills = map enabled_skill (resolve_all x p.skills skill lookup);
  tools = [];
  mcp_servers = [];
  knowledge_base = none;
  sub_agents = ids_of_refs refs;
  rest = x.document (wiring_of x p lookup refs);
}

unfoldable pub build_configuration :
    Texts → AgentProposal → List (String × String) → AgentConfiguration
build_configuration x p lookup = wired_configuration x p lookup none

abbrev refs_or_none : List SubAgentRef → Option (List SubAgentRef)
refs_or_none [] = none
refs_or_none (r ∷ rs) = some (r ∷ rs)

unfoldable pub orchestrator_configuration :
    Texts → AgentProposal → List (String × String) → List SubAgentRef → AgentConfiguration
orchestrator_configuration x p lookup refs = wired_configuration x p lookup (refs_or_none refs)

abbrev pub request_for : String → String → AgentProposal → AgentConfiguration → CreateRequest
request_for tenant_id created_by p c = record {
  tenant_id = tenant_id;
  name = p.name;
  description = p.description;
  business_purpose = p.description;
  agent_type = p.agent_type;
  configuration = c;
  created_by = created_by;
  project_id = none;
  owner_email = none;
  tags = [];
  changelog = none;
}

abbrev pub summary_of : AgentProposal → AgentRecord → CreatedAgent
summary_of p r = record { agent_id = r.agent_id; name = p.name; role = p.agent_type }

abbrev pub ref_of : AgentProposal → AgentRecord → SubAgentRef
ref_of p r = record {
  agent_id = r.agent_id;
  agent_name = p.name;
  capability_description = p.capability_description;
}

-- the three results of `execute_approval`
pub record Approved : Type 0 where
  pub created_resources : List CreatedResource
  pub skipped : List String
  pub created_agents : List CreatedAgent

-- The call's arguments. `env` is the environment of a creation, numbered by the agents that are left
-- after it.
pub record Approval : Type 0 where
  pub texts : Texts
  pub stores : ResourceStores
  pub decisions : Decisions
  pub tenant_id : String
  pub created_by : String
  pub env : ℕ → Env

module _ ⦃t : RegistryTables⦄ (a : Approval) where
  -- the loop over the sub-agents
  unfoldable pub create_sub_agents :
      List (String × String) → List AgentProposal → Method (List CreatedAgent × List SubAgentRef)
  create_sub_agents lookup [] = pure ([], [])
  create_sub_agents lookup (p ∷ ps) = do
    made ←
        create_agent (a.env (suc (length ps)))
          (request_for a.tenant_id a.created_by p (build_configuration a.texts p lookup))
    rest ← create_sub_agents lookup ps
    pure (summary_of p made.0 ∷ rest.0, ref_of p made.0 ∷ rest.1)

  unfoldable pub create_architecture : Session → Made → Method Approved
  create_architecture session made = do
    subs ← create_sub_agents made.created_lookup session.sub_agents
    orchestrator ← create_agent (a.env 0) (
        request_for a.tenant_id a.created_by session.orchestrator
          (orchestrator_configuration a.texts session.orchestrator made.created_lookup subs.1))
    pure (record {
      created_resources = made.created;
      skipped = made.skipped;
      created_agents = subs.0 ++ (summary_of session.orchestrator orchestrator.0 ∷ []);
    })

  unfoldable pub execute_approval : Session → Method Approved
  execute_approval session = do
    made ← lift (create_missing_resources a.stores a.decisions session.missing_resources)
    create_architecture session made
