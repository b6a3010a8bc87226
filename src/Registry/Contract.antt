-- ===== src/Registry/Contract.antt =====
-- app/modules/registry/contract_generator.py: the capability contract of a version.

use agent_builder_factory_ap.Base.{
  ℕ, zero, suc, String, Option, none, some, List, [], ◌∷◌, ◌==◌, string_key, if◌then◌else◌,
}
use agent_builder_factory_ap.Registry.Models.{
  Skill, KnowledgeBase, AgentConfiguration, CapabilityContract,
}

-- text[:n]
unfoldable pub take_chars : ℕ → String → String
take_chars zero s = String.[]
take_chars (suc n) String.[] = String.[]
take_chars (suc n) (String.◌∷◌ c s) = String.◌∷◌ c (take_chars n s)

abbrev enabled_skills : List Skill → List String
enabled_skills [] = []
enabled_skills (s ∷ ss) = if s.enabled then s.skill_id ∷ enabled_skills ss else enabled_skills ss

-- a name that is missing or empty is dropped
abbrev named : Option String → List String
named none = []
named (some n) = if n == "" then [] else n ∷ []

abbrev contract_knowledge_bases : Option KnowledgeBase → List String
contract_knowledge_bases none = []
contract_knowledge_bases (some kb) = if kb.enabled then named kb.kb_name else []

unfoldable pub generate : String → String → String → AgentConfiguration → ℕ → CapabilityContract
unfolding take_chars
generate agent_id agent_name agent_type config version = record {
  agent_id = agent_id;
  agent_name = agent_name;
  agent_type = agent_type;
  version = version;
  description = take_chars 200 config.system_prompt;
  capabilities = [];
  accepted_input_schema = none;
  output_schema = config.output_schema;
  skills = enabled_skills config.skills;
  tools = config.tools;
  mcp_servers = config.mcp_servers;
  knowledge_bases = contract_knowledge_bases config.knowledge_base;
  allowed_actions = "read" ∷ [];
  restricted_actions = "external_write" ∷ [];
  security_policy = record {
    guardrail_profile = "standard";
    pii_policy = "redact";
    data_classification = "internal";
  };
  latency_sla_ms = none;
  token_budget = some config.max_tokens;
}
