-- ===== src/Registry/Models.antt =====
-- app/modules/registry/models.py: the records that the agent registry stores, the errors of
-- app/shared/exceptions.py, and the read-time mapping of retired agent types.
use agent_builder_factory_ap.Base.{
  ℕ, String, Bool, Option, none, List, [], ◌∷◌, ◌==◌, string_key, ◌||◌, if◌then◌else◌, Result, ok,
  err,
}

pub data AgentStatus : Type 0 where
  draft validating testing ready_for_approval approved deploying active failed blocked rolled_back
        deprecated :
      AgentStatus

pub data VersionStatus : Type 0 where
  draft testing blocked live superseded rolled_back : VersionStatus

pub data LifecycleStatus : Type 0 where
  draft published deprecated archived : LifecycleStatus

pub record Skill : Type 0 where
  pub skill_id : String
  pub enabled : Bool

pub record KnowledgeBase : Type 0 where
  pub enabled : Bool
  pub kb_name : Option String

-- The part of a configuration that the registry reads; `rest` is the remaining document.
pub record AgentConfiguration : Type 0 where
  pub system_prompt : String
  pub max_tokens : ℕ
  pub output_schema : Option String
  pub skills : List Skill
  pub tools : List String
  pub mcp_servers : List String
  pub knowledge_base : Option KnowledgeBase
  pub sub_agents : Option (List String)  -- orchestration.sub_agents, by agent_id
  pub rest : String

pub record SecurityPolicy : Type 0 where
  pub guardrail_profile : String
  pub pii_policy : String
  pub data_classification : String

pub record CapabilityContract : Type 0 where
  pub agent_id : String
  pub agent_name : String
  pub agent_type : String
  pub version : ℕ
  pub description : String
  pub capabilities : List String
  pub accepted_input_schema : Option String
  pub output_schema : Option String
  pub skills : List String
  pub tools : List String
  pub mcp_servers : List String
  pub knowledge_bases : List String
  pub allowed_actions : List String
  pub restricted_actions : List String
  pub security_policy : SecurityPolicy
  pub latency_sla_ms : Option ℕ
  pub token_budget : Option ℕ

pub record AgentRecord : Type 0 where
  pub tenant_id : String
  pub agent_id : String
  pub name : String
  pub description : String
  pub business_purpose : String
  pub agent_type : String
  pub current_version : ℕ
  pub live_version : Option ℕ
  pub status : AgentStatus
  pub platform_version : String
  pub runtime_version : String
  pub created_by : String
  pub created_at : String
  pub updated_by : String
  pub updated_at : String
  pub tags : List (String × String)
  pub project_id : Option String
  pub project_lifecycle_status : Option LifecycleStatus
  pub owner_email : Option String
  pub api_key_secret_arn : Option String
  pub previous_api_key_secret_arn : Option String
  pub previous_key_expires_at : Option ℕ
  pub rotated_at : Option String
  pub api_key_revoked : Bool
  pub jwt_issuer : Option String
  pub jwt_audience : Option String
  pub jwt_jwks_url : Option String
  pub jwt_tenant_claim : String
  pub current_month_spend_usd : ℕ  -- in the smallest unit recorded
  pub current_month_spend_period : Option String

-- What is fixed when a version is written.
pub record Snapshot : Type 0 where
  pub agent_id : String
  pub version : ℕ
  pub version_status : VersionStatus
  pub change_description : String
  pub changed_by : String
  pub created_at : String
  pub configuration : AgentConfiguration
  pub config_hash : Option String
  pub capability_contract : CapabilityContract
  pub rolled_back_from_version : Option ℕ

-- What the pipeline and the project lifecycle fill in later.
pub record Derived : Type 0 where
  pub iac_version : Option String
  pub iac_s3_key : Option String
  pub iac_modules : Option (List String)
  pub iac_validation_report : Option String
  pub deployment_id : Option String
  pub security_result : Option String
  pub evaluation_result : Option String
  pub terraform_plan_summary : Option String
  pub deployment_result : Option String
  pub project_lifecycle_status : Option LifecycleStatus

pub record AgentVersionRecord : Type 0 where
  pub snapshot : Snapshot
  pub derived : Derived

pub data RegistryError : Type 0 where
  agent_not_found : String → RegistryError
  version_not_found : String → ℕ → RegistryError
  version_already_exists : String → ℕ → RegistryError
  invalid_rollback : String → ℕ → RegistryError
  circular_dependency : RegistryError
  no_api_key_provisioned : String → RegistryError
  value_error : RegistryError  -- a field that may not be updated
  validation_error : RegistryError  -- an item that the record type refuses
  runtime_error : RegistryError  -- no free agent_id

abbrev pub no_derived : Derived
no_derived = record {
  iac_version = none;
  iac_s3_key = none;
  iac_modules = none;
  iac_validation_report = none;
  deployment_id = none;
  security_result = none;
  evaluation_result = none;
  terraform_plan_summary = none;
  deployment_result = none;
  project_lifecycle_status = none;
}

abbrev legacy_agent_type_map : List (String × String)
legacy_agent_type_map =
    ("conversational", "standard")
    ∷ ("task", "standard")
    ∷ ("multi-step", "orchestrator")
    ∷ ("rag", "standard")
    ∷ ("tool_executor", "standard")
    ∷ []

abbrev lookup_or : String → List (String × String) → String
lookup_or v [] = v
lookup_or v ((k, w) ∷ m) = if k == v then w else lookup_or v m

unfoldable pub normalise_agent_type : String → String
normalise_agent_type v = lookup_or v legacy_agent_type_map

-- the `AgentType` literal
unfoldable pub is_agent_type : String → Bool
is_agent_type t = t == "standard" || t == "orchestrator"

unfoldable pub typed : AgentRecord → String → Result RegistryError AgentRecord
typed item t = if is_agent_type t then ok (record item { agent_type = t }) else err validation_error

-- `AgentRecord(**_normalise_agent_item(item))`
unfoldable pub agent_of_item : AgentRecord → Result RegistryError AgentRecord
agent_of_item item = typed item (normalise_agent_type item.agent_type)
