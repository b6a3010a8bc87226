-- ===== src/Planner.antt =====
-- app/modules/task_planner: what an approved plan holds, and the resources that it creates
-- (`_create_missing_resources` of executor.py). A value of a proposed configuration is a text.
pub mod Resources
pub mod Executor
pub mod Stored
pub mod Build
pub mod BuildOnce
use Prim.Native.String.{◌++◌ as append}
use agent_builder_factory_ap.Base.{
  ℕ, String, Bool, true, false, Option, none, some, List, [], ◌∷◌, ◌++◌, Result, ok, err, length,
  contains, ◌==◌, ◌||◌, if◌then◌else◌, string_key,
}
use agent_builder_factory_ap.Registry.Models.{RegistryError}

pub data ResourceKind : Type 0 where
  tool knowledge_base guardrail_policy skill : ResourceKind

pub record CatalogSuggestion : Type 0 where
  pub name : String
  pub in_catalog : Bool
  pub resource_id : Option String

pub record AgentProposal : Type 0 where
  pub name : String
  pub description : String
  pub agent_type : String
  pub system_prompt : String
  pub capability_description : String
  pub tools : List CatalogSuggestion
  pub knowledge_bases : List CatalogSuggestion
  pub guardrail_policy : Option CatalogSuggestion
  pub skills : List CatalogSuggestion

-- a proposed configuration, or the edits of one
abbrev pub Config : Type 0
Config = List (String × String)

pub record MissingResource : Type 0 where
  pub resource_key : String
  pub resource_type : ResourceKind
  pub name : String
  pub description : String
  pub proposed_config : Config

-- the part of the stored session that the executor reads
pub record Session : Type 0 where
  pub orchestrator : AgentProposal
  pub sub_agents : List AgentProposal
  pub missing_resources : List MissingResource

pub record CreatedResource : Type 0 where
  pub resource_type : ResourceKind
  pub resource_id : String
  pub name : String

-- the keyword arguments of `create_connector` and of `SkillStore.create` that come from the configuration
pub record ConnectorDraft : Type 0 where
  pub name : String
  pub description : String
  pub executor_type : String
  pub input_schema : Option String
  pub output_schema : Option String
  pub endpoint_template : Option String
  pub credentials_required : List String

pub record SkillDraft : Type 0 where
  pub name : String
  pub description : String
  pub capability : String
  pub prompt_fragment : String

-- The answers of the four stores: the id of the new resource, or an exception. The calls are numbered by
-- the resources that are left after them.
pub record ResourceStores : Type 0 where
  pub create_connector : ℕ → ConnectorDraft → Result RegistryError String
  pub create_knowledge_base : ℕ → String → String → Result RegistryError String
  pub create_policy : ℕ → String → String → Result RegistryError String
  pub create_skill : ℕ → SkillDraft → Result RegistryError String

-- what the user decided: the keys to skip, and the edits by key
pub record Decisions : Type 0 where
  pub skip_resource_keys : List String
  pub edited_configs : List (String × Config)

-- the three results of `_create_missing_resources`
pub record Made : Type 0 where
  pub created_lookup : List (String × String)
  pub created : List CreatedResource
  pub skipped : List String

-- the value that was set last
abbrev pub value_of {ℓ} : {A : Type ℓ} → List (String × A) → String → Option A
value_of [] k = none
value_of (e ∷ es) k = elim (value_of es k) [
  | some v ↦ some v
  | none ↦ if e.0 == k then some e.1 else none
]

abbrev or_default : Option String → String → String
or_default none d = d
or_default (some v) d = v

abbrev or_nothing : Option Config → Config
or_nothing none = []
or_nothing (some c) = c

-- `{**proposed_config, **edited_configs.get(resource_key, {})}`
abbrev pub merged_config : Decisions → MissingResource → Config
merged_config d m = m.proposed_config ++ or_nothing (value_of d.edited_configs m.resource_key)

abbrev credentials_for : String → List String
credentials_for auth_type = if auth_type == "" || auth_type == "none" then [] else auth_type ∷ []

abbrev connector_draft : MissingResource → Config → ConnectorDraft
connector_draft m c = record {
  name = m.name;
  description = m.description;
  executor_type = or_default (value_of c "executor_type") "http";
  input_schema = value_of c "input_schema";
  output_schema = value_of c "output_schema";
  endpoint_template = value_of c "endpoint";
  credentials_required = credentials_for (or_default (value_of c "auth_type") "none");
}

abbrev skill_draft : MissingResource → Config → SkillDraft
skill_draft m c = record {
  name = m.name;
  description = m.description;
  capability = or_default (value_of c "capability") m.name;
  prompt_fragment =
      or_default (value_of c "prompt_fragment")
        (append "Use the " (append m.name " skill when relevant."));
}

-- the body of the loop for a resource of each kind
abbrev pub create_resource :
    ResourceStores → ResourceKind → ℕ → MissingResource → Config → Result RegistryError String
create_resource s tool n m c = s.create_connector n (connector_draft m c)
create_resource s knowledge_base n m c = s.create_knowledge_base n m.name m.description
create_resource s guardrail_policy n m c = s.create_policy n m.name m.description
create_resource s skill n m c = s.create_skill n (skill_draft m c)

abbrev pub nothing_made : Made
nothing_made = record { created_lookup = []; created = []; skipped = [] }

abbrev pub add_skipped : MissingResource → Result RegistryError Made → Result RegistryError Made
add_skipped m (err e) = err e
add_skipped m (ok r) = ok (record r { skipped = m.resource_key ∷ r.skipped })

abbrev pub add_created : MissingResource → String → Made → Made
add_created m id r = record {
  created_lookup = (m.resource_key, id) ∷ r.created_lookup;
  created = record { resource_type = m.resource_type; resource_id = id; name = m.name } ∷ r.created;
  skipped = r.skipped;
}

abbrev pub then_created :
    MissingResource
    → Result RegistryError String
    → Result RegistryError Made
    → Result RegistryError Made
then_created m (err e) rest = err e
then_created m (ok id) (err e) = err e
then_created m (ok id) (ok r) = ok (add_created m id r)

-- `_create_missing_resources`: the resources in their order, up to the first exception
unfoldable pub create_missing_resources :
    ResourceStores → Decisions → List MissingResource → Result RegistryError Made
create_missing_resources s d [] = ok nothing_made
create_missing_resources s d (m ∷ ms) =
    let rest = create_missing_resources s d ms in
    if contains d.skip_resource_keys m.resource_key
    then add_skipped m rest
    else then_created m (create_resource s m.resource_type (length ms) m (merged_config d m)) rest
