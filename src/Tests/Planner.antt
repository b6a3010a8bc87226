-- ===== src/Tests/Planner.antt =====
-- Witnesses on a plan of two agents with two missing resources, of which the user skips one.
use agent_builder_factory_ap.Base.{
  ℕ, String, ◌≡◌, refl, false, none, [], ◌∷◌, ok, err, nat_key, string_key, ◌==◌, if◌then◌else◌,
}
use agent_builder_factory_ap.Registry.Models.{runtime_error}
use agent_builder_factory_ap.Dependency.{agents}
use agent_builder_factory_ap.Registry.Db.{Db}
use agent_builder_factory_ap.Registry.Agents.{Env}
use agent_builder_factory_ap.Planner.{
  tool, knowledge_base, AgentProposal, MissingResource, Session, ResourceStores, Decisions, Made,
}
use agent_builder_factory_ap.Planner.Executor.{Approved, Approval, execute_approval}
use agent_builder_factory_ap.Planner.Build.{
  proposed, conflict, SessionItem, Clock, Platform, approve_build,
}
use agent_builder_factory_ap.Planner.BuildOnce.{status_after, session_is_approved_once}
use agent_builder_factory_ap.Table.{Table}
use agent_builder_factory_ap.Table.Assoc.{assoc_table}
use agent_builder_factory_ap.Tests.Registry.{tables, env}

abbrev search : MissingResource
search = record {
  resource_key = "tool:search";
  resource_type = tool;
  name = "Search";
  description = "";
  proposed_config = ("auth_type", "api_key") ∷ [];
}

abbrev handbook : MissingResource
handbook = record {
  resource_key = "knowledge_base:handbook";
  resource_type = knowledge_base;
  name = "Handbook";
  description = "";
  proposed_config = [];
}

abbrev stores : ResourceStores
stores = record {
  create_connector = λ n d. ok "c1";
  create_knowledge_base = λ n name text. err runtime_error;
  create_policy = λ n name text. err runtime_error;
  create_skill = λ n d. err runtime_error;
}

abbrev decisions : Decisions
decisions = record { skip_resource_keys = "knowledge_base:handbook" ∷ []; edited_configs = [] }

abbrev made : Made
made = record {
  created_lookup = ("tool:search", "c1") ∷ [];
  created = record { resource_type = tool; resource_id = "c1"; name = "Search" } ∷ [];
  skipped = "knowledge_base:handbook" ∷ [];
}

abbrev proposal : String → String → AgentProposal
proposal name agent_type = record {
  name = name;
  description = "";
  agent_type = agent_type;
  system_prompt = "You answer questions.";
  capability_description = "";
  tools = record { name = "Search"; in_catalog = false; resource_id = none } ∷ [];
  knowledge_bases = [];
  guardrail_policy = none;
  skills = [];
}

abbrev session : Session
session = record {
  orchestrator = proposal "Desk" "orchestrator";
  sub_agents = proposal "Helper" "standard" ∷ [];
  missing_resources = search ∷ handbook ∷ [];
}

abbrev numbered_env : ℕ → Env
numbered_env n = record env { fresh_id = λ i. if n == 0 then "desk-1" else "helper-1" }

abbrev approval : Approval
approval = record {
  texts = record { slug = λ s. if s == "Search" then "search" else ""; document = λ w. "" };
  stores = stores;
  decisions = decisions;
  tenant_id = "t1";
  created_by = "ann";
  env = numbered_env;
}

abbrev approved : Approved
approved = record {
  created_resources = made.created;
  skipped = made.skipped;
  created_agents =
      record { agent_id = "helper-1"; name = "Helper"; role = "standard" }
      ∷ record { agent_id = "desk-1"; name = "Desk"; role = "orchestrator" }
      ∷ [];
}

abbrev empty : Db
empty = record { agents = []; versions = [] }

unfoldable after : Db
after = (execute_approval approval session empty).1

instance abbrev sessions : Table String String SessionItem
sessions = assoc_table

abbrev item : SessionItem
item = record {
  tenant_id = "t1";
  session_id = "bwai-1";
  session = session;
  status = proposed;
  created_resources = [];
  created_agents = [];
  error = none;
  updated_at = "2026-01-01T00:00:00+00:00";
}

abbrev platform : Platform
platform = record { sessions = ("t1", "bwai-1", item) ∷ []; db = empty }

abbrev clock : String → Clock
clock now = record { now = now; cause = λ e. "error" }

-- another user skips nothing
abbrev second : Approval
second = record approval {
  decisions = record { skip_resource_keys = []; edited_configs = [] };
  created_by = "bob";
}

session_is_approved_once_example :
    approve_build second
      (clock "12:01")
      "bwai-1"
      (approve_build approval (clock "12:00") "bwai-1" platform).1
    ≡ (
      err (conflict (status_after (approve_build approval (clock "12:00") "bwai-1" platform).0)),
      (approve_build approval (clock "12:00") "bwai-1" platform).1,
    )
session_is_approved_once_example =
    session_is_approved_once approval second (clock "12:00") (clock "12:01") item platform refl refl
      refl refl
