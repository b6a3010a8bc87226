-- ===== src/Planner/Stored.antt =====
-- What an approval leaves in the registry.
use agent_builder_factory_ap.Base.{
  String, ◌≡◌, Option, none, some, List, [], ◌∷◌, ◌++◌, map, ok, nat_key, string_key,
}
use mathlib.Core.Option
use agent_builder_factory_ap.Registry.Models.{AgentConfiguration}
use agent_builder_factory_ap.Registry.Db.{RegistryTables, Db}
use agent_builder_factory_ap.Registry.History.{Extends}
use agent_builder_factory_ap.Registry.Returned.{Returned, first_configuration}
use agent_builder_factory_ap.Planner.{AgentProposal, Session, Made, create_missing_resources}
use agent_builder_factory_ap.Planner.Executor.{
  SubAgentRef, CreatedAgent, Texts, build_configuration, orchestrator_configuration, Approved,
  Approval,
}

module _ ⦃t : RegistryTables⦄ where
  abbrev pub configurations_at : Db → List String → List (Option AgentConfiguration)
  configurations_at db ids = map (first_configuration db) ids

  abbrev pub ref_ids : List SubAgentRef → List String
  ref_ids refs = map (λ r. r.agent_id) refs

  abbrev pub agent_ids : List CreatedAgent → List String
  agent_ids agents = map (λ c. c.agent_id) agents

  abbrev pub planned : Texts → List (String × String) → List AgentProposal → List AgentConfiguration
  planned x lookup ps = map (λ p. build_configuration x p lookup) ps

  abbrev pub ids_or_none : List String → Option (List String)
  ids_or_none [] = none
  ids_or_none (i ∷ is) = some (i ∷ is)

  module _ (a : Approval) where
    -- the sub-agents, by the summaries and by the references that the loop returns
    SubAgents :
        List (String × String)
        → List AgentProposal
        → List CreatedAgent × List SubAgentRef
        → Db
        → Type 0
    SubAgents lookup ps out db =
        (configurations_at db (ref_ids out.1) ≡ map some (planned a.texts lookup ps))
        × (agent_ids out.0 ≡ ref_ids out.1)

    -- What the approval of this session leaves where it returns.
    pub record Executed (session : Session) (db : Db) (out : Approved) (db' : Db) : Type 0 where
      pub made : Made
      pub resources :
          create_missing_resources a.stores a.decisions session.missing_resources ≡ ok made
      pub refs : List SubAgentRef
      pub orchestrator_id : String
      pub agents : agent_ids out.created_agents ≡ ref_ids refs ++ (orchestrator_id ∷ [])
      pub sub_agents :
          configurations_at db' (ref_ids refs)
          ≡ map some (planned a.texts made.created_lookup session.sub_agents)
      pub orchestrator :
          first_configuration db' orchestrator_id
          ≡ some (orchestrator_configuration a.texts session.orchestrator made.created_lookup refs)
      pub manages :
          Option.map (λ c. c.sub_agents) (first_configuration db' orchestrator_id)
          ≡ some (ids_or_none (ref_ids refs))
      pub kept : Extends db db'
