-- ===== src/Tests/Authentication.antt =====
-- A witness on an agent whose key is revoked, provisioned again and rotated.
use agent_builder_factory_ap.Base.{◌≡◌, refl, none, some, List, [], ◌∷◌, ◌>>=◌, string_key}
use agent_builder_factory_ap.Registry.Models.{
  AgentRecord, agent_of_item, typed, normalise_agent_type, is_agent_type,
}
use agent_builder_factory_ap.Registry.Agents.{Env, require_agent, get_agent, put_agent}
use agent_builder_factory_ap.Registry.Create.{new_agent}
use agent_builder_factory_ap.Registry.Credentials.{revoke_api_key}
use agent_builder_factory_ap.Registry.History.Commands.{Command, apply_all}
use agent_builder_factory_ap.Authentication.{authenticate}
use agent_builder_factory_ap.Authentication.Filed.{agent_at, AllFiled, AllFiled-put}
use agent_builder_factory_ap.Authentication.Forever.{revoked_key_is_refused}
use agent_builder_factory_ap.Tests.Registry.{tables, env, agent, db}

db-AllFiled : AllFiled db
unfolding put_agent agent new_agent
db-AllFiled = record {
  at = (AllFiled-put (record db { agents = [] }) agent (record { at = λ a b r e. cc e })).at;
}

abbrev commands : List (Env × Command)
commands =
    (env, Command.provision "t1" "support" "arn:1" "ann")
    ∷ (env, Command.rotate "t1" "support" "arn:2" 100 "ann")
    ∷ []

revoked_key_is_refused_example :
    (r : AgentRecord) × ((agent_at
          (apply_all commands (revoke_api_key env "t1" "support" "ann" db).1)
          "t1"
          "support"
        ≡ some r)
      × (authenticate (λ arn. "secret") 50 "secret" r ≡ none))
unfolding revoke_api_key require_agent get_agent put_agent agent_of_item typed normalise_agent_type
    is_agent_type agent new_agent ◌>>=◌
revoked_key_is_refused_example =
    revoked_key_is_refused "t1" "support" env "ann" db db-AllFiled refl commands refl
      (λ arn. "secret") 50 "secret"
