-- ===== src/Registry/Returned.antt =====
-- What holds where a method of the registry returns, and that a created agent is stored.
use agent_builder_factory_ap.Base.{
  String, ◌≡◌, refl, Option, none, some, Result, ok, err, pure, continue, bind_reading, ◌>>=◌, ◌>>◌,
  nat_key, string_key, Option-cases, inl, inr,
}
use mathlib.Core.Option
use agent_builder_factory_ap.Table.{get-put_self}
use agent_builder_factory_ap.Registry.Models.{
  AgentConfiguration, AgentRecord, AgentVersionRecord, RegistryError,
}
use agent_builder_factory_ap.Registry.Db.{RegistryTables, Db, Method}
use agent_builder_factory_ap.Registry.Agents.{Env, put_agent}
use agent_builder_factory_ap.Registry.Versioner.{write, to_item, build_version}
use agent_builder_factory_ap.Registry.Create.{
  CreateRequest, description_of, new_agent, create_agent,
}
use agent_builder_factory_ap.Registry.Reading.{Reads-validate, Reads-allocate}
use agent_builder_factory_ap.Registry.History.{snapshot_at, Extends, Grows, write-new, write-old}
use agent_builder_factory_ap.Registry.History.Methods.{Grows-create_agent}

module _ ⦃t : RegistryTables⦄ where
  -- what holds of the result and of the tables where the method returns
  abbrev pub Returned : {A : Type 0} → (A → Db → Type 0) → Result RegistryError A × Db → Type 0
  Returned Q (ok a, db) = Q a db
  Returned Q (err e, db) = Unit

  module _ {A B : Type 0} (P : A → Db → Type 0) (Q : B → Db → Type 0) (f : A → Method B) where
    Returned-continue :
        (o : Result RegistryError A × Db)
        → ((a : A) (db : Db) → P a db → Returned Q (f a db))
        → Returned P o
        → Returned Q (continue o.0 f o.1)
    Returned-continue (ok a, db) k h = k a db h
    Returned-continue (err e, db) k h = tt

    pub Returned-bind :
        (m : Method A) (db : Db)
        → Returned P (m db)
        → ((a : A) (db' : Db) → P a db' → Returned Q (f a db'))
        → Returned Q ((m >>= f) db)
    unfolding ◌>>=◌
    Returned-bind m db h k = Returned-continue (m db) k h

  pub any : {A : Type 0} (o : Result RegistryError A × Db) → Returned (λ a db. Unit) o
  any (ok a, db) = tt
  any (err e, db) = tt

  -- the configuration of the first version of an agent
  abbrev pub first_configuration : Db → String → Option AgentConfiguration
  first_configuration db id = Option.map (λ s. s.configuration) (snapshot_at db id 1)

  pub stays_configured :
      (a b : Db) (id : String) {c : AgentConfiguration}
      → Extends a b
      → first_configuration a id ≡ some c
      → first_configuration b id ≡ some c
  stays_configured a b id g h = elim (Option-cases (snapshot_at a id 1)) [
    | inl e ↦ cc (rw e at h)
    | inr (s, e) ↦ rw (g.at id 1 s e) (rw e at h)
  ]

  unfoldable pub Created : AgentConfiguration → Db → AgentRecord × AgentVersionRecord → Db → Type 0
  Created c db made db' = (first_configuration db' made.0.agent_id ≡ some c) × Extends db db'

  pub Returned-Grows :
      {A : Type 0} (P : A → Db → Type 0) (m : Method A) (db : Db)
      → Grows m
      → Returned P (m db)
      → Returned (λ a db'. P a db' × Extends db db') (m db)
  Returned-Grows P m db g h = added P (m db) (g.at db) h
    where
      added :
          {A : Type 0} {db : Db} (P : A → Db → Type 0) (o : Result RegistryError A × Db)
          → Extends db o.1
          → Returned P o
          → Returned (λ a db'. P a db' × Extends db db') o
      added P (ok a, db') e h = (h, e)
      added P (err x, db') e h = tt

  -- the two writes of a creation
  creation : AgentRecord → AgentVersionRecord → Method (AgentRecord × AgentVersionRecord)
  creation r v = do put_agent r; write v; pure (r, v)

  module _ (env : Env) (q : CreateRequest) (id : String) where
    unfoldable pub first_version : AgentVersionRecord
    first_version =
        build_version id q.name q.agent_type 1 q.configuration q.created_by
          (description_of q.changelog) none (env.config_hash q.configuration) env.now

    -- the tables after the creation
    abbrev pub with_first : Db → Db
    with_first db = record {
      agents = t.agents.put_item db.agents q.tenant_id id (new_agent env q id);
      versions = t.versions.put_item db.versions id 1 (to_item first_version);
    }

    Returned-creation :
        (db : Db)
        → Returned
            (λ made db'. (made ≡ (new_agent env q id, first_version)) × (db' ≡ with_first db))
            (creation (new_agent env q id) first_version db)
    unfolding creation first_version new_agent build_version put_agent ◌>>=◌ pure
    Returned-creation db =
        let agents = t.agents.put_item db.agents q.tenant_id id (new_agent env q id) in
        let db1 : Db = record db { agents = agents } in
        elim (Option-cases (t.versions.get_item db.versions id 1)) [
          | inl e ↦ rw (write-new first_version db1 e) (refl, refl)
          | inr (o, e) ↦ rw (write-old first_version db1 e) tt
        ]

  -- how a creation ends that returns
  unfoldable pub Made : Env → CreateRequest → Db → AgentRecord × AgentVersionRecord → Db → Type 0
  Made env q db made db' =
      (id : String) × (made ≡ (new_agent env q id, first_version env q id))
      × (db' ≡ with_first env q id db)

  some_id :
      (env : Env) (q : CreateRequest) (id : String) (db : Db)
      (o : Result RegistryError (AgentRecord × AgentVersionRecord) × Db)
      → Returned
          (λ made db'.
            (made ≡ (new_agent env q id, first_version env q id)) × (db' ≡ with_first env q id db))
          o
      → Returned (Made env q db) o
  unfolding Made
  some_id env q id db (ok made, db') h = (id, h.0, h.1)
  some_id env q id db (err e, db') h = tt

  pub create_agent-Made :
      (env : Env) (q : CreateRequest) (db : Db) → Returned (Made env q db) (create_agent env q db)
  unfolding create_agent creation first_version
  create_agent-Made env q db =
      bind_reading (Returned (Made env q db)) _ _ db
        (Reads-validate q.tenant_id none q.configuration)
        (λ u h.
          bind_reading (Returned (Made env q db)) _ _ db (Reads-allocate env)
            (λ id k. some_id env q id db _ (Returned-creation env q id db)) (λ e k. tt))
        (λ e h. tt)

  made-configuration :
      (env : Env) (q : CreateRequest) (db : Db)
      (o : Result RegistryError (AgentRecord × AgentVersionRecord) × Db)
      → Returned (Made env q db) o
      → Returned (λ made db'. first_configuration db' made.0.agent_id ≡ some q.configuration) o
  unfolding Made first_version new_agent build_version to_item
  made-configuration env q db (ok made, db') (id, e, f) =
      rw (e, f, get-put_self t.versions db.versions id 1 (to_item (first_version env q id))) refl
  made-configuration env q db (err e, db') h = tt

  pub create_agent-Created :
      (env : Env) (q : CreateRequest) (db : Db)
      → Returned (Created q.configuration db) (create_agent env q db)
  unfolding Created
  create_agent-Created env q db =
      Returned-Grows _ (create_agent env q) db (Grows-create_agent env q)
        (made-configuration env q db (create_agent env q db) (create_agent-Made env q db))
