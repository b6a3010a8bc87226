-- ===== src/Authentication/Filed.antt =====
-- Agents under their own keys, and what a stored agent is read as.
use agent_builder_factory_ap.Base.{
  String, ◌≡◌, refl, ◌∙◌, Bool, true, ◌&&◌, Option, none, some, ok, require_some, continue, ◌>>=◌,
  ◌==◌, nat_key, string_key, Bool-cases, inl, inr, arith, ==_sound, Result-cases,
}
use agent_builder_factory_ap.Registry.Models.{
  AgentRecord, RegistryError, agent_of_item, typed, normalise_agent_type, is_agent_type,
}
use agent_builder_factory_ap.Registry.Db.{RegistryTables, Db}
use agent_builder_factory_ap.Registry.Agents.{put_agent, require_agent, get_agent, parse_agent}

typed-kept :
    (i r : AgentRecord) (a : String)
    → typed i a ≡ ok r
    → (r.tenant_id ≡ i.tenant_id)
      × ((r.agent_id ≡ i.agent_id) × (r.api_key_revoked ≡ i.api_key_revoked))
unfolding typed
typed-kept i r a h = elim (Bool-cases (is_agent_type a)) [
  | inl e ↦ let k = rw e at h in (cc k, (cc k, cc k))
  | inr e ↦ cc (rw e at h)
]

-- what a reading of the item keeps of it
agent_of_item-kept :
    (i r : AgentRecord)
    → agent_of_item i ≡ ok r
    → (r.tenant_id ≡ i.tenant_id)
      × ((r.agent_id ≡ i.agent_id) × (r.api_key_revoked ≡ i.api_key_revoked))
unfolding agent_of_item
agent_of_item-kept i r h = typed-kept i r (normalise_agent_type i.agent_type) h

pub both : (a b : Bool) → (a && b) ≡ true → (a ≡ true) × (b ≡ true)
both a b h = ground arith

module _ ⦃t : RegistryTables⦄ where
  abbrev pub agent_at : Db → String → String → Option AgentRecord
  agent_at db a b = t.agents.get_item db.agents a b

  -- every agent is stored under its own key
  pub record AllFiled (db : Db) : Type 0 where
    pub at :
        (a b : String) (r : AgentRecord)
        → agent_at db a b ≡ some r
        → (r.tenant_id ≡ a) × (r.agent_id ≡ b)

  pub AllFiled-put : (db : Db) (r : AgentRecord) → AllFiled db → AllFiled (put_agent r db).1
  unfolding put_agent
  AllFiled-put db r h = record {
    at = λ a b x e. elim (Bool-cases (r.tenant_id == a && r.agent_id == b)) [
      | inl same ↦
          let (p, q) = both (r.tenant_id == a) (r.agent_id == b) same in
          let put = t.agents.get-put db.agents r.tenant_id r.agent_id r a b in
          let k : r ≡ x = cc (put, same, e) in
          let pa = ==_sound r.tenant_id a p in
          let qb = ==_sound r.agent_id b q in (cc (k, pa), cc (k, qb))
      | inr other ↦
          h.at a b x (cc (t.agents.get-put db.agents r.tenant_id r.agent_id r a b, other, e))
    ];
  }

  -- what an agent that was read was stored as
  pub record StoredAs (db : Db) (a b : String) (r : AgentRecord) : Type 0 where
    pub item : AgentRecord
    pub found : agent_at db a b ≡ some item
    pub kept :
        (r.tenant_id ≡ item.tenant_id)
        × ((r.agent_id ≡ item.agent_id) × (r.api_key_revoked ≡ item.api_key_revoked))

  parsed-StoredAs :
      (e : RegistryError) (o : Option AgentRecord) (db : Db) (a b : String) (r : AgentRecord)
      → agent_at db a b ≡ o
      → (continue (parse_agent o) (λ f. require_some e f) db).0 ≡ ok r
      → StoredAs db a b r
  unfolding require_some
  parsed-StoredAs e none db a b r s h = cc h
  parsed-StoredAs e (some i) db a b r s h = elim (Result-cases (agent_of_item i)) [
    | inl (r', p) ↦ record {
      item = i;
      found = s;
      kept = agent_of_item-kept i r (p ∙ (rw (p, parse_agent) at h));
    }
    | inr (x, p) ↦ cc (rw (p, parse_agent) at h)
  ]

  pub require-StoredAs :
      (a b : String) (db : Db) (r : AgentRecord)
      → (require_agent a b db).0 ≡ ok r
      → StoredAs db a b r
  unfolding require_agent get_agent ◌>>=◌
  require-StoredAs a b db r h = parsed-StoredAs _ (agent_at db a b) db a b r refl h
