-- ===== src/Registry/ReadBack.antt =====
-- An agent that was read is read again as it was written.
use agent_builder_factory_ap.Base.{
  String, ◌≡◌, refl, subst, sym, true, Option, some, ok, Result-cases, continue, require_some, none,
  ◌>>=◌, ◌==◌, string_key, arith, Bool-cases, inl, inr, ==_sound, ap, ◌∙◌,
}
use agent_builder_factory_ap.Table.{get-put_self}
use agent_builder_factory_ap.Registry.Models.{
  AgentRecord, RegistryError, normalise_agent_type, is_agent_type, typed, agent_of_item,
}
use agent_builder_factory_ap.Registry.Db.{RegistryTables, Db}
use agent_builder_factory_ap.Registry.Agents.{parse_agent, get_agent, require_agent}

pub normalise-current : (a : String) → is_agent_type a ≡ true → normalise_agent_type a ≡ a
unfolding is_agent_type normalise_agent_type
normalise-current a h = elim (Bool-cases (a == "standard")) [
  | inl e ↦ subst (λ x. normalise_agent_type x ≡ x) (sym (==_sound a "standard" e)) refl
  | inr ne ↦
      subst (λ x. normalise_agent_type x ≡ x) (sym (==_sound a "orchestrator" (ground arith))) refl
]

typed-current :
    (r : AgentRecord) (a : String)
    → is_agent_type a ≡ true
    → typed r a ≡ ok (record r { agent_type = a })
unfolding typed
typed-current r a h = rw h

typed-type : (i r : AgentRecord) (a : String) → typed i a ≡ ok r → is_agent_type r.agent_type ≡ true
unfolding typed
typed-type i r a h = ground arith

pub agent_of_item-current :
    (r : AgentRecord) → is_agent_type r.agent_type ≡ true → agent_of_item r ≡ ok r
unfolding agent_of_item
agent_of_item-current r h =
    ap (typed r) (normalise-current r.agent_type h) ∙ typed-current r r.agent_type h

pub agent_of_item-type :
    (i r : AgentRecord) → agent_of_item i ≡ ok r → is_agent_type r.agent_type ≡ true
unfolding agent_of_item
agent_of_item-type i r h = typed-type i r (normalise_agent_type i.agent_type) h

module _ ⦃t : RegistryTables⦄ where
  pub require-put :
      (db : Db) (r : AgentRecord)
      → is_agent_type r.agent_type ≡ true
      → (require_agent r.tenant_id r.agent_id
          (record db { agents = t.agents.put_item db.agents r.tenant_id r.agent_id r })).0
        ≡ ok r
  unfolding require_agent get_agent ◌>>=◌
  require-put db r h = rw (
    get-put_self t.agents db.agents r.tenant_id r.agent_id r,
    agent_of_item-current r h,
    parse_agent,
  )

  parsed-type :
      (e : RegistryError) (o : Option AgentRecord) (db : Db) {r : AgentRecord}
      → (continue (parse_agent o) (λ f. require_some e f) db).0 ≡ ok r
      → is_agent_type r.agent_type ≡ true
  unfolding require_some
  parsed-type e none db h = cc
  parsed-type e (some i) db {r} h = elim (Result-cases (agent_of_item i)) [
    | inl (r', p) ↦ agent_of_item-type i r (p ∙ (rw (p, parse_agent) at h))
    | inr (x, p) ↦ cc (rw (p, parse_agent) at h)
  ]

  pub require-type :
      (tenant id : String) (db : Db) {r : AgentRecord}
      → (require_agent tenant id db).0 ≡ ok r
      → is_agent_type r.agent_type ≡ true
  unfolding require_agent get_agent ◌>>=◌
  require-type tenant id db {r} h = parsed-type _ (t.agents.get_item db.agents tenant id) db h
