-- ===== src/Authentication/Keeps.antt =====
-- Actions after which a revoked API key is still revoked, one rule for each way to build an action.
use agent_builder_factory_ap.Base.{
  ℕ, String, ◌≡◌, refl, sym, subst, ◌∙◌, Bool, true, false, ◌&&◌, Option, none, some, List, [], ◌∷◌,
  Result, ok, err, pure, guard, require_some, continue, ◌>>=◌, ◌==◌, if◌then◌else◌, nat_key,
  string_key, Bool-cases, inl, inr, ==_sound, Reads, reads_rules, bind_reading,
}
use agent_builder_factory_ap.Registry.Models.{AgentRecord, AgentVersionRecord, RegistryError}
use agent_builder_factory_ap.Registry.Db.{VersionItem, RegistryTables, Db, Method}
use agent_builder_factory_ap.Registry.Versioner.{
  VersionField, write, record_derived_fields, all_mutable,
}
use agent_builder_factory_ap.Registry.Agents.{put_agent, require_agent}
use agent_builder_factory_ap.Registry.Reading.{Reads-require_agent}
use agent_builder_factory_ap.Registry.History.{write-new, write-old}
use agent_builder_factory_ap.Authentication.Filed.{
  both, agent_at, AllFiled, AllFiled-put, StoredAs, require-StoredAs,
}

module _ ⦃t : RegistryTables⦄ (tenant_id agent_id : String) where
  -- whatever has this key is revoked
  pub record IsSound (a b : String) (revoked : Bool) : Type 0 where
    pub at : a ≡ tenant_id → b ≡ agent_id → revoked ≡ true

  abbrev pub Sound : AgentRecord → Type 0
  Sound r = IsSound r.tenant_id r.agent_id r.api_key_revoked

  pub IsSound-revoked : (a b : String) → IsSound a b true
  IsSound-revoked a b = record { at = λ p q. refl }

  -- the agent with this key is there and revoked
  pub record Revoked (db : Db) : Type 0 where
    pub filed : AllFiled db
    pub item : AgentRecord
    pub stored : agent_at db tenant_id agent_id ≡ some item
    pub revoked : item.api_key_revoked ≡ true

  pub record Keeps {A : Type 0} (m : Method A) : Type 0 where
    pub at : (db : Db) → Revoked db → Revoked (m db).1

  put-stored :
      (db : Db) (r : AgentRecord)
      → Sound r
      → Revoked db
      → (x : AgentRecord) × ((agent_at (put_agent r db).1 tenant_id agent_id ≡ some x)
          × (x.api_key_revoked ≡ true))
  unfolding put_agent
  put-stored db r s h =
      let put = t.agents.get-put db.agents r.tenant_id r.agent_id r tenant_id agent_id in
      elim (Bool-cases (r.tenant_id == tenant_id && r.agent_id == agent_id)) [
        | inl same ↦
            let (p, q) = both (r.tenant_id == tenant_id) (r.agent_id == agent_id) same in
            (
              r,
              (
                cc (put, same),
                s.at (==_sound r.tenant_id tenant_id p) (==_sound r.agent_id agent_id q),
              ),
            )
        | inr other ↦ (h.item, (cc (put, other, h.stored), h.revoked))
      ]

  pub Keeps-put_agent : (r : AgentRecord) → Sound r → Keeps (put_agent r)
  Keeps-put_agent r s = record {
    at = λ db h.
        let (x, (e, v)) = put-stored db r s h in
        record { filed = AllFiled-put db r h.filed; item = x; stored = e; revoked = v };
  }

  stored-Sound :
      (a b : String) (db : Db) (r : AgentRecord) → Revoked db → StoredAs db a b r → Sound r
  stored-Sound a b db r h s = record {
    at = λ p q.
        let (fa, fb) = h.filed.at a b s.item s.found in
        let (ka, (kb, kv)) = s.kept in
        let pa : tenant_id ≡ a = cc (p, ka, fa) in
        let qb : agent_id ≡ b = cc (q, kb, fb) in
        let found = s.found in
        let stored = h.stored in
        let revoked = h.revoked in
        let same : some s.item ≡ some h.item = sym found ∙ cc (pa, qb) ∙ stored in
        cc (kv, same, revoked);
  }

  module _ {B : Type 0} where
    pub Keeps-require :
        (a b : String) (f : AgentRecord → Method B)
        → ((r : AgentRecord) → Sound r → Keeps (f r))
        → Keeps (require_agent a b >>= f)
    Keeps-require a b f k = record {
      at = λ db h.
          bind_reading (λ (o : Result RegistryError B × Db). Revoked o.1) (require_agent a b) f db
            (Reads-require_agent a b)
            (λ r e. (k r (stored-Sound a b db r h (require-StoredAs a b db r e))).at db h)
            (λ e _. h);
    }

    Revoked-continue :
        {A : Type 0} (r : Result RegistryError A) (f : A → Method B) (db : Db)
        → ((a : A) → Keeps (f a))
        → Revoked db
        → Revoked (continue r f db).1
    Revoked-continue (ok a) f db k h = (k a).at db h
    Revoked-continue (err e) f db k h = h

    pub Keeps-bind :
        {A : Type 0} (m : Method A) (f : A → Method B)
        → Keeps m
        → ((a : A) → Keeps (f a))
        → Keeps (m >>= f)
    unfolding ◌>>=◌
    Keeps-bind m f h k = record { at = λ db r. Revoked-continue (m db).0 f (m db).1 k (h.at db r) }

  pub Keeps-of_reading : {A : Type 0} (m : Method A) → Reads m → Keeps m
  Keeps-of_reading m h = record { at = λ db r. subst Revoked (sym (h.at db)) r }

  module _ {A : Type 0} where
    pub Keeps-pure : (a : A) → Keeps (pure a)
    Keeps-pure a = Keeps-of_reading (pure a) (search reads_rules)

    pub Keeps-require_some : (e : RegistryError) (o : Option A) → Keeps (require_some e o)
    Keeps-require_some e o = Keeps-of_reading (require_some e o) (search reads_rules)

    pub Keeps-if : (b : Bool) (m n : Method A) → Keeps m → Keeps n → Keeps (if b then m else n)
    Keeps-if true m n h k = h
    Keeps-if false m n h k = k

    -- a method that leaves the table of the agents alone
    pub Keeps-of_versions : (m : Method A) → ((db : Db) → (m db).1.agents ≡ db.agents) → Keeps m
    Keeps-of_versions m e = record {
      at = λ db h. record {
        filed = record {
          at = λ a b r s. h.filed.at a b r (subst (λ c. t.agents.get_item c a b ≡ some r) (e db) s);
        };
        item = h.item;
        stored =
            subst (λ c. t.agents.get_item c tenant_id agent_id ≡ some h.item) (sym (e db)) h.stored;
        revoked = h.revoked;
      };
    }

  pub Keeps-guard : (b : Bool) (e : RegistryError) → Keeps (guard b e)
  Keeps-guard b e = Keeps-of_reading (guard b e) (search reads_rules)

  written :
      (v : AgentVersionRecord) (db : Db) (o : Option VersionItem)
      → t.versions.get_item db.versions v.snapshot.agent_id v.snapshot.version ≡ o
      → (write v db).1.agents ≡ db.agents
  written v db none e = rw (write-new v db e) refl
  written v db (some i) e = rw (write-old v db e) refl

  pub Keeps-write : (v : AgentVersionRecord) → Keeps (write v)
  Keeps-write v = Keeps-of_versions (write v) (λ db.
      written v db (t.versions.get_item db.versions v.snapshot.agent_id v.snapshot.version) refl)

  recorded :
      (id : String) (n : ℕ) (fs : List VersionField) (db : Db)
      → (record_derived_fields id n fs db).1.agents ≡ db.agents
  unfolding record_derived_fields all_mutable
  recorded id n [] db = refl
  recorded id n (f ∷ fs) db = elim (Bool-cases (all_mutable (f ∷ fs))) [
    | inl e ↦ rw e refl
    | inr e ↦ rw e refl
  ]

  pub Keeps-record_derived_fields :
      (id : String) (n : ℕ) (fs : List VersionField) → Keeps (record_derived_fields id n fs)
  Keeps-record_derived_fields id n fs =
      Keeps-of_versions (record_derived_fields id n fs) (recorded id n fs)

pub ruleset keeps_rules = (
  Keeps-put_agent, Keeps-require, Keeps-bind, Keeps-pure, Keeps-require_some, Keeps-if, Keeps-guard,
  Keeps-write, Keeps-record_derived_fields, IsSound-revoked,
)
