-- ===== src/Runtime/Starts.antt =====
-- Which configurations a container starts with, and what an edit and a deployment change of that.
use agent_builder_factory_ap.Base.{
  String, ◌≡◌, refl, subst, true, false, some, ok, err, pure, raise, ◌>>=◌, ◌==◌, ==_sound, nat_key,
  string_key, Bool-cases, Option-cases, inl, inr,
}
use agent_builder_factory_ap.Registry.Models.{AgentRecord, Snapshot}
use agent_builder_factory_ap.Registry.Db.{RegistryTables, Db}
use agent_builder_factory_ap.Registry.History.{snapshot_at}
use agent_builder_factory_ap.Tools.Policy.{Effects}
use agent_builder_factory_ap.Runtime.Startup.{
  Hashing, compute_config_hash, Container, AgentConfig, config_integrity, verify_config_hash,
  version_to_load, agent_config, load_agent_config, refuse,
}

module _ ⦃t : RegistryTables⦄ where
  -- Where a loaded configuration comes from, and what it hashes to.
  pub record Traced (h : Hashing) (k : Container) (db : Db) (pin : String) (config : AgentConfig h)
      : Type 0 where
    pub agent : AgentRecord
    pub found : t.agents.get_item db.agents k.tenant_id k.agent_id ≡ some agent
    pub numbered : config.version ≡ version_to_load agent
    pub snapshot : Snapshot
    pub stored : snapshot_at db k.agent_id config.version ≡ some snapshot
    pub same : config.configuration ≡ h.loads_stored snapshot
    pub hashed : compute_config_hash h config.configuration ≡ pin

  module _ (h : Hashing) (k : Container) (db : Db) (e : Effects) where
    verified :
        (c : h.Json) (pin : String)
        → k.agent_config_hash ≡ some pin
        → (compute_config_hash h c == pin) ≡ true
        → verify_config_hash h k c e ≡ (ok tt, e)
    unfolding verify_config_hash pure
    verified c pin p s = elim (Bool-cases (pin == "")) [
      | inl x ↦ rw (p, x) refl
      | inr x ↦ rw (p, x, s) refl
    ]

    refused :
        (c : h.Json) (pin : String)
        → k.agent_config_hash ≡ some pin
        → (pin == "") ≡ false
        → (compute_config_hash h c == pin) ≡ false
        → verify_config_hash h k c e ≡ refuse k pin (compute_config_hash h c) e
    unfolding verify_config_hash pure
    refused c pin p x s = rw (p, x, s) refl

    pub loads :
        (r : AgentRecord) (s : Snapshot) (pin : String)
        → t.agents.get_item db.agents k.tenant_id k.agent_id ≡ some r
        → snapshot_at db k.agent_id (version_to_load r) ≡ some s
        → k.agent_config_hash ≡ some pin
        → (compute_config_hash h (h.loads_stored s) == pin) ≡ true
        → load_agent_config h k db e
          ≡ (ok (agent_config h k r (version_to_load r) (h.loads_stored s)), e)
    unfolding load_agent_config ◌>>=◌ pure
    loads r s pin f g p x = rw (f, g, verified (h.loads_stored s) pin p x) refl

    pub refuses :
        (r : AgentRecord) (s : Snapshot) (pin : String)
        → t.agents.get_item db.agents k.tenant_id k.agent_id ≡ some r
        → snapshot_at db k.agent_id (version_to_load r) ≡ some s
        → k.agent_config_hash ≡ some pin
        → (pin == "") ≡ false
        → (compute_config_hash h (h.loads_stored s) == pin) ≡ false
        → (load_agent_config h k db e).0
          ≡ err (config_integrity pin (compute_config_hash h (h.loads_stored s)))
    unfolding load_agent_config ◌>>=◌ pure refuse
    refuses r s pin f g p y x = rw (f, g, refused (h.loads_stored s) pin p y x) refl

    -- While a hash is pinned, a container that starts has loaded the stored configuration of the agent's
    -- live version, or of its current one where none is live, and that configuration has the pinned hash.
    pub startup_is_pinned :
        (pin : String) (config : AgentConfig h)
        → k.agent_config_hash ≡ some pin
        → (pin == "") ≡ false
        → (load_agent_config h k db e).0 ≡ ok config
        → Traced h k db pin config
    unfolding load_agent_config ◌>>=◌ pure raise
    startup_is_pinned pin config p y l =
        elim (Option-cases (t.agents.get_item db.agents k.tenant_id k.agent_id)) [
          | inl f ↦ cc (rw f at l)
          | inr (r, f) ↦ elim (Option-cases (snapshot_at db k.agent_id (version_to_load r))) [
            | inl g ↦ cc (rw (f, g) at l)
            | inr (s, g) ↦ elim (Bool-cases (compute_config_hash h (h.loads_stored s) == pin)) [
              | inl x ↦
                  let c : agent_config h k r (version_to_load r) (h.loads_stored s) ≡ config =
                    cc (loads r s pin f g p x, l) in
                  subst (Traced h k db pin) c (record {
                    agent = r;
                    found = f;
                    numbered = refl;
                    snapshot = s;
                    stored = g;
                    same = refl;
                    hashed = ==_sound _ pin x;
                  })
              | inr x ↦ cc (refuses r s pin f g p y x, l)
            ]
          ]
        ]
