-- ===== src/Runtime/Redeploys.antt =====
-- What an edit changes for the containers of an agent.
use agent_builder_factory_ap.Base.{
  ℕ, String, ◌≡◌, refl, sym, ap, subst, ◌∙◌, false, some, ok, err, ◌==◌, nat_key, string_key,
}
use agent_builder_factory_ap.Registry.Models.{
  AgentConfiguration, AgentRecord, AgentVersionRecord, Snapshot,
}
use agent_builder_factory_ap.Registry.Db.{RegistryTables, Db}
use agent_builder_factory_ap.Registry.Agents.{Env, require_agent}
use agent_builder_factory_ap.Registry.Create.{IdentityUpdates, update_agent}
use agent_builder_factory_ap.Registry.Create.Laws.{Updated, update_adds_a_version}
use agent_builder_factory_ap.Registry.History.{snapshot_at, Extends}
use agent_builder_factory_ap.Registry.History.Methods.{Grows-update_agent}
use agent_builder_factory_ap.Tools.Policy.{Effects}
use agent_builder_factory_ap.Runtime.Startup.{
  Hashing, compute_config_hash, rendered_hash, container_for, config_integrity, version_to_load,
  load_agent_config,
}
use agent_builder_factory_ap.Runtime.Starts.{refuses}

module _ ⦃t : RegistryTables⦄ where
  -- this version of the agent is live, and stored
  pub record Serving (tenant_id agent_id : String) (n : ℕ) (s : Snapshot) (db : Db) : Type 0 where
    pub agent : AgentRecord
    pub found : t.agents.get_item db.agents tenant_id agent_id ≡ some agent
    pub live : agent.live_version ≡ some n
    pub positive : (n == 0) ≡ false
    pub stored : snapshot_at db agent_id n ≡ some s

  version_to_load-live :
      (r : AgentRecord) {n : ℕ} → r.live_version ≡ some n → (n == 0) ≡ false → version_to_load r ≡ n
  unfolding version_to_load
  version_to_load-live r l p = rw (l, p) refl

  module _ (h : Hashing) (tenant_id agent_id : String) (n : ℕ) (s : Snapshot) (db : Db)
      (e : Effects) where
    other_version_refuses :
        (c : AgentConfiguration)
        → Serving tenant_id agent_id n s db
        → (rendered_hash h c == "") ≡ false
        → (compute_config_hash h (h.loads_stored s) == rendered_hash h c) ≡ false
        → (load_agent_config h (container_for h tenant_id agent_id c) db e).0
          ≡ err (config_integrity (rendered_hash h c) (compute_config_hash h (h.loads_stored s)))
    other_version_refuses c l y x =
        let v = version_to_load-live l.agent l.live l.positive in
        refuses h (container_for h tenant_id agent_id c) db e l.agent s (rendered_hash h c) l.found
          (subst (λ m. snapshot_at db agent_id m ≡ some s) (sym v) l.stored) refl y x

  -- an edit that returns leaves the live version live
  update_agent-Serving :
      (env : Env) (tenant_id agent_id : String) (c : AgentConfiguration) (by why : String)
      (u : IdentityUpdates) (n : ℕ) (s : Snapshot) (db db' : Db) {r r' : AgentRecord}
      {v : AgentVersionRecord}
      → (require_agent tenant_id agent_id db).0 ≡ ok r
      → r.tenant_id ≡ tenant_id
      → r.agent_id ≡ agent_id
      → r.live_version ≡ some n
      → (n == 0) ≡ false
      → snapshot_at db agent_id n ≡ some s
      → update_agent env tenant_id agent_id c by why u db ≡ (ok (r', v), db')
      → Serving tenant_id agent_id n s db'
  update_agent-Serving env tenant id c by why u n s db db' {r} {r'} {v} f ft fi l p st e =
      let x : Updated tenant id c db (ok (r', v), db') =
        subst (Updated tenant id c db) e (update_adds_a_version env tenant id c by why u db) in
      let g : Extends db db' =
        subst (λ o. Extends db o.1) e ((Grows-update_agent env tenant id c by why u).at db) in
      let saved = x.2 in
      let same : x.0 ≡ r = cc (f, x.1) in
      record {
        agent = r';
        found =
            subst (λ i. t.agents.get_item db'.agents tenant i ≡ some r')
              (saved.same_id ∙ ap (λ a. a.agent_id) same ∙ fi)
              (subst (λ i. t.agents.get_item db'.agents i r'.agent_id ≡ some r')
                (saved.same_tenant ∙ ap (λ a. a.tenant_id) same ∙ ft) saved.agent_stored);
        live = saved.stays_live ∙ ap (λ a. a.live_version) same ∙ l;
        positive = p;
        stored = g.at id n s st;
      }

  -- After an edit that returns, of an agent with a live version whose stored document has another hash than
  -- the edited configuration, the container that is rendered for the edited configuration refuses to
  -- start: it loads the live version and finds the hash of that one.
  pub redeployed_container_refuses :
      (h : Hashing) (env : Env) (tenant_id agent_id : String) (c : AgentConfiguration)
      (by why : String) (u : IdentityUpdates) (n : ℕ) (s : Snapshot) (db db' : Db)
      (r r' : AgentRecord) (v : AgentVersionRecord) (e : Effects)
      → (require_agent tenant_id agent_id db).0 ≡ ok r
      → r.tenant_id ≡ tenant_id
      → r.agent_id ≡ agent_id
      → r.live_version ≡ some n
      → (n == 0) ≡ false
      → snapshot_at db agent_id n ≡ some s
      → (rendered_hash h c == "") ≡ false
      → (compute_config_hash h (h.loads_stored s) == rendered_hash h c) ≡ false
      → update_agent env tenant_id agent_id c by why u db ≡ (ok (r', v), db')
      → (load_agent_config h (container_for h tenant_id agent_id c) db' e).0
        ≡ err (config_integrity (rendered_hash h c) (compute_config_hash h (h.loads_stored s)))
  redeployed_container_refuses h env tenant id c by why u n s db db' r r' v e f ft fi l p st y x m =
      other_version_refuses h tenant id n s db' e c
        (update_agent-Serving env tenant id c by why u n s db db' f ft fi l p st m) y x
