-- ===== src/Authentication/Forever.antt =====
-- A revoked API key never works again: no method of the store undoes the revocation.
use agent_builder_factory_ap.Base.{
  ℕ, String, ◌≡◌, refl, sym, ap, subst, ◌∙◌, Bool, true, false, ◌||◌, none, some, List, [], ◌∷◌,
  Result, ok, pure, ◌>>=◌, ◌>>◌, ◌==◌, nat_key, string_key, Bool-cases, inl, inr, arith, bind_known,
  bind_reading-ok,
}
use agent_builder_factory_ap.Table.{get-put_self}
use agent_builder_factory_ap.Registry.Models.{AgentRecord, RegistryError}
use agent_builder_factory_ap.Registry.Db.{RegistryTables, Db, Method}
use agent_builder_factory_ap.Registry.Agents.{Env, put_agent, require_agent}
use agent_builder_factory_ap.Registry.Credentials.{revoke_api_key}
use agent_builder_factory_ap.Registry.Reading.{Reads-require_agent}
use agent_builder_factory_ap.Registry.History.Commands.{Command, apply, apply_all}
use agent_builder_factory_ap.Authentication.{authenticate}
use agent_builder_factory_ap.Authentication.Filed.{
  agent_at, AllFiled, AllFiled-put, require-StoredAs,
}
use agent_builder_factory_ap.Authentication.Keeps.{Revoked}
use agent_builder_factory_ap.Authentication.Methods

-- whether some call makes a new agent, whose random id the store does not compare with all others
abbrev pub makes_agent : Command → Bool
makes_agent (Command.create q) = true
makes_agent (Command.clone te i n b) = true
makes_agent (Command.update te i c b w u) = false
makes_agent (Command.rollback te i n w b) = false
makes_agent (Command.iac_artifact te i n v k m r) = false
makes_agent (Command.evaluation te i n r) = false
makes_agent (Command.trigger te i n d b) = false
makes_agent (Command.mark_blocked te i b) = false
makes_agent (Command.mark_failed te i b) = false
makes_agent (Command.soft_delete te i b) = false
makes_agent (Command.mark_active te i n b) = false
makes_agent (Command.provision te i k b) = false
makes_agent (Command.rotate te i k n b) = false
makes_agent (Command.revoke te i b) = false
makes_agent (Command.set_jwt te i x y z c b) = false
makes_agent (Command.draft_after_edit te i b) = false
makes_agent (Command.publish te i b) = false
makes_agent (Command.archive te i b) = false
makes_agent (Command.rollback_project te i n b) = false

abbrev pub make_agents : List (Env × Command) → Bool
make_agents [] = false
make_agents (c ∷ cs) = makes_agent c.1 || make_agents cs

split : (b c : Bool) → (b || c) ≡ false → (b ≡ false) × (c ≡ false)
split b c h = ground arith

refused :
    (secret : String → String) (now : ℕ) (provided : String) (r : AgentRecord)
    → r.api_key_revoked ≡ true
    → authenticate secret now provided r ≡ none
unfolding authenticate
refused secret now provided r h = elim (Bool-cases (provided == "")) [
  | inl e ↦ rw e refl
  | inr e ↦ rw (e, h) refl
]

module _ ⦃t : RegistryTables⦄ (tenant_id agent_id : String) where
  Revoked-apply :
      (env : Env) (c : Command) (db : Db)
      → makes_agent c ≡ false
      → Revoked tenant_id agent_id db
      → Revoked tenant_id agent_id (apply env c db)
  unfolding apply
  Revoked-apply env (Command.create q) db n h = cc n
  Revoked-apply env (Command.clone te i x b) db n h = cc n
  Revoked-apply env (Command.update te i c b w u) db n h =
      (Methods.Keeps-update tenant_id agent_id env te i c b w u).at db h
  Revoked-apply env (Command.rollback te i x w b) db n h =
      (Methods.Keeps-rollback tenant_id agent_id env te i x w b).at db h
  Revoked-apply env (Command.iac_artifact te i x v k m r) db n h =
      (Methods.Keeps-iac_artifact tenant_id agent_id env te i x v k m r).at db h
  Revoked-apply env (Command.evaluation te i x r) db n h =
      (Methods.Keeps-evaluation tenant_id agent_id env te i x r).at db h
  Revoked-apply env (Command.trigger te i x d b) db n h =
      (Methods.Keeps-trigger tenant_id agent_id env te i x d b).at db h
  Revoked-apply env (Command.mark_blocked te i b) db n h =
      (Methods.Keeps-mark_blocked tenant_id agent_id env te i b).at db h
  Revoked-apply env (Command.mark_failed te i b) db n h =
      (Methods.Keeps-mark_failed tenant_id agent_id env te i b).at db h
  Revoked-apply env (Command.soft_delete te i b) db n h =
      (Methods.Keeps-soft_delete tenant_id agent_id env te i b).at db h
  Revoked-apply env (Command.mark_active te i x b) db n h =
      (Methods.Keeps-mark_active tenant_id agent_id env te i x b).at db h
  Revoked-apply env (Command.provision te i k b) db n h =
      (Methods.Keeps-provision tenant_id agent_id env te i k b).at db h
  Revoked-apply env (Command.rotate te i k x b) db n h =
      (Methods.Keeps-rotate tenant_id agent_id env te i k x b).at db h
  Revoked-apply env (Command.revoke te i b) db n h =
      (Methods.Keeps-revoke tenant_id agent_id env te i b).at db h
  Revoked-apply env (Command.set_jwt te i x y z c b) db n h =
      (Methods.Keeps-set_jwt tenant_id agent_id env te i x y z c b).at db h
  Revoked-apply env (Command.draft_after_edit te i b) db n h =
      (Methods.Keeps-draft tenant_id agent_id env te i b).at db h
  Revoked-apply env (Command.publish te i b) db n h =
      (Methods.Keeps-publish tenant_id agent_id env te i b).at db h
  Revoked-apply env (Command.archive te i b) db n h =
      (Methods.Keeps-archive tenant_id agent_id env te i b).at db h
  Revoked-apply env (Command.rollback_project te i x b) db n h =
      (Methods.Keeps-rollback_project tenant_id agent_id env te i x b).at db h

  Revoked-apply_all :
      (cs : List (Env × Command)) (db : Db)
      → make_agents cs ≡ false
      → Revoked tenant_id agent_id db
      → Revoked tenant_id agent_id (apply_all cs db)
  unfolding apply_all
  Revoked-apply_all [] db n h = h
  Revoked-apply_all ((env, c) ∷ cs) db n h =
      let (m, ms) = split (makes_agent c) (make_agents cs) n in
      Revoked-apply_all cs (apply env c db) ms (Revoked-apply env c db m h)

  abbrev with_revoked : Env → String → AgentRecord → AgentRecord
  with_revoked env by r = record r { api_key_revoked = true; updated_by = by; updated_at = env.now }

  abbrev revoke_read : Env → String → AgentRecord → Method AgentRecord
  revoke_read env by r = do put_agent (with_revoked env by r); pure (with_revoked env by r)

  revoke-as :
      (env : Env) (by : String) (db : Db)
      → revoke_api_key env tenant_id agent_id by db
        ≡ (require_agent tenant_id agent_id >>= revoke_read env by) db
  unfolding revoke_api_key
  revoke-as env by db = refl

  put-as :
      (env : Env) (by : String) (r : AgentRecord) (db : Db)
      → (revoke_read env by r db).1 ≡ (put_agent (with_revoked env by r) db).1
  unfolding put_agent ◌>>=◌
  put-as env by r db = refl

  put_found :
      (r : AgentRecord) (db : Db)
      → r.tenant_id ≡ tenant_id
      → r.agent_id ≡ agent_id
      → agent_at (put_agent r db).1 tenant_id agent_id ≡ some r
  unfolding put_agent
  put_found r db p q =
      let c = t.agents.put_item db.agents r.tenant_id r.agent_id r in
      subst (λ y. t.agents.get_item c tenant_id y ≡ some r) q
        (subst (λ x. t.agents.get_item c x r.agent_id ≡ some r) p
          (get-put_self t.agents db.agents r.tenant_id r.agent_id r))

  put-Revoked :
      (r : AgentRecord) (db : Db)
      → AllFiled db
      → r.api_key_revoked ≡ true
      → r.tenant_id ≡ tenant_id
      → r.agent_id ≡ agent_id
      → Revoked tenant_id agent_id (put_agent r db).1
  put-Revoked r db f v p q = record {
    filed = AllFiled-put db r f;
    item = r;
    stored = put_found r db p q;
    revoked = v;
  }

  revoke-Revoked :
      (env : Env) (by : String) (db : Db) {r' : AgentRecord}
      → AllFiled db
      → (revoke_api_key env tenant_id agent_id by db).0 ≡ ok r'
      → Revoked tenant_id agent_id (revoke_api_key env tenant_id agent_id by db).1
  revoke-Revoked env by db {r'} f h =
      let same = revoke-as env by db in
      let (r, (e, _)) =
        bind_reading-ok (require_agent tenant_id agent_id) (revoke_read env by) db
          (Reads-require_agent tenant_id agent_id)
          (subst (λ (o : Result RegistryError AgentRecord × Db). o.0 ≡ ok r') same h) in
      let s =
        require-StoredAs tenant_id agent_id db r
          (ap (λ (o : Result RegistryError AgentRecord × Db). o.0) e) in
      let (fa, fb) = f.at tenant_id agent_id s.item s.found in
      let (ka, (kb, _)) = s.kept in
      let known = bind_known (require_agent tenant_id agent_id) (revoke_read env by) db e in
      subst (Revoked tenant_id agent_id)
        (sym (
          ap (λ (o : Result RegistryError AgentRecord × Db). o.1) (same ∙ known)
          ∙ put-as env by r db))
        (put-Revoked (with_revoked env by r) db f refl (ka ∙ fa) (kb ∙ fb))

  -- After a revocation that succeeds, on a store where each agent stands under its own key, no sequence
  -- of the store's calls that neither creates, clones nor hard-deletes an agent, a rotation and a new
  -- provisioning of the key included, makes the runtime accept any key for the agent.
  pub revoked_key_is_refused :
      (env : Env) (by : String) (db : Db) {r' : AgentRecord}
      → AllFiled db
      → (revoke_api_key env tenant_id agent_id by db).0 ≡ ok r'
      → (cs : List (Env × Command)) → make_agents cs ≡ false
      → (secret : String → String) (now : ℕ) (provided : String)
      → (r : AgentRecord) × ((agent_at
              (apply_all cs (revoke_api_key env tenant_id agent_id by db).1)
              tenant_id
              agent_id
            ≡ some r)
          × (authenticate secret now provided r ≡ none))
  revoked_key_is_refused env by db f h cs n secret now provided =
      let k =
        Revoked-apply_all cs (revoke_api_key env tenant_id agent_id by db).1 n
          (revoke-Revoked env by db f h) in
      (k.item, (k.stored, refused secret now provided k.item k.revoked))
