-- ===== src/Registry/Create/Laws.antt =====
-- Saving a version: what a successful edit or rollback leaves behind, and that a refused one leaves
-- nothing.
use agent_builder_factory_ap.Base.{
  ℕ, ◌+◌, ◌==◌, ◌&&◌, false, String, ◌≡◌, refl, Option, none, some, Result, ok, err, pure, guard,
  ◌>>=◌, ◌>>◌, bind_reading, bind_known, bind_failed, Reads-outcome, ◌∙◌, Reads-guard, nat_key,
  string_key, Option-cases, inl, inr,
}
use agent_builder_factory_ap.Registry.Models.{
  AgentStatus, AgentConfiguration, AgentRecord, AgentVersionRecord, RegistryError,
  version_already_exists,
}
use agent_builder_factory_ap.Table.{get-put_self, get-put_other}
use agent_builder_factory_ap.Registry.Db.{VersionItem, RegistryTables, Db, Method}
use agent_builder_factory_ap.Registry.Versioner.{write, to_item, build_version}
use agent_builder_factory_ap.Registry.Agents.{
  Env, put_agent, require_agent, require_version, validate_no_circular_dependency,
}
use agent_builder_factory_ap.Registry.Create.{
  IdentityUpdates, no_updates, or_else, next_record, next_version, create_new_version, update_agent,
  rollback_agent,
}
use agent_builder_factory_ap.Registry.Reading.{
  Reads-require_agent, Reads-require_version, Reads-validate,
}
use agent_builder_factory_ap.Registry.History.{write-new, write-old}

module _ ⦃t : RegistryTables⦄ where
  -- `db'` is `db` with one more version, and with the agent's record moved to it; every other item of
  -- the two tables is as before.
  pub record Saved (agent_id : String) (db : Db) (r r' : AgentRecord) (v : AgentVersionRecord)
      (db' : Db) : Type 0 where
    pub advances : r'.current_version ≡ r.current_version + 1
    pub numbered : v.snapshot.version ≡ r.current_version + 1
    pub stays_live : r'.live_version ≡ r.live_version
    pub same_tenant : r'.tenant_id ≡ r.tenant_id
    pub same_id : r'.agent_id ≡ r.agent_id
    pub was_free : t.versions.get_item db.versions agent_id (r.current_version + 1) ≡ none
    pub version_stored :
        t.versions.get_item db'.versions agent_id (r.current_version + 1) ≡ some (to_item v)
    pub agent_stored : t.agents.get_item db'.agents r'.tenant_id r'.agent_id ≡ some r'
    pub other_versions :
        (i : String) (n : ℕ)
        → (agent_id == i && r.current_version + 1 == n) ≡ false
        → t.versions.get_item db'.versions i n ≡ t.versions.get_item db.versions i n
    pub other_agents :
        (tenant i : String)
        → (r.tenant_id == tenant && r.agent_id == i) ≡ false
        → t.agents.get_item db'.agents tenant i ≡ t.agents.get_item db.agents tenant i

  abbrev Outcome :
      String
      → Db
      → AgentRecord
      → (AgentRecord → AgentVersionRecord → Type 0)
      → Result RegistryError (AgentRecord × AgentVersionRecord) × Db
      → Type 0
  Outcome id db r P (err e, db') = db' ≡ db
  Outcome id db r P (ok (r', v), db') = Saved id db r r' v db' × P r' v

  -- the two writes
  save : AgentVersionRecord → AgentRecord → Method (AgentRecord × AgentVersionRecord)
  save v r' = do write v; put_agent r'; pure (r', v)

  module _ (env : Env) (id : String) (r : AgentRecord) (c : AgentConfiguration) (by why : String)
      (from : Option ℕ) (u : IdentityUpdates) (s : Option AgentStatus) where
    next_agent : AgentRecord
    next_agent = next_record env r u s by

    next : AgentVersionRecord
    next = next_version env id r u c by why from

    next-config : next.snapshot.configuration ≡ c
    unfolding next next_version build_version
    next-config = refl

    next-from : next.snapshot.rolled_back_from_version ≡ from
    unfolding next next_version build_version
    next-from = refl

    next_agent-status : next_agent.status ≡ or_else s r.status
    unfolding next_agent next_record
    next_agent-status = refl

    save-new :
        (db : Db)
        → t.versions.get_item db.versions id (r.current_version + 1) ≡ none
        → Saved id db r next_agent next (save next next_agent db).1
          × ((save next next_agent db).0 ≡ ok (next_agent, next))
    unfolding save next next_agent next_version next_record build_version ◌>>=◌ put_agent
    save-new db e = rw (write-new (next_version env id r u c by why from) db e) (
      record {
        advances = refl;
        numbered = refl;
        stays_live = refl;
        same_tenant = refl;
        same_id = refl;
        was_free = e;
        version_stored = get-put_self t.versions db.versions id (r.current_version + 1) _;
        agent_stored = get-put_self t.agents db.agents r.tenant_id r.agent_id _;
        other_versions =
            λ i n ne. get-put_other t.versions db.versions id (r.current_version + 1) _ i n ne;
        other_agents =
            λ tenant i ne. get-put_other t.agents db.agents r.tenant_id r.agent_id _ tenant i ne;
      },
      refl,
    )

    save-old :
        (db : Db) {i : VersionItem}
        → t.versions.get_item db.versions id (r.current_version + 1) ≡ some i
        → save next next_agent db ≡ (err (version_already_exists id (r.current_version + 1)), db)
    unfolding save next next_agent next_version build_version
    save-old db e =
        bind_failed (write next) (λ _. put_agent next_agent >>= λ _. pure (next_agent, next)) db
          (write-old next db e)

    Outcome-save :
        (db : Db) (P : AgentRecord → AgentVersionRecord → Type 0)
        → P next_agent next
        → Outcome id db r P (save next next_agent db)
    Outcome-save db P p =
        elim (Option-cases (t.versions.get_item db.versions id (r.current_version + 1))) [
          | inl e ↦
              let (saved, done) = save-new db e in pair_outcome (save next next_agent db) done saved
          | inr (i, e) ↦ rw (save-old db e) refl
        ]
      where
        pair_outcome :
            (x : Result RegistryError (AgentRecord × AgentVersionRecord) × Db)
            → x.0 ≡ ok (next_agent, next)
            → Saved id db r next_agent next x.1
            → Outcome id db r P x
        pair_outcome (y, db') e saved = rw e (saved, p)

    Outcome-create_new_version :
        (tenant : String) (db : Db) (P : AgentRecord → AgentVersionRecord → Type 0)
        → P next_agent next
        → Outcome id db r P (create_new_version env tenant id r c by why from u s db)
    unfolding create_new_version save next next_agent
    Outcome-create_new_version tenant db P p =
        bind_reading (Outcome id db r P) (validate_no_circular_dependency tenant (some id) c)
          (λ _. save next next_agent) db (Reads-validate tenant (some id) c)
          (λ _ _. Outcome-save db P p) (λ e _. refl)

    -- With the agent read and the sub-agents accepted, the save is decided by the next number alone.
    create_new_version-decided :
        (tenant : String) (db : Db)
        → (validate_no_circular_dependency tenant (some id) c db).0 ≡ ok tt
        → create_new_version env tenant id r c by why from u s db ≡ save next next_agent db
    unfolding create_new_version save next next_agent
    create_new_version-decided tenant db valid =
        bind_known (validate_no_circular_dependency tenant (some id) c) _ db (
          Reads-outcome (validate_no_circular_dependency tenant (some id) c) db
            (Reads-validate tenant (some id) c) valid)

  abbrev pub Updated :
      String
      → String
      → AgentConfiguration
      → Db
      → Result RegistryError (AgentRecord × AgentVersionRecord) × Db
      → Type 0
  Updated tenant id c db (err e, db') = db' ≡ db
  Updated tenant id c db (ok (r', v), db') =
      (r : AgentRecord) × ((require_agent tenant id db).0 ≡ ok r)
      × Saved id db r r' v db'
      × (v.snapshot.configuration ≡ c)
      × (r'.status ≡ AgentStatus.draft)

  -- An edit of an agent whose next number is taken is refused, and changes nothing.
  pub update-taken :
      (env : Env) (tenant id : String) (c : AgentConfiguration) (by why : String)
      (u : IdentityUpdates) (db : Db) {r : AgentRecord} {i : VersionItem}
      → (require_agent tenant id db).0 ≡ ok r
      → (validate_no_circular_dependency tenant (some id) c db).0 ≡ ok tt
      → t.versions.get_item db.versions id (r.current_version + 1) ≡ some i
      → update_agent env tenant id c by why u db
        ≡ (err (version_already_exists id (r.current_version + 1)), db)
  unfolding update_agent
  update-taken env tenant id c by why u db {r} found valid taken =
      bind_known (require_agent tenant id) _ db
        (Reads-outcome (require_agent tenant id) db (Reads-require_agent tenant id) found)
      ∙ create_new_version-decided env id r c by why none u (some AgentStatus.draft) tenant db valid
      ∙ save-old env id r c by why none u (some AgentStatus.draft) db taken

  -- An edit either fails and changes nothing, or adds the version that follows the agent's current
  -- one, with the given configuration, under a number that was free, and leaves the agent on that
  -- version, in status DRAFT, with its live version unchanged; every other version and every other
  -- agent is as before. DynamoDB carries out each write that it is asked for and does not refuse.
  pub update_adds_a_version :
      (env : Env) (tenant_id agent_id : String) (c : AgentConfiguration) (by why : String)
      (u : IdentityUpdates) (db : Db)
      → Updated tenant_id agent_id c db (update_agent env tenant_id agent_id c by why u db)
  unfolding update_agent
  update_adds_a_version env tenant id c by why u db =
      bind_reading (Updated tenant id c db) (require_agent tenant id) _ db
        (Reads-require_agent tenant id)
        (λ r found. updated r found _ (
          Outcome-create_new_version env id r c by why none u (some AgentStatus.draft) tenant db
            (λ r' v. (v.snapshot.configuration ≡ c) × (r'.status ≡ AgentStatus.draft))
            (
              next-config env id r c by why none u (some AgentStatus.draft),
              next_agent-status env id r c by why none u (some AgentStatus.draft),
            )))
        (λ e _. refl)
    where
      updated :
          (r : AgentRecord)
          → (require_agent tenant id db).0 ≡ ok r
          → (x : Result RegistryError (AgentRecord × AgentVersionRecord) × Db)
          → Outcome id db r
              (λ r' v. (v.snapshot.configuration ≡ c) × (r'.status ≡ AgentStatus.draft))
              x
          → Updated tenant id c db x
      updated r found (err e, db') o = o
      updated r found (ok (r', v), db') (saved, (config, status)) =
          (r, found, saved, config, status)

  abbrev pub RolledBack :
      String
      → String
      → ℕ
      → Db
      → Result RegistryError (AgentRecord × AgentVersionRecord) × Db
      → Type 0
  RolledBack tenant id n db (err e, db') = db' ≡ db
  RolledBack tenant id n db (ok (r', v), db') =
      (r : AgentRecord) × (target : AgentVersionRecord) × ((require_agent tenant id db).0 ≡ ok r)
      × ((require_version id n db).0 ≡ ok target)
      × Saved id db r r' v db'
      × (v.snapshot.configuration ≡ target.snapshot.configuration)
      × (v.snapshot.rolled_back_from_version ≡ some r.current_version)
      × (r'.status ≡ r.status)

  -- A rollback either fails and changes nothing, or adds the version that follows the agent's current
  -- one, with the configuration of the target version and a link to the version that was left, and
  -- keeps the agent's status and live version.
  pub rollback_adds_a_version :
      (env : Env) (tenant_id agent_id : String) (target : ℕ) (why by : String) (db : Db)
      → RolledBack tenant_id agent_id target db
          (rollback_agent env tenant_id agent_id target why by db)
  unfolding rollback_agent
  rollback_adds_a_version env tenant id n why by db =
      bind_reading (RolledBack tenant id n db) (require_agent tenant id) _ db
        (Reads-require_agent tenant id)
        (λ r found.
          bind_reading (RolledBack tenant id n db) (require_version id n) _ db
            (Reads-require_version id n)
            (λ target there.
              bind_reading (RolledBack tenant id n db) (guard _ _) _ db (Reads-guard _ _)
                (λ _ _. rolled r target found there _ (
                  Outcome-create_new_version env id r target.snapshot.configuration by why
                    (some r.current_version) no_updates none tenant db
                    (λ r' v.
                      (v.snapshot.configuration ≡ target.snapshot.configuration)
                      × (v.snapshot.rolled_back_from_version ≡ some r.current_version)
                      × (r'.status ≡ r.status))
                    (let cfg = target.snapshot.configuration in
                      (
                        next-config env id r cfg by why (some r.current_version) no_updates none,
                        next-from env id r cfg by why (some r.current_version) no_updates none,
                        next_agent-status env id r cfg by why (some r.current_version) no_updates
                            none,
                      ))))
                (λ e _. refl))
            (λ e _. refl))
        (λ e _. refl)
    where
      rolled :
          (r : AgentRecord) (target : AgentVersionRecord)
          → (require_agent tenant id db).0 ≡ ok r
          → (require_version id n db).0 ≡ ok target
          → (x : Result RegistryError (AgentRecord × AgentVersionRecord) × Db)
          → Outcome id db r
              (λ r' v.
                (v.snapshot.configuration ≡ target.snapshot.configuration)
                × (v.snapshot.rolled_back_from_version ≡ some r.current_version)
                × (r'.status ≡ r.status))
              x
          → RolledBack tenant id n db x
      rolled r target found there (err e, db') o = o
      rolled r target found there (ok (r', v), db') (saved, (config, from, status)) =
          (r, target, found, there, saved, config, from, status)
