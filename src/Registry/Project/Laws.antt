-- ===== src/Registry/Project/Laws.antt =====
-- The rollback in place, and what it does to the next edit; publishing.
use agent_builder_factory_ap.Base.{
  ℕ, ◌+◌, String, ◌≡◌, ◌≢◌, refl, sym, subst₂, ap, ◌∙◌, Option, some, Result, ok, err, pure, guard,
  ◌>>=◌, bind_known, Reads-outcome, guard-true, nat_key, string_key, arith,
}
use agent_builder_factory_ap.Table.{get-put_some}
use agent_builder_factory_ap.Registry.Models.{
  LifecycleStatus, published, deprecated, AgentConfiguration, AgentRecord, AgentVersionRecord,
  RegistryError, version_already_exists,
}
use agent_builder_factory_ap.Registry.Db.{VersionItem, RegistryTables, Db}
use agent_builder_factory_ap.Registry.Versioner.{
  record_derived_fields, set_fields, or_empty, is_mutable, all_mutable, set_field,
}
use agent_builder_factory_ap.Registry.Agents.{
  Env, put_agent, require_agent, require_version, validate_no_circular_dependency,
}
use agent_builder_factory_ap.Registry.Create.{IdentityUpdates, update_agent}
use agent_builder_factory_ap.Registry.Create.Laws.{update-taken}
use agent_builder_factory_ap.Registry.Project.{set_version_lifecycle, rollback_project_agent}
use agent_builder_factory_ap.Registry.Reading.{Reads-require_agent, Reads-require_version}
use agent_builder_factory_ap.Registry.ReadBack.{require-put, require-type}

-- the item with its lifecycle set
abbrev pub with_lifecycle : LifecycleStatus → Option VersionItem → VersionItem
with_lifecycle s o =
    let i = or_empty o in
    record i { derived = record (i.derived) { project_lifecycle_status = some s } }

module _ ⦃t : RegistryTables⦄ where
  abbrev marked : String → ℕ → LifecycleStatus → Db → Db
  marked id n s db = record db {
    versions =
        t.versions.put_item db.versions id n
          (with_lifecycle s (t.versions.get_item db.versions id n));
  }

  pub set_version_lifecycle_lem :
      (id : String) (n : ℕ) (s : LifecycleStatus) (db : Db)
      → set_version_lifecycle id n s db ≡ (ok tt, marked id n s db)
  unfolding set_version_lifecycle record_derived_fields all_mutable is_mutable set_fields set_field
  set_version_lifecycle_lem id n s db = refl

  abbrev pub repointed_agent : Env → String → ℕ → AgentRecord → AgentRecord
  repointed_agent env actor target r = record r {
    current_version = target;
    project_lifecycle_status = some published;
    updated_by = actor;
    updated_at = env.now;
  }

  abbrev pub repointed : Env → String → String → ℕ → AgentRecord → Db → Db
  repointed env actor id target r db =
      let d = marked id target published (marked id r.current_version deprecated db) in
      record d {
        agents =
            t.agents.put_item d.agents r.tenant_id r.agent_id (repointed_agent env actor target r);
      }

  put_and_return :
      (r : AgentRecord) (db : Db)
      → (put_agent r >>= λ _. pure r) db
        ≡ (ok r, record db { agents = t.agents.put_item db.agents r.tenant_id r.agent_id r })
  unfolding put_agent ◌>>=◌
  put_and_return r db = refl

  module _ (env : Env) (tenant id : String) (target : ℕ) (actor : String) (db : Db)
      {r : AgentRecord} {v : AgentVersionRecord} (found : (require_agent tenant id db).0 ≡ ok r)
      (there : (require_version id target db).0 ≡ ok v) (differs : target ≢ r.current_version) where
    rollback_project_agent_lem :
        rollback_project_agent env tenant id target actor db
        ≡ (ok (repointed_agent env actor target r), repointed env actor id target r db)
    unfolding rollback_project_agent
    rollback_project_agent_lem =
        let d = marked id r.current_version deprecated db in
        bind_known (require_agent tenant id) _ db
          (Reads-outcome (require_agent tenant id) db (Reads-require_agent tenant id) found)
        ∙ bind_known (require_version id target) _ db
            (Reads-outcome (require_version id target) db (Reads-require_version id target) there)
        ∙ bind_known (guard _ _) _ db (guard-true _ _ db (ground (arith, differs)))
        ∙ bind_known (set_version_lifecycle id r.current_version deprecated) _ db
            (set_version_lifecycle_lem id r.current_version deprecated db)
        ∙ bind_known (set_version_lifecycle id target published) _ d
            (set_version_lifecycle_lem id target published d)
        ∙ put_and_return (repointed_agent env actor target r) (marked id target published d)

    -- a stored version is stored after the rollback too
    still_there :
        (n : ℕ) {i : VersionItem}
        → t.versions.get_item db.versions id n ≡ some i
        → (j : VersionItem) × (t.versions.get_item
              (repointed env actor id target r db).versions
              id
              n
            ≡ some j)
    still_there n h =
        let d = marked id r.current_version deprecated db in
        let (j, e) =
          get-put_some t.versions db.versions id r.current_version
            (with_lifecycle deprecated (t.versions.get_item db.versions id r.current_version)) id n
            h in
        get-put_some t.versions d.versions id target
          (with_lifecycle published (t.versions.get_item d.versions id target)) id n e

    read_back :
        (tenant ≡ r.tenant_id)
        → (id ≡ r.agent_id)
        → (require_agent tenant id (repointed env actor id target r db)).0
          ≡ ok (repointed_agent env actor target r)
    read_back e e' =
        subst₂
          (λ x y.
            (require_agent x y (repointed env actor id target r db)).0
            ≡ ok (repointed_agent env actor target r))
          (sym e) (sym e')
          (require-put (marked id target published (marked id r.current_version deprecated db))
            (repointed_agent env actor target r) (require-type tenant id db found))

    -- After a rollback in place to a version whose successor exists, every edit whose sub-agents pass
    -- the check is refused, because the number after the current version is taken, and changes nothing.
    pub edit_after_project_rollback :
        (env' : Env) (c : AgentConfiguration) (by why : String) (u : IdentityUpdates)
        {i : VersionItem}
        → tenant ≡ r.tenant_id
        → id ≡ r.agent_id
        → t.versions.get_item db.versions id (target + 1) ≡ some i
        → (validate_no_circular_dependency tenant
            (some id)
            c
            (rollback_project_agent env tenant id target actor db).1).0
          ≡ ok tt
        → update_agent env' tenant id c by why u
            (rollback_project_agent env tenant id target actor db).1
          ≡ (
            err (version_already_exists id (target + 1)),
            (rollback_project_agent env tenant id target actor db).1,
          )
    edit_after_project_rollback env' c by why u e e' next valid =
        let d = repointed env actor id target r db in
        let after : (rollback_project_agent env tenant id target actor db).1 ≡ d =
          ap (λ (x : Result RegistryError AgentRecord × Db). x.1) rollback_project_agent_lem in
        rw after (
          update-taken env' tenant id c by why u d (read_back e e') (rw after at valid)
            (still_there (target + 1) next).1)
