-- ===== src/Registry/History/Commands.antt =====
-- Any sequence of store calls, failing or not, keeps every version that was ever written.
use agent_builder_factory_ap.Base.{ℕ, String, ◌≡◌, Option, some, List, [], ◌∷◌, string_key, nat_key}
use agent_builder_factory_ap.Registry.Models.{AgentConfiguration, Snapshot}
use agent_builder_factory_ap.Registry.Db.{RegistryTables, Db}
use agent_builder_factory_ap.Registry.Agents.{Env}
use agent_builder_factory_ap.Registry.Create.{
  CreateRequest, IdentityUpdates, create_agent, clone_agent, update_agent, rollback_agent,
}
use agent_builder_factory_ap.Registry.Pipeline.{
  record_iac_artifact, record_evaluation_result, record_deployment_trigger, mark_deployment_blocked,
  mark_deployment_active, mark_deployment_failed, soft_delete_agent,
}
use agent_builder_factory_ap.Registry.Credentials.{
  provision_api_key, rotate_api_key, revoke_api_key, set_jwt_config,
}
use agent_builder_factory_ap.Registry.Project.{
  set_project_draft_after_edit, publish_agent, archive_agent, rollback_project_agent,
}
use agent_builder_factory_ap.Registry.History.{snapshot_at, Extends, Extends-refl, Extends-trans}
use agent_builder_factory_ap.Registry.History.Methods

-- A call of the store with its arguments: tenant, agent, and what the method takes besides.
-- `hard_delete_agent` is left out: it is the one method that removes versions.
pub data Command : Type 0 where
  create : CreateRequest → Command
  clone : String → String → String → String → Command
  update : String → String → AgentConfiguration → String → String → IdentityUpdates → Command
  rollback : String → String → ℕ → String → String → Command
  iac_artifact :
      String → String → ℕ → String → String → Option (List String) → Option String → Command
  evaluation : String → String → ℕ → String → Command
  trigger : String → String → ℕ → String → String → Command
  mark_blocked mark_failed soft_delete : String → String → String → Command
  mark_active : String → String → ℕ → String → Command
  provision : String → String → String → String → Command
  rotate : String → String → String → ℕ → String → Command
  revoke : String → String → String → Command
  set_jwt :
      String → String → Option String → Option String → Option String → String → String → Command
  draft_after_edit publish archive : String → String → String → Command
  rollback_project : String → String → ℕ → String → Command

module _ ⦃t : RegistryTables⦄ where
  -- The database after one call; an error leaves what was written before it.
  unfoldable pub apply : Env → Command → Db → Db
  apply env (create q) db = (create_agent env q db).1
  apply env (clone te i n b) db = (clone_agent env te i n b db).1
  apply env (update te i c b w u) db = (update_agent env te i c b w u db).1
  apply env (rollback te i n w b) db = (rollback_agent env te i n w b db).1
  apply env (iac_artifact te i n v k m r) db = (record_iac_artifact te i n v k m r db).1
  apply env (evaluation te i n r) db = (record_evaluation_result te i n r db).1
  apply env (trigger te i n d b) db = (record_deployment_trigger env te i n d b db).1
  apply env (mark_blocked te i b) db = (mark_deployment_blocked env te i b db).1
  apply env (mark_failed te i b) db = (mark_deployment_failed env te i b db).1
  apply env (soft_delete te i b) db = (soft_delete_agent env te i b db).1
  apply env (mark_active te i n b) db = (mark_deployment_active env te i n b db).1
  apply env (provision te i k b) db = (provision_api_key env te i k b db).1
  apply env (rotate te i k n b) db = (rotate_api_key env te i k n b db).1
  apply env (revoke te i b) db = (revoke_api_key env te i b db).1
  apply env (set_jwt te i x y z c b) db = (set_jwt_config env te i x y z c b db).1
  apply env (draft_after_edit te i b) db = (set_project_draft_after_edit env te i b db).1
  apply env (publish te i b) db = (publish_agent env te i b db).1
  apply env (archive te i b) db = (archive_agent env te i b db).1
  apply env (rollback_project te i n b) db = (rollback_project_agent env te i n b db).1

  unfoldable pub apply_all : List (Env × Command) → Db → Db
  unfolding apply
  apply_all [] db = db
  apply_all ((env, c) ∷ cs) db = apply_all cs (apply env c db)

  Extends-apply : (env : Env) (c : Command) (db : Db) → Extends db (apply env c db)
  unfolding apply
  Extends-apply env (create q) db = (Methods.Grows-create_agent env q).at db
  Extends-apply env (clone te i n b) db = (Methods.Grows-clone_agent env te i n b).at db
  Extends-apply env (update te i c b w u) db = (Methods.Grows-update_agent env te i c b w u).at db
  Extends-apply env (rollback te i n w b) db = (Methods.Grows-rollback_agent env te i n w b).at db
  Extends-apply env (iac_artifact te i n v k m r) db =
      (Methods.Grows-record_iac_artifact te i n v k m r).at db
  Extends-apply env (evaluation te i n r) db =
      (Methods.Grows-record_evaluation_result te i n r).at db
  Extends-apply env (trigger te i n d b) db =
      (Methods.Grows-record_deployment_trigger env te i n d b).at db
  Extends-apply env (mark_blocked te i b) db =
      (Methods.Grows-mark_deployment_blocked env te i b).at db
  Extends-apply env (mark_failed te i b) db =
      (Methods.Grows-mark_deployment_failed env te i b).at db
  Extends-apply env (soft_delete te i b) db = (Methods.Grows-soft_delete_agent env te i b).at db
  Extends-apply env (mark_active te i n b) db =
      (Methods.Grows-mark_deployment_active env te i n b).at db
  Extends-apply env (provision te i k b) db = (Methods.Grows-provision_api_key env te i k b).at db
  Extends-apply env (rotate te i k n b) db = (Methods.Grows-rotate_api_key env te i k n b).at db
  Extends-apply env (revoke te i b) db = (Methods.Grows-revoke_api_key env te i b).at db
  Extends-apply env (set_jwt te i x y z c b) db =
      (Methods.Grows-set_jwt_config env te i x y z c b).at db
  Extends-apply env (draft_after_edit te i b) db =
      (Methods.Grows-set_project_draft_after_edit env te i b).at db
  Extends-apply env (publish te i b) db = (Methods.Grows-publish_agent env te i b).at db
  Extends-apply env (archive te i b) db = (Methods.Grows-archive_agent env te i b).at db
  Extends-apply env (rollback_project te i n b) db =
      (Methods.Grows-rollback_project_agent env te i n b).at db

  Extends-apply_all : (cs : List (Env × Command)) (db : Db) → Extends db (apply_all cs db)
  unfolding apply_all
  Extends-apply_all [] db = Extends-refl db
  Extends-apply_all ((env, c) ∷ cs) db =
      Extends-trans (Extends-apply env c db) (Extends-apply_all cs (apply env c db))

  -- A version that is stored stays stored with the same snapshot (configuration, contract, hash,
  -- author, linkage) through any sequence of calls of the store other than the hard delete, the
  -- calls that fail included.
  pub history_is_immutable :
      (cs : List (Env × Command)) (db : Db) (agent_id : String) (version : ℕ) (s : Snapshot)
      → snapshot_at db agent_id version ≡ some s
      → snapshot_at (apply_all cs db) agent_id version ≡ some s
  history_is_immutable cs db id n s h = (Extends-apply_all cs db).at id n s h
