-- ===== src/Planner/Build.antt =====
-- app/api/v1/build_with_ai.py: the approval of a session, over app/modules/task_planner/session_store.py.
use agent_builder_factory_ap.Base.{
  String, Bool, true, false, Option, none, some, List, Result, ok, err, Exec, pure, raise, guard,
  ◌>>=◌, ◌>>◌, string_key,
}
use agent_builder_factory_ap.Table.{Table}
use agent_builder_factory_ap.Registry.Models.{RegistryError}
use agent_builder_factory_ap.Registry.Db.{RegistryTables, Db}
use agent_builder_factory_ap.Planner.{Session, CreatedResource}
use agent_builder_factory_ap.Planner.Executor.{CreatedAgent, Approved, Approval, execute_approval}

pub data SessionStatus : Type 0 where
  proposed completed failed : SessionStatus

-- an item of panasa-build-with-ai-sessions
pub record SessionItem : Type 0 where
  pub tenant_id : String
  pub session_id : String
  pub session : Session
  pub status : SessionStatus
  pub created_resources : List CreatedResource
  pub created_agents : List CreatedAgent
  pub error : Option String
  pub updated_at : String

-- the answers 404, 409 and 502
pub data BuildError : Type 0 where
  not_found : BuildError
  conflict : SessionStatus → BuildError
  bad_gateway : String → BuildError

-- the time of the answer, and the text of an exception
pub record Clock : Type 0 where
  pub now : String
  pub cause : RegistryError → String

abbrev pub is_proposed : SessionStatus → Bool
is_proposed proposed = true
is_proposed completed = false
is_proposed failed = false

abbrev pub completed_item : Clock → SessionItem → Approved → SessionItem
completed_item k i r = record i {
  status = completed;
  created_resources = r.created_resources;
  created_agents = r.created_agents;
  updated_at = k.now;
}

abbrev pub failed_item : Clock → SessionItem → RegistryError → SessionItem
failed_item k i e = record i { status = failed; error = some (k.cause e); updated_at = k.now }

module _ ⦃t : RegistryTables⦄ ⦃ts : Table String String SessionItem⦄ where
  pub record Platform : Type 0 where
    pub sessions : ts.Contents
    pub db : Db

  abbrev pub Endpoint : Type 0 → Type 0
  Endpoint A = Exec Platform BuildError A

  unfoldable pub put_session : SessionItem → Endpoint Unit
  put_session i p =
      (ok tt, record p { sessions = ts.put_item p.sessions i.tenant_id i.session_id i })

  abbrev pub found_session : Option SessionItem → Endpoint SessionItem
  found_session none p = (err not_found, p)
  found_session (some i) p = (ok i, p)

  unfoldable pub require_session : String → String → Endpoint SessionItem
  require_session tenant_id session_id p =
      found_session (ts.get_item p.sessions tenant_id session_id) p

  -- the call of the executor, with the exception that its `except` takes
  unfoldable pub execute_session : Approval → Session → Endpoint (Result RegistryError Approved)
  execute_session a session p = (
    ok (execute_approval a session p.db).0,
    record p { db = (execute_approval a session p.db).1 },
  )

  abbrev pub conclude : Clock → SessionItem → Result RegistryError Approved → Endpoint Approved
  conclude k i (ok r) = do put_session (completed_item k i r); pure r
  conclude k i (err e) = do put_session (failed_item k i e); raise (bad_gateway (k.cause e))

  unfoldable pub approve_build : Approval → Clock → String → Endpoint Approved
  approve_build a k session_id = do
    i ← require_session a.tenant_id session_id
    guard (is_proposed i.status) (conflict i.status)
    outcome ← execute_session a i.session
    conclude k i outcome
