-- ===== src/Planner/BuildOnce.antt =====
-- A session is approved once.
use agent_builder_factory_ap.Base.{
  String, ◌≡◌, refl, sym, subst, false, some, Result, ok, err, pure, raise, guard, ◌>>=◌,
  string_key,
}
use agent_builder_factory_ap.Table.{Table, get-put_self}
use agent_builder_factory_ap.Registry.Models.{RegistryError}
use agent_builder_factory_ap.Registry.Db.{RegistryTables}
use agent_builder_factory_ap.Planner.Executor.{Approved, Approval, execute_approval}
use agent_builder_factory_ap.Planner.Build.{
  SessionStatus, proposed, completed, failed, SessionItem, BuildError, conflict, Clock, is_proposed,
  Platform, put_session, require_session, execute_session, conclude, approve_build,
}

abbrev pub status_after : Result BuildError Approved → SessionStatus
status_after (ok r) = completed
status_after (err e) = failed

module _ ⦃t : RegistryTables⦄ ⦃ts : Table String String SessionItem⦄ where
  -- the session's item has this status
  record HasStatus (tenant_id session_id : String) (s : SessionStatus) (p : Platform) : Type 0 where
    item : SessionItem
    found : ts.get_item p.sessions tenant_id session_id ≡ some item
    status : item.status ≡ s

  put_session-HasStatus :
      (i : SessionItem) (p : Platform)
      → HasStatus i.tenant_id i.session_id i.status (put_session i p).1
  unfolding put_session
  put_session-HasStatus i p = record {
    item = i;
    found = get-put_self ts p.sessions i.tenant_id i.session_id i;
    status = refl;
  }

  conclude-HasStatus :
      (k : Clock) (i : SessionItem) (o : Result RegistryError Approved) (p : Platform)
      → HasStatus i.tenant_id i.session_id (status_after (conclude k i o p).0) (conclude k i o p).1
  unfolding ◌>>=◌ put_session pure raise
  conclude-HasStatus k i (ok r) p = put_session-HasStatus _ p
  conclude-HasStatus k i (err e) p = put_session-HasStatus _ p

  approve_build-HasStatus :
      (a : Approval) (k : Clock) (i : SessionItem) (p : Platform)
      → ts.get_item p.sessions a.tenant_id i.session_id ≡ some i
      → i.tenant_id ≡ a.tenant_id
      → i.status ≡ proposed
      → HasStatus a.tenant_id i.session_id
          (status_after (approve_build a k i.session_id p).0)
          (approve_build a k i.session_id p).1
  unfolding approve_build ◌>>=◌ require_session guard execute_session
  approve_build-HasStatus a k i p f e s =
      let o = execute_approval a i.session p.db in
      let q : Platform = record p { db = o.1 } in
      let Closed : String → Type 0 = λ j.
        HasStatus j i.session_id (status_after (conclude k i o.0 q).0) (conclude k i o.0 q).1 in
      rw (f, s) (subst Closed e (conclude-HasStatus k i o.0 q))

  refused :
      (a : Approval) (k : Clock) (id : String) (s : SessionStatus) (p : Platform)
      → is_proposed s ≡ false
      → HasStatus a.tenant_id id s p
      → approve_build a k id p ≡ (err (conflict s), p)
  unfolding approve_build ◌>>=◌ require_session guard
  refused a k id s p n h = rw (h.found, h.status, n) refl

  status_after-closed : (r : Result BuildError Approved) → is_proposed (status_after r) ≡ false
  status_after-closed (ok r) = refl
  status_after-closed (err e) = refl

  -- After the approval of a session that is stored as proposed, in its own tenant, every further approval
  -- of it in that tenant, whatever its decisions, stores and clock, answers 409 and changes nothing, also
  -- where the first one failed partway; the 409 names the session completed exactly when the first one
  -- returned, and failed otherwise.
  pub session_is_approved_once :
      (a b : Approval) (k l : Clock) (i : SessionItem) (p : Platform)
      → ts.get_item p.sessions a.tenant_id i.session_id ≡ some i
      → i.tenant_id ≡ a.tenant_id
      → i.status ≡ proposed
      → b.tenant_id ≡ a.tenant_id
      → approve_build b l i.session_id (approve_build a k i.session_id p).1 ≡ (
        err (conflict (status_after (approve_build a k i.session_id p).0)),
        (approve_build a k i.session_id p).1,
      )
  session_is_approved_once a b k l i p f e s same =
      let (r, q) = approve_build a k i.session_id p in
      refused b l i.session_id (status_after r) q (status_after-closed r) (
        subst (λ j. HasStatus j i.session_id (status_after r) q) (sym same)
          (approve_build-HasStatus a k i p f e s))
