-- ===== src/Deployment/Outcomes.antt =====
-- What the decision of the policy gate leaves behind on the deployment and on the agent.
use agent_builder_factory_ap.Base.{
  ℕ, String, ◌≡◌, refl, sym, subst, Bool, true, false, Option, some, List, ◌∷◌, Result, ok, pure,
  ◌>>=◌, ◌>>◌, string_key, bind_known,
}
use agent_builder_factory_ap.Table.{get-put_self}
use agent_builder_factory_ap.Registry.Models.{AgentStatus, AgentRecord}
use agent_builder_factory_ap.Registry.Db.{RegistryTables, Db}
use agent_builder_factory_ap.Registry.Agents.{Env, put_agent, require_agent}
use agent_builder_factory_ap.Registry.Pipeline.{fallback_status, mark_deployment_blocked}
use agent_builder_factory_ap.Deployment.Models.{DeploymentStatus, DeploymentRecord}
use agent_builder_factory_ap.Deployment.Gates.{SecurityFinding, Decision, PolicyGateResult}
use agent_builder_factory_ap.Deployment.Status.{
  Deployments, registry_tables, Platform, DeploymentError, Message, StageUpdate, in_registry, send,
  put_deployment, update_stage, updated_record,
}
use agent_builder_factory_ap.Deployment.Enforce.{
  decide, announce, blocked_update, passed_update, persist, enforce_policy_gate,
}
use agent_builder_factory_ap.Deployment.ApproveOnce.{
  deployment_at, require_deployment-some, with_deployment,
}

abbrev pub status_after : Decision → DeploymentStatus
status_after Decision.block = DeploymentStatus.blocked
status_after Decision.pass = DeploymentStatus.applying

module _ ⦃t : RegistryTables⦄ where
  abbrev blocked_agent : Env → String → AgentRecord → AgentRecord
  blocked_agent env by o = record o {
    status = fallback_status o.live_version AgentStatus.blocked;
    updated_by = by;
    updated_at = env.now;
  }

  mark_deployment_blocked_lem :
      (env : Env) (tenant_id agent_id by : String) (db : Db) {o : AgentRecord}
      → require_agent tenant_id agent_id db ≡ (ok o, db)
      → mark_deployment_blocked env tenant_id agent_id by db ≡ (
        ok (blocked_agent env by o),
        record db {
          agents = t.agents.put_item db.agents o.tenant_id o.agent_id (blocked_agent env by o);
        },
      )
  unfolding mark_deployment_blocked put_agent ◌>>=◌
  mark_deployment_blocked_lem env tenant_id agent_id by db e = rw e refl

module _ ⦃d : Deployments⦄ where
  -- the deployment `r` and the agent `o` after the gate's result `g`
  pub record Enforced (w : Platform) (r : DeploymentRecord) (o : AgentRecord) (g : PolicyGateResult)
      (out : Result DeploymentError PolicyGateResult × Platform) : Type 0 where
    pub answer : out.0 ≡ ok g
    pub deployment : DeploymentRecord
    pub deployment_stored : deployment_at out.1 r.agent_id r.deployment_id ≡ some deployment
    pub deployment_status : deployment.status ≡ status_after g.decision
    pub passed_keeps : g.decision ≡ Decision.pass → out.1.db ≡ w.db
    pub blocked_agent_stored :
        g.decision ≡ Decision.block
        → (a : AgentRecord) × ((d.registry.agents.get_item out.1.db.agents o.tenant_id o.agent_id
              ≡ some a)
            × ((a.live_version ≡ o.live_version)
                × (a.status ≡ fallback_status o.live_version AgentStatus.blocked)))

  pub update_stage_lem :
      (now a b : String) (u : StageUpdate) (w : Platform) {r : DeploymentRecord}
      → deployment_at w a b ≡ some r
      → update_stage now a b u w
        ≡ (ok (updated_record r u now), with_deployment (updated_record r u now) w)
  unfolding update_stage put_deployment ◌>>=◌
  update_stage_lem now a b u w e = rw (require_deployment-some a b w e) refl

  announced : Bool → String → String → String → Platform → Platform
  announced false tenant_id deployment_id reason w = w
  announced true tenant_id deployment_id reason w = record w {
    sent = Message.blocked_metric tenant_id ∷ Message.block_event deployment_id reason ∷ w.sent;
  }

  announce_lem :
      (observed : Bool) (t b reason : String) (w : Platform)
      → announce observed t b reason w ≡ (ok tt, announced observed t b reason w)
  unfolding send announced ◌>>=◌
  announce_lem false t b reason w = refl
  announce_lem true t b reason w = refl

  announced-db :
      (observed : Bool) (t b reason : String) (w : Platform)
      → (announced observed t b reason w).db ≡ w.db
  unfolding announced
  announced-db false t b reason w = refl
  announced-db true t b reason w = refl

  announced-deployments :
      (observed : Bool) (t b reason : String) (w : Platform)
      → (announced observed t b reason w).deployments ≡ w.deployments
  unfolding announced
  announced-deployments false t b reason w = refl
  announced-deployments true t b reason w = refl

  module _ (env : Env) (tenant_id agent_id deployment_id by : String) where
    in_registry_lem :
        (w : Platform) {o : AgentRecord}
        → require_agent tenant_id agent_id w.db ≡ (ok o, w.db)
        → in_registry (mark_deployment_blocked env tenant_id agent_id by) w ≡ (
          ok (blocked_agent env by o),
          record w {
            db = record (w.db) {
              agents =
                  d.registry.agents.put_item w.db.agents o.tenant_id o.agent_id
                    (blocked_agent env by o);
            };
          },
        )
    unfolding in_registry
    in_registry_lem w e = rw (mark_deployment_blocked_lem env tenant_id agent_id by w.db e) refl

    module _ (r : DeploymentRecord) (o : AgentRecord) where
      noted : StageUpdate → Platform → Platform
      noted u w = with_deployment (updated_record r u env.now) w

      persist-pass :
          (observed : Bool) (reason : String) (w : Platform)
          → deployment_at w agent_id deployment_id ≡ some r
          → persist env tenant_id agent_id deployment_id by observed Decision.pass reason w
            ≡ (ok tt, noted (passed_update reason) w)
      unfolding noted ◌>>=◌
      persist-pass observed reason w e =
          rw (update_stage_lem env.now agent_id deployment_id (passed_update reason) w e) refl

      taken_down : Platform → Platform
      taken_down w = record w {
        db = record (w.db) {
          agents =
              d.registry.agents.put_item w.db.agents o.tenant_id o.agent_id
                (blocked_agent env by o);
        };
      }

      persist-block :
          (observed : Bool) (reason : String) (w : Platform)
          → deployment_at w agent_id deployment_id ≡ some r
          → require_agent tenant_id agent_id w.db ≡ (ok o, w.db)
          → persist env tenant_id agent_id deployment_id by observed Decision.block reason w ≡ (
            ok tt,
            taken_down (
                noted
                  (blocked_update reason)
                  (announced observed tenant_id deployment_id reason w)),
          )
      unfolding noted taken_down announced send ◌>>=◌
      persist-block false reason w e f =
          rw
            (
              update_stage_lem env.now agent_id deployment_id (blocked_update reason) w e,
              in_registry_lem (noted (blocked_update reason) w) f,
            )
            refl
      persist-block true reason w e f =
          let w' = announced true tenant_id deployment_id reason w in
          rw
            (
              update_stage_lem env.now agent_id deployment_id (blocked_update reason) w' e,
              in_registry_lem (noted (blocked_update reason) w') f,
            )
            refl

      blocked-Enforced :
          (w w' : Platform) (g : PolicyGateResult)
          → g.decision ≡ Decision.block
          → w'.db ≡ w.db
          → Enforced w r o g (ok g, taken_down (noted (blocked_update g.reason) w'))
      unfolding taken_down noted updated_record
      blocked-Enforced w w' g b e = record {
        answer = refl;
        deployment = updated_record r (blocked_update g.reason) env.now;
        deployment_stored =
            get-put_self d.table w'.deployments r.agent_id r.deployment_id
              (updated_record r (blocked_update g.reason) env.now);
        deployment_status = cc b;
        passed_keeps = λ p. cc (p, b);
        blocked_agent_stored = λ _. (
          blocked_agent env by o,
          (
            get-put_self d.registry.agents w'.db.agents o.tenant_id o.agent_id
                (blocked_agent env by o),
            (refl, refl),
          ),
        );
      }

      passed-Enforced :
          (w : Platform) (g : PolicyGateResult)
          → g.decision ≡ Decision.pass
          → Enforced w r o g (ok g, noted (passed_update g.reason) w)
      unfolding noted updated_record
      passed-Enforced w g p = record {
        answer = refl;
        deployment = updated_record r (passed_update g.reason) env.now;
        deployment_stored =
            get-put_self d.table w.deployments r.agent_id r.deployment_id
              (updated_record r (passed_update g.reason) env.now);
        deployment_status = cc p;
        passed_keeps = λ _. refl;
        blocked_agent_stored = λ b. cc (p, b);
      }

      settle :
          (observed : Bool) (g : PolicyGateResult) (w : Platform) (x : Decision)
          → g.decision ≡ x
          → deployment_at w agent_id deployment_id ≡ some r
          → require_agent tenant_id agent_id w.db ≡ (ok o, w.db)
          → Enforced w r o g
              ((persist env tenant_id agent_id deployment_id by observed x g.reason >> pure g) w)
      unfolding pure
      settle observed g w Decision.block b e f =
          subst (Enforced w r o g)
            (sym (
              bind_known
                (persist env tenant_id agent_id deployment_id by observed Decision.block g.reason)
                (λ _. pure g) w (persist-block observed g.reason w e f)))
            (blocked-Enforced w (announced observed tenant_id deployment_id g.reason w) g b
              (announced-db observed tenant_id deployment_id g.reason w))
      settle observed g w Decision.pass p e f =
          subst (Enforced w r o g)
            (sym (
              bind_known
                (persist env tenant_id agent_id deployment_id by observed Decision.pass g.reason)
                (λ _. pure g) w (persist-pass observed g.reason w e)))
            (passed-Enforced w g p)

    -- For a stored deployment and an agent that is found, the enforcement returns the gates' result. On
    -- BLOCK the deployment becomes BLOCKED and the agent keeps its live version, with status ACTIVE
    -- if there is one and BLOCKED if not; on PASS the deployment becomes APPLYING, whatever its approval
    -- mode, and the registry is left alone.
    pub gate_outcome :
        (findings : List SecurityFinding) (scores : Option (List (String × ℕ))) (observed : Bool)
        (w : Platform) {r : DeploymentRecord} {o : AgentRecord}
        → deployment_at w agent_id deployment_id ≡ some r
        → require_agent tenant_id agent_id w.db ≡ (ok o, w.db)
        → Enforced w r o
            (decide findings scores)
            (enforce_policy_gate env tenant_id agent_id deployment_id by findings scores observed w)
    unfolding enforce_policy_gate
    gate_outcome findings scores observed w {r} {o} e f =
        settle r o observed (decide findings scores) w (decide findings scores).decision refl e f
