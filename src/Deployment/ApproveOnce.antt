-- ===== src/Deployment/ApproveOnce.antt =====
-- What the endpoint of an approval does on each side of its guards.
use agent_builder_factory_ap.Base.{
  String, ◌≡◌, refl, subst, true, Option, some, ◌∷◌, ok, err, raise, guard, require_some, ◌>>=◌,
  ◌>>◌, string_key, bind_failed, Option-cases, inl, inr,
}
use agent_builder_factory_ap.Registry.Models.{AgentRecord}
use agent_builder_factory_ap.Registry.Agents.{get_agent}
use agent_builder_factory_ap.Deployment.Models.{DeploymentRecord}
use agent_builder_factory_ap.Deployment.Status.{
  Deployments, registry_tables, Platform, DeploymentError, Message, in_registry, send,
  put_deployment, get_deployment, require_deployment, record_approval,
}
use agent_builder_factory_ap.Deployment.Approve.{
  is_manual, is_pending_approval, require_approvable, approve_deployment, approve_checked,
}

module _ ⦃d : Deployments⦄ where
  abbrev pub deployment_at : Platform → String → String → Option DeploymentRecord
  deployment_at w a b = d.table.get_item w.deployments a b

  pub require_deployment-some :
      (a b : String) (w : Platform) {r : DeploymentRecord}
      → deployment_at w a b ≡ some r
      → require_deployment a b w ≡ (ok r, w)
  unfolding require_deployment get_deployment require_some ◌>>=◌
  require_deployment-some a b w e = rw e refl

  pub stored :
      (a b : String) (w : Platform) {r : DeploymentRecord} {w' : Platform}
      → require_deployment a b w ≡ (ok r, w')
      → deployment_at w a b ≡ some r
  unfolding require_deployment get_deployment require_some ◌>>=◌
  stored a b w {r} {w'} h = elim (Option-cases (deployment_at w a b)) [
    | inl e ↦ cc (
        subst
          (λ (o : Option DeploymentRecord).
            require_some (DeploymentError.deployment_not_found a b) o w ≡ (ok r, w'))
          e h)
    | inr (x, e) ↦ cc (
      e,
      subst
          (λ (o : Option DeploymentRecord).
            require_some (DeploymentError.deployment_not_found a b) o w ≡ (ok r, w'))
          e h,
    )
  ]

  abbrev pub approved : String → String → DeploymentRecord → DeploymentRecord
  approved now email r = record r {
    approved_by = some email;
    approved_at = some now;
    updated_at = now;
  }

  abbrev pub with_deployment : DeploymentRecord → Platform → Platform
  with_deployment r w = record w {
    deployments = d.table.put_item w.deployments r.agent_id r.deployment_id r;
  }

  abbrev pub after : String → String → String → String → Platform → DeploymentRecord → Platform
  after now a b email w r =
      let w' = with_deployment (approved now email r) w in
      record w' { sent = Message.deployment_approved a b email ∷ w'.sent }

  -- the endpoint on a deployment that passes its guards
  pub approve_passed :
      (now t a b email : String) (w : Platform) (r : DeploymentRecord)
      → require_approvable t a b w ≡ (ok tt, w)
      → require_deployment a b w ≡ (ok r, w)
      → approve_deployment now t a b email w ≡ (ok (approved now email r), after now a b email w r)
  unfolding approve_deployment record_approval put_deployment send ◌>>=◌
  approve_passed now t a b email w r e f = rw (e, f) refl

  -- the endpoint on a deployment that someone approved
  pub taken :
      (t a b by : String) (w : Platform) {o : AgentRecord} {r : DeploymentRecord}
      → in_registry (get_agent t a) w ≡ (ok (some o), w)
      → require_deployment a b w ≡ (ok r, w)
      → is_manual r.approval_mode ≡ true
      → is_pending_approval r.status ≡ true
      → r.approved_by ≡ some by
      → require_approvable t a b w ≡ (err (DeploymentError.already_approved b by), w)
  unfolding require_approvable guard raise require_some ◌>>=◌
  taken t a b by w e f m p u = rw (e, f, m, p, u) refl

  pub unfolded :
      (now t a b email : String) (w : Platform) {r : DeploymentRecord}
      → (approve_deployment now t a b email w).0 ≡ ok r
      → ((require_approvable t a b >> approve_checked now a b email) w).0 ≡ ok r
  unfolding approve_deployment
  unfolded now t a b email w h = h

  pub refused :
      (now t a b email : String) (w : Platform) {e : DeploymentError}
      → require_approvable t a b w ≡ (err e, w)
      → approve_deployment now t a b email w ≡ (err e, w)
  unfolding approve_deployment
  refused now t a b email w h =
      bind_failed (require_approvable t a b) (λ _. approve_checked now a b email) w h
