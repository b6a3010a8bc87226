-- ===== src/Deployment/Later.antt =====
-- A deployment that was approved stays approved by the same person, whatever runs on it afterwards.
use agent_builder_factory_ap.Base.{
  String, ◌≡◌, sym, ap, subst, ◌∙◌, Bool, true, ◌&&◌, some, ok, err, ◌==◌, ==_sound, string_key,
  Reads-outcome, Bool-cases, Result-cases, inl, inr, arith,
}
use agent_builder_factory_ap.Table.{get-put_other}
use agent_builder_factory_ap.Registry.Models.{AgentRecord}
use agent_builder_factory_ap.Registry.Agents.{get_agent}
use agent_builder_factory_ap.Deployment.Models.{DeploymentRecord}
use agent_builder_factory_ap.Deployment.Status.{
  Deployments, registry_tables, Platform, DeploymentError, in_registry,
}
use agent_builder_factory_ap.Deployment.Approve.{
  is_manual, is_pending_approval, require_approvable, approve_deployment, Reads-approvable,
  approvable-Passed,
}
use agent_builder_factory_ap.Deployment.ApproveOnce.{
  deployment_at, with_deployment, require_deployment-some, taken, refused, stored,
}

pub both : (p q : Bool) → p && q ≡ true → (p ≡ true) × (q ≡ true)
both p q h = ground arith

module _ ⦃d : Deployments⦄ where
  -- every deployment is stored under its own key
  abbrev pub IsFiled : Platform → Type 0
  IsFiled w =
      (x y : String) (r : DeploymentRecord)
      → deployment_at w x y ≡ some r
      → (r.agent_id ≡ x) × (r.deployment_id ≡ y)

  module _ (a b email : String) where
    -- the manual deployment is approved by this person
    pub record Sealed (w : Platform) : Type 0 where
      pub deployment : DeploymentRecord
      pub found : deployment_at w a b ≡ some deployment
      pub approver : deployment.approved_by ≡ some email
      pub manual : is_manual deployment.approval_mode ≡ true
      pub filed : IsFiled w

    pub Sealed-same : (w w' : Platform) → w'.deployments ≡ w.deployments → Sealed w → Sealed w'
    Sealed-same w w' e s = record {
      deployment = s.deployment;
      found = subst (λ c. d.table.get_item c a b ≡ some s.deployment) (sym e) s.found;
      approver = s.approver;
      manual = s.manual;
      filed = λ x y r h. s.filed x y r (subst (λ c. d.table.get_item c x y ≡ some r) e h);
    }

    pub IsFiled-put :
        (r : DeploymentRecord) (w : Platform) → IsFiled w → IsFiled (with_deployment r w)
    IsFiled-put r w f x y z h = elim (Bool-cases (r.agent_id == x && r.deployment_id == y)) [
      | inl e ↦
          let (i, j) = both (r.agent_id == x) (r.deployment_id == y) e in
          let same : r ≡ z =
            cc (rw (d.table.get-put w.deployments r.agent_id r.deployment_id r x y, e) at h) in
          (
            ap (λ k. k.agent_id) (sym same) ∙ ==_sound r.agent_id x i,
            ap (λ k. k.deployment_id) (sym same) ∙ ==_sound r.deployment_id y j,
          )
      | inr e ↦
          f x y z (sym (get-put_other d.table w.deployments r.agent_id r.deployment_id r x y e) ∙ h)
    ]

    -- A stored deployment is replaced by one of the same key and mode, which keeps the approval that it
    -- has.
    pub Sealed-put :
        (w : Platform) (x y : String) (r r' : DeploymentRecord)
        → deployment_at w x y ≡ some r
        → r'.agent_id ≡ r.agent_id
        → r'.deployment_id ≡ r.deployment_id
        → r'.approval_mode ≡ r.approval_mode
        → (r.approved_by ≡ some email → r'.approved_by ≡ some email)
        → Sealed w
        → Sealed (with_deployment r' w)
    Sealed-put w x y r r' e ia ib im keep s =
        elim (Bool-cases (r'.agent_id == a && r'.deployment_id == b)) [
          | inl k ↦
              let (i, j) = both (r'.agent_id == a) (r'.deployment_id == b) k in
              let (fx, fy) = s.filed x y r e in
              let xa : x ≡ a = sym fx ∙ (sym ia ∙ ==_sound r'.agent_id a i) in
              let yb : y ≡ b = sym fy ∙ (sym ib ∙ ==_sound r'.deployment_id b j) in
              let here : deployment_at w a b ≡ some r =
                subst (λ z. deployment_at w z b ≡ some r) xa
                  (subst (λ z. deployment_at w x z ≡ some r) yb e) in
              let same : s.deployment ≡ r = cc (s.found, here) in
              record {
                deployment = r';
                found = rw (d.table.get-put w.deployments r'.agent_id r'.deployment_id r' a b, k);
                approver = keep (ap (λ z. z.approved_by) (sym same) ∙ s.approver);
                manual = ap is_manual (im ∙ ap (λ z. z.approval_mode) (sym same)) ∙ s.manual;
                filed = IsFiled-put r' w s.filed;
              }
          | inr k ↦ record {
            deployment = s.deployment;
            found =
                get-put_other d.table w.deployments r'.agent_id r'.deployment_id r' a b k ∙ s.found;
            approver = s.approver;
            manual = s.manual;
            filed = IsFiled-put r' w s.filed;
          }
        ]

    -- on a sealed deployment the guards of the endpoint never pass
    never_approvable :
        (t : String) (w : Platform)
        → Sealed w
        → (e : DeploymentError) × (require_approvable t a b w ≡ (err e, w))
    never_approvable t w s = elim (Result-cases (require_approvable t a b w).0) [
      | inl (u, h) ↦
          let p = approvable-Passed a b w t h in
          cc (stored a b w p.deployment_read, s.found, p.unapproved, s.approver)
      | inr (e, h) ↦ (e, Reads-outcome (require_approvable t a b) w (Reads-approvable t a b) h)
    ]

    -- Who calls the endpoint, in which tenant and when, it refuses and changes nothing: with
    -- already_approved and the first approver where it finds the agent and the deployment still waits.
    pub record Refused (t now email' : String) (w : Platform) : Type 0 where
      pub error : DeploymentError
      pub outcome : approve_deployment now t a b email' w ≡ (err error, w)
      pub sealed : Sealed w
      pub reason :
          (o : AgentRecord)
          → in_registry (get_agent t a) w ≡ (ok (some o), w)
          → is_pending_approval sealed.deployment.status ≡ true
          → error ≡ DeploymentError.already_approved b email

    pub Sealed-Refused : (t now email' : String) (w : Platform) → Sealed w → Refused t now email' w
    Sealed-Refused t now email' w s =
        let (e, h) = never_approvable t w s in
        record {
          error = e;
          outcome = refused now t a b email' w h;
          sealed = s;
          reason = λ o f p. cc (
            h,
            taken t a b email w f (require_deployment-some a b w s.found) s.manual p s.approver,
          );
        }
