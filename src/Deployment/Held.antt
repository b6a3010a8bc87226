-- ===== src/Deployment/Held.antt =====
-- What leaves the approval of a deployment as it is: one rule for each call of the deployment store, and the
-- endpoint itself.
use agent_builder_factory_ap.Base.{
  String, ◌≡◌, refl, sym, subst, ◌∙◌, Option, Result, ok, err, pure, continue, ◌>>=◌, string_key,
  Reads, Result-cases, Reads-outcome, inl, inr,
}
use agent_builder_factory_ap.Registry.Db.{Method}
use agent_builder_factory_ap.Deployment.Models.{DeploymentRecord}
use agent_builder_factory_ap.Deployment.Status.{
  Deployments, registry_tables, Platform, Step, DeploymentError, Message, StageUpdate, in_registry,
  send, put_deployment, get_deployment, require_deployment, update_stage, updated_record,
  record_git_reference,
}
use agent_builder_factory_ap.Deployment.Approve.{
  require_approvable, approve_deployment, Reads-require_deployment, Reads-approvable,
  approvable-Passed,
}
use agent_builder_factory_ap.Deployment.ApproveOnce.{
  with_deployment, approved, approve_passed, refused, stored,
}
use agent_builder_factory_ap.Deployment.Later.{Sealed, Sealed-same, Sealed-put}

module _ ⦃d : Deployments⦄ where
  module _ (a b email : String) where
    -- the action leaves a sealed deployment sealed
    pub record Keeps {A : Type 0} (m : Step A) : Type 0 where
      pub at : (w : Platform) → Sealed a b email w → Sealed a b email (m w).1

    module _ {A : Type 0} where
      pub Keeps-pure : (x : A) → Keeps (pure x)
      unfolding pure
      Keeps-pure x = record { at = λ w s. s }

      pub Keeps-Reads : (m : Step A) → Reads m → Keeps m
      Keeps-Reads m h = record { at = λ w s. subst (Sealed a b email) (sym (h.at w)) s }

      pub Keeps-in_registry : (m : Method A) → Keeps (in_registry m)
      unfolding in_registry
      Keeps-in_registry m = record { at = λ w s. Sealed-same a b email w _ refl s }

    module _ {A B : Type 0} where
      follow :
          (r : Result DeploymentError A) (f : A → Step B) (w : Platform)
          → ((x : A) → Keeps (f x))
          → Sealed a b email w
          → Sealed a b email (continue r f w).1
      follow (ok x) f w k s = (k x).at w s
      follow (err e) f w k s = s

      pub Keeps-bind :
          (m : Step A) (f : A → Step B) → Keeps m → ((x : A) → Keeps (f x)) → Keeps (m >>= f)
      unfolding ◌>>=◌
      Keeps-bind m f h k = record { at = λ w s. follow (m w).0 f (m w).1 k (h.at w s) }

    pub Keeps-send : (m : Message) → Keeps (send m)
    unfolding send
    Keeps-send m = record { at = λ w s. Sealed-same a b email w _ refl s }

    pub Keeps-get : (x y : String) → Keeps (get_deployment x y)
    unfolding get_deployment
    Keeps-get x y = record { at = λ w s. s }

    pub Keeps-require : (x y : String) → Keeps (require_deployment x y)
    Keeps-require x y = Keeps-Reads _ (Reads-require_deployment x y)

    -- a record that is read and written back with other fields
    pub Keeps-rewrite :
        {A : Type 0} (x y : String) (f : DeploymentRecord → DeploymentRecord)
        (g : DeploymentRecord → A)
        → ((r : DeploymentRecord)
            → ((f r).agent_id ≡ r.agent_id)
              × (((f r).deployment_id ≡ r.deployment_id)
                  × (((f r).approval_mode ≡ r.approval_mode)
                      × ((f r).approved_by ≡ r.approved_by))))
        → Keeps (require_deployment x y >>= λ r. put_deployment (f r) >>= λ u. pure (g r))
    unfolding ◌>>=◌ put_deployment pure
    Keeps-rewrite x y f g same = record {
      at = λ w s. elim (Result-cases (require_deployment x y w).0) [
        | inl (r, h) ↦
            let e = Reads-outcome _ w (Reads-require_deployment x y) h in
            let (i, (j, (m, p))) = same r in
            rw e (Sealed-put a b email w x y r (f r) (stored x y w e) i j m (λ k. p ∙ k) s)
        | inr (x', h) ↦ let e = Reads-outcome _ w (Reads-require_deployment x y) h in rw e s
      ];
    }

    pub Keeps-update : (now x y : String) (u : StageUpdate) → Keeps (update_stage now x y u)
    unfolding update_stage updated_record
    Keeps-update now x y u =
        Keeps-rewrite x y (λ r. updated_record r u now) (λ r. updated_record r u now)
          (λ r. (refl, (refl, (refl, refl))))

    pub Keeps-git :
        (now x y branch : String) (pr : Option String)
        → Keeps (record_git_reference now x y branch pr)
    unfolding record_git_reference
    Keeps-git now x y branch pr = Keeps-rewrite x y _ _ (λ r. (refl, (refl, (refl, refl))))

    -- an approval of this deployment is refused; one of another leaves this one alone
    pub Keeps-approve : (now t x y by : String) → Keeps (approve_deployment now t x y by)
    Keeps-approve now t x y by = record {
      at = λ w s. elim (Result-cases (require_approvable t x y w).0) [
        | inl (u, h) ↦
            let p = approvable-Passed x y w t h in
            let e = Reads-outcome (require_approvable t x y) w (Reads-approvable t x y) h in
            subst (λ o. Sealed a b email o.1)
              (sym (approve_passed now t x y by w p.deployment e p.deployment_read))
              (Sealed-same a b email (with_deployment (approved now by p.deployment) w) _ refl (
                Sealed-put a b email w x y p.deployment (approved now by p.deployment)
                  (stored x y w p.deployment_read) refl refl refl (λ k. cc (k, p.unapproved)) s))
        | inr (err', h) ↦
            let e = Reads-outcome (require_approvable t x y) w (Reads-approvable t x y) h in
            subst (λ o. Sealed a b email o.1) (sym (refused now t x y by w e)) s
      ];
    }

    pub ruleset keeps_rules = (
      Keeps-pure, Keeps-bind, Keeps-in_registry, Keeps-send, Keeps-get, Keeps-require, Keeps-update,
    )
