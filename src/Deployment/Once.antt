-- ===== src/Deployment/Once.antt =====
-- A deployment is approved once. The steps that may follow an approval are further approvals, the writes of
-- the pipeline's handlers and of the customer's CI/CD, and the simulator.
use agent_builder_factory_ap.Base.{
  ℕ, String, ◌≡◌, refl, sym, ap, subst, Bool, Option, some, List, [], ◌∷◌, Result, ok, string_key,
  bind_reading-ok,
}
use agent_builder_factory_ap.Table.{get-put_self}
use agent_builder_factory_ap.Registry.Agents.{Env}
use agent_builder_factory_ap.Deployment.Models.{DeploymentRecord}
use agent_builder_factory_ap.Deployment.Gates.{SecurityFinding}
use agent_builder_factory_ap.Deployment.Status.{
  Deployments, registry_tables, Platform, DeploymentError, StageUpdate, update_stage,
  record_git_reference,
}
use agent_builder_factory_ap.Deployment.Enforce.{
  enforce_policy_gate, policy_check, mark_active, mark_failed,
}
use agent_builder_factory_ap.Deployment.Simulator.{ScanResult, Simulator, run, resume_approved}
use agent_builder_factory_ap.Deployment.Approve.{
  require_approvable, approve_checked, approve_deployment, Reads-approvable, approvable-Passed,
}
use agent_builder_factory_ap.Deployment.ApproveOnce.{
  deployment_at, with_deployment, approved, approve_passed, stored, unfolded,
}
use agent_builder_factory_ap.Deployment.Later.{
  IsFiled, Sealed, Sealed-same, IsFiled-put, Refused, Sealed-Refused,
}
use agent_builder_factory_ap.Deployment.Held.{Keeps-update, Keeps-git, Keeps-approve}
use agent_builder_factory_ap.Deployment.Steps.{
  Keeps-enforce, Keeps-check, Keeps-active, Keeps-failed, Keeps-run, Keeps-resume,
}

-- A step after the approval, of any deployment: the endpoint, a write of a stage, the reference of the
-- deployment's commit, the handlers of the workflow, and the two entries of the simulator.
pub data Event : Type 0 where
  approve : String → String → String → String → String → Event
  write_stage : String → String → String → StageUpdate → Event
  write_git : String → String → String → String → Option String → Event
  enforce :
      Env
      → String
      → String
      → String
      → String
      → List SecurityFinding
      → Option (List (String × ℕ))
      → Bool
      → Event
  check : Env → String → String → String → String → Option String → Event
  activate : Env → String → String → String → String → ℕ → Event
  fail : Env → String → String → String → String → Option String → String → Event
  simulate : Env → Simulator → String → String → String → Option ScanResult → Event
  resume : Env → Simulator → String → String → String → Event

module _ ⦃d : Deployments⦄ where
  abbrev pub happen : Event → Platform → Platform
  happen (approve now t a b email) w = (approve_deployment now t a b email w).1
  happen (write_stage now a b u) w = (update_stage now a b u w).1
  happen (write_git now a b branch pr) w = (record_git_reference now a b branch pr w).1
  happen (enforce env t a b by findings scores observed) w =
      (enforce_policy_gate env t a b by findings scores observed w).1
  happen (check env repo t a b pr) w = (policy_check env repo t a b pr w).1
  happen (activate env repo t a b version) w = (mark_active env repo t a b version w).1
  happen (fail env repo t a b stage reason) w = (mark_failed env repo t a b stage reason w).1
  happen (simulate env sim t a b scan) w = (run env sim t a b scan w).1
  happen (resume env sim t a b) w = (resume_approved env sim t a b w).1

  -- the steps, the latest first
  abbrev pub happen_all : List Event → Platform → Platform
  happen_all [] w = w
  happen_all (e ∷ es) w = happen e (happen_all es w)

  module _ (a b email : String) where
    Sealed-happen : (e : Event) (w : Platform) → Sealed a b email w → Sealed a b email (happen e w)
    Sealed-happen (approve now t x y by) = (Keeps-approve a b email now t x y by).at
    Sealed-happen (write_stage now x y u) = (Keeps-update a b email now x y u).at
    Sealed-happen (write_git now x y branch pr) = (Keeps-git a b email now x y branch pr).at
    Sealed-happen (enforce env t x y by findings scores o) =
        (Keeps-enforce a b email env t x y by findings scores o).at
    Sealed-happen (check env repo t x y pr) = (Keeps-check a b email env repo t x y pr).at
    Sealed-happen (activate env repo t x y version) =
        (Keeps-active a b email env repo t x y version).at
    Sealed-happen (fail env repo t x y stage reason) =
        (Keeps-failed a b email env repo t x y stage reason).at
    Sealed-happen (simulate env sim t x y scan) = (Keeps-run a b email env sim t x y scan).at
    Sealed-happen (resume env sim t x y) = (Keeps-resume a b email env sim t x y).at

    Sealed-all :
        (es : List Event) (w : Platform) → Sealed a b email w → Sealed a b email (happen_all es w)
    Sealed-all [] w s = s
    Sealed-all (e ∷ es) w s = Sealed-happen e (happen_all es w) (Sealed-all es w s)

    -- an approval that succeeds seals the deployment
    Sealed-approved :
        (now t : String) (w : Platform) {r' : DeploymentRecord}
        → IsFiled w
        → (approve_deployment now t a b email w).0 ≡ ok r'
        → Sealed a b email (approve_deployment now t a b email w).1
    Sealed-approved now t w f h =
        let (u, (e, _)) =
          bind_reading-ok (require_approvable t a b) (λ _. approve_checked now a b email) w
            (Reads-approvable t a b) (unfolded now t a b email w h) in
        let p =
          approvable-Passed a b w t (ap (λ (o : Result DeploymentError Unit × Platform). o.0) e) in
        let r = approved now email p.deployment in
        let (ka, kb) = f a b p.deployment (stored a b w p.deployment_read) in
        subst (λ o. Sealed a b email o.1)
          (sym (approve_passed now t a b email w p.deployment e p.deployment_read))
          (Sealed-same a b email (with_deployment r w) _ refl (record {
            deployment = r;
            found =
                subst (λ y. deployment_at (with_deployment r w) a y ≡ some r) kb
                  (subst
                    (λ x. deployment_at (with_deployment r w) x p.deployment.deployment_id ≡ some r)
                    ka
                    (get-put_self d.table w.deployments p.deployment.agent_id
                      p.deployment.deployment_id r));
            approver = refl;
            manual = p.manual;
            filed = IsFiled-put a b email r w f;
          }))

  -- After an approval that succeeds, and after any sequence of further approvals, writes of the
  -- pipeline's handlers and of CI/CD, and runs of the simulator, of this and of other deployments:
  -- the deployment still has its first approver, and every further approval of it, by whoever, in
  -- whichever tenant and whenever, fails and changes nothing. It fails with already_approved and the first
  -- approver where it finds the agent and the deployment is still at PENDING_APPROVAL. Every
  -- deployment is stored under its own key to begin with.
  pub approved_once :
      (now t a b email : String) (w : Platform) {r' : DeploymentRecord}
      → IsFiled w
      → (approve_deployment now t a b email w).0 ≡ ok r'
      → (es : List Event) (now' t' email' : String)
      → Refused a b email t' now' email' (happen_all es (approve_deployment now t a b email w).1)
  approved_once now t a b email w f h es now' t' email' =
      Sealed-Refused a b email t' now' email' _
        (Sealed-all a b email es _ (Sealed-approved a b email now t w f h))
