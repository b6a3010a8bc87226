-- ===== src/Deployment/Parks.antt =====
-- A run of a manual deployment parks it for a person.
use agent_builder_factory_ap.Base.{
  String, ◌≡◌, refl, ap, ◌∙◌, Bool, true, false, Option, none, some, List, [], ◌∷◌, Result, ok,
  string_key, bind_known,
}
use agent_builder_factory_ap.Registry.Agents.{Env}
use agent_builder_factory_ap.Deployment.Models.{DeploymentStatus, ApprovalMode, DeploymentRecord}
use agent_builder_factory_ap.Deployment.Gates.{Decision}
use agent_builder_factory_ap.Deployment.Status.{
  Deployments, registry_tables, Platform, DeploymentError, get_deployment,
}
use agent_builder_factory_ap.Deployment.ApproveOnce.{deployment_at}
use agent_builder_factory_ap.Deployment.Simulator.{
  ScanResult, Simulator, advance_stages, run_scan_and_policy_check, settle_policy, after_check,
  run_record, read_and_run, run, park,
}
use agent_builder_factory_ap.Deployment.Leaves.{
  Any, IsTrue, Stored, Leaves, Stored-update, Leaves-then, Leaves-pure,
}

-- the answer of the policy, where the scan has one
abbrev pub policy_in : Option ScanResult → Decision
policy_in none = Decision.pass
policy_in (some scan) = scan.policy_decision

module _ ⦃d : Deployments⦄ (agent_id deployment_id : String) where
  module _ (env : Env) (sim : Simulator) (tenant_id : String) (w : Platform)
      (s : DeploymentStatus) where
    Leaves-advance :
        (stages : List String) (w' : Platform)
        → Stored agent_id deployment_id w s w'
        → Leaves agent_id deployment_id Any w s
            (advance_stages env sim tenant_id agent_id deployment_id stages)
            w'
    unfolding advance_stages
    Leaves-advance [] w' h = Leaves-pure agent_id deployment_id Any w w' s tt tt h
    Leaves-advance (stage ∷ stages) w' h =
        Leaves-then agent_id deployment_id Any Any w w' s s _ _
          (Stored-update agent_id deployment_id env.now _ w w' s h)
          (λ _ _ v k.
            Leaves-then agent_id deployment_id Any Any w v s s _ _
              (Stored-update agent_id deployment_id env.now _ w v s k)
              (λ _ _ v' k'. Leaves-advance stages v' k'))

    Leaves-policy :
        (r : DeploymentRecord) (scan : ScanResult) (x : Decision) (w' : Platform)
        → x ≡ Decision.pass
        → Stored agent_id deployment_id w s w'
        → Leaves agent_id deployment_id IsTrue w s
            (settle_policy env sim tenant_id agent_id deployment_id r scan x)
            w'
    Leaves-policy r scan Decision.block w' e h = cc e
    Leaves-policy r scan Decision.pass w' e h =
        Leaves-then agent_id deployment_id Any IsTrue w w' s s _ _
          (Stored-update agent_id deployment_id env.now _ w w' s h)
          (λ _ _ v k. Leaves-pure agent_id deployment_id IsTrue w v s true refl k)

    Leaves-scan :
        (r : DeploymentRecord) (scan : Option ScanResult) (w' : Platform)
        → policy_in scan ≡ Decision.pass
        → Stored agent_id deployment_id w s w'
        → Leaves agent_id deployment_id IsTrue w s
            (run_scan_and_policy_check env sim tenant_id agent_id deployment_id r scan)
            w'
    unfolding run_scan_and_policy_check
    Leaves-scan r none w' e h =
        Leaves-then agent_id deployment_id Any IsTrue w w' s s _ _ (Leaves-advance _ w' h)
          (λ _ _ v k.
            Leaves-then agent_id deployment_id Any IsTrue w v s s _ _ (Leaves-advance _ v k)
              (λ _ _ v' k'. Leaves-pure agent_id deployment_id IsTrue w v' s true refl k'))
    Leaves-scan r (some scan) w' e h =
        Leaves-then agent_id deployment_id Any IsTrue w w' s s _ _
          (Stored-update agent_id deployment_id env.now _ w w' s h)
          (λ _ _ v1 k1.
            Leaves-then agent_id deployment_id Any IsTrue w v1 s s _ _
              (Stored-update agent_id deployment_id env.now _ w v1 s k1)
              (λ _ _ v2 k2.
                Leaves-then agent_id deployment_id Any IsTrue w v2 s s _ _ (Leaves-advance _ v2 k2)
                  (λ _ _ v3 k3.
                    Leaves-then agent_id deployment_id Any IsTrue w v3 s s _ _
                      (Stored-update agent_id deployment_id env.now _ w v3 s k3)
                      (λ _ _ v4 k4.
                        Leaves-then agent_id deployment_id Any IsTrue w v4 s s _ _
                          (Leaves-advance _ v4 k4)
                          (λ _ _ v5 k5. Leaves-policy r scan scan.policy_decision v5 e k5)))))

  module _ (env : Env) (sim : Simulator) (tenant_id : String) (w : Platform) where
    Leaves-after :
        (r : DeploymentRecord) (s : DeploymentStatus) (m : ApprovalMode) (b : Bool) (w' : Platform)
        → m ≡ ApprovalMode.manual
        → b ≡ true
        → Stored agent_id deployment_id w s w'
        → Leaves agent_id deployment_id Any w DeploymentStatus.pending_approval
            (after_check env sim tenant_id agent_id deployment_id r m b)
            w'
    Leaves-after r s m false w' e f h = cc f
    Leaves-after r s ApprovalMode.automated true w' e f h = cc e
    Leaves-after r s ApprovalMode.manual true w' e f h =
        let parked = Stored-update agent_id deployment_id env.now park w w' s h in
        Leaves-then agent_id deployment_id Any Any w w' DeploymentStatus.pending_approval
          DeploymentStatus.pending_approval _ _ parked
          (λ _ _ v k.
            Leaves-pure agent_id deployment_id Any w v DeploymentStatus.pending_approval tt tt k)

    Leaves-record :
        (scan : Option ScanResult) (r : DeploymentRecord)
        → policy_in scan ≡ Decision.pass
        → r.approval_mode ≡ ApprovalMode.manual
        → Stored agent_id deployment_id w r.status w
        → Leaves agent_id deployment_id Any w DeploymentStatus.pending_approval
            (run_record env sim tenant_id agent_id deployment_id scan (some r))
            w
    Leaves-record scan r e m h =
        Leaves-then agent_id deployment_id Any Any w w r.status DeploymentStatus.pending_approval _
          _ (Leaves-advance env sim tenant_id w r.status _ w h)
          (λ _ _ v k.
            Leaves-then agent_id deployment_id IsTrue Any w v r.status
              DeploymentStatus.pending_approval _ _
              (Leaves-scan env sim tenant_id w r.status r scan v e k)
              (λ b g v' k'. Leaves-after r r.status r.approval_mode b v' m g k'))

    get_deployment-some :
        {r : DeploymentRecord}
        → deployment_at w agent_id deployment_id ≡ some r
        → get_deployment agent_id deployment_id w ≡ (ok (some r), w)
    unfolding get_deployment
    get_deployment-some e = rw e refl

    ran :
        (scan : Option ScanResult) {w' : Platform}
        → read_and_run env sim tenant_id agent_id deployment_id scan w ≡ (ok tt, w')
        → run env sim tenant_id agent_id deployment_id scan w ≡ (ok tt, w')
    unfolding run
    ran scan {w'} e = ap (λ (o : Result DeploymentError Unit × Platform). (ok tt, o.1)) e

    -- A run of a manual deployment whose scan, if there is one, passes the policy ends without an exception
    -- and parks the deployment at PENDING_APPROVAL, unapproved as before, where the registry and the
    -- git provider have not been touched. The deployment is stored under its own key and unapproved.
    pub manual_run_parks :
        (scan : Option ScanResult) (r : DeploymentRecord)
        → deployment_at w agent_id deployment_id ≡ some r
        → r.agent_id ≡ agent_id
        → r.deployment_id ≡ deployment_id
        → r.approved_by ≡ none
        → r.approval_mode ≡ ApprovalMode.manual
        → policy_in scan ≡ Decision.pass
        → Leaves agent_id deployment_id Any w DeploymentStatus.pending_approval
            (run env sim tenant_id agent_id deployment_id scan)
            w
    manual_run_parks scan r found p q u m e =
        let h = Leaves-record scan r e m (record {
          deployment = r;
          found = found;
          own_agent = p;
          own_id = q;
          status = refl;
          unapproved = u;
          same_registry = refl;
          same_messages = refl;
        }) in
        record {
          value = tt;
          good = tt;
          after = h.after;
          outcome = ran scan (
              bind_known (get_deployment agent_id deployment_id)
                (run_record env sim tenant_id agent_id deployment_id scan) w
                (get_deployment-some found)
              ∙ h.outcome);
          stored = h.stored;
        }
