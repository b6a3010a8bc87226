-- ===== src/Deployment/Approve.antt =====
-- app/api/v1/agents.py: approving a deployment that waits for a person.
use agent_builder_factory_ap.Base.{
  String, ◌≡◌, refl, ap, Bool, true, false, Option, none, some, Result, ok, pure, raise, guard,
  require_some, ◌>>=◌, ◌>>◌, string_key, Reads, Reads-guard, reads_rules, bind_reading-ok, guard-ok,
}
use agent_builder_factory_ap.Registry.Db.{Method}
use agent_builder_factory_ap.Registry.Models.{AgentRecord}
use agent_builder_factory_ap.Registry.Agents.{get_agent}
use agent_builder_factory_ap.Registry.Reading.{Reads-get_agent}
use agent_builder_factory_ap.Deployment.Models.{ApprovalMode, DeploymentStatus, DeploymentRecord}
use agent_builder_factory_ap.Deployment.Status.{
  Deployments, registry_tables, Platform, Step, DeploymentError, Message, in_registry, send,
  get_deployment, require_deployment, record_approval,
}

abbrev pub is_manual : ApprovalMode → Bool
is_manual ApprovalMode.manual = true
is_manual ApprovalMode.automated = false

abbrev pub is_pending_approval : DeploymentStatus → Bool
is_pending_approval DeploymentStatus.pending_approval = true
is_pending_approval DeploymentStatus.pending = false
is_pending_approval DeploymentStatus.validating = false
is_pending_approval DeploymentStatus.change_impact = false
is_pending_approval DeploymentStatus.generating_iac = false
is_pending_approval DeploymentStatus.security_scanning = false
is_pending_approval DeploymentStatus.evaluating = false
is_pending_approval DeploymentStatus.terraform_validate = false
is_pending_approval DeploymentStatus.terraform_plan = false
is_pending_approval DeploymentStatus.policy_check = false
is_pending_approval DeploymentStatus.applying = false
is_pending_approval DeploymentStatus.deploying = false
is_pending_approval DeploymentStatus.health_check = false
is_pending_approval DeploymentStatus.active = false
is_pending_approval DeploymentStatus.failed = false
is_pending_approval DeploymentStatus.blocked = false

module _ ⦃d : Deployments⦄ where
  abbrev pub require_unapproved : String → Option String → Step Unit
  require_unapproved deployment_id none = pure tt
  require_unapproved deployment_id (some by) =
      raise (DeploymentError.already_approved deployment_id by)

  -- the guards of the endpoint, in its order
  abbrev pub check_waiting : String → DeploymentRecord → Step Unit
  check_waiting deployment_id r = do
    guard (is_pending_approval r.status)
        (DeploymentError.not_pending_approval deployment_id r.status)
    require_unapproved deployment_id r.approved_by

  abbrev pub check_record : String → DeploymentRecord → Step Unit
  check_record deployment_id r = do
    guard (is_manual r.approval_mode) (DeploymentError.not_applicable deployment_id)
    check_waiting deployment_id r

  abbrev pub check_deployment : String → String → Step Unit
  check_deployment agent_id deployment_id = do
    r ← require_deployment agent_id deployment_id
    check_record deployment_id r

  abbrev pub check_found : String → String → Option AgentRecord → Step Unit
  check_found agent_id deployment_id found = do
    require_some (DeploymentError.agent_missing agent_id) found
    check_deployment agent_id deployment_id

  unfoldable pub require_approvable : String → String → String → Step Unit
  require_approvable tenant_id agent_id deployment_id = do
    found ← in_registry (get_agent tenant_id agent_id)
    check_found agent_id deployment_id found

  abbrev pub approve_checked : String → String → String → String → Step DeploymentRecord
  approve_checked now agent_id deployment_id email = do
    r ← record_approval now agent_id deployment_id email
    send (Message.deployment_approved agent_id deployment_id email)
    pure r

  -- the endpoint; the background task that it adds for the simulated pipeline is `resume_approved` of
  -- Deployment.Simulator, which runs after the answer
  unfoldable pub approve_deployment :
      String → String → String → String → String → Step DeploymentRecord
  approve_deployment now tenant_id agent_id deployment_id email = do
    require_approvable tenant_id agent_id deployment_id
    approve_checked now agent_id deployment_id email

  same-world : {A : Type 0} (m : Method A) (w : Platform) → Reads m → (in_registry m w).1 ≡ w
  unfolding in_registry
  same-world m w h = ap (λ db. record w { db = db }) (h.at w.db)

  pub Reads-in_registry : {A : Type 0} (m : Method A) → Reads m → Reads (in_registry m)
  Reads-in_registry m h = record { at = λ w. same-world m w h }

  Reads-get_deployment : (a b : String) → Reads (get_deployment a b)
  unfolding get_deployment
  Reads-get_deployment a b = record { at = λ w. refl }

  pub Reads-require_deployment : (a b : String) → Reads (require_deployment a b)
  unfolding require_deployment
  Reads-require_deployment a b = search (reads_rules, Reads-get_deployment)

  Reads-unapproved : (b : String) (o : Option String) → Reads (require_unapproved b o)
  Reads-unapproved b none = search reads_rules
  Reads-unapproved b (some by) = search reads_rules

  Reads-check_record : (b : String) (r : DeploymentRecord) → Reads (check_record b r)
  Reads-check_record b r = search (reads_rules, Reads-unapproved)

  pub Reads-approvable : (t a b : String) → Reads (require_approvable t a b)
  unfolding require_approvable
  Reads-approvable t a b =
      search
        (
          reads_rules, Reads-get_agent, Reads-in_registry, Reads-require_deployment,
          Reads-check_record,
        )
        depth 8

  -- what the guards found
  pub record Passed (tenant_id agent_id deployment_id : String) (w : Platform) : Type 0 where
    pub agent : AgentRecord
    pub agent_read : in_registry (get_agent tenant_id agent_id) w ≡ (ok (some agent), w)
    pub deployment : DeploymentRecord
    pub deployment_read : require_deployment agent_id deployment_id w ≡ (ok deployment, w)
    pub waits : is_pending_approval deployment.status ≡ true
    pub manual : is_manual deployment.approval_mode ≡ true
    pub unapproved : deployment.approved_by ≡ none

  module _ (a b : String) (w : Platform) where
    passed-unapproved : (o : Option String) → (require_unapproved b o w).0 ≡ ok tt → o ≡ none
    unfolding raise
    passed-unapproved none h = refl
    passed-unapproved (some by) h = cc h

    passed-waiting :
        (r : DeploymentRecord)
        → (check_waiting b r w).0 ≡ ok tt
        → (is_pending_approval r.status ≡ true) × (r.approved_by ≡ none)
    passed-waiting r h =
        let (u, (e, k)) =
          bind_reading-ok
            (guard (is_pending_approval r.status) (DeploymentError.not_pending_approval b r.status))
            (λ _. require_unapproved b r.approved_by) w
            (Reads-guard (is_pending_approval r.status)
              (DeploymentError.not_pending_approval b r.status))
            h in
        (
          guard-ok (is_pending_approval r.status) (DeploymentError.not_pending_approval b r.status)
              w (ap (λ (o : Result DeploymentError Unit × Platform). o.0) e),
          passed-unapproved r.approved_by k,
        )

    passed-record :
        (r : DeploymentRecord)
        → (check_record b r w).0 ≡ ok tt
        → (is_manual r.approval_mode ≡ true)
          × ((is_pending_approval r.status ≡ true) × (r.approved_by ≡ none))
    passed-record r h =
        let (u, (e, k)) =
          bind_reading-ok (guard (is_manual r.approval_mode) (DeploymentError.not_applicable b))
            (λ _. check_waiting b r) w
            (Reads-guard (is_manual r.approval_mode) (DeploymentError.not_applicable b)) h in
        (
          guard-ok (is_manual r.approval_mode) (DeploymentError.not_applicable b) w
              (ap (λ (o : Result DeploymentError Unit × Platform). o.0) e),
          passed-waiting r k,
        )

    found-Passed :
        (t : String) (found : Option AgentRecord)
        → in_registry (get_agent t a) w ≡ (ok found, w)
        → (check_found a b found w).0 ≡ ok tt
        → Passed t a b w
    unfolding require_some ◌>>=◌
    found-Passed t none e h = cc h
    found-Passed t (some agent) e h =
        let (r, (f, k)) =
          bind_reading-ok (require_deployment a b) (check_record b) w (Reads-require_deployment a b)
            h in
        let (m, (p, n)) = passed-record r k in
        record {
          agent = agent;
          agent_read = e;
          deployment = r;
          deployment_read = f;
          waits = p;
          manual = m;
          unapproved = n;
        }

    pub approvable-Passed : (t : String) → (require_approvable t a b w).0 ≡ ok tt → Passed t a b w
    unfolding require_approvable
    approvable-Passed t h =
        let (found, (e, k)) =
          bind_reading-ok (in_registry (get_agent t a)) (check_found a b) w
            (Reads-in_registry (get_agent t a) (Reads-get_agent t a)) h in
        found-Passed t found e k
