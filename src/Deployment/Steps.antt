-- ===== src/Deployment/Steps.antt =====
-- The handlers of the pipeline and the simulator leave the approval of a deployment as it is.
use agent_builder_factory_ap.Base.{
  ℕ, String, Bool, true, false, Option, none, some, List, [], ◌∷◌, string_key,
}
use agent_builder_factory_ap.Registry.Agents.{Env}
use agent_builder_factory_ap.Deployment.Models.{ApprovalMode, DeploymentRecord}
use agent_builder_factory_ap.Deployment.Gates.{SecurityFinding, Decision}
use agent_builder_factory_ap.Deployment.Status.{Deployments, registry_tables, get_deployment}
use agent_builder_factory_ap.Deployment.Enforce.{
  announce, persist, enforce_policy_gate, settle_pull_request, check_gate, policy_check,
  mark_active, mark_failed,
}
use agent_builder_factory_ap.Deployment.Simulator.{
  ScanResult, Simulator, advance_stages, merge, close, block, finish, settle_policy,
  run_scan_and_policy_check, after_check, run_record, run, finish_found, resume_approved,
}
use agent_builder_factory_ap.Deployment.Held.{
  Keeps, Keeps-bind, Keeps-get, Keeps-update, keeps_rules,
}

module _ ⦃d : Deployments⦄ where
  module _ (a b email : String) where
    Keeps-announce : (o : Bool) (t x reason : String) → Keeps a b email (announce o t x reason)
    Keeps-announce false t x reason = search keeps_rules
    Keeps-announce true t x reason = search keeps_rules

    module _ (env : Env) (t x y by : String) where
      Keeps-persist :
          (o : Bool) (c : Decision) (reason : String)
          → Keeps a b email (persist env t x y by o c reason)
      Keeps-persist o Decision.block reason = search (keeps_rules, Keeps-announce) depth 8
      Keeps-persist o Decision.pass reason = search keeps_rules

      pub Keeps-enforce :
          (findings : List SecurityFinding) (scores : Option (List (String × ℕ))) (o : Bool)
          → Keeps a b email (enforce_policy_gate env t x y by findings scores o)
      unfolding enforce_policy_gate
      Keeps-enforce findings scores o = search (keeps_rules, Keeps-persist)

    module _ (env : Env) (repo t x y : String) where
      Keeps-settle :
          (pr : Option String) (c : Decision) (reason : String)
          → Keeps a b email (settle_pull_request env repo t x y pr c reason)
      Keeps-settle none c reason = search keeps_rules
      Keeps-settle (some pr) Decision.block reason = search keeps_rules
      Keeps-settle (some pr) Decision.pass reason = search keeps_rules

      Keeps-gate :
          (r : DeploymentRecord) (failure : Option String)
          → Keeps a b email (check_gate env repo t x y r failure)
      Keeps-gate r (some reason) = search (keeps_rules, Keeps-announce) depth 8
      Keeps-gate r none = search (keeps_rules, Keeps-enforce)

      pub Keeps-check : (pr : Option String) → Keeps a b email (policy_check env repo t x y pr)
      unfolding policy_check
      Keeps-check pr = search (keeps_rules, Keeps-gate, Keeps-settle)

      pub Keeps-active : (version : ℕ) → Keeps a b email (mark_active env repo t x y version)
      unfolding mark_active
      Keeps-active version = search keeps_rules

      pub Keeps-failed :
          (stage : Option String) (reason : String)
          → Keeps a b email (mark_failed env repo t x y stage reason)
      unfolding mark_failed
      Keeps-failed stage reason = search keeps_rules

    module _ (env : Env) (sim : Simulator) (t x y : String) where
      Keeps-stages : (ss : List String) → Keeps a b email (advance_stages env sim t x y ss)
      unfolding advance_stages
      Keeps-stages [] = search keeps_rules
      Keeps-stages (s ∷ ss) = Keeps-bind a b email _ _ (Keeps-update a b email env.now x y _) (λ r.
          Keeps-bind a b email _ _ (Keeps-update a b email env.now x y _) (λ r'. Keeps-stages ss))

      Keeps-merge : (pr repo : Option String) → Keeps a b email (merge env sim t x y pr repo)
      Keeps-merge none repo = search keeps_rules
      Keeps-merge (some pr) none = search keeps_rules
      Keeps-merge (some pr) (some repo) = search keeps_rules

      Keeps-close :
          (pr repo : Option String) (reason : String)
          → Keeps a b email (close env sim t x y pr repo reason)
      Keeps-close none repo reason = search keeps_rules
      Keeps-close (some pr) none reason = search keeps_rules
      Keeps-close (some pr) (some repo) reason = search keeps_rules

      Keeps-block :
          (r : DeploymentRecord) (reason : String) → Keeps a b email (block env sim t x y r reason)
      unfolding block
      Keeps-block r reason = search (keeps_rules, Keeps-close) depth 8

      Keeps-finish : (r : DeploymentRecord) → Keeps a b email (finish env sim t x y r)
      unfolding finish
      Keeps-finish r = search (keeps_rules, Keeps-merge, Keeps-stages) depth 8

      Keeps-policy :
          (r : DeploymentRecord) (scan : ScanResult) (c : Decision)
          → Keeps a b email (settle_policy env sim t x y r scan c)
      Keeps-policy r scan Decision.block = search (keeps_rules, Keeps-block)
      Keeps-policy r scan Decision.pass = search keeps_rules

      Keeps-scan :
          (r : DeploymentRecord) (scan : Option ScanResult)
          → Keeps a b email (run_scan_and_policy_check env sim t x y r scan)
      unfolding run_scan_and_policy_check
      Keeps-scan r none = search (keeps_rules, Keeps-stages)
      Keeps-scan r (some scan) = search (keeps_rules, Keeps-stages, Keeps-policy) depth 12

      Keeps-after :
          (r : DeploymentRecord) (mode : ApprovalMode) (passed : Bool)
          → Keeps a b email (after_check env sim t x y r mode passed)
      Keeps-after r mode false = search keeps_rules
      Keeps-after r ApprovalMode.manual true = search keeps_rules
      Keeps-after r ApprovalMode.automated true = Keeps-finish r

      Keeps-record :
          (scan : Option ScanResult) (found : Option DeploymentRecord)
          → Keeps a b email (run_record env sim t x y scan found)
      Keeps-record scan none = search keeps_rules
      Keeps-record scan (some r) =
          search (keeps_rules, Keeps-stages, Keeps-scan, Keeps-after) depth 8

      pub Keeps-run : (scan : Option ScanResult) → Keeps a b email (run env sim t x y scan)
      unfolding run
      Keeps-run scan = record {
        at =
            (Keeps-bind a b email (get_deployment x y) (run_record env sim t x y scan)
              (Keeps-get a b email x y) (Keeps-record scan)).at;
      }

      Keeps-finish_found :
          (found : Option DeploymentRecord) → Keeps a b email (finish_found env sim t x y found)
      Keeps-finish_found none = search keeps_rules
      Keeps-finish_found (some r) = Keeps-finish r

      pub Keeps-resume : Keeps a b email (resume_approved env sim t x y)
      unfolding resume_approved
      Keeps-resume = record {
        at =
            (Keeps-bind a b email (get_deployment x y) (finish_found env sim t x y)
              (Keeps-get a b email x y) Keeps-finish_found).at;
      }
