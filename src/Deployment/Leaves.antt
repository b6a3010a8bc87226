-- ===== src/Deployment/Leaves.antt =====
-- Actions that return and leave a deployment stored, with a status: one rule for each way to build one.
use agent_builder_factory_ap.Base.{
  String, ◌≡◌, refl, ap, subst, ◌∙◌, Bool, true, none, some, ok, pure, ◌>>=◌, string_key,
  bind_known,
}
use agent_builder_factory_ap.Table.{get-put_self}
use agent_builder_factory_ap.Deployment.Models.{DeploymentStatus, DeploymentRecord}
use agent_builder_factory_ap.Deployment.Status.{
  Deployments, registry_tables, Platform, Step, StageUpdate, update_stage, updated_record, or_else,
}
use agent_builder_factory_ap.Deployment.ApproveOnce.{deployment_at, with_deployment}
use agent_builder_factory_ap.Deployment.Outcomes.{update_stage_lem}

-- nothing is asked of a value, or that it is true
abbrev pub Any : {A : Type 0} → A → Type 0
Any a = Unit

abbrev pub IsTrue : Bool → Type 0
IsTrue b = b ≡ true

module _ ⦃d : Deployments⦄ (agent_id deployment_id : String) where
  -- The deployment is stored under its own key in the second state, with this status and the approval
  -- that it had, and nothing but the deployments changed since the first.
  pub record Stored (w : Platform) (s : DeploymentStatus) (w' : Platform) : Type 0 where
    pub deployment : DeploymentRecord
    pub found : deployment_at w' agent_id deployment_id ≡ some deployment
    pub own_agent : deployment.agent_id ≡ agent_id
    pub own_id : deployment.deployment_id ≡ deployment_id
    pub status : deployment.status ≡ s
    pub unapproved : deployment.approved_by ≡ none
    pub same_registry : w'.db ≡ w.db
    pub same_messages : w'.sent ≡ w.sent

  -- the action returns a value that is as asked, and leaves the deployment so
  pub record Leaves {A : Type 0} (G : A → Type 0) (w : Platform) (s : DeploymentStatus) (m : Step A)
      (w' : Platform) : Type 0 where
    pub value : A
    pub good : G value
    pub after : Platform
    pub outcome : m w' ≡ (ok value, after)
    pub stored : Stored w s after

  pub Stored-update :
      (now : String) (u : StageUpdate) (w w' : Platform) (s : DeploymentStatus)
      → Stored w s w'
      → Leaves
          (λ _. Unit)
          w
          (or_else u.overall_status s)
          (update_stage now agent_id deployment_id u)
          w'
  unfolding updated_record
  Stored-update now u w w' s h =
      let r' = updated_record h.deployment u now in
      record {
        value = r';
        good = tt;
        after = with_deployment r' w';
        outcome = update_stage_lem now agent_id deployment_id u w' h.found;
        stored = record {
          deployment = r';
          found =
              subst
                (λ y.
                  d.table.get_item
                    (d.table.put_item w'.deployments h.deployment.agent_id
                      h.deployment.deployment_id r')
                    agent_id y
                  ≡ some r')
                h.own_id
                (subst
                  (λ x.
                    d.table.get_item
                      (d.table.put_item w'.deployments h.deployment.agent_id
                        h.deployment.deployment_id r')
                      x h.deployment.deployment_id
                    ≡ some r')
                  h.own_agent
                  (get-put_self d.table w'.deployments h.deployment.agent_id
                    h.deployment.deployment_id r'));
          own_agent = h.own_agent;
          own_id = h.own_id;
          status = ap (or_else u.overall_status) h.status;
          unapproved = h.unapproved;
          same_registry = h.same_registry;
          same_messages = h.same_messages;
        };
      }

  pub Leaves-then :
      {A B : Type 0} (G : A → Type 0) (H : B → Type 0) (w w' : Platform) (s s' : DeploymentStatus)
      (m : Step A) (f : A → Step B)
      → Leaves G w s m w'
      → ((a : A) → G a → (w'' : Platform) → Stored w s w'' → Leaves H w s' (f a) w'')
      → Leaves H w s' (m >>= f) w'
  Leaves-then G H w w' s s' m f h k =
      let rest = k h.value h.good h.after h.stored in
      record {
        value = rest.value;
        good = rest.good;
        after = rest.after;
        outcome = bind_known m f w' h.outcome ∙ rest.outcome;
        stored = rest.stored;
      }

  pub Leaves-pure :
      {A : Type 0} (G : A → Type 0) (w w' : Platform) (s : DeploymentStatus) (a : A)
      → G a
      → Stored w s w'
      → Leaves G w s (pure a) w'
  unfolding pure
  Leaves-pure G w w' s a g h = record {
    value = a;
    good = g;
    after = w';
    outcome = refl;
    stored = h;
  }
