-- ===== src/Tools/Clearance.antt =====
-- What the policy engine's consent means: the tool's entry allows it at a risk that needs no approval.
use agent_builder_factory_ap.Base.{
  String, ◌≡◌, refl, subst, Bool, true, false, Option, none, some, List, Result, ok, err, pure,
  continue, ◌>>=◌, if◌then◌else◌, string_key, ◌⊎◌, inl, inr, Bool-cases,
}
use agent_builder_factory_ap.Tools.Policy.{
  ToolPolicy, RiskLevel, PolicyDecision, Reason, ToolError, Effects, write_audit_event, risk_level,
  requires_approval, policy_of, or_default, decision_at, decision_by, decision_for, check, act_on,
  enforce,
}
use agent_builder_factory_ap.Tools.Executor.{Toolbox, ToolCall, same_id, permit}

-- The agent's policy names the tool, allows it, and puts it at a risk that needs no approval.
pub record Cleared (policies : List ToolPolicy) (tool_id : String) : Type 0 where
  pub policy : ToolPolicy
  pub listed : policy_of policies tool_id ≡ some policy
  pub allowed : policy.allowed ≡ some true
  pub level : RiskLevel
  pub rated : risk_level (or_default policy.risk "LOW") ≡ some level
  pub unattended : requires_approval level ≡ false

allowed-cases : (o : Option Bool) → or_default o false ≡ true → o ≡ some true
allowed-cases none h = cc
allowed-cases (some b) h = cc

decision : Bool → Bool → Reason → PolicyDecision
decision a b r = record { allowed = a; requires_approval = b; reason = r }

act_on-cases :
    (id : String) (a b : Bool) (r : Reason) (s : Effects)
    → (act_on id (decision a b r) s).0 ≡ ok tt
    → (a ≡ true) × (b ≡ false)
unfolding ◌>>=◌ write_audit_event decision
act_on-cases id true false r s h = (refl, refl)
act_on-cases id true true r s h = cc
act_on-cases id false b r s h = cc

act_on-ok :
    (id : String) (d : PolicyDecision) (s : Effects)
    → (act_on id d s).0 ≡ ok tt
    → (d.allowed ≡ true) × (d.requires_approval ≡ false)
unfolding decision
act_on-ok id d s h = act_on-cases id d.allowed d.requires_approval d.reason s h

decision_at-unattended :
    (l : RiskLevel) → (decision_at l).requires_approval ≡ false → requires_approval l ≡ false
decision_at-unattended RiskLevel.low h = refl
decision_at-unattended RiskLevel.medium h = refl
decision_at-unattended RiskLevel.high h = cc
decision_at-unattended RiskLevel.destructive h = cc

abbrev Granted : PolicyDecision → Type 0
Granted d = (d.allowed ≡ true) × (d.requires_approval ≡ false)

decision_by-Granted :
    (id : String) (a : Bool) (l : Option RiskLevel) (d : PolicyDecision)
    → decision_by id a l ≡ ok d
    → Granted d
    → (a ≡ true) × ((r : RiskLevel) × ((l ≡ some r) × (requires_approval r ≡ false)))
decision_by-Granted id false l d h (g, k) = cc (h, g)
decision_by-Granted id true none d h (g, k) = cc h
decision_by-Granted id true (some r) d h (g, k) =
    (refl, (r, (refl, decision_at-unattended r (cc (h, k)))))

decision_for-Granted :
    (ps : List ToolPolicy) (id : String) (o : Option ToolPolicy) (d : PolicyDecision)
    → policy_of ps id ≡ o
    → decision_for id o ≡ ok d
    → Granted d
    → Cleared ps id
decision_for-Granted ps id none d e h (g, k) = cc (h, g)
decision_for-Granted ps id (some p) d e h g =
    let (a, (l, (r, u))) =
      decision_by-Granted id (or_default p.allowed false) (risk_level (or_default p.risk "LOW")) d h
        g in
    record {
      policy = p;
      listed = e;
      allowed = allowed-cases p.allowed a;
      level = l;
      rated = r;
      unattended = u;
    }

continue-act_on :
    (ps : List ToolPolicy) (id : String) (r : Result ToolError PolicyDecision) (s : Effects)
    → check ps id ≡ r
    → (continue r (act_on id) s).0 ≡ ok tt
    → Cleared ps id
unfolding check
continue-act_on ps id (err x) s e h = cc h
continue-act_on ps id (ok d) s e h =
    decision_for-Granted ps id (policy_of ps id) d refl e (act_on-ok id d s h)

enforce-ok :
    (ps : List ToolPolicy) (id : String) (s : Effects) → (enforce ps id s).0 ≡ ok tt → Cleared ps id
unfolding enforce ◌>>=◌
enforce-ok ps id s h = continue-act_on ps id (check ps id) s refl h

pub permit-ok :
    (box : Toolbox) (approved : Option String) (call : ToolCall) (s : Effects)
    → (permit box approved call s).0 ≡ ok tt
    → (same_id call.id approved ≡ true) ⊎ Cleared box.policies call.name
permit-ok box approved call s h = elim (Bool-cases (same_id call.id approved)) [
  | inl e ↦ inl e
  | inr e ↦ inr (
      enforce-ok box.policies call.name s
        (subst (λ b. ((if b then pure tt else enforce box.policies call.name) s).0 ≡ ok tt) e h))
]
