-- ===== src/Tools/Policy.antt =====
-- services/agent-runtime/tool_policy.py: which tools an agent may call, and at what risk.
use agent_builder_factory_ap.Base.{
  String, Bool, true, false, not, Option, none, some, List, [], ◌∷◌, Result, ok, err, Exec, pure,
  raise, lift, ◌>>=◌, ◌>>◌, ◌==◌, if◌then◌else◌, string_key,
}

pub data RiskLevel : Type 0 where
  low : RiskLevel
  medium : RiskLevel
  high : RiskLevel
  destructive : RiskLevel

-- `RiskLevel(text)`; no level, where that raises ValueError
abbrev pub risk_level : String → Option RiskLevel
risk_level s =
    if s == "LOW"
    then some RiskLevel.low
    else if s == "MEDIUM"
    then some RiskLevel.medium
    else if s == "HIGH"
    then some RiskLevel.high
    else if s == "DESTRUCTIVE"
    then some RiskLevel.destructive
    else none

abbrev pub requires_approval : RiskLevel → Bool
requires_approval RiskLevel.low = false
requires_approval RiskLevel.medium = false
requires_approval RiskLevel.high = true
requires_approval RiskLevel.destructive = true

-- An entry of tool_policies; the keys `allowed` and `risk` may be missing.
pub record ToolPolicy : Type 0 where
  pub tool : String
  pub allowed : Option Bool
  pub risk : Option String

-- The texts of the decisions.
pub data Reason : Type 0 where
  not_in_policy : String → Reason
  disabled : String → Reason
  needs_approval : RiskLevel → Reason
  permitted : Reason

pub record PolicyDecision : Type 0 where
  pub allowed : Bool
  pub requires_approval : Bool
  pub reason : Reason

pub data ToolError : Type 0 where
  denied : String → Reason → ToolError
  approval_required : String → ToolError
  invalid_risk : String → ToolError
  lambda_error : String → ToolError

abbrev or_earlier : Option ToolPolicy → Option ToolPolicy → Option ToolPolicy
or_earlier none p = p
or_earlier (some q) p = some q

-- `{p["tool"]: p for p in tool_policies}`, where a later entry replaces an earlier one
unfoldable pub policy_of : List ToolPolicy → String → Option ToolPolicy
policy_of [] tool_id = none
policy_of (p ∷ ps) tool_id =
    or_earlier (policy_of ps tool_id) (if p.tool == tool_id then some p else none)

abbrev pub or_default {ℓ} : {A : Type ℓ} → Option A → A → A
or_default none d = d
or_default (some a) d = a

abbrev pub decision_at : RiskLevel → PolicyDecision
decision_at risk =
    if requires_approval risk
    then record { allowed = true; requires_approval = true; reason = Reason.needs_approval risk }
    else record { allowed = true; requires_approval = false; reason = Reason.permitted }

abbrev pub decision_by : String → Bool → Option RiskLevel → Result ToolError PolicyDecision
decision_by tool_id false level =
    ok (record { allowed = false; requires_approval = false; reason = Reason.disabled tool_id })
decision_by tool_id true none = err (ToolError.invalid_risk tool_id)
decision_by tool_id true (some risk) = ok (decision_at risk)

abbrev pub decision_for : String → Option ToolPolicy → Result ToolError PolicyDecision
decision_for tool_id none =
    ok
      (record { allowed = false; requires_approval = false; reason = Reason.not_in_policy tool_id })
decision_for tool_id (some p) =
    decision_by tool_id (or_default p.allowed false) (risk_level (or_default p.risk "LOW"))

unfoldable pub check : List ToolPolicy → String → Result ToolError PolicyDecision
check policies tool_id = decision_for tool_id (policy_of policies tool_id)

-- An audit event; the tenant, the agent and the principal are those of the runtime.
pub record AuditEvent : Type 0 where
  pub event_type : String
  pub resource : String
  pub result : String
  pub reason : Option Reason

-- A call of the Lambda of a tool of this agent.
pub record Invocation : Type 0 where
  pub tool_id : String
  pub payload : String

-- What the runtime has done to the outside, the latest first.
pub record Effects : Type 0 where
  pub audit : List AuditEvent
  pub invocations : List Invocation

unfoldable pub write_audit_event :
    String → String → String → Option Reason → Exec Effects ToolError Unit
write_audit_event event_type resource result reason s =
    let e : AuditEvent = record {
      event_type = event_type;
      resource = resource;
      result = result;
      reason = reason;
    } in
    (ok tt, record s { audit = e ∷ s.audit })

abbrev pub act_on : String → PolicyDecision → Exec Effects ToolError Unit
act_on tool_id d =
    if not d.allowed
    then (write_audit_event "tool.denied" tool_id "denied" (some d.reason)
        >> raise (ToolError.denied tool_id d.reason))
    else if d.requires_approval
    then (write_audit_event "human.approval.requested" tool_id "pending" (some d.reason)
        >> raise (ToolError.approval_required tool_id))
    else pure tt

unfoldable pub enforce : List ToolPolicy → String → Exec Effects ToolError Unit
enforce policies tool_id = do d ← lift (check policies tool_id); act_on tool_id d
