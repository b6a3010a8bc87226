-- ===== src/Runtime/Gate.antt =====
-- auth_middleware of services/agent-runtime/main.py: what stands in front of the endpoints. The texts of
-- the answers are left out, as are the source address and the reason of a rate limit's event.
use agent_builder_factory_ap.Base.{
  ℕ, String, Bool, true, false, ◌||◌, not, Option, none, some, List, [], ◌∷◌, Result, ok, err,
  contains, ◌==◌, if◌then◌else◌, string_key,
}
use text.Mathlib.Text.{starts_with}
use agent_builder_factory_ap.Registry.Models.{AgentRecord}
use agent_builder_factory_ap.Authentication.{AuthContext}
use agent_builder_factory_ap.Tools.Policy.{Effects, write_audit_event}
use agent_builder_factory_ap.Quota.Counters.{Redis}
use agent_builder_factory_ap.Quota.{
  Request, Verdict, Spending, check_rate_limit, check_monthly_budget,
}
use agent_builder_factory_ap.Runtime.Jwt.{Authorization, JwtServices, authenticate_any}

abbrev pub auth_exempt_paths : List String
auth_exempt_paths = "/health" ∷ "/config" ∷ []

-- the limits of agent_config, which the process loads once
pub record Limits : Type 0 where
  pub rate_limit_rpm : Option ℕ
  pub rate_limit_rpd : Option ℕ
  pub monthly_budget_usd : Option ℕ

-- A request: its path and header, the time, the month, and what the lookup of the agent's record returns
-- at that time.
pub record HttpRequest : Type 0 where
  pub path : String
  pub authorization : Authorization
  pub now : ℕ
  pub period : String
  pub agent_record : Result String AgentRecord

pub record Credentials : Type 0 where
  pub secret : String → String
  pub jwt : JwtServices

-- the request goes on to its endpoint, with the context of its caller unless its path is exempt, or is
-- answered with a status
pub data Outcome : Type 0 where
  exempt : Outcome
  admitted : AuthContext → Outcome
  status : ℕ → Outcome

abbrev pub has_limit : Option ℕ → Bool
has_limit none = false
has_limit (some n) = true

abbrev pub spending_of : AgentRecord → Spending
spending_of a = record {
  current_month_spend_usd = a.current_month_spend_usd;
  current_month_spend_period = a.current_month_spend_period;
}

-- the endpoints that cost money
abbrev pub is_limited : String → Bool
is_limited path = path == "/chat" || starts_with path "/approvals/"

module _ (r : Redis) where
  pub record GateState : Type 0 where
    pub counters : r.Contents
    pub effects : Effects

  -- an answer, with its audit event
  unfoldable pub refuse_with : String → AgentRecord → ℕ → GateState → Outcome × GateState
  refuse_with event_type a code s = (
    Outcome.status code,
    record s { effects = (write_audit_event event_type a.agent_id "denied" none s.effects).1 },
  )

  abbrev pub check_budget :
      Limits → HttpRequest → AgentRecord → AuthContext → GateState → Outcome × GateState
  check_budget l q a ctx s =
      if check_monthly_budget q.period (spending_of a) l.monthly_budget_usd
      then (Outcome.admitted ctx, s)
      else refuse_with "budget.exceeded" a 402 s

  abbrev pub rated : Limits → HttpRequest → AgentRecord → AuthContext → Request
  rated l q a ctx = record {
    tenant_id = ctx.tenant_id;
    agent_id = a.agent_id;
    rpm_limit = l.rate_limit_rpm;
    rpd_limit = l.rate_limit_rpd;
    now = q.now;
  }

  abbrev pub after_rate :
      Limits → HttpRequest → AgentRecord → AuthContext → Verdict → GateState → Outcome × GateState
  after_rate l q a ctx Verdict.allowed s = check_budget l q a ctx s
  after_rate l q a ctx (Verdict.exceeded window) s = refuse_with "rate_limit.exceeded" a 429 s

  abbrev pub check_limits :
      Limits → HttpRequest → AgentRecord → AuthContext → GateState → Outcome × GateState
  check_limits l q a ctx s =
      if has_limit l.rate_limit_rpm || has_limit l.rate_limit_rpd
      then after_rate l q a ctx (check_rate_limit r (rated l q a ctx) s.counters).0
          (record s { counters = (check_rate_limit r (rated l q a ctx) s.counters).1 })
      else check_budget l q a ctx s

  abbrev pub with_context :
      Limits → HttpRequest → AgentRecord → Option AuthContext → GateState → Outcome × GateState
  with_context l q a none s = refuse_with "auth.failed" a 401 s
  with_context l q a (some ctx) s =
      if not (a.tenant_id == ctx.tenant_id)
      then refuse_with "auth.tenant_mismatch" a 403 s
      else if is_limited q.path
      then check_limits l q a ctx s
      else (Outcome.admitted ctx, s)

  abbrev pub with_record :
      Credentials
      → Limits
      → HttpRequest
      → Result String AgentRecord
      → GateState
      → Outcome × GateState
  with_record c l q (err e) s = (Outcome.status 500, s)
  with_record c l q (ok a) s =
      with_context l q a (authenticate_any c.secret c.jwt q.now a q.authorization) s

  unfoldable pub auth_middleware :
      Credentials → Limits → HttpRequest → GateState → Outcome × GateState
  auth_middleware c l q s =
      if contains auth_exempt_paths q.path
      then (Outcome.exempt, s)
      else with_record c l q q.agent_record s
