-- ===== src/Quota.antt =====
-- services/agent-runtime/quota.py: the limits on requests, which Redis counts, and the monthly budget,
-- which the agent's item keeps. The clock is a number of seconds; a cost is a number of millionths of a
-- dollar.
pub mod Counters
pub mod Turn
pub mod Rate
pub mod Budget
use agent_builder_factory_ap.Base.{
  ℕ, ◌+◌, ◌/◌, String, Bool, true, false, Option, none, some, List, [], ◌∷◌, Result, ok, err, Exec,
  pure, raise, lift, ◌>>=◌, ◌>>◌, ◌==◌, if◌then◌else◌, nat_key, string_key, ltb, leb,
}
use agent_builder_factory_ap.Table.{Table}
use agent_builder_factory_ap.Quota.Counters.{Label, rpm, rpd, WindowKey, Redis}

-- One of `checks`: its limit, its key, the lifetime of the key and its label.
pub record Check : Type 0 where
  pub limit : Option ℕ
  pub key : WindowKey
  pub ttl : ℕ

-- the request whose limits are checked
pub record Request : Type 0 where
  pub tenant_id : String
  pub agent_id : String
  pub rpm_limit : Option ℕ
  pub rpd_limit : Option ℕ
  pub now : ℕ

abbrev pub seconds : Label → ℕ
seconds rpm = 60
seconds rpd = 86400

abbrev pub lifetime : Label → ℕ
lifetime rpm = 61
lifetime rpd = 90000

abbrev pub limit_of : Label → Request → Option ℕ
limit_of rpm r = r.rpm_limit
limit_of rpd r = r.rpd_limit

abbrev pub key_of : Label → Request → WindowKey
key_of l r = record {
  label = l;
  tenant_id = r.tenant_id;
  agent_id = r.agent_id;
  window = r.now / seconds l;
}

abbrev pub check_of : Label → Request → Check
check_of l r = record { limit = limit_of l r; key = key_of l r; ttl = lifetime l }

-- the tests of a request against the limits; `exceeded l` is the answer `(False, "l_exceeded")`
pub data Verdict : Type 0 where
  allowed : Verdict
  exceeded : Label → Verdict

module _ (r : Redis) where
  abbrev pub expire_first : ℕ → WindowKey → ℕ → ℕ → Exec r.Contents Unit Unit
  expire_first now key ttl count = if count == 1 then r.expire now key ttl else pure tt

  -- one turn of the loop: whether the limit is kept
  abbrev pub count_window : ℕ → WindowKey → ℕ → ℕ → Exec r.Contents Unit Bool
  count_window now key ttl limit = do
    count ← r.incr now key
    expire_first now key ttl count
    pure (leb count limit)

  abbrev pub within : ℕ → Check → Exec r.Contents Unit Bool
  within now c = elim c.limit [ none ↦ pure true | some limit ↦ count_window now c.key c.ttl limit ]

  abbrev pub check_day : Request → Exec r.Contents Unit Verdict
  check_day q = do
    kept ← within q.now (check_of rpd q)
    pure (if kept then Verdict.allowed else Verdict.exceeded rpd)

  -- the loop over the two checks, which stops at a limit that is exceeded
  unfoldable pub check_windows : Request → Exec r.Contents Unit Verdict
  check_windows q = do
    kept ← within q.now (check_of rpm q)
    if kept then check_day q else pure (Verdict.exceeded rpm)

  abbrev pub fail_open : Result Unit Verdict → Verdict
  fail_open (ok v) = v
  fail_open (err e) = Verdict.allowed

  -- an exception of Redis allows the request
  unfoldable pub check_rate_limit : Request → r.Contents → Verdict × r.Contents
  check_rate_limit q c = (fail_open (check_windows q c).0, (check_windows q c).1)

-- The two attributes of the agent's item that hold its spending.
pub record Spending : Type 0 where
  pub current_month_spend_usd : ℕ
  pub current_month_spend_period : Option String

abbrev pub in_period : String → Option String → Bool
in_period period none = false
in_period period (some p) = p == period

-- `period` is the text of `_current_period`
unfoldable pub check_monthly_budget : String → Spending → Option ℕ → Bool
check_monthly_budget period s none = true
check_monthly_budget period s (some budget) =
    if in_period period s.current_month_spend_period
    then leb s.current_month_spend_usd budget
    else true

abbrev pub started : String → ℕ → Spending
started period cost = record {
  current_month_spend_usd = cost;
  current_month_spend_period = some period;
}

-- the conditional ADD, or the SET where its condition fails
abbrev pub with_cost : String → ℕ → Option Spending → Spending
with_cost period cost none = started period cost
with_cost period cost (some s) =
    if in_period period s.current_month_spend_period
    then record s { current_month_spend_usd = s.current_month_spend_usd + cost }
    else started period cost

module _ ⦃t : Table String String Spending⦄ where
  -- `record_llm_cost` where the table answers
  unfoldable pub record_llm_cost : String → String → String → Option ℕ → t.Contents → t.Contents
  record_llm_cost period tenant_id agent_id none c = c
  record_llm_cost period tenant_id agent_id (some cost) c =
      if cost == 0
      then c
      else t.put_item c tenant_id agent_id (with_cost period cost (t.get_item c tenant_id agent_id))
