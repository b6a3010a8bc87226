-- ===== src/Tests/Quota.antt =====
-- Witnesses on a Redis in memory, and on the costs of two months.
use agent_builder_factory_ap.Base.{
  ℕ, ◌+◌, ◌≤◌, String, ◌≡◌, refl, Option, none, some, List, [], ◌∷◌, Memᴰ, Result, ok, ◌==◌,
  if◌then◌else◌, ltb, leb, arith, string_key,
}
use agent_builder_factory_ap.Table.Assoc.{assoc_table}
use agent_builder_factory_ap.Quota.Counters.{
  rpm, WindowKey, window_key, Counter, live, incremented, expiring, Redis,
}
use agent_builder_factory_ap.Quota.{Request, Spending, check_monthly_budget, key_of, limit_of}
use agent_builder_factory_ap.Quota.Turn.{Answers}
use agent_builder_factory_ap.Quota.Rate.{admitted, admissions_are_bounded}
use agent_builder_factory_ap.Quota.Budget.{
  Charge, total, record_all, or_unspent, IsCalendar, budget_sees_the_month,
}

abbrev pub answer : ℕ → Result Unit ℕ
answer n = ok n

pub sent : (m n : ℕ) → answer m ≡ answer n → n ≡ m
sent m n e = cc e

abbrev pub memory : Redis
memory = record {
  Contents = WindowKey → Option Counter;
  lookup = λ c k. c k;
  incr = λ now k c. (
    ok (incremented (live now (c k))).value,
    λ j. if k == j then some (incremented (live now (c k))) else c j,
  );
  expire = λ now k s c. (ok tt, λ j. if k == j then expiring (now + s) (live now (c k)) else c j);
  incr-return = λ now k c n e. (sent (incremented (live now (c k))).value n e, λ j. refl);
  expire-return = λ now k s c e j. refl;
}

memory-Answers : Answers memory
memory-Answers = record {
  incr = λ now k c. ((incremented (live now (c k))).value, refl);
  expire = λ now k s c. refl;
}

abbrev request : ℕ → Request
request now = record {
  tenant_id = "t1";
  agent_id = "support";
  rpm_limit = some 2;
  rpd_limit = some 1000;
  now = now;
}

abbrev window : WindowKey
window = record { label = rpm; tenant_id = "t1"; agent_id = "support"; window = 2 }

abbrev requests : List Request
requests = request 120 ∷ request 130 ∷ request 140 ∷ []

requests_limited : (q : Request) → Memᴰ q requests → key_of rpm q ≡ window → limit_of rpm q ≡ some 2
requests_limited q (Memᴰ.head e) f = rw e refl
requests_limited q (Memᴰ.tail (Memᴰ.head e)) f = rw e refl
requests_limited q (Memᴰ.tail (Memᴰ.tail (Memᴰ.head e))) f = rw e refl
requests_limited q (Memᴰ.tail (Memᴰ.tail (Memᴰ.tail m))) f = elim m [ ]

admissions_are_bounded_example : admitted memory window requests (λ j. none) ≤ 2
admissions_are_bounded_example =
    admissions_are_bounded memory window 2 requests (λ j. none) memory-Answers requests_limited refl

abbrev month : ℕ → String
month now = if ltb now 100 then "2026-01" else "2026-02"

month-IsCalendar : IsCalendar month
month-IsCalendar = record { interval = λ a b c l m e. ground arith }

abbrev charges : List Charge
charges =
    record { at = 120; cost_usd = some 7 }
    ∷ record { at = 110; cost_usd = none }
    ∷ record { at = 105; cost_usd = some 5 }
    ∷ record { at = 40; cost_usd = some 900 }
    ∷ []

abbrev unspent : Spending
unspent = record { current_month_spend_usd = 0; current_month_spend_period = none }

budget_sees_the_month_example :
    check_monthly_budget
      (month 130)
      (or_unspent (
        assoc_table.get_item
          (record_all ⦃t = assoc_table⦄ month "t1" "support" charges
            (("t1", "support", unspent) ∷ []))
          "t1"
          "support"))
      (some 10)
    ≡ leb (total month (month 130) charges) 10
budget_sees_the_month_example =
    budget_sees_the_month ⦃t = assoc_table⦄ month "t1" "support" 130 10 charges
      (("t1", "support", unspent) ∷ []) month-IsCalendar
      (omega arith, (omega arith, (omega arith, (omega arith, tt)))) refl
