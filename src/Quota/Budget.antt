-- ===== src/Quota/Budget.antt =====
-- What the budget check sees of the costs that were recorded.
use agent_builder_factory_ap.Base.{
  ℕ, ◌+◌, ◌≤◌, String, ◌≡◌, refl, sym, ap, ◌∙◌, subst, Bool, true, false, Option, none, some, List,
  [], ◌∷◌, ◌==◌, ==_sound, ==_refl, if◌then◌else◌, leb, arith, Bool-cases, inl, inr, nat_key,
  string_key,
}
use agent_builder_factory_ap.Table.{Table, get-put_self}
use agent_builder_factory_ap.Quota.{
  Spending, in_period, check_monthly_budget, started, with_cost, record_llm_cost,
}

-- A reply of the model: when its cost is recorded, and the cost, if it is known.
pub record Charge : Type 0 where
  pub at : ℕ
  pub cost_usd : Option ℕ

abbrev amount : Option ℕ → ℕ
amount none = 0
amount (some n) = n

-- the sum of the costs of one period, in a list of charges
unfoldable pub total : (ℕ → String) → String → List Charge → ℕ
total month period [] = 0
total month period (x ∷ xs) =
    if month x.at == period
    then amount x.cost_usd + total month period xs
    else total month period xs

in_period_lem : (period : String) (o : Option String) → in_period period o ≡ true → o ≡ some period
in_period_lem period none h = cc h
in_period_lem period (some p) h = ap some (==_sound p period h)

-- what an item says of a period
abbrev seen : String → Option Spending → ℕ
seen period none = 0
seen period (some s) =
    if in_period period s.current_month_spend_period then s.current_month_spend_usd else 0

abbrev pub or_unspent : Option Spending → Spending
or_unspent none = record { current_month_spend_usd = 0; current_month_spend_period = none }
or_unspent (some s) = s

-- None of the charges, given from the latest to the earliest, is after this time.
abbrev pub Until : ℕ → List Charge → Type 0
Until now [] = Unit
Until now (x ∷ xs) = (x.at ≤ now) × Until x.at xs

-- The calendar: a month that has passed does not come back.
pub record IsCalendar (month : ℕ → String) : Type 0 where
  pub interval : (a b c : ℕ) → a ≤ b → b ≤ c → month a ≡ month c → month b ≡ month a

seen-started :
    (period p : String) (k : ℕ)
    → seen p (some (started period k)) ≡ (if period == p then k + 0 else 0)
seen-started period p k = ground arith

seen-with_cost :
    (period p : String) (k : ℕ) (o : Option Spending)
    → seen p (some (with_cost period k o)) ≡ (if period == p then k + seen period o else 0)
seen-with_cost period p k none = seen-started period p k
seen-with_cost period p k (some s) =
    elim (Bool-cases (in_period period s.current_month_spend_period)) [
      | inl e ↦
          let q = in_period_lem period s.current_month_spend_period e in rw (e, q) (ground arith)
      | inr e ↦ rw e (seen-started period p k)
    ]

with_cost_period :
    (period : String) (k : ℕ) (o : Option Spending)
    → (with_cost period k o).current_month_spend_period ≡ some period
with_cost_period period k none = refl
with_cost_period period k (some s) =
    elim (Bool-cases (in_period period s.current_month_spend_period)) [
      | inl e ↦ rw e (in_period_lem period s.current_month_spend_period e)
      | inr e ↦ rw e refl
    ]

-- The item agrees with the charges so far, and its period is that of a charge.
record Agrees (month : ℕ → String) (now : ℕ) (xs : List Charge) (o : Option Spending) : Type 0 where
  exact : (u : ℕ) → now ≤ u → seen (month u) o ≡ total month (month u) xs
  past :
      (p : String)
      → (or_unspent o).current_month_spend_period ≡ some p
      → (v : ℕ) × ((v ≤ now) × (month v ≡ p))

module _ (month : ℕ → String) (cal : IsCalendar month) where
  seen_zero :
      (p : String) (o : Option Spending)
      → ((or_unspent o).current_month_spend_period ≡ some p → ⊥)
      → seen p o ≡ 0
  seen_zero p none h = refl
  seen_zero p (some s) h = elim (Bool-cases (in_period p s.current_month_spend_period)) [
    | inl e ↦ elim (h (in_period_lem p s.current_month_spend_period e)) [ ]
    | inr e ↦ rw e refl
  ]

  not_back :
      (now u : ℕ) (xs : List Charge) (o : Option Spending)
      → Agrees month now xs o
      → now ≤ u
      → (month now == month u) ≡ false
      → (or_unspent o).current_month_spend_period ≡ some (month u)
      → ⊥
  not_back now u xs o h l f e =
      let (v, (m, w)) = h.past (month u) e in
      let back = cal.interval v now u m l w in cc (f, back, w, ==_refl (month u))

  skipped : (b : Bool) (k n : ℕ) → k ≡ 0 → n ≡ (if b then k + n else n)
  skipped true k n h = omega arith
  skipped false k n h = refl

  Agrees-charge :
      (at now k : ℕ) (xs : List Charge) (o : Option Spending)
      → Agrees month at xs o
      → at ≤ now
      → Agrees month now
          (record { at = at; cost_usd = some k } ∷ xs)
          (some (with_cost (month at) k o))
  unfolding total
  Agrees-charge at now k xs o h l = record {
    exact = λ u m.
        rw (seen-with_cost (month at) (month u) k o) (elim (Bool-cases (month at == month u)) [
          | inl e ↦ rw e (
              ap (λ n. k + n)
                (subst (λ p. seen (month at) o ≡ total month p xs) (==_sound (month at) (month u) e)
                  (h.exact at (omega arith))))
          | inr e ↦ rw e (
              sym (
                sym (h.exact u (omega arith))
                ∙ seen_zero (month u) o (not_back at u xs o h (omega arith) e)))
        ]);
    past = λ p e. (at, (l, cc (e, with_cost_period (month at) k o)));
  }

  -- a charge without a known cost
  Agrees-skip :
      (at now : ℕ) (cost : Option ℕ) (xs : List Charge) (o : Option Spending)
      → Agrees month at xs o
      → at ≤ now
      → amount cost ≡ 0
      → Agrees month now (record { at = at; cost_usd = cost } ∷ xs) o
  unfolding total
  Agrees-skip at now cost xs o h l z = record {
    exact = λ u m.
        h.exact u (omega arith)
        ∙ skipped (month at == month u) (amount cost) (total month (month u) xs) z;
    past = λ p e. let (v, (m, w)) = h.past p e in (v, (omega arith, w));
  }

module _ ⦃t : Table String String Spending⦄ (month : ℕ → String) (tenant_id agent_id : String) where
  -- the charges are recorded one after the other, the last of the list first
  unfoldable pub record_all : List Charge → t.Contents → t.Contents
  record_all [] c = c
  record_all (x ∷ xs) c =
      record_llm_cost (month x.at) tenant_id agent_id x.cost_usd (record_all xs c)

  Agrees-record :
      (at now : ℕ) (cost : Option ℕ) (xs : List Charge) (c : t.Contents)
      → IsCalendar month
      → Agrees month at xs (t.get_item c tenant_id agent_id)
      → at ≤ now
      → Agrees month now
          (record { at = at; cost_usd = cost } ∷ xs)
          (t.get_item (record_llm_cost (month at) tenant_id agent_id cost c) tenant_id agent_id)
  unfolding record_llm_cost
  Agrees-record at now none xs c cal h l =
      Agrees-skip month cal at now none xs (t.get_item c tenant_id agent_id) h l refl
  Agrees-record at now (some k) xs c cal h l = elim (Bool-cases (k == 0)) [
    | inl z ↦ rw z (
        Agrees-skip month cal at now (some k) xs (t.get_item c tenant_id agent_id) h l
          (==_sound k 0 z))
    | inr z ↦
        let o = t.get_item c tenant_id agent_id in
        rw (z, get-put_self t c tenant_id agent_id (with_cost (month at) k o))
          (Agrees-charge month cal at now k xs o h l)
  ]

  Agrees-all :
      (now : ℕ) (xs : List Charge) (c : t.Contents)
      → IsCalendar month
      → Until now xs
      → (or_unspent (t.get_item c tenant_id agent_id)).current_month_spend_period ≡ none
      → Agrees month now xs (t.get_item (record_all xs c) tenant_id agent_id)
  unfolding record_all total
  Agrees-all now [] c cal h e = record {
    exact = λ u m. seen_zero month cal (month u) (t.get_item c tenant_id agent_id) (λ f. cc (e, f));
    past = λ p f. cc (e, f);
  }
  Agrees-all now (x ∷ xs) c cal h e =
      let rest = Agrees-all x.at xs c cal h.1 e in
      Agrees-record x.at now x.cost_usd xs (record_all xs c) cal rest h.0

check_lem :
    (period : String) (o : Option Spending) (budget : ℕ)
    → check_monthly_budget period (or_unspent o) (some budget) ≡ leb (seen period o) budget
unfolding check_monthly_budget
check_lem period none budget = ground arith
check_lem period (some s) budget =
    elim (Bool-cases (in_period period s.current_month_spend_period)) [
      | inl e ↦ rw e refl
      | inr e ↦ rw e (ground arith)
    ]

-- The budget check at a time sees exactly the spending of its month: after any charges, recorded one
-- after the other in the order of their times and none after this time, on an agent without spending,
-- the check allows a request exactly when the sum of the costs of the charges of this month, those of
-- unknown cost left out, is at most the budget. The months are intervals of the clock.
pub budget_sees_the_month :
    ⦃t : Table String String Spending⦄ (month : ℕ → String) (tenant_id agent_id : String)
    (now budget : ℕ) (xs : List Charge) (c : t.Contents)
    → IsCalendar month
    → Until now xs
    → (or_unspent (t.get_item c tenant_id agent_id)).current_month_spend_period ≡ none
    → check_monthly_budget
        (month now)
        (or_unspent (t.get_item (record_all month tenant_id agent_id xs c) tenant_id agent_id))
        (some budget)
      ≡ leb (total month (month now) xs) budget
budget_sees_the_month ⦃t⦄ month tenant_id agent_id now budget xs c cal h e =
    let o = t.get_item (record_all month tenant_id agent_id xs c) tenant_id agent_id in
    let agrees = Agrees-all month tenant_id agent_id now xs c cal h e in
    check_lem (month now) o budget ∙ ap (λ n. leb n budget) (agrees.exact now (omega arith))
