-- ===== src/Quota/Rate.antt =====
-- How many requests the rate limit lets through in one window.
use agent_builder_factory_ap.Base.{
  ℕ, suc, ◌+◌, ◌≤◌, ◌≡◌, refl, sym, ap, ◌∙◌, subst, Bool, true, false, ◌&&◌, none, some, List, [],
  ◌∷◌, Memᴰ, Result, ok, pure, bind_known, ◌==◌, ==_sound, if◌then◌else◌, arith, ◌⊎◌, inl, inr,
  nat_key,
}
use agent_builder_factory_ap.Quota.Counters.{Label, rpm, rpd, WindowKey, window_key, Redis}
use agent_builder_factory_ap.Quota.Turn.{Answers, Inv, Inv-weaken, turn}
use agent_builder_factory_ap.Quota.{
  Request, limit_of, key_of, check_of, Verdict, within, check_day, check_windows, check_rate_limit,
}

abbrev pub is_allowed : Verdict → Bool
is_allowed Verdict.allowed = true
is_allowed (Verdict.exceeded l) = false

-- the number of these requests that are let through and count in the window
unfoldable pub admitted : (r : Redis) → WindowKey → List Request → r.Contents → ℕ
admitted r k [] c = 0
admitted r k (q ∷ qs) c =
    let rest = admitted r k qs (check_rate_limit r q c).1 in
    if is_allowed (check_rate_limit r q c).0 && key_of k.label q == k then suc rest else rest

module _ (r : Redis) (a : Answers r) (k : WindowKey) (limit : ℕ) where
  Label-cases : (l : Label) → (l ≡ rpm) ⊎ (l ≡ rpd)
  Label-cases rpm = inl refl
  Label-cases rpd = inr refl

  -- the window is one of the minutes or one of the days
  split_label :
      (q : Request)
      → (((key_of k.label q == k) ≡ (key_of rpm q == k)) × ((key_of rpd q == k) ≡ false))
        ⊎ (((key_of k.label q == k) ≡ (key_of rpd q == k)) × ((key_of rpm q == k) ≡ false))
  split_label q = elim (Label-cases k.label) [
    | inl e ↦ inl (rw e refl, rw e refl)
    | inr e ↦ inr (rw e refl, rw e refl)
  ]

  Inv-if :
      (w : Bool) (n : ℕ) (c : r.Contents)
      → Inv r a k limit (if w then suc n else n) c
      → Inv r a k limit n c
  Inv-if true n c h = Inv-weaken r a k limit n c h
  Inv-if false n c h = h

  Inv-twice :
      (kept w d m : Bool) (n : ℕ) (c : r.Contents)
      → ((m ≡ w) × (d ≡ false)) ⊎ ((m ≡ d) × (w ≡ false))
      → Inv r a k limit
          (if kept && d then suc (if w then suc n else n) else (if w then suc n else n))
          c
      → Inv r a k limit (if kept && m then suc n else n) c
  Inv-twice true w d m n c (inl (e, f)) h = rw e (
      subst
        (λ x.
          Inv r a k limit (if x then suc (if w then suc n else n) else (if w then suc n else n)) c)
        f h)
  Inv-twice true w d m n c (inr (e, f)) h = rw e (
      subst
        (λ x.
          Inv r a k limit (if d then suc (if x then suc n else n) else (if x then suc n else n)) c)
        f h)
  Inv-twice false w d m n c s h = Inv-if w n c h

  configured :
      (l : Label) (q : Request)
      → (key_of k.label q ≡ k → limit_of k.label q ≡ some limit)
      → (key_of l q == k) ≡ true
      → limit_of l q ≡ some limit
  configured l q s f =
      let e = ==_sound (key_of l q) k f in
      subst (λ l'. key_of l' q ≡ k → limit_of l' q ≡ some limit) (sym (ap (λ x. x.label) e)) s e

  is_allowed-day :
      (b m : Bool)
      → (is_allowed (if b then Verdict.allowed else Verdict.exceeded rpd) && m) ≡ (b && m)
  is_allowed-day true m = refl
  is_allowed-day false m = refl

  -- what a request does to the count of the window
  record Served (q : Request) (n : ℕ) (o : Result Unit Verdict × r.Contents) : Type 0 where
    verdict : Verdict
    after : r.Contents
    outcome : o ≡ (ok verdict, after)
    held : Inv r a k limit (if is_allowed verdict && key_of k.label q == k then suc n else n) after

  after_first_turn :
      (q : Request) (n : ℕ) (c c1 : r.Contents) (kept : Bool)
      → (key_of k.label q ≡ k → limit_of k.label q ≡ some limit)
      → within r q.now (check_of rpm q) c ≡ (ok kept, c1)
      → Inv r a k limit (if kept && key_of rpm q == k then suc n else n) c1
      → Served q n (check_windows r q c)
  unfolding check_windows pure
  after_first_turn q n c c1 false s e h = record {
    verdict = Verdict.exceeded rpm;
    after = c1;
    outcome =
        bind_known (within r q.now (check_of rpm q))
          (λ kept. if kept then check_day r q else pure (Verdict.exceeded rpm)) c e;
    held = h;
  }
  after_first_turn q n c c1 true s e h =
      let t =
        turn r a k limit rpd q (if key_of rpm q == k then suc n else n) c1 (configured rpd q s) h in
      record {
        verdict = if t.kept then Verdict.allowed else Verdict.exceeded rpd;
        after = t.after;
        outcome =
            bind_known (within r q.now (check_of rpm q))
              (λ kept. if kept then check_day r q else pure (Verdict.exceeded rpm)) c e
            ∙ bind_known (within r q.now (check_of rpd q))
                (λ kept. pure (if kept then Verdict.allowed else Verdict.exceeded rpd)) c1
                t.outcome;
        held = rw (is_allowed-day t.kept (key_of k.label q == k)) (
            Inv-twice t.kept (key_of rpm q == k) (key_of rpd q == k) (key_of k.label q == k) n
              t.after (split_label q) t.held);
      }

  served :
      (q : Request) (n : ℕ) (c : r.Contents)
      → (key_of k.label q ≡ k → limit_of k.label q ≡ some limit)
      → Inv r a k limit n c
      → Served q n (check_windows r q c)
  served q n c s h =
      let t = turn r a k limit rpm q n c (configured rpm q s) h in
      after_first_turn q n c t.after t.kept s t.outcome t.held

  shifted :
      (b : Bool) (n rest : ℕ)
      → (if b then suc n else n) + rest ≤ limit
      → n + (if b then suc rest else rest) ≤ limit
  shifted true n rest h = omega arith
  shifted false n rest h = h

  bounded_from :
      (qs : List Request) (n : ℕ) (c : r.Contents)
      → ((q : Request) → Memᴰ q qs → key_of k.label q ≡ k → limit_of k.label q ≡ some limit)
      → Inv r a k limit n c
      → n + admitted r k qs c ≤ limit
  unfolding admitted check_rate_limit
  bounded_from [] n c s h = let u = h.bounded in omega arith
  bounded_from (q ∷ qs) n c s h =
      let x = served q n c (s q (Memᴰ.head refl)) h in
      let b = is_allowed x.verdict && key_of k.label q == k in
      let rest =
        bounded_from qs (if b then suc n else n) x.after (λ q' m. s q' (Memᴰ.tail m)) x.held in
      rw x.outcome (shifted b n (admitted r k qs x.after) rest)

-- In a window of the clock, a minute or a day, of a tenant's agent, no sequence of requests of any
-- agents has more requests of that window let through than the limit, where Redis answers every
-- call, the requests of the window all have that limit, and the window's counter is not there
-- before.
pub admissions_are_bounded :
    (r : Redis) (k : WindowKey) (limit : ℕ) (qs : List Request) (c : r.Contents)
    → Answers r
    → ((q : Request) → Memᴰ q qs → key_of k.label q ≡ k → limit_of k.label q ≡ some limit)
    → r.lookup c k ≡ none
    → admitted r k qs c ≤ limit
admissions_are_bounded r k limit qs c a s e =
    let h =
      bounded_from r a k limit qs 0 c s
        (record { counted = omega arith; bounded = omega arith; lasting = rw e refl }) in
    omega arith
