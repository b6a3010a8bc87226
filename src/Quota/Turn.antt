-- ===== src/Quota/Turn.antt =====
-- What one turn of the rate limit's loop does to the counter of a window.
use agent_builder_factory_ap.Base.{
  ℕ, suc, ◌+◌, ◌*◌, ◌/◌, ◌≤◌, ◌<◌, ◌≡◌, refl, sym, ap, ◌∙◌, subst, Bool, true, false, ◌&&◌, Option,
  none, some, ok, pure, bind_known, ◌>>◌, pair_eq, ◌==◌, ==_sound, if◌then◌else◌, leb, arith,
  Bool-cases, inl, inr, nat_key,
}
use agent_builder_factory_ap.Quota.Counters.{
  Label, rpm, rpd, WindowKey, window_key, Counter, is_before, live, incremented, expiring, Redis,
}
use agent_builder_factory_ap.Quota.{
  Request, seconds, lifetime, limit_of, key_of, check_of, expire_first, count_window, within,
}

-- Redis answers every call.
pub record Answers (r : Redis) : Type 0 where
  pub incr : (now : ℕ) (k : WindowKey) (c : r.Contents) → (n : ℕ) × ((r.incr now k c).0 ≡ ok n)
  pub expire : (now : ℕ) (k : WindowKey) (s : ℕ) (c : r.Contents) → (r.expire now k s c).0 ≡ ok tt

abbrev pub value_of : Option Counter → ℕ
value_of none = 0
value_of (some c) = c.value

abbrev pub outlives : ℕ → Option ℕ → Bool
outlives stop none = true
outlives stop (some e) = leb stop e

-- the counter does not expire before this time
abbrev pub lasts : ℕ → Option Counter → Bool
lasts stop none = true
lasts stop (some c) = outlives stop c.expires_at

before_lem :
    (now stop : ℕ) (e : Option ℕ) → now < stop → outlives stop e ≡ true → is_before now e ≡ true
before_lem now stop none l h = refl
before_lem now stop (some e) l h = ground arith

live_lem : (now stop : ℕ) (o : Option Counter) → now < stop → lasts stop o ≡ true → live now o ≡ o
live_lem now stop none l h = refl
live_lem now stop (some c) l h = rw (before_lem now stop c.expires_at l h) refl

value_lem : (o : Option Counter) → (incremented o).value ≡ suc (value_of o)
value_lem none = refl
value_lem (some c) = refl

lasts_lem :
    (stop : ℕ) (o : Option Counter) → lasts stop o ≡ true → lasts stop (some (incremented o)) ≡ true
lasts_lem stop none h = refl
lasts_lem stop (some c) h = h

lifetime_lem :
    (l : Label) (now : ℕ)
    → leb ((now / seconds l) * seconds l + seconds l) (now + lifetime l) ≡ true
lifetime_lem rpm now = ground arith
lifetime_lem rpd now = ground arith

stop_lem : (l : Label) (now : ℕ) → now < (now / seconds l) * seconds l + seconds l
stop_lem rpm now = omega arith
stop_lem rpd now = omega arith

-- the end of a window
abbrev pub stop_of : WindowKey → ℕ
stop_of k = k.window * seconds k.label + seconds k.label

module _ (r : Redis) (a : Answers r) (k : WindowKey) (limit : ℕ) where
  pub record Inv (n : ℕ) (c : r.Contents) : Type 0 where
    pub counted : n ≤ value_of (r.lookup c k)
    pub bounded : n ≤ limit
    pub lasting : lasts (stop_of k) (r.lookup c k) ≡ true

  pub Inv-weaken : (n : ℕ) (c : r.Contents) → Inv (suc n) c → Inv n c
  Inv-weaken n c h =
      let u = h.counted in
      let v = h.bounded in
      record { counted = omega arith; bounded = omega arith; lasting = h.lasting }

  Inv-same : (n : ℕ) (c c' : r.Contents) → r.lookup c' k ≡ r.lookup c k → Inv n c → Inv n c'
  Inv-same n c c' e h = record {
    counted = rw e h.counted;
    bounded = h.bounded;
    lasting = rw e h.lasting;
  }

  -- what a turn of the loop does to the count of the window
  pub record Turn (l : Label) (q : Request) (n : ℕ) (c : r.Contents) : Type 0 where
    pub kept : Bool
    pub after : r.Contents
    pub outcome : within r q.now (check_of l q) c ≡ (ok kept, after)
    pub held : Inv (if kept && key_of l q == k then suc n else n) after

  incr_outcome :
      (now : ℕ) (key : WindowKey) (c : r.Contents)
      → (n : ℕ) × (r.incr now key c ≡ (ok n, (r.incr now key c).1))
  incr_outcome now key c = let (n, e) = a.incr now key c in (n, pair_eq (r.incr now key c) e refl)

  record Expired (now : ℕ) (key : WindowKey) (ttl count : ℕ) (c : r.Contents) : Type 0 where
    after : r.Contents
    outcome : expire_first r now key ttl count c ≡ (ok tt, after)
    kept_other : (key == k) ≡ false → r.lookup after k ≡ r.lookup c k
    set_first :
        (key == k) ≡ true
        → (count == 1) ≡ true
        → r.lookup after k ≡ expiring (now + ttl) (live now (r.lookup c k))
    kept_later : (count == 1) ≡ false → r.lookup after k ≡ r.lookup c k

  expire_outcome :
      (now : ℕ) (key : WindowKey) (ttl count : ℕ) (c : r.Contents) → Expired now key ttl count c
  unfolding pure
  expire_outcome now key ttl count c = elim (Bool-cases (count == 1)) [
    | inl e ↦
        let done = a.expire now key ttl c in
        record {
          after = (r.expire now key ttl c).1;
          outcome = rw e (pair_eq (r.expire now key ttl c) done refl);
          kept_other = λ f. cc (r.expire-return now key ttl c done k, f);
          set_first = λ f g. cc (r.expire-return now key ttl c done k, f, ==_sound key k f);
          kept_later = λ g. cc (e, g);
        }
    | inr e ↦ record {
      after = c;
      outcome = rw e refl;
      kept_other = λ f. refl;
      set_first = λ f g. cc (e, g);
      kept_later = λ g. refl;
    }
  ]

  window_outcome :
      (now : ℕ) (key : WindowKey) (ttl m n : ℕ) (c : r.Contents)
      → (x : Expired now key ttl n (r.incr now key c).1)
      → r.incr now key c ≡ (ok n, (r.incr now key c).1)
      → count_window r now key ttl m c ≡ (ok (leb n m), x.after)
  unfolding pure
  window_outcome now key ttl m n c x e =
      bind_known (r.incr now key) (λ count. do expire_first r now key ttl count; pure (leb count m))
        c e
      ∙ bind_known (expire_first r now key ttl n) (λ u. pure (leb n m)) (r.incr now key c).1
          x.outcome

  turn_other :
      (now : ℕ) (key : WindowKey) (ttl count : ℕ) (c : r.Contents)
      → (r.incr now key c).0 ≡ ok count
      → (x : Expired now key ttl count (r.incr now key c).1) → (key == k) ≡ false
      → r.lookup x.after k ≡ r.lookup c k
  turn_other now key ttl count c e x f =
      x.kept_other f ∙ cc ((r.incr-return now key c count e).1 k, f)

  -- the counter of the window after a turn that counts in it
  counter_after :
      (l : Label) (q : Request) (n count : ℕ) (c : r.Contents)
      → (r.incr q.now (key_of l q) c).0 ≡ ok count
      → (x : Expired q.now (key_of l q) (lifetime l) count (r.incr q.now (key_of l q) c).1)
      → (key_of l q == k) ≡ true
      → lasts (stop_of k) (r.lookup c k) ≡ true
      → (count ≡ suc (value_of (r.lookup c k)))
        × ((value_of (r.lookup x.after k) ≡ count)
            × (lasts (stop_of k) (r.lookup x.after k) ≡ true))
  counter_after l q n count c e x f h =
      let o = r.lookup c k in
      let c1 = (r.incr q.now (key_of l q) c).1 in
      let here = ==_sound (key_of l q) k f in
      let soon : q.now < stop_of k = subst (λ j. q.now < stop_of j) here (stop_lem l q.now) in
      let alive = live_lem q.now (stop_of k) o soon h in
      let law = r.incr-return q.now (key_of l q) c count e in
      let value : count ≡ suc (value_of o) = cc (law.0, here, alive, value_lem o) in
      let stored : r.lookup c1 k ≡ some (incremented o) = cc (law.1 k, f, here, alive) in
      let next = lasts_lem (stop_of k) o h in
      let alive' = live_lem q.now (stop_of k) (some (incremented o)) soon next in
      (
        value,
        elim (Bool-cases (count == 1)) [
          | inl g ↦
              let eq : r.lookup x.after k ≡ expiring (q.now + lifetime l) (some (incremented o)) =
                cc (x.set_first f g, stored, alive') in
              (
                rw eq (value_lem o ∙ sym value),
                rw eq (
                    subst (λ j. leb (stop_of j) (q.now + lifetime l) ≡ true) here
                      (lifetime_lem l q.now)),
              )
          | inr g ↦
              let eq : r.lookup x.after k ≡ some (incremented o) = x.kept_later g ∙ stored in
              (rw eq (value_lem o ∙ sym value), rw eq next)
        ],
      )

  Inv-count :
      (n count : ℕ) (c c' : r.Contents)
      → Inv n c
      → count ≡ suc (value_of (r.lookup c k))
      → value_of (r.lookup c' k) ≡ count
      → lasts (stop_of k) (r.lookup c' k) ≡ true
      → (b : Bool) → leb count limit ≡ b
      → Inv (if b then suc n else n) c'
  Inv-count n count c c' h e f g true l =
      let u = h.counted in record { counted = omega arith; bounded = ground arith; lasting = g }
  Inv-count n count c c' h e f g false l =
      let u = h.counted in record { counted = omega arith; bounded = h.bounded; lasting = g }

  Inv-within :
      (b f : Bool) (n : ℕ) (c' : r.Contents)
      → (f ≡ true → Inv (if b then suc n else n) c')
      → (f ≡ false → Inv n c')
      → Inv (if b && f then suc n else n) c'
  Inv-within true true n c' h g = h refl
  Inv-within true false n c' h g = g refl
  Inv-within false true n c' h g = h refl
  Inv-within false false n c' h g = g refl

  -- a turn whose limit is not configured, or is this limit where the window is this one
  turn_outcome :
      (l : Label) (q : Request) (n : ℕ) (c : r.Contents) (o : Option ℕ)
      → limit_of l q ≡ o
      → ((key_of l q == k) ≡ true → o ≡ some limit)
      → Inv n c
      → Turn l q n c
  unfolding pure
  turn_outcome l q n c none e s h = record {
    kept = true;
    after = c;
    outcome = rw e refl;
    held = elim (Bool-cases (key_of l q == k)) [ inl f ↦ cc (s f) | inr f ↦ rw f h ];
  }
  turn_outcome l q n c (some m) e s h =
      let (count, i) = incr_outcome q.now (key_of l q) c in
      let i' = ap (λ z. z.0) i in
      let x =
        expire_outcome q.now (key_of l q) (lifetime l) count (r.incr q.now (key_of l q) c).1 in
      record {
        kept = leb count m;
        after = x.after;
        outcome = rw e (window_outcome q.now (key_of l q) (lifetime l) m count c x i);
        held =
            Inv-within (leb count m) (key_of l q == k) n x.after
              (λ f.
                let (v, (w, z)) = counter_after l q n count c i' x f h.lasting in
                let same : m ≡ limit = cc (s f) in
                Inv-count n count c x.after h v w z (leb count m) (rw same refl))
              (λ f.
                Inv-same n c x.after (turn_other q.now (key_of l q) (lifetime l) count c i' x f) h);
      }

  pub turn :
      (l : Label) (q : Request) (n : ℕ) (c : r.Contents)
      → ((key_of l q == k) ≡ true → limit_of l q ≡ some limit)
      → Inv n c
      → Turn l q n c
  turn l q n c s h = turn_outcome l q n c (limit_of l q) refl s h
