-- ===== src/Approval/Claims.antt =====
-- A claimed review stays claimed: what each step of the two services does to the claims.
use agent_builder_factory_ap.Base.{
  String, ◌≡◌, refl, sym, subst, Bool, true, false, ◌&&◌, not, Option, none, some, Result, ok, err,
  Exec, pure, continue, ◌>>=◌, ◌==◌, if◌then◌else◌, string_key, Bool-cases, inl, inr, ==_sound,
  arith, Reads, reads_rules,
}
use agent_builder_factory_ap.Table.{Table}
use agent_builder_factory_ap.Tools.Policy.{ToolError, Effects}
use agent_builder_factory_ap.Tools.Executor.{Services, Toolbox}
use agent_builder_factory_ap.Approval.Review.{
  HitlReviewRecord, ResumeContext, Attribute, ReviewItem, ApprovalError, World, Step,
}
use agent_builder_factory_ap.Approval.Resume.{
  Clock, DecisionStatus, claimable, in_runtime, get_decision, try_claim_resume, act_on_status,
  resume_after_approval,
}

abbrev pub is_claimed : Option ReviewItem → Bool
is_claimed none = false
is_claimed (some i) = not (claimable i.resumed_at)

-- the item's fields name its own key
pub record IsFiled (tenant_id review_id : String) (i : ReviewItem) : Type 0 where
  pub at :
      (f : HitlReviewRecord)
      → i.fields ≡ some f
      → (f.tenant_id ≡ tenant_id) × (f.review_id ≡ review_id)

module _ ⦃t : Table String String ReviewItem⦄ where
  abbrev pub item_at : World → String → String → Option ReviewItem
  item_at w tenant_id review_id = t.get_item w.reviews tenant_id review_id

  -- every item stands under its own key
  pub record AllFiled (w : World) : Type 0 where
    pub at : (a b : String) (i : ReviewItem) → item_at w a b ≡ some i → IsFiled a b i

  module _ (tenant_id review_id : String) where
    pub record Claimed (w : World) : Type 0 where
      pub filed : AllFiled w
      pub claimed : is_claimed (item_at w tenant_id review_id) ≡ true

    -- the claim of this review outlives the action
    pub record Stays {A : Type 0} (m : Step A) : Type 0 where
      pub at : (w : World) → Claimed w → Claimed (m w).1

  both : (a b : Bool) → (a && b) ≡ true → (a ≡ true) × (b ≡ true)
  both a b h = ground arith

  pub AllFiled-put :
      (w : World) (a b : String) (i : ReviewItem)
      → AllFiled w
      → IsFiled a b i
      → AllFiled (record w { reviews = t.put_item w.reviews a b i })
  AllFiled-put w a b i h k = record {
    at = λ c d j e. elim (Bool-cases (a == c && b == d)) [
      | inl same ↦
          let (p, q) = both (a == c) (b == d) same in
          subst (λ y. IsFiled c y j) (==_sound b d q)
            (subst (λ x. IsFiled x b j) (==_sound a c p)
              (subst (IsFiled a b) (cc (t.get-put w.reviews a b i c d, same, e)) k))
      | inr other ↦ h.at c d j (cc (t.get-put w.reviews a b i c d, other, e))
    ];
  }

  module _ (tenant_id review_id : String) where
    pub Claimed-put :
        (w : World) (a b : String) (i : ReviewItem)
        → Claimed tenant_id review_id w
        → IsFiled a b i
        → (a ≡ tenant_id → b ≡ review_id → is_claimed (some i) ≡ true)
        → Claimed tenant_id review_id (record w { reviews = t.put_item w.reviews a b i })
    Claimed-put w a b i h k c = record {
      filed = AllFiled-put w a b i h.filed k;
      claimed = elim (Bool-cases (a == tenant_id && b == review_id)) [
        | inl same ↦
            let (p, q) = both (a == tenant_id) (b == review_id) same in
            let kept = c (==_sound a tenant_id p) (==_sound b review_id q) in
            cc (t.get-put w.reviews a b i tenant_id review_id, same, kept)
        | inr other ↦ cc (t.get-put w.reviews a b i tenant_id review_id, other, h.claimed)
      ];
    }

    pub Stays-of_reading : {A : Type 0} (m : Step A) → Reads m → Stays tenant_id review_id m
    Stays-of_reading m h = record {
      at = λ w c. subst (Claimed tenant_id review_id) (sym (h.at w)) c;
    }

    pub Stays-if :
        {A : Type 0} (b : Bool) (m n : Step A)
        → Stays tenant_id review_id m
        → Stays tenant_id review_id n
        → Stays tenant_id review_id (if b then m else n)
    Stays-if true m n h k = h
    Stays-if false m n h k = k

    pub Stays-in_runtime :
        {A : Type 0} (m : Exec Effects ToolError A) → Stays tenant_id review_id (in_runtime m)
    unfolding in_runtime
    Stays-in_runtime m = record {
      at = λ w c. record { filed = record { at = c.filed.at }; claimed = c.claimed };
    }

    pub Stays-pure : {A : Type 0} (a : A) → Stays tenant_id review_id (pure a)
    Stays-pure a = Stays-of_reading (pure a) (search reads_rules)

    module _ {A B : Type 0} where
      pub Claimed-continue :
          (r : Result ApprovalError A) (f : A → Step B) (w : World)
          → ((a : A) → Stays tenant_id review_id (f a))
          → Claimed tenant_id review_id w
          → Claimed tenant_id review_id (continue r f w).1
      Claimed-continue (ok a) f w k h = (k a).at w h
      Claimed-continue (err e) f w k h = h

      pub Stays-bind :
          (m : Step A) (f : A → Step B)
          → Stays tenant_id review_id m
          → ((a : A) → Stays tenant_id review_id (f a))
          → Stays tenant_id review_id (m >>= f)
      unfolding ◌>>=◌
      Stays-bind m f h k = record { at = λ w c. Claimed-continue (m w).0 f (m w).1 k (h.at w c) }

    claim-cases :
        (clock : Clock) (w : World) (a b : String) (o : Option ReviewItem)
        → item_at w a b ≡ o
        → Claimed tenant_id review_id w
        → Claimed tenant_id review_id (try_claim_resume clock a b w).1
    unfolding try_claim_resume
    claim-cases clock w a b none e h = rw e (
        Claimed-put w a b (record { fields = none; resumed_at = Attribute.set clock.now }) h
          (record { at = λ f p. cc p }) (λ p q. refl))
    claim-cases clock w a b (some i) e h = elim (Bool-cases (claimable i.resumed_at)) [
      | inl free ↦
          rw (e, free)
            (Claimed-put w a b (record i { resumed_at = Attribute.set clock.now }) h
              (record { at = (h.filed.at a b i e).at }) (λ p q. refl))
      | inr taken ↦ rw (e, taken) h
    ]

    pub Stays-claim :
        (clock : Clock) (a b : String) → Stays tenant_id review_id (try_claim_resume clock a b)
    Stays-claim clock a b = record { at = λ w. claim-cases clock w a b (item_at w a b) refl }

    pub Stays-get_decision :
        (clock : Clock) (a b : String) → Stays tenant_id review_id (get_decision clock a b)
    unfolding get_decision
    Stays-get_decision clock a b =
        Stays-of_reading (get_decision clock a b) (record { at = λ w. refl })

  pub ruleset stays_rules =
      (Stays-pure, Stays-if, Stays-bind, Stays-in_runtime, Stays-claim, Stays-get_decision)

  module _ (tenant_id review_id : String) (services : Services) (box : Toolbox) where
    pub Stays-act :
        (c : ResumeContext) (s : DecisionStatus)
        → Stays tenant_id review_id (act_on_status services box c s)
    Stays-act c DecisionStatus.pending = search stays_rules
    Stays-act c DecisionStatus.approved = search stays_rules
    Stays-act c DecisionStatus.rejected = search stays_rules
    Stays-act c DecisionStatus.info_requested = search stays_rules
    Stays-act c DecisionStatus.timeout = search stays_rules
    Stays-act c DecisionStatus.not_found = search stays_rules

    pub Stays-resume :
        (clock : Clock) (a b : String)
        → Stays tenant_id review_id (resume_after_approval services box clock a b)
    unfolding resume_after_approval
    Stays-resume clock a b = let act = Stays-act in search (stays_rules, act)
