-- ===== src/Approval/Decide.antt =====
-- A decision on a review keeps the claim of every review: what the read of a pending review returns,
-- and what the put of the decided one writes.
use agent_builder_factory_ap.Base.{
  String, ◌≡◌, refl, ap, subst, Bool, true, false, Option, none, some, Result, ok, pure, guard,
  continue, ◌>>=◌, ◌>>◌, string_key, Reads, reads_rules, bind_reading,
}
use agent_builder_factory_ap.Table.{Table}
use agent_builder_factory_ap.Approval.Review.{
  HitlReviewStatus, HitlReviewRecord, Attribute, ReviewItem, Review, ApprovalError, World,
  model_dump, model_load, dump_time, load_time, is_pending, put_review, get, check_pending,
  require_pending, decided, decide,
}
use agent_builder_factory_ap.Approval.Resume.{claimable}
use agent_builder_factory_ap.Approval.Claims.{item_at, Claimed, Stays, Claimed-put}

-- the item that a loaded review was read from
record LoadedFrom (o : Option ReviewItem) (r : Review) : Type 0 where
  item : ReviewItem
  found : o ≡ some item
  same_fields : item.fields ≡ some r.fields
  same_time : load_time item.resumed_at ≡ r.resumed_at

dumped-is_claimed : (a : Attribute String) → claimable (dump_time (load_time a)) ≡ claimable a
dumped-is_claimed Attribute.missing = refl
dumped-is_claimed Attribute.null = refl
dumped-is_claimed (Attribute.set x) = refl

module _ ⦃t : Table String String ReviewItem⦄ where
  guarded :
      (p : Bool) (x r : Review) (e : ApprovalError) (w : World)
      → ((guard p e >> pure x) w).0 ≡ ok r
      → x ≡ r
  unfolding ◌>>=◌
  guarded true x r e w h = cc h
  guarded false x r e w h = cc h

  loaded-from :
      (b : String) (o : Option HitlReviewRecord) (a : Attribute String) (w : World) (r : Review)
      → (continue (model_load (some (record { fields = o; resumed_at = a }))) (check_pending b) w).0
        ≡ ok r
      → LoadedFrom (some (record { fields = o; resumed_at = a })) r
  unfolding ◌>>=◌
  loaded-from b none a w r h = cc h
  loaded-from b (some f) a w r h =
      let x : Review = record { fields = f; resumed_at = load_time a } in
      let same : x ≡ r =
        guarded (is_pending f.status) x r (ApprovalError.already_decided b f.status) w h in
      record {
        item = record { fields = some f; resumed_at = a };
        found = refl;
        same_fields = ap (λ (y : Review). some y.fields) same;
        same_time = ap (λ (y : Review). y.resumed_at) same;
      }

  pending-from :
      (b : String) (o : Option ReviewItem) (w : World) (r : Review)
      → (continue (model_load o) (check_pending b) w).0 ≡ ok r
      → LoadedFrom o r
  unfolding ◌>>=◌
  pending-from b none w r h = cc h
  pending-from b (some i) w r h = loaded-from b i.fields i.resumed_at w r h

  require_pending-from :
      (a b : String) (w : World) (r : Review)
      → (require_pending a b w).0 ≡ ok r
      → LoadedFrom (item_at w a b) r
  unfolding require_pending get ◌>>=◌
  require_pending-from a b w r h = pending-from b (item_at w a b) w r h

  Reads-get : (a b : String) → Reads (get a b)
  unfolding get
  Reads-get a b = record { at = λ w. refl }

  Reads-check : (b : String) (o : Option Review) → Reads (check_pending b o)
  Reads-check b o = search reads_rules

  Reads-require_pending : (a b : String) → Reads (require_pending a b)
  unfolding require_pending
  Reads-require_pending a b = let check = Reads-check b in search (reads_rules, Reads-get, check)

  put-pure : (w : World) (r : Review) → (put_review r w).1 ≡ ((put_review r >> pure r) w).1
  unfolding put_review ◌>>=◌
  put-pure w r = refl

  module _ (tenant_id review_id : String) where
    -- a dumped review is filed and claimed as the item it was loaded from
    put-Claimed :
        (w : World) (a b : String) (r r' : Review)
        → Claimed tenant_id review_id w
        → LoadedFrom (item_at w a b) r
        → r'.fields.tenant_id ≡ r.fields.tenant_id
        → r'.fields.review_id ≡ r.fields.review_id
        → r'.resumed_at ≡ r.resumed_at
        → Claimed tenant_id review_id (put_review r' w).1
    unfolding put_review model_dump
    put-Claimed w a b r r' h l p q s =
        let (fa, fb) = (h.filed.at a b l.item l.found).at r.fields l.same_fields in
        Claimed-put tenant_id review_id w r'.fields.tenant_id r'.fields.review_id (model_dump r') h
          (record { at = λ f e. (cc e, cc e) }) (λ u v. cc (dumped-is_claimed l.item.resumed_at))

    pub Stays-decide :
        (a b : String) (s : HitlReviewStatus) (by : String) (reason : Option String) (now : String)
        → Stays tenant_id review_id (decide a b s by reason now)
    unfolding decide decided
    Stays-decide a b s by reason now = record {
      at = λ w h.
          bind_reading
            (λ (o : Result ApprovalError Review × World). Claimed tenant_id review_id o.1)
            (require_pending a b)
            (λ r. put_review (decided s by reason now r) >> pure (decided s by reason now r)) w
            (Reads-require_pending a b)
            (λ r e. subst (Claimed tenant_id review_id) (put-pure w (decided s by reason now r)) (
              put-Claimed w a b r (decided s by reason now r) h (require_pending-from a b w r e)
                refl refl refl))
            (λ e _. h);
    }
