-- ===== src/Approval/Once.antt =====
-- A review's outcome is acted on once, however decisions and resumptions follow each other, as long
-- as each runs as a whole.
use agent_builder_factory_ap.Base.{
  String, ◌≡◌, refl, Bool, true, false, ◌&&◌, ◌||◌, not, Option, none, some, List, [], ◌∷◌, Result,
  ok, pure, ◌>>=◌, ◌==◌, string_key, Bool-cases, inl, inr, ==_refl, arith, ◌⊎◌,
}
use agent_builder_factory_ap.Table.{Table, get-put_self}
use agent_builder_factory_ap.Tools.Executor.{Services, Toolbox}
use agent_builder_factory_ap.Approval.Review.{
  HitlReviewStatus, HitlReviewRecord, Attribute, ReviewItem, ApprovalError, World, model_dump,
  put_review, create, decide,
}
use agent_builder_factory_ap.Approval.Resume.{
  Clock, DecisionStatus, Answer, claimable, item_or_empty, is_open, decision_of, context_or_empty,
  get_decision, try_claim_resume, act_if_claimed, resume_after_approval, request_approval,
}
use agent_builder_factory_ap.Approval.Claims.{
  is_claimed, item_at, AllFiled, AllFiled-put, Claimed, Claimed-put, Claimed-continue, Stays-if,
  Stays-pure, Stays-act, Stays-resume,
}
use agent_builder_factory_ap.Approval.Decide.{Stays-decide}

-- The calls that the two services make on the queue.
pub data Command : Type 0 where
  make_decision : String → String → HitlReviewStatus → String → Option String → String → Command
  add_review : HitlReviewRecord → Command
  add_request : HitlReviewRecord → Command
  resume_turn : Services → Toolbox → Clock → String → String → Command

-- whether some command puts a new review at this key
abbrev pub creates : String → String → List Command → Bool
creates a b [] = false
creates a b (Command.make_decision _ _ _ _ _ _ ∷ cs) = creates a b cs
creates a b (Command.resume_turn _ _ _ _ _ ∷ cs) = creates a b cs
creates a b (Command.add_review f ∷ cs) = f.tenant_id == a && f.review_id == b || creates a b cs
creates a b (Command.add_request f ∷ cs) = f.tenant_id == a && f.review_id == b || creates a b cs

split : (b c : Bool) → (b || c) ≡ false → (b ≡ false) × (c ≡ false)
split b c h = ground arith

taken :
    (o : Option ReviewItem) → is_claimed o ≡ true → claimable (item_or_empty o).resumed_at ≡ false
taken none h = cc h
taken (some i) h = ground arith

module _ ⦃t : Table String String ReviewItem⦄ where
  unfoldable pub apply : Command → World → World
  apply (Command.make_decision a b s by reason now) w = (decide a b s by reason now w).1
  apply (Command.add_review f) w = (create f w).1
  apply (Command.add_request f) w = (request_approval f w).1
  apply (Command.resume_turn services box clock a b) w =
      (resume_after_approval services box clock a b w).1

  unfoldable pub apply_all : List Command → World → World
  apply_all [] w = w
  apply_all (c ∷ cs) w = apply_all cs (apply c w)

  -- the resumption acted on nothing and changed nothing
  abbrev pub Idle : World → Result ApprovalError Answer × World → Type 0
  Idle w o =
      (o ≡ (ok Answer.already_processed, w))
      ⊎ ((s : DecisionStatus) × (o ≡ (ok (Answer.still_pending s), w)))

  module _ (a b : String) where
    other-Claimed :
        (w : World) (f : HitlReviewRecord) (x : Attribute String)
        → (f.tenant_id == a && f.review_id == b) ≡ false
        → Claimed a b w
        → Claimed a b (record w {
          reviews =
              t.put_item w.reviews f.tenant_id f.review_id
                (record { fields = some f; resumed_at = x });
        })
    other-Claimed w f x ne h =
        Claimed-put a b w f.tenant_id f.review_id (record { fields = some f; resumed_at = x }) h
          (record { at = λ g e. (cc e, cc e) }) (λ p q. cc (ne, p, q, ==_refl a, ==_refl b))

    create-Claimed :
        (w : World) (f : HitlReviewRecord)
        → (f.tenant_id == a && f.review_id == b) ≡ false
        → Claimed a b w
        → Claimed a b (create f w).1
    unfolding create put_review model_dump ◌>>=◌
    create-Claimed w f ne h = other-Claimed w f Attribute.null ne h

    request-Claimed :
        (w : World) (f : HitlReviewRecord)
        → (f.tenant_id == a && f.review_id == b) ≡ false
        → Claimed a b w
        → Claimed a b (request_approval f w).1
    unfolding request_approval
    request-Claimed w f ne h = other-Claimed w f Attribute.missing ne h

    all-Claimed :
        (cs : List Command) (w : World)
        → creates a b cs ≡ false
        → Claimed a b w
        → Claimed a b (apply_all cs w)
    unfolding apply_all apply
    all-Claimed [] w h c = c
    all-Claimed (Command.make_decision x y s by reason now ∷ cs) w h c =
        all-Claimed cs (decide x y s by reason now w).1 h
          ((Stays-decide a b x y s by reason now).at w c)
    all-Claimed (Command.resume_turn services box clock x y ∷ cs) w h c =
        all-Claimed cs (resume_after_approval services box clock x y w).1 h
          ((Stays-resume a b services box clock x y).at w c)
    all-Claimed (Command.add_review f ∷ cs) w h c =
        let (n, m) = split (f.tenant_id == a && f.review_id == b) (creates a b cs) h in
        all-Claimed cs (create f w).1 m (create-Claimed w f n c)
    all-Claimed (Command.add_request f ∷ cs) w h c =
        let (n, m) = split (f.tenant_id == a && f.review_id == b) (creates a b cs) h in
        all-Claimed cs (request_approval f w).1 m (request-Claimed w f n c)

    claim-found :
        (clock : Clock) (w : World) (o : Option ReviewItem)
        → item_at w a b ≡ o
        → AllFiled w
        → Claimed a b (try_claim_resume clock a b w).1
    unfolding try_claim_resume
    claim-found clock w none e h =
        let i : ReviewItem = record { fields = none; resumed_at = Attribute.set clock.now } in
        rw e (record {
          filed = AllFiled-put w a b i h (record { at = λ f p. cc p });
          claimed = cc (get-put_self t w.reviews a b i);
        })
    claim-found clock w (some i) e h = elim (Bool-cases (claimable i.resumed_at)) [
      | inl free ↦
          let j : ReviewItem = record i { resumed_at = Attribute.set clock.now } in
          rw (e, free)
            (record {
              filed = AllFiled-put w a b j h (record { at = (h.at a b i e).at });
              claimed = cc (get-put_self t w.reviews a b j);
            })
      | inr taken ↦ rw (e, taken) (record { filed = h; claimed = cc (e, taken) })
    ]

    refused-claim :
        (clock : Clock) (w : World) → Claimed a b w → try_claim_resume clock a b w ≡ (ok false, w)
    unfolding try_claim_resume
    refused-claim clock w h = rw (taken (item_at w a b) h.claimed)

    module _ (services : Services) (box : Toolbox) (clock : Clock) where
      resume-Claimed :
          (w : World)
          → AllFiled w
          → is_open (decision_of clock (item_at w a b)).status ≡ false
          → Claimed a b (resume_after_approval services box clock a b w).1
      unfolding resume_after_approval get_decision ◌>>=◌
      resume-Claimed w h n =
          let d = decision_of clock (item_at w a b) in
          rw n (
            Claimed-continue a b (try_claim_resume clock a b w).0 (act_if_claimed services box d)
              (try_claim_resume clock a b w).1
              (λ c.
                Stays-if a b (not c) (pure Answer.already_processed)
                  (act_if_claimed services box d true) (Stays-pure a b Answer.already_processed)
                  (Stays-act a b services box (context_or_empty d.resume_context) d.status))
              (claim-found clock w (item_at w a b) refl h))

      resume-Idle :
          (w : World) → Claimed a b w → Idle w (resume_after_approval services box clock a b w)
      unfolding resume_after_approval get_decision ◌>>=◌
      resume-Idle w h =
          let d = decision_of clock (item_at w a b) in
          elim (Bool-cases (is_open d.status)) [
            | inl e ↦ inr (d.status, rw e)
            | inr e ↦ inl (rw (e, refused-claim clock w h))
          ]

    -- Once a resumption of a decided or expired review has run, whole calls of the services in any
    -- order and number, by whatever clocks, that put no new review at its key, never let another
    -- resumption of it act: that one answers already_processed or still pending, and changes neither the
    -- table, nor the audit trail, nor calls a Lambda. In the first state each item is under its own key.
    pub resume_acts_once :
        (services : Services) (box : Toolbox) (clock : Clock) (w : World)
        → AllFiled w
        → is_open (decision_of clock (item_at w a b)).status ≡ false
        → (cs : List Command) → creates a b cs ≡ false
        → (services' : Services) (box' : Toolbox) (clock' : Clock)
        → Idle (apply_all cs (resume_after_approval services box clock a b w).1) (
            resume_after_approval services' box' clock' a b
              (apply_all cs (resume_after_approval services box clock a b w).1))
    resume_acts_once services box clock w h n cs m services' box' clock' =
        let w' = (resume_after_approval services box clock a b w).1 in
        resume-Idle services' box' clock' (apply_all cs w')
          (all-Claimed cs w' m (resume-Claimed services box clock w h n))
