-- ===== src/Approval/Races.antt =====
-- What a resumption does for each status, and what a decision that is written late undoes.
use agent_builder_factory_ap.Base.{
  String, ◌≡◌, refl, ◌∙◌, Bool, true, false, Option, none, some, List, Result, ok, err, continue,
  ◌>>=◌, string_key, Bool-cases, inl, inr, ◌⊎◌,
}
use agent_builder_factory_ap.Table.{Table, get-put_self}
use agent_builder_factory_ap.Tools.Policy.{Invocation, write_audit_event}
use agent_builder_factory_ap.Tools.Executor.{Services, Toolbox}
use agent_builder_factory_ap.Approval.Review.{
  HitlReviewStatus, ReviewItem, Review, ResumeContext, ApprovalError, World, model_dump, put_review,
  decided,
}
use agent_builder_factory_ap.Approval.Resume.{
  Clock, ApprovalDecision, DecisionStatus, claimable, item_or_empty, is_open, decision_of,
  context_or_empty, in_runtime, get_decision, try_claim_resume, refuse, grant, act_if_claimed,
  answer_decision, resume_after_approval,
}
use agent_builder_factory_ap.Approval.Claims.{item_at}

-- the statuses for which the orchestrator runs the tool calls after its claim
abbrev pub runs_tools : DecisionStatus → Bool
runs_tools DecisionStatus.approved = true
runs_tools DecisionStatus.info_requested = true
runs_tools DecisionStatus.pending = false
runs_tools DecisionStatus.rejected = false
runs_tools DecisionStatus.timeout = false
runs_tools DecisionStatus.not_found = false

module _ ⦃t : Table String String ReviewItem⦄ where
  abbrev pub calls_of : World → List Invocation
  calls_of w = w.effects.invocations

  claim-calls :
      (clock : Clock) (a b : String) (w : World)
      → calls_of (try_claim_resume clock a b w).1 ≡ calls_of w
  unfolding try_claim_resume
  claim-calls clock a b w =
      elim (Bool-cases (claimable (item_or_empty (t.get_item w.reviews a b)).resumed_at)) [
        | inl e ↦ rw e refl
        | inr e ↦ rw e refl
      ]

  refuse-calls :
      (box : Toolbox) (s : DecisionStatus) (event : String) (w : World)
      → calls_of (refuse box s event w).1 ≡ calls_of w
  unfolding in_runtime write_audit_event ◌>>=◌
  refuse-calls box s event w = refl

  module _ (services : Services) (box : Toolbox) (clock : Clock) (a b : String) where
    act-calls :
        (s : DecisionStatus) (c : ResumeContext) (r : Bool) (w : World)
        → is_open s ≡ false
        → runs_tools s ≡ false
        → calls_of
            (act_if_claimed services box (record { status = s; resume_context = some c }) r w).1
          ≡ calls_of w
    unfolding ◌>>=◌
    act-calls s c false w h n = refl
    act-calls DecisionStatus.rejected c true w h n =
        refuse-calls box DecisionStatus.rejected "human.approval.rejected" w
    act-calls DecisionStatus.timeout c true w h n =
        refuse-calls box DecisionStatus.timeout "human.approval.timeout" w
    act-calls DecisionStatus.approved c true w h n = cc n
    act-calls DecisionStatus.info_requested c true w h n = cc n
    act-calls DecisionStatus.pending c true w h n = cc h
    act-calls DecisionStatus.not_found c true w h n = cc h

    continue-calls :
        (r : Result ApprovalError Bool) (d : ApprovalDecision) (w : World)
        → is_open d.status ≡ false
        → runs_tools d.status ≡ false
        → calls_of (continue r (act_if_claimed services box d) w).1 ≡ calls_of w
    continue-calls (err e) d w h n = refl
    continue-calls (ok c) d w h n = act-calls d.status (context_or_empty d.resume_context) c w h n

    answer-calls :
        (d : ApprovalDecision) (w : World)
        → runs_tools d.status ≡ false
        → calls_of (answer_decision services box clock a b d w).1 ≡ calls_of w
    unfolding ◌>>=◌
    answer-calls d w n = elim (Bool-cases (is_open d.status)) [
      | inl e ↦ rw e refl
      | inr e ↦
          let (r, w') = try_claim_resume clock a b w in
          rw e (continue-calls r d w' e n ∙ claim-calls clock a b w)
    ]

    -- A resumption calls no Lambda unless the review's status, with the timeout taken into account, is
    -- approved or info_requested.
    pub no_tools_without_approval :
        (w : World)
        → runs_tools (decision_of clock (item_at w a b)).status ≡ false
        → calls_of (resume_after_approval services box clock a b w).1 ≡ calls_of w
    unfolding resume_after_approval get_decision ◌>>=◌
    no_tools_without_approval w h = answer-calls (decision_of clock (item_at w a b)) w h

  claim-free :
      (clock : Clock) (a b : String) (w : World) {i : ReviewItem}
      → item_at w a b ≡ some i
      → claimable i.resumed_at ≡ true
      → (try_claim_resume clock a b w).0 ≡ ok true
  unfolding try_claim_resume
  claim-free clock a b w e h = rw (e, h) refl

  module _ (services : Services) (box : Toolbox) (clock : Clock) where
    granting :
        (a b : String) (w : World) (i : ReviewItem) (c : Option ResumeContext) (s : DecisionStatus)
        → item_at w a b ≡ some i
        → claimable i.resumed_at ≡ true
        → decision_of clock (some i) ≡ record { status = s; resume_context = c }
        → (s ≡ DecisionStatus.approved) ⊎ (s ≡ DecisionStatus.info_requested)
        → resume_after_approval services box clock a b w
          ≡ grant services box (context_or_empty c) (try_claim_resume clock a b w).1
    unfolding resume_after_approval get_decision ◌>>=◌
    granting a b w i c s e h d (inl p) = rw (e, d, p, claim-free clock a b w e h) refl
    granting a b w i c s e h d (inr p) = rw (e, d, p, claim-free clock a b w e h) refl

    -- A decision to approve or to ask for information writes back the review as the reviewer read it: if
    -- nobody had claimed it at that read, then in whatever state the write lands, also after a resumption
    -- has claimed the review and run its tool calls, the next resumption runs them.
    pub late_decision_runs_tools :
        (r : Review)
        → r.resumed_at ≡ none
        → (s : HitlReviewStatus)
        → (s ≡ HitlReviewStatus.approved) ⊎ (s ≡ HitlReviewStatus.info_requested)
        → (by : String) (reason : Option String) (now : String) (w : World)
        → resume_after_approval services box clock r.fields.tenant_id r.fields.review_id
            (put_review (decided s by reason now r) w).1
          ≡ grant services box
              (context_or_empty r.fields.resume_context)
              (try_claim_resume clock r.fields.tenant_id r.fields.review_id
                (put_review (decided s by reason now r) w).1).1
    unfolding put_review model_dump decided
    late_decision_runs_tools r e s (inl p) by reason now w =
        let i = model_dump (decided s by reason now r) in
        granting r.fields.tenant_id r.fields.review_id (put_review (decided s by reason now r) w).1
          i r.fields.resume_context DecisionStatus.approved
          (get-put_self t w.reviews r.fields.tenant_id r.fields.review_id i) (rw e refl) (rw p refl)
          (inl refl)
    late_decision_runs_tools r e s (inr p) by reason now w =
        let i = model_dump (decided s by reason now r) in
        granting r.fields.tenant_id r.fields.review_id (put_review (decided s by reason now r) w).1
          i r.fields.resume_context DecisionStatus.info_requested
          (get-put_self t w.reviews r.fields.tenant_id r.fields.review_id i) (rw e refl) (rw p refl)
          (inr refl)
