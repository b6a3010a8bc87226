-- ===== src/Runtime/Pauses.antt =====
-- A turn that stops for the approval of a tool call can be resumed.
use agent_builder_factory_ap.Base.{
  String, ◌≡◌, refl, ap, Option, none, some, ok, pure, guard, require_some, ◌>>=◌, inl, string_key,
}
use agent_builder_factory_ap.Table.{Table}
use agent_builder_factory_ap.Tools.Executor.{Services, Toolbox}
use agent_builder_factory_ap.Approval.Review.{
  HitlReviewStatus, HitlReviewRecord, Attribute, ReviewItem, Review, World, get, put_review,
  require_pending, decided, decide,
}
use agent_builder_factory_ap.Approval.Resume.{Clock, try_claim_resume, grant, resume_after_approval}
use agent_builder_factory_ap.Approval.Claims.{item_at}
use agent_builder_factory_ap.Approval.Races.{late_decision_runs_tools}
use agent_builder_factory_ap.Runtime.State.{
  Agent, Outside, ChatRequest, RuntimeTables, review_table, memory_table, spending_table, Process,
}
use agent_builder_factory_ap.Runtime.Orchestrator.{RunResult, matching_id, approval_of, run}
use agent_builder_factory_ap.Runtime.Parking.{Parked, run-Parked}

module _ ⦃t : Table String String ReviewItem⦄ where
  -- a decision on a pending review that nobody has touched
  decide-pending :
      (f : HitlReviewRecord) (a b : String) (s : HitlReviewStatus) (by : String)
      (reason : Option String) (now : String) (w : World)
      → item_at w a b ≡ some (record { fields = some f; resumed_at = Attribute.missing })
      → f.status ≡ HitlReviewStatus.pending
      → decide a b s by reason now w ≡ (
        ok (decided s by reason now (record { fields = f; resumed_at = none })),
        (put_review (decided s by reason now (record { fields = f; resumed_at = none })) w).1,
      )
  unfolding decide require_pending get put_review pure guard require_some ◌>>=◌
  decide-pending f a b s by reason now w e p = rw (e, p) refl

module _ ⦃t : RuntimeTables⦄ (o : Outside) (a : Agent) (q : ChatRequest) (p p' : Process)
    (id : String) (by : String) (reason : Option String) (now : String) (clock : Clock)
    (services : Services) (box : Toolbox) where
  -- the approval of a turn that was parked between `p` and `p'`, and what the resumption after it does
  pub record Resumes : Type 0 where
    pub parked : Parked o a q p id p'
    pub review : Review
    pub approved :
        (decide a.tenant_id id HitlReviewStatus.approved by reason now p'.world).0 ≡ ok review
    pub resumed :
        resume_after_approval services box clock a.tenant_id id
          (decide a.tenant_id id HitlReviewStatus.approved by reason now p'.world).1
        ≡ grant services box
            (record {
              session_id = q.session_id;
              tool_id = parked.tool_id;
              tool_calls = parked.reply.tool_calls;
              approved_call_id = matching_id parked.tool_id parked.reply.tool_calls;
            })
            (try_claim_resume clock a.tenant_id id
              (decide a.tenant_id id HitlReviewStatus.approved by reason now p'.world).1).1

  Resumes-Parked : Parked o a q p id p' → Resumes
  Resumes-Parked k =
      let f = approval_of o a k.turn k.tool_id k.reply.tool_calls in
      let read : Review = record { fields = f; resumed_at = none } in
      let decision =
        decide-pending f a.tenant_id id HitlReviewStatus.approved by reason now p'.world k.stored
          refl in
      record {
        parked = k;
        review = decided HitlReviewStatus.approved by reason now read;
        approved = ap (λ z. z.0) decision;
        resumed =
            rw (ap (λ z. z.1) decision, k.named)
              (late_decision_runs_tools services box clock read refl HitlReviewStatus.approved
                (inl refl) by reason now p'.world);
      }

-- After a turn that returns the id of an approval: the turn has asked the model once, the batch of the
-- tool calls in its reply stopped at a tool that needs approval, the approval of that review succeeds,
-- and the next resumption runs the reply's tool calls in the turn's session, with the id of the first
-- call of that tool as approved, whatever the reviewer, the clock, the services and the toolbox.
pub approved_turn_resumes :
    ⦃t : RuntimeTables⦄ (o : Outside) (a : Agent) (q : ChatRequest) (p : Process) (r : RunResult)
    (p' : Process) (id : String)
    → run o a q p ≡ (ok r, p')
    → r.approval_review_id ≡ some id
    → (by : String) (reason : Option String) (now : String) (clock : Clock) (services : Services)
      (box : Toolbox)
    → Resumes o a q p p' id by reason now clock services box
approved_turn_resumes o a q p r p' id h e by reason now clock services box =
    Resumes-Parked o a q p p' id by reason now clock services box (run-Parked o a q p r p' id h e)
