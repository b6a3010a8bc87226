-- ===== src/Approval/Resume.antt =====
-- services/agent-runtime/tool_approval.py and orchestrator.py: reading a decision back, claiming its
-- review, and resuming the paused turn. The resumed reply of the model and its cost are left out.
use agent_builder_factory_ap.Base.{
  ℕ, ◌+◌, ◌*◌, String, Bool, true, false, not, Option, none, some, List, [], Result, ok, err, Exec,
  pure, ◌>>=◌, ◌>>◌, ltb, if◌then◌else◌, string_key,
}
use agent_builder_factory_ap.Table.{Table}
use agent_builder_factory_ap.Tools.Policy.{ToolError, Effects, write_audit_event}
use agent_builder_factory_ap.Tools.Executor.{Services, Toolbox, ToolResult, execute}
use agent_builder_factory_ap.Approval.Review.{
  HitlReviewStatus, HitlReviewRecord, ResumeContext, Attribute, ReviewItem, ApprovalError, Step,
}

pub data DecisionStatus : Type 0 where
  pending : DecisionStatus
  approved : DecisionStatus
  rejected : DecisionStatus
  info_requested : DecisionStatus
  timeout : DecisionStatus
  not_found : DecisionStatus

pub record ApprovalDecision : Type 0 where
  pub status : DecisionStatus
  pub resume_context : Option ResumeContext

-- the clock, and datetime.fromisoformat in seconds (none where it raises ValueError)
pub record Clock : Type 0 where
  pub now : String
  pub seconds : ℕ
  pub fromisoformat : String → Option ℕ

abbrev past : ℕ → Option ℕ → ℕ → Bool
past now none hours = false
past now (some requested) hours = ltb (requested + hours * 3600) now

unfoldable pub is_expired : Clock → String → ℕ → Bool
is_expired clock requested_at timeout_hours =
    past clock.seconds (clock.fromisoformat requested_at) timeout_hours

abbrev pub read_status : Clock → HitlReviewRecord → DecisionStatus
read_status clock f = elim f.status [
  | HitlReviewStatus.pending ↦
      if is_expired clock f.requested_at f.timeout_hours
      then DecisionStatus.timeout
      else DecisionStatus.pending
  | HitlReviewStatus.approved ↦ DecisionStatus.approved
  | HitlReviewStatus.rejected ↦ DecisionStatus.rejected
  | HitlReviewStatus.info_requested ↦ DecisionStatus.info_requested
]

abbrev pub decision_of : Clock → Option ReviewItem → ApprovalDecision
decision_of clock none = record { status = DecisionStatus.not_found; resume_context = none }
decision_of clock (some i) = elim i.fields [
  | none ↦ record { status = DecisionStatus.pending; resume_context = none }
  | some f ↦ record { status = read_status clock f; resume_context = f.resume_context }
]

-- a missing or null resumed_at
abbrev pub claimable : Attribute String → Bool
claimable Attribute.missing = true
claimable Attribute.null = true
claimable (Attribute.set t) = false

abbrev pub item_or_empty : Option ReviewItem → ReviewItem
item_or_empty none = record { fields = none; resumed_at = Attribute.missing }
item_or_empty (some i) = i

abbrev pub context_or_empty : Option ResumeContext → ResumeContext
context_or_empty none = record {
  session_id = "";
  tool_id = "";
  tool_calls = [];
  approved_call_id = none;
}
context_or_empty (some c) = c

-- the statuses of the answer; the texts of the answers are left out
pub data Answer : Type 0 where
  still_pending : DecisionStatus → Answer
  already_processed : Answer
  refused : DecisionStatus → Answer
  resumed : List ToolResult → Answer

abbrev pub is_open : DecisionStatus → Bool
is_open DecisionStatus.pending = true
is_open DecisionStatus.not_found = true
is_open DecisionStatus.approved = false
is_open DecisionStatus.rejected = false
is_open DecisionStatus.info_requested = false
is_open DecisionStatus.timeout = false

abbrev as_approval_error : {A : Type 0} → Result ToolError A → Result ApprovalError A
as_approval_error (ok a) = ok a
as_approval_error (err e) = err (ApprovalError.tool_error e)

module _ ⦃t : Table String String ReviewItem⦄ where
  -- `request_approval`: the item it puts has no resumed_at
  unfoldable pub request_approval : HitlReviewRecord → Step String
  request_approval f w =
      let i : ReviewItem = record { fields = some f; resumed_at = Attribute.missing } in
      (ok f.review_id, record w { reviews = t.put_item w.reviews f.tenant_id f.review_id i })

  unfoldable pub get_decision : Clock → String → String → Step ApprovalDecision
  get_decision clock tenant_id review_id w =
      (ok (decision_of clock (t.get_item w.reviews tenant_id review_id)), w)

  -- one conditional UpdateItem, which DynamoDB runs as a single step
  unfoldable pub try_claim_resume : Clock → String → String → Step Bool
  try_claim_resume clock tenant_id review_id w =
      let i = item_or_empty (t.get_item w.reviews tenant_id review_id) in
      if claimable i.resumed_at
      then (
        ok true,
        record w {
          reviews =
              t.put_item w.reviews tenant_id review_id
                (record i { resumed_at = Attribute.set clock.now });
        },
      )
      else (ok false, w)

  -- an action of the runtime's, which leaves the reviews alone
  unfoldable pub in_runtime : {A : Type 0} → Exec Effects ToolError A → Step A
  in_runtime m w = (as_approval_error (m w.effects).0, record w { effects = (m w.effects).1 })

  abbrev pub refuse : Toolbox → DecisionStatus → String → Step Answer
  refuse box status event = do
    in_runtime (write_audit_event event box.agent_id "denied" none)
    pure (Answer.refused status)

  abbrev pub grant : Services → Toolbox → ResumeContext → Step Answer
  grant services box context = do
    in_runtime (write_audit_event "human.approval.granted" box.agent_id "allowed" none)
    results ← in_runtime (execute services box context.approved_call_id context.tool_calls)
    pure (Answer.resumed results)

  -- after the claim: every status but the two refusals counts as approved
  abbrev pub act_on_status : Services → Toolbox → ResumeContext → DecisionStatus → Step Answer
  act_on_status services box context DecisionStatus.rejected =
      refuse box DecisionStatus.rejected "human.approval.rejected"
  act_on_status services box context DecisionStatus.timeout =
      refuse box DecisionStatus.timeout "human.approval.timeout"
  act_on_status services box context DecisionStatus.pending = grant services box context
  act_on_status services box context DecisionStatus.approved = grant services box context
  act_on_status services box context DecisionStatus.info_requested = grant services box context
  act_on_status services box context DecisionStatus.not_found = grant services box context

  abbrev pub act_on_decision : Services → Toolbox → ApprovalDecision → Step Answer
  act_on_decision services box d =
      act_on_status services box (context_or_empty d.resume_context) d.status

  abbrev pub act_if_claimed : Services → Toolbox → ApprovalDecision → Bool → Step Answer
  act_if_claimed services box d claimed =
      if not claimed then pure Answer.already_processed else act_on_decision services box d

  abbrev pub claim_and_act :
      Services → Toolbox → Clock → String → String → ApprovalDecision → Step Answer
  claim_and_act services box clock tenant_id review_id d = do
    claimed ← try_claim_resume clock tenant_id review_id
    act_if_claimed services box d claimed

  abbrev pub answer_decision :
      Services → Toolbox → Clock → String → String → ApprovalDecision → Step Answer
  answer_decision services box clock tenant_id review_id d =
      if is_open d.status
      then pure (Answer.still_pending d.status)
      else claim_and_act services box clock tenant_id review_id d

  unfoldable pub resume_after_approval : Services → Toolbox → Clock → String → String → Step Answer
  resume_after_approval services box clock tenant_id review_id = do
    d ← get_decision clock tenant_id review_id
    answer_decision services box clock tenant_id review_id d
