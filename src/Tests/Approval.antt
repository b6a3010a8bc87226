-- ===== src/Tests/Approval.antt =====
-- Witnesses on a queue with one review of a call to a refund tool.
use agent_builder_factory_ap.Base.{
  String, ◌≡◌, refl, true, false, none, some, List, [], ◌∷◌, Memᴰ, ok, string_key, inl, ◌⊎◌, ◌>>=◌,
}
use agent_builder_factory_ap.Table.{Table}
use agent_builder_factory_ap.Table.Assoc.{assoc_table}
use agent_builder_factory_ap.Tools.Policy.{
  Effects, Invocation, write_audit_event, enforce, check, policy_of,
}
use agent_builder_factory_ap.Tools.Executor.{Services, Toolbox, ToolCall, invoke, execute}
use agent_builder_factory_ap.Tools.Permitted.{Justified, only_permitted_tools_run}
use agent_builder_factory_ap.Approval.Review.{
  HitlReviewStatus, HitlReviewRecord, Attribute, ReviewItem, Review, ResumeContext, World,
  put_review, decided,
}
use agent_builder_factory_ap.Approval.Resume.{Clock, grant, resume_after_approval, try_claim_resume}
use agent_builder_factory_ap.Approval.Claims.{AllFiled, AllFiled-put}
use agent_builder_factory_ap.Approval.Once.{Command, Idle, apply_all, resume_acts_once}
use agent_builder_factory_ap.Approval.Races.{
  calls_of, no_tools_without_approval, late_decision_runs_tools,
}

instance abbrev reviews : Table String String ReviewItem
reviews = assoc_table

abbrev pub services : Services
services = record {
  loads = λ s. some s;
  invoke = λ past i. ok (record { function_error = false; payload = "done" });
}

abbrev pub box : Toolbox
box = record {
  agent_id = "support";
  tools = "lookup" ∷ "refund" ∷ [];
  policies =
      record { tool = "lookup"; allowed = some true; risk = none }
      ∷ record { tool = "refund"; allowed = some true; risk = some "HIGH" }
      ∷ [];
}

abbrev pub lookup_call : ToolCall
lookup_call = record { id = some "c1"; name = "lookup"; arguments = none }

abbrev pub refund_call : ToolCall
refund_call = record { id = some "c2"; name = "refund"; arguments = some "{\"order\": 7}" }

abbrev pub no_effects : Effects
no_effects = record { audit = []; invocations = [] }

abbrev pub calls : List ToolCall
calls = lookup_call ∷ refund_call ∷ []

abbrev pub looked_up : Invocation
looked_up = record { tool_id = "lookup"; payload = "{}" }

-- the batch stops at the refund, after the lookup has run
only_permitted_tools_run_example :
    Memᴰ looked_up no_effects.invocations ⊎ Justified box none calls looked_up
unfolding execute invoke enforce check policy_of write_audit_event ◌>>=◌
only_permitted_tools_run_example =
    only_permitted_tools_run services box none calls no_effects looked_up (Memᴰ.head refl)

abbrev pub clock : Clock
clock = record { now = "2026-01-02T00:00:00+00:00"; seconds = 86400; fromisoformat = λ s. some 0 }

abbrev context : ResumeContext
context = record {
  session_id = "s1";
  tool_id = "refund";
  tool_calls = refund_call ∷ [];
  approved_call_id = some "c2";
}

abbrev fields : HitlReviewStatus → HitlReviewRecord
fields s = record {
  tenant_id = "t1";
  review_id = "TAPR-1";
  agent_id = "support";
  project_id = none;
  trigger_condition = "tool_risk:refund";
  context_summary = "";
  status = s;
  timeout_hours = 24;
  requested_by = "agent-runtime:support";
  requested_at = "2026-01-01T00:00:00+00:00";
  reviewed_by = none;
  reviewed_at = none;
  decision_reason = none;
  kind = "tool_approval";
  tool_id = some "refund";
  resume_context = some context;
}

abbrev world : HitlReviewStatus → World
world s = record {
  reviews = ("t1", "TAPR-1", record { fields = some (fields s); resumed_at = Attribute.null }) ∷ [];
  effects = no_effects;
}

abbrev commands : List Command
commands =
    Command.make_decision "t1" "TAPR-1" HitlReviewStatus.rejected "ann" none "later"
    ∷ Command.resume_turn services box clock "t1" "TAPR-1"
    ∷ []

world-AllFiled : (s : HitlReviewStatus) → AllFiled (world s)
world-AllFiled s =
    AllFiled-put (record { reviews = []; effects = no_effects }) "t1" "TAPR-1"
      (record { fields = some (fields s); resumed_at = Attribute.null })
      (record { at = λ a b i e. cc e }) (record { at = λ f e. (cc e, cc e) })

resume_acts_once_example :
    Idle
      (apply_all commands
        (resume_after_approval services box clock "t1" "TAPR-1"
          (world HitlReviewStatus.approved)).1)
      (resume_after_approval services box clock "t1" "TAPR-1" (
        apply_all commands
          (resume_after_approval services box clock "t1" "TAPR-1"
            (world HitlReviewStatus.approved)).1))
resume_acts_once_example =
    resume_acts_once "t1" "TAPR-1" services box clock (world HitlReviewStatus.approved)
      (world-AllFiled HitlReviewStatus.approved) refl commands refl services box clock

no_tools_without_approval_example :
    calls_of
      (resume_after_approval services box clock "t1" "TAPR-1" (world HitlReviewStatus.rejected)).1
    ≡ []
no_tools_without_approval_example =
    no_tools_without_approval services box clock "t1" "TAPR-1" (world HitlReviewStatus.rejected)
      refl

abbrev stale : Review
stale = record { fields = fields HitlReviewStatus.pending; resumed_at = none }

abbrev resumed : World
resumed =
    (resume_after_approval services box clock "t1" "TAPR-1" (world HitlReviewStatus.approved)).1

abbrev reopened : World
reopened = (put_review (decided HitlReviewStatus.approved "bob" none "later" stale) resumed).1

late_decision_runs_tools_example :
    resume_after_approval services box clock "t1" "TAPR-1" reopened
    ≡ grant services box context (try_claim_resume clock "t1" "TAPR-1" reopened).1
late_decision_runs_tools_example =
    late_decision_runs_tools services box clock stale refl HitlReviewStatus.approved (inl refl)
      "bob" none "later" resumed
