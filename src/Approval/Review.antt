-- ===== src/Approval/Review.antt =====
-- app/modules/hitl/models.py and app/modules/hitl/store.py: the reviews and the decisions on them.
use agent_builder_factory_ap.Base.{
  ℕ, String, Bool, true, false, Option, none, some, List, Result, ok, err, Exec, pure, guard,
  require_some, ◌>>=◌, ◌>>◌, string_key,
}
use agent_builder_factory_ap.Table.{Table}
use agent_builder_factory_ap.Tools.Policy.{ToolError, Effects}
use agent_builder_factory_ap.Tools.Executor.{ToolCall}

pub data HitlReviewStatus : Type 0 where
  pending : HitlReviewStatus
  approved : HitlReviewStatus
  rejected : HitlReviewStatus
  info_requested : HitlReviewStatus

-- The JSON text of resume_context, read back: what is needed to go on with the paused turn.
pub record ResumeContext : Type 0 where
  pub session_id : String
  pub tool_id : String
  pub tool_calls : List ToolCall
  pub approved_call_id : Option String

-- a nullable attribute of an item, which may also be missing
pub data Attribute (A : Type 0) : Type 0 where
  missing : Attribute A
  null : Attribute A
  set : A → Attribute A

pub record HitlReviewRecord : Type 0 where
  pub tenant_id : String
  pub review_id : String
  pub agent_id : String
  pub project_id : Option String
  pub trigger_condition : String
  pub context_summary : String
  pub status : HitlReviewStatus
  pub timeout_hours : ℕ
  pub requested_by : String
  pub requested_at : String
  pub reviewed_by : Option String
  pub reviewed_at : Option String
  pub decision_reason : Option String
  pub kind : String
  pub tool_id : Option String
  pub resume_context : Option ResumeContext

-- An item of the table. The record's last field, resumed_at, is kept apart because an UpdateItem sets
-- it alone, also on an item that has nothing else.
pub record ReviewItem : Type 0 where
  pub fields : Option HitlReviewRecord
  pub resumed_at : Attribute String

-- a record as the model reads it
pub record Review : Type 0 where
  pub fields : HitlReviewRecord
  pub resumed_at : Option String

-- `model_dump`, which writes a missing resumed_at as NULL
abbrev pub dump_time : Option String → Attribute String
dump_time none = Attribute.null
dump_time (some t) = Attribute.set t

abbrev pub load_time : Attribute String → Option String
load_time Attribute.missing = none
load_time Attribute.null = none
load_time (Attribute.set t) = some t

unfoldable pub model_dump : Review → ReviewItem
model_dump r = record { fields = some r.fields; resumed_at = dump_time r.resumed_at }

pub data ApprovalError : Type 0 where
  review_not_found : String → ApprovalError
  already_decided : String → HitlReviewStatus → ApprovalError
  validation_error : ApprovalError
  tool_error : ToolError → ApprovalError

abbrev pub model_load : Option ReviewItem → Result ApprovalError (Option Review)
model_load none = ok none
model_load (some i) = elim i.fields [
  | none ↦ err ApprovalError.validation_error
  | some f ↦ ok (some (record { fields = f; resumed_at = load_time i.resumed_at }))
]

abbrev pub is_pending : HitlReviewStatus → Bool
is_pending HitlReviewStatus.pending = true
is_pending HitlReviewStatus.approved = false
is_pending HitlReviewStatus.rejected = false
is_pending HitlReviewStatus.info_requested = false

module _ ⦃t : Table String String ReviewItem⦄ where
  -- the table, and what the agent's runtime did
  pub record World : Type 0 where
    pub reviews : t.Contents
    pub effects : Effects

  abbrev pub Step : Type 0 → Type 0
  Step A = Exec World ApprovalError A

  unfoldable pub put_review : Review → Step Unit
  put_review r w = (
    ok tt,
    record w {
      reviews = t.put_item w.reviews r.fields.tenant_id r.fields.review_id (model_dump r);
    },
  )

  unfoldable pub get : String → String → Step (Option Review)
  get tenant_id review_id w = (model_load (t.get_item w.reviews tenant_id review_id), w)

  -- `create`, and the put of `request_approval`, with a new review_id
  unfoldable pub create : HitlReviewRecord → Step Review
  create f = do let r : Review = record { fields = f; resumed_at = none }; put_review r; pure r

  abbrev pub check_pending : String → Option Review → Step Review
  check_pending review_id found = do
    r ← require_some (ApprovalError.review_not_found review_id) found
    guard (is_pending r.fields.status) (ApprovalError.already_decided review_id r.fields.status)
    pure r

  unfoldable pub require_pending : String → String → Step Review
  require_pending tenant_id review_id = do
    found ← get tenant_id review_id
    check_pending review_id found

  unfoldable pub decided : HitlReviewStatus → String → Option String → String → Review → Review
  decided new_status reviewed_by reason now r = record r {
    fields = record (r.fields) {
      status = new_status;
      reviewed_by = some reviewed_by;
      reviewed_at = some now;
      decision_reason = reason;
    };
  }

  -- `_decide`: approve, reject and request_info pass their status
  unfoldable pub decide :
      String → String → HitlReviewStatus → String → Option String → String → Step Review
  decide tenant_id review_id new_status reviewed_by reason now = do
    r ← require_pending tenant_id review_id
    let r' = decided new_status reviewed_by reason now r
    put_review r'
    pure r'
