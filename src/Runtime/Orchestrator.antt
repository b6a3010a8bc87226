-- ===== src/Runtime/Orchestrator.antt =====
-- services/agent-runtime/orchestrator.py: one turn of the agent, with its guardrails, memory, retrieval,
-- tools and human review. The latency is left out, as is the reason in the guardrail's audit events.
use agent_builder_factory_ap.Base.{
  ℕ, ◌+◌, String, Bool, true, false, Option, none, some, List, [], ◌∷◌, ◌++◌, Result, ok, err, pure,
  raise, ◌>>=◌, ◌>>◌, ◌==◌, if◌then◌else◌, string_key,
}
use agent_builder_factory_ap.Tools.Policy.{ToolError}
use agent_builder_factory_ap.Tools.Executor.{ToolCall, ToolResult, execute}
use agent_builder_factory_ap.Approval.Review.{HitlReviewStatus, HitlReviewRecord, ResumeContext}
use agent_builder_factory_ap.Approval.Resume.{request_approval}
use agent_builder_factory_ap.Runtime.Guardrail.{input, output, GuardrailResult, check}
use agent_builder_factory_ap.Runtime.Prompt.{
  Role, Message, build_messages, pre_check, run_text, create_review,
}
use agent_builder_factory_ap.Runtime.Rag.{retrieve}
use Prim.Native.String.{◌++◌ as append}
use agent_builder_factory_ap.Runtime.State.{
  Agent, LlmResult, Outside, RunError, ChatRequest, RuntimeTables, or_zero, review_table,
  memory_table, spending_table, Action, in_guardrail, in_rag, in_reviews, attempt, audit,
  load_memory, save_memory, complete, record_cost,
}

-- the text of an answer: the model's, or one of the fixed ones
pub data Response : Type 0 where
  reply : String → Response
  blocked_response_text : Response
  hitl_pending_message : Response
  approval_pending_message : Response

pub record Tokens : Type 0 where
  pub input_tokens : ℕ
  pub output_tokens : ℕ

pub record RunResult : Type 0 where
  pub response : Response
  pub session_id : String
  pub run_id : String
  pub hitl_pending : Bool
  pub approval_review_id : Option String
  pub tokens : Tokens

abbrev pub no_tokens : Tokens
no_tokens = record { input_tokens = 0; output_tokens = 0 }

abbrev pub add_tokens : Tokens → LlmResult → Tokens
add_tokens t r = record {
  input_tokens = t.input_tokens + or_zero r.input_tokens;
  output_tokens = t.output_tokens + or_zero r.output_tokens;
}

-- `sanitised_text or message`
abbrev pub or_message : Option String → String → String
or_message none message = message
or_message (some t) message = if t == "" then message else t

-- `next((c for c in tool_calls if c["name"] == tool_id), None)`, and its id
abbrev pub matching_id : String → List ToolCall → Option String
matching_id tool_id [] = none
matching_id tool_id (c ∷ cs) = if c.name == tool_id then c.id else matching_id tool_id cs

-- what a turn knows after its input was checked
pub record Turn : Type 0 where
  pub session_id : String
  pub user_id : Option String
  pub effective_message : String
  pub tokens : Tokens

abbrev pub result_of : Outside → Turn → Response → RunResult
result_of o u response = record {
  response = response;
  session_id = u.session_id;
  run_id = o.turn.run_id;
  hitl_pending = false;
  approval_review_id = none;
  tokens = u.tokens;
}

abbrev text_of : Response → String
text_of (Response.reply s) = s
text_of Response.blocked_response_text = "This request cannot be processed."
text_of Response.hitl_pending_message = "This request requires human review. You will be notified."
text_of Response.approval_pending_message =
    "This action requires human approval before it can proceed. You will be notified once a decision is made."

abbrev pub or_final : Option String → String → String
or_final none final_response = final_response
or_final (some t) final_response = t

abbrev pub context_of : Turn → String → List ToolCall → ResumeContext
context_of u tool_id calls = record {
  session_id = u.session_id;
  tool_id = tool_id;
  tool_calls = calls;
  approved_call_id = matching_id tool_id calls;
}

-- the item of `tool_approval.request_approval`
abbrev pub approval_of : Outside → Agent → Turn → String → List ToolCall → HitlReviewRecord
approval_of o a u tool_id calls = record {
  tenant_id = a.tenant_id;
  review_id = o.turn.review_id;
  agent_id = a.agent_id;
  project_id = none;
  trigger_condition = append "tool_risk:" tool_id;
  context_summary = append (run_text o.turn u.session_id) (append " tool=" tool_id);
  status = HitlReviewStatus.pending;
  timeout_hours = a.human_review.timeout_hours;
  requested_by = append "agent-runtime:" a.agent_id;
  requested_at = o.turn.now;
  reviewed_by = none;
  reviewed_at = none;
  decision_reason = none;
  kind = "tool_approval";
  tool_id = some tool_id;
  resume_context = some (context_of u tool_id calls);
}

abbrev pub with_results : List Message → LlmResult → List ToolResult → List Message
with_results messages r results =
    messages
    ++ (record { role = Role.assistant r.tool_calls; content = r.content }
        ∷ record { role = Role.tool_results results; content = "" }
        ∷ [])

abbrev pub turn_of : ChatRequest → Turn
turn_of q = record {
  session_id = q.session_id;
  user_id = q.user_id;
  effective_message = q.message;
  tokens = no_tokens;
}

module _ ⦃t : RuntimeTables⦄ where
  abbrev pub replace_response : Agent → String → GuardrailResult → Action Response
  replace_response a final_response c =
      if c.blocked
      then (audit "guardrail.output_blocked" a.agent_id >> pure Response.blocked_response_text)
      else pure (Response.reply (or_final c.sanitised_text final_response))

  unfoldable pub finalize : Outside → Agent → Turn → String → Action RunResult
  finalize o a u final_response = do
    c ← in_guardrail (check o.guardrail a.tenant_id a.guardrail_policy_id output final_response)
    response ← replace_response a final_response c
    save_memory o a u.session_id u.user_id u.effective_message (text_of response)
    pure (result_of o u response)

  unfoldable pub request_tool_approval :
      Outside → Agent → Turn → String → List ToolCall → Action RunResult
  request_tool_approval o a u tool_id calls = do
    review_id ← in_reviews (request_approval (approval_of o a u tool_id calls))
    pure (record (result_of o u Response.approval_pending_message) {
      hitl_pending = true;
      approval_review_id = some review_id;
    })

  abbrev pub answer_tools :
      Outside → Agent → Turn → List Message → LlmResult → List ToolResult → Action RunResult
  answer_tools o a u messages r results = do
    final ← complete o a (with_results messages r results)
    record_cost o a final
    finalize o a (record u { tokens = add_tokens u.tokens final }) final.content

  abbrev pub after_tools :
      Outside
      → Agent
      → Turn
      → List Message
      → LlmResult
      → Result ToolError (List ToolResult)
      → Action RunResult
  after_tools o a u messages r (ok results) = answer_tools o a u messages r results
  after_tools o a u messages r (err (ToolError.approval_required tool_id)) =
      request_tool_approval o a u tool_id r.tool_calls
  after_tools o a u messages r (err (ToolError.denied tool_id reason)) =
      raise (RunError.tool_error (ToolError.denied tool_id reason))
  after_tools o a u messages r (err (ToolError.invalid_risk risk)) =
      raise (RunError.tool_error (ToolError.invalid_risk risk))
  after_tools o a u messages r (err (ToolError.lambda_error e)) =
      raise (RunError.tool_error (ToolError.lambda_error e))

  abbrev pub run_tools : Outside → Agent → Turn → List Message → LlmResult → Action RunResult
  run_tools o a u messages r = do
    results ← attempt (execute o.tools a.toolbox none r.tool_calls)
    after_tools o a u messages r results

  abbrev pub after_reply : Outside → Agent → Turn → List Message → LlmResult → Action RunResult
  after_reply o a u messages r = elim r.tool_calls [
    | [] ↦ finalize o a u r.content
    | c ∷ cs ↦ run_tools o a u messages r
  ]

  unfoldable pub ask_model : Outside → Agent → Turn → List Message → Action RunResult
  ask_model o a u messages = do
    r ← complete o a messages
    record_cost o a r
    after_reply o a (record u { tokens = add_tokens u.tokens r }) messages r

  abbrev pub pause_or_ask : Outside → Agent → Turn → List Message → Option String → Action RunResult
  pause_or_ask o a u messages none = ask_model o a u messages
  pause_or_ask o a u messages (some trigger) = do
    in_reviews (create_review o.turn a.human_review u.effective_message u.session_id trigger)
    pure (record (result_of o u Response.hitl_pending_message) { hitl_pending = true })

  unfoldable pub run_checked : Outside → Agent → ChatRequest → String → Action RunResult
  run_checked o a q message = do
    history ← load_memory a q
    kb ← in_rag (retrieve o.rag a.tenant_id a.knowledge_base message)
    let u : Turn = record {
      session_id = q.session_id;
      user_id = q.user_id;
      effective_message = message;
      tokens = no_tokens;
    }
    let messages = build_messages message kb history
    pause_or_ask o a u messages (pre_check o.mentions a.human_review message)

  abbrev pub stop_or_run : Outside → Agent → ChatRequest → GuardrailResult → Action RunResult
  stop_or_run o a q c =
      if c.blocked
      then (audit "guardrail.input_blocked" a.agent_id
          >> pure (result_of o (turn_of q) Response.blocked_response_text))
      else run_checked o a q (or_message c.sanitised_text q.message)

  unfoldable pub run : Outside → Agent → ChatRequest → Action RunResult
  run o a q = do
    c ← in_guardrail (check o.guardrail a.tenant_id a.guardrail_policy_id input q.message)
    stop_or_run o a q c
