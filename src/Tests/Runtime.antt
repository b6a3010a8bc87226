-- ===== src/Tests/Runtime.antt =====
-- Witnesses on an agent with a guardrail, a session memory and a refund tool that needs approval.
use agent_builder_factory_ap.Base.{
  ℕ, String, ◌≡◌, refl, true, false, none, some, List, [], ◌∷◌, ok, err, ◌⊎◌, if◌then◌else◌, ◌==◌,
  pure, raise, string_key, nat_key, ◌>>=◌,
}
use agent_builder_factory_ap.Table.Assoc.{assoc_table}
use agent_builder_factory_ap.Registry.Models.{AgentRecord}
use agent_builder_factory_ap.Authentication.{AuthContext}
use agent_builder_factory_ap.Tools.Policy.{
  write_audit_event, enforce, check as check_policy, policy_of,
}
use agent_builder_factory_ap.Tools.Executor.{invoke, execute}
use agent_builder_factory_ap.Approval.Resume.{request_approval}
use agent_builder_factory_ap.Runtime.Guardrail.{
  input, output, GuardrailServices, fresh_state, blocked_for, resolve, check,
}
use agent_builder_factory_ap.Runtime.Closed.{
  Passed, check_all, guardrail_fails_closed, unresolved_blocks_forever,
}
use agent_builder_factory_ap.Runtime.Memory.{turns_of, load, load_session, save}
use agent_builder_factory_ap.Runtime.Window.{Said, said_in, save_all, last, session_is_a_window}
use agent_builder_factory_ap.Runtime.Prompt.{build_messages, pre_check}
use agent_builder_factory_ap.Runtime.Rag.{retrieve}
use agent_builder_factory_ap.Runtime.State.{
  Agent, Outside, ChatRequest, RuntimeTables, Process, in_guardrail, in_rag, in_reviews, attempt,
  audit, load_memory, save_memory, complete, record_cost,
}
use agent_builder_factory_ap.Runtime.Orchestrator.{
  Response, RunResult, request_tool_approval, finalize, ask_model, run_checked, run,
}
use agent_builder_factory_ap.Runtime.Replies.{SeenByBedrock, replies_are_screened}
use agent_builder_factory_ap.Runtime.Pauses.{Resumes, approved_turn_resumes}
use agent_builder_factory_ap.Runtime.Jwt.{Authorization}
use agent_builder_factory_ap.Runtime.Gate.{Limits, HttpRequest, Credentials, GateState}
use agent_builder_factory_ap.Tests.Approval.{services, box, calls, no_effects, clock}
use agent_builder_factory_ap.Tests.Quota.{memory}
use agent_builder_factory_ap.Tests.Registry.{agent as registered}

-- a catalog with one guardrail, which replaces one word and answers nothing else
abbrev bedrock : GuardrailServices
bedrock = record {
  get_policy = λ t p.
      ok (some (record { bedrock_guardrail_id = some "g1"; bedrock_guardrail_version = none }));
  apply_guardrail = λ i v source text.
      if text == "my card is 4111"
      then ok (record { intervened = true; outputs = some "my card is {CARD}" ∷ [] })
      else if text == "how to steal"
      then ok (record { intervened = true; outputs = [] })
      else ok (record { intervened = false; outputs = [] });
}

guardrail_fails_closed_example :
    Passed bedrock input "my card is 4111"
      (record { blocked = false; sanitised_text = some "my card is {CARD}"; reason = none })
unfolding check resolve pure ◌>>=◌
guardrail_fails_closed_example =
    guardrail_fails_closed bedrock "t1" (some "p1") input "my card is 4111" fresh_state
      (record { blocked = false; sanitised_text = some "my card is {CARD}"; reason = none }) refl
      refl refl

abbrev broken : GuardrailServices
broken = record bedrock { get_policy = λ t p. err "throttled" }

unresolved_blocks_forever_example :
    (check bedrock "t1" (some "p1") input "hello" (
      check_all "t1"
        (some "p1")
        (record { services = broken; source = input; text = "hello" }
          ∷ record { services = bedrock; source = output; text = "bye" }
          ∷ [])
        fresh_state)).0
    ≡ ok (blocked_for "guardrail_not_resolved")
unresolved_blocks_forever_example =
    unresolved_blocks_forever "t1" "p1"
      (record { services = broken; source = input; text = "hello" })
      (record { services = bedrock; source = output; text = "bye" } ∷ [])
      (record { services = bedrock; source = input; text = "hello" }) refl refl

abbrev log : List Said
log =
    record { session_id = "s1"; message = "c"; response = "C" }
    ∷ record { session_id = "s2"; message = "x"; response = "X" }
    ∷ record { session_id = "s1"; message = "b"; response = "B" }
    ∷ record { session_id = "s1"; message = "a"; response = "A" }
    ∷ []

abbrev size : ℕ
size = 2

session_is_a_window_example :
    turns_of (save_all size log) "s1"
    ≡ (if size == 0 then said_in "s1" log else last size (said_in "s1" log))
session_is_a_window_example = session_is_a_window size log "s1"

instance abbrev pub tables : RuntimeTables
tables = record { reviews = assoc_table; memories = assoc_table; spending = assoc_table }

abbrev pub support : Agent
support = record {
  agent_id = "support";
  tenant_id = "t1";
  guardrail_policy_id = some "p1";
  toolbox = box;
  knowledge_base = record { enabled = false; kb_id = none; top_k = 5 };
  memory = record {
    agent_id = "support";
    memory_type = "session";
    ttl_days = 30;
    max_session_turns = 50;
  };
  human_review = record {
    agent_id = "support";
    tenant_id = "t1";
    enabled = true;
    trigger_conditions = "legal_advice" ∷ [];
    timeout_hours = 24;
  };
}

-- the model asks for the two tools of the toolbox when it is asked for a refund
abbrev pub outside : Outside
outside = record {
  guardrail = bedrock;
  rag = record { get_kb = λ t i. ok none; retrieve = λ i q n. ok [] };
  complete = λ past messages. ok (record {
    content = "Of course.";
    tool_calls = elim messages [
      | [] ↦ []
      | m ∷ ms ↦ if m.content == "refund order 7" then calls else []
    ];
    cost_usd = some 3;
    input_tokens = some 10;
    output_tokens = some 4;
  });
  tools = services;
  mentions = λ c m. m == c;
  period = "2026-01";
  turn = record { now = "now"; run_id = "r1"; review_id = "TAPR-1"; clip = λ s. s };
  memory = record { now = 0; now_text = "now"; memory_id = "m1"; clip = λ s. s };
}

abbrev pub start : Process
start = record {
  world = record { reviews = []; effects = no_effects };
  guardrail = fresh_state;
  rag = record { resolved = false; bedrock_kb_id = none };
  memory = record { session_turns = []; items = [] };
  completions = [];
  spending = [];
}

abbrev pub chat : String → ChatRequest
chat message = record { message = message; session_id = "s1"; user_id = none }

abbrev answer : RunResult
answer = record {
  response = Response.reply "Of course.";
  session_id = "s1";
  run_id = "r1";
  hitl_pending = false;
  approval_review_id = none;
  tokens = record { input_tokens = 10; output_tokens = 4 };
}

replies_are_screened_example :
    (answer.response ≡ Response.blocked_response_text)
    ⊎ SeenByBedrock outside support answer.response
unfolding run run_checked ask_model finalize in_guardrail in_rag attempt audit load_memory
    save_memory complete record_cost check resolve retrieve build_messages pre_check load
    load_session save pure ◌>>=◌
replies_are_screened_example =
    replies_are_screened outside support refl (chat "hello") start answer
      (run outside support (chat "hello") start).1 refl refl

abbrev pending : RunResult
pending = record {
  response = Response.approval_pending_message;
  session_id = "s1";
  run_id = "r1";
  hitl_pending = true;
  approval_review_id = some "TAPR-1";
  tokens = record { input_tokens = 10; output_tokens = 4 };
}

approved_turn_resumes_example :
    Resumes outside support
      (chat "refund order 7")
      start
      (run outside support (chat "refund order 7") start).1
      "TAPR-1"
      "ann"
      none
      "later"
      clock
      services
      box
unfolding run run_checked ask_model finalize in_guardrail in_rag in_reviews attempt audit
    load_memory save_memory complete record_cost check resolve retrieve build_messages pre_check
    load load_session save pure ◌>>=◌ request_tool_approval request_approval execute invoke enforce
    check_policy policy_of write_audit_event raise
approved_turn_resumes_example =
    approved_turn_resumes outside support (chat "refund order 7") start pending
      (run outside support (chat "refund order 7") start).1 "TAPR-1" refl refl "ann" none "later"
      clock services box

abbrev agent_record : AgentRecord
agent_record = record (registered) {
  api_key_secret_arn = some "arn:1";
  current_month_spend_usd = 40;
  current_month_spend_period = some "2026-01";
}

abbrev request : HttpRequest
request = record {
  path = "/chat";
  authorization = Authorization.bearer "key-1" false;
  now = 120;
  period = "2026-01";
  agent_record = ok agent_record;
}

abbrev credentials : Credentials
credentials = record {
  secret = λ arn. "key-1";
  jwt = record {
    unverified_kid = λ token. none;
    fetch_jwks = λ url. none;
    decode = λ token key issuer audience. none;
  };
}

abbrev limits : Limits
limits = record { rate_limit_rpm = some 10; rate_limit_rpd = none; monthly_budget_usd = some 50 }

abbrev caller : AuthContext
caller = record {
  tenant_id = "t1";
  agent_id = "support";
  principal_id = "api_key_caller";
  auth_method = "api_key";
}

abbrev gate : GateState memory
gate = record { counters = λ k. none; effects = no_effects }
