-- ===== src/Runtime/State.antt =====
-- What the orchestrator of services/agent-runtime keeps and calls: the agent's configuration, the services
-- outside, the state of the process, and the actions of the parts on it. The model is a field of
-- Outside; it may depend on the calls before.
use agent_builder_factory_ap.Base.{
  ℕ, ◌≡◌, String, Bool, Option, none, some, List, ◌∷◌, Result, ok, err, Exec, string_key,
}
use agent_builder_factory_ap.Table.{Table}
use agent_builder_factory_ap.Tools.Policy.{ToolError, Effects, write_audit_event}
use agent_builder_factory_ap.Tools.Executor.{Services, Toolbox, ToolCall}
use agent_builder_factory_ap.Approval.Review.{ReviewItem, ApprovalError, World, Step}
use agent_builder_factory_ap.Quota.{Spending, record_llm_cost}
use agent_builder_factory_ap.Runtime.Guardrail.{GuardrailServices, GuardrailState}
use agent_builder_factory_ap.Runtime.Memory.{
  MemoryItem, MemoryConfig, MemoryEnv, Memory, load, save,
}
use agent_builder_factory_ap.Runtime.Prompt.{Message, HitlConfig, TurnEnv}
use agent_builder_factory_ap.Runtime.Rag.{KbConfig, RagServices, RagState}

-- the agent's configuration
pub record Agent : Type 0 where
  pub agent_id : String
  pub tenant_id : String
  pub guardrail_policy_id : Option String
  pub toolbox : Toolbox
  pub knowledge_base : KbConfig
  pub memory : MemoryConfig
  pub human_review : HitlConfig

pub record LlmResult : Type 0 where
  pub content : String
  pub tool_calls : List ToolCall
  pub cost_usd : Option ℕ
  pub input_tokens : Option ℕ
  pub output_tokens : Option ℕ

pub record Outside : Type 0 where
  pub guardrail : GuardrailServices
  pub rag : RagServices
  pub complete : List (List Message) → List Message → Result String LlmResult
  pub tools : Services
  pub mentions : String → String → Bool
  pub period : String
  pub turn : TurnEnv
  pub memory : MemoryEnv

pub data RunError : Type 0 where
  service_error : String → RunError
  tool_error : ToolError → RunError
  review_error : ApprovalError → RunError

-- the message of the user, with the ids that come with it
pub record ChatRequest : Type 0 where
  pub message : String
  pub session_id : String
  pub user_id : Option String

pub record RuntimeTables : Type 1 where
  pub reviews : Table String String ReviewItem
  pub memories : Table String String MemoryItem
  pub spending : Table String String Spending

abbrev pub or_zero : Option ℕ → ℕ
or_zero none = 0
or_zero (some n) = n

abbrev pub as_service : {A : Type 0} → Result String A → Result RunError A
as_service (ok a) = ok a
as_service (err e) = err (RunError.service_error e)

abbrev pub as_review : {A : Type 0} → Result ApprovalError A → Result RunError A
as_review (ok a) = ok a
as_review (err e) = err (RunError.review_error e)

pub returned : {A : Type 0} (x : Result String A) (c : A) → as_service x ≡ ok c → x ≡ ok c
returned (ok a) c h = cc h
returned (err e) c h = cc h

module _ ⦃t : RuntimeTables⦄ where
  instance abbrev pub review_table : Table String String ReviewItem
  review_table = t.reviews

  instance abbrev pub memory_table : Table String String MemoryItem
  memory_table = t.memories

  instance abbrev pub spending_table : Table String String Spending
  spending_table = t.spending

  -- the state of the process and of its tables; `completions` are the prompts that the model got, the
  -- latest first
  pub record Process : Type 0 where
    pub world : World
    pub guardrail : GuardrailState
    pub rag : RagState
    pub memory : Memory
    pub completions : List (List Message)
    pub spending : t.spending.Contents

  abbrev pub Action : Type 0 → Type 0
  Action A = Exec Process RunError A

  -- actions of the parts
  unfoldable pub in_guardrail : {A : Type 0} → Exec GuardrailState String A → Action A
  in_guardrail m p = (as_service (m p.guardrail).0, record p { guardrail = (m p.guardrail).1 })

  unfoldable pub in_rag : {A : Type 0} → Exec RagState String A → Action A
  in_rag m p = (as_service (m p.rag).0, record p { rag = (m p.rag).1 })

  unfoldable pub in_reviews : {A : Type 0} → Step A → Action A
  in_reviews m p = (as_review (m p.world).0, record p { world = (m p.world).1 })

  -- an action of the tools, whose exception is caught
  unfoldable pub attempt : {A : Type 0} → Exec Effects ToolError A → Action (Result ToolError A)
  attempt m p = (
    ok (m p.world.effects).0,
    record p { world = record (p.world) { effects = (m p.world.effects).1 } },
  )

  unfoldable pub audit : String → String → Action Unit
  audit event_type resource p = (
    ok tt,
    record p {
      world = record (p.world) {
        effects = (write_audit_event event_type resource "denied" none p.world.effects).1;
      };
    },
  )

  unfoldable pub load_memory : Agent → ChatRequest → Action String
  load_memory a q p = (ok (load a.memory q.session_id q.user_id p.memory), p)

  unfoldable pub save_memory :
      Outside → Agent → String → Option String → String → String → Action Unit
  save_memory o a session_id user_id message response p = (
    ok tt,
    record p { memory = save o.memory a.memory session_id user_id message response p.memory },
  )

  -- `llm.complete`, and the record of its cost right after it
  unfoldable pub complete : Outside → Agent → List Message → Action LlmResult
  complete o a messages p = (
    as_service (o.complete p.completions messages),
    record p { completions = messages ∷ p.completions },
  )

  unfoldable pub record_cost : Outside → Agent → LlmResult → Action Unit
  record_cost o a r p = (
    ok tt,
    record p {
      spending =
          record_llm_cost o.period a.tenant_id a.agent_id (some (or_zero r.cost_usd)) p.spending;
    },
  )
