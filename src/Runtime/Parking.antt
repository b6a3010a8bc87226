-- ===== src/Runtime/Parking.antt =====
-- A turn that returns the id of an approval has parked the tool calls of the model's reply in its review.
use agent_builder_factory_ap.Base.{
  String, ◌≡◌, refl, ap, subst, true, Option, none, some, List, [], ◌∷◌, Result, ok, err, pure,
  ◌>>=◌, string_key,
}
use agent_builder_factory_ap.Table.{get-put_self}
use agent_builder_factory_ap.Tools.Policy.{ToolError}
use agent_builder_factory_ap.Tools.Executor.{ToolCall, ToolResult, execute}
use agent_builder_factory_ap.Approval.Review.{Attribute, ReviewItem}
use agent_builder_factory_ap.Approval.Resume.{request_approval}
use agent_builder_factory_ap.Approval.Claims.{item_at}
use agent_builder_factory_ap.Runtime.Guardrail.{GuardrailResult}
use agent_builder_factory_ap.Runtime.Prompt.{Message}
use agent_builder_factory_ap.Runtime.State.{
  Agent, LlmResult, Outside, RunError, ChatRequest, RuntimeTables, review_table, memory_table,
  spending_table, Process, in_reviews, in_guardrail, in_rag, load_memory, attempt, record_cost,
  complete, returned,
}
use agent_builder_factory_ap.Runtime.Orchestrator.{
  Response, RunResult, Turn, result_of, approval_of, finalize, request_tool_approval, after_tools,
  run_tools, ask_model, pause_or_ask, run_checked, stop_or_run, run,
}
use agent_builder_factory_ap.Runtime.Post.{
  Post, PostFrom, Post-pure, Post-bind, PostFrom-Post, PostFrom-if, PostFrom-after, PostFrom-bind,
  post_rules,
}

module _ ⦃t : RuntimeTables⦄ (o : Outside) (a : Agent) where
  -- The review holds what the resumption needs of the one reply of the model in a turn from `p` to
  -- `p'`: its tool calls, and the tool at which the batch stopped.
  pub record Parked (q : ChatRequest) (p : Process) (id : String) (p' : Process) : Type 0 where
    pub turn : Turn
    pub same_session : turn.session_id ≡ q.session_id
    pub prompt : List Message
    pub last_prompt : p'.completions ≡ prompt ∷ p.completions
    pub reply : LlmResult
    pub asked : o.complete p.completions prompt ≡ ok reply
    pub tool_id : String
    pub stopped :
        (execute o.tools a.toolbox none reply.tool_calls p.world.effects).0
        ≡ err (ToolError.approval_required tool_id)
    pub stored :
        item_at p'.world a.tenant_id id
        ≡ some (record {
          fields = some (approval_of o a turn tool_id reply.tool_calls);
          resumed_at = Attribute.missing;
        })
    pub named : id ≡ o.turn.review_id

  -- what holds of a process before it asks the model, and after the model has replied
  record Before (p p' : Process) : Type 0 where
    completions : p'.completions ≡ p.completions
    effects : p'.world.effects ≡ p.world.effects

  record Replied (p : Process) (prompt : List Message) (r : LlmResult) (p' : Process) : Type 0 where
    asked : o.complete p.completions prompt ≡ ok r
    last_prompt : p'.completions ≡ prompt ∷ p.completions
    effects : p'.world.effects ≡ p.world.effects

  record Tried (p : Process) (prompt : List Message) (r : LlmResult)
      (x : Result ToolError (List ToolResult)) (p' : Process) : Type 0 where
    asked : o.complete p.completions prompt ≡ ok r
    last_prompt : p'.completions ≡ prompt ∷ p.completions
    result : (execute o.tools a.toolbox none r.tool_calls p.world.effects).0 ≡ x

  -- the answer of a turn that is paused for an approval
  abbrev paused : Turn → RunResult
  paused u = record (result_of o u Response.approval_pending_message) {
    hitl_pending = true;
    approval_review_id = some o.turn.review_id;
  }

  answered : (x y : RunResult) → Path (Result RunError RunResult) (ok x) (ok y) → x ≡ y
  answered x y h = cc h

  module _ (q : ChatRequest) (p : Process) where
    abbrev Awaits : RunResult → Process → Type 0
    Awaits r p' = (id : String) → r.approval_review_id ≡ some id → Parked q p id p'

    Post-unparked : (r : RunResult) → r.approval_review_id ≡ none → Post Awaits (pure r)
    Post-unparked r e = Post-pure Awaits r (λ p' id f. cc (e, f))

    Post-finalize : (u : Turn) (s : String) → Post Awaits (finalize o a u s)
    unfolding finalize
    Post-finalize u s = Post-bind Awaits _ _ (λ c.
        Post-bind Awaits _ _ (λ response. Post-bind Awaits _ _ (λ saved. Post-unparked _ refl)))

    PostFrom-request :
        (u : Turn) (id : String) (prompt : List Message) (r : LlmResult)
        → u.session_id ≡ q.session_id
        → PostFrom Awaits
            (Tried p prompt r (err (ToolError.approval_required id)))
            (request_tool_approval o a u id r.tool_calls)
    unfolding request_tool_approval request_approval in_reviews pure ◌>>=◌
    PostFrom-request u id prompt r same = record {
      at = λ s x p' j h i f.
          let answer : paused u ≡ x = answered (paused u) x (ap (λ z. z.0) h) in
          let named : i ≡ o.turn.review_id = cc (answer, f) in
          let item : ReviewItem = record {
            fields = some (approval_of o a u id r.tool_calls);
            resumed_at = Attribute.missing;
          } in
          record {
            turn = u;
            same_session = same;
            prompt = prompt;
            last_prompt =
                subst (λ z. z.completions ≡ prompt ∷ p.completions) (ap (λ z. z.1) h) j.last_prompt;
            reply = r;
            asked = j.asked;
            tool_id = id;
            stopped = j.result;
            stored = rw named (
                subst (λ z. item_at z.world a.tenant_id o.turn.review_id ≡ some item)
                  (ap (λ z. z.1) h)
                  (get-put_self t.reviews s.world.reviews a.tenant_id o.turn.review_id item));
            named = named;
          };
    }

    PostFrom-after_tools :
        (u : Turn) (ms : List Message) (r : LlmResult) (x : Result ToolError (List ToolResult))
        → u.session_id ≡ q.session_id
        → PostFrom Awaits (Tried p ms r x) (after_tools o a u ms r x)
    PostFrom-after_tools u ms r (ok results) e =
        let fin = Post-finalize in PostFrom-Post Awaits _ _ (search (post_rules, fin))
    PostFrom-after_tools u ms r (err (ToolError.approval_required id)) e =
        PostFrom-request u id ms r e
    PostFrom-after_tools u ms r (err (ToolError.denied id reason)) e =
        PostFrom-Post Awaits _ _ (search post_rules)
    PostFrom-after_tools u ms r (err (ToolError.invalid_risk risk)) e =
        PostFrom-Post Awaits _ _ (search post_rules)
    PostFrom-after_tools u ms r (err (ToolError.lambda_error x)) e =
        PostFrom-Post Awaits _ _ (search post_rules)

    tried :
        (ms : List Message) (r : LlmResult) (s : Process) (x : Result ToolError (List ToolResult))
        → Replied p ms r s
        → (attempt (execute o.tools a.toolbox none r.tool_calls) s).0 ≡ ok x
        → Tried p ms r x (attempt (execute o.tools a.toolbox none r.tool_calls) s).1
    unfolding attempt
    tried ms r s x i h = record {
      asked = i.asked;
      last_prompt = i.last_prompt;
      result = subst (λ e. (execute o.tools a.toolbox none r.tool_calls e).0 ≡ x) i.effects (cc h);
    }

    PostFrom-after_calls :
        (u : Turn) (ms : List Message) (r : LlmResult) (calls : List ToolCall)
        → u.session_id ≡ q.session_id
        → PostFrom Awaits
            (Replied p ms r)
            (elim calls [ [] ↦ finalize o a u r.content | c ∷ cs ↦ run_tools o a u ms r ])
    PostFrom-after_calls u ms r [] e = PostFrom-Post Awaits _ _ (Post-finalize u r.content)
    PostFrom-after_calls u ms r (c ∷ cs) e =
        PostFrom-after Awaits (Replied p ms r) (Tried p ms r) _ _ (λ s i x. tried ms r s x i)
          (λ x. PostFrom-after_tools u ms r x e)

    replied :
        (ms : List Message) (s : Process) (r : LlmResult)
        → Before p s
        → (complete o a ms s).0 ≡ ok r
        → Replied p ms r (complete o a ms s).1
    unfolding complete
    replied ms s r i h = record {
      asked =
          subst (λ c. o.complete c ms ≡ ok r) i.completions
            (returned (o.complete s.completions ms) r h);
      last_prompt = ap (λ c. ms ∷ c) i.completions;
      effects = i.effects;
    }

    recorded :
        (ms : List Message) (r : LlmResult) (s : Process)
        → Replied p ms r s
        → Replied p ms r (record_cost o a r s).1
    unfolding record_cost
    recorded ms r s i = record { asked = i.asked; last_prompt = i.last_prompt; effects = i.effects }

    PostFrom-ask :
        (u : Turn) (ms : List Message)
        → u.session_id ≡ q.session_id
        → PostFrom Awaits (Before p) (ask_model o a u ms)
    unfolding ask_model
    PostFrom-ask u ms e =
        PostFrom-after Awaits (Before p) (Replied p ms) _ _ (λ s i r. replied ms s r i)
          (λ r.
            PostFrom-bind Awaits (Replied p ms r) _ _ (recorded ms r)
              (λ c. PostFrom-after_calls _ ms r r.tool_calls e))

    PostFrom-pause :
        (u : Turn) (ms : List Message) (x : Option String)
        → u.session_id ≡ q.session_id
        → PostFrom Awaits (Before p) (pause_or_ask o a u ms x)
    PostFrom-pause u ms none e = PostFrom-ask u ms e
    PostFrom-pause u ms (some trigger) e =
        PostFrom-Post Awaits _ _ (Post-bind Awaits _ _ (λ r. Post-unparked _ refl))

    PostFrom-stop : (c : GuardrailResult) → PostFrom Awaits (Before p) (stop_or_run o a q c)
    unfolding run_checked load_memory in_rag
    PostFrom-stop c =
        PostFrom-if Awaits (Before p) c.blocked _ _
          (PostFrom-Post Awaits _ _ (Post-bind Awaits _ _ (λ x. Post-unparked _ refl)))
          (PostFrom-bind Awaits (Before p) (load_memory a q) _ (λ s i. i)
            (λ h.
              PostFrom-bind Awaits (Before p) (in_rag _) _
                (λ s i. record { completions = i.completions; effects = i.effects })
                (λ kb. PostFrom-pause _ _ _ refl)))

    pub run-Parked :
        (r : RunResult) (p' : Process) (id : String)
        → run o a q p ≡ (ok r, p')
        → r.approval_review_id ≡ some id
        → Parked q p id p'
    unfolding run in_guardrail
    run-Parked r p' id h =
        (PostFrom-bind Awaits (Before p) (in_guardrail _) _
            (λ s i. record { completions = i.completions; effects = i.effects }) PostFrom-stop).at
          p r p' (record { completions = refl; effects = refl }) h id
