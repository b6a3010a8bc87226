-- ===== src/Runtime/Invokes.antt =====
-- Which Lambda functions a turn calls.
use agent_builder_factory_ap.Base.{
  String, ◌≡◌, refl, subst, Bool, true, false, Option, none, some, List, [], ◌∷◌, Memᴰ, Result, ok,
  err, pure, continue, ◌>>=◌, ◌>>◌, if◌then◌else◌, ◌⊎◌, inl, inr, ap, string_key,
}
use agent_builder_factory_ap.Tools.Policy.{ToolError, Invocation}
use agent_builder_factory_ap.Tools.Executor.{ToolCall, ToolResult, execute}
use agent_builder_factory_ap.Tools.Permitted.{Justified, only_permitted_tools_run}
use agent_builder_factory_ap.Approval.Review.{World, Step}
use agent_builder_factory_ap.Approval.Resume.{request_approval}
use agent_builder_factory_ap.Runtime.Guardrail.{Source, GuardrailResult, check}
use agent_builder_factory_ap.Runtime.Prompt.{Message, create_review}
use agent_builder_factory_ap.Runtime.Rag.{retrieve}
use agent_builder_factory_ap.Runtime.State.{
  Agent, LlmResult, Outside, RunError, ChatRequest, RuntimeTables, Process, returned, in_guardrail,
  in_rag, in_reviews, review_table, attempt, audit, load_memory, save_memory, complete, record_cost,
}
use agent_builder_factory_ap.Runtime.Orchestrator.{
  Response, Turn, add_tokens, or_message, result_of, turn_of, finalize, request_tool_approval,
  answer_tools, after_tools, run_tools, after_reply, ask_model, pause_or_ask, run_checked, run,
}
use agent_builder_factory_ap.Runtime.Calls.{
  invoked, Calls, CallsFrom, Calls-pure, Calls-raise, Calls-same, Calls-bind, Calls-audit,
  CallsFrom-Calls, CallsFrom-bind, calls_rules,
}

-- The invocation is that of a tool call in the model's reply to a prompt that follows the earlier
-- ones, and it is justified without an approval.
pub record ClearedCall (o : Outside) (a : Agent) (earlier : List (List Message)) (i : Invocation)
    : Type 0 where
  pub prompt : List Message
  pub reply : LlmResult
  pub replied : o.complete earlier prompt ≡ ok reply
  pub justified : Justified a.toolbox none reply.tool_calls i

module _ ⦃t : RuntimeTables⦄ where
  module _ (J : Invocation → Type 0) (o : Outside) (a : Agent) where
    Calls-check :
        (policy : Option String) (source : Source) (text : String)
        → Calls J (in_guardrail (check o.guardrail a.tenant_id policy source text))
    unfolding in_guardrail
    Calls-check policy source text = Calls-same J _ (λ p. refl)

    Calls-save :
        (session_id : String) (user_id : Option String) (message response : String)
        → Calls J (save_memory o a session_id user_id message response)
    unfolding save_memory
    Calls-save session_id user_id message response = Calls-same J _ (λ p. refl)

    Calls-complete : (messages : List Message) → Calls J (complete o a messages)
    unfolding complete
    Calls-complete messages = Calls-same J _ (λ p. refl)

    Calls-cost : (r : LlmResult) → Calls J (record_cost o a r)
    unfolding record_cost
    Calls-cost r = Calls-same J _ (λ p. refl)

    Calls-finalize : (u : Turn) (text : String) → Calls J (finalize o a u text)
    unfolding finalize
    Calls-finalize u text = search (calls_rules, Calls-check, Calls-save) depth 12

    Calls-reviews :
        {A : Type 0} (m : Step A)
        → ((w : World) → (m w).1.effects ≡ w.effects)
        → Calls J (in_reviews m)
    unfolding in_reviews
    Calls-reviews m e = Calls-same J (in_reviews m) (λ p. ap (λ f. f.invocations) (e p.world))

    Calls-request :
        (u : Turn) (tool_id : String) (calls : List ToolCall)
        → Calls J (request_tool_approval o a u tool_id calls)
    unfolding request_tool_approval request_approval
    Calls-request u tool_id calls =
        Calls-bind J _ _ (Calls-reviews _ (λ w. refl)) (λ r. Calls-pure J _)

    Calls-answer :
        (u : Turn) (messages : List Message) (r : LlmResult) (results : List ToolResult)
        → Calls J (answer_tools o a u messages r results)
    Calls-answer u messages r results =
        search (calls_rules, Calls-complete, Calls-cost, Calls-finalize) depth 12

    Calls-after_tools :
        (u : Turn) (messages : List Message) (r : LlmResult)
        (x : Result ToolError (List ToolResult))
        → Calls J (after_tools o a u messages r x)
    Calls-after_tools u messages r (ok results) = Calls-answer u messages r results
    Calls-after_tools u messages r (err (ToolError.approval_required tool_id)) =
        Calls-request u tool_id r.tool_calls
    Calls-after_tools u messages r (err (ToolError.denied tool_id reason)) = Calls-raise J _
    Calls-after_tools u messages r (err (ToolError.invalid_risk risk)) = Calls-raise J _
    Calls-after_tools u messages r (err (ToolError.lambda_error e)) = Calls-raise J _

    module _ (earlier : List (List Message))
        (justified : (i : Invocation) → ClearedCall o a earlier i → J i) where
      Calls-execute :
          (prompt : List Message) (r : LlmResult)
          → o.complete earlier prompt ≡ ok r
          → Calls J (attempt (execute o.tools a.toolbox none r.tool_calls))
      unfolding attempt
      Calls-execute prompt r e = record {
        at = λ p h i m.
            elim (only_permitted_tools_run o.tools a.toolbox none r.tool_calls p.world.effects i
              m) [
                | inl k ↦ h i k
                | inr j ↦
                    justified i (record { prompt = prompt; reply = r; replied = e; justified = j })
              ];
      }

      Calls-run_tools :
          (prompt : List Message) (r : LlmResult) (u : Turn)
          → o.complete earlier prompt ≡ ok r
          → Calls J (run_tools o a u prompt r)
      Calls-run_tools prompt r u e =
          Calls-bind J _ _ (Calls-execute prompt r e) (λ x. Calls-after_tools u prompt r x)

      Calls-reply :
          (prompt : List Message) (r : LlmResult) (u : Turn)
          → o.complete earlier prompt ≡ ok r
          → Calls J (after_reply o a u prompt r)
      Calls-reply prompt r u e =
          let rest = Calls-run_tools prompt r u e in
          elim r.tool_calls
            as (λ cs.
              Calls J
                (elim cs [ [] ↦ finalize o a u r.content | c ∷ ds ↦ run_tools o a u prompt r ])) [
                  | [] ↦ Calls-finalize u r.content
                  | c ∷ cs ↦ rest
                ]

      -- the rest of a turn from a reply on
      Calls-replied :
          (prompt : List Message) (x : Result RunError LlmResult) (u : Turn)
          → ((r : LlmResult) → x ≡ ok r → o.complete earlier prompt ≡ ok r)
          → (p : Process) → ((i : Invocation) → Memᴰ i (invoked p) → J i)
          → (i : Invocation)
          → Memᴰ i (
              invoked
                (continue x
                  (λ r.
                    record_cost o a r
                    >> after_reply o a (record u { tokens = add_tokens u.tokens r }) prompt r)
                  p).1)
          → J i
      Calls-replied prompt (ok r) u k p h =
          (Calls-bind J _ _ (Calls-cost r) (λ c. Calls-reply prompt r _ (k r refl))).at p h
      Calls-replied prompt (err x) u k p h = h

      CallsFrom-ask :
          (u : Turn) (messages : List Message) → CallsFrom J earlier (ask_model o a u messages)
      unfolding ask_model complete ◌>>=◌
      CallsFrom-ask u messages = record {
        at = λ p e h.
            Calls-replied messages _ u
              (λ r f. subst (λ c. o.complete c messages ≡ ok r) e (returned _ r f)) _ h;
      }

      CallsFrom-pause :
          (u : Turn) (messages : List Message) (trigger : Option String)
          → CallsFrom J earlier (pause_or_ask o a u messages trigger)
      unfolding create_review
      CallsFrom-pause u messages none = CallsFrom-ask u messages
      CallsFrom-pause u messages (some trigger) =
          CallsFrom-Calls J earlier _
            (Calls-bind J _ _ (Calls-reviews _ (λ w. refl)) (λ r. Calls-pure J _))

      CallsFrom-checked :
          (q : ChatRequest) (message : String) → CallsFrom J earlier (run_checked o a q message)
      unfolding run_checked load_memory in_rag
      CallsFrom-checked q message =
          CallsFrom-bind J earlier (load_memory a q) _
            (record { invocations = λ p. refl; completions = λ p. refl })
            (λ history.
              CallsFrom-bind J earlier
                (in_rag (retrieve o.rag a.tenant_id a.knowledge_base message)) _
                (record { invocations = λ p. refl; completions = λ p. refl })
                (λ kb. CallsFrom-pause _ _ _))

      CallsFrom-stop :
          (q : ChatRequest) (c : GuardrailResult) (b : Bool)
          → CallsFrom J earlier (
              if b
              then (audit "guardrail.input_blocked" a.agent_id
                  >> pure (result_of o (turn_of q) Response.blocked_response_text))
              else run_checked o a q (or_message c.sanitised_text q.message))
      CallsFrom-stop q c true =
          CallsFrom-Calls J earlier _ (Calls-bind J _ _ (Calls-audit J _ _) (λ u. Calls-pure J _))
      CallsFrom-stop q c false = CallsFrom-checked q _

      CallsFrom-run : (q : ChatRequest) → CallsFrom J earlier (run o a q)
      unfolding run in_guardrail
      CallsFrom-run q =
          CallsFrom-bind J earlier
            (in_guardrail
              (check o.guardrail a.tenant_id a.guardrail_policy_id Source.input q.message))
            _ (record { invocations = λ p. refl; completions = λ p. refl })
            (λ c. CallsFrom-stop q c c.blocked)

  -- Whatever the outcome of a turn, each Lambda invocation that it adds is that of a tool call in the
  -- model's reply to a prompt that comes right after the prompts of the earlier turns; it is for a tool of
  -- the agent, and the call has no id or the agent's policy lists its tool, allows it and rates it
  -- below HIGH.
  pub turn_invokes_cleared_tools :
      (o : Outside) (a : Agent) (q : ChatRequest) (p : Process) (i : Invocation)
      → Memᴰ i (run o a q p).1.world.effects.invocations
      → Memᴰ i p.world.effects.invocations ⊎ ClearedCall o a p.completions i
  turn_invokes_cleared_tools o a q p i =
      let J : Invocation → Type 0 =
        (λ j. Memᴰ j p.world.effects.invocations ⊎ ClearedCall o a p.completions j) in
      (CallsFrom-run J o a p.completions (λ j. inr) q).at p refl (λ j. inl) i
