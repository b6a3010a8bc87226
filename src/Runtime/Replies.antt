-- ===== src/Runtime/Replies.antt =====
-- What a turn answers.
use agent_builder_factory_ap.Base.{
  String, ◌≡◌, refl, Bool, true, false, Option, none, some, List, [], ◌∷◌, Result, ok, err, Exec,
  pure, ◌>>=◌, ◌>>◌, ◌⊎◌, inl, inr, Bool-cases, if◌then◌else◌,
}
use agent_builder_factory_ap.Tools.Policy.{ToolError}
use agent_builder_factory_ap.Tools.Executor.{ToolCall, ToolResult}
use agent_builder_factory_ap.Runtime.Guardrail.{
  output, GuardrailResult, GuardrailState, is_set, check,
}
use agent_builder_factory_ap.Runtime.Closed.{Passed, guardrail_fails_closed}
use agent_builder_factory_ap.Runtime.Prompt.{Message}
use agent_builder_factory_ap.Runtime.State.{
  Agent, LlmResult, Outside, ChatRequest, RuntimeTables, review_table, memory_table, spending_table,
  Process, in_guardrail, audit, returned,
}
use agent_builder_factory_ap.Runtime.Orchestrator.{
  Response, RunResult, Turn, result_of, or_final, replace_response, finalize, request_tool_approval,
  after_tools, run_tools, ask_model, pause_or_ask, run_checked, stop_or_run, run,
}
use agent_builder_factory_ap.Runtime.Post.{
  Post, Post-pure, Post-after, Post-bind, Post-if, post_rules,
}

-- a reply that the output guardrail let through, or put in the place of one
pub record SeenByBedrock (o : Outside) (a : Agent) (response : Response) : Type 0 where
  pub final_response : String
  pub result : GuardrailResult
  pub passed : Passed o.guardrail output final_response result
  pub replied : response ≡ Response.reply (or_final result.sanitised_text final_response)

module _ ⦃t : RuntimeTables⦄ (o : Outside) (a : Agent)
    (enabled : is_set a.guardrail_policy_id ≡ true) where
  -- an answer that is not the notice of a pause was screened
  abbrev Answers : RunResult → Process → Type 0
  Answers r p =
      r.hitl_pending ≡ false
      → (r.response ≡ Response.blocked_response_text) ⊎ SeenByBedrock o a r.response

  -- the check of an output lets the text pass only after Bedrock's answer
  abbrev IsEnabledPass : String → GuardrailResult → Type 0
  IsEnabledPass s c = c.blocked ≡ false → Passed o.guardrail output s c

  guardrail_value :
      {A : Type 0} (m : Exec GuardrailState String A) (p : Process) (c : A)
      → (in_guardrail m p).0 ≡ ok c
      → (m p.guardrail).0 ≡ ok c
  unfolding in_guardrail
  guardrail_value m p c h = returned (m p.guardrail).0 c h

  replaced_by :
      (b : Bool) (x : String) (p : Process) (response : Response)
      → ((if b
            then (audit "guardrail.output_blocked" a.agent_id
                >> pure Response.blocked_response_text)
            else pure (Response.reply x))
          p).0
        ≡ ok response
      → response ≡ (if b then Response.blocked_response_text else Response.reply x)
  unfolding pure ◌>>=◌ audit
  replaced_by true x p response h = cc h
  replaced_by false x p response h = cc h

  replaced :
      (s : String) (c : GuardrailResult) (p : Process) (response : Response)
      → IsEnabledPass s c
      → (replace_response a s c p).0 ≡ ok response
      → (response ≡ Response.blocked_response_text) ⊎ SeenByBedrock o a response
  replaced s c p response k h =
      let e = replaced_by c.blocked (or_final c.sanitised_text s) p response h in
      elim (Bool-cases c.blocked) [
        | inl b ↦ inl (cc (e, b))
        | inr b ↦ inr (record { final_response = s; result = c; passed = k b; replied = cc (e, b) })
      ]

  Post-finalize : (u : Turn) (s : String) → Post Answers (finalize o a u s)
  unfolding finalize
  Post-finalize u s =
      Post-after Answers
        (in_guardrail (check o.guardrail a.tenant_id a.guardrail_policy_id output s)) _
        (λ p c e. Post-after Answers (replace_response a s c) _ (λ p' response e'.
          Post-bind Answers _ _ (λ saved. Post-pure Answers (result_of o u response) (λ p'' f.
            replaced s c p' response
              (guardrail_fails_closed o.guardrail a.tenant_id a.guardrail_policy_id output s
                p.guardrail c enabled
                (guardrail_value (check o.guardrail a.tenant_id a.guardrail_policy_id output s) p c
                  e))
              e'))))

  Post-request :
      (u : Turn) (id : String) (calls : List ToolCall)
      → Post Answers (request_tool_approval o a u id calls)
  unfolding request_tool_approval
  Post-request u id calls = Post-bind Answers _ _ (λ r. Post-pure Answers _ (λ p f. cc f))

  Post-after_tools :
      (u : Turn) (ms : List Message) (r : LlmResult) (x : Result ToolError (List ToolResult))
      → Post Answers (after_tools o a u ms r x)
  Post-after_tools u ms r (ok results) = let fin = Post-finalize in search (post_rules, fin)
  Post-after_tools u ms r (err (ToolError.approval_required id)) = Post-request u id r.tool_calls
  Post-after_tools u ms r (err (ToolError.denied id reason)) = search post_rules
  Post-after_tools u ms r (err (ToolError.invalid_risk risk)) = search post_rules
  Post-after_tools u ms r (err (ToolError.lambda_error e)) = search post_rules

  Post-after_calls :
      (u : Turn) (ms : List Message) (r : LlmResult) (calls : List ToolCall)
      → Post Answers (elim calls [ [] ↦ finalize o a u r.content | c ∷ cs ↦ run_tools o a u ms r ])
  Post-after_calls u ms r [] = Post-finalize u r.content
  Post-after_calls u ms r (c ∷ cs) = Post-bind Answers _ _ (Post-after_tools u ms r)

  Post-ask : (u : Turn) (ms : List Message) → Post Answers (ask_model o a u ms)
  unfolding ask_model
  Post-ask u ms =
      Post-bind Answers _ _
        (λ r. Post-bind Answers _ _ (λ recorded. Post-after_calls _ ms r r.tool_calls))

  Post-pause :
      (u : Turn) (ms : List Message) (x : Option String) → Post Answers (pause_or_ask o a u ms x)
  Post-pause u ms none = Post-ask u ms
  Post-pause u ms (some trigger) = Post-bind Answers _ _ (λ r. Post-pure Answers _ (λ p f. cc f))

  Post-stop : (q : ChatRequest) (c : GuardrailResult) → Post Answers (stop_or_run o a q c)
  unfolding run_checked
  Post-stop q c =
      Post-if Answers c.blocked _ _
        (Post-bind Answers _ _ (λ x. Post-pure Answers _ (λ p f. inl refl)))
        (Post-bind Answers _ _ (λ h. Post-bind Answers _ _ (λ kb. Post-pause _ _ _)))

  -- While a guardrail policy is configured, every answer of a turn that returns without a pause is the
  -- fixed text of a block, or a reply on which Bedrock has answered in the direction OUTPUT: the text
  -- itself where the guardrail did not intervene, or the text that it put in its place.
  pub replies_are_screened :
      (q : ChatRequest) (p : Process) (r : RunResult) (p' : Process)
      → run o a q p ≡ (ok r, p')
      → r.hitl_pending ≡ false
      → (r.response ≡ Response.blocked_response_text) ⊎ SeenByBedrock o a r.response
  unfolding run
  replies_are_screened q p r p' = (Post-bind Answers _ _ (Post-stop q)).at p r p'
