-- ===== src/Tools/Executor.antt =====
-- services/agent-runtime/tool_executor.py: running the tool calls of a model's reply. The name of
-- the Lambda function is determined by the agent and the tool, so an invocation keeps the tool.
use agent_builder_factory_ap.Base.{
  String, Bool, true, false, not, Option, none, some, List, [], ◌∷◌, Result, ok, err, Exec, pure,
  ◌>>=◌, ◌>>◌, ◌==◌, if◌then◌else◌, string_key, contains,
}
use agent_builder_factory_ap.Tools.Policy.{
  ToolPolicy, ToolError, Invocation, Effects, write_audit_event, enforce,
}

pub record ToolCall : Type 0 where
  pub id : Option String
  pub name : String
  pub arguments : Option String

pub data ToolResult : Type 0 where
  unknown_tool : String → ToolResult
  invalid_arguments : String → ToolResult
  failure : String → String → ToolResult
  success : String → String → ToolResult

pub record Response : Type 0 where
  pub function_error : Bool
  pub payload : String

-- JSON and the Lambda service. `loads` is the payload for the text of some arguments, or none where
-- the text is no JSON; an invocation may depend on those before it, and may raise.
pub record Services : Type 0 where
  pub loads : String → Option String
  pub invoke : List Invocation → Invocation → Result String Response

pub record Toolbox : Type 0 where
  pub agent_id : String
  pub tools : List String
  pub policies : List ToolPolicy

-- equality of two values of `dict.get`
abbrev pub same_id : Option String → Option String → Bool
same_id none none = true
same_id none (some b) = false
same_id (some a) none = false
same_id (some a) (some b) = a == b

-- the policy is skipped for the call that was approved
abbrev pub permit : Toolbox → Option String → ToolCall → Exec Effects ToolError Unit
permit box approved call =
    if same_id call.id approved then pure tt else enforce box.policies call.name

module _ (services : Services) where
  abbrev pub arguments_of : Option String → Option String
  arguments_of none = some "{}"
  arguments_of (some a) = if a == "" then some "{}" else services.loads a

  abbrev outcome_of : Result String Response → Result ToolError Response
  outcome_of (err e) = err (ToolError.lambda_error e)
  outcome_of (ok r) = ok r

  unfoldable pub invoke : Invocation → Exec Effects ToolError Response
  invoke i s =
      (outcome_of (services.invoke s.invocations i), record s { invocations = i ∷ s.invocations })

  abbrev pub report : String → Response → Exec Effects ToolError ToolResult
  report tool_id r =
      if r.function_error
      then (write_audit_event "tool.invoked" tool_id "error" none
          >> write_audit_event "tool.failed" tool_id "error" none
          >> pure (ToolResult.failure tool_id r.payload))
      else (write_audit_event "tool.invoked" tool_id "success" none
          >> pure (ToolResult.success tool_id r.payload))

  abbrev pub run : String → String → Exec Effects ToolError ToolResult
  run tool_id payload = do
    r ← invoke (record { tool_id = tool_id; payload = payload })
    report tool_id r

  abbrev pub execute_parsed :
      Toolbox → Option String → ToolCall → Option String → Exec Effects ToolError ToolResult
  execute_parsed box approved call none = pure (ToolResult.invalid_arguments call.name)
  execute_parsed box approved call (some payload) =
      permit box approved call >> run call.name payload

  abbrev pub execute_call : Toolbox → Option String → ToolCall → Exec Effects ToolError ToolResult
  execute_call box approved call =
      if not (contains box.tools call.name)
      then pure (ToolResult.unknown_tool call.name)
      else execute_parsed box approved call (arguments_of call.arguments)

  unfoldable pub execute :
      Toolbox → Option String → List ToolCall → Exec Effects ToolError (List ToolResult)
  execute box approved [] = pure []
  execute box approved (call ∷ calls) = do
    r ← execute_call box approved call
    rs ← execute box approved calls
    pure (r ∷ rs)
