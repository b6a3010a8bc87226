-- ===== src/Tests/Invokes.antt =====
-- Witness on a turn that runs the lookup of a batch and stops at the refund.
use agent_builder_factory_ap.Base.{refl, Memᴰ, ◌⊎◌, pure, raise, ◌>>=◌, string_key, nat_key}
use agent_builder_factory_ap.Tools.Policy.{
  write_audit_event, enforce, check as check_policy, policy_of,
}
use agent_builder_factory_ap.Tools.Executor.{invoke, execute}
use agent_builder_factory_ap.Approval.Resume.{request_approval}
use agent_builder_factory_ap.Runtime.Guardrail.{resolve, check}
use agent_builder_factory_ap.Runtime.Memory.{load, load_session, save}
use agent_builder_factory_ap.Runtime.Prompt.{build_messages, pre_check}
use agent_builder_factory_ap.Runtime.Rag.{retrieve}
use agent_builder_factory_ap.Runtime.State.{
  in_guardrail, in_rag, in_reviews, attempt, audit, load_memory, save_memory, complete, record_cost,
}
use agent_builder_factory_ap.Runtime.Orchestrator.{
  request_tool_approval, finalize, ask_model, run_checked, run,
}
use agent_builder_factory_ap.Runtime.Invokes.{ClearedCall, turn_invokes_cleared_tools}
use agent_builder_factory_ap.Tests.Approval.{looked_up}
use agent_builder_factory_ap.Tests.Runtime.{tables, outside, support, start, chat}

turn_invokes_cleared_tools_example :
    Memᴰ looked_up start.world.effects.invocations
    ⊎ ClearedCall outside support start.completions looked_up
unfolding run run_checked ask_model finalize in_guardrail in_rag in_reviews attempt audit
    load_memory save_memory complete record_cost check resolve retrieve build_messages pre_check
    load load_session save pure ◌>>=◌ request_tool_approval request_approval execute invoke enforce
    check_policy policy_of write_audit_event raise
turn_invokes_cleared_tools_example =
    turn_invokes_cleared_tools outside support (chat "refund order 7") start looked_up
      (Memᴰ.head refl)
