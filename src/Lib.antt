-- ===== src/Lib.antt =====
-- Agent Builder Factory: the agent registry, its deployment gates and the runtime of its agents.
--
-- The factory API (app) keeps agents and their immutable versions in DynamoDB, generates and deploys
-- them through a pipeline of stages, and keeps a queue of human reviews. A deployed agent is a
-- separate service (services/agent-runtime) that shares only that queue and the agents table with the
-- factory: a gate authenticates and limits each request, and an orchestrator runs the turn.
--
-- Files and the code they model:
--   Base            tests, lists, and actions `Exec S E A = S → Result E A × S` on stored state; what
--                   was written before an exception stays written. Reads and its rules are for actions
--                   that change nothing.
--   Table           DynamoDB as an interface: keyed items with the documented behaviour of GetItem,
--                   PutItem, DeleteItem, Query and Scan on a strongly consistent table. Table.Assoc
--                   is the instance on lists that the witnesses use.
--   Dependency      app/modules/registry/dependency_validator.py. The recursive search is on fuel, one
--                   more than there are nodes that it can still visit; Dependency.Fuel proves that this
--                   is enough, so `validate` always answers.
--   Registry        app/modules/registry: Models (models.py), Contract (contract_generator.py),
--                   Versioner (versioner.py), and store.py in Agents (reading, allocation of ids, the
--                   circularity check), Create (creating, editing, rolling back), Pipeline (what a
--                   deployment records), Credentials, and Project (publishing, archiving, rolling back
--                   in place, deleting). Db holds the two tables. Agents.Env stands for the clock, the
--                   settings, the random ids and the hash of a configuration. History, Create.Laws,
--                   Project.Laws and Returned hold the proofs.
--   Tools           services/agent-runtime/tool_policy.py and tool_executor.py; JSON and the Lambda
--                   service are the fields of Services.
--   Approval        app/modules/hitl/store.py and models.py (Review), and tool_approval.py and
--                   resume_after_approval of orchestrator.py in services/agent-runtime (Resume).
--   Deployment      app/modules/deployment/models.py and status_store.py (Models, Status),
--                   app/modules/security/policy_gate.py and app/modules/evaluation/gate.py (Gates),
--                   app/modules/security/policy_enforcement.py and the handlers policy_check.py,
--                   mark_active.py and mark_failed.py of lambda_handlers (Enforce), and the endpoint
--                   approve_deployment of app/api/v1/agents.py (Approve). Simulator is
--                   app/modules/deployment/pipeline_simulator.py; the background task that the endpoint
--                   adds is its resume_approved, a step after the answer. ApproveOnce, GateLaws, Outcomes,
--                   Leaves, Parks, Later, Held, Steps and Once hold the proofs.
--   Authentication  ApiKeyAuthProvider of services/agent-runtime/auth.py; Filed, Keeps and Methods prove
--                   what each method of the registry's store does to a revocation.
--   Quota           services/agent-runtime/quota.py. Quota.Counters is Redis as an interface with the
--                   documented behaviour of INCR and EXPIRE; Turn, Rate and Budget hold the proofs.
--   Runtime         the rest of services/agent-runtime: Guardrail (guardrail.py), Memory (memory.py),
--                   Prompt (prompt_builder.py and hitl.py), Rag (rag_client.py), State and Orchestrator
--                   (the first half of orchestrator.py, with llm_client.py as a field of State.Outside),
--                   Jwt (the other provider of auth.py and the chain of both), Gate (auth_middleware
--                   of main.py) and Startup (config_loader.py and config_hash.py). Closed, Window, Post,
--                   Replies, Parking, Pauses, Calls, Invokes, Admits, Starts and Redeploys hold the
--                   proofs.
--   Audit           app/modules/audit/security_log.py, with the digests of the hash as a parameter. Chain
--                   holds the proofs.
--   Upgrade         app/modules/platform/upgrade_models.py and upgrade_store.py (Store), and the
--                   platform_*.py handlers of lambda_handlers in the order of
--                   step_functions/platform_upgrade_workflow.json (Stages). Triples has the rules for
--                   what a handler ends in; Forward and Atomic hold the proofs.
--   Impact          app/modules/change_impact (rules.py and analyzer.py) on a diff of
--                   app/modules/registry/diff.py. Matched, Levels and Highest hold the proofs.
--   Planner         executor.py of app/modules/task_planner: the missing resources that an approval
--                   creates, with the answers of their stores as an interface, and Executor, which
--                   creates the agents in the registry. Build is approve_build of
--                   app/api/v1/build_with_ai.py over session_store.py. Resources, Stored and
--                   BuildOnce hold the proofs.
--   Screening       app/modules/guardrails/engine.py, with the classifiers and Bedrock as parameters. Yields
--                   and Decides hold the proofs.
--   Tests           the theorems at concrete inputs.
--
-- A method of a class is a function of the same name, in do notation where it makes several calls. The
-- keyword arguments and settings come first. An item that an UpdateItem creates without a snapshot, or
-- a review without its fields, is an item whose record is missing.
--
-- Bounds: versions are unbounded numbers as in Python. The score of an evaluation or of a classifier
-- is a number of millionths, and a cost a number of millionths of a dollar. The clock is a text, and
-- a number of seconds where a timeout or a window is computed. A setting such as max_session_turns is
-- not negative.
--
-- Not modelled: the HTTP routes besides the approvals of a deployment and of a plan, the
-- generators of infrastructure and of prompts, the clients of git, model and identity services,
-- the texts of errors and of answers, and the listings with cursors. The model's reply after a
-- resumed turn, and its cost, are left out, as are latencies, notifications and log lines. A
-- configuration keeps the fields that the registry reads and one text for the rest. An item of a table
-- holds the record that it was written from: its JSON and Decimal encoding, and the validation and the
-- defaults of a model that is parsed from it, are left out, except for the agent types and for what
-- the runtime hashes at its start, where the stored document is a parameter. A write of a table is
-- refused only by its own condition, and an event that is sent arrives.
mod Base
pub mod Table
pub mod Dependency
pub mod Registry
pub mod Tools
pub mod Approval
pub mod Deployment
pub mod Authentication
pub mod Audit
pub mod Impact
pub mod Planner
pub mod Screening
pub mod Quota
pub mod Runtime
pub mod Upgrade
mod Tests
