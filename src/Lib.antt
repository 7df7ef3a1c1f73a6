-- ===== src/Lib.antt =====
-- AegisCode: a coding agent whose every effect passes through governance. This library models the
-- program's core and states what makes it correct.
--
-- The parts and how they meet. `HarnessCore` (aegiscode/loop) runs turns: it builds the context
-- (aegiscode/memory/context_builder.py, aegiscode/prompt), asks the model, parses one action, and
-- gives it to the `Dispatcher` (aegiscode/governance/dispatcher.py). The dispatcher looks the tool up
-- (aegiscode/tools/registry.py), asks the path fence (aegiscode/governance/path_fence.py) and the
-- command fence, then the policy engine (aegiscode/governance/engine.py), whose default tiers
-- (aegiscode/governance/factory.py) judge commands by rules (aegiscode/governance/command_rules.py,
-- command_lexer.py). An action that needs approval is bound to its fingerprint
-- (aegiscode/governance/approval.py). Each turn's feedback (aegiscode/feedback) moves the counters that
-- end the loop, and each event goes to a chained log (aegiscode/audit), which the service reads
-- (aegiscode/service, aegiscode/persistence).
--
-- Which file models which part:
--   Config, Config/Loader         aegiscode/config/schema.py, loader.py
--   Governance/Decision           Decision, GovernanceVerdict, PolicyEngine.evaluate; Action
--   Governance/Lexer              lex_command, with shlex.split as a state machine
--   Governance/Rules              judge_command and its helpers
--   Governance/Fence              check_path; Governance/CommandFence: _fence_command
--   Governance/Dispatcher         dispatch and execute_approved; Governance/Factory: the default tiers
--   Governance/Approval           fingerprint, validate_resume, ApprovalStore
--   Tools                         ToolResult, Tool, ToolRegistry
--   Tools/Os, Table               what the tools call of the operating system, and a table of files
--   Tools/Files, Commands         the tools of aegiscode/tools: files, run_command, run_tests, finish
--   Feedback, Context, Prompt     classify and ProgressTracker; build_context; PromptBuilder
--   Loop/Termination              decide_termination; Loop/Harness, Parts, Turn: HarnessCore
--   Audit/Events, Audit/Chain     EventType; AuditLog.append and verify_chain
--   Persistence                   TaskRepository and ApprovalRepository
--   Service/Projection            _project_steps and latest_action_step_index
--   Service/Workspace, Tasks      _validate_workspace; create_task and _run_inline
--   Service/Resolver              the resolvers of approvals, and decide
--   Service/Assembly              aegiscode/service/assembly.py
--   Service/Readers, Api          the readers and listings; aegiscode/service/api.py, demo_mode.py
--   Protocol                      parse_action of aegiscode/protocol/parser.py
--   Security, Security/Scanner    redact and its patterns; aegiscode/credentials/scanner.py
--   Memory                        MemoryStore
--   Credentials                   CredentialStore; Credentials/JsonFile: JsonFileBackend
--   Llm                           MockLLM, OpenAIAdapter and AnthropicAdapter
--   Demo/Scenarios, Registry      aegiscode/demo/scenarios.py
--   Demo/Events, Manager, Wiring  aegiscode/demo/service.py
--   Prelude, Json, Glob           Python's texts, lists, errors, dicts, json.dumps and fnmatch
-- A module below one of these holds theorems on it, and `Samples` its concrete runs.
--
-- How state and effects are written. A world `W` is threaded through everything that acts: tools, the
-- model's client, the approver, the verifier, the clock. A function of the source that raises returns
-- `Result`, and what it did to the world before stays done. The state of the loop is the record `Loop`:
-- the counters, the feedback, the recent steps, the tracker, the events logged and the world. A turn is
-- a function by clauses for each part of the loop's body, which stops or leads to the next state. The
-- asynchronous approval is a relation of steps: a step is what one thread does under the lock, or one
-- call, and the steps of the threads interleave in any order.
--
-- Bounds and fuel. `run` is on fuel, a unit for each turn; `turn_bound` of the limits is enough, since
-- a turn that is not the last takes a step, or counts one of at most `action_retry_limit` replies in a
-- row that are no actions. Numbers of the source are natural numbers; seconds are whole seconds. Texts
-- are sequences of characters, as in Python; a digit in the name of an interpreter is an ASCII one,
-- where the source's \d also matches the digits of other scripts.
--
-- Parameters. What the program takes from elsewhere is an argument: sha256, the operating system
-- (the answers of the path fence's realpath, exists and islink, and the record `Os` of what the tools
-- call), the HTTP call of the adapters, the keyring, the file operations of the JSON file, YAML and
-- pydantic's validation, json.loads, the clock and identifiers. Of the program itself the client, the
-- parser of actions, the memory table, the redactor and the tools are arguments of the loop, the log and
-- the dispatcher, so that the theorems there hold for whatever they do; Service/Assembly puts the tools
-- of this library into the dispatcher. A table is the list of its rows.
--
-- Not modelled: the parser of pytest's output, which nothing calls, the service's threads, FastAPI's
-- reading of requests, the copy of a repository for the demo, the command line, the demos and the
-- scripts. An insertion into the log's table is taken to succeed, and the files of a demo's fixture are
-- not written out.
pub mod Prelude
pub mod Glob
pub mod Json
pub mod Tools
pub mod Config
pub mod Context
pub mod Governance
pub mod Prompt
pub mod Feedback
pub mod Loop
pub mod Audit
pub mod Service
pub mod Persistence
pub mod Security
pub mod Memory
pub mod Credentials
pub mod Llm
pub mod Demo
pub mod Protocol
