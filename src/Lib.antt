-- ===== src/Lib.antt =====
-- Verification of master_control, an assistant that runs administration tools on a Linux host.
--
-- The program's parts and how they interact. MasterControlRuntime (src/master_control/core/runtime.py)
-- runs every tool through its method `run_tool`. It asks the policy engine
-- (src/master_control/policy/engine.py), which loads the operator's policy file
-- (src/master_control/policy/config.py), whether the call is allowed and whether it needs a
-- confirmation. A call that needs one and has none is stored as an approval by SessionStore
-- (src/master_control/store/session_store.py); a later confirmed call, or a claim by id, takes the
-- approval out of 'pending' once, runs the tool and ends the approval. What a tool returns becomes
-- observations (src/master_control/core/observations.py), and every call leaves an audit event. The
-- store also keeps a session's recommendations and synchronises them with the last analysis.
--
-- Which file models which part:
--   Prelude, Sql         lists, texts, dicts; SELECT with ORDER BY and LIMIT, UPDATE with WHERE
--   Value                JSON values and Python dicts in insertion order
--   Codec                library routines as parameters: json.dumps, json.loads, sha256, shlex.quote, repr,
--                        str.lower, fnmatch.fnmatch
--   Approvals.Rows       the table tool_approvals: columns, statuses, WHERE, ORDER BY and SET clauses
--   Approvals.Methods    create, list, get, claim, prepare_matching, claim_latest_matching, finish and
--                        reject of SessionStore, one transaction each: a result beside a table
--   Approvals.*          invariant, lookups, lifecycle, exclusive grants, matching, running approvals
--   Recommendations.Rows the table session_recommendations
--   Recommendations.Sync sync_session_recommendations: the loop over candidates, with the snapshot of
--                        rows that it was started on, and the closing UPDATE
--   Recommendations.*    invariant, snapshot, loop, active recommendations, success
--   Tools.Spec           RiskLevel and ToolSpec (src/master_control/tools/base.py)
--   Tools.Attempt        the end of a call inside a tool: a value, a ToolError, another exception
--   Tools.Arguments      get_string_argument and get_int_argument (src/master_control/tools/base.py)
--   Tools.Machine        CommandRunner.run (src/master_control/executor/command_runner.py)
--   Tools.Units, Tools.Services   names, scopes and commands of systemctl
--                        (src/master_control/tools/service_actions.py)
--   Tools.ServiceTools, Tools.Listing, Tools.Journal, Tools.ConfigTools    the tools restart_service,
--                        reload_service, service_status, failed_services, read_journal,
--                        read_config_file, write_config_file and restore_config_backup
--   Tools.*              readers, unit names, the commands that run, the inspection before an action
--   Config.Targets       ConfigTarget and the defaults (src/master_control/config_manager.py)
--   Config.Disk          the files, and the routines of the operating system as parameters
--   Config.Manager, Config.Writes   ConfigManager: resolution, validation, temporary files and backups,
--                        write_text, restore_backup and read_text
--   Config.*             the files across these operations, a write and the restoration of its backup
--   Policy.Rules, Policy.Engine, Policy.Permits      the engine, and what it decides
--   Policy.Parse, Policy.Loader, Policy.WellFormed   the parser of the policy document, the cache
--   Observations         envelopes, keys and lifetimes of observations, their freshness and its text
--   Sessions.Tables, Sessions.Observed   the methods of SessionStore on sessions, messages, summaries,
--                        provider states and observations
--   Sessions.Chat        `_prepare_chat_session` and the methods that it calls
--   Sessions.*           the remembered session, the two queries of observations, stored summaries
--   Planning.Decisions   PlanStep, ExecutionPlan and PlanningDecision
--                        (src/master_control/shared/planning.py), and ProviderResponse
--   Planning.Turn, Planning.Request   src/master_control/interfaces/agent/turn_planning.py
--   Planning.Execute, Planning.Loop   `_execute_plan` and `_run_planning_loop` of the runtime
--   Planning.Calls       the calls of `run_tool` that an execution makes, as a relation on states
--   Planning.*           the host, the signatures and the audit events across the loop, the decisions
--   Runtime.State        the state of the runtime: the host, the loader's cache and the tables
--   Runtime.Commands     the texts that ask for a confirmation
--   Runtime.Claims, Runtime.RunTool    `run_tool`, branch by branch
--   Runtime.Approve      approve_tool_approval and reject_tool_approval of the runtime
--   Runtime.Recommend    run_recommendation_action of the runtime
--   Runtime.Statuses     update_recommendation_status of the runtime and of the store
--   Runtime.*            authority over the host, settlement, audit trail, consistency, exceptions
--   Examples             the theorems at concrete inputs
--
-- State and operations. A table is its list of rows with the AUTOINCREMENT counter. A method is a
-- function from its arguments and the table to its result and the new table. BEGIN IMMEDIATE and
-- SQLite's write lock make a method one step, so clients that interleave are a sequence of calls.
-- CURRENT_TIMESTAMP is an argument `now`. A tool is a function on a type `World`, the host, which gives
-- a dict, a ToolError or another exception; the theorems hold for every such function. An exception
-- that leaves `run_tool` is the outcome `raised`, beside the state that the calls before it have made.
--
-- A tool of the repository is a function on its own world: the machine that runs processes, or the
-- disk. A managed file is a text or bytes that are no UTF-8; a read in text mode translates line ends,
-- as Python's does. Any write may fail with an exception of the operating system. In the planning
-- loop the provider is any function of the request and of its own state, and it may raise.
--
-- Bounds. The planning loop is recursion on the number of iterations that are left, which starts at
-- MAX_PLANNING_ITERATIONS, as in the source. All other loops are structural recursion over lists and
-- texts, so there is no fuel. The integers of the modelled code are row ids, counts and JSON integers,
-- which Python does not bound.
--
-- Not modelled: bootstrap of the database and migration of its schema; the lists of audit events;
-- rendering and the interfaces (CLI, MCP, chat); the providers; what surrounds the planning loop in a
-- chat turn; the session's summary and context, which the loop takes as parameters, with the reading of
-- observations; the tools that read /proc; dates, of which only the texts are kept; floating-point JSON
-- numbers other than as the text that they print as. The rows of a recommendation stand for the dicts
-- that the store builds of them.

pub mod Prelude
pub mod Value
pub mod Codec
pub mod Sql
pub mod Approvals
pub mod Recommendations
pub mod Tools
pub mod Config
pub mod Policy
pub mod Observations
pub mod Runtime
pub mod Sessions
pub mod Planning
pub mod Examples
