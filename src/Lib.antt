-- ===== src/Lib.antt =====
-- pi-ptc-advanced: an extension of a coding agent with one tool, code_execution, whose Python code
-- calls the agent's other tools over a protocol on the Python process's standard streams.
--
-- The program's parts and the files that model them (paths are from the repository's root):
--
--   src/contracts/tool-types.ts: the metadata of tools is `Tools`; src/contracts/settings.ts is
--   `Settings`. What the host provides (schemas, executors, parameters) is the record `Host`.
--   src/tools/python-tool-contract.ts: the built-in tools and the names of Python helpers are
--   `PythonContract`. Signatures and docstrings are not modelled.
--   src/tool-registry.ts: `Registry` and its children, one for each step of the source:
--   `Classify` (classifyTool, the callers), `State` (the registry's own maps, upsertTool,
--   removeTool), `ToolMap` (createBuiltinTools, buildToolMap), `Filter` (the filter of
--   getCallableTools), `Gaps` (reportAllowlistGaps), `Callable` (getCallableTools,
--   getAutoRoutableToolNames) and `Runtime` (createCallableToolRuntime).
--   src/recovery-state.ts: `Recovery`, and `Recovery.Once` for every order of its operations.
--   src/report.ts: `Report` (isPtcReport) and `Report.Render` (renderPtcReportLines).
--   src/tool-adapters.ts: `Adapters` (normalizeToolResult), `Adapters.Lines` (the text parsers) and
--   `Adapters.Handles` (extractSupportedHandles).
--   src/contracts/execution-types.ts and src/execution/execution-errors.ts: `Execution`.
--   src/rpc-protocol.ts: `Rpc.Frames` (validateRpcMessage, parseMessage), `Rpc.Stderr` (what is read
--   of a process that ended early), `Rpc.Session` (the class RpcProtocol as a record, with the
--   helpers that read it) and `Rpc.Session.Events` (its callbacks, as one step function).
--   src/utils.ts: `Utils` (truncateOutput), `Utils.Environment` (loadSettingsFromEnv) and
--   `Utils.Prompts` (the prompts that are routed or ask for a change, validateUserCode).
--   src/recovery-classifier.ts: `Recovery.Classifier`.
--   src/custom-tool-manager.ts: `CustomTools.Loading` (loadCustomToolFile), `CustomTools.Manager`
--   (the class CustomToolManager) and `CustomTools.Events` (its timers, its watcher and `start`);
--   `CustomTools.Follows` reads it against the files on disk, given by their signatures.
--   src/sandbox-manager.ts: `Sandbox` (createSandbox, DockerSandbox).
--   src/index.ts: `Extension.State` (PtcSessionState and what the session shares),
--   `Extension.Routing` (applyAutoRouting), `Extension.Attempts` (the tool's execute),
--   `Extension.Prompts` (the handlers) and `Extension.Events` (all of them as one step function).
--   src/eval-cases.ts: `Evals.Case`. src/benchmark-runner.ts: `Evals.Rules`, `Evals.Benchmark`,
--   `Evals.Slug` and `Evals.Arguments` (parseCliArgs).
--
-- How they interact: a session parses each line of Python's stdout by `Rpc.Frames`, which asks
-- `Report` for the report of a final message; the result of a nested call goes through `Adapters`
-- before it is sent back; the tools that a nested call may name are those of `Registry`. `Extension`
-- asks `Registry` which tools a routed prompt gives up, `Recovery` whether a failure is answered with
-- a recovery message and `Recovery.Classifier` with which; `CustomTools` changes the registry while
-- the extension runs; `Evals.Benchmark` routes its prompts by `Utils.Prompts`.
--
-- How the code is modelled. Strings are lists of UTF-16 code units (`Common.Strings`); a `Map` is a
-- list of entries in insertion order (`Common.Map`) and a `Set` a list without repeats. Code that
-- throws returns a `Result` or an error of the program as a value. A warning is part of the result.
-- Values read by `typeof` are the trees of `Json`; numbers, `JSON` and `Object.prototype` are the
-- record `Engine`, a parameter. Regular expressions are written out as tests on texts. A session's
-- events are the callbacks of Node in any order, and the handlers of its promises are tasks that
-- the event `microtask` runs in their order; the clock moves by the event `tick` and not backwards.
-- The callback `onUpdate` is a parameter: what each call of it throws, if it throws, is a function
-- of the calls so far.
--
-- Recursion is structural throughout, also over events. The one fuel is that of `show_ℕ`, which
-- prints the digits of n with fuel n + 1, more than a number has digits.
--
-- A reload of a custom tool is two events, before and after its import, so that others may come
-- between. An execution that runs holds the place of its recovery state in a store, since the code
-- shares the object.
--
-- Not modelled: code-executor.ts and tool-wrapper.ts, which join texts of Python; of index.ts the
-- handlers session_start and session_shutdown and the result of an execution; the signatures and
-- docstrings of python-tool-contract.ts; the renderer; the files that the benchmark reads and
-- writes; the Python runtime, which the session sees as lines; and logging, files and processes,
-- which are input and output.
mod Common
pub mod Settings
pub mod Tools
pub mod PythonContract
pub mod Registry
pub mod Json
pub mod Report
pub mod Recovery
pub mod Execution
pub mod Adapters
pub mod Rpc
pub mod Utils
pub mod Extension
pub mod CustomTools
pub mod Sandbox
pub mod Evals
