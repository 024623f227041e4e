-- ===== src/Rpc/Session.antt =====
-- `RpcProtocol` of src/rpc-protocol.ts: its state, its event handlers and the promise it settles.
-- An event is a callback of Node that runs to its end; the handlers of promises run as tasks of the
-- microtask queue, in their order. A nested call stays in `pending` until its tool settles.
pub mod Events
use pi_ptc_advanced.Common.{
  if◌then◌else◌, or_else, is_some, Text, lit, trim, is_empty, truthy, split, show_ℕ, ℕ, ◌+◌, ◌-◌,
  ◌/◌, Bool, true, false, not, ◌&&◌, Option, none, some, get_or, List, [], ◌∷◌, ◌++◌,
}
use pi_ptc_advanced.Json.{Fields}
use pi_ptc_advanced.Execution.{
  ExecutionDetails, ExecutionFailureDetails, CodeExecutionResult, ExecutionError, transport_error,
  python_error,
}
use pi_ptc_advanced.Rpc.Stderr.{
  looks_like_python_pre_terminal_failure, extract_python_failure_summary,
}

pub data Outcome (N : Type 0) : Type 0 where
  resolved : CodeExecutionResult N → Outcome N
  failed : ExecutionError N → Outcome N

-- A queued microtask: the `catch` of `handleLine`, or the check that `close` queues.
pub data Task (N : Type 0) : Type 0 where
  reject : ExecutionError N → Task N
  check_close : Task N

-- What a tool or a callback throws: an `Error`, or another value printed by `String`.
pub data Thrown : Type 0 where
  error_thrown : Text → Text → Option Text → Thrown
  value_thrown : Text → Thrown

-- What the session reads of the child process.
pub record Process : Type 0 where
  pub exit_code : Option ℕ
  pub stdin_open : Bool

pub record PendingCall (N : Type 0) : Type 0 where
  pub id : Text
  pub tool : Text
  pub params : Fields N

-- The calls of `onUpdate`, each with its text and details.
abbrev pub Updates : Type 0 → Type 0
Updates N = List (Text × ExecutionDetails N)

-- `onUpdate`, which the caller gives: what its last call throws, where it throws, after the calls so
-- far.
abbrev pub Callback : Type 0 → Type 0
Callback N = Updates N → Option Thrown

-- `outcome` is what `completionPromise` settled with and `awaited` what `waitForCompletion` did;
-- `updates`, `written` and `kills` are the calls of `onUpdate`, `stdin.write` and `proc.kill`.
-- `abandoned` has, for each nested call whose `onUpdate` threw before its tool ran, the calls of
-- `onUpdate` up to then.
pub record Session (N : Type 0) : Type 0 where
  pub proc : Process
  pub stderr : Text
  pub stdout : Text
  pub user_code_lines : List Text
  pub completed : Bool
  pub process_exit_code : Option ℕ
  pub process_exit_signal : Option Text
  pub saw_process_exit : Bool
  pub started_at : ℕ
  pub now : ℕ
  pub nested_tool_calls : ℕ
  pub nested_tool_names : List Text
  pub nested_result_chars : ℕ
  pub nested_result_count : ℕ
  pub nested_errors : ℕ
  pub on_update : Option (Callback N)
  pub abort_listening : Bool
  pub timeout_ms : Option ℕ
  pub kill_timers : ℕ
  pub pending : List (PendingCall N)
  pub abandoned : List (Updates N)
  pub tasks : List (Task N)
  pub outcome : Option (Outcome N)
  pub awaited : Option (Outcome N)
  pub updates : Updates N
  pub written : List Text
  pub kills : List Text

-- `Math.ceil(chars / 4)`
unfoldable pub estimate_tokens_from_chars : ℕ → ℕ
estimate_tokens_from_chars chars = (chars + 3) / 4

module _ {N : Type 0} where
  -- The constructor and the call of `waitForCompletion`.
  unfoldable pub start : Text → Bool → Option (Callback N) → Option ℕ → ℕ → Session N
  start user_code has_signal on_update timeout_ms now = record {
    proc = record { exit_code = none; stdin_open = true };
    stderr = [];
    stdout = [];
    user_code_lines = split 10 user_code;
    completed = false;
    process_exit_code = none;
    process_exit_signal = none;
    saw_process_exit = false;
    started_at = now;
    now = now;
    nested_tool_calls = 0;
    nested_tool_names = [];
    nested_result_chars = 0;
    nested_result_count = 0;
    nested_errors = 0;
    on_update = on_update;
    abort_listening = has_signal;
    timeout_ms = timeout_ms;
    kill_timers = 0;
    pending = [];
    abandoned = [];
    tasks = [];
    outcome = none;
    awaited = none;
    updates = [];
    written = [];
    kills = [];
  }

  unfoldable pub resolve_or_reject : Session N → Outcome N → Session N
  resolve_or_reject s o =
      if s.completed
      then s
      else record s { completed = true; outcome = some o; awaited = or_else s.awaited (some o) }

  unfoldable pub resolve_once : Session N → CodeExecutionResult N → Session N
  unfolding resolve_or_reject
  resolve_once s result = resolve_or_reject s (resolved result)

  unfoldable pub reject_once : Session N → ExecutionError N → Session N
  unfolding resolve_or_reject
  reject_once s e = resolve_or_reject s (failed e)

  unfoldable pub terminate_process : Session N → Session N
  terminate_process s = record s {
    kills = s.kills ++ lit "SIGTERM" ∷ [];
    kill_timers = s.kill_timers + 1;
  }

  unfoldable pub record_process_exit : Session N → Option ℕ → Option Text → Session N
  record_process_exit s code exit_signal = record s {
    saw_process_exit = true;
    process_exit_code = code;
    process_exit_signal = exit_signal;
  }

  unfoldable pub exit_descriptor : Session N → Text
  exit_descriptor s =
      let by_code : Text = elim (or_else s.process_exit_code s.proc.exit_code) [
        | some code ↦ lit "code " ++ show_ℕ code
        | none ↦ lit "unknown status"
      ] in
      elim s.process_exit_signal [
        | some name ↦ if truthy name then lit "signal " ++ name else by_code
        | none ↦ by_code
      ]

  exited_early : Session N → Text
  unfolding exit_descriptor
  exited_early s =
      lit "Python process exited with "
      ++ (exit_descriptor s ++ lit " before completing the RPC protocol.")

  unfoldable pub unexpected_transport_message : Session N → Text → Text
  unfolding exited_early
  unexpected_transport_message s stderr_text =
      if not s.saw_process_exit && not (is_some s.proc.exit_code) && is_empty stderr_text
      then lit "RPC stdout closed before a terminal protocol message was received."
      else exited_early s ++ (if truthy stderr_text then lit "\n" ++ stderr_text else [])

  unfoldable pub build_execution_details : Session N → ExecutionDetails N
  unfolding estimate_tokens_from_chars
  build_execution_details s = record {
    nested_tool_calls = s.nested_tool_calls;
    nested_tool_names = s.nested_tool_names;
    nested_result_chars = s.nested_result_chars;
    nested_result_count = s.nested_result_count;
    nested_errors = s.nested_errors;
    duration_ms = s.now - s.started_at;
    estimated_avoided_tokens = estimate_tokens_from_chars s.nested_result_chars;
    current_line = none;
    total_lines = none;
    user_code = s.user_code_lines;
    telemetry = none;
    recovery = none;
    report = none;
    failure = none;
  }

  -- `buildExecutionDetails({ failure })`
  unfoldable pub failure_details : Session N → ExecutionFailureDetails → ExecutionDetails N
  unfolding build_execution_details
  failure_details s failure = record (build_execution_details s) { failure = some failure }

  unfoldable pub build_unexpected_close_error : Session N → ExecutionError N
  unfolding looks_like_python_pre_terminal_failure extract_python_failure_summary exited_early
      unexpected_transport_message failure_details
  build_unexpected_close_error s =
      let stderr_text = trim s.stderr in
      let found = get_or (extract_python_failure_summary stderr_text) [] in
      let summary = if truthy found then found else exited_early s in
      if looks_like_python_pre_terminal_failure stderr_text
      then python_error summary (some stderr_text) (
          some (
            failure_details s
              (record { message = summary; traceback = none; raw_stderr = some stderr_text })))
      else transport_error (unexpected_transport_message s stderr_text)
