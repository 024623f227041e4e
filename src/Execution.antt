-- ===== src/Execution.antt =====
-- src/contracts/execution-types.ts and src/execution/execution-errors.ts: the messages of the
-- protocol, the details of a run and the errors that end one.
use pi_ptc_advanced.Common.{if◌then◌else◌, Text, lit, truthy, ℕ, Option, none, some, List, ◌++◌}
use pi_ptc_advanced.Json.{Value, Fields}
use pi_ptc_advanced.Recovery.{PtcExecutionTelemetry, PtcRecoveryDetails}

pub record RpcErrorPayload : Type 0 where
  pub type : Text
  pub message : Text
  pub stack : Option Text

pub record NormalizedToolResult (N : Type 0) : Type 0 where
  pub value : Value N
  pub estimated_chars : ℕ

-- A report is a value that `isPtcReport` accepts.
pub data RpcMessage (N : Type 0) : Type 0 where
  tool_call : Text → Text → Fields N → RpcMessage N
  tool_result : Text → Value N → Option RpcErrorPayload → RpcMessage N
  execution_progress : N → N → RpcMessage N
  stdout : Text → RpcMessage N
  complete : Text → Option (Value N) → RpcMessage N
  error : Text → Option Text → RpcMessage N
  update : Text → RpcMessage N

pub record ExecutionFailureDetails : Type 0 where
  pub message : Text
  pub traceback : Option Text
  pub raw_stderr : Option Text

-- `report` holds a report where the source also sets `reportProduced`.
pub record ExecutionDetails (N : Type 0) : Type 0 where
  pub nested_tool_calls : ℕ
  pub nested_tool_names : List Text
  pub nested_result_chars : ℕ
  pub nested_result_count : ℕ
  pub nested_errors : ℕ
  pub duration_ms : ℕ
  pub estimated_avoided_tokens : ℕ
  pub current_line : Option N
  pub total_lines : Option N
  pub user_code : List Text
  pub telemetry : Option PtcExecutionTelemetry
  pub recovery : Option PtcRecoveryDetails
  pub report : Option (Value N)
  pub failure : Option ExecutionFailureDetails

pub record CodeExecutionResult (N : Type 0) : Type 0 where
  pub output : Text
  pub details : ExecutionDetails N

unfoldable pub format_python_error_message : Text → Option Text → Text
format_python_error_message message none = lit "Python execution error: " ++ message
format_python_error_message message (some traceback) =
    if truthy traceback
    then lit "Python execution error:\n" ++ (message ++ (lit "\n\nTraceback:\n" ++ traceback))
    else lit "Python execution error: " ++ message

-- The errors that end a run. `foreign_error` is an error of none of the program's own classes.
pub data ExecutionError (N : Type 0) : Type 0 where
  abort_error timeout_error transport_error protocol_error foreign_error : Text → ExecutionError N
  python_error : Text → Option Text → Option (ExecutionDetails N) → ExecutionError N
  nested_tool_error : RpcErrorPayload → ExecutionError N

-- `error.message`
unfoldable pub error_message : {N : Type 0} → ExecutionError N → Text
unfolding format_python_error_message
error_message (abort_error s) = s
error_message (timeout_error s) = s
error_message (transport_error s) = s
error_message (protocol_error s) = s
error_message (foreign_error s) = s
error_message (python_error message traceback details) =
    format_python_error_message message traceback
error_message (nested_tool_error payload) = elim payload.stack [
  | none ↦ payload.message
  | some stack ↦ if truthy stack then payload.message ++ (lit "\n" ++ stack) else payload.message
]
