-- ===== src/Rpc/Session/Events.antt =====
-- The event handlers of `RpcProtocol`, src/rpc-protocol.ts.
pub mod Settling
pub mod Counts
pub mod Calls
pub mod Reports
use pi_ptc_advanced.Common.{
  remove_at, ltb, if◌then◌else◌, or_else, is_some, get_elem?, settle, Text, lit, trim, is_empty,
  truthy, show_ℕ, ℕ, ◌+◌, ◌-◌, ◌/◌, false, Option, none, some, List, [], ◌∷◌, ◌++◌,
}
use pi_ptc_advanced.Json.{Value, Fields, Engine, string, object, end, field}
use pi_ptc_advanced.Adapters.{ToolExecutionResult, normalize_tool_result}
use pi_ptc_advanced.Execution.{
  RpcErrorPayload, RpcMessage, tool_call, tool_result, execution_progress, stdout, complete, error,
  update, ExecutionDetails, ExecutionError, protocol_error, abort_error, timeout_error,
  transport_error, foreign_error, python_error,
}
use pi_ptc_advanced.Rpc.Frames.{
  Line, parsed, rejected, message, not_a_message, undefined_message, parse_message,
}
use pi_ptc_advanced.Rpc.Session.{
  Session, Thrown, error_thrown, value_thrown, Callback, Task, PendingCall, failed, reject,
  check_close, resolve_once, reject_once, terminate_process, record_process_exit,
  build_execution_details, failure_details, build_unexpected_close_error,
}

unfoldable pub serialize_error : Thrown → RpcErrorPayload
serialize_error (error_thrown name text stack) = record {
  type = name;
  message = text;
  stack = stack;
}
serialize_error (value_thrown text) = record { type = lit "Error"; message = text; stack = none }

-- The callbacks. The tool of the call at a place in `pending` returns or throws.
pub data Event (N : Type 0) : Type 0 where
  line stderr_data proc_error : Text → Event N
  line_close microtask abort timer kill_timer stdin_destroyed : Event N
  proc_exit proc_close : Option ℕ → Option Text → Event N
  tool_returned : ℕ → ToolExecutionResult N → Event N
  tool_threw : ℕ → Thrown → Event N
  tick : ℕ → Event N

module _ {N : Type 0} where
  unfoldable pub enqueue : Session N → Task N → Session N
  enqueue s t = record s { tasks = s.tasks ++ t ∷ [] }

  unfoldable pub run_task : Session N → Task N → Session N
  unfolding reject_once build_unexpected_close_error
  run_task s (reject e) = reject_once s e
  run_task s check_close = if s.completed then s else reject_once s (build_unexpected_close_error s)

  unfoldable pub run_first : Session N → List (Task N) → Session N
  unfolding run_task
  run_first s [] = s
  run_first s (t ∷ ts) = run_task (record s { tasks = ts }) t

  unfoldable pub run_microtask : Session N → Session N
  unfolding run_first
  run_microtask s = run_first s s.tasks

  -- A call of `onUpdate`, where there is one, and what it throws.
  unfoldable pub told :
      Session N → Text × ExecutionDetails N → Option (Callback N) → Session N × Option Thrown
  told s call none = (s, none)
  told s call (some on_update) =
      let calls = s.updates ++ call ∷ [] in (record s { updates = calls }, on_update calls)

  unfoldable pub notify : Session N → Text → ExecutionDetails N → Session N × Option Thrown
  unfolding told
  notify s text details = told s (text, details) s.on_update

  -- `error instanceof Error ? error : new PtcProtocolError(String(error))`
  unfoldable pub thrown_error : Thrown → ExecutionError N
  thrown_error (error_thrown name text stack) = foreign_error text
  thrown_error (value_thrown text) = protocol_error text

  -- What `onUpdate` throws rejects the promise of `handleLine`, whose `catch` is queued.
  unfoldable pub reject_update : Session N × Option Thrown → Session N
  unfolding enqueue thrown_error
  reject_update (s, none) = s
  reject_update (s, some thrown) = enqueue s (reject (thrown_error thrown))

  unfoldable pub append_stdout : Session N → Text → Session N
  append_stdout s text = if is_empty text then s else record s { stdout = s.stdout ++ text }

  -- The tool runs once `onUpdate` has returned; where that throws, outside the `try`, it never does.
  unfoldable pub call_tool : PendingCall N → Session N × Option Thrown → Session N
  unfolding reject_update
  call_tool call (s, none) = record s { pending = s.pending ++ call ∷ [] }
  call_tool call (s, some thrown) =
      reject_update (record s { abandoned = s.abandoned ++ s.updates ∷ [] }, some thrown)

  unfoldable pub handle_tool_call : Session N → Text → Text → Fields N → Session N
  unfolding notify build_execution_details call_tool
  handle_tool_call s id tool params =
      let called : Session N = record s {
        nested_tool_calls = s.nested_tool_calls + 1;
        nested_tool_names = s.nested_tool_names ++ tool ∷ [];
      } in
      call_tool (record { id = id; tool = tool; params = params })
        (notify called (lit "Calling " ++ (tool ++ lit "()")) (build_execution_details called))

  unfoldable pub handle_complete : Session N → Text → Option (Value N) → Session N
  unfolding resolve_once build_execution_details
  handle_complete s output report =
      let final_output = if truthy s.stdout then trim (s.stdout ++ output) else output in
      resolve_once s (record {
        output = final_output;
        details = record (build_execution_details s) { report = report };
      })

  unfoldable pub handle_error : Session N → Text → Option Text → Session N
  unfolding reject_once failure_details
  handle_error s text traceback = reject_once s (
      python_error text traceback (
        some (
          failure_details s (record { message = text; traceback = traceback; raw_stderr = none }))))

  unfoldable pub write : Session N → Text → Session N
  write s text =
      if s.proc.stdin_open then record s { written = s.written ++ (text ++ lit "\n") ∷ [] } else s

  -- The frames that answer a nested call.
  unfoldable pub result_frame : Text → Value N → Value N
  result_frame id v = object (
      field (lit "type") (string (lit "tool_result"))
        (field (lit "id") (string id) (field (lit "value") v end)))

  unfoldable pub error_frame : Text → RpcErrorPayload → Value N
  error_frame id payload =
      let stack : Fields N = elim payload.stack [
        | some t ↦ field (lit "stack") (string t) end
        | none ↦ end
      ] in
      object (
        field (lit "type") (string (lit "tool_result")) (
          field (lit "id") (string id) (
            field (lit "error")
              (object (
                field (lit "type") (string payload.type)
                  (field (lit "message") (string payload.message) stack)))
              end)))

  unfoldable pub settle_found :
      Session N → ℕ → (Session N → PendingCall N → Session N) → Option (PendingCall N) → Session N
  settle_found s place answer none = s
  settle_found s place answer (some call) =
      answer (record s { pending = remove_at s.pending place }) call

  unfoldable pub settle_call : Session N → ℕ → (Session N → PendingCall N → Session N) → Session N
  unfolding settle_found
  settle_call s place answer = settle_found s place answer (get_elem? s.pending place)

  -- The timer of `waitForCompletion`, which is cleared when `completionPromise` settles.
  unfoldable pub fire_timer : Session N → Option ℕ → Session N
  unfolding terminate_process
  fire_timer s none = s
  fire_timer s (some ms) = if is_some s.outcome then s else record (terminate_process s) {
    timeout_ms = none;
    awaited = or_else s.awaited (
        some (
          failed (
            timeout_error (
              lit "Execution timed out after "
              ++ (show_ℕ ((ms + 500) / 1000) ++ lit " seconds")))));
  }

module _ {N : Type 0} (js : Engine N) where
  unfoldable pub handle_message : Session N → RpcMessage N → Session N
  unfolding handle_tool_call handle_complete handle_error notify append_stdout reject_update
      build_execution_details
  handle_message s (tool_call id tool params) = handle_tool_call s id tool params
  handle_message s (tool_result id v failure) = s
  handle_message s (execution_progress line_number total_lines) = reject_update (
      notify s
        (lit "Executing line "
          ++ (js.number_to_string line_number ++ (lit "/" ++ js.number_to_string total_lines)))
        (record (build_execution_details s) {
          current_line = some line_number;
          total_lines = some total_lines;
        }))
  handle_message s (stdout text) = append_stdout s text
  handle_message s (complete output report) = handle_complete s output report
  handle_message s (error text traceback) = handle_error s text traceback
  handle_message s (update text) = reject_update (notify s text (build_execution_details s))

  -- What `handleLine` throws rejects its promise, whose `catch` is queued.
  unfoldable pub handle_parsed : Session N → Line N → Session N
  unfolding handle_message enqueue
  handle_parsed s (parsed (message m)) = handle_message s m
  handle_parsed s (parsed not_a_message) = s
  handle_parsed s (parsed undefined_message) =
      enqueue s
        (reject (foreign_error (lit "Cannot read properties of undefined (reading 'type')")))
  handle_parsed s (rejected e) = enqueue s (reject e)

  unfoldable pub handle_line : Session N → Text → Session N
  unfolding handle_parsed parse_message
  handle_line s text = handle_parsed s (parse_message js text)

  -- The `catch` of `handleToolCall`; where the error frame cannot be sent the promise rejects.
  unfoldable pub answer_error : Session N → PendingCall N → Thrown → Session N
  unfolding serialize_error error_frame write enqueue
  answer_error s call thrown =
      let counted : Session N = record s { nested_errors = s.nested_errors + 1 } in
      settle (write counted) (λ why. enqueue counted (reject (foreign_error why)))
        (js.stringify (error_frame call.id (serialize_error thrown)))

  -- The rest of `handleToolCall` once the tool has returned.
  unfoldable pub answer_result : Session N → PendingCall N → ToolExecutionResult N → Session N
  unfolding normalize_tool_result result_frame write answer_error
  answer_result s call result =
      let normalized = normalize_tool_result js call.tool result in
      let counted : Session N = record s {
        nested_result_count = s.nested_result_count + 1;
        nested_result_chars = s.nested_result_chars + normalized.estimated_chars;
      } in
      settle (write counted)
        (λ why. answer_error counted call (error_thrown (lit "TypeError") why (js.stack_of why)))
        (js.stringify (result_frame call.id normalized.value))

  unfoldable pub step : Session N → Event N → Session N
  unfolding handle_line enqueue run_microtask record_process_exit reject_once terminate_process
      settle_call answer_result answer_error fire_timer
  step s (line text) = handle_line s text
  step s line_close = if s.completed then s else enqueue s check_close
  step s microtask = run_microtask s
  step s (stderr_data text) = record s { stderr = s.stderr ++ text }
  step s (proc_exit code exit_signal) =
      let exited : Session N = record s { proc = record s.proc { exit_code = code } } in
      if s.completed then exited else record_process_exit exited code exit_signal
  step s (proc_close code exit_signal) =
      if s.completed then s else record_process_exit s code exit_signal
  step s (proc_error text) =
      reject_once s (transport_error (lit "Python process transport error: " ++ text))
  step s abort =
      if s.abort_listening
      then reject_once (terminate_process (record s { abort_listening = false }))
          (abort_error (lit "Execution aborted"))
      else s
  step s timer = fire_timer s s.timeout_ms
  step s kill_timer =
      if ltb 0 s.kill_timers
      then record s {
        kill_timers = s.kill_timers - 1;
        kills = if is_some s.proc.exit_code then s.kills else s.kills ++ lit "SIGKILL" ∷ [];
      }
      else s
  step s stdin_destroyed = record s { proc = record s.proc { stdin_open = false } }
  step s (tool_returned place result) =
      settle_call s place (λ settled call. answer_result settled call result)
  step s (tool_threw place thrown) =
      settle_call s place (λ settled call. answer_error settled call thrown)
  step s (tick ms) = record s { now = s.now + ms }

  unfoldable pub run : Session N → List (Event N) → Session N
  unfolding step
  run s [] = s
  run s (e ∷ es) = run (step s e) es
