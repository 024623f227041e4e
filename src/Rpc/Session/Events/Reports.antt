-- ===== src/Rpc/Session/Events/Reports.antt =====
-- The counters after every event of a session: src/rpc-protocol.ts.
use pi_ptc_advanced.Common.{
  ltb, if-both, is_empty, ok, settle-both, Text, ℕ, ◌+◌, ◌≡◌, refl, Bool, false, Option, List, [],
  ◌∷◌, arith,
}
use pi_ptc_advanced.Json.{Value, Engine}
use pi_ptc_advanced.Adapters.{ToolExecutionResult, normalize_tool_result}
use pi_ptc_advanced.Execution.{
  RpcMessage, tool_call, tool_result, execution_progress, stdout, complete, error, update,
  ExecutionError, abort_error, transport_error, protocol_error, foreign_error,
}
use pi_ptc_advanced.Rpc.Frames.{
  Line, Validated, line_of, unreadable, parsed, rejected, message, not_a_message, undefined_message,
  parse_message, refused, protocol, other, valid, validate_rpc_message,
}
use pi_ptc_advanced.Rpc.Session.{
  Session, Callback, Thrown, PendingCall, failed, reject, check_close, start, resolve_once,
  reject_once, terminate_process, record_process_exit,
}
use pi_ptc_advanced.Rpc.Session.Events.{
  Event, line, stderr_data, proc_error, line_close, microtask, abort, timer, kill_timer,
  stdin_destroyed, proc_exit, proc_close, tool_returned, tool_threw, tick, serialize_error,
  run_microtask, handle_parsed, append_stdout, handle_complete, handle_error, write, result_frame,
  error_frame, handle_message, handle_line, answer_error, answer_result, settle_call, step, run,
}
use pi_ptc_advanced.Rpc.Session.Events.Counts.{
  ErrorIsCounted, IsAccounted, details-IsCounted, failure-IsCounted, settled-IsAccounted,
  enqueue-IsAccounted, write-IsAccounted, notify-IsAccounted, run_first-IsAccounted,
  settle_found-IsAccounted, fire_timer-IsAccounted, terminate-IsAccounted,
}
use pi_ptc_advanced.Rpc.Session.Events.Calls.{handle_tool_call-IsAccounted}

module _ {N : Type 0} (js : Engine N) where
  handle_message-IsAccounted :
      (s : Session N) (m : RpcMessage N) → IsAccounted s → IsAccounted (handle_message js s m)
  unfolding handle_message handle_complete handle_error append_stdout resolve_once reject_once
  handle_message-IsAccounted s (tool_call id tool params) a =
      handle_tool_call-IsAccounted s id tool params a
  handle_message-IsAccounted s (tool_result id v failure) a = a
  handle_message-IsAccounted s (execution_progress l t) a =
      let counted = details-IsCounted s a.balance in
      notify-IsAccounted s _ _ a (ground (arith, counted))
  handle_message-IsAccounted s (stdout text) a =
      if-both IsAccounted (is_empty text) a (ground (arith, a))
  handle_message-IsAccounted s (complete output report) a =
      let counted = details-IsCounted s a.balance in
      settled-IsAccounted s _ a (ground (arith, counted))
  handle_message-IsAccounted s (error text traceback) a =
      settled-IsAccounted s _ a (failure-IsCounted s _ a.balance)
  handle_message-IsAccounted s (update text) a =
      notify-IsAccounted s text _ a (details-IsCounted s a.balance)

  -- The errors that `parseMessage` throws carry no details.
  parse_message-rejected :
      (text : Text) {e : ExecutionError N} → parse_message js text ≡ rejected e → ErrorIsCounted e
  unfolding parse_message line_of unreadable
  parse_message-rejected text {e} h =
      settle-both (λ l. l ≡ rejected e → ErrorIsCounted e)
        (λ v. line_of text (validate_rpc_message js v)) (unreadable text)
        (λ v. by_verdict (validate_rpc_message js v)) (λ why. plain _) (js.parse_json text) h
    where
      plain : (s : Text) → rejected (protocol_error s) ≡ rejected e → ErrorIsCounted e
      plain s h = let same : protocol_error s ≡ e = cc in rw (← same) tt

      by_verdict : (v : Validated N) → line_of text v ≡ rejected e → ErrorIsCounted e
      by_verdict (valid p) h = cc
      by_verdict (refused (protocol why)) h = plain _ h
      by_verdict (refused (other why)) h = plain _ h

  handle_parsed-IsAccounted :
      (s : Session N) (l : Line N)
      → ((e : ExecutionError N) → l ≡ rejected e → ErrorIsCounted e)
      → IsAccounted s
      → IsAccounted (handle_parsed js s l)
  unfolding handle_parsed
  handle_parsed-IsAccounted s (parsed (message m)) plain a = handle_message-IsAccounted s m a
  handle_parsed-IsAccounted s (parsed not_a_message) plain a = a
  handle_parsed-IsAccounted s (parsed undefined_message) plain a =
      enqueue-IsAccounted s (reject (foreign_error _)) a tt
  handle_parsed-IsAccounted s (rejected e) plain a =
      enqueue-IsAccounted s (reject e) a (plain e refl)

  -- `JSON.stringify` returns text for every frame of the session.
  abbrev pub NeverThrows : Type 0
  NeverThrows = (v : Value N) → (t : Text) × (js.stringify v ≡ ok t)

  answer_error-IsAccounted :
      (s : Session N) (call : PendingCall N) (thrown : Thrown)
      → IsAccounted (record s { nested_errors = s.nested_errors + 1 })
      → IsAccounted (answer_error js s call thrown)
  unfolding answer_error
  answer_error-IsAccounted s call thrown a =
      let counted : Session N = record s { nested_errors = s.nested_errors + 1 } in
      settle-both IsAccounted (write counted) _ (λ text. write-IsAccounted counted text a)
        (λ why. enqueue-IsAccounted counted (reject (foreign_error why)) a tt)
        (js.stringify (error_frame call.id (serialize_error thrown)))

  answer_result-IsAccounted :
      (s : Session N) (call : PendingCall N) (result : ToolExecutionResult N)
      → NeverThrows
      → IsAccounted (record s { nested_result_count = s.nested_result_count + 1 })
      → IsAccounted (answer_result js s call result)
  unfolding answer_result
  answer_result-IsAccounted s call result never a =
      let normalized = normalize_tool_result js call.tool result in
      let counted : Session N = record s {
        nested_result_count = s.nested_result_count + 1;
        nested_result_chars = s.nested_result_chars + normalized.estimated_chars;
      } in
      let (t, e) = never (result_frame call.id normalized.value) in
      rw e (write-IsAccounted counted t (ground (arith, a)))

  step-IsAccounted :
      (s : Session N) (e : Event N) → NeverThrows → IsAccounted s → IsAccounted (step js s e)
  unfolding step handle_line record_process_exit reject_once run_microtask settle_call
  step-IsAccounted s (line text) never a =
      handle_parsed-IsAccounted s _ (λ e h. parse_message-rejected text h) a
  step-IsAccounted s line_close never a =
      if-both IsAccounted s.completed a (enqueue-IsAccounted s check_close a tt)
  step-IsAccounted s microtask never a = run_first-IsAccounted s s.tasks a a.tasks_counted
  step-IsAccounted s (stderr_data text) never a = ground (arith, a)
  step-IsAccounted s (proc_exit code exit_signal) never a =
      if-both IsAccounted s.completed (ground (arith, a)) (ground (arith, a))
  step-IsAccounted s (proc_close code exit_signal) never a =
      if-both IsAccounted s.completed a (ground (arith, a))
  step-IsAccounted s (proc_error text) never a =
      settled-IsAccounted s (failed (transport_error _)) a tt
  step-IsAccounted s abort never a =
      if-both IsAccounted s.abort_listening
        (settled-IsAccounted (terminate_process (record s { abort_listening = false }))
          (failed (abort_error _)) (terminate-IsAccounted s a) tt)
        a
  step-IsAccounted s timer never a = fire_timer-IsAccounted s s.timeout_ms a
  step-IsAccounted s kill_timer never a =
      if-both IsAccounted (ltb 0 s.kill_timers) (ground (arith, a)) a
  step-IsAccounted s stdin_destroyed never a = ground (arith, a)
  step-IsAccounted s (tool_returned place result) never a =
      settle_found-IsAccounted s place _ a
        (λ t call failing returning. answer_result-IsAccounted t call result never returning)
  step-IsAccounted s (tool_threw place thrown) never a =
      settle_found-IsAccounted s place _ a
        (λ t call failing returning. answer_error-IsAccounted t call thrown failing)
  step-IsAccounted s (tick ms) never a = ground (arith, a)

  run-IsAccounted :
      (s : Session N) (es : List (Event N))
      → NeverThrows
      → IsAccounted s
      → IsAccounted (run js s es)
  unfolding run
  run-IsAccounted s [] never a = a
  run-IsAccounted s (e ∷ es) never a =
      run-IsAccounted (step js s e) es never (step-IsAccounted s e never a)

  -- Where `JSON.stringify` does not throw, then after any events in any order: the counter of nested
  -- calls is the number of names recorded; each call was settled with one result or one error, or is
  -- still pending, or was abandoned because the callback threw when it was told of the call; and
  -- every progress update, the final result and the details of a Python error count each call by
  -- name and no more results and errors than calls.
  pub session-IsAccounted :
      (user_code : Text) (has_signal : Bool) (on_update : Option (Callback N)) (timeout : Option ℕ)
      (now : ℕ) (es : List (Event N))
      → NeverThrows
      → IsAccounted (run js (start user_code has_signal on_update timeout now) es)
  unfolding start
  session-IsAccounted user_code has_signal on_update timeout now es never =
      run-IsAccounted _ es never (ground arith)
