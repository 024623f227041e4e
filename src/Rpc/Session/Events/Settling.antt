-- ===== src/Rpc/Session/Events/Settling.antt =====
-- The promise of a session: `resolveOnce`, `rejectOnce` and what can no longer change.
use pi_ptc_advanced.Adapters.{ToolExecutionResult, normalize_tool_result}
use pi_ptc_advanced.Common.{
  remove_at, if◌then◌else◌, is_some, settle-both, Text, lit, ℕ, ◌+◌, ◌≡◌, refl, Bool, true, false,
  Option, none, some, List, [], ◌∷◌, ◌++◌, arith,
}
use pi_ptc_advanced.Json.{Fields, Engine}
use pi_ptc_advanced.Execution.{
  RpcMessage, tool_call, tool_result, execution_progress, stdout, complete, error, update,
  ExecutionDetails, abort_error,
}
use pi_ptc_advanced.Rpc.Frames.{Line, parsed, rejected, message, not_a_message, undefined_message}
use pi_ptc_advanced.Rpc.Session.{
  Session, Callback, Thrown, error_thrown, Task, PendingCall, Outcome, failed, reject, check_close,
  start, resolve_once, resolve_or_reject, reject_once, terminate_process, record_process_exit,
  build_execution_details, build_unexpected_close_error,
}
use pi_ptc_advanced.Rpc.Session.Events.{
  Event, line, stderr_data, proc_error, line_close, microtask, abort, timer, kill_timer,
  stdin_destroyed, proc_exit, proc_close, tool_returned, tool_threw, tick, serialize_error, enqueue,
  run_task, run_first, run_microtask, handle_parsed, settle_found, fire_timer, told, notify,
  reject_update, call_tool, append_stdout, handle_tool_call, handle_complete, handle_error, write,
  result_frame, error_frame, handle_message, handle_line, answer_error, answer_result, settle_call,
  step, run,
}

module _ {N : Type 0} where
  -- The promise has settled just when `completed` is set, and its timeout never comes after that.
  pub record IsSettledOnce (s : Session N) : Type 0 where
    pub flagged : s.completed ≡ is_some s.outcome
    pub reported : s.completed ≡ true → is_some s.awaited ≡ true

  -- `t` comes after `s`: what has settled stays as it is.
  pub record Keeps (s t : Session N) : Type 0 where
    pub completed_stays : s.completed ≡ true → t.completed ≡ true
    pub outcome_stays : s.completed ≡ true → t.outcome ≡ s.outcome
    pub awaited_stays : is_some s.awaited ≡ true → t.awaited ≡ s.awaited
    pub settled_once : IsSettledOnce s → IsSettledOnce t

  Keeps-of_eq :
      (s t : Session N)
      → t.completed ≡ s.completed
      → t.outcome ≡ s.outcome
      → t.awaited ≡ s.awaited
      → Keeps s t
  Keeps-of_eq s t c o a = ground (arith, c, o, a)

  Keeps-trans : (s t u : Session N) → Keeps s t → Keeps t u → Keeps s u
  Keeps-trans s t u k l = ground (arith, k, l)

  resolve_or_reject-Keeps : (s : Session N) (o : Outcome N) → Keeps s (resolve_or_reject s o)
  unfolding resolve_or_reject
  resolve_or_reject-Keeps s o = ground arith

  resolve_or_reject-completed :
      (s : Session N) (o : Outcome N) → (resolve_or_reject s o).completed ≡ true
  unfolding resolve_or_reject
  resolve_or_reject-completed s o = ground arith

  run_task-Keeps : (s : Session N) (t : Task N) → Keeps s (run_task s t)
  unfolding run_task reject_once
  run_task-Keeps s (reject e) = resolve_or_reject-Keeps s (failed e)
  run_task-Keeps s check_close =
      ground (arith, resolve_or_reject-Keeps s (failed (build_unexpected_close_error s)))

  run_first-Keeps : (s : Session N) (ts : List (Task N)) → Keeps s (run_first s ts)
  unfolding run_first
  run_first-Keeps s [] = ground arith
  run_first-Keeps s (t ∷ ts) =
      let k = run_task-Keeps (record s { tasks = ts }) t in ground (arith, k)

  enqueue-Keeps : (s : Session N) (t : Task N) → Keeps s (enqueue s t)
  unfolding enqueue
  enqueue-Keeps s t = ground arith

  write-Keeps : (s : Session N) (text : Text) → Keeps s (write s text)
  unfolding write
  write-Keeps s text = ground arith

  settle_found-Keeps :
      (s : Session N) (place : ℕ) (answer : Session N → PendingCall N → Session N)
      → ((t : Session N) (call : PendingCall N) → Keeps t (answer t call))
      → (found : Option (PendingCall N)) → Keeps s (settle_found s place answer found)
  unfolding settle_found
  settle_found-Keeps s place answer keeps none = Keeps-of_eq s s refl refl refl
  settle_found-Keeps s place answer keeps (some call) =
      let taken : Session N = record s { pending = remove_at s.pending place } in
      Keeps-trans s taken _ (Keeps-of_eq s taken refl refl refl) (keeps taken call)

  fire_timer-Keeps : (s : Session N) (ms : Option ℕ) → Keeps s (fire_timer s ms)
  unfolding fire_timer terminate_process
  fire_timer-Keeps s none = Keeps-of_eq s s refl refl refl
  fire_timer-Keeps s (some ms) = ground arith

  aborted-Keeps :
      (s : Session N) → Keeps s (terminate_process (record s { abort_listening = false }))
  unfolding terminate_process
  aborted-Keeps s = Keeps-of_eq s _ refl refl refl

  told-Keeps :
      (s : Session N) (call : Text × ExecutionDetails N) (f : Option (Callback N))
      → Keeps s (told s call f).0
  unfolding told
  told-Keeps s call none = Keeps-of_eq s s refl refl refl
  told-Keeps s call (some on_update) = Keeps-of_eq s _ refl refl refl

  reject_update-Keeps : (r : Session N × Option Thrown) → Keeps r.0 (reject_update r)
  unfolding reject_update
  reject_update-Keeps (s, none) = Keeps-of_eq s s refl refl refl
  reject_update-Keeps (s, some t) = enqueue-Keeps s _

  notify-Keeps :
      (s : Session N) (text : Text) (d : ExecutionDetails N)
      → Keeps s (reject_update (notify s text d))
  unfolding notify
  notify-Keeps s text d =
      let r = told s (text, d) s.on_update in
      Keeps-trans s r.0 _ (told-Keeps s (text, d) s.on_update) (reject_update-Keeps r)

  call_tool-Keeps :
      (call : PendingCall N) (r : Session N × Option Thrown) → Keeps r.0 (call_tool call r)
  unfolding call_tool
  call_tool-Keeps call (s, none) = Keeps-of_eq s _ refl refl refl
  call_tool-Keeps call (s, some t) =
      let left : Session N = record s { abandoned = s.abandoned ++ s.updates ∷ [] } in
      Keeps-trans s left _ (Keeps-of_eq s left refl refl refl) (reject_update-Keeps (left, some t))

  handle_tool_call-Keeps :
      (s : Session N) (id tool : Text) (params : Fields N)
      → Keeps s (handle_tool_call s id tool params)
  unfolding handle_tool_call notify
  handle_tool_call-Keeps s id tool params =
      let called : Session N = record s {
        nested_tool_calls = s.nested_tool_calls + 1;
        nested_tool_names = s.nested_tool_names ++ tool ∷ [];
      } in
      let call : Text × ExecutionDetails N =
        (lit "Calling " ++ (tool ++ lit "()"), build_execution_details called) in
      let r = told called call s.on_update in
      Keeps-trans s r.0 _
        (Keeps-trans s called r.0 (Keeps-of_eq s called refl refl refl)
          (told-Keeps called call s.on_update))
        (call_tool-Keeps _ r)

module _ {N : Type 0} (js : Engine N) where
  handle_message-Keeps : (s : Session N) (m : RpcMessage N) → Keeps s (handle_message js s m)
  unfolding handle_message handle_complete handle_error append_stdout resolve_once reject_once
  handle_message-Keeps s (tool_call id tool params) = handle_tool_call-Keeps s id tool params
  handle_message-Keeps s (tool_result id v failure) = ground arith
  handle_message-Keeps s (execution_progress l t) = notify-Keeps s _ _
  handle_message-Keeps s (stdout text) = ground arith
  handle_message-Keeps s (complete output report) = resolve_or_reject-Keeps s _
  handle_message-Keeps s (error text traceback) = resolve_or_reject-Keeps s _
  handle_message-Keeps s (update text) = notify-Keeps s text _

  handle_parsed-Keeps : (s : Session N) (l : Line N) → Keeps s (handle_parsed js s l)
  unfolding handle_parsed
  handle_parsed-Keeps s (parsed (message m)) = handle_message-Keeps s m
  handle_parsed-Keeps s (parsed not_a_message) = ground arith
  handle_parsed-Keeps s (parsed undefined_message) = enqueue-Keeps s _
  handle_parsed-Keeps s (rejected e) = enqueue-Keeps s _

  answer_error-Keeps :
      (s : Session N) (call : PendingCall N) (thrown : Thrown)
      → Keeps s (answer_error js s call thrown)
  unfolding answer_error
  answer_error-Keeps s call thrown =
      let counted : Session N = record s { nested_errors = s.nested_errors + 1 } in
      Keeps-trans s counted _ (Keeps-of_eq s counted refl refl refl) (
        settle-both (Keeps counted) (write counted) _ (write-Keeps counted)
          (λ why. enqueue-Keeps counted _)
          (js.stringify (error_frame call.id (serialize_error thrown))))

  answer_result-Keeps :
      (s : Session N) (call : PendingCall N) (result : ToolExecutionResult N)
      → Keeps s (answer_result js s call result)
  unfolding answer_result
  answer_result-Keeps s call result =
      let normalized = normalize_tool_result js call.tool result in
      let counted : Session N = record s {
        nested_result_count = s.nested_result_count + 1;
        nested_result_chars = s.nested_result_chars + normalized.estimated_chars;
      } in
      Keeps-trans s counted _ (Keeps-of_eq s counted refl refl refl) (
        settle-both (Keeps counted) (write counted) _ (write-Keeps counted)
          (λ why.
            answer_error-Keeps counted call (error_thrown (lit "TypeError") why (js.stack_of why)))
          (js.stringify (result_frame call.id normalized.value)))

  step-Keeps : (s : Session N) (e : Event N) → Keeps s (step js s e)
  unfolding step handle_line record_process_exit reject_once run_microtask settle_call
  step-Keeps s (line text) = handle_parsed-Keeps s _
  step-Keeps s line_close = ground (arith, enqueue-Keeps s check_close)
  step-Keeps s microtask = run_first-Keeps s s.tasks
  step-Keeps s (stderr_data text) = ground arith
  step-Keeps s (proc_exit code exit_signal) = ground arith
  step-Keeps s (proc_close code exit_signal) = ground arith
  step-Keeps s (proc_error text) = resolve_or_reject-Keeps s _
  step-Keeps s abort =
      let ended : Session N = terminate_process (record s { abort_listening = false }) in
      let o : Outcome N = failed (abort_error (lit "Execution aborted")) in
      ground (arith, Keeps-trans s ended _ (aborted-Keeps s) (resolve_or_reject-Keeps ended o))
  step-Keeps s timer = fire_timer-Keeps s s.timeout_ms
  step-Keeps s kill_timer = ground arith
  step-Keeps s stdin_destroyed = ground arith
  step-Keeps s (tool_returned place result) =
      settle_found-Keeps s place _ (λ t call. answer_result-Keeps t call result) _
  step-Keeps s (tool_threw place thrown) =
      settle_found-Keeps s place _ (λ t call. answer_error-Keeps t call thrown) _
  step-Keeps s (tick ms) = ground arith

  run-Keeps : (s : Session N) (es : List (Event N)) → Keeps s (run js s es)
  unfolding run
  run-Keeps s [] = Keeps-of_eq s s refl refl refl
  run-Keeps s (e ∷ es) = Keeps-trans s (step js s e) _ (step-Keeps s e) (run-Keeps (step js s e) es)

  -- Whatever events a session sees, in any order: the promise has settled just when `completed` is
  -- set, then its waiter has an outcome too, and no later event changes either outcome.
  pub settles_once :
      (user_code : Text) (has_signal : Bool) (on_update : Option (Callback N)) (timeout : Option ℕ)
      (now : ℕ) (before after : List (Event N))
      → IsSettledOnce (run js (start user_code has_signal on_update timeout now) before)
        × ((run js (start user_code has_signal on_update timeout now) before).completed ≡ true
            → (run js
                (run js (start user_code has_signal on_update timeout now) before)
                after).outcome
              ≡ (run js (start user_code has_signal on_update timeout now) before).outcome)
        × (is_some (run js (start user_code has_signal on_update timeout now) before).awaited ≡ true
            → (run js
                (run js (start user_code has_signal on_update timeout now) before)
                after).awaited
              ≡ (run js (start user_code has_signal on_update timeout now) before).awaited)
  unfolding start
  settles_once user_code has_signal on_update timeout now before after =
      let first = start user_code has_signal on_update timeout now in
      let later = run-Keeps (run js first before) after in
      ((run-Keeps first before).settled_once initial, later.outcome_stays, later.awaited_stays)
    where
      initial : IsSettledOnce {N = N} (start user_code has_signal on_update timeout now)
      initial = ground arith

  run_task-completed : (s : Session N) (t : Task N) → (run_task s t).completed ≡ true
  unfolding run_task reject_once
  run_task-completed s (reject e) = resolve_or_reject-completed s (failed e)
  run_task-completed s check_close =
      ground (arith, resolve_or_reject-completed s (failed (build_unexpected_close_error s)))

  run_first-completed :
      (s : Session N) (ts : List (Task N)) (t : Task N)
      → (run_first s (ts ++ t ∷ [])).completed ≡ true
  unfolding run_first
  run_first-completed s [] t = run_task-completed (record s { tasks = [] }) t
  run_first-completed s (u ∷ ts) t = run_task-completed (record s { tasks = ts ++ t ∷ [] }) u

  check_settles :
      (s : Session N) (b : Bool)
      → s.completed ≡ b
      → (run_microtask (if b then s else enqueue s check_close)).completed ≡ true
  unfolding run_microtask enqueue
  check_settles s true e = (run_first-Keeps s s.tasks).completed_stays e
  check_settles s false e = run_first-completed (enqueue s check_close) s.tasks check_close

  -- In every state of a session, once stdout closes and the next microtask has run, the promise
  -- has settled, whatever follows: a Python process that ends without a terminal message never
  -- leaves the caller waiting.
  pub close_settles :
      (s : Session N) (after : List (Event N))
      → (run js s (line_close ∷ microtask ∷ after)).completed ≡ true
  unfolding run step run_microtask enqueue
  close_settles s after =
      (run-Keeps (run_microtask (if s.completed then s else enqueue s check_close))
          after).completed_stays
        (check_settles s s.completed refl)
