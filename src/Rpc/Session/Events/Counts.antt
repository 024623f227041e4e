-- ===== src/Rpc/Session/Events/Counts.antt =====
-- The counters of a session and of every progress update and result that it reports.
use pi_ptc_advanced.Common.{
  remove_at, if-both, length, get_elem?, All, All-append, Text, trim, ℕ, zero, suc, ◌+◌, ◌≤◌, ◌≡◌,
  refl, Bool, true, false, is_some, Option, none, some, List, [], ◌∷◌, arith,
}
use pi_ptc_advanced.Execution.{
  ExecutionDetails, ExecutionFailureDetails, ExecutionError, transport_error, python_error,
}
use pi_ptc_advanced.Rpc.Stderr.{looks_like_python_pre_terminal_failure}
use pi_ptc_advanced.Rpc.Session.{
  Session, Updates, Callback, Thrown, error_thrown, value_thrown, Task, PendingCall, Outcome,
  resolved, failed, reject, check_close, resolve_or_reject, reject_once, terminate_process,
  build_execution_details, failure_details, build_unexpected_close_error,
}
use pi_ptc_advanced.Rpc.Session.Events.{
  enqueue, run_task, run_first, settle_found, fire_timer, told, notify, thrown_error, reject_update,
  write,
}

length-remove_at {ℓ} :
    {A : Type ℓ} (xs : List A) (i : ℕ) {x : A}
    → get_elem? xs i ≡ some x
    → suc (length (remove_at xs i)) ≡ length xs
length-remove_at [] i e = cc
length-remove_at (x ∷ xs) zero e = refl
length-remove_at (x ∷ xs) (suc i) e = omega (arith, length-remove_at xs i e)

module _ {N : Type 0} where
  -- A report counts each call by name, and no more results and errors than calls.
  pub record IsCounted (d : ExecutionDetails N) : Type 0 where
    pub by_name : d.nested_tool_calls ≡ length d.nested_tool_names
    pub within : d.nested_result_count + d.nested_errors ≤ d.nested_tool_calls

  abbrev pub ErrorIsCounted : ExecutionError N → Type 0
  ErrorIsCounted (python_error text traceback (some d)) = IsCounted d
  ErrorIsCounted e = Unit

  abbrev pub OutcomeIsCounted : Option (Outcome N) → Type 0
  OutcomeIsCounted none = Unit
  OutcomeIsCounted (some (resolved r)) = IsCounted r.details
  OutcomeIsCounted (some (failed e)) = ErrorIsCounted e

  abbrev pub TaskIsCounted : Task N → Type 0
  TaskIsCounted (reject e) = ErrorIsCounted e
  TaskIsCounted check_close = Unit

  -- Whether the last of these calls of the callback throws.
  abbrev pub throws_at : Option (Callback N) → Updates N → Bool
  throws_at none calls = false
  throws_at (some on_update) calls = is_some (on_update calls)

  -- Each call is settled with a result or an error, or it is still pending, or it was abandoned.
  pub record IsBalanced (s : Session N) : Type 0 where
    pub named : s.nested_tool_calls ≡ length s.nested_tool_names
    pub balanced :
        s.nested_result_count + s.nested_errors + length s.pending + length s.abandoned
        ≡ s.nested_tool_calls

  pub record IsAccounted (s : Session N) : Type 0 where
    pub balance : IsBalanced s
    pub updates_counted : All (λ u. IsCounted u.1) s.updates
    pub outcome_counted : OutcomeIsCounted s.outcome
    pub tasks_counted : All TaskIsCounted s.tasks
    pub abandoned_thrown : All (λ calls. throws_at s.on_update calls ≡ true) s.abandoned

  pub details-IsCounted : (s : Session N) → IsBalanced s → IsCounted (build_execution_details s)
  unfolding build_execution_details
  details-IsCounted s b = ground arith

  pub failure-IsCounted :
      (s : Session N) (f : ExecutionFailureDetails) → IsBalanced s → IsCounted (failure_details s f)
  unfolding failure_details build_execution_details
  failure-IsCounted s f b = ground arith

  close_error-IsCounted :
      (s : Session N) → IsBalanced s → ErrorIsCounted (build_unexpected_close_error s)
  unfolding build_unexpected_close_error
  close_error-IsCounted s b =
      if-both ErrorIsCounted (looks_like_python_pre_terminal_failure (trim s.stderr))
        {x = python_error _ _ (some (failure_details s _))} {y = transport_error _}
        (failure-IsCounted s _ b) tt

  pub settled-IsAccounted :
      (s : Session N) (o : Outcome N)
      → IsAccounted s
      → OutcomeIsCounted (some o)
      → IsAccounted (resolve_or_reject s o)
  unfolding resolve_or_reject
  settled-IsAccounted s o a c = if-both IsAccounted s.completed a (ground (arith, a, c))

  pub enqueue-IsAccounted :
      (s : Session N) (t : Task N) → IsAccounted s → TaskIsCounted t → IsAccounted (enqueue s t)
  unfolding enqueue
  enqueue-IsAccounted s t a c =
      ground (arith, All-append TaskIsCounted s.tasks (t ∷ []) a.tasks_counted (c, tt))

  pub write-IsAccounted : (s : Session N) (text : Text) → IsAccounted s → IsAccounted (write s text)
  unfolding write
  write-IsAccounted s text a = if-both IsAccounted s.proc.stdin_open (ground (arith, a)) a

  told-IsAccounted :
      (s : Session N) (call : Text × ExecutionDetails N) (f : Option (Callback N))
      → IsAccounted s
      → IsCounted call.1
      → IsAccounted (told s call f).0
  unfolding told
  told-IsAccounted s call none a c = a
  told-IsAccounted s call (some on_update) a c = record {
    balance = ground (arith, a.balance);
    updates_counted =
        All-append (λ u. IsCounted u.1) s.updates (call ∷ []) a.updates_counted (c, tt);
    outcome_counted = a.outcome_counted;
    tasks_counted = a.tasks_counted;
    abandoned_thrown = a.abandoned_thrown;
  }

  thrown-IsCounted : (e : ExecutionError N) (t : Thrown) → thrown_error t ≡ e → ErrorIsCounted e
  unfolding thrown_error
  thrown-IsCounted e (error_thrown name text stack) same = rw (← same) tt
  thrown-IsCounted e (value_thrown text) same = rw (← same) tt

  pub reject_update-IsAccounted :
      (r : Session N × Option Thrown) → IsAccounted r.0 → IsAccounted (reject_update r)
  unfolding reject_update
  reject_update-IsAccounted (s, none) a = a
  reject_update-IsAccounted (s, some t) a =
      enqueue-IsAccounted s (reject (thrown_error t)) a (thrown-IsCounted _ t refl)

  pub notify-IsAccounted :
      (s : Session N) (text : Text) (d : ExecutionDetails N)
      → IsAccounted s
      → IsCounted d
      → IsAccounted (reject_update (notify s text d))
  unfolding notify
  notify-IsAccounted s text d a c =
      reject_update-IsAccounted (told s (text, d) s.on_update)
        (told-IsAccounted s (text, d) s.on_update a c)

  run_task-IsAccounted :
      (s : Session N) (t : Task N) → IsAccounted s → TaskIsCounted t → IsAccounted (run_task s t)
  unfolding run_task reject_once
  run_task-IsAccounted s (reject e) a c = settled-IsAccounted s (failed e) a c
  run_task-IsAccounted s check_close a c = ground (
    arith,
    settled-IsAccounted s (failed (build_unexpected_close_error s)) a
        (close_error-IsCounted s a.balance),
  )

  pub run_first-IsAccounted :
      (s : Session N) (ts : List (Task N))
      → IsAccounted s
      → All TaskIsCounted ts
      → IsAccounted (run_first s ts)
  unfolding run_first
  run_first-IsAccounted s [] a c = a
  run_first-IsAccounted s (t ∷ ts) a (c, cs) =
      run_task-IsAccounted (record s { tasks = ts }) t (ground (arith, a, cs)) c

  -- A call that settles leaves `pending` and is counted.
  pub settle_found-IsAccounted :
      (s : Session N) (place : ℕ) (answer : Session N → PendingCall N → Session N)
      → IsAccounted s
      → ((t : Session N) (call : PendingCall N)
          → IsAccounted (record t { nested_errors = t.nested_errors + 1 })
          → IsAccounted (record t { nested_result_count = t.nested_result_count + 1 })
          → IsAccounted (answer t call))
      → IsAccounted (settle_found s place answer (get_elem? s.pending place))
  unfolding settle_found
  settle_found-IsAccounted s place answer a answered = by_call (get_elem? s.pending place) refl
    where
      by_call :
          (found : Option (PendingCall N))
          → get_elem? s.pending place ≡ found
          → IsAccounted (settle_found s place answer found)
      by_call none e = a
      by_call (some call) e =
          let fewer = length-remove_at s.pending place e in
          answered (record s { pending = remove_at s.pending place }) call
            (ground (arith, a, fewer)) (ground (arith, a, fewer))

  pub fire_timer-IsAccounted :
      (s : Session N) (ms : Option ℕ) → IsAccounted s → IsAccounted (fire_timer s ms)
  unfolding fire_timer terminate_process
  fire_timer-IsAccounted s none a = a
  fire_timer-IsAccounted s (some ms) a =
      if-both IsAccounted (is_some s.outcome) a (ground (arith, a))

  pub terminate-IsAccounted :
      (s : Session N)
      → IsAccounted s
      → IsAccounted (terminate_process (record s { abort_listening = false }))
  unfolding terminate_process
  terminate-IsAccounted s a = ground (arith, a)
