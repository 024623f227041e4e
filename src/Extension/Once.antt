-- ===== src/Extension/Once.antt =====
-- Recovery messages over the events of a session, src/index.ts.
use pi_ptc_advanced.Common.{
  remove_at, if◌then◌else◌, Bool-cases, if-both, is_some, length, get_elem?, Result, ok, err, Text,
  is_empty, ℕ, zero, suc, ◌+◌, ◌≤◌, ◌≡◌, refl, inl, inr, Bool, true, false, not, Option, none, some,
  List, [], ◌∷◌, ◌++◌, arith,
}
use pi_ptc_advanced.Settings.{PtcSettings}
use pi_ptc_advanced.Tools.{Host}
use pi_ptc_advanced.Registry.State.{ToolRegistry}
use pi_ptc_advanced.Recovery.{
  PtcRecoveryState, create_ptc_recovery_state, note_automatic_routing, note_code_execution_attempt,
  can_attempt_automatic_recovery, arm_automatic_recovery, note_code_execution_success,
  note_code_execution_failure, RecoveryFailureClass,
}
use pi_ptc_advanced.Execution.{ExecutionError, python_error}
use pi_ptc_advanced.Extension.State.{
  World, PtcBeforeAgentStartEvent, PtcSystemPromptOptions, Running, Executed, succeeded, threw,
  update_at, set_active_tools, create_recovery_state, get_request_recovery_state,
  update_recovery_state,
}
use pi_ptc_advanced.Extension.Events.{
  AgentEvent, before_agent_start, context, agent_end, started, finished, finish_at, handle_event,
  handle_events,
}
use pi_ptc_advanced.Extension.Routing.{
  route_active_tools, routed, restore_saved, restore_active_tools_after_routing, apply_auto_routing,
  wants_routing, has_code_execution, route_prompt,
}
use pi_ptc_advanced.Extension.Prompts.{
  handle_agent_end, handle_context, recovery_allowed_for, start_prompt, take_pending,
  reset_for_prompt, handle_before_agent_start,
}
use pi_ptc_advanced.Extension.Attempts.{
  start_execution, arm_with, arm_recovery, recover, finish_execution,
}

-- How many recovery states have armed a recovery.
abbrev pub count_attempted : List PtcRecoveryState → ℕ
count_attempted [] = 0
count_attempted (s ∷ ss) = (if s.recovery_attempted then 1 else 0) + count_attempted ss

count-append :
    (xs ys : List PtcRecoveryState)
    → count_attempted (xs ++ ys) ≡ count_attempted xs + count_attempted ys
count-append [] ys = omega arith
count-append (x ∷ xs) ys = omega (arith, count-append xs ys)

count-update_at :
    (xs : List PtcRecoveryState) (i : ℕ) (f : PtcRecoveryState → PtcRecoveryState)
    → ((s : PtcRecoveryState) → (f s).recovery_attempted ≡ s.recovery_attempted)
    → count_attempted (update_at xs i f) ≡ count_attempted xs
count-update_at [] i f same = refl
count-update_at (x ∷ xs) zero f same = ground (arith, same x)
count-update_at (x ∷ xs) (suc i) f same = omega (arith, count-update_at xs i f same)

count-arm :
    (xs : List PtcRecoveryState) (i : ℕ) (next : PtcRecoveryState) {s : PtcRecoveryState}
    → get_elem? xs i ≡ some s
    → s.recovery_attempted ≡ false
    → next.recovery_attempted ≡ true
    → count_attempted (update_at xs i (λ _. next)) ≡ count_attempted xs + 1
count-arm [] i next there before after = cc
count-arm (x ∷ xs) zero next {s} there before after =
    let same : x ≡ s = cc in
    let unarmed : x.recovery_attempted ≡ false = rw same before in ground arith
count-arm (x ∷ xs) (suc i) next there before after =
    omega (arith, count-arm xs i next there before after)

attempt_same :
    (s : PtcRecoveryState)
    → (note_code_execution_attempt s).recovery_attempted ≡ s.recovery_attempted
unfolding note_code_execution_attempt
attempt_same s = refl

routing_same :
    (s : PtcRecoveryState) → (note_automatic_routing s).recovery_attempted ≡ s.recovery_attempted
unfolding note_automatic_routing
routing_same s = refl

success_same :
    (s : PtcRecoveryState)
    → (note_code_execution_success s).recovery_attempted ≡ s.recovery_attempted
unfolding note_code_execution_success
success_same s = refl

failure_same :
    (s : PtcRecoveryState)
    → (note_code_execution_failure s).recovery_attempted ≡ s.recovery_attempted
unfolding note_code_execution_failure
failure_same s = refl

-- Arming is for a state that has not armed before.
arms :
    (state : PtcRecoveryState) (settings : PtcSettings) (failure : RecoveryFailureClass)
    → (arm_automatic_recovery state settings failure).1 ≡ true
    → (state.recovery_attempted ≡ false)
      × ((arm_automatic_recovery state settings failure).0.recovery_attempted ≡ true)
unfolding arm_automatic_recovery can_attempt_automatic_recovery
arms state settings failure e = ground arith

module _ {h : Host} where
  abbrev pending_count : World h → ℕ
  pending_count w = if is_some w.session.pending_recovery_prompt then 1 else 0

  -- From `w` with the messages `n` added so far: each message, added or pending, is one recovery.
  record IsLimited (w : World h) (n : ℕ) : Type 0 where
    within : n + pending_count w ≤ count_attempted w.recovery_states

  update-IsLimited :
      (w : World h) (n place : ℕ) (f : PtcRecoveryState → PtcRecoveryState)
      → ((s : PtcRecoveryState) → (f s).recovery_attempted ≡ s.recovery_attempted)
      → IsLimited w n
      → IsLimited (update_recovery_state w place f) n
  unfolding update_recovery_state
  update-IsLimited w n place f same l =
      ground (arith, l, count-update_at w.recovery_states place f same)

  create-IsLimited : (w : World h) (n : ℕ) → IsLimited w n → IsLimited (create_recovery_state w) n
  unfolding create_recovery_state create_ptc_recovery_state
  create-IsLimited w n l =
      ground (arith, l, count-append w.recovery_states (create_ptc_recovery_state ∷ []))

  get_state-IsLimited :
      (w : World h) (n : ℕ) → IsLimited w n → IsLimited (get_request_recovery_state w).0 n
  unfolding get_request_recovery_state
  get_state-IsLimited w n l = by_place w.session.recovery_state
    where
      by_place :
          (found : Option ℕ)
          → IsLimited
              (elim found as (λ _. World h × ℕ) [
                | some place ↦ (w, place)
                | none ↦ (create_recovery_state w, length w.recovery_states)
              ]).0
              n
      by_place none = create-IsLimited w n l
      by_place (some place) = l

  -- Routing and restoring leave the recovery alone.
  abbrev pub SameRecovery : World h → World h → Type 0
  SameRecovery w v =
      (v.session.pending_recovery_prompt ≡ w.session.pending_recovery_prompt)
      × (v.session.recovery_allowed ≡ w.session.recovery_allowed)
      × (v.recovery_states ≡ w.recovery_states)

  same-IsLimited : (w v : World h) (n : ℕ) → SameRecovery w v → IsLimited w n → IsLimited v n
  same-IsLimited w v n (pending, allowed, states) l = record {
    within = rw (pending, states) l.within;
  }

  route-SameRecovery :
      (w : World h) (names : List Text) → SameRecovery w (route_active_tools w names)
  unfolding route_active_tools set_active_tools
  route-SameRecovery w names = if-both (SameRecovery w) _ (refl, refl, refl) (refl, refl, refl)

  pub routed-SameRecovery :
      (w : World h) (system_prompt : Text) (options : PtcSystemPromptOptions)
      (names : Result (List Text)) (r : ToolRegistry h)
      → SameRecovery w (routed w system_prompt options names r).0
  unfolding routed
  routed-SameRecovery w system_prompt options (err why) r = (refl, refl, refl)
  routed-SameRecovery w system_prompt options (ok names) r =
      route-SameRecovery (record w { registry = r }) names

  restore_saved-SameRecovery :
      (w : World h) (saved : Option (List Text)) → SameRecovery w (restore_saved w saved)
  unfolding restore_saved set_active_tools
  restore_saved-SameRecovery w none = (refl, refl, refl)
  restore_saved-SameRecovery w (some names) = (refl, refl, refl)

  restore-SameRecovery : (w : World h) → SameRecovery w (restore_active_tools_after_routing w)
  unfolding restore_active_tools_after_routing
  restore-SameRecovery w = restore_saved-SameRecovery w w.session.active_tools_before_routing

  start-IsLimited :
      (w : World h) (n : ℕ) (code : Text) → IsLimited w n → IsLimited (start_execution w code) n
  unfolding start_execution
  start-IsLimited w n code l =
      let (w', place) = get_request_recovery_state w in
      let noted =
        update-IsLimited (get_request_recovery_state w).0 n (get_request_recovery_state w).1
          note_code_execution_attempt attempt_same (get_state-IsLimited w n l) in
      record { within = noted.within }

  arm_with-IsLimited :
      (w : World h) (n place : ℕ) (failure : RecoveryFailureClass) (armed : PtcRecoveryState × Bool)
      {s : PtcRecoveryState}
      → get_elem? w.recovery_states place ≡ some s
      → (armed.1 ≡ true → (s.recovery_attempted ≡ false) × (armed.0.recovery_attempted ≡ true))
      → IsLimited w n
      → IsLimited (arm_with w place failure armed) n
  unfolding arm_with update_recovery_state
  arm_with-IsLimited w n place failure (next, false) there fresh l = l
  arm_with-IsLimited w n place failure (next, true) there fresh l =
      let (before, after) = fresh refl in
      ground (arith, l, count-arm w.recovery_states place next there before after)

  arm_recovery-IsLimited :
      (settings : PtcSettings) (w : World h) (n place : ℕ) (state : PtcRecoveryState)
      (failure : Option RecoveryFailureClass)
      → get_elem? w.recovery_states place ≡ some state
      → IsLimited w n
      → IsLimited (arm_recovery settings w place state failure) n
  unfolding arm_recovery
  arm_recovery-IsLimited settings w n place state none there l = l
  arm_recovery-IsLimited settings w n place state (some failure) there l =
      if-both (λ (v : World h). IsLimited v n) w.session.recovery_allowed
        (arm_with-IsLimited w n place failure _ there (arms state settings failure) l) l

module _ {h : Host} where
  plus_none : (w : World h) (n : ℕ) → IsLimited w n → IsLimited w (n + 0)
  plus_none w n l = record { within = omega (arith, l.within) }

  taken-IsLimited :
      (w : World h) (n : ℕ) (pending : Option Text)
      → pending ≡ w.session.pending_recovery_prompt
      → IsLimited w n
      → IsLimited
          (take_pending w pending).0
          (n + (if is_some (take_pending w pending).1 then 1 else 0))
  unfolding take_pending
  taken-IsLimited w n none e l = plus_none w n l
  taken-IsLimited w n (some prompt) e l = elim (Bool-cases (is_empty prompt)) [
    | inl blank ↦ rw blank (plus_none w n l)
    | inr words ↦
        let counted : pending_count w ≡ 1 = rw (← e) refl in
        rw words (record { within = omega (arith, l.within, counted) })
  ]

  context-IsLimited :
      (w : World h) (n : ℕ)
      → IsLimited w n
      → IsLimited (handle_context w).0 (n + (if is_some (handle_context w).1 then 1 else 0))
  unfolding handle_context
  context-IsLimited w n l = taken-IsLimited w n w.session.pending_recovery_prompt refl l

  end-IsLimited : (w : World h) (n : ℕ) → IsLimited w n → IsLimited (handle_agent_end w) n
  unfolding handle_agent_end
  end-IsLimited w n l =
      let restored =
        same-IsLimited w (restore_active_tools_after_routing w) n (restore-SameRecovery w) l in
      record { within = omega (arith, restored.within) }

module _ {h : Host} {N : Type 0} (settings : PtcSettings) where
  recover-IsLimited :
      (w : World h) (n : ℕ) (run : Running) (e : ExecutionError N) (found : Option PtcRecoveryState)
      → get_elem? w.recovery_states run.recovery_state ≡ found
      → IsLimited w n
      → IsLimited (recover settings w run e found) n
  unfolding recover
  recover-IsLimited w n run (python_error raw traceback details) (some state) there l =
      arm_recovery-IsLimited settings w n run.recovery_state state _ there l
  recover-IsLimited w n run e found there l = l

  finish-IsLimited :
      (w : World h) (n : ℕ) (run : Running) (outcome : Executed N)
      → IsLimited w n
      → IsLimited (finish_execution settings w run outcome) n
  unfolding finish_execution
  finish-IsLimited w n run succeeded l =
      update-IsLimited w n run.recovery_state note_code_execution_success success_same l
  finish-IsLimited w n run (threw e) l =
      update-IsLimited (recover settings w run e (get_elem? w.recovery_states run.recovery_state)) n
        run.recovery_state note_code_execution_failure failure_same
        (recover-IsLimited w n run e _ refl l)

module _ {h : Host} (settings : PtcSettings) where
  route_prompt-IsLimited :
      (w : World h) (n : ℕ) (system_prompt : Text) (options : PtcSystemPromptOptions)
      → IsLimited w n
      → IsLimited (route_prompt settings w system_prompt options).0 n
  unfolding route_prompt
  route_prompt-IsLimited w n system_prompt options l =
      let found = get_request_recovery_state w in
      let noted = update_recovery_state found.0 found.1 note_automatic_routing in
      same-IsLimited noted _ n (routed-SameRecovery noted system_prompt options _ _) (
        update-IsLimited found.0 n found.1 note_automatic_routing routing_same
          (get_state-IsLimited w n l))

module _ {h : Host} (lower : Text → Text) (settings : PtcSettings) where
  start_prompt-IsLimited :
      (w : World h) (n : ℕ) (prompt : Option Text) (event : PtcBeforeAgentStartEvent)
      → IsLimited w n
      → IsLimited (start_prompt lower settings w prompt event).0 n
  unfolding start_prompt apply_auto_routing
  start_prompt-IsLimited w n none event l = l
  start_prompt-IsLimited w n (some prompt) event l =
      let Limited = λ (r : World h × Result (Option Text)). IsLimited r.0 n in
      if-both Limited (not (wants_routing lower settings prompt)) l (
        if-both Limited (not (has_code_execution w.pi)) l
          (route_prompt-IsLimited settings w n event.system_prompt event.system_prompt_options l))

  prompt-IsLimited :
      (w : World h) (n : ℕ) (event : PtcBeforeAgentStartEvent)
      → IsLimited w n
      → IsLimited (handle_before_agent_start lower settings w event).0 n
  unfolding handle_before_agent_start reset_for_prompt
  prompt-IsLimited w n event l =
      let cleared : World h = record w {
        session = record w.session {
          pending_recovery_prompt = none;
          recovery_allowed = recovery_allowed_for lower event.prompt;
        };
      } in
      start_prompt-IsLimited (create_recovery_state cleared) n event.prompt event
        (create-IsLimited cleared n (record { within = omega (arith, l.within) }))

module _ {h : Host} {N : Type 0} (lower : Text → Text) (settings : PtcSettings) where
  finish_at-IsLimited :
      (w : World h) (n place : ℕ) (outcome : Executed N) (found : Option Running)
      → IsLimited w n
      → IsLimited (finish_at lower settings w place outcome found) n
  unfolding finish_at
  finish_at-IsLimited w n place outcome none l = l
  finish_at-IsLimited w n place outcome (some run) l =
      finish-IsLimited settings (record w { running = remove_at w.running place }) n run outcome
        (record { within = l.within })

  -- A handle_event adds a message only where one was pending.
  step-IsLimited :
      (w : World h) (n : ℕ) (e : AgentEvent N)
      → IsLimited w n
      → IsLimited
          (handle_event lower settings w e).0
          (n + (if is_some (handle_event lower settings w e).1 then 1 else 0))
  unfolding handle_event
  step-IsLimited w n (before_agent_start event) l =
      plus_none _ n (prompt-IsLimited lower settings w n event l)
  step-IsLimited w n context l = context-IsLimited w n l
  step-IsLimited w n agent_end l = plus_none _ n (end-IsLimited w n l)
  step-IsLimited w n (started code) l = plus_none _ n (start-IsLimited w n code l)
  step-IsLimited w n (finished place outcome) l =
      plus_none _ n (finish_at-IsLimited w n place outcome (get_elem? w.running place) l)

  run-IsLimited :
      (w : World h) (n : ℕ) (es : List (AgentEvent N))
      → IsLimited w n
      → IsLimited (handle_events lower settings w es).0 (n + (handle_events lower settings w es).1)
  unfolding handle_events
  run-IsLimited w n [] l = plus_none w n l
  run-IsLimited w n (e ∷ es) l =
      let rest = run-IsLimited (handle_event lower settings w e).0 _ es (step-IsLimited w n e l) in
      record { within = omega (arith, rest.within) }

  -- From any world with nothing pending, over any events of the host in any order: each recovery
  -- message that is added to the context has a recovery state of its own that has armed since, also
  -- where an execution ends late or belongs to an earlier prompt.
  pub recovery_messages_limited :
      (w : World h) (es : List (AgentEvent N))
      → w.session.pending_recovery_prompt ≡ none
      → count_attempted w.recovery_states + (handle_events lower settings w es).1
        ≤ count_attempted (handle_events lower settings w es).0.recovery_states
  recovery_messages_limited w es quiet =
      let nothing : pending_count w ≡ 0 = rw quiet refl in
      let l =
        run-IsLimited w (count_attempted w.recovery_states) es
          (record { within = omega (arith, nothing) }) in
      omega (arith, l.within)
