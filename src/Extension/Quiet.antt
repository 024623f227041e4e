-- ===== src/Extension/Quiet.antt =====
-- A prompt that asks for a change, src/index.ts: no recovery message is added in it.
use pi_ptc_advanced.Common.{
  remove_at, if◌then◌else◌, if-both, length, get_elem?, All, Result, Text, ℕ, ◌≡◌, refl, ◌∙◌, Bool,
  true, false, not, Option, none, some, List, [], ◌∷◌, arith,
}
use pi_ptc_advanced.Settings.{PtcSettings}
use pi_ptc_advanced.Tools.{Host}
use pi_ptc_advanced.Registry.Callable.{get_auto_routable_tool_names}
use pi_ptc_advanced.Recovery.{
  PtcRecoveryState, note_automatic_routing, arm_automatic_recovery, RecoveryFailureClass,
}
use pi_ptc_advanced.Execution.{ExecutionError, python_error}
use pi_ptc_advanced.Utils.Prompts.{is_mutation_prompt}
use pi_ptc_advanced.Extension.State.{
  World, PtcBeforeAgentStartEvent, PtcSystemPromptOptions, Running, Executed, succeeded, threw,
  create_recovery_state, get_request_recovery_state, update_recovery_state,
}
use pi_ptc_advanced.Extension.Events.{
  AgentEvent, before_agent_start, context, agent_end, started, finished, finish_at, handle_event,
  handle_events,
}
use pi_ptc_advanced.Extension.Prompts.{
  handle_context, recovery_allowed_for, start_prompt, take_pending, reset_for_prompt,
  handle_before_agent_start,
}
use pi_ptc_advanced.Extension.Attempts.{
  start_execution, arm_with, arm_recovery, recover, finish_execution,
}
use pi_ptc_advanced.Extension.Routing.{
  apply_auto_routing, wants_routing, has_code_execution, route_prompt,
}
use pi_ptc_advanced.Extension.Once.{routed-SameRecovery}
use pi_ptc_advanced.Extension.Restore.{IsInner}

module _ {h : Host} where
  -- No recovery is allowed and none is pending.
  abbrev IsQuiet : World h → Type 0
  IsQuiet w = (w.session.recovery_allowed ≡ false) × (w.session.pending_recovery_prompt ≡ none)

  get_state-IsQuiet : (w : World h) → IsQuiet w → IsQuiet (get_request_recovery_state w).0
  unfolding get_request_recovery_state create_recovery_state
  get_state-IsQuiet w q = by_place w.session.recovery_state
    where
      by_place :
          (found : Option ℕ)
          → IsQuiet
              (elim found as (λ _. World h × ℕ) [
                | some place ↦ (w, place)
                | none ↦ (create_recovery_state w, length w.recovery_states)
              ]).0
      by_place none = q
      by_place (some place) = q

  start-IsQuiet : (w : World h) (code : Text) → IsQuiet w → IsQuiet (start_execution w code)
  unfolding start_execution update_recovery_state
  start-IsQuiet w code q = get_state-IsQuiet w q

  take-IsQuiet :
      (w : World h) (pending : Option Text)
      → pending ≡ none
      → IsQuiet w
      → IsQuiet (take_pending w pending).0 × ((take_pending w pending).1 ≡ none)
  unfolding take_pending
  take-IsQuiet w none e q = (q, refl)
  take-IsQuiet w (some prompt) e q = cc

  arm-IsQuiet :
      (settings : PtcSettings) (w : World h) (place : ℕ) (state : PtcRecoveryState)
      (failure : Option RecoveryFailureClass)
      → IsQuiet w
      → IsQuiet (arm_recovery settings w place state failure)
  unfolding arm_recovery
  arm-IsQuiet settings w place state none q = q
  arm-IsQuiet settings w place state (some failure) q = by_allowed w.session.recovery_allowed q.0
    where
      by_allowed :
          (b : Bool)
          → b ≡ false
          → IsQuiet (
              if b
              then arm_with w place failure (arm_automatic_recovery state settings failure)
              else w)
      by_allowed false e = q
      by_allowed true e = cc

  route-IsQuiet :
      (settings : PtcSettings) (w : World h) (system_prompt : Text)
      (options : PtcSystemPromptOptions)
      → IsQuiet w
      → IsQuiet (route_prompt settings w system_prompt options).0
  unfolding route_prompt update_recovery_state
  route-IsQuiet settings w system_prompt options q =
      let found = get_request_recovery_state w in
      let noted = update_recovery_state found.0 found.1 note_automatic_routing in
      let (names, r) =
        get_auto_routable_tool_names noted.registry noted.pi noted.session.current_cwd settings in
      let (pending, allowed, states) = routed-SameRecovery noted system_prompt options names r in
      let (no_recovery, no_prompt) = get_state-IsQuiet w q in
      (allowed ∙ no_recovery, pending ∙ no_prompt)

module _ {h : Host} {N : Type 0} (settings : PtcSettings) where
  recover-IsQuiet :
      (w : World h) (run : Running) (e : ExecutionError N) (found : Option PtcRecoveryState)
      → IsQuiet w
      → IsQuiet (recover settings w run e found)
  unfolding recover
  recover-IsQuiet w run (python_error raw traceback details) (some state) q =
      arm-IsQuiet settings w run.recovery_state state _ q
  recover-IsQuiet w run e found q = q

  finish-IsQuiet :
      (w : World h) (run : Running) (outcome : Executed N)
      → IsQuiet w
      → IsQuiet (finish_execution settings w run outcome)
  unfolding finish_execution update_recovery_state
  finish-IsQuiet w run succeeded q = q
  finish-IsQuiet w run (threw e) q =
      recover-IsQuiet w run e (get_elem? w.recovery_states run.recovery_state) q

module _ {h : Host} (lower : Text → Text) (settings : PtcSettings) where
  prompt-IsQuiet :
      (w : World h) (event : PtcBeforeAgentStartEvent) (prompt : Text)
      → event.prompt ≡ some prompt
      → is_mutation_prompt lower prompt ≡ true
      → IsQuiet (handle_before_agent_start lower settings w event).0
  unfolding handle_before_agent_start start_prompt apply_auto_routing reset_for_prompt
      recovery_allowed_for create_recovery_state
  prompt-IsQuiet w event prompt given asks = by_prompt event.prompt (quiet given)
    where
      quiet : event.prompt ≡ some prompt → IsQuiet (reset_for_prompt lower settings w event)
      quiet e = (rw e (simp asks), refl)

      by_prompt :
          (p : Option Text)
          → IsQuiet (reset_for_prompt lower settings w event)
          → IsQuiet
              (start_prompt lower settings (reset_for_prompt lower settings w event) p event).0
      by_prompt none q = q
      by_prompt (some given_prompt) q =
          if-both (λ (r : World h × Result (Option Text)). IsQuiet r.0)
            (not (wants_routing lower settings given_prompt)) q
            (if-both (λ (r : World h × Result (Option Text)). IsQuiet r.0)
              (not (has_code_execution w.pi)) q
              (route-IsQuiet settings (reset_for_prompt lower settings w event) event.system_prompt
                event.system_prompt_options q))

module _ {h : Host} {N : Type 0} (lower : Text → Text) (settings : PtcSettings) where
  step-IsQuiet :
      (w : World h) (e : AgentEvent N)
      → IsInner e
      → IsQuiet w
      → IsQuiet (handle_event lower settings w e).0 × ((handle_event lower settings w e).1 ≡ none)
  unfolding handle_event handle_context finish_at
  step-IsQuiet w (before_agent_start event) inner q = elim inner [ ]
  step-IsQuiet w agent_end inner q = elim inner [ ]
  step-IsQuiet w context inner q = take-IsQuiet w w.session.pending_recovery_prompt q.1 q
  step-IsQuiet w (started code) inner q = (start-IsQuiet w code q, refl)
  step-IsQuiet w (finished place outcome) inner q = (at_place (get_elem? w.running place), refl)
    where
      at_place : (found : Option Running) → IsQuiet (finish_at lower settings w place outcome found)
      at_place none = q
      at_place (some run) =
          finish-IsQuiet settings (record w { running = remove_at w.running place }) run outcome q

  run-IsQuiet :
      (w : World h) (es : List (AgentEvent N))
      → All IsInner es
      → IsQuiet w
      → (handle_events lower settings w es).1 ≡ 0
  unfolding handle_events
  run-IsQuiet w [] inner q = refl
  run-IsQuiet w (e ∷ es) (i, inner) q =
      let (next, silent) = step-IsQuiet w e i q in
      ground (arith, silent, run-IsQuiet (handle_event lower settings w e).0 es inner next)

  -- While a prompt that asks for a change runs, no recovery message is added to its contexts,
  -- whatever executions fail, also those that started before it.
  pub mutation_prompt_quiet :
      (w : World h) (event : PtcBeforeAgentStartEvent) (prompt : Text) (es : List (AgentEvent N))
      → event.prompt ≡ some prompt
      → is_mutation_prompt lower prompt ≡ true
      → All IsInner es
      → (handle_events lower settings w (before_agent_start event ∷ es)).1 ≡ 0
  unfolding handle_events handle_event
  mutation_prompt_quiet w event prompt es given asks inner =
      let quiet = prompt-IsQuiet lower settings w event prompt given asks in
      omega (arith, run-IsQuiet (handle_before_agent_start lower settings w event).0 es inner quiet)
