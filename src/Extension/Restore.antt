-- ===== src/Extension/Restore.antt =====
-- The active tools over a prompt that src/index.ts routes, and the prompts that ask for changes.
use pi_ptc_advanced.Common.{
  remove_at, if-both, length, get_elem?, All, Result, ok, err, Text, is_empty, to_set, ℕ, ◌≡◌, refl,
  ap, ◌∙◌, ◌⊎◌, inl, inr, Bool, true, false, not, Option, none, some, List, [], ◌∷◌, ◌++◌,
}
use pi_ptc_advanced.Settings.{PtcSettings}
use pi_ptc_advanced.Tools.{Host}
use pi_ptc_advanced.Registry.State.{ToolRegistry}
use pi_ptc_advanced.Registry.ToolMap.{Pi}
use pi_ptc_advanced.Recovery.{
  PtcRecoveryState, note_automatic_routing, RecoveryFailureClass, arm_automatic_recovery,
}
use pi_ptc_advanced.Execution.{ExecutionError, python_error}
use pi_ptc_advanced.Extension.State.{
  World, PtcBeforeAgentStartEvent, PtcSystemPromptOptions, Running, Executed, succeeded, threw,
  set_active_tools, create_recovery_state, get_request_recovery_state, update_recovery_state,
}
use pi_ptc_advanced.Extension.Events.{
  AgentEvent, before_agent_start, context, agent_end, started, finished, finish_at, handle_event,
  handle_events,
}
use pi_ptc_advanced.Extension.Routing.{
  route_active_tools, next_active_tools, are_tool_lists_equal, routed, restore_saved,
  restore_active_tools_after_routing, apply_auto_routing, wants_routing, has_code_execution,
  route_prompt,
}
use pi_ptc_advanced.Extension.Prompts.{
  handle_agent_end, handle_context, start_prompt, take_pending, reset_for_prompt,
  handle_before_agent_start,
}
use pi_ptc_advanced.Extension.Attempts.{
  start_execution, arm_with, arm_recovery, recover, finish_execution,
}

-- An event within a prompt: a context, or the start or the end of an execution.
abbrev pub IsInner : {N : Type 0} → AgentEvent N → Type 0
IsInner (before_agent_start event) = ⊥
IsInner agent_end = ⊥
IsInner e = Unit

module _ {h : Host} where
  -- The active tools are those of before, or they are saved for the end of the prompt.
  abbrev pub Remembers : List Text → World h → Type 0
  Remembers names w =
      ((w.session.active_tools_before_routing ≡ none) × (w.pi.active_tools ≡ names))
      ⊎ (w.session.active_tools_before_routing ≡ some names)

  -- The host and what is saved of it stay.
  abbrev SameTools : World h → World h → Type 0
  SameTools w v =
      (v.session.active_tools_before_routing ≡ w.session.active_tools_before_routing)
      × (v.pi ≡ w.pi)

  same-Remembers :
      (names : List Text) (w v : World h) → SameTools w v → Remembers names w → Remembers names v
  same-Remembers names w v (saved, pi) (inl (none_saved, active)) =
      inl (saved ∙ none_saved, ap (λ (p : Pi h). p.active_tools) pi ∙ active)
  same-Remembers names w v (saved, pi) (inr kept) = inr (saved ∙ kept)

  get_state-SameTools : (w : World h) → SameTools w (get_request_recovery_state w).0
  unfolding get_request_recovery_state create_recovery_state
  get_state-SameTools w = by_place w.session.recovery_state
    where
      by_place :
          (found : Option ℕ)
          → SameTools w
              (elim found as (λ _. World h × ℕ) [
                | some place ↦ (w, place)
                | none ↦ (create_recovery_state w, length w.recovery_states)
              ]).0
      by_place none = (refl, refl)
      by_place (some place) = (refl, refl)

  route-Remembers :
      (names : List Text) (w : World h) (routable : List Text)
      → w.session.active_tools_before_routing ≡ none
      → w.pi.active_tools ≡ names
      → Remembers names (route_active_tools w routable)
  unfolding route_active_tools set_active_tools
  route-Remembers names w routable fresh active =
      if-both (Remembers names)
        (are_tool_lists_equal w.pi.active_tools
          (next_active_tools w.pi.active_tools (to_set routable)))
        (inl (fresh, active)) (inr (ap some active))

  routed-Remembers :
      (names : List Text) (w : World h) (system_prompt : Text) (options : PtcSystemPromptOptions)
      (routable : Result (List Text)) (r : ToolRegistry h)
      → w.session.active_tools_before_routing ≡ none
      → w.pi.active_tools ≡ names
      → Remembers names (routed w system_prompt options routable r).0
  unfolding routed
  routed-Remembers names w system_prompt options (err why) r fresh active = inl (fresh, active)
  routed-Remembers names w system_prompt options (ok routable) r fresh active =
      route-Remembers names (record w { registry = r }) routable fresh active

  take-SameTools : (w : World h) (pending : Option Text) → SameTools w (take_pending w pending).0
  unfolding take_pending
  take-SameTools w none = (refl, refl)
  take-SameTools w (some prompt) =
      if-both (λ (r : World h × Option Text). SameTools w r.0) (is_empty prompt) (refl, refl)
        (refl, refl)

  start-SameTools : (w : World h) (code : Text) → SameTools w (start_execution w code)
  unfolding start_execution update_recovery_state
  start-SameTools w code = get_state-SameTools w

  arm_with-SameTools :
      (w : World h) (place : ℕ) (failure : RecoveryFailureClass) (armed : PtcRecoveryState × Bool)
      → SameTools w (arm_with w place failure armed)
  unfolding arm_with update_recovery_state
  arm_with-SameTools w place failure (next, true) = (refl, refl)
  arm_with-SameTools w place failure (next, false) = (refl, refl)

  arm-SameTools :
      (settings : PtcSettings) (w : World h) (place : ℕ) (state : PtcRecoveryState)
      (failure : Option RecoveryFailureClass)
      → SameTools w (arm_recovery settings w place state failure)
  unfolding arm_recovery
  arm-SameTools settings w place state none = (refl, refl)
  arm-SameTools settings w place state (some failure) =
      if-both (SameTools w) w.session.recovery_allowed
        (arm_with-SameTools w place failure (arm_automatic_recovery state settings failure))
        (refl, refl)

  saved-restores :
      (names : List Text) (w : World h) (saved : Option (List Text))
      → w.session.active_tools_before_routing ≡ saved
      → ((saved ≡ none) × (w.pi.active_tools ≡ names)) ⊎ (saved ≡ some names)
      → ((restore_saved w saved).pi.active_tools ≡ names)
        × ((restore_saved w saved).session.active_tools_before_routing ≡ none)
  unfolding restore_saved set_active_tools
  saved-restores names w none e (inl (_, active)) = (active, e)
  saved-restores names w none e (inr kept) = cc
  saved-restores names w (some old) e (inl (none_saved, active)) = cc
  saved-restores names w (some old) e (inr kept) = let same : old ≡ names = cc in (same, refl)

  end-restores :
      (names : List Text) (w : World h)
      → Remembers names w
      → ((handle_agent_end w).pi.active_tools ≡ names)
        × ((handle_agent_end w).session.active_tools_before_routing ≡ none)
  unfolding handle_agent_end restore_active_tools_after_routing
  end-restores names w m = saved-restores names w w.session.active_tools_before_routing refl m

module _ {h : Host} (settings : PtcSettings) where
  route_prompt-Remembers :
      (w : World h) (system_prompt : Text) (options : PtcSystemPromptOptions)
      → w.session.active_tools_before_routing ≡ none
      → Remembers w.pi.active_tools (route_prompt settings w system_prompt options).0
  unfolding route_prompt update_recovery_state
  route_prompt-Remembers w system_prompt options fresh =
      let found = get_request_recovery_state w in
      let (saved, pi) = get_state-SameTools w in
      let noted = update_recovery_state found.0 found.1 note_automatic_routing in
      routed-Remembers w.pi.active_tools noted system_prompt options _ _ (saved ∙ fresh)
        (ap (λ (p : Pi h). p.active_tools) pi)

module _ {h : Host} {N : Type 0} (settings : PtcSettings) where
  recover-SameTools :
      (w : World h) (run : Running) (e : ExecutionError N) (found : Option PtcRecoveryState)
      → SameTools w (recover settings w run e found)
  unfolding recover
  recover-SameTools w run (python_error raw traceback details) (some state) =
      arm-SameTools settings w run.recovery_state state _
  recover-SameTools w run e found = (refl, refl)

  finish-SameTools :
      (w : World h) (run : Running) (outcome : Executed N)
      → SameTools w (finish_execution settings w run outcome)
  unfolding finish_execution update_recovery_state
  finish-SameTools w run succeeded = (refl, refl)
  finish-SameTools w run (threw e) =
      recover-SameTools w run e (get_elem? w.recovery_states run.recovery_state)

module _ {h : Host} (lower : Text → Text) (settings : PtcSettings) where
  start_prompt-Remembers :
      (w : World h) (prompt : Option Text) (event : PtcBeforeAgentStartEvent)
      → w.session.active_tools_before_routing ≡ none
      → Remembers w.pi.active_tools (start_prompt lower settings w prompt event).0
  unfolding start_prompt apply_auto_routing
  start_prompt-Remembers w none event fresh = inl (fresh, refl)
  start_prompt-Remembers w (some prompt) event fresh =
      let Kept = λ (r : World h × Result (Option Text)). Remembers w.pi.active_tools r.0 in
      let stays : Remembers w.pi.active_tools w = inl (fresh, refl) in
      if-both Kept (not (wants_routing lower settings prompt)) stays (
        if-both Kept (not (has_code_execution w.pi)) stays
          (route_prompt-Remembers settings w event.system_prompt event.system_prompt_options fresh))

  prompt-Remembers :
      (w : World h) (event : PtcBeforeAgentStartEvent)
      → w.session.active_tools_before_routing ≡ none
      → Remembers w.pi.active_tools (handle_before_agent_start lower settings w event).0
  unfolding handle_before_agent_start reset_for_prompt create_recovery_state
  prompt-Remembers w event fresh =
      start_prompt-Remembers (reset_for_prompt lower settings w event) event.prompt event fresh

module _ {h : Host} {N : Type 0} (lower : Text → Text) (settings : PtcSettings) where
  step-SameTools :
      (w : World h) (e : AgentEvent N) → IsInner e → SameTools w (handle_event lower settings w e).0
  unfolding handle_event handle_context finish_at
  step-SameTools w (before_agent_start event) inner = elim inner [ ]
  step-SameTools w agent_end inner = elim inner [ ]
  step-SameTools w context inner = take-SameTools w w.session.pending_recovery_prompt
  step-SameTools w (started code) inner = start-SameTools w code
  step-SameTools w (finished place outcome) inner = found-SameTools (get_elem? w.running place)
    where
      found-SameTools :
          (found : Option Running) → SameTools w (finish_at lower settings w place outcome found)
      found-SameTools none = (refl, refl)
      found-SameTools (some run) =
          finish-SameTools settings (record w { running = remove_at w.running place }) run outcome

  run-Remembers :
      (names : List Text) (w : World h) (es : List (AgentEvent N))
      → All IsInner es
      → Remembers names w
      → Remembers names (handle_events lower settings w es).0
  unfolding handle_events
  run-Remembers names w [] inner m = m
  run-Remembers names w (e ∷ es) (i, inner) m =
      run-Remembers names (handle_event lower settings w e).0 es inner
        (same-Remembers names w (handle_event lower settings w e).0 (step-SameTools w e i) m)

  run-append :
      (w : World h) (es fs : List (AgentEvent N))
      → (handle_events lower settings w (es ++ fs)).0
        ≡ (handle_events lower settings (handle_events lower settings w es).0 fs).0
  unfolding handle_events
  run-append w [] fs = refl
  run-append w (e ∷ es) fs = run-append (handle_event lower settings w e).0 es fs

  -- Where nothing is saved at its start, a prompt with any contexts and executions leaves the host's
  -- active tools at its end as they were, routed or not, and saves nothing: the routing of a prompt
  -- ends with it.
  pub prompt_restores_tools :
      (w : World h) (event : PtcBeforeAgentStartEvent) (es : List (AgentEvent N))
      → w.session.active_tools_before_routing ≡ none
      → All IsInner es
      → ((handle_events lower settings w
            (before_agent_start event ∷ (es ++ agent_end ∷ []))).0.pi.active_tools
          ≡ w.pi.active_tools)
        × ((handle_events lower settings w (before_agent_start event ∷ (es ++ agent_end ∷ []))
              ).0.session.active_tools_before_routing
            ≡ none)
  unfolding handle_event handle_events
  prompt_restores_tools w event es fresh inner =
      let routed_world = (handle_before_agent_start lower settings w event).0 in
      rw (run-append routed_world es (agent_end ∷ [])) (
        end-restores w.pi.active_tools (handle_events lower settings routed_world es).0 (
          run-Remembers w.pi.active_tools routed_world es inner
            (prompt-Remembers lower settings w event fresh)))
