-- ===== src/Extension/Routed.antt =====
-- What routing takes off the active tools, src/index.ts, and what a prompt that asks for a change gets.
use pi_ptc_advanced.Common.{
  if-both, length, keep, keep-mem, Result, ok, err, Text, lit, includes, to_set, includes_of_mem,
  mem_of_includes, includes-to_set, ℕ, ◌≡◌, refl, ap, ◌∙◌, Bool, true, false, not, Option, none,
  some, List, [], ◌∷◌, Memᴰ, arith,
}
use pi_ptc_advanced.Settings.{PtcSettings}
use pi_ptc_advanced.Tools.{Host, ToolInfo}
use pi_ptc_advanced.Common.Distinct.{includes-append}
use pi_ptc_advanced.Registry.State.{ToolRegistry}
use pi_ptc_advanced.Registry.ToolMap.{Pi, get_all_tools}
use pi_ptc_advanced.Registry.Callable.{get_auto_routable_tool_names}
use pi_ptc_advanced.Registry.Callable.Laws.{IsPermittedBy}
use pi_ptc_advanced.Registry.Callable.Routing.{mem-auto_routable}
use pi_ptc_advanced.Recovery.{note_automatic_routing}
use pi_ptc_advanced.Extension.State.{
  World, PtcBeforeAgentStartEvent, PtcSystemPromptOptions, set_active_tools, create_recovery_state,
  get_request_recovery_state, update_recovery_state,
}
use pi_ptc_advanced.Extension.Routing.{
  route_active_tools, next_active_tools, are_tool_lists_equal, routed, apply_auto_routing,
  wants_routing, has_code_execution, route_prompt,
}
use pi_ptc_advanced.Extension.Prompts.{start_prompt, reset_for_prompt, handle_before_agent_start}

-- code_execution stays active, and a tool that is not routable stays too.
next-code_execution :
    (active routable : List Text)
    → includes (next_active_tools active routable) (lit "code_execution") ≡ true
unfolding next_active_tools
next-code_execution active routable =
    let left = keep (λ name. not (includes routable name)) active in
    ground (arith, includes-append left (lit "code_execution" ∷ []) (lit "code_execution"), one)
  where
    one : includes (lit "code_execution" ∷ []) (lit "code_execution") ≡ true
    one = includes_of_mem _ (Memᴰ.head refl)

next-stays :
    (active routable : List Text) (name : Text)
    → Memᴰ name active
    → includes routable name ≡ false
    → includes (next_active_tools active routable) name ≡ true
unfolding next_active_tools
next-stays active routable name m stays =
    let left = keep (λ name. not (includes routable name)) active in
    let kept : includes left name ≡ true =
      includes_of_mem left (keep-mem _ active m (rw stays refl)) in
    ground (arith, kept, includes-append left (lit "code_execution" ∷ []) name)

is_lost : {b : Bool} → b ≡ false → b ≡ true → ⊥
is_lost p q = cc

module _ {h : Host} where
  -- What a handle_event of routing does to the active tools: none is lost but for a routable one, and then
  -- code_execution is active.
  abbrev Loses : List Text → World h → World h → Type 0
  Loses routable w v =
      (name : Text)
      → Memᴰ name w.pi.active_tools
      → includes v.pi.active_tools name ≡ false
      → Memᴰ name routable × (includes v.pi.active_tools (lit "code_execution") ≡ true)

  route-Loses :
      (w : World h) (routable : List Text) → Loses routable w (route_active_tools w routable)
  unfolding route_active_tools set_active_tools
  route-Loses w routable =
      if-both (Loses routable w)
        (are_tool_lists_equal w.pi.active_tools
          (next_active_tools w.pi.active_tools (to_set routable)))
        (λ name m gone. absurd (is_lost gone (includes_of_mem _ m)))
        (λ name m gone.
          (mem_of_includes routable name (listed name m gone), next-code_execution _ _))
    where
      listed :
          (name : Text)
          → Memᴰ name w.pi.active_tools
          → includes (next_active_tools w.pi.active_tools (to_set routable)) name ≡ false
          → includes routable name ≡ true
      listed name m gone = ground (
        arith,
        includes-to_set routable name,
        next-stays w.pi.active_tools (to_set routable) name m,
      )

module _ {h : Host} (lower : Text → Text) (settings : PtcSettings) where
  abbrev IsSafeFrom : ToolRegistry h → Pi h → Text → World h → Type 0
  IsSafeFrom r pi cwd v =
      (name : Text)
      → Memᴰ name pi.active_tools
      → includes v.pi.active_tools name ≡ false
      → ((tool : ToolInfo h) × Memᴰ tool (get_all_tools r pi cwd).0
          × (tool.name ≡ name)
          × IsPermittedBy settings tool)
        × (includes v.pi.active_tools (lit "code_execution") ≡ true)

  abbrev IsSafeLoss : World h → World h → Type 0
  IsSafeLoss w v = IsSafeFrom w.registry w.pi w.session.current_cwd v

  from-IsSafeFrom :
      (r r' : ToolRegistry h) (pi pi' : Pi h) (cwd cwd' : Text) (v : World h)
      → r ≡ r'
      → pi ≡ pi'
      → cwd ≡ cwd'
      → IsSafeFrom r pi cwd v
      → IsSafeFrom r' pi' cwd' v
  from-IsSafeFrom r r' pi pi' cwd cwd' v e d c safe = rw (← e, ← d, ← c) safe

  same-IsSafeLoss : (w v : World h) → v.pi ≡ w.pi → IsSafeLoss w v
  same-IsSafeLoss w v pi name m gone =
      let still : includes v.pi.active_tools name ≡ true =
        ap (λ (p : Pi h). includes p.active_tools name) pi ∙ includes_of_mem w.pi.active_tools m in
      absurd (is_lost gone still)

  -- The host, the registry and the working directory stay.
  abbrev SameHost : World h → World h → Type 0
  SameHost w v =
      (v.pi ≡ w.pi) × (v.registry ≡ w.registry) × (v.session.current_cwd ≡ w.session.current_cwd)

  get_state-SameHost : (w : World h) → SameHost w (get_request_recovery_state w).0
  unfolding get_request_recovery_state create_recovery_state
  get_state-SameHost w = by_place w.session.recovery_state
    where
      by_place :
          (found : Option ℕ)
          → SameHost w
              (elim found as (λ _. World h × ℕ) [
                | some place ↦ (w, place)
                | none ↦ (create_recovery_state w, length w.recovery_states)
              ]).0
      by_place none = (refl, refl, refl)
      by_place (some place) = (refl, refl, refl)

  routed-IsSafeLoss :
      (w : World h) (system_prompt : Text) (options : PtcSystemPromptOptions)
      (names : Result (List Text)) (r : ToolRegistry h)
      → (get_auto_routable_tool_names w.registry w.pi w.session.current_cwd settings).0 ≡ names
      → IsSafeLoss w (routed w system_prompt options names r).0
  unfolding routed
  routed-IsSafeLoss w system_prompt options (err why) r e name m gone =
      same-IsSafeLoss w (record w { registry = r }) refl name m gone
  routed-IsSafeLoss w system_prompt options (ok routable) r e name m gone =
      let (listed, active) = route-Loses (record w { registry = r }) routable name m gone in
      let (direct, permitted) =
        mem-auto_routable w.registry w.pi w.session.current_cwd settings routable name e listed in
      (permitted, active)

  route_prompt-IsSafeLoss :
      (w : World h) (system_prompt : Text) (options : PtcSystemPromptOptions)
      → IsSafeLoss w (route_prompt settings w system_prompt options).0
  unfolding route_prompt update_recovery_state
  route_prompt-IsSafeLoss w system_prompt options =
      let found = get_request_recovery_state w in
      let (pi, registry, cwd) = get_state-SameHost w in
      let noted = update_recovery_state found.0 found.1 note_automatic_routing in
      let (names, r) =
        get_auto_routable_tool_names noted.registry noted.pi noted.session.current_cwd settings in
      from-IsSafeFrom noted.registry w.registry noted.pi w.pi noted.session.current_cwd
        w.session.current_cwd (routed noted system_prompt options names r).0 registry pi cwd
        (routed-IsSafeLoss noted system_prompt options names r refl)

  start_prompt-IsSafeLoss :
      (w : World h) (prompt : Option Text) (event : PtcBeforeAgentStartEvent)
      → IsSafeLoss w (start_prompt lower settings w prompt event).0
  unfolding start_prompt apply_auto_routing
  start_prompt-IsSafeLoss w none event = same-IsSafeLoss w w refl
  start_prompt-IsSafeLoss w (some prompt) event =
      let Safe = λ (r : World h × Result (Option Text)). IsSafeLoss w r.0 in
      if-both Safe (not (wants_routing lower settings prompt)) (same-IsSafeLoss w w refl) (
        if-both Safe (not (has_code_execution w.pi)) (same-IsSafeLoss w w refl)
          (route_prompt-IsSafeLoss w event.system_prompt event.system_prompt_options))

  -- A tool that is active before a prompt and no more when it starts is one that the settings permit
  -- code_execution to call in its place, and code_execution is then active: routing never takes a
  -- capability away.
  pub routed_tools_permitted :
      (w : World h) (event : PtcBeforeAgentStartEvent) (name : Text)
      → Memᴰ name w.pi.active_tools
      → includes (handle_before_agent_start lower settings w event).0.pi.active_tools name ≡ false
      → ((tool : ToolInfo h) × Memᴰ tool (get_all_tools w.registry w.pi w.session.current_cwd).0
          × (tool.name ≡ name)
          × IsPermittedBy settings tool)
        × (includes
              (handle_before_agent_start lower settings w event).0.pi.active_tools
              (lit "code_execution")
            ≡ true)
  unfolding handle_before_agent_start reset_for_prompt create_recovery_state
  routed_tools_permitted w event name m gone =
      start_prompt-IsSafeLoss (reset_for_prompt lower settings w event) event.prompt event name m
        gone
