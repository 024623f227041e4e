-- ===== src/Extension/Routing.antt =====
-- src/index.ts: applyAutoRouting and restoreActiveToolsAfterRouting.
use pi_ptc_advanced.Common.{
  if◌then◌else◌, any, keep, Result, ok, err, Text, lit, ◌==◌, includes, to_set, Bool, true, false,
  not, ◌&&◌, Option, none, some, List, [], ◌∷◌, ◌++◌,
}
use pi_ptc_advanced.Common.Patterns.{contains, contains_word, ascii_lower}
use pi_ptc_advanced.Settings.{PtcSettings}
use pi_ptc_advanced.Tools.{Host, ActivePiToolInfo}
use pi_ptc_advanced.Registry.State.{ToolRegistry}
use pi_ptc_advanced.Registry.ToolMap.{Pi}
use pi_ptc_advanced.Registry.Callable.{get_auto_routable_tool_names}
use pi_ptc_advanced.Recovery.{note_automatic_routing}
use pi_ptc_advanced.Utils.Prompts.{should_auto_route_prompt_to_code_execution}
use pi_ptc_advanced.Extension.State.{
  PtcSystemPromptOptions, World, set_active_tools, get_request_recovery_state,
  update_recovery_state,
}

abbrev pub code_execution_auto_route_prompt : Text
code_execution_auto_route_prompt =
    lit
      "This request is a strong fit for code_execution. Prefer calling code_execution first and keep large intermediate results inside Python unless the user explicitly asked to see them."

-- `/repo-wide|.../i` on a text that names code_execution.
unfoldable pub text_has_code_execution_routing_guidance : Text → Bool
unfolding contains contains_word ascii_lower
text_has_code_execution_routing_guidance text =
    let small_text = ascii_lower text in
    contains_word (lit "code_execution" ∷ []) small_text
    && any (λ part. contains part small_text)
        (lit "repo-wide"
          ∷ lit "repeated lookup"
          ∷ lit "grouping"
          ∷ lit "ranking"
          ∷ lit "counting"
          ∷ lit "3+ dependent"
          ∷ lit "large intermediate"
          ∷ lit "compact"
          ∷ lit "batch"
          ∷ lit "aggregat"
          ∷ [])

unfoldable pub should_append_auto_route_prompt : Text → PtcSystemPromptOptions → Bool
unfolding text_has_code_execution_routing_guidance
should_append_auto_route_prompt current_system_prompt options =
    if text_has_code_execution_routing_guidance current_system_prompt
    then false
    else not (
        includes options.selected_tools (lit "code_execution")
        && any text_has_code_execution_routing_guidance options.prompt_guidelines)

unfoldable pub are_tool_lists_equal : List Text → List Text → Bool
are_tool_lists_equal [] [] = true
are_tool_lists_equal (x ∷ xs) (y ∷ ys) = x == y && are_tool_lists_equal xs ys
are_tool_lists_equal [] (y ∷ ys) = false
are_tool_lists_equal (x ∷ xs) [] = false

-- The active tools without the routable ones, and with code_execution.
unfoldable pub next_active_tools : List Text → List Text → List Text
next_active_tools active_tools routable =
    let left = keep (λ name. not (includes routable name)) active_tools in
    if includes left (lit "code_execution") then left else left ++ lit "code_execution" ∷ []

module _ {h : Host} where
  -- The change of the active tools, where there is one.
  unfoldable pub route_active_tools : World h → List Text → World h
  unfolding set_active_tools next_active_tools are_tool_lists_equal
  route_active_tools w routable =
      let next = next_active_tools w.pi.active_tools (to_set routable) in
      if are_tool_lists_equal w.pi.active_tools next
      then w
      else set_active_tools
          (record w {
            session = record w.session { active_tools_before_routing = some w.pi.active_tools };
          })
          next

  -- After the names are asked: `err` is the error of `getAutoRoutableToolNames`, which the handler
  -- passes on. The second result is the new system prompt, where there is one.
  unfoldable pub routed :
      World h
      → Text
      → PtcSystemPromptOptions
      → Result (List Text)
      → ToolRegistry h
      → World h × Result (Option Text)
  unfolding route_active_tools should_append_auto_route_prompt
  routed w system_prompt options (err why) r = (record w { registry = r }, err why)
  routed w system_prompt options (ok routable) r = (
    route_active_tools (record w { registry = r }) routable,
    ok (
        if not (should_append_auto_route_prompt system_prompt options)
        then none
        else some (system_prompt ++ (lit "\n\n" ++ code_execution_auto_route_prompt))),
  )

  unfoldable pub restore_saved : World h → Option (List Text) → World h
  unfolding set_active_tools
  restore_saved w none = w
  restore_saved w (some names) = record (set_active_tools w names) {
    session = record w.session { active_tools_before_routing = none };
  }

  unfoldable pub restore_active_tools_after_routing : World h → World h
  unfolding restore_saved
  restore_active_tools_after_routing w = restore_saved w w.session.active_tools_before_routing

unfoldable pub wants_routing : (Text → Text) → PtcSettings → Text → Bool
unfolding should_auto_route_prompt_to_code_execution
wants_routing lower settings prompt =
    settings.auto_route && should_auto_route_prompt_to_code_execution lower prompt

module _ {h : Host} where
  unfoldable pub has_code_execution : Pi h → Bool
  has_code_execution pi =
      any (λ (tool : ActivePiToolInfo h). tool.name == lit "code_execution") pi.all_tools

  -- `applyAutoRouting` of a prompt that is routed.
  unfoldable pub route_prompt :
      PtcSettings → World h → Text → PtcSystemPromptOptions → World h × Result (Option Text)
  unfolding get_request_recovery_state update_recovery_state note_automatic_routing
      get_auto_routable_tool_names routed
  route_prompt settings w system_prompt options =
      let (w', place) = get_request_recovery_state w in
      let noted = update_recovery_state w' place note_automatic_routing in
      let (names, r) =
        get_auto_routable_tool_names noted.registry noted.pi noted.session.current_cwd settings in
      routed noted system_prompt options names r

module _ {h : Host} (lower : Text → Text) (settings : PtcSettings) where
  unfoldable pub apply_auto_routing :
      World h → Text → Text → PtcSystemPromptOptions → World h × Result (Option Text)
  unfolding wants_routing has_code_execution route_prompt
  apply_auto_routing w prompt system_prompt options =
      if not (wants_routing lower settings prompt)
      then (w, ok none)
      else if not (has_code_execution w.pi)
      then (w, ok none)
      else route_prompt settings w system_prompt options
