-- ===== src/Extension/Prompts.antt =====
-- src/index.ts: the handlers of a prompt's start, its contexts and its end.
use pi_ptc_advanced.Common.{
  if◌then◌else◌, Result, ok, Text, is_empty, Bool, true, not, Option, none, some,
}
use pi_ptc_advanced.Settings.{PtcSettings}
use pi_ptc_advanced.Tools.{Host}
use pi_ptc_advanced.Utils.Prompts.{is_mutation_prompt}
use pi_ptc_advanced.Extension.State.{PtcBeforeAgentStartEvent, World, create_recovery_state}
use pi_ptc_advanced.Extension.Routing.{restore_active_tools_after_routing, apply_auto_routing}

module _ {h : Host} where
  unfoldable pub handle_agent_end : World h → World h
  unfolding restore_active_tools_after_routing
  handle_agent_end w =
      let restored = restore_active_tools_after_routing w in
      record restored {
        session = record restored.session {
          pending_recovery_prompt = none;
          recovery_allowed = true;
          recovery_state = none;
        };
      }

  -- The world and the message added to the context, where there is one.
  unfoldable pub take_pending : World h → Option Text → World h × Option Text
  take_pending w none = (w, none)
  take_pending w (some prompt) =
      if is_empty prompt
      then (w, none)
      else (record w { session = record w.session { pending_recovery_prompt = none } }, some prompt)

  -- The world and the message added to the context, where there is one.
  unfoldable pub handle_context : World h → World h × Option Text
  unfolding take_pending
  handle_context w = take_pending w w.session.pending_recovery_prompt

unfoldable pub recovery_allowed_for : (Text → Text) → Option Text → Bool
unfolding is_mutation_prompt
recovery_allowed_for lower none = true
recovery_allowed_for lower (some prompt) = not (is_mutation_prompt lower prompt)

module _ {h : Host} (lower : Text → Text) (settings : PtcSettings) where
  unfoldable pub reset_for_prompt : World h → PtcBeforeAgentStartEvent → World h
  unfolding create_recovery_state recovery_allowed_for
  reset_for_prompt w event = create_recovery_state (record w {
    session = record w.session {
      pending_recovery_prompt = none;
      recovery_allowed = recovery_allowed_for lower event.prompt;
    };
  })

  unfoldable pub start_prompt :
      World h → Option Text → PtcBeforeAgentStartEvent → World h × Result (Option Text)
  unfolding apply_auto_routing
  start_prompt w none event = (w, ok none)
  start_prompt w (some prompt) event =
      apply_auto_routing lower settings w prompt event.system_prompt event.system_prompt_options

  unfoldable pub handle_before_agent_start :
      World h → PtcBeforeAgentStartEvent → World h × Result (Option Text)
  unfolding reset_for_prompt start_prompt
  handle_before_agent_start w event = start_prompt (reset_for_prompt w event) event.prompt event
