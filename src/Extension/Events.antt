-- ===== src/Extension/Events.antt =====
-- src/index.ts: the handlers as one step function on the host's events.
use pi_ptc_advanced.Common.{
  remove_at, if◌then◌else◌, is_some, get_elem?, Text, ℕ, ◌+◌, Option, none, some, List, [], ◌∷◌,
}
use pi_ptc_advanced.Settings.{PtcSettings}
use pi_ptc_advanced.Tools.{Host}
use pi_ptc_advanced.Extension.State.{PtcBeforeAgentStartEvent, Running, World, Executed}
use pi_ptc_advanced.Extension.Attempts.{start_execution, finish_execution}
use pi_ptc_advanced.Extension.Prompts.{handle_agent_end, handle_context, handle_before_agent_start}

-- The events of the host, with the execution at a place of `running` that ends.
pub data AgentEvent (N : Type 0) : Type 0 where
  before_agent_start : PtcBeforeAgentStartEvent → AgentEvent N
  context agent_end : AgentEvent N
  started : Text → AgentEvent N
  finished : ℕ → Executed N → AgentEvent N

module _ {h : Host} {N : Type 0} (lower : Text → Text) (settings : PtcSettings) where
  unfoldable pub finish_at : World h → ℕ → Executed N → Option Running → World h
  unfolding finish_execution
  finish_at w place outcome none = w
  finish_at w place outcome (some run) =
      finish_execution settings (record w { running = remove_at w.running place }) run outcome

  -- The world after an event, and the message that it adds to the context, where there is one.
  unfoldable pub handle_event : World h → AgentEvent N → World h × Option Text
  unfolding handle_before_agent_start handle_context handle_agent_end start_execution finish_at
  handle_event w (before_agent_start event) =
      ((handle_before_agent_start lower settings w event).0, none)
  handle_event w context = handle_context w
  handle_event w agent_end = (handle_agent_end w, none)
  handle_event w (started code) = (start_execution w code, none)
  handle_event w (finished place outcome) =
      (finish_at w place outcome (get_elem? w.running place), none)

  -- The world after the events, and the number of messages added to the context.
  unfoldable pub handle_events : World h → List (AgentEvent N) → World h × ℕ
  unfolding handle_event
  handle_events w [] = (w, 0)
  handle_events w (e ∷ es) =
      let (next, message) = handle_event w e in
      let (last, later) = handle_events next es in
      (last, (if is_some message then 1 else 0) + later)
