-- ===== src/Extension/State.antt =====
-- src/index.ts: the session's state and what it shares. The recovery states are objects that a running
-- execution shares with the session: they stand in a store, and the session and the executions hold
-- their places in it.
use pi_ptc_advanced.Common.{
  length, Text, ℕ, zero, suc, Bool, Option, none, some, List, [], ◌∷◌, ◌++◌,
}
use pi_ptc_advanced.Tools.{Host}
use pi_ptc_advanced.Registry.State.{ToolRegistry}
use pi_ptc_advanced.Registry.ToolMap.{Pi}
use pi_ptc_advanced.Recovery.{PtcRecoveryState, create_ptc_recovery_state}
use pi_ptc_advanced.Execution.{ExecutionError}

pub record PtcSystemPromptOptions : Type 0 where
  pub selected_tools : List Text
  pub prompt_guidelines : List Text

-- `prompt` is `none` where it is no string.
pub record PtcBeforeAgentStartEvent : Type 0 where
  pub prompt : Option Text
  pub system_prompt : Text
  pub system_prompt_options : PtcSystemPromptOptions

-- `recovery_state` is the place of the object.
pub record PtcSessionState : Type 0 where
  pub current_cwd : Text
  pub custom_tools_started : Bool
  pub active_tools_before_routing : Option (List Text)
  pub pending_recovery_prompt : Option Text
  pub recovery_allowed : Bool
  pub recovery_state : Option ℕ

-- An execution that runs: its code and the place of its recovery state.
pub record Running : Type 0 where
  pub code : Text
  pub recovery_state : ℕ

-- The session, what it shares, the registry and the host.
pub record World (h : Host) : Type 0 where
  pub session : PtcSessionState
  pub recovery_states : List PtcRecoveryState
  pub running : List Running
  pub registry : ToolRegistry h
  pub pi : Pi h

-- How `codeExecutor.execute` ends.
pub data Executed (N : Type 0) : Type 0 where
  succeeded : Executed N
  threw : ExecutionError N → Executed N

abbrev pub update_at {ℓ} : {A : Type ℓ} → List A → ℕ → (A → A) → List A
update_at [] i f = []
update_at (x ∷ xs) zero f = f x ∷ xs
update_at (x ∷ xs) (suc i) f = x ∷ update_at xs i f

module _ {h : Host} where
  unfoldable pub set_active_tools : World h → List Text → World h
  set_active_tools w names = record w { pi = record w.pi { active_tools = names } }

  unfoldable pub create_recovery_state : World h → World h
  unfolding create_ptc_recovery_state
  create_recovery_state w = record w {
    session = record w.session { recovery_state = some (length w.recovery_states) };
    recovery_states = w.recovery_states ++ create_ptc_recovery_state ∷ [];
  }

  -- `getRequestRecoveryState`: the world with a state, and its place.
  unfoldable pub get_request_recovery_state : World h → World h × ℕ
  unfolding create_recovery_state
  get_request_recovery_state w = elim w.session.recovery_state [
    | some place ↦ (w, place)
    | none ↦ (create_recovery_state w, length w.recovery_states)
  ]

  unfoldable pub update_recovery_state :
      World h → ℕ → (PtcRecoveryState → PtcRecoveryState) → World h
  update_recovery_state w place f = record w {
    recovery_states = update_at w.recovery_states place f;
  }
