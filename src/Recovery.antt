-- ===== src/Recovery.antt =====
-- src/recovery-state.ts: what a prompt's recovery has done, and the details shown of it.
pub mod Once
mod Samples
pub mod Classifier
use pi_ptc_advanced.Common.{
  ltb, if◌then◌else◌, or_else, is_some, is_true, ℕ, ◌+◌, Bool, true, false, not, ◌&&◌, Option, none,
  some, get_or,
}
use pi_ptc_advanced.Settings.{PtcSettings}

pub data RecoveryFailureClass : Type 0 where
  missing_await async_wrapper_iterated : RecoveryFailureClass

pub data RecoveryTerminalState : Type 0 where
  success failed_without_recovery failed_after_recovery : RecoveryTerminalState

pub data PtcFirstToolPath : Type 0 where
  code_execution direct : PtcFirstToolPath

pub record PtcRecoveryState : Type 0 where
  pub auto_routed : Bool
  pub first_tool_path : Option PtcFirstToolPath
  pub routed_to_code_execution : Bool
  pub code_execution_attempts : ℕ
  pub recovery_attempted : Bool
  pub failure_class : Option RecoveryFailureClass
  pub terminal_state : Option RecoveryTerminalState

pub record PtcExecutionTelemetry : Type 0 where
  pub auto_routed : Bool
  pub first_tool_path : Option PtcFirstToolPath
  pub code_execution_attempts : ℕ
  pub recovery_attempt_count : ℕ
  pub terminal_state : Option RecoveryTerminalState

pub record PtcRecoveryDetails : Type 0 where
  pub eligible : Bool
  pub attempted : Bool
  pub failure_class : Option RecoveryFailureClass

unfoldable pub create_ptc_recovery_state : PtcRecoveryState
create_ptc_recovery_state = record {
  auto_routed = false;
  first_tool_path = none;
  routed_to_code_execution = false;
  code_execution_attempts = 0;
  recovery_attempted = false;
  failure_class = none;
  terminal_state = none;
}

unfoldable pub note_automatic_routing : PtcRecoveryState → PtcRecoveryState
note_automatic_routing state = record state { auto_routed = true }

unfoldable pub note_code_execution_attempt : PtcRecoveryState → PtcRecoveryState
note_code_execution_attempt state = record state {
  routed_to_code_execution = true;
  first_tool_path = or_else state.first_tool_path (some code_execution);
  code_execution_attempts = state.code_execution_attempts + 1;
}

unfoldable pub can_attempt_automatic_recovery : PtcRecoveryState → PtcSettings → Bool
can_attempt_automatic_recovery state settings =
    is_true settings.auto_recover
    && ltb 0 (get_or settings.auto_recover_max_attempts 1)
    && ltb 0 state.code_execution_attempts
    && not state.recovery_attempted

-- The state and whether recovery is armed.
unfoldable pub arm_automatic_recovery :
    PtcRecoveryState → PtcSettings → RecoveryFailureClass → PtcRecoveryState × Bool
unfolding can_attempt_automatic_recovery
arm_automatic_recovery state settings failure =
    if not (can_attempt_automatic_recovery state settings)
    then (state, false)
    else (record state { recovery_attempted = true; failure_class = some failure }, true)

unfoldable pub note_code_execution_success : PtcRecoveryState → PtcRecoveryState
note_code_execution_success state = record state { terminal_state = some success }

unfoldable pub note_code_execution_failure : PtcRecoveryState → PtcRecoveryState
note_code_execution_failure state = record state {
  terminal_state =
      some (if state.recovery_attempted then failed_after_recovery else failed_without_recovery);
}

unfoldable pub build_ptc_execution_telemetry : PtcRecoveryState → PtcExecutionTelemetry
build_ptc_execution_telemetry state = record {
  auto_routed = state.auto_routed;
  first_tool_path = state.first_tool_path;
  code_execution_attempts = state.code_execution_attempts;
  recovery_attempt_count = if state.recovery_attempted then 1 else 0;
  terminal_state = state.terminal_state;
}

unfoldable pub build_ptc_recovery_details : PtcRecoveryState → PtcRecoveryDetails
build_ptc_recovery_details state = record {
  eligible = is_some state.failure_class;
  attempted = state.recovery_attempted;
  failure_class = state.failure_class;
}
