-- ===== src/Extension/Attempts.antt =====
-- src/index.ts: the tool's `execute` before and after the call of the executor.
use pi_ptc_advanced.Common.{
  if◌then◌else◌, get_elem?, Text, ℕ, Bool, true, false, Option, none, some, [], ◌∷◌, ◌++◌,
}
use pi_ptc_advanced.Settings.{PtcSettings}
use pi_ptc_advanced.Tools.{Host}
use pi_ptc_advanced.Recovery.{
  PtcRecoveryState, note_code_execution_attempt, arm_automatic_recovery,
  note_code_execution_success, note_code_execution_failure, RecoveryFailureClass,
}
use pi_ptc_advanced.Recovery.Classifier.{
  classify_code_execution_failure, build_code_execution_recovery_prompt,
}
use pi_ptc_advanced.Execution.{ExecutionError, python_error}
use pi_ptc_advanced.Extension.State.{
  Running, World, Executed, succeeded, threw, get_request_recovery_state, update_recovery_state,
}

module _ {h : Host} where
  -- The tool's `execute` up to the call of the executor.
  unfoldable pub start_execution : World h → Text → World h
  unfolding get_request_recovery_state update_recovery_state note_code_execution_attempt
  start_execution w code =
      let (w', place) = get_request_recovery_state w in
      let noted = update_recovery_state w' place note_code_execution_attempt in
      record noted {
        running = noted.running ++ record { code = code; recovery_state = place } ∷ [];
      }

  -- What `armAutomaticRecovery` did: the state, and whether a prompt is due.
  unfoldable pub arm_with : World h → ℕ → RecoveryFailureClass → PtcRecoveryState × Bool → World h
  unfolding build_code_execution_recovery_prompt update_recovery_state
  arm_with w place failure (next, true) = record (update_recovery_state w place (λ _. next)) {
    session = record w.session {
      pending_recovery_prompt = some (build_code_execution_recovery_prompt failure);
    };
  }
  arm_with w place failure (next, false) = w

  unfoldable pub arm_recovery :
      PtcSettings → World h → ℕ → PtcRecoveryState → Option RecoveryFailureClass → World h
  unfolding arm_automatic_recovery arm_with
  arm_recovery settings w place state none = w
  arm_recovery settings w place state (some failure) =
      if w.session.recovery_allowed
      then arm_with w place failure (arm_automatic_recovery state settings failure)
      else w

module _ {h : Host} {N : Type 0} (settings : PtcSettings) where
  unfoldable pub recover : World h → Running → ExecutionError N → Option PtcRecoveryState → World h
  unfolding arm_recovery classify_code_execution_failure
  recover w run (python_error raw traceback details) (some state) =
      arm_recovery settings w run.recovery_state state
        (classify_code_execution_failure raw traceback (some run.code))
  recover w run e state = w

  -- The tool's `execute` from the end of the executor on.
  unfoldable pub finish_execution : World h → Running → Executed N → World h
  unfolding recover update_recovery_state note_code_execution_success note_code_execution_failure
  finish_execution w run succeeded =
      update_recovery_state w run.recovery_state note_code_execution_success
  finish_execution w run (threw e) =
      update_recovery_state (recover w run e (get_elem? w.recovery_states run.recovery_state))
        run.recovery_state note_code_execution_failure
