-- ===== src/Recovery/Once.antt =====
-- Recovery over the life of a prompt: the operations of src/recovery-state.ts in any order.
use pi_ptc_advanced.Common.{
  if◌then◌else◌, is_some, is_true, ℕ, ◌+◌, ◌≤◌, ◌<◌, ◌≡◌, refl, ◌⊎◌, true, false, some, List, [],
  ◌∷◌, arith,
}
use pi_ptc_advanced.Recovery.{
  PtcRecoveryState, RecoveryFailureClass, create_ptc_recovery_state, note_automatic_routing,
  note_code_execution_attempt, arm_automatic_recovery, can_attempt_automatic_recovery,
  note_code_execution_success, note_code_execution_failure, build_ptc_execution_telemetry,
  build_ptc_recovery_details,
}
use pi_ptc_advanced.Settings.{PtcSettings}

-- What the extension and the executor do with a recovery state.
pub data Note : Type 0 where
  routing attempt succeeded failed : Note
  arm : RecoveryFailureClass → Note

-- The state after a note, and how often it armed recovery.
unfoldable pub note : PtcSettings → PtcRecoveryState → Note → PtcRecoveryState × ℕ
unfolding note_automatic_routing note_code_execution_attempt arm_automatic_recovery
    note_code_execution_success note_code_execution_failure
note settings state routing = (note_automatic_routing state, 0)
note settings state attempt = (note_code_execution_attempt state, 0)
note settings state succeeded = (note_code_execution_success state, 0)
note settings state failed = (note_code_execution_failure state, 0)
note settings state (arm failure) =
    let (next, armed) = arm_automatic_recovery state settings failure in
    (next, if armed then 1 else 0)

unfoldable pub note_all : PtcSettings → PtcRecoveryState → List Note → PtcRecoveryState × ℕ
unfolding note
note_all settings state [] = (state, 0)
note_all settings state (n ∷ ns) =
    let (next, armed) = note settings state n in
    let (last, later) = note_all settings next ns in (last, armed + later)

-- How often recovery is armed is what the flag says, and a class of failure is recorded just then.
record IsCounted (state : PtcRecoveryState) (armed : ℕ) : Type 0 where
  counted : armed ≡ (if state.recovery_attempted then 1 else 0)
  classed : is_some state.failure_class ≡ state.recovery_attempted
  attempted : state.recovery_attempted ≡ true → 0 < state.code_execution_attempts

note-IsCounted :
    (settings : PtcSettings) (state : PtcRecoveryState) (n : Note) (before : ℕ)
    → IsCounted state before
    → IsCounted (note settings state n).0 (before + (note settings state n).1)
unfolding note note_automatic_routing note_code_execution_attempt arm_automatic_recovery
    can_attempt_automatic_recovery note_code_execution_success note_code_execution_failure
note-IsCounted settings state routing before c = ground arith
note-IsCounted settings state attempt before c = ground arith
note-IsCounted settings state succeeded before c = ground arith
note-IsCounted settings state failed before c = ground arith
note-IsCounted settings state (arm failure) before c = ground arith

note_all-IsCounted :
    (settings : PtcSettings) (state : PtcRecoveryState) (ns : List Note) (before : ℕ)
    → IsCounted state before
    → IsCounted (note_all settings state ns).0 (before + (note_all settings state ns).1)
unfolding note_all
note_all-IsCounted settings state [] before c = ground arith
note_all-IsCounted settings state (n ∷ ns) before c =
    let step = note-IsCounted settings state n before c in
    let rest = note_all-IsCounted settings (note settings state n).0 ns _ step in
    ground (arith, rest)

-- Whatever notes a prompt's recovery state takes, in any order, recovery is armed at most once:
-- the telemetry's count is how often it was armed, the details call the failure eligible just when
-- it was, and then code_execution had been attempted.
pub recovery_at_most_once :
    (settings : PtcSettings) (ns : List Note)
    → ((note_all settings create_ptc_recovery_state ns).1 ≤ 1)
      × ((build_ptc_execution_telemetry
            (note_all settings create_ptc_recovery_state ns).0).recovery_attempt_count
          ≡ (note_all settings create_ptc_recovery_state ns).1)
      × ((build_ptc_recovery_details (note_all settings create_ptc_recovery_state ns).0).eligible
          ≡ (build_ptc_recovery_details
              (note_all settings create_ptc_recovery_state ns).0).attempted)
      × ((note_all settings create_ptc_recovery_state ns).1 ≡ 1
          → 0
            < (build_ptc_execution_telemetry
                (note_all settings create_ptc_recovery_state ns).0).code_execution_attempts)
unfolding build_ptc_execution_telemetry build_ptc_recovery_details create_ptc_recovery_state
recovery_at_most_once settings ns =
    let c = note_all-IsCounted settings create_ptc_recovery_state ns 0 created in ground (arith, c)
  where
    created : IsCounted create_ptc_recovery_state 0
    created = ground arith

-- With automatic recovery off, or no attempts allowed, recovery is never armed.
pub recovery_off :
    (settings : PtcSettings) (ns : List Note)
    → (is_true settings.auto_recover ≡ false) ⊎ (settings.auto_recover_max_attempts ≡ some 0)
    → (note_all settings create_ptc_recovery_state ns).1 ≡ 0
unfolding note_all note arm_automatic_recovery can_attempt_automatic_recovery
recovery_off settings ns off = stays create_ptc_recovery_state ns
  where
    none_armed : (state : PtcRecoveryState) (n : Note) → (note settings state n).1 ≡ 0
    none_armed state routing = refl
    none_armed state attempt = refl
    none_armed state succeeded = refl
    none_armed state failed = refl
    none_armed state (arm failure) = ground arith

    stays : (state : PtcRecoveryState) (ns : List Note) → (note_all settings state ns).1 ≡ 0
    stays state [] = refl
    stays state (n ∷ ns) = omega (arith, none_armed state n, stays (note settings state n).0 ns)
