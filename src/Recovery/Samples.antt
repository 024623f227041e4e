-- ===== src/Recovery/Samples.antt =====
-- Recovery on a concrete prompt.
use pi_ptc_advanced.Common.{
  Text, lit, trim, join, split, ℕ, ◌≤◌, ◌<◌, ◌≡◌, refl, Bool, true, false, Option, none, some, List,
  [], ◌∷◌, Memᴰ,
}
use pi_ptc_advanced.Settings.{PtcSettings}
use pi_ptc_advanced.Recovery.{
  create_ptc_recovery_state, build_ptc_execution_telemetry, build_ptc_recovery_details,
  missing_await,
}
use pi_ptc_advanced.Recovery.Classifier.{classify_code_execution_failure, get_evidence_lines}
use pi_ptc_advanced.Recovery.Classifier.Laws.{IsBlamed, classify-IsBlamed}
use pi_ptc_advanced.Recovery.Once.{
  note_all, Note, routing, attempt, failed, arm, recovery_at_most_once,
}

abbrev settings_with : Option Bool → Option ℕ → PtcSettings
settings_with recover attempts = record {
  execution_timeout_ms = 270000;
  max_output_chars = 100000;
  allow_mutations = false;
  allow_bash = false;
  max_parallel_tool_calls = 8;
  use_docker = false;
  allow_unsandboxed_subprocess = false;
  debug_logging = false;
  auto_route = true;
  auto_recover = recover;
  auto_recover_max_attempts = attempts;
  trusted_read_only_tools = none;
  callable_tools = none;
  blocked_tools = none;
}

abbrev sample_notes : List Note
sample_notes = routing ∷ attempt ∷ arm missing_await ∷ attempt ∷ arm missing_await ∷ failed ∷ []

recovery_at_most_once_example :
    ((note_all (settings_with (some true) none) create_ptc_recovery_state sample_notes).1 ≤ 1)
    × ((build_ptc_execution_telemetry
          (note_all
            (settings_with (some true) none)
            create_ptc_recovery_state
            sample_notes).0).recovery_attempt_count
        ≡ (note_all (settings_with (some true) none) create_ptc_recovery_state sample_notes).1)
    × ((build_ptc_recovery_details
          (note_all
            (settings_with (some true) none)
            create_ptc_recovery_state
            sample_notes).0).eligible
        ≡ (build_ptc_recovery_details
            (note_all
              (settings_with (some true) none)
              create_ptc_recovery_state
              sample_notes).0).attempted)
    × ((note_all (settings_with (some true) none) create_ptc_recovery_state sample_notes).1 ≡ 1
        → 0
          < (build_ptc_execution_telemetry
              (note_all
                (settings_with (some true) none)
                create_ptc_recovery_state
                sample_notes).0).code_execution_attempts)
recovery_at_most_once_example = recovery_at_most_once (settings_with (some true) none) sample_notes

abbrev sample_message : Text
sample_message = lit "'coroutine' object is not iterable"

abbrev sample_code : Text
sample_code = lit "files = glob('*.ts')"

classified :
    classify_code_execution_failure sample_message none (some sample_code) ≡ some missing_await
unfolding classify_code_execution_failure join trim lit split
classified = refl

classify-IsBlamed_example :
    (line : Text) × Memᴰ line (get_evidence_lines none (some sample_code))
    × IsBlamed missing_await line
classify-IsBlamed_example =
    classify-IsBlamed sample_message none (some sample_code) missing_await classified
