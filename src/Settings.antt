-- ===== src/Settings.antt =====
-- src/contracts/settings.ts: what the environment of the process configures.
use pi_ptc_advanced.Common.{ℕ, Bool, Option, List, Text}

pub record PtcSettings : Type 0 where
  pub execution_timeout_ms : ℕ
  pub max_output_chars : ℕ
  pub allow_mutations : Bool
  pub allow_bash : Bool
  pub max_parallel_tool_calls : ℕ
  pub use_docker : Bool
  pub allow_unsandboxed_subprocess : Bool
  pub debug_logging : Bool
  pub auto_route : Bool
  pub auto_recover : Option Bool
  pub auto_recover_max_attempts : Option ℕ
  pub trusted_read_only_tools : Option (List Text)
  pub callable_tools : Option (List Text)
  pub blocked_tools : Option (List Text)
