-- ===== src/Utils/Samples.antt =====
-- Output that is cut.
use Prim.Native.Nat.{max}
use pi_ptc_advanced.Common.{
  if◌then◌else◌, length, Text, lit, ◌==◌, trim, is_empty, show_ℕ, ◌≤◌, ◌≡◌, refl, ◌↔◌, ◌⊎◌, true,
  false, Option, none, some,
}
use Prim.Native.Nat.{max}
use pi_ptc_advanced.Common.Patterns.{ascii_lower}
use pi_ptc_advanced.Utils.Environment.{Engine, load_settings_from_env}
use pi_ptc_advanced.Utils.Environment.Bounds.{IsBounded, load_settings-IsBounded}
use pi_ptc_advanced.Utils.Prompts.{
  is_mutation_prompt, requests_code_execution, should_auto_route_prompt_to_code_execution,
}
use pi_ptc_advanced.Utils.Prompts.Routing.{signs, should_auto_route_iff}
use pi_ptc_advanced.Utils.{truncate_output, truncate_output-le}

session : Unit {0}
unfolding lit show_ℕ truncate_output
session = tt

truncate_run : truncate_output (lit "abcdef") 4 ≡ lit "abcd"
unfolding session
truncate_run = refl

truncate_output-le_example :
    (length (truncate_output (lit "abcdef") 4) ≤ max 1 4)
    × (length (lit "abcdef") ≤ max 1 4 → truncate_output (lit "abcdef") 4 ≡ lit "abcdef")
truncate_output-le_example = truncate_output-le (lit "abcdef") 4

abbrev sample_js : Engine
sample_js = record { lower = ascii_lower; to_number = λ n. some n }

-- Bash is on, the output limit is no positive number and the list of blocked tools has no name.
abbrev sample_env : Text → Option Text
sample_env name =
    if name == lit "PTC_ALLOW_BASH"
    then some (lit " Yes ")
    else if name == lit "PTC_MAX_OUTPUT_CHARS"
    then some (lit "-5")
    else if name == lit "PTC_BLOCKED_TOOLS"
    then some (lit " , ")
    else none

load_settings-IsBounded_example :
    IsBounded sample_js sample_env (load_settings_from_env sample_js sample_env)
load_settings-IsBounded_example = load_settings-IsBounded sample_js sample_env

abbrev sample_prompt : Text
sample_prompt = lit "Count the tests across the codebase"

should_auto_route_iff_example :
    (should_auto_route_prompt_to_code_execution ascii_lower sample_prompt ≡ true) ↔ (
      (is_empty (ascii_lower (trim sample_prompt)) ≡ false)
      × ((requests_code_execution (ascii_lower (trim sample_prompt)) ≡ true)
          ⊎ ((is_mutation_prompt ascii_lower (ascii_lower (trim sample_prompt)) ≡ false)
              × (2 ≤ signs (ascii_lower (trim sample_prompt))))))
should_auto_route_iff_example = should_auto_route_iff ascii_lower sample_prompt
