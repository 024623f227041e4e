-- ===== src/Utils/Prompts/Routing.antt =====
-- src/utils.ts: which prompts are routed to code_execution.
use pi_ptc_advanced.Common.{
  if◌then◌else◌, Text, trim, is_empty, ℕ, ◌+◌, ◌≤◌, ◌≡◌, ◌↔◌, ◌⊎◌, Bool, true, false, ◌&&◌, ◌||◌,
  arith,
}
use pi_ptc_advanced.Utils.Prompts.{
  is_mutation_prompt, has_fanout, has_processing, has_context_pressure, requests_code_execution,
  should_auto_route_prompt_to_code_execution,
}

abbrev pub one_if : Bool → ℕ
one_if true = 1
one_if false = 0

-- How many of the three signs of batched work a text has.
abbrev pub signs : Text → ℕ
signs s = one_if (has_fanout s) + one_if (has_processing s) + one_if (has_context_pressure s)

decided :
    (empty requested mutation f p c : Bool)
    → ((if empty
          then false
          else if requested
          then true
          else if mutation
          then false
          else (f && (p || c)) || (p && c))
        ≡ true)
      ↔ ((empty ≡ false)
          × ((requested ≡ true) ⊎ ((mutation ≡ false) × (2 ≤ one_if f + one_if p + one_if c))))
decided empty requested mutation f p c = ground arith

-- A prompt is routed exactly if it is not blank and either asks for code_execution by name, or asks for
-- no change and has two of the three signs of batched work.
pub should_auto_route_iff :
    (lower : Text → Text) (prompt : Text)
    → (should_auto_route_prompt_to_code_execution lower prompt ≡ true) ↔ (
        (is_empty (lower (trim prompt)) ≡ false)
        × ((requests_code_execution (lower (trim prompt)) ≡ true)
            ⊎ ((is_mutation_prompt lower (lower (trim prompt)) ≡ false)
                × (2 ≤ signs (lower (trim prompt))))))
unfolding should_auto_route_prompt_to_code_execution
should_auto_route_iff lower prompt =
    let s = lower (trim prompt) in
    decided (is_empty s) (requests_code_execution s) (is_mutation_prompt lower s) (has_fanout s)
      (has_processing s) (has_context_pressure s)
