-- ===== src/Adapters/Estimates.antt =====
-- The sizes that `normalizeToolResult` of src/tool-adapters.ts reports.
use pi_ptc_advanced.Common.{Text, ◌≡◌, refl, Option, none, some, arith}
use pi_ptc_advanced.Json.{Value, Engine}
use pi_ptc_advanced.Execution.{NormalizedToolResult}
use pi_ptc_advanced.Adapters.{
  ToolExecutionResult, estimate_chars, measured, as_text, normalize_text, normalize_tool_result,
  extract_ptc_value, extract_text_content,
}

module _ {N : Type 0} (js : Engine N) where
  abbrev IsEstimated : NormalizedToolResult N → Type 0
  IsEstimated r = r.estimated_chars ≡ estimate_chars js r.value

  measured-IsEstimated : (v : Value N) → IsEstimated (measured js v)
  unfolding measured
  measured-IsEstimated v = refl

  as_text-IsEstimated : (text : Text) → IsEstimated (as_text text)
  unfolding as_text estimate_chars
  as_text-IsEstimated text = refl

  normalize_text-IsEstimated :
      (tool_name text : Text) (details : Value N)
      → IsEstimated (normalize_text js tool_name text details)
  unfolding normalize_text
  normalize_text-IsEstimated tool_name text details =
      grind (arith, as_text-IsEstimated, measured-IsEstimated)

  -- For every tool and every result, with or without a structured value, the size reported for a
  -- nested call's result is the estimate of just the value that goes to Python.
  pub normalize_tool_result-estimated :
      (tool_name : Text) (result : ToolExecutionResult N)
      → (normalize_tool_result js tool_name result).estimated_chars
        ≡ estimate_chars js (normalize_tool_result js tool_name result).value
  unfolding normalize_tool_result
  normalize_tool_result-estimated tool_name result = by_details (extract_ptc_value result.details)
    where
      by_details :
          (found : Option (Value N))
          → IsEstimated (elim found as (λ _. NormalizedToolResult N) [
            | some v ↦ measured js v
            | none ↦ normalize_text js tool_name (extract_text_content result) result.details
          ])
      by_details none =
          normalize_text-IsEstimated tool_name (extract_text_content result) result.details
      by_details (some v) = measured-IsEstimated v
