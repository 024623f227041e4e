-- ===== src/Adapters.antt =====
-- src/tool-adapters.ts: what a nested call's result becomes on its way to Python.
pub mod Lines
pub mod Handles
pub mod Estimates
mod Tests
mod Samples
use pi_ptc_advanced.Common.{
  if◌then◌else◌, length, settle, Text, lit, ◌==◌, ℕ, true, ◌||◌, Option, none, some, List, [], ◌∷◌,
  ◌++◌, map,
}
use pi_ptc_advanced.Json.{
  Value, Items, Engine, undefined, null, boolean, number, string, array, object, nil, cons,
  to_items, to_fields, prop, own,
}
use pi_ptc_advanced.Execution.{NormalizedToolResult}
use pi_ptc_advanced.Adapters.Lines.{split_non_empty_lines, GrepMatch, parse_grep_matches}

-- A result of a tool: `content` and `details`, each `undefined` where it is absent.
pub record ToolExecutionResult (N : Type 0) : Type 0 where
  pub content : Value N
  pub details : Value N

module _ {N : Type 0} where
  unfoldable pub text_of_item : Value N → Text
  text_of_item (object fs) = elim (prop fs (lit "type")) [
    | string t ↦ elim (prop fs (lit "text")) [
      | string s ↦ if t == lit "text" then s else []
      | _ ↦ []
    ]
    | _ ↦ []
  ]
  text_of_item v = []

  unfoldable pub text_of_items : Items N → Text
  unfolding text_of_item
  text_of_items nil = []
  text_of_items (cons v items) = text_of_item v ++ text_of_items items

  unfoldable pub extract_text_content : ToolExecutionResult N → Text
  unfolding text_of_items
  extract_text_content result = elim result.content [ array items ↦ text_of_items items | _ ↦ [] ]

  unfoldable pub extract_ptc_value : Value N → Option (Value N)
  extract_ptc_value (object fs) = own fs (lit "ptcValue")
  extract_ptc_value v = none

  -- `details.diff` where it is a string, else `null`.
  unfoldable pub diff_of : Value N → Value N
  diff_of (object fs) = elim (prop fs (lit "diff")) [ string s ↦ string s | _ ↦ null ]
  diff_of v = null

  unfoldable pub to_line_values : List Text → Value N
  to_line_values lines = array (to_items (map (λ l. string l) lines))

  unfoldable pub as_text : Text → NormalizedToolResult N
  as_text text = record { value = string text; estimated_chars = length text }

module _ {N : Type 0} (js : Engine N) where
  unfoldable pub estimate_chars : Value N → ℕ
  estimate_chars (string s) = length s
  estimate_chars null = 0
  estimate_chars undefined = 0
  estimate_chars v = settle length (λ _. length (js.value_to_string v)) (js.stringify v)

  unfoldable pub match_value : GrepMatch → Value N
  match_value m = object (
      to_fields (
        (lit "path", string m.path)
        ∷ (lit "line", number (js.of_ℕ m.line))
        ∷ (lit "text", string m.text)
        ∷ (lit "kind", string (if m.is_context then lit "context" else lit "match"))
        ∷ []))

  unfoldable pub measured : Value N → NormalizedToolResult N
  unfolding estimate_chars
  measured v = record { value = v; estimated_chars = estimate_chars v }

  -- The `switch` on the tool's name.
  unfoldable pub normalize_text : Text → Text → Value N → NormalizedToolResult N
  unfolding measured as_text to_line_values split_non_empty_lines parse_grep_matches match_value
      diff_of
  normalize_text tool_name text details =
      if tool_name == lit "read"
      then as_text text
      else if tool_name == lit "find" || tool_name == lit "glob"
      then measured
          (to_line_values (split_non_empty_lines text (lit "No files found matching pattern" ∷ [])))
      else if tool_name == lit "ls"
      then measured (to_line_values (split_non_empty_lines text (lit "(empty directory)" ∷ [])))
      else if tool_name == lit "grep"
      then measured (array (to_items (map match_value (parse_grep_matches text))))
      else if tool_name == lit "bash"
      then measured (
          object (
            to_fields (
              (lit "stdout", string text)
              ∷ (lit "stderr", string [])
              ∷ (lit "exitCode", number (js.of_ℕ 0))
              ∷ [])))
      else if tool_name == lit "edit"
      then measured (
          object (
            to_fields (
              (lit "ok", boolean true)
              ∷ (lit "summary", string text)
              ∷ (lit "diff", diff_of details)
              ∷ [])))
      else if tool_name == lit "write"
      then measured
          (object (to_fields ((lit "ok", boolean true) ∷ (lit "summary", string text) ∷ [])))
      else as_text text

  unfoldable pub normalize_tool_result : Text → ToolExecutionResult N → NormalizedToolResult N
  unfolding extract_ptc_value measured normalize_text extract_text_content
  normalize_tool_result tool_name result = elim (extract_ptc_value result.details) [
    | some v ↦ measured v
    | none ↦ normalize_text tool_name (extract_text_content result) result.details
  ]
