-- ===== src/Registry/Gaps.antt =====
-- src/tool-registry.ts: reportAllowlistGaps. A reason is a value of its own, `reason_text` its words.
pub mod Complete
pub mod Report
use pi_ptc_advanced.Common.{
  Bool, true, false, not, ◌&&◌, ◌||◌, Option, none, some, get_or, List, [], ◌∷◌, ◌++◌, Text, lit,
  ◌==◌, join, keep, map, includes, to_set, Result, ok, err, ◌>>=◌, ◌>>◌, if◌then◌else◌,
}
use mathlib.Core.Option
use pi_ptc_advanced.Common.Map
use pi_ptc_advanced.Common.Map.{Map}
use pi_ptc_advanced.Settings.{PtcSettings}
use pi_ptc_advanced.Tools.{
  PtcToolDefaultExposure, safe_by_default, opt_in, not_safe_by_default, NormalizedPtcToolOptions,
  Host, ToolInfo, normalize_ptc_tool_options,
}
use pi_ptc_advanced.PythonContract.{validate_python_helper_names}
use pi_ptc_advanced.Registry.Classify.{
  is_builtin, tool_allows_direct_caller, tool_allows_code_execution_caller,
}
use pi_ptc_advanced.Registry.State.{ToolRegistry, warn_callable_policy_once}
use pi_ptc_advanced.Registry.ToolMap.{Pi, get_all_tools}
use pi_ptc_advanced.Registry.Filter.{is_callable, is_trusted_read_only_custom}

-- Why an allowlisted tool is not callable.
pub data GapReason : Type 0 where
  blocked not_present bash_disabled missing_callable callers_exclude : GapReason
  mutating untrusted other_policy : GapReason

reason_text : GapReason → Text
reason_text blocked = lit " (blocked by PTC_BLOCKED_TOOLS)"
reason_text not_present = lit " (not present in the current Pi tool set)"
reason_text bash_disabled = lit " (bash is disabled because PTC_ALLOW_BASH=false)"
reason_text missing_callable = lit " (missing ptc.callable metadata)"
reason_text callers_exclude = lit " (callers metadata excludes code_execution)"
reason_text mutating = lit " (mutating tools stay blocked when PTC_ALLOW_MUTATIONS=false)"
reason_text untrusted =
    lit
      " (read-only extension tools also need PTC_TRUSTED_READ_ONLY_TOOLS when mutations are disabled)"
reason_text other_policy = lit " (not callable under the current PTC policy)"

gap_text : Text × GapReason → Text
unfolding reason_text
gap_text (tool_name, reason) = tool_name ++ reason_text reason

gaps_message : List (Text × GapReason) → Text
unfolding gap_text
gaps_message gaps =
    lit "PTC allowlisted tools requested for code_execution but unavailable in this session: "
    ++ (join (lit ", ") (map gap_text gaps)
        ++ lit
            ". PTC_CALLABLE_TOOLS only filters tools that Pi already exposes to PTC with a callable runtime + metadata shape.")

abbrev pub with_gap : Text → Option GapReason → List (Text × GapReason) → List (Text × GapReason)
with_gap tool_name none gaps = gaps
with_gap tool_name (some reason) gaps = (tool_name, reason) ∷ gaps

pub collect_gaps : (Text → Option GapReason) → List Text → List (Text × GapReason)
collect_gaps gap [] = []
collect_gaps gap (name ∷ names) = with_gap name (gap name) (collect_gaps gap names)

module _ {h : Host} where
  -- The tests that `reportAllowlistGaps` makes on a tool that is there.
  pub present_reason : PtcSettings → List Text → ToolInfo h → GapReason
  present_reason settings trusted tool =
      let is_built_in = is_builtin tool.source in
      if tool.name == lit "bash" && not settings.allow_bash
      then bash_disabled
      else if not is_built_in && not (is_callable (normalize_ptc_tool_options tool.ptc))
      then missing_callable
      else if not (tool_allows_code_execution_caller tool)
      then callers_exclude
      else if not settings.allow_mutations && not tool.is_read_only
      then mutating
      else if not settings.allow_mutations
          && not is_built_in
          && not (is_trusted_read_only_custom trusted tool)
      then untrusted
      else other_policy

  reason_of : PtcSettings → List Text → Option (ToolInfo h) → GapReason
  unfolding present_reason
  reason_of settings trusted none = not_present
  reason_of settings trusted (some tool) = present_reason settings trusted tool

  -- One round of the loop of `reportAllowlistGaps`: `none` for a callable tool.
  pub gap_of :
      PtcSettings → List Text → List Text → List Text → Map (ToolInfo h) → Text → Option GapReason
  unfolding reason_of
  gap_of settings callable_names blocked_set trusted available tool_name =
      if includes callable_names tool_name
      then none
      else if includes blocked_set tool_name
      then some blocked
      else some (reason_of settings trusted (Map.get available tool_name))

  -- `new Map(tools.map((tool) => [tool.name, tool]))`
  unfoldable pub map_by_name : List (ToolInfo h) → Map (ToolInfo h) → Map (ToolInfo h)
  map_by_name [] m = m
  map_by_name (tool ∷ tools) m = map_by_name tools (Map.set m tool.name tool)

  pub allowlist_gaps :
      PtcSettings
      → List (ToolInfo h)
      → List (ToolInfo h)
      → List Text
      → List Text
      → List Text
      → List (Text × GapReason)
  unfolding collect_gaps gap_of map_by_name
  allowlist_gaps settings all_tools callable_tools allow_set blocked_set trusted =
      collect_gaps
        (gap_of settings (map (λ (t : ToolInfo h). t.name) callable_tools) blocked_set trusted
          (map_by_name all_tools []))
        allow_set

  warn_of_gaps : List (Text × GapReason) → ToolRegistry h → ToolRegistry h
  unfolding gaps_message warn_callable_policy_once
  warn_of_gaps [] r = r
  warn_of_gaps (gap ∷ gaps) r = warn_callable_policy_once (gaps_message (gap ∷ gaps)) r

  unfoldable pub report_allowlist_gaps :
      PtcSettings
      → List (ToolInfo h)
      → List (ToolInfo h)
      → Option (List Text)
      → List Text
      → List Text
      → ToolRegistry h
      → ToolRegistry h
  unfolding allowlist_gaps warn_of_gaps
  report_allowlist_gaps settings all_tools callable_tools none blocked_set trusted r = r
  report_allowlist_gaps settings all_tools callable_tools (some allow_set) blocked_set trusted r =
      warn_of_gaps (allowlist_gaps settings all_tools callable_tools allow_set blocked_set trusted)
        r
