-- ===== src/Registry/Filter.antt =====
-- src/tool-registry.ts: the filter of getCallableTools.
pub mod Permitted
use pi_ptc_advanced.Common.{
  Bool, true, false, not, ◌&&◌, ◌||◌, Option, none, some, get_or, List, [], ◌∷◌, ◌++◌, Text, lit,
  ◌==◌, join, keep, map, includes, to_set, Result, ok, err, ◌>>=◌, ◌>>◌, if◌then◌else◌,
}
use mathlib.Core.Option
use pi_ptc_advanced.Common.Map
use pi_ptc_advanced.Common.Map.{Map}
use pi_ptc_advanced.Settings.{PtcSettings}
use pi_ptc_advanced.Tools.{
  PtcToolDefaultExposure, safe_by_default, opt_in, not_safe_by_default, NormalizedPtcToolOptions,
  Host, ToolInfo, normalize_ptc_tool_options,
}
use pi_ptc_advanced.PythonContract.{validate_python_helper_names}
use pi_ptc_advanced.Registry.Classify.{
  is_builtin, tool_allows_direct_caller, tool_allows_code_execution_caller,
}
use pi_ptc_advanced.Registry.State.{ToolRegistry, warn_callable_policy_once}
use pi_ptc_advanced.Registry.ToolMap.{Pi, get_all_tools}

-- `normalizedPtc?.callable === true`
abbrev pub is_callable : Option NormalizedPtcToolOptions → Bool
is_callable none = false
is_callable (some n) = n.callable

-- `normalizedPtc?.callable === true && normalizedPtc.isReadOnly`
abbrev pub is_read_only_callable : Option NormalizedPtcToolOptions → Bool
is_read_only_callable none = false
is_read_only_callable (some n) = n.callable && n.is_read_only

abbrev exposure_is_opt_in : Option PtcToolDefaultExposure → Bool
exposure_is_opt_in (some opt_in) = true
exposure_is_opt_in _ = false

-- `normalizedPtc?.defaultExposure === "opt-in"`
abbrev pub is_opt_in : Option NormalizedPtcToolOptions → Bool
is_opt_in none = false
is_opt_in (some n) = exposure_is_opt_in n.default_exposure

-- `allowSet && !allowSet.has(name)`, and `!allowSet || !allowSet.has(name)`
abbrev pub outside : Option (List Text) → Text → Bool
outside none name = false
outside (some allow_set) name = not (includes allow_set name)

abbrev pub not_listed : Option (List Text) → Text → Bool
not_listed none name = true
not_listed (some allow_set) name = not (includes allow_set name)

module _ {h : Host} where
  abbrev pub is_trusted_read_only_custom : List Text → ToolInfo h → Bool
  is_trusted_read_only_custom trusted tool =
      not (is_builtin tool.source)
      && is_read_only_callable (normalize_ptc_tool_options tool.ptc)
      && includes trusted tool.name

  -- The tests that `getCallableTools` makes only when mutations are off.
  abbrev pub is_blocked_mutation : PtcSettings → List Text → ToolInfo h → Bool
  is_blocked_mutation settings trusted tool =
      let is_trusted = is_trusted_read_only_custom trusted tool in
      if settings.allow_mutations
      then false
      else not (is_builtin tool.source) && not is_trusted || not tool.is_read_only && not is_trusted

  -- The filter of `getCallableTools`.
  unfoldable pub passes_filter :
      PtcSettings → Option (List Text) → List Text → List Text → ToolInfo h → Bool
  passes_filter settings allow_set blocked_set trusted tool =
      let normalized_ptc = normalize_ptc_tool_options tool.ptc in
      if tool.name == lit "code_execution"
      then false
      else if includes blocked_set tool.name
      then false
      else if outside allow_set tool.name
      then false
      else if tool.name == lit "bash" && not settings.allow_bash
      then false
      else if is_opt_in normalized_ptc && not_listed allow_set tool.name
      then false
      else if is_blocked_mutation settings trusted tool
      then false
      else tool_allows_code_execution_caller tool
        && (is_builtin tool.source || is_callable normalized_ptc)
