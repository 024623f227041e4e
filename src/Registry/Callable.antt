-- ===== src/Registry/Callable.antt =====
-- src/tool-registry.ts: getCallableTools and getAutoRoutableToolNames.
pub mod Laws
pub mod Routing
use pi_ptc_advanced.Common.{
  Bool, true, false, not, ◌&&◌, ◌||◌, Option, none, some, get_or, List, [], ◌∷◌, ◌++◌, Text, lit,
  ◌==◌, join, keep, map, includes, to_set, Result, ok, err, ◌>>=◌, ◌>>◌, if◌then◌else◌,
}
use mathlib.Core.Option
use pi_ptc_advanced.Common.Map
use pi_ptc_advanced.Common.Map.{Map}
use pi_ptc_advanced.Settings.{PtcSettings}
use pi_ptc_advanced.Tools.{
  PtcToolDefaultExposure, safe_by_default, opt_in, not_safe_by_default, NormalizedPtcToolOptions,
  Host, ToolInfo, normalize_ptc_tool_options,
}
use pi_ptc_advanced.PythonContract.{validate_python_helper_names}
use pi_ptc_advanced.Registry.Classify.{
  is_builtin, tool_allows_direct_caller, tool_allows_code_execution_caller,
}
use pi_ptc_advanced.Registry.State.{ToolRegistry, warn_callable_policy_once}
use pi_ptc_advanced.Registry.ToolMap.{Pi, get_all_tools}
use pi_ptc_advanced.Registry.Filter.{passes_filter}
use pi_ptc_advanced.Registry.Gaps.{report_allowlist_gaps}

allow_set_of : PtcSettings → Option (List Text)
allow_set_of settings = Option.map to_set settings.callable_tools

module _ {h : Host} where
  -- The tools that pass the filter, before the helper names are validated.
  pub filtered_tools : ToolRegistry h → Pi h → Text → PtcSettings → List (ToolInfo h)
  unfolding passes_filter
  filtered_tools r pi cwd settings =
      keep
        (passes_filter settings (allow_set_of settings) (to_set (get_or settings.blocked_tools []))
          (to_set (get_or settings.trusted_read_only_tools [])))
        (get_all_tools r pi cwd).0

  -- The result, or the error of `validatePythonHelperNames`, and the registry with its new warnings.
  unfoldable pub get_callable_tools :
      ToolRegistry h → Pi h → Text → PtcSettings → Result (List (ToolInfo h)) × ToolRegistry h
  unfolding filtered_tools report_allowlist_gaps allow_set_of
  get_callable_tools r pi cwd settings =
      let (all_tools, log) = get_all_tools r pi cwd in
      let callable_tools = filtered_tools r pi cwd settings in
      (
        (do validate_python_helper_names callable_tools; ok callable_tools),
        report_allowlist_gaps settings all_tools callable_tools (allow_set_of settings)
            (to_set (get_or settings.blocked_tools []))
            (to_set (get_or settings.trusted_read_only_tools [])) (record r { log = r.log ++ log }),
      )

  routable : List (ToolInfo h) → List (ToolInfo h) → List Text
  routable all_tools callable_tools =
      map (λ (t : ToolInfo h). t.name)
        (keep (λ t. includes (map (λ (c : ToolInfo h). c.name) callable_tools) t.name)
          (keep tool_allows_direct_caller
            (keep (λ t. not (t.name == lit "code_execution")) all_tools)))

  auto_routable_after :
      Result (List (ToolInfo h))
      → ToolRegistry h
      → Pi h
      → Text
      → Result (List Text) × ToolRegistry h
  unfolding routable
  auto_routable_after (err e) r pi cwd = (err e, r)
  auto_routable_after (ok callable_tools) r pi cwd =
      let (all_tools, log) = get_all_tools r pi cwd in
      (ok (routable all_tools callable_tools), record r { log = r.log ++ log })

  unfoldable pub get_auto_routable_tool_names :
      ToolRegistry h → Pi h → Text → PtcSettings → Result (List Text) × ToolRegistry h
  unfolding auto_routable_after
  get_auto_routable_tool_names r pi cwd settings =
      let (callable, r') = get_callable_tools r pi cwd settings in
      auto_routable_after callable r' pi cwd
