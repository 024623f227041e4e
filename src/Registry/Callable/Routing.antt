-- ===== src/Registry/Callable/Routing.antt =====
-- getAutoRoutableToolNames of src/tool-registry.ts.
use pi_ptc_advanced.Common.{
  get_or, to_set, ◌≡◌, ◌∙◌, refl, true, List, [], ◌++◌, Text, mem_of_includes, mem-map, mem-keep,
  Memᴰ, Result, ok, err,
}
use pi_ptc_advanced.Settings.{PtcSettings}
use pi_ptc_advanced.Tools.{Host, ToolInfo}
use pi_ptc_advanced.Registry.Classify.{tool_allows_direct_caller}
use pi_ptc_advanced.Registry.State.{ToolRegistry}
use pi_ptc_advanced.Registry.ToolMap.{Pi, get_all_tools}
use pi_ptc_advanced.Registry.ToolMap.Laws.{get_all_tools-log}
use pi_ptc_advanced.Registry.Gaps.Report.{HasNewWarnings, report-HasNewWarnings}
use pi_ptc_advanced.Registry.Callable.{
  allow_set_of, filtered_tools, get_callable_tools, routable, auto_routable_after,
  get_auto_routable_tool_names,
}
use pi_ptc_advanced.Registry.Callable.Laws.{IsPermittedBy, mem-callable_iff}

module _ {h : Host} where
  callable-HasNewWarnings :
      (r : ToolRegistry h) (pi : Pi h) (cwd : Text) (settings : PtcSettings)
      → HasNewWarnings r (get_callable_tools r pi cwd settings).1
  unfolding get_callable_tools
  callable-HasNewWarnings r pi cwd settings =
      let (warned, log, e) =
        report-HasNewWarnings settings (get_all_tools r pi cwd).0 (filtered_tools r pi cwd settings)
          (allow_set_of settings) (to_set (get_or settings.blocked_tools []))
          (to_set (get_or settings.trusted_read_only_tools []))
          (record r { log = r.log ++ (get_all_tools r pi cwd).1 }) in
      (warned, log, e)

  all_tools-callable :
      (r : ToolRegistry h) (pi : Pi h) (cwd : Text) (settings : PtcSettings)
      → get_all_tools (get_callable_tools r pi cwd settings).1 pi cwd ≡ get_all_tools r pi cwd
  all_tools-callable r pi cwd settings =
      let (warned, log, e) = callable-HasNewWarnings r pi cwd settings in
      rw e (get_all_tools-log r warned log pi cwd)

  mem-routable :
      (all_tools callable_tools : List (ToolInfo h)) (name : Text)
      → Memᴰ name (routable all_tools callable_tools)
      → ((tool : ToolInfo h) × Memᴰ tool all_tools
          × (tool.name ≡ name)
          × (tool_allows_direct_caller tool ≡ true))
        × ((tool : ToolInfo h) × Memᴰ tool callable_tools × (tool.name ≡ name))
  unfolding routable
  mem-routable all_tools callable_tools name m =
      let (tool, kept, e) = mem-map (λ (t : ToolInfo h). t.name) _ m in
      let (kept', listed) = mem-keep _ _ kept in
      let (kept'', direct) = mem-keep _ _ kept' in
      let (there, _) = mem-keep _ all_tools kept'' in
      let (c, callable, same) =
        mem-map (λ (t : ToolInfo h). t.name) callable_tools (mem_of_includes _ tool.name listed) in
      ((tool, there, e, direct), (c, callable, same ∙ e))

  auto_routable-of_callable :
      (callable : Result (List (ToolInfo h))) (r : ToolRegistry h) (pi : Pi h) (cwd : Text)
      (names : List Text)
      → (auto_routable_after callable r pi cwd).0 ≡ ok names
      → (tools : List (ToolInfo h)) × (callable ≡ ok tools)
        × (routable (get_all_tools r pi cwd).0 tools ≡ names)
  unfolding auto_routable_after
  auto_routable-of_callable (ok tools) r pi cwd names e = (tools, refl, cc e)
  auto_routable-of_callable (err message) r pi cwd names e = cc

  -- A name that routing takes off the active tools belongs to a tool that allows direct calls, and to
  -- a tool that code_execution may call in its place.
  pub mem-auto_routable :
      (r : ToolRegistry h) (pi : Pi h) (cwd : Text) (settings : PtcSettings) (names : List Text)
      (name : Text)
      → (get_auto_routable_tool_names r pi cwd settings).0 ≡ ok names
      → Memᴰ name names
      → ((tool : ToolInfo h) × Memᴰ tool (get_all_tools r pi cwd).0
          × (tool.name ≡ name)
          × (tool_allows_direct_caller tool ≡ true))
        × ((tool : ToolInfo h) × Memᴰ tool (get_all_tools r pi cwd).0
            × (tool.name ≡ name)
            × IsPermittedBy settings tool)
  unfolding get_auto_routable_tool_names
  mem-auto_routable r pi cwd settings names name e m =
      let (tools, called, same) = auto_routable-of_callable _ _ pi cwd names e in
      let routed = rw (all_tools-callable r pi cwd settings) at (
        mem-routable (get_all_tools (get_callable_tools r pi cwd settings).1 pi cwd).0 tools name
          (rw same m)) in
      let (c, callable, e') = routed.1 in
      let (there, permitted) = (mem-callable_iff r pi cwd settings tools c called).0 callable in
      (routed.0, (c, there, e', permitted))
