-- ===== src/CustomTools/Manager.antt =====
-- src/custom-tool-manager.ts: the state of CustomToolManager and the operations that its events are
-- made of. A reload stops at its import: it begins in one event and ends in a later one.
use pi_ptc_advanced.Common.Map
use pi_ptc_advanced.Common.{
  if◌then◌else◌, keep, Result, ok, err, Text, lit, ◌==◌, is_empty, truthy, includes, ℕ, suc, Bool,
  true, false, not, ◌&&◌, Option, none, some, List, [], ◌∷◌, ◌++◌,
}
use pi_ptc_advanced.Common.Map.{Map}
use pi_ptc_advanced.Tools.{
  Host, PtcToolOptions, PtcToolDefinition, PtcCaller, direct, code_execution,
}
use pi_ptc_advanced.Registry.State.{ToolRegistry, upsert_tool, remove_tool}
use pi_ptc_advanced.Registry.ToolMap.{Pi}
use pi_ptc_advanced.CustomTools.Loading.{Imported, LoadedTool, load_custom_tool_file}

-- The files of the directory with their signatures, `mtimeMs:size`.
abbrev pub Directory : Type 0
Directory = Map Text

-- The extension's manager, and what it shares with the registry and the host: `registered` holds the
-- calls of `registerTool`, `tool_set_changes` counts those of `onToolSetChanged`, and `importing`
-- holds the files whose reloads wait for an import.
pub record CustomToolManager (h : Host) : Type 0 where
  pub file_to_tool : Map Text
  pub debounce_timers : List Text
  pub file_signatures : Map Text
  pub poll_timer : Bool
  pub watcher : Bool
  pub registry : ToolRegistry h
  pub pi : Pi h
  pub registered : List (PtcToolDefinition h)
  pub tool_set_changes : ℕ
  pub importing : List Text
  pub log : List Text

-- `Array.isArray(callers) && !callers.includes("direct")`
abbrev pub includes_direct : List PtcCaller → Bool
includes_direct [] = false
includes_direct (direct ∷ callers) = true
includes_direct (code_execution ∷ callers) = includes_direct callers

abbrev pub excludes_direct_callers : Option (List PtcCaller) → Bool
excludes_direct_callers none = false
excludes_direct_callers (some callers) = not (includes_direct callers)

unfoldable pub excludes_direct : Option PtcToolOptions → Bool
excludes_direct none = false
excludes_direct (some ptc) = excludes_direct_callers ptc.callers

module _ {h : Host} where
  unfoldable pub refresh_file_signature :
      Directory → Text → CustomToolManager h → CustomToolManager h
  refresh_file_signature dir filename m = elim (Map.get dir filename) [
    | none ↦ record m { file_signatures = Map.delete m.file_signatures filename }
    | some signature ↦ record m { file_signatures = Map.set m.file_signatures filename signature }
  ]

  unfoldable pub set_tool_active : PtcToolDefinition h → CustomToolManager h → CustomToolManager h
  unfolding excludes_direct
  set_tool_active tool m =
      if excludes_direct tool.ptc
      then m
      else if includes m.pi.active_tools tool.name
      then m
      else record m { pi = record m.pi { active_tools = m.pi.active_tools ++ tool.name ∷ [] } }

  unfoldable pub deactivate_tool : Text → CustomToolManager h → CustomToolManager h
  unfolding remove_tool
  deactivate_tool name m = record m {
    registry = (remove_tool name m.registry).0;
    pi = record m.pi { active_tools = keep (λ active. not (active == name)) m.pi.active_tools };
  }

  -- `previousToolName && previousToolName !== loadedTool.tool.name`
  unfoldable pub drop_renamed : Option Text → Text → CustomToolManager h → CustomToolManager h
  unfolding deactivate_tool
  drop_renamed none name m = m
  drop_renamed (some previous) name m =
      if truthy previous && not (previous == name) then deactivate_tool previous m else m

  -- The end of the `catch` block, after the removal, which may throw in its turn.
  unfoldable pub warn_reload :
      Text → Text → CustomToolManager h × Result (Unit {0}) → CustomToolManager h
  warn_reload filename message (m, err why) = m
  warn_reload filename message (m, ok done) = record m {
    log =
        m.log ++ (lit "Custom tool reload failed for " ++ (filename ++ (lit ": " ++ message))) ∷ [];
  }

-- `changed` is what `onToolSetChanged` does in a state: it returns or throws.
module _ {h : Host} (changed : CustomToolManager h → Result (Unit {0})) where
  unfoldable pub register_loaded_tool :
      LoadedTool h → CustomToolManager h → CustomToolManager h × Result (Unit {0})
  unfolding drop_renamed upsert_tool set_tool_active
  register_loaded_tool loaded m =
      let tool = loaded.tool in
      let kept = drop_renamed (Map.get m.file_to_tool loaded.filename) tool.name m in
      let put = record kept {
        registry = upsert_tool tool kept.registry;
        registered = kept.registered ++ tool ∷ [];
      } in
      let active = set_tool_active tool put in
      let noted = record active {
        file_to_tool = Map.set active.file_to_tool loaded.filename tool.name;
        tool_set_changes = suc active.tool_set_changes;
      } in
      (noted, changed noted)

  unfoldable pub remove_named :
      Text → Option Text → CustomToolManager h → CustomToolManager h × Result (Unit {0})
  unfolding deactivate_tool
  remove_named filename none m = (m, ok tt)
  remove_named filename (some name) m =
      if is_empty name
      then (m, ok tt)
      else (let m' = deactivate_tool name m in
          let noted = record m' {
            file_to_tool = Map.delete m'.file_to_tool filename;
            tool_set_changes = suc m'.tool_set_changes;
          } in
          (noted, changed noted))

  unfoldable pub remove_file_tool :
      Text → CustomToolManager h → CustomToolManager h × Result (Unit {0})
  unfolding remove_named
  remove_file_tool filename m = remove_named filename (Map.get m.file_to_tool filename) m

  -- `reconcileFile` up to its import. What the removal throws is the promise's error.
  unfoldable pub begin_reconcile : Directory → Text → CustomToolManager h → CustomToolManager h
  unfolding remove_file_tool refresh_file_signature
  begin_reconcile dir filename m =
      if not (Map.has dir filename)
      then refresh_file_signature dir filename (remove_file_tool filename m).0
      else record m { importing = m.importing ++ filename ∷ [] }

  -- The inner `try` block after its registration.
  unfoldable pub after_register :
      Text → CustomToolManager h × Result (Unit {0}) → CustomToolManager h
  unfolding warn_reload remove_file_tool
  after_register filename (m, ok done) = m
  after_register filename (m, err message) =
      warn_reload filename message (remove_file_tool filename m)

  -- `reconcileFile` after its import, before the signature is read.
  unfoldable pub take_import :
      Text → Result (LoadedTool h) → CustomToolManager h → CustomToolManager h
  unfolding register_loaded_tool after_register warn_reload remove_file_tool
  take_import filename (ok loaded) m = after_register filename (register_loaded_tool loaded m)
  take_import filename (err message) m = warn_reload filename message (remove_file_tool filename m)

  unfoldable pub end_reconcile :
      Directory → Text → Imported h → CustomToolManager h → CustomToolManager h
  unfolding take_import load_custom_tool_file refresh_file_signature
  end_reconcile dir filename imported m =
      refresh_file_signature dir filename
        (take_import filename (load_custom_tool_file filename imported) m)
