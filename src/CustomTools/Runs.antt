-- ===== src/CustomTools/Runs.antt =====
-- src/custom-tool-manager.ts: the registry and `fileToTool` under each event of a manager.
use pi_ptc_advanced.Common.Map
use pi_ptc_advanced.Common.{
  if-both, keep, All, Result, ok, err, settle-both, Text, is_empty, truthy, includes, ◌≡◌, refl,
  sym, ap, ◌∙◌, true, not, ◌||◌, none, some, List, [], ◌∷◌,
}
use pi_ptc_advanced.Common.Map.{Map}
use pi_ptc_advanced.Tools.{Host}
use pi_ptc_advanced.Registry.State.{ToolRegistry}
use pi_ptc_advanced.Registry.ToolMap.{Pi}
use pi_ptc_advanced.CustomTools.Loading.{Imported, LoadedTool, is_tool_file, load_custom_tool_file}
use pi_ptc_advanced.CustomTools.Manager.{
  Directory, CustomToolManager, refresh_file_signature, register_loaded_tool,
}
use pi_ptc_advanced.CustomTools.Events.{
  ManagerEvent, same_signature, started, file_changed, timed_out, polled, closed, imported, each,
  scan_present, scan_absent, scan_for_missed_changes, start_file, start_loaded, warn_startup,
  start_manager, close_manager, handle_watch, handle_debounced, manage, manage_all, new_manager,
}
use pi_ptc_advanced.CustomTools.InStep.{
  IsInStep, IsOwned, IsOwnedEvent, refresh-IsInStep, each-IsInStep, load-filename,
  register-IsInStep, begin-IsInStep, end-IsInStep,
}

module _ {h : Host} (owner : Text → Text) (changed : CustomToolManager h → Result (Unit {0})) where
  start_file-IsInStep :
      (dir : Directory) (import : Text → Imported h) (file : Text) (m : CustomToolManager h)
      → IsOwned owner file (import file)
      → IsInStep owner m
      → IsInStep owner (start_file changed dir import file m)
  unfolding start_file start_loaded warn_startup
  start_file-IsInStep dir import file m owns held =
      refresh-IsInStep owner dir file
        (start_loaded changed file (load_custom_tool_file file (import file)) m)
        (by_result (load_custom_tool_file file (import file)) refl)
    where
      by_result :
          (r : Result (LoadedTool h))
          → load_custom_tool_file file (import file) ≡ r
          → IsInStep owner (start_loaded changed file r m)
      by_result (ok loaded) e =
          let (noted, r) = register_loaded_tool changed loaded m in
          let noted_held =
            register-IsInStep owner changed loaded m
              (owns loaded e ∙ sym (load-filename file (import file) loaded e)) held in
          settle-both (IsInStep owner) (λ done. noted) (warn_startup file noted)
            (λ done. noted_held) (λ why. noted_held) r
      by_result (err why) e = held

  scan-IsInStep :
      (dir : Directory) (m : CustomToolManager h)
      → IsInStep owner m
      → IsInStep owner (scan_for_missed_changes changed dir m)
  unfolding scan_for_missed_changes scan_present scan_absent
  scan-IsInStep dir m held =
      let filenames = keep is_tool_file (Map.keys dir) in
      let seen = each (scan_present changed dir) filenames m in
      let held_then = each-IsInStep owner (scan_present changed dir) present filenames m held in
      each-IsInStep owner (scan_absent changed dir filenames)
        (λ file m held. if-both (IsInStep owner) (includes filenames file) held (
          begin-IsInStep owner changed dir file
            (record m { file_signatures = Map.delete m.file_signatures file }) held))
        (Map.keys seen.file_signatures) seen held_then
    where
      present :
          (file : Text) (m : CustomToolManager h)
          → IsInStep owner m
          → IsInStep owner (scan_present changed dir file m)
      present file m held =
          let next = refresh_file_signature dir file m in
          let held_next = refresh-IsInStep owner dir file m held in
          if-both (IsInStep owner)
            (same_signature (Map.get m.file_signatures file) (Map.get next.file_signatures file))
            held_next (begin-IsInStep owner changed dir file next held_next)

  pub manage-IsInStep :
      (dir : Directory) (e : ManagerEvent h) (m : CustomToolManager h)
      → IsOwnedEvent owner e
      → IsInStep owner m
      → IsInStep owner (manage changed dir e m)
  unfolding manage start_manager close_manager handle_watch handle_debounced
  manage-IsInStep dir (started import) m owns held =
      each-IsInStep owner (start_file changed dir import)
        (λ file m held. start_file-IsInStep dir import file m (owns file) held)
        (keep is_tool_file (Map.keys dir)) m held
  manage-IsInStep dir (file_changed file) m owns held =
      if-both (IsInStep owner) m.watcher
        (if-both (IsInStep owner) (is_empty file || not (is_tool_file file)) held held) held
  manage-IsInStep dir (timed_out file) m owns held =
      if-both (IsInStep owner) (includes m.debounce_timers file)
        (begin-IsInStep owner changed dir file _ held) held
  manage-IsInStep dir polled m owns held =
      if-both (IsInStep owner) m.poll_timer (scan-IsInStep dir m held) held
  manage-IsInStep dir closed m owns held = held
  manage-IsInStep dir (imported file import) m owns held =
      if-both (IsInStep owner) (includes m.importing file)
        (end-IsInStep owner changed dir file import _ owns held) held

  pub manage_all-IsInStep :
      (es : List (Directory × ManagerEvent h)) (m : CustomToolManager h)
      → All (λ e. IsOwnedEvent owner e.1) es
      → IsInStep owner m
      → IsInStep owner (manage_all changed es m)
  unfolding manage_all
  manage_all-IsInStep [] m owns held = held
  manage_all-IsInStep ((dir, e) ∷ es) m (o, owns) held =
      manage_all-IsInStep es (manage changed dir e m) owns (manage-IsInStep dir e m o held)

  pub new-IsInStep :
      (registry : ToolRegistry h) (pi : Pi h)
      → registry.custom_tools ≡ []
      → IsInStep owner (new_manager registry pi)
  unfolding new_manager Map.get
  new-IsInStep registry pi empty = (
    λ (other : Text) (real : truthy other ≡ true). ap (λ tools. Map.has tools other) empty,
    λ (file n : Text) (e : none ≡ some n). cc,
  )
