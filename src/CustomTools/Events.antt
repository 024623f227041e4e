-- ===== src/CustomTools/Events.antt =====
-- src/custom-tool-manager.ts: what happens to a manager. Other events may come between the two parts
-- of a reload.
use pi_ptc_advanced.Common.Map
use pi_ptc_advanced.Common.{
  if◌then◌else◌, keep, Result, ok, err, settle, Text, lit, ◌==◌, is_empty, includes, add, Bool,
  true, false, not, ◌||◌, Option, none, some, List, [], ◌∷◌, ◌++◌,
}
use pi_ptc_advanced.Common.Map.{Map}
use pi_ptc_advanced.Tools.{Host}
use pi_ptc_advanced.Registry.State.{ToolRegistry}
use pi_ptc_advanced.Registry.ToolMap.{Pi}
use pi_ptc_advanced.CustomTools.Loading.{Imported, LoadedTool, is_tool_file, load_custom_tool_file}
use pi_ptc_advanced.CustomTools.Manager.{
  Directory, CustomToolManager, refresh_file_signature, register_loaded_tool, begin_reconcile,
  end_reconcile,
}

-- `previousSignature === currentSignature`
abbrev pub same_signature : Option Text → Option Text → Bool
same_signature none none = true
same_signature (some a) (some b) = a == b
same_signature none (some b) = false
same_signature (some a) none = false

module _ {h : Host} where
  abbrev pub each :
      (Text → CustomToolManager h → CustomToolManager h)
      → List Text
      → CustomToolManager h
      → CustomToolManager h
  each f [] m = m
  each f (x ∷ xs) m = each f xs (f x m)

  unfoldable pub close_manager : CustomToolManager h → CustomToolManager h
  close_manager m = record m {
    watcher = false;
    debounce_timers = [];
    poll_timer = false;
    file_signatures = [];
  }

  -- The watcher's callback: the timer of the file is set again.
  unfoldable pub handle_watch : Text → CustomToolManager h → CustomToolManager h
  unfolding is_tool_file
  handle_watch filename m =
      if is_empty filename || not (is_tool_file filename)
      then m
      else record m { debounce_timers = add m.debounce_timers filename }

  unfoldable pub seed : Map Text → CustomToolManager h → CustomToolManager h
  seed [] m = m
  seed ((filename, name) ∷ more) m =
      seed more (record m { file_to_tool = Map.set m.file_to_tool filename name })

  unfoldable pub new_manager : ToolRegistry h → Pi h → CustomToolManager h
  new_manager registry pi = record {
    file_to_tool = [];
    debounce_timers = [];
    file_signatures = [];
    poll_timer = false;
    watcher = false;
    registry = registry;
    pi = pi;
    registered = [];
    tool_set_changes = 0;
    importing = [];
    log = [];
  }

  -- The `catch` block of the loop of `start`.
  unfoldable pub warn_startup : Text → CustomToolManager h → Text → CustomToolManager h
  warn_startup filename m message = record m {
    log =
        m.log
        ++ (lit "Skipping invalid custom tool "
            ++ (filename ++ (lit " during startup: " ++ message)))
          ∷ [];
  }

module _ {h : Host} (changed : CustomToolManager h → Result (Unit {0})) where
  -- One round of the first loop of `scanForMissedChanges`.
  unfoldable pub scan_present : Directory → Text → CustomToolManager h → CustomToolManager h
  unfolding refresh_file_signature begin_reconcile
  scan_present dir filename m =
      let next = refresh_file_signature dir filename m in
      if same_signature (Map.get m.file_signatures filename) (Map.get next.file_signatures filename)
      then next
      else begin_reconcile changed dir filename next

  -- One round of the second loop.
  unfoldable pub scan_absent :
      Directory → List Text → Text → CustomToolManager h → CustomToolManager h
  unfolding begin_reconcile
  scan_absent dir present filename m =
      if includes present filename
      then m
      else begin_reconcile changed dir filename
          (record m { file_signatures = Map.delete m.file_signatures filename })

  unfoldable pub scan_for_missed_changes : Directory → CustomToolManager h → CustomToolManager h
  unfolding scan_present scan_absent is_tool_file
  scan_for_missed_changes dir m =
      let filenames = keep is_tool_file (Map.keys dir) in
      let seen = each (scan_present dir) filenames m in
      each (scan_absent dir filenames) (Map.keys seen.file_signatures) seen

  unfoldable pub start_loaded :
      Text → Result (LoadedTool h) → CustomToolManager h → CustomToolManager h
  unfolding warn_startup register_loaded_tool
  start_loaded filename (err message) m = warn_startup filename m message
  start_loaded filename (ok loaded) m =
      let (noted, r) = register_loaded_tool changed loaded m in
      settle (λ done. noted) (warn_startup filename noted) r

  -- One round of the loop of `start`.
  unfoldable pub start_file :
      Directory → (Text → Imported h) → Text → CustomToolManager h → CustomToolManager h
  unfolding load_custom_tool_file start_loaded refresh_file_signature
  start_file dir import filename m =
      refresh_file_signature dir filename
        (start_loaded filename (load_custom_tool_file filename (import filename)) m)

  -- `import` is what the import of each file gives while `start` runs.
  unfoldable pub start_manager :
      Directory → (Text → Imported h) → CustomToolManager h → CustomToolManager h
  unfolding start_file is_tool_file
  start_manager dir import m =
      record (each (start_file dir import) (keep is_tool_file (Map.keys dir)) m) {
        watcher = true;
        poll_timer = true;
      }

  -- The debounce timer of a file runs off.
  unfoldable pub handle_debounced : Directory → Text → CustomToolManager h → CustomToolManager h
  unfolding begin_reconcile
  handle_debounced dir filename m =
      begin_reconcile changed dir filename
        (record m { debounce_timers = keep (λ other. not (other == filename)) m.debounce_timers })

-- The list without the first element that is equal to a text.
abbrev pub remove_first : Text → List Text → List Text
remove_first x [] = []
remove_first x (y ∷ ys) = let rest = remove_first x ys in if x == y then ys else y ∷ rest

-- What happens to a manager: `imported` names the file of a reload in `importing`.
pub data ManagerEvent (h : Host) : Type 0 where
  started : (Text → Imported h) → ManagerEvent h
  file_changed timed_out : Text → ManagerEvent h
  polled closed : ManagerEvent h
  imported : Text → Imported h → ManagerEvent h

module _ {h : Host} (changed : CustomToolManager h → Result (Unit {0})) where
  -- An event while the directory is `dir`.
  unfoldable pub manage : Directory → ManagerEvent h → CustomToolManager h → CustomToolManager h
  unfolding start_manager close_manager handle_watch handle_debounced scan_for_missed_changes
      end_reconcile
  manage dir (started import) m = start_manager changed dir import m
  manage dir (file_changed filename) m = if m.watcher then handle_watch filename m else m
  manage dir (timed_out filename) m =
      if includes m.debounce_timers filename then handle_debounced changed dir filename m else m
  manage dir polled m = if m.poll_timer then scan_for_missed_changes changed dir m else m
  manage dir closed m = close_manager m
  manage dir (imported filename file) m =
      if includes m.importing filename
      then end_reconcile changed dir filename file
          (record m { importing = remove_first filename m.importing })
      else m

  -- The events in their order, each with the directory at its time.
  unfoldable pub manage_all :
      List (Directory × ManagerEvent h) → CustomToolManager h → CustomToolManager h
  unfolding manage
  manage_all [] m = m
  manage_all ((dir, e) ∷ es) m = manage_all es (manage dir e m)
