-- ===== src/CustomTools/InStep.antt =====
-- src/custom-tool-manager.ts: the registry and `fileToTool` under each operation of a manager.
use pi_ptc_advanced.Common.Map
use pi_ptc_advanced.Common.{
  if◌then◌else◌, if-both, Result, ok, err, settle, Text, ◌==◌, is_empty, truthy, includes, ◌≡◌,
  refl, sym, ap, ◌∙◌, Bool, true, false, not, ◌&&◌, ◌||◌, Option, none, some, List, [], ◌∷◌, ◌++◌,
}
use pi_ptc_advanced.Common.Map.{Map}
use pi_ptc_advanced.Tools.{Host, PtcToolDefinition}
use pi_ptc_advanced.Registry.State.{ToolRegistry, upsert_tool, remove_tool}
use pi_ptc_advanced.CustomTools.Loading.{
  Imported, import_threw, no_object, exported, LoadedTool, invalid_tool_file, from_fields,
  load_custom_tool_file,
}
use pi_ptc_advanced.CustomTools.Manager.{
  Directory, CustomToolManager, excludes_direct, refresh_file_signature, set_tool_active,
  deactivate_tool, drop_renamed, register_loaded_tool, remove_named, remove_file_tool,
  begin_reconcile, take_import, end_reconcile, warn_reload, after_register,
}
use pi_ptc_advanced.CustomTools.Events.{ManagerEvent, started, imported, each}
use pi_ptc_advanced.CustomTools.Owners.{
  has-set, has-delete, is_dropped, HoldsFiles, put-HoldsFiles, cut-HoldsFiles,
}

module _ {h : Host} where
  drop-files :
      (found : Option Text) (name : Text) (m : CustomToolManager h)
      → (drop_renamed found name m).file_to_tool ≡ m.file_to_tool
  unfolding drop_renamed deactivate_tool
  drop-files none name m = refl
  drop-files (some previous) name m =
      if-both (λ (next : CustomToolManager h). next.file_to_tool ≡ m.file_to_tool)
        (truthy previous && not (previous == name)) refl refl

  drop-has :
      (found : Option Text) (name : Text) (m : CustomToolManager h) (other : Text)
      → Map.has (drop_renamed found name m).registry.custom_tools other
        ≡ (not (is_dropped found name other) && Map.has m.registry.custom_tools other)
  unfolding drop_renamed deactivate_tool remove_tool
  drop-has none name m other = refl
  drop-has (some previous) name m other = by_test (truthy previous && not (previous == name))
    where
      by_test :
          (b : Bool)
          → Map.has (if b then deactivate_tool previous m else m).registry.custom_tools other
            ≡ (not (b && previous == other) && Map.has m.registry.custom_tools other)
      by_test true = has-delete m.registry.custom_tools previous other
      by_test false = refl

  upsert-has :
      (tool : PtcToolDefinition h) (r : ToolRegistry h) (other : Text)
      → Map.has (upsert_tool tool r).custom_tools other
        ≡ (tool.name == other || Map.has r.custom_tools other)
  unfolding upsert_tool
  upsert-has tool r other = has-set r.custom_tools tool.name other _

  -- What `setToolActive` leaves.
  active-keeps :
      (tool : PtcToolDefinition h) (m : CustomToolManager h)
      → ((set_tool_active tool m).file_to_tool ≡ m.file_to_tool)
        × ((set_tool_active tool m).registry ≡ m.registry)
  unfolding set_tool_active
  active-keeps tool m =
      if-both Same (excludes_direct tool.ptc) (refl, refl)
        (if-both Same (includes m.pi.active_tools tool.name) (refl, refl) (refl, refl))
    where
      Same : CustomToolManager h → Type 0
      Same next = (next.file_to_tool ≡ m.file_to_tool) × (next.registry ≡ m.registry)

  pub load-filename :
      (file : Text) (import : Imported h) (loaded : LoadedTool h)
      → load_custom_tool_file file import ≡ ok loaded
      → loaded.filename ≡ file
  unfolding load_custom_tool_file from_fields invalid_tool_file
  load-filename file (import_threw why) loaded e = cc
  load-filename file no_object loaded e = cc
  load-filename file (exported d) loaded e = by_fields d.name d.execute d.parameters e
    where
      by_fields :
          (name : Option Text) (execute : Option h.Execute) (parameters : Option h.Schema)
          → from_fields file name execute parameters d ≡ ok loaded
          → loaded.filename ≡ file
      by_fields (some name) (some execute) (some parameters) given =
          ap (settle (λ (l : LoadedTool h). l.filename) (λ _. file)) (sym given)
      by_fields none _ _ given = cc
      by_fields (some name) none _ given = cc
      by_fields (some name) (some execute) none given = cc

module _ {h : Host} (owner : Text → Text) where
  abbrev pub IsInStep : CustomToolManager h → Type 0
  IsInStep m = HoldsFiles owner m.file_to_tool m.registry.custom_tools

  -- A file that an import gives a tool for owns the tool's name.
  abbrev pub IsOwned : Text → Imported h → Type 0
  IsOwned file import =
      (loaded : LoadedTool h)
      → load_custom_tool_file file import ≡ ok loaded
      → owner loaded.tool.name ≡ file

  -- The imports of an event, where it has some, give tools that their files own.
  abbrev pub IsOwnedEvent : ManagerEvent h → Type 0
  IsOwnedEvent (started import) = (file : Text) → IsOwned file (import file)
  IsOwnedEvent (imported file import) = IsOwned file import
  IsOwnedEvent _ = Unit

  pub refresh-IsInStep :
      (dir : Directory) (file : Text) (m : CustomToolManager h)
      → IsInStep m
      → IsInStep (refresh_file_signature dir file m)
  unfolding refresh_file_signature
  refresh-IsInStep dir file m held = by_file (Map.get dir file)
    where
      by_file :
          (found : Option Text)
          → IsInStep (elim found as (λ _. CustomToolManager h) [
            | none ↦ record m { file_signatures = Map.delete m.file_signatures file }
            | some signature ↦ record m {
              file_signatures = Map.set m.file_signatures file signature;
            }
          ])
      by_file none = held
      by_file (some signature) = held

  pub each-IsInStep :
      (f : Text → CustomToolManager h → CustomToolManager h)
      → ((file : Text) (m : CustomToolManager h) → IsInStep m → IsInStep (f file m))
      → (files : List Text) (m : CustomToolManager h) → IsInStep m
      → IsInStep (each f files m)
  each-IsInStep f keeps [] m held = held
  each-IsInStep f keeps (x ∷ xs) m held = each-IsInStep f keeps xs (f x m) (keeps x m held)

module _ {h : Host} (owner : Text → Text) (changed : CustomToolManager h → Result (Unit {0})) where
  pub register-IsInStep :
      (loaded : LoadedTool h) (m : CustomToolManager h)
      → owner loaded.tool.name ≡ loaded.filename
      → IsInStep owner m
      → IsInStep owner (register_loaded_tool changed loaded m).0
  unfolding register_loaded_tool
  register-IsInStep loaded m owns held =
      let found = Map.get m.file_to_tool loaded.filename in
      let kept = drop_renamed found loaded.tool.name m in
      let put : CustomToolManager h = record kept {
        registry = upsert_tool loaded.tool kept.registry;
        registered = kept.registered ++ loaded.tool ∷ [];
      } in
      let (files, registry) = active-keeps loaded.tool put in
      put-HoldsFiles owner m.file_to_tool (set_tool_active loaded.tool put).file_to_tool
        m.registry.custom_tools (set_tool_active loaded.tool put).registry.custom_tools
        loaded.filename loaded.tool.name (files ∙ drop-files found loaded.tool.name m)
        (λ other.
          ap (λ (r : ToolRegistry h). Map.has r.custom_tools other) registry
          ∙ upsert-has loaded.tool kept.registry other
          ∙ ap (λ b. loaded.tool.name == other || b) (drop-has found loaded.tool.name m other))
        owns held

  pub remove-IsInStep :
      (file : Text) (m : CustomToolManager h)
      → IsInStep owner m
      → IsInStep owner (remove_file_tool changed file m).0
  unfolding remove_file_tool remove_named deactivate_tool remove_tool
  remove-IsInStep file m held = by_name (Map.get m.file_to_tool file) refl
    where
      by_name :
          (found : Option Text)
          → Map.get m.file_to_tool file ≡ found
          → IsInStep owner (remove_named changed file found m).0
      by_name none e = held
      by_name (some name) e =
          if-both (λ (r : CustomToolManager h × Result (Unit {0})). IsInStep owner r.0)
            (is_empty name) held
            (cut-HoldsFiles owner m.file_to_tool m.registry.custom_tools file name e held)

  pub begin-IsInStep :
      (dir : Directory) (file : Text) (m : CustomToolManager h)
      → IsInStep owner m
      → IsInStep owner (begin_reconcile changed dir file m)
  unfolding begin_reconcile
  begin-IsInStep dir file m held =
      if-both (IsInStep owner) (not (Map.has dir file))
        (refresh-IsInStep owner dir file (remove_file_tool changed file m).0
          (remove-IsInStep file m held))
        held

  warn-IsInStep :
      (file why : Text) (r : CustomToolManager h × Result (Unit {0}))
      → IsInStep owner r.0
      → IsInStep owner (warn_reload file why r)
  unfolding warn_reload
  warn-IsInStep file why (m, ok done) held = held
  warn-IsInStep file why (m, err other) held = held

  after-IsInStep :
      (file : Text) (m : CustomToolManager h) (r : Result (Unit {0}))
      → IsInStep owner m
      → IsInStep owner (after_register changed file (m, r))
  unfolding after_register
  after-IsInStep file m (ok done) held = held
  after-IsInStep file m (err why) held =
      warn-IsInStep file why (remove_file_tool changed file m) (remove-IsInStep file m held)

  pub end-IsInStep :
      (dir : Directory) (file : Text) (import : Imported h) (m : CustomToolManager h)
      → IsOwned owner file import
      → IsInStep owner m
      → IsInStep owner (end_reconcile changed dir file import m)
  unfolding end_reconcile take_import
  end-IsInStep dir file import m owns held =
      refresh-IsInStep owner dir file
        (take_import changed file (load_custom_tool_file file import) m)
        (by_result (load_custom_tool_file file import) refl)
    where
      by_result :
          (r : Result (LoadedTool h))
          → load_custom_tool_file file import ≡ r
          → IsInStep owner (take_import changed file r m)
      by_result (ok loaded) e =
          let (noted, r) = register_loaded_tool changed loaded m in
          after-IsInStep file noted r (
            register-IsInStep loaded m (owns loaded e ∙ sym (load-filename file import loaded e))
              held)
      by_result (err why) e =
          warn-IsInStep file why (remove_file_tool changed file m) (remove-IsInStep file m held)
