-- ===== src/CustomTools/Follows.antt =====
-- src/custom-tool-manager.ts: the registry against the files of the directory, where the manager polls.
use pi_ptc_advanced.Common.Map
use pi_ptc_advanced.Common.{
  if◌then◌else◌, if-both, Bool-cases, ◌==◌, eq_iff, lit, inl, inr, false, Option, keep, All, Result,
  ok, Text, is_empty, truthy, includes, ◌≡◌, refl, sym, ap, ◌∙◌, true, not, ◌||◌, some, List, [],
  ◌∷◌,
}
use pi_ptc_advanced.Common.Map.{Map}
use pi_ptc_advanced.Tools.{Host}
use pi_ptc_advanced.Registry.State.{ToolRegistry}
use pi_ptc_advanced.Registry.ToolMap.{Pi}
use pi_ptc_advanced.CustomTools.Loading.{Imported, is_tool_file, ends_with, load_custom_tool_file}
use pi_ptc_advanced.CustomTools.Manager.{Directory, CustomToolManager}
use pi_ptc_advanced.CustomTools.Events.{
  ManagerEvent, started, file_changed, timed_out, polled, closed, imported, start_manager,
  handle_watch, handle_debounced, scan_for_missed_changes, manage, manage_all, new_manager,
  remove_first,
}
use pi_ptc_advanced.CustomTools.Synced.{tool_name, defined, Leaves, Leaves-trans}
use pi_ptc_advanced.CustomTools.Reloads.{
  AreNamed, IsSynced, Leaves-IsSynced, begin-IsSynced, end-IsSynced,
}
use pi_ptc_advanced.CustomTools.Scans.{scan-IsSynced, start-IsSynced}
use pi_ptc_advanced.CustomTools.InStep.{IsOwned, IsOwnedEvent}
use mathlib.Core.Path.{subst}
use pi_ptc_advanced.CustomTools.Owners.{gives}
use pi_ptc_advanced.CustomTools.Polling.{Settled}
use pi_ptc_advanced.CustomTools.Runs.{manage-IsInStep, manage_all-IsInStep, new-IsInStep}

includes-remove_first :
    (xs : List Text) (x y : Text)
    → (x == y) ≡ false
    → includes (remove_first x xs) y ≡ includes xs y
unfolding includes
includes-remove_first [] x y apart = refl
includes-remove_first (z ∷ xs) x y apart = elim (Bool-cases (x == z)) [
  | inl same ↦
      let e : x ≡ z = (eq_iff x z).0 same in
      let other : z == y ≡ false = rw (← e) apart in rw (same, other) refl
  | inr differs ↦ rw differs (ap (λ b. z == y || b) (includes-remove_first xs x y apart))
]

js_file : is_tool_file (lit ".js") ≡ true
unfolding is_tool_file lit ends_with ◌==◌
js_file = refl

module _ {h : Host} (contents : Text → Text → Imported h) where
  -- What happens between the start of a manager and its close, each import giving the tool that its
  -- file defines on disk.
  abbrev pub IsFaithful : Directory × ManagerEvent h → Type 0
  IsFaithful (dir, started import) = ⊥
  IsFaithful (dir, closed) = ⊥
  IsFaithful (dir, imported file import) =
      tool_name (load_custom_tool_file file import) ≡ defined contents file (Map.get dir file)
  IsFaithful (dir, e) = Unit

  -- The tools that files define have names, each of which belongs to one file.
  abbrev pub AreOwnNames : (Text → Text) → Type 0
  AreOwnNames owner =
      (file : Text) (found : Option Text) (name : Text)
      → defined contents file found ≡ some name
      → (truthy name ≡ true) × (owner name ≡ file)

  faithful-IsOwned :
      (owner : Text → Text) (dir : Directory) (file : Text) (import : Imported h)
      → AreOwnNames owner
      → tool_name (load_custom_tool_file file import) ≡ defined contents file (Map.get dir file)
      → IsOwned owner file import
  faithful-IsOwned owner dir file import own same loaded e =
      (own file (Map.get dir file) loaded.tool.name (sym same ∙ ap tool_name e)).1

  faithful-IsOwnedEvent :
      (owner : Text → Text) (dir : Directory) (e : ManagerEvent h)
      → AreOwnNames owner
      → IsFaithful (dir, e)
      → IsOwnedEvent owner e
  faithful-IsOwnedEvent owner dir (started import) own f = elim f [ ]
  faithful-IsOwnedEvent owner dir (file_changed file) own f = tt
  faithful-IsOwnedEvent owner dir (timed_out file) own f = tt
  faithful-IsOwnedEvent owner dir polled own f = tt
  faithful-IsOwnedEvent owner dir closed own f = tt
  faithful-IsOwnedEvent owner dir (imported file import) own f =
      faithful-IsOwned owner dir file import own f

  faithful-AreOwned :
      (owner : Text → Text) (es : List (Directory × ManagerEvent h))
      → AreOwnNames owner
      → All IsFaithful es
      → All (λ e. IsOwnedEvent owner e.1) es
  faithful-AreOwned owner [] own f = tt
  faithful-AreOwned owner ((dir, e) ∷ es) own (f, fs) =
      (faithful-IsOwnedEvent owner dir e own f, faithful-AreOwned owner es own fs)

module _ {h : Host} (contents : Text → Text → Imported h)
    (changed : CustomToolManager h → Result (Unit {0}))
    (returns : (n : CustomToolManager h) → changed n ≡ ok tt) (are_named : AreNamed contents) where
  removed-Leaves :
      (file : Text) (m : CustomToolManager h)
      → Leaves file m (record m { importing = remove_first file m.importing })
  removed-Leaves file m = record {
    files = λ g apart. refl;
    signatures = λ g apart. refl;
    imports = λ g apart. includes-remove_first m.importing file g apart;
    polls = refl;
  }

  manage-IsSynced :
      (dir : Directory) (e : ManagerEvent h) (m : CustomToolManager h)
      → IsFaithful contents (dir, e)
      → IsSynced contents m
      → IsSynced contents (manage changed dir e m)
  unfolding manage handle_watch handle_debounced
  manage-IsSynced dir (started import) m f s = elim f [ ]
  manage-IsSynced dir closed m f s = elim f [ ]
  manage-IsSynced dir (file_changed file) m f s =
      if-both (IsSynced contents) m.watcher
        (if-both (IsSynced contents) (is_empty file || not (is_tool_file file)) s
          (record { polling = s.polling; synced = s.synced; named = s.named }))
        s
  manage-IsSynced dir (timed_out file) m f s =
      let ready : CustomToolManager h = record m {
        debounce_timers = keep (λ other. not (other == file)) m.debounce_timers;
      } in
      let (leaves, in_sync, named, settles, missing) =
        begin-IsSynced contents changed dir file ready (s.named file) in
      if-both (IsSynced contents) (includes m.debounce_timers file)
        (Leaves-IsSynced contents file ready _ leaves in_sync named
          (record { polling = s.polling; synced = s.synced; named = s.named }))
        s
  manage-IsSynced dir polled m f s =
      if-both (IsSynced contents) m.poll_timer
        (scan-IsSynced contents changed dir m (lit ".js") js_file s).0 s
  manage-IsSynced dir (imported file import) m f s =
      let waiting : CustomToolManager h = record m { importing = remove_first file m.importing } in
      let (leaves, in_sync, named) =
        end-IsSynced contents changed dir file import waiting returns are_named f (s.named file) in
      if-both (IsSynced contents) (includes m.importing file)
        (Leaves-IsSynced contents file m _
          (Leaves-trans file m waiting _ (removed-Leaves file m) leaves) in_sync named s)
        s

  manage_all-IsSynced :
      (es : List (Directory × ManagerEvent h)) (m : CustomToolManager h)
      → All (IsFaithful contents) es
      → IsSynced contents m
      → IsSynced contents (manage_all changed es m)
  unfolding manage_all
  manage_all-IsSynced [] m f s = s
  manage_all-IsSynced ((dir, e) ∷ es) m (f, fs) s =
      manage_all-IsSynced es (manage changed dir e m) fs (manage-IsSynced dir e m f s)

module _ {h : Host} (changed : CustomToolManager h → Result (Unit {0})) where
  -- A new manager after its start over a directory, then some events, then a poll.
  abbrev pub polled_after :
      Directory
      → (Text → Imported h)
      → ToolRegistry h
      → Pi h
      → List (Directory × ManagerEvent h)
      → Directory
      → CustomToolManager h
  polled_after first import registry pi es dir =
      manage changed dir polled
        (manage_all changed es (manage changed first (started import) (new_manager registry pi)))

  poll-IsSynced :
      (contents : Text → Text → Imported h) (dir : Directory) (m : CustomToolManager h) (g : Text)
      → is_tool_file g ≡ true
      → IsSynced contents m
      → IsSynced contents (manage changed dir polled m)
        × Settled dir g (manage changed dir polled m)
  unfolding manage
  poll-IsSynced contents dir m g tool_file s =
      subst
        (λ b.
          let n : CustomToolManager h = if b then scan_for_missed_changes changed dir m else m in
          IsSynced contents n × Settled dir g n)
        (sym s.polling) (scan-IsSynced contents changed dir m g tool_file s)

  -- A manager with no custom tool starts over a directory, its files change, fail to load or vanish
  -- while reloads overlap in any order, and then it polls the directory: the registry has a tool of a
  -- name exactly where the file of the name defines that tool as it then is on disk. This is so for
  -- each file that is not being reloaded then, if every import gives what the file's signature at its
  -- end stands for, the files define names that are not empty and belong to one file each, and the
  -- callback does not throw.
  pub registry_follows_files :
      (owner : Text → Text) (contents : Text → Text → Imported h) (import : Text → Imported h)
      (first dir : Directory) (registry : ToolRegistry h) (pi : Pi h)
      (es : List (Directory × ManagerEvent h)) (name : Text)
      → ((n : CustomToolManager h) → changed n ≡ ok tt)
      → AreOwnNames contents owner
      → registry.custom_tools ≡ []
      → ((file : Text)
          → tool_name (load_custom_tool_file file (import file))
            ≡ defined contents file (Map.get first file))
      → All (IsFaithful contents) es
      → truthy name ≡ true
      → is_tool_file (owner name) ≡ true
      → includes (polled_after first import registry pi es dir).importing (owner name) ≡ false
      → Map.has (polled_after first import registry pi es dir).registry.custom_tools name
        ≡ gives (defined contents (owner name) (Map.get dir (owner name))) name
  unfolding manage
  registry_follows_files owner contents import first dir registry pi es name returns own empty
        imports events real tool_file idle =
      let begun = start_manager changed first import (new_manager registry pi) in
      let are_named : AreNamed contents = λ file found n e. (own file found n e).0 in
      let synced =
        manage_all-IsSynced contents changed returns are_named es begun events
          (start-IsSynced contents changed first import returns imports registry pi are_named) in
      let held =
        manage_all-IsInStep owner changed es begun (faithful-AreOwned contents owner es own events)
          (manage-IsInStep owner changed first (started import) (new_manager registry pi)
            (λ file. faithful-IsOwned contents owner first file (import file) own (imports file))
            (new-IsInStep owner changed registry pi empty)) in
      let before = manage_all changed es begun in
      let step_held = manage-IsInStep owner changed dir polled before tt held in
      let (polled_synced, settled) =
        poll-IsSynced contents dir before (owner name) tool_file synced in
      step_held.0 name real
      ∙ ap (λ tool. gives tool name)
          (polled_synced.synced (owner name) idle ∙ ap (defined contents (owner name)) settled)
