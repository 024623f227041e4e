-- ===== src/CustomTools/Scans.antt =====
-- src/custom-tool-manager.ts: the loops of `start` and of `scanForMissedChanges`.
use pi_ptc_advanced.Common.Map
use pi_ptc_advanced.Common.{
  Bool-cases, Result, ok, err, settle, keep, Text, ◌==◌, eq_iff, includes, ◌≡◌, refl, sym, ap, ◌∙◌,
  inl, inr, ◌⊎◌, true, false, Option, none, some, is_some, List, [], ◌∷◌,
}
use pi_ptc_advanced.Common.Map.{Map}
use mathlib.Core.Path.{subst}
use pi_ptc_advanced.Tools.{Host}
use pi_ptc_advanced.Registry.State.{ToolRegistry}
use pi_ptc_advanced.Registry.ToolMap.{Pi}
use pi_ptc_advanced.CustomTools.Loading.{Imported, LoadedTool, is_tool_file, load_custom_tool_file}
use pi_ptc_advanced.CustomTools.Manager.{
  Directory, CustomToolManager, refresh_file_signature, register_loaded_tool,
}
use pi_ptc_advanced.CustomTools.Events.{
  each, scan_present, scan_absent, scan_for_missed_changes, start_file, start_loaded, warn_startup,
  start_manager, new_manager,
}
use pi_ptc_advanced.CustomTools.InStep.{load-filename}
use pi_ptc_advanced.CustomTools.Synced.{
  tool_name, defined, Frame, Leaves, Leaves-trans, Leaves-of_Frame, refresh-Leaves, refresh-reads,
  register-Frame,
}
use pi_ptc_advanced.CustomTools.Reloads.{AreNamed, IsSynced, register-returns}
use pi_ptc_advanced.CustomTools.Polling.{
  includes-keys, includes-keep, Settled, Leaves-Settled, IsListed, not_listed, present-IsSynced,
  absent-IsSynced,
}

module _ {h : Host} (contents : Text → Text → Imported h)
    (changed : CustomToolManager h → Result (Unit {0})) (dir : Directory) where
  -- The first loop settles the files that it goes through, and unsettles none.
  each_present :
      (files : List Text) (m : CustomToolManager h) (g : Text)
      → IsSynced contents m
      → IsSynced contents (each (scan_present changed dir) files m)
        × (Settled dir g m → Settled dir g (each (scan_present changed dir) files m))
        × (includes files g ≡ true → Settled dir g (each (scan_present changed dir) files m))
  unfolding includes
  each_present [] m g s = (s, λ settled. settled, λ e. cc)
  each_present (f ∷ files) m g s =
      let next = scan_present changed dir f m in
      let (synced, leaves, settled) = present-IsSynced contents changed dir f m s in
      let (all, later, now) = each_present files next g synced in
      let here : f == g ≡ true → Settled dir g next =
        λ same. subst (λ k. Settled dir k next) ((eq_iff f g).0 same) settled in
      (
        all,
        λ old. later (Leaves-Settled dir f g m next leaves here old),
        λ e. elim (Bool-cases (f == g)) [
          | inl same ↦ later (here same)
          | inr apart ↦ now (rw apart at e)
        ],
      )

  each_absent :
      (present files : List Text) (m : CustomToolManager h) (g : Text)
      → IsListed dir present g
      → IsSynced contents m
      → IsSynced contents (each (scan_absent changed dir present) files m)
        × (Settled dir g m → Settled dir g (each (scan_absent changed dir present) files m))
        × (includes present g ≡ false
            → includes files g ≡ true
            → Settled dir g (each (scan_absent changed dir present) files m))
  unfolding includes
  each_absent present [] m g listed s = (s, λ settled. settled, λ out e. cc)
  each_absent present (f ∷ files) m g listed s =
      let next = scan_absent changed dir present f m in
      let (synced, stays, settles) = absent-IsSynced contents changed dir present f m s in
      let (all, later, now) = each_absent present files next g listed synced in
      (
        all,
        λ old. later (stays g listed old),
        λ out e. elim (Bool-cases (f == g)) [
          | inl same ↦
              let at_g : f ≡ g = (eq_iff f g).0 same in
              later (
                subst (λ k. Settled dir k next) at_g
                  (settles (subst (λ k. includes present k ≡ false) (sym at_g) out)
                    (subst (IsListed dir present) (sym at_g) listed)))
          | inr apart ↦ now out (rw apart at e)
        ],
      )

  -- A poll keeps the manager synced, and settles every tool file.
  pub scan-IsSynced :
      (m : CustomToolManager h) (g : Text)
      → is_tool_file g ≡ true
      → IsSynced contents m
      → IsSynced contents (scan_for_missed_changes changed dir m)
        × Settled dir g (scan_for_missed_changes changed dir m)
  unfolding scan_for_missed_changes
  scan-IsSynced m g tool_file s =
      let filenames = keep is_tool_file (Map.keys dir) in
      let seen = each (scan_present changed dir) filenames m in
      let listed : IsListed dir filenames g =
        includes-keep is_tool_file (Map.keys dir) g tool_file ∙ includes-keys dir g in
      let (synced, stays, present) = each_present filenames m g s in
      let (all, later, absent) =
        each_absent filenames (Map.keys seen.file_signatures) seen g listed synced in
      let swept = each (scan_absent changed dir filenames) (Map.keys seen.file_signatures) seen in
      (
        all,
        elim (Bool-cases (includes filenames g)) [
          | inl in_list ↦ later (present in_list)
          | inr out ↦
              known swept filenames seen (Map.get seen.file_signatures g) refl listed later absent
                out
        ],
      )
    where
      known :
          (n : CustomToolManager h) (present : List Text) (seen : CustomToolManager h)
          (found : Option Text)
          → Map.get seen.file_signatures g ≡ found
          → IsListed dir present g
          → (Settled dir g seen → Settled dir g n)
          → (includes present g ≡ false
              → includes (Map.keys seen.file_signatures) g ≡ true
              → Settled dir g n)
          → includes present g ≡ false
          → Settled dir g n
      known n present seen none e listed later absent out =
          later (e ∙ sym (not_listed (Map.get dir g) (sym out ∙ listed)))
      known n present seen (some x) e listed later absent out =
          absent out (includes-keys seen.file_signatures g ∙ ap (λ f. is_some f) e)

  -- While `start` runs, a file is untouched, or it has the tool that it defines on disk.
  abbrev IsStarting : Text → CustomToolManager h → Type 0
  IsStarting g m =
      ((Map.get m.file_to_tool g ≡ none) × (Map.get m.file_signatures g ≡ none))
      ⊎ ((Map.get m.file_to_tool g ≡ defined contents g (Map.get dir g))
          × (Map.get m.file_signatures g ≡ Map.get dir g))

  module _ (import : Text → Imported h) (returns : (n : CustomToolManager h) → changed n ≡ ok tt)
      (faithful : (file : Text)
        → tool_name (load_custom_tool_file file (import file))
          ≡ defined contents file (Map.get dir file)) where
    noted-returns :
        (file : Text) (n : CustomToolManager h) (r : Result (Unit {0}))
        → r ≡ ok tt
        → settle (λ (done : Unit {0}). n) (warn_startup file n) r ≡ n
    noted-returns file n (ok done) e = refl
    noted-returns file n (err why) e = cc

    started-IsStarting :
        (file : Text) (r : Result (LoadedTool h)) (m : CustomToolManager h)
        → load_custom_tool_file file (import file) ≡ r
        → IsStarting file m
        → Frame file m (start_loaded changed file r m)
          × (Map.get (start_loaded changed file r m).file_to_tool file
              ≡ defined contents file (Map.get dir file))
    unfolding start_loaded warn_startup
    started-IsStarting file (ok loaded) m e s =
        let (frame, tool) =
          register-Frame changed loaded file m (load-filename file (import file) loaded e) in
        let (noted, r) = register_loaded_tool changed loaded m in
        subst
          (λ (n : CustomToolManager h).
            Frame file m n
            × (Map.get n.file_to_tool file ≡ defined contents file (Map.get dir file)))
          (sym (noted-returns file noted r (register-returns contents changed loaded m returns)))
          (frame, tool ∙ sym (ap tool_name e) ∙ faithful file)
    started-IsStarting file (err why) m e s = (
      record { files = λ g apart. refl; signatures = refl; imports = refl; polls = refl },
      elim s [
        | inl fresh ↦ fresh.0 ∙ sym (ap tool_name e) ∙ faithful file
        | inr settled ↦ settled.0
      ],
    )

    start_file-IsStarting :
        (file : Text) (m : CustomToolManager h)
        → ((g : Text) → IsStarting g m)
        → Leaves file m (start_file changed dir import file m)
          × ((g : Text) → IsStarting g (start_file changed dir import file m))
    unfolding start_file
    start_file-IsStarting file m s =
        let r = load_custom_tool_file file (import file) in
        let (frame, tool) = started-IsStarting file r m refl (s file) in
        let loaded = start_loaded changed file r m in
        let (read, kept, waits) = refresh-reads dir file loaded in
        let leaves =
          Leaves-trans file m loaded _ (Leaves-of_Frame file m loaded frame)
            (refresh-Leaves dir file loaded) in
        let own : IsStarting file (refresh_file_signature dir file loaded) =
          inr (ap (λ t. Map.get t file) kept ∙ tool, read) in
        (
          leaves,
          λ g. elim (Bool-cases (file == g)) [
            | inl same ↦
                subst (λ k. IsStarting k (refresh_file_signature dir file loaded))
                  ((eq_iff file g).0 same) own
            | inr apart ↦ elim (s g) [
              | inl fresh ↦
                  inl (leaves.files g apart ∙ fresh.0, leaves.signatures g apart ∙ fresh.1)
              | inr settled ↦
                  inr (leaves.files g apart ∙ settled.0, leaves.signatures g apart ∙ settled.1)
            ]
          ],
        )

    each_start :
        (files : List Text) (m : CustomToolManager h)
        → ((g : Text) → IsStarting g m)
        → ((g : Text) → IsStarting g (each (start_file changed dir import) files m))
    each_start [] m s = s
    each_start (f ∷ files) m s =
        each_start files (start_file changed dir import f m) (start_file-IsStarting f m s).1

    -- `start` leaves a new manager synced.
    pub start-IsSynced :
        (registry : ToolRegistry h) (pi : Pi h)
        → AreNamed contents
        → IsSynced contents (start_manager changed dir import (new_manager registry pi))
    unfolding start_manager new_manager Map.get
    start-IsSynced registry pi are_named =
        let files = keep is_tool_file (Map.keys dir) in
        let s = each_start files (new_manager registry pi) (λ g. inl (refl, refl)) in
        record {
          polling = refl;
          synced = λ g idle. elim (s g) [
            | inl fresh ↦ fresh.0 ∙ sym (ap (defined contents g) fresh.1)
            | inr settled ↦ settled.0 ∙ sym (ap (defined contents g) settled.1)
          ];
          named = λ g name given. elim (s g) [
            | inl fresh ↦ cc (sym fresh.0 ∙ given)
            | inr settled ↦ are_named g (Map.get dir g) name (sym settled.0 ∙ given)
          ];
        }
