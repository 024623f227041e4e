-- ===== src/CustomTools/Reloads.antt =====
-- src/custom-tool-manager.ts: a reload, its file's tool and the signature that is stored for it.
use pi_ptc_advanced.Common.Map
use pi_ptc_advanced.Common.{
  if◌then◌else◌, Bool-cases, Result, ok, err, Text, ◌==◌, eq_iff, truthy, includes, ◌≡◌, refl, sym,
  ap, ◌∙◌, inl, inr, Bool, true, false, not, Option, none, some, is_some, [], ◌∷◌, ◌++◌, arith,
}
use pi_ptc_advanced.Common.{includes-snoc, includes-concat}
use pi_ptc_advanced.Common.Map.{Map}
use mathlib.Core.Path.{subst}
use pi_ptc_advanced.Tools.{Host}
use pi_ptc_advanced.CustomTools.Loading.{Imported, LoadedTool, load_custom_tool_file}
use pi_ptc_advanced.CustomTools.Manager.{
  Directory, CustomToolManager, refresh_file_signature, register_loaded_tool, remove_file_tool,
  begin_reconcile, take_import, end_reconcile, warn_reload, after_register,
}
use pi_ptc_advanced.CustomTools.InStep.{load-filename}
use pi_ptc_advanced.CustomTools.Synced.{
  tool_name, defined, Frame, Leaves, Leaves-trans, Leaves-of_Frame, refresh-Leaves, refresh-reads,
  register-Frame, remove-Frame,
}

module _ {h : Host} (contents : Text → Text → Imported h) where
  -- Outside a reload of the file, its tool is the one that its signature stands for.
  abbrev pub InSync : Text → CustomToolManager h → Type 0
  InSync file m =
      includes m.importing file ≡ false
      → Map.get m.file_to_tool file ≡ defined contents file (Map.get m.file_signatures file)

  -- Every tool of a file has a name that is not empty.
  abbrev pub IsNamed : Text → CustomToolManager h → Type 0
  IsNamed file m = (name : Text) → Map.get m.file_to_tool file ≡ some name → truthy name ≡ true

  -- The names that the files define are not empty.
  abbrev pub AreNamed : Type 0
  AreNamed =
      (file : Text) (found : Option Text) (name : Text)
      → defined contents file found ≡ some name
      → truthy name ≡ true

  -- The manager polls, and each file is in sync and named.
  pub record IsSynced (m : CustomToolManager h) : Type 0 where
    pub polling : m.poll_timer ≡ true
    pub synced : (file : Text) → InSync file m
    pub named : (file : Text) → IsNamed file m

  -- What changes one file and leaves that file in sync leaves all of them so.
  pub Leaves-IsSynced :
      (file : Text) (m n : CustomToolManager h)
      → Leaves file m n
      → InSync file n
      → IsNamed file n
      → IsSynced m
      → IsSynced n
  Leaves-IsSynced file m n k here named s = record {
    polling = k.polls ∙ s.polling;
    synced = λ g. elim (Bool-cases (file == g)) [
      | inl same ↦ subst (λ f. InSync f n) ((eq_iff file g).0 same) here
      | inr apart ↦ λ idle.
          k.files g apart
          ∙ s.synced g (sym (k.imports g apart) ∙ idle)
          ∙ ap (defined contents g) (sym (k.signatures g apart))
    ];
    named = λ g. elim (Bool-cases (file == g)) [
      | inl same ↦ subst (λ f. IsNamed f n) ((eq_iff file g).0 same) named
      | inr apart ↦ λ name given. s.named g name (sym (k.files g apart) ∙ given)
    ];
  }

  module _ (changed : CustomToolManager h → Result (Unit {0})) where
    begin_present :
        (file : Text) (m : CustomToolManager h)
        → Leaves file m (record m { importing = m.importing ++ file ∷ [] })
    begin_present file m = record {
      files = λ g apart. refl;
      signatures = λ g apart. refl;
      imports = λ g apart. rw (includes-snoc m.importing file g, apart) (ground arith);
      polls = refl;
    }

    -- Where a reload begins, its file waits for the import, or it was missing and its tool is gone;
    -- its signature is the one on disk where it was so before, or where the file is missing.
    pub begin-IsSynced :
        (dir : Directory) (file : Text) (m : CustomToolManager h)
        → IsNamed file m
        → Leaves file m (begin_reconcile changed dir file m)
          × InSync file (begin_reconcile changed dir file m)
          × IsNamed file (begin_reconcile changed dir file m)
          × ((Map.get m.file_signatures file ≡ Map.get dir file)
              → Map.get (begin_reconcile changed dir file m).file_signatures file
                ≡ Map.get dir file)
          × (Map.get dir file ≡ none
              → Map.get (begin_reconcile changed dir file m).file_signatures file ≡ none)
    unfolding begin_reconcile
    begin-IsSynced dir file m named = by_found (Map.get dir file) refl
      where
        Begun : Bool → Type 0
        Begun b =
            let n : CustomToolManager h =
              if not b
              then refresh_file_signature dir file (remove_file_tool changed file m).0
              else record m { importing = m.importing ++ file ∷ [] } in
            Leaves file m n
            × InSync file n
            × IsNamed file n
            × ((Map.get m.file_signatures file ≡ Map.get dir file)
                → Map.get n.file_signatures file ≡ Map.get dir file)
            × (Map.get dir file ≡ none → Map.get n.file_signatures file ≡ none)

        by_found :
            (found : Option Text) → Map.get dir file ≡ found → Begun (is_some (Map.get dir file))
        by_found none e =
            let (frame, gone) = remove-Frame changed file m named in
            let removed = (remove_file_tool changed file m).0 in
            let (read, kept, waits) = refresh-reads dir file removed in
            let tool_gone = ap (λ t. Map.get t file) kept ∙ gone in
            subst (λ f. Begun (is_some f)) (sym e)
              (
                Leaves-trans file m removed _ (Leaves-of_Frame file m removed frame)
                    (refresh-Leaves dir file removed),
                λ idle. tool_gone ∙ sym (ap (defined contents file) (read ∙ e)),
                λ name given. cc (sym tool_gone ∙ given),
                λ same. read,
                λ missing. read ∙ missing,
              )
        by_found (some signature) e =
            subst (λ f. Begun (is_some f)) (sym e)
              (
                begin_present file m,
                λ idle. cc (sym (includes-concat m.importing file) ∙ idle),
                named,
                λ same. same,
                λ missing. cc (sym e ∙ missing),
              )

    after-returns :
        (file : Text) (m : CustomToolManager h) (r : Result (Unit {0}))
        → r ≡ ok tt
        → after_register changed file (m, r) ≡ m
    unfolding after_register
    after-returns file m (ok done) e = refl
    after-returns file m (err why) e = cc

    warn-Frame :
        (file why : Text) (m : CustomToolManager h) (r : CustomToolManager h × Result (Unit {0}))
        → Frame file m r.0 × (Map.get r.0.file_to_tool file ≡ none)
        → Frame file m (warn_reload file why r)
          × (Map.get (warn_reload file why r).file_to_tool file ≡ none)
    unfolding warn_reload
    warn-Frame file why m (n, ok done) (k, gone) = (
      record { files = k.files; signatures = k.signatures; imports = k.imports; polls = k.polls },
      gone,
    )
    warn-Frame file why m (n, err other) kept = kept

    pub register-returns :
        (loaded : LoadedTool h) (m : CustomToolManager h)
        → ((n : CustomToolManager h) → changed n ≡ ok tt)
        → (register_loaded_tool changed loaded m).1 ≡ ok tt
    unfolding register_loaded_tool
    register-returns loaded m returns = returns _

    -- What the import gave, where the callback returns: the file has just that tool.
    take-Frame :
        (file : Text) (r : Result (LoadedTool h)) (m : CustomToolManager h)
        → ((n : CustomToolManager h) → changed n ≡ ok tt)
        → ((loaded : LoadedTool h) → r ≡ ok loaded → loaded.filename ≡ file)
        → IsNamed file m
        → Frame file m (take_import changed file r m)
          × (Map.get (take_import changed file r m).file_to_tool file ≡ tool_name r)
    unfolding take_import
    take-Frame file (ok loaded) m returns here named =
        let (noted, r) = register_loaded_tool changed loaded m in
        subst
          (λ (n : CustomToolManager h).
            Frame file m n × (Map.get n.file_to_tool file ≡ some loaded.tool.name))
          (sym (after-returns file noted r (register-returns loaded m returns)))
          (register-Frame changed loaded file m (here loaded refl))
    take-Frame file (err why) m returns here named =
        warn-Frame file why m (remove_file_tool changed file m) (remove-Frame changed file m named)

    -- The end of a reload, where the import gave what the file on disk defines.
    pub end-IsSynced :
        (dir : Directory) (file : Text) (import : Imported h) (m : CustomToolManager h)
        → ((n : CustomToolManager h) → changed n ≡ ok tt)
        → AreNamed
        → tool_name (load_custom_tool_file file import) ≡ defined contents file (Map.get dir file)
        → IsNamed file m
        → Leaves file m (end_reconcile changed dir file import m)
          × InSync file (end_reconcile changed dir file import m)
          × IsNamed file (end_reconcile changed dir file import m)
    unfolding end_reconcile
    end-IsSynced dir file import m returns are_named faithful named =
        let loaded = load_custom_tool_file file import in
        let (frame, tool) = take-Frame file loaded m returns (load-filename file import) named in
        let taken = take_import changed file loaded m in
        let (read, kept, waits) = refresh-reads dir file taken in
        let given = ap (λ t. Map.get t file) kept ∙ tool ∙ faithful in
        (
          Leaves-trans file m taken _ (Leaves-of_Frame file m taken frame)
              (refresh-Leaves dir file taken),
          λ idle. given ∙ sym (ap (defined contents file) read),
          λ name e. are_named file (Map.get dir file) name (sym given ∙ e),
        )
