-- ===== src/CustomTools/Samples.antt =====
-- A manager whose files change.
use pi_ptc_advanced.Common.Map
use pi_ptc_advanced.Common.{
  if◌then◌else◌, Bool-cases, ◌&&◌, Result, ok, Text, lit, includes, ◌==◌, eq_iff, ◌≡◌, refl, inl,
  inr, none, some, List, [], ◌∷◌,
}
use pi_ptc_advanced.Registry.Samples.{sample_host, sample_pi, sample_registry}
use pi_ptc_advanced.CustomTools.Loading.{
  Candidate, Imported, import_threw, exported, load_custom_tool_file, is_tool_file,
}
use pi_ptc_advanced.CustomTools.Manager.{Directory, CustomToolManager}
use pi_ptc_advanced.CustomTools.Events.{
  ManagerEvent, polled, imported, new_manager, manage, manage_all,
}
use pi_ptc_advanced.CustomTools.Owners.{gives}
use pi_ptc_advanced.CustomTools.Synced.{tool_name, defined}
use pi_ptc_advanced.CustomTools.Follows.{AreOwnNames, polled_after, registry_follows_files}

session : Unit {0}
unfolding lit ◌==◌ includes Map.get Map.set Map.delete Map.keys load_custom_tool_file is_tool_file
    manage_all manage new_manager
session = tt

abbrev notes_file : Text
notes_file = lit "notes.js"

-- Every tool belongs to the one file.
abbrev sample_owner : Text → Text
sample_owner name = notes_file

abbrev notes : Candidate sample_host
notes = record {
  name = some (lit "notes");
  label = none;
  description = none;
  prompt_snippet = none;
  prompt_guidelines = none;
  parameters = some 1;
  execute = some 2;
  ptc = none;
}

abbrev sample_import : Text → Imported sample_host
sample_import file = if notes_file == file then exported notes else import_threw (lit "no file")

-- What the file holds by its signature: after the first version it no longer parses.
abbrev sample_contents : Text → Text → Imported sample_host
sample_contents file signature =
    if notes_file == file && signature == lit "1:10"
    then exported notes
    else import_threw (lit "Unexpected token")

sample-AreOwnNames : AreOwnNames sample_contents sample_owner
unfolding session
sample-AreOwnNames file none name e = cc
sample-AreOwnNames file (some signature) name e = elim (Bool-cases (notes_file == file)) [
  | inl same ↦ elim (Bool-cases (signature == lit "1:10")) [
    | inl first ↦
        let given : some (lit "notes") ≡ some name = rw (same, first) at e in
        let named : lit "notes" ≡ name = cc given in
        (rw (← named) refl, (eq_iff notes_file file).0 same)
    | inr later ↦ cc (rw (same, later) at e)
  ]
  | inr other ↦ cc (rw other at e)
]

abbrev first_dir : Directory
first_dir = (notes_file, lit "1:10") ∷ []

sample_imports :
    (file : Text)
    → tool_name (load_custom_tool_file file (sample_import file))
      ≡ defined sample_contents file (Map.get first_dir file)
unfolding session
sample_imports file = elim (Bool-cases (notes_file == file)) [
  | inl same ↦ rw (← (eq_iff notes_file file).0 same) refl
  | inr other ↦ rw other refl
]

abbrev later_dir : Directory
later_dir = (notes_file, lit "2:10") ∷ []

-- A poll finds the file changed, and its import fails.
abbrev sample_events : List (Directory × ManagerEvent sample_host)
sample_events =
    (later_dir, polled)
    ∷ (later_dir, imported notes_file (import_threw (lit "Unexpected token")))
    ∷ []

-- The callback returns.
abbrev quiet : CustomToolManager sample_host → Result (Unit {0})
quiet m = ok tt

registry_follows_files_example :
    Map.has
      (polled_after quiet first_dir sample_import sample_registry sample_pi sample_events
        later_dir).registry.custom_tools
      (lit "notes")
    ≡ gives (defined sample_contents notes_file (Map.get later_dir notes_file)) (lit "notes")
unfolding session
registry_follows_files_example =
    registry_follows_files quiet sample_owner sample_contents sample_import first_dir later_dir
      sample_registry sample_pi sample_events (lit "notes") (λ n. refl) sample-AreOwnNames refl
      sample_imports (tt, (refl, tt)) refl refl refl
