-- ===== src/CustomTools/Synced.antt =====
-- src/custom-tool-manager.ts: what the signature that the manager has of a file says about its tool.
use pi_ptc_advanced.Common.Map
use pi_ptc_advanced.Common.{
  if◌then◌else◌, if-both, Result, ok, err, Text, ◌==◌, eq_refl, is_empty, truthy, includes, ◌≡◌,
  refl, ap, ◌∙◌, Bool, true, false, not, ◌&&◌, Option, none, some, [], ◌∷◌, ◌++◌,
}
use pi_ptc_advanced.Common.Map.{Map}
use pi_ptc_advanced.Tools.{Host, PtcToolDefinition}
use pi_ptc_advanced.Registry.State.{upsert_tool}
use pi_ptc_advanced.CustomTools.Loading.{Imported, LoadedTool, load_custom_tool_file}
use pi_ptc_advanced.CustomTools.Manager.{
  Directory, CustomToolManager, excludes_direct, refresh_file_signature, set_tool_active,
  deactivate_tool, drop_renamed, register_loaded_tool, remove_named, remove_file_tool,
}

module _ {h : Host} where
  -- The name of the tool that a file gave.
  abbrev pub tool_name : Result (LoadedTool h) → Option Text
  tool_name (ok loaded) = some loaded.tool.name
  tool_name (err why) = none

  -- `contents` is what a file imports as when it has a signature: the name of its tool then. A file
  -- that is missing has none.
  abbrev pub defined : (Text → Text → Imported h) → Text → Option Text → Option Text
  defined contents file none = none
  defined contents file (some signature) =
      tool_name (load_custom_tool_file file (contents file signature))

  -- `n` comes after `m` by what concerns the tool of one file only.
  pub record Frame (file : Text) (m n : CustomToolManager h) : Type 0 where
    pub files :
        (g : Text) → (file == g) ≡ false → Map.get n.file_to_tool g ≡ Map.get m.file_to_tool g
    pub signatures : n.file_signatures ≡ m.file_signatures
    pub imports : n.importing ≡ m.importing
    pub polls : n.poll_timer ≡ m.poll_timer

  -- As `Frame`, where the file's signature and its reloads may have changed too.
  pub record Leaves (file : Text) (m n : CustomToolManager h) : Type 0 where
    pub files :
        (g : Text) → (file == g) ≡ false → Map.get n.file_to_tool g ≡ Map.get m.file_to_tool g
    pub signatures :
        (g : Text) → (file == g) ≡ false → Map.get n.file_signatures g ≡ Map.get m.file_signatures g
    pub imports : (g : Text) → (file == g) ≡ false → includes n.importing g ≡ includes m.importing g
    pub polls : n.poll_timer ≡ m.poll_timer

  pub Leaves-trans :
      (file : Text) (m n o : CustomToolManager h)
      → Leaves file m n
      → Leaves file n o
      → Leaves file m o
  Leaves-trans file m n o k l = record {
    files = λ g apart. l.files g apart ∙ k.files g apart;
    signatures = λ g apart. l.signatures g apart ∙ k.signatures g apart;
    imports = λ g apart. l.imports g apart ∙ k.imports g apart;
    polls = l.polls ∙ k.polls;
  }

  pub Leaves-of_Frame : (file : Text) (m n : CustomToolManager h) → Frame file m n → Leaves file m n
  Leaves-of_Frame file m n k = record {
    files = k.files;
    signatures = λ g apart. ap (λ s. Map.get s g) k.signatures;
    imports = λ g apart. ap (λ l. includes l g) k.imports;
    polls = k.polls;
  }

  pub refresh-Leaves :
      (dir : Directory) (file : Text) (m : CustomToolManager h)
      → Leaves file m (refresh_file_signature dir file m)
  unfolding refresh_file_signature
  refresh-Leaves dir file m = by_file (Map.get dir file)
    where
      by_file :
          (found : Option Text)
          → Leaves file m (elim found as (λ _. CustomToolManager h) [
            | none ↦ record m { file_signatures = Map.delete m.file_signatures file }
            | some signature ↦ record m {
              file_signatures = Map.set m.file_signatures file signature;
            }
          ])
      by_file none = record {
        files = λ g apart. refl;
        signatures = λ g apart. rw (Map.get-delete m.file_signatures file g, apart) refl;
        imports = λ g apart. refl;
        polls = refl;
      }
      by_file (some signature) = record {
        files = λ g apart. refl;
        signatures = λ g apart. rw (Map.get-set m.file_signatures file g signature, apart) refl;
        imports = λ g apart. refl;
        polls = refl;
      }

  -- What else a refresh keeps, and the signature that it reads.
  pub refresh-reads :
      (dir : Directory) (file : Text) (m : CustomToolManager h)
      → (Map.get (refresh_file_signature dir file m).file_signatures file ≡ Map.get dir file)
        × ((refresh_file_signature dir file m).file_to_tool ≡ m.file_to_tool)
        × ((refresh_file_signature dir file m).importing ≡ m.importing)
  unfolding refresh_file_signature
  refresh-reads dir file m = by_file (Map.get dir file)
    where
      by_file :
          (found : Option Text)
          → let n : CustomToolManager h = elim found as (λ _. CustomToolManager h) [
            | none ↦ record m { file_signatures = Map.delete m.file_signatures file }
            | some signature ↦ record m {
              file_signatures = Map.set m.file_signatures file signature;
            }
          ] in
            (Map.get n.file_signatures file ≡ found)
            × (n.file_to_tool ≡ m.file_to_tool)
            × (n.importing ≡ m.importing)
      by_file none =
          (rw (Map.get-delete m.file_signatures file file, eq_refl file) refl, refl, refl)
      by_file (some signature) =
          (rw (Map.get-set m.file_signatures file file signature, eq_refl file) refl, refl, refl)

  -- `n` differs from `m` in the registry, the host and the counters only.
  abbrev pub Alike : CustomToolManager h → CustomToolManager h → Type 0
  Alike m n =
      (n.file_to_tool ≡ m.file_to_tool)
      × (n.file_signatures ≡ m.file_signatures)
      × (n.importing ≡ m.importing)
      × (n.poll_timer ≡ m.poll_timer)

  drop-Alike :
      (found : Option Text) (name : Text) (m : CustomToolManager h)
      → Alike m (drop_renamed found name m)
  unfolding drop_renamed deactivate_tool
  drop-Alike none name m = (refl, refl, refl, refl)
  drop-Alike (some previous) name m =
      if-both (Alike m) (truthy previous && not (previous == name)) (refl, refl, refl, refl)
        (refl, refl, refl, refl)

  active-Alike :
      (tool : PtcToolDefinition h) (m : CustomToolManager h) → Alike m (set_tool_active tool m)
  unfolding set_tool_active
  active-Alike tool m =
      if-both (Alike m) (excludes_direct tool.ptc) (refl, refl, refl, refl)
        (if-both (Alike m) (includes m.pi.active_tools tool.name) (refl, refl, refl, refl)
          (refl, refl, refl, refl))

module _ {h : Host} (changed : CustomToolManager h → Result (Unit {0})) where
  pub register-Frame :
      (loaded : LoadedTool h) (file : Text) (m : CustomToolManager h)
      → loaded.filename ≡ file
      → Frame file m (register_loaded_tool changed loaded m).0
        × (Map.get (register_loaded_tool changed loaded m).0.file_to_tool file
            ≡ some loaded.tool.name)
  unfolding register_loaded_tool
  register-Frame loaded file m here =
      let tool = loaded.tool in
      let kept = drop_renamed (Map.get m.file_to_tool loaded.filename) tool.name m in
      let put : CustomToolManager h = record kept {
        registry = upsert_tool tool kept.registry;
        registered = kept.registered ++ tool ∷ [];
      } in
      let (f1, s1, i1, p1) = drop-Alike (Map.get m.file_to_tool loaded.filename) tool.name m in
      let (f2, s2, i2, p2) = active-Alike tool put in
      let next = set_tool_active tool put in
      (
        record {
          files = λ g apart.
              ap (λ k. Map.get (Map.set next.file_to_tool k tool.name) g) here
              ∙ Map.get-set next.file_to_tool file g tool.name
              ∙ ap (λ b. if b then some tool.name else Map.get next.file_to_tool g) apart
              ∙ ap (λ t. Map.get t g) (f2 ∙ f1);
          signatures = s2 ∙ s1;
          imports = i2 ∙ i1;
          polls = p2 ∙ p1;
        },
        ap (λ k. Map.get (Map.set next.file_to_tool k tool.name) file) here
            ∙ Map.get-set next.file_to_tool file file tool.name
            ∙ ap (λ b. if b then some tool.name else Map.get next.file_to_tool file) (eq_refl file),
      )

  -- A file's tool, where it has a name, goes.
  pub remove-Frame :
      (file : Text) (m : CustomToolManager h)
      → ((name : Text) → Map.get m.file_to_tool file ≡ some name → truthy name ≡ true)
      → Frame file m (remove_file_tool changed file m).0
        × (Map.get (remove_file_tool changed file m).0.file_to_tool file ≡ none)
  unfolding remove_file_tool remove_named deactivate_tool
  remove-Frame file m named = by_name (Map.get m.file_to_tool file) refl
    where
      cut :
          (name : Text) (b : Bool)
          → is_empty name ≡ b
          → Map.get m.file_to_tool file ≡ some name
          → Frame file m (remove_named changed file (some name) m).0
            × (Map.get (remove_named changed file (some name) m).0.file_to_tool file ≡ none)
      cut [] b e given = cc (named [] given)
      cut (c ∷ name) b e given = (
        record {
          files = λ g apart. rw (Map.get-delete m.file_to_tool file g, apart) refl;
          signatures = refl;
          imports = refl;
          polls = refl;
        },
        rw (Map.get-delete m.file_to_tool file file, eq_refl file) refl,
      )

      by_name :
          (found : Option Text)
          → Map.get m.file_to_tool file ≡ found
          → Frame file m (remove_named changed file found m).0
            × (Map.get (remove_named changed file found m).0.file_to_tool file ≡ none)
      by_name none e =
          (record { files = λ g apart. refl; signatures = refl; imports = refl; polls = refl }, e)
      by_name (some name) e = cut name (is_empty name) refl e
