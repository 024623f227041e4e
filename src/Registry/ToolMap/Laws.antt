-- ===== src/Registry/ToolMap/Laws.antt =====
-- buildToolMap of src/tool-registry.ts: the map is keyed by name, and a removed tool stays away.
use pi_ptc_advanced.Common.{
  ◌≡◌, refl, inl, inr, Bool, Option, none, some, List, [], ◌∷◌, Text, lit, All, arith, Bool-cases,
  Option-cases, includes,
}
use pi_ptc_advanced.Common.Map
use pi_ptc_advanced.Common.Map.{Map}
use pi_ptc_advanced.Tools.{Host, ToolInfo, ActivePiToolInfo}
use pi_ptc_advanced.Registry.State.{ToolRegistry}
use pi_ptc_advanced.Registry.State.Invariant.{
  IsEntry, IsKeyed, IsWellFormed, set-IsKeyed, nil-IsKeyed,
}
use pi_ptc_advanced.Registry.ToolMap.{
  get_all_tools, Pi, Created, made, failed, add_builtin, run_factories, add_glob, factory_names,
  set_by_name, overlay, overlay_executors, merge_host_tool, set_entry, is_removed, add_host_tools,
  overlaid_tools, create_builtin_tools, build_tool_map,
}

module _ {h : Host} where
  abbrev HasNoPrompts : ToolInfo h → Type 0
  HasNoPrompts tool = (tool.prompt_snippet ≡ none) × (tool.prompt_guidelines ≡ none)

  -- Tools without prompt metadata, put in by name, keep the map keyed.
  set_by_name-IsKeyed :
      (ts : List (ToolInfo h)) (tools : Map (ToolInfo h))
      → All HasNoPrompts ts
      → IsKeyed tools
      → IsKeyed (set_by_name ts tools)
  unfolding set_by_name
  set_by_name-IsKeyed [] tools _ keyed = keyed
  set_by_name-IsKeyed (t ∷ ts) tools (p, ps) keyed =
      set_by_name-IsKeyed ts (Map.set tools t.name t) ps
        (set-IsKeyed tools t.name t keyed (refl, p.0, p.1))

  values-HasNoPrompts :
      (tools : Map (ToolInfo h))
      → Map.AllEntries IsEntry tools
      → All HasNoPrompts (Map.values tools)
  unfolding Map.values
  values-HasNoPrompts [] _ = tt
  values-HasNoPrompts ((k, tool) ∷ tools) (p, ps) = ((p.1, p.2), values-HasNoPrompts tools ps)

  add_builtin-NoPrompts :
      (name : Text) (created : Created h) (acc : Map (ToolInfo h) × List Text)
      → Map.AllEntries (λ _ tool. HasNoPrompts tool) acc.0
      → Map.AllEntries (λ _ tool. HasNoPrompts tool) (add_builtin name created acc).0
  unfolding add_builtin
  add_builtin-NoPrompts name (made tool) (tools, log) ps =
      Map.set-AllEntries _ tools name _ ps (refl, refl)
  add_builtin-NoPrompts name (failed message) (tools, log) ps = ps

  run_factories-NoPrompts :
      (make : Text → Created h) (names : List Text) (acc : Map (ToolInfo h) × List Text)
      → Map.AllEntries (λ _ tool. HasNoPrompts tool) acc.0
      → Map.AllEntries (λ _ tool. HasNoPrompts tool) (run_factories make names acc).0
  unfolding run_factories
  run_factories-NoPrompts make [] acc ps = ps
  run_factories-NoPrompts make (name ∷ names) acc ps =
      run_factories-NoPrompts make names _ (add_builtin-NoPrompts name (make name) acc ps)

  add_glob-NoPrompts :
      (found : Option (ToolInfo h)) (tools : Map (ToolInfo h))
      → Map.AllEntries (λ _ tool. HasNoPrompts tool) tools
      → Map.get tools (lit "find") ≡ found
      → Map.AllEntries (λ _ tool. HasNoPrompts tool) (add_glob found tools)
  unfolding add_glob
  add_glob-NoPrompts none tools ps e = ps
  add_glob-NoPrompts (some tool) tools ps e =
      Map.set-AllEntries _ tools (lit "glob") _ ps (Map.get-AllEntries _ tools (lit "find") ps e)

  values-All :
      (tools : Map (ToolInfo h))
      → Map.AllEntries (λ _ tool. HasNoPrompts tool) tools
      → All HasNoPrompts (Map.values tools)
  unfolding Map.values
  values-All [] _ = tt
  values-All ((k, tool) ∷ tools) (p, ps) = (p, values-All tools ps)

  builtin_tools-NoPrompts :
      (pi : Pi h) (cwd : Text) → All HasNoPrompts (Map.values (create_builtin_tools pi cwd).0)
  unfolding create_builtin_tools
  builtin_tools-NoPrompts pi cwd =
      let made = run_factories (λ name. pi.factory name cwd) factory_names ([], []) in
      values-All (add_glob (Map.get made.0 (lit "find")) made.0) (
        add_glob-NoPrompts _ made.0
          (run_factories-NoPrompts (λ name. pi.factory name cwd) factory_names ([], []) tt) refl)

  overlay-IsEntry :
      (k : Text) (ext_tool : ToolInfo h) (existing : Option (ToolInfo h)) (tools : Map (ToolInfo h))
      → IsEntry k ext_tool
      → Map.AllEntries IsEntry tools
      → Map.get tools k ≡ existing
      → IsEntry k (overlay ext_tool existing)
  unfolding overlay
  overlay-IsEntry k ext_tool none tools p named e = p
  overlay-IsEntry k ext_tool (some existing) tools p named e =
      Map.get-AllEntries IsEntry tools k named e

  overlay_executors-IsKeyed :
      (executors tools : Map (ToolInfo h))
      → Map.AllEntries IsEntry executors
      → IsKeyed tools
      → IsKeyed (overlay_executors executors tools)
  unfolding overlay_executors
  overlay_executors-IsKeyed [] tools _ keyed = keyed
  overlay_executors-IsKeyed ((k, ext_tool) ∷ more) tools (p, ps) keyed =
      overlay_executors-IsKeyed more _ ps (
        set-IsKeyed tools k _ keyed
          (overlay-IsEntry k ext_tool (Map.get tools k) tools p keyed.named refl))

  merge-IsEntry :
      (override : Bool) (pi_tool : ActivePiToolInfo h) (existing : Option (ToolInfo h))
      (tools : Map (ToolInfo h)) (merged : ToolInfo h)
      → Map.AllEntries IsEntry tools
      → Map.get tools pi_tool.name ≡ existing
      → merge_host_tool override pi_tool existing ≡ some merged
      → IsEntry pi_tool.name merged
  unfolding merge_host_tool
  merge-IsEntry override pi_tool none tools merged named found e = ground arith
  merge-IsEntry override pi_tool (some existing) tools merged named found e =
      ground (arith, Map.get-AllEntries IsEntry tools pi_tool.name named found)

  set_entry-IsKeyed :
      (override : Bool) (pi_tool : ActivePiToolInfo h) (tools : Map (ToolInfo h))
      → IsKeyed tools
      → IsKeyed (
          set_entry pi_tool.name
            (merge_host_tool override pi_tool (Map.get tools pi_tool.name))
            tools)
  unfolding set_entry
  set_entry-IsKeyed override pi_tool tools keyed =
      elim (Option-cases (merge_host_tool override pi_tool (Map.get tools pi_tool.name))) [
        | inl kept ↦ rw (kept, set_entry) keyed
        | inr (merged, e) ↦
            rw (e, set_entry)
              (set-IsKeyed tools pi_tool.name merged keyed
                (merge-IsEntry override pi_tool _ tools merged keyed.named refl e))
      ]

  add_host_tools-IsKeyed :
      (r : ToolRegistry h) (active : List Text) (pi_tools : List (ActivePiToolInfo h))
      (tools : Map (ToolInfo h))
      → IsKeyed tools
      → IsKeyed (add_host_tools r active pi_tools tools)
  unfolding add_host_tools
  add_host_tools-IsKeyed r active [] tools keyed = keyed
  add_host_tools-IsKeyed r active (pi_tool ∷ more) tools keyed =
      elim (Bool-cases (is_removed r pi_tool.name)) [
        | inl removed ↦ rw removed (add_host_tools-IsKeyed r active more tools keyed)
        | inr stays ↦ rw stays (
            add_host_tools-IsKeyed r active more _
              (set_entry-IsKeyed (includes active pi_tool.name) pi_tool tools keyed))
      ]

  overlaid-IsKeyed :
      (r : ToolRegistry h) (pi : Pi h) (cwd : Text)
      → IsWellFormed r
      → IsKeyed (overlaid_tools r pi cwd).0
  unfolding overlaid_tools
  overlaid-IsKeyed r pi cwd wf =
      overlay_executors-IsKeyed r.extension_executors _ wf.executors.named (
        set_by_name-IsKeyed (Map.values (create_builtin_tools pi cwd).0) []
          (builtin_tools-NoPrompts pi cwd) nil-IsKeyed)

  -- From a well-formed registry, every tool of the map stands under its own name, no name stands
  -- twice, and no tool carries a prompt snippet or prompt guidelines, whatever the host's factories
  -- and tools are.
  pub build_tool_map-IsKeyed :
      (r : ToolRegistry h) (pi : Pi h) (cwd : Text)
      → IsWellFormed r
      → IsKeyed (build_tool_map r pi cwd).0
  unfolding build_tool_map
  build_tool_map-IsKeyed r pi cwd wf = add_host_tools-IsKeyed r pi.active_tools pi.all_tools _ (
      set_by_name-IsKeyed (Map.values r.custom_tools) _
        (values-HasNoPrompts r.custom_tools wf.custom.named) (overlaid-IsKeyed r pi cwd wf))

  add_host_tools-log :
      (r : ToolRegistry h) (warned log active : List Text) (pi_tools : List (ActivePiToolInfo h))
      (tools : Map (ToolInfo h))
      → add_host_tools
          (record r { callable_policy_warnings = warned; log = log })
          active
          pi_tools
          tools
        ≡ add_host_tools r active pi_tools tools
  unfolding add_host_tools is_removed
  add_host_tools-log r warned log active [] tools = refl
  add_host_tools-log r warned log active (pi_tool ∷ more) tools =
      add_host_tools-log r warned log active more _

  -- The warnings that were given do not change the tools.
  pub get_all_tools-log :
      (r : ToolRegistry h) (warned log : List Text) (pi : Pi h) (cwd : Text)
      → get_all_tools (record r { callable_policy_warnings = warned; log = log }) pi cwd
        ≡ get_all_tools r pi cwd
  unfolding get_all_tools build_tool_map overlaid_tools
  get_all_tools-log r warned log pi cwd = rw (add_host_tools-log r warned log)
