-- ===== src/Registry/ToolMap/Removal.antt =====
-- removeTool and buildToolMap of src/tool-registry.ts: a removed custom tool does not come back from
-- the host's own list of tools.
use pi_ptc_advanced.Common.{
  ◌≡◌, refl, inl, inr, true, false, Option, none, some, List, [], ◌∷◌, Text, ◌==◌, eq_iff, eq_refl,
  All, arith, Bool-cases, includes-add_self, ◌∙◌,
}
use pi_ptc_advanced.Common.Map
use pi_ptc_advanced.Common.Map.{Map}
use pi_ptc_advanced.Tools.{Host, ToolInfo, ActivePiToolInfo}
use pi_ptc_advanced.Registry.State.{ToolRegistry, remove_tool}
use pi_ptc_advanced.Registry.State.Invariant.{IsEntry, IsWellFormed}
use pi_ptc_advanced.Registry.ToolMap.{
  Pi, set_by_name, set_entry, is_removed, add_host_tools, overlaid_tools, build_tool_map,
}

module _ {h : Host} (name : Text) where
  abbrev IsOther : ToolInfo h → Type 0
  IsOther tool = (tool.name == name) ≡ false

  get-set_by_name :
      (ts : List (ToolInfo h)) (tools : Map (ToolInfo h))
      → All IsOther ts
      → Map.get (set_by_name ts tools) name ≡ Map.get tools name
  unfolding set_by_name
  get-set_by_name [] tools _ = refl
  get-set_by_name (t ∷ ts) tools (other, others) =
      get-set_by_name ts (Map.set tools t.name t) others
      ∙ ground (arith, Map.get-set tools t.name name t)

  values-IsOther :
      (tools : Map (ToolInfo h))
      → Map.AllEntries IsEntry tools
      → Map.AllEntries (λ k _. (k == name) ≡ false) tools
      → All IsOther (Map.values tools)
  unfolding Map.values
  values-IsOther [] _ _ = tt
  values-IsOther ((k, tool) ∷ tools) (p, ps) (q, qs) = (rw p.0 q, values-IsOther tools ps qs)

  get-set_entry :
      (k : Text) (entry : Option (ToolInfo h)) (tools : Map (ToolInfo h))
      → (k == name) ≡ false
      → Map.get (set_entry k entry tools) name ≡ Map.get tools name
  unfolding set_entry
  get-set_entry k none tools other = refl
  get-set_entry k (some tool) tools other = ground (arith, Map.get-set tools k name tool)

  get-add_host_tools :
      (r : ToolRegistry h) (active : List Text) (pi_tools : List (ActivePiToolInfo h))
      (tools : Map (ToolInfo h))
      → is_removed r name ≡ true
      → Map.get (add_host_tools r active pi_tools tools) name ≡ Map.get tools name
  unfolding add_host_tools
  get-add_host_tools r active [] tools removed = refl
  get-add_host_tools r active (pi_tool ∷ more) tools removed =
      elim (Bool-cases (is_removed r pi_tool.name)) [
        | inl skipped ↦ rw skipped (get-add_host_tools r active more tools removed)
        | inr stays ↦ rw stays (
            get-add_host_tools r active more _ removed
            ∙ get-set_entry pi_tool.name _ tools (ground (arith, eq_iff pi_tool.name name)))
      ]

  removed-is_removed : (r : ToolRegistry h) → is_removed (remove_tool name r).0 name ≡ true
  unfolding is_removed remove_tool
  removed-is_removed r = ground (
    arith,
    includes-add_self r.extension_owned_tool_names name,
    Map.get-delete r.custom_tools name name,
    eq_refl name,
  )

-- After `removeTool`, the tool map has under that name exactly what the builtin tools and the
-- extensions' executors give: neither the removed tool nor a tool that the host still lists under
-- the name comes back.
pub removed_stays_away :
    {h : Host} (r : ToolRegistry h) (pi : Pi h) (cwd name : Text)
    → IsWellFormed r
    → Map.get (build_tool_map (remove_tool name r).0 pi cwd).0 name
      ≡ Map.get (overlaid_tools r pi cwd).0 name
unfolding build_tool_map remove_tool
removed_stays_away r pi cwd name wf =
    get-add_host_tools name (remove_tool name r).0 pi.active_tools pi.all_tools _
      (removed-is_removed name r)
    ∙ get-set_by_name name (Map.values (Map.delete r.custom_tools name)) (overlaid_tools r pi cwd).0
        (values-IsOther name _ (Map.delete-AllEntries IsEntry r.custom_tools name wf.custom.named)
          (Map.delete-AllEntries_ne r.custom_tools name))
