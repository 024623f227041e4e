-- ===== src/Registry/Runtime/Laws.antt =====
-- createCallableToolRuntime of src/tool-registry.ts: what a nested call runs.
use pi_ptc_advanced.Common.{
  ◌≡◌, refl, inl, inr, true, Option, some, List, [], Text, truthy, Memᴰ, ok, arith, Bool-cases,
  Option-cases, if◌then◌else◌,
}
use pi_ptc_advanced.Common.Map
use pi_ptc_advanced.Common.Map.{Map}
use pi_ptc_advanced.Settings.{PtcSettings}
use pi_ptc_advanced.Tools.{Host, ToolInfo}
use pi_ptc_advanced.Registry.State.{ToolRegistry}
use pi_ptc_advanced.Registry.ToolMap.{Pi, get_all_tools}
use pi_ptc_advanced.Registry.Gaps.Complete.{get-map_by_name}
use pi_ptc_advanced.Registry.Callable.{get_callable_tools}
use pi_ptc_advanced.Registry.Callable.Laws.{IsPermittedBy, mem-callable_iff}
use pi_ptc_advanced.Registry.Runtime.{
  Invocation, callable_tool_map, validate_tool_params, invoke, run_tool,
}

module _ {h : Host} where
  -- The call that a nested tool call makes.
  pub record IsCallOf (tools : List (ToolInfo h)) (parent : Option Text) (tool_name : Text)
      (params : h.Params) (nested_call_id fresh_id : Text) (call : Invocation h) : Type 0 where
    pub callable : Memᴰ call.tool tools
    pub named : call.tool.name ≡ tool_name
    pub checked : h.check call.tool.parameters call.params ≡ true
    pub given : call.params ≡ params
    pub identified :
        call.tool_call_id ≡ (if truthy nested_call_id then nested_call_id else fresh_id)
    pub nested : call.caller.nested_call_id ≡ call.tool_call_id
    pub parented : call.caller.parent_tool_call_id ≡ parent

  abbrev call_of : Option Text → h.Params → Text → ToolInfo h → Invocation h
  call_of parent params id tool = record {
    tool = tool;
    tool_call_id = id;
    params = params;
    caller = record { parent_tool_call_id = parent; nested_call_id = id };
  }

  invoke-found :
      (parent : Option Text) (tool_name : Text) (params : h.Params) (nested_call_id fresh_id : Text)
      (by_name : Map (ToolInfo h)) (tool : ToolInfo h) (call : Invocation h)
      → invoke parent tool_name params nested_call_id fresh_id by_name (some tool) ≡ ok call
      → (h.check tool.parameters params ≡ true)
        × (call_of parent params (if truthy nested_call_id then nested_call_id else fresh_id) tool
            ≡ call)
  unfolding invoke
  invoke-found parent tool_name params nested_call_id fresh_id by_name tool call e =
      elim (Bool-cases (h.check tool.parameters params)) [
        | inl checked ↦ (checked, cc (rw (checked, invoke, validate_tool_params) at e))
        | inr refused ↦ absurd (cc (rw (refused, invoke, validate_tool_params) at e))
      ]

  -- A nested call that is accepted runs a callable tool of that very name, on the parameters that were
  -- given and that fit its schema, under the nested call's identifier or, where that is empty, a fresh
  -- one, and tells the tool that code_execution calls it, under which parent and identifier.
  pub run_tool-IsCallOf :
      (tools : List (ToolInfo h)) (parent : Option Text) (tool_name : Text) (params : h.Params)
      (nested_call_id fresh_id : Text) (call : Invocation h)
      → run_tool tools parent tool_name params nested_call_id fresh_id ≡ ok call
      → IsCallOf tools parent tool_name params nested_call_id fresh_id call
  unfolding run_tool
  run_tool-IsCallOf tools parent tool_name params nested_call_id fresh_id call e =
      elim (Option-cases (Map.get (callable_tool_map tools) tool_name)) [
        | inl absent ↦ absurd (ground arith)
        | inr (tool, found) ↦ elim (get-map_by_name tools [] tool_name found) [
          | inl (there, same) ↦
              let (checked, is_call) =
                invoke-found parent tool_name params nested_call_id fresh_id
                  (callable_tool_map tools) tool call (rw found at e) in
              rw (← is_call) (record {
                callable = there;
                named = same;
                checked = checked;
                given = refl;
                identified = refl;
                nested = refl;
                parented = refl;
              })
          | inr held ↦ absurd (cc (Map.get-empty {V = ToolInfo h} tool_name, held))
        ]
      ]

  -- A tool runs for code_execution only if the settings permit it.
  pub run_tool-IsPermittedBy :
      (r : ToolRegistry h) (pi : Pi h) (cwd : Text) (settings : PtcSettings)
      (tools : List (ToolInfo h)) (parent : Option Text) (tool_name : Text) (params : h.Params)
      (nested_call_id fresh_id : Text) (call : Invocation h)
      → (get_callable_tools r pi cwd settings).0 ≡ ok tools
      → run_tool tools parent tool_name params nested_call_id fresh_id ≡ ok call
      → Memᴰ call.tool (get_all_tools r pi cwd).0 × IsPermittedBy settings call.tool
  run_tool-IsPermittedBy r pi cwd settings tools parent name params nested fresh call listed e =
      let runs = run_tool-IsCallOf tools parent name params nested fresh call e in
      (mem-callable_iff r pi cwd settings tools call.tool listed).0 runs.callable
