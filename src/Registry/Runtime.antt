-- ===== src/Registry/Runtime.antt =====
-- src/tool-registry.ts: validateToolParams and createCallableToolRuntime. The executor of a tool is
-- the host's: a call of it is a value that says what it is called with.
pub mod Laws
use pi_ptc_advanced.Common.{
  Bool, true, false, Option, none, some, List, [], ◌∷◌, ◌++◌, Text, lit, truthy, is_empty, join,
  map, take, trim, Result, ok, err, ◌>>=◌, ◌>>◌, if◌then◌else◌,
}
use pi_ptc_advanced.Common.Map
use pi_ptc_advanced.Common.Map.{Map}
use pi_ptc_advanced.Tools.{Host, Executor, ToolInfo, CallerMetadata}
use pi_ptc_advanced.Registry.Gaps.{map_by_name}

-- `${error.path || "/"}: ${error.message}`
error_text : Text × Text → Text
error_text (path, message) = (if is_empty path then lit "/" else path) ++ (lit ": " ++ message)

-- The call `tool.execute(toolCallId, params, signal, undefined, ctxWithCaller)`; signal and the rest of
-- the context are the execution's.
pub record Invocation (h : Host) : Type 0 where
  pub tool : ToolInfo h
  pub tool_call_id : Text
  pub params : h.Params
  pub caller : CallerMetadata

module _ {h : Host} where
  params_error : ToolInfo h → h.Params → Text
  unfolding error_text
  params_error tool params =
      let details = join (lit "; ") (map error_text (take 3 (h.errors tool.parameters params))) in
      let suffix = if is_empty details then [] else lit " " ++ details in
      trim (lit "Invalid parameters for " ++ (tool.name ++ (lit "." ++ suffix)))

  unfoldable pub validate_tool_params : ToolInfo h → h.Params → Result (Unit {0})
  unfolding params_error
  validate_tool_params tool params =
      if h.check tool.parameters params then ok tt else err (params_error tool params)

  -- `callableToolMap`
  callable_tool_map : List (ToolInfo h) → Map (ToolInfo h)
  callable_tool_map tools = map_by_name tools []

  unknown_error : Text → Map (ToolInfo h) → Text
  unknown_error tool_name tools =
      lit "Unknown callable tool: "
      ++ (tool_name ++ (lit ". Available: " ++ join (lit ", ") (Map.keys tools)))

  invoke :
      Option Text
      → Text
      → h.Params
      → Text
      → Text
      → Map (ToolInfo h)
      → Option (ToolInfo h)
      → Result (Invocation h)
  unfolding unknown_error validate_tool_params
  invoke parent tool_name params nested_call_id fresh_id tools none =
      err (unknown_error tool_name tools)
  invoke parent tool_name params nested_call_id fresh_id tools (some tool) =
      let tool_call_id = if truthy nested_call_id then nested_call_id else fresh_id in
      do
        validate_tool_params tool params
        ok (record {
          tool = tool;
          tool_call_id = tool_call_id;
          params = params;
          caller = record { parent_tool_call_id = parent; nested_call_id = tool_call_id };
        })

  -- `runTool` of the runtime over the callable tools. `fresh_id` is the identifier that the clock and
  -- the random numbers give where the nested call has none.
  unfoldable pub run_tool :
      List (ToolInfo h) → Option Text → Text → h.Params → Text → Text → Result (Invocation h)
  unfolding invoke callable_tool_map
  run_tool callable_tools parent tool_name params nested_call_id fresh_id =
      let tools = callable_tool_map callable_tools in
      invoke parent tool_name params nested_call_id fresh_id tools (Map.get tools tool_name)
