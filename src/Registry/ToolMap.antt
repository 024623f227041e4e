-- ===== src/Registry/ToolMap.antt =====
-- src/tool-registry.ts: createBuiltinTools and buildToolMap, which join the builtin tools, the
-- executors of extensions, the custom tools and the tools of the host into one map by name.
pub mod Laws
pub mod Removal
use pi_ptc_advanced.Common.{
  Bool, true, false, not, ◌&&◌, Option, none, some, get_or, or_else, is_some, List, [], ◌∷◌, ◌++◌,
  Text, lit, includes, if◌then◌else◌,
}
use pi_ptc_advanced.Common.Map
use pi_ptc_advanced.Common.Map.{Map}
use pi_ptc_advanced.Tools.{
  builtin, alias, extension, Host, Executor, provided, unavailable, ToolInfo, ActivePiToolInfo,
}
use pi_ptc_advanced.Registry.Classify.{
  Classification, normalize_stored_ptc, classify_tool, is_builtin,
}
use pi_ptc_advanced.Registry.State.{ToolRegistry}

-- A tool that a factory of the host creates.
pub record BuiltinTool (h : Host) : Type 0 where
  pub name : Text
  pub description : Text
  pub parameters : h.Schema
  pub source_info : Option h.SourceInfo
  pub execute : h.Execute

-- What a call of a factory gives: a tool, or the message of the error that it throws.
pub data Created (h : Host) : Type 0 where
  made : BuiltinTool h → Created h
  failed : Text → Created h

-- The host as the registry asks it: its factories, by the factory's name and the working directory,
-- and what `getActiveTools` and `getAllTools` return.
pub record Pi (h : Host) : Type 0 where
  pub factory : Text → Text → Created h
  pub active_tools : List Text
  pub all_tools : List (ActivePiToolInfo h)

-- The calls of `logWarning` stand beside the result.
abbrev pub Logged {ℓ} : Type ℓ → Type ℓ
Logged A = A × List Text

factory_names : List Text
factory_names =
    lit "read" ∷ lit "bash" ∷ lit "edit" ∷ lit "write" ∷ lit "grep" ∷ lit "find" ∷ lit "ls" ∷ []

glob_description : Text
glob_description =
    lit
      "Find files by glob pattern. Alias of find(). Returns a list of matching relative paths in code_execution."

module _ {h : Host} where
  builtin_info : BuiltinTool h → Classification → ToolInfo h
  builtin_info tool classification = record {
    name = tool.name;
    description = tool.description;
    parameters = tool.parameters;
    execute = provided tool.execute;
    source = builtin;
    source_info = tool.source_info;
    is_read_only = classification.is_read_only;
    ptc = classification.ptc;
    prompt_snippet = none;
    prompt_guidelines = none;
  }

  add_builtin : Text → Created h → Logged (Map (ToolInfo h)) → Logged (Map (ToolInfo h))
  unfolding builtin_info
  add_builtin name (made tool) (tools, log) =
      (Map.set tools name (builtin_info tool (classify_tool tool.name none)), log)
  add_builtin name (failed message) (tools, log) = (
    tools,
    log ++ (lit "Builtin tool '" ++ (name ++ (lit "' failed to initialize: " ++ message))) ∷ [],
  )

  run_factories :
      (Text → Created h) → List Text → Logged (Map (ToolInfo h)) → Logged (Map (ToolInfo h))
  run_factories create [] acc = acc
  run_factories create (name ∷ names) acc =
      run_factories create names (add_builtin name (create name) acc)

  glob_alias : ToolInfo h → ToolInfo h
  unfolding glob_description
  glob_alias find_tool = record find_tool {
    name = lit "glob";
    description = glob_description;
    source = alias;
    is_read_only = true;
  }

  add_glob : Option (ToolInfo h) → Map (ToolInfo h) → Map (ToolInfo h)
  unfolding glob_alias
  add_glob none tools = tools
  add_glob (some find_tool) tools = Map.set tools (lit "glob") (glob_alias find_tool)

  pub create_builtin_tools : Pi h → Text → Logged (Map (ToolInfo h))
  unfolding run_factories factory_names add_builtin add_glob
  create_builtin_tools pi cwd =
      let (tools, log) = run_factories (λ name. pi.factory name cwd) factory_names ([], []) in
      (add_glob (Map.get tools (lit "find")) tools, log)

  -- `allTools.set(tool.name, tool)` for each tool.
  set_by_name : List (ToolInfo h) → Map (ToolInfo h) → Map (ToolInfo h)
  set_by_name [] tools = tools
  set_by_name (tool ∷ more) tools = set_by_name more (Map.set tools tool.name tool)

  overlay : ToolInfo h → Option (ToolInfo h) → ToolInfo h
  overlay ext_tool none = ext_tool
  overlay ext_tool (some existing) = record existing {
    execute = ext_tool.execute;
    ptc = or_else ext_tool.ptc existing.ptc;
    is_read_only = ext_tool.is_read_only;
  }

  -- The overlay of the executors that extensions have emitted.
  overlay_executors : Map (ToolInfo h) → Map (ToolInfo h) → Map (ToolInfo h)
  unfolding overlay
  overlay_executors [] tools = tools
  overlay_executors ((name, ext_tool) ∷ more) tools =
      overlay_executors more (Map.set tools name (overlay ext_tool (Map.get tools name)))

  -- `shouldUsePiOverride && hasInternalExecute(piTool) ? piTool.execute : other`
  override_execute : Bool → Option h.Execute → Executor h → Executor h
  override_execute true (some execute) other = provided execute
  override_execute _ _ other = other

  merged_tool : Bool → ActivePiToolInfo h → ToolInfo h → Classification → ToolInfo h
  unfolding override_execute
  merged_tool override pi_tool existing classification = record existing {
    description = pi_tool.description;
    parameters = pi_tool.parameters;
    ptc = classification.ptc;
    is_read_only = classification.is_read_only;
    source_info = or_else pi_tool.source_info existing.source_info;
    execute = override_execute override pi_tool.execute existing.execute;
  }

  host_tool : Bool → ActivePiToolInfo h → Classification → ToolInfo h
  unfolding override_execute
  host_tool override pi_tool classification = record {
    name = pi_tool.name;
    description = pi_tool.description;
    parameters = pi_tool.parameters;
    execute = override_execute override pi_tool.execute (unavailable pi_tool.name);
    source = extension;
    source_info = pi_tool.source_info;
    is_read_only = classification.is_read_only;
    ptc = classification.ptc;
    prompt_snippet = none;
    prompt_guidelines = none;
  }

  -- The entry that a tool of the host gets; `none` where the entry stays as it is.
  pub merge_host_tool : Bool → ActivePiToolInfo h → Option (ToolInfo h) → Option (ToolInfo h)
  unfolding merged_tool host_tool
  merge_host_tool override pi_tool none =
      some (host_tool override pi_tool (classify_tool pi_tool.name pi_tool.ptc))
  merge_host_tool override pi_tool (some existing) =
      if is_builtin existing.source && not override
      then none
      else some (
          merged_tool override pi_tool existing
            (classify_tool pi_tool.name (normalize_stored_ptc (or_else pi_tool.ptc existing.ptc))))

  set_entry : Text → Option (ToolInfo h) → Map (ToolInfo h) → Map (ToolInfo h)
  set_entry name none tools = tools
  set_entry name (some tool) tools = Map.set tools name tool

  -- A tool of the host that an extension owned and has removed again.
  pub is_removed : ToolRegistry h → Text → Bool
  is_removed r name =
      includes r.extension_owned_tool_names name && not (Map.has r.custom_tools name)

  add_host_tools :
      ToolRegistry h → List Text → List (ActivePiToolInfo h) → Map (ToolInfo h) → Map (ToolInfo h)
  unfolding set_entry
  add_host_tools r active [] tools = tools
  add_host_tools r active (pi_tool ∷ more) tools = add_host_tools r active more (
      if is_removed r pi_tool.name
      then tools
      else set_entry pi_tool.name
          (merge_host_tool (includes active pi_tool.name) pi_tool (Map.get tools pi_tool.name))
          tools)

  -- The first two rounds of `buildToolMap`: the builtin tools under the extensions' executors. `cwd`
  -- is the directory that `cwd || process.cwd()` gives.
  pub overlaid_tools : ToolRegistry h → Pi h → Text → Logged (Map (ToolInfo h))
  unfolding create_builtin_tools set_by_name overlay_executors
  overlaid_tools r pi cwd =
      let (builtin_tools, log) = create_builtin_tools pi cwd in
      (overlay_executors r.extension_executors (set_by_name (Map.values builtin_tools) []), log)

  unfoldable pub build_tool_map : ToolRegistry h → Pi h → Text → Logged (Map (ToolInfo h))
  unfolding overlaid_tools set_by_name add_host_tools is_removed merge_host_tool
  build_tool_map r pi cwd =
      let (overlaid, log) = overlaid_tools r pi cwd in
      let customised = set_by_name (Map.values r.custom_tools) overlaid in
      (add_host_tools r pi.active_tools pi.all_tools customised, log)

  -- The second result is what the call has logged.
  unfoldable pub get_all_tools : ToolRegistry h → Pi h → Text → Logged (List (ToolInfo h))
  get_all_tools r pi cwd = let (tools, log) = build_tool_map r pi cwd in (Map.values tools, log)
