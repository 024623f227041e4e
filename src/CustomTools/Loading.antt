-- ===== src/CustomTools/Loading.antt =====
-- src/custom-tool-manager.ts: the tool that a file defines.
use pi_ptc_advanced.Common.{
  if◌then◌else◌, length, keep, Result, ok, err, settle, Text, lit, ◌==◌, is_empty, show_ℕ, Bool,
  ◌||◌, Option, none, some, List, [], ◌∷◌, ◌++◌,
}
use pi_ptc_advanced.Tools.{Host, PtcToolOptions, PtcToolDefinition}

-- `mod.default || mod` where it is an object and no array; a field is `none` where it has not the
-- type that the code tests for.
pub record Candidate (h : Host) : Type 0 where
  pub name : Option Text
  pub label : Option Text
  pub description : Option Text
  pub prompt_snippet : Option Text
  pub prompt_guidelines : Option (List Text)
  pub parameters : Option h.Schema
  pub execute : Option h.Execute
  pub ptc : Option PtcToolOptions

-- What `import` of a tool file gives.
pub data Imported (h : Host) : Type 0 where
  import_threw : Text → Imported h
  no_object : Imported h
  exported : Candidate h → Imported h

pub record LoadedTool (h : Host) : Type 0 where
  pub filename : Text
  pub tool : PtcToolDefinition h

-- `a || b`
abbrev pub or_name : Option Text → Text → Text
or_name none name = name
or_name (some text) name = if is_empty text then name else text

-- `text.endsWith(suffix)`
unfoldable pub ends_with : Text → Text → Bool
ends_with suffix [] = is_empty suffix
ends_with suffix (c ∷ s) = suffix == c ∷ s || ends_with suffix s

unfoldable pub is_tool_file : Text → Bool
unfolding ends_with
is_tool_file filename = ends_with (lit ".js") filename

module _ {h : Host} where
  unfoldable pub build_registered_tool :
      Text → h.Execute → h.Schema → Candidate h → PtcToolDefinition h
  build_registered_tool name execute parameters definition = record {
    name = name;
    label = or_name definition.label name;
    description = or_name definition.description name;
    prompt_snippet = definition.prompt_snippet;
    prompt_guidelines = definition.prompt_guidelines;
    parameters = parameters;
    execute = execute;
    source_info = none;
    ptc = definition.ptc;
  }

  unfoldable pub invalid_tool_file : Text → Result (LoadedTool h)
  invalid_tool_file filename = err (
      lit "Invalid tool file "
      ++ (filename ++ lit ": missing required fields (name, execute, parameters)"))

  -- `isCustomToolDefinition` and what follows it.
  unfoldable pub from_fields :
      Text → Option Text → Option h.Execute → Option h.Schema → Candidate h → Result (LoadedTool h)
  unfolding build_registered_tool invalid_tool_file
  from_fields filename (some name) (some execute) (some parameters) definition = ok (record {
    filename = filename;
    tool = build_registered_tool name execute parameters definition;
  })
  from_fields filename _ _ _ definition = invalid_tool_file filename

  unfoldable pub load_custom_tool_file : Text → Imported h → Result (LoadedTool h)
  unfolding from_fields invalid_tool_file
  load_custom_tool_file filename (import_threw message) = err message
  load_custom_tool_file filename no_object = invalid_tool_file filename
  load_custom_tool_file filename (exported definition) =
      from_fields filename definition.name definition.execute definition.parameters definition

  -- The loop of `loadCustomToolsFromDir`: the tools and the messages of the errors.
  load_each : (Text → Imported h) → List Text → List (LoadedTool h) × List Text
  unfolding load_custom_tool_file
  load_each import [] = ([], [])
  load_each import (filename ∷ filenames) =
      let (tools, errors) = load_each import filenames in
      settle (λ loaded. (loaded ∷ tools, errors)) (λ message. (tools, message ∷ errors))
        (load_custom_tool_file filename (import filename))

  all_loaded : List (LoadedTool h) × List Text → Result (List (LoadedTool h))
  unfolding show_ℕ
  all_loaded (tools, []) = ok tools
  all_loaded (tools, e ∷ es) =
      err (lit "Failed to load " ++ (show_ℕ (length (e ∷ es)) ++ lit " custom tool(s)"))

  -- `none` is a directory that does not exist; otherwise its files.
  unfoldable pub load_custom_tools_from_dir :
      (Text → Imported h) → Option (List Text) → Result (List (LoadedTool h))
  unfolding load_each all_loaded is_tool_file
  load_custom_tools_from_dir import none = ok []
  load_custom_tools_from_dir import (some entries) =
      all_loaded (load_each import (keep is_tool_file entries))
