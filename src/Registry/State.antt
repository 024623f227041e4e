-- ===== src/Registry/State.antt =====
-- src/tool-registry.ts: the fields of ToolRegistry, its constructor, ingestExtensionExecutors,
-- upsertTool and removeTool. `log` holds the warnings that the process has emitted.
pub mod Invariant
use pi_ptc_advanced.Common.{
  Bool, true, false, Option, none, some, get_or, List, [], ◌∷◌, ◌++◌, Text, lit, add, includes,
  if◌then◌else◌,
}
use pi_ptc_advanced.Common.Map
use pi_ptc_advanced.Common.Map.{Map}
use pi_ptc_advanced.Tools.{PtcToolOptions, extension, Host, provided, ToolInfo, PtcToolDefinition}
use pi_ptc_advanced.Registry.Classify.{Classification, classify_tool}

pub record ToolRegistry (h : Host) : Type 0 where
  pub custom_tools : Map (ToolInfo h)
  pub extension_owned_tool_names : List Text
  pub extension_executors : Map (ToolInfo h)
  pub callable_policy_warnings : List Text
  pub log : List Text

-- An object of an executor payload; `none` stands for a `name` that is no string or an `execute` that
-- is no function.
pub record ExecutorPayload (h : Host) : Type 0 where
  pub name : Option Text
  pub execute : Option h.Execute
  pub ptc : Option PtcToolOptions
  pub parameters : Option h.Schema

bridge_warning : Text
bridge_warning =
    lit
      "Hashline tool executor bridge started with no pre-emitted executors; builtin fallback remains active until hashline:tool-executors is emitted."

-- The calls that change the registry's tools.
pub data Change (h : Host) : Type 0 where
  upsert : PtcToolDefinition h → Change h
  remove : Text → Change h
  ingest : Option (List (Option (ExecutorPayload h))) → Change h

module _ {h : Host} where
  pub empty_registry : ToolRegistry h
  empty_registry = record {
    custom_tools = [];
    extension_owned_tool_names = [];
    extension_executors = [];
    callable_policy_warnings = [];
    log = [];
  }

  executor_tool : Text → h.Execute → ExecutorPayload h → Classification → ToolInfo h
  executor_tool name execute t classification = record {
    name = name;
    description = [];
    parameters = get_or t.parameters h.empty_object_schema;
    execute = provided execute;
    source = extension;
    source_info = none;
    is_read_only = classification.is_read_only;
    ptc = classification.ptc;
    prompt_snippet = none;
    prompt_guidelines = none;
  }

  -- One round of the loop of `ingestExtensionExecutors`; `none` is an entry that is no object.
  ingest_payload :
      Option Text → Option h.Execute → ExecutorPayload h → Map (ToolInfo h) → Map (ToolInfo h)
  unfolding executor_tool
  ingest_payload (some name) (some execute) t executors =
      Map.set executors name (executor_tool name execute t (classify_tool name t.ptc))
  ingest_payload _ _ t executors = executors

  ingest_entry : Option (ExecutorPayload h) → Map (ToolInfo h) → Map (ToolInfo h)
  unfolding ingest_payload
  ingest_entry none executors = executors
  ingest_entry (some t) executors = ingest_payload t.name t.execute t executors

  ingest_entries : List (Option (ExecutorPayload h)) → Map (ToolInfo h) → Map (ToolInfo h)
  ingest_entries [] executors = executors
  ingest_entries (e ∷ es) executors = ingest_entries es (ingest_entry e executors)

  -- `none` is a payload that is no object.
  pub ingest_extension_executors :
      Option (List (Option (ExecutorPayload h))) → ToolRegistry h → ToolRegistry h
  unfolding ingest_entry ingest_entries
  ingest_extension_executors none r = r
  ingest_extension_executors (some entries) r = record r {
    extension_executors = ingest_entries entries r.extension_executors;
  }

  -- The constructor: `pre_emitted` is the global, if it is set, and `warned` whether the flag of the
  -- environment is "1"; the second result is the flag afterwards. Later payloads of the event bus
  -- come to `ingest_extension_executors`.
  pub create : Option (Option (List (Option (ExecutorPayload h)))) → Bool → ToolRegistry h × Bool
  unfolding ingest_extension_executors empty_registry bridge_warning
  create (some payload) warned = (ingest_extension_executors payload empty_registry, warned)
  create none true = (empty_registry, true)
  create none false = (record empty_registry { log = bridge_warning ∷ [] }, true)

  custom_tool : PtcToolDefinition h → Classification → ToolInfo h
  custom_tool tool classification = record {
    name = tool.name;
    description = tool.description;
    parameters = tool.parameters;
    execute = provided tool.execute;
    source = extension;
    source_info = tool.source_info;
    is_read_only = classification.is_read_only;
    ptc = classification.ptc;
    prompt_snippet = none;
    prompt_guidelines = none;
  }

  unfoldable pub upsert_tool : PtcToolDefinition h → ToolRegistry h → ToolRegistry h
  unfolding custom_tool
  upsert_tool tool r = record r {
    extension_owned_tool_names = add r.extension_owned_tool_names tool.name;
    custom_tools =
        Map.set r.custom_tools tool.name (custom_tool tool (classify_tool tool.name tool.ptc));
  }

  -- The second result is what `removeTool` returns: whether the tool was there.
  unfoldable pub remove_tool : Text → ToolRegistry h → ToolRegistry h × Bool
  remove_tool name r = (
    record r {
      extension_owned_tool_names = add r.extension_owned_tool_names name;
      custom_tools = Map.delete r.custom_tools name;
    },
    Map.has r.custom_tools name,
  )

  -- `warnCallablePolicyOnce`
  unfoldable pub warn_callable_policy_once : Text → ToolRegistry h → ToolRegistry h
  warn_callable_policy_once message r =
      if includes r.callable_policy_warnings message then r else record r {
        callable_policy_warnings = add r.callable_policy_warnings message;
        log = r.log ++ message ∷ [];
      }

  pub change : Change h → ToolRegistry h → ToolRegistry h
  unfolding upsert_tool remove_tool ingest_extension_executors
  change (upsert tool) r = upsert_tool tool r
  change (remove name) r = (remove_tool name r).0
  change (ingest payload) r = ingest_extension_executors payload r

  pub changes : List (Change h) → ToolRegistry h → ToolRegistry h
  unfolding change
  changes [] r = r
  changes (c ∷ cs) r = changes cs (change c r)
