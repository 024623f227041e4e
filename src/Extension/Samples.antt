-- ===== src/Extension/Samples.antt =====
-- A session on concrete events.
use pi_ptc_advanced.Common.Map
use pi_ptc_advanced.Common.{
  Text, lit, ◌==◌, trim, trim_start, includes, to_set, ℕ, ◌+◌, ◌≤◌, ◌≡◌, refl, true, none, some,
  List, [], ◌∷◌, ◌++◌, Memᴰ,
}
use pi_ptc_advanced.Common.Patterns.{ascii_lower, contains_word}
use pi_ptc_advanced.Settings.{PtcSettings}
use pi_ptc_advanced.Tools.{ToolInfo, ActivePiToolInfo, normalize_ptc_tool_options}
use pi_ptc_advanced.Registry.Samples.{sample_host, settings_off, sample_registry, sample_factory}
use pi_ptc_advanced.Registry.ToolMap.{get_all_tools, build_tool_map}
use pi_ptc_advanced.Registry.Callable.{get_auto_routable_tool_names, get_callable_tools}
use pi_ptc_advanced.Registry.Classify.{
  classify_tool, normalize_stored_ptc, tool_allows_code_execution_caller, tool_allows_direct_caller,
}
use pi_ptc_advanced.PythonContract.{
  validate_python_helper_names, classify_builtin_tool, get_builtin_tool_contract,
}
use pi_ptc_advanced.Registry.Callable.Laws.{IsPermittedBy}
use pi_ptc_advanced.Utils.Prompts.{is_mutation_prompt}
use pi_ptc_advanced.Extension.State.{World, PtcBeforeAgentStartEvent, succeeded}
use pi_ptc_advanced.Extension.Events.{
  AgentEvent, before_agent_start, context, agent_end, started, finished, handle_events,
}
use pi_ptc_advanced.Extension.Prompts.{handle_before_agent_start}
use pi_ptc_advanced.Extension.Once.{count_attempted, recovery_messages_limited}
use pi_ptc_advanced.Extension.Restore.{prompt_restores_tools}
use pi_ptc_advanced.Extension.Routed.{routed_tools_permitted}
use pi_ptc_advanced.Extension.Quiet.{mutation_prompt_quiet}

session : Unit {0}
unfolding lit ◌==◌ includes to_set trim trim_start Map.get Map.set Map.keys Map.values contains_word
    is_mutation_prompt handle_before_agent_start get_auto_routable_tool_names
session = tt

abbrev code_execution_tool : ActivePiToolInfo sample_host
code_execution_tool = record {
  name = lit "code_execution";
  description = lit "Run Python";
  parameters = 1;
  source_info = none;
  execute = some 9;
  ptc = none;
}

-- read is active, and the settings permit it.
abbrev sample_world : World sample_host
sample_world = record {
  session = record {
    current_cwd = lit "/repo";
    custom_tools_started = true;
    active_tools_before_routing = none;
    pending_recovery_prompt = none;
    recovery_allowed = true;
    recovery_state = none;
  };
  recovery_states = [];
  running = [];
  registry = sample_registry;
  pi = record {
    factory = sample_factory;
    active_tools = lit "read" ∷ [];
    all_tools = code_execution_tool ∷ [];
  };
}

abbrev recovering : PtcSettings
recovering = record settings_off { auto_recover = some true }

abbrev event_of : Text → PtcBeforeAgentStartEvent
event_of prompt = record {
  prompt = some prompt;
  system_prompt = lit "You are an agent.";
  system_prompt_options = record { selected_tools = []; prompt_guidelines = [] };
}

abbrev routing_prompt : Text
routing_prompt = lit "Use code_execution to count"

abbrev sample_events : List (AgentEvent ℕ)
sample_events = started (lit "files = glob('*.ts')") ∷ finished 0 succeeded ∷ context ∷ []

recovery_messages_limited_example :
    count_attempted sample_world.recovery_states
      + (handle_events ascii_lower recovering sample_world sample_events).1
    ≤ count_attempted
        (handle_events ascii_lower recovering sample_world sample_events).0.recovery_states
recovery_messages_limited_example =
    recovery_messages_limited ascii_lower recovering sample_world sample_events refl

prompt_restores_tools_example :
    ((handle_events ascii_lower recovering sample_world (
        before_agent_start (event_of routing_prompt)
        ∷ (sample_events ++ agent_end ∷ []))).0.pi.active_tools
      ≡ sample_world.pi.active_tools)
    × ((handle_events ascii_lower recovering sample_world
          (before_agent_start (event_of routing_prompt) ∷ (sample_events ++ agent_end ∷ []))
            ).0.session.active_tools_before_routing
        ≡ none)
prompt_restores_tools_example =
    prompt_restores_tools ascii_lower recovering sample_world (event_of routing_prompt)
      sample_events refl (tt, (tt, (tt, tt)))

abbrev mutation : Text
mutation = lit "Fix the tests"

mutation_prompt_quiet_example :
    (handle_events ascii_lower recovering sample_world
      (before_agent_start (event_of mutation) ∷ sample_events)).1
    ≡ 0
unfolding session
mutation_prompt_quiet_example =
    mutation_prompt_quiet ascii_lower recovering sample_world (event_of mutation) mutation
      sample_events refl refl (tt, (tt, (tt, tt)))

routed_tools_permitted_example :
    ((tool : ToolInfo sample_host) × Memᴰ tool
        (get_all_tools sample_world.registry sample_world.pi sample_world.session.current_cwd).0
      × (tool.name ≡ lit "read")
      × IsPermittedBy settings_off tool)
    × (includes
          (handle_before_agent_start ascii_lower settings_off sample_world
            (event_of routing_prompt)).0.pi.active_tools
          (lit "code_execution")
        ≡ true)
unfolding session get_callable_tools validate_python_helper_names get_all_tools build_tool_map
    normalize_ptc_tool_options classify_tool normalize_stored_ptc classify_builtin_tool
    get_builtin_tool_contract tool_allows_code_execution_caller tool_allows_direct_caller
routed_tools_permitted_example =
    routed_tools_permitted ascii_lower settings_off sample_world (event_of routing_prompt)
      (lit "read") (Memᴰ.head refl) refl
