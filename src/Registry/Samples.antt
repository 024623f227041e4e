-- ===== src/Registry/Samples.antt =====
-- The registry on concrete sessions.
use pi_ptc_advanced.Common.{
  ℕ, ◌≡◌, ◌↔◌, refl, true, false, not, ◌||◌, none, some, [], ◌∷◌, Text, lit, ◌==◌, includes, to_set,
  keep, map, Memᴰ, ok, nat_beq, if◌then◌else◌,
}
use pi_ptc_advanced.Common.Map
use pi_ptc_advanced.Settings.{PtcSettings}
use pi_ptc_advanced.Tools.{
  PtcToolOptions, read_only, builtin, Host, provided, ToolInfo, PtcToolDefinition,
  normalize_ptc_tool_options,
}
use pi_ptc_advanced.PythonContract.{
  classify_builtin_tool, get_builtin_tool_contract, validate_python_helper_names,
}
use pi_ptc_advanced.PythonContract.Names.{
  AreValidNames, validate_python_helper_names_iff, unnamed_tool_repeats,
}
use pi_ptc_advanced.Registry.Classify.{
  normalize_stored_ptc, classify_tool, tool_allows_direct_caller, tool_allows_code_execution_caller,
}
use pi_ptc_advanced.Registry.Classify.Laws.{IsStored, classify-IsStored}
use pi_ptc_advanced.Registry.State.{ToolRegistry, create, upsert, remove, changes, remove_tool}
use pi_ptc_advanced.Registry.State.Invariant.{
  IsKeyed, IsWellFormed, nil-IsKeyed, registry-IsWellFormed,
}
use pi_ptc_advanced.Registry.ToolMap.{
  Pi, Created, made, failed, get_all_tools, overlaid_tools, build_tool_map,
}
use pi_ptc_advanced.Registry.ToolMap.Laws.{build_tool_map-IsKeyed}
use pi_ptc_advanced.Registry.ToolMap.Removal.{removed_stays_away}
use pi_ptc_advanced.Registry.Filter.{passes_filter}
use pi_ptc_advanced.Registry.Filter.Permitted.{IsPermitted, passes_filter_iff}
use pi_ptc_advanced.Registry.Gaps.{report_allowlist_gaps, allowlist_gaps, not_present}
use pi_ptc_advanced.Registry.Gaps.Complete.{IsTrueGap, gap-IsTrueGap, gaps_complete}
use pi_ptc_advanced.Registry.Callable.{get_callable_tools, get_auto_routable_tool_names}
use pi_ptc_advanced.Registry.Callable.Laws.{IsPermittedBy, mem-callable_iff, callable-AreValidNames}
use pi_ptc_advanced.Registry.Callable.Routing.{mem-auto_routable}
use pi_ptc_advanced.Registry.Runtime.{Invocation, run_tool}
use pi_ptc_advanced.Registry.Runtime.Laws.{IsCallOf, run_tool-IsCallOf, run_tool-IsPermittedBy}

session : Unit {0}
unfolding lit ◌==◌ includes to_set Map.get Map.set Map.delete Map.keys Map.values
    normalize_ptc_tool_options classify_builtin_tool get_builtin_tool_contract
    validate_python_helper_names normalize_stored_ptc classify_tool tool_allows_direct_caller
    tool_allows_code_execution_caller remove_tool get_all_tools build_tool_map passes_filter
    report_allowlist_gaps get_callable_tools get_auto_routable_tool_names run_tool
session = tt

-- Schemas are numbers, and parameters fit the schema that they are equal to.
abbrev pub sample_host : Host
sample_host = record {
  Schema = ℕ;
  Execute = ℕ;
  SourceInfo = ℕ;
  Params = ℕ;
  empty_object_schema = 0;
  check = nat_beq;
  errors = λ schema params. (lit "/path", lit "Expected string") ∷ [];
}

abbrev undeclared : PtcToolOptions
undeclared = record {
  enabled = none;
  callable = none;
  read_only = none;
  policy = none;
  python_name = none;
  default_exposure = none;
  callers = none;
}

abbrev pub settings_off : PtcSettings
settings_off = record {
  execution_timeout_ms = 270000;
  max_output_chars = 100000;
  allow_mutations = false;
  allow_bash = false;
  max_parallel_tool_calls = 8;
  use_docker = false;
  allow_unsandboxed_subprocess = false;
  debug_logging = false;
  auto_route = true;
  auto_recover = some false;
  auto_recover_max_attempts = some 1;
  trusted_read_only_tools = none;
  callable_tools = none;
  blocked_tools = none;
}

-- Of the factories only those of read and bash work.
abbrev pub sample_factory : Text → Text → Created sample_host
sample_factory name cwd =
    if name == lit "read" || name == lit "bash"
    then made (record {
      name = name;
      description = name;
      parameters = 3;
      source_info = none;
      execute = 4;
    })
    else failed (lit "no such tool")

abbrev pub sample_pi : Pi sample_host
sample_pi = record { factory = sample_factory; active_tools = []; all_tools = [] }

abbrev pub read_tool : ToolInfo sample_host
read_tool = record {
  name = lit "read";
  description = lit "read";
  parameters = 3;
  execute = provided 4;
  source = builtin;
  source_info = none;
  is_read_only = true;
  ptc = none;
  prompt_snippet = none;
  prompt_guidelines = none;
}

abbrev pub sample_registry : ToolRegistry sample_host
sample_registry = record {
  custom_tools = [];
  extension_owned_tool_names = [];
  extension_executors = [];
  callable_policy_warnings = [];
  log = [];
}

-- read is callable by default, bash is not.
callable_run :
    (get_callable_tools sample_registry sample_pi [] settings_off).0 ≡ ok (read_tool ∷ [])
unfolding session
callable_run = refl

routable_run :
    (get_auto_routable_tool_names sample_registry sample_pi [] settings_off).0
    ≡ ok (lit "read" ∷ [])
unfolding session
routable_run = refl

mem-callable_iff_example : Memᴰ read_tool (read_tool ∷ []) ↔ (
    Memᴰ read_tool (get_all_tools sample_registry sample_pi []).0
    × IsPermittedBy settings_off read_tool)
mem-callable_iff_example =
    mem-callable_iff sample_registry sample_pi [] settings_off (read_tool ∷ []) read_tool
      callable_run

callable-AreValidNames_example : AreValidNames (read_tool ∷ [])
unfolding session
callable-AreValidNames_example =
    callable-AreValidNames sample_registry sample_pi [] settings_off (read_tool ∷ [])
      (refl, (refl, tt)) callable_run

mem-auto_routable_example :
    ((tool : ToolInfo sample_host) × Memᴰ tool (get_all_tools sample_registry sample_pi []).0
      × (tool.name ≡ lit "read")
      × (tool_allows_direct_caller tool ≡ true))
    × ((tool : ToolInfo sample_host) × Memᴰ tool (get_all_tools sample_registry sample_pi []).0
        × (tool.name ≡ lit "read")
        × IsPermittedBy settings_off tool)
mem-auto_routable_example =
    mem-auto_routable sample_registry sample_pi [] settings_off (lit "read" ∷ []) (lit "read")
      routable_run (Memᴰ.head refl)

abbrev read_call : Invocation sample_host
read_call = record {
  tool = read_tool;
  tool_call_id = lit "call-1";
  params = 3;
  caller = record { parent_tool_call_id = some (lit "p"); nested_call_id = lit "call-1" };
}

read_run :
    run_tool (read_tool ∷ []) (some (lit "p")) (lit "read") 3 (lit "call-1") (lit "fresh")
    ≡ ok read_call
unfolding session
read_run = refl

run_tool-IsCallOf_example :
    IsCallOf (read_tool ∷ []) (some (lit "p")) (lit "read") 3 (lit "call-1") (lit "fresh") read_call
run_tool-IsCallOf_example =
    run_tool-IsCallOf (read_tool ∷ []) (some (lit "p")) (lit "read") 3 (lit "call-1") (lit "fresh")
      read_call read_run

run_tool-IsPermittedBy_example :
    Memᴰ read_tool (get_all_tools sample_registry sample_pi []).0
    × IsPermittedBy settings_off read_tool
run_tool-IsPermittedBy_example =
    run_tool-IsPermittedBy sample_registry sample_pi [] settings_off (read_tool ∷ [])
      (some (lit "p")) (lit "read") 3 (lit "call-1") (lit "fresh") read_call callable_run read_run

passes_filter_iff_example :
    (passes_filter settings_off none [] [] read_tool ≡ true)
    ↔ IsPermitted settings_off none [] [] read_tool
passes_filter_iff_example = passes_filter_iff settings_off none [] [] read_tool

gaps_run :
    Memᴰ
      (lit "sg", not_present)
      (allowlist_gaps settings_off
        (read_tool ∷ [])
        (read_tool ∷ [])
        (lit "read" ∷ lit "sg" ∷ [])
        []
        [])
unfolding session
gaps_run = Memᴰ.head refl

gap-IsTrueGap_example :
    Memᴰ (lit "sg") (lit "read" ∷ lit "sg" ∷ [])
    × IsTrueGap settings_off
        (read_tool ∷ [])
        (lit "read" ∷ lit "sg" ∷ [])
        []
        []
        (lit "sg")
        not_present
unfolding session
gap-IsTrueGap_example =
    gap-IsTrueGap settings_off (read_tool ∷ []) (lit "read" ∷ lit "sg" ∷ []) [] [] (lit "sg")
      not_present gaps_run

gaps_complete_example :
    map
      (λ g. g.0)
      (allowlist_gaps settings_off
        (read_tool ∷ [])
        (keep (passes_filter settings_off (some (lit "sg" ∷ [])) [] []) (read_tool ∷ []))
        (lit "sg" ∷ [])
        []
        [])
    ≡ keep
        (λ name. not (
          includes
            (map
              (λ (t : ToolInfo sample_host). t.name)
              (keep (passes_filter settings_off (some (lit "sg" ∷ [])) [] []) (read_tool ∷ [])))
            name))
        (lit "sg" ∷ [])
gaps_complete_example = gaps_complete settings_off (read_tool ∷ []) (lit "sg" ∷ []) [] []

abbrev notes_definition : PtcToolDefinition sample_host
notes_definition = record {
  name = lit "notes";
  label = lit "Notes";
  description = lit "notes";
  prompt_snippet = some (lit "notes");
  prompt_guidelines = none;
  parameters = 1;
  execute = 2;
  source_info = none;
  ptc = some undeclared;
}

registry-IsWellFormed_example : IsWellFormed (
    changes
      (upsert notes_definition ∷ remove (lit "other") ∷ [])
      (create {h = sample_host} none false).0)
registry-IsWellFormed_example =
    registry-IsWellFormed none false (upsert notes_definition ∷ remove (lit "other") ∷ [])

sample-IsWellFormed : IsWellFormed sample_registry
sample-IsWellFormed = record { custom = nil-IsKeyed; executors = nil-IsKeyed }

build_tool_map-IsKeyed_example : IsKeyed (build_tool_map sample_registry sample_pi []).0
build_tool_map-IsKeyed_example =
    build_tool_map-IsKeyed sample_registry sample_pi [] sample-IsWellFormed

removed_stays_away_example :
    Map.get
      (build_tool_map (remove_tool (lit "notes") sample_registry).0 sample_pi []).0
      (lit "notes")
    ≡ Map.get (overlaid_tools sample_registry sample_pi []).0 (lit "notes")
removed_stays_away_example =
    removed_stays_away sample_registry sample_pi [] (lit "notes") sample-IsWellFormed

abbrev half_declared : PtcToolOptions
half_declared = record undeclared { enabled = some true; policy = some read_only }

classify-IsStored_example :
    (q : PtcToolOptions) × ((classify_tool (lit "notes") (some half_declared)).ptc ≡ some q)
    × IsStored half_declared q
    × (((classify_tool (lit "notes") (some half_declared)).is_read_only ≡ true)
        ↔ (q.read_only ≡ some true))
classify-IsStored_example = classify-IsStored (lit "notes") half_declared

validate_python_helper_names_iff_example :
    (validate_python_helper_names (read_tool ∷ []) ≡ ok tt) ↔ AreValidNames (read_tool ∷ [])
unfolding lit
validate_python_helper_names_iff_example =
    validate_python_helper_names_iff (read_tool ∷ []) (refl, tt)

-- Both tools take the helper name notes.
unnamed_tool_repeats_example :
    validate_python_helper_names (
      record read_tool {
        name = [];
        ptc = some (record undeclared { python_name = some (lit "notes") });
      }
      ∷ record read_tool { name = lit "notes" }
      ∷ [])
    ≡ ok tt
unfolding session
unnamed_tool_repeats_example =
    unnamed_tool_repeats
      (record read_tool {
        name = [];
        ptc = some (record undeclared { python_name = some (lit "notes") });
      })
      (record read_tool { name = lit "notes" }) refl refl refl refl
