-- ===== src/Registry/Classify.antt =====
-- src/tool-registry.ts: how the registry completes a tool's metadata and whom it lets call the tool.
pub mod Laws
use pi_ptc_advanced.Common.{
  Bool, true, false, ◌||◌, Option, none, some, get_or, or_else, is_true, List, [], ◌∷◌, Text, lit,
  ◌==◌, any, if◌then◌else◌,
}
use pi_ptc_advanced.Tools.{
  PtcToolOptions, NormalizedPtcToolOptions, PtcCaller, direct, code_execution, ToolSource, builtin,
  alias, extension, Host, ToolInfo, normalize_ptc_tool_options,
}
use pi_ptc_advanced.PythonContract.{classify_builtin_tool}

stored : PtcToolOptions → NormalizedPtcToolOptions → PtcToolOptions
stored ptc normalized = record ptc {
  enabled = some (get_or ptc.enabled normalized.callable);
  callable = some normalized.callable;
  read_only = some (get_or ptc.read_only normalized.is_read_only);
  policy = some normalized.execution_policy;
  python_name = normalized.python_name;
  default_exposure = or_else ptc.default_exposure normalized.default_exposure;
}

with_normalized : Option PtcToolOptions → Option NormalizedPtcToolOptions → Option PtcToolOptions
with_normalized none n = none
with_normalized (some ptc) none = some ptc
with_normalized (some ptc) (some normalized) = some (stored ptc normalized)

unfoldable pub normalize_stored_ptc : Option PtcToolOptions → Option PtcToolOptions
unfolding stored with_normalized
normalize_stored_ptc ptc = with_normalized ptc (normalize_ptc_tool_options ptc)

pub record Classification : Type 0 where
  pub is_read_only : Bool
  pub ptc : Option PtcToolOptions

classified : Text → Option PtcToolOptions → Option PtcToolOptions → Classification
classified name ptc none = record { is_read_only = classify_builtin_tool name ptc; ptc = ptc }
classified name ptc (some normalized) = record {
  is_read_only = is_true normalized.read_only;
  ptc = some normalized;
}

unfoldable pub classify_tool : Text → Option PtcToolOptions → Classification
unfolding classified
classify_tool name ptc = classified name ptc (normalize_stored_ptc ptc)

abbrev pub is_builtin : ToolSource → Bool
is_builtin builtin = true
is_builtin alias = true
is_builtin extension = false

abbrev same_caller : PtcCaller → PtcCaller → Bool
same_caller direct direct = true
same_caller code_execution code_execution = true
same_caller _ _ = false

configured_callers : Option PtcToolOptions → Option (List PtcCaller)
configured_callers none = none
configured_callers (some ptc) = ptc.callers

enabled_option : Option PtcToolOptions → Option Bool
enabled_option none = none
enabled_option (some ptc) = ptc.enabled

module _ {h : Host} where
  default_callers : ToolInfo h → List PtcCaller
  unfolding enabled_option
  default_callers tool =
      if tool.name == lit "code_execution"
      then direct ∷ []
      else if is_builtin tool.source
      then direct ∷ code_execution ∷ []
      else if is_true (enabled_option tool.ptc)
      then direct ∷ code_execution ∷ []
      else direct ∷ []

  callers_or : Option (List PtcCaller) → ToolInfo h → List PtcCaller
  callers_or none tool = default_callers tool
  callers_or (some []) tool = default_callers tool
  callers_or (some (c ∷ cs)) tool = c ∷ cs

  unfoldable pub get_configured_callers : ToolInfo h → List PtcCaller
  unfolding configured_callers default_callers callers_or
  get_configured_callers tool = callers_or (configured_callers tool.ptc) tool

  unfoldable pub tool_allows_direct_caller : ToolInfo h → Bool
  unfolding get_configured_callers
  tool_allows_direct_caller tool = any (same_caller direct) (get_configured_callers tool)

  unfoldable pub tool_allows_code_execution_caller : ToolInfo h → Bool
  unfolding get_configured_callers
  tool_allows_code_execution_caller tool =
      any (same_caller code_execution) (get_configured_callers tool)
