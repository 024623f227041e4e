-- ===== src/Registry/Gaps/Report.antt =====
-- reportAllowlistGaps of src/tool-registry.ts: the registry's tools stay as they are.
use pi_ptc_advanced.Common.{
  ◌≡◌, refl, Bool-cases, inl, inr, Option, none, some, List, [], ◌∷◌, Text, includes, add, ◌++◌,
}
use pi_ptc_advanced.Settings.{PtcSettings}
use pi_ptc_advanced.Tools.{Host, ToolInfo}
use pi_ptc_advanced.Registry.State.{ToolRegistry, warn_callable_policy_once}
use pi_ptc_advanced.Registry.Gaps.{GapReason, warn_of_gaps, report_allowlist_gaps}

module _ {h : Host} where
  -- Only warnings are new.
  abbrev pub HasNewWarnings : ToolRegistry h → ToolRegistry h → Type 0
  HasNewWarnings r r' =
      (warned : List Text) × (log : List Text) × (r'
        ≡ record r { callable_policy_warnings = warned; log = log })

  warn-HasNewWarnings :
      (message : Text) (r : ToolRegistry h) → HasNewWarnings r (warn_callable_policy_once message r)
  unfolding warn_callable_policy_once
  warn-HasNewWarnings message r = elim (Bool-cases (includes r.callable_policy_warnings message)) [
    | inl old ↦ (r.callable_policy_warnings, r.log, rw old)
    | inr new ↦ (add r.callable_policy_warnings message, r.log ++ message ∷ [], rw new)
  ]

  pub report-HasNewWarnings :
      (settings : PtcSettings) (all_tools callable_tools : List (ToolInfo h))
      (allow_set : Option (List Text)) (blocked_set trusted : List Text) (r : ToolRegistry h)
      → HasNewWarnings r
          (report_allowlist_gaps settings all_tools callable_tools allow_set blocked_set trusted r)
  unfolding report_allowlist_gaps
  report-HasNewWarnings settings all_tools callable_tools none blocked_set trusted r =
      (r.callable_policy_warnings, r.log, refl)
  report-HasNewWarnings settings all_tools callable_tools (some allow_set) blocked_set trusted r =
      of_gaps _
    where
      of_gaps : (gaps : List (Text × GapReason)) → HasNewWarnings r (warn_of_gaps gaps r)
      of_gaps [] = (r.callable_policy_warnings, r.log, refl)
      of_gaps (gap ∷ gaps) = warn-HasNewWarnings _ r
