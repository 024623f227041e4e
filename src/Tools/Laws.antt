-- ===== src/Tools/Laws.antt =====
-- normalizePtcToolOptions of src/contracts/tool-types.ts.
use pi_ptc_advanced.Common.{◌≡◌, ◌↔◌, ◌⊎◌, true, some, none, arith}
use pi_ptc_advanced.Tools.{
  PtcToolOptions, NormalizedPtcToolOptions, read_only, normalize_ptc_tool_options,
}

-- Metadata counts as read-only exactly when it says so by its policy, or by its flag where it names no
-- policy.
pub read_only_iff :
    (p : PtcToolOptions) (n : NormalizedPtcToolOptions)
    → normalize_ptc_tool_options (some p) ≡ some n
    → (n.is_read_only ≡ true)
      ↔ ((p.policy ≡ some read_only) ⊎ ((p.policy ≡ none) × (p.read_only ≡ some true)))
unfolding normalize_ptc_tool_options
read_only_iff p n e = ground arith
