-- ===== src/Registry/Classify/Laws.antt =====
-- What completing a tool's metadata stores, and what it keeps.
use pi_ptc_advanced.Common.{◌≡◌, refl, ◌⊎◌, ◌↔◌, true, Option, none, some, is_some, Text, arith}
use pi_ptc_advanced.Tools.{PtcToolOptions, read_only, normalize_ptc_tool_options}
use pi_ptc_advanced.Registry.Classify.{normalize_stored_ptc, classify_tool}

-- Storing metadata does not change what the policy reads from it: the normal form of the stored
-- metadata is the normal form of what the tool declared.
pub normalize-stored :
    (ptc : Option PtcToolOptions)
    → normalize_ptc_tool_options (normalize_stored_ptc ptc) ≡ normalize_ptc_tool_options ptc
unfolding normalize_ptc_tool_options normalize_stored_ptc
normalize-stored none = refl
normalize-stored (some p) = ground arith

-- Its declared callability, where the tool gives one, else what `enabled` says.
abbrev pub IsDeclaredCallable : PtcToolOptions → Type 0
IsDeclaredCallable p = (p.callable ≡ some true) ⊎ ((p.callable ≡ none) × (p.enabled ≡ some true))

-- Its declared policy, where the tool gives one, else what `readOnly` says.
abbrev pub IsDeclaredReadOnly : PtcToolOptions → Type 0
IsDeclaredReadOnly p = (p.policy ≡ some read_only) ⊎ ((p.policy ≡ none) × (p.read_only ≡ some true))

-- The stored metadata `q` of a tool that declares `p`: the four flags are all given, a flag that the
-- tool gave is kept, and one that it left out follows from the others.
pub record IsStored (p q : PtcToolOptions) : Type 0 where
  pub callable_stored : (q.callable ≡ some true) ↔ IsDeclaredCallable p
  pub callable_given : is_some q.callable ≡ true
  pub enabled_stored :
      (q.enabled ≡ some true)
      ↔ ((p.enabled ≡ some true) ⊎ ((p.enabled ≡ none) × (p.callable ≡ some true)))
  pub enabled_given : is_some q.enabled ≡ true
  pub policy_stored : (q.policy ≡ some read_only) ↔ IsDeclaredReadOnly p
  pub policy_given : is_some q.policy ≡ true
  pub read_only_stored :
      (q.read_only ≡ some true)
      ↔ ((p.read_only ≡ some true) ⊎ ((p.read_only ≡ none) × (p.policy ≡ some read_only)))
  pub read_only_given : is_some q.read_only ≡ true
  pub python_name_kept : q.python_name ≡ p.python_name
  pub exposure_kept : q.default_exposure ≡ p.default_exposure
  pub callers_kept : q.callers ≡ p.callers

-- What the classification of a tool with metadata stores: its callability, whether it is enabled,
-- its policy and whether it is read-only are all given, each as the tool declared it, or where the
-- tool left it out, as it follows from the flag that stands for it; the helper name, exposure and
-- callers are the declared ones. The tool counts as read-only just when its stored flag says so.
pub classify-IsStored :
    (name : Text) (p : PtcToolOptions)
    → (q : PtcToolOptions) × ((classify_tool name (some p)).ptc ≡ some q)
      × IsStored p q
      × (((classify_tool name (some p)).is_read_only ≡ true) ↔ (q.read_only ≡ some true))
unfolding normalize_ptc_tool_options normalize_stored_ptc classify_tool
classify-IsStored name p = (_, refl, ground arith, ground arith)
