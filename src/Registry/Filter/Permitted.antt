-- ===== src/Registry/Filter/Permitted.antt =====
-- What the filter of getCallableTools lets through, said without its order of tests.
use pi_ptc_advanced.Common.{
  ◌≡◌, refl, ◌≢◌, ◌↔◌, ◌⊎◌, inl, inr, true, false, Option, none, some, List, Text, lit, eq_iff,
  includes, arith,
}
use pi_ptc_advanced.Settings.{PtcSettings}
use pi_ptc_advanced.Tools.{NormalizedPtcToolOptions, Host, ToolInfo, normalize_ptc_tool_options}
use pi_ptc_advanced.Registry.Classify.{is_builtin, tool_allows_code_execution_caller}
use pi_ptc_advanced.Registry.Filter.{
  is_callable, is_read_only_callable, is_opt_in, outside, not_listed, is_trusted_read_only_custom,
  is_blocked_mutation, passes_filter,
}

-- The allowlist names the tool; without a list nothing is named.
abbrev pub IsListed : Option (List Text) → Text → Type 0
IsListed none name = ⊥
IsListed (some allow_set) name = includes allow_set name ≡ true

IsListed-of_inside :
    (allow_set : Option (List Text)) (name : Text)
    → outside allow_set name ≡ false
    → (allow_set ≡ none) ⊎ IsListed allow_set name
IsListed-of_inside none name e = inl refl
IsListed-of_inside (some allow_set) name e = ground arith

not_listed_iff :
    (allow_set : Option (List Text)) (name : Text)
    → (not_listed allow_set name ≡ false) ↔ IsListed allow_set name
not_listed_iff none name = ground arith
not_listed_iff (some allow_set) name = ground arith

outside-IsListed :
    (allow_set : Option (List Text)) (name : Text)
    → (allow_set ≡ none) ⊎ IsListed allow_set name
    → outside allow_set name ≡ false
outside-IsListed none name h = refl
outside-IsListed (some allow_set) name h = ground arith

read_only_callable_iff :
    (ptc : Option NormalizedPtcToolOptions)
    → (is_read_only_callable ptc ≡ true) ↔ (
        (n : NormalizedPtcToolOptions) × (ptc ≡ some n)
        × (n.callable ≡ true)
        × (n.is_read_only ≡ true))
read_only_callable_iff none = (λ e. cc, λ n. ground arith)
read_only_callable_iff (some n) =
    (λ e. (n, refl, ground arith, ground arith), λ (m, same, c, r). ground arith)

module _ {h : Host} where
  -- A custom tool that declares itself callable and read-only, and that the user trusts by name.
  abbrev pub IsTrusted : List Text → ToolInfo h → Type 0
  IsTrusted trusted tool =
      (is_builtin tool.source ≡ false)
      × (includes trusted tool.name ≡ true)
      × ((n : NormalizedPtcToolOptions) × (normalize_ptc_tool_options tool.ptc ≡ some n)
          × (n.callable ≡ true)
          × (n.is_read_only ≡ true))

  pub record IsPermitted (settings : PtcSettings) (allow_set : Option (List Text))
      (blocked trusted : List Text) (tool : ToolInfo h) : Type 0 where
    pub not_itself : tool.name ≢ lit "code_execution"
    pub not_blocked : includes blocked tool.name ≡ false
    pub in_allowlist : (allow_set ≡ none) ⊎ IsListed allow_set tool.name
    pub bash_allowed : tool.name ≡ lit "bash" → settings.allow_bash ≡ true
    pub opted_in :
        is_opt_in (normalize_ptc_tool_options tool.ptc) ≡ true → IsListed allow_set tool.name
    pub safe :
        settings.allow_mutations ≡ false
        → ((is_builtin tool.source ≡ true) × (tool.is_read_only ≡ true)) ⊎ IsTrusted trusted tool
    pub caller : tool_allows_code_execution_caller tool ≡ true
    pub exposed :
        (is_builtin tool.source ≡ true) ⊎ (is_callable (normalize_ptc_tool_options tool.ptc) ≡ true)

  IsTrusted-iff :
      (trusted : List Text) (tool : ToolInfo h)
      → (is_trusted_read_only_custom trusted tool ≡ true) ↔ IsTrusted trusted tool
  IsTrusted-iff trusted tool =
      let declared = read_only_callable_iff (normalize_ptc_tool_options tool.ptc) in
      (
        λ e. (ground arith, ground arith, declared.0 (ground arith)),
        λ (custom, named, n). let reads = declared.1 n in ground arith,
      )

  blocked_mutation_iff :
      (settings : PtcSettings) (trusted : List Text) (tool : ToolInfo h)
      → (is_blocked_mutation settings trusted tool ≡ false) ↔ (
          settings.allow_mutations ≡ false
          → ((is_builtin tool.source ≡ true) × (tool.is_read_only ≡ true))
            ⊎ (is_trusted_read_only_custom trusted tool ≡ true))
  blocked_mutation_iff settings trusted tool = ground arith

  passes-IsPermitted :
      (settings : PtcSettings) (allow_set : Option (List Text)) (blocked trusted : List Text)
      (tool : ToolInfo h)
      → passes_filter settings allow_set blocked trusted tool ≡ true
      → IsPermitted settings allow_set blocked trusted tool
  unfolding passes_filter
  passes-IsPermitted settings allow_set blocked trusted tool e = record {
    not_itself = ground (arith, eq_iff tool.name (lit "code_execution"));
    not_blocked = ground arith;
    in_allowlist = IsListed-of_inside allow_set tool.name (ground arith);
    bash_allowed = ground (arith, eq_iff tool.name (lit "bash"));
    opted_in = λ opt. (not_listed_iff allow_set tool.name).0 (ground arith);
    safe = λ off. is_safe off;
    caller = ground arith;
    exposed = ground arith;
  }
    where
      is_safe :
          settings.allow_mutations ≡ false
          → ((is_builtin tool.source ≡ true) × (tool.is_read_only ≡ true)) ⊎ IsTrusted trusted tool
      is_safe off = elim ((blocked_mutation_iff settings trusted tool).0 (ground arith) off) [
        | inl built ↦ inl built
        | inr t ↦ inr ((IsTrusted-iff trusted tool).0 t)
      ]

  IsPermitted-passes :
      (settings : PtcSettings) (allow_set : Option (List Text)) (blocked trusted : List Text)
      (tool : ToolInfo h)
      → IsPermitted settings allow_set blocked trusted tool
      → passes_filter settings allow_set blocked trusted tool ≡ true
  unfolding passes_filter
  IsPermitted-passes settings allow_set blocked trusted tool p = ground (
    arith,
    eq_iff tool.name (lit "code_execution"),
    eq_iff tool.name (lit "bash"),
    p.not_itself,
    p.not_blocked,
    outside-IsListed allow_set tool.name p.in_allowlist,
    p.bash_allowed,
    listed,
    unblocked,
    p.caller,
    p.exposed,
  )
    where
      listed :
          is_opt_in (normalize_ptc_tool_options tool.ptc) ≡ true
          → not_listed allow_set tool.name ≡ false
      listed opt = (not_listed_iff allow_set tool.name).1 (p.opted_in opt)

      unblocked : is_blocked_mutation settings trusted tool ≡ false
      unblocked = (blocked_mutation_iff settings trusted tool).1 λ off. elim (p.safe off) [
        | inl built ↦ inl built
        | inr t ↦ inr ((IsTrusted-iff trusted tool).1 t)
      ]

  -- The filter passes exactly the permitted tools: not code_execution itself, not blocked, in the
  -- allowlist if there is one, bash only where it is allowed, an opt-in tool only if it is listed, with
  -- mutations off only builtin read-only tools and trusted read-only custom ones, callable by
  -- code_execution, and builtin or declared callable.
  pub passes_filter_iff :
      (settings : PtcSettings) (allow_set : Option (List Text)) (blocked trusted : List Text)
      (tool : ToolInfo h)
      → (passes_filter settings allow_set blocked trusted tool ≡ true)
        ↔ IsPermitted settings allow_set blocked trusted tool
  passes_filter_iff settings allow_set blocked trusted tool = (
    passes-IsPermitted settings allow_set blocked trusted tool,
    IsPermitted-passes settings allow_set blocked trusted tool,
  )
