-- ===== src/Registry/Gaps/Complete.antt =====
-- reportAllowlistGaps of src/tool-registry.ts: every gap is reported, and its reason is true.
use pi_ptc_advanced.Common.{
  not, keep-mem, ◌≡◌, ◌≢◌, ◌⊎◌, refl, inl, inr, Bool, true, false, Option, none, some, List, [],
  ◌∷◌, Text, lit, ◌==◌, eq_iff, eq_refl, includes, includes_of_mem, keep, map, Memᴰ, All, arith,
  Bool-cases, Option-cases, ap,
}
use pi_ptc_advanced.Common.Map
use pi_ptc_advanced.Common.Map.{Map}
use pi_ptc_advanced.Settings.{PtcSettings}
use pi_ptc_advanced.Tools.{Host, ToolInfo, normalize_ptc_tool_options}
use pi_ptc_advanced.Registry.Classify.{is_builtin, tool_allows_code_execution_caller}
use pi_ptc_advanced.Registry.Filter.{is_callable, is_trusted_read_only_custom, passes_filter}
use pi_ptc_advanced.Registry.Gaps.{
  gap_of, allowlist_gaps, reason_of, GapReason, blocked, not_present, bash_disabled,
  missing_callable, callers_exclude, mutating, untrusted, other_policy, collect_gaps,
  present_reason, map_by_name,
}

-- The names that have a gap, in order.
collect_gaps-names :
    (gap : Text → Option GapReason) (test : Text → Bool) (names : List Text)
    → ((name : Text) → (gap name ≡ none) ⊎ (test name ≡ true))
    → ((name : Text) → (test name ≡ false) ⊎ ((r : GapReason) × (gap name ≡ some r)))
    → map (λ (g : Text × GapReason). g.0) (collect_gaps gap names) ≡ keep test names
unfolding collect_gaps
collect_gaps-names gap test [] sound complete = refl
collect_gaps-names gap test (name ∷ names) sound complete =
    ground (arith, sound name, complete name, collect_gaps-names gap test names sound complete)

mem-collect_gaps :
    (gap : Text → Option GapReason) (names : List Text) {name : Text} {r : GapReason}
    → Memᴰ (name, r) (collect_gaps gap names)
    → Memᴰ name names × (gap name ≡ some r)
unfolding collect_gaps
mem-collect_gaps gap [] m = elim m [ ]
mem-collect_gaps gap (n ∷ names) {name} {r} m = elim (Option-cases (gap n)) [
  | inl closed ↦
      let (there, e) = mem-collect_gaps gap names (rw closed at m) in (Memᴰ.tail there, e)
  | inr (q, found) ↦ at_head q found (mem-collect_gaps gap names) (rw found at m)
]
  where
    at_head :
        (q : GapReason)
        → gap n ≡ some q
        → (Memᴰ (name, r) (collect_gaps gap names) → Memᴰ name names × (gap name ≡ some r))
        → Memᴰ (name, r) ((n, q) ∷ collect_gaps gap names)
        → Memᴰ name (n ∷ names) × (gap name ≡ some r)
    at_head q found rest (Memᴰ.head e) =
        let same : name ≡ n = ap (λ (g : Text × GapReason). g.0) e in
        let why : r ≡ q = ap (λ (g : Text × GapReason). g.1) e in
        (Memᴰ.head same, rw (same, why) found)
    at_head q found rest (Memᴰ.tail later) = let (there, e) = rest later in (Memᴰ.tail there, e)

module _ {h : Host} where
  -- What each reason says of a tool that is there.
  abbrev pub Explains : PtcSettings → List Text → GapReason → ToolInfo h → Type 0
  Explains settings trusted bash_disabled tool =
      (tool.name ≡ lit "bash") × (settings.allow_bash ≡ false)
  Explains settings trusted missing_callable tool =
      (is_builtin tool.source ≡ false) × (is_callable (normalize_ptc_tool_options tool.ptc) ≡ false)
  Explains settings trusted callers_exclude tool = tool_allows_code_execution_caller tool ≡ false
  Explains settings trusted mutating tool =
      (settings.allow_mutations ≡ false) × (tool.is_read_only ≡ false)
  Explains settings trusted untrusted tool =
      (settings.allow_mutations ≡ false)
      × (is_builtin tool.source ≡ false)
      × (tool.is_read_only ≡ true)
      × (is_trusted_read_only_custom trusted tool ≡ false)
  Explains settings trusted other_policy tool = tool.name ≡ lit "code_execution"
  Explains settings trusted blocked tool = ⊥
  Explains settings trusted not_present tool = ⊥

  present_reason-Explains :
      (settings : PtcSettings) (allow_set blocked_set trusted : List Text) (tool : ToolInfo h)
      → passes_filter settings (some allow_set) blocked_set trusted tool ≡ false
      → includes allow_set tool.name ≡ true
      → includes blocked_set tool.name ≡ false
      → Explains settings trusted (present_reason settings trusted tool) tool
  unfolding present_reason passes_filter
  present_reason-Explains settings allow_set blocked_set trusted tool e listed free =
      ground (arith, eq_iff tool.name (lit "bash"), eq_iff tool.name (lit "code_execution"))

  -- What the map by name holds comes from the list, or was there before.
  pub get-map_by_name :
      (tools : List (ToolInfo h)) (m : Map (ToolInfo h)) (name : Text) {tool : ToolInfo h}
      → Map.get (map_by_name tools m) name ≡ some tool
      → (Memᴰ tool tools × (tool.name ≡ name)) ⊎ (Map.get m name ≡ some tool)
  unfolding map_by_name
  get-map_by_name [] m name e = inr e
  get-map_by_name (t ∷ ts) m name {tool} e = elim (get-map_by_name ts (Map.set m t.name t) name e) [
    | inl (there, same) ↦ inl (Memᴰ.tail there, same)
    | inr held ↦ elim (Bool-cases (t.name == name)) [
      | inl here ↦
          let found : some t ≡ some tool = ground (arith, Map.get-set m t.name name t) in
          let it : tool ≡ t = cc in inl (Memᴰ.head it, rw it ((eq_iff t.name name).0 here))
      | inr other ↦ inr (ground (arith, Map.get-set m t.name name t))
    ]
  ]

  pub map_by_name-none :
      (tools : List (ToolInfo h)) (m : Map (ToolInfo h)) (name : Text)
      → Map.get (map_by_name tools m) name ≡ none
      → (Map.get m name ≡ none) × All (λ t. t.name ≢ name) tools
  unfolding map_by_name
  map_by_name-none [] m name e = (e, tt)
  map_by_name-none (t ∷ ts) m name e =
      let (before, later) = map_by_name-none ts (Map.set m t.name t) name e in
      ground (arith, Map.get-set m t.name name t, eq_iff t.name name)

  mem_names :
      (tools : List (ToolInfo h)) {tool : ToolInfo h}
      → Memᴰ tool tools
      → includes (map (λ (t : ToolInfo h). t.name) tools) tool.name ≡ true
  unfolding includes
  mem_names [] m = elim m [ ]
  mem_names (t ∷ ts) {tool} (Memᴰ.head e) =
      rw (ap (λ (t : ToolInfo h). t.name) e) (ground (arith, eq_refl t.name))
  mem_names (t ∷ ts) {tool} (Memᴰ.tail m) = ground (arith, mem_names ts m)

  module _ (settings : PtcSettings) (all_tools : List (ToolInfo h))
      (allow_set blocked_set trusted : List Text) where
    abbrev callable_tools : List (ToolInfo h)
    callable_tools = keep (passes_filter settings (some allow_set) blocked_set trusted) all_tools

    -- What a reported gap says of its name.
    abbrev pub IsTrueGap : Text → GapReason → Type 0
    IsTrueGap name blocked = includes blocked_set name ≡ true
    IsTrueGap name not_present = All (λ (t : ToolInfo h). t.name ≢ name) all_tools
    IsTrueGap name reason =
        (tool : ToolInfo h) × Memᴰ tool all_tools
        × (tool.name ≡ name)
        × Explains settings trusted reason tool

    present-IsTrueGap :
        (name : Text) (tool : ToolInfo h) (reason : GapReason)
        → Memᴰ tool all_tools
        → tool.name ≡ name
        → Explains settings trusted reason tool
        → IsTrueGap name reason
    present-IsTrueGap name tool blocked m e x = absurd x
    present-IsTrueGap name tool not_present m e x = absurd x
    present-IsTrueGap name tool reason m e x = (tool, m, e, x)

    uncallable-fails :
        (tool : ToolInfo h)
        → Memᴰ tool all_tools
        → includes (map (λ (t : ToolInfo h). t.name) callable_tools) tool.name ≡ false
        → passes_filter settings (some allow_set) blocked_set trusted tool ≡ false
    uncallable-fails tool m e =
        elim (Bool-cases (passes_filter settings (some allow_set) blocked_set trusted tool)) [
          | inl passes ↦
              let there = mem_names callable_tools (keep-mem _ all_tools m passes) in
              absurd (cc (e, there))
          | inr fails ↦ fails
        ]

    found-IsTrueGap :
        (name : Text) (found : Option (ToolInfo h))
        → includes allow_set name ≡ true
        → includes blocked_set name ≡ false
        → includes (map (λ (t : ToolInfo h). t.name) callable_tools) name ≡ false
        → Map.get (map_by_name all_tools []) name ≡ found
        → IsTrueGap name (reason_of settings trusted found)
    unfolding reason_of
    found-IsTrueGap name none listed free uncallable e = (map_by_name-none all_tools [] name e).1
    found-IsTrueGap name (some tool) listed free uncallable e =
        elim (get-map_by_name all_tools [] name e) [
          | inl (there, same) ↦
              present-IsTrueGap name tool (present_reason settings trusted tool) there same (
                present_reason-Explains settings allow_set blocked_set trusted tool
                  (uncallable-fails tool there (rw same uncallable)) (rw same listed)
                  (rw same free))
          | inr held ↦ absurd (cc (Map.get-empty {V = ToolInfo h} name, held))
        ]

    gap_of-IsTrueGap :
        (name : Text) (reason : GapReason)
        → includes allow_set name ≡ true
        → gap_of settings
            (map (λ (t : ToolInfo h). t.name) callable_tools)
            blocked_set
            trusted
            (map_by_name all_tools [])
            name
          ≡ some reason
        → IsTrueGap name reason
    unfolding gap_of
    gap_of-IsTrueGap name reason listed e =
        elim (Bool-cases (includes (map (λ (t : ToolInfo h). t.name) callable_tools) name)) [
          | inl callable ↦ absurd (ground arith)
          | inr uncallable ↦ elim (Bool-cases (includes blocked_set name)) [
            | inl is_blocked ↦ let why : blocked ≡ reason = ground arith in rw (← why) is_blocked
            | inr free ↦
                let why : reason_of settings trusted (Map.get (map_by_name all_tools []) name)
                    ≡ reason =
                  ground arith in
                rw (← why) (found-IsTrueGap name _ listed free uncallable refl)
          ]
        ]

    -- With the tools that pass the filter as the callable ones, every reported gap names an allowlisted
    -- tool and gives a true reason: the name is blocked, no tool has it, or the tool of that name fails
    -- the policy in just the way the reason says. "Not callable under the current PTC policy" is said of
    -- code_execution alone.
    pub gap-IsTrueGap :
        (name : Text) (reason : GapReason)
        → Memᴰ
            (name, reason)
            (allowlist_gaps settings all_tools callable_tools allow_set blocked_set trusted)
        → Memᴰ name allow_set × IsTrueGap name reason
    unfolding allowlist_gaps
    gap-IsTrueGap name reason m =
        let (listed, e) = mem-collect_gaps _ allow_set m in
        (listed, gap_of-IsTrueGap name reason (includes_of_mem allow_set listed) e)

    gap_of-none_iff :
        (name : Text)
        → (gap_of settings
              (map (λ (t : ToolInfo h). t.name) callable_tools)
              blocked_set
              trusted
              (map_by_name all_tools [])
              name
            ≡ none)
          ⊎ (not (includes (map (λ (t : ToolInfo h). t.name) callable_tools) name) ≡ true)
    unfolding gap_of
    gap_of-none_iff name = ground arith

    gap_of-some_iff :
        (name : Text)
        → (not (includes (map (λ (t : ToolInfo h). t.name) callable_tools) name) ≡ false)
          ⊎ ((r : GapReason) × (gap_of settings
                  (map (λ (t : ToolInfo h). t.name) callable_tools)
                  blocked_set
                  trusted
                  (map_by_name all_tools [])
                  name
                ≡ some r))
    unfolding gap_of
    gap_of-some_iff name =
        elim (Bool-cases (includes (map (λ (t : ToolInfo h). t.name) callable_tools) name)) [
          | inl callable ↦ inl (rw callable)
          | inr uncallable ↦ elim (Bool-cases (includes blocked_set name)) [
            | inl is_blocked ↦ inr (blocked, rw (uncallable, is_blocked))
            | inr free ↦ inr (
              reason_of settings trusted (Map.get (map_by_name all_tools []) name),
              rw (uncallable, free),
            )
          ]
        ]

    -- A gap is reported for exactly the allowlisted names that no callable tool has, in the order of
    -- the allowlist.
    pub gaps_complete :
        map
          (λ (g : Text × GapReason). g.0)
          (allowlist_gaps settings all_tools callable_tools allow_set blocked_set trusted)
        ≡ keep
            (λ name. not (includes (map (λ (t : ToolInfo h). t.name) callable_tools) name))
            allow_set
    unfolding allowlist_gaps
    gaps_complete = collect_gaps-names _ _ allow_set gap_of-none_iff gap_of-some_iff
