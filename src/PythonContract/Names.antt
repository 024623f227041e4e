-- ===== src/PythonContract/Names.antt =====
-- validatePythonHelperNames of src/tools/python-tool-contract.ts.
use pi_ptc_advanced.Common.{
  ◌≡◌, refl, is_some, ◌≢◌, ◌↔◌, inl, inr, true, false, none, List, [], ◌∷◌, Text, truthy, All,
  eq_iff, ok, arith, Option-cases,
}
use pi_ptc_advanced.Common.Map
use pi_ptc_advanced.Common.Map.{Map}
use pi_ptc_advanced.Tools.{Host, ToolInfo}
use pi_ptc_advanced.PythonContract.{
  get_python_helper_name, is_reserved_for_other, existing_tool, validate_names_from,
  validate_python_helper_names,
}

existing_tool-named :
    (seen : Map Text) (k : Text)
    → Map.AllEntries (λ _ name. truthy name ≡ true) seen
    → existing_tool (Map.get seen k) ≡ is_some (Map.get seen k)
existing_tool-named seen k named = elim (Option-cases (Map.get seen k)) [
  | inl e ↦ rw e refl
  | inr (name, e) ↦ rw e (Map.get-AllEntries _ seen k named e)
]

module _ {h : Host} where
  -- The helpers of the list have distinct names, and a reserved name belongs to the tool of that name.
  abbrev pub AreValidNames : List (ToolInfo h) → Type 0
  AreValidNames [] = Unit
  AreValidNames (tool ∷ tools) =
      (is_reserved_for_other (get_python_helper_name tool) tool.name ≡ false)
      × All (λ u. get_python_helper_name tool ≢ get_python_helper_name u) tools
      × AreValidNames tools

  abbrev pub IsNamed : ToolInfo h → Type 0
  IsNamed tool = truthy tool.name ≡ true

  abbrev Unseen : Map Text → List (ToolInfo h) → Type 0
  Unseen seen tools = All (λ u. Map.get seen (get_python_helper_name u) ≡ none) tools

  Unseen-set :
      (seen : Map Text) (k v : Text) (tools : List (ToolInfo h))
      → Unseen (Map.set seen k v) tools
        ↔ (Unseen seen tools × All (λ u. k ≢ get_python_helper_name u) tools)
  Unseen-set seen k v [] = ground arith
  Unseen-set seen k v (u ∷ tools) = ground (
    arith,
    Unseen-set seen k v tools,
    Map.get-set seen k (get_python_helper_name u) v,
    eq_iff k (get_python_helper_name u),
  )

  Unseen-nil : (tools : List (ToolInfo h)) → Unseen [] tools
  Unseen-nil [] = tt
  Unseen-nil (tool ∷ tools) = (Map.get-empty _, Unseen-nil tools)

  validate_from_iff :
      (seen : Map Text) (tools : List (ToolInfo h))
      → Map.AllEntries (λ _ name. truthy name ≡ true) seen
      → All IsNamed tools
      → (validate_names_from seen tools ≡ ok tt) ↔ (Unseen seen tools × AreValidNames tools)
  unfolding validate_names_from
  validate_from_iff seen [] _ _ = ground arith
  validate_from_iff seen (tool ∷ tools) named (n, ns) =
      let p = get_python_helper_name tool in
      let ih =
        validate_from_iff (Map.set seen p tool.name) tools
          (Map.set-AllEntries _ seen p tool.name named n) ns in
      ground (arith, ih, Unseen-set seen p tool.name tools, existing_tool-named seen p named)

  -- For tools with names, the validation passes exactly when the helper names are distinct and no tool
  -- takes a reserved name that is not its own.
  pub validate_python_helper_names_iff :
      (tools : List (ToolInfo h))
      → All IsNamed tools
      → (validate_python_helper_names tools ≡ ok tt) ↔ AreValidNames tools
  unfolding validate_python_helper_names
  validate_python_helper_names_iff tools named =
      let spec = validate_from_iff [] tools tt named in
      (λ e. (spec.0 e).1, λ valid. spec.1 (Unseen-nil tools, valid))

  -- A tool whose name is empty takes a helper name without a trace: the next tool may take it again.
  pub unnamed_tool_repeats :
      (tool other : ToolInfo h)
      → tool.name ≡ []
      → get_python_helper_name tool ≡ get_python_helper_name other
      → is_reserved_for_other (get_python_helper_name tool) tool.name ≡ false
      → is_reserved_for_other (get_python_helper_name other) other.name ≡ false
      → validate_python_helper_names (tool ∷ other ∷ []) ≡ ok tt
  unfolding validate_names_from validate_python_helper_names
  unnamed_tool_repeats tool other unnamed same free other_free = ground (
    arith,
    Map.get-set [] (get_python_helper_name tool) (get_python_helper_name other) tool.name,
    Map.get-empty {V = Text} (get_python_helper_name tool),
    eq_iff (get_python_helper_name tool) (get_python_helper_name other),
  )
