-- ===== src/Registry/Callable/Laws.antt =====
-- getCallableTools and getAutoRoutableToolNames of src/tool-registry.ts, from the settings to the
-- tools: which tools are callable, and which names are taken off the active tools by routing.
use pi_ptc_advanced.Common.{
  All-keep, All, ◌≡◌, ◌↔◌, refl, true, Option, none, some, get_or, List, [], Text, includes-to_set,
  to_set, keep-mem, mem-keep, Memᴰ, Result, ok, err, ◌>>◌,
}
use mathlib.Core.Option
use pi_ptc_advanced.Settings.{PtcSettings}
use pi_ptc_advanced.Tools.{Host, ToolInfo}
use pi_ptc_advanced.PythonContract.Names.{AreValidNames, IsNamed, validate_python_helper_names_iff}
use pi_ptc_advanced.Registry.Filter.{passes_filter}
use pi_ptc_advanced.Registry.Filter.Permitted.{IsPermitted, passes_filter_iff}
use pi_ptc_advanced.Registry.State.{ToolRegistry}
use pi_ptc_advanced.Registry.ToolMap.{Pi, get_all_tools}
use pi_ptc_advanced.Registry.Callable.{allow_set_of, filtered_tools, get_callable_tools}

checked-eq-ok {ℓ} :
    {A : Type ℓ} (m : Result (Unit {0})) (a : A) {b : A} → (m >> ok a) ≡ ok b → a ≡ b
checked-eq-ok (ok _) a e = cc
checked-eq-ok (err _) a e = cc

checked-valid {ℓ} :
    {A : Type ℓ} (m : Result (Unit {0})) (a : A) {b : A} → (m >> ok a) ≡ ok b → m ≡ ok tt
checked-valid (ok _) a e = refl
checked-valid (err _) a e = cc

module _ {h : Host} where
  passes_filter-to_set :
      (settings : PtcSettings) (allow : Option (List Text)) (blocked trusted : List Text)
      (tool : ToolInfo h)
      → passes_filter settings (Option.map to_set allow) (to_set blocked) (to_set trusted) tool
        ≡ passes_filter settings allow blocked trusted tool
  unfolding passes_filter
  passes_filter-to_set settings none blocked trusted tool = simp includes-to_set
  passes_filter-to_set settings (some allow) blocked trusted tool = simp includes-to_set

  -- A tool is permitted under the lists that the settings name.
  abbrev pub IsPermittedBy : PtcSettings → ToolInfo h → Type 0
  IsPermittedBy settings tool =
      IsPermitted settings settings.callable_tools (get_or settings.blocked_tools [])
        (get_or settings.trusted_read_only_tools []) tool

  passes-IsPermittedBy_iff :
      (settings : PtcSettings) (tool : ToolInfo h)
      → (passes_filter settings
            (allow_set_of settings)
            (to_set (get_or settings.blocked_tools []))
            (to_set (get_or settings.trusted_read_only_tools []))
            tool
          ≡ true)
        ↔ IsPermittedBy settings tool
  unfolding allow_set_of
  passes-IsPermittedBy_iff settings tool = rw passes_filter-to_set (
      passes_filter_iff settings settings.callable_tools (get_or settings.blocked_tools [])
        (get_or settings.trusted_read_only_tools []) tool)

  mem-filtered_iff :
      (r : ToolRegistry h) (pi : Pi h) (cwd : Text) (settings : PtcSettings) (tool : ToolInfo h)
      → Memᴰ tool (filtered_tools r pi cwd settings)
        ↔ (Memᴰ tool (get_all_tools r pi cwd).0 × IsPermittedBy settings tool)
  unfolding filtered_tools
  mem-filtered_iff r pi cwd settings tool = (
    λ m.
        let (there, passes) = mem-keep _ (get_all_tools r pi cwd).0 m in
        (there, (passes-IsPermittedBy_iff settings tool).0 passes),
    λ (there, permitted).
        keep-mem _ (get_all_tools r pi cwd).0 there
          ((passes-IsPermittedBy_iff settings tool).1 permitted),
  )

  callable-eq-filtered :
      (r : ToolRegistry h) (pi : Pi h) (cwd : Text) (settings : PtcSettings)
      (tools : List (ToolInfo h))
      → (get_callable_tools r pi cwd settings).0 ≡ ok tools
      → filtered_tools r pi cwd settings ≡ tools
  unfolding get_callable_tools
  callable-eq-filtered r pi cwd settings tools e =
      checked-eq-ok _ (filtered_tools r pi cwd settings) e

  -- Where it does not throw, `getCallableTools` returns exactly the tools of the session that the
  -- settings permit.
  pub mem-callable_iff :
      (r : ToolRegistry h) (pi : Pi h) (cwd : Text) (settings : PtcSettings)
      (tools : List (ToolInfo h)) (tool : ToolInfo h)
      → (get_callable_tools r pi cwd settings).0 ≡ ok tools
      → Memᴰ tool tools ↔ (Memᴰ tool (get_all_tools r pi cwd).0 × IsPermittedBy settings tool)
  mem-callable_iff r pi cwd settings tools tool e =
      rw (← callable-eq-filtered r pi cwd settings tools e)
        (mem-filtered_iff r pi cwd settings tool)

  -- The tools that `getCallableTools` returns have distinct Python helper names, none of them reserved
  -- for another tool, provided that no tool of the session has an empty name.
  pub callable-AreValidNames :
      (r : ToolRegistry h) (pi : Pi h) (cwd : Text) (settings : PtcSettings)
      (tools : List (ToolInfo h))
      → All IsNamed (get_all_tools r pi cwd).0
      → (get_callable_tools r pi cwd settings).0 ≡ ok tools
      → AreValidNames tools
  unfolding get_callable_tools filtered_tools
  callable-AreValidNames r pi cwd settings tools named e =
      let same = callable-eq-filtered r pi cwd settings tools e in
      rw (← same) (
        (validate_python_helper_names_iff _ (All-keep IsNamed _ (get_all_tools r pi cwd).0 named)).0
          (checked-valid _ _ e))
