-- ===== src/Utils/Environment/Bounds.antt =====
-- What the settings of `loadSettingsFromEnv`, src/utils.ts, always satisfy.
use pi_ptc_advanced.Common.{
  ltb, if◌then◌else◌, Bool-cases, if-both, length, keep, mem-keep, Text, lit, eq_iff, trim,
  is_empty, truthy, split, includes, mem_of_includes, includes-to_set, ℕ, ◌≤◌, ◌<◌, ◌≡◌, refl, ◌⊎◌,
  inl, inr, true, false, Option, none, some, get_or, List, [], ◌∷◌, map, arith,
}
use pi_ptc_advanced.Common.Distinct.{AreDistinct, to_set-AreDistinct}
use pi_ptc_advanced.Settings.{PtcSettings}
use pi_ptc_advanced.Utils.Environment.{
  Engine, Parsed, not_finite, plus, minus, list_items, parse_list_env, parse_boolean_env, parse_int,
  positive_or, parse_positive_int_env, clamped, parse_clamped_int_env, load_settings_from_env,
}

-- A list of names: given only where it has a name, without repeats, and no name is blank.
pub data IsNameList : Option (List Text) → Type 0 where
  unset : IsNameList none
  names :
      {items : List Text}
      → 0 < length items
      → AreDistinct items
      → ((s : Text) → includes items s ≡ true → truthy s ≡ true)
      → IsNameList (some items)

list_items-truthy : (value s : Text) → includes (list_items value) s ≡ true → truthy s ≡ true
unfolding list_items
list_items-truthy value s e =
    (mem-keep truthy (map trim (split 44 value)) (mem_of_includes _ s (rw includes-to_set at e))).1

parse_list_env-IsNameList : (value : Option Text) → IsNameList (parse_list_env value)
unfolding parse_list_env list_items
parse_list_env-IsNameList none = unset
parse_list_env-IsNameList (some value) =
    if-both IsNameList (is_empty value) unset
      (listed (Bool-cases (ltb 0 (length (list_items value)))))
  where
    listed :
        (ltb 0 (length (list_items value)) ≡ true) ⊎ (ltb 0 (length (list_items value)) ≡ false)
        → IsNameList (if ltb 0 (length (list_items value)) then some (list_items value) else none)
    listed (inl some_items) =
        rw some_items (names (ground arith) distinct (list_items-truthy value))
      where
        distinct : AreDistinct (list_items value)
        distinct = to_set-AreDistinct (keep truthy (map trim (split 44 value)))
    listed (inr no_items) = rw no_items unset

positive_or-pos : (fallback : ℕ) (p : Parsed) → 0 < fallback → 0 < positive_or fallback p
unfolding positive_or
positive_or-pos fallback (plus n) h = ground arith
positive_or-pos fallback p h = h

clamped_bounds :
    (fallback low high : ℕ) (p : Parsed)
    → low ≤ high
    → fallback ≤ high
    → clamped fallback low high p ≤ high
unfolding clamped
clamped_bounds fallback low high not_finite h k = k
clamped_bounds fallback low high (plus n) h k = omega arith
clamped_bounds fallback low high (minus n) h k = omega arith

abbrev pub affirmative : List Text
affirmative = lit "1" ∷ lit "true" ∷ lit "yes" ∷ lit "on" ∷ []

module _ (js : Engine) where
  positive_env-pos :
      (value : Option Text) (fallback : ℕ)
      → 0 < fallback
      → 0 < parse_positive_int_env js value fallback
  unfolding parse_positive_int_env
  positive_env-pos none fallback h = h
  positive_env-pos (some value) fallback h =
      ground (arith, positive_or-pos fallback (parse_int js value) h)

  clamped_env-le :
      (value : Option Text) (fallback low high : ℕ)
      → low ≤ high
      → fallback ≤ high
      → parse_clamped_int_env js value fallback low high ≤ high
  unfolding parse_clamped_int_env
  clamped_env-le none fallback low high h k = k
  clamped_env-le (some value) fallback low high h k =
      ground (arith, clamped_bounds fallback low high (parse_int js value) h k)

  -- A variable that is set to one of the affirmative words, spaces and case aside.
  abbrev pub IsSetOn : Option Text → Type 0
  IsSetOn set_to =
      (value : Text) × (set_to ≡ some value) × (includes affirmative (js.lower (trim value)) ≡ true)

  boolean_env-IsSetOn :
      (set_to : Option Text) → parse_boolean_env js set_to false ≡ true → IsSetOn set_to
  unfolding parse_boolean_env includes
  boolean_env-IsSetOn none e = cc
  boolean_env-IsSetOn (some value) e =
      let w = js.lower (trim value) in
      (
        value,
        refl,
        ground (
          arith,
          eq_iff w (lit "1"),
          eq_iff (lit "1") w,
          eq_iff w (lit "true"),
          eq_iff (lit "true") w,
          eq_iff w (lit "yes"),
          eq_iff (lit "yes") w,
          eq_iff w (lit "on"),
          eq_iff (lit "on") w,
        ),
      )

  pub record IsBounded (env : Text → Option Text) (s : PtcSettings) : Type 0 where
    pub timeout_positive : 0 < s.execution_timeout_ms
    pub output_positive : 0 < s.max_output_chars
    pub parallel_positive : 0 < s.max_parallel_tool_calls
    pub one_recovery : get_or s.auto_recover_max_attempts 2 ≤ 1
    pub trusted_names : IsNameList s.trusted_read_only_tools
    pub callable_names : IsNameList s.callable_tools
    pub blocked_names : IsNameList s.blocked_tools
    pub mutations_asked : s.allow_mutations ≡ true → IsSetOn (env (lit "PTC_ALLOW_MUTATIONS"))
    pub bash_asked : s.allow_bash ≡ true → IsSetOn (env (lit "PTC_ALLOW_BASH"))
    pub unsandboxed_asked :
        s.allow_unsandboxed_subprocess ≡ true
        → IsSetOn (env (lit "PTC_ALLOW_UNSANDBOXED_SUBPROCESS"))

  -- Whatever the environment holds, the timeout, the output limit and the number of parallel calls
  -- are positive, recovery is limited to one attempt, each list of names is absent or has names, none
  -- of them blank or repeated, and mutations, bash and the unsandboxed mode are allowed only where
  -- their own variable is set to an affirmative word.
  pub load_settings-IsBounded :
      (env : Text → Option Text) → IsBounded env (load_settings_from_env js env)
  unfolding load_settings_from_env
  load_settings-IsBounded env = record {
    timeout_positive = positive_env-pos (env (lit "PTC_EXECUTION_TIMEOUT_MS")) 270000 (omega arith);
    output_positive = positive_env-pos (env (lit "PTC_MAX_OUTPUT_CHARS")) 100000 (omega arith);
    parallel_positive = positive_env-pos (env (lit "PTC_MAX_PARALLEL_TOOL_CALLS")) 8 (omega arith);
    one_recovery =
        clamped_env-le (env (lit "PTC_AUTO_RECOVER_MAX_ATTEMPTS")) 1 0 1 (omega arith)
          (omega arith);
    trusted_names = parse_list_env-IsNameList (env (lit "PTC_TRUSTED_READ_ONLY_TOOLS"));
    callable_names = parse_list_env-IsNameList (env (lit "PTC_CALLABLE_TOOLS"));
    blocked_names = parse_list_env-IsNameList (env (lit "PTC_BLOCKED_TOOLS"));
    mutations_asked = boolean_env-IsSetOn (env (lit "PTC_ALLOW_MUTATIONS"));
    bash_asked = boolean_env-IsSetOn (env (lit "PTC_ALLOW_BASH"));
    unsandboxed_asked = boolean_env-IsSetOn (env (lit "PTC_ALLOW_UNSANDBOXED_SUBPROCESS"));
  }
