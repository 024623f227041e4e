-- ===== src/Utils/Environment.antt =====
-- `loadSettingsFromEnv` of src/utils.ts and the parsers of environment variables that it uses.
pub mod Bounds
use Prim.Native.Nat.{min, max}
use pi_ptc_advanced.Common.{
  trim_start, ltb, nat_beq, if◌then◌else◌, length, keep, Text, lit, ◌==◌, trim, is_empty, truthy,
  split, to_set, ℕ, ◌+◌, ◌-◌, ◌*◌, Bool, true, false, ◌||◌, Option, none, some, get_or, List, [],
  ◌∷◌, map,
}
use Prim.Native.Nat.{min, max}
use Prim.Native.Nat.{min, max}
use pi_ptc_advanced.Common.Patterns.{is_digit}
use pi_ptc_advanced.Settings.{PtcSettings}

-- The strings and numbers of the engine: `toLowerCase`, and the number that a decimal integer stands
-- for, `none` where it is infinite.
pub record Engine : Type 0 where
  pub lower : Text → Text
  pub to_number : ℕ → Option ℕ

-- The result of `Number.parseInt`; `minus n` is the number -n.
pub data Parsed : Type 0 where
  not_finite : Parsed
  plus minus : ℕ → Parsed

digits_from : Option ℕ → Text → Option ℕ
digits_from value [] = value
digits_from value (c ∷ s) =
    let more = digits_from (some (get_or value 0 * 10 + (c - 48))) s in
    if is_digit c then more else value

-- `new Set(value.split(",").map(trim).filter(Boolean))`
unfoldable pub list_items : Text → List Text
list_items value = to_set (keep truthy (map trim (split 44 value)))

unfoldable pub parse_list_env : Option Text → Option (List Text)
unfolding list_items
parse_list_env none = none
parse_list_env (some value) =
    if is_empty value
    then none
    else let items = list_items value in if ltb 0 (length items) then some items else none

unfoldable pub positive_or : ℕ → Parsed → ℕ
positive_or fallback (plus n) = if ltb 0 n then n else fallback
positive_or fallback p = fallback

unfoldable pub clamped : ℕ → ℕ → ℕ → Parsed → ℕ
clamped fallback low high not_finite = fallback
clamped fallback low high (plus n) = min high (max low n)
clamped fallback low high (minus n) = min high low

module _ (js : Engine) where
  unfoldable pub parse_boolean_env : Option Text → Bool → Bool
  parse_boolean_env none fallback = fallback
  parse_boolean_env (some value) fallback =
      let normalized = js.lower (trim value) in
      normalized == lit "1"
      || normalized == lit "true"
      || normalized == lit "yes"
      || normalized == lit "on"

  magnitude : (ℕ → Parsed) → Text → Parsed
  unfolding digits_from
  magnitude sign s = elim (digits_from none s) [
    | none ↦ not_finite
    | some n ↦ elim (js.to_number n) [ none ↦ not_finite | some m ↦ sign m ]
  ]

  signed : Text → Parsed
  unfolding magnitude
  signed [] = not_finite
  signed (c ∷ s) =
      if nat_beq c 45
      then magnitude minus s
      else if nat_beq c 43
      then magnitude plus s
      else magnitude plus (c ∷ s)

  -- `Number.parseInt(value, 10)`
  unfoldable pub parse_int : Text → Parsed
  unfolding signed
  parse_int s = signed (trim_start s)

  unfoldable pub parse_positive_int_env : Option Text → ℕ → ℕ
  unfolding positive_or parse_int
  parse_positive_int_env none fallback = fallback
  parse_positive_int_env (some value) fallback =
      if is_empty value then fallback else positive_or fallback (parse_int value)

  unfoldable pub parse_clamped_int_env : Option Text → ℕ → ℕ → ℕ → ℕ
  unfolding clamped parse_int
  parse_clamped_int_env none fallback low high = fallback
  parse_clamped_int_env (some value) fallback low high =
      if is_empty value then fallback else clamped fallback low high (parse_int value)

  -- `env` is `process.env`. The flag `debugLoggingEnabled` is then the field `debug_logging`.
  unfoldable pub load_settings_from_env : (Text → Option Text) → PtcSettings
  unfolding parse_positive_int_env parse_boolean_env parse_clamped_int_env parse_list_env
  load_settings_from_env env = record {
    execution_timeout_ms = parse_positive_int_env (env (lit "PTC_EXECUTION_TIMEOUT_MS")) 270000;
    max_output_chars = parse_positive_int_env (env (lit "PTC_MAX_OUTPUT_CHARS")) 100000;
    allow_mutations = parse_boolean_env (env (lit "PTC_ALLOW_MUTATIONS")) false;
    allow_bash = parse_boolean_env (env (lit "PTC_ALLOW_BASH")) false;
    max_parallel_tool_calls = parse_positive_int_env (env (lit "PTC_MAX_PARALLEL_TOOL_CALLS")) 8;
    use_docker = parse_boolean_env (env (lit "PTC_USE_DOCKER")) false;
    allow_unsandboxed_subprocess =
        parse_boolean_env (env (lit "PTC_ALLOW_UNSANDBOXED_SUBPROCESS")) false;
    debug_logging = parse_boolean_env (env (lit "PTC_DEBUG")) false;
    auto_route = parse_boolean_env (env (lit "PTC_AUTO_ROUTE")) true;
    auto_recover = some (parse_boolean_env (env (lit "PTC_AUTO_RECOVER")) false);
    auto_recover_max_attempts =
        some (parse_clamped_int_env (env (lit "PTC_AUTO_RECOVER_MAX_ATTEMPTS")) 1 0 1);
    trusted_read_only_tools = parse_list_env (env (lit "PTC_TRUSTED_READ_ONLY_TOOLS"));
    callable_tools = parse_list_env (env (lit "PTC_CALLABLE_TOOLS"));
    blocked_tools = parse_list_env (env (lit "PTC_BLOCKED_TOOLS"));
  }
