-- ===== src/Evals/Rules.antt =====
-- src/benchmark-runner.ts: the rules of an evaluation case, texts `key=value`, and their evaluation.
pub mod Parsing
use pi_ptc_advanced.Common.{
  nat_beq, if◌then◌else◌, take, drop, Result, ok, err, Text, lit, ◌==◌, trim, is_empty, ℕ, suc,
  Bool, true, false, not, ◌||◌, Option, none, some, List, [], ◌∷◌,
}
use pi_ptc_advanced.Json.{Value}
use pi_ptc_advanced.Recovery.{RecoveryFailureClass, missing_await, async_wrapper_iterated}

pub data ExpectedFirstPath : Type 0 where
  code_execution direct : ExpectedFirstPath

pub data ObservedFirstPath : Type 0 where
  code_execution_seen direct_seen none_seen : ObservedFirstPath

pub record BenchmarkResult : Type 0 where
  pub case_id : Text
  pub provider : Text
  pub model : Text
  pub expected_first_path : ExpectedFirstPath
  pub observed_first_path : ObservedFirstPath
  pub success : Bool
  pub recovery_attempted : Bool
  pub failure_class : Option RecoveryFailureClass
  pub total_tokens : ℕ
  pub duration_ms : ℕ

pub record RuleExpectation : Type 0 where
  pub key : Text
  pub value : Text

unfoldable pub expected_text : ExpectedFirstPath → Text
expected_text code_execution = lit "code_execution"
expected_text direct = lit "direct"

unfoldable pub observed_text : ObservedFirstPath → Text
observed_text code_execution_seen = lit "code_execution"
observed_text direct_seen = lit "direct"
observed_text none_seen = lit "none"

unfoldable pub failure_text : RecoveryFailureClass → Text
failure_text missing_await = lit "missing-await"
failure_text async_wrapper_iterated = lit "async-wrapper-iterated"

-- `text.indexOf(c)` of a character, from a place on.
abbrev pub index_from : ℕ → ℕ → Text → Option ℕ
index_from place c [] = none
index_from place c (d ∷ s) =
    let rest = index_from (suc place) c s in if nat_beq c d then some place else rest

unfoldable pub expectation : Text → Text → Option RuleExpectation
expectation key value =
    if is_empty key || is_empty value then none else some (record { key = key; value = value })

unfoldable pub expectation_at : Text → Option ℕ → Option RuleExpectation
unfolding expectation
expectation_at rule none = none
expectation_at rule (some equals_index) =
    expectation (trim (take equals_index rule)) (trim (drop (suc equals_index) rule))

unfoldable pub parse_rule_expectation : Text → Option RuleExpectation
unfolding expectation_at
parse_rule_expectation rule = expectation_at rule (index_from 0 61 rule)

-- `parsed?.key === key`
abbrev pub has_key : Text → Option RuleExpectation → Bool
has_key key none = false
has_key key (some e) = e.key == key

abbrev pub value_of : Option RuleExpectation → Option Text
value_of none = none
value_of (some e) = some e.value

unfoldable pub get_rule_expectation : List Text → Text → Option Text
unfolding parse_rule_expectation
get_rule_expectation [] key = none
get_rule_expectation (rule ∷ rules) key =
    let rest = get_rule_expectation rules key in
    if has_key key (parse_rule_expectation rule)
    then value_of (parse_rule_expectation rule)
    else rest

unfoldable pub parse_boolean_text : Text → Option Bool
parse_boolean_text value =
    if value == lit "true" then some true else if value == lit "false" then some false else none

-- `parseBoolean`
unfoldable pub parse_boolean : Option Text → Option Bool
unfolding parse_boolean_text
parse_boolean none = none
parse_boolean (some value) = parse_boolean_text value

unfoldable pub parse_failure_class : Option Text → Option RecoveryFailureClass
parse_failure_class none = none
parse_failure_class (some value) =
    if value == lit "missing-await"
    then some missing_await
    else if value == lit "async-wrapper-iterated"
    then some async_wrapper_iterated
    else none

-- `expected !== undefined && actual === expected`
unfoldable pub is_expected : Bool → Option Bool → Bool
is_expected actual none = false
is_expected true (some expected) = expected
is_expected false (some expected) = not expected

unfoldable pub class_text : Option RecoveryFailureClass → Text
unfolding failure_text
class_text none = lit "null"
class_text (some c) = failure_text c

abbrev pub is_ok {ℓ} : {A : Type ℓ} → Result A → Bool
is_ok (ok v) = true
is_ok (err why) = false

module _ {N : Type 0} (parse_json : Text → Result (Value N)) where
  unfoldable pub is_json_output : Option Bool → Option Text → Bool
  is_json_output (some true) (some output) = is_ok (parse_json output)
  is_json_output _ _ = false

  unfoldable pub evaluate_key : Text → Text → BenchmarkResult → Option Text → Bool
  unfolding parse_boolean_text is_expected is_json_output observed_text class_text
  evaluate_key key value result output =
      if key == lit "observed_first_path"
      then observed_text result.observed_first_path == value
      else if key == lit "success"
      then is_expected result.success (parse_boolean_text value)
      else if key == lit "recovery_attempted"
      then is_expected result.recovery_attempted (parse_boolean_text value)
      else if key == lit "failure_class"
      then class_text result.failure_class == value
      else if key == lit "output_json"
      then is_json_output (parse_boolean_text value) output
      else false

  unfoldable pub evaluate_expectation :
      Option RuleExpectation → BenchmarkResult → Option Text → Bool
  unfolding evaluate_key
  evaluate_expectation none result output = false
  evaluate_expectation (some e) result output = evaluate_key e.key e.value result output

  unfoldable pub evaluate_rule : Text → BenchmarkResult → Option Text → Bool
  unfolding parse_rule_expectation evaluate_expectation
  evaluate_rule rule result output =
      evaluate_expectation (parse_rule_expectation rule) result output
