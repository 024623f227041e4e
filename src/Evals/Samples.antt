-- ===== src/Evals/Samples.antt =====
-- The benchmark on concrete cases.
use pi_ptc_advanced.Common.Map
use pi_ptc_advanced.Common.{
  ltb, length, every, All, Text, lit, ◌==◌, trim, trim_start, ℕ, ◌≤◌, ◌≡◌, refl, ◌↔◌, inl, inr,
  true, false, ◌||◌, none, some, List, [], ◌∷◌, Memᴰ,
}
use pi_ptc_advanced.Json.{Value, string, object, end, field}
use pi_ptc_advanced.Json.Sample.{sample_json}
use pi_ptc_advanced.Common.Patterns.{ascii_lower, starts_with}
use pi_ptc_advanced.Evals.Case.{Numbers, validate_eval_case}
use pi_ptc_advanced.Evals.Case.Laws.{IsEvalCase, validate_eval_case_iff}
use pi_ptc_advanced.Evals.Rules.{
  RuleExpectation, BenchmarkResult, code_execution, code_execution_seen, direct_seen,
  parse_rule_expectation,
}
use pi_ptc_advanced.Evals.Rules.Parsing.{show_expectation, parse_rule-show}
use pi_ptc_advanced.Evals.Benchmark.{
  EvalCase, BenchmarkObservation, BenchmarkRuleOutcome, BenchmarkResultRecord, BenchmarkRun,
  is_success_rule, build_benchmark_result_record, compare_benchmark_runs, results_by_case_id,
  run_benchmark_suite,
}
use pi_ptc_advanced.Evals.Benchmark.Records.{record_success, spaced_success_rule_fails}
use pi_ptc_advanced.Evals.Benchmark.Compare.{IsNoWorse, compare_benchmark_runs_iff}
use pi_ptc_advanced.Evals.Slug.{is_slug_character, get_provider_model_slug}
use pi_ptc_advanced.Evals.Slug.Characters.{get_provider_model_slug-IsSlug}
use pi_ptc_advanced.Evals.Arguments.{parse_cli_args}
use pi_ptc_advanced.Evals.Arguments.Accepted.{is_accepted, are_options, parse_cli_args-accepted}

session : Unit {0}
unfolding lit ◌==◌ trim trim_start starts_with parse_rule_expectation
session = tt

abbrev sample_numbers : Numbers ℕ
sample_numbers = record { is_integer = λ n. true; above_zero = λ n. ltb 0 n }

abbrev sample_value : Value ℕ
sample_value = object (field (lit "id") (string (lit "count")) end)

validate_eval_case_iff_example :
    (validate_eval_case sample_numbers sample_value ≡ []) ↔ IsEvalCase sample_numbers sample_value
validate_eval_case_iff_example = validate_eval_case_iff sample_numbers sample_value

abbrev sample_expectation : RuleExpectation
sample_expectation = record { key = lit "output_json"; value = lit "a=b" }

parse_rule-show_example :
    parse_rule_expectation (show_expectation sample_expectation) ≡ some sample_expectation
unfolding session
parse_rule-show_example = parse_rule-show sample_expectation refl refl refl refl refl

abbrev sample_case : EvalCase (Unit {0})
sample_case = record {
  id = lit "count";
  prompt = lit "count the files";
  expected_first_path = code_execution;
  acceptance_rules = lit "observed_first_path=code_execution" ∷ lit "success=true" ∷ [];
  recipe_target = none;
}

abbrev sample_observation : BenchmarkObservation
sample_observation = record {
  observed_first_path = some code_execution_seen;
  success = none;
  recovery_attempted = none;
  failure_class = none;
  total_tokens = some 12;
  duration_ms = none;
  output = none;
}

abbrev sample_record : BenchmarkResultRecord (Unit {0})
sample_record =
    build_benchmark_result_record sample_json sample_case (lit "p") (lit "m") sample_observation

record_success_example :
    sample_record.result.success
    ≡ every
        (λ (outcome : BenchmarkRuleOutcome). is_success_rule outcome.rule || outcome.passed)
        sample_record.rule_outcomes
unfolding session
record_success_example =
    record_success sample_json sample_case (lit "p") (lit "m") sample_observation refl
      (inr refl, (inl refl, tt))

abbrev spaced_case : EvalCase (Unit {0})
spaced_case = record sample_case { acceptance_rules = lit "success = true" ∷ [] }

spaced_success_rule_fails_example :
    (build_benchmark_result_record sample_json spaced_case
      (lit "p")
      (lit "m")
      sample_observation).result.success
    ≡ false
unfolding session
spaced_success_rule_fails_example =
    spaced_success_rule_fails sample_json spaced_case (lit "p") (lit "m") sample_observation
      (lit "success = true") refl (Memᴰ.head refl) refl refl

abbrev sample_run : BenchmarkRun (Unit {0})
sample_run =
    run_benchmark_suite sample_json (lit "p") (lit "m") (lit "t")
      (λ c provider model. sample_observation) (sample_case ∷ []) none

abbrev sample_baseline : BenchmarkRun (Unit {0})
sample_baseline =
    run_benchmark_suite sample_json (lit "p") (lit "m") (lit "s")
      (λ c provider model. record sample_observation { observed_first_path = some direct_seen })
      (sample_case ∷ []) none

compare_benchmark_runs_iff_example :
    ((compare_benchmark_runs sample_run sample_baseline (lit "b.json")).regressions ≡ [])
    ↔ All
        (λ (r : BenchmarkResultRecord (Unit {0})).
          (b : BenchmarkResult)
          → Map.get (results_by_case_id sample_baseline.results []) r.result.case_id ≡ some b
          → IsNoWorse b r.result)
        sample_run.results
compare_benchmark_runs_iff_example =
    compare_benchmark_runs_iff sample_run sample_baseline (lit "b.json")

get_provider_model_slug-IsSlug_example :
    All
      (λ c. is_slug_character c ≡ true)
      (get_provider_model_slug ascii_lower (lit "Open AI/") (lit "../gpt"))
    × (4 ≤ length (get_provider_model_slug ascii_lower (lit "Open AI/") (lit "../gpt")))
get_provider_model_slug-IsSlug_example =
    get_provider_model_slug-IsSlug ascii_lower (lit "Open AI/") (lit "../gpt")

abbrev sample_argv : List Text
sample_argv = lit "--cases" ∷ lit "a, b" ∷ lit "--model" ∷ []

parse_cli_args-accepted_example : is_accepted (parse_cli_args sample_argv) ≡ are_options sample_argv
parse_cli_args-accepted_example = parse_cli_args-accepted sample_argv
