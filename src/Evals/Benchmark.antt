-- ===== src/Evals/Benchmark.antt =====
-- src/benchmark-runner.ts: the record of a case, the run of a suite and its comparison with a baseline.
pub mod Records
pub mod Compare
use pi_ptc_advanced.Common.Map
use pi_ptc_advanced.Common.{
  if◌then◌else◌, length, every, keep, Result, Text, lit, ◌==◌, ℕ, ◌+◌, Bool, true, false, not, ◌&&◌,
  Option, none, some, get_or, List, [], ◌∷◌, ◌++◌, map,
}
use pi_ptc_advanced.Common.Map.{Map}
use pi_ptc_advanced.Common.Patterns.{starts_with}
use pi_ptc_advanced.Json.{Value, Engine, string, object, end, field}
use pi_ptc_advanced.Recovery.{RecoveryFailureClass}
use pi_ptc_advanced.Utils.Prompts.{should_auto_route_prompt_to_code_execution}
use pi_ptc_advanced.Rpc.Session.{estimate_tokens_from_chars}
use pi_ptc_advanced.Evals.Rules.{
  ExpectedFirstPath, ObservedFirstPath, code_execution_seen, direct_seen, none_seen,
  BenchmarkResult, expected_text, observed_text, failure_text, class_text, get_rule_expectation,
  parse_boolean, parse_failure_class, evaluate_rule,
}

-- A case that `parseEvalCase` has passed, with the fields that the benchmark reads; `R` is the type of
-- its recipe target, which is only passed on.
pub record EvalCase (R : Type 0) : Type 0 where
  pub id : Text
  pub prompt : Text
  pub expected_first_path : ExpectedFirstPath
  pub acceptance_rules : List Text
  pub recipe_target : Option R

pub record BenchmarkRuleOutcome : Type 0 where
  pub rule : Text
  pub passed : Bool

pub record BenchmarkResultRecord (R : Type 0) : Type 0 where
  pub result : BenchmarkResult
  pub rule_outcomes : List BenchmarkRuleOutcome
  pub recipe_target : Option R

pub record BenchmarkRunSummary : Type 0 where
  pub total_cases : ℕ
  pub successful_cases : ℕ
  pub routed_cases : ℕ
  pub recovery_attempts : ℕ

pub data RegressionKind : Type 0 where
  routing_regression recovery_regression success_regression : RegressionKind

pub record BenchmarkRegression : Type 0 where
  pub case_id : Text
  pub kind : RegressionKind
  pub message : Text

pub record BenchmarkComparison : Type 0 where
  pub baseline_path : Text
  pub regressions : List BenchmarkRegression

pub record BenchmarkRun (R : Type 0) : Type 0 where
  pub provider : Text
  pub model : Text
  pub generated_at : Text
  pub results : List (BenchmarkResultRecord R)
  pub summary : BenchmarkRunSummary
  pub comparison : Option BenchmarkComparison

pub record BenchmarkObservation : Type 0 where
  pub observed_first_path : Option ObservedFirstPath
  pub success : Option Bool
  pub recovery_attempted : Option Bool
  pub failure_class : Option RecoveryFailureClass
  pub total_tokens : Option ℕ
  pub duration_ms : Option ℕ
  pub output : Option Text

abbrev is_true_value : Option Bool → Bool
is_true_value none = false
is_true_value (some b) = b

module _ {N : Type 0} (engine : Engine N) (lower : Text → Text) {R : Type 0} where
  -- The output of the deterministic executor.
  unfoldable pub deterministic_output : Bool → EvalCase R → Text → Text → Text
  deterministic_output wants_json c provider model =
      if wants_json
      then engine.json_text (
          object (
            field (lit "case_id") (string c.id)
              (field (lit "provider") (string provider) (field (lit "model") (string model) end))))
      else lit "completed:" ++ c.id

  -- The executor that `createDeterministicBenchmarkExecutor` returns.
  unfoldable pub deterministic_executor : EvalCase R → Text → Text → BenchmarkObservation
  unfolding should_auto_route_prompt_to_code_execution parse_boolean get_rule_expectation
      parse_failure_class deterministic_output estimate_tokens_from_chars
  deterministic_executor c provider model =
      let routed = should_auto_route_prompt_to_code_execution lower c.prompt in
      let recovery_expected =
        is_true_value
          (parse_boolean (get_rule_expectation c.acceptance_rules (lit "recovery_attempted"))) in
      let failure_class =
        parse_failure_class (get_rule_expectation c.acceptance_rules (lit "failure_class")) in
      let wants_json =
        is_true_value
          (parse_boolean (get_rule_expectation c.acceptance_rules (lit "output_json"))) in
      let recovery_attempted = routed && recovery_expected in
      let output = deterministic_output wants_json c provider model in
      record {
        observed_first_path = some (if routed then code_execution_seen else direct_seen);
        success = none;
        recovery_attempted = some recovery_attempted;
        failure_class = if recovery_attempted then failure_class else none;
        total_tokens = some (
            estimate_tokens_from_chars
              (length c.prompt + length output + length provider + length model));
        duration_ms = some (length c.prompt + length c.id);
        output = some output;
      }

module _ {R : Type 0} where
  -- `baseResult`, whose `success` is false.
  unfoldable pub base_result : EvalCase R → Text → Text → BenchmarkObservation → BenchmarkResult
  base_result c provider model o = record {
    case_id = c.id;
    provider = provider;
    model = model;
    expected_first_path = c.expected_first_path;
    observed_first_path = get_or o.observed_first_path none_seen;
    success = false;
    recovery_attempted = get_or o.recovery_attempted false;
    failure_class = o.failure_class;
    total_tokens = get_or o.total_tokens 0;
    duration_ms = get_or o.duration_ms 0;
  }

abbrev pub is_success_rule : Text → Bool
is_success_rule rule = starts_with (lit "success=") rule

module _ {N : Type 0} (parse_json : Text → Result (Value N)) where
  unfoldable pub passes_non_success_rules : List Text → BenchmarkResult → Option Text → Bool
  unfolding evaluate_rule starts_with
  passes_non_success_rules rules base output =
      every (λ rule. evaluate_rule parse_json rule base output)
        (keep (λ rule. not (is_success_rule rule)) rules)

  unfoldable pub rule_outcomes :
      List Text → BenchmarkResult → Option Text → List BenchmarkRuleOutcome
  unfolding evaluate_rule
  rule_outcomes rules result output =
      map (λ rule. record { rule = rule; passed = evaluate_rule parse_json rule result output })
        rules

  unfoldable pub build_benchmark_result_record :
      {R : Type 0} → EvalCase R → Text → Text → BenchmarkObservation → BenchmarkResultRecord R
  unfolding base_result passes_non_success_rules rule_outcomes
  build_benchmark_result_record c provider model o =
      let base = base_result c provider model o in
      let result : BenchmarkResult = record base {
        success = get_or o.success (passes_non_success_rules c.acceptance_rules base o.output);
      } in
      record {
        result = result;
        rule_outcomes = rule_outcomes c.acceptance_rules result o.output;
        recipe_target = c.recipe_target;
      }

abbrev is_routed : ObservedFirstPath → Bool
is_routed code_execution_seen = true
is_routed direct_seen = false
is_routed none_seen = false

module _ {R : Type 0} where
  unfoldable pub build_benchmark_summary : List (BenchmarkResultRecord R) → BenchmarkRunSummary
  build_benchmark_summary records = record {
    total_cases = length records;
    successful_cases = length (keep (λ (r : BenchmarkResultRecord R). r.result.success) records);
    routed_cases =
        length
          (keep (λ (r : BenchmarkResultRecord R). is_routed r.result.observed_first_path) records);
    recovery_attempts =
        length (keep (λ (r : BenchmarkResultRecord R). r.result.recovery_attempted) records);
  }

  -- `new Map(results.map(record => [record.result.case_id, record.result]))`
  unfoldable pub results_by_case_id :
      List (BenchmarkResultRecord R) → Map BenchmarkResult → Map BenchmarkResult
  results_by_case_id [] m = m
  results_by_case_id (r ∷ rs) m = results_by_case_id rs (Map.set m r.result.case_id r.result)

abbrev pub is_as_expected : BenchmarkResult → Bool
is_as_expected r = observed_text r.observed_first_path == expected_text r.expected_first_path

-- `push` under a test.
abbrev pub regression_if : Bool → BenchmarkRegression → List BenchmarkRegression
regression_if true r = r ∷ []
regression_if false r = []

-- `baseline.failure_class && baseline.failure_class !== current.failure_class`
unfoldable pub changes_class : Option RecoveryFailureClass → Option RecoveryFailureClass → Bool
unfolding failure_text
changes_class none current = false
changes_class (some c) none = true
changes_class (some c) (some d) = not (failure_text c == failure_text d)

-- The regressions of a result against the baseline's result of the case.
unfoldable pub result_regressions :
    BenchmarkResult → Option BenchmarkResult → List BenchmarkRegression
unfolding observed_text expected_text changes_class class_text
result_regressions current none = []
result_regressions current (some baseline) =
    regression_if (is_as_expected baseline && not (is_as_expected current)) (record {
      case_id = current.case_id;
      kind = routing_regression;
      message =
          lit "routing regressed from "
          ++ (observed_text baseline.observed_first_path
              ++ (lit " to " ++ observed_text current.observed_first_path));
    })
    ++ (regression_if (baseline.recovery_attempted && not current.recovery_attempted) (record {
      case_id = current.case_id;
      kind = recovery_regression;
      message = lit "recovery no longer triggers for a previously recovered case";
    })
        ++ (regression_if (changes_class baseline.failure_class current.failure_class) (record {
          case_id = current.case_id;
          kind = recovery_regression;
          message =
              lit "failure class regressed from "
              ++ (class_text baseline.failure_class
                  ++ (lit " to " ++ class_text current.failure_class));
        })
            ++ regression_if (baseline.success && not current.success) (record {
              case_id = current.case_id;
              kind = success_regression;
              message = lit "case no longer satisfies acceptance rules";
            })))

module _ {R : Type 0} where
  unfoldable pub all_regressions :
      Map BenchmarkResult → List (BenchmarkResultRecord R) → List BenchmarkRegression
  unfolding result_regressions
  all_regressions baseline [] = []
  all_regressions baseline (r ∷ rs) =
      result_regressions r.result (Map.get baseline r.result.case_id) ++ all_regressions baseline rs

  unfoldable pub compare_benchmark_runs :
      BenchmarkRun R → BenchmarkRun R → Text → BenchmarkComparison
  unfolding all_regressions results_by_case_id
  compare_benchmark_runs current baseline path = record {
    baseline_path = path;
    regressions = all_regressions (results_by_case_id baseline.results []) current.results;
  }

  -- The loop of `runBenchmarkSuite`; `executor` gives what the executor's promise resolves to.
  unfoldable pub run_cases :
      {N : Type 0}
      → (Text → Result (Value N))
      → Text
      → Text
      → (EvalCase R → Text → Text → BenchmarkObservation)
      → List (EvalCase R)
      → List (BenchmarkResultRecord R)
  unfolding build_benchmark_result_record
  run_cases parse_json provider model executor [] = []
  run_cases parse_json provider model executor (c ∷ cs) =
      build_benchmark_result_record parse_json c provider model (executor c provider model)
      ∷ run_cases parse_json provider model executor cs

  compared : BenchmarkRun R → Option (Text × BenchmarkRun R) → Option BenchmarkComparison
  unfolding compare_benchmark_runs
  compared run none = none
  compared run (some (path, baseline)) = some (compare_benchmark_runs run baseline path)

  -- `runBenchmarkSuite` on the cases that are loaded; `baseline` is the baseline's path and what
  -- `readBenchmarkRun` gives, where the path is given and not empty.
  unfoldable pub run_benchmark_suite :
      {N : Type 0}
      → (Text → Result (Value N))
      → Text
      → Text
      → Text
      → (EvalCase R → Text → Text → BenchmarkObservation)
      → List (EvalCase R)
      → Option (Text × BenchmarkRun R)
      → BenchmarkRun R
  unfolding run_cases build_benchmark_summary compared
  run_benchmark_suite parse_json provider model timestamp executor cases baseline =
      let results = run_cases parse_json provider model executor cases in
      let run : BenchmarkRun R = record {
        provider = provider;
        model = model;
        generated_at = timestamp;
        results = results;
        summary = build_benchmark_summary results;
        comparison = none;
      } in
      record run { comparison = compared run baseline }
