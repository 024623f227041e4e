-- ===== src/Evals/Benchmark/Records.antt =====
-- src/benchmark-runner.ts: when a case succeeds.
use mathlib.Core.Path.{ap₂}
use pi_ptc_advanced.Common.{
  Bool-cases, every, keep, keep-mem, All, Result, Text, lit, ◌==◌, ◌≡◌, refl, ap, ◌∙◌, ◌⊎◌, inl,
  inr, Bool, true, false, not, ◌&&◌, ◌||◌, Option, none, some, get_or, List, [], ◌∷◌, Memᴰ, arith,
}
use pi_ptc_advanced.Json.{Value}
use pi_ptc_advanced.Evals.Rules.{
  RuleExpectation, BenchmarkResult, has_key, parse_rule_expectation, evaluate_key,
  evaluate_expectation, evaluate_rule, parse_boolean_text, is_expected,
}
use pi_ptc_advanced.Evals.Benchmark.{
  EvalCase, BenchmarkObservation, BenchmarkRuleOutcome, is_success_rule, base_result,
  passes_non_success_rules, rule_outcomes, build_benchmark_result_record,
}

-- A rule on success begins with `success=`, as the code tests for it.
abbrev pub IsPlainRule : Text → Type 0
IsPlainRule rule =
    (is_success_rule rule ≡ true) ⊎ (has_key (lit "success") (parse_rule_expectation rule) ≡ false)

module _ {N : Type 0} (parse_json : Text → Result (Value N)) where
  -- A rule with another key does not read whether the case has succeeded.
  evaluate-other :
      (e : Option RuleExpectation) (result : BenchmarkResult) (output : Option Text) (b : Bool)
      → has_key (lit "success") e ≡ false
      → evaluate_expectation parse_json e result output
        ≡ evaluate_expectation parse_json e (record result { success = b }) output
  unfolding evaluate_expectation evaluate_key
  evaluate-other none result output b other = refl
  evaluate-other (some e) result output b other = simp other

  outcomes-every :
      (rules : List Text) (base : BenchmarkResult) (output : Option Text) (b : Bool)
      → All IsPlainRule rules
      → passes_non_success_rules parse_json rules base output
        ≡ every
            (λ (o : BenchmarkRuleOutcome). is_success_rule o.rule || o.passed)
            (rule_outcomes parse_json rules (record base { success = b }) output)
  unfolding passes_non_success_rules rule_outcomes evaluate_rule
  outcomes-every [] base output b plain = refl
  outcomes-every (rule ∷ rules) base output b (p, plain) =
      let rest = outcomes-every rules base output b plain in
      elim (Bool-cases (is_success_rule rule)) [
        | inl starts ↦ rw starts rest
        | inr starts_not ↦
            let other : has_key (lit "success") (parse_rule_expectation rule) ≡ false = elim p [
              | inl starts ↦ ground (arith, starts, starts_not)
              | inr other ↦ other
            ] in
            rw starts_not
              (ap₂ ◌&&◌ (evaluate-other (parse_rule_expectation rule) base output b other) rest)
      ]

  -- Where the executor does not say whether a case succeeds, and every rule on success begins with
  -- `success=`, the case succeeds exactly if all its other rules are recorded as passed.
  pub record_success :
      {R : Type 0} (c : EvalCase R) (provider model : Text) (o : BenchmarkObservation)
      → o.success ≡ none
      → All IsPlainRule c.acceptance_rules
      → (build_benchmark_result_record parse_json c provider model o).result.success
        ≡ every
            (λ (outcome : BenchmarkRuleOutcome). is_success_rule outcome.rule || outcome.passed)
            (build_benchmark_result_record parse_json c provider model o).rule_outcomes
  unfolding build_benchmark_result_record
  record_success c provider model o silent plain =
      let base = base_result c provider model o in
      let passes = passes_non_success_rules parse_json c.acceptance_rules base o.output in
      ap (λ s. get_or s passes) silent
      ∙ outcomes-every c.acceptance_rules base o.output (get_or o.success passes) plain

  fails :
      (rules : List Text) (base : BenchmarkResult) (output : Option Text) (rule : Text)
      → Memᴰ rule rules
      → parse_rule_expectation rule ≡ some (record { key = lit "success"; value = lit "true" })
      → every (λ r. evaluate_rule parse_json r (record base { success = false }) output) rules
        ≡ false
  unfolding evaluate_rule evaluate_expectation evaluate_key is_expected parse_boolean_text lit ◌==◌
  fails [] base output rule there asks = elim there [ ]
  fails (r ∷ rules) base output rule (Memᴰ.head e) asks =
      let same : parse_rule_expectation r
          ≡ some (record { key = lit "success"; value = lit "true" }) =
        rw (← e) asks in
      rw same refl
  fails (r ∷ rules) base output rule (Memᴰ.tail there) asks =
      ground (arith, fails rules base output rule there asks)

  -- Where the executor does not say whether a case succeeds, a rule that asks for success and does not
  -- begin with `success=` makes the case fail.
  pub spaced_success_rule_fails :
      {R : Type 0} (c : EvalCase R) (provider model : Text) (o : BenchmarkObservation) (rule : Text)
      → o.success ≡ none
      → Memᴰ rule c.acceptance_rules
      → is_success_rule rule ≡ false
      → parse_rule_expectation rule ≡ some (record { key = lit "success"; value = lit "true" })
      → (build_benchmark_result_record parse_json c provider model o).result.success ≡ false
  unfolding build_benchmark_result_record passes_non_success_rules base_result
  spaced_success_rule_fails c provider model o rule silent there spaced asks =
      let base = base_result c provider model o in
      let passes = passes_non_success_rules parse_json c.acceptance_rules base o.output in
      ap (λ s. get_or s passes) silent
      ∙ fails (keep (λ r. not (is_success_rule r)) c.acceptance_rules) base o.output rule
          (keep-mem (λ r. not (is_success_rule r)) c.acceptance_rules there (ap not spaced)) asks
