-- ===== src/Evals/Benchmark/Compare.antt =====
-- src/benchmark-runner.ts: what compareBenchmarkRuns finds.
use mathlib.Core.Path.{subst}
use pi_ptc_advanced.Common.Map
use pi_ptc_advanced.Common.{
  All, Text, lit, ◌==◌, ◌≡◌, refl, ◌↔◌, Bool, true, false, not, ◌&&◌, Option, none, some, List, [],
  ◌∷◌, ◌++◌,
}
use pi_ptc_advanced.Common.Map.{Map}
use pi_ptc_advanced.Recovery.{RecoveryFailureClass, missing_await, async_wrapper_iterated}
use pi_ptc_advanced.Evals.Rules.{BenchmarkResult, failure_text}
use pi_ptc_advanced.Evals.Benchmark.{
  BenchmarkResultRecord, BenchmarkRun, BenchmarkRegression, is_as_expected, regression_if,
  changes_class, result_regressions, results_by_case_id, all_regressions, compare_benchmark_runs,
}

-- A result keeps what the baseline's result of the case has reached.
pub record IsNoWorse (baseline current : BenchmarkResult) : Type 0 where
  pub routing : is_as_expected baseline ≡ true → is_as_expected current ≡ true
  pub recovery : baseline.recovery_attempted ≡ true → current.recovery_attempted ≡ true
  pub failure :
      (c : RecoveryFailureClass) → baseline.failure_class ≡ some c → current.failure_class ≡ some c
  pub success : baseline.success ≡ true → current.success ≡ true

regression_iff :
    (b : Bool) (r : BenchmarkRegression) (rest : List BenchmarkRegression)
    → ((regression_if b r ++ rest) ≡ []) ↔ ((b ≡ false) × (rest ≡ []))
regression_iff false r rest = (λ e. (refl, e), λ e. e.1)
regression_iff true r rest = (λ e. cc, λ e. cc (e.0))

last_iff : (b : Bool) (r : BenchmarkRegression) → (regression_if b r ≡ []) ↔ (b ≡ false)
last_iff false r = (λ e. refl, λ e. refl)
last_iff true r = (λ e. cc e, λ e. cc e)

append-nil_iff : (xs ys : List BenchmarkRegression) → ((xs ++ ys) ≡ []) ↔ ((xs ≡ []) × (ys ≡ []))
append-nil_iff [] ys = (λ e. (refl, e), λ e. e.1)
append-nil_iff (x ∷ xs) ys = (λ e. cc, λ e. cc (e.0))

lost_iff : (a b : Bool) → ((a && not b) ≡ false) ↔ ((a ≡ true) → (b ≡ true))
lost_iff true true = (λ e h. refl, λ h. refl)
lost_iff true false = (λ e h. cc e, λ h. cc (h refl))
lost_iff false b = (λ e h. cc h, λ h. refl)

class_iff :
    (a b : Option RecoveryFailureClass)
    → (changes_class a b ≡ false) ↔ ((c : RecoveryFailureClass) → a ≡ some c → b ≡ some c)
unfolding changes_class failure_text ◌==◌ lit
class_iff none b = (λ e c h. cc h, λ h. refl)
class_iff (some c) none = (λ e. cc e, λ h. cc (h c refl))
class_iff (some missing_await) (some missing_await) = (λ e c h. h, λ h. refl)
class_iff (some async_wrapper_iterated) (some async_wrapper_iterated) = (λ e c h. h, λ h. refl)
class_iff (some missing_await) (some async_wrapper_iterated) =
    (λ e. cc e, λ h. cc (h missing_await refl))
class_iff (some async_wrapper_iterated) (some missing_await) =
    (λ e. cc e, λ h. cc (h async_wrapper_iterated refl))

result_iff :
    (current baseline : BenchmarkResult)
    → (result_regressions current (some baseline) ≡ []) ↔ IsNoWorse baseline current
unfolding result_regressions
result_iff current baseline =
    let routing = lost_iff (is_as_expected baseline) (is_as_expected current) in
    let recovery = lost_iff baseline.recovery_attempted current.recovery_attempted in
    let failure = class_iff baseline.failure_class current.failure_class in
    let success = lost_iff baseline.success current.success in
    (
      λ e.
          let (r, e1) = (regression_iff _ _ _).0 e in
          let (a, e2) = (regression_iff _ _ _).0 e1 in
          let (f, e3) = (regression_iff _ _ _).0 e2 in
          record {
            routing = routing.0 r;
            recovery = recovery.0 a;
            failure = failure.0 f;
            success = success.0 ((last_iff _ _).0 e3);
          },
      λ h. (regression_iff _ _ _).1 (
        routing.1 h.routing,
        (regression_iff _ _ _).1 (
          recovery.1 h.recovery,
          (regression_iff _ _ _).1 (failure.1 h.failure, (last_iff _ _).1 (success.1 h.success)),
        ),
      ),
    )

found_iff :
    (current : BenchmarkResult) (found : Option BenchmarkResult)
    → (result_regressions current found ≡ [])
      ↔ ((b : BenchmarkResult) → found ≡ some b → IsNoWorse b current)
unfolding result_regressions
found_iff current none = (λ e b h. cc h, λ h. refl)
found_iff current (some baseline) =
    let one = result_iff current baseline in
    (
      λ e b h. let same : baseline ≡ b = cc h in subst (λ x. IsNoWorse x current) same (one.0 e),
      λ h. one.1 (h baseline refl),
    )

module _ {R : Type 0} where
  all_regressions_iff :
      (baseline : Map BenchmarkResult) (rs : List (BenchmarkResultRecord R))
      → (all_regressions baseline rs ≡ [])
        ↔ All
            (λ (r : BenchmarkResultRecord R).
              (b : BenchmarkResult)
              → Map.get baseline r.result.case_id ≡ some b
              → IsNoWorse b r.result)
            rs
  unfolding all_regressions
  all_regressions_iff baseline [] = (λ e. tt, λ h. refl)
  all_regressions_iff baseline (r ∷ rs) =
      let both =
        append-nil_iff (result_regressions r.result (Map.get baseline r.result.case_id))
          (all_regressions baseline rs) in
      let first = found_iff r.result (Map.get baseline r.result.case_id) in
      let rest = all_regressions_iff baseline rs in
      (λ e. let (a, b) = both.0 e in (first.0 a, rest.0 b), λ h. both.1 (first.1 h.0, rest.1 h.1))

  -- A comparison finds no regression exactly where each result of the current run is no worse than the
  -- baseline's last result of its case, if there is one: in the first path, the recovery, the failure's
  -- class and the success.
  pub compare_benchmark_runs_iff :
      (current baseline : BenchmarkRun R) (path : Text)
      → ((compare_benchmark_runs current baseline path).regressions ≡ [])
        ↔ All
            (λ (r : BenchmarkResultRecord R).
              (b : BenchmarkResult)
              → Map.get (results_by_case_id baseline.results []) r.result.case_id ≡ some b
              → IsNoWorse b r.result)
            current.results
  unfolding compare_benchmark_runs
  compare_benchmark_runs_iff current baseline path =
      all_regressions_iff (results_by_case_id baseline.results []) current.results
