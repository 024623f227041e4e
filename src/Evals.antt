-- ===== src/Evals.antt =====
-- src/eval-cases.ts and src/benchmark-runner.ts: the evaluation cases, and the benchmark that runs them.
mod Samples
pub mod Case
pub mod Rules
pub mod Benchmark
pub mod Slug
pub mod Arguments
