-- ===== src/Registry.antt =====
-- src/tool-registry.ts: the tools that code_execution may call, and the policy that decides it.
pub mod Classify
pub mod State
pub mod ToolMap
pub mod Filter
pub mod Gaps
pub mod Callable
pub mod Runtime
pub mod Samples
