-- ===== src/Extension.antt =====
-- src/index.ts: the life of a prompt, by the handlers of the host's events.
mod Samples
pub mod State
pub mod Routing
pub mod Attempts
pub mod Prompts
pub mod Events
pub mod Once
pub mod Restore
pub mod Routed
pub mod Quiet
