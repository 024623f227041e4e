-- ===== src/CustomTools.antt =====
-- src/custom-tool-manager.ts: tools that the files of a directory define, and their reloading when the
-- files change.
mod Samples
pub mod Loading
pub mod Manager
pub mod Events
pub mod Owners
pub mod InStep
pub mod Synced
pub mod Reloads
pub mod Polling
pub mod Scans
pub mod Runs
pub mod Follows
