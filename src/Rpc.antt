-- ===== src/Rpc.antt =====
-- src/rpc-protocol.ts: the protocol that the extension speaks with the Python process.
pub mod Frames
pub mod Stderr
pub mod Session
mod Samples
