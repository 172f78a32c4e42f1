-- ===== src/Protocol/Overlay.antt =====
-- packages/protocol/src/overlay.ts: what travels in the frames of a single-hop overlay.
pub mod Name
pub mod Circuit
pub mod Stream
pub mod Hello
mod Runs
