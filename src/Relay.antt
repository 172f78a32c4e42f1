-- ===== src/Relay.antt =====
-- packages/relay-core/src: the relay between clients and service nodes.
pub mod Limits
pub mod Ips
pub mod State
pub mod Circuits
pub mod Connections
pub mod Services
pub mod Dispatch
pub mod Sweeping
pub mod Events
pub mod Lowers
pub mod Bounds
mod Runs
