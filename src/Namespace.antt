-- ===== src/Namespace.antt =====
-- packages/namespace/src: the policy on names.
pub mod Expiry
mod Runs
