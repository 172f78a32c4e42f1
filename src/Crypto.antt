-- ===== src/Crypto.antt =====
-- packages/crypto/src: what is signed, how it is written, and what a verifier accepts.
pub mod Encoding
pub mod Scope
pub mod Primitives
pub mod Grants
pub mod KeyAgreement
pub mod ServiceAuth
pub mod Separation
pub mod Runs
