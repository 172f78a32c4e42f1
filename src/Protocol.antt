-- ===== src/Protocol.antt =====
-- packages/protocol/src: the wire protocol v1.
pub mod ErrorCode
pub mod FrameType
pub mod Constants
pub mod Frame
pub mod FlowControl
pub mod CircuitId
pub mod Noise
pub mod Session
pub mod Overlay
