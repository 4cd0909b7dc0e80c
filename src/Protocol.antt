-- ===== src/Protocol.antt =====
-- src/protocol: the wire messages of the relay, one module per message family.
pub mod Limits
pub mod Ids
pub mod StrictInput
pub mod InputFrame
pub mod FastInput
pub mod InputBatch
pub mod ServerFrame
