-- ===== src/Protocol/StrictInput.antt =====
-- src/protocol/strict_input: the binary messages of the v5 input lane, one module per file of the
-- source, and their laws.
pub mod Common
pub mod Cursor
pub mod FrameClock
pub mod Batch
pub mod Laws
pub mod RoundTrip
pub mod BatchRoundTrip
pub mod ReleaseRoundTrip
