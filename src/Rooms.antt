-- ===== src/Rooms.antt =====
-- src/rooms: the state and the operations of one room.
pub mod Types
pub mod Slot
pub mod Pause
pub mod Snapshot
pub mod Recovery
pub mod Room
pub mod Session
pub mod Voice
pub mod InviteCode
pub mod RelayBuffers
pub mod InputDelay
pub mod LinkCable
