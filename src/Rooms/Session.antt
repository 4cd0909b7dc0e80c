-- ===== src/Rooms/Session.antt =====
-- One strict room over time: the calls of the strict lane, the frame clock, the pause and the state
-- repair (src/rooms/room_strict_input_ops.rs, room_host_frame_ops.rs,
-- room_controller_netplay_ops.rs, room_v5_recovery_ops.rs) as the steps of a relation. Each call is
-- made under the room's lock, so one call is one step. Calls of the lobby, the snapshot transfer and
-- the reconnect are not among the steps.
pub mod Invariant
pub mod Clock
pub mod Pauses
pub mod Repairs
pub mod Reachable
pub mod Held
pub mod HeldSteps
pub mod HeldEnd
pub mod Pausing
pub mod LastReach
use sn_netplay_serv.Base.{IsU64, length, ok, ℕ, ◌<◌, ◌≡◌, some}
use sn_netplay_serv.Base.Maps.{Text}
use sn_netplay_serv.Protocol.Ids.{ConnectionId}
use sn_netplay_serv.Protocol.StrictInput.Batch.{StrictInputBatch}
use sn_netplay_serv.Protocol.StrictInput.FrameClock.{HostFrameOpen}
use sn_netplay_serv.Rooms.Pause.{SessionPauseReason, SessionPauseView}
use sn_netplay_serv.Rooms.Recovery.{StateHashMismatchView, StateRecoveryView, StateRecoveryPin}
use sn_netplay_serv.Rooms.Room.{NetplayRoom}
use sn_netplay_serv.Rooms.Room.HostFrame.{
  HostFrameOpenOutcome, accept_host_frame_open, release_due_v5_host_frame,
}
use sn_netplay_serv.Rooms.Room.PauseOps.{
  request_session_pause_with_id, mark_session_pause_reached, request_session_resume,
}
use sn_netplay_serv.Rooms.Room.Repair.{
  StateRecoveryStartOutcome, begin_v5_state_recovery, accept_v5_state_recovery_pin,
  close_expired_state_recovery,
}
use sn_netplay_serv.Rooms.Room.StrictInput.{StrictInputBatchOutcome, accept_strict_input_batch}
use sn_netplay_serv.Rooms.Snapshot.{SnapshotLimits}

pub data Step (r : NetplayRoom) : NetplayRoom → Type 0 where
  -- The batch decoder lets no empty batch through.
  batch_step :
      {r' : NetplayRoom} (c : ConnectionId) (b : StrictInputBatch) (o : StrictInputBatchOutcome)
      → 0 < length b.payloads
      → accept_strict_input_batch r c b ≡ ok (r', o)
      → Step r r'
  open_step :
      {r' : NetplayRoom} (c : ConnectionId) (q : HostFrameOpen) (now : ℕ) (o : HostFrameOpenOutcome)
      → accept_host_frame_open r c q now ≡ ok (r', o)
      → Step r r'
  due_step : (now : ℕ) → Step r (release_due_v5_host_frame r now).0
  pause_step :
      {r' : NetplayRoom} (c : ConnectionId) (id : Text) (reason : SessionPauseReason) (frame : ℕ)
      (v : SessionPauseView)
      → request_session_pause_with_id r c id reason frame ≡ ok (r', v)
      → Step r r'
  reach_step :
      (c : ConnectionId) (sequence frame now : ℕ)
      → Step r (mark_session_pause_reached r c sequence frame (some now)).0
  resume_step :
      (c : ConnectionId) (id : Text) (sequence now : ℕ)
      → Step r (request_session_resume r c id sequence (some now)).0
  repair_step :
      {r' : NetplayRoom} (mismatch : StateHashMismatchView) (now : ℕ)
      (o : StateRecoveryStartOutcome)
      → IsU64 mismatch.repair_frame
      → begin_v5_state_recovery r mismatch now ≡ ok (r', o)
      → Step r r'
  pin_step :
      {r' : NetplayRoom} (c : ConnectionId) (room_epoch session_epoch : ℕ) (p : StateRecoveryPin)
      (limits : SnapshotLimits) (v : StateRecoveryView)
      → accept_v5_state_recovery_pin r c room_epoch session_epoch p limits ≡ ok (r', v)
      → Step r r'
  expire_step : (now : ℕ) → Step r (close_expired_state_recovery r now).0

pub data Steps : NetplayRoom → NetplayRoom → Type 0 where
  no_step : {r : NetplayRoom} → Steps r r
  and_step : {r s t : NetplayRoom} → Steps r s → Step s t → Steps r t
