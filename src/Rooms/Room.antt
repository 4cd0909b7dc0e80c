-- ===== src/Rooms/Room.antt =====
-- src/rooms/room.rs: the state of one room, and the helpers that its operations share. Left out of
-- the record are the fields of the parts that are not modelled: the room's id, invite code and view,
-- the compatibility fingerprints, the link cable, the file relays, the voice state. `mode` is
-- `session.mode`, `input_delay_frames` is `session.controller.input_delay_frames`.
pub mod StartSync
pub mod Reset
pub mod StrictInput
pub mod HostFrame
pub mod FrameClock
pub mod PauseOps
pub mod Repair
use mathlib.Core.Option
use sn_netplay_serv.Base.{
  leb, if◌then◌else◌, saturating_add, filter, find, ℕ, Bool, ◌&&◌, Option, List, map,
}
use sn_netplay_serv.Base.Maps.{Map, lookup_or, Text}
use sn_netplay_serv.Protocol.Ids.{PlayerIndex, ConnectionId}
use sn_netplay_serv.Rooms.Pause.{PauseTracker}
use sn_netplay_serv.Rooms.Recovery.{StateRecoveryTransaction}
use sn_netplay_serv.Rooms.Slot.{PlayerSlot, is_connected, holds}
use sn_netplay_serv.Rooms.Snapshot.{SnapshotManifest}
use sn_netplay_serv.Rooms.Snapshot.Transfer.{SnapshotTransferState}
use sn_netplay_serv.Rooms.Types.{
  RoomStatus, PlayerStatus, PlayerRuntimeState, NetplaySessionMode, is_controller_netplay,
}

-- src/protocol/scheduled_start.rs
pub record ScheduledSessionStart : Type 0 where
  pub room_epoch : ℕ
  pub session_epoch : ℕ
  pub start_frame : ℕ
  pub server_time_ms : ℕ
  pub created_at_server_time_ms : ℕ
  pub minimum_start_delay_ms : ℕ
  pub clock_uncertainty_budget_ms : ℕ

-- src/protocol/input_delay_change.rs
pub data InputDelayChangeReason : Type 0 where
  initial_latency network_pressure stable_connection : InputDelayChangeReason

pub record InputDelayChange : Type 0 where
  pub effective_frame : ℕ
  pub input_delay_frames : ℕ
  pub previous_input_delay_frames : ℕ
  pub reason : InputDelayChangeReason

-- src/protocol/clock_sync.rs
pub record ClockSyncSampleRequest : Type 0 where
  pub request_id : Text
  pub requested_sample_count : ℕ
  pub server_send_time_ms : ℕ

pub record NetplayRoom : Type 0 where
  pub protocol_version : ℕ
  pub mode : NetplaySessionMode
  pub input_delay_frames : ℕ
  pub max_players : ℕ
  pub players : List PlayerSlot
  pub status : RoomStatus
  pub room_epoch : ℕ
  pub session_epoch : ℕ
  pub ready_players : List PlayerIndex
  pub deterministic_ready_players : List PlayerIndex
  pub clock_sync_request : Option ClockSyncSampleRequest
  pub clock_uncertainty_by_player : Map ℕ
  pub clock_sample_indices_by_player : Map (List ℕ)
  pub next_clock_sync_request_id : ℕ
  pub last_input_frames : Map ℕ
  pub next_input_frames : Map ℕ
  pub host_snapshot_completed : Bool
  pub completed_snapshot_manifest : Option SnapshotManifest
  pub next_pause_sequence : ℕ
  pub pause_state : Option PauseTracker
  pub snapshot_transfer : Option SnapshotTransferState
  pub sync_start_frame : ℕ
  pub room_frame : ℕ
  pub released_frame : Option ℕ
  pub next_release_frame : ℕ
  pub pending_input_delay_change : Option InputDelayChange
  pub state_hashes : Map (Map Text)
  pub state_hash_true_mismatch_streak : ℕ
  pub next_authoritative_state_hash_frame : ℕ
  pub next_state_recovery_id : ℕ
  pub state_recovery : Option StateRecoveryTransaction
  pub state_recovery_started_at : List ℕ
  pub scheduled_start : Option ScheduledSessionStart
  pub pending_host_frame_open : Option ℕ

-- `uses_strict_controller_input`
unfoldable pub uses_strict_controller_input : NetplayRoom → Bool
uses_strict_controller_input r = leb 5 r.protocol_version && is_controller_netplay r.mode

-- The first slot that a test accepts, as its player index.
unfoldable pub player_index_for_connection : NetplayRoom → ConnectionId → Option PlayerIndex
player_index_for_connection r connection =
    Option.map (λ (s : PlayerSlot). s.player_index)
      (find (λ (s : PlayerSlot). holds s.connection_id connection) r.players)

unfoldable pub player_index_for_input_connection : NetplayRoom → ConnectionId → Option PlayerIndex
player_index_for_input_connection r connection =
    Option.map (λ (s : PlayerSlot). s.player_index)
      (find (λ (s : PlayerSlot). holds s.input_connection_id connection) r.players)

unfoldable pub connected_player_indices : NetplayRoom → List PlayerIndex
connected_player_indices r =
    map (λ (s : PlayerSlot). s.player_index) (filter is_connected r.players)

-- `players.iter_mut().filter(connected).for_each(|slot| …)` with a status and a runtime state.
unfoldable pub mark_connected :
    PlayerStatus → PlayerRuntimeState → List PlayerSlot → List PlayerSlot
mark_connected status runtime = map λ (s : PlayerSlot).
    if is_connected s then record s { status = status; runtime_state = runtime } else s

-- `next_input_frames.get(&player).copied().unwrap_or(self.sync_start_frame)`
unfoldable pub next_input_frame : NetplayRoom → PlayerIndex → ℕ
next_input_frame r player = lookup_or player r.next_input_frames r.sync_start_frame

-- `bump_session_epoch`
unfoldable pub bump_session_epoch : NetplayRoom → NetplayRoom
bump_session_epoch r = record r { session_epoch = saturating_add r.session_epoch 1 }
