-- ===== src/Rooms/Types.antt =====
-- src/rooms/errors.rs, room_status.rs, input_frame_acceptance.rs, the enums of player_slot.rs, and
-- src/protocol/session_mode.rs.
use sn_netplay_serv.Base.{◌==◌, ℕ, Bool, true, false}
use sn_netplay_serv.Protocol.Ids.{PlayerIndex}

pub data RoomError : Type 0 where
  not_found room_full room_closed invalid_invite_code unknown_connection : RoomError
  slot_spoofing : PlayerIndex → RoomError
  host_subject_mismatch out_of_order_frame future_frame_too_large not_playing : RoomError
  room_not_ready host_only snapshot_invalid snapshot_file_relay_unavailable : RoomError
  link_packet_invalid out_of_order_link_packet invalid_payload compatibility_mismatch : RoomError
  stale_room_epoch stale_session_epoch resume_token_invalid recovery_expired : RoomError
  voice_unavailable : RoomError

pub data RoomStatus : Type 0 where
  waiting_for_guest checking_compatibility syncing_state ready start_scheduled : RoomStatus
  playing paused repairing_state recovering closed : RoomStatus

-- `a == b` on statuses, by the place in the enum.
unfoldable pub status_code : RoomStatus → ℕ
status_code waiting_for_guest = 0
status_code checking_compatibility = 1
status_code syncing_state = 2
status_code ready = 3
status_code start_scheduled = 4
status_code playing = 5
status_code paused = 6
status_code repairing_state = 7
status_code recovering = 8
status_code closed = 9

unfoldable pub has_status : RoomStatus → RoomStatus → Bool
unfolding status_code
has_status s t = status_code s == status_code t

pub data PlayerRole : Type 0 where
  host guest : PlayerRole

unfoldable pub is_host : PlayerRole → Bool
is_host host = true
is_host guest = false

pub data PlayerStatus : Type 0 where
  empty connected checking_compatibility compatibility_failed syncing_state ready : PlayerStatus
  playing paused reconnecting recovery_expired disconnected : PlayerStatus

pub data PlayerRuntimeState : Type 0 where
  empty connected checking_compatibility syncing ready deterministic_ready : PlayerRuntimeState
  playing pausing paused reconnecting stale disconnected recovery_expired : PlayerRuntimeState

pub data NetplaySessionMode : Type 0 where
  controller_netplay link_cable : NetplaySessionMode

unfoldable pub is_controller_netplay : NetplaySessionMode → Bool
is_controller_netplay controller_netplay = true
is_controller_netplay link_cable = false

pub data InputFrameAcceptance : Type 0 where
  relay ignore : InputFrameAcceptance
