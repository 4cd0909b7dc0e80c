-- ===== src/Rooms/Slot.antt =====
-- src/rooms/player_slot.rs, and the report of src/protocol/client_network_quality.rs. Times are
-- nanoseconds of the process clock; a connection id stands for its UUID.
use sn_netplay_serv.Base.{◌==◌, ℕ, Bool, true, false, Option, none, some}
use sn_netplay_serv.Base.Maps.{Text}
use sn_netplay_serv.Protocol.Ids.{PlayerIndex, ConnectionId, player_one}
use sn_netplay_serv.Rooms.Types.{PlayerRole, PlayerStatus, PlayerRuntimeState, host, guest}

pub record ClientNetworkQualityReport : Type 0 where
  pub round_trip_ms : Option ℕ
  pub jitter_ms : Option ℕ
  pub prediction_frames : Option ℕ
  pub stall_count : Option ℕ
  pub catch_up_frames : Option ℕ
  pub late_input_frames : Option ℕ
  pub audio_underruns : Option ℕ
  pub input_resend_frames : Option ℕ
  pub input_nacks : Option ℕ
  pub replayed_frames : Option ℕ
  pub suppressed_audio_frames : Option ℕ
  pub suppressed_video_frames : Option ℕ
  pub audio_queue_depth_frames : Option ℕ
  pub audio_catch_up_events : Option ℕ
  pub audio_trimmed_frames : Option ℕ
  pub audio_rebuffer_events : Option ℕ
  pub audio_max_consecutive_missing_frames : Option ℕ
  pub audio_queue_min_frames : Option ℕ
  pub audio_queue_max_frames : Option ℕ
  pub clock_uncertainty_ms : Option ℕ

pub record ClientTransportCapabilities : Type 0 where
  pub supports_state_file_relay : Bool
  pub supports_rom_file_relay : Bool
  pub supports_scheduled_start : Bool
  pub supports_clock_sync : Bool
  pub supports_fast_input_relay : Bool

pub record PlayerSlot : Type 0 where
  pub player_index : PlayerIndex
  pub role : PlayerRole
  pub subject_key : Option Text
  pub connection_id : Option ConnectionId
  pub input_connection_id : Option ConnectionId
  pub display_name : Option Text
  pub status : PlayerStatus
  pub runtime_state : PlayerRuntimeState
  pub resume_token_hash : Option Text
  pub input_socket_token_hash : Option Text
  pub input_socket_control_connection_id : Option ConnectionId
  pub last_seen_at : Option ℕ
  pub latest_local_frame : Option ℕ
  pub latest_local_frame_reported_at : Option ℕ
  pub latest_network_report : Option ClientNetworkQualityReport
  pub supports_state_file_relay : Bool
  pub supports_rom_file_relay : Bool
  pub supports_scheduled_start : Bool
  pub supports_clock_sync : Bool
  pub supports_fast_input_relay : Bool
  pub latest_network_reported_at : Option ℕ
  pub reconnect_deadline : Option ℕ
  pub reconnect_room_epoch : Option ℕ
  pub runner_handoff_deadline : Option ℕ

-- `PlayerSlot::empty`
unfoldable pub empty_slot : PlayerIndex → PlayerSlot
empty_slot player_index = record {
  player_index = player_index;
  role = guest;
  subject_key = none;
  connection_id = none;
  input_connection_id = none;
  display_name = none;
  status = PlayerStatus.empty;
  runtime_state = PlayerRuntimeState.empty;
  resume_token_hash = none;
  input_socket_token_hash = none;
  input_socket_control_connection_id = none;
  last_seen_at = none;
  latest_local_frame = none;
  latest_local_frame_reported_at = none;
  latest_network_report = none;
  supports_state_file_relay = false;
  supports_rom_file_relay = false;
  supports_scheduled_start = false;
  supports_clock_sync = false;
  supports_fast_input_relay = false;
  latest_network_reported_at = none;
  reconnect_deadline = none;
  reconnect_room_epoch = none;
  runner_handoff_deadline = none;
}

-- `PlayerSlot::host`; `identity` is the `identity_key` of the verified license.
unfoldable pub host_slot : Text → ConnectionId → Text → Text → ℕ → PlayerSlot
unfolding empty_slot
host_slot identity connection_id resume_token_hash input_socket_token_hash now =
    record (empty_slot player_one) {
      role = host;
      subject_key = some identity;
      connection_id = some connection_id;
      status = PlayerStatus.connected;
      runtime_state = PlayerRuntimeState.connected;
      resume_token_hash = some resume_token_hash;
      input_socket_token_hash = some input_socket_token_hash;
      input_socket_control_connection_id = some connection_id;
      last_seen_at = some now;
    }

-- `PlayerSlot::occupy_guest`
unfoldable pub occupy_guest :
    PlayerSlot → Text → ConnectionId → Text → Text → ℕ → ClientTransportCapabilities → PlayerSlot
occupy_guest slot identity connection_id resume_token_hash input_socket_token_hash now
      capabilities =
    record slot {
      role = guest;
      subject_key = some identity;
      connection_id = some connection_id;
      input_connection_id = none;
      status = PlayerStatus.connected;
      runtime_state = PlayerRuntimeState.connected;
      resume_token_hash = some resume_token_hash;
      input_socket_token_hash = some input_socket_token_hash;
      input_socket_control_connection_id = some connection_id;
      last_seen_at = some now;
      latest_local_frame = none;
      latest_local_frame_reported_at = none;
      latest_network_report = none;
      supports_state_file_relay = capabilities.supports_state_file_relay;
      supports_rom_file_relay = capabilities.supports_rom_file_relay;
      supports_scheduled_start = capabilities.supports_scheduled_start;
      supports_clock_sync = capabilities.supports_clock_sync;
      supports_fast_input_relay = capabilities.supports_fast_input_relay;
      latest_network_reported_at = none;
      reconnect_deadline = none;
      reconnect_room_epoch = none;
      runner_handoff_deadline = none;
    }

-- `PlayerSlot::is_empty`
unfoldable pub slot_is_empty : PlayerSlot → Bool
slot_is_empty slot = elim slot.status [ PlayerStatus.empty ↦ true | _ ↦ false ]

-- `slot.connection_id.is_some()`
unfoldable pub is_connected : PlayerSlot → Bool
is_connected slot = elim slot.connection_id [ none ↦ false | some c ↦ true ]

-- `id == Some(connection)`
unfoldable pub holds : Option ConnectionId → ConnectionId → Bool
holds none connection = false
holds (some c) connection = c == connection
