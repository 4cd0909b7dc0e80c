-- ===== src/Tests/Lane.antt =====
-- A room of two players on the strict lane of src/rooms.
use sn_netplay_serv.Base.{ok, ℕ, ◌+◌, ◌≡◌, refl, true, none, some, List, [], ◌∷◌, arith}
use sn_netplay_serv.Base.Maps.{lookup, insert}
use sn_netplay_serv.Protocol.Ids.{PlayerIndex, ConnectionId}
use sn_netplay_serv.Protocol.StrictInput.Batch.{StrictInputBatch}
use sn_netplay_serv.Protocol.StrictInput.Cursor.{InputCursorNack, input_gap, ack, nack}
use sn_netplay_serv.Rooms.Room.{
  NetplayRoom, uses_strict_controller_input, player_index_for_input_connection, next_input_frame,
}
use sn_netplay_serv.Rooms.Room.StrictInput.{
  StrictInputBatchOutcome, validate_strict_input_sender, takes_input, strict_input_state_accepts,
  strict_input_nack, strict_input_ack, apply_strict_input, accept_strict_input_batch,
}
use sn_netplay_serv.Rooms.Room.StrictInput.Laws.{
  Took, accept_strict_input_batch-Took, IsSender, accept_strict_input_batch-IsSender, Rejected,
  accept_strict_input_batch-nack,
}
use sn_netplay_serv.Rooms.Room.StrictInput.Stream.{
  segment, deliver, IsHonest, Carries, deliver-Carries,
}
use sn_netplay_serv.Rooms.Slot.{PlayerSlot, holds}
use sn_netplay_serv.Rooms.Types.{
  RoomStatus, PlayerRole, PlayerStatus, PlayerRuntimeState, is_controller_netplay, host, guest,
  controller_netplay,
}

abbrev pub a_slot : PlayerIndex → PlayerRole → ConnectionId → PlayerSlot
a_slot i role c = record {
  player_index = i;
  role = role;
  subject_key = none;
  connection_id = some c;
  input_connection_id = some (c + 10);
  display_name = none;
  status = PlayerStatus.playing;
  runtime_state = PlayerRuntimeState.playing;
  resume_token_hash = none;
  input_socket_token_hash = none;
  input_socket_control_connection_id = none;
  last_seen_at = none;
  latest_local_frame = none;
  latest_local_frame_reported_at = none;
  latest_network_report = none;
  supports_state_file_relay = true;
  supports_rom_file_relay = true;
  supports_scheduled_start = true;
  supports_clock_sync = true;
  supports_fast_input_relay = true;
  latest_network_reported_at = none;
  reconnect_deadline = none;
  runner_handoff_deadline = none;
  reconnect_room_epoch = none;
}

abbrev pub a_room : NetplayRoom
a_room = record {
  protocol_version = 5;
  mode = controller_netplay;
  input_delay_frames = 3;
  max_players = 2;
  players = a_slot 0 host 100 ∷ a_slot 1 guest 200 ∷ [];
  status = RoomStatus.playing;
  room_epoch = 1;
  session_epoch = 2;
  ready_players = [];
  deterministic_ready_players = [];
  clock_sync_request = none;
  clock_uncertainty_by_player = [];
  clock_sample_indices_by_player = [];
  next_clock_sync_request_id = 0;
  last_input_frames = (0, 11) ∷ (1, 9) ∷ [];
  next_input_frames = (0, 12) ∷ (1, 10) ∷ [];
  host_snapshot_completed = true;
  completed_snapshot_manifest = none;
  next_pause_sequence = 0;
  pause_state = none;
  snapshot_transfer = none;
  sync_start_frame = 0;
  room_frame = 9;
  released_frame = some 9;
  next_release_frame = 10;
  pending_input_delay_change = none;
  state_hashes = [];
  state_hash_true_mismatch_streak = 0;
  next_authoritative_state_hash_frame = 600;
  next_state_recovery_id = 1;
  state_recovery = none;
  state_recovery_started_at = [];
  scheduled_start = none;
  pending_host_frame_open = none;
}

-- Frames 9 to 11 of the guest: 9 was sent before.
abbrev pub guest_batch : StrictInputBatch
guest_batch = record {
  room_epoch = 1;
  session_epoch = 2;
  player_index = 1;
  start_frame = 9;
  payloads = (9 ∷ []) ∷ (10 ∷ []) ∷ (11 ∷ []) ∷ [];
}

abbrev pub room_after : NetplayRoom
room_after = record a_room {
  last_input_frames = (0, 11) ∷ (1, 11) ∷ [];
  next_input_frames = (0, 12) ∷ (1, 12) ∷ [];
}

abbrev guest_outcome : StrictInputBatchOutcome
guest_outcome = record {
  response =
      ack
        (record { room_epoch = 1; session_epoch = 2; player_index = 1; next_expected_frame = 12 });
  accepted_batch =
      some (record guest_batch { start_frame = 10; payloads = (10 ∷ []) ∷ (11 ∷ []) ∷ [] });
  duplicate_frame_count = 1;
}

guest_batch-accepted :
    accept_strict_input_batch a_room 210 guest_batch ≡ ok (room_after, guest_outcome)
unfolding accept_strict_input_batch apply_strict_input validate_strict_input_sender
    strict_input_state_accepts takes_input uses_strict_controller_input is_controller_netplay
    player_index_for_input_connection holds next_input_frame lookup insert strict_input_ack
guest_batch-accepted = refl

accept_strict_input_batch-Took_example : Took a_room guest_batch room_after guest_outcome
accept_strict_input_batch-Took_example =
    accept_strict_input_batch-Took a_room 210 guest_batch room_after guest_outcome (omega arith)
      guest_batch-accepted

accept_strict_input_batch-IsSender_example : IsSender a_room 210 guest_batch
accept_strict_input_batch-IsSender_example =
    accept_strict_input_batch-IsSender a_room 210 guest_batch room_after guest_outcome
      guest_batch-accepted

-- A batch that leaves out frame 10.
abbrev gap_batch : StrictInputBatch
gap_batch = record guest_batch { start_frame = 11 }

abbrev gap_nack : InputCursorNack
gap_nack = record {
  room_epoch = 1;
  session_epoch = 2;
  player_index = 1;
  expected_frame = 10;
  received_frame = 11;
  reason = input_gap;
}

abbrev gap_outcome : StrictInputBatchOutcome
gap_outcome = record { response = nack gap_nack; accepted_batch = none; duplicate_frame_count = 0 }

gap_batch-refused : accept_strict_input_batch a_room 210 gap_batch ≡ ok (a_room, gap_outcome)
unfolding accept_strict_input_batch validate_strict_input_sender strict_input_state_accepts
    takes_input uses_strict_controller_input is_controller_netplay player_index_for_input_connection
    holds next_input_frame lookup strict_input_nack
gap_batch-refused = refl

accept_strict_input_batch-nack_example :
    (a_room ≡ a_room) × (gap_outcome.accepted_batch ≡ none) × Rejected a_room gap_batch gap_nack
accept_strict_input_batch-nack_example =
    accept_strict_input_batch-nack a_room 210 gap_batch a_room gap_outcome gap_nack
      gap_batch-refused refl

-- The guest's input for a frame is the frame's number; the gap comes first and changes nothing.
abbrev guest_input : ℕ → List ℕ
guest_input n = n ∷ []

guest_batch-IsHonest : IsHonest 1 guest_input (210, guest_batch)
unfolding segment
guest_batch-IsHonest = (omega arith, λ e. refl)

abbrev honest_gap : StrictInputBatch
honest_gap = record gap_batch { payloads = (11 ∷ []) ∷ [] }

honest_gap-IsHonest : IsHonest 1 guest_input (210, honest_gap)
unfolding segment
honest_gap-IsHonest = (omega arith, λ e. refl)

deliver-Carries_example :
    Carries 1 guest_input a_room
      (deliver 1 a_room ((210, honest_gap) ∷ (210, guest_batch) ∷ (210, guest_batch) ∷ []))
deliver-Carries_example =
    deliver-Carries 1 guest_input a_room
      ((210, honest_gap) ∷ (210, guest_batch) ∷ (210, guest_batch) ∷ [])
      (honest_gap-IsHonest, (guest_batch-IsHonest, (guest_batch-IsHonest, tt)))
