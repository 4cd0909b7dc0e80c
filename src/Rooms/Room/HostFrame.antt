-- ===== src/Rooms/Room/HostFrame.antt =====
-- src/rooms/room_host_frame_ops.rs: the host opens frames and the room releases them. Every check
-- stands before the first change, so an error leaves the room as it was.
pub mod Laws
pub mod Again
use mathlib.Core.Option
use sn_netplay_serv.Base.{
  ltb, ◌==◌, if◌then◌else◌, saturating_add, any, filter, Result, ◌>>=◌, ◌>>◌, fail_if, ok_or, ok,
  err, ℕ, ◌-◌, max, Bool, false, not, ◌&&◌, ◌||◌, Option, none, some, map,
}
use sn_netplay_serv.Protocol.Ids.{ConnectionId, player_one}
use sn_netplay_serv.Protocol.StrictInput.FrameClock.{HostFrameOpen, ServerFrameReleaseV5}
use sn_netplay_serv.Rooms.Room.{
  NetplayRoom, uses_strict_controller_input, player_index_for_input_connection, mark_connected,
  next_input_frame,
}
use sn_netplay_serv.Rooms.Slot.{PlayerSlot, slot_is_empty}
use sn_netplay_serv.Rooms.Types.{
  RoomError, RoomStatus, has_status, is_host, PlayerStatus, PlayerRuntimeState, unknown_connection,
  out_of_order_frame, room_not_ready, host_only, invalid_payload,
}

pub data HostFrameOpenOutcome : Type 0 where
  released duplicate : ServerFrameReleaseV5 → HostFrameOpenOutcome
  ignored_transition_boundary : HostFrameOpenOutcome
  pending : ℕ → HostFrameOpenOutcome

-- `validate_host_frame_sender`
unfoldable pub validate_host_frame_sender : NetplayRoom → ConnectionId → Result RoomError (Unit {0})
validate_host_frame_sender r connection = do
  fail_if (not (uses_strict_controller_input r)) invalid_payload
  owned ← ok_or (player_index_for_input_connection r connection) unknown_connection
  fail_if (not (any (λ (s : PlayerSlot). (s.player_index == owned) && is_host s.role) r.players))
      host_only

-- `host_input_covers`
unfoldable pub host_input_covers : NetplayRoom → ℕ → Bool
host_input_covers r frame = ltb frame (next_input_frame r player_one)

-- `enter_v5_playing`, with `finish_v5_state_recovery` of src/rooms/room_v5_recovery_ops.rs
unfoldable pub enter_v5_playing : NetplayRoom → NetplayRoom
enter_v5_playing r = record r {
  status = RoomStatus.playing;
  state_recovery = none;
  players = mark_connected PlayerStatus.playing PlayerRuntimeState.playing r.players;
}

-- The release that `current_v5_release` builds from the released frame.
unfoldable pub v5_release : NetplayRoom → ℕ → ServerFrameReleaseV5
v5_release r frame = record {
  room_epoch = r.room_epoch;
  session_epoch = r.session_epoch;
  released_frame = frame;
  next_host_frame = r.next_release_frame;
  accepted_inputs =
      map
        (λ (s : PlayerSlot). record {
          player_index = s.player_index;
          next_expected_frame = next_input_frame r s.player_index;
        })
        (filter (λ (s : PlayerSlot). not (slot_is_empty s)) r.players);
}

-- `current_v5_release`
unfoldable pub current_v5_release : NetplayRoom → Option ServerFrameReleaseV5
current_v5_release r = Option.map (v5_release r) r.released_frame

-- The room after `release_v5_host_frame`.
unfoldable pub advance_release : NetplayRoom → ℕ → NetplayRoom
advance_release r frame = record r {
  pending_host_frame_open = none;
  next_release_frame = saturating_add frame 1;
  released_frame = some frame;
  room_frame = max r.room_frame frame;
}

-- `release_v5_host_frame`; the released frame was just set, so its `expect` does not fail.
unfoldable pub release_v5_host_frame : NetplayRoom → ℕ → NetplayRoom × ServerFrameReleaseV5
release_v5_host_frame r frame =
    (advance_release r frame, v5_release (advance_release r frame) frame)

-- The last steps of `accept_host_frame_open`: a scheduled first frame may have to wait.
unfoldable pub open_frame :
    NetplayRoom → ℕ → ℕ → Result RoomError (NetplayRoom × HostFrameOpenOutcome)
unfolding release_v5_host_frame enter_v5_playing
open_frame r frame server_time_ms =
    if has_status r.status RoomStatus.start_scheduled
    then (do
      start ← ok_or r.scheduled_start room_not_ready
      if not (frame == start.start_frame)
          then err out_of_order_frame
          else if ltb server_time_ms start.server_time_ms
          then ok (
            record r { pending_host_frame_open = some frame },
            pending (start.server_time_ms - server_time_ms),
          )
          else ok (
            advance_release (enter_v5_playing r) frame,
            released (release_v5_host_frame (enter_v5_playing r) frame).1,
          ))
    else ok (advance_release r frame, released (release_v5_host_frame r frame).1)

-- The pause whose frame an open has passed.
unfoldable pub is_past_pause : NetplayRoom → ℕ → Bool
is_past_pause r frame = elim r.pause_state [
  | none ↦ false
  | some pause ↦ ltb pause.pause_at_frame frame
]

-- `accept_host_frame_open`. The test of the status before `open_frame` leaves only the two statuses
-- that `open_frame` tells apart, so the source's last `else if` is never taken.
unfoldable pub accept_host_frame_open :
    NetplayRoom
    → ConnectionId
    → HostFrameOpen
    → ℕ
    → Result RoomError (NetplayRoom × HostFrameOpenOutcome)
accept_host_frame_open r connection opened server_time_ms = do
  validate_host_frame_sender r connection
  if not (opened.room_epoch == r.room_epoch) || not (opened.session_epoch == r.session_epoch)
      then elim (current_v5_release r) [
        | none ↦ ok (r, ignored_transition_boundary)
        | some last ↦ ok (r, duplicate last)
      ]
      else if has_status r.status RoomStatus.repairing_state
      then ok (r, ignored_transition_boundary)
      else if ltb opened.frame r.next_release_frame
      then elim (current_v5_release r) [
        | none ↦ err out_of_order_frame
        | some last ↦ ok (r, duplicate last)
      ]
      else if is_past_pause r opened.frame
      then ok (r, ignored_transition_boundary)
      else if has_status r.status RoomStatus.start_scheduled
          && ltb r.next_release_frame opened.frame
      then ok (r, ignored_transition_boundary)
      else if not
          (has_status r.status RoomStatus.start_scheduled || has_status r.status RoomStatus.playing)
      then ok (r, ignored_transition_boundary)
      else if ltb r.next_release_frame opened.frame || not (host_input_covers r opened.frame)
      then err out_of_order_frame
      else open_frame r opened.frame server_time_ms

-- `release_due_v5_host_frame`
unfoldable pub release_due_v5_host_frame :
    NetplayRoom → ℕ → NetplayRoom × Option ServerFrameReleaseV5
unfolding release_v5_host_frame enter_v5_playing
release_due_v5_host_frame r server_time_ms = elim r.pending_host_frame_open [
  | none ↦ (r, none)
  | some frame ↦ elim r.scheduled_start [
    | none ↦ (r, none)
    | some start ↦
        if not (has_status r.status RoomStatus.start_scheduled)
          || ltb server_time_ms start.server_time_ms
        then (r, none)
        else (
          advance_release (enter_v5_playing r) frame,
          some (release_v5_host_frame (enter_v5_playing r) frame).1,
        )
  ]
]
