-- ===== src/Rooms/Room/StrictInput.antt =====
-- src/rooms/room_strict_input_ops.rs: the v5 input cursor. An error leaves the room as it was, so
-- only a result carries the new room. `usize` has 64 bits, so the offset always fits it.
pub mod Laws
pub mod Progress
pub mod Stream
use sn_netplay_serv.Base.{
  ltb, leb, ◌==◌, if◌then◌else◌, saturating_add, checked_add, length, drop, Result, ◌>>=◌, ◌>>◌,
  fail_if, ok_or, ok, ℕ, ◌-◌, max, Bool, true, false, not, ◌&&◌, ◌||◌, Option, none, some,
}
use sn_netplay_serv.Base.Maps.{insert, lookup_or}
use sn_netplay_serv.Protocol.Ids.{PlayerIndex, ConnectionId}
use sn_netplay_serv.Protocol.Limits.{v5_max_future_frame_distance}
use sn_netplay_serv.Protocol.StrictInput.Batch.{StrictInputBatch}
use sn_netplay_serv.Protocol.StrictInput.Cursor.{
  InputCursorNackReason, InputCursorResponse, input_gap, session_state, ack, nack,
}
use sn_netplay_serv.Rooms.Room.{
  NetplayRoom, uses_strict_controller_input, player_index_for_input_connection, next_input_frame,
}
use sn_netplay_serv.Rooms.Types.{
  future_frame_too_large, RoomError, RoomStatus, unknown_connection, slot_spoofing, invalid_payload,
  syncing_state, ready, start_scheduled, playing,
}

pub record StrictInputBatchOutcome : Type 0 where
  pub response : InputCursorResponse
  pub accepted_batch : Option StrictInputBatch
  pub duplicate_frame_count : ℕ

-- `validate_strict_input_sender`
unfoldable pub validate_strict_input_sender :
    NetplayRoom → ConnectionId → StrictInputBatch → Result RoomError (Unit {0})
validate_strict_input_sender r connection batch = do
  fail_if (not (uses_strict_controller_input r)) invalid_payload
  owned ← ok_or (player_index_for_input_connection r connection) unknown_connection
  fail_if (not (owned == batch.player_index)) (slot_spoofing batch.player_index)

-- The statuses that `strict_input_state_accepts` matches.
unfoldable pub takes_input : RoomStatus → Bool
takes_input RoomStatus.syncing_state = true
takes_input RoomStatus.ready = true
takes_input RoomStatus.start_scheduled = true
takes_input RoomStatus.playing = true
takes_input RoomStatus.paused = true
takes_input _ = false

-- `strict_input_state_accepts`
unfoldable pub strict_input_state_accepts : NetplayRoom → ℕ → Bool
strict_input_state_accepts r frame = takes_input r.status && elim r.pause_state [
  | none ↦ true
  | some pause ↦ leb frame (saturating_add pause.pause_at_frame r.input_delay_frames)
]

-- `strict_input_nack`
unfoldable pub strict_input_nack :
    NetplayRoom → PlayerIndex → ℕ → ℕ → InputCursorNackReason → StrictInputBatchOutcome
strict_input_nack r player_index expected_frame received_frame reason = record {
  response = nack (record {
    room_epoch = r.room_epoch;
    session_epoch = r.session_epoch;
    player_index = player_index;
    expected_frame = expected_frame;
    received_frame = received_frame;
    reason = reason;
  });
  accepted_batch = none;
  duplicate_frame_count = 0;
}

-- `InputCursorResponse::Ack`
unfoldable pub strict_input_ack :
    NetplayRoom → PlayerIndex → ℕ → Option StrictInputBatch → ℕ → StrictInputBatchOutcome
strict_input_ack r player_index next_expected_frame accepted duplicates = record {
  response = ack (record {
    room_epoch = r.room_epoch;
    session_epoch = r.session_epoch;
    player_index = player_index;
    next_expected_frame = next_expected_frame;
  });
  accepted_batch = accepted;
  duplicate_frame_count = duplicates;
}

-- The part from `first_new_frame` on: the suffix of the batch that is new, or an old duplicate.
unfoldable pub apply_strict_input :
    NetplayRoom
    → StrictInputBatch
    → ℕ
    → ℕ
    → Result RoomError (NetplayRoom × StrictInputBatchOutcome)
unfolding strict_input_ack
apply_strict_input r batch expected end =
    let first_new_frame = max expected batch.start_frame in
    let frame_count = length batch.payloads in
    if leb first_new_frame end
    then (do
      let payloads = drop (first_new_frame - batch.start_frame) batch.payloads
      next_expected_frame ← ok_or (checked_add end 1) invalid_payload
      ok (
        record r {
          last_input_frames = insert batch.player_index end r.last_input_frames;
          next_input_frames = insert batch.player_index next_expected_frame r.next_input_frames;
        },
        strict_input_ack r batch.player_index
            (lookup_or batch.player_index
              (insert batch.player_index next_expected_frame r.next_input_frames) expected)
            (some (record batch { start_frame = first_new_frame; payloads = payloads }))
            (frame_count - length payloads),
      ))
    else ok (
      r,
      strict_input_ack r batch.player_index
          (lookup_or batch.player_index r.next_input_frames expected) none (frame_count - 0),
    )

-- `accept_strict_input_batch`
unfoldable pub accept_strict_input_batch :
    NetplayRoom
    → ConnectionId
    → StrictInputBatch
    → Result RoomError (NetplayRoom × StrictInputBatchOutcome)
unfolding strict_input_nack
accept_strict_input_batch r connection batch = do
  validate_strict_input_sender r connection batch
  let player_index = batch.player_index
  let expected = next_input_frame r player_index
  let maximum_frame = saturating_add r.next_release_frame v5_max_future_frame_distance
  if not (batch.room_epoch == r.room_epoch) || not (batch.session_epoch == r.session_epoch)
      then ok (r, strict_input_nack r player_index expected batch.start_frame session_state)
      else (do
        end ← ok_or (checked_add batch.start_frame (length batch.payloads - 1)) invalid_payload
        if not (strict_input_state_accepts r end)
            then ok (r, strict_input_nack r player_index expected end session_state)
            else if ltb expected batch.start_frame
            then ok (r, strict_input_nack r player_index expected batch.start_frame input_gap)
            else if ltb maximum_frame end
            then ok (
              r,
              strict_input_nack r player_index expected (saturating_add maximum_frame 1)
                  InputCursorNackReason.future_frame_too_large,
            )
            else apply_strict_input r batch expected end)
