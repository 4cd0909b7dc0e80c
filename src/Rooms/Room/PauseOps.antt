-- ===== src/Rooms/Room/PauseOps.antt =====
-- src/rooms/room_controller_netplay_ops.rs: the coordinated pause. The
-- calls that change the room before they can fail return the room beside their result.
pub mod Resume
use sn_netplay_serv.Base.{
  ltb, leb, ◌==◌, if◌then◌else◌, saturating_add, any, Result, ◌>>=◌, ◌>>◌, fail_if, ok_or, ok, err,
  ℕ, max, Bool, true, not, ◌&&◌, ◌||◌, Option, none, some,
}
use sn_netplay_serv.Base.Maps.{Text}
use sn_netplay_serv.Protocol.Ids.{ConnectionId}
use sn_netplay_serv.Rooms.Pause.{
  SessionPauseReason, SessionPauseState, SessionPauseView, PauseTracker, new_pause, hold,
  acknowledge, release, has_sequence, resume_at_frame, every_connected_player_acknowledged,
  has_holders, view,
}
use sn_netplay_serv.Rooms.Room.{
  ScheduledSessionStart, NetplayRoom, uses_strict_controller_input, player_index_for_connection,
  connected_player_indices, mark_connected, next_input_frame,
}
use sn_netplay_serv.Rooms.Room.Reset.{begin_v5_pause_resume}
use sn_netplay_serv.Rooms.Types.{
  RoomError, RoomStatus, has_status, PlayerStatus, PlayerRuntimeState, unknown_connection,
  not_playing, room_not_ready,
}

abbrev pub session_pause_lead_frames : ℕ
session_pause_lead_frames = 8

pub data SessionResumeOutcome : Type 0 where
  still_paused : SessionPauseView → SessionResumeOutcome
  resumed : ℕ → SessionResumeOutcome
  resumed_v5 : ScheduledSessionStart → SessionResumeOutcome

pub data SessionPauseReachedOutcome : Type 0 where
  reached_pausing reached_paused : SessionPauseView → SessionPauseReachedOutcome
  reached_resumed : ℕ → ℕ → SessionPauseReachedOutcome
  reached_resumed_v5 : ℕ → ScheduledSessionStart → SessionPauseReachedOutcome

-- `current_pause_state`
unfoldable pub current_pause_state : NetplayRoom → SessionPauseState
current_pause_state r =
    if has_status r.status RoomStatus.paused
    then SessionPauseState.paused
    else SessionPauseState.pausing

-- The frame at which a new pause takes hold.
unfoldable pub new_pause_frame : NetplayRoom → ℕ → ℕ
new_pause_frame r local_frame =
    saturating_add (max r.room_frame local_frame) session_pause_lead_frames

-- `request_session_pause_with_id`
unfoldable pub request_session_pause_with_id :
    NetplayRoom
    → ConnectionId
    → Text
    → SessionPauseReason
    → ℕ
    → Result RoomError (NetplayRoom × SessionPauseView)
request_session_pause_with_id r connection request_id reason local_frame = do
  fail_if
      (not (has_status r.status RoomStatus.playing) && not (has_status r.status RoomStatus.paused))
      not_playing
  player_index ← ok_or (player_index_for_connection r connection) unknown_connection
  elim r.pause_state [
    | some pause ↦ ok (
      record r { pause_state = some (hold pause player_index request_id reason) },
      view (hold pause player_index request_id reason) (current_pause_state r),
    )
    | none ↦
        let pause =
          new_pause r.next_pause_sequence request_id reason player_index
            (new_pause_frame r local_frame) in
        ok (
          record r {
            next_pause_sequence = saturating_add r.next_pause_sequence 1;
            pause_state = some pause;
          },
          view pause SessionPauseState.pausing,
        )
  ]

-- The end of a pause below protocol v5: play goes on.
unfoldable pub resume_playing : NetplayRoom → NetplayRoom
resume_playing r = record r {
  pause_state = none;
  status = RoomStatus.playing;
  players = mark_connected PlayerStatus.playing PlayerRuntimeState.playing r.players;
}

-- The whole room paused.
unfoldable pub pause_room : NetplayRoom → NetplayRoom
pause_room r = record r {
  status = RoomStatus.paused;
  players = mark_connected PlayerStatus.paused PlayerRuntimeState.paused r.players;
}

-- The frame that a player reports is not the one that the pause waits for.
unfoldable pub pause_frame_is_invalid : NetplayRoom → PauseTracker → ℕ → Bool
pause_frame_is_invalid r pause paused_at_frame =
    if uses_strict_controller_input r
    then not (paused_at_frame == pause.pause_at_frame)
    else ltb paused_at_frame pause.pause_at_frame

-- In the strict lane the pause frame must be released, and every connected player's input for it
-- accepted.
unfoldable pub pause_is_early : NetplayRoom → PauseTracker → Bool
pause_is_early r pause =
    uses_strict_controller_input r
    && (elim r.released_frame [ none ↦ true | some frame ↦ ltb frame pause.pause_at_frame ]
        || any (λ i. leb (next_input_frame r i) pause.pause_at_frame) (connected_player_indices r))

-- What `mark_session_pause_reached_internal` does once every connected player has acknowledged.
unfoldable pub complete_pause :
    NetplayRoom
    → PauseTracker
    → ℕ
    → Option ℕ
    → NetplayRoom × Result RoomError SessionPauseReachedOutcome
unfolding resume_playing pause_room
complete_pause r pause sequence server_time_ms =
    if has_holders pause
    then (pause_room r, ok (reached_paused (view pause SessionPauseState.paused)))
    else if uses_strict_controller_input r
    then elim server_time_ms [
      | none ↦ (r, err room_not_ready)
      | some now ↦ (
        (begin_v5_pause_resume r (resume_at_frame pause) now).0,
        ok (reached_resumed_v5 sequence (begin_v5_pause_resume r (resume_at_frame pause) now).1),
      )
    ]
    else (resume_playing r, ok (reached_resumed sequence (resume_at_frame pause)))

-- `mark_session_pause_reached_internal`
unfoldable pub mark_session_pause_reached :
    NetplayRoom
    → ConnectionId
    → ℕ
    → ℕ
    → Option ℕ
    → NetplayRoom × Result RoomError SessionPauseReachedOutcome
unfolding complete_pause
mark_session_pause_reached r connection sequence paused_at_frame server_time_ms =
    elim (player_index_for_connection r connection) [
      | none ↦ (r, err unknown_connection)
      | some player_index ↦ elim r.pause_state [
        | none ↦ (r, err room_not_ready)
        | some pause ↦
            let acknowledged = acknowledge pause player_index paused_at_frame in
            let r' = record r { pause_state = some acknowledged } in
            if not (has_sequence pause sequence) || pause_frame_is_invalid r pause paused_at_frame
            then (r, err room_not_ready)
            else if pause_is_early r pause
            then (r, err room_not_ready)
            else if every_connected_player_acknowledged acknowledged (connected_player_indices r)
            then complete_pause r' acknowledged sequence server_time_ms
            else (r', ok (reached_pausing (view acknowledged SessionPauseState.pausing)))
      ]
    ]

-- `request_session_resume_internal` once the sequence fits.
unfoldable pub release_holder :
    NetplayRoom
    → PauseTracker
    → SessionPauseState
    → Option ℕ
    → NetplayRoom × Result RoomError SessionResumeOutcome
unfolding resume_playing
release_holder r pause state server_time_ms =
    if has_holders pause || not (has_status r.status RoomStatus.paused)
    then (r, ok (still_paused (view pause state)))
    else if uses_strict_controller_input r
    then elim server_time_ms [
      | none ↦ (r, err room_not_ready)
      | some now ↦ (
        (begin_v5_pause_resume r (resume_at_frame pause) now).0,
        ok (resumed_v5 (begin_v5_pause_resume r (resume_at_frame pause) now).1),
      )
    ]
    else (resume_playing r, ok (resumed (resume_at_frame pause)))

-- `request_session_resume_internal`
unfoldable pub request_session_resume :
    NetplayRoom
    → ConnectionId
    → Text
    → ℕ
    → Option ℕ
    → NetplayRoom × Result RoomError SessionResumeOutcome
unfolding release_holder
request_session_resume r connection request_id sequence server_time_ms =
    elim (player_index_for_connection r connection) [
      | none ↦ (r, err unknown_connection)
      | some player_index ↦ elim r.pause_state [
        | none ↦ (r, err room_not_ready)
        | some pause ↦
            if not (has_sequence pause sequence)
            then (r, err room_not_ready)
            else release_holder
                (record r { pause_state = some (release pause player_index request_id) })
                (release pause player_index request_id) (current_pause_state r) server_time_ms
      ]
    ]
