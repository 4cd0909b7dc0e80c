-- ===== src/Rooms/Room/PauseOps/Resume.antt =====
-- A resume of protocol v5 in src/rooms/room_controller_netplay_ops.rs and room_v5_pause_ops.rs.
use sn_netplay_serv.Base.{
  Option-cases, u64_max, saturating_add, ok, ℕ, ◌≤◌, ◌<◌, ◌≡◌, refl, ap, inl, inr, true, false,
  Option, none, some, arith,
}
use sn_netplay_serv.Base.Maps.{lookup, Text}
use sn_netplay_serv.Protocol.Ids.{PlayerIndex, ConnectionId}
use sn_netplay_serv.Protocol.StrictInput.Batch.{StrictInputBatch}
use sn_netplay_serv.Rooms.Pause.{PauseTracker, release, has_sequence, resume_at_frame, has_holders}
use sn_netplay_serv.Rooms.Room.{
  ScheduledSessionStart, NetplayRoom, player_index_for_connection, next_input_frame,
  bump_session_epoch,
}
use sn_netplay_serv.Rooms.Room.PauseOps.{release_holder, request_session_resume, resumed_v5}
use sn_netplay_serv.Rooms.Room.Reset.{clear_for_resume, begin_v5_pause_resume}
use sn_netplay_serv.Rooms.Room.StartSync.{v5_resume_start, schedule_v5_resume}
use sn_netplay_serv.Rooms.Room.StrictInput.{
  StrictInputBatchOutcome, strict_input_nack, accept_strict_input_batch,
}
use sn_netplay_serv.Rooms.Types.{RoomStatus, has_status}

-- What a room is after a resume at a frame: a new session epoch, every cursor at the frame, and a
-- start that is scheduled for it.
pub record Resumed (r r' : NetplayRoom) (frame now : ℕ) (start : ScheduledSessionStart)
    : Type 0 where
  pub room_epoch : r'.room_epoch ≡ r.room_epoch
  pub session_epoch : r'.session_epoch ≡ saturating_add r.session_epoch 1
  pub status : r'.status ≡ RoomStatus.start_scheduled
  pub pause : r'.pause_state ≡ none
  pub input_cursors : (i : PlayerIndex) → next_input_frame r' i ≡ frame
  pub release_cursor : r'.next_release_frame ≡ frame
  pub nothing_released : r'.released_frame ≡ none
  pub scheduled : r'.scheduled_start ≡ some start
  pub start_frame : start.start_frame ≡ frame
  pub start_epochs : (start.room_epoch ≡ r'.room_epoch) × (start.session_epoch ≡ r'.session_epoch)
  pub not_before : saturating_add now 3000 ≤ start.server_time_ms

pub begin-Resumed :
    (r : NetplayRoom) (p : Option PauseTracker) (frame now : ℕ)
    → Resumed r
        (begin_v5_pause_resume (record r { pause_state = p }) frame now).0
        frame
        now
        (begin_v5_pause_resume (record r { pause_state = p }) frame now).1
unfolding begin_v5_pause_resume clear_for_resume schedule_v5_resume v5_resume_start
    bump_session_epoch next_input_frame lookup
begin-Resumed r p frame now = record {
  room_epoch = refl;
  session_epoch = refl;
  status = refl;
  pause = refl;
  input_cursors = λ i. refl;
  release_cursor = refl;
  nothing_released = refl;
  scheduled = refl;
  start_frame = refl;
  start_epochs = (refl, refl);
  not_before = omega arith;
}

resume-shape :
    (r : NetplayRoom) (c : ConnectionId) (id : Text) (sequence now : ℕ) (r' : NetplayRoom)
    (start : ScheduledSessionStart) (i : PlayerIndex) (t : PauseTracker)
    → player_index_for_connection r c ≡ some i
    → r.pause_state ≡ some t
    → request_session_resume r c id sequence (some now) ≡ (r', ok (resumed_v5 start))
    → (has_status r.status RoomStatus.paused ≡ true)
      × (t.sequence ≡ sequence)
      × (has_holders (release t i id) ≡ false)
      × ((r', start)
          ≡ begin_v5_pause_resume
              (record r { pause_state = some (release t i id) })
              (resume_at_frame (release t i id))
              now)
unfolding request_session_resume release_holder has_sequence
resume-shape r c id sequence now r' start i t e f h = ground arith

resume-known :
    (r : NetplayRoom) (c : ConnectionId) (id : Text) (sequence now : ℕ) (r' : NetplayRoom)
    (start : ScheduledSessionStart)
    → request_session_resume r c id sequence (some now) ≡ (r', ok (resumed_v5 start))
    → ((player_index_for_connection r c ≡ none) → ⊥) × ((r.pause_state ≡ none) → ⊥)
unfolding request_session_resume
resume-known r c id sequence now r' start h = (λ e. ground arith, λ e. ground arith)

resume_at-release :
    (t : PauseTracker) (i : PlayerIndex) (id : Text)
    → resume_at_frame (release t i id) ≡ resume_at_frame t
unfolding resume_at_frame release
resume_at-release t i id = ground arith

-- A release of the last holder that resumes a room of protocol v5 is one in a paused room, for the
-- pause that has the sequence. It starts the next session epoch with every input cursor and the
-- release cursor at the frame behind the pause and nothing released, ends the pause, and schedules
-- the start for that frame, at least three seconds from now.
pub request_session_resume-Resumed :
    (r : NetplayRoom) (c : ConnectionId) (id : Text) (sequence now : ℕ) (r' : NetplayRoom)
    (start : ScheduledSessionStart)
    → request_session_resume r c id sequence (some now) ≡ (r', ok (resumed_v5 start))
    → (t : PauseTracker) × (r.pause_state ≡ some t)
      × (t.sequence ≡ sequence)
      × (has_status r.status RoomStatus.paused ≡ true)
      × Resumed r r' (resume_at_frame t) now start
request_session_resume-Resumed r c id sequence now r' start h =
    elim (Option-cases (player_index_for_connection r c)) [
      | inl unknown ↦ elim ((resume-known r c id sequence now r' start h).0 unknown) [ ]
      | inr (i, e) ↦ elim (Option-cases r.pause_state) [
        | inl idle ↦ elim ((resume-known r c id sequence now r' start h).1 idle) [ ]
        | inr (t, f) ↦
            let (paused, same, free, made) = resume-shape r c id sequence now r' start i t e f h in
            let frame = resume_at_frame (release t i id) in
            let fresh : Resumed r r' frame now start =
              let r'' = record r { pause_state = some (release t i id) } in
              let room : r' ≡ (begin_v5_pause_resume r'' frame now).0 = ap (λ p. p.0) made in
              let sched : start ≡ (begin_v5_pause_resume r'' frame now).1 = ap (λ p. p.1) made in
              rw (room, sched) (begin-Resumed r (some (release t i id)) frame now) in
            (t, f, same, paused, rw (← resume_at-release t i id) fresh)
      ]
    ]

-- After a resume of protocol v5, a batch of the session epoch before it is answered without an
-- error only by leaving the room as it is and relaying nothing, when that epoch is not the last
-- 64-bit number.
pub request_session_resume-stale :
    (r : NetplayRoom) (c : ConnectionId) (id : Text) (sequence now : ℕ) (r' : NetplayRoom)
    (start : ScheduledSessionStart) (d : ConnectionId) (b : StrictInputBatch) (r'' : NetplayRoom)
    (o : StrictInputBatchOutcome)
    → request_session_resume r c id sequence (some now) ≡ (r', ok (resumed_v5 start))
    → r.session_epoch < u64_max
    → b.session_epoch ≡ r.session_epoch
    → accept_strict_input_batch r' d b ≡ ok (r'', o)
    → (r'' ≡ r') × (o.accepted_batch ≡ none)
unfolding accept_strict_input_batch strict_input_nack
request_session_resume-stale r c id sequence now r' start d b r'' o h below old answer =
    let (t, f, same, paused, made) =
      request_session_resume-Resumed r c id sequence now r' start h in
    let bumped : r'.session_epoch ≡ saturating_add r.session_epoch 1 = made.session_epoch in
    (ground arith, ground arith)
