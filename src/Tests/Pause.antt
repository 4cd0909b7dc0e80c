-- ===== src/Tests/Pause.antt =====
-- A pause of the room of `Tests.Lane` at frame 17.
use sn_netplay_serv.Base.{ok, ◌+◌, ◌≤◌, max, ◌≡◌, refl, true, none, some, [], ◌∷◌, arith}
use sn_netplay_serv.Base.Maps.{lookup, remove, contains, set_insert}
use sn_netplay_serv.Protocol.StrictInput.Batch.{StrictInputBatch}
use sn_netplay_serv.Protocol.StrictInput.Cursor.{session_state, ack, nack}
use sn_netplay_serv.Rooms.Pause.{
  PauseTracker, acknowledge, release, has_sequence, resume_at_frame,
  every_connected_player_acknowledged, has_holders, menu,
}
use sn_netplay_serv.Rooms.Room.{
  ScheduledSessionStart, NetplayRoom, uses_strict_controller_input, player_index_for_connection,
  player_index_for_input_connection, connected_player_indices, mark_connected, next_input_frame,
  bump_session_epoch,
}
use sn_netplay_serv.Rooms.Room.HostFrame.{release_due_v5_host_frame}
use sn_netplay_serv.Rooms.Room.PauseOps.{
  current_pause_state, pause_frame_is_invalid, pause_is_early, complete_pause,
  mark_session_pause_reached, release_holder, request_session_resume, resumed_v5,
  reached_resumed_v5,
}
use sn_netplay_serv.Rooms.Room.PauseOps.Resume.{
  Resumed, request_session_resume-Resumed, request_session_resume-stale,
}
use sn_netplay_serv.Rooms.Room.Reset.{clear_for_resume, begin_v5_pause_resume}
use sn_netplay_serv.Rooms.Room.StartSync.{v5_resume_start, schedule_v5_resume}
use sn_netplay_serv.Rooms.Room.StrictInput.{
  StrictInputBatchOutcome, validate_strict_input_sender, takes_input, strict_input_state_accepts,
  strict_input_nack, accept_strict_input_batch,
}
use sn_netplay_serv.Rooms.Room.StrictInput.Laws.{IsSender}
use sn_netplay_serv.Rooms.Room.StrictInput.Progress.{accept_strict_input_batch-ack}
use sn_netplay_serv.Rooms.Session.{due_step, no_step, and_step}
use sn_netplay_serv.Rooms.Session.Held.{Held}
use sn_netplay_serv.Rooms.Session.Invariant.{Synced}
use sn_netplay_serv.Rooms.Session.LastReach.{reach-lossless}
use sn_netplay_serv.Rooms.Session.Pausing.{Steps-Held, resume-lossless}
use sn_netplay_serv.Rooms.Slot.{is_connected, holds}
use sn_netplay_serv.Rooms.Types.{RoomStatus, status_code, has_status, is_controller_netplay}
use sn_netplay_serv.Tests.Lane.{a_room, guest_batch}

abbrev a_pause : PauseTracker
a_pause = record {
  acknowledged_players = 0 ∷ 1 ∷ [];
  holders = (1, menu) ∷ [];
  pause_at_frame = 17;
  pause_request_ids = [];
  paused_at_frame = some 17;
  reason = menu;
  resume_request_ids = [];
  requested_by_player_index = 1;
  sequence = 4;
}

abbrev paused_room : NetplayRoom
paused_room = record a_room {
  status = RoomStatus.paused;
  last_input_frames = (0, 20) ∷ (1, 18) ∷ [];
  next_input_frames = (0, 21) ∷ (1, 19) ∷ [];
  pause_state = some a_pause;
  room_frame = 17;
  released_frame = some 17;
  next_release_frame = 18;
}

abbrev free_room : NetplayRoom
free_room = record paused_room { pause_state = some (record a_pause { holders = [] }) }

abbrev resumed_room : NetplayRoom
resumed_room = (begin_v5_pause_resume free_room 18 5000).0

abbrev resume_start : ScheduledSessionStart
resume_start = (begin_v5_pause_resume free_room 18 5000).1

resumes :
    request_session_resume paused_room 200 [] 4 (some 5000)
    ≡ (resumed_room, ok (resumed_v5 resume_start))
unfolding request_session_resume release_holder player_index_for_connection holds has_sequence
    release remove has_holders has_status status_code uses_strict_controller_input
    is_controller_netplay resume_at_frame current_pause_state
resumes = refl

request_session_resume-Resumed_example :
    (t : PauseTracker) × (paused_room.pause_state ≡ some t)
    × (t.sequence ≡ 4)
    × (has_status paused_room.status RoomStatus.paused ≡ true)
    × Resumed paused_room resumed_room (resume_at_frame t) 5000 resume_start
request_session_resume-Resumed_example =
    request_session_resume-Resumed paused_room 200 [] 4 5000 resumed_room resume_start resumes

abbrev late_batch : StrictInputBatch
late_batch = record guest_batch { start_frame = 18 }

abbrev late_outcome : StrictInputBatchOutcome
late_outcome = record {
  response = nack (record {
    room_epoch = 1;
    session_epoch = 3;
    player_index = 1;
    expected_frame = 18;
    received_frame = 18;
    reason = session_state;
  });
  accepted_batch = none;
  duplicate_frame_count = 0;
}

late_batch-refused :
    accept_strict_input_batch resumed_room 210 late_batch ≡ ok (resumed_room, late_outcome)
unfolding accept_strict_input_batch validate_strict_input_sender uses_strict_controller_input
    is_controller_netplay player_index_for_input_connection holds next_input_frame lookup
    strict_input_nack begin_v5_pause_resume clear_for_resume schedule_v5_resume bump_session_epoch
    mark_connected is_connected
late_batch-refused = refl

request_session_resume-stale_example :
    (resumed_room ≡ resumed_room) × (late_outcome.accepted_batch ≡ none)
request_session_resume-stale_example =
    request_session_resume-stale paused_room 200 [] 4 5000 resumed_room resume_start 210 late_batch
      resumed_room late_outcome resumes (omega arith) refl late_batch-refused

paused_room-Synced : Synced paused_room
unfolding next_input_frame lookup
paused_room-Synced = record {
  covered = omega arith;
  bounded = omega arith;
  follows = λ f h. ground arith;
  waits = λ f h. ground arith;
  repairs = λ t h. ground arith;
}

paused_room-Held : Held paused_room
unfolding uses_strict_controller_input is_controller_netplay has_status status_code
paused_room-Held = record {
  strict = refl;
  near = omega arith;
  ahead = λ t e. ground arith;
  no_pause = λ e. ground arith;
  reached = λ t f e g. ground arith;
  settled = λ e. (a_pause, refl, refl);
}

Steps-Held_example : Held (release_due_v5_host_frame paused_room 6000).0
Steps-Held_example =
    Steps-Held (and_step no_step (due_step 6000)) paused_room-Synced paused_room-Held

resume-lossless_example :
    (resume_start.start_frame ≡ paused_room.next_release_frame)
    × (resumed_room.next_release_frame ≡ paused_room.next_release_frame)
    × ((p : PauseTracker) × (paused_room.pause_state ≡ some p)
        × (paused_room.next_release_frame ≡ p.pause_at_frame + 1))
resume-lossless_example =
    resume-lossless paused_room paused_room resumed_room 200 [] 4 5000 resume_start
      paused_room-Synced paused_room-Held no_step resumes

guest_batch-IsSender : IsSender a_room 210 guest_batch
unfolding uses_strict_controller_input is_controller_netplay player_index_for_input_connection holds
guest_batch-IsSender = (refl, refl)

guest_batch-state : strict_input_state_accepts a_room 11 ≡ true
unfolding strict_input_state_accepts takes_input
guest_batch-state = refl

guest_batch-start : 9 ≤ next_input_frame a_room 1
unfolding next_input_frame lookup
guest_batch-start = omega arith

accept_strict_input_batch-ack_example :
    (r' : NetplayRoom) × (o : StrictInputBatchOutcome) × (accept_strict_input_batch a_room 210
        guest_batch
      ≡ ok (r', o))
    × (next_input_frame r' 1 ≡ max (next_input_frame a_room 1) 12)
    × (o.response
        ≡ ack (record {
          room_epoch = 1;
          session_epoch = 2;
          player_index = 1;
          next_expected_frame = next_input_frame r' 1;
        }))
accept_strict_input_batch-ack_example =
    accept_strict_input_batch-ack a_room 210 guest_batch guest_batch-IsSender refl refl
      (omega arith) guest_batch-state guest_batch-start (omega arith) (omega arith)

-- Nobody holds the pause any more, and the last acknowledgement is the guest's.
abbrev waiting_room : NetplayRoom
waiting_room = record paused_room {
  status = RoomStatus.playing;
  pause_state = some (record a_pause { holders = []; acknowledged_players = 0 ∷ [] });
}

abbrev reached_room : NetplayRoom
reached_room =
    (begin_v5_pause_resume
      (record waiting_room {
        pause_state = some (record a_pause { holders = []; acknowledged_players = 1 ∷ 0 ∷ [] });
      })
      18 5000).0

reaches :
    mark_session_pause_reached waiting_room 200 4 17 (some 5000)
    ≡ (reached_room, ok (reached_resumed_v5 4 resume_start))
unfolding mark_session_pause_reached player_index_for_connection holds has_sequence has_holders
    uses_strict_controller_input is_controller_netplay resume_at_frame pause_frame_is_invalid
    pause_is_early next_input_frame lookup connected_player_indices is_connected acknowledge
    set_insert every_connected_player_acknowledged contains complete_pause begin_v5_pause_resume
    clear_for_resume schedule_v5_resume v5_resume_start bump_session_epoch mark_connected
reaches = refl

waiting_room-Synced : Synced waiting_room
unfolding next_input_frame lookup
waiting_room-Synced = record {
  covered = omega arith;
  bounded = omega arith;
  follows = λ f h. ground arith;
  waits = λ f h. ground arith;
  repairs = λ t h. ground arith;
}

waiting_room-Held : Held waiting_room
unfolding uses_strict_controller_input is_controller_netplay has_status status_code
waiting_room-Held = record {
  strict = refl;
  near = omega arith;
  ahead = λ t e. ground arith;
  no_pause = λ e. ground arith;
  reached = λ t f e g. ground arith;
  settled = λ e. ground arith;
}

reach-lossless_example :
    (waiting_room.next_release_frame ≡ 17 + 1)
    × Resumed waiting_room reached_room waiting_room.next_release_frame 5000 resume_start
reach-lossless_example =
    reach-lossless waiting_room waiting_room reached_room 200 4 17 5000 resume_start
      waiting_room-Synced waiting_room-Held no_step reaches
