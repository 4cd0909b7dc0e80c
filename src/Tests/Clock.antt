-- ===== src/Tests/Clock.antt =====
-- The frame clock of the room of `Tests.Lane`.
use sn_netplay_serv.Base.{saturating_add, ok, ◌≤◌, ◌<◌, ◌≡◌, refl, ◌⊎◌, false, some, [], ◌∷◌, arith}
use sn_netplay_serv.Base.Maps.{lookup}
use sn_netplay_serv.Protocol.Ids.{player_one}
use sn_netplay_serv.Protocol.StrictInput.FrameClock.{HostFrameOpen, ServerFrameReleaseV5}
use sn_netplay_serv.Rooms.Room.{
  ScheduledSessionStart, NetplayRoom, uses_strict_controller_input,
  player_index_for_input_connection, next_input_frame,
}
use sn_netplay_serv.Rooms.Room.HostFrame.{
  validate_host_frame_sender, host_input_covers, v5_release, current_v5_release, advance_release,
  release_v5_host_frame, open_frame, is_past_pause, accept_host_frame_open,
  release_due_v5_host_frame, released, duplicate,
}
use sn_netplay_serv.Rooms.Room.HostFrame.Again.{accept_host_frame_open-again}
use sn_netplay_serv.Rooms.Room.HostFrame.Laws.{IsHostConnection, accept_host_frame_open-released}
use sn_netplay_serv.Rooms.Session.{Steps, open_step, due_step, no_step, and_step}
use sn_netplay_serv.Rooms.Session.Invariant.{Synced}
use sn_netplay_serv.Rooms.Session.Reachable.{Steps-Synced}
use sn_netplay_serv.Rooms.Slot.{slot_is_empty, holds}
use sn_netplay_serv.Rooms.Types.{
  RoomStatus, status_code, has_status, is_host, is_controller_netplay,
}
use sn_netplay_serv.Tests.Lane.{a_room}

abbrev next_open : HostFrameOpen
next_open = record { room_epoch = 1; session_epoch = 2; frame = 10 }

abbrev room_10 : NetplayRoom
room_10 = record a_room { room_frame = 10; released_frame = some 10; next_release_frame = 11 }

abbrev release_10 : ServerFrameReleaseV5
release_10 = record {
  room_epoch = 1;
  session_epoch = 2;
  released_frame = 10;
  next_host_frame = 11;
  accepted_inputs =
      record { player_index = 0; next_expected_frame = 12 }
      ∷ record { player_index = 1; next_expected_frame = 10 }
      ∷ [];
}

next_open-released :
    accept_host_frame_open a_room 110 next_open 5000 ≡ ok (room_10, released release_10)
unfolding accept_host_frame_open validate_host_frame_sender uses_strict_controller_input
    is_controller_netplay player_index_for_input_connection holds is_host has_status status_code
    is_past_pause host_input_covers next_input_frame lookup open_frame release_v5_host_frame
    advance_release v5_release slot_is_empty current_v5_release
next_open-released = refl

accept_host_frame_open-released_example :
    IsHostConnection a_room 110
    × (release_10.released_frame ≡ a_room.next_release_frame)
    × (next_open ≡ record { room_epoch = 1; session_epoch = 2; frame = 10 })
    × (10 < next_input_frame a_room player_one)
    × (is_past_pause a_room 10 ≡ false)
    × ((has_status a_room.status RoomStatus.start_scheduled ≡ false)
        ⊎ ((start : ScheduledSessionStart) × (a_room.scheduled_start ≡ some start)
            × (start.server_time_ms ≤ 5000)
            × (10 ≡ start.start_frame)))
    × (room_10.released_frame ≡ some 10)
    × (room_10.next_release_frame ≡ saturating_add 10 1)
    × (current_v5_release room_10 ≡ some release_10)
accept_host_frame_open-released_example =
    accept_host_frame_open-released a_room 110 next_open 5000 room_10 release_10 next_open-released

accept_host_frame_open-again_example :
    accept_host_frame_open room_10 110 next_open 9000 ≡ ok (room_10, duplicate release_10)
accept_host_frame_open-again_example =
    accept_host_frame_open-again a_room 110 next_open 5000 9000 room_10 release_10 (omega arith)
      next_open-released

a_room-Synced : Synced a_room
unfolding next_input_frame lookup
a_room-Synced = record {
  covered = omega arith;
  bounded = omega arith;
  follows = λ f h. ground arith;
  waits = λ f h. ground arith;
  repairs = λ t h. ground arith;
}

a_room-Steps : Steps a_room (release_due_v5_host_frame room_10 6000).0
a_room-Steps =
    and_step
      (and_step no_step (open_step 110 next_open 5000 (released release_10) next_open-released))
      (due_step 6000)

Steps-Synced_example : Synced (release_due_v5_host_frame room_10 6000).0
Steps-Synced_example = Steps-Synced a_room-Steps a_room-Synced
