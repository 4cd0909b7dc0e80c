-- ===== src/Tests/Relay.antt =====
-- Buffers, limits, delays, link packets, invite codes and the older frame clock at work.
use sn_netplay_serv.Base.{
  ◌==◌, if◌then◌else◌, saturating_add, length, all, filter, All, ok, ℕ, ◌+◌, ◌-◌, ◌*◌, ◌≤◌, ◌<◌,
  max, ◌≡◌, refl, ◌≢◌, ◌⊎◌, true, false, none, some, List, [], ◌∷◌, map, arith,
}
use sn_netplay_serv.Base.Chars.{codes, byte_length}
use sn_netplay_serv.Base.Maps.{lookup, lookup_or, contains}
use sn_netplay_serv.Protocol.Ids.{PlayerIndex}
use sn_netplay_serv.Protocol.ServerFrame.{ServerFrame}
use sn_netplay_serv.RateLimit.{
  RateLimitPolicy, limit_for, same_action, RateLimitBucket, same_bucket, drop_expired, set_bucket,
  check_at, create_room,
}
use sn_netplay_serv.RateLimit.Laws.{Accepted, is_ok, run_limiter, count_within, run_limiter-limited}
use sn_netplay_serv.Rooms.InputDelay.{
  AdaptiveInputDelayDecision, is_fresh, frames_for_ms_at_rate, frames_for_ms, delay_for_report,
  fresh_report_delay, predicts_far, sample_player, sample_players, target_delay, initial_decision,
  complete_report, complete_reports, path_budget_ms, frame_rate, initial_v5_decision,
}
use sn_netplay_serv.Rooms.InputDelay.Laws.{
  IsSampled, initial_decision-bounds, IsComplete, initial_v5_decision-covers,
}
use sn_netplay_serv.Rooms.InviteCode.{
  is_invite_char, is_separator, parse_invite_code, display_invite_code,
}
use sn_netplay_serv.Rooms.InviteCode.Laws.{parse-display_invite_code}
use sn_netplay_serv.Rooms.LinkCable.{LinkCablePacket, default_packet_limits}
use sn_netplay_serv.Rooms.LinkCable.Laws.{accept_packets, sequences_of, Rises, accept_packets-Rises}
use sn_netplay_serv.Rooms.RelayBuffers.{
  BufferedInputFrame, is_current_input, drain_input_frame, BufferedFastInputFrame,
  is_current_fast_input, drain_fast_input_frame,
}
use sn_netplay_serv.Rooms.RelayBuffers.Groups.{
  frames_of, total_frames, is_from, drain_input_frame-pushed,
}
use sn_netplay_serv.Rooms.RelayBuffers.Laws.{
  push_fast_inputs, push_inputs, drain_fast_input_frame-pushed,
}
use sn_netplay_serv.Rooms.Room.{NetplayRoom, uses_strict_controller_input, initial_latency}
use sn_netplay_serv.Rooms.Room.FrameClock.{
  host_has_input_for_frame, apply_pending_input_delay_if_due, start_is_pending, begin_playing,
  release_frame, release_next_server_frame,
}
use sn_netplay_serv.Rooms.Room.FrameClock.Laws.{HostHasInput, release_next_server_frame-next}
use sn_netplay_serv.Rooms.Slot.{ClientNetworkQualityReport, PlayerSlot, is_connected}
use sn_netplay_serv.Rooms.Types.{status_code, has_status, is_host, is_controller_netplay}
use sn_netplay_serv.Tests.Lane.{a_room}

abbrev fast : PlayerIndex → ℕ → ℕ → BufferedFastInputFrame
fast player frame session_epoch = record {
  source = 100 + player;
  frame = record {
    room_epoch = 1;
    session_epoch = session_epoch;
    player_index = player;
    frame = frame;
    payload = 7 ∷ [];
    encoded = [];
  };
}

-- Two players' records of frame 4, one of them from an old session, and one record of frame 5.
abbrev fast_frames : List BufferedFastInputFrame
fast_frames = fast 0 4 2 ∷ fast 0 5 2 ∷ fast 1 4 1 ∷ fast 1 4 2 ∷ []

drain_fast_input_frame-pushed_example :
    ((drain_fast_input_frame 4 1 2 (push_fast_inputs fast_frames [])).1
      ≡ filter (is_current_fast_input 1 2) (filter (λ x. x.frame.frame == 4) fast_frames))
    × ((other : ℕ)
        → lookup_or other (drain_fast_input_frame 4 1 2 (push_fast_inputs fast_frames [])).0 []
          ≡ (if 4 == other then [] else filter (λ x. x.frame.frame == other) fast_frames))
drain_fast_input_frame-pushed_example = drain_fast_input_frame-pushed fast_frames 4 1 2

abbrev buffered : PlayerIndex → ℕ → ℕ → BufferedInputFrame
buffered player frame session_epoch = record {
  room_epoch = 1;
  session_epoch = session_epoch;
  source = 100 + player;
  input = record { player_index = player; frame = frame; payload = 7 ∷ [] };
}

abbrev buffered_frames : List BufferedInputFrame
buffered_frames = buffered 0 4 2 ∷ buffered 0 5 2 ∷ buffered 1 4 1 ∷ buffered 1 4 2 ∷ []

drain_input_frame-pushed_example :
    (frames_of 101 1 (drain_input_frame 4 1 2 (push_inputs buffered_frames [])).1
      ≡ map
          (λ x. x.input)
          (filter
            (is_from 101 1)
            (filter (is_current_input 1 2) (filter (λ x. x.input.frame == 4) buffered_frames))))
    × (total_frames (drain_input_frame 4 1 2 (push_inputs buffered_frames [])).1
        ≡ length (filter (is_current_input 1 2) (filter (λ x. x.input.frame == 4) buffered_frames)))
drain_input_frame-pushed_example = drain_input_frame-pushed buffered_frames 4 1 2 101 1

abbrev a_bucket : RateLimitBucket
a_bucket = record { action = create_room; key = codes "install" }

abbrev one_each : RateLimitPolicy
one_each = record {
  create_room_per_minute = 1;
  websocket_join_per_minute = 1;
  room_status_per_minute = 1;
}

-- The second request comes too soon, the third a minute later.
abbrev three_requests : Accepted
three_requests = (a_bucket, 10) ∷ (a_bucket, 20) ∷ (a_bucket, 60_000_000_010) ∷ []

three_requests-run :
    run_limiter one_each (λ c. []) [] three_requests
    ≡ (a_bucket, 60_000_000_010) ∷ (a_bucket, 10) ∷ []
unfolding run_limiter is_ok check_at limit_for drop_expired set_bucket same_bucket same_action
three_requests-run = refl

run_limiter-limited_example :
    count_within a_bucket 5 (run_limiter one_each (λ c. []) [] three_requests)
    ≤ limit_for one_each create_room
run_limiter-limited_example =
    run_limiter-limited one_each three_requests a_bucket 5
      (omega arith, (omega arith, (omega arith, tt)))

-- 60 ms there and back, 10 ms of jitter, reported just now.
abbrev a_report : ClientNetworkQualityReport
a_report = record {
  round_trip_ms = some 60;
  jitter_ms = some 10;
  prediction_frames = none;
  stall_count = none;
  catch_up_frames = none;
  late_input_frames = none;
  audio_underruns = none;
  input_resend_frames = none;
  input_nacks = none;
  replayed_frames = none;
  suppressed_audio_frames = none;
  suppressed_video_frames = none;
  audio_queue_depth_frames = none;
  audio_catch_up_events = none;
  audio_trimmed_frames = none;
  audio_rebuffer_events = none;
  audio_max_consecutive_missing_frames = none;
  audio_queue_min_frames = none;
  audio_queue_max_frames = none;
  clock_uncertainty_ms = none;
}

abbrev reporting : List PlayerSlot
reporting =
    map
      (λ (s : PlayerSlot). record s {
        latest_network_report = some a_report;
        latest_network_reported_at = some 5;
      })
      a_room.players

abbrev four_frames : AdaptiveInputDelayDecision
four_frames = record { input_delay_frames = 4; reason = initial_latency }

abbrev six_frames : AdaptiveInputDelayDecision
six_frames = record { input_delay_frames = 6; reason = initial_latency }

reporting-decision : initial_decision 3 reporting 0 none 9 ≡ some four_frames
unfolding initial_decision target_delay sample_players sample_player fresh_report_delay is_fresh
    delay_for_report frames_for_ms frames_for_ms_at_rate predicts_far is_connected
reporting-decision = refl

initial_decision-bounds_example :
    (2 ≤ four_frames.input_delay_frames)
    × (four_frames.input_delay_frames ≤ 8)
    × (four_frames.input_delay_frames ≢ 3)
    × ((3 ≤ four_frames.input_delay_frames)
        ⊎ All (λ s. IsSampled 9 s) (filter is_connected reporting))
initial_decision-bounds_example =
    initial_decision-bounds 3 reporting 0 none 9 four_frames reporting-decision

reporting-v5_decision : initial_v5_decision 3 reporting none 9 ≡ some six_frames
unfolding initial_v5_decision complete_reports complete_report is_fresh path_budget_ms frame_rate
    frames_for_ms_at_rate is_connected
reporting-v5_decision = refl

sixty : (frame_rate none).0 < 18446744073709551616
unfolding frame_rate
sixty = omega arith

per_second : (frame_rate none).1 < 18446744073709551616
unfolding frame_rate
per_second = omega arith

initial_v5_decision-covers_example :
    (2 ≤ six_frames.input_delay_frames)
    × (six_frames.input_delay_frames ≤ 8)
    × (six_frames.input_delay_frames ≢ 3)
    × All (λ s. IsComplete 9 s) (filter is_connected reporting)
    × ((reports : List (ℕ × ℕ)) × (complete_reports 9 (filter is_connected reporting)
          ≡ some reports)
        × ((six_frames.input_delay_frames ≡ 8)
            ⊎ (path_budget_ms 0 reports * (frame_rate none).0
                ≤ (six_frames.input_delay_frames - 1) * (1000 * (frame_rate none).1))))
initial_v5_decision-covers_example =
    initial_v5_decision-covers 3 reporting none 9 six_frames sixty per_second reporting-v5_decision

abbrev packet : PlayerIndex → ℕ → LinkCablePacket
packet player sequence = record {
  player_index = player;
  sequence = sequence;
  emulated_time = 0;
  payload = 1 ∷ [];
}

accept_packets-Rises_example : Rises none (
    sequences_of 0 (
      accept_packets default_packet_limits
        record { compatibility = []; last_sequences = [] }
        ((0, packet 0 3) ∷ (1, packet 1 2) ∷ (0, packet 0 3) ∷ (0, packet 0 9) ∷ [])))
unfolding lookup
accept_packets-Rises_example =
    accept_packets-Rises default_packet_limits record { compatibility = []; last_sequences = [] }
      ((0, packet 0 3) ∷ (1, packet 1 2) ∷ (0, packet 0 3) ∷ (0, packet 0 9) ∷ []) 0

abbrev old_room : NetplayRoom
old_room = record a_room { protocol_version = 4 }

abbrev frame_10 : ServerFrame
frame_10 = record { room_epoch = 1; session_epoch = 2; frame = 10; canonical_frame = 10 }

frame_10-released : (release_next_server_frame old_room 0).1 ≡ some frame_10
unfolding release_next_server_frame uses_strict_controller_input is_controller_netplay
    start_is_pending has_status status_code begin_playing apply_pending_input_delay_if_due
    release_frame host_has_input_for_frame is_host lookup
frame_10-released = refl

release_next_server_frame-next_example :
    (uses_strict_controller_input old_room ≡ false)
    × (start_is_pending old_room 0 ≡ false)
    × HostHasInput old_room 10
    × (frame_10
        ≡ record { room_epoch = 1; session_epoch = 2; frame = 10; canonical_frame = max 9 10 })
    × ((release_next_server_frame old_room 0).0.released_frame ≡ some 10)
    × ((release_next_server_frame old_room 0).0.next_release_frame ≡ saturating_add 10 1)
release_next_server_frame-next_example =
    release_next_server_frame-next old_room 0 frame_10 frame_10-released

typed-parsed : parse_invite_code (codes " abcd-ef ") ≡ ok (codes "ABCDEF")
unfolding parse_invite_code is_separator byte_length is_invite_char contains
typed-parsed = refl

parse-display_invite_code_example :
    (byte_length (codes "ABCDEF") ≡ 6)
    × (all is_invite_char (codes "ABCDEF") ≡ true)
    × (parse_invite_code (display_invite_code (codes "ABCDEF")) ≡ ok (codes "ABCDEF"))
parse-display_invite_code_example =
    parse-display_invite_code (codes " abcd-ef ") (codes "ABCDEF") typed-parsed
