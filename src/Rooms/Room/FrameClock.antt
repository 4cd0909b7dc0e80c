-- ===== src/Rooms/Room/FrameClock.antt =====
-- src/rooms/room_frame_clock_ops.rs and room_adaptive_input_delay_ops.rs: the frame clock of rooms
-- without strict controller input, and the input delay that the room starts with. The views are those
-- of src/rooms/room_view.rs.
pub mod Laws
use sn_netplay_serv.Base.{
  ltb, leb, if◌then◌else◌, saturating_add, filter, find, update_first, ℕ, max, Bool, true, false,
  not, ◌&&◌, ◌||◌, Option, none, some, List, map,
}
use sn_netplay_serv.Base.Maps.{lookup}
use sn_netplay_serv.Protocol.Ids.{ConnectionId}
use sn_netplay_serv.Protocol.ServerFrame.{ServerFrame}
use sn_netplay_serv.Rooms.InputDelay.{
  AdaptiveInputDelayDecision, initial_decision, initial_v5_decision,
}
use sn_netplay_serv.Rooms.Room.{
  InputDelayChange, NetplayRoom, uses_strict_controller_input, mark_connected,
}
use sn_netplay_serv.Rooms.Slot.{ClientNetworkQualityReport, PlayerSlot, slot_is_empty, holds}
use sn_netplay_serv.Rooms.Types.{
  RoomStatus, has_status, is_host, PlayerStatus, PlayerRuntimeState, start_scheduled, playing,
}

-- `host_has_input_for_frame`
unfoldable pub host_has_input_for_frame : NetplayRoom → ℕ → Bool
unfolding is_host lookup
host_has_input_for_frame r frame = elim (find (λ (s : PlayerSlot). is_host s.role) r.players) [
  | none ↦ false
  | some s ↦ elim (lookup s.player_index r.last_input_frames) [
    | none ↦ false
    | some input_frame ↦ leb frame input_frame
  ]
]

-- `apply_pending_input_delay_if_due`
unfoldable pub apply_pending_input_delay_if_due : NetplayRoom → NetplayRoom
apply_pending_input_delay_if_due r = elim r.pending_input_delay_change [
  | none ↦ r
  | some change ↦ if ltb r.next_release_frame change.effective_frame then r else record r {
    input_delay_frames = change.input_delay_frames;
    pending_input_delay_change = none;
  }
]

-- The scheduled start has not come, or there is none.
unfoldable pub start_is_pending : NetplayRoom → ℕ → Bool
unfolding has_status
start_is_pending r server_time_ms =
    has_status r.status RoomStatus.start_scheduled
    && elim r.scheduled_start [ none ↦ true | some start ↦ ltb server_time_ms start.server_time_ms ]

-- A room whose scheduled start has come plays.
unfoldable pub begin_playing : NetplayRoom → NetplayRoom
unfolding has_status mark_connected
begin_playing r =
    if has_status r.status RoomStatus.start_scheduled
    then record r {
      status = RoomStatus.playing;
      players = mark_connected PlayerStatus.playing PlayerRuntimeState.playing r.players;
    }
    else r

-- The release itself.
unfoldable pub release_frame : NetplayRoom → NetplayRoom × Option ServerFrame
unfolding host_has_input_for_frame
release_frame r =
    let frame = r.next_release_frame in
    let room_frame = max r.room_frame frame in
    if not (host_has_input_for_frame r frame) then (r, none) else (
      record r {
        next_release_frame = saturating_add frame 1;
        released_frame = some frame;
        room_frame = room_frame;
      },
      some record {
        room_epoch = r.room_epoch;
        session_epoch = r.session_epoch;
        frame = frame;
        canonical_frame = room_frame;
      },
    )

-- `release_next_server_frame`; the start of play and a due delay stay when no frame is released.
unfoldable pub release_next_server_frame : NetplayRoom → ℕ → NetplayRoom × Option ServerFrame
unfolding uses_strict_controller_input start_is_pending begin_playing has_status
    apply_pending_input_delay_if_due release_frame
release_next_server_frame r server_time_ms =
    if uses_strict_controller_input r || start_is_pending r server_time_ms
    then (r, none)
    else (let started = begin_playing r in
        if not (has_status started.status RoomStatus.playing)
        then (started, none)
        else release_frame (apply_pending_input_delay_if_due started))

pub record PlayerFrameCursorView : Type 0 where
  pub player_index : ℕ
  pub frame : Option ℕ

pub record RoomFrameClockView : Type 0 where
  pub canonical_frame : ℕ
  pub released_frame : Option ℕ
  pub next_release_frame : ℕ
  pub accepted_inputs : List PlayerFrameCursorView
  pub pending_input_delay_change : Option InputDelayChange

-- `frame_clock_view`
unfoldable pub frame_clock_view : NetplayRoom → RoomFrameClockView
unfolding slot_is_empty lookup
frame_clock_view r = record {
  canonical_frame = r.room_frame;
  released_frame = r.released_frame;
  next_release_frame = r.next_release_frame;
  accepted_inputs =
      map
        (λ (s : PlayerSlot). record {
          player_index = s.player_index;
          frame = lookup s.player_index r.last_input_frames;
        })
        (filter (λ (s : PlayerSlot). not (slot_is_empty s)) r.players);
  pending_input_delay_change = r.pending_input_delay_change;
}

-- The slot of `record_network_report`.
unfoldable pub note_report :
    Option ℕ → Option ClientNetworkQualityReport → ℕ → PlayerSlot → PlayerSlot
note_report local_frame network now s =
    let framed : PlayerSlot = elim local_frame [
      | none ↦ s
      | some f ↦ record s { latest_local_frame = some f; latest_local_frame_reported_at = some now }
    ] in
    elim network [
      | none ↦ framed
      | some report ↦ record framed {
        latest_network_report = some report;
        latest_network_reported_at = some now;
      }
    ]

-- `record_network_report`
unfoldable pub record_network_report :
    NetplayRoom → ConnectionId → Option ℕ → Option ClientNetworkQualityReport → ℕ → NetplayRoom
unfolding note_report holds
record_network_report r connection_id local_frame network now = record r {
  players =
      update_first (λ (s : PlayerSlot). holds s.connection_id connection_id)
        (note_report local_frame network now) r.players;
}

-- The delay of a decision, if there is one.
unfoldable pub with_decision : Option AdaptiveInputDelayDecision → NetplayRoom → NetplayRoom
with_decision none r = r
with_decision (some decision) r = record r { input_delay_frames = decision.input_delay_frames }

-- `apply_initial_adaptive_input_delay`
unfoldable pub apply_initial_adaptive_input_delay : NetplayRoom → ℕ → NetplayRoom
unfolding initial_decision with_decision
apply_initial_adaptive_input_delay r now =
    with_decision
      (initial_decision r.input_delay_frames r.players r.room_frame r.released_frame now) r

-- `apply_initial_v5_input_delay`; the frame rate is the one of the players' fingerprints, which the
-- record leaves out.
unfoldable pub apply_initial_v5_input_delay : NetplayRoom → Option (ℕ × ℕ) → ℕ → NetplayRoom
unfolding uses_strict_controller_input initial_v5_decision with_decision
apply_initial_v5_input_delay r nominal_frame_rate now =
    if not (uses_strict_controller_input r)
    then r
    else with_decision (initial_v5_decision r.input_delay_frames r.players nominal_frame_rate now) r
