-- ===== src/Rooms/Room/HostFrame/Again.antt =====
-- A host that sends the same open again, in src/rooms/room_host_frame_ops.rs.
use mathlib.Core.Option
use sn_netplay_serv.Base.{
  ◌==◌, Bool-cases, Option-cases, u64_max, any, find, ok, ℕ, ◌<◌, ◌≡◌, refl, ◌∙◌, inl, inr, false,
  ◌&&◌, some, List, [], ◌∷◌, arith,
}
use sn_netplay_serv.Protocol.Ids.{PlayerIndex, ConnectionId}
use sn_netplay_serv.Protocol.StrictInput.FrameClock.{HostFrameOpen, ServerFrameReleaseV5}
use sn_netplay_serv.Rooms.Room.{
  NetplayRoom, uses_strict_controller_input, player_index_for_input_connection, mark_connected,
}
use sn_netplay_serv.Rooms.Room.HostFrame.{
  HostFrameOpenOutcome, validate_host_frame_sender, enter_v5_playing, current_v5_release,
  advance_release, accept_host_frame_open, released, duplicate,
}
use sn_netplay_serv.Rooms.Room.HostFrame.Laws.{
  open_frame-Opened, open-cases, accept_host_frame_open-released, held, started, went_on,
}
use sn_netplay_serv.Rooms.Slot.{PlayerSlot, is_connected, holds}
use sn_netplay_serv.Rooms.Types.{
  RoomStatus, status_code, has_status, is_host, PlayerStatus, PlayerRuntimeState,
}

module _ (status : PlayerStatus) (runtime : PlayerRuntimeState) where
  find-mark_connected :
      (c : ConnectionId) (ps : List PlayerSlot)
      → Option.map
          (λ (s : PlayerSlot). s.player_index)
          (find
            (λ (s : PlayerSlot). holds s.input_connection_id c)
            (mark_connected status runtime ps))
        ≡ Option.map
            (λ (s : PlayerSlot). s.player_index)
            (find (λ (s : PlayerSlot). holds s.input_connection_id c) ps)
  unfolding mark_connected
  find-mark_connected c [] = refl
  find-mark_connected c (s ∷ ps) = elim (Bool-cases (is_connected s)) [
    | inl here ↦ elim (Bool-cases (holds s.input_connection_id c)) [
      | inl found ↦ rw (here, found) refl
      | inr other ↦ rw (here, other) (find-mark_connected c ps)
    ]
    | inr away ↦ elim (Bool-cases (holds s.input_connection_id c)) [
      | inl found ↦ rw (away, found) refl
      | inr other ↦ rw (away, other) (find-mark_connected c ps)
    ]
  ]

  any-mark_connected :
      (i : PlayerIndex) (ps : List PlayerSlot)
      → any
          (λ (s : PlayerSlot). (s.player_index == i) && is_host s.role)
          (mark_connected status runtime ps)
        ≡ any (λ (s : PlayerSlot). (s.player_index == i) && is_host s.role) ps
  unfolding mark_connected
  any-mark_connected i [] = refl
  any-mark_connected i (s ∷ ps) = elim (Bool-cases (is_connected s)) [
    | inl here ↦ rw (here, any-mark_connected i ps) refl
    | inr away ↦ rw (away, any-mark_connected i ps) refl
  ]

advance-sender :
    (r : NetplayRoom) (c : ConnectionId) (frame : ℕ)
    → validate_host_frame_sender (advance_release (enter_v5_playing r) frame) c
      ≡ validate_host_frame_sender r c
unfolding validate_host_frame_sender advance_release enter_v5_playing
    player_index_for_input_connection uses_strict_controller_input
advance-sender r c frame = elim (Option-cases (player_index_for_input_connection r c)) [
  | inl none_owned ↦
      rw
        (
          find-mark_connected PlayerStatus.playing PlayerRuntimeState.playing c r.players,
          none_owned,
        )
        refl
  | inr (i, owned) ↦
      rw (find-mark_connected PlayerStatus.playing PlayerRuntimeState.playing c r.players, owned)
        (rw (any-mark_connected PlayerStatus.playing PlayerRuntimeState.playing i r.players) refl)
]

advance_only-sender :
    (r : NetplayRoom) (c : ConnectionId) (frame : ℕ)
    → validate_host_frame_sender (advance_release r frame) c ≡ validate_host_frame_sender r c
unfolding validate_host_frame_sender advance_release player_index_for_input_connection
    uses_strict_controller_input
advance_only-sender r c frame = refl

-- The sender of an open that did not fail.
open-sender :
    (r : NetplayRoom) (c : ConnectionId) (q : HostFrameOpen) (now : ℕ) (r' : NetplayRoom)
    (o : HostFrameOpenOutcome)
    → accept_host_frame_open r c q now ≡ ok (r', o)
    → validate_host_frame_sender r c ≡ ok tt
unfolding accept_host_frame_open
open-sender r c q now r' o h = ground arith

-- A sender may send, the epochs fit and the frame is out: the last release is the answer.
repeat_open :
    (r : NetplayRoom) (c : ConnectionId) (q : HostFrameOpen) (now : ℕ) (out : ServerFrameReleaseV5)
    → validate_host_frame_sender r c ≡ ok tt
    → q.room_epoch ≡ r.room_epoch
    → q.session_epoch ≡ r.session_epoch
    → has_status r.status RoomStatus.repairing_state ≡ false
    → q.frame < r.next_release_frame
    → current_v5_release r ≡ some out
    → accept_host_frame_open r c q now ≡ ok (r, duplicate out)
unfolding accept_host_frame_open
repeat_open r c q now out sender room_epoch session_epoch sound old last =
    rw (sender) (ground arith)

-- The room after a release takes the same sender's opens in the same epochs.
released_room :
    (r : NetplayRoom) (c : ConnectionId) (q : HostFrameOpen) (now : ℕ) (r' : NetplayRoom)
    (out : ServerFrameReleaseV5)
    → accept_host_frame_open r c q now ≡ ok (r', released out)
    → (validate_host_frame_sender r' c ≡ ok tt)
      × (r'.room_epoch ≡ r.room_epoch)
      × (r'.session_epoch ≡ r.session_epoch)
      × (has_status r'.status RoomStatus.repairing_state ≡ false)
unfolding advance_release has_status status_code enter_v5_playing
released_room r c q now r' out h = elim (open-cases r c q now r' (released out) h) [
  | inl (same, inl ignored) ↦ ground arith
  | inl (same, inr (last, e, other)) ↦ ground arith
  | inr (frame, covered, pause, room_epoch, session_epoch, sound, opened) ↦
      elim (open_frame-Opened r r.next_release_frame now r' (released out) opened) [
        | held start e waiting first early room other ↦ ground arith
        | started start e waiting due first room sent ↦ rw room (
          advance-sender r c r.next_release_frame ∙ open-sender r c q now r' (released out) h,
          refl,
          refl,
          refl,
        )
        | went_on other room sent ↦ rw room (
          advance_only-sender r c r.next_release_frame ∙ open-sender r c q now r' (released out) h,
          refl,
          refl,
          sound,
        )
      ]
]

-- The same open sent again, at any time, leaves the room as the first one left it and is answered
-- with the release that the first one was answered with, when the frame is below the last 64-bit
-- number.
pub accept_host_frame_open-again :
    (r : NetplayRoom) (c : ConnectionId) (q : HostFrameOpen) (now later : ℕ) (r' : NetplayRoom)
    (out : ServerFrameReleaseV5)
    → q.frame < u64_max
    → accept_host_frame_open r c q now ≡ ok (r', released out)
    → accept_host_frame_open r' c q later ≡ ok (r', duplicate out)
accept_host_frame_open-again r c q now later r' out below h =
    let room = released_room r c q now r' out h in
    let facts = accept_host_frame_open-released r c q now r' out h in
    repeat_open r' c q later out room.0 (ground arith) (ground arith) room.3 (ground arith)
      (ground arith)
