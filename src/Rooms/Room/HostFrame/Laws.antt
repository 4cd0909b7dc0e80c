-- ===== src/Rooms/Room/HostFrame/Laws.antt =====
-- What one call of src/rooms/room_host_frame_ops.rs does to the release cursor.
-- How far an open came: nothing changed, it waits for the start, or the frame is out.
use sn_netplay_serv.Base.{
  ltb, ◌==◌, Bool-cases, Option-cases, saturating_add, any, any-holds, ok, ℕ, ◌-◌, ◌≤◌, ◌<◌, ◌≡◌,
  sym, ap, ◌∙◌, ◌⊎◌, inl, inr, true, false, ◌&&◌, some, Memᴰ, arith,
}
use sn_netplay_serv.Protocol.Ids.{ConnectionId, player_one}
use sn_netplay_serv.Protocol.StrictInput.FrameClock.{HostFrameOpen, ServerFrameReleaseV5}
use sn_netplay_serv.Rooms.RelayBuffers.Laws.{waiting}
use sn_netplay_serv.Rooms.Room.{
  ScheduledSessionStart, NetplayRoom, uses_strict_controller_input,
  player_index_for_input_connection, next_input_frame,
}
use sn_netplay_serv.Rooms.Room.HostFrame.{
  HostFrameOpenOutcome, validate_host_frame_sender, host_input_covers, enter_v5_playing, v5_release,
  current_v5_release, advance_release, release_v5_host_frame, open_frame, is_past_pause,
  accept_host_frame_open, released, duplicate, ignored_transition_boundary, pending,
}
use sn_netplay_serv.Rooms.Slot.{PlayerSlot}
use sn_netplay_serv.Rooms.Types.{RoomStatus, has_status, is_host}

pub data Opened (r : NetplayRoom) (frame now : ℕ) (r' : NetplayRoom) (o : HostFrameOpenOutcome)
    : Type 0 where
  held :
      (start : ScheduledSessionStart)
      → r.scheduled_start ≡ some start
      → has_status r.status RoomStatus.start_scheduled ≡ true
      → frame ≡ start.start_frame
      → now < start.server_time_ms
      → r' ≡ record r { pending_host_frame_open = some frame }
      → o ≡ pending (start.server_time_ms - now)
      → Opened r frame now r' o
  started :
      (start : ScheduledSessionStart)
      → r.scheduled_start ≡ some start
      → has_status r.status RoomStatus.start_scheduled ≡ true
      → start.server_time_ms ≤ now
      → frame ≡ start.start_frame
      → r' ≡ advance_release (enter_v5_playing r) frame
      → o ≡ released (v5_release r' frame)
      → Opened r frame now r' o
  went_on :
      has_status r.status RoomStatus.start_scheduled ≡ false
      → r' ≡ advance_release r frame
      → o ≡ released (v5_release r' frame)
      → Opened r frame now r' o

pub open_frame-Opened :
    (r : NetplayRoom) (frame now : ℕ) (r' : NetplayRoom) (o : HostFrameOpenOutcome)
    → open_frame r frame now ≡ ok (r', o)
    → Opened r frame now r' o
unfolding open_frame release_v5_host_frame
open_frame-Opened r frame now r' o h =
    elim (Bool-cases (has_status r.status RoomStatus.start_scheduled)) [
      | inr other ↦ went_on other (ground arith) (ground arith)
      | inl waiting ↦ elim (Option-cases r.scheduled_start) [
        | inl missing ↦ ground arith
        | inr (start, e) ↦ elim (Bool-cases (ltb now start.server_time_ms)) [
          | inl early ↦
              held start e waiting (ground arith) (ground arith) (ground arith) (ground arith)
          | inr due ↦
              started start e waiting (ground arith) (ground arith) (ground arith) (ground arith)
        ]
      ]
    ]

-- An open that is not answered from the past names the next frame, which the host's input covers.
pub open-cases :
    (r : NetplayRoom) (c : ConnectionId) (q : HostFrameOpen) (now : ℕ) (r' : NetplayRoom)
    (o : HostFrameOpenOutcome)
    → accept_host_frame_open r c q now ≡ ok (r', o)
    → ((r' ≡ r)
        × ((o ≡ ignored_transition_boundary)
            ⊎ ((last : ServerFrameReleaseV5) × (current_v5_release r ≡ some last)
                × (o ≡ duplicate last))))
      ⊎ ((q.frame ≡ r.next_release_frame)
          × (r.next_release_frame < next_input_frame r player_one)
          × (is_past_pause r r.next_release_frame ≡ false)
          × (q.room_epoch ≡ r.room_epoch)
          × (q.session_epoch ≡ r.session_epoch)
          × (has_status r.status RoomStatus.repairing_state ≡ false)
          × (open_frame r r.next_release_frame now ≡ ok (r', o)))
unfolding accept_host_frame_open host_input_covers
open-cases r c q now r' o h = ground arith

-- The room runs the strict lane, and the input connection is that of a player whose slot is the
-- host's.
pub IsHostConnection : NetplayRoom → ConnectionId → Type 0
IsHostConnection r c =
    (uses_strict_controller_input r ≡ true)
    × ((s : PlayerSlot) × Memᴰ s r.players
        × (is_host s.role ≡ true)
        × (player_index_for_input_connection r c ≡ some s.player_index))

accept-IsHostConnection :
    (r : NetplayRoom) (c : ConnectionId) (q : HostFrameOpen) (now : ℕ)
    (a : NetplayRoom × HostFrameOpenOutcome)
    → accept_host_frame_open r c q now ≡ ok a
    → IsHostConnection r c
unfolding accept_host_frame_open validate_host_frame_sender IsHostConnection
accept-IsHostConnection r c q now a h =
    elim (Option-cases (player_index_for_input_connection r c)) [
      | inl stranger ↦ absurd (ground arith)
      | inr (i, known) ↦
          let hosted : any (λ (s : PlayerSlot). (s.player_index == i) && is_host s.role) r.players
              ≡ true =
            ground arith in
          let (s, there, both) =
            any-holds (λ (s : PlayerSlot). (s.player_index == i) && is_host s.role) r.players
              hosted in
          let same : s.player_index ≡ i = ground arith in
          (ground arith, (s, there, ground arith, known ∙ ap some (sym same)))
    ]

-- A release is the room's next frame and the one that the host opened over its input connection, in
-- the room's epochs: the host's own input for it is accepted, it is not past the frame of a pause, and
-- no scheduled start is still to come. The room's cursors then stand behind it, and what is sent is
-- the room's view of the release.
pub accept_host_frame_open-released :
    (r : NetplayRoom) (c : ConnectionId) (q : HostFrameOpen) (now : ℕ) (r' : NetplayRoom)
    (out : ServerFrameReleaseV5)
    → accept_host_frame_open r c q now ≡ ok (r', released out)
    → IsHostConnection r c
      × (out.released_frame ≡ r.next_release_frame)
      × (q ≡ record {
        room_epoch = r.room_epoch;
        session_epoch = r.session_epoch;
        frame = r.next_release_frame;
      })
      × (r.next_release_frame < next_input_frame r player_one)
      × (is_past_pause r r.next_release_frame ≡ false)
      × ((has_status r.status RoomStatus.start_scheduled ≡ false)
          ⊎ ((start : ScheduledSessionStart) × (r.scheduled_start ≡ some start)
              × (start.server_time_ms ≤ now)
              × (r.next_release_frame ≡ start.start_frame)))
      × (r'.released_frame ≡ some r.next_release_frame)
      × (r'.next_release_frame ≡ saturating_add r.next_release_frame 1)
      × (current_v5_release r' ≡ some out)
unfolding current_v5_release advance_release v5_release
accept_host_frame_open-released r c q now r' out h =
    let host_asks = accept-IsHostConnection r c q now (r', released out) h in
    elim (open-cases r c q now r' (released out) h) [
      | inl (same, inl ignored) ↦ ground arith
      | inl (same, inr (last, e, other)) ↦ ground arith
      | inr (frame, covered, pause, room_epoch, session_epoch, sound, opened) ↦
          elim (open_frame-Opened r r.next_release_frame now r' (released out) opened) [
            | held start e waiting first early room other ↦ ground arith
            | started start e waiting due first room sent ↦ (
              host_asks,
              ground arith,
              ground arith,
              covered,
              pause,
              inr (start, e, due, first),
              ground arith,
              ground arith,
              ground arith,
            )
            | went_on other room sent ↦ (
              host_asks,
              ground arith,
              ground arith,
              covered,
              pause,
              inl other,
              ground arith,
              ground arith,
              ground arith,
            )
          ]
    ]
