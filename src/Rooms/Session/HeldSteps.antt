-- ===== src/Rooms/Session/HeldSteps.antt =====
-- The pause invariant over each call of a strict room.
use sn_netplay_serv.Base.{
  Option-cases, saturating_add, ok, ℕ, max, ◌≡◌, refl, ◌⊎◌, inl, inr, true, false, none, some,
  arith,
}
use sn_netplay_serv.Base.Maps.{Text}
use sn_netplay_serv.Protocol.Ids.{PlayerIndex, ConnectionId}
use sn_netplay_serv.Protocol.StrictInput.FrameClock.{HostFrameOpen}
use sn_netplay_serv.Rooms.Pause.{
  SessionPauseReason, SessionPauseView, PauseTracker, new_pause, hold,
}
use sn_netplay_serv.Rooms.Room.{
  NetplayRoom, uses_strict_controller_input, player_index_for_connection, bump_session_epoch,
}
use sn_netplay_serv.Rooms.Room.HostFrame.{
  HostFrameOpenOutcome, enter_v5_playing, advance_release, is_past_pause, accept_host_frame_open,
  release_due_v5_host_frame,
}
use sn_netplay_serv.Rooms.Room.HostFrame.Laws.{
  open_frame-Opened, open-cases, held, started, went_on,
}
use sn_netplay_serv.Rooms.Room.PauseOps.{new_pause_frame, request_session_pause_with_id}
use sn_netplay_serv.Rooms.Room.Reset.{clear_for_resume, begin_v5_pause_resume}
use sn_netplay_serv.Rooms.Room.StartSync.{schedule_v5_resume}
use sn_netplay_serv.Rooms.Session.Held.{Held, keep-Held, advance-Held, enter-Held}
use sn_netplay_serv.Rooms.Session.Invariant.{Synced}
use sn_netplay_serv.Rooms.Types.{RoomStatus, status_code, has_status}

open-running :
    (r : NetplayRoom) (c : ConnectionId) (q : HostFrameOpen) (now : ℕ) (r' : NetplayRoom)
    (o : HostFrameOpenOutcome)
    → accept_host_frame_open r c q now ≡ ok (r', o)
    → (r' ≡ r) ⊎ (has_status r.status RoomStatus.paused ≡ false)
unfolding accept_host_frame_open has_status status_code
open-running r c q now r' o h = ground arith

-- The first frame of a start, in a room that waited for it.
start-Held :
    (r : NetplayRoom) (f : ℕ)
    → f ≡ r.next_release_frame
    → has_status r.status RoomStatus.start_scheduled ≡ true
    → Held r
    → Held (advance_release (enter_v5_playing r) f)
unfolding enter_v5_playing is_past_pause has_status status_code
start-Held r f e waiting inv =
    advance-Held (enter_v5_playing r) f e (rw (inv.no_pause waiting) refl) refl
      (enter-Held r waiting inv)

pub open-Held :
    (r : NetplayRoom) (c : ConnectionId) (q : HostFrameOpen) (now : ℕ) (r' : NetplayRoom)
    (o : HostFrameOpenOutcome)
    → accept_host_frame_open r c q now ≡ ok (r', o)
    → Held r
    → Held r'
unfolding uses_strict_controller_input
open-Held r c q now r' o h inv = elim (open-running r c q now r' o h) [
  | inl same ↦ rw same inv
  | inr running ↦ elim (open-cases r c q now r' o h) [
    | inl (same, answer) ↦ rw same inv
    | inr (frame, covered, before, room_epoch, session_epoch, sound, opened) ↦
        elim (open_frame-Opened r r.next_release_frame now r' o opened) [
          | held start e waiting first early room other ↦ rw room (
              keep-Held r (record r { pending_host_frame_open = some r.next_release_frame }) refl
                refl refl refl refl inv)
          | started start e waiting due first room sent ↦
              rw room (start-Held r r.next_release_frame refl waiting inv)
          | went_on other room sent ↦
              rw room (advance-Held r r.next_release_frame refl before running inv)
        ]
  ]
]

due-waiting :
    (r : NetplayRoom) (now : ℕ)
    → ((release_due_v5_host_frame r now).0 ≡ r)
      ⊎ ((f : ℕ) × (r.pending_host_frame_open ≡ some f)
          × (has_status r.status RoomStatus.start_scheduled ≡ true)
          × ((release_due_v5_host_frame r now).0 ≡ advance_release (enter_v5_playing r) f))
unfolding release_due_v5_host_frame
due-waiting r now = ground arith

pub due-Held :
    (r : NetplayRoom) (now : ℕ) → Synced r → Held r → Held (release_due_v5_host_frame r now).0
due-Held r now synced inv = elim (due-waiting r now) [
  | inl same ↦ rw same inv
  | inr (f, pending_open, waiting, out) ↦
      rw out (start-Held r f (synced.waits f pending_open).0 waiting inv)
]

-- A pause whose frames stay what they were.
pub swap-Held :
    (r : NetplayRoom) (t u : PauseTracker)
    → r.pause_state ≡ some t
    → u.pause_at_frame ≡ t.pause_at_frame
    → u.paused_at_frame ≡ t.paused_at_frame
    → Held r
    → Held (record r { pause_state = some u })
unfolding uses_strict_controller_input
swap-Held r t u e p q inv = record {
  strict = inv.strict;
  near = inv.near;
  ahead = λ w f. ground (arith, inv.ahead t e);
  no_pause = λ f. let g = inv.no_pause f in ground arith;
  reached = λ w f g k.
      let same : u ≡ w = ground arith in
      let earlier : t.paused_at_frame ≡ some f = ground arith in
      let (x, y) = inv.reached t f e earlier in (ground arith, ground arith);
  settled = λ f. let (w, g, k) = inv.settled f in (u, refl, ground arith);
}

hold-same :
    (t : PauseTracker) (i : PlayerIndex) (id : Text) (reason : SessionPauseReason)
    → ((hold t i id reason).pause_at_frame ≡ t.pause_at_frame)
      × ((hold t i id reason).paused_at_frame ≡ t.paused_at_frame)
unfolding hold
hold-same t i id reason = (ground arith, ground arith)

-- A new pause lies ahead of every released frame.
new-Held :
    (r : NetplayRoom) (n : ℕ) (id : Text) (reason : SessionPauseReason) (i : PlayerIndex)
    (frame : ℕ)
    → r.pause_state ≡ none
    → has_status r.status RoomStatus.start_scheduled ≡ false
    → Synced r
    → Held r
    → Held (record r {
      next_pause_sequence = n;
      pause_state = some (new_pause r.next_pause_sequence id reason i (new_pause_frame r frame));
    })
unfolding new_pause new_pause_frame uses_strict_controller_input
new-Held r n id reason i frame idle running synced inv = record {
  strict = inv.strict;
  near = inv.near;
  ahead = λ t e.
      let at : t.pause_at_frame ≡ saturating_add (max r.room_frame frame) 8 = ground arith in
      omega (arith, at, inv.near, synced.covered, synced.bounded);
  no_pause = λ e. ground arith;
  reached = λ t f e g. ground arith;
  settled = λ e. let (t, f, g) = inv.settled e in ground arith;
}

pause-known :
    (r : NetplayRoom) (c : ConnectionId) (id : Text) (reason : SessionPauseReason) (frame : ℕ)
    (r' : NetplayRoom) (v : SessionPauseView)
    → request_session_pause_with_id r c id reason frame ≡ ok (r', v)
    → ((player_index_for_connection r c ≡ none) → ⊥)
      × (has_status r.status RoomStatus.start_scheduled ≡ false)
unfolding request_session_pause_with_id has_status status_code
pause-known r c id reason frame r' v h = (λ e. ground arith, ground arith)

pause-made :
    (r : NetplayRoom) (c : ConnectionId) (id : Text) (reason : SessionPauseReason) (frame : ℕ)
    (r' : NetplayRoom) (v : SessionPauseView) (i : PlayerIndex)
    → player_index_for_connection r c ≡ some i
    → request_session_pause_with_id r c id reason frame ≡ ok (r', v)
    → ((t : PauseTracker)
        → r.pause_state ≡ some t
        → r' ≡ record r { pause_state = some (hold t i id reason) })
      × (r.pause_state ≡ none
          → r' ≡ record r {
            next_pause_sequence = saturating_add r.next_pause_sequence 1;
            pause_state =
                some (new_pause r.next_pause_sequence id reason i (new_pause_frame r frame));
          })
unfolding request_session_pause_with_id
pause-made r c id reason frame r' v i e h = (λ t f. ground arith, λ f. ground arith)

pub pause-Held :
    (r : NetplayRoom) (c : ConnectionId) (id : Text) (reason : SessionPauseReason) (frame : ℕ)
    (r' : NetplayRoom) (v : SessionPauseView)
    → request_session_pause_with_id r c id reason frame ≡ ok (r', v)
    → Synced r
    → Held r
    → Held r'
pause-Held r c id reason frame r' v h synced inv =
    let (known, running) = pause-known r c id reason frame r' v h in
    elim (Option-cases (player_index_for_connection r c)) [
      | inl unknown ↦ elim (known unknown) [ ]
      | inr (i, e) ↦ elim (Option-cases r.pause_state) [
        | inl idle ↦ rw ((pause-made r c id reason frame r' v i e h).1 idle) (
            new-Held r (saturating_add r.next_pause_sequence 1) id reason i frame idle running
              synced inv)
        | inr (t, f) ↦
            let (at, reached_at) = hold-same t i id reason in
            rw ((pause-made r c id reason frame r' v i e h).0 t f)
              (swap-Held r t (hold t i id reason) f at reached_at inv)
      ]
    ]

-- A room whose cursors are at one frame and that has no pause.
pub clear-Held :
    (r : NetplayRoom) (frame now : ℕ)
    → uses_strict_controller_input r ≡ true
    → Held (begin_v5_pause_resume r frame now).0
unfolding begin_v5_pause_resume clear_for_resume schedule_v5_resume uses_strict_controller_input
    bump_session_epoch has_status status_code
clear-Held r frame now strict = record {
  strict = strict;
  near = omega arith;
  ahead = λ t e. ground arith;
  no_pause = λ e. refl;
  reached = λ t f e g. ground arith;
  settled = λ e. ground arith;
}
