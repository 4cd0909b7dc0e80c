-- ===== src/Rooms/Session/LastReach.antt =====
-- The acknowledgement that completes a pause nobody holds any more: the other way that
-- src/rooms/room_controller_netplay_ops.rs resumes a room of protocol v5.
use mathlib.Core.Path.{subst}
use sn_netplay_serv.Base.{
  Option-cases, saturating_add, ok, ℕ, ◌+◌, ◌≡◌, refl, ap, ◌∙◌, inl, inr, true, false, none, some,
  arith,
}
use sn_netplay_serv.Protocol.Ids.{PlayerIndex, ConnectionId}
use sn_netplay_serv.Rooms.Pause.{PauseTracker, acknowledge, resume_at_frame}
use sn_netplay_serv.Rooms.Room.{
  ScheduledSessionStart, NetplayRoom, uses_strict_controller_input, player_index_for_connection,
}
use sn_netplay_serv.Rooms.Room.PauseOps.{
  pause_frame_is_invalid, pause_is_early, complete_pause, mark_session_pause_reached,
  reached_resumed_v5,
}
use sn_netplay_serv.Rooms.Room.PauseOps.Resume.{Resumed, begin-Resumed}
use sn_netplay_serv.Rooms.Room.Reset.{begin_v5_pause_resume}
use sn_netplay_serv.Rooms.Session.{Steps}
use sn_netplay_serv.Rooms.Session.Held.{Held}
use sn_netplay_serv.Rooms.Session.HeldEnd.{at_pause, acknowledged}
use sn_netplay_serv.Rooms.Session.Invariant.{Synced}
use sn_netplay_serv.Rooms.Session.Pausing.{Steps-Held}
use sn_netplay_serv.Rooms.Session.Reachable.{Steps-Synced}

reach-known :
    (r : NetplayRoom) (c : ConnectionId) (sequence frame now : ℕ) (r' : NetplayRoom)
    (start : ScheduledSessionStart)
    → mark_session_pause_reached r c sequence frame (some now)
      ≡ (r', ok (reached_resumed_v5 sequence start))
    → ((player_index_for_connection r c ≡ none) → ⊥) × ((r.pause_state ≡ none) → ⊥)
unfolding mark_session_pause_reached
reach-known r c sequence frame now r' start h = (λ e. ground arith, λ e. ground arith)

reach-shape :
    (r : NetplayRoom) (c : ConnectionId) (sequence frame now : ℕ) (r' : NetplayRoom)
    (start : ScheduledSessionStart) (i : PlayerIndex) (t : PauseTracker)
    → uses_strict_controller_input r ≡ true
    → player_index_for_connection r c ≡ some i
    → r.pause_state ≡ some t
    → mark_session_pause_reached r c sequence frame (some now)
      ≡ (r', ok (reached_resumed_v5 sequence start))
    → (frame ≡ t.pause_at_frame)
      × (pause_is_early r t ≡ false)
      × ((r', start)
          ≡ begin_v5_pause_resume
              (record r { pause_state = some (acknowledge t i frame) })
              (resume_at_frame (acknowledge t i frame))
              now)
unfolding mark_session_pause_reached pause_frame_is_invalid complete_pause
reach-shape r c sequence frame now r' start i t strict e f h =
    (ground arith, ground arith, ground arith)

resume_at-acknowledged :
    (t : PauseTracker) (f : ℕ) → t.paused_at_frame ≡ some f → resume_at_frame t ≡ saturating_add f 1
unfolding resume_at_frame
resume_at-acknowledged t f e = rw e refl

-- An acknowledgement that resumes the room loses no frame either: from a strict room on which both
-- invariants hold, after any sequence of the session's calls, it reports the frame before the one
-- that was next to release, schedules the start for exactly that next frame, and leaves every input
-- cursor and the release cursor at it, in the next session epoch and with no pause.
pub reach-lossless :
    (r s t : NetplayRoom) (c : ConnectionId) (sequence frame now : ℕ)
    (start : ScheduledSessionStart)
    → Synced r
    → Held r
    → Steps r s
    → mark_session_pause_reached s c sequence frame (some now)
      ≡ (t, ok (reached_resumed_v5 sequence start))
    → (s.next_release_frame ≡ frame + 1) × Resumed s t s.next_release_frame now start
reach-lossless r s t c sequence frame now start synced inv steps h =
    let synced' : Synced s = Steps-Synced steps synced in
    let inv' : Held s = Steps-Held steps synced inv in
    let (known_player, known_pause) = reach-known s c sequence frame now t start h in
    elim (Option-cases (player_index_for_connection s c)) [
      | inl unknown ↦ elim (known_player unknown) [ ]
      | inr (i, e) ↦ elim (Option-cases s.pause_state) [
        | inl idle ↦ elim (known_pause idle) [ ]
        | inr (p, f) ↦
            let (at, late, made) =
              reach-shape s c sequence frame now t start i p inv'.strict e f h in
            let u = acknowledge p i frame in
            let s' = record s { pause_state = some u } in
            let behind : s.next_release_frame ≡ p.pause_at_frame + 1 =
              at_pause s p f late synced' inv' in
            let here : u.paused_at_frame ≡ some p.pause_at_frame =
              rw at (acknowledged s p i f inv') in
            let resumes_at : resume_at_frame u ≡ s.next_release_frame =
              resume_at-acknowledged u p.pause_at_frame here
              ∙ omega (arith, behind, synced'.covered, synced'.bounded) in
            let room : t ≡ (begin_v5_pause_resume s' (resume_at_frame u) now).0 =
              ap (λ x. x.0) made in
            let sched : start ≡ (begin_v5_pause_resume s' (resume_at_frame u) now).1 =
              ap (λ x. x.1) made in
            let fresh : Resumed s t (resume_at_frame u) now start =
              rw (room, sched) (begin-Resumed s (some u) (resume_at_frame u) now) in
            (omega (arith, behind, at), subst (λ n. Resumed s t n now start) resumes_at fresh)
      ]
    ]
