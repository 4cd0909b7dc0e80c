-- ===== src/Rooms/Session/Pauses.antt =====
-- The invariant over the pause of src/rooms/room_controller_netplay_ops.rs.
use sn_netplay_serv.Base.{
  Bool-cases, Option-cases, IsU64, ok, ℕ, ◌≡◌, refl, ◌⊎◌, inl, inr, not, ◌||◌, none, some, arith,
}
use sn_netplay_serv.Base.Maps.{lookup, Text}
use sn_netplay_serv.Protocol.Ids.{PlayerIndex, ConnectionId}
use sn_netplay_serv.Rooms.Pause.{
  SessionPauseReason, SessionPauseState, SessionPauseView, PauseTracker, acknowledge, release,
  resume_at_frame, has_holders,
}
use sn_netplay_serv.Rooms.Room.{
  NetplayRoom, uses_strict_controller_input, player_index_for_connection, next_input_frame,
}
use sn_netplay_serv.Rooms.Room.PauseOps.{
  current_pause_state, request_session_pause_with_id, resume_playing, pause_room, complete_pause,
  mark_session_pause_reached, release_holder, request_session_resume,
}
use sn_netplay_serv.Rooms.Room.Reset.{clear_for_resume, begin_v5_pause_resume}
use sn_netplay_serv.Rooms.Room.StartSync.{schedule_v5_resume}
use sn_netplay_serv.Rooms.Session.Invariant.{Synced, same-Synced}
use sn_netplay_serv.Rooms.Types.{RoomStatus, has_status}

pub clear-Synced :
    (r : NetplayRoom) (frame now : ℕ)
    → IsU64 frame
    → Synced r
    → Synced (begin_v5_pause_resume r frame now).0
unfolding begin_v5_pause_resume clear_for_resume schedule_v5_resume next_input_frame lookup
clear-Synced r frame now fits inv = record {
  covered = omega arith;
  bounded = fits;
  follows = λ f h. ground arith;
  waits = λ f h. ground arith;
  repairs = inv.repairs;
}

pub pause-Synced :
    (r : NetplayRoom) (c : ConnectionId) (id : Text) (reason : SessionPauseReason) (frame : ℕ)
    (r' : NetplayRoom) (v : SessionPauseView)
    → request_session_pause_with_id r c id reason frame ≡ ok (r', v)
    → Synced r
    → Synced r'
unfolding request_session_pause_with_id next_input_frame
pause-Synced r c id reason frame r' v h inv =
    same-Synced r r' (ground arith) (ground arith) (ground arith) (ground arith) (ground arith) inv

pub resume_at-IsU64 : (t : PauseTracker) → IsU64 (resume_at_frame t)
unfolding resume_at_frame
resume_at-IsU64 t = omega arith

pub complete-Synced :
    (r : NetplayRoom) (t : PauseTracker) (sequence now : ℕ)
    → Synced r
    → Synced (complete_pause r t sequence (some now)).0
unfolding complete_pause pause_room resume_playing next_input_frame
complete-Synced r t sequence now inv = elim (Bool-cases (has_holders t)) [
  | inl some_left ↦ rw some_left (same-Synced r (pause_room r) refl refl refl refl refl inv)
  | inr free ↦ elim (Bool-cases (uses_strict_controller_input r)) [
    | inl strict ↦
        rw (free, strict) (clear-Synced r (resume_at_frame t) now (resume_at-IsU64 t) inv)
    | inr old ↦ rw (free, old) (same-Synced r (resume_playing r) refl refl refl refl refl inv)
  ]
]

pub reach-cases :
    (r : NetplayRoom) (c : ConnectionId) (sequence frame now : ℕ) (i : PlayerIndex)
    (t : PauseTracker)
    → player_index_for_connection r c ≡ some i
    → r.pause_state ≡ some t
    → ((mark_session_pause_reached r c sequence frame (some now)).0 ≡ r)
      ⊎ ((mark_session_pause_reached r c sequence frame (some now)).0
          ≡ record r { pause_state = some (acknowledge t i frame) })
      ⊎ ((mark_session_pause_reached r c sequence frame (some now)).0
          ≡ (complete_pause
              (record r { pause_state = some (acknowledge t i frame) })
              (acknowledge t i frame)
              sequence
              (some now)).0)
unfolding mark_session_pause_reached
reach-cases r c sequence frame now i t e f = ground arith

pub reach-refused :
    (r : NetplayRoom) (c : ConnectionId) (sequence frame now : ℕ)
    → (player_index_for_connection r c ≡ none) ⊎ (r.pause_state ≡ none)
    → (mark_session_pause_reached r c sequence frame (some now)).0 ≡ r
unfolding mark_session_pause_reached
reach-refused r c sequence frame now h = ground arith

pub reach-Synced :
    (r : NetplayRoom) (c : ConnectionId) (sequence frame now : ℕ)
    → Synced r
    → Synced (mark_session_pause_reached r c sequence frame (some now)).0
unfolding next_input_frame
reach-Synced r c sequence frame now inv = elim (Option-cases (player_index_for_connection r c)) [
  | inl unknown ↦ rw (reach-refused r c sequence frame now (inl unknown)) inv
  | inr (i, e) ↦ elim (Option-cases r.pause_state) [
    | inl idle ↦ rw (reach-refused r c sequence frame now (inr idle)) inv
    | inr (t, f) ↦
        let r' = record r { pause_state = some (acknowledge t i frame) } in
        let kept_room : Synced r' = same-Synced r r' refl refl refl refl refl inv in
        elim (reach-cases r c sequence frame now i t e f) [
          | inl same ↦ rw same inv
          | inr (inl waits_on) ↦ rw waits_on kept_room
          | inr (inr all_there) ↦
              rw all_there (complete-Synced r' (acknowledge t i frame) sequence now kept_room)
        ]
  ]
]

holder-Synced :
    (r : NetplayRoom) (t : PauseTracker) (state : SessionPauseState) (now : ℕ)
    → Synced r
    → Synced (release_holder r t state (some now)).0
unfolding release_holder resume_playing next_input_frame
holder-Synced r t state now inv =
    elim (Bool-cases (has_holders t || not (has_status r.status RoomStatus.paused))) [
      | inl stays ↦ rw stays inv
      | inr free ↦ elim (Bool-cases (uses_strict_controller_input r)) [
        | inl strict ↦
            rw (free, strict) (clear-Synced r (resume_at_frame t) now (resume_at-IsU64 t) inv)
        | inr old ↦ rw (free, old) (same-Synced r (resume_playing r) refl refl refl refl refl inv)
      ]
    ]

pub resume-cases :
    (r : NetplayRoom) (c : ConnectionId) (id : Text) (sequence now : ℕ) (i : PlayerIndex)
    (t : PauseTracker)
    → player_index_for_connection r c ≡ some i
    → r.pause_state ≡ some t
    → ((request_session_resume r c id sequence (some now)).0 ≡ r)
      ⊎ ((request_session_resume r c id sequence (some now)).0
          ≡ (release_holder
              (record r { pause_state = some (release t i id) })
              (release t i id)
              (current_pause_state r)
              (some now)).0)
unfolding request_session_resume
resume-cases r c id sequence now i t e f = ground arith

pub resume-refused :
    (r : NetplayRoom) (c : ConnectionId) (id : Text) (sequence now : ℕ)
    → (player_index_for_connection r c ≡ none) ⊎ (r.pause_state ≡ none)
    → (request_session_resume r c id sequence (some now)).0 ≡ r
unfolding request_session_resume
resume-refused r c id sequence now h = ground arith

pub resume-Synced :
    (r : NetplayRoom) (c : ConnectionId) (id : Text) (sequence now : ℕ)
    → Synced r
    → Synced (request_session_resume r c id sequence (some now)).0
unfolding next_input_frame
resume-Synced r c id sequence now inv = elim (Option-cases (player_index_for_connection r c)) [
  | inl unknown ↦ rw (resume-refused r c id sequence now (inl unknown)) inv
  | inr (i, e) ↦ elim (Option-cases r.pause_state) [
    | inl idle ↦ rw (resume-refused r c id sequence now (inr idle)) inv
    | inr (t, f) ↦
        let r' = record r { pause_state = some (release t i id) } in
        let kept_room : Synced r' = same-Synced r r' refl refl refl refl refl inv in
        elim (resume-cases r c id sequence now i t e f) [
          | inl same ↦ rw same inv
          | inr let_go ↦
              rw let_go (holder-Synced r' (release t i id) (current_pause_state r) now kept_room)
        ]
  ]
]
