-- ===== src/Rooms/Session/HeldEnd.antt =====
-- The pause invariant where a pause is reached, ends or gives way to a repair.
use sn_netplay_serv.Base.{
  Bool-cases, Option-cases, ℕ, ◌+◌, ◌≤◌, ◌≡◌, refl, sym, ap, ◌∙◌, ◌⊎◌, inl, inr, true, false, some,
  arith,
}
use sn_netplay_serv.Protocol.FastInput.RoundTrip.{behind}
use sn_netplay_serv.Protocol.Ids.{PlayerIndex, ConnectionId}
use sn_netplay_serv.Rooms.Pause.{PauseTracker, acknowledge, resume_at_frame, has_holders}
use sn_netplay_serv.Rooms.Room.{
  NetplayRoom, uses_strict_controller_input, player_index_for_connection,
}
use sn_netplay_serv.Rooms.Room.PauseOps.{
  pause_room, pause_frame_is_invalid, pause_is_early, complete_pause, mark_session_pause_reached,
}
use sn_netplay_serv.Rooms.Session.Held.{Held}
use sn_netplay_serv.Rooms.Session.HeldSteps.{clear-Held}
use sn_netplay_serv.Rooms.Session.Invariant.{Synced}
use sn_netplay_serv.Rooms.Session.Pauses.{reach-cases, reach-refused}
use sn_netplay_serv.Rooms.Types.{status_code, has_status}

reach-facts :
    (r : NetplayRoom) (c : ConnectionId) (sequence frame now : ℕ) (i : PlayerIndex)
    (t : PauseTracker)
    → uses_strict_controller_input r ≡ true
    → player_index_for_connection r c ≡ some i
    → r.pause_state ≡ some t
    → ((mark_session_pause_reached r c sequence frame (some now)).0 ≡ r)
      ⊎ ((frame ≡ t.pause_at_frame) × (pause_is_early r t ≡ false))
unfolding mark_session_pause_reached pause_frame_is_invalid
reach-facts r c sequence frame now i t strict e f = ground arith

pub late-released :
    (r : NetplayRoom) (t : PauseTracker)
    → uses_strict_controller_input r ≡ true
    → pause_is_early r t ≡ false
    → (f : ℕ) × (r.released_frame ≡ some f) × (t.pause_at_frame ≤ f)
unfolding pause_is_early
late-released r t strict late = elim (Option-cases r.released_frame) [
  | inl nothing ↦ ground arith
  | inr (f, e) ↦ (f, e, ground arith)
]

-- The pause frame is the last one released.
pub at_pause :
    (r : NetplayRoom) (t : PauseTracker)
    → r.pause_state ≡ some t
    → pause_is_early r t ≡ false
    → Synced r
    → Held r
    → r.next_release_frame ≡ t.pause_at_frame + 1
at_pause r t e late synced inv =
    let (f, g, le) = late-released r t inv.strict late in
    omega (arith, synced.follows f g, inv.ahead t e, le)

pub acknowledged :
    (r : NetplayRoom) (t : PauseTracker) (i : PlayerIndex)
    → r.pause_state ≡ some t
    → Held r
    → (acknowledge t i t.pause_at_frame).paused_at_frame ≡ some t.pause_at_frame
unfolding acknowledge
acknowledged r t i e inv = elim (Option-cases t.paused_at_frame) [
  | inl first ↦ rw first refl
  | inr (f, again) ↦
      let same : f ≡ t.pause_at_frame = (inv.reached t f e again).0 in
      rw (again, same) (ap some (omega arith))
]

acknowledge-Held :
    (r : NetplayRoom) (t u : PauseTracker)
    → r.pause_state ≡ some t
    → u.pause_at_frame ≡ t.pause_at_frame
    → u.paused_at_frame ≡ some t.pause_at_frame
    → r.next_release_frame ≡ t.pause_at_frame + 1
    → Held r
    → Held (record r { pause_state = some u })
unfolding uses_strict_controller_input
acknowledge-Held r t u e at paused_at behind inv = record {
  strict = inv.strict;
  near = inv.near;
  ahead = λ w f. ground arith;
  no_pause = λ f. let g = inv.no_pause f in ground arith;
  reached = λ w f g k. (ground arith, ground arith);
  settled = λ f. (u, refl, paused_at ∙ ap some (sym at));
}

acknowledge-at :
    (t : PauseTracker) (i : PlayerIndex) (f : ℕ)
    → (acknowledge t i f).pause_at_frame ≡ t.pause_at_frame
unfolding acknowledge
acknowledge-at t i f = refl

pause_room-Held :
    (r : NetplayRoom) (t : PauseTracker)
    → r.pause_state ≡ some t
    → t.paused_at_frame ≡ some t.pause_at_frame
    → Held r
    → Held (pause_room r)
unfolding pause_room uses_strict_controller_input has_status status_code
pause_room-Held r t e paused_at inv = record {
  strict = inv.strict;
  near = inv.near;
  ahead = inv.ahead;
  no_pause = λ f. ground arith;
  reached = inv.reached;
  settled = λ f. (t, e, paused_at);
}

complete-Held :
    (r : NetplayRoom) (t : PauseTracker) (sequence now : ℕ)
    → r.pause_state ≡ some t
    → t.paused_at_frame ≡ some t.pause_at_frame
    → Held r
    → Held (complete_pause r t sequence (some now)).0
unfolding complete_pause
complete-Held r t sequence now e paused_at inv = elim (Bool-cases (has_holders t)) [
  | inr free ↦ rw (free, inv.strict) (clear-Held r (resume_at_frame t) now inv.strict)
  | inl some_left ↦ rw some_left (pause_room-Held r t e paused_at inv)
]

pub reach-Held :
    (r : NetplayRoom) (c : ConnectionId) (sequence frame now : ℕ)
    → Synced r
    → Held r
    → Held (mark_session_pause_reached r c sequence frame (some now)).0
reach-Held r c sequence frame now synced inv =
    elim (Option-cases (player_index_for_connection r c)) [
      | inl unknown ↦ rw (reach-refused r c sequence frame now (inl unknown)) inv
      | inr (i, e) ↦ elim (Option-cases r.pause_state) [
        | inl idle ↦ rw (reach-refused r c sequence frame now (inr idle)) inv
        | inr (t, f) ↦ elim (reach-facts r c sequence frame now i t inv.strict e f) [
          | inl same ↦ rw same inv
          | inr (at, late) ↦
              let u = acknowledge t i frame in
              let r' = record r { pause_state = some u } in
              let here : u.paused_at_frame ≡ some t.pause_at_frame =
                rw at (acknowledged r t i f inv) in
              let held_room : Held r' =
                acknowledge-Held r t u f (acknowledge-at t i frame) here
                  (at_pause r t f late synced inv) inv in
              elim (reach-cases r c sequence frame now i t e f) [
                | inl same ↦ rw same inv
                | inr (inl waits_on) ↦ rw waits_on held_room
                | inr (inr all_there) ↦ rw all_there (
                    complete-Held r' u sequence now refl
                      (here ∙ ap some (sym (acknowledge-at t i frame))) held_room)
              ]
        ]
      ]
    ]
