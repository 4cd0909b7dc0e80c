-- ===== src/Rooms/Session/Pausing.antt =====
-- The pause invariant over every call of a strict room, and what it says of a resume.
use sn_netplay_serv.Base.{
  Bool-cases, Option-cases, ok, ℕ, ◌+◌, ◌≡◌, refl, sym, ◌∙◌, inl, inr, false, not, ◌||◌, some,
  arith,
}
use sn_netplay_serv.Base.Maps.{Text}
use sn_netplay_serv.Protocol.FastInput.RoundTrip.{behind}
use sn_netplay_serv.Protocol.Ids.{PlayerIndex, ConnectionId}
use sn_netplay_serv.Rooms.Pause.{
  SessionPauseState, PauseTracker, release, resume_at_frame, has_holders,
}
use sn_netplay_serv.Rooms.Recovery.{StateHashMismatchView, StateRecoveryView, StateRecoveryPin}
use sn_netplay_serv.Rooms.Room.{
  ScheduledSessionStart, NetplayRoom, uses_strict_controller_input, player_index_for_connection,
  bump_session_epoch,
}
use sn_netplay_serv.Rooms.Room.PauseOps.{
  current_pause_state, release_holder, request_session_resume, resumed_v5,
}
use sn_netplay_serv.Rooms.Room.PauseOps.Resume.{request_session_resume-Resumed}
use sn_netplay_serv.Rooms.Room.Repair.{
  StateRecoveryStartOutcome, close_state_recovery_room, begin_v5_state_recovery, commit_pin,
  accept_v5_state_recovery_pin, state_recovery_pin_expired, close_expired_state_recovery,
}
use sn_netplay_serv.Rooms.Room.Reset.{reset_sync_state_to}
use sn_netplay_serv.Rooms.Room.StartSync.{reset_start_sync_state}
use sn_netplay_serv.Rooms.Room.StrictInput.Laws.{accept_strict_input_batch-Took}
use sn_netplay_serv.Rooms.Session.{
  Step, Steps, batch_step, open_step, due_step, pause_step, reach_step, resume_step, repair_step,
  pin_step, expire_step, no_step, and_step,
}
use sn_netplay_serv.Rooms.Session.Held.{Held, batch-Held}
use sn_netplay_serv.Rooms.Session.HeldEnd.{reach-Held}
use sn_netplay_serv.Rooms.Session.HeldSteps.{open-Held, due-Held, swap-Held, pause-Held, clear-Held}
use sn_netplay_serv.Rooms.Session.Invariant.{Synced}
use sn_netplay_serv.Rooms.Session.Pauses.{resume-cases, resume-refused}
use sn_netplay_serv.Rooms.Session.Reachable.{Steps-Synced}
use sn_netplay_serv.Rooms.Session.Repairs.{pin-cases}
use sn_netplay_serv.Rooms.Snapshot.{SnapshotLimits}
use sn_netplay_serv.Rooms.Types.{RoomStatus, status_code, has_status}

holder-Held :
    (r : NetplayRoom) (t : PauseTracker) (state : SessionPauseState) (now : ℕ)
    → Held r
    → Held (release_holder r t state (some now)).0
unfolding release_holder
holder-Held r t state now inv =
    elim (Bool-cases (has_holders t || not (has_status r.status RoomStatus.paused))) [
      | inl stays ↦ rw stays inv
      | inr free ↦ rw (free, inv.strict) (clear-Held r (resume_at_frame t) now inv.strict)
    ]

release-same :
    (t : PauseTracker) (i : PlayerIndex) (id : Text)
    → ((release t i id).pause_at_frame ≡ t.pause_at_frame)
      × ((release t i id).paused_at_frame ≡ t.paused_at_frame)
unfolding release
release-same t i id = (ground arith, ground arith)

resume-Held :
    (r : NetplayRoom) (c : ConnectionId) (id : Text) (sequence now : ℕ)
    → Held r
    → Held (request_session_resume r c id sequence (some now)).0
resume-Held r c id sequence now inv = elim (Option-cases (player_index_for_connection r c)) [
  | inl unknown ↦ rw (resume-refused r c id sequence now (inl unknown)) inv
  | inr (i, e) ↦ elim (Option-cases r.pause_state) [
    | inl idle ↦ rw (resume-refused r c id sequence now (inr idle)) inv
    | inr (t, f) ↦
        let u = release t i id in
        let r' = record r { pause_state = some u } in
        let (at, paused_at) = release-same t i id in
        let held_room : Held r' = swap-Held r t u f at paused_at inv in
        elim (resume-cases r c id sequence now i t e f) [
          | inl same ↦ rw same inv
          | inr let_go ↦ rw let_go (holder-Held r' u (current_pause_state r) now held_room)
        ]
  ]
]

-- A repair leaves the pause where it is, in a room that neither plays nor pauses.
stop-Held :
    (r r' : NetplayRoom)
    → uses_strict_controller_input r' ≡ uses_strict_controller_input r
    → r'.next_release_frame ≡ r.next_release_frame
    → r'.room_frame ≡ r.room_frame
    → r'.pause_state ≡ r.pause_state
    → has_status r'.status RoomStatus.start_scheduled ≡ false
    → has_status r'.status RoomStatus.paused ≡ false
    → Held r
    → Held r'
stop-Held r r' s n m p q w inv = record {
  strict = s ∙ inv.strict;
  near = omega (arith, n, m, inv.near);
  ahead = λ t e. rw (sym n) at (inv.ahead t (sym p ∙ e));
  no_pause = λ e. ground arith;
  reached = λ t f e g. let (same, behind) = inv.reached t f (sym p ∙ e) g in (same, n ∙ behind);
  settled = λ e. ground arith;
}

repair-Held :
    (r : NetplayRoom) (m : StateHashMismatchView) (now : ℕ) (r' : NetplayRoom)
    (o : StateRecoveryStartOutcome)
    → begin_v5_state_recovery r m now ≡ ok (r', o)
    → Held r
    → Held r'
unfolding begin_v5_state_recovery close_state_recovery_room uses_strict_controller_input has_status
    status_code
repair-Held r m now r' o h inv =
    stop-Held r r' (ground arith) (ground arith) (ground arith) (ground arith) (ground arith)
      (ground arith) inv

pin-Held :
    (r : NetplayRoom) (c : ConnectionId) (room_epoch session_epoch : ℕ) (p : StateRecoveryPin)
    (limits : SnapshotLimits) (r' : NetplayRoom) (v : StateRecoveryView)
    → accept_v5_state_recovery_pin r c room_epoch session_epoch p limits ≡ ok (r', v)
    → Held r
    → Held r'
unfolding commit_pin reset_sync_state_to reset_start_sync_state bump_session_epoch
    uses_strict_controller_input has_status status_code
pin-Held r c room_epoch session_epoch p limits r' v h inv =
    elim (pin-cases r c room_epoch session_epoch p limits r' v h) [
      | inl same ↦ rw same inv
      | inr (t, e, fresh) ↦ rw fresh (record {
        strict = inv.strict;
        near = omega arith;
        ahead = λ w f. ground arith;
        no_pause = λ f. refl;
        reached = λ w f g k. ground arith;
        settled = λ f. ground arith;
      })
    ]

expire-Held : (r : NetplayRoom) (now : ℕ) → Held r → Held (close_expired_state_recovery r now).0
unfolding close_expired_state_recovery close_state_recovery_room uses_strict_controller_input
    has_status status_code
expire-Held r now inv = elim (Bool-cases (state_recovery_pin_expired r now)) [
  | inl expired ↦
      rw expired (stop-Held r (close_state_recovery_room r) refl refl refl refl refl refl inv)
  | inr open_still ↦ rw open_still inv
]

Step-Held : {r r' : NetplayRoom} → Step r r' → Synced r → Held r → Held r'
Step-Held {r} {r'} (batch_step c b o some_payload h) synced inv =
    batch-Held r b r' o (accept_strict_input_batch-Took r c b r' o some_payload h) inv
Step-Held {r} {r'} (open_step c q now o h) synced inv = open-Held r c q now r' o h inv
Step-Held {r} (due_step now) synced inv = due-Held r now synced inv
Step-Held {r} {r'} (pause_step c id reason frame v h) synced inv =
    pause-Held r c id reason frame r' v h synced inv
Step-Held {r} (reach_step c sequence frame now) synced inv =
    reach-Held r c sequence frame now synced inv
Step-Held {r} (resume_step c id sequence now) synced inv = resume-Held r c id sequence now inv
Step-Held {r} {r'} (repair_step m now o fits h) synced inv = repair-Held r m now r' o h inv
Step-Held {r} {r'} (pin_step c room_epoch session_epoch p limits v h) synced inv =
    pin-Held r c room_epoch session_epoch p limits r' v h inv
Step-Held {r} (expire_step now) synced inv = expire-Held r now inv

-- Any sequence of the session's calls keeps the pause invariant of a strict room on which the frame
-- clock's invariant holds: no frame is released past the frame of a pause, a room that waits for its
-- start has no pause, and once a player has acknowledged a pause, or the room is paused, the frame
-- of the pause is the last one released.
pub Steps-Held : {r r' : NetplayRoom} → Steps r r' → Synced r → Held r → Held r'
Steps-Held no_step synced inv = inv
Steps-Held (and_step before last) synced inv =
    Step-Held last (Steps-Synced before synced) (Steps-Held before synced inv)

-- A pause loses no frame and repeats none: from a strict room on which both invariants hold, after
-- any sequence of the session's calls, a release of the last holder that resumes the room schedules
-- the start for exactly the frame that was next to release, which is the one behind the pause frame.
pub resume-lossless :
    (r s t : NetplayRoom) (c : ConnectionId) (id : Text) (sequence now : ℕ)
    (start : ScheduledSessionStart)
    → Synced r
    → Held r
    → Steps r s
    → request_session_resume s c id sequence (some now) ≡ (t, ok (resumed_v5 start))
    → (start.start_frame ≡ s.next_release_frame)
      × (t.next_release_frame ≡ s.next_release_frame)
      × ((p : PauseTracker) × (s.pause_state ≡ some p)
          × (s.next_release_frame ≡ p.pause_at_frame + 1))
unfolding resume_at_frame
resume-lossless r s t c id sequence now start synced inv steps h =
    let synced' : Synced s = Steps-Synced steps synced in
    let inv' : Held s = Steps-Held steps synced inv in
    let (p, e, same, paused, made) = request_session_resume-Resumed s c id sequence now t start h in
    let (q, f, at) = inv'.settled paused in
    let one : p ≡ q = ground arith in
    let reached_at : p.paused_at_frame ≡ some p.pause_at_frame = rw one at in
    let behind : s.next_release_frame ≡ p.pause_at_frame + 1 =
      (inv'.reached p p.pause_at_frame e reached_at).1 in
    let frame : resume_at_frame p ≡ s.next_release_frame =
      rw reached_at (omega (arith, behind, synced'.covered, synced'.bounded)) in
    (made.start_frame ∙ frame, made.release_cursor ∙ frame, (p, e, behind))
