-- ===== src/Rooms/Session/Held.antt =====
-- The invariant of a coordinated pause in a strict room, over the calls of
-- src/rooms/room_controller_netplay_ops.rs and the frame clock.
-- What the room and its pause say of each other: no frame past the frame of a pause is out, a room that waits for its start has no pause, and
-- once a player has acknowledged a pause, or the room is paused, the frame of the pause is the last
-- one released.
use sn_netplay_serv.Base.{ℕ, ◌+◌, ◌≤◌, ◌≡◌, sym, ap, ◌∙◌, true, false, none, some, arith}
use sn_netplay_serv.Protocol.FastInput.RoundTrip.{behind}
use sn_netplay_serv.Protocol.StrictInput.Batch.{StrictInputBatch}
use sn_netplay_serv.Rooms.Pause.{PauseTracker}
use sn_netplay_serv.Rooms.RelayBuffers.Laws.{waiting}
use sn_netplay_serv.Rooms.Room.{NetplayRoom, uses_strict_controller_input}
use sn_netplay_serv.Rooms.Room.HostFrame.{enter_v5_playing, advance_release, is_past_pause}
use sn_netplay_serv.Rooms.Room.StrictInput.{StrictInputBatchOutcome}
use sn_netplay_serv.Rooms.Room.StrictInput.Laws.{Took, kept, took}
use sn_netplay_serv.Rooms.Types.{RoomStatus, status_code, has_status}

pub record Held (r : NetplayRoom) : Type 0 where
  pub strict : uses_strict_controller_input r ≡ true
  pub near : r.next_release_frame ≤ r.room_frame + 1
  pub ahead :
      (t : PauseTracker) → r.pause_state ≡ some t → r.next_release_frame ≤ t.pause_at_frame + 1
  pub no_pause : has_status r.status RoomStatus.start_scheduled ≡ true → r.pause_state ≡ none
  pub reached :
      (t : PauseTracker) (f : ℕ)
      → r.pause_state ≡ some t
      → t.paused_at_frame ≡ some f
      → (f ≡ t.pause_at_frame) × (r.next_release_frame ≡ t.pause_at_frame + 1)
  pub settled :
      has_status r.status RoomStatus.paused ≡ true
      → (t : PauseTracker) × (r.pause_state ≡ some t) × (t.paused_at_frame ≡ some t.pause_at_frame)

-- A change that none of this reads.
pub keep-Held :
    (r r' : NetplayRoom)
    → uses_strict_controller_input r' ≡ uses_strict_controller_input r
    → r'.next_release_frame ≡ r.next_release_frame
    → r'.room_frame ≡ r.room_frame
    → r'.pause_state ≡ r.pause_state
    → r'.status ≡ r.status
    → Held r
    → Held r'
keep-Held r r' s n m p q inv = record {
  strict = s ∙ inv.strict;
  near = omega (arith, n, m, inv.near);
  ahead = λ t e. rw (sym n) at (inv.ahead t (sym p ∙ e));
  no_pause = λ e. p ∙ inv.no_pause (ap (λ x. has_status x RoomStatus.start_scheduled) (sym q) ∙ e);
  reached = λ t f e g. let (same, behind) = inv.reached t f (sym p ∙ e) g in (same, n ∙ behind);
  settled = λ e.
      let (t, f, g) = inv.settled (ap (λ x. has_status x RoomStatus.paused) (sym q) ∙ e) in
      (t, p ∙ f, g);
}

pub batch-Held :
    (r : NetplayRoom) (b : StrictInputBatch) (r' : NetplayRoom) (o : StrictInputBatchOutcome)
    → Took r b r' o
    → Held r
    → Held r'
unfolding uses_strict_controller_input
batch-Held r b r' o (kept same nothing) inv = rw same inv
batch-Held r b r' o (took a e le shape some_new bound fits adv) inv =
    keep-Held r r' (ap uses_strict_controller_input adv.rest)
      (ap (λ (x : NetplayRoom). x.next_release_frame) adv.rest)
      (ap (λ (x : NetplayRoom). x.room_frame) adv.rest)
      (ap (λ (x : NetplayRoom). x.pause_state) adv.rest)
      (ap (λ (x : NetplayRoom). x.status) adv.rest) inv

-- A release that is not past the pause.
pub advance-Held :
    (r : NetplayRoom) (f : ℕ)
    → f ≡ r.next_release_frame
    → is_past_pause r f ≡ false
    → has_status r.status RoomStatus.paused ≡ false
    → Held r
    → Held (advance_release r f)
unfolding advance_release is_past_pause uses_strict_controller_input
advance-Held r f e ahead running inv = record {
  strict = inv.strict;
  near = omega arith;
  ahead = λ t p. ground arith;
  no_pause = inv.no_pause;
  reached = λ t g p q. ground (arith, inv.reached t g p q);
  settled = λ p. ground arith;
}

-- Play begins in a room that waited for its start.
pub enter-Held :
    (r : NetplayRoom)
    → has_status r.status RoomStatus.start_scheduled ≡ true
    → Held r
    → Held (enter_v5_playing r)
unfolding enter_v5_playing uses_strict_controller_input has_status status_code
enter-Held r waiting inv = record {
  strict = inv.strict;
  near = inv.near;
  ahead = inv.ahead;
  no_pause = λ p. ground arith;
  reached = inv.reached;
  settled = λ p. ground arith;
}
