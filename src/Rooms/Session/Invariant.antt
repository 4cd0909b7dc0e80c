-- ===== src/Rooms/Session/Invariant.antt =====
-- The frame clock's invariant over the calls of src/rooms/room_strict_input_ops.rs,
-- room_host_frame_ops.rs, room_controller_netplay_ops.rs and room_v5_recovery_ops.rs.
use sn_netplay_serv.Base.{IsU64, ℕ, ◌+◌, ◌≤◌, ◌<◌, ◌≡◌, sym, ◌∙◌, some, arith}
use sn_netplay_serv.Protocol.Ids.{player_one}
use sn_netplay_serv.Rooms.Pause.{release}
use sn_netplay_serv.Rooms.Recovery.{StateRecoveryTransaction}
use sn_netplay_serv.Rooms.Room.{NetplayRoom, next_input_frame}

pub record Synced (r : NetplayRoom) : Type 0 where
  -- The host's input is accepted for every frame that is released.
  pub covered : r.next_release_frame ≤ next_input_frame r player_one
  -- The host's cursor fits 64 bits.
  pub bounded : IsU64 (next_input_frame r player_one)
  -- The next frame is the one behind the last.
  pub follows : (f : ℕ) → r.released_frame ≡ some f → r.next_release_frame ≡ f + 1
  -- An open that waits is for the next frame, and its input is there.
  pub waits :
      (f : ℕ)
      → r.pending_host_frame_open ≡ some f
      → (f ≡ r.next_release_frame) × (f < next_input_frame r player_one)
  -- A repair starts at a frame of 64 bits.
  pub repairs :
      (t : StateRecoveryTransaction) → r.state_recovery ≡ some t → IsU64 t.mismatch.repair_frame

-- The host's cursor may move on while the frame clock and the repair stand still.
pub keep-Synced :
    (r r' : NetplayRoom)
    → r'.next_release_frame ≡ r.next_release_frame
    → r'.released_frame ≡ r.released_frame
    → r'.pending_host_frame_open ≡ r.pending_host_frame_open
    → r'.state_recovery ≡ r.state_recovery
    → next_input_frame r player_one ≤ next_input_frame r' player_one
    → IsU64 (next_input_frame r' player_one)
    → Synced r
    → Synced r'
keep-Synced r r' release last waiting recovery grows fits inv = record {
  covered = omega (arith, inv.covered, release, grows);
  bounded = fits;
  follows = λ f h. release ∙ inv.follows f (sym last ∙ h);
  waits = λ f h.
      let (e, lt) = inv.waits f (sym waiting ∙ h) in (e ∙ sym release, omega (arith, lt, grows));
  repairs = λ t h. inv.repairs t (sym recovery ∙ h);
}

-- A change of the room that the invariant does not read.
pub same-Synced :
    (r r' : NetplayRoom)
    → r'.next_release_frame ≡ r.next_release_frame
    → r'.released_frame ≡ r.released_frame
    → r'.pending_host_frame_open ≡ r.pending_host_frame_open
    → r'.state_recovery ≡ r.state_recovery
    → next_input_frame r' player_one ≡ next_input_frame r player_one
    → Synced r
    → Synced r'
same-Synced r r' a b c d e inv =
    keep-Synced r r' a b c d (omega (arith, e)) (omega (arith, e, inv.bounded)) inv
