-- ===== src/Rooms/Session/Repairs.antt =====
-- The invariant over the repair of src/rooms/room_v5_recovery_ops.rs.
use sn_netplay_serv.Base.{
  Bool-cases, IsU64, ok, ℕ, ◌≡◌, refl, sym, ◌∙◌, ◌⊎◌, inl, inr, none, some, arith,
}
use sn_netplay_serv.Base.Maps.{lookup}
use sn_netplay_serv.Protocol.Ids.{ConnectionId, player_one}
use sn_netplay_serv.Rooms.Recovery.{
  StateHashMismatchView, StateRecoveryView, StateRecoveryPin, StateRecoveryTransaction, prepare,
  commit,
}
use sn_netplay_serv.Rooms.Room.{NetplayRoom, next_input_frame, bump_session_epoch}
use sn_netplay_serv.Rooms.Room.Repair.{
  StateRecoveryStartOutcome, close_state_recovery_room, begin_v5_state_recovery, commit_pin,
  accept_v5_state_recovery_pin, state_recovery_pin_expired, close_expired_state_recovery,
}
use sn_netplay_serv.Rooms.Room.Reset.{reset_sync_state_to}
use sn_netplay_serv.Rooms.Room.StartSync.{reset_start_sync_state}
use sn_netplay_serv.Rooms.Session.Invariant.{Synced}
use sn_netplay_serv.Rooms.Snapshot.{SnapshotLimits, SnapshotManifest}

pub commit-Synced :
    (r : NetplayRoom) (t : StateRecoveryTransaction) (m : SnapshotManifest)
    → r.state_recovery ≡ some t
    → Synced r
    → Synced (commit_pin r t m)
unfolding commit_pin reset_sync_state_to reset_start_sync_state next_input_frame commit
    bump_session_epoch lookup
commit-Synced r t m e inv = record {
  covered = omega arith;
  bounded = inv.repairs t e;
  follows = λ f h. ground arith;
  waits = λ f h. ground arith;
  repairs = λ u h. ground (arith, inv.repairs t e);
}

pub pin-cases :
    (r : NetplayRoom) (c : ConnectionId) (room_epoch session_epoch : ℕ) (p : StateRecoveryPin)
    (limits : SnapshotLimits) (r' : NetplayRoom) (v : StateRecoveryView)
    → accept_v5_state_recovery_pin r c room_epoch session_epoch p limits ≡ ok (r', v)
    → (r' ≡ r)
      ⊎ ((t : StateRecoveryTransaction) × (r.state_recovery ≡ some t)
          × (r' ≡ commit_pin r t p.manifest))
unfolding accept_v5_state_recovery_pin
pin-cases r c room_epoch session_epoch p limits r' v h = ground arith

pub pin-Synced :
    (r : NetplayRoom) (c : ConnectionId) (room_epoch session_epoch : ℕ) (p : StateRecoveryPin)
    (limits : SnapshotLimits) (r' : NetplayRoom) (v : StateRecoveryView)
    → accept_v5_state_recovery_pin r c room_epoch session_epoch p limits ≡ ok (r', v)
    → Synced r
    → Synced r'
pin-Synced r c room_epoch session_epoch p limits r' v h inv =
    elim (pin-cases r c room_epoch session_epoch p limits r' v h) [
      | inl same ↦ rw same inv
      | inr (t, e, fresh) ↦ rw fresh (commit-Synced r t p.manifest e inv)
    ]

-- A repair that starts, or that closes the room, stops an open that waits.
stop-Synced :
    (r r' : NetplayRoom)
    → r'.next_release_frame ≡ r.next_release_frame
    → r'.released_frame ≡ r.released_frame
    → r'.pending_host_frame_open ≡ none
    → next_input_frame r' player_one ≡ next_input_frame r player_one
    → ((t : StateRecoveryTransaction) → r'.state_recovery ≡ some t → IsU64 t.mismatch.repair_frame)
    → Synced r
    → Synced r'
stop-Synced r r' a b c e repairs inv = record {
  covered = omega (arith, a, e, inv.covered);
  bounded = omega (arith, e, inv.bounded);
  follows = λ f h. a ∙ inv.follows f (sym b ∙ h);
  waits = λ f h. let t : none ≡ some f = sym c ∙ h in ground arith;
  repairs = repairs;
}

pub repair-Synced :
    (r : NetplayRoom) (m : StateHashMismatchView) (now : ℕ) (r' : NetplayRoom)
    (o : StateRecoveryStartOutcome)
    → IsU64 m.repair_frame
    → begin_v5_state_recovery r m now ≡ ok (r', o)
    → Synced r
    → Synced r'
unfolding begin_v5_state_recovery close_state_recovery_room next_input_frame prepare
repair-Synced r m now r' o fits h inv =
    stop-Synced r r' (ground arith) (ground arith) (ground arith) (ground arith)
      (λ t e. ground arith) inv

pub expire-Synced :
    (r : NetplayRoom) (now : ℕ) → Synced r → Synced (close_expired_state_recovery r now).0
unfolding close_expired_state_recovery close_state_recovery_room next_input_frame
expire-Synced r now inv = elim (Bool-cases (state_recovery_pin_expired r now)) [
  | inl expired ↦
      rw expired (stop-Synced r (close_state_recovery_room r) refl refl refl refl inv.repairs inv)
  | inr open_still ↦ rw open_still inv
]
