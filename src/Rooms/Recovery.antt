-- ===== src/Rooms/Recovery.antt =====
-- src/rooms/state_recovery_transaction.rs, and the values of src/protocol/state_recovery.rs and
-- src/protocol/state_hash.rs. Times are nanoseconds of the process clock.
-- `STATE_RECOVERY_PIN_TIMEOUT`, ten seconds.
use sn_netplay_serv.Base.{
  leb, ◌==◌, if◌then◌else◌, ℕ, ◌-◌, Bool, true, false, ◌&&◌, Option, none, some, List,
}
use sn_netplay_serv.Base.Bytes.{bytes_eq}
use sn_netplay_serv.Base.Int.{ℤ}
use sn_netplay_serv.Base.Maps.{Text}
use sn_netplay_serv.Protocol.Ids.{PlayerIndex}
use sn_netplay_serv.Rooms.Snapshot.{SnapshotManifest}

abbrev pub state_recovery_pin_timeout : ℕ
state_recovery_pin_timeout = 10_000_000_000

pub record PlayerStateHashView : Type 0 where
  pub player_index : PlayerIndex
  pub sha256 : Text

pub record NearbyStateHashMatchView : Type 0 where
  pub source_player_index : PlayerIndex
  pub source_frame : ℕ
  pub matched_player_index : PlayerIndex
  pub matched_frame : ℕ
  pub frame_offset : ℤ

pub record StateHashMismatchView : Type 0 where
  pub frame : ℕ
  pub repair_frame : ℕ
  pub hashes : List PlayerStateHashView
  pub nearby_matches : List NearbyStateHashMatchView

pub data StateRecoveryPhase : Type 0 where
  preparing committed : StateRecoveryPhase

pub record StateRecoveryView : Type 0 where
  pub recovery_id : ℕ
  pub phase : StateRecoveryPhase
  pub repair_frame : ℕ
  pub mismatch : StateHashMismatchView
  pub pinned_snapshot : Option SnapshotManifest

pub record StateRecoveryPin : Type 0 where
  pub recovery_id : ℕ
  pub manifest : SnapshotManifest

pub record StateRecoveryTransaction : Type 0 where
  pub recovery_id : ℕ
  pub mismatch : StateHashMismatchView
  pub pinned_snapshot : Option SnapshotManifest
  pub preparing_room_epoch : ℕ
  pub preparing_session_epoch : ℕ
  pub started_at : ℕ

-- `StateRecoveryTransaction::preparing`
unfoldable pub prepare : ℕ → StateHashMismatchView → ℕ → ℕ → ℕ → StateRecoveryTransaction
prepare recovery_id mismatch room_epoch session_epoch started_at = record {
  recovery_id = recovery_id;
  mismatch = mismatch;
  pinned_snapshot = none;
  preparing_room_epoch = room_epoch;
  preparing_session_epoch = session_epoch;
  started_at = started_at;
}

unfoldable pub accepts_message_epoch : StateRecoveryTransaction → ℕ → ℕ → Bool
accepts_message_epoch t room_epoch session_epoch =
    (room_epoch == t.preparing_room_epoch) && (session_epoch == t.preparing_session_epoch)

unfoldable pub commit : StateRecoveryTransaction → SnapshotManifest → StateRecoveryTransaction
commit t manifest = record t { pinned_snapshot = some manifest }

unfoldable pub is_preparing : StateRecoveryTransaction → Bool
is_preparing t = elim t.pinned_snapshot [ none ↦ true | some m ↦ false ]

unfoldable pub is_expired : StateRecoveryTransaction → ℕ → Bool
unfolding is_preparing
is_expired t now = is_preparing t && leb state_recovery_pin_timeout (now - t.started_at)

-- `StateRecoveryTransaction::view`
unfoldable pub recovery_view : StateRecoveryTransaction → StateRecoveryView
unfolding is_preparing
recovery_view t = record {
  recovery_id = t.recovery_id;
  phase = if is_preparing t then preparing else committed;
  repair_frame = t.mismatch.repair_frame;
  mismatch = t.mismatch;
  pinned_snapshot = t.pinned_snapshot;
}

-- `==` on manifests
unfoldable pub manifest_eq : SnapshotManifest → SnapshotManifest → Bool
manifest_eq m n =
    bytes_eq m.snapshot_id n.snapshot_id
    && ((m.repair_frame == n.repair_frame)
        && ((m.total_bytes == n.total_bytes) && bytes_eq m.sha256 n.sha256))
