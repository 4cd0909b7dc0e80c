-- ===== src/Rooms/Room/Repair.antt =====
-- src/rooms/room_v5_recovery_ops.rs: the two phases of a state repair. Times are nanoseconds of the
-- process clock.
use sn_netplay_serv.Base.{
  ltb, leb, ◌==◌, if◌then◌else◌, saturating_add, length, filter, find, Result, ◌>>=◌, ◌>>◌, fail_if,
  ok_or, map_err, ok, err, ℕ, ◌-◌, Bool, true, false, not, ◌||◌, none, some, List, [], ◌∷◌, ◌++◌,
  map,
}
use sn_netplay_serv.Protocol.Ids.{ConnectionId}
use sn_netplay_serv.Rooms.Recovery.{
  StateHashMismatchView, StateRecoveryView, StateRecoveryPin, StateRecoveryTransaction, prepare,
  accepts_message_epoch, commit, is_expired, recovery_view, manifest_eq,
}
use sn_netplay_serv.Rooms.Room.{
  NetplayRoom, uses_strict_controller_input, mark_connected, bump_session_epoch,
}
use sn_netplay_serv.Rooms.Room.Reset.{next_authoritative_checkpoint_after, reset_sync_state_to}
use sn_netplay_serv.Rooms.Slot.{PlayerSlot, slot_is_empty, holds}
use sn_netplay_serv.Rooms.Snapshot.{SnapshotLimits, SnapshotManifest, validate_manifest}
use sn_netplay_serv.Rooms.Types.{
  RoomError, RoomStatus, has_status, is_host, PlayerStatus, PlayerRuntimeState, unknown_connection,
  room_not_ready, host_only, snapshot_invalid, stale_room_epoch, stale_session_epoch,
}

-- `STATE_RECOVERY_ATTEMPT_WINDOW`, sixty seconds
abbrev pub state_recovery_attempt_window : ℕ
state_recovery_attempt_window = 60_000_000_000

abbrev pub state_recovery_max_attempts : ℕ
state_recovery_max_attempts = 2

pub data StateRecoveryStartOutcome : Type 0 where
  preparing attempt_limit_exceeded : StateRecoveryView → StateRecoveryStartOutcome

-- The slots of `close_state_recovery_room`.
unfoldable pub mark_disconnected : List PlayerSlot → List PlayerSlot
mark_disconnected = map λ (s : PlayerSlot). if slot_is_empty s then s else record s {
  status = PlayerStatus.disconnected;
  runtime_state = PlayerRuntimeState.disconnected;
}

-- `close_state_recovery_room`
unfoldable pub close_state_recovery_room : NetplayRoom → NetplayRoom
close_state_recovery_room r = record r {
  status = RoomStatus.closed;
  pending_host_frame_open = none;
  scheduled_start = none;
  players = mark_disconnected r.players;
}

-- `state_recovery_started_at.retain(…)`
unfoldable pub recent_attempts : ℕ → List ℕ → List ℕ
recent_attempts now = filter λ started. ltb (now - started) state_recovery_attempt_window

-- `begin_v5_state_recovery`; the transaction was just stored, so its view is never missing.
unfoldable pub begin_v5_state_recovery :
    NetplayRoom
    → StateHashMismatchView
    → ℕ
    → Result RoomError (NetplayRoom × StateRecoveryStartOutcome)
unfolding close_state_recovery_room
begin_v5_state_recovery r mismatch now =
    let transaction = prepare r.next_state_recovery_id mismatch r.room_epoch r.session_epoch now in
    let recent = recent_attempts now r.state_recovery_started_at in
    let r' = record r {
      state_recovery_started_at = recent;
      next_state_recovery_id = saturating_add r.next_state_recovery_id 1;
      state_recovery = some transaction;
    } in
    if not (uses_strict_controller_input r)
      || elim r.state_recovery [ none ↦ false | some t ↦ true ]
    then err room_not_ready
    else if leb state_recovery_max_attempts (length recent)
    then ok (close_state_recovery_room r', attempt_limit_exceeded (recovery_view transaction))
    else ok (
      record r' {
        state_recovery_started_at = recent ++ now ∷ [];
        next_authoritative_state_hash_frame =
            next_authoritative_checkpoint_after mismatch.repair_frame;
        status = RoomStatus.repairing_state;
        pending_host_frame_open = none;
        scheduled_start = none;
        players = mark_connected PlayerStatus.paused PlayerRuntimeState.pausing r.players;
      },
      preparing (recovery_view transaction),
    )

-- The host check of `accept_v5_state_recovery_pin_for_epoch`.
unfoldable pub validate_pin_sender : NetplayRoom → ConnectionId → Result RoomError (Unit {0})
validate_pin_sender r connection =
    elim (find (λ (s : PlayerSlot). holds s.connection_id connection) r.players) [
      | none ↦ err unknown_connection
      | some slot ↦ if is_host slot.role then ok tt else err host_only
    ]

-- The commit of a pin: the frame state starts again at the repair frame, in a new session epoch.
unfoldable pub commit_pin : NetplayRoom → StateRecoveryTransaction → SnapshotManifest → NetplayRoom
commit_pin r transaction manifest =
    let reset = reset_sync_state_to r transaction.mismatch.repair_frame in
    record (bump_session_epoch reset) {
      state_recovery = some (commit transaction manifest);
      status = RoomStatus.checking_compatibility;
      players = mark_connected PlayerStatus.connected PlayerRuntimeState.connected reset.players;
    }

-- `accept_v5_state_recovery_pin_for_epoch`
unfoldable pub accept_v5_state_recovery_pin :
    NetplayRoom
    → ConnectionId
    → ℕ
    → ℕ
    → StateRecoveryPin
    → SnapshotLimits
    → Result RoomError (NetplayRoom × StateRecoveryView)
unfolding commit_pin
accept_v5_state_recovery_pin r connection room_epoch session_epoch pin limits = do
  fail_if (not (uses_strict_controller_input r)) room_not_ready
  validate_pin_sender r connection
  map_err (validate_manifest pin.manifest limits) snapshot_invalid
  transaction ← ok_or r.state_recovery room_not_ready
  if not (accepts_message_epoch transaction room_epoch session_epoch)
      then err (if room_epoch == r.room_epoch then stale_session_epoch else stale_room_epoch)
      else if not (transaction.recovery_id == pin.recovery_id)
          || not (transaction.mismatch.repair_frame == pin.manifest.repair_frame)
      then err snapshot_invalid
      else elim transaction.pinned_snapshot [
        | some expected ↦
            if manifest_eq expected pin.manifest
            then ok (r, recovery_view transaction)
            else err snapshot_invalid
        | none ↦
            if not (has_status r.status RoomStatus.repairing_state)
            then err room_not_ready
            else ok (
              commit_pin r transaction pin.manifest,
              recovery_view (commit transaction pin.manifest),
            )
      ]

-- `state_recovery_pin_expired`
unfoldable pub state_recovery_pin_expired : NetplayRoom → ℕ → Bool
state_recovery_pin_expired r now = elim r.state_recovery [
  | none ↦ false
  | some t ↦ is_expired t now
]

-- `close_expired_state_recovery`
unfoldable pub close_expired_state_recovery : NetplayRoom → ℕ → NetplayRoom × Bool
unfolding close_state_recovery_room
close_expired_state_recovery r now =
    if state_recovery_pin_expired r now then (close_state_recovery_room r, true) else (r, false)
