-- ===== src/Rooms/Room/Reset.antt =====
-- The resets of the frame state: `reset_sync_state_to` of src/rooms/room.rs, the checkpoint cursors
-- of src/rooms/room_state_hash_ops.rs, and src/rooms/room_v5_pause_ops.rs.
use sn_netplay_serv.Base.{
  ◌==◌, if◌then◌else◌, saturating_add, saturating_mul, ℕ, ◌+◌, ◌/◌, ◌%◌, false, none, [], map,
}
use sn_netplay_serv.Rooms.Room.{
  ScheduledSessionStart, NetplayRoom, uses_strict_controller_input, mark_connected,
  bump_session_epoch,
}
use sn_netplay_serv.Rooms.Room.StartSync.{schedule_v5_resume, reset_start_sync_state}
use sn_netplay_serv.Rooms.Slot.{PlayerSlot}
use sn_netplay_serv.Rooms.Types.{RoomStatus, PlayerStatus, PlayerRuntimeState}

-- `AUTHORITATIVE_STATE_HASH_INTERVAL_FRAMES`
abbrev pub state_hash_interval : ℕ
state_hash_interval = 600

-- `next_authoritative_checkpoint_after`
unfoldable pub next_authoritative_checkpoint_after : ℕ → ℕ
next_authoritative_checkpoint_after frame =
    saturating_mul (saturating_add (frame / state_hash_interval) 1) state_hash_interval

-- `next_authoritative_checkpoint_at_or_after`; `div_ceil` rounds up.
unfoldable pub next_authoritative_checkpoint_at_or_after : ℕ → ℕ
next_authoritative_checkpoint_at_or_after frame =
    if frame == 0
    then state_hash_interval
    else saturating_mul
        (frame / state_hash_interval + (if frame % state_hash_interval == 0 then 0 else 1))
        state_hash_interval

-- The reports that a reset of a strict room forgets.
unfoldable pub forget_reports : PlayerSlot → PlayerSlot
forget_reports s = record s {
  latest_local_frame = none;
  latest_local_frame_reported_at = none;
  latest_network_report = none;
  latest_network_reported_at = none;
}

-- `reset_sync_state_to`
unfoldable pub reset_sync_state_to : NetplayRoom → ℕ → NetplayRoom
unfolding reset_start_sync_state
reset_sync_state_to r start_frame = reset_start_sync_state (record r {
  players = if uses_strict_controller_input r then map forget_reports r.players else r.players;
  ready_players = [];
  last_input_frames = [];
  next_input_frames = [];
  host_snapshot_completed = false;
  completed_snapshot_manifest = none;
  pause_state = none;
  snapshot_transfer = none;
  sync_start_frame = start_frame;
  room_frame = start_frame;
  released_frame = none;
  next_release_frame = start_frame;
  pending_input_delay_change = none;
  state_hashes = [];
  state_hash_true_mismatch_streak = 0;
  next_authoritative_state_hash_frame = next_authoritative_checkpoint_after start_frame;
  state_recovery = none;
  pending_host_frame_open = none;
})

-- `begin_v5_pause_resume` up to its schedule
unfoldable pub clear_for_resume : NetplayRoom → ℕ → NetplayRoom
unfolding bump_session_epoch
clear_for_resume r resume_frame = record (bump_session_epoch r) {
  last_input_frames = [];
  next_input_frames = [];
  pause_state = none;
  snapshot_transfer = none;
  sync_start_frame = resume_frame;
  room_frame = resume_frame;
  released_frame = none;
  next_release_frame = resume_frame;
  pending_input_delay_change = none;
  state_hashes = [];
  state_hash_true_mismatch_streak = 0;
  next_authoritative_state_hash_frame = next_authoritative_checkpoint_at_or_after resume_frame;
  pending_host_frame_open = none;
  scheduled_start = none;
  status = RoomStatus.start_scheduled;
  players = mark_connected PlayerStatus.ready PlayerRuntimeState.deterministic_ready r.players;
}

-- `begin_v5_pause_resume`
unfoldable pub begin_v5_pause_resume : NetplayRoom → ℕ → ℕ → NetplayRoom × ScheduledSessionStart
unfolding clear_for_resume schedule_v5_resume
begin_v5_pause_resume r resume_frame server_time_ms =
    schedule_v5_resume (clear_for_resume r resume_frame) resume_frame server_time_ms
