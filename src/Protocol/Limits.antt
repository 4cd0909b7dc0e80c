-- ===== src/Protocol/Limits.antt =====
-- src/limits.rs: the limits of the protocol and of the rooms.
use sn_netplay_serv.Base.{ℕ, ◌*◌}

abbrev pub mvp_room_capacity : ℕ
mvp_room_capacity = 2

abbrev pub max_future_frame_distance : ℕ
max_future_frame_distance = 240

abbrev pub max_input_batch_frames : ℕ
max_input_batch_frames = 4

abbrev pub max_input_batch_bytes : ℕ
max_input_batch_bytes = 8 * 1024

abbrev pub v5_retropad_input_bytes : ℕ
v5_retropad_input_bytes = 10

abbrev pub v5_max_future_frame_distance : ℕ
v5_max_future_frame_distance = 96

abbrev pub max_snapshot_chunk_bytes : ℕ
max_snapshot_chunk_bytes = 256 * 1024

abbrev pub max_snapshot_bytes : ℕ
max_snapshot_bytes = 100 * 1024 * 1024

abbrev pub max_link_cable_packet_bytes : ℕ
max_link_cable_packet_bytes = 4 * 1024

-- `SCHEDULED_START_MINIMUM_DELAY`, three seconds, in milliseconds.
abbrev pub scheduled_start_minimum_delay_ms : ℕ
scheduled_start_minimum_delay_ms = 3000
