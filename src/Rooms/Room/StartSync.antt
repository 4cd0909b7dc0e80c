-- ===== src/Rooms/Room/StartSync.antt =====
-- src/rooms/room_start_sync.rs: the schedule of a resume. The clock samples that lead to the first
-- start are not modelled.
use sn_netplay_serv.Base.{saturating_add, ℕ, ◌/◌, max, none, some, List, [], ◌∷◌, map}
use sn_netplay_serv.Protocol.Limits.{scheduled_start_minimum_delay_ms}
use sn_netplay_serv.Rooms.Room.{ScheduledSessionStart, NetplayRoom}
use sn_netplay_serv.Rooms.Slot.{ClientNetworkQualityReport, PlayerSlot}

abbrev pub clock_sync_safety_margin_ms : ℕ
clock_sync_safety_margin_ms = 100

-- `iter().max().unwrap_or(0)`
unfoldable pub max_or_zero : List ℕ → ℕ
max_or_zero [] = 0
max_or_zero (n ∷ ns) = max n (max_or_zero ns)

-- The three values of one report, a missing one as 0: the maximum of none is 0 as well.
unfoldable pub report_budget : ClientNetworkQualityReport → ℕ
report_budget report =
    max (elim report.clock_uncertainty_ms [ none ↦ 0 | some v ↦ v ])
      (max (elim report.jitter_ms [ none ↦ 0 | some v ↦ v ])
        (elim report.round_trip_ms [ none ↦ 0 | some v ↦ v / 2 ]))

-- `scheduled_start_uncertainty_budget`
unfoldable pub scheduled_start_uncertainty_budget : NetplayRoom → ℕ
scheduled_start_uncertainty_budget r =
    max (max_or_zero (map (λ (p : ℕ × ℕ). p.1) r.clock_uncertainty_by_player)) (
      max_or_zero (
        map
          (λ (s : PlayerSlot). elim s.latest_network_report [ none ↦ 0 | some q ↦ report_budget q ])
          r.players))

-- The start that `schedule_v5_resume` builds.
unfoldable pub v5_resume_start : NetplayRoom → ℕ → ℕ → ScheduledSessionStart
v5_resume_start r start_frame server_time_ms =
    let uncertainty_ms = scheduled_start_uncertainty_budget r in
    let selected_delay_ms =
      max scheduled_start_minimum_delay_ms
        (saturating_add uncertainty_ms clock_sync_safety_margin_ms) in
    record {
      room_epoch = r.room_epoch;
      session_epoch = r.session_epoch;
      start_frame = start_frame;
      server_time_ms = saturating_add server_time_ms selected_delay_ms;
      created_at_server_time_ms = server_time_ms;
      minimum_start_delay_ms = scheduled_start_minimum_delay_ms;
      clock_uncertainty_budget_ms = uncertainty_ms;
    }

-- `schedule_v5_resume`
unfoldable pub schedule_v5_resume : NetplayRoom → ℕ → ℕ → NetplayRoom × ScheduledSessionStart
schedule_v5_resume r start_frame server_time_ms = (
  record r { scheduled_start = some (v5_resume_start r start_frame server_time_ms) },
  v5_resume_start r start_frame server_time_ms,
)

-- `reset_start_sync_state`
unfoldable pub reset_start_sync_state : NetplayRoom → NetplayRoom
reset_start_sync_state r = record r {
  clock_sync_request = none;
  clock_uncertainty_by_player = [];
  clock_sample_indices_by_player = [];
  deterministic_ready_players = [];
  scheduled_start = none;
}
