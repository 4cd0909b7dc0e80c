-- ===== src/Rooms/InputDelay.antt =====
-- src/rooms/adaptive_input_delay_policy.rs: the delay that a room starts with. Times are nanoseconds
-- of the process clock.
pub mod Laws
use mathlib.Core.Option
use sn_netplay_serv.Base.{
  ltb, leb, ◌==◌, if◌then◌else◌, u32_max, u8_max, saturating_add, length, filter, is_empty, ℕ, ◌+◌,
  ◌-◌, ◌*◌, ◌/◌, min, max, Bool, true, false, not, ◌&&◌, ◌||◌, Option, none, some, List, [], ◌∷◌,
  map,
}
use sn_netplay_serv.Rooms.Room.{InputDelayChangeReason, initial_latency}
use sn_netplay_serv.Rooms.Slot.{ClientNetworkQualityReport, PlayerSlot, is_connected}
use sn_netplay_serv.Rooms.Types.{connected}

abbrev pub min_automatic_input_delay_frames : ℕ
min_automatic_input_delay_frames = 2

-- `MAX_CONTROLLER_INPUT_DELAY_FRAMES` and `DEFAULT_CONTROLLER_INPUT_DELAY_FRAMES`
abbrev pub max_controller_input_delay_frames : ℕ
max_controller_input_delay_frames = 8

abbrev pub default_controller_input_delay_frames : ℕ
default_controller_input_delay_frames = 3

abbrev pub latency_safety_frames : ℕ
latency_safety_frames = 1

abbrev pub high_prediction_pressure_frames : ℕ
high_prediction_pressure_frames = 45

-- `HEALTH_SAMPLE_FRESHNESS`, ten seconds
abbrev pub health_sample_freshness : ℕ
health_sample_freshness = 10_000_000_000

abbrev pub u128_max : ℕ
u128_max = 340282366920938463463374607431768211455

-- `saturating_add` on `u8` and on `u32`
abbrev add_u8 : ℕ → ℕ → ℕ
add_u8 a b = min (a + b) u8_max

abbrev add_u32 : ℕ → ℕ → ℕ
add_u32 a b = min (a + b) u32_max

-- `clamp` to the automatic delays
abbrev pub clamp_delay : ℕ → ℕ
clamp_delay delay =
    max min_automatic_input_delay_frames (min delay max_controller_input_delay_frames)

pub record AdaptiveInputDelayDecision : Type 0 where
  pub input_delay_frames : ℕ
  pub reason : InputDelayChangeReason

pub record AdaptiveInputDelayTarget : Type 0 where
  pub all_connected_players_have_fresh_network_samples : Bool
  pub input_delay_frames : ℕ

-- `is_fresh`
unfoldable pub is_fresh : Option ℕ → ℕ → Bool
is_fresh none now = false
is_fresh (some reported_at) now = leb (now - reported_at) health_sample_freshness

-- `dividend.div_ceil(divisor)` for a divisor above 0
abbrev pub div_ceil : ℕ → ℕ → ℕ
div_ceil dividend divisor = (dividend + (divisor - 1)) / divisor

-- `frames_for_ms_at_rate`
unfoldable pub frames_for_ms_at_rate : ℕ → ℕ → ℕ → ℕ
frames_for_ms_at_rate milliseconds numerator denominator =
    let dividend = min (milliseconds * numerator) u128_max in
    let divisor = max (min (1000 * denominator) u128_max) 1 in
    min (div_ceil dividend divisor) max_controller_input_delay_frames

-- `frames_for_ms`
unfoldable pub frames_for_ms : ℕ → ℕ
unfolding frames_for_ms_at_rate
frames_for_ms milliseconds = frames_for_ms_at_rate milliseconds 60 1

-- `option.unwrap_or(0)`
abbrev or_zero : Option ℕ → ℕ
or_zero none = 0
or_zero (some n) = n

-- `delay_for_report`
unfoldable pub delay_for_report : ClientNetworkQualityReport → Option ℕ
unfolding frames_for_ms
delay_for_report report = elim report.round_trip_ms [
  | none ↦ none
  | some round_trip_ms ↦
      let one_way_ms = add_u32 round_trip_ms 1 / 2 in
      let pressure =
        if ltb 0 (or_zero report.late_input_frames) || leb 30 (or_zero report.prediction_frames)
        then 1
        else 0 in
      let latency_frames = frames_for_ms (add_u32 one_way_ms (or_zero report.jitter_ms)) in
      some (clamp_delay (add_u8 (add_u8 latency_frames latency_safety_frames) pressure))
]

-- The delay of a player's fresh report.
unfoldable pub fresh_report_delay : ℕ → PlayerSlot → Option ℕ
unfolding is_fresh delay_for_report
fresh_report_delay now player = elim player.latest_network_report [
  | none ↦ none
  | some report ↦
      if is_fresh player.latest_network_reported_at now then delay_for_report report else none
]

-- A fresh local frame far before the released one.
unfoldable pub predicts_far : ℕ → ℕ → PlayerSlot → Bool
unfolding is_fresh
predicts_far baseline_frame now player = elim player.latest_local_frame [
  | none ↦ false
  | some local_frame ↦
      is_fresh player.latest_local_frame_reported_at now
      && leb high_prediction_pressure_frames (local_frame - baseline_frame)
]

-- The loop of `target_delay`: whether a sample was seen, how many were fresh, and the delay.
pub record DelaySamples : Type 0 where
  pub saw_sample : Bool
  pub fresh_network_sample_count : ℕ
  pub target : ℕ

unfoldable pub sample_player : ℕ → ℕ → DelaySamples → PlayerSlot → DelaySamples
unfolding fresh_report_delay predicts_far
sample_player baseline_frame now samples player =
    let reported : DelaySamples = elim (fresh_report_delay now player) [
      | none ↦ samples
      | some report_delay ↦ record {
        saw_sample = true;
        fresh_network_sample_count = samples.fresh_network_sample_count + 1;
        target = max samples.target report_delay;
      }
    ] in
    if predicts_far baseline_frame now player
    then record reported {
      saw_sample = true;
      target = max reported.target (add_u8 default_controller_input_delay_frames 1);
    }
    else reported

unfoldable pub sample_players : ℕ → ℕ → DelaySamples → List PlayerSlot → DelaySamples
unfolding sample_player
sample_players baseline_frame now samples [] = samples
sample_players baseline_frame now samples (player ∷ more) =
    sample_players baseline_frame now (sample_player baseline_frame now samples player) more

-- `target_delay`
unfoldable pub target_delay : List PlayerSlot → ℕ → Option ℕ → ℕ → Option AdaptiveInputDelayTarget
unfolding sample_players
target_delay players room_frame released_frame now =
    let connected = filter is_connected players in
    let baseline_frame : ℕ = elim released_frame [ none ↦ room_frame | some f ↦ f ] in
    let samples =
      sample_players baseline_frame now
        record {
          saw_sample = false;
          fresh_network_sample_count = 0;
          target = min_automatic_input_delay_frames;
        }
        connected in
    if is_empty connected || not samples.saw_sample
    then none
    else some record {
      all_connected_players_have_fresh_network_samples =
          samples.fresh_network_sample_count == length connected;
      input_delay_frames = clamp_delay samples.target;
    }

-- `initial_decision`
unfoldable pub initial_decision :
    ℕ → List PlayerSlot → ℕ → Option ℕ → ℕ → Option AdaptiveInputDelayDecision
unfolding target_delay
initial_decision current_delay players room_frame released_frame now =
    elim (target_delay players room_frame released_frame now) [
      | none ↦ none
      | some target ↦
          if target.input_delay_frames == current_delay
          then none
          else if ltb target.input_delay_frames current_delay
              && not target.all_connected_players_have_fresh_network_samples
          then none
          else some
              record { input_delay_frames = target.input_delay_frames; reason = initial_latency }
    ]

-- A fresh report with a round trip and a jitter, as that pair.
unfoldable pub complete_report : ℕ → PlayerSlot → Option (ℕ × ℕ)
unfolding is_fresh
complete_report now player = elim player.latest_network_report [
  | none ↦ none
  | some report ↦
      if is_fresh player.latest_network_reported_at now
      then elim report.round_trip_ms [
        | none ↦ none
        | some round_trip_ms ↦ elim report.jitter_ms [
          | none ↦ none
          | some jitter_ms ↦ some (round_trip_ms, jitter_ms)
        ]
      ]
      else none
]

-- `collect::<Option<Vec<_>>>()` of the reports
unfoldable pub complete_reports : ℕ → List PlayerSlot → Option (List (ℕ × ℕ))
unfolding complete_report
complete_reports now [] = some []
complete_reports now (player ∷ more) =
    let rest = complete_reports now more in
    elim (complete_report now player) [
      | none ↦ none
      | some report ↦ Option.map (λ reports. report ∷ reports) rest
    ]

-- The fold of `path_budget_ms`.
unfoldable pub path_budget_ms : ℕ → List (ℕ × ℕ) → ℕ
path_budget_ms budget [] = budget
path_budget_ms budget ((round_trip_ms, jitter_ms) ∷ more) =
    path_budget_ms
      (saturating_add (saturating_add budget (saturating_add round_trip_ms 1 / 2)) jitter_ms) more

-- The frame rate, sixty per second where none is known.
unfoldable pub frame_rate : Option (ℕ × ℕ) → ℕ × ℕ
frame_rate none = (60, 1)
frame_rate (some (numerator, denominator)) =
    if ltb 0 numerator && ltb 0 denominator then (numerator, denominator) else (60, 1)

-- `initial_v5_decision`
unfoldable pub initial_v5_decision :
    ℕ → List PlayerSlot → Option (ℕ × ℕ) → ℕ → Option AdaptiveInputDelayDecision
unfolding complete_reports path_budget_ms frame_rate frames_for_ms_at_rate
initial_v5_decision current_delay players nominal_frame_rate now =
    let connected = filter is_connected players in
    let rate = frame_rate nominal_frame_rate in
    elim (complete_reports now connected) [
      | none ↦ none
      | some reports ↦
          let target = clamp_delay (
            add_u8 (frames_for_ms_at_rate (path_budget_ms 0 reports) rate.0 rate.1)
              latency_safety_frames) in
          if is_empty connected || (target == current_delay)
          then none
          else some record { input_delay_frames = target; reason = initial_latency }
    ]
