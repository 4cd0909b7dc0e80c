-- ===== src/Rooms/InputDelay/Laws.antt =====
-- The bounds of a delay decision (src/rooms/adaptive_input_delay_policy.rs).
-- The player's network report is fresh and gives a delay.
use native.Mathlib.Nat.{div-add-mod', mod-lt, mul-le-mul, mul-le-mul_right, le_trans}
use sn_netplay_serv.Base.{
  leb, ◌==◌, if◌then◌else◌, Bool-cases, Option-cases, u64_max, u8_max, saturating_add, IsU64,
  length, filter, All, is_some, ℕ, ◌+◌, ◌-◌, ◌*◌, ◌/◌, ◌≤◌, ◌<◌, min, max, ◌≡◌, ◌≢◌, ◌⊎◌, inl, inr,
  true, false, Option, none, some, List, [], ◌∷◌, arith,
}
use sn_netplay_serv.Rooms.InputDelay.{
  min_automatic_input_delay_frames, u128_max, clamp_delay, AdaptiveInputDelayDecision,
  AdaptiveInputDelayTarget, div_ceil, frames_for_ms_at_rate, fresh_report_delay, DelaySamples,
  sample_player, sample_players, target_delay, initial_decision, complete_report, complete_reports,
  path_budget_ms, frame_rate, initial_v5_decision,
}
use sn_netplay_serv.Rooms.Slot.{PlayerSlot, is_connected}

abbrev pub IsSampled : ℕ → PlayerSlot → Type 0
IsSampled now player = is_some (fresh_report_delay now player) ≡ true

fresh_count : ℕ → List PlayerSlot → ℕ
fresh_count now [] = 0
fresh_count now (s ∷ more) =
    (if is_some (fresh_report_delay now s) then 1 else 0) + fresh_count now more

fresh_count-length : (now : ℕ) (xs : List PlayerSlot) → fresh_count now xs ≤ length xs
unfolding fresh_count
fresh_count-length now [] = omega arith
fresh_count-length now (s ∷ xs) = ground (arith, fresh_count-length now xs)

fresh_count-All :
    (now : ℕ) (xs : List PlayerSlot)
    → fresh_count now xs ≡ length xs
    → All (λ s. IsSampled now s) xs
unfolding fresh_count
fresh_count-All now [] h = tt
fresh_count-All now (s ∷ xs) h =
    let bound = fresh_count-length now xs in
    let first : is_some (fresh_report_delay now s) ≡ true = ground (arith, bound) in
    (first, fresh_count-All now xs (ground (arith, first)))

sample-count :
    (baseline now : ℕ) (samples : DelaySamples) (s : PlayerSlot)
    → (sample_player baseline now samples s).fresh_network_sample_count
      ≡ samples.fresh_network_sample_count + (if is_some (fresh_report_delay now s) then 1 else 0)
unfolding sample_player
sample-count baseline now samples s = ground arith

samples-count :
    (baseline now : ℕ) (samples : DelaySamples) (xs : List PlayerSlot)
    → (sample_players baseline now samples xs).fresh_network_sample_count
      ≡ samples.fresh_network_sample_count + fresh_count now xs
unfolding sample_players fresh_count
samples-count baseline now samples [] = omega arith
samples-count baseline now samples (s ∷ xs) = omega (
  arith,
  samples-count baseline now (sample_player baseline now samples s) xs,
  sample-count baseline now samples s,
)

target-range :
    (players : List PlayerSlot) (room_frame : ℕ) (last_released : Option ℕ) (now : ℕ)
    (t : AdaptiveInputDelayTarget)
    → target_delay players room_frame last_released now ≡ some t
    → (2 ≤ t.input_delay_frames) × (t.input_delay_frames ≤ 8)
unfolding target_delay
target-range players room_frame last_released now t e = (ground arith, ground arith)

target-IsSampled :
    (players : List PlayerSlot) (room_frame : ℕ) (last_released : Option ℕ) (now : ℕ)
    (t : AdaptiveInputDelayTarget)
    → target_delay players room_frame last_released now ≡ some t
    → t.all_connected_players_have_fresh_network_samples ≡ true
    → All (λ s. IsSampled now s) (filter is_connected players)
unfolding target_delay
target-IsSampled players room_frame last_released now t e all_fresh =
    let baseline : ℕ = elim last_released [ none ↦ room_frame | some f ↦ f ] in
    let start : DelaySamples = record {
      saw_sample = false;
      fresh_network_sample_count = 0;
      target = min_automatic_input_delay_frames;
    } in
    let count = samples-count baseline now start (filter is_connected players) in
    let equal : ((sample_players baseline now start
            (filter is_connected players)).fresh_network_sample_count
          == length (filter is_connected players))
        ≡ true =
      ground arith in
    fresh_count-All now (filter is_connected players) (ground (arith, count, equal))

-- A delay that is chosen at the start lies between 2 and 8 frames and is a new one; it is shorter than
-- the current delay only if every connected player has a fresh report that gives a delay.
pub initial_decision-bounds :
    (current : ℕ) (players : List PlayerSlot) (room_frame : ℕ) (last_released : Option ℕ) (now : ℕ)
    (d : AdaptiveInputDelayDecision)
    → initial_decision current players room_frame last_released now ≡ some d
    → (2 ≤ d.input_delay_frames)
      × (d.input_delay_frames ≤ 8)
      × (d.input_delay_frames ≢ current)
      × ((current ≤ d.input_delay_frames)
          ⊎ All (λ s. IsSampled now s) (filter is_connected players))
unfolding initial_decision
initial_decision-bounds current players room_frame last_released now d e =
    elim (Option-cases (target_delay players room_frame last_released now)) [
      | inl nothing ↦ absurd (ground arith)
      | inr (t, chosen) ↦
          let range = target-range players room_frame last_released now t chosen in
          let same : d.input_delay_frames ≡ t.input_delay_frames = ground arith in
          let change : (d.input_delay_frames == current) ≡ false = ground arith in
          let sampled : (current ≤ d.input_delay_frames)
              ⊎ (t.all_connected_players_have_fresh_network_samples ≡ true) =
            ground arith in
          (
            omega (arith, same, range.0),
            omega (arith, same, range.1),
            λ h. ground arith,
            (elim sampled [
              | inl longer ↦ inl longer
              | inr all_fresh ↦
                  inr (target-IsSampled players room_frame last_released now t chosen all_fresh)
            ]),
          )
    ]

-- Dividing up and multiplying back covers the dividend.
div_ceil-covers : (a v : ℕ) → 0 < v → a ≤ div_ceil a v * v
div_ceil-covers a v pos = omega (arith, div-add-mod' (a + (v - 1)) v, mod-lt (a + (v - 1)) pos)

budget-u64 :
    (budget : ℕ) (reports : List (ℕ × ℕ))
    → budget ≤ u64_max
    → path_budget_ms budget reports ≤ u64_max
unfolding path_budget_ms
budget-u64 budget [] h = h
budget-u64 budget ((round_trip, jitter) ∷ more) h =
    budget-u64 (saturating_add (saturating_add budget (saturating_add round_trip 1 / 2)) jitter)
      more (omega arith)

-- The frames at a rate cover the time, unless there are as many as allowed.
frames-cover :
    (ms n d : ℕ)
    → 0 < d
    → ms * n ≤ u128_max
    → 1000 * d ≤ u128_max
    → (frames_for_ms_at_rate ms n d ≡ 8) ⊎ (ms * n ≤ frames_for_ms_at_rate ms n d * (1000 * d))
unfolding frames_for_ms_at_rate
frames-cover ms n d pos small small' =
    let a : min (ms * n) u128_max ≡ ms * n = omega arith in
    let b : max (min (1000 * d) u128_max) 1 ≡ 1000 * d = omega arith in
    let covered = div_ceil-covers (ms * n) (1000 * d) (omega arith) in
    rw (a, b)
      (elim (Bool-cases (leb 8 (div_ceil (ms * n) (1000 * d)))) [
        | inl many ↦ inl (ground arith)
        | inr few ↦
            let q : min (div_ceil (ms * n) (1000 * d)) 8 ≡ div_ceil (ms * n) (1000 * d) =
              ground arith in
            inr (rw q covered)
      ])

frame_rate-pos : (o : Option (ℕ × ℕ)) → 0 < (frame_rate o).1
unfolding frame_rate
frame_rate-pos none = omega arith
frame_rate-pos (some (n, d)) = ground arith

-- The player's network report is fresh and has a round trip and a jitter.
abbrev pub IsComplete : ℕ → PlayerSlot → Type 0
IsComplete now player = is_some (complete_report now player) ≡ true

IsComplete-All :
    (now : ℕ) (xs : List PlayerSlot) (reports : List (ℕ × ℕ))
    → complete_reports now xs ≡ some reports
    → All (λ s. IsComplete now s) xs
unfolding complete_reports
IsComplete-All now [] reports h = tt
IsComplete-All now (s ∷ xs) reports h = elim (Option-cases (complete_reports now xs)) [
  | inl nothing ↦ absurd (ground arith)
  | inr (rest, known) ↦ (ground arith, IsComplete-All now xs rest known)
]

-- A delay that is chosen at the start in protocol 5 is a new one between 2 and 8 frames; every
-- connected player has a fresh and complete report; and unless the delay is the longest, one frame
-- less than it still covers the path of the reports (half of each round trip, and the jitter) at the
-- room's frame rate. The two numbers of the frame rate fit 64 bits.
pub initial_v5_decision-covers :
    (current : ℕ) (players : List PlayerSlot) (rate : Option (ℕ × ℕ)) (now : ℕ)
    (d : AdaptiveInputDelayDecision)
    → IsU64 (frame_rate rate).0
    → IsU64 (frame_rate rate).1
    → initial_v5_decision current players rate now ≡ some d
    → (2 ≤ d.input_delay_frames)
      × (d.input_delay_frames ≤ 8)
      × (d.input_delay_frames ≢ current)
      × All (λ s. IsComplete now s) (filter is_connected players)
      × ((reports : List (ℕ × ℕ)) × (complete_reports now (filter is_connected players)
            ≡ some reports)
          × ((d.input_delay_frames ≡ 8)
              ⊎ (path_budget_ms 0 reports * (frame_rate rate).0
                  ≤ (d.input_delay_frames - 1) * (1000 * (frame_rate rate).1))))
unfolding initial_v5_decision
initial_v5_decision-covers current players rate now d wide wide' e =
    elim (Option-cases (complete_reports now (filter is_connected players))) [
      | inl nothing ↦ absurd (ground arith)
      | inr (reports, known) ↦
          let n = (frame_rate rate).0 in
          let m = (frame_rate rate).1 in
          let budget = path_budget_ms 0 reports in
          let frames = frames_for_ms_at_rate budget n m in
          let same : d.input_delay_frames ≡ clamp_delay (min (frames + 1) u8_max) = ground arith in
          let change : (d.input_delay_frames == current) ≡ false = ground arith in
          let wide_n : n ≤ u64_max = omega (arith, wide) in
          let small : budget * n ≤ u64_max * u64_max =
            mul-le-mul (budget-u64 0 reports (omega arith)) wide_n in
          let covered =
            frames-cover budget n m (frame_rate-pos rate) (omega (arith, small))
              (omega (arith, wide')) in
          (
            omega (arith, same),
            omega (arith, same),
            (λ h. ground arith),
            IsComplete-All now (filter is_connected players) reports known,
            (
              reports,
              known,
              (elim covered [
                | inl longest ↦ inl (omega (arith, same, longest))
                | inr enough ↦ elim (Bool-cases (leb 7 frames)) [
                  | inl long ↦
                      let seven : 7 ≤ frames = ground arith in inl (omega (arith, same, seven))
                  | inr short ↦
                      let six : frames ≤ 6 = ground arith in
                      let less : frames ≤ d.input_delay_frames - 1 = omega (arith, same, six) in
                      inr (le_trans enough (mul-le-mul_right (1000 * m) less))
                ]
              ]),
            ),
          )
    ]
