-- ===== src/Protocol/FastInput/Laws.antt =====
-- The record loop of src/protocol/fast_input.rs.
use mathlib.Core.List.{append-nil, append_assoc}
use sn_netplay_serv.Base.{
  ltb, Bool-cases, length, take, drop, All, length-append, drop-drop, take-append-drop, drop-past,
  Result, Result-cases, ok, err, ℕ, zero, suc, ◌+◌, ◌-◌, ◌≤◌, ◌<◌, ◌≡◌, refl, sym, ◌∙◌, ◌≢◌, inl,
  inr, true, false, Option, none, some, List, [], ◌∷◌, ◌++◌, arith,
}
use sn_netplay_serv.Protocol.FastInput.{
  FastInputCodecError, FastInputFrame, decode_record, decode_records, decode_fast_input_batch,
}
use sn_netplay_serv.Protocol.Limits.{mvp_room_capacity, max_input_batch_frames}

pub record Decoded (p : List ℕ) (offset count : ℕ) (f : FastInputFrame) (next : ℕ) : Type 0 where
  pub copied : f.encoded ≡ take (next - offset) (drop offset p)
  pub forward : offset < next
  pub inside : next ≤ length p
  pub few : count < max_input_batch_frames
  pub owned : f.player_index < mvp_room_capacity

pub decode_record-Decoded :
    (p : List ℕ) (offset count : ℕ) (f : FastInputFrame) (next : ℕ)
    → decode_record p offset count ≡ ok (f, next)
    → Decoded p offset count f next
unfolding decode_record
decode_record-Decoded p offset count f next h = record {
  copied = ground arith;
  forward = ground arith;
  inside = ground arith;
  few = ground arith;
  owned = ground arith;
}

-- The loop's rounds: at the end, at a bad record, and at a record.
module _ (fuel : ℕ) (p : List ℕ) (offset : ℕ) (frames : List FastInputFrame) where
  pub round_done :
      ltb offset (length p) ≡ false → decode_records (suc fuel) p offset frames ≡ some (ok frames)
  unfolding decode_records
  round_done done = rw (done, decode_records) refl

  pub round_bad :
      (e : FastInputCodecError)
      → ltb offset (length p) ≡ true
      → decode_record p offset (length frames) ≡ err e
      → decode_records (suc fuel) p offset frames ≡ some (err e)
  unfolding decode_records
  round_bad e more h = rw (more, decode_records) (rw (h, decode_records) refl)

  pub round_step :
      (f : FastInputFrame) (next : ℕ)
      → ltb offset (length p) ≡ true
      → decode_record p offset (length frames) ≡ ok (f, next)
      → decode_records (suc fuel) p offset frames ≡ decode_records fuel p next (frames ++ f ∷ [])
  unfolding decode_records
  round_step f next more h = rw (more, decode_records) (rw (h, decode_records) refl)

-- The rounds left and the records read add up to five, so the fuel is enough.
decode_records-ne-none :
    (fuel : ℕ) (p : List ℕ) (offset : ℕ) (frames : List FastInputFrame)
    → fuel + length frames ≡ 5
    → length frames ≤ 4
    → decode_records fuel p offset frames ≢ none
decode_records-ne-none zero p offset frames total few = absurd (omega arith)
decode_records-ne-none (suc fuel) p offset frames total few =
    elim (Bool-cases (ltb offset (length p))) [
      | inr done ↦ rw (round_done fuel p offset frames done) (λ e. cc)
      | inl more ↦ elim (Result-cases (decode_record p offset (length frames))) [
        | inl (e, h) ↦ rw (round_bad fuel p offset frames e more h) (λ q. cc)
        | inr ((f, next), h) ↦
            let d = decode_record-Decoded p offset (length frames) f next h in
            let n = length-append frames (f ∷ []) in
            rw (round_step fuel p offset frames f next more h) (
              decode_records-ne-none fuel p next (frames ++ f ∷ []) (omega (arith, n))
                (omega (arith, n, d.few)))
      ]
    ]

-- The bytes that a list of records carries.
abbrev pub carried : List FastInputFrame → List ℕ
carried [] = []
carried (f ∷ fs) = f.encoded ++ carried fs

carried-append :
    (xs : List FastInputFrame) (f : FastInputFrame)
    → carried (xs ++ f ∷ []) ≡ carried xs ++ f.encoded
carried-append [] f = append-nil f.encoded
carried-append (x ∷ xs) f =
    rw (carried-append xs f, append_assoc x.encoded (carried xs) f.encoded) refl

All-append :
    (xs : List FastInputFrame) (f : FastInputFrame)
    → All (λ g. g.player_index < mvp_room_capacity) xs
    → f.player_index < mvp_room_capacity
    → All (λ g. g.player_index < mvp_room_capacity) (xs ++ f ∷ [])
All-append [] f h hf = (hf, tt)
All-append (x ∷ xs) f h hf = (h.0, All-append xs f h.1 hf)

-- What the loop has read so far, and what is left of the message.
record Progress (p : List ℕ) (offset : ℕ) (frames : List FastInputFrame) : Type 0 where
  whole : carried frames ++ drop offset p ≡ p
  few : length frames ≤ max_input_batch_frames
  owned : All (λ g. g.player_index < mvp_room_capacity) frames

round-Progress :
    (p : List ℕ) (offset : ℕ) (frames : List FastInputFrame) (f : FastInputFrame) (next : ℕ)
    → Progress p offset frames
    → Decoded p offset (length frames) f next
    → Progress p next (frames ++ f ∷ [])
round-Progress p offset frames f next g d = record {
  whole =
      let k : offset + (next - offset) ≡ next = omega (arith, d.forward) in
      let split : f.encoded ++ drop next p ≡ drop offset p =
        rw (d.copied, ← k, ← drop-drop (next - offset) offset p)
          (rw k (take-append-drop (next - offset) (drop offset p))) in
      rw (carried-append frames f, append_assoc (carried frames) f.encoded (drop next p), split)
        g.whole;
  few = omega (arith, length-append frames (f ∷ []), d.few);
  owned = All-append frames f g.owned d.owned;
}

decode_records-Progress :
    (fuel : ℕ) (p : List ℕ) (offset : ℕ) (frames out : List FastInputFrame)
    → Progress p offset frames
    → decode_records fuel p offset frames ≡ some (ok out)
    → Progress p (length p) out
unfolding decode_records
decode_records-Progress zero p offset frames out g h = cc
decode_records-Progress (suc fuel) p offset frames out g h =
    elim (Bool-cases (ltb offset (length p))) [
      | inr done ↦
          let e : frames ≡ out = cc (round_done fuel p offset frames done) in
          let end : drop offset p ≡ drop (length p) p =
            drop-past offset p (ground arith) ∙ sym (drop-past (length p) p (omega arith)) in
          rw (← e) (record { whole = rw (← end) g.whole; few = g.few; owned = g.owned })
      | inl more ↦ elim (Result-cases (decode_record p offset (length frames))) [
        | inl (e, q) ↦ absurd (clash (round_bad fuel p offset frames e more q) h)
        | inr ((f, next), q) ↦
            decode_records-Progress fuel p next (frames ++ f ∷ []) out
              (round-Progress p offset frames f next g
                (decode_record-Decoded p offset (length frames) f next q))
              (sym (round_step fuel p offset frames f next more q) ∙ h)
      ]
    ]
  where
    clash :
        {e : FastInputCodecError} {o : List FastInputFrame}
        {r : Option (Result FastInputCodecError (List FastInputFrame))}
        → r ≡ some (err e)
        → r ≡ some (ok o)
        → ⊥
    clash a b = cc

-- The decoder returns on every message: its fuel never runs out.
pub decode_fast_input_batch-ne-none : (p : List ℕ) → decode_fast_input_batch p ≢ none
unfolding decode_fast_input_batch
decode_fast_input_batch-ne-none p =
    ground (arith, decode_records-ne-none 5 p 0 [] refl (omega arith))

-- A message that decodes has one to four records of players of the room, and is exactly the
-- concatenation of the bytes that the records carry for forwarding.
pub decode_fast_input_batch-carried :
    (p : List ℕ) (fs : List FastInputFrame)
    → decode_fast_input_batch p ≡ some (ok fs)
    → (carried fs ≡ p)
      × (0 < length fs)
      × (length fs ≤ max_input_batch_frames)
      × All (λ f. f.player_index < mvp_room_capacity) fs
unfolding decode_fast_input_batch
decode_fast_input_batch-carried p fs h =
    let r : decode_records 5 p 0 [] ≡ some (ok fs) = ground arith in
    let g =
      decode_records-Progress 5 p 0 [] fs (record { whole = refl; few = omega arith; owned = tt })
        r in
    let w : carried fs ++ [] ≡ p = rw (← drop-past (length p) p (omega arith)) g.whole in
    (sym (append-nil (carried fs)) ∙ w, ground arith, g.few, g.owned)
