-- ===== src/Protocol/FastInput/RoundTrip.antt =====
-- Encoding, then decoding, the records of src/protocol/fast_input.rs.
-- A record of player 0 or 1 whose fields fit their widths, and that carries its own encoding.
use mathlib.Core.List.{append-nil, append_assoc}
use sn_netplay_serv.Base.{
  lt→ltb, ltb-false, u16_max, IsU64, length, drop, All, length-append, length-drop, take-append, ok,
  ℕ, zero, suc, ◌+◌, ◌-◌, ◌%◌, ◌≤◌, ◌<◌, ◌≡◌, refl, ap, ◌∙◌, true, some, List, [], ◌∷◌, ◌++◌, arith,
}
use sn_netplay_serv.Base.Bytes.{
  to_be, length-to_be, drop-advance, drop-length, slice-at, read_be-to_be, get_or-drop, drop-to,
  drop-to_field,
}
use sn_netplay_serv.Protocol.FastInput.{
  fast_input_magic, fast_input_type, FastInputFrame, read_u64, read_u16, has_magic, slice,
  decode_record, decode_records, decode_fast_input_batch, record_bytes, encode_fast_input_frame,
  malformed,
}
use sn_netplay_serv.Protocol.FastInput.Laws.{decode_record-Decoded, round_done, round_step, carried}
use sn_netplay_serv.Protocol.Limits.{
  mvp_room_capacity, max_input_batch_frames, max_input_batch_bytes,
}

pub record IsRecord (f : FastInputFrame) : Type 0 where
  pub room_fits : IsU64 f.room_epoch
  pub session_fits : IsU64 f.session_epoch
  pub player_fits : f.player_index < mvp_room_capacity
  pub frame_fits : IsU64 f.frame
  pub payload_fits : length f.payload ≤ u16_max
  pub carries :
      f.encoded ≡ record_bytes f.room_epoch f.session_epoch f.player_index f.frame f.payload

module _ (p : List ℕ) (offset count : ℕ) (f : FastInputFrame) (rest : List ℕ) (h : IsRecord f)
    (few : count < max_input_batch_frames) (at : drop offset p ≡ f.encoded ++ rest) where
  tail : List ℕ
  tail = to_be 8 f.frame ++ (to_be 2 (length f.payload % 65536) ++ (f.payload ++ rest))

  at_0 :
      drop offset p
      ≡ fast_input_magic
        ++ fast_input_type
          ∷ (to_be 8 f.room_epoch ++ (to_be 8 f.session_epoch ++ f.player_index ∷ tail))
  unfolding record_bytes tail
  at_0 = at ∙ rw h.carries (simp append_assoc)

  at_4 :
      drop (offset + 4) p
      ≡ fast_input_type
        ∷ (to_be 8 f.room_epoch ++ (to_be 8 f.session_epoch ++ f.player_index ∷ tail))
  at_4 = drop-advance p fast_input_magic _ offset at_0

  at_5 :
      drop (offset + 5) p
      ≡ to_be 8 f.room_epoch ++ (to_be 8 f.session_epoch ++ f.player_index ∷ tail)
  at_5 = drop-to p (fast_input_type ∷ []) _ (offset + 4) (offset + 5) at_4 (omega arith)

  at_13 : drop (offset + 13) p ≡ to_be 8 f.session_epoch ++ f.player_index ∷ tail
  at_13 = drop-to_field p _ 8 f.room_epoch (offset + 5) (offset + 13) at_5 (omega arith)

  at_21 : drop (offset + 21) p ≡ f.player_index ∷ tail
  at_21 = drop-to_field p _ 8 f.session_epoch (offset + 13) (offset + 21) at_13 (omega arith)

  at_22 : drop (offset + 22) p ≡ tail
  at_22 = drop-to p (f.player_index ∷ []) _ (offset + 21) (offset + 22) at_21 (omega arith)

  at_30 : drop (offset + 30) p ≡ to_be 2 (length f.payload % 65536) ++ (f.payload ++ rest)
  unfolding tail
  at_30 = drop-to_field p _ 8 f.frame (offset + 22) (offset + 30) at_22 (omega arith)

  at_32 : drop (offset + 32) p ≡ f.payload ++ rest
  at_32 =
      drop-to_field p _ 2 (length f.payload % 65536) (offset + 30) (offset + 32) at_30 (omega arith)

  size : length f.encoded ≡ 32 + length f.payload
  unfolding record_bytes
  size = rw h.carries (
      omega (
        arith,
        length-append (to_be 8 f.room_epoch) (
            to_be 8 f.session_epoch
            ++ f.player_index
              ∷ (to_be 8 f.frame ++ (to_be 2 (length f.payload % 65536) ++ f.payload))),
        length-append (to_be 8 f.session_epoch) (
            f.player_index
            ∷ (to_be 8 f.frame ++ (to_be 2 (length f.payload % 65536) ++ f.payload))),
        length-append (to_be 8 f.frame) (to_be 2 (length f.payload % 65536) ++ f.payload),
        length-append (to_be 2 (length f.payload % 65536)) f.payload,
        length-to_be 8 f.room_epoch,
        length-to_be 8 f.session_epoch,
        length-to_be 8 f.frame,
        length-to_be 2 (length f.payload % 65536),
      ))

  inside : offset + length f.encoded + length rest ≡ length p
  inside = drop-length p f.encoded rest offset at (omega (arith, size))

  magic_at : has_magic p offset ≡ true
  unfolding has_magic
  magic_at = rw (slice-at p fast_input_magic _ offset at_0 (omega arith), has_magic) refl

  room_at : read_u64 p (offset + 5) ≡ ok f.room_epoch
  unfolding read_u64
  room_at = read_be-to_be malformed 8 f.room_epoch p _ (offset + 5) (omega arith) h.room_fits at_5

  session_at : read_u64 p (offset + 13) ≡ ok f.session_epoch
  unfolding read_u64
  session_at =
      read_be-to_be malformed 8 f.session_epoch p _ (offset + 13) (omega arith) h.session_fits at_13

  frame_at : read_u64 p (offset + 22) ≡ ok f.frame
  unfolding read_u64 tail
  frame_at = read_be-to_be malformed 8 f.frame p _ (offset + 22) (omega arith) h.frame_fits at_22

  length_at : read_u16 p (offset + 30) ≡ ok (length f.payload)
  unfolding read_u16
  length_at =
      let e : length f.payload % 65536 ≡ length f.payload = omega (arith, h.payload_fits) in
      rw e at (
        read_be-to_be malformed 2 (length f.payload % 65536) p _ (offset + 30) (omega arith)
          (omega arith) at_30)

  payload_at : slice p (offset + 32) (offset + 32 + length f.payload) ≡ f.payload
  payload_at =
      let e : offset + 32 + length f.payload - (offset + 32) ≡ length f.payload = omega arith in
      rw (e, at_32) (take-append f.payload rest)

  encoded_at : slice p offset (offset + 32 + length f.payload) ≡ f.encoded
  encoded_at =
      let e : offset + 32 + length f.payload - offset ≡ length f.encoded = omega (arith, size) in
      rw (e, at) (take-append f.encoded rest)

  -- One round reads the record that stands at its offset.
  pub decode_record-at : decode_record p offset count ≡ ok (f, offset + 32 + length f.payload)
  unfolding decode_record
  decode_record-at = ground (
    arith,
    size,
    inside,
    magic_at,
    get_or-drop p _ fast_input_type (offset + 4) 0 at_4,
    room_at,
    session_at,
    get_or-drop p _ f.player_index (offset + 21) 0 at_21,
    h.player_fits,
    frame_at,
    length_at,
    payload_at,
    encoded_at,
  )

  pub behind : drop (offset + 32 + length f.payload) p ≡ rest
  behind = drop-to p f.encoded _ offset (offset + 32 + length f.payload) at (omega (arith, size))

encoded-pos : (f : FastInputFrame) → IsRecord f → 0 < length f.encoded
unfolding record_bytes
encoded-pos f h = rw h.carries (omega arith)

decode_records-carried :
    (fuel : ℕ) (p : List ℕ) (offset : ℕ) (frames fs : List FastInputFrame)
    → All IsRecord fs
    → length fs < fuel
    → length frames + length fs ≤ max_input_batch_frames
    → offset ≤ length p
    → drop offset p ≡ carried fs
    → decode_records fuel p offset frames ≡ some (ok (frames ++ fs))
decode_records-carried zero p offset frames fs h enough few le at = absurd (omega arith)
decode_records-carried (suc fuel) p offset frames [] h enough few le at =
    let over : length p ≤ offset = omega (arith, length-drop offset p, ap length at) in
    rw (append-nil frames) (round_done fuel p offset frames (ltb-false offset (length p) over))
decode_records-carried (suc fuel) p offset frames (f ∷ fs) h enough few le at =
    let pos = encoded-pos f h.0 in
    let size = drop-length p f.encoded (carried fs) offset at pos in
    let one = decode_record-at p offset (length frames) f (carried fs) h.0 (omega arith) at in
    let d = decode_record-Decoded p offset (length frames) f (offset + 32 + length f.payload) one in
    let next : drop (offset + 32 + length f.payload) p ≡ carried fs =
      behind p offset (length frames) f (carried fs) h.0 (omega arith) at in
    rw (round_step fuel p offset frames f _ (lt→ltb offset (length p) (omega arith)) one) (
      decode_records-carried fuel p (offset + 32 + length f.payload) (frames ++ f ∷ []) fs h.1
        (omega arith) (omega (arith, length-append frames (f ∷ []))) d.inside next
      ∙ ap some (ap ok (append_assoc frames (f ∷ []) fs)))

-- One to four records of players 0 and 1 whose fields fit their widths, each carrying its own
-- encoding, together at most 8192 bytes, decode from their concatenation to themselves.
pub decode-carried :
    (fs : List FastInputFrame)
    → All IsRecord fs
    → 0 < length fs
    → length fs ≤ max_input_batch_frames
    → length (carried fs) ≤ max_input_batch_bytes
    → decode_fast_input_batch (carried fs) ≡ some (ok fs)
unfolding decode_fast_input_batch
decode-carried [] h pos few size = absurd (omega arith)
decode-carried (f ∷ fs) h pos few size = ground (
  arith,
  decode_records-carried 5 (carried (f ∷ fs)) 0 [] (f ∷ fs) h (omega arith) (omega arith)
      (omega arith) refl,
)

-- An input of player 0 or 1, with 64-bit epochs and frame, that `encode_fast_input_frame` accepts
-- decodes to the one record that carries it. The encoder itself does not look at the player.
pub decode-encode_fast_input_frame :
    (room_epoch session_epoch player_index frame : ℕ) (input encoded : List ℕ)
    → IsU64 room_epoch
    → IsU64 session_epoch
    → player_index < mvp_room_capacity
    → IsU64 frame
    → encode_fast_input_frame room_epoch session_epoch player_index frame input ≡ ok encoded
    → decode_fast_input_batch encoded
      ≡ some (
          ok (
            record {
              room_epoch = room_epoch;
              session_epoch = session_epoch;
              player_index = player_index;
              frame = frame;
              payload = input;
              encoded = encoded;
            }
            ∷ []))
unfolding encode_fast_input_frame
decode-encode_fast_input_frame re se i n input encoded hr hs hi hn e = rw (append-nil encoded) at (
    decode-carried (r ∷ []) (is_record, tt) (omega arith) (omega arith)
      (omega (arith, ap length (append-nil encoded), fits)))
  where
    r : FastInputFrame
    r = record {
      room_epoch = re;
      session_epoch = se;
      player_index = i;
      frame = n;
      payload = input;
      encoded = encoded;
    }

    fits : length encoded ≤ max_input_batch_bytes
    fits = ground arith

    is_record : IsRecord r
    is_record = record {
      room_fits = hr;
      session_fits = hs;
      player_fits = hi;
      frame_fits = hn;
      payload_fits = ground arith;
      carries = ground arith;
    }
