-- ===== src/Protocol/InputBatch/RoundTrip.antt =====
-- Encoding, then decoding, the batches of src/protocol/input_batch.rs.
use mathlib.Core.Path.{subst}
use sn_netplay_serv.Base.{
  u16_max, IsU64, length, get_or, take, drop, All, length-append, length-drop, take-append,
  Result-cases, ok, ℕ, ◌+◌, ◌-◌, ◌%◌, ◌≤◌, ◌<◌, ◌≡◌, refl, sym, ap, ◌∙◌, inl, inr, true, List, [],
  ◌∷◌, ◌++◌, arith,
}
use sn_netplay_serv.Base.Bytes.{
  bytes_eq, to_be, length-to_be, drop-advance, drop-to_be, read_be-to_be, get_or-drop,
}
use sn_netplay_serv.Protocol.Ids.{PlayerIndex}
use sn_netplay_serv.Protocol.InputBatch.{
  read_u64, read_u16, malformed, input_batch_magic, input_batch_type, input_batch_header_bytes,
  InputFrameBatch, decode_frame, decode_frames, decode_input_frame_batch, encode_frames,
}
use sn_netplay_serv.Protocol.InputFrame.{InputFrame}
use sn_netplay_serv.Protocol.Limits.{
  mvp_room_capacity, max_input_batch_frames, max_input_batch_bytes,
}

decode_frame-at :
    (p rest : List ℕ) (f : InputFrame) (offset : ℕ)
    → IsU64 f.frame
    → length f.payload ≤ u16_max
    → drop offset p ≡ to_be 8 f.frame ++ (to_be 2 (length f.payload % 65536) ++ (f.payload ++ rest))
    → (decode_frame p f.player_index offset ≡ ok (f, offset + 8 + 2 + length f.payload))
      × (drop (offset + 8 + 2 + length f.payload) p ≡ rest)
      × (offset + 8 + 2 + length f.payload ≤ length p)
unfolding decode_frame
decode_frame-at p rest f offset hf hp at =
    (ground (arith, frame_at, length_at, size, took), behind, omega (arith, size))
  where
    at_8 : drop (offset + 8) p ≡ to_be 2 (length f.payload % 65536) ++ (f.payload ++ rest)
    at_8 = drop-to_be p _ 8 f.frame offset at

    at_10 : drop (offset + 8 + 2) p ≡ f.payload ++ rest
    at_10 = drop-to_be p _ 2 (length f.payload % 65536) (offset + 8) at_8

    behind : drop (offset + 8 + 2 + length f.payload) p ≡ rest
    behind = drop-advance p f.payload rest (offset + 8 + 2) at_10

    frame_at : read_u64 p offset ≡ ok f.frame
    frame_at = unfold read_u64 in read_be-to_be malformed 8 f.frame p _ offset (omega arith) hf at

    length_at : read_u16 p (offset + 8) ≡ ok (length f.payload)
    length_at =
        let e : length f.payload % 65536 ≡ length f.payload = omega arith in
        unfold read_u16 in
        rw e at (
          read_be-to_be malformed 2 (length f.payload % 65536) p _ (offset + 8) (omega arith)
            (omega arith) at_8)

    size : length p - offset ≡ 8 + (2 + (length f.payload + length rest))
    size = omega (
      arith,
      length-drop offset p,
      ap length at,
      length-append (to_be 8 f.frame) (to_be 2 (length f.payload % 65536) ++ (f.payload ++ rest)),
      length-append (to_be 2 (length f.payload % 65536)) (f.payload ++ rest),
      length-append f.payload rest,
      length-to_be 8 f.frame,
      length-to_be 2 (length f.payload % 65536),
    )

    took : take (length f.payload) (drop (offset + 8 + 2) p) ≡ f.payload
    took = rw at_10 (take-append f.payload rest)

decode-encode_frames :
    (i : PlayerIndex) (fs : List InputFrame) (body p : List ℕ) (offset : ℕ)
    → All (λ f. IsU64 f.frame) fs
    → encode_frames i fs ≡ ok body
    → drop offset p ≡ body
    → offset ≤ length p
    → decode_frames (length fs) p i offset ≡ ok (fs, length p)
unfolding encode_frames decode_frames
decode-encode_frames i [] body p offset h e at le =
    let empty_body : [] ≡ body = ground arith in
    let end : offset ≡ length p =
      omega (arith, length-drop offset p, ap length (at ∙ sym empty_body)) in
    rw end refl
decode-encode_frames i (f ∷ fs) body p offset h e at le = elim (Result-cases (encode_frames i fs)) [
  | inl (x, bad) ↦ ground arith
  | inr (rest, good) ↦
      let owner : f.player_index ≡ i = ground arith in
      let shape : body
          ≡ to_be 8 f.frame ++ (to_be 2 (length f.payload % 65536) ++ (f.payload ++ rest)) =
        ground arith in
      let one = decode_frame-at p rest f offset h.0 (ground arith) (at ∙ shape) in
      let d : decode_frame p i offset ≡ ok (f, offset + 8 + 2 + length f.payload) =
        subst (λ j. decode_frame p j offset ≡ ok (f, offset + 8 + 2 + length f.payload)) owner
          one.0 in
      rw
        (
          d,
          decode-encode_frames i fs rest p (offset + 8 + 2 + length f.payload) h.1 good one.1 one.2,
        )
        refl
]

pub record IsInputFrameBatch (b : InputFrameBatch) : Type 0 where
  pub room_fits : IsU64 b.room_epoch
  pub session_fits : IsU64 b.session_epoch
  pub player_fits : b.player_index < mvp_room_capacity
  pub frames_fit : All (λ f. IsU64 f.frame) b.frames

-- The message that a batch with the encoded frames `body` becomes.
module _ (b : InputFrameBatch) (body : List ℕ) (h : IsInputFrameBatch b) where
  pub message : List ℕ
  message =
      input_batch_magic
      ++ input_batch_type
        ∷ (to_be 8 b.room_epoch
            ++ (to_be 8 b.session_epoch ++ b.player_index ∷ length b.frames ∷ body))

  at_5 :
      drop 5 message
      ≡ to_be 8 b.room_epoch ++ (to_be 8 b.session_epoch ++ b.player_index ∷ length b.frames ∷ body)
  unfolding message
  at_5 = refl

  at_13 : drop 13 message ≡ to_be 8 b.session_epoch ++ b.player_index ∷ length b.frames ∷ body
  at_13 = drop-to_be message _ 8 b.room_epoch 5 at_5

  at_21 : drop 21 message ≡ b.player_index ∷ length b.frames ∷ body
  at_21 = drop-to_be message _ 8 b.session_epoch 13 at_13

  size : length message ≡ input_batch_header_bytes + length body
  unfolding message
  size = omega (
    arith,
    length-append (to_be 8 b.room_epoch)
        (to_be 8 b.session_epoch ++ b.player_index ∷ length b.frames ∷ body),
    length-append (to_be 8 b.session_epoch) (b.player_index ∷ length b.frames ∷ body),
    length-to_be 8 b.room_epoch,
    length-to_be 8 b.session_epoch,
  )

  room_at : read_u64 message 5 ≡ ok b.room_epoch
  unfolding read_u64
  room_at = read_be-to_be malformed 8 b.room_epoch message _ 5 (omega arith) h.room_fits at_5

  session_at : read_u64 message 13 ≡ ok b.session_epoch
  unfolding read_u64
  session_at =
      read_be-to_be malformed 8 b.session_epoch message _ 13 (omega arith) h.session_fits at_13

  magic_at : bytes_eq (take 4 message) input_batch_magic ≡ true
  unfolding message
  magic_at = refl

  type_at : get_or message 4 0 ≡ input_batch_type
  unfolding message
  type_at = refl

  pub decode-message :
      encode_frames b.player_index b.frames ≡ ok body
      → 0 < length b.frames
      → length b.frames ≤ max_input_batch_frames
      → length message ≤ max_input_batch_bytes
      → decode_input_frame_batch message ≡ ok b
  unfolding decode_input_frame_batch
  decode-message e pos few fits = ground (
    arith,
    size,
    magic_at,
    type_at,
    room_at,
    session_at,
    get_or-drop message _ b.player_index 21 0 at_21,
    get_or-drop message _ (length b.frames) 22 0
        (drop-advance message (b.player_index ∷ []) _ 21 at_21),
    h.player_fits,
    decode-encode_frames b.player_index b.frames body message 23 h.frames_fit e
        (drop-advance message (b.player_index ∷ length b.frames ∷ []) _ 21 at_21)
        (omega (arith, size)),
  )
