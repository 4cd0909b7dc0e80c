-- ===== src/Protocol/FastInput.antt =====
-- src/protocol/fast_input.rs: self-contained `SBI2` records. `payload[offset + 4]` and
-- `payload[offset + 21]` are read by `get_or` with a default, behind the length test. The loop takes
-- fuel of five rounds: the fifth record is refused.
pub mod Laws
pub mod RoundTrip
use mathlib.Core.Option
use sn_netplay_serv.Base.{
  ltb, leb, ◌==◌, if◌then◌else◌, u16_max, length, get_or, take, drop, is_empty, Result, ◌>>=◌, ◌>>◌,
  fail_if, ok_or, ok, err, ℕ, zero, suc, ◌+◌, ◌-◌, ◌%◌, Bool, true, false, not, ◌||◌, Option, none,
  some, List, [], ◌∷◌, ◌++◌, map,
}
use sn_netplay_serv.Base.Bytes.{bytes_eq, slice?, to_be, read_be}
use sn_netplay_serv.Protocol.Ids.{PlayerIndex, new_player_index}
use sn_netplay_serv.Protocol.Limits.{
  mvp_room_capacity, max_input_batch_frames, max_input_batch_bytes,
}

abbrev pub fast_input_magic : List ℕ
fast_input_magic = b'S' ∷ b'B' ∷ b'I' ∷ b'2' ∷ []

abbrev pub fast_input_type : ℕ
fast_input_type = 2

abbrev pub fast_input_record_header_bytes : ℕ
fast_input_record_header_bytes = 4 + 1 + 8 + 8 + 1 + 8 + 2

pub data FastInputCodecError : Type 0 where
  malformed unsupported too_many_frames invalid_player_index empty : FastInputCodecError

pub record FastInputFrame : Type 0 where
  pub room_epoch : ℕ
  pub session_epoch : ℕ
  pub player_index : PlayerIndex
  pub frame : ℕ
  pub payload : List ℕ
  pub encoded : List ℕ

unfoldable pub read_u64 : List ℕ → ℕ → Result FastInputCodecError ℕ
read_u64 payload offset = read_be malformed 8 payload offset

unfoldable pub read_u16 : List ℕ → ℕ → Result FastInputCodecError ℕ
read_u16 payload offset = read_be malformed 2 payload offset

-- `payload.get(offset..offset + 4) == Some(FAST_INPUT_MAGIC)`
unfoldable pub has_magic : List ℕ → ℕ → Bool
has_magic payload offset = elim (slice? payload offset 4) [
  | none ↦ false
  | some bytes ↦ bytes_eq bytes fast_input_magic
]

-- `payload.slice(from..to)`
abbrev pub slice : List ℕ → ℕ → ℕ → List ℕ
slice payload from to = take (to - from) (drop from payload)

-- One round of the loop, with `count` records read so far: the record and the offset behind it.
unfoldable pub decode_record : List ℕ → ℕ → ℕ → Result FastInputCodecError (FastInputFrame × ℕ)
decode_record payload offset count = do
  fail_if (ltb (length payload - offset) fast_input_record_header_bytes) malformed
  fail_if (not (has_magic payload offset) || not (get_or payload (offset + 4) 0 == fast_input_type))
      unsupported
  fail_if (leb max_input_batch_frames count) too_many_frames
  room_epoch ← read_u64 payload (offset + 5)
  session_epoch ← read_u64 payload (offset + 13)
  player_index ←
      ok_or (new_player_index (get_or payload (offset + 21) 0) mvp_room_capacity)
        invalid_player_index
  frame ← read_u64 payload (offset + 22)
  payload_len ← read_u16 payload (offset + 30)
  let start = offset + fast_input_record_header_bytes
  fail_if (ltb (length payload - start) payload_len) malformed
  let payload_end = start + payload_len
  ok (
    record {
      room_epoch = room_epoch;
      session_epoch = session_epoch;
      player_index = player_index;
      frame = frame;
      payload = slice payload start payload_end;
      encoded = slice payload offset payload_end;
    },
    payload_end,
  )

-- `while offset < payload.len()`; `none` means that the fuel ran out.
unfoldable pub decode_records :
    ℕ → List ℕ → ℕ → List FastInputFrame → Option (Result FastInputCodecError (List FastInputFrame))
decode_records zero payload offset frames = none
decode_records (suc fuel) payload offset frames = elim (ltb offset (length payload)) [
  | false ↦ some (ok frames)
  | true ↦ elim (decode_record payload offset (length frames)) [
    | err e ↦ some (err e)
    | ok (frame, next) ↦ decode_records fuel payload next (frames ++ frame ∷ [])
  ]
]

-- The batch of the source has the frames as its one field.
unfoldable pub decode_fast_input_batch :
    List ℕ → Option (Result FastInputCodecError (List FastInputFrame))
decode_fast_input_batch payload =
    if ltb max_input_batch_bytes (length payload)
    then some (err malformed)
    else Option.map (λ r. do frames ← r; fail_if (is_empty frames) empty; ok frames)
        (decode_records (max_input_batch_frames + 1) payload 0 [])

-- The bytes that `encode_fast_input_frame` builds.
unfoldable pub record_bytes : ℕ → ℕ → PlayerIndex → ℕ → List ℕ → List ℕ
record_bytes room_epoch session_epoch player_index frame input_payload =
    fast_input_magic
    ++ fast_input_type
      ∷ (to_be 8 room_epoch
          ++ (to_be 8 session_epoch
              ++ player_index
                ∷ (to_be 8 frame ++ (to_be 2 (length input_payload % 65536) ++ input_payload))))

unfoldable pub encode_fast_input_frame :
    ℕ → ℕ → PlayerIndex → ℕ → List ℕ → Result FastInputCodecError (List ℕ)
encode_fast_input_frame room_epoch session_epoch player_index frame input_payload = do
  fail_if (ltb u16_max (length input_payload)) malformed
  let payload = record_bytes room_epoch session_epoch player_index frame input_payload
  fail_if (ltb max_input_batch_bytes (length payload)) malformed
  ok payload
