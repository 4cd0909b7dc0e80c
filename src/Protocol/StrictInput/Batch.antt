-- ===== src/Protocol/StrictInput/Batch.antt =====
-- src/protocol/strict_input/input_batch.rs: contiguous batches of fixed-width controller input. A
-- payload `[u8; 10]` is a list; its width is a hypothesis of the theorems.
use sn_netplay_serv.Base.{
  ltb, ◌==◌, if◌then◌else◌, saturating_add, length, get_or, take, drop, Result, ◌>>=◌, ◌>>◌,
  fail_if, ok, err, ℕ, zero, suc, ◌+◌, ◌-◌, ◌*◌, ◌%◌, not, List, [], ◌∷◌, ◌++◌,
}
use sn_netplay_serv.Base.Bytes.{to_be}
use sn_netplay_serv.Protocol.Ids.{PlayerIndex}
use sn_netplay_serv.Protocol.Limits.{
  max_input_batch_frames, max_input_batch_bytes, v5_retropad_input_bytes,
}
use sn_netplay_serv.Protocol.StrictInput.Common.{
  StrictInputCodecError, common_epoch_header_bytes, write_header, validate_message_header,
  read_player_index, read_u64, read_u16, malformed, empty, too_many_frames, invalid_payload_size,
}

abbrev pub magic : List ℕ
magic = b'S' ∷ b'B' ∷ b'I' ∷ b'3' ∷ []

abbrev pub message_type : ℕ
message_type = 3

abbrev pub header_bytes : ℕ
header_bytes = common_epoch_header_bytes + 1 + 1 + 2 + 8

pub record StrictInputBatch : Type 0 where
  pub room_epoch : ℕ
  pub session_epoch : ℕ
  pub player_index : PlayerIndex
  pub start_frame : ℕ
  pub payloads : List (List ℕ)

-- `StrictInputBatch::end_frame`
unfoldable pub end_frame : StrictInputBatch → ℕ
end_frame b = saturating_add b.start_frame (length b.payloads - 1)

unfoldable pub validate_payload_count : ℕ → Result StrictInputCodecError (Unit {0})
validate_payload_count frame_count =
    if frame_count == 0
    then err empty
    else if ltb max_input_batch_frames frame_count
    then err too_many_frames
    else ok tt

unfoldable pub concat : List (List ℕ) → List ℕ
concat [] = []
concat (p ∷ ps) = p ++ concat ps

unfoldable pub encode_strict_input_batch : StrictInputBatch → Result StrictInputCodecError (List ℕ)
encode_strict_input_batch b = do
  validate_payload_count (length b.payloads)
  let total_bytes = header_bytes + length b.payloads * v5_retropad_input_bytes
  fail_if (ltb max_input_batch_bytes total_bytes) malformed
  ok (
      write_header magic message_type b.room_epoch b.session_epoch
      ++ b.player_index
        ∷ (length b.payloads % 256)
        ∷ (to_be 2 v5_retropad_input_bytes ++ (to_be 8 b.start_frame ++ concat b.payloads)))

-- `chunks_exact(V5_RETROPAD_INPUT_BYTES)`, for as many chunks as the length test has left.
unfoldable pub chunks_exact : ℕ → List ℕ → List (List ℕ)
chunks_exact zero bytes = []
chunks_exact (suc n) bytes =
    take v5_retropad_input_bytes bytes ∷ chunks_exact n (drop v5_retropad_input_bytes bytes)

unfoldable pub decode_strict_input_batch : List ℕ → Result StrictInputCodecError StrictInputBatch
decode_strict_input_batch payload = do
  validate_message_header payload header_bytes magic message_type
  fail_if (ltb max_input_batch_bytes (length payload)) malformed
  let frame_count = get_or payload 22 0
  validate_payload_count frame_count
  payload_width ← read_u16 payload 23
  fail_if (not (payload_width == v5_retropad_input_bytes)) invalid_payload_size
  let expected_bytes = header_bytes + frame_count * v5_retropad_input_bytes
  fail_if (not (length payload == expected_bytes)) malformed
  let payloads = chunks_exact frame_count (drop header_bytes payload)
  room_epoch ← read_u64 payload 5
  session_epoch ← read_u64 payload 13
  player_index ← read_player_index payload 21
  start_frame ← read_u64 payload 25
  ok (record {
    room_epoch = room_epoch;
    session_epoch = session_epoch;
    player_index = player_index;
    start_frame = start_frame;
    payloads = payloads;
  })
