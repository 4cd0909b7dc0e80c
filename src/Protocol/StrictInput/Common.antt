-- ===== src/Protocol/StrictInput/Common.antt =====
-- src/protocol/strict_input/error.rs and codec_common.rs: the errors, the common header and the
-- checked reads. `payload[4]` is read by `get_or` with a default, behind the length test.
use sn_netplay_serv.Base.{
  ltb, ◌==◌, length, get_elem?, get_or, take, Result, ◌>>=◌, ◌>>◌, fail_if, ok_or, ℕ, ◌+◌, not,
  ◌||◌, List, ◌∷◌, ◌++◌,
}
use sn_netplay_serv.Base.Bytes.{bytes_eq, to_be, read_be}
use sn_netplay_serv.Protocol.Ids.{PlayerIndex, new_player_index}
use sn_netplay_serv.Protocol.Limits.{mvp_room_capacity}

pub data StrictInputCodecError : Type 0 where
  malformed unsupported empty too_many_frames : StrictInputCodecError
  invalid_player_index invalid_payload_size : StrictInputCodecError
  invalid_nack_reason invalid_cursors : StrictInputCodecError

abbrev pub common_epoch_header_bytes : ℕ
common_epoch_header_bytes = 4 + 1 + 8 + 8

-- What `write_header` appends to an empty buffer.
unfoldable pub write_header : List ℕ → ℕ → ℕ → ℕ → List ℕ
write_header magic message_type room_epoch session_epoch =
    magic ++ message_type ∷ (to_be 8 room_epoch ++ to_be 8 session_epoch)

unfoldable pub validate_message_header :
    List ℕ → ℕ → List ℕ → ℕ → Result StrictInputCodecError (Unit {0})
validate_message_header payload minimum_bytes magic message_type = do
  fail_if (ltb (length payload) minimum_bytes) malformed
  fail_if (not (bytes_eq (take 4 payload) magic) || not (get_or payload 4 0 == message_type))
      unsupported

unfoldable pub validate_exact_message_header :
    List ℕ → ℕ → List ℕ → ℕ → Result StrictInputCodecError (Unit {0})
validate_exact_message_header payload expected_bytes magic message_type = do
  fail_if (not (length payload == expected_bytes)) malformed
  validate_message_header payload expected_bytes magic message_type

unfoldable pub read_player_index : List ℕ → ℕ → Result StrictInputCodecError PlayerIndex
read_player_index payload offset = do
  byte ← ok_or (get_elem? payload offset) malformed
  ok_or (new_player_index byte mvp_room_capacity) invalid_player_index

unfoldable pub read_u64 : List ℕ → ℕ → Result StrictInputCodecError ℕ
read_u64 payload offset = read_be malformed 8 payload offset

unfoldable pub read_u16 : List ℕ → ℕ → Result StrictInputCodecError ℕ
read_u16 payload offset = read_be malformed 2 payload offset
