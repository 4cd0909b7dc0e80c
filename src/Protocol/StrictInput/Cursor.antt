-- ===== src/Protocol/StrictInput/Cursor.antt =====
-- src/protocol/strict_input/input_cursor.rs: cumulative acknowledgements and rejections.
use sn_netplay_serv.Base.{
  ◌==◌, if◌then◌else◌, get_or, Result, ◌>>=◌, ◌>>◌, ok, err, ℕ, ◌+◌, List, [], ◌∷◌, ◌++◌,
}
use sn_netplay_serv.Base.Bytes.{to_be}
use sn_netplay_serv.Protocol.Ids.{PlayerIndex}
use sn_netplay_serv.Protocol.StrictInput.Common.{
  StrictInputCodecError, common_epoch_header_bytes, write_header, validate_exact_message_header,
  read_player_index, read_u64, invalid_nack_reason,
}

abbrev pub ack_magic : List ℕ
ack_magic = b'S' ∷ b'B' ∷ b'A' ∷ b'1' ∷ []

abbrev pub ack_type : ℕ
ack_type = 4

abbrev pub nack_magic : List ℕ
nack_magic = b'S' ∷ b'B' ∷ b'N' ∷ b'1' ∷ []

abbrev pub nack_type : ℕ
nack_type = 5

abbrev pub ack_bytes : ℕ
ack_bytes = common_epoch_header_bytes + 1 + 8

abbrev pub nack_bytes : ℕ
nack_bytes = common_epoch_header_bytes + 1 + 8 + 8 + 1

pub record InputCursorAck : Type 0 where
  pub room_epoch : ℕ
  pub session_epoch : ℕ
  pub player_index : PlayerIndex
  pub next_expected_frame : ℕ

pub data InputCursorNackReason : Type 0 where
  input_gap future_frame_too_large session_state : InputCursorNackReason

-- `reason as u8`
unfoldable pub reason_code : InputCursorNackReason → ℕ
reason_code input_gap = 1
reason_code future_frame_too_large = 2
reason_code session_state = 3

-- `InputCursorNackReason::try_from`
unfoldable pub reason_of_code : ℕ → Result StrictInputCodecError InputCursorNackReason
reason_of_code value =
    if value == 1
    then ok input_gap
    else if value == 2
    then ok future_frame_too_large
    else if value == 3
    then ok session_state
    else err invalid_nack_reason

pub record InputCursorNack : Type 0 where
  pub room_epoch : ℕ
  pub session_epoch : ℕ
  pub player_index : PlayerIndex
  pub expected_frame : ℕ
  pub received_frame : ℕ
  pub reason : InputCursorNackReason

pub data InputCursorResponse : Type 0 where
  ack : InputCursorAck → InputCursorResponse
  nack : InputCursorNack → InputCursorResponse

unfoldable pub encode_input_cursor_ack : InputCursorAck → List ℕ
encode_input_cursor_ack a =
    write_header ack_magic ack_type a.room_epoch a.session_epoch
    ++ a.player_index ∷ to_be 8 a.next_expected_frame

unfoldable pub decode_input_cursor_ack : List ℕ → Result StrictInputCodecError InputCursorAck
decode_input_cursor_ack payload = do
  validate_exact_message_header payload ack_bytes ack_magic ack_type
  room_epoch ← read_u64 payload 5
  session_epoch ← read_u64 payload 13
  player_index ← read_player_index payload 21
  next_expected_frame ← read_u64 payload 22
  ok (record {
    room_epoch = room_epoch;
    session_epoch = session_epoch;
    player_index = player_index;
    next_expected_frame = next_expected_frame;
  })

unfoldable pub encode_input_cursor_nack : InputCursorNack → List ℕ
encode_input_cursor_nack n =
    write_header nack_magic nack_type n.room_epoch n.session_epoch
    ++ n.player_index
      ∷ (to_be 8 n.expected_frame ++ (to_be 8 n.received_frame ++ reason_code n.reason ∷ []))

unfoldable pub decode_input_cursor_nack : List ℕ → Result StrictInputCodecError InputCursorNack
decode_input_cursor_nack payload = do
  validate_exact_message_header payload nack_bytes nack_magic nack_type
  room_epoch ← read_u64 payload 5
  session_epoch ← read_u64 payload 13
  player_index ← read_player_index payload 21
  expected_frame ← read_u64 payload 22
  received_frame ← read_u64 payload 30
  reason ← reason_of_code (get_or payload 38 0)
  ok (record {
    room_epoch = room_epoch;
    session_epoch = session_epoch;
    player_index = player_index;
    expected_frame = expected_frame;
    received_frame = received_frame;
    reason = reason;
  })
