-- ===== src/Protocol/InputBatch.antt =====
-- src/protocol/input_batch.rs: `SBI1` batches. Bytes behind the length tests are read by `get_or`
-- with a default.
pub mod RoundTrip
use sn_netplay_serv.Base.{
  ltb, leb, ◌==◌, if◌then◌else◌, u16_max, u8_max, length, get_or, take, drop, is_empty, Result,
  ◌>>=◌, ◌>>◌, fail_if, ok_or, ok, err, ℕ, zero, suc, ◌+◌, ◌-◌, ◌%◌, not, ◌||◌, List, [], ◌∷◌, ◌++◌,
}
use sn_netplay_serv.Base.Bytes.{bytes_eq, to_be, read_be}
use sn_netplay_serv.Protocol.Ids.{PlayerIndex, new_player_index}
use sn_netplay_serv.Protocol.InputFrame.{InputFrame}
use sn_netplay_serv.Protocol.Limits.{
  mvp_room_capacity, max_input_batch_frames, max_input_batch_bytes,
}

abbrev pub input_batch_magic : List ℕ
input_batch_magic = b'S' ∷ b'B' ∷ b'I' ∷ b'1' ∷ []

abbrev pub input_batch_type : ℕ
input_batch_type = 1

abbrev pub input_batch_header_bytes : ℕ
input_batch_header_bytes = 4 + 1 + 8 + 8 + 1 + 1

abbrev pub input_frame_header_bytes : ℕ
input_frame_header_bytes = 8 + 2

pub record InputFrameBatch : Type 0 where
  pub room_epoch : ℕ
  pub session_epoch : ℕ
  pub player_index : PlayerIndex
  pub frames : List InputFrame

pub data InputFrameBatchCodecError : Type 0 where
  malformed unsupported too_many_frames invalid_player_index empty : InputFrameBatchCodecError

unfoldable pub read_u64 : List ℕ → ℕ → Result InputFrameBatchCodecError ℕ
read_u64 payload offset = read_be malformed 8 payload offset

unfoldable pub read_u16 : List ℕ → ℕ → Result InputFrameBatchCodecError ℕ
read_u16 payload offset = read_be malformed 2 payload offset

-- One round of the loop: the frame and the offset behind it.
unfoldable pub decode_frame :
    List ℕ → PlayerIndex → ℕ → Result InputFrameBatchCodecError (InputFrame × ℕ)
decode_frame payload player_index offset = do
  fail_if (ltb (length payload - offset) input_frame_header_bytes) malformed
  frame ← read_u64 payload offset
  payload_len ← read_u16 payload (offset + 8)
  let start = offset + 8 + 2
  fail_if (ltb (length payload - start) payload_len) malformed
  ok (
    record {
      player_index = player_index;
      frame = frame;
      payload = take payload_len (drop start payload);
    },
    start + payload_len,
  )

-- `for _ in 0..frame_count`, from `offset` on.
unfoldable pub decode_frames :
    ℕ → List ℕ → PlayerIndex → ℕ → Result InputFrameBatchCodecError (List InputFrame × ℕ)
decode_frames zero payload player_index offset = ok ([], offset)
decode_frames (suc n) payload player_index offset = do
  (frame, next) ← decode_frame payload player_index offset
  (rest, end) ← decode_frames n payload player_index next
  ok (frame ∷ rest, end)

unfoldable pub decode_input_frame_batch : List ℕ → Result InputFrameBatchCodecError InputFrameBatch
decode_input_frame_batch payload = do
  fail_if
      (ltb max_input_batch_bytes (length payload) || ltb (length payload) input_batch_header_bytes)
      malformed
  fail_if
      (not (bytes_eq (take 4 payload) input_batch_magic)
        || not (get_or payload 4 0 == input_batch_type))
      unsupported
  room_epoch ← read_u64 payload 5
  session_epoch ← read_u64 payload 13
  player_index ←
      ok_or (new_player_index (get_or payload 21 0) mvp_room_capacity) invalid_player_index
  let frame_count = get_or payload 22 0
  fail_if (frame_count == 0) empty
  fail_if (ltb max_input_batch_frames frame_count) too_many_frames
  (frames, end) ← decode_frames frame_count payload player_index input_batch_header_bytes
  fail_if (not (end == length payload)) malformed
  ok (record {
    room_epoch = room_epoch;
    session_epoch = session_epoch;
    player_index = player_index;
    frames = frames;
  })

-- `for frame in &batch.frames`: the bytes that the loop appends.
unfoldable pub encode_frames :
    PlayerIndex → List InputFrame → Result InputFrameBatchCodecError (List ℕ)
encode_frames player_index [] = ok []
encode_frames player_index (f ∷ fs) = do
  fail_if (not (f.player_index == player_index) || ltb u16_max (length f.payload)) malformed
  rest ← encode_frames player_index fs
  ok (to_be 8 f.frame ++ (to_be 2 (length f.payload % 65536) ++ (f.payload ++ rest)))

unfoldable pub encode_input_frame_batch :
    InputFrameBatch → Result InputFrameBatchCodecError (List ℕ)
encode_input_frame_batch b = do
  fail_if (is_empty b.frames) empty
  fail_if (ltb max_input_batch_frames (length b.frames)) too_many_frames
  frame_count ← if leb (length b.frames) u8_max then ok (length b.frames) else err too_many_frames
  body ← encode_frames b.player_index b.frames
  let payload =
      input_batch_magic
      ++ input_batch_type
        ∷ (to_be 8 b.room_epoch ++ (to_be 8 b.session_epoch ++ b.player_index ∷ frame_count ∷ body))
  fail_if (ltb max_input_batch_bytes (length payload)) malformed
  ok payload
