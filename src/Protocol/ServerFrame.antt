-- ===== src/Protocol/ServerFrame.antt =====
-- src/protocol/server_frame.rs: the legacy frame release. `payload[4]` is read by `get_or` with a
-- default, behind the length test.
pub mod RoundTrip
use sn_netplay_serv.Base.{
  ltb, ◌==◌, length, get_or, take, Result, ◌>>=◌, ◌>>◌, fail_if, ok, ℕ, ◌+◌, not, ◌||◌, List, [],
  ◌∷◌, ◌++◌,
}
use sn_netplay_serv.Base.Bytes.{bytes_eq, to_be, read_be}
use sn_netplay_serv.Protocol.Limits.{max_input_batch_bytes}

abbrev pub server_frame_magic : List ℕ
server_frame_magic = b'S' ∷ b'B' ∷ b'F' ∷ b'1' ∷ []

abbrev pub server_frame_type : ℕ
server_frame_type = 2

abbrev pub server_frame_bytes : ℕ
server_frame_bytes = 4 + 1 + 8 + 8 + 8 + 8

pub record ServerFrame : Type 0 where
  pub room_epoch : ℕ
  pub session_epoch : ℕ
  pub frame : ℕ
  pub canonical_frame : ℕ

pub data ServerFrameCodecError : Type 0 where
  malformed unsupported : ServerFrameCodecError

unfoldable pub read_u64 : List ℕ → ℕ → Result ServerFrameCodecError ℕ
read_u64 payload offset = read_be malformed 8 payload offset

unfoldable pub decode_server_frame : List ℕ → Result ServerFrameCodecError ServerFrame
decode_server_frame payload = do
  fail_if (not (length payload == server_frame_bytes) || ltb max_input_batch_bytes (length payload))
      malformed
  fail_if
      (not (bytes_eq (take 4 payload) server_frame_magic)
        || not (get_or payload 4 0 == server_frame_type))
      unsupported
  room_epoch ← read_u64 payload 5
  session_epoch ← read_u64 payload 13
  frame ← read_u64 payload 21
  canonical_frame ← read_u64 payload 29
  ok (record {
    room_epoch = room_epoch;
    session_epoch = session_epoch;
    frame = frame;
    canonical_frame = canonical_frame;
  })

unfoldable pub encode_server_frame : ServerFrame → List ℕ
encode_server_frame f =
    server_frame_magic
    ++ server_frame_type
      ∷ (to_be 8 f.room_epoch
          ++ (to_be 8 f.session_epoch ++ (to_be 8 f.frame ++ to_be 8 f.canonical_frame)))
