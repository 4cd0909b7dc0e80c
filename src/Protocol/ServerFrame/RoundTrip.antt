-- ===== src/Protocol/ServerFrame/RoundTrip.antt =====
-- The release of src/protocol/server_frame.rs by encoder and decoder.
use sn_netplay_serv.Base.{
  IsU64, length, get_or, take, drop, length-append, ok, ℕ, ◌≡◌, refl, true, List, ◌++◌, arith,
}
use sn_netplay_serv.Base.Bytes.{
  bytes_eq, to_be, length-to_be, drop-to_be, read_be-to_be, read_be-last,
}
use sn_netplay_serv.Protocol.ServerFrame.{
  read_u64, malformed, server_frame_magic, server_frame_type, server_frame_bytes, ServerFrame,
  decode_server_frame, encode_server_frame,
}

pub record IsServerFrame (f : ServerFrame) : Type 0 where
  pub room_fits : IsU64 f.room_epoch
  pub session_fits : IsU64 f.session_epoch
  pub frame_fits : IsU64 f.frame
  pub canonical_fits : IsU64 f.canonical_frame

-- A release whose fields fit their widths decodes from its encoding to itself.
pub decode-encode_server_frame :
    (f : ServerFrame) → IsServerFrame f → decode_server_frame (encode_server_frame f) ≡ ok f
unfolding decode_server_frame
decode-encode_server_frame f h =
    ground (arith, size, magic_at, type_at, room_at, session_at, frame_at, canonical_at)
  where
    p : List ℕ
    p = encode_server_frame f

    at_5 :
        drop 5 p
        ≡ to_be 8 f.room_epoch
          ++ (to_be 8 f.session_epoch ++ (to_be 8 f.frame ++ to_be 8 f.canonical_frame))
    at_5 = unfold encode_server_frame in refl

    at_13 : drop 13 p ≡ to_be 8 f.session_epoch ++ (to_be 8 f.frame ++ to_be 8 f.canonical_frame)
    at_13 = drop-to_be p _ 8 f.room_epoch 5 at_5

    at_21 : drop 21 p ≡ to_be 8 f.frame ++ to_be 8 f.canonical_frame
    at_21 = drop-to_be p _ 8 f.session_epoch 13 at_13

    at_29 : drop 29 p ≡ to_be 8 f.canonical_frame
    at_29 = drop-to_be p _ 8 f.frame 21 at_21

    size : length p ≡ server_frame_bytes
    size =
        unfold encode_server_frame in
        omega (
          arith,
          length-append (to_be 8 f.room_epoch)
              (to_be 8 f.session_epoch ++ (to_be 8 f.frame ++ to_be 8 f.canonical_frame)),
          length-append (to_be 8 f.session_epoch) (to_be 8 f.frame ++ to_be 8 f.canonical_frame),
          length-append (to_be 8 f.frame) (to_be 8 f.canonical_frame),
          length-to_be 8 f.room_epoch,
          length-to_be 8 f.session_epoch,
          length-to_be 8 f.frame,
          length-to_be 8 f.canonical_frame,
        )

    magic_at : bytes_eq (take 4 p) server_frame_magic ≡ true
    magic_at = unfold encode_server_frame in refl

    type_at : get_or p 4 0 ≡ server_frame_type
    type_at = unfold encode_server_frame in refl

    room_at : read_u64 p 5 ≡ ok f.room_epoch
    room_at =
        unfold read_u64 in
        read_be-to_be malformed 8 f.room_epoch p _ 5 (omega arith) h.room_fits at_5

    session_at : read_u64 p 13 ≡ ok f.session_epoch
    session_at =
        unfold read_u64 in
        read_be-to_be malformed 8 f.session_epoch p _ 13 (omega arith) h.session_fits at_13

    frame_at : read_u64 p 21 ≡ ok f.frame
    frame_at =
        unfold read_u64 in read_be-to_be malformed 8 f.frame p _ 21 (omega arith) h.frame_fits at_21

    canonical_at : read_u64 p 29 ≡ ok f.canonical_frame
    canonical_at =
        unfold read_u64 in
        read_be-last malformed 8 f.canonical_frame p 29 (omega arith) h.canonical_fits at_29
