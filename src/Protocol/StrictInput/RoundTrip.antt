-- ===== src/Protocol/StrictInput/RoundTrip.antt =====
-- Encoding, then decoding, the fixed-size messages of src/protocol/strict_input.
use sn_netplay_serv.Base.{IsU64, ok, ℕ, ◌<◌, ◌≡◌, refl, List, [], ◌∷◌, arith}
use sn_netplay_serv.Base.Bytes.{to_be, length-to_be, read_be-last}
use sn_netplay_serv.Protocol.Limits.{mvp_room_capacity}
use sn_netplay_serv.Protocol.StrictInput.Common.{read_u64, malformed}
use sn_netplay_serv.Protocol.StrictInput.Cursor.{InputCursorAck, InputCursorNack}
use sn_netplay_serv.Protocol.StrictInput.FrameClock.{
  HostFrameOpen, encode_host_frame_open, decode_host_frame_open,
}
use sn_netplay_serv.Protocol.StrictInput.Laws.{
  Headed, header-room_epoch, header-session_epoch, header-rest, header-length, header-valid_exact,
}

pub record IsAck (a : InputCursorAck) : Type 0 where
  pub room_fits : IsU64 a.room_epoch
  pub session_fits : IsU64 a.session_epoch
  pub player_fits : a.player_index < mvp_room_capacity
  pub next_fits : IsU64 a.next_expected_frame

pub record IsNack (n : InputCursorNack) : Type 0 where
  pub room_fits : IsU64 n.room_epoch
  pub session_fits : IsU64 n.session_epoch
  pub player_fits : n.player_index < mvp_room_capacity
  pub expected_fits : IsU64 n.expected_frame
  pub received_fits : IsU64 n.received_frame

pub record IsOpen (o : HostFrameOpen) : Type 0 where
  pub room_fits : IsU64 o.room_epoch
  pub session_fits : IsU64 o.session_epoch
  pub frame_fits : IsU64 o.frame

-- A frame open whose fields fit their widths decodes from its encoding to itself.
pub decode-encode_host_frame_open :
    (o : HostFrameOpen) → IsOpen o → decode_host_frame_open (encode_host_frame_open o) ≡ ok o
unfolding decode_host_frame_open
decode-encode_host_frame_open o h =
    rw
      (
        header-valid_exact hd 29 (omega (arith, header-length hd, length-to_be 8 o.frame)),
        header-room_epoch hd,
        header-session_epoch hd,
        frame,
      )
      refl
  where
    p : List ℕ
    p = encode_host_frame_open o

    hd : Headed p (b'S' ∷ b'B' ∷ b'O' ∷ b'1' ∷ []) 6 o.room_epoch o.session_epoch (to_be 8 o.frame)
    hd = record {
      shape = unfold encode_host_frame_open in refl;
      four = refl;
      fits_room = h.room_fits;
      fits_session = h.session_fits;
    }

    frame : read_u64 p 21 ≡ ok o.frame
    frame =
        unfold read_u64 in
        read_be-last malformed 8 o.frame p 21 (omega arith) h.frame_fits (header-rest hd)
