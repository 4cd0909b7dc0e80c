-- ===== src/Protocol/StrictInput/FrameClock.antt =====
-- src/protocol/strict_input/frame_clock.rs: the host's frame opens and the server's releases. The
-- byte counts are at most 38 + 9 * 255, so the source's checked products and sums never fail.
use sn_netplay_serv.Base.{
  ltb, leb, ◌==◌, if◌then◌else◌, u8_max, length, get_or, Result, ◌>>=◌, ◌>>◌, fail_if, ok, err, ℕ,
  zero, suc, ◌+◌, ◌*◌, ◌%◌, Bool, false, not, ◌||◌, List, [], ◌∷◌, ◌++◌,
}
use sn_netplay_serv.Base.Bytes.{to_be}
use sn_netplay_serv.Protocol.Ids.{PlayerIndex}
use sn_netplay_serv.Protocol.Limits.{max_input_batch_bytes}
use sn_netplay_serv.Protocol.StrictInput.Common.{
  StrictInputCodecError, common_epoch_header_bytes, write_header, validate_message_header,
  validate_exact_message_header, read_player_index, read_u64, malformed, invalid_cursors,
}

abbrev pub host_open_magic : List ℕ
host_open_magic = b'S' ∷ b'B' ∷ b'O' ∷ b'1' ∷ []

abbrev pub host_open_type : ℕ
host_open_type = 6

abbrev pub release_magic : List ℕ
release_magic = b'S' ∷ b'B' ∷ b'F' ∷ b'2' ∷ []

abbrev pub release_type : ℕ
release_type = 7

abbrev pub host_open_bytes : ℕ
host_open_bytes = common_epoch_header_bytes + 8

abbrev pub release_header_bytes : ℕ
release_header_bytes = common_epoch_header_bytes + 8 + 8 + 1

abbrev pub release_cursor_bytes : ℕ
release_cursor_bytes = 1 + 8

pub record HostFrameOpen : Type 0 where
  pub room_epoch : ℕ
  pub session_epoch : ℕ
  pub frame : ℕ

pub record AcceptedInputCursor : Type 0 where
  pub player_index : PlayerIndex
  pub next_expected_frame : ℕ

pub record ServerFrameReleaseV5 : Type 0 where
  pub room_epoch : ℕ
  pub session_epoch : ℕ
  pub released_frame : ℕ
  pub next_host_frame : ℕ
  pub accepted_inputs : List AcceptedInputCursor

unfoldable pub encode_host_frame_open : HostFrameOpen → List ℕ
encode_host_frame_open o =
    write_header host_open_magic host_open_type o.room_epoch o.session_epoch ++ to_be 8 o.frame

unfoldable pub decode_host_frame_open : List ℕ → Result StrictInputCodecError HostFrameOpen
decode_host_frame_open payload = do
  validate_exact_message_header payload host_open_bytes host_open_magic host_open_type
  room_epoch ← read_u64 payload 5
  session_epoch ← read_u64 payload 13
  frame ← read_u64 payload 21
  ok (record { room_epoch = room_epoch; session_epoch = session_epoch; frame = frame })

unfoldable pub release_message_bytes : ℕ → Result StrictInputCodecError ℕ
release_message_bytes cursor_count =
    let total = release_header_bytes + cursor_count * release_cursor_bytes in
    if ltb u8_max cursor_count
    then err malformed
    else if leb total max_input_batch_bytes
    then ok total
    else err malformed

-- `windows(2).any(|pair| pair[0].player_index >= pair[1].player_index)`
unfoldable pub has_unsorted_pair : List AcceptedInputCursor → Bool
has_unsorted_pair [] = false
has_unsorted_pair (a ∷ []) = false
has_unsorted_pair (a ∷ b ∷ rest) = leb b.player_index a.player_index || has_unsorted_pair (b ∷ rest)

unfoldable pub validate_release_cursors :
    List AcceptedInputCursor → Result StrictInputCodecError (Unit {0})
validate_release_cursors cursors = fail_if (has_unsorted_pair cursors) invalid_cursors

unfoldable pub encode_cursors : List AcceptedInputCursor → List ℕ
encode_cursors [] = []
encode_cursors (c ∷ cs) = c.player_index ∷ (to_be 8 c.next_expected_frame ++ encode_cursors cs)

unfoldable pub encode_server_frame_release_v5 :
    ServerFrameReleaseV5 → Result StrictInputCodecError (List ℕ)
encode_server_frame_release_v5 r = do
  validate_release_cursors r.accepted_inputs
  total_bytes ← release_message_bytes (length r.accepted_inputs)
  ok (
      write_header release_magic release_type r.room_epoch r.session_epoch
      ++ (to_be 8 r.released_frame
          ++ (to_be 8 r.next_host_frame
              ++ (length r.accepted_inputs % 256) ∷ encode_cursors r.accepted_inputs)))

-- The loop over `0..cursor_count` from `offset` on.
unfoldable pub decode_cursors :
    ℕ → List ℕ → ℕ → Result StrictInputCodecError (List AcceptedInputCursor)
decode_cursors zero payload offset = ok []
decode_cursors (suc n) payload offset = do
  player_index ← read_player_index payload offset
  next_expected_frame ← read_u64 payload (offset + 1)
  rest ← decode_cursors n payload (offset + release_cursor_bytes)
  ok (record { player_index = player_index; next_expected_frame = next_expected_frame } ∷ rest)

unfoldable pub decode_server_frame_release_v5 :
    List ℕ → Result StrictInputCodecError ServerFrameReleaseV5
decode_server_frame_release_v5 payload = do
  validate_message_header payload release_header_bytes release_magic release_type
  let cursor_count = get_or payload 37 0
  expected_bytes ← release_message_bytes cursor_count
  fail_if (not (length payload == expected_bytes)) malformed
  accepted_inputs ← decode_cursors cursor_count payload release_header_bytes
  validate_release_cursors accepted_inputs
  room_epoch ← read_u64 payload 5
  session_epoch ← read_u64 payload 13
  released_frame ← read_u64 payload 21
  next_host_frame ← read_u64 payload 29
  ok (record {
    room_epoch = room_epoch;
    session_epoch = session_epoch;
    released_frame = released_frame;
    next_host_frame = next_host_frame;
    accepted_inputs = accepted_inputs;
  })
