-- ===== src/Protocol/StrictInput/ReleaseRoundTrip.antt =====
-- Releases of src/protocol/strict_input/frame_clock.rs by encoder and decoder.
use sn_netplay_serv.Base.{
  ==_iff, IsU64, length, get_or, drop, All, length-append, ◌>>=◌, ok, ℕ, ◌+◌, ◌*◌, ◌%◌, ◌≤◌, ◌<◌,
  ◌≡◌, refl, ◌∙◌, false, List, [], ◌∷◌, ◌++◌, arith,
}
use sn_netplay_serv.Base.Bytes.{
  to_be, length-to_be, drop-advance, drop-to_be, read_be-to_be, get_or-drop,
}
use sn_netplay_serv.Protocol.Limits.{mvp_room_capacity}
use sn_netplay_serv.Protocol.StrictInput.Common.{read_u64, malformed, write_header}
use sn_netplay_serv.Protocol.StrictInput.FrameClock.{
  release_magic, release_type, release_header_bytes, release_cursor_bytes, AcceptedInputCursor,
  ServerFrameReleaseV5, release_message_bytes, has_unsorted_pair, validate_release_cursors,
  encode_cursors, encode_server_frame_release_v5, decode_cursors, decode_server_frame_release_v5,
}
use sn_netplay_serv.Protocol.StrictInput.Laws.{
  Headed, header-room_epoch, header-session_epoch, header-rest, header-length, header-valid,
  read_player_index-at,
}

abbrev pub IsCursor : AcceptedInputCursor → Type 0
IsCursor c = (c.player_index < mvp_room_capacity) × IsU64 c.next_expected_frame

pub record IsRelease (r : ServerFrameReleaseV5) : Type 0 where
  pub room_fits : IsU64 r.room_epoch
  pub session_fits : IsU64 r.session_epoch
  pub released_fits : IsU64 r.released_frame
  pub next_fits : IsU64 r.next_host_frame
  pub cursors_fit : All IsCursor r.accepted_inputs
  pub sorted : has_unsorted_pair r.accepted_inputs ≡ false

-- Only two players have cursors, and no player has two of them.
sorted-length :
    (cs : List AcceptedInputCursor) → All IsCursor cs → has_unsorted_pair cs ≡ false → length cs ≤ 2
unfolding has_unsorted_pair
sorted-length [] h s = omega arith
sorted-length (a ∷ []) h s = omega arith
sorted-length (a ∷ b ∷ []) h s = omega arith
sorted-length (a ∷ b ∷ c ∷ more) h s = absurd (ground (arith, h.0.0, h.1.0.0, h.1.1.0.0))

length-encode_cursors :
    (cs : List AcceptedInputCursor) → length (encode_cursors cs) ≡ length cs * release_cursor_bytes
unfolding encode_cursors
length-encode_cursors [] = refl
length-encode_cursors (c ∷ cs) = omega (
  arith,
  length-append (to_be 8 c.next_expected_frame) (encode_cursors cs),
  length-to_be 8 c.next_expected_frame,
  length-encode_cursors cs,
)

decode-encode_cursors :
    (cs : List AcceptedInputCursor) (p : List ℕ) (offset : ℕ)
    → All IsCursor cs
    → drop offset p ≡ encode_cursors cs
    → decode_cursors (length cs) p offset ≡ ok cs
unfolding encode_cursors decode_cursors
decode-encode_cursors [] p offset h at = refl
decode-encode_cursors (c ∷ cs) p offset h at =
    let after : drop (offset + 1) p ≡ to_be 8 c.next_expected_frame ++ encode_cursors cs =
      drop-advance p (c.player_index ∷ []) _ offset at in
    let frame : read_u64 p (offset + 1) ≡ ok c.next_expected_frame =
      unfold read_u64 in
      read_be-to_be malformed 8 c.next_expected_frame p _ (offset + 1) (omega arith) h.0.1 after in
    let behind : drop (offset + 1 + 8) p ≡ encode_cursors cs =
      drop-to_be p _ 8 c.next_expected_frame (offset + 1) after in
    let e : offset + 1 + 8 ≡ offset + release_cursor_bytes = omega arith in
    rw
      (
        read_player_index-at p _ c.player_index offset at h.0.0,
        frame,
        decode-encode_cursors cs p (offset + release_cursor_bytes) h.1 (rw e at behind),
      )
      refl

module _ (r : ServerFrameReleaseV5) (h : IsRelease r) where
  counted : length r.accepted_inputs ≤ 2
  counted = sorted-length r.accepted_inputs h.cursors_fit h.sorted

  body : List ℕ
  body =
      to_be 8 r.released_frame
      ++ (to_be 8 r.next_host_frame
          ++ (length r.accepted_inputs % 256) ∷ encode_cursors r.accepted_inputs)

  message : List ℕ
  message = write_header release_magic release_type r.room_epoch r.session_epoch ++ body

  bytes :
      release_message_bytes (length r.accepted_inputs)
      ≡ ok (release_header_bytes + length r.accepted_inputs * release_cursor_bytes)
  unfolding release_message_bytes
  bytes = ground (arith, counted)

  encode-message : encode_server_frame_release_v5 r ≡ ok message
  unfolding encode_server_frame_release_v5 message body validate_release_cursors
  encode-message = rw (h.sorted, bytes) refl

  headed : Headed message release_magic release_type r.room_epoch r.session_epoch body
  unfolding message
  headed = record {
    shape = refl;
    four = refl;
    fits_room = h.room_fits;
    fits_session = h.session_fits;
  }

  at_21 : drop 21 message ≡ body
  at_21 = header-rest headed

  at_29 :
      drop 29 message
      ≡ to_be 8 r.next_host_frame
        ++ (length r.accepted_inputs % 256) ∷ encode_cursors r.accepted_inputs
  unfolding body
  at_29 = drop-to_be message _ 8 r.released_frame 21 at_21

  at_37 : drop 37 message ≡ (length r.accepted_inputs % 256) ∷ encode_cursors r.accepted_inputs
  at_37 = drop-to_be message _ 8 r.next_host_frame 29 at_29

  count_at : get_or message 37 0 ≡ length r.accepted_inputs
  count_at = get_or-drop message _ _ 37 0 at_37 ∙ omega (arith, counted)

  size : length message ≡ release_header_bytes + length r.accepted_inputs * release_cursor_bytes
  unfolding body
  size = omega (
    arith,
    header-length headed,
    length-append (to_be 8 r.released_frame) (
        to_be 8 r.next_host_frame
        ++ (length r.accepted_inputs % 256) ∷ encode_cursors r.accepted_inputs),
    length-append (to_be 8 r.next_host_frame)
        ((length r.accepted_inputs % 256) ∷ encode_cursors r.accepted_inputs),
    length-to_be 8 r.released_frame,
    length-to_be 8 r.next_host_frame,
    length-encode_cursors r.accepted_inputs,
  )

  released_at : read_u64 message 21 ≡ ok r.released_frame
  unfolding read_u64 body
  released_at =
      read_be-to_be malformed 8 r.released_frame message _ 21 (omega arith) h.released_fits at_21

  next_at : read_u64 message 29 ≡ ok r.next_host_frame
  unfolding read_u64
  next_at = read_be-to_be malformed 8 r.next_host_frame message _ 29 (omega arith) h.next_fits at_29

  cursors_at :
      decode_cursors (length r.accepted_inputs) message release_header_bytes ≡ ok r.accepted_inputs
  cursors_at =
      decode-encode_cursors r.accepted_inputs message 38 h.cursors_fit
        (drop-advance message ((length r.accepted_inputs % 256) ∷ []) _ 37 at_37)

  decode-message : decode_server_frame_release_v5 message ≡ ok r
  unfolding decode_server_frame_release_v5 validate_release_cursors
  decode-message =
      rw
        (
          header-valid headed release_header_bytes (omega (arith, size)),
          count_at,
          bytes,
          (==_iff (length message) _).1 size,
          cursors_at,
          h.sorted,
          header-room_epoch headed,
          header-session_epoch headed,
          released_at,
          next_at,
        )
        refl

-- A release whose fields fit their widths, and whose cursors are of players 0 and 1 in strictly rising
-- order of the player, so that there are at most two, has an encoding, and that decodes to the release.
pub decode-encode_server_frame_release_v5 :
    (r : ServerFrameReleaseV5)
    → IsRelease r
    → (encode_server_frame_release_v5 r >>= decode_server_frame_release_v5) ≡ ok r
decode-encode_server_frame_release_v5 r h = rw (encode-message r h) (decode-message r h)
