-- ===== src/Tests/Messages.antt =====
-- Messages of src/protocol on which the round trips run.
use sn_netplay_serv.Base.{
  length, All, ◌>>=◌, ok, ℕ, ◌≤◌, ◌<◌, ◌≡◌, refl, ◌≢◌, none, some, List, [], ◌∷◌, ◌++◌, arith,
}
use sn_netplay_serv.Base.Bytes.{to_be}
use sn_netplay_serv.Protocol.FastInput.{
  FastInputFrame, decode_fast_input_batch, record_bytes, encode_fast_input_frame,
}
use sn_netplay_serv.Protocol.FastInput.Laws.{
  carried, decode_fast_input_batch-ne-none, decode_fast_input_batch-carried,
}
use sn_netplay_serv.Protocol.FastInput.RoundTrip.{
  IsRecord, decode-carried, decode-encode_fast_input_frame,
}
use sn_netplay_serv.Protocol.InputBatch.{input_batch_magic, input_batch_type, InputFrameBatch}
use sn_netplay_serv.Protocol.Limits.{
  mvp_room_capacity, max_input_batch_frames, max_input_batch_bytes,
}
use sn_netplay_serv.Protocol.ServerFrame.{ServerFrame, decode_server_frame, encode_server_frame}
use sn_netplay_serv.Protocol.ServerFrame.RoundTrip.{IsServerFrame, decode-encode_server_frame}
use sn_netplay_serv.Protocol.StrictInput.Batch.{StrictInputBatch}
use sn_netplay_serv.Protocol.StrictInput.Cursor.{InputCursorAck, InputCursorNack, input_gap}
use sn_netplay_serv.Protocol.StrictInput.FrameClock.{
  HostFrameOpen, ServerFrameReleaseV5, encode_host_frame_open, decode_host_frame_open,
  has_unsorted_pair, encode_server_frame_release_v5, decode_server_frame_release_v5,
}
use sn_netplay_serv.Protocol.StrictInput.ReleaseRoundTrip.{
  IsRelease, decode-encode_server_frame_release_v5,
}
use sn_netplay_serv.Protocol.StrictInput.RoundTrip.{IsOpen, decode-encode_host_frame_open}

abbrev an_ack : InputCursorAck
an_ack = record { room_epoch = 1; session_epoch = 2; player_index = 1; next_expected_frame = 700 }

abbrev a_nack : InputCursorNack
a_nack = record {
  room_epoch = 1;
  session_epoch = 2;
  player_index = 1;
  expected_frame = 700;
  received_frame = 703;
  reason = input_gap;
}

abbrev an_open : HostFrameOpen
an_open = record { room_epoch = 1; session_epoch = 2; frame = 300 }

an_open-IsOpen : IsOpen an_open
an_open-IsOpen = record {
  room_fits = omega arith;
  session_fits = omega arith;
  frame_fits = omega arith;
}

decode-encode_host_frame_open_example :
    decode_host_frame_open (encode_host_frame_open an_open) ≡ ok an_open
decode-encode_host_frame_open_example = decode-encode_host_frame_open an_open an_open-IsOpen

abbrev a_payload : List ℕ
a_payload = 1 ∷ 2 ∷ 3 ∷ 4 ∷ 5 ∷ 6 ∷ 7 ∷ 8 ∷ 9 ∷ 10 ∷ []

abbrev a_batch : StrictInputBatch
a_batch = record {
  room_epoch = 1;
  session_epoch = 2;
  player_index = 1;
  start_frame = 700;
  payloads = a_payload ∷ a_payload ∷ [];
}

abbrev a_release : ServerFrameReleaseV5
a_release = record {
  room_epoch = 1;
  session_epoch = 2;
  released_frame = 299;
  next_host_frame = 300;
  accepted_inputs =
      record { player_index = 0; next_expected_frame = 302 }
      ∷ record { player_index = 1; next_expected_frame = 301 }
      ∷ [];
}

a_release-IsRelease : IsRelease a_release
unfolding has_unsorted_pair
a_release-IsRelease = record {
  room_fits = omega arith;
  session_fits = omega arith;
  released_fits = omega arith;
  next_fits = omega arith;
  cursors_fit = ((omega arith, omega arith), ((omega arith, omega arith), tt));
  sorted = refl;
}

decode-encode_server_frame_release_v5_example :
    (encode_server_frame_release_v5 a_release >>= decode_server_frame_release_v5) ≡ ok a_release
decode-encode_server_frame_release_v5_example =
    decode-encode_server_frame_release_v5 a_release a_release-IsRelease

abbrev a_record : FastInputFrame
a_record = record {
  room_epoch = 1;
  session_epoch = 2;
  player_index = 1;
  frame = 9;
  payload = 7 ∷ 8 ∷ [];
  encoded = record_bytes 1 2 1 9 (7 ∷ 8 ∷ []);
}

a_record-IsRecord : IsRecord a_record
a_record-IsRecord = record {
  room_fits = omega arith;
  session_fits = omega arith;
  player_fits = omega arith;
  frame_fits = omega arith;
  payload_fits = omega arith;
  carries = refl;
}

abbrev two_records : List FastInputFrame
two_records = a_record ∷ a_record ∷ []

two_records-size : length (carried two_records) ≤ max_input_batch_bytes
unfolding record_bytes to_be
two_records-size = omega arith

decode-carried_example : decode_fast_input_batch (carried two_records) ≡ some (ok two_records)
decode-carried_example =
    decode-carried two_records (a_record-IsRecord, (a_record-IsRecord, tt)) (omega arith)
      (omega arith) two_records-size

decode-carried_run : decode_fast_input_batch (carried two_records) ≡ some (ok two_records)
decode-carried_run =
    decode-carried two_records (a_record-IsRecord, (a_record-IsRecord, tt)) (omega arith)
      (omega arith) two_records-size

decode_fast_input_batch-carried_example :
    (carried two_records ≡ carried two_records)
    × (0 < length two_records)
    × (length two_records ≤ max_input_batch_frames)
    × All (λ f. f.player_index < mvp_room_capacity) two_records
decode_fast_input_batch-carried_example =
    decode_fast_input_batch-carried (carried two_records) two_records decode-carried_run

decode_fast_input_batch-ne-none_example : decode_fast_input_batch (carried two_records) ≢ none
decode_fast_input_batch-ne-none_example = decode_fast_input_batch-ne-none (carried two_records)

abbrev an_input_batch : InputFrameBatch
an_input_batch = record {
  room_epoch = 1;
  session_epoch = 2;
  player_index = 1;
  frames =
      record { player_index = 1; frame = 9; payload = 7 ∷ 8 ∷ [] }
      ∷ record { player_index = 1; frame = 10; payload = 5 ∷ [] }
      ∷ [];
}

abbrev an_input_message : List ℕ
an_input_message =
    input_batch_magic
    ++ input_batch_type
      ∷ (to_be 8 1
          ++ (to_be 8 2
              ++ 1
                ∷ 2
                ∷ (to_be 8 9 ++ (to_be 2 2 ++ (7 ∷ 8 ∷ (to_be 8 10 ++ (to_be 2 1 ++ (5 ∷ []))))))))

a_record-encodes :
    encode_fast_input_frame 1 2 1 9 (7 ∷ 8 ∷ []) ≡ ok (record_bytes 1 2 1 9 (7 ∷ 8 ∷ []))
unfolding encode_fast_input_frame record_bytes to_be
a_record-encodes = refl

decode-encode_fast_input_frame_example :
    decode_fast_input_batch (record_bytes 1 2 1 9 (7 ∷ 8 ∷ [])) ≡ some (ok (a_record ∷ []))
decode-encode_fast_input_frame_example =
    decode-encode_fast_input_frame 1 2 1 9 (7 ∷ 8 ∷ []) (record_bytes 1 2 1 9 (7 ∷ 8 ∷ []))
      (omega arith) (omega arith) (omega arith) (omega arith) a_record-encodes

abbrev a_server_frame : ServerFrame
a_server_frame = record { room_epoch = 1; session_epoch = 2; frame = 300; canonical_frame = 301 }

a_server_frame-IsServerFrame : IsServerFrame a_server_frame
a_server_frame-IsServerFrame = record {
  room_fits = omega arith;
  session_fits = omega arith;
  frame_fits = omega arith;
  canonical_fits = omega arith;
}

decode-encode_server_frame_example :
    decode_server_frame (encode_server_frame a_server_frame) ≡ ok a_server_frame
decode-encode_server_frame_example =
    decode-encode_server_frame a_server_frame a_server_frame-IsServerFrame
