-- ===== src/Protocol/StrictInput/BatchRoundTrip.antt =====
-- Batches of src/protocol/strict_input/input_batch.rs by encoder and decoder.
use sn_netplay_serv.Base.{IsU64, length, All, ℕ, ◌%◌, ◌≤◌, ◌<◌, ◌≡◌, List, ◌∷◌, ◌++◌}
use sn_netplay_serv.Base.Bytes.{to_be}
use sn_netplay_serv.Protocol.Limits.{
  mvp_room_capacity, max_input_batch_frames, v5_retropad_input_bytes,
}
use sn_netplay_serv.Protocol.StrictInput.Batch.{magic, message_type, StrictInputBatch, concat}
use sn_netplay_serv.Protocol.StrictInput.Common.{write_header}

pub record IsBatch (b : StrictInputBatch) : Type 0 where
  pub room_fits : IsU64 b.room_epoch
  pub session_fits : IsU64 b.session_epoch
  pub player_fits : b.player_index < mvp_room_capacity
  pub start_fits : IsU64 b.start_frame
  pub not_empty : 0 < length b.payloads
  pub bounded : length b.payloads ≤ max_input_batch_frames
  pub widths : All (λ p. length p ≡ v5_retropad_input_bytes) b.payloads

module _ (b : StrictInputBatch) (h : IsBatch b) where
  message : List ℕ
  message =
      write_header magic message_type b.room_epoch b.session_epoch
      ++ b.player_index
        ∷ (length b.payloads % 256)
        ∷ (to_be 2 v5_retropad_input_bytes ++ (to_be 8 b.start_frame ++ concat b.payloads))
