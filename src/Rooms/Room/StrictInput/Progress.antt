-- ===== src/Rooms/Room/StrictInput/Progress.antt =====
-- Batches that arrive in time at src/rooms/room_strict_input_ops.rs.
use sn_netplay_serv.Base.{
  leb, Bool-cases, u64_max, saturating_add, length, drop, ok, ℕ, ◌+◌, ◌-◌, ◌≤◌, ◌<◌, max, ◌≡◌, refl,
  sym, ◌∙◌, inl, inr, true, false, none, some, arith,
}
use sn_netplay_serv.Base.Maps.{insert, lookup_or, lookup_or-insert_self}
use sn_netplay_serv.Protocol.Ids.{PlayerIndex, ConnectionId}
use sn_netplay_serv.Protocol.StrictInput.Batch.{StrictInputBatch}
use sn_netplay_serv.Protocol.StrictInput.Cursor.{ack}
use sn_netplay_serv.Rooms.Room.{NetplayRoom, next_input_frame}
use sn_netplay_serv.Rooms.Room.StrictInput.{
  StrictInputBatchOutcome, validate_strict_input_sender, strict_input_state_accepts,
  strict_input_ack, apply_strict_input, accept_strict_input_batch,
}
use sn_netplay_serv.Rooms.Room.StrictInput.Laws.{IsSender}

-- The room and the answer for a batch that brings a new frame.
accept-fresh :
    (r : NetplayRoom) (c : ConnectionId) (b : StrictInputBatch) (end : ℕ)
    → IsSender r c b
    → b.room_epoch ≡ r.room_epoch
    → b.session_epoch ≡ r.session_epoch
    → b.start_frame + (length b.payloads - 1) ≡ end
    → end < u64_max
    → strict_input_state_accepts r end ≡ true
    → b.start_frame ≤ next_input_frame r b.player_index
    → end ≤ saturating_add r.next_release_frame 96
    → apply_strict_input r b (next_input_frame r b.player_index) end
      ≡ accept_strict_input_batch r c b
unfolding accept_strict_input_batch validate_strict_input_sender
accept-fresh r c b end sender room session e wide state start near = rw (← e) (ground arith)

taken_room : NetplayRoom → StrictInputBatch → ℕ → NetplayRoom
taken_room r b end = record r {
  last_input_frames = insert b.player_index end r.last_input_frames;
  next_input_frames = insert b.player_index (end + 1) r.next_input_frames;
}

taken_outcome : NetplayRoom → StrictInputBatch → ℕ → ℕ → StrictInputBatchOutcome
taken_outcome r b next end =
    let payloads = drop (max next b.start_frame - b.start_frame) b.payloads in
    strict_input_ack r b.player_index
      (lookup_or b.player_index (insert b.player_index (end + 1) r.next_input_frames) next)
      (some (record b { start_frame = max next b.start_frame; payloads = payloads }))
      (length b.payloads - length payloads)

applied_fresh :
    (r : NetplayRoom) (b : StrictInputBatch) (next end : ℕ)
    → leb (max next b.start_frame) end ≡ true
    → end < u64_max
    → apply_strict_input r b next end ≡ ok (taken_room r b end, taken_outcome r b next end)
unfolding apply_strict_input taken_room taken_outcome
applied_fresh r b next end fresh wide = rw fresh (ground arith)

applied_old :
    (r : NetplayRoom) (b : StrictInputBatch) (next end : ℕ)
    → leb (max next b.start_frame) end ≡ false
    → apply_strict_input r b next end
      ≡ ok (
        r,
        strict_input_ack r b.player_index
            (lookup_or b.player_index r.next_input_frames next)
            none
            (length b.payloads - 0),
      )
unfolding apply_strict_input
applied_old r b next end old = rw old refl

known :
    (r : NetplayRoom) (i : PlayerIndex)
    → lookup_or i r.next_input_frames (next_input_frame r i) ≡ next_input_frame r i
unfolding next_input_frame
known r i = ground arith

-- A batch of at least one payload is taken, in a room that runs the strict lane and from the socket
-- that owns its player, when its epochs are the room's, the state takes input for its last frame, it
-- starts at or before the player's cursor, and its last frame is below the last 64-bit number and at
-- most 96 frames past the next frame to release. The answer is an acknowledgement of the cursor
-- behind all that is known, and that is the player's cursor.
pub accept_strict_input_batch-ack :
    (r : NetplayRoom) (c : ConnectionId) (b : StrictInputBatch)
    → IsSender r c b
    → b.room_epoch ≡ r.room_epoch
    → b.session_epoch ≡ r.session_epoch
    → 0 < length b.payloads
    → strict_input_state_accepts r (b.start_frame + (length b.payloads - 1)) ≡ true
    → b.start_frame ≤ next_input_frame r b.player_index
    → b.start_frame + length b.payloads ≤ u64_max
    → b.start_frame + length b.payloads ≤ r.next_release_frame + 97
    → (r' : NetplayRoom) × (o : StrictInputBatchOutcome) × (accept_strict_input_batch r c b
        ≡ ok (r', o))
      × (next_input_frame r' b.player_index
          ≡ max (next_input_frame r b.player_index) (b.start_frame + length b.payloads))
      × (o.response
          ≡ ack (record {
            room_epoch = r.room_epoch;
            session_epoch = r.session_epoch;
            player_index = b.player_index;
            next_expected_frame = next_input_frame r' b.player_index;
          }))
accept_strict_input_batch-ack r c b sender room session some_payload state start wide near =
    let next = next_input_frame r b.player_index in
    let end = b.start_frame + (length b.payloads - 1) in
    let taken =
      accept-fresh r c b end sender room session refl (omega arith) state start (omega arith) in
    elim (Bool-cases (leb (max next b.start_frame) end)) [
      | inl fresh ↦
          let step = applied_fresh r b next end fresh (omega arith) in
          let moved =
            lookup_or-insert_self b.player_index (end + 1) r.sync_start_frame r.next_input_frames in
          let told = lookup_or-insert_self b.player_index (end + 1) next r.next_input_frames in
          (
            taken_room r b end,
            taken_outcome r b next end,
            sym taken ∙ step,
            unfold taken_room next_input_frame in (moved ∙ ground arith),
            unfold taken_room taken_outcome next_input_frame strict_input_ack in
                (rw (told, moved) refl),
          )
      | inr old ↦
          let step = applied_old r b next end old in
          (
            r,
            strict_input_ack r b.player_index (lookup_or b.player_index r.next_input_frames next)
                none (length b.payloads - 0),
            sym taken ∙ step,
            ground arith,
            unfold strict_input_ack in (rw (known r b.player_index) refl),
          )
    ]
