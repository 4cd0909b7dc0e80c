-- ===== src/Rooms/Room/StrictInput/Laws.antt =====
-- What one call of src/rooms/room_strict_input_ops.rs does to the cursors.
-- A change of one player's cursor and last frame: no other player's entry of either map changes, and
-- nothing outside the two maps.
use sn_netplay_serv.Base.{
  leb, leb→le, Bool-cases, saturating_add, IsU64, length, drop, length-drop, ok, ℕ, ◌+◌, ◌-◌, ◌≤◌,
  ◌<◌, max, ◌≡◌, refl, ap, ◌∙◌, ◌≢◌, ◌⊎◌, inl, inr, true, false, none, some, arith,
}
use sn_netplay_serv.Base.Maps.{
  lookup, insert, lookup-insert_self, lookup-insert_ne, lookup_or-insert_self, lookup_or-insert_ne,
}
use sn_netplay_serv.Lobbies.Game.{applied}
use sn_netplay_serv.Protocol.FastInput.RoundTrip.{behind}
use sn_netplay_serv.Protocol.Ids.{PlayerIndex, ConnectionId}
use sn_netplay_serv.Protocol.StrictInput.Batch.{StrictInputBatch}
use sn_netplay_serv.Protocol.StrictInput.Cursor.{
  InputCursorNackReason, InputCursorNack, input_gap, session_state, nack,
}
use sn_netplay_serv.Rooms.Room.{
  NetplayRoom, uses_strict_controller_input, player_index_for_input_connection, next_input_frame,
}
use sn_netplay_serv.Rooms.Room.StrictInput.{
  StrictInputBatchOutcome, validate_strict_input_sender, strict_input_state_accepts,
  apply_strict_input, accept_strict_input_batch,
}

pub record Advances (r r' : NetplayRoom) (i : PlayerIndex) (next : ℕ) : Type 0 where
  pub own : next_input_frame r' i ≡ next
  pub others : (j : PlayerIndex) → i ≢ j → next_input_frame r' j ≡ next_input_frame r j
  pub own_last : lookup i r'.last_input_frames ≡ some (next - 1)
  pub other_cursors :
      (j : PlayerIndex) → i ≢ j → lookup j r'.next_input_frames ≡ lookup j r.next_input_frames
  pub other_lasts :
      (j : PlayerIndex) → i ≢ j → lookup j r'.last_input_frames ≡ lookup j r.last_input_frames
  pub rest :
      record r' { last_input_frames = r.last_input_frames; next_input_frames = r.next_input_frames }
      ≡ r

-- What a successful call has done: nothing, or it took the part of the batch from the cursor on.
pub data Took (r : NetplayRoom) (b : StrictInputBatch) (r' : NetplayRoom)
    (o : StrictInputBatchOutcome) : Type 0 where
  kept : r' ≡ r → o.accepted_batch ≡ none → Took r b r' o
  took :
      (a : StrictInputBatch)
      → o.accepted_batch ≡ some a
      → b.start_frame ≤ next_input_frame r b.player_index
      → a ≡ record b {
        start_frame = next_input_frame r b.player_index;
        payloads = drop (next_input_frame r b.player_index - b.start_frame) b.payloads;
      }
      → 0 < length a.payloads
      → b.start_frame + length b.payloads ≤ saturating_add r.next_release_frame 96 + 1
      → IsU64 (b.start_frame + length b.payloads)
      → Advances r r' b.player_index (b.start_frame + length b.payloads)
      → Took r b r' o

insert-Advances :
    (r : NetplayRoom) (i last next : ℕ)
    → last + 1 ≡ next
    → Advances r
        (record r {
          last_input_frames = insert i last r.last_input_frames;
          next_input_frames = insert i next r.next_input_frames;
        })
        i
        next
unfolding next_input_frame
insert-Advances r i last next behind = record {
  own = lookup_or-insert_self i next r.sync_start_frame r.next_input_frames;
  others = λ j ne. lookup_or-insert_ne i j next r.sync_start_frame r.next_input_frames ne;
  own_last = lookup-insert_self i last r.last_input_frames ∙ ap some (omega (arith, behind));
  other_cursors = λ j ne. lookup-insert_ne i j next r.next_input_frames ne;
  other_lasts = λ j ne. lookup-insert_ne i j last r.last_input_frames ne;
  rest = refl;
}

apply_strict_input-Took :
    (r : NetplayRoom) (b : StrictInputBatch) (end : ℕ) (r' : NetplayRoom)
    (o : StrictInputBatchOutcome)
    → 0 < length b.payloads
    → b.start_frame + (length b.payloads - 1) ≡ end
    → b.start_frame ≤ next_input_frame r b.player_index
    → end ≤ saturating_add r.next_release_frame 96
    → apply_strict_input r b (next_input_frame r b.player_index) end ≡ ok (r', o)
    → Took r b r' o
unfolding apply_strict_input
apply_strict_input-Took r b end r' o pos e le bound h =
    elim (Bool-cases (leb (max (next_input_frame r b.player_index) b.start_frame) end)) [
      | inr old ↦ kept (ground arith) (ground arith)
      | inl fresh ↦
          let m : max (next_input_frame r b.player_index) b.start_frame
              ≡ next_input_frame r b.player_index =
            omega arith in
          let s : end + 1 ≡ b.start_frame + length b.payloads = omega arith in
          let room : r' ≡ record r {
            last_input_frames = insert b.player_index end r.last_input_frames;
            next_input_frames =
                insert b.player_index (b.start_frame + length b.payloads) r.next_input_frames;
          } =
            ground arith in
          took
            (record b {
              start_frame = next_input_frame r b.player_index;
              payloads = drop (next_input_frame r b.player_index - b.start_frame) b.payloads;
            })
            (ground arith) le refl
            (omega (
              arith,
              length-drop (next_input_frame r b.player_index - b.start_frame) b.payloads,
              leb→le _ _ fresh,
            ))
            (omega arith) (ground arith)
            (rw room (insert-Advances r b.player_index end (b.start_frame + length b.payloads) s))
    ]

accept-cases :
    (r : NetplayRoom) (c : ConnectionId) (b : StrictInputBatch) (r' : NetplayRoom)
    (o : StrictInputBatchOutcome)
    → accept_strict_input_batch r c b ≡ ok (r', o)
    → ((r' ≡ r) × (o.accepted_batch ≡ none))
      ⊎ ((b.start_frame ≤ next_input_frame r b.player_index)
          × (b.start_frame + (length b.payloads - 1) ≤ saturating_add r.next_release_frame 96)
          × (apply_strict_input r b
                (next_input_frame r b.player_index)
                (b.start_frame + (length b.payloads - 1))
              ≡ ok (r', o)))
unfolding accept_strict_input_batch
accept-cases r c b r' o h = ground arith

-- A batch with at least one payload that does not fail leaves the room as it was and relays nothing,
-- or it starts at or before the sender's cursor, ends at most 96 frames past the next frame to
-- release, relays exactly its payloads from the cursor on, of which there is at least one, moves the
-- sender's cursor behind them, notes the frame before that cursor as the sender's last one, and
-- changes no other player's cursor or last frame and nothing else in the room.
pub accept_strict_input_batch-Took :
    (r : NetplayRoom) (c : ConnectionId) (b : StrictInputBatch) (r' : NetplayRoom)
    (o : StrictInputBatchOutcome)
    → 0 < length b.payloads
    → accept_strict_input_batch r c b ≡ ok (r', o)
    → Took r b r' o
accept_strict_input_batch-Took r c b r' o pos h = elim (accept-cases r c b r' o h) [
  | inl (same, nothing) ↦ kept same nothing
  | inr (le, bound, applied) ↦
      apply_strict_input-Took r b (b.start_frame + (length b.payloads - 1)) r' o pos refl le bound
        applied
]

-- Who may send: the room runs the strict lane, and the input socket owns the batch's player.
abbrev pub IsSender : NetplayRoom → ConnectionId → StrictInputBatch → Type 0
IsSender r c b =
    (uses_strict_controller_input r ≡ true)
    × (player_index_for_input_connection r c ≡ some b.player_index)

-- Every call that does not fail comes from the owner of the player's slot.
pub accept_strict_input_batch-IsSender :
    (r : NetplayRoom) (c : ConnectionId) (b : StrictInputBatch) (r' : NetplayRoom)
    (o : StrictInputBatchOutcome)
    → accept_strict_input_batch r c b ≡ ok (r', o)
    → IsSender r c b
unfolding accept_strict_input_batch validate_strict_input_sender
accept_strict_input_batch-IsSender r c b r' o h = ground arith

-- The reason that a rejection must carry, and the facts that make it the first that applies.
pub Rejected : NetplayRoom → StrictInputBatch → InputCursorNack → Type 0
Rejected r b n =
    let expected = next_input_frame r b.player_index in
    let end = b.start_frame + (length b.payloads - 1) in
    (n.room_epoch ≡ r.room_epoch)
    × (n.session_epoch ≡ r.session_epoch)
    × (n.player_index ≡ b.player_index)
    × (n.expected_frame ≡ expected)
    × elim n.reason [
      | session_state ↦
          (b.room_epoch ≢ r.room_epoch)
          ⊎ (b.session_epoch ≢ r.session_epoch)
          ⊎ (strict_input_state_accepts r end ≡ false)
      | input_gap ↦ (expected < b.start_frame) × (strict_input_state_accepts r end ≡ true)
      | InputCursorNackReason.future_frame_too_large ↦
          (b.start_frame ≤ expected) × (saturating_add r.next_release_frame 96 < end)
    ]

-- A rejection leaves the room as it was, relays nothing, names the room's epochs and the sender's
-- cursor, and its reason is true: a wrong epoch or a state that takes no input, a gap behind the
-- cursor, or an end more than 96 frames past the next frame to release.
pub accept_strict_input_batch-nack :
    (r : NetplayRoom) (c : ConnectionId) (b : StrictInputBatch) (r' : NetplayRoom)
    (o : StrictInputBatchOutcome) (n : InputCursorNack)
    → accept_strict_input_batch r c b ≡ ok (r', o)
    → o.response ≡ nack n
    → (r' ≡ r) × (o.accepted_batch ≡ none) × Rejected r b n
unfolding accept_strict_input_batch apply_strict_input Rejected
accept_strict_input_batch-nack r c b r' o n h e = (ground arith, ground arith, ground arith)
