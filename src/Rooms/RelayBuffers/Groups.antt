-- ===== src/Rooms/RelayBuffers/Groups.antt =====
-- The batches that src/rooms/input_frame_relay_buffer.rs groups a released frame into.
-- What the batch of a source and a player carries, if there is one.
use mathlib.Core.List.{append-nil, append_assoc}
use sn_netplay_serv.Base.{
  ◌==◌, if◌then◌else◌, Bool-cases, length, any, filter, find, update_first, length-append, ℕ, ◌+◌,
  ◌≡◌, refl, sym, ap, ◌∙◌, inl, inr, Bool, true, false, ◌&&◌, none, some, List, [], ◌∷◌, ◌++◌, map,
  arith,
}
use sn_netplay_serv.Protocol.Ids.{PlayerIndex, ConnectionId}
use sn_netplay_serv.Protocol.InputFrame.{InputFrame}
use sn_netplay_serv.Rooms.RelayBuffers.{
  BufferedInputFrame, BufferedInputFrameBatch, is_batch_of, add_frame, push_to_batch,
  is_current_input, push_current, drain_input_frame,
}
use sn_netplay_serv.Rooms.RelayBuffers.Laws.{push_inputs, waiting}

unfoldable pub frames_of :
    ConnectionId → PlayerIndex → List BufferedInputFrameBatch → List InputFrame
unfolding is_batch_of
frames_of source player batches = elim (find (is_batch_of source player) batches) [
  | none ↦ []
  | some b ↦ b.batch.frames
]

-- How many frames the batches carry together.
unfoldable pub total_frames : List BufferedInputFrameBatch → ℕ
total_frames [] = 0
total_frames (b ∷ more) = length b.batch.frames + total_frames more

-- The frame is of this source and player.
unfoldable pub is_from : ConnectionId → PlayerIndex → BufferedInputFrame → Bool
is_from source player x = (x.source == source) && (x.input.player_index == player)

abbrev one_if : Bool → InputFrame → List InputFrame
one_if here x = if here then x ∷ [] else []

add-frames_of :
    (s : ConnectionId) (p : PlayerIndex) (x : BufferedInputFrame)
    (bs : List BufferedInputFrameBatch)
    → any (is_batch_of x.source x.input.player_index) bs ≡ true
    → frames_of s p
        (update_first (is_batch_of x.source x.input.player_index) (add_frame x.input) bs)
      ≡ frames_of s p bs ++ one_if (is_from s p x) x.input
unfolding frames_of is_batch_of add_frame is_from
add-frames_of s p x [] h = absurd (cc)
add-frames_of s p x (b ∷ bs) h = elim (Bool-cases (is_batch_of x.source x.input.player_index b)) [
  | inl hit ↦ ground (arith, append-nil (frames_of s p bs))
  | inr miss ↦
      let rest : any (is_batch_of x.source x.input.player_index) bs ≡ true = ground arith in
      ground (arith, add-frames_of s p x bs rest, append-nil b.batch.frames)
]

new-frames_of :
    (s : ConnectionId) (p : PlayerIndex) (x : BufferedInputFrame) (n : BufferedInputFrameBatch)
    (bs : List BufferedInputFrameBatch)
    → n.source ≡ x.source
    → n.batch.player_index ≡ x.input.player_index
    → n.batch.frames ≡ x.input ∷ []
    → any (is_batch_of x.source x.input.player_index) bs ≡ false
    → frames_of s p (bs ++ n ∷ []) ≡ frames_of s p bs ++ one_if (is_from s p x) x.input
unfolding frames_of is_batch_of is_from
new-frames_of s p x n [] a b c h = ground arith
new-frames_of s p x n (m ∷ bs) a b c h =
    let rest : any (is_batch_of x.source x.input.player_index) bs ≡ false = ground arith in
    ground (arith, new-frames_of s p x n bs a b c rest, append-nil m.batch.frames)

push-frames_of :
    (s : ConnectionId) (p : PlayerIndex) (x : BufferedInputFrame)
    (bs : List BufferedInputFrameBatch)
    → frames_of s p (push_to_batch bs x) ≡ frames_of s p bs ++ one_if (is_from s p x) x.input
unfolding push_to_batch
push-frames_of s p x bs = elim (Bool-cases (any (is_batch_of x.source x.input.player_index) bs)) [
  | inl there ↦ ground (arith, add-frames_of s p x bs there)
  | inr absent ↦
      rw (absent, push_to_batch)
        (new-frames_of s p x
          record {
            source = x.source;
            batch = record {
              frames = x.input ∷ [];
              player_index = x.input.player_index;
              room_epoch = x.room_epoch;
              session_epoch = x.session_epoch;
            };
          }
          bs refl refl refl absent)
]

add-total_frames :
    (q : BufferedInputFrameBatch → Bool) (x : InputFrame) (bs : List BufferedInputFrameBatch)
    → any q bs ≡ true
    → total_frames (update_first q (add_frame x) bs) ≡ total_frames bs + 1
unfolding total_frames add_frame
add-total_frames q x [] h = absurd (cc)
add-total_frames q x (b ∷ bs) h = elim (Bool-cases (q b)) [
  | inl hit ↦ rw hit (omega (arith, length-append b.batch.frames (x ∷ [])))
  | inr miss ↦
      let rest : any q bs ≡ true = ground arith in
      rw miss (omega (arith, add-total_frames q x bs rest))
]

new-total_frames :
    (n : BufferedInputFrameBatch) (bs : List BufferedInputFrameBatch)
    → length n.batch.frames ≡ 1
    → total_frames (bs ++ n ∷ []) ≡ total_frames bs + 1
unfolding total_frames
new-total_frames n [] one = omega (arith, one)
new-total_frames n (b ∷ bs) one = omega (arith, new-total_frames n bs one)

push-total_frames :
    (x : BufferedInputFrame) (bs : List BufferedInputFrameBatch)
    → total_frames (push_to_batch bs x) ≡ total_frames bs + 1
unfolding push_to_batch
push-total_frames x bs = elim (Bool-cases (any (is_batch_of x.source x.input.player_index) bs)) [
  | inl there ↦
      rw (there, push_to_batch)
        (add-total_frames (is_batch_of x.source x.input.player_index) x.input bs there)
  | inr absent ↦
      rw (absent, push_to_batch)
        (new-total_frames
          record {
            source = x.source;
            batch = record {
              frames = x.input ∷ [];
              player_index = x.input.player_index;
              room_epoch = x.room_epoch;
              session_epoch = x.session_epoch;
            };
          }
          bs refl)
]

drain-frames_of :
    (r e : ℕ) (s : ConnectionId) (p : PlayerIndex) (bs : List BufferedInputFrameBatch)
    (xs : List BufferedInputFrame)
    → frames_of s p (push_current r e bs xs)
      ≡ frames_of s p bs
        ++ map (λ x. x.input) (filter (is_from s p) (filter (is_current_input r e) xs))
unfolding push_current
drain-frames_of r e s p bs [] = sym (append-nil (frames_of s p bs))
drain-frames_of r e s p bs (x ∷ xs) = elim (Bool-cases (is_current_input r e x)) [
  | inr old ↦ rw (old, push_current) (drain-frames_of r e s p bs xs)
  | inl now ↦
      rw (now, push_current)
        (elim (Bool-cases (is_from s p x)) [
          | inl mine ↦ rw mine (
              drain-frames_of r e s p (push_to_batch bs x) xs
              ∙ ap
                  (λ w.
                    w
                    ++ map (λ y. y.input) (filter (is_from s p) (filter (is_current_input r e) xs)))
                  (rw mine at (push-frames_of s p x bs))
              ∙ append_assoc (frames_of s p bs) (x.input ∷ [])
                  (map (λ y. y.input) (filter (is_from s p) (filter (is_current_input r e) xs))))
          | inr other ↦ rw other (
              drain-frames_of r e s p (push_to_batch bs x) xs
              ∙ ap
                  (λ w.
                    w
                    ++ map (λ y. y.input) (filter (is_from s p) (filter (is_current_input r e) xs)))
                  ((rw other at (push-frames_of s p x bs)) ∙ append-nil (frames_of s p bs)))
        ])
]

drain-total_frames :
    (r e : ℕ) (bs : List BufferedInputFrameBatch) (xs : List BufferedInputFrame)
    → total_frames (push_current r e bs xs)
      ≡ total_frames bs + length (filter (is_current_input r e) xs)
unfolding push_current
drain-total_frames r e bs [] = omega arith
drain-total_frames r e bs (x ∷ xs) = elim (Bool-cases (is_current_input r e x)) [
  | inr old ↦ rw (old, push_current) (drain-total_frames r e bs xs)
  | inl now ↦
      rw (now, push_current)
        (omega (arith, drain-total_frames r e (push_to_batch bs x) xs, push-total_frames x bs))
]

-- Draining a frame of a buffer that started empty groups the inputs that were pushed for that frame in
-- these epochs: the batch of each source and player carries its inputs in the order of the pushes, and
-- the batches carry as many inputs together as there are, so that none is lost or sent twice.
pub drain_input_frame-pushed :
    (xs : List BufferedInputFrame) (frame room_epoch session_epoch : ℕ) (s : ConnectionId)
    (p : PlayerIndex)
    → (frames_of s p (drain_input_frame frame room_epoch session_epoch (push_inputs xs [])).1
        ≡ map
            (λ x. x.input)
            (filter (is_from s p) (
              filter
                (is_current_input room_epoch session_epoch)
                (filter (λ x. x.input.frame == frame) xs))))
      × (total_frames (drain_input_frame frame room_epoch session_epoch (push_inputs xs [])).1
          ≡ length (
              filter
                (is_current_input room_epoch session_epoch)
                (filter (λ x. x.input.frame == frame) xs)))
unfolding drain_input_frame frames_of total_frames
drain_input_frame-pushed xs frame r e s p =
    let there = waiting frame xs [] in
    (
      ap (λ w. frames_of s p (push_current r e [] w)) there
          ∙ drain-frames_of r e s p [] (filter (λ x. x.input.frame == frame) xs),
      ap (λ w. total_frames (push_current r e [] w)) there
          ∙ omega (arith, drain-total_frames r e [] (filter (λ x. x.input.frame == frame) xs)),
    )
