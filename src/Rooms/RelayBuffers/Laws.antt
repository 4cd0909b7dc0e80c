-- ===== src/Rooms/RelayBuffers/Laws.antt =====
-- The relay buffers against the list of what was pushed (src/rooms/input_frame_relay_buffer.rs,
-- fast_input_relay_buffer.rs).
-- The buffer after a sequence of pushes.
use mathlib.Core.List.{append-nil, append_assoc}
use mathlib.Core.Path.{subst}
use sn_netplay_serv.Base.{
  ◌==◌, if◌then◌else◌, ==-refl, ==_iff, Bool-cases, filter, ℕ, ◌≡◌, sym, ap, ◌∙◌, inl, inr, Bool,
  List, [], ◌∷◌, ◌++◌, arith,
}
use sn_netplay_serv.Base.Maps.{lookup, lookup_or, lookup-insert, lookup-insert_self, lookup-remove}
use sn_netplay_serv.Rooms.RelayBuffers.{
  FrameBuffer, push_at, BufferedInputFrame, InputFrameRelayBuffer, push_input,
  BufferedFastInputFrame, FastInputRelayBuffer, push_fast_input, is_current_fast_input,
  drain_fast_input_frame,
}

unfoldable pub push_fast_inputs :
    List BufferedFastInputFrame → FastInputRelayBuffer → FastInputRelayBuffer
unfolding push_fast_input
push_fast_inputs [] buffer = buffer
push_fast_inputs (x ∷ more) buffer = push_fast_inputs more (push_fast_input x buffer)

unfoldable pub push_inputs : List BufferedInputFrame → InputFrameRelayBuffer → InputFrameRelayBuffer
unfolding push_input
push_inputs [] buffer = buffer
push_inputs (x ∷ more) buffer = push_inputs more (push_input x buffer)

module _ {B : Type 0} where
  lookup_or-push_at :
      (j k : ℕ) (x : B) (m : FrameBuffer B)
      → lookup_or j (push_at k x m) [] ≡ lookup_or j m [] ++ (if k == j then x ∷ [] else [])
  unfolding push_at
  lookup_or-push_at j k x m = elim (Bool-cases (k == j)) [
    | inr other ↦
        ground
          (arith, lookup-insert k j (lookup_or k m [] ++ x ∷ []) m, append-nil (lookup_or j m []))
    | inl same ↦
        let e : k ≡ j = (==_iff k j).0 same in
        subst
          (λ i.
            lookup_or i (push_at k x m) [] ≡ lookup_or i m [] ++ (if k == i then x ∷ [] else []))
          e (ground (arith, lookup-insert_self k (lookup_or k m [] ++ x ∷ []) m, ==-refl k))
  ]

  filter-cons :
      (p : B → Bool) (xs ys : List B) (x : B)
      → (xs ++ (if p x then x ∷ [] else [])) ++ filter p ys ≡ xs ++ filter p (x ∷ ys)
  filter-cons p xs ys x = elim (Bool-cases (p x)) [
    | inl here ↦ rw here (append_assoc xs (x ∷ []) (filter p ys))
    | inr gone ↦ rw gone (ap (λ zs. zs ++ filter p ys) (append-nil xs))
  ]

waiting_fast :
    (j : ℕ) (xs : List BufferedFastInputFrame) (m : FastInputRelayBuffer)
    → lookup_or j (push_fast_inputs xs m) []
      ≡ lookup_or j m [] ++ filter (λ x. x.frame.frame == j) xs
unfolding push_fast_inputs push_fast_input
waiting_fast j [] m = sym (append-nil (lookup_or j m []))
waiting_fast j (x ∷ xs) m =
    waiting_fast j xs (push_fast_input x m)
    ∙ ap (λ w. w ++ filter (λ y. y.frame.frame == j) xs) (lookup_or-push_at j x.frame.frame x m)
    ∙ filter-cons (λ y. y.frame.frame == j) (lookup_or j m []) xs x

pub waiting :
    (j : ℕ) (xs : List BufferedInputFrame) (m : InputFrameRelayBuffer)
    → lookup_or j (push_inputs xs m) [] ≡ lookup_or j m [] ++ filter (λ x. x.input.frame == j) xs
unfolding push_inputs push_input
waiting j [] m = sym (append-nil (lookup_or j m []))
waiting j (x ∷ xs) m =
    waiting j xs (push_input x m)
    ∙ ap (λ w. w ++ filter (λ y. y.input.frame == j) xs) (lookup_or-push_at j x.input.frame x m)
    ∙ filter-cons (λ y. y.input.frame == j) (lookup_or j m []) xs x

-- Draining a frame of a buffer that started empty gives exactly the records that were pushed for that
-- frame in these epochs, in the order of the pushes; what waits for another frame stays, and the
-- drained frame gives nothing a second time.
pub drain_fast_input_frame-pushed :
    (xs : List BufferedFastInputFrame) (frame room_epoch session_epoch : ℕ)
    → ((drain_fast_input_frame frame room_epoch session_epoch (push_fast_inputs xs [])).1
        ≡ filter
            (is_current_fast_input room_epoch session_epoch)
            (filter (λ x. x.frame.frame == frame) xs))
      × ((other : ℕ)
          → lookup_or other
              (drain_fast_input_frame frame room_epoch session_epoch (push_fast_inputs xs [])).0
              []
            ≡ (if frame == other then [] else filter (λ x. x.frame.frame == other) xs))
unfolding drain_fast_input_frame lookup
drain_fast_input_frame-pushed xs frame room_epoch session_epoch = (
  ap (filter (is_current_fast_input room_epoch session_epoch)) (waiting_fast frame xs []),
  λ other.
      (ground
        (arith, lookup-remove frame other (push_fast_inputs xs []), waiting_fast other xs [])),
)
