-- ===== src/Rooms/Room/StrictInput/Stream.antt =====
-- The strict lane of src/rooms/room_strict_input_ops.rs over a whole sequence of batches,
-- against a sender's inputs by frame.
use sn_netplay_serv.Base.{
  ◌==◌, if◌then◌else◌, ==_iff, Bool-cases, length, drop, All, length-drop, Result-cases, ok, err, ℕ,
  zero, suc, ◌+◌, ◌-◌, ◌≤◌, ◌<◌, ◌≡◌, refl, ap, ◌∙◌, ◌≢◌, inl, inr, true, none, some, List, [], ◌∷◌,
  ◌++◌, arith,
}
use sn_netplay_serv.Protocol.Ids.{PlayerIndex, ConnectionId}
use sn_netplay_serv.Protocol.StrictInput.Batch.{StrictInputBatch}
use sn_netplay_serv.Rooms.Room.{NetplayRoom, next_input_frame}
use sn_netplay_serv.Rooms.Room.StrictInput.{StrictInputBatchOutcome, accept_strict_input_batch}
use sn_netplay_serv.Rooms.Room.StrictInput.Laws.{Took, accept_strict_input_batch-Took, kept, took}

-- A sender's inputs by frame: `n` of them from `start` on.
unfoldable pub segment : (ℕ → List ℕ) → ℕ → ℕ → List (List ℕ)
segment f start zero = []
segment f start (suc n) = f start ∷ segment f (start + 1) n

length-segment : (f : ℕ → List ℕ) (start n : ℕ) → length (segment f start n) ≡ n
unfolding segment
length-segment f start zero = refl
length-segment f start (suc n) = ap suc (length-segment f (start + 1) n)

segment-append :
    (f : ℕ → List ℕ) (m n s t : ℕ)
    → s + m ≡ t
    → segment f s m ++ segment f t n ≡ segment f s (m + n)
unfolding segment
segment-append f zero n s t e =
    let e' : s ≡ t = omega arith in let z : 0 + n ≡ n = omega arith in rw (e', z) refl
segment-append f (suc m) n s t e =
    let z : suc m + n ≡ suc (m + n) = omega arith in
    rw z (ap (◌∷◌ (f s)) (segment-append f m n (s + 1) t (omega arith)))

drop-segment :
    (f : ℕ → List ℕ) (k n s t : ℕ) → s + k ≡ t → drop k (segment f s n) ≡ segment f t (n - k)
unfolding segment
drop-segment f zero n s t e =
    let e' : s ≡ t = omega arith in let z : n - 0 ≡ n = omega arith in rw (e', z) refl
drop-segment f (suc k) zero s t e = let z : 0 - suc k ≡ 0 = omega arith in rw z refl
drop-segment f (suc k) (suc n) s t e =
    let z : suc n - suc k ≡ n - k = omega arith in rw z (drop-segment f k n (s + 1) t (omega arith))

-- The payloads of player `i` that one outcome relays.
unfoldable pub relayed : PlayerIndex → StrictInputBatchOutcome → List (List ℕ)
relayed i o = elim o.accepted_batch [
  | none ↦ []
  | some a ↦ if a.player_index == i then a.payloads else []
]

-- Batches in the order of their arrival; one that fails changes nothing and relays nothing.
unfoldable pub deliver :
    PlayerIndex → NetplayRoom → List (ConnectionId × StrictInputBatch) → NetplayRoom × List (List ℕ)
deliver i r [] = (r, [])
deliver i r ((c, b) ∷ bs) = elim (accept_strict_input_batch r c b) [
  | err e ↦ deliver i r bs
  | ok (r', o) ↦ let (final, log) = deliver i r' bs in (final, relayed i o ++ log)
]

-- A batch of player `i` carries that player's inputs for its frames.
abbrev pub IsHonest : PlayerIndex → (ℕ → List ℕ) → ConnectionId × StrictInputBatch → Type 0
IsHonest i f (c, b) =
    (0 < length b.payloads)
    × (b.player_index ≡ i → b.payloads ≡ segment f b.start_frame (length b.payloads))

-- What has been relayed between two rooms is the sender's input between their cursors.
abbrev pub Carries : PlayerIndex → (ℕ → List ℕ) → NetplayRoom → NetplayRoom × List (List ℕ) → Type 0
Carries i f r (r', log) =
    (next_input_frame r i ≤ next_input_frame r' i)
    × (log ≡ segment f (next_input_frame r i) (next_input_frame r' i - next_input_frame r i))

Carries-refl : (i : PlayerIndex) (f : ℕ → List ℕ) (r : NetplayRoom) → Carries i f r (r, [])
unfolding segment
Carries-refl i f r =
    let z : next_input_frame r i - next_input_frame r i ≡ 0 = omega arith in
    (omega arith, rw z refl)

Carries-trans :
    (i : PlayerIndex) (f : ℕ → List ℕ) (r s t : NetplayRoom) (l m : List (List ℕ))
    → Carries i f r (s, l)
    → Carries i f s (t, m)
    → Carries i f r (t, l ++ m)
Carries-trans i f r s t l m h k =
    let a = next_input_frame r i in
    let b = next_input_frame s i in
    let c = next_input_frame t i in
    let e : b - a + (c - b) ≡ c - a = omega (arith, h.0, k.0) in
    (
      omega (arith, h.0, k.0),
      rw (h.1, k.1) (rw e at (segment-append f (b - a) (c - b) a b (omega (arith, h.0)))),
    )

took-own :
    (i : PlayerIndex) (f : ℕ → List ℕ) (r : NetplayRoom) (b : StrictInputBatch) (r' : NetplayRoom)
    (a : StrictInputBatch) (c : ConnectionId)
    → IsHonest i f (c, b)
    → (b.player_index == i) ≡ true
    → b.start_frame ≤ next_input_frame r b.player_index
    → a ≡ record b {
      start_frame = next_input_frame r b.player_index;
      payloads = drop (next_input_frame r b.player_index - b.start_frame) b.payloads;
    }
    → 0 < length a.payloads
    → next_input_frame r' b.player_index ≡ b.start_frame + length b.payloads
    → (next_input_frame r i ≤ next_input_frame r' i)
      × ((if a.player_index == i then a.payloads else [])
          ≡ segment f (next_input_frame r i) (next_input_frame r' i - next_input_frame r i))
took-own i f r b r' a c honest mine le shape some_new own =
    let q : b.player_index ≡ i = (==_iff b.player_index i).0 mine in
    let owner : (a.player_index == i) ≡ true = rw shape mine in
    let k = next_input_frame r i - b.start_frame in
    let le' : b.start_frame ≤ next_input_frame r i = rw q at le in
    let own' : next_input_frame r' i ≡ b.start_frame + length b.payloads = rw q at own in
    let pay : a.payloads ≡ drop k b.payloads = rw (shape, q) refl in
    let len : 0 < length (drop k b.payloads) = rw pay at some_new in
    let bound : next_input_frame r i < b.start_frame + length b.payloads =
      omega (arith, len, length-drop k b.payloads, le') in
    let cut : drop k b.payloads ≡ segment f (next_input_frame r i) (length b.payloads - k) =
      let seg : b.payloads ≡ segment f b.start_frame (length b.payloads) = honest.1 q in
      ap (drop k) seg
      ∙ drop-segment f k (length b.payloads) b.start_frame (next_input_frame r i)
          (omega (arith, le')) in
    let n : next_input_frame r' i - next_input_frame r i ≡ length b.payloads - k =
      omega (arith, own', le') in
    (omega (arith, own', bound), rw (owner, pay, n) cut)

Took-Carries :
    (i : PlayerIndex) (f : ℕ → List ℕ) (r : NetplayRoom) (c : ConnectionId) (b : StrictInputBatch)
    (r' : NetplayRoom) (o : StrictInputBatchOutcome)
    → IsHonest i f (c, b)
    → Took r b r' o
    → Carries i f r (r', relayed i o)
unfolding relayed segment
Took-Carries i f r c b r' o honest (kept same nothing) = rw (same, nothing) (Carries-refl i f r)
Took-Carries i f r c b r' o honest (took a e le shape some_new bound fits adv) =
    elim (Bool-cases (b.player_index == i)) [
      | inr other ↦
          let ne : b.player_index ≢ i =
            λ q. let t : (b.player_index == i) ≡ true = (==_iff b.player_index i).1 q in cc in
          let same : next_input_frame r' i ≡ next_input_frame r i = adv.others i ne in
          let owner : a.player_index ≡ b.player_index = rw shape refl in
          rw (e, owner, other)
            (let z : next_input_frame r' i - next_input_frame r i ≡ 0 = omega (arith, same) in
              (omega (arith, same), rw z refl))
      | inl mine ↦ rw e (took-own i f r b r' a c honest mine le shape some_new adv.own)
    ]

-- The room and the log after a sequence of batches: player `i`'s cursor has not moved back, and the
-- relayed payloads of that player are exactly its inputs for the frames between the two cursors, in
-- order, once each, when every batch has a payload and those of the player carry its inputs for
-- their frames. It does not matter which batches are resent, overlap, come early or fail.
pub deliver-Carries :
    (i : PlayerIndex) (f : ℕ → List ℕ) (r : NetplayRoom)
    (bs : List (ConnectionId × StrictInputBatch))
    → All (IsHonest i f) bs
    → Carries i f r (deliver i r bs)
unfolding deliver
deliver-Carries i f r [] h = Carries-refl i f r
deliver-Carries i f r ((c, b) ∷ bs) (h, hs) =
    elim (Result-cases (accept_strict_input_batch r c b)) [
      | inl (e, failed) ↦ rw (failed, deliver) (deliver-Carries i f r bs hs)
      | inr ((r', o), done) ↦
          rw (done, deliver)
            (Carries-trans i f r r' (deliver i r' bs).0 (relayed i o) (deliver i r' bs).1
              (Took-Carries i f r c b r' o h (accept_strict_input_batch-Took r c b r' o h.0 done))
              (deliver-Carries i f r' bs hs))
    ]
