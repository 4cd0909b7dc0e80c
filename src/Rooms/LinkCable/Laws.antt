-- ===== src/Rooms/LinkCable/Laws.antt =====
-- The order of link-cable packets (src/rooms/link_cable_room_state.rs).
-- A packet with the player index that its connection owns.
use mathlib.Core.Path.{subst}
use sn_netplay_serv.Base.{
  ◌==◌, if◌then◌else◌, ==_iff, Bool-cases, length, is_empty, Result-cases, ok, err, ℕ, ◌≤◌, ◌<◌,
  ◌≡◌, refl, ap, ◌∙◌, inl, inr, false, Option, none, some, List, [], ◌∷◌, arith,
}
use sn_netplay_serv.Base.Maps.{lookup, insert, lookup-insert}
use sn_netplay_serv.Protocol.Ids.{PlayerIndex}
use sn_netplay_serv.Rooms.LinkCable.{
  LinkCablePacket, LinkCablePacketLimits, validate_link_packet, LinkCableRoomState, is_old_sequence,
  accept_packet,
}

abbrev pub Sent : Type 0
Sent = List (PlayerIndex × LinkCablePacket)

-- The packets that are accepted one after the other.
unfoldable pub accept_packets :
    LinkCablePacketLimits → LinkCableRoomState → Sent → List LinkCablePacket
accept_packets limits s [] = []
accept_packets limits s ((owned, packet) ∷ more) = elim (accept_packet s owned packet limits) [
  | err e ↦ accept_packets limits s more
  | ok s' ↦ packet ∷ accept_packets limits s' more
]

-- The sequence numbers of a player's packets.
unfoldable pub sequences_of : PlayerIndex → List LinkCablePacket → List ℕ
sequences_of i [] = []
sequences_of i (p ∷ more) =
    let rest = sequences_of i more in if p.player_index == i then p.sequence ∷ rest else rest

-- The numbers rise, the first above the bound.
abbrev pub Rises : Option ℕ → List ℕ → Type 0
Rises bound [] = Unit
Rises none (n ∷ more) = Rises (some n) more
Rises (some m) (n ∷ more) = (m < n) × Rises (some n) more

Rises-from :
    (bound : Option ℕ) (n : ℕ) (more : List ℕ)
    → ((m : ℕ) → bound ≡ some m → m < n)
    → Rises (some n) more
    → Rises bound (n ∷ more)
Rises-from none n more above rest = rest
Rises-from (some m) n more above rest = (above m refl, rest)

-- What an accepted packet has passed.
pub accept_packet-checked :
    (s s' : LinkCableRoomState) (owned : PlayerIndex) (p : LinkCablePacket)
    (limits : LinkCablePacketLimits)
    → accept_packet s owned p limits ≡ ok s'
    → (owned ≡ p.player_index)
      × (0 < length p.payload)
      × (length p.payload ≤ limits.max_payload_bytes)
      × (is_old_sequence s p ≡ false)
      × (s'.last_sequences ≡ insert p.player_index p.sequence s.last_sequences)
unfolding accept_packet validate_link_packet
accept_packet-checked s s' owned p limits e = elim (Bool-cases (is_empty p.payload)) [
  | inl nothing ↦ absurd (ground arith)
  | inr full ↦
      (ground arith, nonempty-length p.payload full, ground arith, ground arith, ground arith)
]
  where
    nonempty-length : (xs : List ℕ) → is_empty xs ≡ false → 0 < length xs
    nonempty-length [] h = absurd (cc)
    nonempty-length (x ∷ xs) h = omega arith

fresh-above :
    (s : LinkCableRoomState) (p : LinkCablePacket) (m : ℕ)
    → is_old_sequence s p ≡ false
    → lookup p.player_index s.last_sequences ≡ some m
    → m < p.sequence
unfolding is_old_sequence
fresh-above s p m fresh h = ground arith

-- However many packets are sent to a link-cable room, and by whom, the sequence numbers of the
-- packets that are accepted rise strictly for each player, from above the last one before them.
pub accept_packets-Rises :
    (limits : LinkCablePacketLimits) (s : LinkCableRoomState) (sent : Sent) (i : PlayerIndex)
    → Rises (lookup i s.last_sequences) (sequences_of i (accept_packets limits s sent))
unfolding accept_packets sequences_of
accept_packets-Rises limits s [] i = tt
accept_packets-Rises limits s ((owned, p) ∷ sent) i =
    elim (Result-cases (accept_packet s owned p limits)) [
      | inl (x, refused) ↦ rw (refused, accept_packets) (accept_packets-Rises limits s sent i)
      | inr (s', accepted) ↦
          let (_, _, _, fresh, last) = accept_packet-checked s s' owned p limits accepted in
          let rest = accept_packets-Rises limits s' sent i in
          elim (Bool-cases (p.player_index == i)) [
            | inr other ↦
                let same : lookup i s'.last_sequences ≡ lookup i s.last_sequences =
                  ap (lookup i) last
                  ∙ (rw other at (lookup-insert p.player_index i p.sequence s.last_sequences)) in
                rw (accepted, accept_packets, other)
                  (subst (λ b. Rises b (sequences_of i (accept_packets limits s' sent))) same rest)
            | inl own ↦
                let now : lookup i s'.last_sequences ≡ some p.sequence =
                  ap (lookup i) last
                  ∙ (rw own at (lookup-insert p.player_index i p.sequence s.last_sequences)) in
                rw (accepted, accept_packets, own)
                  (Rises-from (lookup i s.last_sequences) p.sequence
                    (sequences_of i (accept_packets limits s' sent))
                    (λ m h.
                      fresh-above s p m fresh
                        (ap (λ k. lookup k s.last_sequences) ((==_iff p.player_index i).0 own) ∙ h))
                    (subst (λ b. Rises b (sequences_of i (accept_packets limits s' sent))) now
                      rest))
          ]
    ]
