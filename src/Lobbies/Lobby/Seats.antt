-- ===== src/Lobbies/Lobby/Seats.antt =====
-- The seats of a lobby (src/lobbies/lobby.rs): four, in order, the first the host's; and how many of
-- them a subject holds.
-- The slot `s` is a sound seat number `i`.
use mathlib.Core.Path.{subst}
use sn_netplay_serv.Base.{
  ◌==◌, Bool-cases, find, update_first, All, is_some, ℕ, suc, ◌≤◌, ◌≡◌, refl, sym, ◌∙◌, ◌≢◌, inl,
  inr, Bool, true, false, not, none, some, List, [], ◌∷◌, map, arith,
}
use sn_netplay_serv.Lobbies.Lobby.{max_lobby_players, has_index}
use sn_netplay_serv.Lobbies.Player.{
  LobbyPlayerSlot, LobbyPlayerOccupancy, empty_lobby_slot, occupy, lobby_slot_is_empty,
  has_connection, mark_reconnecting, close_slot,
}
use sn_netplay_serv.Lobbies.Types.{is_lobby_host, is_empty_status}
use sn_netplay_serv.Protocol.Ids.{ConnectionId}
use sn_netplay_serv.Rooms.Slot.{holds}

pub record IsSeat (i : ℕ) (s : LobbyPlayerSlot) : Type 0 where
  pub placed : s.player_index ≡ i
  pub hosted : is_lobby_host s.role ≡ (i == 0)
  pub vacant : lobby_slot_is_empty s ≡ not (is_some s.subject_key)
  pub silent : is_some s.subject_key ≡ false → s.connection_id ≡ none
  pub taken : i ≡ 0 → is_some s.subject_key ≡ true

-- The slots are the seats from number `i` up to the last.
unfoldable pub Seats : ℕ → List LobbyPlayerSlot → Type 0
Seats i [] = i ≡ max_lobby_players
Seats i (s ∷ more) = IsSeat i s × Seats (suc i) more

-- A slot that `find` returns is a seat and passes the test.
pub found-IsSeat :
    (p : LobbyPlayerSlot → Bool) (i : ℕ) (xs : List LobbyPlayerSlot) (s : LobbyPlayerSlot)
    → Seats i xs
    → find p xs ≡ some s
    → (j : ℕ) × IsSeat j s × (p s ≡ true)
unfolding Seats
found-IsSeat p i [] s h found = absurd (cc)
found-IsSeat p i (x ∷ xs) s (seat, rest) found = elim (Bool-cases (p x)) [
  | inl hit ↦
      let e : x ≡ s = ground arith in
      (i, subst (λ y. IsSeat i y) e seat, subst (λ y. p y ≡ true) e hit)
  | inr miss ↦ found-IsSeat p (suc i) xs s rest (ground arith)
]

-- Changing the slot that is found keeps the seats, if the change keeps that seat.
pub update_first-Seats :
    (p : LobbyPlayerSlot → Bool) (f : LobbyPlayerSlot → LobbyPlayerSlot) (i : ℕ)
    (xs : List LobbyPlayerSlot) (s : LobbyPlayerSlot)
    → Seats i xs
    → find p xs ≡ some s
    → ((j : ℕ) → IsSeat j s → IsSeat j (f s))
    → Seats i (update_first p f xs)
unfolding Seats
update_first-Seats p f i [] s h found keeps = absurd (cc)
update_first-Seats p f i (x ∷ xs) s (seat, rest) found keeps = elim (Bool-cases (p x)) [
  | inl hit ↦
      let e : x ≡ s = ground arith in
      rw hit (subst (λ y. IsSeat i (f y)) (sym e) (keeps i (subst (λ y. IsSeat i y) e seat)), rest)
  | inr miss ↦ rw miss (seat, update_first-Seats p f (suc i) xs s rest (ground arith) keeps)
]

-- A change of every slot.
pub map-Seats :
    (f : LobbyPlayerSlot → LobbyPlayerSlot) (i : ℕ) (xs : List LobbyPlayerSlot)
    → ((j : ℕ) (s : LobbyPlayerSlot) → IsSeat j s → IsSeat j (f s))
    → Seats i xs
    → Seats i (map f xs)
unfolding Seats
map-Seats f i [] keeps h = h
map-Seats f i (x ∷ xs) keeps (seat, rest) = (keeps i x seat, map-Seats f (suc i) xs keeps rest)

-- A claim keeps a seat, in the role that belongs to it.
pub occupy-IsSeat :
    (o : LobbyPlayerOccupancy) (j : ℕ) (s : LobbyPlayerSlot)
    → is_lobby_host o.role ≡ is_lobby_host s.role
    → IsSeat j s
    → IsSeat j (occupy o s)
unfolding occupy lobby_slot_is_empty is_empty_status
occupy-IsSeat o j s role seat = record {
  placed = seat.placed;
  hosted = role ∙ seat.hosted;
  vacant = refl;
  silent = λ h. absurd (cc);
  taken = λ h. refl;
}

-- A seat whose slot is empty is a guest's.
pub empty-guest :
    (j : ℕ) (s : LobbyPlayerSlot)
    → lobby_slot_is_empty s ≡ true
    → IsSeat j s
    → is_lobby_host s.role ≡ false
empty-guest j s free seat = ground (arith, seat.hosted, seat.vacant, seat.taken)

-- A guest's seat may be emptied.
pub empty-IsSeat :
    (j : ℕ) (s : LobbyPlayerSlot)
    → is_lobby_host s.role ≡ false
    → IsSeat j s
    → IsSeat j (empty_lobby_slot s.player_index)
unfolding empty_lobby_slot lobby_slot_is_empty is_empty_status is_lobby_host
empty-IsSeat j s role seat = record {
  placed = seat.placed;
  hosted = sym role ∙ seat.hosted;
  vacant = refl;
  silent = λ h. refl;
  taken = λ h. absurd (ground (arith, seat.hosted));
}

pub mark_reconnecting-IsSeat :
    (c : ConnectionId) (now j : ℕ) (s : LobbyPlayerSlot)
    → has_connection c s ≡ true
    → IsSeat j s
    → IsSeat j (mark_reconnecting now s)
unfolding mark_reconnecting lobby_slot_is_empty is_empty_status has_connection holds
mark_reconnecting-IsSeat c now j s here seat = record {
  placed = seat.placed;
  hosted = seat.hosted;
  vacant = ground (arith, seat.silent);
  silent = λ h. refl;
  taken = seat.taken;
}

pub close_slot-IsSeat : (now j : ℕ) (s : LobbyPlayerSlot) → IsSeat j s → IsSeat j (close_slot now s)
unfolding close_slot lobby_slot_is_empty is_empty_status
close_slot-IsSeat now j s seat = elim (Bool-cases (is_some s.subject_key)) [
  | inr free ↦ rw free seat
  | inl used ↦ rw used record {
    placed = seat.placed;
    hosted = seat.hosted;
    vacant = rw used refl;
    silent = λ h. refl;
    taken = seat.taken;
  }
]

-- No slot has a connection.
abbrev pub IsSilent : List LobbyPlayerSlot → Type 0
IsSilent xs = All (λ (s : LobbyPlayerSlot). s.connection_id ≡ none) xs

pub close-IsSilent :
    (now i : ℕ) (xs : List LobbyPlayerSlot) → Seats i xs → IsSilent (map (close_slot now) xs)
unfolding Seats close_slot
close-IsSilent now i [] h = tt
close-IsSilent now i (x ∷ xs) (seat, rest) =
    (ground (arith, seat.silent), close-IsSilent now (suc i) xs rest)

-- Where no slot has a connection, none is found by one.
pub silent-unknown :
    (c : ConnectionId) (xs : List LobbyPlayerSlot) → IsSilent xs → find (has_connection c) xs ≡ none
unfolding has_connection holds
silent-unknown c [] h = refl
silent-unknown c (x ∷ xs) (e, rest) = rw e (silent-unknown c xs rest)

pub silent-found :
    (c : ConnectionId) (xs : List LobbyPlayerSlot) (s : LobbyPlayerSlot)
    → IsSilent xs
    → find (has_connection c) xs ≢ some s
silent-found c xs s quiet found = ground (arith, silent-unknown c xs quiet)

-- A slot that is found is the one that its index finds.
pub found-by_index :
    (p : LobbyPlayerSlot → Bool) (i : ℕ) (xs : List LobbyPlayerSlot) (s : LobbyPlayerSlot)
    → Seats i xs
    → find p xs ≡ some s
    → (i ≤ s.player_index) × (find (has_index s.player_index) xs ≡ some s)
unfolding Seats has_index
found-by_index p i [] s h found = absurd (cc)
found-by_index p i (x ∷ xs) s (seat, rest) found = elim (Bool-cases (p x)) [
  | inl hit ↦
      let e : x ≡ s = ground arith in
      let at : s.player_index ≡ i = subst (λ y. y.player_index ≡ i) e seat.placed in
      let here : (x.player_index == s.player_index) ≡ true = ground (arith, seat.placed) in
      (omega (arith, at), ground arith)
  | inr miss ↦
      let (above, there) = found-by_index p (suc i) xs s rest (ground arith) in
      let other : (x.player_index == s.player_index) ≡ false = ground (arith, seat.placed, above) in
      (omega (arith, above), ground arith)
]
