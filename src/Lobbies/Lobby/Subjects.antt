-- ===== src/Lobbies/Lobby/Subjects.antt =====
-- How many seats of a lobby (src/lobbies/lobby.rs) one subject holds.
-- One if the slot is the subject's, else none.
use mathlib.Core.Path.{subst}
use sn_netplay_serv.Base.{
  if◌then◌else◌, Bool-cases, find, update_first, ℕ, ◌+◌, ◌≤◌, ◌≡◌, refl, sym, inl, inr, Bool, true,
  none, some, List, [], ◌∷◌, map, arith,
}
use sn_netplay_serv.Base.Bytes.{bytes_eq, bytes_eq_to}
use sn_netplay_serv.Base.Chars.{Chars}
use sn_netplay_serv.Lobbies.License.{identity_key}
use sn_netplay_serv.Lobbies.Player.{
  LobbyPlayerSlot, LobbyPlayerOccupancy, empty_lobby_slot, occupy, has_subject, belongs_to,
  mark_reconnecting, close_slot,
}
use sn_netplay_serv.Protocol.Ids.{PlayerIndex}

unfoldable pub seat_of : Chars → LobbyPlayerSlot → ℕ
unfolding has_subject
seat_of key s = if has_subject key s then 1 else 0

unfoldable pub seats_of : Chars → List LobbyPlayerSlot → ℕ
unfolding seat_of
seats_of key [] = 0
seats_of key (s ∷ more) = seat_of key s + seats_of key more

-- No subject holds two seats.
abbrev pub HasOneSeatEach : List LobbyPlayerSlot → Type 0
HasOneSeatEach xs = (key : Chars) → seats_of key xs ≤ 1

-- Changing one slot changes the count by that slot.
pub seats_of-update_first :
    (key : Chars) (p : LobbyPlayerSlot → Bool) (f : LobbyPlayerSlot → LobbyPlayerSlot)
    (xs : List LobbyPlayerSlot) (s : LobbyPlayerSlot)
    → find p xs ≡ some s
    → seats_of key (update_first p f xs) + seat_of key s ≡ seats_of key xs + seat_of key (f s)
unfolding seats_of
seats_of-update_first key p f [] s found = absurd (cc)
seats_of-update_first key p f (x ∷ xs) s found = elim (Bool-cases (p x)) [
  | inl hit ↦
      let e : x ≡ s = ground arith in
      rw hit (
        subst
          (λ y.
            (seat_of key (f y) + seats_of key xs) + seat_of key s
            ≡ (seat_of key y + seats_of key xs) + seat_of key (f s))
          (sym e) (omega arith))
  | inr miss ↦
      let found' : find p xs ≡ some s = ground arith in
      rw miss (omega (arith, seats_of-update_first key p f xs s found'))
]

-- A subject that `find` does not find holds no seat.
pub seats_of-absent :
    (key : Chars) (xs : List LobbyPlayerSlot)
    → find (has_subject key) xs ≡ none
    → seats_of key xs ≡ 0
unfolding seats_of seat_of
seats_of-absent key [] h = refl
seats_of-absent key (x ∷ xs) h = elim (Bool-cases (has_subject key x)) [
  | inl hit ↦ absurd (ground arith)
  | inr miss ↦ rw miss (omega (arith, seats_of-absent key xs (ground arith)))
]

-- The claimant of a slot is its subject, and nobody else.
pub seat_of-occupy :
    (key : Chars) (o : LobbyPlayerOccupancy) (s : LobbyPlayerSlot)
    → seat_of key (occupy o s) ≡ (if bytes_eq (identity_key o.license) key then 1 else 0)
unfolding seat_of occupy has_subject
seat_of-occupy key o s = refl

own_seat : (key : Chars) (s : LobbyPlayerSlot) → has_subject key s ≡ true → seat_of key s ≡ 1
unfolding seat_of
own_seat key s own = rw own refl

-- A claim of one's own seat changes no count.
pub one_seat-refresh :
    (o : LobbyPlayerOccupancy) (p : LobbyPlayerSlot → Bool) (xs : List LobbyPlayerSlot)
    (s : LobbyPlayerSlot)
    → find p xs ≡ some s
    → belongs_to o.license s ≡ true
    → HasOneSeatEach xs
    → HasOneSeatEach (update_first p (occupy o) xs)
unfolding belongs_to
one_seat-refresh o p xs s found own inv key =
    let count = seats_of-update_first key p (occupy o) xs s found in
    let claimed = seat_of-occupy key o s in
    elim (Bool-cases (bytes_eq (identity_key o.license) key)) [
      | inr other ↦
          let gone : seat_of key (occupy o s) ≡ 0 = rw other at claimed in
          omega (arith, count, gone, inv key)
      | inl same ↦
          let e = bytes_eq_to (identity_key o.license) key same in
          let held : seat_of key s ≡ 1 = rw e at (own_seat (identity_key o.license) s own) in
          let holds : seat_of key (occupy o s) ≡ 1 = rw same at claimed in
          omega (arith, count, holds, held, inv key)
    ]

-- A claim of a free seat by a subject who holds none.
pub one_seat-join :
    (o : LobbyPlayerOccupancy) (p : LobbyPlayerSlot → Bool) (xs : List LobbyPlayerSlot)
    (s : LobbyPlayerSlot)
    → find p xs ≡ some s
    → find (has_subject (identity_key o.license)) xs ≡ none
    → HasOneSeatEach xs
    → HasOneSeatEach (update_first p (occupy o) xs)
one_seat-join o p xs s found absent inv key =
    let count = seats_of-update_first key p (occupy o) xs s found in
    let claimed = seat_of-occupy key o s in
    elim (Bool-cases (bytes_eq (identity_key o.license) key)) [
      | inr other ↦
          let gone : seat_of key (occupy o s) ≡ 0 = rw other at claimed in
          omega (arith, count, gone, inv key)
      | inl same ↦
          let e = bytes_eq_to (identity_key o.license) key same in
          let zero_held : seats_of key xs ≡ 0 =
            rw e at (seats_of-absent (identity_key o.license) xs absent) in
          let holds : seat_of key (occupy o s) ≡ 1 = rw same at claimed in
          omega (arith, count, holds, zero_held)
    ]

-- A change that takes no seat away from one subject to give it to another.
pub one_seat-update :
    (p : LobbyPlayerSlot → Bool) (f : LobbyPlayerSlot → LobbyPlayerSlot) (xs : List LobbyPlayerSlot)
    (s : LobbyPlayerSlot)
    → find p xs ≡ some s
    → ((key : Chars) → seat_of key (f s) ≤ seat_of key s)
    → HasOneSeatEach xs
    → HasOneSeatEach (update_first p f xs)
one_seat-update p f xs s found less inv key =
    omega (arith, seats_of-update_first key p f xs s found, less key, inv key)

pub seats_of-close :
    (key : Chars) (now : ℕ) (xs : List LobbyPlayerSlot)
    → seats_of key (map (close_slot now) xs) ≡ seats_of key xs
unfolding seats_of seat_of has_subject close_slot
seats_of-close key now [] = refl
seats_of-close key now (x ∷ xs) = ground (arith, seats_of-close key now xs)

pub seat_of-mark_reconnecting :
    (key : Chars) (now : ℕ) (s : LobbyPlayerSlot)
    → seat_of key (mark_reconnecting now s) ≤ seat_of key s
unfolding seat_of has_subject mark_reconnecting
seat_of-mark_reconnecting key now s = omega arith

pub seat_of-empty :
    (key : Chars) (i : PlayerIndex) (s : LobbyPlayerSlot)
    → seat_of key (empty_lobby_slot i) ≤ seat_of key s
unfolding seat_of has_subject empty_lobby_slot
seat_of-empty key i s = omega arith
