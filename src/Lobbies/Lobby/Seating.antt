-- ===== src/Lobbies/Lobby/Seating.antt =====
-- The calls of src/lobbies/lobby.rs that change a seat keep a lobby sound.
use mathlib.Core.Path.{subst}
use sn_netplay_serv.Base.{
  Bool-cases, Option-cases, find, update_first, ok, ℕ, ◌≤◌, ◌≡◌, refl, sym, ◌≢◌, inl, inr, Bool,
  true, false, Option, some, List, arith,
}
use sn_netplay_serv.Base.Chars.{Chars}
use sn_netplay_serv.Base.Maps.{Text}
use sn_netplay_serv.Lobbies.License.{VerifiedLicense}
use sn_netplay_serv.Lobbies.Lobby.{
  Lobby, bump, mark_meaningful_activity, bump_with_activity, close_lobby, has_index, lobby_slot,
  update_slot, is_selected, close_due_to_idle,
}
use sn_netplay_serv.Lobbies.Lobby.Invariant.{IsSound, seated-IsSound}
use sn_netplay_serv.Lobbies.Lobby.Players.{
  join_or_refresh_player, LobbyReconnectRequest, has_token_hash, hash_resume_token,
  reconnect_player, disconnect_lobby_player,
}
use sn_netplay_serv.Lobbies.Lobby.Seats.{
  found-IsSeat, update_first-Seats, map-Seats, occupy-IsSeat, empty-guest, mark_reconnecting-IsSeat,
  close_slot-IsSeat, close-IsSilent, silent-found,
}
use sn_netplay_serv.Lobbies.Lobby.Subjects.{
  HasOneSeatEach, one_seat-refresh, one_seat-join, one_seat-update, seats_of-close,
  seat_of-mark_reconnecting,
}
use sn_netplay_serv.Lobbies.Player.{
  LobbyPlayerSlot, LobbyPlayerOccupancy, occupy, lobby_slot_is_empty, belongs_to, has_connection,
  mark_reconnecting, close_slot,
}
use sn_netplay_serv.Lobbies.Types.{
  closed, guest, lobby_status_code, has_lobby_status, LobbyPlayerRole, is_lobby_host,
  LobbyClientCapabilities,
}
use sn_netplay_serv.Protocol.Ids.{PlayerIndex, ConnectionId}

abbrev pub IsOpen : Lobby → Type 0
IsOpen l = has_lobby_status l.status closed ≡ false

pub open-closed : (l : Lobby) → IsOpen l → l.status ≢ closed
unfolding has_lobby_status lobby_status_code
open-closed l up h = ground arith

-- The lobby after a slot is changed.
abbrev pub reseated :
    (LobbyPlayerSlot → Bool) → (LobbyPlayerSlot → LobbyPlayerSlot) → ℕ → Lobby → Lobby
reseated p f now l = bump_with_activity now record l { players = update_first p f l.players }

claim-IsSound :
    (l : Lobby) (p : LobbyPlayerSlot → Bool) (o : LobbyPlayerOccupancy) (s : LobbyPlayerSlot)
    (now : ℕ)
    → find p l.players ≡ some s
    → is_lobby_host o.role ≡ is_lobby_host s.role
    → HasOneSeatEach (update_first p (occupy o) l.players)
    → IsOpen l
    → IsSound l
    → IsSound (reseated p (occupy o) now l)
unfolding bump_with_activity bump mark_meaningful_activity
claim-IsSound l p o s now found role one up inv =
    seated-IsSound l (reseated p (occupy o) now l)
      (update_first-Seats p (occupy o) 0 l.players s inv.seats found
        (λ j seat. occupy-IsSeat o j s role seat))
      one (λ h. absurd (open-closed l up h)) refl refl refl refl inv

pub join-IsSound :
    (l l' : Lobby) (license : VerifiedLicense) (c : ConnectionId) (name : Option Chars)
    (capabilities : LobbyClientCapabilities) (hash : Text) (now : ℕ) (i : PlayerIndex)
    → join_or_refresh_player l license c name capabilities hash now ≡ ok (l', i)
    → IsSound l
    → IsSound l'
unfolding join_or_refresh_player is_lobby_host belongs_to
join-IsSound l l' license c name capabilities hash now i e inv =
    let claim : LobbyPlayerRole → LobbyPlayerOccupancy = λ role. record {
      role = role;
      license = license;
      connection_id = c;
      display_name = name;
      capabilities = capabilities;
      resume_token_hash = hash;
      now_ms = now;
    } in
    elim (Bool-cases (has_lobby_status l.status closed)) [
      | inl down ↦ absurd (ground arith)
      | inr up ↦ elim (Option-cases (find (belongs_to license) l.players)) [
        | inr (s, found) ↦
            let own = (found-IsSeat (belongs_to license) 0 l.players s inv.seats found).2 in
            let done : reseated (belongs_to license) (occupy (claim s.role)) now l ≡ l' =
              ground arith in
            subst (λ m. IsSound m) done
              (claim-IsSound l (belongs_to license) (claim s.role) s now found refl
                (one_seat-refresh (claim s.role) (belongs_to license) l.players s found own
                  inv.each)
                up inv)
        | inl absent ↦ elim (Option-cases (find lobby_slot_is_empty l.players)) [
          | inl full ↦ absurd (ground arith)
          | inr (s, found) ↦
              let (j, seat, free) =
                found-IsSeat lobby_slot_is_empty 0 l.players s inv.seats found in
              let done : reseated lobby_slot_is_empty (occupy (claim guest)) now l ≡ l' =
                ground arith in
              subst (λ m. IsSound m) done
                (claim-IsSound l lobby_slot_is_empty (claim guest) s now found
                  (sym (empty-guest j s free seat))
                  (one_seat-join (claim guest) lobby_slot_is_empty l.players s found absent
                    inv.each)
                  up inv)
        ]
      ]
    ]

-- What an accepted reconnect has checked, and the lobby it leaves.
pub reconnect-checked :
    (sha256 : List ℕ → List ℕ) (l l' : Lobby) (q : LobbyReconnectRequest) (i : PlayerIndex)
    (s : LobbyPlayerSlot)
    → lobby_slot l q.player_index ≡ some s
    → reconnect_player sha256 l q ≡ ok (l', i)
    → IsOpen l
      × (q.lobby_epoch ≤ l.lobby_epoch)
      × (belongs_to q.license s ≡ true)
      × (has_token_hash (hash_resume_token sha256 q.resume_token) s ≡ true)
      × (i ≡ q.player_index)
      × (reseated
            (has_index q.player_index)
            (occupy record {
              role = s.role;
              license = q.license;
              connection_id = q.connection_id;
              display_name = q.display_name;
              capabilities = q.capabilities;
              resume_token_hash = hash_resume_token sha256 q.resume_token;
              now_ms = q.now_ms;
            })
            q.now_ms
            l
          ≡ l')
unfolding reconnect_player update_slot
reconnect-checked sha256 l l' q i s found e = ground arith

pub reconnect-IsSound :
    (sha256 : List ℕ → List ℕ) (l l' : Lobby) (q : LobbyReconnectRequest) (i : PlayerIndex)
    → reconnect_player sha256 l q ≡ ok (l', i)
    → IsSound l
    → IsSound l'
unfolding reconnect_player lobby_slot
reconnect-IsSound sha256 l l' q i e inv =
    elim (Option-cases (find (has_index q.player_index) l.players)) [
      | inl gone ↦ absurd (ground arith)
      | inr (s, found) ↦
          let (up, _, own, _, _, done) = reconnect-checked sha256 l l' q i s found e in
          let claim : LobbyPlayerOccupancy = record {
            role = s.role;
            license = q.license;
            connection_id = q.connection_id;
            display_name = q.display_name;
            capabilities = q.capabilities;
            resume_token_hash = hash_resume_token sha256 q.resume_token;
            now_ms = q.now_ms;
          } in
          subst (λ m. IsSound m) done
            (claim-IsSound l (has_index q.player_index) claim s q.now_ms found refl
              (one_seat-refresh claim (has_index q.player_index) l.players s found own inv.each) up
              inv)
    ]

pub disconnect-IsSound :
    (l : Lobby) (c : ConnectionId) (now : ℕ)
    → IsSound l
    → IsSound (disconnect_lobby_player l c now).0
unfolding disconnect_lobby_player bump
disconnect-IsSound l c now inv = elim (Option-cases (find (has_connection c) l.players)) [
  | inl none_found ↦ rw (none_found, disconnect_lobby_player) inv
  | inr (s, found) ↦
      let (_, _, here) = found-IsSeat (has_connection c) 0 l.players s inv.seats found in
      let f = mark_reconnecting now in
      rw (found, disconnect_lobby_player)
        (seated-IsSound l
          (bump now record l { players = update_first (has_connection c) f l.players })
          (update_first-Seats (has_connection c) f 0 l.players s inv.seats found
            (λ j seat. mark_reconnecting-IsSeat c now j s here seat))
          (one_seat-update (has_connection c) f l.players s found
            (λ key. seat_of-mark_reconnecting key now s) inv.each)
          (λ h. absurd (silent-found c l.players s (inv.still h).0 found)) refl refl refl refl inv)
]

pub close-IsSound : (now : ℕ) (l : Lobby) → IsSound l → IsSound (close_lobby now l)
unfolding close_lobby bump is_selected
close-IsSound now l inv = record {
  seats = map-Seats (close_slot now) 0 l.players (λ j s. close_slot-IsSeat now j s) inv.seats;
  each = λ key. omega (arith, seats_of-close key now l.players, inv.each key);
  staged = inl refl;
  still = λ h. (close-IsSilent now 0 l.players inv.seats, refl);
  launched = λ v h. absurd (cc);
  current = inv.current;
}

pub idle-IsSound : (l : Lobby) (now : ℕ) → IsSound l → IsSound (close_due_to_idle l now).0
unfolding close_due_to_idle
idle-IsSound l now inv = elim (Bool-cases (has_lobby_status l.status closed)) [
  | inl down ↦ rw down inv
  | inr up ↦ rw up (close-IsSound now l inv)
]
