-- ===== src/Lobbies/Lobby/RelayLaws.antt =====
-- The two looks at a transfer of src/lobbies/lobby_rom_relay.rs.
-- Who asks a sound lobby has the connection that was named.
use mathlib.Core.Path.{subst}
use sn_netplay_serv.Base.{
  ==-refl, Option-cases, find, Result-cases, ok, ℕ, ◌≤◌, ◌≡◌, sym, ap, ◌∙◌, inl, inr, true, some,
  arith,
}
use sn_netplay_serv.Lobbies.Game.{ProposalId, LobbyGameSelectionView}
use sn_netplay_serv.Lobbies.Lobby.{
  player_index_for_connection, Lobby, has_index, lobby_slot, require_player, require_host,
  is_selected, require_selected_proposal,
}
use sn_netplay_serv.Lobbies.Lobby.Invariant.{IsSound}
use sn_netplay_serv.Lobbies.Lobby.Launching.{is_sha256_text}
use sn_netplay_serv.Lobbies.Lobby.Relay.{
  LobbyRomRelayTransferIntent, relays_rom, proposed_game, require_transfer_pair,
  prepare_rom_relay_transfer, require_transfer_current, require_rom_relay_transfer_current,
}
use sn_netplay_serv.Lobbies.Lobby.Seats.{found-IsSeat, found-by_index}
use sn_netplay_serv.Lobbies.Player.{LobbyPlayerSlot, has_connection}
use sn_netplay_serv.Lobbies.Types.{is_lobby_host}
use sn_netplay_serv.Protocol.Ids.{PlayerIndex, ConnectionId}
use sn_netplay_serv.Rooms.Slot.{holds}

require_player-connection :
    (l : Lobby) (c : ConnectionId) (s : LobbyPlayerSlot)
    → IsSound l
    → require_player l c ≡ ok s
    → (has_connection c s ≡ true) × (lobby_slot l s.player_index ≡ some s)
unfolding require_player player_index_for_connection lobby_slot
require_player-connection l c s inv e = elim (Option-cases (find (has_connection c) l.players)) [
  | inl unseen ↦ absurd (ground arith)
  | inr (t, found) ↦
      let (_, _, here) = found-IsSeat (has_connection c) 0 l.players t inv.seats found in
      let (_, at) = found-by_index (has_connection c) 0 l.players t inv.seats found in
      let same : t ≡ s = ground arith in
      (
        subst (λ u. has_connection c u ≡ true) same here,
        subst (λ u. find (has_index u.player_index) l.players ≡ some u) same at,
      )
]

held-connection :
    (c : ConnectionId) (s : LobbyPlayerSlot) → has_connection c s ≡ true → s.connection_id ≡ some c
unfolding has_connection holds
held-connection c s h = ground arith

transfer-current :
    (l : Lobby) (p : ProposalId) (s t : LobbyPlayerSlot) (a b : PlayerIndex) (c d : ConnectionId)
    → lobby_slot l a ≡ some s
    → has_connection c s ≡ true
    → lobby_slot l b ≡ some t
    → t.connection_id ≡ some d
    → is_selected l p ≡ true
    → require_transfer_current l p a c b d ≡ ok tt
unfolding require_transfer_current require_selected_proposal has_connection holds
transfer-current l p s t a b c d sender here receiver there wanted = ground (arith, ==-refl d)

-- A seat of a transfer: its index and its connection, and a client that can relay.
abbrev pub IsTransferSeat : Lobby → PlayerIndex → ConnectionId → LobbyPlayerSlot → Type 0
IsTransferSeat l i c s =
    (lobby_slot l i ≡ some s) × (s.connection_id ≡ some c) × (relays_rom s ≡ true)

-- A ROM transfer that a sound lobby prepares is of this lobby, from the caller, who is the host, to the
-- seat that was named, both with a connection and a client that can relay. Its game, checksum and size
-- are those of the game that is selected under the proposal; the checksum is well formed and the size
-- within the limit; and the check that is made again before the grants are sent accepts it.
pub prepare_rom_relay_transfer-current :
    (l : Lobby) (c : ConnectionId) (proposal : ProposalId) (i : PlayerIndex) (max_bytes : ℕ)
    (intent : LobbyRomRelayTransferIntent)
    → IsSound l
    → prepare_rom_relay_transfer l c proposal i max_bytes ≡ ok intent
    → (intent.lobby_id ≡ l.lobby_id)
      × ((s : LobbyPlayerSlot) × (is_lobby_host s.role ≡ true)
          × IsTransferSeat l intent.sender_player_index c s)
      × ((t : LobbyPlayerSlot) × IsTransferSeat l i intent.receiver_connection_id t)
      × (intent.sender_connection_id ≡ c)
      × (intent.receiver_player_index ≡ i)
      × ((g : LobbyGameSelectionView) × (l.selected_game ≡ some g)
          × (g.proposal_id ≡ proposal)
          × (intent.proposal_id ≡ proposal)
          × (intent.game ≡ g.game)
          × (g.game.content_sha256 ≡ some intent.sha256)
          × (g.game.rom_size_bytes ≡ some intent.size_bytes))
      × (intent.size_bytes ≤ max_bytes)
      × (is_sha256_text intent.sha256 ≡ true)
      × (require_rom_relay_transfer_current l intent ≡ ok tt)
unfolding prepare_rom_relay_transfer require_transfer_pair proposed_game
    require_rom_relay_transfer_current is_selected require_host
prepare_rom_relay_transfer-current l c proposal i max_bytes intent inv e =
    elim (Result-cases (require_player l c)) [
      | inl (x, refused) ↦ absurd (ground arith)
      | inr (s, known) ↦ elim (Option-cases (lobby_slot l i)) [
        | inl gone ↦ absurd (ground arith)
        | inr (t, receiver) ↦ elim (Option-cases t.connection_id) [
          | inl silent ↦ absurd (ground arith)
          | inr (d, there) ↦ elim (Option-cases l.selected_game) [
            | inl nothing ↦ absurd (ground arith)
            | inr (g, selected) ↦
                let (here, at) = require_player-connection l c s inv known in
                let wanted : is_selected l proposal ≡ true = ground arith in
                let current =
                  transfer-current l proposal s t s.player_index i c d at here receiver there
                    wanted in
                let fields : (intent.proposal_id ≡ proposal)
                    × (intent.sender_player_index ≡ s.player_index)
                    × (intent.sender_connection_id ≡ c)
                    × (intent.receiver_player_index ≡ i)
                    × (intent.receiver_connection_id ≡ d)
                    × (intent.size_bytes ≤ max_bytes)
                    × (is_sha256_text intent.sha256 ≡ true) =
                  ground arith in
                let material : (intent.lobby_id ≡ l.lobby_id)
                    × (g.proposal_id ≡ proposal)
                    × (intent.game ≡ g.game)
                    × (g.game.content_sha256 ≡ some intent.sha256)
                    × (g.game.rom_size_bytes ≡ some intent.size_bytes)
                    × (is_lobby_host s.role ≡ true)
                    × (relays_rom s ≡ true)
                    × (relays_rom t ≡ true) =
                  ground arith in
                (
                  material.0,
                  (
                    s,
                    material.5,
                    (ap (lobby_slot l) fields.1 ∙ at, held-connection c s here, material.6),
                  ),
                  (t, (receiver, there ∙ ap some (sym fields.4), material.7)),
                  fields.2,
                  fields.3,
                  (g, selected, material.1, fields.0, material.2, material.3, material.4),
                  fields.5,
                  fields.6,
                  rw (fields.0, fields.1, fields.2, fields.3, fields.4) current,
                )
          ]
        ]
      ]
    ]
