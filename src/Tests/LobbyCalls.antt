-- ===== src/Tests/LobbyCalls.antt =====
-- Calls of the lobby of `Tests.Lobby`.
use sn_netplay_serv.Base.{
  any, filter, update_first, All, ok, ◌≤◌, ◌≡◌, refl, true, false, none, some, [], ◌∷◌,
}
use sn_netplay_serv.Base.Chars.{Chars, codes, byte_length}
use sn_netplay_serv.Lobbies.Game.{
  preparing, LobbyGameSelectionView, is_ready, LobbyGameLaunchView, new_launch, LobbyReturnRequest,
  LobbyReturnedView, applied, already_applied, runner_closed,
}
use sn_netplay_serv.Lobbies.License.{as_str, identity_namespace, identity_key}
use sn_netplay_serv.Lobbies.Lobby.{
  player_index_for_connection, Lobby, setup_status, next_u64, bump, mark_meaningful_activity,
  bump_with_activity, close_lobby, has_index, lobby_slot, update_slot, require_player, require_host,
  is_selected, require_selected_proposal,
}
use sn_netplay_serv.Lobbies.Lobby.Closed.{IsSameButVoice, closed-LobbyStep}
use sn_netplay_serv.Lobbies.Lobby.Launching.{
  is_sha256_text, is_ready_for, connected_players_are_ready, request_game_launch, is_launched,
  new_returned, back_in_lobby, return_to_lobby,
}
use sn_netplay_serv.Lobbies.Lobby.Laws.{
  request_game_launch-ready, return_to_lobby-again, reconnect_player-owner, remove_player-gone,
}
use sn_netplay_serv.Lobbies.Lobby.Players.{
  LobbyReconnectRequest, has_token_hash, hash_resume_token, reconnect_player,
  disconnect_lobby_player, forget_readiness, vacate, LobbyPlayerRemoval, voice_grant_for,
  removal_unavailable, require_target, remove_player,
}
use sn_netplay_serv.Lobbies.Lobby.Relay.{
  LobbyRomRelayTransferIntent, relays_rom, proposed_game, require_transfer_pair,
  prepare_rom_relay_transfer, require_rom_relay_transfer_current,
}
use sn_netplay_serv.Lobbies.Lobby.RelayLaws.{IsTransferSeat, prepare_rom_relay_transfer-current}
use sn_netplay_serv.Lobbies.Lobby.Seating.{close-IsSound}
use sn_netplay_serv.Lobbies.Lobby.Steps.{disconnect_step}
use sn_netplay_serv.Lobbies.Lobby.Subjects.{seats_of}
use sn_netplay_serv.Lobbies.Player.{
  LobbyPlayerSlot, LobbyPlayerOccupancy, empty_lobby_slot, occupy, has_subject, belongs_to,
  has_connection, is_present,
}
use sn_netplay_serv.Lobbies.Types.{
  guest, LobbyStatus, lobby_status_code, has_lobby_status, is_lobby_host,
  default_lobby_capabilities, in_game,
}
use sn_netplay_serv.Rooms.Slot.{holds}
use sn_netplay_serv.Rooms.Snapshot.{hex}
use sn_netplay_serv.Tests.Lobby.{
  all_capabilities, a_license, a_seat, a_free_seat, ann, later, a_game, selected_lobby, a_readiness,
  ready_lobby, ready_lobby-IsSound,
}

abbrev a_launch : LobbyGameLaunchView
a_launch = record {
  proposal_id = 100;
  requested_by_player_index = 0;
  requested_at_ms = 60;
  status = preparing;
  room_invite_code = none;
  room_published_at_ms = none;
  gameplay_started_at_ms = none;
  started_player_indexes = [];
}

abbrev launched_lobby : Lobby
launched_lobby = later 6 60 record ready_lobby { pending_launch = some a_launch; status = in_game }

ready_lobby-launched : request_game_launch ready_lobby 1 100 60 ≡ ok (launched_lobby, a_launch)
unfolding request_game_launch require_host require_player player_index_for_connection has_connection
    holds lobby_slot has_index is_lobby_host require_selected_proposal is_selected
    connected_players_are_ready is_present is_ready_for is_ready new_launch bump_with_activity bump
    mark_meaningful_activity next_u64
ready_lobby-launched = refl

request_game_launch-ready_example :
    ((s : LobbyPlayerSlot) × (require_player ready_lobby 1 ≡ ok s)
      × (is_lobby_host s.role ≡ true)
      × (a_launch ≡ new_launch 100 s.player_index 60))
    × (is_selected ready_lobby 100 ≡ true)
    × All
        (λ s. any (is_ready_for 100 s) ready_lobby.game_readiness ≡ true)
        (filter is_present ready_lobby.players)
    × (launched_lobby.status ≡ in_game)
    × (launched_lobby.pending_launch ≡ some a_launch)
    × (launched_lobby.players ≡ ready_lobby.players)
request_game_launch-ready_example =
    request_game_launch-ready ready_lobby launched_lobby 1 100 60 a_launch ready_lobby-launched

abbrev a_return : LobbyReturnRequest
a_return = record {
  connection_id = 2;
  lobby_epoch = 6;
  proposal_id = 100;
  return_requested_by_player_index = some 1;
  reason = some runner_closed;
  now_ms = 70;
}

abbrev a_returned : LobbyReturnedView
a_returned = record {
  proposal_id = 100;
  return_requested_by_player_index = some 1;
  reason = some runner_closed;
  returned_at_ms = 70;
}

abbrev returned_lobby : Lobby
returned_lobby = later 7 70 record selected_lobby { last_return = some a_returned }

launched_lobby-returned :
    return_to_lobby launched_lobby a_return ≡ ok (returned_lobby, applied a_returned)
unfolding return_to_lobby player_index_for_connection has_connection holds require_selected_proposal
    is_selected is_launched back_in_lobby new_returned applied setup_status bump_with_activity bump
    mark_meaningful_activity next_u64
launched_lobby-returned = refl

-- The host reports the same return later, for another reason.
abbrev second_return : LobbyReturnRequest
second_return = record {
  connection_id = 1;
  lobby_epoch = 6;
  proposal_id = 100;
  return_requested_by_player_index = none;
  reason = none;
  now_ms = 99;
}

ann-known : player_index_for_connection returned_lobby 1 ≡ ok 0
unfolding player_index_for_connection has_connection holds
ann-known = refl

return_to_lobby-again_example :
    return_to_lobby returned_lobby second_return ≡ ok (returned_lobby, already_applied a_returned)
unfolding applied
return_to_lobby-again_example =
    return_to_lobby-again launched_lobby returned_lobby a_return second_return (applied a_returned)
      0 launched_lobby-returned ann-known refl refl

closed_lobby-status : (close_lobby 80 ready_lobby).status ≡ LobbyStatus.closed
unfolding close_lobby bump
closed_lobby-status = refl

closed-LobbyStep_example :
    IsSameButVoice
      (close_lobby 80 ready_lobby)
      (disconnect_lobby_player (close_lobby 80 ready_lobby) 1 90).0
closed-LobbyStep_example =
    closed-LobbyStep (disconnect_step 1 90) (close-IsSound 80 ready_lobby ready_lobby-IsSound)
      closed_lobby-status

abbrev a_reconnect : LobbyReconnectRequest
a_reconnect = record {
  license = a_license (codes "ben");
  player_index = 1;
  lobby_epoch = 4;
  resume_token = 1 ∷ 2 ∷ [];
  connection_id = 9;
  display_name = none;
  capabilities = all_capabilities;
  now_ms = 55;
}

abbrev ben_again : LobbyPlayerSlot
ben_again = a_seat 1 guest (codes "desktop:ben") 9 (codes "0102") 55

abbrev reconnected_lobby : Lobby
reconnected_lobby =
    later 6 55 record ready_lobby { players = ann ∷ ben_again ∷ a_free_seat 2 ∷ a_free_seat 3 ∷ [] }

ben-reconnected : reconnect_player (λ x. x) ready_lobby a_reconnect ≡ ok (reconnected_lobby, 1)
unfolding reconnect_player has_lobby_status lobby_status_code hash_resume_token hex lobby_slot
    has_index belongs_to has_subject identity_key identity_namespace as_str has_token_hash
    update_slot occupy bump_with_activity bump mark_meaningful_activity next_u64
ben-reconnected = refl

reconnect_player-owner_example :
    (s : LobbyPlayerSlot) × (lobby_slot ready_lobby 1 ≡ some s)
    × (has_lobby_status ready_lobby.status LobbyStatus.closed ≡ false)
    × (4 ≤ 5)
    × (belongs_to (a_license (codes "ben")) s ≡ true)
    × (has_token_hash (hash_resume_token (λ x. x) (1 ∷ 2 ∷ [])) s ≡ true)
    × (a_reconnect.player_index ≡ a_reconnect.player_index)
    × ((o : LobbyPlayerOccupancy) × (o.role ≡ s.role)
        × (o.connection_id ≡ 9)
        × (reconnected_lobby.players ≡ update_first (has_index 1) (occupy o) ready_lobby.players))
reconnect_player-owner_example =
    reconnect_player-owner (λ x. x) ready_lobby reconnected_lobby a_reconnect 1 ben-reconnected

abbrev without_ben : Lobby
without_ben = later 6 56 record ready_lobby {
  players = ann ∷ a_free_seat 1 ∷ a_free_seat 2 ∷ a_free_seat 3 ∷ [];
  game_readiness = a_readiness 0 40 ∷ [];
}

abbrev a_removal : LobbyPlayerRemoval
a_removal = record {
  player_index = 1;
  connection_id = some 2;
  voice_room_id = none;
  participant_identity = none;
}

ben-removed : remove_player ready_lobby 1 5 1 56 ≡ ok (without_ben, a_removal)
unfolding remove_player require_host require_player player_index_for_connection has_connection holds
    lobby_slot has_index is_lobby_host removal_unavailable has_lobby_status lobby_status_code
    require_target voice_grant_for vacate update_slot empty_lobby_slot default_lobby_capabilities
    forget_readiness setup_status bump_with_activity bump mark_meaningful_activity next_u64
ben-removed = refl

remove_player-gone_example :
    ((s : LobbyPlayerSlot) × (require_player ready_lobby 1 ≡ ok s) × (is_lobby_host s.role ≡ true))
    × (ready_lobby.lobby_epoch ≡ 5)
    × (removal_unavailable ready_lobby ≡ false)
    × ((t : LobbyPlayerSlot) × (key : Chars) × (lobby_slot ready_lobby 1 ≡ some t)
        × (is_lobby_host t.role ≡ false)
        × (t.subject_key ≡ some key)
        × (a_removal.connection_id ≡ t.connection_id)
        × (seats_of key ready_lobby.players ≡ 1)
        × (seats_of key without_ben.players ≡ 0))
    × (without_ben.players
        ≡ update_first (has_index 1) (λ u. empty_lobby_slot 1) ready_lobby.players)
remove_player-gone_example =
    remove_player-gone ready_lobby without_ben 1 5 1 56 a_removal ready_lobby-IsSound ben-removed

abbrev an_intent : LobbyRomRelayTransferIntent
an_intent = record {
  lobby_id = 7;
  proposal_id = 100;
  game = a_game;
  sha256 = codes "0123456789abcdef0123456789ABCDEF0123456789abcdef0123456789abcdef";
  size_bytes = 4096;
  sender_player_index = 0;
  sender_connection_id = 1;
  receiver_player_index = 1;
  receiver_connection_id = 2;
}

rom-prepared : prepare_rom_relay_transfer ready_lobby 1 100 1 8192 ≡ ok an_intent
unfolding prepare_rom_relay_transfer require_transfer_pair require_host require_player
    player_index_for_connection has_connection holds lobby_slot has_index is_lobby_host relays_rom
    proposed_game is_sha256_text byte_length
rom-prepared = refl

prepare_rom_relay_transfer-current_example :
    (an_intent.lobby_id ≡ ready_lobby.lobby_id)
    × ((s : LobbyPlayerSlot) × (is_lobby_host s.role ≡ true) × IsTransferSeat ready_lobby 0 1 s)
    × ((t : LobbyPlayerSlot) × IsTransferSeat ready_lobby 1 2 t)
    × (an_intent.sender_connection_id ≡ 1)
    × (an_intent.receiver_player_index ≡ 1)
    × ((g : LobbyGameSelectionView) × (ready_lobby.selected_game ≡ some g)
        × (g.proposal_id ≡ 100)
        × (an_intent.proposal_id ≡ 100)
        × (an_intent.game ≡ g.game)
        × (g.game.content_sha256 ≡ some an_intent.sha256)
        × (g.game.rom_size_bytes ≡ some an_intent.size_bytes))
    × (an_intent.size_bytes ≤ 8192)
    × (is_sha256_text an_intent.sha256 ≡ true)
    × (require_rom_relay_transfer_current ready_lobby an_intent ≡ ok tt)
prepare_rom_relay_transfer-current_example =
    prepare_rom_relay_transfer-current ready_lobby 1 100 1 8192 an_intent ready_lobby-IsSound
      rom-prepared
