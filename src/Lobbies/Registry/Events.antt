-- ===== src/Lobbies/Registry/Events.antt =====
-- src/lobbies/lobby_event.rs, lobby_chat.rs and the emit functions of stored_lobby.rs: the events that
-- a lobby's sockets get, with the grants of protocol/lobby_file_relay.rs.
use sn_netplay_serv.Base.{ℕ, Option, List, [], ◌∷◌, ◌++◌}
use sn_netplay_serv.Base.Chars.{Chars}
use sn_netplay_serv.Lobbies.Game.{ProposalId, LobbyReturnedView}
use sn_netplay_serv.Lobbies.Lobby.{Lobby}
use sn_netplay_serv.Lobbies.Lobby.Relay.{LobbyStartupStateTransferMetadata}
use sn_netplay_serv.Lobbies.Types.{LobbyServerCapabilities}
use sn_netplay_serv.Lobbies.View.{LobbyView, lobby_view_of}
use sn_netplay_serv.Protocol.Ids.{ConnectionId}

pub record LobbyChatMessageView : Type 0 where
  pub message_id : ℕ
  pub player_index : ℕ
  pub sent_at_ms : ℕ
  pub body : Chars

pub data LobbyPlayerRemovalReason : Type 0 where
  removed_by_host : LobbyPlayerRemovalReason

pub data LobbyFileRelayGrantRole : Type 0 where
  upload_role download_role : LobbyFileRelayGrantRole

pub data LobbyFileRelayMaterialKind : Type 0 where
  game_material startup_state_material : LobbyFileRelayMaterialKind

pub record LobbyFileRelayGrant : Type 0 where
  pub transfer_id : Chars
  pub relay_url : Chars
  pub token : Chars
  pub role : LobbyFileRelayGrantRole
  pub material_kind : LobbyFileRelayMaterialKind
  pub proposal_id : ProposalId
  pub sender_player_index : ℕ
  pub receiver_player_index : ℕ
  pub sha256 : Chars
  pub size_bytes : ℕ
  pub chunk_size_bytes : ℕ
  pub chunk_count : ℕ
  pub expires_at : Chars
  pub startup_state : Option LobbyStartupStateTransferMetadata

pub record LobbyFileRelayGrantPair : Type 0 where
  pub upload : LobbyFileRelayGrant
  pub download : LobbyFileRelayGrant

pub data LobbyEvent : Type 0 where
  lobby_state_changed : LobbyView → LobbyEvent
  lobby_returned : LobbyView → LobbyReturnedView → LobbyEvent
  chat_message : LobbyChatMessageView → LobbyEvent
  lobby_was_closed : LobbyView → Chars → LobbyEvent
  player_removed : ConnectionId → ℕ → LobbyPlayerRemovalReason → LobbyView → LobbyEvent
  rom_transfer_upload_granted : ConnectionId → ℕ → LobbyFileRelayGrant → LobbyEvent
  rom_transfer_download_ready : ConnectionId → ℕ → LobbyFileRelayGrant → LobbyEvent
  startup_state_transfer_upload_granted : ConnectionId → ℕ → LobbyFileRelayGrant → LobbyEvent
  startup_state_transfer_download_ready : ConnectionId → ℕ → LobbyFileRelayGrant → LobbyEvent

-- `StoredLobby`, with the events that were sent, the last at the end.
pub record StoredLobby : Type 0 where
  pub lobby : Lobby
  pub events : List LobbyEvent
  pub capabilities : LobbyServerCapabilities

-- `StoredLobby::new`
unfoldable pub new_stored_lobby : Lobby → LobbyServerCapabilities → StoredLobby
new_stored_lobby lobby capabilities = record {
  lobby = lobby;
  events = [];
  capabilities = capabilities;
}

-- `StoredLobby::view`
unfoldable pub stored_view : StoredLobby → LobbyView
unfolding lobby_view_of
stored_view s = lobby_view_of s.capabilities s.lobby

-- `self.events.send(event)`
unfoldable pub emit : LobbyEvent → StoredLobby → StoredLobby
emit event s = record s { events = s.events ++ event ∷ [] }

-- `emit_state_changed`
unfoldable pub emit_state_changed : StoredLobby → StoredLobby
unfolding emit stored_view
emit_state_changed s = emit (lobby_state_changed (stored_view s)) s

-- `emit_lobby_returned`
unfoldable pub emit_lobby_returned : LobbyReturnedView → StoredLobby → StoredLobby
unfolding emit stored_view
emit_lobby_returned returned s = emit (lobby_returned (stored_view s) returned) s

-- `emit_chat_message`
unfoldable pub emit_chat_message : LobbyChatMessageView → StoredLobby → StoredLobby
unfolding emit
emit_chat_message chat s = emit (chat_message chat) s

-- `emit_lobby_closed`
unfoldable pub emit_lobby_closed : Chars → StoredLobby → StoredLobby
unfolding emit stored_view
emit_lobby_closed reason s = emit (lobby_was_closed (stored_view s) reason) s

-- `emit_player_removed`
unfoldable pub emit_player_removed :
    ConnectionId → ℕ → LobbyPlayerRemovalReason → StoredLobby → StoredLobby
unfolding emit stored_view
emit_player_removed target player_index reason s =
    emit (player_removed target player_index reason (stored_view s)) s

-- `emit_rom_transfer_grants`
unfoldable pub emit_rom_transfer_grants :
    ConnectionId → ConnectionId → LobbyFileRelayGrantPair → StoredLobby → StoredLobby
unfolding emit
emit_rom_transfer_grants source receiver grants s =
    emit (rom_transfer_download_ready receiver s.lobby.lobby_epoch grants.download)
      (emit (rom_transfer_upload_granted source s.lobby.lobby_epoch grants.upload) s)

-- `emit_startup_state_transfer_grants`
unfoldable pub emit_startup_state_transfer_grants :
    ConnectionId → ConnectionId → LobbyFileRelayGrantPair → StoredLobby → StoredLobby
unfolding emit
emit_startup_state_transfer_grants source receiver grants s =
    emit (startup_state_transfer_download_ready receiver s.lobby.lobby_epoch grants.download)
      (emit (startup_state_transfer_upload_granted source s.lobby.lobby_epoch grants.upload) s)
