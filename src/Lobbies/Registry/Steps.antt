-- ===== src/Lobbies/Registry/Steps.antt =====
-- The registry over time: the calls of src/lobbies/in_memory_lobby_registry.rs as the steps of a
-- relation. Each holds the write lock, so one call is one step; a call that fails changes nothing.
use sn_netplay_serv.Base.{ok, ℕ, ◌≡◌, Option, List}
use sn_netplay_serv.Base.Chars.{Chars}
use sn_netplay_serv.Base.Maps.{Text}
use sn_netplay_serv.Lobbies.Game.{
  LobbyGameCandidate, ProposalId, LobbyGameReadinessStatus, LobbyReturnRequest,
}
use sn_netplay_serv.Lobbies.License.{VerifiedLicense}
use sn_netplay_serv.Lobbies.Lobby.Relay.{
  LobbyRomRelayTransferIntent, LobbyStartupStateTransferMetadata,
  LobbyStartupStateRelayTransferIntent,
}
use sn_netplay_serv.Lobbies.Registry.{LobbyRegistry}
use sn_netplay_serv.Lobbies.Registry.Events.{LobbyChatMessageView, LobbyFileRelayGrantPair}
use sn_netplay_serv.Lobbies.Registry.Games.{
  select_lobby_game, set_lobby_game_readiness, request_lobby_game_launch,
  prepare_lobby_rom_relay_transfer, grant_lobby_rom_relay_transfer,
  prepare_lobby_startup_state_relay_transfer, grant_lobby_startup_state_relay_transfer,
  publish_lobby_game_room, mark_lobby_gameplay_started, return_lobby_from_game, send_lobby_chat,
  record_lobby_activity, LobbyVoiceTokenRefresh, keep_lobby_voice_token,
}
use sn_netplay_serv.Lobbies.Registry.Members.{
  CreateLobbyParams, JoinLobbyParams, ReconnectLobbyPlayerRequest, LobbyJoin, CreateLobbyDraws,
  create_lobby, connect_lobby, reconnect_lobby_player, disconnect_lobby, leave_registered_lobby,
  remove_lobby_player,
}
use sn_netplay_serv.Lobbies.Registry.Public.{expire_idle_lobbies}
use sn_netplay_serv.Lobbies.Types.{LobbyActivityKind}
use sn_netplay_serv.Lobbies.View.{LobbyView}
use sn_netplay_serv.Protocol.Ids.{PlayerIndex, ConnectionId}
use sn_netplay_serv.Rooms.InviteCode.{InviteCode}

pub data RegistryStep (r : LobbyRegistry) : LobbyRegistry → Type 0 where
  create_call :
      (sha256 : List ℕ → List ℕ) (draws : CreateLobbyDraws) (license : VerifiedLicense)
      (params : CreateLobbyParams)
      → RegistryStep r (create_lobby sha256 draws r license params).0
  connect_call :
      {r' : LobbyRegistry} (sha256 : List ℕ → List ℕ) (code : InviteCode)
      (license : VerifiedLicense) (params : JoinLobbyParams) (c : ConnectionId) (token : Text)
      (now : ℕ) (v : LobbyJoin)
      → connect_lobby sha256 r code license params c token now ≡ ok (r', v)
      → RegistryStep r r'
  reconnect_call :
      {r' : LobbyRegistry} (sha256 : List ℕ → List ℕ) (request : ReconnectLobbyPlayerRequest)
      (now : ℕ) (v : LobbyJoin)
      → reconnect_lobby_player sha256 r request now ≡ ok (r', v)
      → RegistryStep r r'
  disconnect_call :
      {r' : LobbyRegistry} (code : InviteCode) (c : ConnectionId) (now : ℕ) (v : LobbyView)
      → disconnect_lobby r code c now ≡ ok (r', v)
      → RegistryStep r r'
  leave_call :
      {r' : LobbyRegistry} (code : InviteCode) (c : ConnectionId) (now : ℕ) (v : LobbyView)
      → leave_registered_lobby r code c now ≡ ok (r', v)
      → RegistryStep r r'
  remove_call :
      {r' : LobbyRegistry} (code : InviteCode) (c : ConnectionId) (epoch : ℕ) (target : PlayerIndex)
      (now : ℕ) (v : LobbyView)
      → remove_lobby_player r code c epoch target now ≡ ok (r', v)
      → RegistryStep r r'
  select_call :
      {r' : LobbyRegistry} (code : InviteCode) (c : ConnectionId) (game : LobbyGameCandidate)
      (proposal : ProposalId) (now : ℕ) (v : LobbyView)
      → select_lobby_game r code c game proposal now ≡ ok (r', v)
      → RegistryStep r r'
  readiness_call :
      {r' : LobbyRegistry} (code : InviteCode) (c : ConnectionId) (proposal : ProposalId)
      (status : LobbyGameReadinessStatus) (detail : Option Chars) (now : ℕ) (v : LobbyView)
      → set_lobby_game_readiness r code c proposal status detail now ≡ ok (r', v)
      → RegistryStep r r'
  launch_call :
      {r' : LobbyRegistry} (code : InviteCode) (c : ConnectionId) (proposal : ProposalId) (now : ℕ)
      (v : LobbyView)
      → request_lobby_game_launch r code c proposal now ≡ ok (r', v)
      → RegistryStep r r'
  rom_relay_call :
      {r' : LobbyRegistry} (code : InviteCode) (c : ConnectionId) (proposal : ProposalId)
      (receiver : PlayerIndex) (max_bytes now : ℕ) (v : LobbyRomRelayTransferIntent)
      → prepare_lobby_rom_relay_transfer r code c proposal receiver max_bytes now ≡ ok (r', v)
      → RegistryStep r r'
  rom_grant_call :
      {r' : LobbyRegistry} (code : InviteCode) (intent : LobbyRomRelayTransferIntent)
      (grants : LobbyFileRelayGrantPair)
      → grant_lobby_rom_relay_transfer r code intent grants ≡ ok r'
      → RegistryStep r r'
  startup_relay_call :
      {r' : LobbyRegistry} (code : InviteCode) (c : ConnectionId) (proposal : ProposalId)
      (receiver : PlayerIndex) (state : LobbyStartupStateTransferMetadata) (max_bytes now : ℕ)
      (v : LobbyStartupStateRelayTransferIntent)
      → prepare_lobby_startup_state_relay_transfer r code c proposal receiver state max_bytes now
        ≡ ok (r', v)
      → RegistryStep r r'
  startup_grant_call :
      {r' : LobbyRegistry} (code : InviteCode) (intent : LobbyStartupStateRelayTransferIntent)
      (grants : LobbyFileRelayGrantPair)
      → grant_lobby_startup_state_relay_transfer r code intent grants ≡ ok r'
      → RegistryStep r r'
  publish_call :
      {r' : LobbyRegistry} (code : InviteCode) (c : ConnectionId) (proposal : ProposalId)
      (room_code : InviteCode) (now : ℕ) (v : LobbyView)
      → publish_lobby_game_room r code c proposal room_code now ≡ ok (r', v)
      → RegistryStep r r'
  started_call :
      {r' : LobbyRegistry} (code : InviteCode) (c : ConnectionId) (epoch : ℕ)
      (proposal : ProposalId) (now : ℕ) (v : LobbyView)
      → mark_lobby_gameplay_started r code c epoch proposal now ≡ ok (r', v)
      → RegistryStep r r'
  return_call :
      {r' : LobbyRegistry} (code : InviteCode) (request : LobbyReturnRequest) (v : LobbyView)
      → return_lobby_from_game r code request ≡ ok (r', v)
      → RegistryStep r r'
  chat_call :
      {r' : LobbyRegistry} (code : InviteCode) (c : ConnectionId) (body : Chars) (id sent now : ℕ)
      (v : LobbyChatMessageView)
      → send_lobby_chat r code c body id sent now ≡ ok (r', v)
      → RegistryStep r r'
  activity_call :
      {r' : LobbyRegistry} (code : InviteCode) (c : ConnectionId) (kind : LobbyActivityKind)
      (now : ℕ)
      → record_lobby_activity r code c kind now ≡ ok r'
      → RegistryStep r r'
  voice_call :
      {r' : LobbyRegistry} (code : InviteCode) (c : ConnectionId) (identity token expires : Chars)
      (v : LobbyVoiceTokenRefresh)
      → keep_lobby_voice_token r code c identity token expires ≡ ok (r', v)
      → RegistryStep r r'
  expire_call : (now timeout : ℕ) → RegistryStep r (expire_idle_lobbies r now timeout).0

pub data RegistrySteps : LobbyRegistry → LobbyRegistry → Type 0 where
  no_registry_step : {r : LobbyRegistry} → RegistrySteps r r
  and_registry_step :
      {a b c : LobbyRegistry} → RegistrySteps a b → RegistryStep b c → RegistrySteps a c
