-- ===== src/Lobbies/Lobby/Steps.antt =====
-- A lobby over time: the calls of src/lobbies/lobby.rs and lobby_voice_ops.rs as the steps of a
-- relation. Each call is made under the registry's lock, so one call is one step.
use sn_netplay_serv.Base.{ok, ℕ, ◌≡◌, Bool, Option, List}
use sn_netplay_serv.Base.Chars.{Chars}
use sn_netplay_serv.Base.Maps.{Text}
use sn_netplay_serv.Lobbies.Game.{
  LobbyGameCandidate, ProposalId, LobbyGameSelectionView, LobbyGameReadinessStatus,
  LobbyGameReadinessView, LobbyGameLaunchView, LobbyReturnRequest, LobbyReturnOutcome,
}
use sn_netplay_serv.Lobbies.License.{VerifiedLicense}
use sn_netplay_serv.Lobbies.Lobby.{Lobby, record_activity, close_due_to_idle}
use sn_netplay_serv.Lobbies.Lobby.Launching.{
  select_game, set_game_readiness, request_game_launch, publish_game_room, mark_gameplay_started,
  return_to_lobby,
}
use sn_netplay_serv.Lobbies.Lobby.Players.{
  join_or_refresh_player, LobbyReconnectRequest, reconnect_player, disconnect_lobby_player,
  leave_lobby, LobbyPlayerRemoval, remove_player,
}
use sn_netplay_serv.Lobbies.Lobby.Voice.{refresh_voice_grant, take_voice_room_id_for_cleanup}
use sn_netplay_serv.Lobbies.Types.{LobbyActivityKind, LobbyClientCapabilities}
use sn_netplay_serv.Protocol.Ids.{PlayerIndex, ConnectionId}
use sn_netplay_serv.Rooms.InviteCode.{InviteCode}
use sn_netplay_serv.Rooms.Voice.{PlayerVoiceJoinGrant}

pub data LobbyStep (l : Lobby) : Lobby → Type 0 where
  join_step :
      {l' : Lobby} (license : VerifiedLicense) (c : ConnectionId) (name : Option Chars)
      (capabilities : LobbyClientCapabilities) (hash : Text) (now : ℕ) (i : PlayerIndex)
      → join_or_refresh_player l license c name capabilities hash now ≡ ok (l', i)
      → LobbyStep l l'
  reconnect_step :
      {l' : Lobby} (sha256 : List ℕ → List ℕ) (request : LobbyReconnectRequest) (i : PlayerIndex)
      → reconnect_player sha256 l request ≡ ok (l', i)
      → LobbyStep l l'
  disconnect_step : (c : ConnectionId) (now : ℕ) → LobbyStep l (disconnect_lobby_player l c now).0
  leave_step :
      {l' : Lobby} (c : ConnectionId) (now : ℕ) → leave_lobby l c now ≡ ok l' → LobbyStep l l'
  remove_step :
      {l' : Lobby} (c : ConnectionId) (epoch : ℕ) (target : PlayerIndex) (now : ℕ)
      (removal : LobbyPlayerRemoval)
      → remove_player l c epoch target now ≡ ok (l', removal)
      → LobbyStep l l'
  select_step :
      {l' : Lobby} (c : ConnectionId) (game : LobbyGameCandidate) (proposal : ProposalId) (now : ℕ)
      (v : LobbyGameSelectionView)
      → select_game l c game proposal now ≡ ok (l', v)
      → LobbyStep l l'
  readiness_step :
      {l' : Lobby} (c : ConnectionId) (proposal : ProposalId) (status : LobbyGameReadinessStatus)
      (detail : Option Chars) (now : ℕ) (v : LobbyGameReadinessView)
      → set_game_readiness l c proposal status detail now ≡ ok (l', v)
      → LobbyStep l l'
  launch_step :
      {l' : Lobby} (c : ConnectionId) (proposal : ProposalId) (now : ℕ) (v : LobbyGameLaunchView)
      → request_game_launch l c proposal now ≡ ok (l', v)
      → LobbyStep l l'
  publish_step :
      {l' : Lobby} (c : ConnectionId) (proposal : ProposalId) (code : InviteCode) (now : ℕ)
      (v : LobbyGameLaunchView)
      → publish_game_room l c proposal code now ≡ ok (l', v)
      → LobbyStep l l'
  started_step :
      {l' : Lobby} (c : ConnectionId) (epoch : ℕ) (proposal : ProposalId) (now : ℕ) (b : Bool)
      → mark_gameplay_started l c epoch proposal now ≡ ok (l', b)
      → LobbyStep l l'
  return_step :
      {l' : Lobby} (request : LobbyReturnRequest) (o : LobbyReturnOutcome)
      → return_to_lobby l request ≡ ok (l', o)
      → LobbyStep l l'
  activity_step :
      {l' : Lobby} (c : ConnectionId) (kind : LobbyActivityKind) (now : ℕ)
      → record_activity l c kind now ≡ ok l'
      → LobbyStep l l'
  idle_step : (now : ℕ) → LobbyStep l (close_due_to_idle l now).0
  voice_step :
      {l' : Lobby} (c : ConnectionId) (identity token expires : Chars) (g : PlayerVoiceJoinGrant)
      → refresh_voice_grant l c identity token expires ≡ ok (l', g)
      → LobbyStep l l'
  cleanup_step : LobbyStep l (take_voice_room_id_for_cleanup l).0

pub data LobbySteps : Lobby → Lobby → Type 0 where
  no_lobby_step : {l : Lobby} → LobbySteps l l
  and_lobby_step : {l m n : Lobby} → LobbySteps l m → LobbyStep m n → LobbySteps l n
