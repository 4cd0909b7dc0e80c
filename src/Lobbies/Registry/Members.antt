-- ===== src/Lobbies/Registry/Members.antt =====
-- src/lobbies/in_memory_lobby_registry.rs: the calls that create a lobby and that seat, disconnect and
-- remove its players. Each is made under the write lock.
-- `CreateLobbyParams`, but for the voice descriptor that `create_voice_state_for_lobby` reads.
use sn_netplay_serv.Base.{
  if◌then◌else◌, Result, ◌>>=◌, ◌>>◌, fail_if, ok, ℕ, not, Option, none, some, List,
}
use sn_netplay_serv.Base.Chars.{Chars, codes}
use sn_netplay_serv.Base.Maps.{Text}
use sn_netplay_serv.Lobbies.Game.{LobbyGameCandidate, ProposalId}
use sn_netplay_serv.Lobbies.License.{VerifiedLicense}
use sn_netplay_serv.Lobbies.Lobby.{Lobby, new_lobby}
use sn_netplay_serv.Lobbies.Lobby.Players.{
  join_or_refresh_player, LobbyReconnectRequest, hash_resume_token, reconnect_player,
  disconnect_lobby_player, leave_lobby, LobbyPlayerRemoval, voice_grant_for, remove_player,
}
use sn_netplay_serv.Lobbies.Lobby.Voice.{set_voice_state, take_voice_room_id_for_cleanup}
use sn_netplay_serv.Lobbies.Registry.{
  LobbyRegistry, emit_public_lobbies_changed, put_lobby, Called, with_lobby, shown, shown_publicly,
  cleanup_lobby_voice_room, cleanup_lobby_voice_participant,
}
use sn_netplay_serv.Lobbies.Registry.Events.{
  StoredLobby, new_stored_lobby, stored_view, emit_state_changed, emit_player_removed,
  removed_by_host,
}
use sn_netplay_serv.Lobbies.Types.{
  closed, LobbyError, has_lobby_status, LobbyVisibility, LobbyClientCapabilities,
  lobby_player_removal_unavailable,
}
use sn_netplay_serv.Lobbies.View.{LobbyView}
use sn_netplay_serv.Protocol.Ids.{PlayerIndex, ConnectionId, player_one}
use sn_netplay_serv.Rooms.InviteCode.{InviteCode}
use sn_netplay_serv.Rooms.Voice.{PlayerVoiceJoinGrant, RoomVoiceState}

pub record CreateLobbyParams : Type 0 where
  pub display_name : Option Chars
  pub capabilities : LobbyClientCapabilities
  pub initial_game : Option LobbyGameCandidate
  pub visibility : LobbyVisibility

pub record JoinLobbyParams : Type 0 where
  pub display_name : Option Chars
  pub capabilities : LobbyClientCapabilities

pub record ReconnectLobbyPlayerRequest : Type 0 where
  pub invite_code : InviteCode
  pub player : VerifiedLicense
  pub params : JoinLobbyParams
  pub player_index : PlayerIndex
  pub lobby_epoch : ℕ
  pub resume_token : Text
  pub connection_id : ConnectionId

pub record LobbyJoin : Type 0 where
  pub lobby : LobbyView
  pub player_index : PlayerIndex
  pub resume_token : Text
  pub voice : Option PlayerVoiceJoinGrant

-- The ids and the token that `create_lobby` draws, the answer of `create_voice_state_for_lobby` and
-- the time.
pub record CreateLobbyDraws : Type 0 where
  pub invite_code : InviteCode
  pub resume_token : Text
  pub host_connection : ConnectionId
  pub lobby_id : ℕ
  pub proposal_id : ProposalId
  pub voice : Option RoomVoiceState
  pub now_ms : ℕ

-- `if let Some(voice) = ... { lobby.set_voice_state(voice) }`
unfoldable pub attach_voice : Option RoomVoiceState → Lobby → Lobby
unfolding set_voice_state
attach_voice none l = l
attach_voice (some voice) l = set_voice_state voice l

-- The lobby that `create_lobby` stores.
unfoldable pub hosted_lobby :
    (List ℕ → List ℕ) → CreateLobbyDraws → VerifiedLicense → CreateLobbyParams → Lobby
unfolding attach_voice new_lobby hash_resume_token
hosted_lobby sha256 draws host_license params = attach_voice draws.voice (
    new_lobby draws.lobby_id draws.proposal_id record {
      invite_code = draws.invite_code;
      host = host_license;
      host_connection = draws.host_connection;
      host_display_name = params.display_name;
      host_capabilities = params.capabilities;
      host_resume_token_hash = hash_resume_token sha256 draws.resume_token;
      initial_game = params.initial_game;
      visibility = params.visibility;
      now_ms = draws.now_ms;
    })

-- `create_lobby`
unfoldable pub create_lobby :
    (List ℕ → List ℕ)
    → CreateLobbyDraws
    → LobbyRegistry
    → VerifiedLicense
    → CreateLobbyParams
    → LobbyRegistry × LobbyJoin
unfolding hosted_lobby new_stored_lobby stored_view put_lobby voice_grant_for
    emit_public_lobbies_changed
create_lobby sha256 draws r host_license params =
    let l = hosted_lobby sha256 draws host_license params in
    let s = new_stored_lobby l r.capabilities in
    (
      emit_public_lobbies_changed (record r { lobbies = put_lobby draws.invite_code s r.lobbies }),
      record {
        lobby = stored_view s;
        player_index = player_one;
        resume_token = draws.resume_token;
        voice = voice_grant_for l player_one;
      },
    )

-- What a player who joined gets.
unfoldable pub joined : StoredLobby → PlayerIndex → Text → LobbyJoin
unfolding stored_view voice_grant_for
joined s player_index resume_token = record {
  lobby = stored_view s;
  player_index = player_index;
  resume_token = resume_token;
  voice = voice_grant_for s.lobby player_index;
}

unfoldable pub joined_publicly : Text → Called PlayerIndex → LobbyRegistry × LobbyJoin
unfolding joined emit_public_lobbies_changed
joined_publicly resume_token called =
    (emit_public_lobbies_changed called.registry, joined called.stored called.value resume_token)

-- `connect_lobby`, with the token that it draws; `join_lobby` is the same with a connection id that
-- it draws.
unfoldable pub connect_lobby :
    (List ℕ → List ℕ)
    → LobbyRegistry
    → InviteCode
    → VerifiedLicense
    → JoinLobbyParams
    → ConnectionId
    → Text
    → ℕ
    → Result LobbyError (LobbyRegistry × LobbyJoin)
unfolding with_lobby join_or_refresh_player hash_resume_token emit_state_changed joined_publicly
connect_lobby sha256 r code player params connection_id resume_token now_ms = do
  called ←
      with_lobby code
        (λ l.
          join_or_refresh_player l player connection_id params.display_name params.capabilities
            (hash_resume_token sha256 resume_token) now_ms)
        (λ i s. emit_state_changed s) r
  ok (joined_publicly resume_token called)

-- The `LobbyReconnectRequest` of a request.
unfoldable pub reconnection : ReconnectLobbyPlayerRequest → ℕ → LobbyReconnectRequest
reconnection request now_ms = record {
  license = request.player;
  player_index = request.player_index;
  lobby_epoch = request.lobby_epoch;
  resume_token = request.resume_token;
  connection_id = request.connection_id;
  display_name = request.params.display_name;
  capabilities = request.params.capabilities;
  now_ms = now_ms;
}

-- `reconnect_lobby_player`
unfoldable pub reconnect_lobby_player :
    (List ℕ → List ℕ)
    → LobbyRegistry
    → ReconnectLobbyPlayerRequest
    → ℕ
    → Result LobbyError (LobbyRegistry × LobbyJoin)
unfolding with_lobby reconnection reconnect_player emit_state_changed joined_publicly
reconnect_lobby_player sha256 r request now_ms = do
  called ←
      with_lobby request.invite_code (λ l. reconnect_player sha256 l (reconnection request now_ms))
        (λ i s. emit_state_changed s) r
  ok (joined_publicly request.resume_token called)

-- `disconnect_lobby`
unfoldable pub disconnect_lobby :
    LobbyRegistry → InviteCode → ConnectionId → ℕ → Result LobbyError (LobbyRegistry × LobbyView)
unfolding with_lobby disconnect_lobby_player emit_state_changed shown shown_publicly
disconnect_lobby r code connection_id now_ms = do
  called ←
      with_lobby code (λ l. ok (disconnect_lobby_player l connection_id now_ms))
        (λ changed s. if changed then emit_state_changed s else s) r
  ok (if called.value then shown_publicly called else shown called)

-- `leave`, and the voice room taken for its cleanup when that closed the lobby.
unfoldable pub leave_and_take_voice :
    ConnectionId → ℕ → Lobby → Result LobbyError (Lobby × Option Chars)
unfolding leave_lobby has_lobby_status take_voice_room_id_for_cleanup
leave_and_take_voice connection_id now_ms l = do
  left ← leave_lobby l connection_id now_ms
  ok (
      if has_lobby_status left.status closed
      then take_voice_room_id_for_cleanup left
      else (left, none))

-- `leave_lobby`
unfoldable pub leave_registered_lobby :
    LobbyRegistry → InviteCode → ConnectionId → ℕ → Result LobbyError (LobbyRegistry × LobbyView)
unfolding with_lobby leave_and_take_voice emit_state_changed cleanup_lobby_voice_room stored_view
    emit_public_lobbies_changed
leave_registered_lobby r code connection_id now_ms = do
  called ←
      with_lobby code (leave_and_take_voice connection_id now_ms) (λ voice s. emit_state_changed s)
        r
  ok (
    emit_public_lobbies_changed
        (cleanup_lobby_voice_room called.value (codes "lobby-left") called.registry),
    stored_view called.stored,
  )

-- The events of a removal: one for the socket that lost its seat, one for all.
unfoldable pub emit_removal : LobbyPlayerRemoval → StoredLobby → StoredLobby
unfolding emit_player_removed emit_state_changed
emit_removal removal s = emit_state_changed (elim removal.connection_id [
  | none ↦ s
  | some target ↦ emit_player_removed target removal.player_index removed_by_host s
])

-- `option.zip`
unfoldable pub zip_options : {A B : Type 0} → Option A → Option B → Option (A × B)
zip_options (some a) (some b) = some (a, b)
zip_options _ _ = none

-- `remove_lobby_player`
unfoldable pub remove_lobby_player :
    LobbyRegistry
    → InviteCode
    → ConnectionId
    → ℕ
    → PlayerIndex
    → ℕ
    → Result LobbyError (LobbyRegistry × LobbyView)
unfolding with_lobby remove_player emit_removal zip_options cleanup_lobby_voice_participant
    stored_view emit_public_lobbies_changed
remove_lobby_player r code requester_connection_id lobby_epoch target_player_index now_ms = do
  fail_if (not r.capabilities.supports_lobby_player_removal) lobby_player_removal_unavailable
  called ←
      with_lobby code
        (λ l. remove_player l requester_connection_id lobby_epoch target_player_index now_ms)
        emit_removal r
  ok (
    cleanup_lobby_voice_participant
        (zip_options called.value.voice_room_id called.value.participant_identity)
        (codes "removedByHost") (emit_public_lobbies_changed called.registry),
    stored_view called.stored,
  )
