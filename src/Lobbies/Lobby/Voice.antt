-- ===== src/Lobbies/Lobby/Voice.antt =====
-- src/lobbies/lobby_voice_ops.rs: the voice state of a lobby. The tokens are issued by the voice
-- broker, another service.
-- `set_voice_state`
use sn_netplay_serv.Base.{Result, ◌>>=◌, ok_or, ok, ◌+◌, Option, none, some, [], ◌∷◌, ◌++◌}
use sn_netplay_serv.Base.Chars.{Chars, codes}
use sn_netplay_serv.Lobbies.Lobby.{player_index_for_connection, Lobby, lobby_slot}
use sn_netplay_serv.Lobbies.Lobby.Players.{voice_grant_for}
use sn_netplay_serv.Lobbies.Types.{voice_unavailable, LobbyError}
use sn_netplay_serv.Protocol.Ids.{PlayerIndex, ConnectionId}
use sn_netplay_serv.Rooms.Voice.{
  PlayerVoiceJoinGrant, RoomVoiceTokenRefreshRequest, RoomVoiceState, refresh_grant,
}

unfoldable pub set_voice_state : RoomVoiceState → Lobby → Lobby
set_voice_state voice l = record l { voice = some voice }

-- `format!("Player {}", player_index.display_number())`; a player index has one digit.
unfoldable pub default_display_name : PlayerIndex → Chars
default_display_name player_index = codes "Player " ++ (49 + player_index) ∷ []

-- `voice_token_refresh_request`
unfoldable pub voice_token_refresh_request :
    Lobby → ConnectionId → Result LobbyError RoomVoiceTokenRefreshRequest
unfolding player_index_for_connection voice_grant_for lobby_slot default_display_name
voice_token_refresh_request l connection_id = do
  player_index ← player_index_for_connection l connection_id
  grant ← ok_or (voice_grant_for l player_index) voice_unavailable
  let name : Option Chars = elim (lobby_slot l player_index) [
    | none ↦ none
    | some s ↦ s.display_name
  ]
  ok record {
    voice_room_id = grant.voice_room_id;
    player_index = player_index;
    participant_identity = grant.participant_identity;
    display_name = elim name [ none ↦ default_display_name player_index | some known ↦ known ];
  }

-- `refresh_voice_grant`
unfoldable pub refresh_voice_grant :
    Lobby → ConnectionId → Chars → Chars → Chars → Result LobbyError (Lobby × PlayerVoiceJoinGrant)
unfolding player_index_for_connection refresh_grant
refresh_voice_grant l connection_id participant_identity token expires_at = do
  player_index ← player_index_for_connection l connection_id
  voice ← ok_or l.voice voice_unavailable
  fresh ←
      ok_or (refresh_grant voice player_index participant_identity token expires_at)
        voice_unavailable
  ok (record l { voice = some fresh.0 }, fresh.1)

-- `take_voice_room_id_for_cleanup`
unfoldable pub take_voice_room_id_for_cleanup : Lobby → Lobby × Option Chars
take_voice_room_id_for_cleanup l = elim l.voice [
  | none ↦ (l, none)
  | some voice ↦ elim voice.view.voice_room_id [
    | none ↦ (l, none)
    | some id ↦ (record l { voice = none }, some id)
  ]
]
