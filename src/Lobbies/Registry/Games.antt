-- ===== src/Lobbies/Registry/Games.antt =====
-- src/lobbies/in_memory_lobby_registry.rs: the calls about the game of a lobby, its file transfers,
-- its chat and its activity. Each is made under the write lock.
-- `select_lobby_game`
use sn_netplay_serv.Base.{
  ltb, if◌then◌else◌, length, is_empty, Result, ◌>>=◌, ◌>>◌, fail_if, ok_or, ok, ℕ, not, ◌||◌,
  Option,
}
use sn_netplay_serv.Base.Chars.{Chars, single_line}
use sn_netplay_serv.Lobbies.Game.{
  LobbyGameCandidate, ProposalId, LobbyGameReadinessStatus, LobbyReturnRequest,
}
use sn_netplay_serv.Lobbies.Lobby.{
  player_index_for_connection, mark_meaningful_activity, record_activity,
}
use sn_netplay_serv.Lobbies.Lobby.Launching.{
  select_game, set_game_readiness, request_game_launch, publish_game_room, mark_gameplay_started,
  return_to_lobby,
}
use sn_netplay_serv.Lobbies.Lobby.Relay.{
  LobbyRomRelayTransferIntent, prepare_rom_relay_transfer, require_rom_relay_transfer_current,
  LobbyStartupStateTransferMetadata, LobbyStartupStateRelayTransferIntent,
  prepare_startup_state_relay_transfer, require_startup_state_relay_transfer_current,
}
use sn_netplay_serv.Lobbies.Lobby.Voice.{voice_token_refresh_request, refresh_voice_grant}
use sn_netplay_serv.Lobbies.Registry.{
  LobbyRegistry, stored_lobby, Called, with_lobby, shown, shown_publicly, answered,
}
use sn_netplay_serv.Lobbies.Registry.Events.{
  LobbyChatMessageView, LobbyFileRelayGrantPair, stored_view, emit_state_changed,
  emit_lobby_returned, emit_chat_message, emit_rom_transfer_grants,
  emit_startup_state_transfer_grants,
}
use sn_netplay_serv.Lobbies.Types.{
  not_found, invalid_payload, voice_unavailable, LobbyError, LobbyActivityKind, rom_relay,
}
use sn_netplay_serv.Lobbies.View.{LobbyView}
use sn_netplay_serv.Protocol.Ids.{PlayerIndex, ConnectionId}
use sn_netplay_serv.Rooms.InviteCode.{InviteCode}
use sn_netplay_serv.Rooms.Voice.{PlayerVoiceJoinGrant, RoomVoiceTokenRefreshRequest}

unfoldable pub select_lobby_game :
    LobbyRegistry
    → InviteCode
    → ConnectionId
    → LobbyGameCandidate
    → ProposalId
    → ℕ
    → Result LobbyError (LobbyRegistry × LobbyView)
unfolding with_lobby select_game emit_state_changed shown_publicly
select_lobby_game r code connection_id game proposal_id now_ms = do
  called ←
      with_lobby code (λ l. select_game l connection_id game proposal_id now_ms)
        (λ v s. emit_state_changed s) r
  ok (shown_publicly called)

-- `set_lobby_game_readiness`
unfoldable pub set_lobby_game_readiness :
    LobbyRegistry
    → InviteCode
    → ConnectionId
    → ProposalId
    → LobbyGameReadinessStatus
    → Option Chars
    → ℕ
    → Result LobbyError (LobbyRegistry × LobbyView)
unfolding with_lobby set_game_readiness emit_state_changed shown
set_lobby_game_readiness r code connection_id proposal_id status detail now_ms = do
  called ←
      with_lobby code (λ l. set_game_readiness l connection_id proposal_id status detail now_ms)
        (λ v s. emit_state_changed s) r
  ok (shown called)

-- `request_lobby_game_launch`
unfoldable pub request_lobby_game_launch :
    LobbyRegistry
    → InviteCode
    → ConnectionId
    → ProposalId
    → ℕ
    → Result LobbyError (LobbyRegistry × LobbyView)
unfolding with_lobby request_game_launch emit_state_changed shown_publicly
request_lobby_game_launch r code connection_id proposal_id now_ms = do
  called ←
      with_lobby code (λ l. request_game_launch l connection_id proposal_id now_ms)
        (λ v s. emit_state_changed s) r
  ok (shown_publicly called)

-- `prepare_lobby_rom_relay_transfer`
unfoldable pub prepare_lobby_rom_relay_transfer :
    LobbyRegistry
    → InviteCode
    → ConnectionId
    → ProposalId
    → PlayerIndex
    → ℕ
    → ℕ
    → Result LobbyError (LobbyRegistry × LobbyRomRelayTransferIntent)
unfolding with_lobby prepare_rom_relay_transfer record_activity answered
prepare_lobby_rom_relay_transfer r code connection_id proposal_id receiver max_bytes now_ms = do
  called ←
      with_lobby code
        (λ l. do
          intent ← prepare_rom_relay_transfer l connection_id proposal_id receiver max_bytes
          active ← record_activity l connection_id rom_relay now_ms
          ok (active, intent))
        (λ intent s. s) r
  ok (answered called)

-- `grant_lobby_rom_relay_transfer`
unfoldable pub grant_lobby_rom_relay_transfer :
    LobbyRegistry
    → InviteCode
    → LobbyRomRelayTransferIntent
    → LobbyFileRelayGrantPair
    → Result LobbyError LobbyRegistry
unfolding with_lobby require_rom_relay_transfer_current emit_rom_transfer_grants
grant_lobby_rom_relay_transfer r code intent grants = do
  called ←
      with_lobby code (λ l. do require_rom_relay_transfer_current l intent; ok (l, intent))
        (λ i s.
          emit_rom_transfer_grants intent.sender_connection_id intent.receiver_connection_id grants
            s)
        r
  ok called.registry

-- `prepare_lobby_startup_state_relay_transfer`
unfoldable pub prepare_lobby_startup_state_relay_transfer :
    LobbyRegistry
    → InviteCode
    → ConnectionId
    → ProposalId
    → PlayerIndex
    → LobbyStartupStateTransferMetadata
    → ℕ
    → ℕ
    → Result LobbyError (LobbyRegistry × LobbyStartupStateRelayTransferIntent)
unfolding with_lobby prepare_startup_state_relay_transfer record_activity answered
prepare_lobby_startup_state_relay_transfer r code connection_id proposal_id receiver state max_bytes
      now_ms =
    do
      called ←
          with_lobby code
            (λ l. do
              intent ←
                  prepare_startup_state_relay_transfer l connection_id proposal_id receiver state
                    max_bytes
              active ← record_activity l connection_id rom_relay now_ms
              ok (active, intent))
            (λ intent s. s) r
      ok (answered called)

-- `grant_lobby_startup_state_relay_transfer`
unfoldable pub grant_lobby_startup_state_relay_transfer :
    LobbyRegistry
    → InviteCode
    → LobbyStartupStateRelayTransferIntent
    → LobbyFileRelayGrantPair
    → Result LobbyError LobbyRegistry
unfolding with_lobby require_startup_state_relay_transfer_current emit_startup_state_transfer_grants
grant_lobby_startup_state_relay_transfer r code intent grants = do
  called ←
      with_lobby code
        (λ l. do require_startup_state_relay_transfer_current l intent; ok (l, intent))
        (λ i s.
          emit_startup_state_transfer_grants intent.sender_connection_id
            intent.receiver_connection_id grants s)
        r
  ok called.registry

-- `publish_lobby_game_room`
unfoldable pub publish_lobby_game_room :
    LobbyRegistry
    → InviteCode
    → ConnectionId
    → ProposalId
    → InviteCode
    → ℕ
    → Result LobbyError (LobbyRegistry × LobbyView)
unfolding with_lobby publish_game_room emit_state_changed shown_publicly
publish_lobby_game_room r code connection_id proposal_id room_invite_code now_ms = do
  called ←
      with_lobby code (λ l. publish_game_room l connection_id proposal_id room_invite_code now_ms)
        (λ v s. emit_state_changed s) r
  ok (shown_publicly called)

-- `mark_lobby_gameplay_started`
unfoldable pub mark_lobby_gameplay_started :
    LobbyRegistry
    → InviteCode
    → ConnectionId
    → ℕ
    → ProposalId
    → ℕ
    → Result LobbyError (LobbyRegistry × LobbyView)
unfolding with_lobby mark_gameplay_started player_index_for_connection emit_state_changed shown
mark_lobby_gameplay_started r code connection_id lobby_epoch proposal_id now_ms = do
  called ←
      with_lobby code
        (λ l. do
          reporting_player ← player_index_for_connection l connection_id
          mark_gameplay_started l connection_id lobby_epoch proposal_id now_ms)
        (λ changed s. if changed then emit_state_changed s else s) r
  ok (shown called)

-- `return_lobby_from_game`
unfoldable pub return_lobby_from_game :
    LobbyRegistry → InviteCode → LobbyReturnRequest → Result LobbyError (LobbyRegistry × LobbyView)
unfolding with_lobby return_to_lobby emit_lobby_returned emit_state_changed shown shown_publicly
return_lobby_from_game r code request = do
  called ←
      with_lobby code (λ l. return_to_lobby l request)
        (λ outcome s.
          if outcome.state_changed
          then emit_state_changed (emit_lobby_returned outcome.returned s)
          else s)
        r
  ok (if called.value.state_changed then shown_publicly called else shown called)

-- `sanitize_chat_body`
unfoldable pub sanitize_chat_body : Chars → Result LobbyError Chars
unfolding single_line
sanitize_chat_body body =
    let sanitized = single_line body in
    do fail_if (is_empty sanitized || ltb 500 (length sanitized)) invalid_payload; ok sanitized

-- `LobbyChatMessageView::new`, with the id that it draws.
unfoldable pub new_chat_message : ℕ → PlayerIndex → Chars → ℕ → LobbyChatMessageView
new_chat_message message_id player_index body sent_at_ms = record {
  message_id = message_id;
  player_index = player_index;
  sent_at_ms = sent_at_ms;
  body = body;
}

-- `send_lobby_chat`; the code reads the clock twice, for the message and for the activity.
unfoldable pub send_lobby_chat :
    LobbyRegistry
    → InviteCode
    → ConnectionId
    → Chars
    → ℕ
    → ℕ
    → ℕ
    → Result LobbyError (LobbyRegistry × LobbyChatMessageView)
unfolding with_lobby player_index_for_connection sanitize_chat_body new_chat_message
    mark_meaningful_activity emit_chat_message answered
send_lobby_chat r code connection_id body message_id sent_at_ms now_ms = do
  called ←
      with_lobby code
        (λ l. do
          player_index ← player_index_for_connection l connection_id
          sanitized ← sanitize_chat_body body
          ok (
            mark_meaningful_activity now_ms l,
            new_chat_message message_id player_index sanitized sent_at_ms,
          ))
        emit_chat_message r
  ok (answered called)

-- `record_lobby_activity`
unfoldable pub record_lobby_activity :
    LobbyRegistry
    → InviteCode
    → ConnectionId
    → LobbyActivityKind
    → ℕ
    → Result LobbyError LobbyRegistry
unfolding with_lobby record_activity
record_lobby_activity r code connection_id kind now_ms = do
  called ←
      with_lobby code
        (λ l. do active ← record_activity l connection_id kind now_ms; ok (active, kind)) (λ k s. s)
        r
  ok called.registry

-- The checks and the first lock of `refresh_lobby_voice_token_impl`: what the broker is asked.
unfoldable pub request_lobby_voice_token :
    LobbyRegistry → InviteCode → ConnectionId → Result LobbyError RoomVoiceTokenRefreshRequest
unfolding stored_lobby voice_token_refresh_request
request_lobby_voice_token r code connection_id = do
  fail_if (not r.voice_is_enabled) voice_unavailable
  s ← ok_or (stored_lobby code r.lobbies) not_found
  voice_token_refresh_request s.lobby connection_id

pub record LobbyVoiceTokenRefresh : Type 0 where
  pub event_seq : ℕ
  pub lobby_epoch : ℕ
  pub voice : PlayerVoiceJoinGrant

unfoldable pub refreshed : Called PlayerVoiceJoinGrant → LobbyRegistry × LobbyVoiceTokenRefresh
unfolding stored_view
refreshed called =
    let view = stored_view called.stored in
    (
      called.registry,
      record { event_seq = view.event_seq; lobby_epoch = view.lobby_epoch; voice = called.value },
    )

-- The second lock of `refresh_lobby_voice_token_impl`: the broker's grant is kept.
unfoldable pub keep_lobby_voice_token :
    LobbyRegistry
    → InviteCode
    → ConnectionId
    → Chars
    → Chars
    → Chars
    → Result LobbyError (LobbyRegistry × LobbyVoiceTokenRefresh)
unfolding with_lobby refresh_voice_grant refreshed
keep_lobby_voice_token r code connection_id participant_identity token expires_at = do
  called ←
      with_lobby code
        (λ l. refresh_voice_grant l connection_id participant_identity token expires_at) (λ g s. s)
        r
  ok (refreshed called)
