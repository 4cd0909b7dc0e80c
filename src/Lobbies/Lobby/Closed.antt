-- ===== src/Lobbies/Lobby/Closed.antt =====
-- A closed lobby (src/lobbies/lobby.rs).
-- The lobbies agree in all but their voice state.
use sn_netplay_serv.Base.{err, ◌≡◌, refl, true, none, arith}
use sn_netplay_serv.Lobbies.Lobby.{
  player_index_for_connection, Lobby, require_player, require_host, record_activity,
  close_due_to_idle,
}
use sn_netplay_serv.Lobbies.Lobby.Invariant.{IsSound}
use sn_netplay_serv.Lobbies.Lobby.Launching.{
  select_game, set_game_readiness, request_game_launch, publish_game_room, mark_gameplay_started,
  return_to_lobby,
}
use sn_netplay_serv.Lobbies.Lobby.Players.{
  join_or_refresh_player, reconnect_player, disconnect_lobby_player, leave_lobby, remove_player,
}
use sn_netplay_serv.Lobbies.Lobby.Seats.{silent-unknown}
use sn_netplay_serv.Lobbies.Lobby.Steps.{
  LobbyStep, join_step, reconnect_step, disconnect_step, leave_step, remove_step, select_step,
  readiness_step, launch_step, publish_step, started_step, return_step, activity_step, idle_step,
  voice_step, cleanup_step,
}
use sn_netplay_serv.Lobbies.Lobby.Voice.{refresh_voice_grant, take_voice_room_id_for_cleanup}
use sn_netplay_serv.Lobbies.Types.{unknown_connection, closed, lobby_status_code, has_lobby_status}
use sn_netplay_serv.Protocol.Ids.{ConnectionId}

abbrev pub IsSameButVoice : Lobby → Lobby → Type 0
IsSameButVoice l l' = record l { voice = none } ≡ record l' { voice = none }

closed-unknown :
    (l : Lobby) (c : ConnectionId)
    → IsSound l
    → l.status ≡ closed
    → player_index_for_connection l c ≡ err unknown_connection
unfolding player_index_for_connection
closed-unknown l c inv down =
    rw (silent-unknown c l.players (inv.still down).0, player_index_for_connection) refl

closed-refused :
    (l : Lobby) (c : ConnectionId)
    → IsSound l
    → l.status ≡ closed
    → require_player l c ≡ err unknown_connection
unfolding require_player
closed-refused l c inv down = ground (arith, closed-unknown l c inv down)

closed-status : (l : Lobby) → l.status ≡ closed → has_lobby_status l.status closed ≡ true
unfolding has_lobby_status lobby_status_code
closed-status l down = rw down refl

-- In a sound lobby that is closed, every call is refused or changes nothing but the voice state:
-- nobody joins, reconnects, leaves, selects, launches or returns, and the lobby stays closed.
pub closed-LobbyStep :
    {l l' : Lobby} → LobbyStep l l' → IsSound l → l.status ≡ closed → IsSameButVoice l l'
unfolding join_or_refresh_player reconnect_player disconnect_lobby_player leave_lobby remove_player
    select_game set_game_readiness request_game_launch publish_game_room mark_gameplay_started
    return_to_lobby record_activity close_due_to_idle refresh_voice_grant
    take_voice_room_id_for_cleanup require_host
closed-LobbyStep {l} {l'} (join_step license c name capabilities hash now i e) inv down =
    absurd (ground (arith, closed-status l down))
closed-LobbyStep {l} {l'} (reconnect_step sha256 q i e) inv down =
    absurd (ground (arith, closed-status l down))
closed-LobbyStep {l} (disconnect_step c now) inv down =
    ground (arith, silent-unknown c l.players (inv.still down).0)
closed-LobbyStep {l} {l'} (leave_step c now e) inv down =
    absurd (ground (arith, closed-refused l c inv down))
closed-LobbyStep {l} {l'} (remove_step c epoch i now removal e) inv down =
    absurd (ground (arith, closed-refused l c inv down))
closed-LobbyStep {l} {l'} (select_step c game proposal now v e) inv down =
    absurd (ground (arith, closed-refused l c inv down))
closed-LobbyStep {l} {l'} (readiness_step c proposal status detail now v e) inv down =
    absurd (ground (arith, closed-unknown l c inv down))
closed-LobbyStep {l} {l'} (launch_step c proposal now v e) inv down =
    absurd (ground (arith, closed-refused l c inv down))
closed-LobbyStep {l} {l'} (publish_step c proposal room_code now v e) inv down =
    absurd (ground (arith, closed-refused l c inv down))
closed-LobbyStep {l} {l'} (started_step c epoch proposal now b e) inv down =
    absurd (ground (arith, closed-refused l c inv down))
closed-LobbyStep {l} {l'} (return_step q o e) inv down =
    absurd (ground (arith, closed-unknown l q.connection_id inv down))
closed-LobbyStep {l} {l'} (activity_step c kind now e) inv down =
    absurd (ground (arith, closed-unknown l c inv down))
closed-LobbyStep {l} (idle_step now) inv down = ground (arith, closed-status l down)
closed-LobbyStep {l} {l'} (voice_step c identity token expires g e) inv down =
    absurd (ground (arith, closed-unknown l c inv down))
closed-LobbyStep {l} cleanup_step inv down = ground arith
