-- ===== src/Lobbies/Registry/Reachable.antt =====
-- The lobbies of the registry stay sound (src/lobbies/in_memory_lobby_registry.rs).
use mathlib.Core.Path.{subst}
use sn_netplay_serv.Base.{if◌then◌else◌, ok, ◌≡◌, refl, sym, Bool, some, arith}
use sn_netplay_serv.Base.Chars.{codes}
use sn_netplay_serv.Lobbies.Game.{LobbyReturnOutcome}
use sn_netplay_serv.Lobbies.Lobby.Invariant.{IsSound}
use sn_netplay_serv.Lobbies.Lobby.Launching.{return_to_lobby}
use sn_netplay_serv.Lobbies.Lobby.Players.{
  hash_resume_token, reconnect_player, disconnect_lobby_player,
}
use sn_netplay_serv.Lobbies.Lobby.Reachable.{LobbyStep-IsSound}
use sn_netplay_serv.Lobbies.Lobby.Relay.{
  prepare_rom_relay_transfer, require_rom_relay_transfer_current,
  prepare_startup_state_relay_transfer, require_startup_state_relay_transfer_current,
}
use sn_netplay_serv.Lobbies.Lobby.Steps.{
  join_step, reconnect_step, disconnect_step, select_step, readiness_step, launch_step,
  publish_step, return_step, voice_step,
}
use sn_netplay_serv.Lobbies.Registry.{
  LobbyRegistry, new_registry, emit_public_lobbies_changed, stored_lobby, Called, shown,
  shown_publicly, answered, cleanup_lobby_voice_room,
}
use sn_netplay_serv.Lobbies.Registry.Calls.{
  prepared-IsSound, granted-IsSound, leave_and_take_voice-IsSound, expire-AreSound, cleanup-lobbies,
  expired-lobbies, ok-IsSound, removed-AreSound, reported-IsSound, chat-IsSound, created-IsSound,
}
use sn_netplay_serv.Lobbies.Registry.Events.{
  StoredLobby, new_stored_lobby, stored_view, emit, emit_state_changed, emit_lobby_returned,
  emit_chat_message, emit_rom_transfer_grants, emit_startup_state_transfer_grants,
}
use sn_netplay_serv.Lobbies.Registry.Games.{
  select_lobby_game, set_lobby_game_readiness, request_lobby_game_launch,
  prepare_lobby_rom_relay_transfer, grant_lobby_rom_relay_transfer,
  prepare_lobby_startup_state_relay_transfer, grant_lobby_startup_state_relay_transfer,
  publish_lobby_game_room, mark_lobby_gameplay_started, return_lobby_from_game, send_lobby_chat,
  record_lobby_activity, refreshed, keep_lobby_voice_token,
}
use sn_netplay_serv.Lobbies.Registry.Members.{
  create_lobby, joined_publicly, connect_lobby, reconnection, reconnect_lobby_player,
  disconnect_lobby, leave_and_take_voice, leave_registered_lobby,
}
use sn_netplay_serv.Lobbies.Registry.Sound.{AreSound, stored-IsSound, put-AreSound, call-AreSound}
use sn_netplay_serv.Lobbies.Registry.Steps.{
  RegistryStep, RegistrySteps, create_call, connect_call, reconnect_call, disconnect_call,
  leave_call, remove_call, select_call, readiness_call, launch_call, rom_relay_call, rom_grant_call,
  startup_relay_call, startup_grant_call, publish_call, started_call, return_call, chat_call,
  activity_call, voice_call, expire_call, no_registry_step, and_registry_step,
}
use sn_netplay_serv.Lobbies.Types.{LobbyServerCapabilities, rom_relay}
use sn_netplay_serv.Lobbies.View.{LobbyView}
use sn_netplay_serv.Rooms.InviteCode.{InviteCode}

pub RegistryStep-AreSound :
    {r r' : LobbyRegistry} → RegistryStep r r' → AreSound r.lobbies → AreSound r'.lobbies
unfolding create_lobby connect_lobby reconnect_lobby_player disconnect_lobby leave_registered_lobby
    select_lobby_game set_lobby_game_readiness request_lobby_game_launch
    prepare_lobby_rom_relay_transfer grant_lobby_rom_relay_transfer
    prepare_lobby_startup_state_relay_transfer grant_lobby_startup_state_relay_transfer
    publish_lobby_game_room mark_lobby_gameplay_started return_lobby_from_game send_lobby_chat
    record_lobby_activity keep_lobby_voice_token emit_public_lobbies_changed emit_state_changed emit
    new_stored_lobby emit_rom_transfer_grants emit_startup_state_transfer_grants emit_chat_message
    emit_lobby_returned shown shown_publicly answered joined_publicly refreshed
RegistryStep-AreSound {r} (create_call sha256 draws license params) inv =
    put-AreSound draws.invite_code _ r.lobbies (created-IsSound sha256 draws license params) inv
RegistryStep-AreSound {r} {r'} (connect_call sha256 code license params c token now v e) inv =
    call-AreSound code _ (λ a s. emit_state_changed s) r (joined_publicly token) (λ p. p.0) (r', v)
      e (λ called. refl)
      (λ l l' a done. LobbyStep-IsSound (
        join_step license c params.display_name params.capabilities (hash_resume_token sha256 token)
          now a done))
      (λ a s. refl) inv
RegistryStep-AreSound {r} {r'} (reconnect_call sha256 request now v e) inv =
    call-AreSound request.invite_code (λ l. reconnect_player sha256 l (reconnection request now))
      (λ a s. emit_state_changed s) r (joined_publicly request.resume_token) (λ p. p.0) (r', v) e
      (λ called. refl)
      (λ l l' a done. LobbyStep-IsSound (reconnect_step sha256 (reconnection request now) a done))
      (λ a s. refl) inv
RegistryStep-AreSound {r} {r'} (disconnect_call code c now v e) inv =
    call-AreSound code (λ l. ok (disconnect_lobby_player l c now))
      (λ changed s. if changed then emit_state_changed s else s) r
      (λ called. if called.value then shown_publicly called else shown called)
      (λ (p : LobbyRegistry × LobbyView). p.0) (r', v) e (λ called. ground arith)
      (λ l l' a done inv'.
        ok-IsSound (ok (disconnect_lobby_player l c now)) (disconnect_lobby_player l c now) l' a
          refl done (LobbyStep-IsSound (disconnect_step c now) inv'))
      (λ changed s. ground arith) inv
RegistryStep-AreSound {r} {r'} (leave_call code c now v e) inv =
    call-AreSound code (leave_and_take_voice c now) (λ a s. emit_state_changed s) r
      (λ called. (
        emit_public_lobbies_changed
            (cleanup_lobby_voice_room called.value (codes "lobby-left") called.registry),
        stored_view called.stored,
      ))
      (λ p. p.0) (r', v) e
      (λ called. cleanup-lobbies called.value (codes "lobby-left") called.registry)
      (leave_and_take_voice-IsSound c now) (λ a s. refl) inv
RegistryStep-AreSound {r} {r'} (remove_call code c epoch target now v e) inv =
    removed-AreSound r r' code c epoch target now v e inv
RegistryStep-AreSound {r} {r'} (select_call code c game proposal now v e) inv =
    call-AreSound code _ (λ a s. emit_state_changed s) r shown_publicly (λ p. p.0) (r', v) e
      (λ called. refl) (λ l l' a done. LobbyStep-IsSound (select_step c game proposal now a done))
      (λ a s. refl) inv
RegistryStep-AreSound {r} {r'} (readiness_call code c proposal status detail now v e) inv =
    call-AreSound code _ (λ a s. emit_state_changed s) r shown (λ p. p.0) (r', v) e (λ called. refl)
      (λ l l' a done. LobbyStep-IsSound (readiness_step c proposal status detail now a done))
      (λ a s. refl) inv
RegistryStep-AreSound {r} {r'} (launch_call code c proposal now v e) inv =
    call-AreSound code _ (λ a s. emit_state_changed s) r shown_publicly (λ p. p.0) (r', v) e
      (λ called. refl) (λ l l' a done. LobbyStep-IsSound (launch_step c proposal now a done))
      (λ a s. refl) inv
RegistryStep-AreSound {r} {r'} (rom_relay_call code c proposal receiver limit now v e) inv =
    call-AreSound code _ (λ a s. s) r answered (λ p. p.0) (r', v) e (λ called. refl)
      (λ l l' a done.
        prepared-IsSound (prepare_rom_relay_transfer l c proposal receiver limit) l l' c rom_relay
          now a done)
      (λ a s. refl) inv
RegistryStep-AreSound {r} {r'} (rom_grant_call code intent grants e) inv =
    call-AreSound code _
      (λ a s.
        emit_rom_transfer_grants intent.sender_connection_id intent.receiver_connection_id grants s)
      r (λ called. called.registry) (λ p. p) r' e (λ called. refl)
      (λ l l' a done inv'.
        granted-IsSound (require_rom_relay_transfer_current l intent) l l' intent a done inv')
      (λ a s. refl) inv
RegistryStep-AreSound {r} {r'} (startup_relay_call code c proposal receiver state limit now v e)
      inv =
    call-AreSound code _ (λ a s. s) r answered (λ p. p.0) (r', v) e (λ called. refl)
      (λ l l' a done.
        prepared-IsSound (prepare_startup_state_relay_transfer l c proposal receiver state limit) l
          l' c rom_relay now a done)
      (λ a s. refl) inv
RegistryStep-AreSound {r} {r'} (startup_grant_call code intent grants e) inv =
    call-AreSound code _
      (λ a s.
        emit_startup_state_transfer_grants intent.sender_connection_id intent.receiver_connection_id
          grants s)
      r (λ called. called.registry) (λ p. p) r' e (λ called. refl)
      (λ l l' a done inv'.
        granted-IsSound (require_startup_state_relay_transfer_current l intent) l l' intent a done
          inv')
      (λ a s. refl) inv
RegistryStep-AreSound {r} {r'} (publish_call code c proposal room_code now v e) inv =
    call-AreSound code _ (λ a s. emit_state_changed s) r shown_publicly (λ p. p.0) (r', v) e
      (λ called. refl)
      (λ l l' a done. LobbyStep-IsSound (publish_step c proposal room_code now a done))
      (λ a s. refl) inv
RegistryStep-AreSound {r} {r'} (started_call code c epoch proposal now v e) inv =
    call-AreSound code _ (λ changed s. if changed then emit_state_changed s else s) r shown
      (λ p. p.0) (r', v) e (λ called. refl)
      (λ l l' a done. reported-IsSound l l' c epoch proposal now a done) (λ changed s. ground arith)
      inv
RegistryStep-AreSound {r} {r'} (return_call code request v e) inv =
    call-AreSound code (λ l. return_to_lobby l request)
      (λ (outcome : LobbyReturnOutcome) s.
        if outcome.state_changed
        then emit_state_changed (emit_lobby_returned outcome.returned s)
        else s)
      r
      (λ (called : Called LobbyReturnOutcome).
        if called.value.state_changed then shown_publicly called else shown called)
      (λ (p : LobbyRegistry × LobbyView). p.0) (r', v) e (λ called. ground arith)
      (λ l l' a done. LobbyStep-IsSound (return_step request a done)) (λ outcome s. ground arith)
      inv
RegistryStep-AreSound {r} {r'} (chat_call code c body id sent now v e) inv =
    call-AreSound code _ emit_chat_message r answered (λ p. p.0) (r', v) e (λ called. refl)
      (λ l l' a done. chat-IsSound l l' c body id sent now a done) (λ a s. refl) inv
RegistryStep-AreSound {r} {r'} (activity_call code c kind now e) inv =
    call-AreSound code _ (λ a s. s) r (λ called. called.registry) (λ p. p) r' e (λ called. refl)
      (λ l l' a done. prepared-IsSound (ok kind) l l' c kind now a done) (λ a s. refl) inv
RegistryStep-AreSound {r} {r'} (voice_call code c identity token expires v e) inv =
    call-AreSound code _ (λ a s. s) r refreshed (λ p. p.0) (r', v) e (λ called. refl)
      (λ l l' a done. LobbyStep-IsSound (voice_step c identity token expires a done)) (λ a s. refl)
      inv
RegistryStep-AreSound {r} (expire_call now timeout) inv =
    subst AreSound (sym (expired-lobbies r now timeout)) (expire-AreSound now timeout r.lobbies inv)

RegistrySteps-AreSound :
    {r r' : LobbyRegistry} → RegistrySteps r r' → AreSound r.lobbies → AreSound r'.lobbies
RegistrySteps-AreSound no_registry_step inv = inv
RegistrySteps-AreSound (and_registry_step before last) inv =
    RegistryStep-AreSound last (RegistrySteps-AreSound before inv)

-- After any calls of a new registry, every lobby that it finds under an invite code has four seats in
-- order, of which only the first is the host's; no subject holds two of them; its status is the one
-- that its launch and its selected game call for, unless it is closed; a closed one has no connection
-- and no launch; and a launch and every readiness are of the selected game.
pub new_registry-RegistrySteps :
    (capabilities : LobbyServerCapabilities) (voice_is_enabled : Bool) (r : LobbyRegistry)
    (code : InviteCode) (s : StoredLobby)
    → RegistrySteps (new_registry capabilities voice_is_enabled) r
    → stored_lobby code r.lobbies ≡ some s
    → IsSound s.lobby
unfolding new_registry
new_registry-RegistrySteps capabilities voice_is_enabled r code s steps found =
    stored-IsSound code r.lobbies s (RegistrySteps-AreSound steps tt) found
