-- ===== src/Lobbies/Lobby/Reachable.antt =====
-- A lobby is sound from its creation on (src/lobbies/lobby.rs).
use sn_netplay_serv.Base.{ok, ℕ, ◌≡◌, refl, inr, arith}
use sn_netplay_serv.Base.Chars.{Chars}
use sn_netplay_serv.Lobbies.Game.{ProposalId, new_selection}
use sn_netplay_serv.Lobbies.Lobby.{
  Lobby, LobbyCreateRequest, setup_status, new_lobby, mark_meaningful_activity, record_activity,
}
use sn_netplay_serv.Lobbies.Lobby.Invariant.{stage, IsSound, same-IsSound, setup-open}
use sn_netplay_serv.Lobbies.Lobby.Seating.{
  join-IsSound, reconnect-IsSound, disconnect-IsSound, idle-IsSound,
}
use sn_netplay_serv.Lobbies.Lobby.Seats.{Seats}
use sn_netplay_serv.Lobbies.Lobby.Staging.{
  select-IsSound, readiness-IsSound, launch-IsSound, publish-IsSound, started-IsSound,
  return-IsSound,
}
use sn_netplay_serv.Lobbies.Lobby.Steps.{
  LobbyStep, LobbySteps, join_step, reconnect_step, disconnect_step, leave_step, remove_step,
  select_step, readiness_step, launch_step, publish_step, started_step, return_step, activity_step,
  idle_step, voice_step, cleanup_step, no_lobby_step, and_lobby_step,
}
use sn_netplay_serv.Lobbies.Lobby.Subjects.{seat_of, seats_of}
use sn_netplay_serv.Lobbies.Lobby.Vacating.{leave-IsSound, remove-IsSound}
use sn_netplay_serv.Lobbies.Lobby.Voice.{refresh_voice_grant, take_voice_room_id_for_cleanup}
use sn_netplay_serv.Lobbies.Player.{
  empty_lobby_slot, occupy, host_lobby_slot, lobby_slot_is_empty, has_subject,
}
use sn_netplay_serv.Lobbies.Types.{is_lobby_host, is_empty_status}
use sn_netplay_serv.Protocol.Ids.{ConnectionId}
use sn_netplay_serv.Rooms.Voice.{PlayerVoiceJoinGrant}

pub new_lobby-IsSound :
    (lobby_id : ℕ) (proposal : ProposalId) (request : LobbyCreateRequest)
    → IsSound (new_lobby lobby_id proposal request)
unfolding new_lobby Seats seats_of seat_of has_subject host_lobby_slot empty_lobby_slot occupy
    setup_status stage lobby_slot_is_empty is_empty_status is_lobby_host new_selection
new_lobby-IsSound lobby_id proposal request = record {
  seats = (
    record {
      placed = refl;
      hosted = refl;
      vacant = refl;
      silent = λ h. absurd (cc);
      taken = λ h. refl;
    },
    (
      record {
        placed = refl;
        hosted = refl;
        vacant = refl;
        silent = λ h. refl;
        taken = λ h. absurd (omega (arith, h));
      },
      (
        record {
          placed = refl;
          hosted = refl;
          vacant = refl;
          silent = λ h. refl;
          taken = λ h. absurd (omega (arith, h));
        },
        (
          record {
            placed = refl;
            hosted = refl;
            vacant = refl;
            silent = λ h. refl;
            taken = λ h. absurd (omega (arith, h));
          },
          refl,
        ),
      ),
    ),
  );
  each = λ key. ground arith;
  staged = inr refl;
  still = λ h. absurd (setup-open (new_lobby lobby_id proposal request).selected_game h);
  launched = λ v h. absurd (cc);
  current = tt;
}

refresh_voice-IsSound :
    (l l' : Lobby) (c : ConnectionId) (identity token expires : Chars) (g : PlayerVoiceJoinGrant)
    → refresh_voice_grant l c identity token expires ≡ ok (l', g)
    → IsSound l
    → IsSound l'
unfolding refresh_voice_grant
refresh_voice-IsSound l l' c identity token expires g e inv =
    same-IsSound l l' (ground arith) (ground arith) (ground arith) (ground arith) (ground arith) inv

pub LobbyStep-IsSound : {l l' : Lobby} → LobbyStep l l' → IsSound l → IsSound l'
unfolding record_activity mark_meaningful_activity take_voice_room_id_for_cleanup
LobbyStep-IsSound {l} {l'} (join_step license c name capabilities hash now i e) inv =
    join-IsSound l l' license c name capabilities hash now i e inv
LobbyStep-IsSound {l} {l'} (reconnect_step sha256 q i e) inv =
    reconnect-IsSound sha256 l l' q i e inv
LobbyStep-IsSound {l} (disconnect_step c now) inv = disconnect-IsSound l c now inv
LobbyStep-IsSound {l} {l'} (leave_step c now e) inv = leave-IsSound l l' c now e inv
LobbyStep-IsSound {l} {l'} (remove_step c epoch i now removal e) inv =
    remove-IsSound l l' c epoch i now removal e inv
LobbyStep-IsSound {l} {l'} (select_step c game proposal now v e) inv =
    select-IsSound l l' c game proposal now v e inv
LobbyStep-IsSound {l} {l'} (readiness_step c proposal status detail now v e) inv =
    readiness-IsSound l l' c proposal status detail now v e inv
LobbyStep-IsSound {l} {l'} (launch_step c proposal now v e) inv =
    launch-IsSound l l' c proposal now v e inv
LobbyStep-IsSound {l} {l'} (publish_step c proposal room_code now v e) inv =
    publish-IsSound l l' c proposal room_code now v e inv
LobbyStep-IsSound {l} {l'} (started_step c epoch proposal now b e) inv =
    started-IsSound l l' c epoch proposal now b e inv
LobbyStep-IsSound {l} {l'} (return_step q o e) inv = return-IsSound l l' q o e inv
LobbyStep-IsSound {l} {l'} (activity_step c kind now e) inv =
    same-IsSound l l' (ground arith) (ground arith) (ground arith) (ground arith) (ground arith) inv
LobbyStep-IsSound {l} (idle_step now) inv = idle-IsSound l now inv
LobbyStep-IsSound {l} {l'} (voice_step c identity token expires g e) inv =
    refresh_voice-IsSound l l' c identity token expires g e inv
LobbyStep-IsSound {l} cleanup_step inv =
    same-IsSound l (take_voice_room_id_for_cleanup l).0 (ground arith) (ground arith) (ground arith)
      (ground arith) (ground arith) inv

pub LobbySteps-IsSound : {l l' : Lobby} → LobbySteps l l' → IsSound l → IsSound l'
LobbySteps-IsSound no_lobby_step inv = inv
LobbySteps-IsSound (and_lobby_step before last) inv =
    LobbyStep-IsSound last (LobbySteps-IsSound before inv)

-- After any calls, a lobby that was created has four seats in order, of which only the first is the
-- host's; no subject holds two of them; the status is the one that the launch and the selected game
-- call for, unless the lobby is closed; a closed lobby has no connection and no launch; and a launch
-- and every readiness are of the selected game.
pub new_lobby-LobbySteps :
    (lobby_id : ℕ) (proposal : ProposalId) (request : LobbyCreateRequest) (l : Lobby)
    → LobbySteps (new_lobby lobby_id proposal request) l
    → IsSound l
new_lobby-LobbySteps lobby_id proposal request l steps =
    LobbySteps-IsSound steps (new_lobby-IsSound lobby_id proposal request)
