-- ===== src/Lobbies/Lobby/Players.antt =====
-- src/lobbies/lobby.rs: the seats of a lobby, joined, reclaimed, left and cleared.
-- `join_or_refresh_player`, the lobby that is left and the seat.
use mathlib.Core.Option
use sn_netplay_serv.Base.{
  ltb, ◌==◌, if◌then◌else◌, filter, find, update_first, Result, ◌>>=◌, ◌>>◌, fail_if, ok_or,
  is_some, ok, err, ℕ, Bool, true, false, not, ◌||◌, Option, none, some, List,
}
use sn_netplay_serv.Base.Bytes.{bytes_eq}
use sn_netplay_serv.Base.Chars.{Chars}
use sn_netplay_serv.Base.Maps.{Text}
use sn_netplay_serv.Lobbies.Game.{LobbyGameReadinessView}
use sn_netplay_serv.Lobbies.License.{VerifiedLicense}
use sn_netplay_serv.Lobbies.Lobby.{
  Lobby, setup_status, bump, bump_with_activity, close_lobby, lobby_slot, update_slot,
  require_player, require_host,
}
use sn_netplay_serv.Lobbies.Player.{
  LobbyPlayerSlot, LobbyPlayerOccupancy, empty_lobby_slot, occupy, lobby_slot_is_empty, belongs_to,
  has_connection, mark_reconnecting,
}
use sn_netplay_serv.Lobbies.Types.{
  resume_token_invalid, closed, guest, LobbyError, has_lobby_status, LobbyPlayerRole, is_lobby_host,
  LobbyClientCapabilities, lobby_full, lobby_closed, stale_lobby_epoch, player_slot_unavailable,
  player_removal_host_only, lobby_player_not_found, cannot_remove_lobby_host,
  lobby_player_removal_unavailable, in_game,
}
use sn_netplay_serv.Protocol.Ids.{PlayerIndex, ConnectionId}
use sn_netplay_serv.Rooms.Snapshot.{hex}
use sn_netplay_serv.Rooms.Voice.{PlayerVoiceJoinGrant, grant_for}

unfoldable pub join_or_refresh_player :
    Lobby
    → VerifiedLicense
    → ConnectionId
    → Option Chars
    → LobbyClientCapabilities
    → Text
    → ℕ
    → Result LobbyError (Lobby × PlayerIndex)
unfolding belongs_to occupy lobby_slot_is_empty bump_with_activity has_lobby_status
join_or_refresh_player l license connection_id display_name capabilities resume_token_hash now_ms =
    let claim : LobbyPlayerRole → LobbyPlayerOccupancy = λ role. record {
      role = role;
      license = license;
      connection_id = connection_id;
      display_name = display_name;
      capabilities = capabilities;
      resume_token_hash = resume_token_hash;
      now_ms = now_ms;
    } in
    if has_lobby_status l.status closed
    then err lobby_closed
    else elim (find (belongs_to license) l.players) [
      | some s ↦ ok (
        bump_with_activity now_ms record l {
          players = update_first (belongs_to license) (occupy (claim s.role)) l.players;
        },
        s.player_index,
      )
      | none ↦ elim (find lobby_slot_is_empty l.players) [
        | none ↦ err lobby_full
        | some s ↦ ok (
          bump_with_activity now_ms record l {
            players = update_first lobby_slot_is_empty (occupy (claim guest)) l.players;
          },
          s.player_index,
        )
      ]
    ]

pub record LobbyReconnectRequest : Type 0 where
  pub license : VerifiedLicense
  pub player_index : PlayerIndex
  pub lobby_epoch : ℕ
  pub resume_token : Text
  pub connection_id : ConnectionId
  pub display_name : Option Chars
  pub capabilities : LobbyClientCapabilities
  pub now_ms : ℕ

-- `slot.resume_token_hash.as_deref() == Some(hash)`
unfoldable pub has_token_hash : Text → LobbyPlayerSlot → Bool
has_token_hash hash s = elim s.resume_token_hash [ none ↦ false | some h ↦ bytes_eq h hash ]

-- `hash_resume_token` of src/rooms/resume_token.rs
unfoldable pub hash_resume_token : (List ℕ → List ℕ) → Text → Text
unfolding hex
hash_resume_token sha256 value = hex (sha256 value)

-- `reconnect_player`
unfoldable pub reconnect_player :
    (List ℕ → List ℕ) → Lobby → LobbyReconnectRequest → Result LobbyError (Lobby × PlayerIndex)
unfolding hash_resume_token has_token_hash lobby_slot belongs_to occupy bump_with_activity
    has_lobby_status update_slot
reconnect_player sha256 l request = do
  fail_if (has_lobby_status l.status closed) lobby_closed
  fail_if (ltb l.lobby_epoch request.lobby_epoch) stale_lobby_epoch
  let hash = hash_resume_token sha256 request.resume_token
  s ← ok_or (lobby_slot l request.player_index) player_slot_unavailable
  fail_if (not (belongs_to request.license s)) player_slot_unavailable
  fail_if (not (has_token_hash hash s)) resume_token_invalid
  let claim : LobbyPlayerOccupancy = record {
    role = s.role;
    license = request.license;
    connection_id = request.connection_id;
    display_name = request.display_name;
    capabilities = request.capabilities;
    resume_token_hash = hash;
    now_ms = request.now_ms;
  }
  ok (
    bump_with_activity request.now_ms (update_slot request.player_index (occupy claim) l),
    request.player_index,
  )

-- `disconnect`
unfoldable pub disconnect_lobby_player : Lobby → ConnectionId → ℕ → Lobby × Bool
unfolding has_connection mark_reconnecting bump
disconnect_lobby_player l connection_id now_ms =
    elim (find (has_connection connection_id) l.players) [
      | none ↦ (l, false)
      | some s ↦ (
        bump now_ms record l {
          players =
              update_first (has_connection connection_id) (mark_reconnecting now_ms) l.players;
        },
        true,
      )
    ]

-- `game_readiness.retain(|readiness| readiness.player_index != player_index)`
unfoldable pub forget_readiness :
    PlayerIndex → List LobbyGameReadinessView → List LobbyGameReadinessView
forget_readiness player_index =
    filter λ (r : LobbyGameReadinessView). not (r.player_index == player_index)

-- The seat of a player who left or was removed: emptied, with the readiness of that seat.
unfoldable pub vacate : PlayerIndex → Lobby → Lobby
unfolding update_slot empty_lobby_slot forget_readiness setup_status
vacate player_index l = record (update_slot player_index (λ s. empty_lobby_slot player_index) l) {
  game_readiness = forget_readiness player_index l.game_readiness;
  status = setup_status l.selected_game;
}

-- `leave`
unfoldable pub leave_lobby : Lobby → ConnectionId → ℕ → Result LobbyError Lobby
unfolding require_player is_lobby_host close_lobby vacate bump_with_activity
leave_lobby l connection_id now_ms = do
  s ← require_player l connection_id
  if is_lobby_host s.role
      then ok (close_lobby now_ms l)
      else ok (bump_with_activity now_ms record (vacate s.player_index l) { pending_launch = none })

pub record LobbyPlayerRemoval : Type 0 where
  pub player_index : PlayerIndex
  pub connection_id : Option ConnectionId
  pub voice_room_id : Option Chars
  pub participant_identity : Option Chars

-- `voice_grant_for` of src/lobbies/lobby_voice_ops.rs
unfoldable pub voice_grant_for : Lobby → PlayerIndex → Option PlayerVoiceJoinGrant
unfolding grant_for
voice_grant_for l player_index = elim l.voice [
  | none ↦ none
  | some voice ↦ grant_for voice player_index
]

-- The statuses in which no player is removed.
unfoldable pub removal_unavailable : Lobby → Bool
unfolding has_lobby_status
removal_unavailable l =
    has_lobby_status l.status closed
    || has_lobby_status l.status in_game
    || is_some l.pending_launch

-- The target of a removal.
unfoldable pub require_target : Lobby → PlayerIndex → Result LobbyError LobbyPlayerSlot
unfolding lobby_slot is_lobby_host
require_target l target_player_index = do
  target ← ok_or (lobby_slot l target_player_index) lobby_player_not_found
  fail_if (is_lobby_host target.role) cannot_remove_lobby_host
  fail_if (not (is_some target.subject_key)) lobby_player_not_found
  ok target

-- `remove_player`
unfoldable pub remove_player :
    Lobby → ConnectionId → ℕ → PlayerIndex → ℕ → Result LobbyError (Lobby × LobbyPlayerRemoval)
unfolding require_host removal_unavailable require_target voice_grant_for vacate bump_with_activity
remove_player l requester_connection_id lobby_epoch target_player_index now_ms = do
  fail_if (not (l.lobby_epoch == lobby_epoch)) stale_lobby_epoch
  requester ← require_host player_removal_host_only l requester_connection_id
  fail_if (removal_unavailable l) lobby_player_removal_unavailable
  target ← require_target l target_player_index
  let voice = voice_grant_for l target_player_index
  ok (
    bump_with_activity now_ms (vacate target_player_index l),
    record {
      player_index = target_player_index;
      connection_id = target.connection_id;
      voice_room_id = Option.map (λ (g : PlayerVoiceJoinGrant). g.voice_room_id) voice;
      participant_identity =
          Option.map (λ (g : PlayerVoiceJoinGrant). g.participant_identity) voice;
    },
  )
