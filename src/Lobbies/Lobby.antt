-- ===== src/Lobbies/Lobby.antt =====
-- src/lobbies/lobby.rs: the state of a lobby and the helpers of its operations. Times are
-- milliseconds of the Unix epoch; the ids that the code draws at random are arguments. The operations
-- are in the modules below.
pub mod Players
pub mod Launching
pub mod Relay
pub mod Voice
pub mod Seats
pub mod Subjects
pub mod Steps
pub mod Invariant
pub mod Seating
pub mod Vacating
pub mod Staging
pub mod Reachable
pub mod Closed
pub mod Laws
pub mod RelayLaws
use mathlib.Core.Option
use sn_netplay_serv.Base.{
  leb, ◌==◌, if◌then◌else◌, find, update_first, Result, ◌>>=◌, ◌>>◌, fail_if, ok_or, ok, err, ℕ,
  ◌+◌, ◌-◌, ◌%◌, Bool, true, false, not, ◌&&◌, Option, none, some, List, [], ◌∷◌, map,
}
use sn_netplay_serv.Base.Chars.{Chars}
use sn_netplay_serv.Base.Maps.{Text}
use sn_netplay_serv.Lobbies.Game.{
  LobbyGameCandidate, ProposalId, LobbyGameSelectionView, new_selection, LobbyGameReadinessView,
  LobbyGameLaunchView, LobbyReturnedView,
}
use sn_netplay_serv.Lobbies.License.{VerifiedLicense}
use sn_netplay_serv.Lobbies.Player.{
  LobbyPlayerSlot, empty_lobby_slot, host_lobby_slot, has_connection, close_slot,
}
use sn_netplay_serv.Lobbies.Types.{
  unknown_connection, closed, LobbyError, LobbyStatus, has_lobby_status, LobbyVisibility,
  is_lobby_host, LobbyActivityKind, LobbyClientCapabilities, stale_game_proposal, open_lobby,
  game_selected,
}
use sn_netplay_serv.Protocol.Ids.{PlayerIndex, ConnectionId, player_one}
use sn_netplay_serv.Rooms.InviteCode.{InviteCode}
use sn_netplay_serv.Rooms.Voice.{RoomVoiceState}

-- `MAX_LOBBY_PLAYERS`
abbrev pub max_lobby_players : ℕ
max_lobby_players = 4

pub record Lobby : Type 0 where
  pub lobby_id : ℕ
  pub invite_code : InviteCode
  pub event_seq : ℕ
  pub lobby_epoch : ℕ
  pub created_at_ms : ℕ
  pub updated_at_ms : ℕ
  pub last_meaningful_activity_at_ms : ℕ
  pub status : LobbyStatus
  pub visibility : LobbyVisibility
  pub players : List LobbyPlayerSlot
  pub selected_game : Option LobbyGameSelectionView
  pub game_readiness : List LobbyGameReadinessView
  pub pending_launch : Option LobbyGameLaunchView
  pub last_return : Option LobbyReturnedView
  pub voice : Option RoomVoiceState

pub record LobbyCreateRequest : Type 0 where
  pub invite_code : InviteCode
  pub host : VerifiedLicense
  pub host_connection : ConnectionId
  pub host_display_name : Option Chars
  pub host_capabilities : LobbyClientCapabilities
  pub host_resume_token_hash : Text
  pub initial_game : Option LobbyGameCandidate
  pub visibility : LobbyVisibility
  pub now_ms : ℕ

-- `if selected_game.is_some() { GameSelected } else { Open }`
unfoldable pub setup_status : Option LobbyGameSelectionView → LobbyStatus
setup_status none = open_lobby
setup_status (some game) = game_selected

-- `Lobby::new`
unfoldable pub new_lobby : ℕ → ProposalId → LobbyCreateRequest → Lobby
unfolding setup_status host_lobby_slot empty_lobby_slot
new_lobby lobby_id proposal_id request =
    let selected =
      Option.map (λ game. new_selection proposal_id game player_one request.now_ms)
        request.initial_game in
    record {
      lobby_id = lobby_id;
      invite_code = request.invite_code;
      event_seq = 1;
      lobby_epoch = 1;
      created_at_ms = request.now_ms;
      updated_at_ms = request.now_ms;
      last_meaningful_activity_at_ms = request.now_ms;
      status = setup_status selected;
      visibility = request.visibility;
      players =
          host_lobby_slot request.host request.host_connection request.host_display_name
            request.host_capabilities request.host_resume_token_hash request.now_ms
          ∷ empty_lobby_slot 1
          ∷ empty_lobby_slot 2
          ∷ empty_lobby_slot 3
          ∷ [];
      selected_game = selected;
      game_readiness = [];
      pending_launch = none;
      last_return = none;
      voice = none;
    }

-- `n += 1` on `u64`, in a release build.
unfoldable pub next_u64 : ℕ → ℕ
next_u64 n = (n + 1) % 18446744073709551616

-- `bump`
unfoldable pub bump : ℕ → Lobby → Lobby
unfolding next_u64
bump now_ms l = record l {
  event_seq = next_u64 l.event_seq;
  lobby_epoch = next_u64 l.lobby_epoch;
  updated_at_ms = now_ms;
}

-- `mark_meaningful_activity`
unfoldable pub mark_meaningful_activity : ℕ → Lobby → Lobby
mark_meaningful_activity now_ms l = record l { last_meaningful_activity_at_ms = now_ms }

-- `bump_with_activity`
unfoldable pub bump_with_activity : ℕ → Lobby → Lobby
unfolding bump mark_meaningful_activity
bump_with_activity now_ms l = mark_meaningful_activity now_ms (bump now_ms l)

-- `close`
unfoldable pub close_lobby : ℕ → Lobby → Lobby
unfolding bump close_slot
close_lobby now_ms l =
    bump now_ms record l {
      status = closed;
      pending_launch = none;
      players = map (close_slot now_ms) l.players;
    }

-- `slot.player_index == player_index`
unfoldable pub has_index : PlayerIndex → LobbyPlayerSlot → Bool
has_index player_index s = s.player_index == player_index

-- `slot`, and the change through `slot_mut`
unfoldable pub lobby_slot : Lobby → PlayerIndex → Option LobbyPlayerSlot
unfolding has_index
lobby_slot l player_index = find (has_index player_index) l.players

unfoldable pub update_slot : PlayerIndex → (LobbyPlayerSlot → LobbyPlayerSlot) → Lobby → Lobby
unfolding has_index
update_slot player_index f l = record l {
  players = update_first (has_index player_index) f l.players;
}

-- `player_index_for_connection`
unfoldable pub player_index_for_connection : Lobby → ConnectionId → Result LobbyError PlayerIndex
unfolding has_connection
player_index_for_connection l connection_id = elim (find (has_connection connection_id) l.players) [
  | none ↦ err unknown_connection
  | some s ↦ ok s.player_index
]

-- `player_index_for_connection` and the slot of that index, as the operations ask for them.
unfoldable pub require_player : Lobby → ConnectionId → Result LobbyError LobbyPlayerSlot
unfolding player_index_for_connection lobby_slot
require_player l connection_id = do
  player_index ← player_index_for_connection l connection_id
  ok_or (lobby_slot l player_index) unknown_connection

-- The same for an operation of the host; `e` is its error for a guest.
unfoldable pub require_host : LobbyError → Lobby → ConnectionId → Result LobbyError LobbyPlayerSlot
unfolding require_player is_lobby_host
require_host e l connection_id = do
  s ← require_player l connection_id
  fail_if (not (is_lobby_host s.role)) e
  ok s

-- `selected_game.proposal_id == proposal_id`
unfoldable pub is_selected : Lobby → ProposalId → Bool
is_selected l proposal_id = elim l.selected_game [
  | none ↦ false
  | some selected ↦ selected.proposal_id == proposal_id
]

-- `require_selected_proposal`
unfoldable pub require_selected_proposal : Lobby → ProposalId → Result LobbyError (Unit {0})
unfolding is_selected
require_selected_proposal l proposal_id =
    fail_if (not (is_selected l proposal_id)) stale_game_proposal

-- `record_activity`
unfoldable pub record_activity :
    Lobby → ConnectionId → LobbyActivityKind → ℕ → Result LobbyError Lobby
unfolding player_index_for_connection mark_meaningful_activity
record_activity l connection_id kind now_ms = do
  player_index ← player_index_for_connection l connection_id
  ok (mark_meaningful_activity now_ms l)

-- `is_meaningfully_idle`
unfoldable pub is_meaningfully_idle : Lobby → ℕ → ℕ → Bool
unfolding has_lobby_status
is_meaningfully_idle l now_ms idle_timeout_ms =
    not (has_lobby_status l.status closed)
    && leb idle_timeout_ms (now_ms - l.last_meaningful_activity_at_ms)

-- `close_due_to_idle`
unfoldable pub close_due_to_idle : Lobby → ℕ → Lobby × Bool
unfolding has_lobby_status close_lobby
close_due_to_idle l now_ms =
    if has_lobby_status l.status closed then (l, false) else (close_lobby now_ms l, true)
