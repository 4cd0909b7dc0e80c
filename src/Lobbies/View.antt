-- ===== src/Lobbies/View.antt =====
-- src/lobbies/lobby_view.rs, with the views of lobby_player.rs and lobby.rs: what clients see of a
-- lobby, and what everybody sees of a public one.
use mathlib.Core.Option
use sn_netplay_serv.Base.{
  leb, ◌==◌, if◌then◌else◌, length, get_or, take, any, filter, find, is_some, ℕ, ◌+◌, ◌-◌, Bool,
  true, false, not, ◌&&◌, ◌||◌, Option, none, some, List, [], ◌∷◌, map,
}
use sn_netplay_serv.Base.Chars.{Chars, codes}
use sn_netplay_serv.Lobbies.Game.{
  LobbyGameSelectionView, LobbyGameReadinessView, LobbyGameLaunchView,
}
use sn_netplay_serv.Lobbies.License.{ClientKind}
use sn_netplay_serv.Lobbies.Lobby.{Lobby}
use sn_netplay_serv.Lobbies.Lobby.Launching.{is_blank}
use sn_netplay_serv.Lobbies.Player.{LobbyPlayerSlot}
use sn_netplay_serv.Lobbies.Types.{
  closed, LobbyStatus, LobbyVisibility, LobbyPlayerRole, LobbyPlayerStatus, LobbyClientCapabilities,
  LobbyServerCapabilities, open_lobby, game_selected, in_game, private_lobby, public_lobby,
}
use sn_netplay_serv.Protocol.Ids.{PlayerIndex}
use sn_netplay_serv.Rooms.InviteCode.{display_invite_code}
use sn_netplay_serv.Rooms.Voice.{RoomVoiceView, RoomVoiceState}

pub record LobbyPlayerSlotView : Type 0 where
  pub player_index : ℕ
  pub display_number : ℕ
  pub role : LobbyPlayerRole
  pub color : Chars
  pub status : LobbyPlayerStatus
  pub occupied : Bool
  pub connected : Bool
  pub client_kind : Option ClientKind
  pub display_name : Option Chars
  pub capabilities : LobbyClientCapabilities
  pub last_seen_at_ms : Option ℕ

-- `player_color`, with `PLAYER_COLORS`
unfoldable pub player_color : PlayerIndex → Chars
player_color player_index =
    get_or (codes "cyan" ∷ codes "violet" ∷ codes "amber" ∷ codes "emerald" ∷ []) player_index
      (codes "cyan")

-- `LobbyPlayerSlot::view`
unfoldable pub slot_view : LobbyPlayerSlot → LobbyPlayerSlotView
unfolding player_color
slot_view s = record {
  player_index = s.player_index;
  display_number = s.player_index + 1;
  role = s.role;
  color = player_color s.player_index;
  status = s.status;
  occupied = is_some s.subject_key;
  connected = is_some s.connection_id;
  client_kind = s.client_kind;
  display_name = s.display_name;
  capabilities = s.capabilities;
  last_seen_at_ms = s.last_seen_at_ms;
}

pub record LobbyView : Type 0 where
  pub lobby_id : ℕ
  pub event_seq : ℕ
  pub lobby_epoch : ℕ
  pub invite_code : Chars
  pub created_at_ms : ℕ
  pub updated_at_ms : ℕ
  pub last_meaningful_activity_at_ms : ℕ
  pub status : LobbyStatus
  pub visibility : LobbyVisibility
  pub capabilities : LobbyServerCapabilities
  pub players : List LobbyPlayerSlotView
  pub selected_game : Option LobbyGameSelectionView
  pub game_readiness : List LobbyGameReadinessView
  pub pending_launch : Option LobbyGameLaunchView
  pub voice : Option RoomVoiceView

-- `Lobby::view`
unfoldable pub lobby_view_of : LobbyServerCapabilities → Lobby → LobbyView
unfolding display_invite_code slot_view
lobby_view_of capabilities l = record {
  lobby_id = l.lobby_id;
  event_seq = l.event_seq;
  lobby_epoch = l.lobby_epoch;
  invite_code = display_invite_code l.invite_code;
  created_at_ms = l.created_at_ms;
  updated_at_ms = l.updated_at_ms;
  last_meaningful_activity_at_ms = l.last_meaningful_activity_at_ms;
  status = l.status;
  visibility = l.visibility;
  capabilities = capabilities;
  players = map slot_view l.players;
  selected_game = l.selected_game;
  game_readiness = l.game_readiness;
  pending_launch = l.pending_launch;
  voice = Option.map (λ (v : RoomVoiceState). v.view) l.voice;
}

abbrev pub public_lobby_player_capacity : ℕ
public_lobby_player_capacity = 2

pub data PublicLobbyStatus : Type 0 where
  public_open public_game_selected : PublicLobbyStatus

pub record PublicLobbyGameSummary : Type 0 where
  pub title : Chars
  pub system_id : Chars
  pub core_id : Chars
  pub start_state_label : Option Chars

pub record PublicLobbySummary : Type 0 where
  pub lobby_id : ℕ
  pub invite_code : Chars
  pub visibility : LobbyVisibility
  pub status : PublicLobbyStatus
  pub hosted_by : Chars
  pub player_count : ℕ
  pub max_players : ℕ
  pub open_slots : ℕ
  pub created_at_ms : ℕ
  pub updated_at_ms : ℕ
  pub selected_game : Option PublicLobbyGameSummary

-- `PublicLobbyGameSummary::from_selection`
unfoldable pub from_selection : LobbyGameSelectionView → PublicLobbyGameSummary
from_selection selection = record {
  title = selection.game.title;
  system_id = selection.game.system_id;
  core_id = selection.game.core_id;
  start_state_label = selection.game.start_state_label;
}

-- `public_player_count`
unfoldable pub public_player_count : LobbyView → ℕ
public_player_count v =
    length (
      take public_lobby_player_capacity
        (filter (λ (p : LobbyPlayerSlotView). p.occupied) v.players))

unfoldable pub is_connected_status : LobbyPlayerStatus → Bool
is_connected_status LobbyPlayerStatus.connected = true
is_connected_status _ = false

-- `host_is_connected`
unfoldable pub host_is_connected : LobbyView → Bool
unfolding is_connected_status
host_is_connected v =
    any
      (λ (p : LobbyPlayerSlotView).
        (p.player_index == 0) && p.connected && is_connected_status p.status)
      v.players

-- `hosted_by`
unfoldable pub hosted_by : LobbyView → Chars
unfolding is_blank
hosted_by v = elim (find (λ (p : LobbyPlayerSlotView). p.player_index == 0) v.players) [
  | none ↦ codes "Player 1"
  | some p ↦ elim p.display_name [
    | none ↦ codes "Player 1"
    | some display_name ↦ if is_blank display_name then codes "Player 1" else display_name
  ]
]

unfoldable pub is_public : LobbyVisibility → Bool
is_public public_lobby = true
is_public private_lobby = false

-- The public status, for a lobby that waits for a game.
unfoldable pub public_status : LobbyStatus → Option PublicLobbyStatus
public_status open_lobby = some public_open
public_status game_selected = some public_game_selected
public_status in_game = none
public_status closed = none

-- `public_summary`
unfoldable pub public_summary : LobbyView → Option PublicLobbySummary
unfolding is_public public_status public_player_count host_is_connected hosted_by from_selection
public_summary v = elim (public_status v.status) [
  | none ↦ none
  | some status ↦
      let player_count = public_player_count v in
      if not (is_public v.visibility)
        || leb public_lobby_player_capacity player_count
        || not (host_is_connected v)
      then none
      else some record {
        lobby_id = v.lobby_id;
        invite_code = v.invite_code;
        visibility = v.visibility;
        status = status;
        hosted_by = hosted_by v;
        player_count = player_count;
        max_players = public_lobby_player_capacity;
        open_slots = public_lobby_player_capacity - player_count;
        created_at_ms = v.created_at_ms;
        updated_at_ms = v.updated_at_ms;
        selected_game = Option.map from_selection v.selected_game;
      }
]
