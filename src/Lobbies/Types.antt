-- ===== src/Lobbies/Types.antt =====
-- src/lobbies/errors.rs, lobby_capabilities.rs, and the enums of lobby.rs, lobby_player.rs and
-- lobby_activity.rs.
use sn_netplay_serv.Base.{◌==◌, ℕ, Bool, true, false}

pub data LobbyError : Type 0 where
  not_found lobby_full lobby_closed stale_lobby_epoch resume_token_invalid : LobbyError
  player_slot_unavailable unknown_connection host_only player_removal_host_only : LobbyError
  lobby_player_not_found cannot_remove_lobby_host lobby_player_removal_unavailable : LobbyError
  stale_game_proposal players_not_ready game_launch_not_ready rom_relay_unavailable : LobbyError
  rom_relay_unsupported rom_relay_too_large startup_state_relay_unavailable : LobbyError
  startup_state_relay_unsupported startup_state_relay_too_large voice_unavailable : LobbyError
  invalid_payload : LobbyError

-- `Open` is a keyword of this language in lower case.
pub data LobbyStatus : Type 0 where
  open_lobby game_selected in_game closed : LobbyStatus

unfoldable pub lobby_status_code : LobbyStatus → ℕ
lobby_status_code open_lobby = 0
lobby_status_code game_selected = 1
lobby_status_code in_game = 2
lobby_status_code closed = 3

-- `a == b` on statuses, by the place in the enum.
unfoldable pub has_lobby_status : LobbyStatus → LobbyStatus → Bool
unfolding lobby_status_code
has_lobby_status s t = lobby_status_code s == lobby_status_code t

pub data LobbyVisibility : Type 0 where
  private_lobby public_lobby : LobbyVisibility

pub data LobbyPlayerRole : Type 0 where
  host guest : LobbyPlayerRole

unfoldable pub is_lobby_host : LobbyPlayerRole → Bool
is_lobby_host host = true
is_lobby_host guest = false

pub data LobbyPlayerStatus : Type 0 where
  empty connected reconnecting disconnected : LobbyPlayerStatus

unfoldable pub is_empty_status : LobbyPlayerStatus → Bool
is_empty_status empty = true
is_empty_status _ = false

pub data LobbyActivityKind : Type 0 where
  gameplay_active rom_relay voice_speaking : LobbyActivityKind

pub record LobbyClientCapabilities : Type 0 where
  pub supports_lobby : Bool
  pub supports_temporary_session_rom_relay : Bool
  pub supports_lobby_voice : Bool
  pub supports_multi_game_lobby : Bool
  pub supports_lobby_returned_event : Bool
  pub supports_lobby_gameplay_started : Bool
  pub supports_lobby_player_removed_event : Bool

-- `LobbyClientCapabilities::default`
unfoldable pub default_lobby_capabilities : LobbyClientCapabilities
default_lobby_capabilities = record {
  supports_lobby = false;
  supports_temporary_session_rom_relay = false;
  supports_lobby_voice = false;
  supports_multi_game_lobby = false;
  supports_lobby_returned_event = false;
  supports_lobby_gameplay_started = false;
  supports_lobby_player_removed_event = false;
}

-- `LobbyClientCapabilities::desktop_default`
unfoldable pub desktop_default : LobbyClientCapabilities
unfolding default_lobby_capabilities
desktop_default = record default_lobby_capabilities {
  supports_lobby = true;
  supports_lobby_voice = true;
  supports_multi_game_lobby = true;
}

pub record LobbyServerCapabilities : Type 0 where
  pub supports_lobby : Bool
  pub supports_temporary_session_rom_relay : Bool
  pub supports_lobby_voice : Bool
  pub supports_multi_game_lobby : Bool
  pub supports_lobby_returned_event : Bool
  pub supports_lobby_gameplay_started : Bool
  pub supports_lobby_player_removal : Bool
  pub max_players : ℕ

-- `LobbyServerCapabilities::current`
unfoldable pub current_capabilities : ℕ → Bool → Bool → LobbyServerCapabilities
current_capabilities max_players temporary_session_rom_relay lobby_voice = record {
  supports_lobby = true;
  supports_temporary_session_rom_relay = temporary_session_rom_relay;
  supports_lobby_voice = lobby_voice;
  supports_multi_game_lobby = true;
  supports_lobby_returned_event = true;
  supports_lobby_gameplay_started = true;
  supports_lobby_player_removal = true;
  max_players = max_players;
}
