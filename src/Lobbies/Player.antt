-- ===== src/Lobbies/Player.antt =====
-- src/lobbies/lobby_player.rs: a seat of a lobby. The colour of a seat follows from its index and is
-- left out, as is the view.
use sn_netplay_serv.Base.{if◌then◌else◌, is_some, ℕ, Bool, false, ◌&&◌, Option, none, some}
use sn_netplay_serv.Base.Bytes.{bytes_eq}
use sn_netplay_serv.Base.Chars.{Chars}
use sn_netplay_serv.Base.Maps.{Text}
use sn_netplay_serv.Lobbies.License.{ClientKind, VerifiedLicense, identity_key}
use sn_netplay_serv.Lobbies.Types.{
  host, guest, LobbyPlayerRole, LobbyPlayerStatus, is_empty_status, LobbyClientCapabilities,
  default_lobby_capabilities,
}
use sn_netplay_serv.Protocol.Ids.{PlayerIndex, ConnectionId, player_one}
use sn_netplay_serv.Rooms.Slot.{holds}

pub record LobbyPlayerSlot : Type 0 where
  pub player_index : PlayerIndex
  pub role : LobbyPlayerRole
  pub subject_key : Option Chars
  pub client_kind : Option ClientKind
  pub connection_id : Option ConnectionId
  pub display_name : Option Chars
  pub status : LobbyPlayerStatus
  pub capabilities : LobbyClientCapabilities
  pub resume_token_hash : Option Text
  pub last_seen_at_ms : Option ℕ

pub record LobbyPlayerOccupancy : Type 0 where
  pub role : LobbyPlayerRole
  pub license : VerifiedLicense
  pub connection_id : ConnectionId
  pub display_name : Option Chars
  pub capabilities : LobbyClientCapabilities
  pub resume_token_hash : Text
  pub now_ms : ℕ

-- `LobbyPlayerSlot::empty`
unfoldable pub empty_lobby_slot : PlayerIndex → LobbyPlayerSlot
empty_lobby_slot player_index = record {
  player_index = player_index;
  role = guest;
  subject_key = none;
  client_kind = none;
  connection_id = none;
  display_name = none;
  status = LobbyPlayerStatus.empty;
  capabilities = default_lobby_capabilities;
  resume_token_hash = none;
  last_seen_at_ms = none;
}

-- `occupy`
unfoldable pub occupy : LobbyPlayerOccupancy → LobbyPlayerSlot → LobbyPlayerSlot
occupy occupancy slot = record slot {
  role = occupancy.role;
  subject_key = some (identity_key occupancy.license);
  client_kind = some occupancy.license.client_kind;
  connection_id = some occupancy.connection_id;
  display_name = elim occupancy.display_name [ none ↦ slot.display_name | some name ↦ some name ];
  status = LobbyPlayerStatus.connected;
  capabilities = occupancy.capabilities;
  resume_token_hash = some occupancy.resume_token_hash;
  last_seen_at_ms = some occupancy.now_ms;
}

-- `LobbyPlayerSlot::host`
unfoldable pub host_lobby_slot :
    VerifiedLicense
    → ConnectionId
    → Option Chars
    → LobbyClientCapabilities
    → Text
    → ℕ
    → LobbyPlayerSlot
unfolding occupy empty_lobby_slot
host_lobby_slot license connection_id display_name capabilities resume_token_hash now_ms =
    occupy
      record {
        role = host;
        license = license;
        connection_id = connection_id;
        display_name = display_name;
        capabilities = capabilities;
        resume_token_hash = resume_token_hash;
        now_ms = now_ms;
      }
      (empty_lobby_slot player_one)

-- `is_empty`
unfoldable pub lobby_slot_is_empty : LobbyPlayerSlot → Bool
unfolding is_empty_status
lobby_slot_is_empty slot = is_empty_status slot.status

-- `slot.subject_key == Some(key)`
unfoldable pub has_subject : Chars → LobbyPlayerSlot → Bool
has_subject key slot = elim slot.subject_key [ none ↦ false | some k ↦ bytes_eq k key ]

-- `belongs_to`
unfoldable pub belongs_to : VerifiedLicense → LobbyPlayerSlot → Bool
unfolding has_subject identity_key
belongs_to license slot = has_subject (identity_key license) slot

-- `slot.connection_id == Some(connection_id)`
unfoldable pub has_connection : ConnectionId → LobbyPlayerSlot → Bool
has_connection connection_id slot = holds slot.connection_id connection_id

-- `slot.subject_key.is_some() && slot.connection_id.is_some()`
unfoldable pub is_present : LobbyPlayerSlot → Bool
is_present slot = is_some slot.subject_key && is_some slot.connection_id

-- The slot of `Lobby::disconnect`.
unfoldable pub mark_reconnecting : ℕ → LobbyPlayerSlot → LobbyPlayerSlot
mark_reconnecting now_ms slot = record slot {
  connection_id = none;
  status = LobbyPlayerStatus.reconnecting;
  last_seen_at_ms = some now_ms;
}

-- A slot of `Lobby::close`.
unfoldable pub close_slot : ℕ → LobbyPlayerSlot → LobbyPlayerSlot
close_slot now_ms slot =
    if is_some slot.subject_key
    then record slot {
      connection_id = none;
      status = LobbyPlayerStatus.disconnected;
      last_seen_at_ms = some now_ms;
    }
    else slot
