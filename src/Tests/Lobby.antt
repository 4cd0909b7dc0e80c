-- ===== src/Tests/Lobby.antt =====
-- A lobby of two players: created, joined, with a game selected that both are ready for.
use sn_netplay_serv.Base.{ok, ℕ, ◌≡◌, refl, true, false, none, some, [], ◌∷◌}
use sn_netplay_serv.Base.Chars.{Chars, codes, byte_length, trim_start, trim}
use sn_netplay_serv.Base.Maps.{Text}
use sn_netplay_serv.Lobbies.Game.{
  LobbyGameCandidate, LobbyGameSelectionView, new_selection, LobbyGameReadinessStatus,
  LobbyGameReadinessView, sanitize_readiness_detail, new_readiness,
}
use sn_netplay_serv.Lobbies.License.{
  as_str, identity_namespace, VerifiedLicense, identity_key, desktop,
}
use sn_netplay_serv.Lobbies.Lobby.{
  player_index_for_connection, Lobby, LobbyCreateRequest, setup_status, new_lobby, next_u64, bump,
  mark_meaningful_activity, bump_with_activity, has_index, lobby_slot, require_player, require_host,
  is_selected, require_selected_proposal,
}
use sn_netplay_serv.Lobbies.Lobby.Invariant.{IsSound}
use sn_netplay_serv.Lobbies.Lobby.Launching.{
  is_blank, is_sha256_text, validate_game_candidate, select_game, put_readiness, set_game_readiness,
}
use sn_netplay_serv.Lobbies.Lobby.Players.{join_or_refresh_player}
use sn_netplay_serv.Lobbies.Lobby.Reachable.{
  new_lobby-IsSound, LobbySteps-IsSound, new_lobby-LobbySteps,
}
use sn_netplay_serv.Lobbies.Lobby.Steps.{
  LobbySteps, join_step, select_step, readiness_step, no_lobby_step, and_lobby_step,
}
use sn_netplay_serv.Lobbies.Player.{
  LobbyPlayerSlot, empty_lobby_slot, occupy, host_lobby_slot, lobby_slot_is_empty, has_subject,
  belongs_to, has_connection,
}
use sn_netplay_serv.Lobbies.Types.{
  host, guest, lobby_status_code, has_lobby_status, LobbyPlayerRole, is_lobby_host,
  LobbyPlayerStatus, is_empty_status, LobbyClientCapabilities, default_lobby_capabilities,
  open_lobby, game_selected, private_lobby,
}
use sn_netplay_serv.Protocol.Ids.{PlayerIndex, ConnectionId}
use sn_netplay_serv.Rooms.Slot.{holds}

abbrev pub all_capabilities : LobbyClientCapabilities
all_capabilities = record {
  supports_lobby = true;
  supports_temporary_session_rom_relay = true;
  supports_lobby_voice = true;
  supports_multi_game_lobby = true;
  supports_lobby_returned_event = true;
  supports_lobby_gameplay_started = true;
  supports_lobby_player_removed_event = true;
}

abbrev pub a_license : Chars → VerifiedLicense
a_license subject = record {
  client_kind = desktop;
  installation_id = subject;
  subject_id = subject;
  tier = [];
  features = [];
  has_premium = true;
  trial_active = false;
}

abbrev pub a_request : LobbyCreateRequest
a_request = record {
  invite_code = codes "ABCDEF";
  host = a_license (codes "ann");
  host_connection = 1;
  host_display_name = none;
  host_capabilities = all_capabilities;
  host_resume_token_hash = [];
  initial_game = none;
  visibility = private_lobby;
  now_ms = 10;
}

abbrev pub a_seat :
    PlayerIndex → LobbyPlayerRole → Chars → ConnectionId → Text → ℕ → LobbyPlayerSlot
a_seat i role subject c hash now = record {
  player_index = i;
  role = role;
  subject_key = some subject;
  client_kind = some desktop;
  connection_id = some c;
  display_name = none;
  status = LobbyPlayerStatus.connected;
  capabilities = all_capabilities;
  resume_token_hash = some hash;
  last_seen_at_ms = some now;
}

abbrev pub a_free_seat : PlayerIndex → LobbyPlayerSlot
a_free_seat i = record {
  player_index = i;
  role = guest;
  subject_key = none;
  client_kind = none;
  connection_id = none;
  display_name = none;
  status = LobbyPlayerStatus.empty;
  capabilities = record {
    supports_lobby = false;
    supports_temporary_session_rom_relay = false;
    supports_lobby_voice = false;
    supports_multi_game_lobby = false;
    supports_lobby_returned_event = false;
    supports_lobby_gameplay_started = false;
    supports_lobby_player_removed_event = false;
  };
  resume_token_hash = none;
  last_seen_at_ms = none;
}

abbrev pub ann : LobbyPlayerSlot
ann = a_seat 0 host (codes "desktop:ann") 1 [] 10

-- The hash of the token `1 2`, with the identity in place of SHA-256.
abbrev pub ben : LobbyPlayerSlot
ben = a_seat 1 guest (codes "desktop:ben") 2 (codes "0102") 20

abbrev pub created_lobby : Lobby
created_lobby = record {
  lobby_id = 7;
  invite_code = codes "ABCDEF";
  event_seq = 1;
  lobby_epoch = 1;
  created_at_ms = 10;
  updated_at_ms = 10;
  last_meaningful_activity_at_ms = 10;
  status = open_lobby;
  visibility = private_lobby;
  players = ann ∷ a_free_seat 1 ∷ a_free_seat 2 ∷ a_free_seat 3 ∷ [];
  selected_game = none;
  game_readiness = [];
  pending_launch = none;
  last_return = none;
  voice = none;
}

-- The lobby at a later epoch and time.
abbrev pub later : ℕ → ℕ → Lobby → Lobby
later n now l = record l {
  event_seq = n;
  lobby_epoch = n;
  updated_at_ms = now;
  last_meaningful_activity_at_ms = now;
}

abbrev pub joined_lobby : Lobby
joined_lobby =
    later 2 20 record created_lobby { players = ann ∷ ben ∷ a_free_seat 2 ∷ a_free_seat 3 ∷ [] }

abbrev pub a_game : LobbyGameCandidate
a_game = record {
  title = codes "Game";
  system_id = codes "snes";
  core_id = codes "core";
  content_sha256 = some (codes "0123456789abcdef0123456789ABCDEF0123456789abcdef0123456789abcdef");
  rom_size_bytes = some 4096;
  start_state_label = none;
}

abbrev pub a_selection : LobbyGameSelectionView
a_selection = record {
  proposal_id = 100;
  selected_by_player_index = 0;
  selected_at_ms = 30;
  game = a_game;
}

abbrev pub selected_lobby : Lobby
selected_lobby =
    later 3 30 record joined_lobby { selected_game = some a_selection; status = game_selected }

abbrev pub a_readiness : PlayerIndex → ℕ → LobbyGameReadinessView
a_readiness i now = record {
  player_index = i;
  proposal_id = 100;
  status = LobbyGameReadinessStatus.ready;
  detail = none;
  updated_at_ms = now;
}

abbrev pub half_ready_lobby : Lobby
half_ready_lobby = later 4 40 record selected_lobby { game_readiness = a_readiness 0 40 ∷ [] }

abbrev pub ready_lobby : Lobby
ready_lobby =
    later 5 50 record selected_lobby { game_readiness = a_readiness 0 40 ∷ a_readiness 1 50 ∷ [] }

created-steps : LobbySteps (new_lobby 7 0 a_request) created_lobby
unfolding new_lobby host_lobby_slot empty_lobby_slot default_lobby_capabilities occupy identity_key
    identity_namespace as_str setup_status
created-steps = no_lobby_step

ben-joined :
    join_or_refresh_player created_lobby
      (a_license (codes "ben"))
      2
      none
      all_capabilities
      (codes "0102")
      20
    ≡ ok (joined_lobby, 1)
unfolding empty_lobby_slot default_lobby_capabilities occupy identity_key identity_namespace as_str
    join_or_refresh_player has_lobby_status lobby_status_code belongs_to has_subject
    lobby_slot_is_empty is_empty_status bump_with_activity bump mark_meaningful_activity next_u64
ben-joined = refl

game-selected : select_game joined_lobby 1 a_game 100 30 ≡ ok (selected_lobby, a_selection)
unfolding bump_with_activity bump mark_meaningful_activity next_u64 select_game require_host
    require_player player_index_for_connection has_connection holds lobby_slot has_index
    is_lobby_host validate_game_candidate is_blank trim trim_start is_sha256_text byte_length
    new_selection
game-selected = refl

ann-ready :
    set_game_readiness selected_lobby 1 100 LobbyGameReadinessStatus.ready none 40
    ≡ ok (half_ready_lobby, a_readiness 0 40)
unfolding bump_with_activity bump mark_meaningful_activity next_u64 player_index_for_connection
    has_connection holds set_game_readiness require_selected_proposal is_selected new_readiness
    sanitize_readiness_detail put_readiness
ann-ready = refl

ben-ready :
    set_game_readiness half_ready_lobby 2 100 LobbyGameReadinessStatus.ready none 50
    ≡ ok (ready_lobby, a_readiness 1 50)
unfolding bump_with_activity bump mark_meaningful_activity next_u64 player_index_for_connection
    has_connection holds set_game_readiness require_selected_proposal is_selected new_readiness
    sanitize_readiness_detail put_readiness
ben-ready = refl

pub ready_steps : LobbySteps (new_lobby 7 0 a_request) ready_lobby
ready_steps =
    and_lobby_step
      (and_lobby_step
        (and_lobby_step
          (and_lobby_step created-steps (
            join_step (a_license (codes "ben")) 2 none all_capabilities (codes "0102") 20 1
              ben-joined))
          (select_step 1 a_game 100 30 a_selection game-selected))
        (readiness_step 1 100 LobbyGameReadinessStatus.ready none 40 (a_readiness 0 40) ann-ready))
      (readiness_step 2 100 LobbyGameReadinessStatus.ready none 50 (a_readiness 1 50) ben-ready)

new_lobby-LobbySteps_example : IsSound ready_lobby
new_lobby-LobbySteps_example = new_lobby-LobbySteps 7 0 a_request ready_lobby ready_steps

pub ready_lobby-IsSound : IsSound ready_lobby
ready_lobby-IsSound = LobbySteps-IsSound ready_steps (new_lobby-IsSound 7 0 a_request)
