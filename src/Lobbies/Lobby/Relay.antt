-- ===== src/Lobbies/Lobby/Relay.antt =====
-- src/lobbies/lobby_rom_relay.rs and lobby_start_state_relay.rs: who may move a ROM or a startup
-- state to whom. The file relay itself is another service.
use sn_netplay_serv.Base.{
  ltb, ◌==◌, if◌then◌else◌, Result, ◌>>=◌, ◌>>◌, fail_if, ok_or, is_some, ok, ℕ, Bool, true, not,
  ◌&&◌, ◌||◌, Option, none, some,
}
use sn_netplay_serv.Base.Bytes.{bytes_eq}
use sn_netplay_serv.Base.Chars.{Chars, trim}
use sn_netplay_serv.Lobbies.Game.{LobbyGameCandidate, ProposalId, LobbyGameSelectionView}
use sn_netplay_serv.Lobbies.Lobby.{Lobby, lobby_slot, require_host, require_selected_proposal}
use sn_netplay_serv.Lobbies.Lobby.Launching.{is_blank, is_sha256_text}
use sn_netplay_serv.Lobbies.Player.{LobbyPlayerSlot, has_connection}
use sn_netplay_serv.Lobbies.Types.{
  unknown_connection, host_only, invalid_payload, LobbyError, player_slot_unavailable,
  stale_game_proposal, rom_relay_unsupported, rom_relay_too_large, startup_state_relay_unsupported,
  startup_state_relay_too_large,
}
use sn_netplay_serv.Protocol.Ids.{PlayerIndex, ConnectionId}

pub record LobbyRomRelayTransferIntent : Type 0 where
  pub lobby_id : ℕ
  pub proposal_id : ProposalId
  pub game : LobbyGameCandidate
  pub sha256 : Chars
  pub size_bytes : ℕ
  pub sender_player_index : PlayerIndex
  pub sender_connection_id : ConnectionId
  pub receiver_player_index : PlayerIndex
  pub receiver_connection_id : ConnectionId

-- `supports_temporary_session_rom_relay`
unfoldable pub relays_rom : LobbyPlayerSlot → Bool
relays_rom s = s.capabilities.supports_temporary_session_rom_relay

-- The game that is selected under this proposal.
unfoldable pub proposed_game : Lobby → ProposalId → Result LobbyError LobbyGameSelectionView
proposed_game l proposal_id = do
  selected ← ok_or l.selected_game stale_game_proposal
  fail_if (not (selected.proposal_id == proposal_id)) stale_game_proposal
  ok selected

-- The guards on the two seats of a transfer, with the receiver's connection; `e` is the error for a
-- client that cannot.
unfoldable pub require_transfer_pair :
    LobbyError
    → Lobby
    → ConnectionId
    → PlayerIndex
    → Result LobbyError (LobbyPlayerSlot × ConnectionId)
unfolding require_host lobby_slot relays_rom
require_transfer_pair e l connection_id receiver_player_index = do
  sender ← require_host host_only l connection_id
  receiver ← ok_or (lobby_slot l receiver_player_index) player_slot_unavailable
  receiver_connection_id ← ok_or receiver.connection_id player_slot_unavailable
  fail_if (not (relays_rom sender) || not (relays_rom receiver)) e
  ok (sender, receiver_connection_id)

-- `prepare_rom_relay_transfer`
unfoldable pub prepare_rom_relay_transfer :
    Lobby
    → ConnectionId
    → ProposalId
    → PlayerIndex
    → ℕ
    → Result LobbyError LobbyRomRelayTransferIntent
unfolding require_transfer_pair proposed_game is_sha256_text
prepare_rom_relay_transfer l connection_id proposal_id receiver_player_index max_bytes = do
  pair ← require_transfer_pair rom_relay_unsupported l connection_id receiver_player_index
  selected ← proposed_game l proposal_id
  sha256 ← ok_or selected.game.content_sha256 invalid_payload
  size_bytes ← ok_or selected.game.rom_size_bytes invalid_payload
  fail_if (not (is_sha256_text sha256)) invalid_payload
  fail_if (ltb max_bytes size_bytes) rom_relay_too_large
  ok record {
    lobby_id = l.lobby_id;
    proposal_id = proposal_id;
    game = selected.game;
    sha256 = sha256;
    size_bytes = size_bytes;
    sender_player_index = pair.0.player_index;
    sender_connection_id = connection_id;
    receiver_player_index = receiver_player_index;
    receiver_connection_id = pair.1;
  }

-- The seats of a transfer still have the connections of its intent.
unfoldable pub require_transfer_current :
    Lobby
    → ProposalId
    → PlayerIndex
    → ConnectionId
    → PlayerIndex
    → ConnectionId
    → Result LobbyError (Unit {0})
unfolding require_selected_proposal lobby_slot has_connection
require_transfer_current l proposal_id sender_index sender_id receiver_index receiver_id = do
  require_selected_proposal l proposal_id
  sender ← ok_or (lobby_slot l sender_index) unknown_connection
  receiver ← ok_or (lobby_slot l receiver_index) player_slot_unavailable
  fail_if (not (has_connection sender_id sender) || not (has_connection receiver_id receiver))
      player_slot_unavailable

-- `require_rom_relay_transfer_current`
unfoldable pub require_rom_relay_transfer_current :
    Lobby → LobbyRomRelayTransferIntent → Result LobbyError (Unit {0})
unfolding require_transfer_current
require_rom_relay_transfer_current l i =
    require_transfer_current l i.proposal_id i.sender_player_index i.sender_connection_id
      i.receiver_player_index i.receiver_connection_id

pub data LobbyStartupStateRestorePolicy : Type 0 where
  immediate : LobbyStartupStateRestorePolicy
  after_frames : ℕ → LobbyStartupStateRestorePolicy

pub record LobbyStartupStateTransferMetadata : Type 0 where
  pub sha256 : Chars
  pub size_bytes : ℕ
  pub label : Option Chars
  pub restore_policy : LobbyStartupStateRestorePolicy
  pub state_format : Option Chars

pub record LobbyStartupStateRelayTransferIntent : Type 0 where
  pub lobby_id : ℕ
  pub proposal_id : ProposalId
  pub game : LobbyGameCandidate
  pub state : LobbyStartupStateTransferMetadata
  pub sender_player_index : PlayerIndex
  pub sender_connection_id : ConnectionId
  pub receiver_player_index : PlayerIndex
  pub receiver_connection_id : ConnectionId

-- `label.map(str::trim).filter(|label| !label.is_empty())`
unfoldable pub trimmed_label : Option Chars → Option Chars
unfolding trim is_blank
trimmed_label label = elim label [
  | none ↦ none
  | some text ↦ if is_blank text then none else some (trim text)
]

-- `valid_startup_state_metadata`
unfoldable pub valid_startup_state_metadata : LobbyStartupStateTransferMetadata → Chars → Bool
unfolding is_sha256_text trimmed_label is_blank
valid_startup_state_metadata state selected_label =
    is_sha256_text state.sha256
    && ltb 0 state.size_bytes
    && (elim (trimmed_label state.label) [
      | none ↦ true
      | some label ↦ bytes_eq label selected_label
    ])
    && (elim state.state_format [ none ↦ true | some value ↦ not (is_blank value) ])

-- The label of the selected game where the sender gave none.
unfoldable pub with_label :
    Chars → LobbyStartupStateTransferMetadata → LobbyStartupStateTransferMetadata
unfolding trimmed_label
with_label selected_label state =
    if is_some (trimmed_label state.label)
    then state
    else record state { label = some selected_label }

-- `prepare_startup_state_relay_transfer`
unfoldable pub prepare_startup_state_relay_transfer :
    Lobby
    → ConnectionId
    → ProposalId
    → PlayerIndex
    → LobbyStartupStateTransferMetadata
    → ℕ
    → Result LobbyError LobbyStartupStateRelayTransferIntent
unfolding require_transfer_pair proposed_game trimmed_label valid_startup_state_metadata with_label
prepare_startup_state_relay_transfer l connection_id proposal_id receiver_index state max_bytes = do
  pair ← require_transfer_pair startup_state_relay_unsupported l connection_id receiver_index
  selected ← proposed_game l proposal_id
  selected_label ← ok_or (trimmed_label selected.game.start_state_label) invalid_payload
  fail_if (not (valid_startup_state_metadata state selected_label)) invalid_payload
  fail_if (ltb max_bytes state.size_bytes) startup_state_relay_too_large
  ok record {
    lobby_id = l.lobby_id;
    proposal_id = proposal_id;
    game = selected.game;
    state = with_label selected_label state;
    sender_player_index = pair.0.player_index;
    sender_connection_id = connection_id;
    receiver_player_index = receiver_index;
    receiver_connection_id = pair.1;
  }

-- `require_startup_state_relay_transfer_current`
unfoldable pub require_startup_state_relay_transfer_current :
    Lobby → LobbyStartupStateRelayTransferIntent → Result LobbyError (Unit {0})
unfolding require_transfer_current
require_startup_state_relay_transfer_current l i =
    require_transfer_current l i.proposal_id i.sender_player_index i.sender_connection_id
      i.receiver_player_index i.receiver_connection_id
