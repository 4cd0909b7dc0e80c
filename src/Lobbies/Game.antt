-- ===== src/Lobbies/Game.antt =====
-- src/lobbies/lobby_game.rs, lobby_launch.rs and lobby_return.rs: the selected game, its readiness
-- and launch, and the return. The id of a new proposal is drawn at random, so it is an argument.
use sn_netplay_serv.Base.{
  ltb, if◌then◌else◌, length, all, is_empty, Result, ◌>>=◌, ok, err, ℕ, Bool, true, false, not,
  ◌&&◌, Option, none, some, List, [], ◌∷◌,
}
use sn_netplay_serv.Base.Chars.{Chars, single_line}
use sn_netplay_serv.Base.Maps.{contains}
use sn_netplay_serv.Lobbies.Types.{invalid_payload, LobbyError, game_launch_not_ready}
use sn_netplay_serv.Protocol.Ids.{PlayerIndex, ConnectionId}

pub record LobbyGameCandidate : Type 0 where
  pub title : Chars
  pub system_id : Chars
  pub core_id : Chars
  pub content_sha256 : Option Chars
  pub rom_size_bytes : Option ℕ
  pub start_state_label : Option Chars

-- A proposal id is the number of its UUID.
abbrev pub ProposalId : Type 0
ProposalId = ℕ

pub record LobbyGameSelectionView : Type 0 where
  pub proposal_id : ProposalId
  pub selected_by_player_index : ℕ
  pub selected_at_ms : ℕ
  pub game : LobbyGameCandidate

-- `LobbyGameSelectionView::new`
unfoldable pub new_selection :
    ProposalId → LobbyGameCandidate → PlayerIndex → ℕ → LobbyGameSelectionView
new_selection proposal_id game selected_by selected_at_ms = record {
  proposal_id = proposal_id;
  selected_by_player_index = selected_by;
  selected_at_ms = selected_at_ms;
  game = game;
}

pub data LobbyGameReadinessStatus : Type 0 where
  unknown ready not_ready missing_rom missing_startup_state unsupported : LobbyGameReadinessStatus

unfoldable pub is_ready : LobbyGameReadinessStatus → Bool
is_ready ready = true
is_ready _ = false

pub record LobbyGameReadinessView : Type 0 where
  pub player_index : ℕ
  pub proposal_id : ProposalId
  pub status : LobbyGameReadinessStatus
  pub detail : Option Chars
  pub updated_at_ms : ℕ

-- `sanitize_readiness_detail`
unfoldable pub sanitize_readiness_detail : Option Chars → Result LobbyError (Option Chars)
sanitize_readiness_detail none = ok none
sanitize_readiness_detail (some detail) =
    let sanitized = single_line detail in
    if is_empty sanitized
    then ok none
    else if ltb 160 (length sanitized)
    then err invalid_payload
    else ok (some sanitized)

-- `LobbyGameReadinessView::new`
unfoldable pub new_readiness :
    PlayerIndex
    → ProposalId
    → LobbyGameReadinessStatus
    → Option Chars
    → ℕ
    → Result LobbyError LobbyGameReadinessView
new_readiness player_index proposal_id status detail updated_at_ms = do
  sanitized ← sanitize_readiness_detail detail
  ok record {
    player_index = player_index;
    proposal_id = proposal_id;
    status = status;
    detail = sanitized;
    updated_at_ms = updated_at_ms;
  }

pub data LobbyGameLaunchStatus : Type 0 where
  preparing launch_ready playing : LobbyGameLaunchStatus

unfoldable pub is_playing : LobbyGameLaunchStatus → Bool
is_playing playing = true
is_playing _ = false

pub record LobbyGameLaunchView : Type 0 where
  pub proposal_id : ProposalId
  pub requested_by_player_index : ℕ
  pub requested_at_ms : ℕ
  pub status : LobbyGameLaunchStatus
  pub room_invite_code : Option Chars
  pub room_published_at_ms : Option ℕ
  pub gameplay_started_at_ms : Option ℕ
  pub started_player_indexes : List ℕ

-- `LobbyGameLaunchView::new`
unfoldable pub new_launch : ProposalId → PlayerIndex → ℕ → LobbyGameLaunchView
new_launch proposal_id requested_by requested_at_ms = record {
  proposal_id = proposal_id;
  requested_by_player_index = requested_by;
  requested_at_ms = requested_at_ms;
  status = preparing;
  room_invite_code = none;
  room_published_at_ms = none;
  gameplay_started_at_ms = none;
  started_player_indexes = [];
}

-- `publish_room`
unfoldable pub publish_room : Chars → ℕ → LobbyGameLaunchView → LobbyGameLaunchView
publish_room invite_code published_at_ms launch = record launch {
  status = launch_ready;
  room_invite_code = some invite_code;
  room_published_at_ms = some published_at_ms;
}

-- `started.push(i)` and `sort_unstable` on a list that is sorted.
unfoldable pub push_sorted : ℕ → List ℕ → List ℕ
push_sorted i [] = i ∷ []
push_sorted i (j ∷ more) = if ltb j i then j ∷ push_sorted i more else i ∷ j ∷ more

-- `mark_player_started`, the launch that is left and whether it changed.
unfoldable pub mark_player_started :
    PlayerIndex
    → List PlayerIndex
    → ℕ
    → LobbyGameLaunchView
    → Result LobbyError (LobbyGameLaunchView × Bool)
unfolding push_sorted
mark_player_started player_index expected started_at_ms launch = elim launch.status [
  | preparing ↦ err game_launch_not_ready
  | playing ↦ ok (launch, false)
  | launch_ready ↦
      let started = push_sorted player_index launch.started_player_indexes in
      let marked = record launch { started_player_indexes = started } in
      if contains player_index launch.started_player_indexes
      then ok (launch, false)
      else if not (is_empty expected) && all (λ i. contains i started) expected
      then ok
          (record marked { status = playing; gameplay_started_at_ms = some started_at_ms }, true)
      else ok (marked, true)
]

pub data LobbyReturnReason : Type 0 where
  player_requested_return runner_closed remote_disconnected room_closed : LobbyReturnReason
  launch_failed netplay_error emulator_error runner_crashed : LobbyReturnReason

pub record LobbyReturnRequest : Type 0 where
  pub connection_id : ConnectionId
  pub lobby_epoch : ℕ
  pub proposal_id : ProposalId
  pub return_requested_by_player_index : Option PlayerIndex
  pub reason : Option LobbyReturnReason
  pub now_ms : ℕ

pub record LobbyReturnedView : Type 0 where
  pub proposal_id : ProposalId
  pub return_requested_by_player_index : Option ℕ
  pub reason : Option LobbyReturnReason
  pub returned_at_ms : ℕ

pub record LobbyReturnOutcome : Type 0 where
  pub returned : LobbyReturnedView
  pub state_changed : Bool

-- `LobbyReturnOutcome::applied` and `already_applied`
unfoldable pub applied : LobbyReturnedView → LobbyReturnOutcome
applied returned = record { returned = returned; state_changed = true }

unfoldable pub already_applied : LobbyReturnedView → LobbyReturnOutcome
already_applied returned = record { returned = returned; state_changed = false }
