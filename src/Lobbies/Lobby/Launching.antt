-- ===== src/Lobbies/Lobby/Launching.antt =====
-- src/lobbies/lobby.rs: the selected game, the readiness of the players, the launch and the return.
-- `title.trim().is_empty()`
use sn_netplay_serv.Base.{
  ◌==◌, if◌then◌else◌, all, any, filter, is_empty, Result, ◌>>=◌, ◌>>◌, fail_if, ok_or, ok, err, ℕ,
  Bool, true, false, not, ◌&&◌, ◌||◌, Option, none, some, List, [], ◌∷◌, map,
}
use sn_netplay_serv.Base.Chars.{Chars, is_ascii_hexdigit, byte_length, trim}
use sn_netplay_serv.Lobbies.Game.{
  LobbyGameCandidate, ProposalId, LobbyGameSelectionView, new_selection, LobbyGameReadinessStatus,
  is_ready, LobbyGameReadinessView, new_readiness, is_playing, LobbyGameLaunchView, new_launch,
  publish_room, mark_player_started, LobbyReturnRequest, LobbyReturnedView, LobbyReturnOutcome,
  applied, already_applied,
}
use sn_netplay_serv.Lobbies.Lobby.{
  player_index_for_connection, Lobby, setup_status, bump_with_activity, require_player,
  require_host, require_selected_proposal,
}
use sn_netplay_serv.Lobbies.Player.{LobbyPlayerSlot, is_present}
use sn_netplay_serv.Lobbies.Types.{
  host_only, invalid_payload, LobbyError, stale_lobby_epoch, stale_game_proposal, players_not_ready,
  game_selected, in_game,
}
use sn_netplay_serv.Protocol.Ids.{PlayerIndex, ConnectionId}
use sn_netplay_serv.Rooms.InviteCode.{InviteCode, display_invite_code}

unfoldable pub is_blank : Chars → Bool
unfolding trim
is_blank cs = is_empty (trim cs)

-- `hash.len() == 64 && hash.chars().all(is_ascii_hexdigit)`
unfoldable pub is_sha256_text : Chars → Bool
unfolding byte_length
is_sha256_text hash = (byte_length hash == 64) && all is_ascii_hexdigit hash

-- `validate_game_candidate`
unfoldable pub validate_game_candidate : LobbyGameCandidate → Result LobbyError (Unit {0})
unfolding is_blank is_sha256_text
validate_game_candidate game = do
  fail_if (is_blank game.title || is_blank game.system_id || is_blank game.core_id) invalid_payload
  elim game.content_sha256 [
    | none ↦ ok tt
    | some hash ↦ fail_if (not (is_sha256_text hash)) invalid_payload
  ]

-- `select_game`; `proposal_id` is the id drawn for the new proposal.
unfoldable pub select_game :
    Lobby
    → ConnectionId
    → LobbyGameCandidate
    → ProposalId
    → ℕ
    → Result LobbyError (Lobby × LobbyGameSelectionView)
unfolding require_host validate_game_candidate new_selection bump_with_activity
select_game l connection_id game proposal_id now_ms = do
  s ← require_host host_only l connection_id
  validate_game_candidate game
  let proposal = new_selection proposal_id game s.player_index now_ms
  ok (
    bump_with_activity now_ms record l {
      selected_game = some proposal;
      game_readiness = [];
      pending_launch = none;
      last_return = none;
      status = game_selected;
    },
    proposal,
  )

-- The entry of a player replaced, or added at the end.
unfoldable pub put_readiness :
    LobbyGameReadinessView → List LobbyGameReadinessView → List LobbyGameReadinessView
put_readiness readiness [] = readiness ∷ []
put_readiness readiness (r ∷ more) =
    if r.player_index == readiness.player_index
    then readiness ∷ more
    else r ∷ put_readiness readiness more

-- `set_game_readiness`
unfoldable pub set_game_readiness :
    Lobby
    → ConnectionId
    → ProposalId
    → LobbyGameReadinessStatus
    → Option Chars
    → ℕ
    → Result LobbyError (Lobby × LobbyGameReadinessView)
unfolding player_index_for_connection require_selected_proposal new_readiness put_readiness
    bump_with_activity
set_game_readiness l connection_id proposal_id status detail now_ms = do
  player_index ← player_index_for_connection l connection_id
  require_selected_proposal l proposal_id
  readiness ← new_readiness player_index proposal_id status detail now_ms
  ok (
    bump_with_activity now_ms record l {
      game_readiness = put_readiness readiness l.game_readiness;
      pending_launch = none;
      status = game_selected;
    },
    readiness,
  )

-- A `Ready` of this seat for this proposal.
unfoldable pub is_ready_for : ProposalId → LobbyPlayerSlot → LobbyGameReadinessView → Bool
unfolding is_ready
is_ready_for proposal_id s r =
    (r.player_index == s.player_index) && (r.proposal_id == proposal_id) && is_ready r.status

-- `connected_players_are_ready`
unfoldable pub connected_players_are_ready : Lobby → ProposalId → Bool
unfolding is_present is_ready_for
connected_players_are_ready l proposal_id =
    all (λ s. any (is_ready_for proposal_id s) l.game_readiness) (filter is_present l.players)

-- `request_game_launch`
unfoldable pub request_game_launch :
    Lobby → ConnectionId → ProposalId → ℕ → Result LobbyError (Lobby × LobbyGameLaunchView)
unfolding require_host require_selected_proposal connected_players_are_ready new_launch
    bump_with_activity
request_game_launch l connection_id proposal_id now_ms = do
  s ← require_host host_only l connection_id
  require_selected_proposal l proposal_id
  fail_if (not (connected_players_are_ready l proposal_id)) players_not_ready
  let launch = new_launch proposal_id s.player_index now_ms
  ok (
    bump_with_activity now_ms
        record l { pending_launch = some launch; last_return = none; status = in_game },
    launch,
  )

-- The pending launch, if it is of this proposal.
unfoldable pub require_launch : Lobby → ProposalId → Result LobbyError LobbyGameLaunchView
require_launch l proposal_id = do
  launch ← ok_or l.pending_launch stale_game_proposal
  fail_if (not (launch.proposal_id == proposal_id)) stale_game_proposal
  ok launch

-- `publish_game_room`
unfoldable pub publish_game_room :
    Lobby
    → ConnectionId
    → ProposalId
    → InviteCode
    → ℕ
    → Result LobbyError (Lobby × LobbyGameLaunchView)
unfolding require_host require_selected_proposal require_launch publish_room display_invite_code
    bump_with_activity
publish_game_room l connection_id proposal_id room_invite_code now_ms = do
  s ← require_host host_only l connection_id
  require_selected_proposal l proposal_id
  waiting ← require_launch l proposal_id
  let launch = publish_room (display_invite_code room_invite_code) now_ms waiting
  ok (bump_with_activity now_ms record l { pending_launch = some launch; status = in_game }, launch)

-- `gameplay_start_expected_player_indexes`
unfoldable pub gameplay_start_expected_player_indexes : Lobby → Option (List PlayerIndex)
unfolding is_present
gameplay_start_expected_player_indexes l =
    let present = filter is_present l.players in
    if any (λ s. not s.capabilities.supports_lobby_gameplay_started) present
    then none
    else some (map (λ s. s.player_index) present)

-- The pending launch, if it is of this proposal and playing.
unfoldable pub is_playing_launch : Lobby → ProposalId → Bool
unfolding is_playing
is_playing_launch l proposal_id = elim l.pending_launch [
  | none ↦ false
  | some launch ↦ (launch.proposal_id == proposal_id) && is_playing launch.status
]

-- The report of a player on the launch, once the lobby's epoch is the reported one.
unfoldable pub report_start :
    Lobby → PlayerIndex → ProposalId → ℕ → Result LobbyError (Lobby × Bool)
unfolding gameplay_start_expected_player_indexes require_launch mark_player_started
    bump_with_activity
report_start l player_index proposal_id now_ms = elim (gameplay_start_expected_player_indexes l) [
  | none ↦ ok (l, false)
  | some expected ↦ do
    waiting ← require_launch l proposal_id
    marked ← mark_player_started player_index expected now_ms waiting
    if marked.1
        then ok (
          bump_with_activity now_ms record l { pending_launch = some marked.0; status = in_game },
          true,
        )
        else ok (l, false)
]

-- `mark_gameplay_started`
unfoldable pub mark_gameplay_started :
    Lobby → ConnectionId → ℕ → ProposalId → ℕ → Result LobbyError (Lobby × Bool)
unfolding require_player require_selected_proposal is_playing_launch report_start
mark_gameplay_started l connection_id lobby_epoch proposal_id now_ms = do
  s ← require_player l connection_id
  if not s.capabilities.supports_lobby_gameplay_started then ok (l, false) else (do
    require_selected_proposal l proposal_id
    if not (lobby_epoch == l.lobby_epoch)
        then (if is_playing_launch l proposal_id then ok (l, false) else err stale_lobby_epoch)
        else report_start l s.player_index proposal_id now_ms)

-- `idempotent_return_outcome`, with the error when there is none.
unfoldable pub idempotent_return_outcome :
    LobbyError → Lobby → ProposalId → Result LobbyError (Lobby × LobbyReturnOutcome)
unfolding already_applied
idempotent_return_outcome e l proposal_id = elim l.last_return [
  | none ↦ err e
  | some returned ↦
      if returned.proposal_id == proposal_id then ok (l, already_applied returned) else err e
]

-- The pending launch is of this proposal.
unfoldable pub is_launched : Lobby → ProposalId → Bool
is_launched l proposal_id = elim l.pending_launch [
  | none ↦ false
  | some launch ↦ launch.proposal_id == proposal_id
]

-- `LobbyReturnedView::new`
unfoldable pub new_returned : LobbyReturnRequest → LobbyReturnedView
new_returned request = record {
  proposal_id = request.proposal_id;
  return_requested_by_player_index = request.return_requested_by_player_index;
  reason = request.reason;
  returned_at_ms = request.now_ms;
}

-- The lobby after a return.
unfoldable pub back_in_lobby : Lobby → LobbyReturnRequest → Lobby
unfolding setup_status new_returned bump_with_activity
back_in_lobby l request = bump_with_activity request.now_ms record l {
  game_readiness = [];
  pending_launch = none;
  status = setup_status l.selected_game;
  last_return = some (new_returned request);
}

-- `return_to_lobby`
unfoldable pub return_to_lobby :
    Lobby → LobbyReturnRequest → Result LobbyError (Lobby × LobbyReturnOutcome)
unfolding player_index_for_connection require_selected_proposal idempotent_return_outcome
    is_launched back_in_lobby applied new_returned
return_to_lobby l request = do
  player_index ← player_index_for_connection l request.connection_id
  require_selected_proposal l request.proposal_id
  if not (request.lobby_epoch == l.lobby_epoch)
      then idempotent_return_outcome stale_lobby_epoch l request.proposal_id
      else if not (is_launched l request.proposal_id)
      then idempotent_return_outcome stale_game_proposal l request.proposal_id
      else ok (back_in_lobby l request, applied (new_returned request))
