-- ===== src/Lobbies/Lobby/Invariant.antt =====
-- What holds of a lobby between two calls (src/lobbies/lobby.rs).
-- The status that a lobby that is not closed shows.
use sn_netplay_serv.Base.{All, ◌≡◌, refl, sym, ◌∙◌, ◌≢◌, ◌⊎◌, true, Option, none, some, List, arith}
use sn_netplay_serv.Lobbies.Game.{
  LobbyGameSelectionView, LobbyGameReadinessView, LobbyGameLaunchView,
}
use sn_netplay_serv.Lobbies.Lobby.{Lobby, setup_status, has_index, lobby_slot, is_selected}
use sn_netplay_serv.Lobbies.Lobby.Seats.{Seats, found-IsSeat, IsSilent}
use sn_netplay_serv.Lobbies.Lobby.Subjects.{HasOneSeatEach}
use sn_netplay_serv.Lobbies.Player.{LobbyPlayerSlot}
use sn_netplay_serv.Lobbies.Types.{closed, LobbyStatus, in_game}
use sn_netplay_serv.Protocol.Ids.{PlayerIndex}

unfoldable pub stage : Option LobbyGameLaunchView → Option LobbyGameSelectionView → LobbyStatus
unfolding setup_status
stage none selected = setup_status selected
stage (some launch) selected = in_game

abbrev pub IsClosed : Lobby → Type 0
IsClosed l = l.status ≡ closed

abbrev pub IsCurrent : Lobby → List LobbyGameReadinessView → Type 0
IsCurrent l rs = All (λ (r : LobbyGameReadinessView). is_selected l r.proposal_id ≡ true) rs

pub record IsSound (l : Lobby) : Type 0 where
  -- The seats are in order, the host's first.
  pub seats : Seats 0 l.players
  -- Nobody holds two seats.
  pub each : HasOneSeatEach l.players
  -- The status follows from the launch and the selected game.
  pub staged : (l.status ≡ closed) ⊎ (l.status ≡ stage l.pending_launch l.selected_game)
  -- A closed lobby has no connection and no launch.
  pub still : l.status ≡ closed → IsSilent l.players × (l.pending_launch ≡ none)
  -- A launch is of the selected game.
  pub launched :
      (v : LobbyGameLaunchView) → l.pending_launch ≡ some v → is_selected l v.proposal_id ≡ true
  -- So is every readiness.
  pub current : IsCurrent l l.game_readiness

-- A change of the players in a lobby that stays open.
pub seated-IsSound :
    (l l' : Lobby)
    → Seats 0 l'.players
    → HasOneSeatEach l'.players
    → (l.status ≡ closed → IsSilent l'.players)
    → l'.status ≡ l.status
    → l'.selected_game ≡ l.selected_game
    → l'.game_readiness ≡ l.game_readiness
    → l'.pending_launch ≡ l.pending_launch
    → IsSound l
    → IsSound l'
unfolding is_selected
seated-IsSound l l' s o q b c d e inv = record {
  seats = s;
  each = o;
  staged = ground (arith, inv.staged);
  still = λ h. (q (sym b ∙ h), e ∙ (inv.still (sym b ∙ h)).1);
  launched = λ v h. rw c (inv.launched v (sym e ∙ h));
  current = rw (c, d) inv.current;
}

-- A change of the clock fields, the voice and the last return only.
pub same-IsSound :
    (l l' : Lobby)
    → l'.players ≡ l.players
    → l'.status ≡ l.status
    → l'.selected_game ≡ l.selected_game
    → l'.game_readiness ≡ l.game_readiness
    → l'.pending_launch ≡ l.pending_launch
    → IsSound l
    → IsSound l'
same-IsSound l l' a b c d e inv =
    seated-IsSound l l' (rw a inv.seats) (rw a inv.each) (λ h. rw a (inv.still h).0) b c d e inv

-- The slot of an index has that index.
pub found-index :
    (l : Lobby) (i : PlayerIndex) (t : LobbyPlayerSlot)
    → IsSound l
    → lobby_slot l i ≡ some t
    → t.player_index ≡ i
unfolding lobby_slot has_index
found-index l i t inv found =
    let (_, _, here) = found-IsSeat (has_index i) 0 l.players t inv.seats found in ground arith

pub setup-stage : (o : Option LobbyGameSelectionView) → setup_status o ≡ stage none o
unfolding stage
setup-stage o = refl

pub setup-open : (o : Option LobbyGameSelectionView) → setup_status o ≢ closed
unfolding setup_status
setup-open none h = absurd (cc)
setup-open (some game) h = absurd (cc)
