-- ===== src/Lobbies/Lobby/Vacating.antt =====
-- Leaving and removal (src/lobbies/lobby.rs) keep a lobby sound.
-- Who asks has a seat, and its index is the seat's number.
use mathlib.Core.Path.{subst}
use sn_netplay_serv.Base.{
  ◌==◌, ==-refl, Bool-cases, Option-cases, find, update_first, is_some, Result-cases, ok, ℕ, ◌≡◌,
  refl, sym, ap, ◌∙◌, inl, inr, true, false, none, some, List, [], ◌∷◌, arith,
}
use sn_netplay_serv.Lobbies.Game.{LobbyGameReadinessView}
use sn_netplay_serv.Lobbies.Lobby.{
  player_index_for_connection, Lobby, setup_status, bump, mark_meaningful_activity,
  bump_with_activity, close_lobby, has_index, lobby_slot, update_slot, require_player, require_host,
  is_selected,
}
use sn_netplay_serv.Lobbies.Lobby.Invariant.{
  IsCurrent, IsSound, found-index, setup-stage, setup-open,
}
use sn_netplay_serv.Lobbies.Lobby.Players.{
  forget_readiness, vacate, leave_lobby, LobbyPlayerRemoval, removal_unavailable, require_target,
  remove_player,
}
use sn_netplay_serv.Lobbies.Lobby.Seating.{close-IsSound}
use sn_netplay_serv.Lobbies.Lobby.Seats.{IsSeat, found-IsSeat, update_first-Seats, empty-IsSeat}
use sn_netplay_serv.Lobbies.Lobby.Subjects.{one_seat-update, seat_of-empty}
use sn_netplay_serv.Lobbies.Player.{LobbyPlayerSlot, empty_lobby_slot, has_connection}
use sn_netplay_serv.Lobbies.Types.{is_lobby_host}
use sn_netplay_serv.Protocol.Ids.{PlayerIndex, ConnectionId}

pub require_player-IsSeat :
    (l : Lobby) (c : ConnectionId) (s : LobbyPlayerSlot)
    → IsSound l
    → require_player l c ≡ ok s
    → (j : ℕ) × IsSeat j s
      × (has_index s.player_index s ≡ true)
      × (lobby_slot l s.player_index ≡ some s)
unfolding require_player player_index_for_connection lobby_slot has_index
require_player-IsSeat l c s inv e = elim (Option-cases (find (has_connection c) l.players)) [
  | inl unseen ↦ absurd (ground arith)
  | inr (t, found) ↦ elim (Option-cases (lobby_slot l t.player_index)) [
    | inl gone ↦ absurd (ground arith)
    | inr (u, at) ↦
        let same : u ≡ s = ground arith in
        let at' : lobby_slot l t.player_index ≡ some s = at ∙ ap some same in
        let (j, seat, here) = found-IsSeat (has_index t.player_index) 0 l.players s inv.seats at' in
        let index : s.player_index ≡ t.player_index = ground arith in
        (j, seat, ==-refl s.player_index, ap (lobby_slot l) index ∙ at')
  ]
]

forget-IsCurrent :
    (l m : Lobby) (i : PlayerIndex) (rs : List LobbyGameReadinessView)
    → m.selected_game ≡ l.selected_game
    → IsCurrent l rs
    → IsCurrent m (forget_readiness i rs)
unfolding forget_readiness is_selected
forget-IsCurrent l m i [] same h = tt
forget-IsCurrent l m i (r ∷ rs) same (now, rest) = elim (Bool-cases (r.player_index == i)) [
  | inl mine ↦ rw mine (forget-IsCurrent l m i rs same rest)
  | inr other ↦ rw other (rw same now, forget-IsCurrent l m i rs same rest)
]

-- A lobby whose guest `s` has gone.
pub vacated-IsSound :
    (l m : Lobby) (s : LobbyPlayerSlot)
    → lobby_slot l s.player_index ≡ some s
    → is_lobby_host s.role ≡ false
    → m.players
      ≡ update_first (has_index s.player_index) (λ t. empty_lobby_slot s.player_index) l.players
    → m.status ≡ setup_status l.selected_game
    → m.selected_game ≡ l.selected_game
    → m.game_readiness ≡ forget_readiness s.player_index l.game_readiness
    → m.pending_launch ≡ none
    → IsSound l
    → IsSound m
unfolding lobby_slot setup_status is_selected
vacated-IsSound l m s found role players status selected readiness gone inv = record {
  seats = rw players (
      update_first-Seats (has_index s.player_index) (λ t. empty_lobby_slot s.player_index) 0
        l.players s inv.seats found (λ j seat. empty-IsSeat j s role seat));
  each = rw players (
      one_seat-update (has_index s.player_index) (λ t. empty_lobby_slot s.player_index) l.players s
        found (λ key. seat_of-empty key s.player_index s) inv.each);
  staged = inr (status ∙ rw (gone, selected) (setup-stage l.selected_game));
  still = λ h. absurd (setup-open l.selected_game (sym status ∙ h));
  launched = λ v h. absurd (cc);
  current =
      rw readiness (forget-IsCurrent l m s.player_index l.game_readiness selected inv.current);
}

pub leave-IsSound :
    (l l' : Lobby) (c : ConnectionId) (now : ℕ)
    → leave_lobby l c now ≡ ok l'
    → IsSound l
    → IsSound l'
unfolding leave_lobby bump_with_activity bump mark_meaningful_activity vacate update_slot
leave-IsSound l l' c now e inv = elim (Result-cases (require_player l c)) [
  | inl (x, refused) ↦ absurd (ground arith)
  | inr (s, known) ↦
      let (_, _, _, at) = require_player-IsSeat l c s inv known in
      elim (Bool-cases (is_lobby_host s.role)) [
        | inl host_left ↦
            let done : close_lobby now l ≡ l' = ground arith in
            subst (λ m. IsSound m) done (close-IsSound now l inv)
        | inr guest_left ↦
            let done : bump_with_activity now
                  record (vacate s.player_index l) { pending_launch = none }
                ≡ l' =
              ground arith in
            subst (λ m. IsSound m) done
              (vacated-IsSound l
                (bump_with_activity now record (vacate s.player_index l) { pending_launch = none })
                s at guest_left refl refl refl refl refl inv)
      ]
]

-- What an accepted removal has checked.
pub remove-checked :
    (l l' : Lobby) (c : ConnectionId) (epoch : ℕ) (i : PlayerIndex) (now : ℕ)
    (removal : LobbyPlayerRemoval) (s t : LobbyPlayerSlot)
    → require_player l c ≡ ok s
    → lobby_slot l i ≡ some t
    → remove_player l c epoch i now ≡ ok (l', removal)
    → (l.lobby_epoch ≡ epoch)
      × (is_lobby_host s.role ≡ true)
      × (removal_unavailable l ≡ false)
      × (is_lobby_host t.role ≡ false)
      × (is_some t.subject_key ≡ true)
      × (removal.player_index ≡ i)
      × (removal.connection_id ≡ t.connection_id)
      × (bump_with_activity now (vacate i l) ≡ l')
unfolding remove_player require_host require_target
remove-checked l l' c epoch i now removal s t known found e = ground arith

pub remove-IsSound :
    (l l' : Lobby) (c : ConnectionId) (epoch : ℕ) (i : PlayerIndex) (now : ℕ)
    (removal : LobbyPlayerRemoval)
    → remove_player l c epoch i now ≡ ok (l', removal)
    → IsSound l
    → IsSound l'
unfolding remove_player require_host require_target removal_unavailable bump_with_activity bump
    mark_meaningful_activity vacate update_slot
remove-IsSound l l' c epoch i now removal e inv = elim (Result-cases (require_player l c)) [
  | inl (x, refused) ↦ absurd (ground arith)
  | inr (s, known) ↦ elim (Option-cases (lobby_slot l i)) [
    | inl gone ↦ absurd (ground arith)
    | inr (t, found) ↦
        let (_, _, idle, guest_left, _, _, _, done) =
          remove-checked l l' c epoch i now removal s t known found e in
        let index = found-index l i t inv found in
        let at : lobby_slot l t.player_index ≡ some t = ap (lobby_slot l) index ∙ found in
        subst (λ m. IsSound m) (ap (λ k. bump_with_activity now (vacate k l)) index ∙ done)
          (vacated-IsSound l (bump_with_activity now (vacate t.player_index l)) t at guest_left refl
            refl refl refl (ground arith) inv)
  ]
]
