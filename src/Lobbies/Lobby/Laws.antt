-- ===== src/Lobbies/Lobby/Laws.antt =====
-- What the calls of src/lobbies/lobby.rs promise.
use mathlib.Core.Path.{subst}
use sn_netplay_serv.Base.{
  ==-refl, Option-cases, all, any, filter, find, update_first, All, is_some, Result-cases, ok, ℕ,
  ◌≤◌, ◌≡◌, refl, sym, ap, ◌∙◌, ◌⊎◌, inl, inr, Bool, true, false, Option, none, some, List, [], ◌∷◌,
  arith,
}
use sn_netplay_serv.Base.Bytes.{bytes_eq_refl}
use sn_netplay_serv.Base.Chars.{Chars}
use sn_netplay_serv.Lobbies.Game.{
  ProposalId, LobbyGameLaunchView, new_launch, LobbyReturnRequest, LobbyReturnedView,
  LobbyReturnOutcome, applied, already_applied,
}
use sn_netplay_serv.Lobbies.Lobby.{
  player_index_for_connection, Lobby, bump, mark_meaningful_activity, bump_with_activity, has_index,
  lobby_slot, update_slot, require_player, require_host, is_selected, require_selected_proposal,
}
use sn_netplay_serv.Lobbies.Lobby.Invariant.{IsSound}
use sn_netplay_serv.Lobbies.Lobby.Launching.{
  is_ready_for, connected_players_are_ready, request_game_launch, idempotent_return_outcome,
  is_launched, new_returned, back_in_lobby, return_to_lobby,
}
use sn_netplay_serv.Lobbies.Lobby.Players.{
  LobbyReconnectRequest, has_token_hash, hash_resume_token, reconnect_player, vacate,
  LobbyPlayerRemoval, removal_unavailable, require_target, remove_player,
}
use sn_netplay_serv.Lobbies.Lobby.Seating.{reconnect-checked}
use sn_netplay_serv.Lobbies.Lobby.Subjects.{seat_of, seats_of, seats_of-update_first}
use sn_netplay_serv.Lobbies.Lobby.Vacating.{remove-checked}
use sn_netplay_serv.Lobbies.Player.{
  LobbyPlayerSlot, LobbyPlayerOccupancy, empty_lobby_slot, occupy, has_subject, belongs_to,
  is_present,
}
use sn_netplay_serv.Lobbies.Types.{closed, has_lobby_status, is_lobby_host, in_game}
use sn_netplay_serv.Protocol.Ids.{PlayerIndex, ConnectionId}

all-holds : {A : Type 0} (p : A → Bool) (xs : List A) → all p xs ≡ true → All (λ x. p x ≡ true) xs
all-holds p [] h = tt
all-holds p (x ∷ xs) h =
    let first : p x ≡ true = ground arith in
    let rest : all p xs ≡ true = ground arith in (first, all-holds p xs rest)

-- A launch that is accepted was asked for by the host, for the selected game, and every player with
-- a connection had reported ready for it; the lobby is then in the game, with the launch prepared and
-- its players unchanged.
pub request_game_launch-ready :
    (l l' : Lobby) (c : ConnectionId) (proposal : ProposalId) (now : ℕ) (v : LobbyGameLaunchView)
    → request_game_launch l c proposal now ≡ ok (l', v)
    → ((s : LobbyPlayerSlot) × (require_player l c ≡ ok s)
        × (is_lobby_host s.role ≡ true)
        × (v ≡ new_launch proposal s.player_index now))
      × (is_selected l proposal ≡ true)
      × All
          (λ s. any (is_ready_for proposal s) l.game_readiness ≡ true)
          (filter is_present l.players)
      × (l'.status ≡ in_game)
      × (l'.pending_launch ≡ some v)
      × (l'.players ≡ l.players)
unfolding request_game_launch require_host require_selected_proposal connected_players_are_ready
    bump_with_activity bump mark_meaningful_activity
request_game_launch-ready l l' c proposal now v e = elim (Result-cases (require_player l c)) [
  | inl (x, refused) ↦ absurd (ground arith)
  | inr (s, known) ↦
      let ready : all (λ t. any (is_ready_for proposal t) l.game_readiness)
            (filter is_present l.players)
          ≡ true =
        ground arith in
      (
        (s, known, ground arith, ground arith),
        ground arith,
        all-holds (λ t. any (is_ready_for proposal t) l.game_readiness)
            (filter is_present l.players) ready,
        ground arith,
        ground arith,
        ground arith,
      )
]

back_in_lobby-again :
    (l : Lobby) (q q' : LobbyReturnRequest) (i : PlayerIndex)
    → player_index_for_connection (back_in_lobby l q) q'.connection_id ≡ ok i
    → is_selected l q.proposal_id ≡ true
    → q'.proposal_id ≡ q.proposal_id
    → return_to_lobby (back_in_lobby l q) q'
      ≡ ok (back_in_lobby l q, already_applied (new_returned q))
unfolding return_to_lobby require_selected_proposal idempotent_return_outcome is_launched
    back_in_lobby is_selected bump_with_activity bump mark_meaningful_activity new_returned
back_in_lobby-again l q q' i known wanted proposal = ground (arith, ==-refl q.proposal_id)

-- A repeat of a lobby's answer that changed nothing, by any player.
repeated-again :
    (l : Lobby) (q q' : LobbyReturnRequest) (returned : LobbyReturnedView) (i : PlayerIndex)
    → return_to_lobby l q ≡ ok (l, already_applied returned)
    → player_index_for_connection l q'.connection_id ≡ ok i
    → q'.proposal_id ≡ q.proposal_id
    → q'.lobby_epoch ≡ q.lobby_epoch
    → return_to_lobby l q' ≡ ok (l, already_applied returned)
unfolding return_to_lobby require_selected_proposal idempotent_return_outcome already_applied
    applied
repeated-again l q q' returned i e known proposal epoch = ground arith

-- After a return that is accepted, whether it changed the lobby or not, any player may send a return
-- with the same proposal and epoch, at any time, with any reason and for any player: the answer is
-- the first return, with its time, reason and player, marked as already applied, and nothing changes.
pub return_to_lobby-again :
    (l l' : Lobby) (q q' : LobbyReturnRequest) (o : LobbyReturnOutcome) (i : PlayerIndex)
    → return_to_lobby l q ≡ ok (l', o)
    → player_index_for_connection l' q'.connection_id ≡ ok i
    → q'.proposal_id ≡ q.proposal_id
    → q'.lobby_epoch ≡ q.lobby_epoch
    → return_to_lobby l' q' ≡ ok (l', already_applied o.returned)
unfolding return_to_lobby require_selected_proposal idempotent_return_outcome already_applied
    applied
return_to_lobby-again l l' q q' o i e known proposal epoch =
    let wanted : is_selected l q.proposal_id ≡ true = ground arith in
    let either : ((l ≡ l') × (o ≡ already_applied o.returned))
        ⊎ ((back_in_lobby l q ≡ l') × (o.returned ≡ new_returned q)) =
      ground arith in
    elim either [
      | inl (same, repeated) ↦
          let first : return_to_lobby l' q ≡ ok (l', already_applied o.returned) =
            subst (λ n. return_to_lobby n q ≡ ok (l', already_applied o.returned)) same
              (e ∙ ap (λ p. ok (l', p)) repeated) in
          repeated-again l' q q' o.returned i first known proposal epoch
      | inr (back, first) ↦
          let seen : player_index_for_connection (back_in_lobby l q) q'.connection_id ≡ ok i =
            subst (λ n. player_index_for_connection n q'.connection_id ≡ ok i) (sym back) known in
          subst (λ n. return_to_lobby n q' ≡ ok (n, already_applied o.returned)) back
            (back_in_lobby-again l q q' i seen wanted proposal
              ∙ ap (λ r. ok (back_in_lobby l q, already_applied r)) (sym first))
    ]

-- A reconnect that is accepted came to a lobby that is not closed, from the subject who holds the
-- seat, with the token that was issued for it, and from no later epoch than the lobby's; the seat then
-- has the new connection, its role is kept, and no other seat changes.
pub reconnect_player-owner :
    (sha256 : List ℕ → List ℕ) (l l' : Lobby) (q : LobbyReconnectRequest) (i : PlayerIndex)
    → reconnect_player sha256 l q ≡ ok (l', i)
    → (s : LobbyPlayerSlot) × (lobby_slot l q.player_index ≡ some s)
      × (has_lobby_status l.status closed ≡ false)
      × (q.lobby_epoch ≤ l.lobby_epoch)
      × (belongs_to q.license s ≡ true)
      × (has_token_hash (hash_resume_token sha256 q.resume_token) s ≡ true)
      × (i ≡ q.player_index)
      × ((o : LobbyPlayerOccupancy) × (o.role ≡ s.role)
          × (o.connection_id ≡ q.connection_id)
          × (l'.players ≡ update_first (has_index q.player_index) (occupy o) l.players))
unfolding reconnect_player lobby_slot bump_with_activity bump mark_meaningful_activity
reconnect_player-owner sha256 l l' q i e =
    elim (Option-cases (find (has_index q.player_index) l.players)) [
      | inl gone ↦ absurd (ground arith)
      | inr (s, found) ↦
          let (up, epoch, own, token, index, done) = reconnect-checked sha256 l l' q i s found e in
          (
            s,
            found,
            up,
            epoch,
            own,
            token,
            index,
            (
              record {
                role = s.role;
                license = q.license;
                connection_id = q.connection_id;
                display_name = q.display_name;
                capabilities = q.capabilities;
                resume_token_hash = hash_resume_token sha256 q.resume_token;
                now_ms = q.now_ms;
              },
              refl,
              refl,
              sym (ap (λ m. m.players) done),
            ),
          )
    ]

some-holds : {A : Type 0} (o : Option A) → is_some o ≡ true → (a : A) × (o ≡ some a)
some-holds none h = absurd (cc)
some-holds (some a) h = (a, refl)

seat_of-own : (key : Chars) (t : LobbyPlayerSlot) → t.subject_key ≡ some key → seat_of key t ≡ 1
unfolding seat_of has_subject
seat_of-own key t own = rw (own, bytes_eq_refl key) refl

-- A removal that is accepted by a sound lobby was asked for by the host, in the lobby's epoch, while
-- no game was on; it took an occupied seat of a guest, which is then empty, and the subject who held
-- it holds no seat any more.
pub remove_player-gone :
    (l l' : Lobby) (c : ConnectionId) (epoch : ℕ) (i : PlayerIndex) (now : ℕ)
    (removal : LobbyPlayerRemoval)
    → IsSound l
    → remove_player l c epoch i now ≡ ok (l', removal)
    → ((s : LobbyPlayerSlot) × (require_player l c ≡ ok s) × (is_lobby_host s.role ≡ true))
      × (l.lobby_epoch ≡ epoch)
      × (removal_unavailable l ≡ false)
      × ((t : LobbyPlayerSlot) × (key : Chars) × (lobby_slot l i ≡ some t)
          × (is_lobby_host t.role ≡ false)
          × (t.subject_key ≡ some key)
          × (removal.connection_id ≡ t.connection_id)
          × (seats_of key l.players ≡ 1)
          × (seats_of key l'.players ≡ 0))
      × (l'.players ≡ update_first (has_index i) (λ u. empty_lobby_slot i) l.players)
unfolding vacate update_slot bump_with_activity bump mark_meaningful_activity lobby_slot seat_of
    has_subject empty_lobby_slot remove_player require_host require_target
remove_player-gone l l' c epoch i now removal inv e = elim (Result-cases (require_player l c)) [
  | inl (x, refused) ↦ absurd (ground arith)
  | inr (s, known) ↦ elim (Option-cases (lobby_slot l i)) [
    | inl gone ↦ absurd (ground arith)
    | inr (t, found) ↦
        let (at, host_asks, idle, guest_left, occupied, _, connection, done) =
          remove-checked l l' c epoch i now removal s t known found e in
        let (key, own) = some-holds t.subject_key occupied in
        let players : l'.players ≡ update_first (has_index i) (λ u. empty_lobby_slot i) l.players =
          sym (ap (λ m. m.players) done) in
        let count =
          seats_of-update_first key (has_index i) (λ u. empty_lobby_slot i) l.players t found in
        let held = seat_of-own key t own in
        (
          (s, known, host_asks),
          at,
          idle,
          (
            t,
            key,
            found,
            guest_left,
            own,
            connection,
            omega (arith, count, held, inv.each key),
            ap (seats_of key) players ∙ omega (arith, count, held, inv.each key),
          ),
          players,
        )
  ]
]
