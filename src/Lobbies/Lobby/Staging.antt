-- ===== src/Lobbies/Lobby/Staging.antt =====
-- Selection, readiness, launch and return (src/lobbies/lobby.rs) keep a lobby sound.
use mathlib.Core.Path.{subst}
use sn_netplay_serv.Base.{
  ◌==◌, Bool-cases, Option-cases, Result-cases, ok, ℕ, ◌≡◌, refl, sym, ◌∙◌, ◌≢◌, ◌⊎◌, inl, inr,
  Bool, true, Option, none, some, List, [], ◌∷◌, arith,
}
use sn_netplay_serv.Base.Chars.{Chars}
use sn_netplay_serv.Lobbies.Game.{
  LobbyGameCandidate, ProposalId, LobbyGameSelectionView, new_selection, LobbyGameReadinessStatus,
  LobbyGameReadinessView, sanitize_readiness_detail, new_readiness, LobbyGameLaunchView, new_launch,
  publish_room, mark_player_started, LobbyReturnRequest, LobbyReturnOutcome,
}
use sn_netplay_serv.Lobbies.Lobby.{
  player_index_for_connection, Lobby, setup_status, bump, mark_meaningful_activity,
  bump_with_activity, require_player, require_host, is_selected, require_selected_proposal,
}
use sn_netplay_serv.Lobbies.Lobby.Invariant.{stage, IsCurrent, IsSound, setup-open}
use sn_netplay_serv.Lobbies.Lobby.Launching.{
  validate_game_candidate, select_game, put_readiness, set_game_readiness, request_game_launch,
  require_launch, publish_game_room, gameplay_start_expected_player_indexes, report_start,
  mark_gameplay_started, idempotent_return_outcome, back_in_lobby, return_to_lobby,
}
use sn_netplay_serv.Lobbies.Types.{closed, game_selected, in_game}
use sn_netplay_serv.Protocol.Ids.{PlayerIndex, ConnectionId}
use sn_netplay_serv.Rooms.InviteCode.{InviteCode}

pub stage-open :
    (p : Option LobbyGameLaunchView) (o : Option LobbyGameSelectionView) → stage p o ≢ closed
unfolding stage
stage-open none o h = setup-open o h
stage-open (some v) o h = absurd (cc)

-- A new stage of a lobby whose seats stand.
pub staged-IsSound :
    (l m : Lobby)
    → m.players ≡ l.players
    → m.status ≡ stage m.pending_launch m.selected_game
    → ((v : LobbyGameLaunchView) → m.pending_launch ≡ some v → is_selected m v.proposal_id ≡ true)
    → IsCurrent m m.game_readiness
    → IsSound l
    → IsSound m
staged-IsSound l m players status launched current inv = record {
  seats = rw players inv.seats;
  each = rw players inv.each;
  staged = inr status;
  still = λ h. absurd (stage-open m.pending_launch m.selected_game (sym status ∙ h));
  launched = launched;
  current = current;
}

pub select-IsSound :
    (l l' : Lobby) (c : ConnectionId) (game : LobbyGameCandidate) (proposal : ProposalId) (now : ℕ)
    (v : LobbyGameSelectionView)
    → select_game l c game proposal now ≡ ok (l', v)
    → IsSound l
    → IsSound l'
unfolding select_game require_host bump_with_activity bump mark_meaningful_activity stage
    setup_status
select-IsSound l l' c game proposal now v e inv = elim (Result-cases (require_player l c)) [
  | inl (x, refused) ↦ absurd (ground arith)
  | inr (s, known) ↦ elim (Result-cases (validate_game_candidate game)) [
    | inl (x, refused) ↦ absurd (ground arith)
    | inr (u, valid) ↦
        let m : Lobby = bump_with_activity now record l {
          selected_game = some (new_selection proposal game s.player_index now);
          game_readiness = [];
          pending_launch = none;
          last_return = none;
          status = game_selected;
        } in
        let done : m ≡ l' = ground arith in
        subst (λ n. IsSound n) done (staged-IsSound l m refl refl (λ w h. absurd (cc)) tt inv)
  ]
]

put-IsCurrent :
    (l : Lobby) (r : LobbyGameReadinessView) (rs : List LobbyGameReadinessView)
    → is_selected l r.proposal_id ≡ true
    → IsCurrent l rs
    → IsCurrent l (put_readiness r rs)
unfolding put_readiness
put-IsCurrent l r [] now h = (now, tt)
put-IsCurrent l r (x ∷ xs) now (first, rest) =
    elim (Bool-cases (x.player_index == r.player_index)) [
      | inl same ↦ rw same (now, rest)
      | inr other ↦ rw other (first, put-IsCurrent l r xs now rest)
    ]

-- A selected proposal is there.
is_selected-some :
    (l : Lobby) (i : ProposalId)
    → is_selected l i ≡ true
    → (g : LobbyGameSelectionView) × (l.selected_game ≡ some g)
unfolding is_selected
is_selected-some l i h = elim (Option-cases l.selected_game) [
  | inl nothing ↦ absurd (ground arith)
  | inr known ↦ known
]

pub readiness-IsSound :
    (l l' : Lobby) (c : ConnectionId) (proposal : ProposalId) (status : LobbyGameReadinessStatus)
    (detail : Option Chars) (now : ℕ) (v : LobbyGameReadinessView)
    → set_game_readiness l c proposal status detail now ≡ ok (l', v)
    → IsSound l
    → IsSound l'
unfolding set_game_readiness require_selected_proposal new_readiness bump_with_activity bump
    mark_meaningful_activity stage setup_status is_selected
readiness-IsSound l l' c proposal status detail now v e inv =
    elim (Result-cases (player_index_for_connection l c)) [
      | inl (x, refused) ↦ absurd (ground arith)
      | inr (i, known) ↦ elim (Result-cases (sanitize_readiness_detail detail)) [
        | inl (x, refused) ↦ absurd (ground arith)
        | inr (text, clean) ↦
            let m : Lobby = bump_with_activity now record l {
              game_readiness = put_readiness v l.game_readiness;
              pending_launch = none;
              status = game_selected;
            } in
            let wanted : is_selected l proposal ≡ true = ground arith in
            let (g, there) = is_selected-some l proposal wanted in
            let own : v.proposal_id ≡ proposal = ground arith in
            let done : m ≡ l' = ground arith in
            subst (λ n. IsSound n) done
              (staged-IsSound l m refl (rw there refl) (λ w h. absurd (cc))
                (put-IsCurrent l v l.game_readiness (rw own wanted) inv.current) inv)
      ]
    ]

pub launch-IsSound :
    (l l' : Lobby) (c : ConnectionId) (proposal : ProposalId) (now : ℕ) (v : LobbyGameLaunchView)
    → request_game_launch l c proposal now ≡ ok (l', v)
    → IsSound l
    → IsSound l'
unfolding request_game_launch require_host require_selected_proposal bump_with_activity bump
    mark_meaningful_activity stage is_selected new_launch
launch-IsSound l l' c proposal now v e inv = elim (Result-cases (require_player l c)) [
  | inl (x, refused) ↦ absurd (ground arith)
  | inr (s, known) ↦
      let m : Lobby =
        bump_with_activity now
          record l { pending_launch = some v; last_return = none; status = in_game } in
      let wanted : is_selected l v.proposal_id ≡ true = ground arith in
      let done : m ≡ l' = ground arith in
      subst (λ n. IsSound n) done
        (staged-IsSound l m refl refl (λ w h. let q : v ≡ w = ground arith in rw q at wanted)
          inv.current inv)
]

-- A launch that goes on, for the same proposal.
pub continued-IsSound :
    (l : Lobby) (v w : LobbyGameLaunchView) (now : ℕ)
    → l.pending_launch ≡ some v
    → w.proposal_id ≡ v.proposal_id
    → IsSound l
    → IsSound (bump_with_activity now record l { pending_launch = some w; status = in_game })
unfolding bump_with_activity bump mark_meaningful_activity stage is_selected
continued-IsSound l v w now was same inv =
    let wanted : is_selected l w.proposal_id ≡ true = rw same (inv.launched v was) in
    staged-IsSound l (bump_with_activity now record l { pending_launch = some w; status = in_game })
      refl refl (λ u h. let q : w ≡ u = ground arith in rw q at wanted) inv.current inv

pub publish-IsSound :
    (l l' : Lobby) (c : ConnectionId) (proposal : ProposalId) (code : InviteCode) (now : ℕ)
    (v : LobbyGameLaunchView)
    → publish_game_room l c proposal code now ≡ ok (l', v)
    → IsSound l
    → IsSound l'
unfolding publish_game_room require_host require_selected_proposal require_launch publish_room
publish-IsSound l l' c proposal code now v e inv = elim (Result-cases (require_player l c)) [
  | inl (x, refused) ↦ absurd (ground arith)
  | inr (s, known) ↦ elim (Option-cases l.pending_launch) [
    | inl nothing ↦ absurd (ground arith)
    | inr (w, was) ↦
        let same : v.proposal_id ≡ w.proposal_id = ground arith in
        let done : bump_with_activity now record l { pending_launch = some v; status = in_game }
            ≡ l' =
          ground arith in
        subst (λ n. IsSound n) done (continued-IsSound l w v now was same inv)
  ]
]

mark-same :
    (i : PlayerIndex) (expected : List PlayerIndex) (now : ℕ) (v w : LobbyGameLaunchView) (b : Bool)
    → mark_player_started i expected now v ≡ ok (w, b)
    → w.proposal_id ≡ v.proposal_id
unfolding mark_player_started
mark-same i expected now v w b e = ground arith

report-IsSound :
    (l l' : Lobby) (i : PlayerIndex) (proposal : ProposalId) (now : ℕ) (b : Bool)
    → report_start l i proposal now ≡ ok (l', b)
    → IsSound l
    → IsSound l'
unfolding report_start require_launch
report-IsSound l l' i proposal now b e inv =
    elim (Option-cases (gameplay_start_expected_player_indexes l)) [
      | inl nobody ↦ let same : l ≡ l' = ground arith in subst (λ n. IsSound n) same inv
      | inr (expected, asked) ↦ elim (Option-cases l.pending_launch) [
        | inl nothing ↦ absurd (ground arith)
        | inr (v, was) ↦ elim (Result-cases (mark_player_started i expected now v)) [
          | inl (x, refused) ↦ absurd (ground arith)
          | inr ((w, changed), marked) ↦ elim (Bool-cases changed) [
            | inr no_change ↦ let same : l ≡ l' = ground arith in subst (λ n. IsSound n) same inv
            | inl change ↦
                let done : bump_with_activity now
                      record l { pending_launch = some w; status = in_game }
                    ≡ l' =
                  ground arith in
                subst (λ n. IsSound n) done
                  (continued-IsSound l v w now was (mark-same i expected now v w changed marked)
                    inv)
          ]
        ]
      ]
    ]

pub started-IsSound :
    (l l' : Lobby) (c : ConnectionId) (epoch : ℕ) (proposal : ProposalId) (now : ℕ) (b : Bool)
    → mark_gameplay_started l c epoch proposal now ≡ ok (l', b)
    → IsSound l
    → IsSound l'
unfolding mark_gameplay_started
started-IsSound l l' c epoch proposal now b e inv = elim (Result-cases (require_player l c)) [
  | inl (x, refused) ↦ absurd (ground arith)
  | inr (s, known) ↦
      let either : (l ≡ l') ⊎ (report_start l s.player_index proposal now ≡ ok (l', b)) =
        ground arith in
      elim either [
        | inl same ↦ subst (λ n. IsSound n) same inv
        | inr told ↦ report-IsSound l l' s.player_index proposal now b told inv
      ]
]

pub return-IsSound :
    (l l' : Lobby) (q : LobbyReturnRequest) (o : LobbyReturnOutcome)
    → return_to_lobby l q ≡ ok (l', o)
    → IsSound l
    → IsSound l'
unfolding return_to_lobby idempotent_return_outcome back_in_lobby bump_with_activity bump
    mark_meaningful_activity stage
return-IsSound l l' q o e inv =
    let either : (l ≡ l') ⊎ (back_in_lobby l q ≡ l') = ground arith in
    elim either [
      | inl same ↦ subst (λ n. IsSound n) same inv
      | inr back ↦
          subst (λ n. IsSound n) back
            (staged-IsSound l (back_in_lobby l q) refl refl (λ w h. absurd (cc)) tt inv)
    ]
