-- ===== src/Lobbies/Registry/Calls.antt =====
-- Calls of the registry that do more than one operation of a lobby keep it sound
-- (src/lobbies/in_memory_lobby_registry.rs).
-- A checked operation that ends with `record_activity`.
use mathlib.Core.Path.{subst}
use sn_netplay_serv.Base.{
  Bool-cases, Option-cases, Result, ◌>>=◌, ◌>>◌, fail_if, Result-cases, ok, ℕ, ◌≡◌, refl, ap, ◌∙◌,
  inl, inr, Bool, true, false, Option, none, some, List, [], ◌∷◌, arith,
}
use sn_netplay_serv.Base.Chars.{Chars, codes}
use sn_netplay_serv.Lobbies.Game.{ProposalId}
use sn_netplay_serv.Lobbies.License.{VerifiedLicense}
use sn_netplay_serv.Lobbies.Lobby.{
  player_index_for_connection, Lobby, mark_meaningful_activity, record_activity,
}
use sn_netplay_serv.Lobbies.Lobby.Invariant.{IsSound, same-IsSound}
use sn_netplay_serv.Lobbies.Lobby.Launching.{mark_gameplay_started}
use sn_netplay_serv.Lobbies.Lobby.Players.{leave_lobby, LobbyPlayerRemoval, remove_player}
use sn_netplay_serv.Lobbies.Lobby.Reachable.{new_lobby-IsSound, LobbyStep-IsSound}
use sn_netplay_serv.Lobbies.Lobby.Steps.{
  leave_step, remove_step, started_step, activity_step, cleanup_step,
}
use sn_netplay_serv.Lobbies.Lobby.Voice.{set_voice_state, take_voice_room_id_for_cleanup}
use sn_netplay_serv.Lobbies.Registry.{
  LobbyRegistry, emit_public_lobbies_changed, cleanup_lobby_voice_room,
  cleanup_lobby_voice_participant,
}
use sn_netplay_serv.Lobbies.Registry.Events.{
  LobbyChatMessageView, StoredLobby, emit, emit_state_changed, emit_player_removed,
}
use sn_netplay_serv.Lobbies.Registry.Games.{sanitize_chat_body, new_chat_message}
use sn_netplay_serv.Lobbies.Registry.Members.{
  CreateLobbyParams, CreateLobbyDraws, attach_voice, hosted_lobby, leave_and_take_voice,
  emit_removal, remove_lobby_player,
}
use sn_netplay_serv.Lobbies.Registry.Public.{
  expire_lobby, expire_lobbies, cleanup_expired, expire_idle_lobbies,
}
use sn_netplay_serv.Lobbies.Registry.Sound.{AreSound, call-AreSound}
use sn_netplay_serv.Lobbies.Types.{closed, LobbyError, has_lobby_status, LobbyActivityKind}
use sn_netplay_serv.Lobbies.View.{LobbyView}
use sn_netplay_serv.Protocol.Ids.{PlayerIndex, ConnectionId}
use sn_netplay_serv.Rooms.InviteCode.{InviteCode}
use sn_netplay_serv.Rooms.Voice.{RoomVoiceState}

pub prepared-IsSound :
    {A : Type 0} (m : Result LobbyError A) (l l' : Lobby) (c : ConnectionId)
    (kind : LobbyActivityKind) (now : ℕ) (a : A)
    → ◌>>=◌ {B = Lobby × A} m
        (λ x. ◌>>=◌ {B = Lobby × A} (record_activity l c kind now) (λ active. ok (active, x)))
      ≡ ok (l', a)
    → IsSound l
    → IsSound l'
prepared-IsSound m l l' c kind now a e inv = elim (Result-cases m) [
  | inl (x, refused) ↦ absurd (ground arith)
  | inr (b, intended) ↦ elim (Result-cases (record_activity l c kind now)) [
    | inl (x, refused) ↦ absurd (ground arith)
    | inr (active, done) ↦
        let it : active ≡ l' = ground arith in
        LobbyStep-IsSound (activity_step c kind now (done ∙ ap ok it)) inv
  ]
]

-- A check that leaves the lobby as it is.
pub granted-IsSound :
    {A : Type 0} (m : Result LobbyError (Unit {0})) (l l' : Lobby) (intent a : A)
    → ◌>>=◌ {B = Lobby × A} m (λ _. ok (l, intent)) ≡ ok (l', a)
    → IsSound l
    → IsSound l'
granted-IsSound m l l' intent a e inv = elim (Result-cases m) [
  | inl (x, refused) ↦ absurd (ground arith)
  | inr (u, checked) ↦ let it : l ≡ l' = ground arith in subst IsSound it inv
]

pub leave_and_take_voice-IsSound :
    (c : ConnectionId) (now : ℕ) (l l' : Lobby) (voice : Option Chars)
    → leave_and_take_voice c now l ≡ ok (l', voice)
    → IsSound l
    → IsSound l'
unfolding leave_and_take_voice
leave_and_take_voice-IsSound c now l l' voice e inv = elim (Result-cases (leave_lobby l c now)) [
  | inl (x, refused) ↦ absurd (ground arith)
  | inr (m, left) ↦
      let after = LobbyStep-IsSound (leave_step c now left) inv in
      elim (Bool-cases (has_lobby_status m.status closed)) [
        | inl down ↦
            let it : (take_voice_room_id_for_cleanup m).0 ≡ l' = ground arith in
            subst IsSound it (LobbyStep-IsSound cleanup_step after)
        | inr up ↦ let it : m ≡ l' = ground arith in subst IsSound it after
      ]
]

pub expire-AreSound :
    (now timeout : ℕ) (es : List (InviteCode × StoredLobby))
    → AreSound es
    → AreSound (expire_lobbies now timeout es).0
unfolding expire_lobbies
expire-AreSound now timeout [] inv = tt
expire-AreSound now timeout ((c, s) ∷ more) (here, there) =
    elim (Option-cases (expire_lobby now timeout s)) [
      | inl stays ↦ rw (stays, expire_lobbies) (here, expire-AreSound now timeout more there)
      | inr (gone, expired) ↦ rw (expired, expire_lobbies) (expire-AreSound now timeout more there)
    ]

pub cleanup-lobbies :
    (voice_room_id : Option Chars) (reason : Chars) (r : LobbyRegistry)
    → (cleanup_lobby_voice_room voice_room_id reason r).lobbies ≡ r.lobbies
unfolding cleanup_lobby_voice_room
cleanup-lobbies none reason r = refl
cleanup-lobbies (some id) reason r = ground arith

cleanup_participant-lobbies :
    (participant : Option (Chars × Chars)) (reason : Chars) (r : LobbyRegistry)
    → (cleanup_lobby_voice_participant participant reason r).lobbies ≡ r.lobbies
unfolding cleanup_lobby_voice_participant
cleanup_participant-lobbies none reason r = refl
cleanup_participant-lobbies (some p) reason r = ground arith

cleanup_expired-lobbies :
    (gone : List (StoredLobby × Option Chars)) (r : LobbyRegistry)
    → (cleanup_expired gone r).lobbies ≡ r.lobbies
unfolding cleanup_expired
cleanup_expired-lobbies [] r = refl
cleanup_expired-lobbies (g ∷ more) r =
    cleanup_expired-lobbies more (cleanup_lobby_voice_room g.1 (codes "lobby-idle-expired") r)
    ∙ cleanup-lobbies g.1 (codes "lobby-idle-expired") r

pub expired-lobbies :
    (r : LobbyRegistry) (now timeout : ℕ)
    → (expire_idle_lobbies r now timeout).0.lobbies ≡ (expire_lobbies now timeout r.lobbies).0
unfolding expire_idle_lobbies emit_public_lobbies_changed
expired-lobbies r now timeout =
    cleanup_expired-lobbies (expire_lobbies now timeout r.lobbies).1 _ ∙ ground arith

pub ok-IsSound :
    {A : Type 0} (m : Result LobbyError (Lobby × A)) (p : Lobby × A) (l' : Lobby) (a : A)
    → m ≡ ok p
    → m ≡ ok (l', a)
    → IsSound p.0
    → IsSound l'
ok-IsSound m p l' a made e inv = let it : p.0 ≡ l' = ground arith in subst IsSound it inv

-- The events of a removal leave the lobby alone.
removal-lobby :
    (removal : LobbyPlayerRemoval) (s : StoredLobby) → (emit_removal removal s).lobby ≡ s.lobby
unfolding emit_removal emit_player_removed emit_state_changed emit
removal-lobby removal s = elim (Option-cases removal.connection_id) [
  | inl gone ↦ rw (gone, emit_removal) refl
  | inr (target, there) ↦ rw (there, emit_removal) refl
]

passed-check :
    {A : Type 0} (bad : Bool) (x : LobbyError) (m : Result LobbyError A) (a : A)
    → (fail_if bad x >> m) ≡ ok a
    → m ≡ ok a
passed-check true x m a e = absurd (cc)
passed-check false x m a e = e

pub removed-AreSound :
    (r r' : LobbyRegistry) (code : InviteCode) (c : ConnectionId) (epoch : ℕ) (target : PlayerIndex)
    (now : ℕ) (v : LobbyView)
    → remove_lobby_player r code c epoch target now ≡ ok (r', v)
    → AreSound r.lobbies
    → AreSound r'.lobbies
unfolding remove_lobby_player emit_public_lobbies_changed
removed-AreSound r r' code c epoch target now v e inv =
    call-AreSound code (λ l. remove_player l c epoch target now) emit_removal r _
      (λ (p : LobbyRegistry × LobbyView). p.0) (r', v) (passed-check _ _ _ _ e)
      (λ called. cleanup_participant-lobbies _ _ _)
      (λ l l' a done. LobbyStep-IsSound (remove_step c epoch target now a done)) removal-lobby inv

pub reported-IsSound :
    (l l' : Lobby) (c : ConnectionId) (epoch : ℕ) (proposal : ProposalId) (now : ℕ) (b : Bool)
    → (player_index_for_connection l c >>= λ i. mark_gameplay_started l c epoch proposal now)
      ≡ ok (l', b)
    → IsSound l
    → IsSound l'
reported-IsSound l l' c epoch proposal now b e inv =
    elim (Result-cases (player_index_for_connection l c)) [
      | inl (x, refused) ↦ absurd (ground arith)
      | inr (i, known) ↦ LobbyStep-IsSound (started_step c epoch proposal now b (ground arith)) inv
    ]

pub chat-IsSound :
    (l l' : Lobby) (c : ConnectionId) (body : Chars) (id sent now : ℕ) (v : LobbyChatMessageView)
    → ◌>>=◌ {B = Lobby × LobbyChatMessageView} (player_index_for_connection l c) (λ i.
      ◌>>=◌ {B = Lobby × LobbyChatMessageView}
        (sanitize_chat_body body)
        (λ clean. ok (mark_meaningful_activity now l, new_chat_message id i clean sent)))
      ≡ ok (l', v)
    → IsSound l
    → IsSound l'
unfolding mark_meaningful_activity
chat-IsSound l l' c body id sent now v e inv =
    elim (Result-cases (player_index_for_connection l c)) [
      | inl (x, refused) ↦ absurd (ground arith)
      | inr (i, known) ↦ elim (Result-cases (sanitize_chat_body body)) [
        | inl (x, refused) ↦ absurd (ground arith)
        | inr (clean, done) ↦
            let it : mark_meaningful_activity now l ≡ l' = ground arith in
            subst IsSound it
              (same-IsSound l (mark_meaningful_activity now l) refl refl refl refl refl inv)
      ]
    ]

attach_voice-IsSound :
    (voice : Option RoomVoiceState) (l : Lobby) → IsSound l → IsSound (attach_voice voice l)
unfolding attach_voice set_voice_state
attach_voice-IsSound none l inv = inv
attach_voice-IsSound (some voice) l inv =
    same-IsSound l (set_voice_state voice l) refl refl refl refl refl inv

pub created-IsSound :
    (sha256 : List ℕ → List ℕ) (draws : CreateLobbyDraws) (license : VerifiedLicense)
    (params : CreateLobbyParams)
    → IsSound (hosted_lobby sha256 draws license params)
unfolding hosted_lobby
created-IsSound sha256 draws license params =
    attach_voice-IsSound draws.voice _ (new_lobby-IsSound draws.lobby_id draws.proposal_id _)
