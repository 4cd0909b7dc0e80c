-- ===== src/Lobbies/Registry/Sound.antt =====
-- Every lobby of the registry is sound (src/lobbies/in_memory_lobby_registry.rs).
-- Every lobby of a table is sound.
use mathlib.Core.Path.{subst}
use sn_netplay_serv.Base.{
  Bool-cases, Option-cases, All, Result, ◌>>=◌, Result-cases, ok, ◌≡◌, inl, inr, some, List, [],
  ◌∷◌, arith,
}
use sn_netplay_serv.Base.Bytes.{bytes_eq}
use sn_netplay_serv.Lobbies.Lobby.{Lobby}
use sn_netplay_serv.Lobbies.Lobby.Invariant.{IsSound}
use sn_netplay_serv.Lobbies.Registry.{LobbyRegistry, stored_lobby, put_lobby, Called, with_lobby}
use sn_netplay_serv.Lobbies.Registry.Events.{StoredLobby}
use sn_netplay_serv.Lobbies.Types.{LobbyError}
use sn_netplay_serv.Rooms.InviteCode.{InviteCode}

abbrev pub AreSound : List (InviteCode × StoredLobby) → Type 0
AreSound es = All (λ (e : InviteCode × StoredLobby). IsSound e.1.lobby) es

pub stored-IsSound :
    (code : InviteCode) (es : List (InviteCode × StoredLobby)) (s : StoredLobby)
    → AreSound es
    → stored_lobby code es ≡ some s
    → IsSound s.lobby
unfolding stored_lobby
stored-IsSound code [] s inv found = absurd (cc)
stored-IsSound code ((c, t) ∷ more) s (here, there) found = elim (Bool-cases (bytes_eq c code)) [
  | inl same ↦ let it : t ≡ s = ground arith in subst (λ (x : StoredLobby). IsSound x.lobby) it here
  | inr other ↦ stored-IsSound code more s there (ground arith)
]

pub put-AreSound :
    (code : InviteCode) (s : StoredLobby) (es : List (InviteCode × StoredLobby))
    → IsSound s.lobby
    → AreSound es
    → AreSound (put_lobby code s es)
unfolding put_lobby
put-AreSound code s [] new inv = (new, tt)
put-AreSound code s ((c, t) ∷ more) new (here, there) = elim (Bool-cases (bytes_eq c code)) [
  | inl same ↦ rw same (new, there)
  | inr other ↦ rw other (here, put-AreSound code s more new there)
]

-- An operation on one lobby that keeps it sound, with events that leave the lobby alone, keeps a
-- table sound.
with_lobby-AreSound :
    {A : Type 0} (code : InviteCode) (call : Lobby → Result LobbyError (Lobby × A))
    (events : A → StoredLobby → StoredLobby) (r : LobbyRegistry) (called : Called A)
    → with_lobby code call events r ≡ ok called
    → ((l l' : Lobby) (a : A) → call l ≡ ok (l', a) → IsSound l → IsSound l')
    → ((a : A) (s : StoredLobby) → (events a s).lobby ≡ s.lobby)
    → AreSound r.lobbies
    → AreSound called.registry.lobbies
unfolding with_lobby
with_lobby-AreSound code call events r called e keeps quiet inv =
    elim (Option-cases (stored_lobby code r.lobbies)) [
      | inl gone ↦ absurd (ground arith)
      | inr (s, found) ↦ elim (Result-cases (call s.lobby)) [
        | inl (x, refused) ↦ absurd (ground arith)
        | inr ((l', a), done) ↦
            let s' = events a (record s { lobby = l' }) in
            let table : put_lobby code s' r.lobbies ≡ called.registry.lobbies = ground arith in
            let old = stored-IsSound code r.lobbies s inv found in
            let new : IsSound s'.lobby =
              rw (quiet a (record s { lobby = l' })) (keeps s.lobby l' a done old) in
            subst AreSound table (put-AreSound code s' r.lobbies new inv)
      ]
    ]

-- The same for a call of the registry that ends with a value of which `left` is the registry.
pub call-AreSound :
    {A B : Type 0} (code : InviteCode) (call : Lobby → Result LobbyError (Lobby × A))
    (events : A → StoredLobby → StoredLobby) (r : LobbyRegistry) (answer : Called A → B)
    (left : B → LobbyRegistry) (b : B)
    → (with_lobby code call events r >>= λ called. ok (answer called)) ≡ ok b
    → ((called : Called A) → (left (answer called)).lobbies ≡ called.registry.lobbies)
    → ((l l' : Lobby) (a : A) → call l ≡ ok (l', a) → IsSound l → IsSound l')
    → ((a : A) (s : StoredLobby) → (events a s).lobby ≡ s.lobby)
    → AreSound r.lobbies
    → AreSound (left b).lobbies
call-AreSound code call events r answer left b e same keeps quiet inv =
    elim (Result-cases (with_lobby code call events r)) [
      | inl (x, refused) ↦ absurd (ground arith)
      | inr (called, done) ↦
          let it : answer called ≡ b = ground arith in
          subst (λ y. AreSound (left y).lobbies) it
            (rw (same called) (with_lobby-AreSound code call events r called done keeps quiet inv))
    ]
