-- ===== src/Lobbies/Registry/Public.antt =====
-- src/lobbies/in_memory_lobby_registry.rs: what the registry shows of its lobbies, and the expiry of
-- the idle ones. The order of a table's values is the table's own; both sorts are stable.
-- `lobby_view`
use sn_netplay_serv.Base.{
  leb, if◌then◌else◌, length, is_empty, Result, ◌>>=◌, ok_or, ok, ℕ, Bool, ◌&&◌, Option, none, some,
  List, [], ◌∷◌, map,
}
use sn_netplay_serv.Base.Chars.{Chars, codes}
use sn_netplay_serv.Lobbies.Lobby.{is_meaningfully_idle, close_due_to_idle}
use sn_netplay_serv.Lobbies.Lobby.Voice.{take_voice_room_id_for_cleanup}
use sn_netplay_serv.Lobbies.Registry.{
  LobbyRegistry, emit_public_lobbies_changed, stored_lobby, cleanup_lobby_voice_room,
}
use sn_netplay_serv.Lobbies.Registry.Events.{StoredLobby, stored_view, emit_lobby_closed}
use sn_netplay_serv.Lobbies.Types.{not_found, LobbyError}
use sn_netplay_serv.Lobbies.View.{LobbyView, PublicLobbySummary, public_summary}
use sn_netplay_serv.Rooms.InviteCode.{InviteCode}

unfoldable pub registered_lobby_view : LobbyRegistry → InviteCode → Result LobbyError LobbyView
unfolding stored_lobby stored_view
registered_lobby_view r code = do
  s ← ok_or (stored_lobby code r.lobbies) not_found
  ok (stored_view s)

-- A stable sort, one value at a time; `before a b` when `a` may stand before an equal or later `b`.
unfoldable pub insert_sorted {ℓ} : {A : Type ℓ} → (A → A → Bool) → A → List A → List A
insert_sorted before a [] = a ∷ []
insert_sorted before a (b ∷ more) =
    if before a b then a ∷ b ∷ more else b ∷ insert_sorted before a more

unfoldable pub sort_by {ℓ} : {A : Type ℓ} → (A → A → Bool) → List A → List A
unfolding insert_sorted
sort_by before [] = []
sort_by before (a ∷ more) = insert_sorted before a (sort_by before more)

pub record LobbyRegistrySnapshot : Type 0 where
  pub active_lobby_count : ℕ
  pub lobbies : List LobbyView

-- `snapshot`, the oldest lobby first.
unfoldable pub lobby_registry_snapshot : LobbyRegistry → LobbyRegistrySnapshot
unfolding stored_view sort_by
lobby_registry_snapshot r =
    let views =
      sort_by (λ (a b : LobbyView). leb a.created_at_ms b.created_at_ms)
        (map (λ (e : InviteCode × StoredLobby). stored_view e.1) r.lobbies) in
    record { active_lobby_count = length views; lobbies = views }

-- `lobby.view().public_summary()` of each lobby, where there is one.
unfoldable pub public_summaries : List (InviteCode × StoredLobby) → List PublicLobbySummary
unfolding stored_view public_summary
public_summaries [] = []
public_summaries ((c, s) ∷ more) =
    let rest = public_summaries more in
    elim (public_summary (stored_view s)) [ none ↦ rest | some summary ↦ summary ∷ rest ]

-- `public_lobbies`, the newest lobby first.
unfoldable pub public_lobbies : LobbyRegistry → List PublicLobbySummary
unfolding public_summaries sort_by
public_lobbies r =
    sort_by (λ (a b : PublicLobbySummary). leb b.created_at_ms a.created_at_ms)
      (public_summaries r.lobbies)

-- A lobby that expired, with its last event, and its voice room to be closed.
unfoldable pub expire_lobby : ℕ → ℕ → StoredLobby → Option (StoredLobby × Option Chars)
unfolding is_meaningfully_idle close_due_to_idle take_voice_room_id_for_cleanup emit_lobby_closed
expire_lobby now_ms idle_timeout_ms s =
    let closing = close_due_to_idle s.lobby now_ms in
    let taken = take_voice_room_id_for_cleanup closing.0 in
    if is_meaningfully_idle s.lobby now_ms idle_timeout_ms && closing.1
    then some (emit_lobby_closed (codes "inactive") (record s { lobby = taken.0 }), taken.1)
    else none

-- The lobbies that stay, and those that expired.
unfoldable pub expire_lobbies :
    ℕ
    → ℕ
    → List (InviteCode × StoredLobby)
    → List (InviteCode × StoredLobby) × List (StoredLobby × Option Chars)
unfolding expire_lobby
expire_lobbies now_ms idle_timeout_ms [] = ([], [])
expire_lobbies now_ms idle_timeout_ms ((c, s) ∷ more) =
    let rest = expire_lobbies now_ms idle_timeout_ms more in
    elim (expire_lobby now_ms idle_timeout_ms s) [
      | none ↦ ((c, s) ∷ rest.0, rest.1)
      | some gone ↦ (rest.0, gone ∷ rest.1)
    ]

unfoldable pub cleanup_expired : List (StoredLobby × Option Chars) → LobbyRegistry → LobbyRegistry
unfolding cleanup_lobby_voice_room
cleanup_expired [] r = r
cleanup_expired (gone ∷ more) r =
    cleanup_expired more (cleanup_lobby_voice_room gone.1 (codes "lobby-idle-expired") r)

-- `expire_idle_lobbies`, with the lobbies that expired; the code returns their number.
unfoldable pub expire_idle_lobbies : LobbyRegistry → ℕ → ℕ → LobbyRegistry × List StoredLobby
unfolding expire_lobbies cleanup_expired emit_public_lobbies_changed
expire_idle_lobbies r now_ms idle_timeout_ms =
    let done = expire_lobbies now_ms idle_timeout_ms r.lobbies in
    let left = record r { lobbies = done.0 } in
    (
      cleanup_expired done.1 (if is_empty done.1 then left else emit_public_lobbies_changed left),
      map (λ (g : StoredLobby × Option Chars). g.0) done.1,
    )
