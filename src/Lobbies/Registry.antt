-- ===== src/Lobbies/Registry.antt =====
-- src/lobbies/in_memory_lobby_registry.rs and stored_lobby.rs: the table of lobbies by invite code,
-- the events sent to a lobby's sockets and the notices on public lobbies. Random ids and tokens, times
-- and the answers of the voice broker are arguments; the debug logs are left out.
pub mod Events
pub mod Members
pub mod Games
pub mod Public
pub mod Steps
pub mod Sound
pub mod Calls
pub mod Reachable
use sn_netplay_serv.Base.{
  if◌then◌else◌, Result, ◌>>=◌, ◌>>◌, ok_or, ok, ℕ, ◌+◌, Bool, Option, none, some, List, [], ◌∷◌,
  ◌++◌,
}
use sn_netplay_serv.Base.Bytes.{bytes_eq}
use sn_netplay_serv.Base.Chars.{Chars}
use sn_netplay_serv.Lobbies.Lobby.{Lobby}
use sn_netplay_serv.Lobbies.Registry.Events.{StoredLobby, stored_view}
use sn_netplay_serv.Lobbies.Types.{not_found, LobbyError, LobbyServerCapabilities}
use sn_netplay_serv.Lobbies.View.{LobbyView}
use sn_netplay_serv.Rooms.InviteCode.{InviteCode}

-- A call of the voice broker to close a room or to remove a participant.
pub data VoiceCleanup : Type 0 where
  close_room : Chars → Chars → VoiceCleanup
  remove_participant : Chars → Chars → Chars → VoiceCleanup

pub record LobbyRegistry : Type 0 where
  pub lobbies : List (InviteCode × StoredLobby)
  pub capabilities : LobbyServerCapabilities
  pub voice_is_enabled : Bool
  pub public_lobby_events : ℕ
  pub voice_cleanups : List VoiceCleanup

-- `InMemoryLobbyRegistry::with_generators_capabilities_and_voice`
unfoldable pub new_registry : LobbyServerCapabilities → Bool → LobbyRegistry
new_registry capabilities voice_is_enabled = record {
  lobbies = [];
  capabilities = capabilities;
  voice_is_enabled = voice_is_enabled;
  public_lobby_events = 0;
  voice_cleanups = [];
}

-- `emit_public_lobbies_changed`
unfoldable pub emit_public_lobbies_changed : LobbyRegistry → LobbyRegistry
emit_public_lobbies_changed r = record r { public_lobby_events = r.public_lobby_events + 1 }

-- `lobbies.get(invite_code)`, and the entry written back
unfoldable pub stored_lobby : InviteCode → List (InviteCode × StoredLobby) → Option StoredLobby
stored_lobby code [] = none
stored_lobby code ((c, s) ∷ more) = if bytes_eq c code then some s else stored_lobby code more

unfoldable pub put_lobby :
    InviteCode → StoredLobby → List (InviteCode × StoredLobby) → List (InviteCode × StoredLobby)
put_lobby code s [] = (code, s) ∷ []
put_lobby code s ((c, t) ∷ more) =
    if bytes_eq c code then (code, s) ∷ more else (c, t) ∷ put_lobby code s more

-- What a call leaves: the table, the lobby as it stands in it, and the call's own value.
pub record Called (A : Type 0) : Type 0 where
  pub registry : LobbyRegistry
  pub stored : StoredLobby
  pub value : A

-- A call of one lobby under the lock: the operation on the lobby, the events that are sent, and the
-- entry written back. An error leaves the table as it was.
unfoldable pub with_lobby :
    {A : Type 0}
    → InviteCode
    → (Lobby → Result LobbyError (Lobby × A))
    → (A → StoredLobby → StoredLobby)
    → LobbyRegistry
    → Result LobbyError (Called A)
unfolding stored_lobby put_lobby
with_lobby code call events r = do
  s ← ok_or (stored_lobby code r.lobbies) not_found
  done ← call s.lobby
  let s' = events done.1 (record s { lobby = done.0 })
  ok record {
    registry = record r { lobbies = put_lobby code s' r.lobbies };
    stored = s';
    value = done.1;
  }

-- `Ok(lobby.view())`, without and with a notice on public lobbies before it.
unfoldable pub shown : {A : Type 0} → Called A → LobbyRegistry × LobbyView
unfolding stored_view
shown called = (called.registry, stored_view called.stored)

unfoldable pub shown_publicly : {A : Type 0} → Called A → LobbyRegistry × LobbyView
unfolding stored_view emit_public_lobbies_changed
shown_publicly called = (emit_public_lobbies_changed called.registry, stored_view called.stored)

-- The call's own value for an answer.
unfoldable pub answered : {A : Type 0} → Called A → LobbyRegistry × A
answered called = (called.registry, called.value)

-- `cleanup_lobby_voice_room`
unfoldable pub cleanup_lobby_voice_room : Option Chars → Chars → LobbyRegistry → LobbyRegistry
cleanup_lobby_voice_room voice_room_id reason r = elim voice_room_id [
  | none ↦ r
  | some id ↦
      if r.voice_is_enabled
      then record r { voice_cleanups = r.voice_cleanups ++ close_room id reason ∷ [] }
      else r
]

-- `cleanup_lobby_voice_participant`
unfoldable pub cleanup_lobby_voice_participant :
    Option (Chars × Chars) → Chars → LobbyRegistry → LobbyRegistry
cleanup_lobby_voice_participant participant reason r = elim participant [
  | none ↦ r
  | some p ↦
      if r.voice_is_enabled
      then record r { voice_cleanups = r.voice_cleanups ++ remove_participant p.0 p.1 reason ∷ [] }
      else r
]
