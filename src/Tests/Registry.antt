-- ===== src/Tests/Registry.antt =====
-- A registry in which a lobby was created and joined.
use mathlib.Core.Path.{subst}
use sn_netplay_serv.Base.{ok, ◌≡◌, refl, true, false, none, some, [], ◌∷◌}
use sn_netplay_serv.Base.Chars.{codes}
use sn_netplay_serv.Lobbies.License.{as_str, identity_namespace, identity_key}
use sn_netplay_serv.Lobbies.Lobby.{
  setup_status, new_lobby, next_u64, bump, mark_meaningful_activity, bump_with_activity,
}
use sn_netplay_serv.Lobbies.Lobby.Invariant.{IsSound}
use sn_netplay_serv.Lobbies.Lobby.Players.{join_or_refresh_player, hash_resume_token}
use sn_netplay_serv.Lobbies.Player.{
  empty_lobby_slot, occupy, host_lobby_slot, lobby_slot_is_empty, has_subject, belongs_to,
}
use sn_netplay_serv.Lobbies.Registry.{
  LobbyRegistry, new_registry, emit_public_lobbies_changed, stored_lobby, put_lobby, with_lobby,
}
use sn_netplay_serv.Lobbies.Registry.Events.{StoredLobby, new_stored_lobby, emit_state_changed}
use sn_netplay_serv.Lobbies.Registry.Members.{
  CreateLobbyParams, JoinLobbyParams, CreateLobbyDraws, attach_voice, hosted_lobby, create_lobby,
  joined, joined_publicly, connect_lobby,
}
use sn_netplay_serv.Lobbies.Registry.Reachable.{new_registry-RegistrySteps}
use sn_netplay_serv.Lobbies.Registry.Steps.{
  RegistryStep, create_call, connect_call, no_registry_step, and_registry_step,
}
use sn_netplay_serv.Lobbies.Types.{
  lobby_status_code, has_lobby_status, is_empty_status, default_lobby_capabilities,
  current_capabilities, private_lobby,
}
use sn_netplay_serv.Rooms.Snapshot.{hex}
use sn_netplay_serv.Tests.Lobby.{all_capabilities, a_license, created_lobby, joined_lobby}

abbrev a_registry : LobbyRegistry
unfolding new_registry current_capabilities
a_registry = new_registry (current_capabilities 4 true false) false

-- The identity stands for SHA-256.
abbrev the_draws : CreateLobbyDraws
the_draws = record {
  invite_code = codes "ABCDEF";
  resume_token = [];
  host_connection = 1;
  lobby_id = 7;
  proposal_id = 0;
  voice = none;
  now_ms = 10;
}

abbrev the_params : CreateLobbyParams
the_params = record {
  display_name = none;
  capabilities = all_capabilities;
  initial_game = none;
  visibility = private_lobby;
}

abbrev join_params : JoinLobbyParams
join_params = record { display_name = none; capabilities = all_capabilities }

abbrev registry_with_lobby : LobbyRegistry
registry_with_lobby = record {
  lobbies =
      (
        codes "ABCDEF",
        record { lobby = created_lobby; events = []; capabilities = a_registry.capabilities },
      )
      ∷ [];
  capabilities = a_registry.capabilities;
  voice_is_enabled = false;
  public_lobby_events = 1;
  voice_cleanups = [];
}

registry-creates :
    (create_lobby (λ x. x) the_draws a_registry (a_license (codes "ann")) the_params).0
    ≡ registry_with_lobby
unfolding create_lobby hosted_lobby attach_voice new_lobby hash_resume_token hex new_stored_lobby
    put_lobby emit_public_lobbies_changed setup_status host_lobby_slot empty_lobby_slot occupy
    default_lobby_capabilities identity_key identity_namespace as_str a_registry
registry-creates = refl

abbrev the_stored_lobby : StoredLobby
the_stored_lobby =
    emit_state_changed
      record { lobby = joined_lobby; events = []; capabilities = a_registry.capabilities }

abbrev joined_registry : LobbyRegistry
joined_registry = record registry_with_lobby {
  lobbies = (codes "ABCDEF", the_stored_lobby) ∷ [];
  public_lobby_events = 2;
}

registry-joins :
    connect_lobby
      (λ x. x)
      registry_with_lobby
      (codes "ABCDEF")
      (a_license (codes "ben"))
      join_params
      2
      (1 ∷ 2 ∷ [])
      20
    ≡ ok (joined_registry, joined the_stored_lobby 1 (1 ∷ 2 ∷ []))
unfolding connect_lobby with_lobby stored_lobby put_lobby join_or_refresh_player hash_resume_token
    hex joined_publicly emit_public_lobbies_changed has_lobby_status lobby_status_code belongs_to
    has_subject identity_key identity_namespace as_str lobby_slot_is_empty is_empty_status occupy
    bump_with_activity bump mark_meaningful_activity next_u64
registry-joins = refl

registry_finds : stored_lobby (codes "ABCDEF") joined_registry.lobbies ≡ some the_stored_lobby
unfolding stored_lobby
registry_finds = refl

new_registry-RegistrySteps_example : IsSound the_stored_lobby.lobby
unfolding a_registry new_registry
new_registry-RegistrySteps_example =
    new_registry-RegistrySteps (current_capabilities 4 true false) false joined_registry
      (codes "ABCDEF") the_stored_lobby
      (and_registry_step
        (and_registry_step no_registry_step (
          subst (RegistryStep a_registry) registry-creates
            (create_call (λ x. x) the_draws (a_license (codes "ann")) the_params)))
        (connect_call (λ x. x) (codes "ABCDEF") (a_license (codes "ben")) join_params 2 (1 ∷ 2 ∷ [])
          20 (joined the_stored_lobby 1 (1 ∷ 2 ∷ [])) registry-joins))
      registry_finds
