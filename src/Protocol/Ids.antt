-- ===== src/Protocol/Ids.antt =====
-- src/rooms/ids.rs: the player index. Connections and rooms are UUIDs, which the code only compares:
-- a connection id is the number of its UUID.
use sn_netplay_serv.Base.{ℕ, Option, some, none, ltb, if◌then◌else◌}

abbrev pub PlayerIndex : Type 0
PlayerIndex = ℕ

abbrev pub ConnectionId : Type 0
ConnectionId = ℕ

-- `PlayerIndex::new`
abbrev pub new_player_index : ℕ → ℕ → Option PlayerIndex
new_player_index value max_players = if ltb value max_players then some value else none

-- `PlayerIndex::ONE`, the host of the two-player rooms.
abbrev pub player_one : PlayerIndex
player_one = 0
