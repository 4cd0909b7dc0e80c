-- ===== src/Lobbies.antt =====
-- src/lobbies: the persistent lobbies, beside the game rooms.
pub mod License
pub mod Types
pub mod Player
pub mod Game
pub mod Lobby
pub mod View
pub mod Registry
