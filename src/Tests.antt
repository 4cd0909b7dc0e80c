-- ===== src/Tests.antt =====
-- Examples: messages and rooms on which the theorems' conditions hold.
mod Messages
mod Lane
mod Clock
mod Pause
mod Lobby
mod LobbyCalls
mod Relay
mod Registry
