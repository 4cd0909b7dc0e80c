-- ===== src/Lib.antt =====
-- The verification library of sn-netplay-serv, the relay server of netplay rooms and lobbies.
--
-- The program. A room (src/rooms/room.rs) has two players. In protocol v5 each player sends its
-- controller input over its own socket in batches (src/protocol/strict_input); the room accepts
-- exactly the next frames of a player's cursor (src/rooms/room_strict_input_ops.rs) and relays them.
-- The host opens frames one by one, and the room releases a frame once the host's input for it is
-- there (src/rooms/room_host_frame_ops.rs). A pause is held until every connected player has
-- reached its frame, and a resume starts a new session epoch (src/rooms/session_pause_state.rs,
-- src/rooms/room_controller_netplay_ops.rs, src/rooms/room_v5_pause_ops.rs). When the players' state
-- hashes differ, the host pins a snapshot and the room starts again from it in a new epoch
-- (src/rooms/state_recovery_transaction.rs, src/rooms/room_v5_recovery_ops.rs). Older protocols send
-- input records and batches of their own (src/protocol/fast_input.rs, src/protocol/input_batch.rs,
-- src/protocol/server_frame.rs).
--
-- Rooms without that strict lane buffer accepted input until the room's frame reaches it
-- (src/rooms/input_frame_relay_buffer.rs, src/rooms/fast_input_relay_buffer.rs) and release frames
-- by src/rooms/room_frame_clock_ops.rs. The delay that a room starts with follows from the players'
-- network reports (src/rooms/adaptive_input_delay_policy.rs). A room of two handhelds relays the
-- packets of a virtual link cable (src/rooms/link_cable_room_state.rs). Players find a room or a
-- lobby by an invite code (src/rooms/invite_code.rs). A lobby (src/lobbies/lobby.rs) holds up to
-- four players over many games: its host selects a game, the players report that they are ready,
-- the host launches it and publishes a room for it, and the players return. Requests to open rooms,
-- join and ask for a room's status are limited per minute (src/rate_limit/window_limiter.rs).
--
-- The files.
--   Base: tests, lists, maps, results and byte strings that the other files share.
--   Protocol: the messages. Limits and Ids are the constants and ids; StrictInput, FastInput,
--     InputBatch and ServerFrame are the codecs, each with its encoder, its decoder and, in the
--     modules below it, their laws. A byte string is a list of numbers.
--   Rooms: the room. Types, Slot, Pause, Snapshot, Recovery are its data; Room is the record
--     `NetplayRoom`, and the modules below Room are its operations: StrictInput, HostFrame, PauseOps,
--     Repair, with StartSync and Reset for the parts that they share. Session is the relation whose
--     steps are those operations, with two invariants over it: Synced for the frame clock (Session/
--     Invariant, Clock, Pauses, Repairs, Reachable) and Held for the pause (Session/Held, HeldSteps,
--     HeldEnd, Pausing, LastReach).
--     Below Rooms are also RelayBuffers, InputDelay, LinkCable, InviteCode and Voice, and below Room
--     the FrameClock of the rooms without the strict lane.
--   Lobbies: the lobby. License, Types, Player and Game are its data (src/auth/verified_license.rs,
--     src/lobbies/lobby_player.rs, lobby_game.rs, lobby_launch.rs, lobby_return.rs); Lobby is the
--     record, and below it Players, Launching, Relay and Voice are the operations, one function for
--     each method of src/lobbies/lobby.rs, lobby_rom_relay.rs, lobby_start_state_relay.rs and
--     lobby_voice_ops.rs. Steps is the relation whose steps are those operations; Seats, Subjects,
--     Invariant, Seating, Vacating, Staging and Reachable are the invariant IsSound over it; Closed,
--     Laws and RelayLaws are about single operations.
--     View is what clients see of a lobby. Registry is the table of lobbies by invite code
--     (src/lobbies/in_memory_lobby_registry.rs, stored_lobby.rs): Events, Members, Games and Public
--     are its calls, Steps the relation of them, and Sound, Calls and Reachable carry IsSound over to
--     every lobby of the table.
--   RateLimit: the sliding window, with its bound in RateLimit/Laws.
--   Tests: messages, rooms and lobbies on which the theorems are applied.
--
-- The model. An operation takes the room and returns the new room beside its result; one that fails
-- before it changes anything returns an error alone. Numbers are natural numbers with the source's
-- saturating and checked sums at 64 bits written out (`saturating_add`, `checked_add`); a field of
-- the wire has its range as a condition of the round trips. Hash maps are association lists, hash
-- sets lists. A connection id is a number that stands for its UUID. Server times are arguments.
-- SHA-256 is a parameter of the snapshot transfer. The record loop of src/protocol/fast_input.rs
-- runs on fuel five: a fifth record is refused, so four rounds and the end of the message are
-- enough. Texts of the lobbies and the codes are lists of code points, with `trim`, `lines` and the
-- like in Base/Chars. The lobby's counters wrap at 64 bits. Every call of the lobby registry holds
-- its write lock, so a call is one step; a channel of events is the list of what was sent, whether
-- or not a socket listens. UUIDs that the code draws are arguments. The instants of the rate
-- limiter are numbers, so that the cutoff `now - window` never underflows.
--
-- Not modelled: the registry of rooms, the locks, the views of rooms, the debug logs, the sockets,
-- HTTP, the check of a token, the voice and file relays as services, analytics and metrics, joining
-- and reconnecting to a room, the compatibility of clients, the clock samples before the first
-- start, the token bucket of input messages, which counts in floating point, and the client
-- libraries under sdk/.
-- They are input and output around the rooms and lobbies, or parts of them that no theorem here reads.
pub mod Base
pub mod RateLimit
pub mod Lobbies
pub mod Protocol
pub mod Rooms
pub mod Tests
