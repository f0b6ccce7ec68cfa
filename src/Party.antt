-- ===== src/Party.antt =====
-- Parties of src/party.cpp and src/party.h, with what they use of a player (src/player.cpp).
-- A player and a party are pointers, here numbers, into the world's maps. The Lua events that may
-- veto an operation, the time and the configured PZ_LOCKED are parameters. What is sent to the
-- clients (shields, skulls, texts) is not modelled.
mod Tests
pub mod World
pub mod Shared
pub mod Ops
pub mod Game
pub mod Invariant
pub mod Keep
pub mod Requests
pub mod Invites
pub mod Histories
