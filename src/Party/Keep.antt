-- ===== src/Party/Keep.antt =====
-- Operations of src/party.cpp, and the agreement of players and parties.
pub mod Facts
pub mod Grow
pub mod Disband
pub mod Shrink
pub mod Depart
pub mod Leave
