-- ===== src/Network.antt =====
-- The wire format: src/networkmessage, src/outputmessage, src/protocol and the Adler checksum.
mod Tests
pub mod Buffer
pub mod Message
pub mod Fields
pub mod Xtea
pub mod Output
pub mod Autosend
pub mod Protocol
