-- ===== src/Network.antt =====
-- network.rs: the wire format.
pub mod Cursor
pub mod Varint
pub mod Message
