-- ===== src/Network/Cursor.antt =====
-- Reading from `Cursor<&[u8]>` (std::io::Read, and byteorder's little-endian readers) and the
-- matching `to_le_bytes`. A reader returns its value with the bytes that are left.
pub mod Defs
pub mod Laws
unfoldable pub use Defs.*
pub use Laws.*
