-- ===== src/Types.antt =====
-- types/: hashes, transactions and blocks, with their wire encodings.
pub mod Hash
pub mod Transaction
pub mod Block
pub mod Merkle
