-- ===== src/Chainstate/Value.antt =====
-- What a connected block pays, and what it spends.
pub mod Sums
pub mod Blocks
