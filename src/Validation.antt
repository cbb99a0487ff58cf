-- ===== src/Validation.antt =====
-- validation/: the rules for blocks and transactions that need no UTXO set.
pub mod Subsidy
pub mod Transaction
pub mod Block
pub mod Context
