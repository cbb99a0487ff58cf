-- ===== src/Chainstate/Restore.antt =====
-- Disconnecting a block undoes connecting it.
pub mod Spend
pub mod Outputs
pub mod Transactions
pub mod Runs
pub mod Undo
pub mod Connected
pub mod WholeBlock
pub mod Blocks
