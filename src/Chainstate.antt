-- ===== src/Chainstate.antt =====
-- chainstate/: coins, undo data, and the UTXO set under connecting and disconnecting blocks.
pub mod Coin
pub mod Undo
pub mod UndoStore
pub mod State
pub mod Restore
pub mod Value
pub mod Scripts
pub mod Tip
pub mod Spent
