-- ===== src/Examples.antt =====
-- Small blocks, stores and numbers on which the theorems are used.
pub mod Data
pub mod Chain
pub mod Wire
pub mod Rules
pub mod Undo
pub mod Merkle
pub mod Script
pub mod Mempool
pub mod Message
pub mod Height
pub mod Targets
pub mod Tip
pub mod Verified
