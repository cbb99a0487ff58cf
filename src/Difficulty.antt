-- ===== src/Difficulty.antt =====
-- difficulty/: the compact form of targets, and the retarget algorithms that divide exactly.
pub mod Compact
pub mod Params
pub mod Retarget
pub mod Lwma
pub mod Dispatch
