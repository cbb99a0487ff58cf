-- ===== src/Storage.antt =====
-- storage/: the key-value tables that the node keeps.
pub mod Table
