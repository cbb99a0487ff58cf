-- ===== src/Chainstate/State.antt =====
-- chainstate/mod.rs: the UTXO set under connecting and disconnecting blocks.
--
-- The tables stand behind `TableOps`; a write transaction that is not committed leaves no trace, so
-- an error is a result with no state. Input and output errors of the database and of the files are
-- not modelled, nor are the sums that only the log line shows.
mod Defs
mod Blocks
unfoldable pub use Defs.*
unfoldable pub use Blocks.*
