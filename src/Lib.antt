-- ===== src/Lib.antt =====
-- ironcat, a Catcoin full node: the rules and the state of the chain.
--
-- The program. A peer sends blocks as bytes. src/types parses them, src/validation checks what needs
-- no state, src/difficulty says which target a header must have, and src/chainstate connects the
-- block to the UTXO set, with undo data in flat files by which a block can be disconnected again.
--
-- Which file models which part:
--  - Network.Cursor: reads and writes of bytes as functions on byte lists, for the cursors and buffers
--   of the standard library and of the byteorder crate. Network.Varint: `write_varint` and
--   `decode_varint` of src/network.rs. Network.Message: its frames of messages, and the queue that
--   takes messages from a stream of bytes.
--  - Types.Hash, Types.Transaction, Types.Block: src/types/hash.rs, transaction.rs and block.rs, one
--   reader for each `from_cursor` and one function for each `to_bytes`. Types.Merkle: the merkle root
--   and `from_bytes_and_validate` of block.rs.
--  - Validation.Subsidy, Validation.Transaction, Validation.Block: the files of src/validation of the
--   same names, with failures as values of an error type. Validation.Context: its mod.rs.
--  - Difficulty.Compact: src/difficulty/compact.rs. Difficulty.Params and Difficulty.Dispatch:
--   src/difficulty/mod.rs. Difficulty.Retarget: cip01.rs, cip02.rs, cip03.rs and cip05.rs there.
--   Difficulty.Lwma: cip06.rs. A U256 is a number below 2^256, and an operation that would panic is
--   an error, or `none` in `work_from_bits`.
--  - Chainstate.Coin, Chainstate.Undo, Chainstate.UndoStore: coin.rs, undo.rs and undo_store.rs of
--   src/chainstate. Chainstate.State: its mod.rs, with the record `ChainState` for the tables, the
--   undo files and the tip, and `connect_block`, `disconnect_block`, `get_utxo` and the reading of
--   the tip by `open`. Chainstate.Scripts: its call of `verify_script` on each input.
--  - Script: src/script. Script.Opcode, Script.Error and Script.Number: opcodes.rs, the errors of mod.rs
--   and the script numbers of engine.rs. Script.Stack.Op, Script.Stack.Index and
--   Script.Stack.Arithmetic: the opcodes that only use the main stack, which is a list with its top
--   first. Script.Engine: the record `Engine`, with Signatures, Execute and Run below it for
--   `op_checksig` and `op_checkmultisig`, `execute_opcode` and `execute`. Script.SigHash and
--   Script.Ecdsa: signature.rs. Script.Verify: verify.rs.
--  - Mempool: src/mempool. The record `Mempool` with its operations in Mempool.Accept and
--   Mempool.Remove; the size of the pool in Mempool.Accounting and Mempool.Limit, the index of spent
--   outpoints in Mempool.Index.
--  - Storage.Table: what the source relies on of a redb table. A write transaction is a table value
--   that is kept only when the operation succeeds.
--  - Base: Boolean tests, lists measured by native numbers, signed integers, results.
--  - Examples: a small chain, its wire forms and its undo files, on which the theorems are used.
--
-- Parameters: redb tables, SHA-256 (a digest of 32 bytes), RIPEMD-160, SHA-1, the signatures and keys
-- of k256, fee rates in floating point, the script verifier of the block operations, which Chainstate.Scripts fills in,
-- and CIP04, whose controller computes in floating point. Signed values are
-- integers, cut to their width where the source would wrap; sums that the source checks are checked.
-- Loops are structural recursion over lists, words or a count. Some have a bound: the merkle loop runs
-- for at most the number of its hashes, and each round leaves fewer; the bytes of a height are at most
-- four, those of a u32; the loop over a script has the length of the script as its fuel, and an opcode
-- takes a byte at least; the removal of a transaction with its descendants has one more than the outputs
-- in the pool, the eviction the number of transactions, and the queue of messages the number of bytes.
--
-- Not modelled: the header chain and reorganisations, the payloads of messages and the handlers of
-- peers, block files, the scrypt hash, the median time past, the repair of undo files at start-up, and
-- the user interface.
pub mod Base
pub mod Network
pub mod Types
pub mod Chainstate
pub mod Storage
pub mod Script
pub mod Mempool
pub mod Validation
pub mod Difficulty
pub mod Examples
