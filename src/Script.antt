-- ===== src/Script.antt =====
-- script/: the opcodes, the interpreter and the verification of a transaction input.
pub mod Opcode
pub mod Error
pub mod Number
pub mod Stack
pub mod Ecdsa
pub mod SigHash
pub mod Engine
pub mod Verify
