-- ===== src/Examples/Data.antt =====
-- A block of a coinbase and one more transaction, and what stands for the crates around it.
use ironcat.Base.{ℕ, List, [], ◌∷◌, ◌++◌, true, take, replicate, length-take, length-append, arith}
use ironcat.Base.Int.{pos}
use ironcat.Network.Cursor.{Bytes}
use ironcat.Types.Hash.{Hash256, Sha256}
use ironcat.Types.Transaction.{OutPoint, coinbase_outpoint, Transaction}
use ironcat.Types.Block.{BlockHeader, Block}
use ironcat.Storage.Table.{TableOps, function_table}
use ironcat.Chainstate.Coin.{Coin}
use ironcat.Chainstate.Undo.{TxUndo, BlockUndo}
use ironcat.Chainstate.UndoStore.{UndoStore}
use ironcat.Chainstate.State.{Verifier}

-- The first 32 bytes, with zeros behind them.
abbrev pub prefix_sha : Sha256
prefix_sha = record {
  digest = λ b. take 32 (b ++ replicate 32 0);
  length-digest =
      λ b. omega (arith, length-take 32 (b ++ replicate 32 0), length-append b (replicate 32 0));
}

abbrev pub table : TableOps Bytes
table = function_table {V = Bytes}

abbrev pub index : TableOps (ℕ × ℕ × ℕ)
index = function_table {V = ℕ × ℕ × ℕ}

abbrev pub accept_all : Verifier
accept_all script_sig script_pubkey tx idx = true

abbrev pub old_outpoint : OutPoint
old_outpoint = record { txid = replicate 32 9; index = 0 }

abbrev pub old_coin : Coin
old_coin = record {
  tx_out = record { value = pos 100; script_pubkey = 81 ∷ [] };
  height = 1;
  is_coinbase = true;
}

abbrev pub coinbase : Transaction
coinbase = record {
  version = pos 1;
  vin = record { prev_output = coinbase_outpoint; script_sig = 85 ∷ 0 ∷ []; sequence = 0 } ∷ [];
  vout = record { value = pos 5000000010; script_pubkey = 81 ∷ [] } ∷ [];
  locktime = 0;
}

abbrev pub spend : Transaction
spend = record {
  version = pos 1;
  vin = record { prev_output = old_outpoint; script_sig = []; sequence = 0 } ∷ [];
  vout = record { value = pos 90; script_pubkey = 81 ∷ [] } ∷ [];
  locktime = 0;
}

abbrev pub header : BlockHeader
header = record {
  version = pos 2;
  prev_hash = replicate 32 3;
  merkle_root = replicate 32 4;
  timestamp = 1400000000;
  bits = 0x1e0f_fff0;
  nonce = 7;
}

abbrev pub block : Block
block = record { header = header; transactions = coinbase ∷ spend ∷ [] }

abbrev pub block_id : Hash256
block_id = replicate 32 5

abbrev pub undos : List TxUndo
undos = record { spent_outputs = old_coin ∷ [] } ∷ []

abbrev pub undo : BlockUndo
undo = record { tx_undos = undos }

abbrev pub empty_store : UndoStore
empty_store = record { files = λ n. []; file_number = 0; offset = 0; max_file_size = 1000 }
