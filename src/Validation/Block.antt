-- ===== src/Validation/Block.antt =====
-- validation/block.rs: the rules for a block by itself.
pub mod Size
pub mod Accepts
use ironcat.Base.{
  ℕ, ◌+◌, ◌*◌, ◌%◌, ◌^◌, List, [], ◌∷◌, Bool, true, false, not, ltb, leb, if◌then◌else◌, length,
}
use ironcat.Base.Result.{Result, ok, err, ◌>>=◌, ◌>>◌, ensure}
use ironcat.Types.Transaction.{Transaction, tx_to_bytes, is_coinbase}
use ironcat.Types.Block.{Block, header_size}
use ironcat.Validation.Transaction.{TxError, check_transaction}

abbrev pub max_block_weight : ℕ
max_block_weight = 4000000

abbrev pub witness_scale_factor : ℕ
witness_scale_factor = 4

pub data BlockError : Type 0 where
  no_transactions first_not_coinbase multiple_coinbases too_heavy : BlockError
  bad_transaction : TxError → BlockError

unfoldable pub varint_size : ℕ → ℕ
varint_size val =
    if ltb val 0xFD
    then 1
    else (if leb val 0xFFFF then 3 else (if leb val 0xFFFF_FFFF then 5 else 9))

unfoldable pub tx_sizes : List Transaction → ℕ
tx_sizes [] = 0
tx_sizes (tx ∷ txs) = length (tx_to_bytes tx) + tx_sizes txs

-- The sum as a u64.
unfoldable pub block_serialized_size : Block → ℕ
unfolding tx_sizes
block_serialized_size b =
    (header_size + varint_size (length b.transactions) + tx_sizes b.transactions) % 2 ^ 64

unfoldable pub starts_with_coinbase : List Transaction → Bool
starts_with_coinbase [] = false
starts_with_coinbase (tx ∷ txs) = is_coinbase tx

unfoldable pub check_spends : List Transaction → Result BlockError (Unit {0})
check_spends [] = ok tt
check_spends (tx ∷ txs) = ensure (not (is_coinbase tx)) multiple_coinbases >> check_spends txs

-- The transactions behind the first.
abbrev pub tail : List Transaction → List Transaction
tail [] = []
tail (tx ∷ txs) = txs

abbrev pub in_block : Result TxError (Unit {0}) → Result BlockError (Unit {0})
in_block (ok u) = ok tt
in_block (err e) = err (bad_transaction e)

unfoldable pub check_transactions : List Transaction → Result BlockError (Unit {0})
check_transactions [] = ok tt
check_transactions (tx ∷ txs) = in_block (check_transaction tx) >> check_transactions txs

unfoldable pub check_block : Block → Result BlockError (Unit {0})
check_block b =
    ensure (ltb 0 (length b.transactions)) no_transactions
    >> (ensure (starts_with_coinbase b.transactions) first_not_coinbase
        >> (check_spends (tail b.transactions)
            >> (ensure
                  (leb (block_serialized_size b * witness_scale_factor % 2 ^ 64) max_block_weight)
                  too_heavy
                >> check_transactions b.transactions)))
