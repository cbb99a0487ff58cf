-- ===== src/Examples/Mempool.antt =====
-- A pool of one transaction, and a block that confirms it.
use ironcat.Base.{
  suc, ℕ, ◌≡◌, refl, [], ◌∷◌, Option, false, none, some, inl, arith, none-ne-some, replicate, ltb,
}
use ironcat.Base.Int.{checked_add, ◌+ℤ◌, ◌-ℤ◌}
use ironcat.Validation.Transaction.{
  check_transaction, check_values, check_distinct, check_by_kind, check_prevouts,
}
use ironcat.Base.Result.{Result, ok}
use ironcat.Network.Cursor.{
  write_all, to_le_bytes, i32_to_le_bytes, i64_to_le_bytes, to_unsigned, from_unsigned,
}
use ironcat.Network.Varint.{write_varint}
use ironcat.Types.Hash.{Hash256, double_sha256}
use ironcat.Types.Transaction.{
  OutPoint, Transaction, txid_of, is_coinbase, outpoint_eq, tx_to_bytes, tx_in_to_bytes,
  tx_out_to_bytes, outpoint_to_bytes,
}
use ironcat.Chainstate.Coin.{Coin}
use ironcat.Chainstate.State.{ConnectError, sum_outputs, sum_from, wrap_i64}
use ironcat.Mempool.{set_spend, Floats, MempoolEntry, Mempool, find_tx, sum_entries, set_spends}
use ironcat.Mempool.Remove.{
  evict_if_needed, evict_loop, remove_block_txs, confirm_txs, conflicts_of, remove_conflicts,
  remove_loop, count_outputs,
}
use ironcat.Mempool.Accept.{
  accept_tx, check_accept, sum_inputs, resolve_input_value, wrapping_sum, check_input_scripts,
  insert_entry,
}
use ironcat.Mempool.Accounting.{remove_with_descendants_ends, IsAccounted}
use ironcat.Mempool.Limit.{IsSound, accept_tx-IsSound}
use ironcat.Mempool.Index.{HasInput, IsDistinct, IsIndexed}
use ironcat.Mempool.Index.Kept.{accept_tx-IsIndexed}
use ironcat.Mempool.Index.Blocks.{remove_block_txs-IsIndexed, remove_block_txs_no_conflict}
use ironcat.Examples.Data.{prefix_sha, accept_all, old_coin, old_outpoint, spend, block}

-- A rate stands for the fee alone.
abbrev fee_only : Floats
fee_only = record {
  F64 = ℕ;
  rate_of = λ fee size. fee;
  below_minimum = λ r. ltb r 1;
  greater = λ a b. ltb b a;
}

abbrev coins : OutPoint → Result ConnectError (Option Coin)
coins o = ok (some old_coin)

abbrev empty_pool : Mempool
empty_pool = record { txs = []; spends = λ o. none; total_size = 0; max_size = 1000 }

empty-IsIndexed : IsIndexed empty_pool
unfolding IsDistinct find_tx
empty-IsIndexed = record { distinct = tt; spender = λ txid e o h has. absurd (none-ne-some h) }

empty-IsSound : IsSound empty_pool
unfolding IsAccounted sum_entries
empty-IsSound = record { accounted = refl; fits = omega arith; limit_small = omega arith }

abbrev other_outpoint : OutPoint
other_outpoint = record { txid = replicate 32 8; index = 0 }

-- A transaction that is not in the block.
abbrev other : Transaction
other = record spend {
  vin = record { prev_output = other_outpoint; script_sig = []; sequence = 0 } ∷ [];
}

abbrev other_entry : MempoolEntry
other_entry = record { tx = other; fee = 10; size = 61 }

abbrev other_id : Hash256
other_id = 1 ∷ 0 ∷ 0 ∷ 0 ∷ 1 ∷ replicate 27 8

abbrev pool : Mempool
pool = record {
  txs = (other_id, other_entry) ∷ [];
  spends = set_spend other_outpoint (some other_id) empty_pool.spends;
  total_size = 61;
  max_size = 1000;
}

pool_accepts : accept_tx fee_only prefix_sha coins accept_all other empty_pool ≡ ok (other_id, pool)
unfolding accept_tx check_accept check_transaction check_values sum_outputs sum_from check_distinct
    check_by_kind check_prevouts checked_add ◌+ℤ◌ ◌-ℤ◌ is_coinbase outpoint_eq tx_to_bytes
    tx_in_to_bytes tx_out_to_bytes outpoint_to_bytes write_all write_varint to_le_bytes
    i32_to_le_bytes i64_to_le_bytes to_unsigned txid_of double_sha256 find_tx sum_inputs
    resolve_input_value wrapping_sum wrap_i64 from_unsigned check_input_scripts insert_entry
    set_spends evict_if_needed evict_loop
pool_accepts = refl

pool-IsIndexed : IsIndexed pool
pool-IsIndexed =
    accept_tx-IsIndexed fee_only prefix_sha coins accept_all other empty_pool (other_id, pool)
      empty-IsIndexed pool_accepts

accept_tx-IsIndexed_example : IsIndexed pool
accept_tx-IsIndexed_example =
    accept_tx-IsIndexed fee_only prefix_sha coins accept_all other empty_pool (other_id, pool)
      empty-IsIndexed pool_accepts

accept_tx-IsSound_example : IsSound pool × (pool.max_size ≡ 1000)
accept_tx-IsSound_example =
    accept_tx-IsSound fee_only prefix_sha coins accept_all other empty_pool (other_id, pool)
      empty-IsSound pool_accepts

remove_with_descendants_ends_example :
    (remove_loop (suc (count_outputs pool.txs)) (other_id ∷ []) pool).0 ≡ []
remove_with_descendants_ends_example = remove_with_descendants_ends other_id pool

remove_block_txs-IsIndexed_example :
    IsIndexed (remove_block_txs prefix_sha block pool)
    × (find_tx (txid_of prefix_sha spend) (remove_block_txs prefix_sha block pool).txs ≡ none)
remove_block_txs-IsIndexed_example =
    remove_block_txs-IsIndexed prefix_sha block pool 1 spend pool-IsIndexed refl

other_left : find_tx other_id (remove_block_txs prefix_sha block pool).txs ≡ some other_entry
unfolding remove_block_txs confirm_txs conflicts_of remove_conflicts find_tx txid_of double_sha256
    tx_to_bytes tx_in_to_bytes tx_out_to_bytes outpoint_to_bytes write_all write_varint to_le_bytes
    i32_to_le_bytes i64_to_le_bytes to_unsigned is_coinbase outpoint_eq
other_left = refl

spend_is_spend : is_coinbase spend ≡ false
unfolding is_coinbase outpoint_eq
spend_is_spend = refl

spend_input : HasInput old_outpoint spend.vin
unfolding HasInput
spend_input = inl refl

remove_block_txs_no_conflict_example : ¬ HasInput old_outpoint other.vin
remove_block_txs_no_conflict_example =
    remove_block_txs_no_conflict prefix_sha block pool 1 spend old_outpoint other_id other_entry
      pool-IsIndexed refl spend_is_spend spend_input other_left
