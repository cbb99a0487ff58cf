-- ===== src/Examples/Rules.antt =====
-- The rules for blocks and amounts on small values.
use ironcat.Base.{◌<◌, ◌≤◌, ◌^◌, ◌+◌, ◌/◌, ◌≡◌, ◌↔◌, refl, false, some, arith}
use ironcat.Base.Int.{pos, ◌+ℤ◌, ◌≤ℤ◌, checked_add}
use ironcat.Base.Result.{ok}
use ironcat.Types.Transaction.{
  is_coinbase, outpoint_eq, tx_to_bytes, tx_in_to_bytes, outpoint_to_bytes, tx_out_to_bytes,
}
use ironcat.Network.Cursor.{i32_to_le_bytes, to_le_bytes, write_all, i64_to_le_bytes, to_unsigned}
use ironcat.Network.Varint.{write_varint}
use ironcat.Chainstate.State.{sum_from, sum_outputs}
use ironcat.Validation.Subsidy.{max_money, get_block_subsidy}
use ironcat.Validation.Subsidy.Supply.{
  total_subsidy, total_subsidy-le-max_money, get_block_subsidy_antitone,
}
use ironcat.Validation.Transaction.{
  check_transaction, check_by_kind, check_distinct, check_prevouts, check_values, is_in,
}
use ironcat.Validation.Transaction.Rules.{IsValidTx}
use ironcat.Validation.Transaction.Accepts.{check_transaction_iff}
use ironcat.Validation.Block.{
  check_block, block_serialized_size, tx_sizes, varint_size, starts_with_coinbase, check_spends,
  check_transactions,
}
use ironcat.Validation.Block.Accepts.{IsValidBlock, check_block_iff, check_block-no_inflation}
use ironcat.Chainstate.Value.Blocks.{paid, spent_value}
use ironcat.Difficulty.Compact.{
  target_of, is_negative, is_overflow, word_of, shift_left, work_from_bits,
}
use ironcat.Difficulty.Compact.Work.{work_from_bits_lem}
use ironcat.Examples.Data.{prefix_sha, table, index, accept_all, spend, block, block_id, undos}
use ironcat.Examples.Chain.{start, after, utxos_after, runs, connects}
use ironcat.Examples.Wire.{header-IsHeader, wire_small}

total_subsidy-le-max_money_example : total_subsidy 1000000 ≤ max_money
total_subsidy-le-max_money_example = total_subsidy-le-max_money 1000000

get_block_subsidy_antitone_example : get_block_subsidy 420000 ≤ℤ get_block_subsidy 210001
get_block_subsidy_antitone_example = get_block_subsidy_antitone 210001 420000 (omega arith)

check_transaction_iff_example : (check_transaction spend ≡ ok tt) ↔ IsValidTx spend
check_transaction_iff_example = check_transaction_iff spend

check_block_iff_example : (check_block block ≡ ok tt) ↔ IsValidBlock block
check_block_iff_example = check_block_iff block header-IsHeader wire_small

checked : check_block block ≡ ok tt
unfolding check_block starts_with_coinbase is_coinbase outpoint_eq check_spends
    block_serialized_size varint_size tx_to_bytes i32_to_le_bytes to_le_bytes write_varint write_all
    tx_in_to_bytes outpoint_to_bytes tx_out_to_bytes i64_to_le_bytes check_transactions
    check_transaction checked_add ◌+ℤ◌ sum_from sum_outputs to_unsigned tx_sizes check_by_kind
    check_distinct check_prevouts check_values is_in
checked = refl

check_block-no_inflation_example :
    paid block.transactions ≤ℤ spent_value undos +ℤ get_block_subsidy 201
check_block-no_inflation_example =
    check_block-no_inflation table index prefix_sha accept_all 0 start after block 201 block_id
      utxos_after (pos 10) undos header-IsHeader wire_small checked runs connects

work_from_bits_lem_example :
    work_from_bits 0x1e0f_fff0 ≡ some (2 ^ 256 / (target_of 0x1e0f_fff0 + 1))
unfolding is_negative word_of is_overflow target_of shift_left
work_from_bits_lem_example = work_from_bits_lem 0x1e0f_fff0 unsigned inside positive
  where
    unsigned : is_negative 0x1e0f_fff0 ≡ false
    unsigned = refl

    inside : is_overflow 0x1e0f_fff0 ≡ false
    inside = refl

    positive : 0 < target_of 0x1e0f_fff0
    positive = omega arith
