-- ===== src/Examples/Verified.antt =====
-- A transaction connected with its input's script run.
use ironcat.Base.{Option, ◌≡◌, refl, [], ◌∷◌, false, some, get_elem?, arith}
use ironcat.Base.Int.{pos, ◌+ℤ◌, ◌-ℤ◌, checked_add}
use ironcat.Base.Result.{ok}
use ironcat.Network.Cursor.{
  Bytes, ◌>>=◌, pure, to_le_bytes, from_le_bytes, read_exact, read_uint, to_unsigned, from_unsigned,
  i32_to_le_bytes, i64_to_le_bytes, read_i64, write_all,
}
use ironcat.Network.Varint.{write_varint}
use ironcat.Types.Hash.{double_sha256}
use ironcat.Types.Transaction.{
  TxIn, outpoint_eq, outpoint_to_bytes, tx_in_to_bytes, tx_out_to_bytes, tx_to_bytes, txid_of,
  is_coinbase,
}
use ironcat.Chainstate.Coin.{Coin, coin_to_bytes, coin_from_bytes, read_coin}
use ironcat.Chainstate.State.{
  outpoint_to_key, wrap_i64, sum_from, sum_outputs, is_mature, verify_inputs, insert_outputs,
  find_coin, spend_inputs, check_scripts, connect_spend,
}
use ironcat.Chainstate.Scripts.{script_verifier, StoredCoin, connect_spend-verified}
use ironcat.Script.Number.{is_truthy}
use ironcat.Script.Opcode.{opcode_from, is_disabled}
use ironcat.Script.Stack.{usize_add}
use ironcat.Script.Engine.{read_byte, on_stack, is_executing}
use ironcat.Script.Engine.Execute.{execute_opcode}
use ironcat.Script.Engine.Run.{count_op, check_stack_size, run_opcode, step, run, execute}
use ironcat.Script.Verify.{
  require_truthy_top, is_p2sh, is_push_only, only_pushes, push_extent, verify_script,
}
use ironcat.Examples.Data.{prefix_sha, table, old_outpoint, old_coin, spend}
use ironcat.Examples.Chain.{utxos}
use ironcat.Examples.Script.{crypto}

abbrev spent_table : Bytes → Option Bytes
spent_table =
    insert_outputs table (table.remove utxos (outpoint_to_key old_outpoint))
      (txid_of prefix_sha spend) spend.vout 0 201 false

abbrev spending_input : TxIn
spending_input = record { prev_output = old_outpoint; script_sig = []; sequence = 0 }

spend_connects :
    connect_spend table prefix_sha (script_verifier crypto) 0 utxos 201 spend
    ≡ ok (spent_table, pos 10, record { spent_outputs = old_coin ∷ [] })
unfolding connect_spend spend_inputs find_coin insert_outputs outpoint_to_key coin_to_bytes
    coin_from_bytes read_coin is_mature checked_add check_scripts verify_inputs sum_outputs sum_from
    wrap_i64 is_coinbase outpoint_eq txid_of double_sha256 tx_to_bytes tx_in_to_bytes
    tx_out_to_bytes outpoint_to_bytes write_varint write_all i32_to_le_bytes i64_to_le_bytes
    to_unsigned from_unsigned to_le_bytes from_le_bytes read_exact read_uint read_i64 ◌>>=◌ pure
    ◌+ℤ◌ ◌-ℤ◌ script_verifier verify_script execute run step read_byte usize_add opcode_from
    is_disabled count_op run_opcode is_executing execute_opcode on_stack check_stack_size
    require_truthy_top is_truthy is_p2sh is_push_only only_pushes push_extent
spend_connects = refl

connect_spend-verified_example :
    (coin : Coin) × StoredCoin table utxos spending_input coin
    × (get_elem? (old_coin ∷ []) 0 ≡ some coin)
    × (verify_script crypto [] coin.tx_out.script_pubkey spend 0 ≡ some (ok tt))
connect_spend-verified_example =
    connect_spend-verified table prefix_sha crypto 0 utxos spent_table 201 spend (pos 10)
      (record { spent_outputs = old_coin ∷ [] }) 0 spending_input (omega arith) spend_connects refl
