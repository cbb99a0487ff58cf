-- ===== src/Examples/Tip.antt =====
-- The tip after a block is connected and disconnected, and the coins that its inputs spent.
use ironcat.Base.{◌≡◌, refl, [], ◌∷◌, Option, All, replicate, arith}
use ironcat.Base.Int.{pos, checked_add, ◌+ℤ◌}
use ironcat.Base.Result.{ok}
use ironcat.Network.Cursor.{
  Bytes, ◌>>=◌, pure, to_le_bytes, from_le_bytes, read_exact, read_uint, to_unsigned, from_unsigned,
  i64_to_le_bytes, read_i64, read_many, write_all,
}
use ironcat.Types.Transaction.{outpoint_eq, txid_of, is_coinbase}
use ironcat.Validation.Transaction.Rules.{DistinctInputs}
use ironcat.Chainstate.Coin.{coin_to_bytes, coin_from_bytes, read_coin}
use ironcat.Chainstate.Undo.{
  framed, cut, read_framed, tx_undo_to_bytes, read_tx_undo, tx_undo_from_bytes, block_undo_to_bytes,
  read_block_undo, block_undo_from_bytes,
}
use ironcat.Chainstate.UndoStore.{load_undo, read_entry, write_entry}
use ironcat.Chainstate.State.{
  outpoint_to_key, is_mature, find_coin, spend_inputs, remove_outputs, restore_inputs, undo_at,
  disconnect_tx, disconnect_txs, non_coinbase_count, find_undo, undo_for, write_tip, ChainState,
  move_tip, disconnect_block,
}
use ironcat.Chainstate.Spent.{IsGone, IsMature, spend_inputs-once}
use ironcat.Chainstate.Tip.{IsTip, connect_disconnect-IsTip}
use ironcat.Examples.Data.{
  prefix_sha, table, index, accept_all, old_outpoint, old_coin, coinbase, spend, header, block,
  block_id,
}
use ironcat.Examples.Chain.{utxos, start, utxos_after, after, connects}

abbrev utxos_back : Bytes → Option Bytes
utxos_back =
    remove_outputs table
      (table.insert (remove_outputs table utxos_after (txid_of prefix_sha spend) spend.vout 0)
        (outpoint_to_key old_outpoint) (coin_to_bytes old_coin))
      (txid_of prefix_sha coinbase) coinbase.vout 0

abbrev back : ChainState table index
back = move_tip table index after utxos_back header.prev_hash 200

disconnects : disconnect_block table index prefix_sha after block 201 block_id ≡ ok back
unfolding disconnect_block disconnect_txs disconnect_tx undo_for find_undo non_coinbase_count
    undo_at restore_inputs remove_outputs load_undo read_entry block_undo_from_bytes read_block_undo
    tx_undo_from_bytes read_tx_undo read_framed cut move_tip write_tip is_coinbase outpoint_eq
    framed tx_undo_to_bytes block_undo_to_bytes coin_to_bytes coin_from_bytes read_coin to_le_bytes
    from_le_bytes read_exact read_uint read_i64 read_many ◌>>=◌ pure to_unsigned from_unsigned
    i64_to_le_bytes write_all write_entry
disconnects = refl

connect_disconnect-IsTip_example :
    IsTip table index after block_id 201 × IsTip table index back (replicate 32 3) 200
connect_disconnect-IsTip_example =
    connect_disconnect-IsTip table index prefix_sha accept_all 0 start after back block 201 block_id
      refl refl (omega arith) connects disconnects

spends :
    spend_inputs table utxos 201 spend.vin (pos 0)
    ≡ ok (table.remove utxos (outpoint_to_key old_outpoint), pos 100, old_coin ∷ [])
unfolding spend_inputs find_coin is_mature checked_add ◌+ℤ◌ coin_to_bytes coin_from_bytes read_coin
    to_le_bytes from_le_bytes read_exact read_uint read_i64 ◌>>=◌ pure to_unsigned from_unsigned
    i64_to_le_bytes outpoint_to_key
spends = refl

spend_inputs-once_example :
    DistinctInputs spend.vin
    × All (IsGone table (table.remove utxos (outpoint_to_key old_outpoint))) spend.vin
    × All (IsMature 201) (old_coin ∷ [])
spend_inputs-once_example =
    spend_inputs-once table utxos 201 spend.vin (pos 0)
      (table.remove utxos (outpoint_to_key old_outpoint)) (pos 100) (old_coin ∷ []) spends
