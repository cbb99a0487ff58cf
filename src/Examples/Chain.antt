-- ===== src/Examples/Chain.antt =====
-- A block connected and disconnected, and its undo data stored.
use ironcat.Base.{
  ℕ, ◌<◌, ◌≤◌, ◌≡◌, ◌≢◌, refl, sym, ap, [], ◌∷◌, ◌++◌, true, false, Option, none, some, All, length,
  get_or, replicate, arith, if◌then◌else◌, Bool-cases, inl, inr, some-injective, none-ne-some,
}
use ironcat.Base.Int.{pos, ◌+ℤ◌, ◌-ℤ◌, checked_add}
use ironcat.Base.Result.{ok}
use ironcat.Network.Cursor.{
  Bytes, ◌>>=◌, pure, to_le_bytes, from_le_bytes, read_exact, read_uint, to_unsigned, from_unsigned,
  i32_to_le_bytes, i64_to_le_bytes, read_i64, write_all,
}
use ironcat.Network.Varint.{write_varint}
use ironcat.Types.Hash.{double_sha256, bytes_eq}
use ironcat.Types.Transaction.{
  OutPoint, coinbase_outpoint, outpoint_eq, outpoint_to_bytes, tx_in_to_bytes, tx_out_to_bytes,
  tx_to_bytes, txid_of, is_coinbase,
}
use ironcat.Types.Transaction.RoundTrip.{IsOutPoint, IsTxIn, IsTransaction}
use ironcat.Validation.Subsidy.{halved, get_block_subsidy}
use ironcat.Chainstate.Coin.{coin_to_bytes, coin_from_bytes, read_coin}
use ironcat.Chainstate.Coin.RoundTrip.{IsCoin, read_coin-coin_to_bytes}
use ironcat.Chainstate.Undo.{framed, tx_undo_to_bytes, block_undo_to_bytes, block_undo_from_bytes}
use ironcat.Chainstate.Undo.RoundTrip.{IsBlockUndo, block_undo_from_bytes-block_undo_to_bytes}
use ironcat.Chainstate.UndoStore.{
  UndoStore, UndoLocation, needs_rotation, rotate, write_entry, store_undo_to_file, load_undo,
}
use ironcat.Chainstate.UndoStore.Recall.{IsStore, load_undo-store_undo_to_file}
use ironcat.Chainstate.State.{
  outpoint_to_key, wrap_i64, sum_from, sum_outputs, is_mature, verify_inputs, insert_outputs,
  find_coin, spend_inputs, check_scripts, connect_spend, connect_txs, check_coinbase_value,
  write_tip, ChainState, move_tip, store_undo, connect_block, disconnect_block,
}
use ironcat.Chainstate.Restore.Spend.{SameTable, IsTable}
use ironcat.Chainstate.Restore.Transactions.{IsFresh}
use ironcat.Chainstate.Restore.Blocks.{disconnect_block-connect_block}
use ironcat.Examples.Data.{
  prefix_sha, table, index, accept_all, old_outpoint, old_coin, coinbase, spend, block, block_id,
  undos, undo, empty_store,
}

abbrev pub utxos : Bytes → Option Bytes
utxos k = if bytes_eq (outpoint_to_key old_outpoint) k then some (coin_to_bytes old_coin) else none

abbrev pub start : ChainState table index
start = record {
  utxos = utxos;
  meta = λ k. none;
  undo_index = λ k. none;
  undo_store = empty_store;
  tip = replicate 32 3;
  tip_height = 200;
}

abbrev pub utxos_after : Bytes → Option Bytes
utxos_after =
    insert_outputs table
      (table.remove
        (insert_outputs table utxos (txid_of prefix_sha coinbase) coinbase.vout 0 201 true)
        (outpoint_to_key old_outpoint))
      (txid_of prefix_sha spend) spend.vout 0 201 false

abbrev pub stored_after : UndoStore × UndoLocation
stored_after = write_entry empty_store block_id (block_undo_to_bytes undo)

abbrev indexed : ChainState table index
indexed = record start {
  undo_store = stored_after.0;
  undo_index =
      index.insert start.undo_index stored_after.1.hash
        (stored_after.1.file_number, stored_after.1.offset, stored_after.1.size);
}

abbrev pub after : ChainState table index
after = move_tip table index indexed utxos_after block_id 201

pub runs :
    connect_txs table prefix_sha accept_all 0 utxos 201 (coinbase ∷ spend ∷ []) (pos 0)
    ≡ ok (utxos_after, pos 10, undos)
unfolding connect_txs connect_spend spend_inputs find_coin insert_outputs outpoint_to_key
    coin_to_bytes coin_from_bytes read_coin is_mature checked_add check_scripts verify_inputs
    sum_outputs sum_from wrap_i64 is_coinbase outpoint_eq txid_of double_sha256 tx_to_bytes
    tx_in_to_bytes tx_out_to_bytes outpoint_to_bytes write_varint write_all i32_to_le_bytes
    i64_to_le_bytes to_unsigned from_unsigned to_le_bytes from_le_bytes read_exact read_uint
    read_i64 ◌>>=◌ pure ◌+ℤ◌ ◌-ℤ◌
runs = refl

pub connects : connect_block table index prefix_sha accept_all 0 start block 201 block_id ≡ ok after
unfolding connect_txs connect_spend spend_inputs find_coin insert_outputs outpoint_to_key
    coin_to_bytes coin_from_bytes read_coin is_mature checked_add check_scripts verify_inputs
    sum_outputs sum_from wrap_i64 is_coinbase outpoint_eq txid_of double_sha256 tx_to_bytes
    tx_in_to_bytes tx_out_to_bytes outpoint_to_bytes write_varint write_all i32_to_le_bytes
    i64_to_le_bytes to_unsigned from_unsigned to_le_bytes from_le_bytes read_exact read_uint
    read_i64 ◌>>=◌ pure ◌+ℤ◌ ◌-ℤ◌ connect_block check_coinbase_value get_block_subsidy halved
    store_undo store_undo_to_file rotate needs_rotation write_entry move_tip write_tip framed
    tx_undo_to_bytes block_undo_to_bytes
connects = refl

old_coin-IsCoin : IsCoin old_coin
old_coin-IsCoin = record { value = omega arith; script_pubkey = omega arith; height = omega arith }

utxos-IsTable : IsTable table utxos
utxos-IsTable k bytes h = elim (Bool-cases (bytes_eq (outpoint_to_key old_outpoint) k)) [
  | inl e ↦ (old_coin, sym (some-injective (rw e at h)), old_coin-IsCoin)
  | inr e ↦ absurd (none-ne-some (rw e at h))
]

all-IsFresh : All (IsFresh table prefix_sha utxos) (coinbase ∷ spend ∷ [])
unfolding connect_txs connect_spend spend_inputs find_coin insert_outputs outpoint_to_key
    coin_to_bytes coin_from_bytes read_coin is_mature checked_add check_scripts verify_inputs
    sum_outputs sum_from wrap_i64 is_coinbase outpoint_eq txid_of double_sha256 tx_to_bytes
    tx_in_to_bytes tx_out_to_bytes outpoint_to_bytes write_varint write_all i32_to_le_bytes
    i64_to_le_bytes to_unsigned from_unsigned to_le_bytes from_le_bytes read_exact read_uint
    read_i64 ◌>>=◌ pure ◌+ℤ◌ ◌-ℤ◌
all-IsFresh = (λ n. refl, (λ n. refl, tt))

pub differ : txid_of prefix_sha spend ≢ txid_of prefix_sha coinbase
unfolding connect_txs connect_spend spend_inputs find_coin insert_outputs outpoint_to_key
    coin_to_bytes coin_from_bytes read_coin is_mature checked_add check_scripts verify_inputs
    sum_outputs sum_from wrap_i64 is_coinbase outpoint_eq txid_of double_sha256 tx_to_bytes
    tx_in_to_bytes tx_out_to_bytes outpoint_to_bytes write_varint write_all i32_to_le_bytes
    i64_to_le_bytes to_unsigned from_unsigned to_le_bytes from_le_bytes read_exact read_uint
    read_i64 ◌>>=◌ pure ◌+ℤ◌ ◌-ℤ◌
differ e = one-ne-zero (ap (λ l. get_or l 5 0) e)
  where
    one-ne-zero : ◌≢◌ {A = ℕ} 9 0
    one-ne-zero h = omega arith

input-IsTxIn :
    (o : OutPoint) (script : Bytes)
    → IsOutPoint o
    → length script ≤ 10000
    → IsTxIn (record { prev_output = o; script_sig = script; sequence = 0 })
input-IsTxIn o script h small = record {
  prev_output = h;
  script_sig = small;
  sequence = omega arith;
}

pub coinbase-IsTransaction : IsTransaction coinbase
coinbase-IsTransaction = record {
  version = omega arith;
  vin_count = omega arith;
  vin = (
    input-IsTxIn coinbase_outpoint (85 ∷ 0 ∷ []) (record { txid = refl; index = omega arith })
        (omega arith),
    tt,
  );
  vout_count = omega arith;
  vout = (record { value = omega arith; script_pubkey = omega arith }, tt);
  locktime = omega arith;
}

pub spend-IsTransaction : IsTransaction spend
spend-IsTransaction = record {
  version = omega arith;
  vin_count = omega arith;
  vin = (
    input-IsTxIn old_outpoint [] (record { txid = refl; index = omega arith }) (omega arith),
    tt,
  );
  vout_count = omega arith;
  vout = (record { value = omega arith; script_pubkey = omega arith }, tt);
  locktime = omega arith;
}

undo-IsBlockUndo : IsBlockUndo undo
unfolding coin_to_bytes to_le_bytes i64_to_le_bytes tx_undo_to_bytes write_all framed
undo-IsBlockUndo = record {
  count = omega arith;
  undos = (
    (record { count = omega arith; coins = ((old_coin-IsCoin, small_coin), tt) }, small_undo),
    tt,
  );
}
  where
    small_coin : length (coin_to_bytes old_coin) < 4294967296
    small_coin = omega arith

    small_undo : length (tx_undo_to_bytes (record { spent_outputs = old_coin ∷ [] })) < 4294967296
    small_undo = omega arith

undo_small : length (block_undo_to_bytes undo) < 4294967296
unfolding block_undo_to_bytes to_le_bytes write_all framed tx_undo_to_bytes coin_to_bytes
    i64_to_le_bytes
undo_small = omega arith

empty_store-IsStore : IsStore empty_store
empty_store-IsStore = record { size = refl; fresh = λ n h. refl; limit = omega arith }

disconnect_block-connect_block_example :
    (s : ChainState table index) × (disconnect_block table index prefix_sha after block 201 block_id
      ≡ ok s)
    × SameTable table s.utxos utxos
    × (s.tip ≡ start.tip)
    × (s.tip_height ≡ 200)
unfolding is_coinbase outpoint_eq
disconnect_block-connect_block_example =
    disconnect_block-connect_block table index prefix_sha accept_all 0 start after block 201
      block_id coinbase (spend ∷ []) utxos_after (pos 10) undos refl refl (refl, tt)
      (coinbase-IsTransaction, (spend-IsTransaction, tt)) utxos-IsTable all-IsFresh
      ((differ, tt), (tt, tt)) empty_store-IsStore runs
      (record { parts = undo-IsBlockUndo; whole = undo_small }) (omega arith) refl connects

block_undo_from_bytes-block_undo_to_bytes_example :
    block_undo_from_bytes (block_undo_to_bytes undo) ≡ ok undo
block_undo_from_bytes-block_undo_to_bytes_example =
    block_undo_from_bytes-block_undo_to_bytes undo undo-IsBlockUndo

read_coin-coin_to_bytes_example :
    read_coin (coin_to_bytes old_coin ++ 7 ∷ []) ≡ ok (old_coin, 7 ∷ [])
read_coin-coin_to_bytes_example = read_coin-coin_to_bytes old_coin (7 ∷ []) old_coin-IsCoin

pub stores : store_undo_to_file empty_store block_id undo ≡ ok stored_after
unfolding store_undo_to_file rotate needs_rotation
stores = refl

load_undo-store_undo_to_file_example :
    (load_undo stored_after.0 stored_after.1.file_number stored_after.1.offset stored_after.1.size
      ≡ ok undo)
    × IsStore stored_after.0
    × (stored_after.1.hash ≡ block_id)
load_undo-store_undo_to_file_example =
    load_undo-store_undo_to_file empty_store block_id undo stored_after.0 stored_after.1
      empty_store-IsStore undo-IsBlockUndo undo_small stores
