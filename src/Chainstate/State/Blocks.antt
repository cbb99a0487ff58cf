-- ===== src/Chainstate/State/Blocks.antt =====
-- chainstate/mod.rs: `open`'s reading of the tip, `connect_block`, `disconnect_block`, `get_utxo`.
use ironcat.Base.{
  ℕ, zero, suc, ◌+◌, ◌-◌, ◌%◌, List, [], ◌∷◌, not, ◌&&◌, ◌==◌, Option, none, some, ltb,
  if◌then◌else◌, length, get_elem?, min,
}
use ironcat.Base.Int.{pos}
use ironcat.Base.Result.{Result, ok, err, ◌>>=◌, ◌>>◌, ensure, ok_or}
use ironcat.Network.Cursor.{Bytes, to_le_bytes, from_le_bytes}
use ironcat.Types.Hash.{Hash256, zero_hash, Sha256, bytes_eq}
use ironcat.Types.Transaction.{OutPoint, TxIn, TxOut, Transaction, txid_of, is_coinbase}
use ironcat.Types.Block.{Block}
use ironcat.Storage.Table.{TableOps}
use ironcat.Chainstate.Coin.{Coin, coin_to_bytes, coin_from_bytes}
use ironcat.Chainstate.Undo.{TxUndo, BlockUndo}
use ironcat.Chainstate.UndoStore.{UndoStore, UndoLocation, UndoError, store_undo_to_file, load_undo}
use ironcat.Chainstate.State.Defs.{
  ConnectError, wrong_height, no_transactions, genesis, wrong_tip, undo_missing, undo_count,
  missing_spent, undo_failed, u32_max, outpoint_to_key, Verifier, stored, connect_txs,
  check_coinbase_value,
}

-- The keys "tip" and "tip_height" of the META table.
abbrev pub tip_key : Bytes
tip_key = b't' ∷ b'i' ∷ b'p' ∷ []

abbrev pub tip_height_key : Bytes
tip_height_key = b't' ∷ b'i' ∷ b'p' ∷ b'_' ∷ b'h' ∷ b'e' ∷ b'i' ∷ b'g' ∷ b'h' ∷ b't' ∷ []

-- Of a stored tip that has another length than 32 bytes nothing is kept, nor of a height of another
-- length than 4.
unfoldable pub tip_of : Option Bytes → Hash256
tip_of none = zero_hash
tip_of (some bytes) = if length bytes == 32 then bytes else zero_hash

unfoldable pub tip_height_of : Option Bytes → ℕ
tip_height_of none = 0
tip_height_of (some bytes) = if length bytes == 4 then from_le_bytes bytes else 0

unfoldable pub non_coinbase_count : List Transaction → ℕ
non_coinbase_count [] = 0
non_coinbase_count (tx ∷ txs) = (if is_coinbase tx then 0 else 1) + non_coinbase_count txs

module _ (db : TableOps Bytes) where
  -- The tip that `open` finds in META.
  unfoldable pub load_tip : db.Table → Hash256 × ℕ
  unfolding tip_of tip_height_of
  load_tip meta = (tip_of (db.get meta tip_key), tip_height_of (db.get meta tip_height_key))

  unfoldable pub write_tip : db.Table → Hash256 → ℕ → db.Table
  write_tip meta hash height =
      db.insert (db.insert meta tip_key hash) tip_height_key (to_le_bytes 4 height)

  -- The first `n` outputs of a transaction from `idx` on are removed.
  unfoldable pub remove_outputs : db.Table → Hash256 → List TxOut → ℕ → db.Table
  remove_outputs t txid [] idx = t
  remove_outputs t txid (o ∷ os) idx =
      remove_outputs
        (db.remove t (outpoint_to_key (record { txid = txid; index = idx % 4294967296 }))) txid os
        (suc idx)

  -- The coins in the order of the inputs; more coins than inputs are ignored.
  unfoldable pub restore_inputs : db.Table → List TxIn → List Coin → Result ConnectError db.Table
  restore_inputs t [] cs = ok t
  restore_inputs t (i ∷ is) [] = err missing_spent
  restore_inputs t (i ∷ is) (c ∷ cs) =
      restore_inputs (db.insert t (outpoint_to_key i.prev_output) (coin_to_bytes c)) is cs

  -- The entry of the transaction at a position of the block: the coinbase at 0 has none.
  unfoldable pub undo_at : List TxUndo → ℕ → Option TxUndo
  undo_at undos zero = none
  undo_at undos (suc n) = get_elem? undos n

  unfoldable pub disconnect_tx :
      Sha256 → db.Table → Transaction → ℕ → Option BlockUndo → Result ConnectError db.Table
  disconnect_tx sha t tx tx_idx none = ok (remove_outputs t (txid_of sha tx) tx.vout 0)
  disconnect_tx sha t tx tx_idx (some undo) =
      let t' = remove_outputs t (txid_of sha tx) tx.vout 0 in
      if is_coinbase tx
      then ok t'
      else (ok_or (undo_at undo.tx_undos tx_idx) undo_missing >>= λ u.
          restore_inputs t' tx.vin u.spent_outputs)

  -- The transactions from position `idx` on, the last one first.
  unfoldable pub disconnect_txs :
      Sha256 → db.Table → List Transaction → ℕ → Option BlockUndo → Result ConnectError db.Table
  disconnect_txs sha t [] idx undo = ok t
  disconnect_txs sha t (tx ∷ txs) idx undo =
      disconnect_txs sha t txs (suc idx) undo >>= λ t'. disconnect_tx sha t' tx idx undo

module _ (db : TableOps Bytes) (index : TableOps (ℕ × ℕ × ℕ)) where
  pub record ChainState : Type 0 where
    pub utxos : db.Table
    pub meta : db.Table
    pub undo_index : index.Table
    pub undo_store : UndoStore
    pub tip : Hash256
    pub tip_height : ℕ

  -- The UTXO set, META and the tip in memory change together.
  unfoldable pub move_tip : ChainState → db.Table → Hash256 → ℕ → ChainState
  unfolding write_tip
  move_tip s utxos hash height = record s {
    utxos = utxos;
    meta = write_tip db s.meta hash height;
    tip = hash;
    tip_height = height;
  }

  abbrev pub undo_stored :
      ChainState → Result UndoError (UndoStore × UndoLocation) → Result ConnectError ChainState
  undo_stored s (ok (store, loc)) = ok (record s {
    undo_store = store;
    undo_index = index.insert s.undo_index loc.hash (loc.file_number, loc.offset, loc.size);
  })
  undo_stored s (err e) = err (undo_failed e)

  -- Undo data goes to the flat file, and its location to the index; there is none to store where
  -- nothing was spent.
  unfoldable pub store_undo : ChainState → Hash256 → List TxUndo → Result ConnectError ChainState
  store_undo s hash [] = ok s
  store_undo s hash (u ∷ us) =
      undo_stored s (store_undo_to_file s.undo_store hash (record { tx_undos = u ∷ us }))

  abbrev pub undo_loaded : Result UndoError BlockUndo → Result ConnectError BlockUndo
  undo_loaded (ok u) = ok u
  undo_loaded (err e) = err (undo_failed e)

  unfoldable pub find_undo : ChainState → Hash256 → Result ConnectError BlockUndo
  find_undo s hash = ok_or (index.get s.undo_index hash) undo_missing >>= λ (n, offset, size).
      undo_loaded (load_undo s.undo_store n offset size)

  -- `get_utxo`.
  unfoldable pub get_utxo : ChainState → OutPoint → Result ConnectError (Option Coin)
  get_utxo s o = elim (db.get s.utxos (outpoint_to_key o)) [
    | none ↦ ok none
    | some bytes ↦ (stored db (coin_from_bytes bytes) >>= λ c. ok (some c))
  ]

  -- Undo data is loaded where the block spent anything, and has an entry for each such transaction.
  unfoldable pub undo_for : ChainState → Block → Hash256 → Result ConnectError (Option BlockUndo)
  unfolding non_coinbase_count
  undo_for s block hash =
      if non_coinbase_count block.transactions == 0
      then ok none
      else (find_undo s hash >>= λ u.
          ensure (length u.tx_undos == non_coinbase_count block.transactions) undo_count
          >> ok (some u))

  unfoldable pub disconnect_block :
      Sha256 → ChainState → Block → ℕ → Hash256 → Result ConnectError ChainState
  disconnect_block sha s block height hash =
      ensure (not (height == 0)) genesis
      >> ensure (bytes_eq hash s.tip && height == s.tip_height) wrong_tip
      >> undo_for s block hash
      >>= λ undo. disconnect_txs db sha s.utxos block.transactions 0 undo >>= λ t.
          ok (move_tip s t block.header.prev_hash (height - 1))

  module _ (sha : Sha256) (verify : Verifier) (script_verify_height : ℕ) where
    unfoldable pub connect_block : ChainState → Block → ℕ → Hash256 → Result ConnectError ChainState
    connect_block s block height hash =
        ensure (height == min (s.tip_height + 1) u32_max) wrong_height
        >> ensure (ltb 0 (length block.transactions)) no_transactions
        >> connect_txs db sha verify script_verify_height s.utxos height block.transactions (pos 0)
        >>= λ (t, fees, undos).
            check_coinbase_value db sha verify script_verify_height height block.transactions fees
            >> store_undo s hash undos
            >>= λ s'. ok (move_tip s' t hash height)
