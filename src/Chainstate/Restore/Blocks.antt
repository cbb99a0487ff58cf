-- ===== src/Chainstate/Restore/Blocks.antt =====
-- Disconnecting the block at the tip undoes connecting it.
use ironcat.Base.{
  ℕ, suc, ◌+◌, ◌-◌, ◌<◌, ◌≡◌, refl, sym, ◌∙◌, ap, List, [], ◌∷◌, true, false, not, ◌==◌, ==_refl,
  ==_iff, Option, none, some, length, All, arith,
}
use ironcat.Base.Int.{ℤ, pos}
use ironcat.Base.Result.{ok, ok-injective}
use ironcat.Network.Cursor.{Bytes}
use ironcat.Types.Hash.{Hash256, Sha256, bytes_eq_refl}
use ironcat.Types.Transaction.{Transaction, is_coinbase}
use ironcat.Types.Transaction.RoundTrip.{IsTransaction}
use ironcat.Types.Block.{Block}
use ironcat.Storage.Table.{TableOps}
use ironcat.Chainstate.Undo.{TxUndo, BlockUndo}
use ironcat.Chainstate.UndoStore.Recall.{IsStore}
use ironcat.Chainstate.State.{
  store_undo, u32_max, Verifier, connect_txs, ChainState, disconnect_txs, non_coinbase_count,
  find_undo, undo_for, move_tip, connect_block, disconnect_block,
}
use ironcat.Chainstate.Restore.Spend.{SameTable, IsTable}
use ironcat.Chainstate.Restore.Transactions.{IsFresh}
use ironcat.Chainstate.Restore.Runs.{IsSpend, DistinctTxids}
use ironcat.Chainstate.Restore.WholeBlock.{UndoFor, restore_txs, length-block_undos}
use ironcat.Chainstate.Restore.Undo.{
  FitsPrefixes, non_coinbase_count-coinbase, non_coinbase_count-spends, find_undo-store_undo,
}
use ironcat.Chainstate.Restore.Connected.{connect_block_inv}

module _ (db : TableOps Bytes) (index : TableOps (ℕ × ℕ × ℕ)) where
  -- The undo data that `disconnect_block` uses is what `connect_block` stored.
  undo_for_lem :
      (s s1 : ChainState db index) (block : Block) (hash : Hash256) (cb : Transaction)
      (txs : List Transaction) (undos : List TxUndo)
      → block.transactions ≡ cb ∷ txs
      → is_coinbase cb ≡ true
      → All IsSpend txs
      → length undos ≡ length txs
      → IsStore s.undo_store
      → FitsPrefixes undos
      → store_undo db index s hash undos ≡ ok s1
      → (undo : Option BlockUndo) × (undo_for db index s1 block hash ≡ ok undo)
        × UndoFor txs undo undos
  unfolding undo_for
  undo_for_lem s s1 block hash cb [] undos shape first spends count v fits stored =
      let e : non_coinbase_count block.transactions ≡ 0 =
        rw shape (non_coinbase_count-coinbase cb [] first ∙ non_coinbase_count-spends [] spends) in
      (none, rw e, tt)
  undo_for_lem s s1 block hash cb (tx ∷ txs) [] shape first spends count v fits stored =
      absurd (omega arith)
  undo_for_lem s s1 block hash cb (tx ∷ txs) (u ∷ us) shape first spends count v fits stored =
      let e : non_coinbase_count block.transactions ≡ suc (length txs) = rw shape (
        non_coinbase_count-coinbase cb (tx ∷ txs) first
        ∙ non_coinbase_count-spends (tx ∷ txs) spends) in
      let matches : (length (u ∷ us) == suc (length txs)) ≡ true = (==_iff _ _).1 count in
      let nonzero : (suc (length txs) == 0) ≡ false = ground arith in
      let found = find_undo-store_undo db index s s1 hash u us v fits stored in
      (some (record { tx_undos = u ∷ us }), rw (e, nonzero, found, matches), refl)

  -- At the tip that `move_tip` set, a block is disconnected with the undo data that was there before.
  disconnect_at :
      (sha : Sha256) (s : ChainState db index) (block : Block) (height : ℕ) (hash : Hash256)
      (t r : db.Table) (undo : Option BlockUndo)
      → 0 < height
      → undo_for db index s block hash ≡ ok undo
      → disconnect_txs db sha t block.transactions 0 undo ≡ ok r
      → disconnect_block db index sha (move_tip db index s t hash height) block height hash
        ≡ ok (
            move_tip db index
              (move_tip db index s t hash height)
              r
              block.header.prev_hash
              (height - 1))
  unfolding disconnect_block move_tip undo_for find_undo
  disconnect_at sha s block height hash t r undo pos_height found done =
      let nonzero : not (height == 0) ≡ true = ground arith in
      rw (nonzero, bytes_eq_refl hash, ==_refl height, found, done)

module _ (db : TableOps Bytes) (index : TableOps (ℕ × ℕ × ℕ)) (sha : Sha256) (verify : Verifier)
    (svh : ℕ) where
  -- A block of one coinbase and other transactions, all within the limits of the wire form, whose
  -- txids are distinct and have no output in the UTXO set, on top of a UTXO set of coins and a
  -- well-formed undo store, below the highest height, with undo data that fits its length prefixes:
  -- once it is connected as the child of the tip, it can be disconnected, and then every key of the
  -- UTXO set has the value that it had before, and the tip and its height are those before.
  pub disconnect_block-connect_block :
      (s s' : ChainState db index) (block : Block) (height : ℕ) (hash : Hash256) (cb : Transaction)
      (txs : List Transaction) (t : db.Table) (fees : ℤ) (undos : List TxUndo)
      → block.transactions ≡ cb ∷ txs
      → is_coinbase cb ≡ true
      → All IsSpend txs
      → All IsTransaction (cb ∷ txs)
      → IsTable db s.utxos
      → All (IsFresh db sha s.utxos) (cb ∷ txs)
      → DistinctTxids sha (cb ∷ txs)
      → IsStore s.undo_store
      → connect_txs db sha verify svh s.utxos height (cb ∷ txs) (pos 0) ≡ ok (t, fees, undos)
      → FitsPrefixes undos
      → s.tip_height < u32_max
      → block.header.prev_hash ≡ s.tip
      → connect_block db index sha verify svh s block height hash ≡ ok s'
      → (s'' : ChainState db index) × (disconnect_block db index sha s' block height hash ≡ ok s'')
        × SameTable db s''.utxos s.utxos
        × (s''.tip ≡ s.tip)
        × (s''.tip_height ≡ s.tip_height)
  disconnect_block-connect_block s s' block height hash cb txs t fees undos shape first spends ws v
        fresh differ store run fits low child h =
      let c = connect_block_inv db index sha verify svh s block height hash s' h in
      let same = ok-injective (
        sym run
        ∙ ap (λ l. connect_txs db sha verify svh s.utxos height l (pos 0)) (sym shape)
        ∙ c.run) in
      let et : t ≡ c.table = ap (λ (x : db.Table × ℤ × List TxUndo). x.0) same in
      let eu : undos ≡ c.undos = ap (λ (x : db.Table × ℤ × List TxUndo). x.2) same in
      let stored : store_undo db index s hash undos ≡ ok c.stored =
        ap (store_undo db index s hash) eu ∙ c.store in
      let moved : s' ≡ move_tip db index c.stored t hash height =
        c.moved ∙ ap (λ (x : db.Table). move_tip db index c.stored x hash height) (sym et) in
      let high : height ≡ s.tip_height + 1 = omega (arith, c.next_height) in
      let count =
        length-block_undos db sha verify svh s.utxos height cb txs t fees undos first spends run in
      let (undo, found, data_for) =
        undo_for_lem db index s c.stored block hash cb txs undos shape first spends count store fits
          stored in
      let (r, done, result) =
        restore_txs db sha verify svh s.utxos height cb txs t fees undos undo v (omega arith) first
          spends ws fresh differ run data_for in
      let done' : disconnect_txs db sha t block.transactions 0 undo ≡ ok r =
        ap (λ l. disconnect_txs db sha t l 0 undo) shape ∙ done in
      (
        move_tip db index (move_tip db index c.stored t hash height) r block.header.prev_hash
            (height - 1),
        ap (λ (x : ChainState db index). disconnect_block db index sha x block height hash) moved
            ∙ disconnect_at db index sha c.stored block height hash t r undo (omega arith) found
                done',
        unfold move_tip in result,
        unfold move_tip in child,
        unfold move_tip in omega arith,
      )
