-- ===== src/Chainstate/Restore/WholeBlock.antt =====
-- Disconnecting a coinbase and the transactions behind it undoes connecting them.
use ironcat.Base.{
  ℕ, ◌+◌, ◌<◌, ◌≡◌, ◌≢◌, refl, sym, ◌∙◌, ap, List, [], ◌∷◌, Bool, true, Option, none, some, inl,
  inr, length, All, arith,
}
use ironcat.Base.Int.{ℤ, pos}
use ironcat.Base.Result.{ok, ok-injective}
use ironcat.Network.Cursor.{Bytes}
use ironcat.Types.Hash.{Sha256}
use ironcat.Types.Transaction.{Transaction, txid_of, is_coinbase}
use ironcat.Types.Transaction.RoundTrip.{IsTransaction}
use ironcat.Storage.Table.{TableOps}
use ironcat.Chainstate.Undo.{TxUndo, BlockUndo}
use ironcat.Chainstate.State.{
  Verifier, insert_outputs, connect_txs, remove_outputs, disconnect_tx, disconnect_txs,
}
use ironcat.Chainstate.Restore.Spend.{SameTable, IsTable}
use ironcat.Chainstate.Restore.Outputs.{outputs_at, IsTable-insert_outputs}
use ironcat.Chainstate.Restore.Transactions.{IsFresh, fresh_outputs}
use ironcat.Chainstate.Restore.Runs.{IsSpend, DistinctTxids, restore_run, length-undos}

-- A run of no transactions needs no undo data, any other its entries.
abbrev pub UndoFor : List Transaction → Option BlockUndo → List TxUndo → Type 0
UndoFor [] undo us = Unit
UndoFor (tx ∷ txs) undo us = undo ≡ some (record { tx_undos = us })

module _ (db : TableOps Bytes) (sha : Sha256) where
  -- Removing the outputs of a fresh transaction undoes inserting them.
  remove_outputs-insert_outputs :
      (t u : db.Table) (tx : Transaction) (height : ℕ) (cb : Bool)
      → IsFresh db sha t tx
      → SameTable db u (insert_outputs db t (txid_of sha tx) tx.vout 0 height cb)
      → SameTable db (remove_outputs db u (txid_of sha tx) tx.vout 0) t
  remove_outputs-insert_outputs t u tx height cb fresh agree j =
      elim (outputs_at db (txid_of sha tx) tx.vout 0 j) [
        | inl (n, key, cleared) ↦ cleared u ∙ sym (ap (db.get t) (sym key) ∙ fresh n)
        | inr (inserted, removed) ↦ removed u ∙ agree j ∙ inserted t height cb
      ]

  still-IsFresh :
      (t : db.Table) (tx : Transaction) (height : ℕ) (cb : Bool) (txs : List Transaction)
      → All (λ other. txid_of sha other ≢ txid_of sha tx) txs
      → All (IsFresh db sha t) txs
      → All (IsFresh db sha (insert_outputs db t (txid_of sha tx) tx.vout 0 height cb)) txs
  still-IsFresh t tx height cb [] differ fresh = tt
  still-IsFresh t tx height cb (other ∷ txs) differ fresh = (
    λ n. fresh_outputs db sha (λ _ _ _ _. true) 0 tx other t height cb n differ.0 (fresh.0 n),
    still-IsFresh t tx height cb txs differ.1 fresh.1,
  )

  disconnect_coinbase :
      (t : db.Table) (tx : Transaction) (undo : Option BlockUndo)
      → is_coinbase tx ≡ true
      → disconnect_tx db sha t tx 0 undo ≡ ok (remove_outputs db t (txid_of sha tx) tx.vout 0)
  unfolding disconnect_tx
  disconnect_coinbase t tx none h = refl
  disconnect_coinbase t tx (some undo) h = rw h

module _ (db : TableOps Bytes) (sha : Sha256) (verify : Verifier) (svh : ℕ) where
  pub connect_coinbase :
      (t : db.Table) (height : ℕ) (tx : Transaction) (txs : List Transaction) (fees : ℤ)
      → is_coinbase tx ≡ true
      → connect_txs db sha verify svh t height (tx ∷ txs) fees
        ≡ connect_txs db sha verify svh
            (insert_outputs db t (txid_of sha tx) tx.vout 0 height true)
            height
            txs
            fees
  unfolding connect_txs
  connect_coinbase t height tx txs fees h = rw h

  restore_rest :
      (t : db.Table) (height : ℕ) (txs : List Transaction) (t' : db.Table) (total : ℤ)
      (undos : List TxUndo) (undo : Option BlockUndo)
      → IsTable db t
      → height < 4294967296
      → All IsSpend txs
      → All IsTransaction txs
      → All (IsFresh db sha t) txs
      → DistinctTxids sha txs
      → connect_txs db sha verify svh t height txs (pos 0) ≡ ok (t', total, undos)
      → UndoFor txs undo undos
      → (r : db.Table) × (disconnect_txs db sha t' txs 1 undo ≡ ok r) × SameTable db r t
  restore_rest t height [] t' total undos undo v lt spends ws fresh differ h data_for = (
    t',
    unfold disconnect_txs in refl,
    λ k.
        unfold connect_txs in
        ap (λ (x : db.Table × ℤ × List TxUndo). db.get x.0 k) (sym (ok-injective h)),
  )
  restore_rest t height (tx ∷ txs) t' total undos undo v lt spends ws fresh differ h data_for =
      rw data_for (
        restore_run db sha verify svh t height (tx ∷ txs) (pos 0) t' total undos
          (record { tx_undos = undos }) 0 t' v lt spends ws fresh differ h
          (λ k. let s : 0 + k ≡ k = omega arith in rw s) (λ k. refl))

  -- The whole list of transactions, with the undo data that there is for it.
  pub restore_txs :
      (t : db.Table) (height : ℕ) (cb : Transaction) (txs : List Transaction) (t' : db.Table)
      (total : ℤ) (undos : List TxUndo) (undo : Option BlockUndo)
      → IsTable db t
      → height < 4294967296
      → is_coinbase cb ≡ true
      → All IsSpend txs
      → All IsTransaction (cb ∷ txs)
      → All (IsFresh db sha t) (cb ∷ txs)
      → DistinctTxids sha (cb ∷ txs)
      → connect_txs db sha verify svh t height (cb ∷ txs) (pos 0) ≡ ok (t', total, undos)
      → UndoFor txs undo undos
      → (r : db.Table) × (disconnect_txs db sha t' (cb ∷ txs) 0 undo ≡ ok r) × SameTable db r t
  unfolding disconnect_txs
  restore_txs t height cb txs t' total undos undo v lt first spends ws fresh differ h data_for =
      let t0 = insert_outputs db t (txid_of sha cb) cb.vout 0 height true in
      let (r0, done, same) =
        restore_rest t0 height txs t' total undos undo
          (IsTable-insert_outputs db (txid_of sha cb) cb.vout t 0 height true v ws.0.vout lt) lt
          spends ws.1 (still-IsFresh db sha t cb height true txs differ.0 fresh.1) differ.1
          (sym (connect_coinbase t height cb txs (pos 0) first) ∙ h) data_for in
      (
        remove_outputs db r0 (txid_of sha cb) cb.vout 0,
        rw done (disconnect_coinbase db sha r0 cb undo first),
        remove_outputs-insert_outputs db sha t r0 cb height true fresh.0 same,
      )

  -- The number of entries is that of the transactions behind the coinbase.
  pub length-block_undos :
      (t : db.Table) (height : ℕ) (cb : Transaction) (txs : List Transaction) (t' : db.Table)
      (total : ℤ) (undos : List TxUndo)
      → is_coinbase cb ≡ true
      → All IsSpend txs
      → connect_txs db sha verify svh t height (cb ∷ txs) (pos 0) ≡ ok (t', total, undos)
      → length undos ≡ length txs
  length-block_undos t height cb txs t' total undos first spends h =
      length-undos db sha verify svh _ height txs (pos 0) t' total undos spends
        (sym (connect_coinbase t height cb txs (pos 0) first) ∙ h)
