-- ===== src/Chainstate/Restore/Runs.antt =====
-- Disconnecting a run of transactions, the last one first, undoes connecting them.
use ironcat.Base.{
  ℕ, suc, ◌+◌, ◌<◌, ◌≡◌, ◌≢◌, refl, sym, ◌∙◌, ap, List, [], ◌∷◌, false, some, length, get_elem?,
  All, arith,
}
use mathlib.Core.Path.{subst}
use ironcat.Base.Int.{ℤ, checked_add}
use ironcat.Base.Result.{ok, ok_or, >>=-eq-ok, ok_or-eq-ok, ok-injective}
use ironcat.Types.Hash.{Sha256}
use ironcat.Types.Transaction.{Transaction, txid_of, is_coinbase}
use ironcat.Types.Transaction.RoundTrip.{IsTransaction}
use ironcat.Storage.Table.{TableOps}
use ironcat.Network.Cursor.{Bytes}
use ironcat.Chainstate.Undo.{TxUndo, BlockUndo}
use ironcat.Chainstate.State.{
  fee_overflow, Verifier, connect_spend, connect_txs, remove_outputs, restore_inputs, undo_at,
  disconnect_tx, disconnect_txs,
}
use ironcat.Chainstate.Restore.Spend.{SameTable, IsTable}
use ironcat.Chainstate.Restore.Transactions.{
  IsFresh, restore_spend, connect_spend-IsTable, connect_spend-IsFresh,
}

abbrev pub IsSpend : Transaction → Type 0
IsSpend tx = is_coinbase tx ≡ false

-- No two transactions have the same txid.
abbrev pub DistinctTxids : Sha256 → List Transaction → Type 0
DistinctTxids sha [] = Unit
DistinctTxids sha (tx ∷ txs) =
    All (λ other. txid_of sha other ≢ txid_of sha tx) txs × DistinctTxids sha txs

-- The entries of the undo data from a position on are those of a run.
abbrev pub Entries : BlockUndo → ℕ → List TxUndo → Type 0
Entries undo idx us = (k : ℕ) → get_elem? undo.tx_undos (idx + k) ≡ get_elem? us k

Entries-head :
    (all : BlockUndo) (idx : ℕ) (undo : TxUndo) (us : List TxUndo)
    → Entries all idx (undo ∷ us)
    → get_elem? all.tx_undos idx ≡ some undo
Entries-head all idx undo us h = let s : idx + 0 ≡ idx = omega arith in rw s at (h 0)

Entries-tail :
    (all : BlockUndo) (idx : ℕ) (undo : TxUndo) (us : List TxUndo)
    → Entries all idx (undo ∷ us)
    → Entries all (suc idx) us
Entries-tail all idx undo us h k =
    let s : suc idx + k ≡ idx + suc k = omega arith in rw s (h (suc k))

module _ (db : TableOps Bytes) (sha : Sha256) (verify : Verifier) (svh : ℕ) where
  pub connect_txs_inv :
      (t : db.Table) (height : ℕ) (tx : Transaction) (txs : List Transaction) (fees : ℤ)
      (t' : db.Table) (total : ℤ) (undos : List TxUndo)
      → IsSpend tx
      → connect_txs db sha verify svh t height (tx ∷ txs) fees ≡ ok (t', total, undos)
      → (t1 : db.Table) × (fee : ℤ) × (undo : TxUndo) × (fees' : ℤ) × (us : List TxUndo)
        × (connect_spend db sha verify svh t height tx ≡ ok (t1, fee, undo))
        × (checked_add fees fee ≡ some fees')
        × (connect_txs db sha verify svh t1 height txs fees' ≡ ok (t', total, us))
        × (undos ≡ undo ∷ us)
  unfolding connect_txs
  connect_txs_inv t height tx txs fees t' total undos spend h =
      let ((t1, fee, undo), p, h1) =
        >>=-eq-ok (connect_spend db sha verify svh t height tx) _ (rw spend at h) in
      let (fees', q, h2) = >>=-eq-ok (ok_or (checked_add fees fee) fee_overflow) _ h1 in
      let ((u, v, us), r, same) =
        >>=-eq-ok (connect_txs db sha verify svh t1 height txs fees') _ h2 in
      let e = ok-injective same in
      (
        t1,
        fee,
        undo,
        fees',
        us,
        p,
        ok_or-eq-ok _ _ q,
        r ∙ ap (λ (x : db.Table × ℤ × List TxUndo). ok (x.0, x.1, us)) e,
        sym (ap (λ (x : db.Table × ℤ × List TxUndo). x.2) e),
      )

  stay-IsFresh :
      (t : db.Table) (height : ℕ) (tx : Transaction) (t1 : db.Table) (fee : ℤ) (undo : TxUndo)
      (txs : List Transaction)
      → connect_spend db sha verify svh t height tx ≡ ok (t1, fee, undo)
      → All (λ other. txid_of sha other ≢ txid_of sha tx) txs
      → All (IsFresh db sha t) txs
      → All (IsFresh db sha t1) txs
  stay-IsFresh t height tx t1 fee undo [] h differ fresh = tt
  stay-IsFresh t height tx t1 fee undo (other ∷ txs) h differ fresh = (
    connect_spend-IsFresh db sha verify svh t height tx t1 fee undo other fresh.0 differ.0 h,
    stay-IsFresh t height tx t1 fee undo txs h differ.1 fresh.1,
  )

  disconnect_one :
      (r : db.Table) (tx : Transaction) (idx : ℕ) (all : BlockUndo) (undo : TxUndo) (r' : db.Table)
      → IsSpend tx
      → get_elem? all.tx_undos idx ≡ some undo
      → restore_inputs db (remove_outputs db r (txid_of sha tx) tx.vout 0) tx.vin undo.spent_outputs
        ≡ ok r'
      → disconnect_tx db sha r tx (suc idx) (some all) ≡ ok r'
  unfolding disconnect_tx undo_at
  disconnect_one r tx idx all undo r' spend found h = rw (spend, found) h

  pub length-undos :
      (t : db.Table) (height : ℕ) (txs : List Transaction) (fees : ℤ) (t' : db.Table) (total : ℤ)
      (undos : List TxUndo)
      → All IsSpend txs
      → connect_txs db sha verify svh t height txs fees ≡ ok (t', total, undos)
      → length undos ≡ length txs
  length-undos t height [] fees t' total undos spend h =
      unfold connect_txs in
      ap (λ (x : db.Table × ℤ × List TxUndo). length x.2) (sym (ok-injective h))
  length-undos t height (tx ∷ txs) fees t' total undos spend h =
      let (t1, fee, undo, fees', us, p, _, rest, e) =
        connect_txs_inv t height tx txs fees t' total undos spend.0 h in
      rw e (ap suc (length-undos t1 height txs fees' t' total us spend.1 rest))

  pub restore_run :
      (t : db.Table) (height : ℕ) (txs : List Transaction) (fees : ℤ) (t' : db.Table) (total : ℤ)
      (undos : List TxUndo) (all : BlockUndo) (idx : ℕ) (u : db.Table)
      → IsTable db t
      → height < 4294967296
      → All IsSpend txs
      → All IsTransaction txs
      → All (IsFresh db sha t) txs
      → DistinctTxids sha txs
      → connect_txs db sha verify svh t height txs fees ≡ ok (t', total, undos)
      → Entries all idx undos
      → SameTable db u t'
      → (r : db.Table) × (disconnect_txs db sha u txs (suc idx) (some all) ≡ ok r)
        × SameTable db r t
  unfolding disconnect_txs
  restore_run t height [] fees t' total undos all idx u v lt spend ws fresh differ h entries agree =
      (
        u,
        refl,
        λ k.
            agree k
            ∙ unfold connect_txs in
              ap (λ (x : db.Table × ℤ × List TxUndo). db.get x.0 k) (sym (ok-injective h)),
      )
  restore_run t height (tx ∷ txs) fees t' total undos all idx u v lt spend ws fresh differ h entries
        agree =
      let (t1, fee, undo, fees', us, p, _, rest, e) =
        connect_txs_inv t height tx txs fees t' total undos spend.0 h in
      let (r, done, same) =
        restore_run t1 height txs fees' t' total us all (suc idx) u
          (connect_spend-IsTable db sha verify svh t height tx t1 fee undo v ws.0 lt p) lt spend.1
          ws.1 (stay-IsFresh t height tx t1 fee undo txs p differ.0 fresh.1) differ.1 rest
          (Entries-tail all idx undo us (subst (Entries all idx) e entries)) agree in
      let (r', back, result) =
        restore_spend db sha verify svh t height tx t1 fee undo r v fresh.0 p same in
      (
        r',
        rw done (
            disconnect_one r tx idx all undo r' spend.0
              (Entries-head all idx undo us (subst (Entries all idx) e entries)) back),
        result,
      )
