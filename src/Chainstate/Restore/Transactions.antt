-- ===== src/Chainstate/Restore/Transactions.antt =====
-- Disconnecting one transaction, and a run of them, undoes connecting them.
use ironcat.Base.{
  ℕ, ◌<◌, ◌≡◌, ◌≢◌, sym, ◌∙◌, ap, Bool, true, false, none, some, inl, inr, length, ltb,
  none-ne-some,
}
use mathlib.Core.Path.{subst}
use ironcat.Base.Int.{ℤ, pos, leb_ℤ, ◌-ℤ◌}
use ironcat.Base.Result.{ok, ◌>>◌, ensure, ok_or, >>=-eq-ok, ensure_then, ok_or-eq-ok, ok-injective}
use ironcat.Network.Cursor.{Bytes}
use ironcat.Types.Hash.{Sha256, double_sha256-IsHash}
use ironcat.Types.Transaction.{Transaction, txid_of}
use ironcat.Types.Transaction.RoundTrip.{IsTransaction}
use ironcat.Storage.Table.{TableOps}
use ironcat.Chainstate.Undo.{TxUndo}
use ironcat.Chainstate.State.{
  no_inputs, script_failed, output_overflow, outputs_exceed_inputs, Verifier, sum_outputs, wrap_i64,
  insert_outputs, spend_inputs, check_scripts, connect_spend, remove_outputs, restore_inputs,
}
use ironcat.Chainstate.Restore.Spend.{
  SameTable, IsTable, put_back, restore_inputs-eq-put_back, spend_shrinks, spend_at,
}
use ironcat.Chainstate.Restore.Outputs.{
  output_key, output_key-injective, outputs_at, IsTable-insert_outputs,
}

module _ (db : TableOps Bytes) (sha : Sha256) where
  -- No output of the transaction is in the table.
  abbrev pub IsFresh : db.Table → Transaction → Type 0
  IsFresh t tx = (n : ℕ) → db.get t (output_key (txid_of sha tx) n) ≡ none

module _ (db : TableOps Bytes) (sha : Sha256) (verify : Verifier) (svh : ℕ) where
  -- The parts of a transaction that was connected.
  pub connect_spend_inv :
      (t : db.Table) (height : ℕ) (tx : Transaction) (t' : db.Table) (fee : ℤ) (undo : TxUndo)
      → connect_spend db sha verify svh t height tx ≡ ok (t', fee, undo)
      → (t1 : db.Table) × (input_sum output_sum : ℤ) × (spend_inputs db t height tx.vin (pos 0)
          ≡ ok (t1, input_sum, undo.spent_outputs))
        × (check_scripts db sha verify svh tx height undo.spent_outputs ≡ true)
        × (sum_outputs tx.vout ≡ some output_sum)
        × (leb_ℤ output_sum input_sum ≡ true)
        × (t' ≡ insert_outputs db t1 (txid_of sha tx) tx.vout 0 height false)
        × (fee ≡ wrap_i64 (input_sum -ℤ output_sum))
  unfolding connect_spend
  connect_spend_inv t height tx t' fee undo h =
      let ((t1, a, spent), p, h1) =
        >>=-eq-ok
          (ensure (ltb 0 (length tx.vin)) no_inputs >> spend_inputs db t height tx.vin (pos 0)) _
          h in
      let (_, p') =
        ensure_then (ltb 0 (length tx.vin)) no_inputs (spend_inputs db t height tx.vin (pos 0)) p in
      let (b, q, h2) =
        >>=-eq-ok
          (ensure (check_scripts db sha verify svh tx height spent) script_failed
            >> ok_or (sum_outputs tx.vout) output_overflow)
          _ h1 in
      let (s, q') =
        ensure_then (check_scripts db sha verify svh tx height spent) script_failed
          (ok_or (sum_outputs tx.vout) output_overflow) q in
      let (l, same) = ensure_then (leb_ℤ b a) outputs_exceed_inputs _ h2 in
      let e = ok-injective same in
      let to_undo : spent ≡ undo.spent_outputs =
        ap (λ (x : db.Table × ℤ × TxUndo). x.2.spent_outputs) e in
      (
        t1,
        a,
        b,
        rw (← to_undo) p',
        rw (← to_undo) s,
        ok_or-eq-ok _ _ q',
        l,
        sym (ap (λ (x : db.Table × ℤ × TxUndo). x.0) e),
        sym (ap (λ (x : db.Table × ℤ × TxUndo). x.1) e),
      )

  -- Inserting the outputs of a transaction leaves one with another txid fresh.
  pub fresh_outputs :
      (tx other : Transaction) (t : db.Table) (height : ℕ) (cb : Bool) (n : ℕ)
      → txid_of sha other ≢ txid_of sha tx
      → db.get t (output_key (txid_of sha other) n) ≡ none
      → db.get
          (insert_outputs db t (txid_of sha tx) tx.vout 0 height cb)
          (output_key (txid_of sha other) n)
        ≡ none
  unfolding txid_of
  fresh_outputs tx other t height cb n differ gone =
      let key = output_key (txid_of sha other) n in
      elim (outputs_at db (txid_of sha tx) tx.vout 0 key) [
        | inl (m, same, _) ↦ absurd (
            differ (
              sym (
                output_key-injective (txid_of sha tx) (txid_of sha other) m n
                  (double_sha256-IsHash sha _) (double_sha256-IsHash sha _) same)))
        | inr (inserted, _) ↦ inserted t height cb ∙ gone
      ]

  -- With the table as connecting a transaction left it, removing its outputs and restoring its
  -- inputs gives the table before.
  pub restore_spend :
      (t : db.Table) (height : ℕ) (tx : Transaction) (t' : db.Table) (fee : ℤ) (undo : TxUndo)
      (u : db.Table)
      → IsTable db t
      → IsFresh db sha t tx
      → connect_spend db sha verify svh t height tx ≡ ok (t', fee, undo)
      → SameTable db u t'
      → (r : db.Table) × (restore_inputs db
            (remove_outputs db u (txid_of sha tx) tx.vout 0)
            tx.vin
            undo.spent_outputs
          ≡ ok r)
        × SameTable db r t
  restore_spend t height tx t' fee undo u v fresh h agree =
      let txid = txid_of sha tx in
      let (t1, a, b, spend, _, _, _, e, _) = connect_spend_inv t height tx t' fee undo h in
      let u' = remove_outputs db u txid tx.vout 0 in
      (
        put_back db u' tx.vin undo.spent_outputs,
        restore_inputs-eq-put_back db u' t height tx.vin (pos 0) t1 a undo.spent_outputs spend,
        λ j. elim (spend_at db t height tx.vin (pos 0) t1 a undo.spent_outputs v spend j) [
          | inl taken ↦ taken.2 u' ∙ sym taken.1
          | inr (same, kept) ↦ same u' ∙ elim (outputs_at db txid tx.vout 0 j) [
            | inl (n, key, cleared) ↦ cleared u ∙ sym (ap (db.get t) (sym key) ∙ fresh n)
            | inr (inserted, removed) ↦
                removed u
                ∙ agree j
                ∙ ap (λ (x : db.Table). db.get x j) e
                ∙ inserted t1 height false
                ∙ kept
          ]
        ],
      )

  -- Connecting a transaction keeps a table of coins.
  pub connect_spend-IsTable :
      (t : db.Table) (height : ℕ) (tx : Transaction) (t' : db.Table) (fee : ℤ) (undo : TxUndo)
      → IsTable db t
      → IsTransaction tx
      → height < 4294967296
      → connect_spend db sha verify svh t height tx ≡ ok (t', fee, undo)
      → IsTable db t'
  connect_spend-IsTable t height tx t' fee undo v w lt h =
      let (t1, a, b, spend, _, _, _, e, _) = connect_spend_inv t height tx t' fee undo h in
      let before : IsTable db t1 = λ k bytes g.
        elim (spend_shrinks db t height tx.vin (pos 0) t1 a undo.spent_outputs spend k) [
          | inl gone ↦ absurd (none-ne-some (sym gone ∙ g))
          | inr kept ↦ v k bytes (sym kept ∙ g)
        ] in
      subst (IsTable db) (sym e)
        (IsTable-insert_outputs db (txid_of sha tx) tx.vout t1 0 height false before w.vout lt)

  -- A transaction with another txid stays fresh.
  pub connect_spend-IsFresh :
      (t : db.Table) (height : ℕ) (tx : Transaction) (t' : db.Table) (fee : ℤ) (undo : TxUndo)
      (other : Transaction)
      → IsFresh db sha t other
      → txid_of sha other ≢ txid_of sha tx
      → connect_spend db sha verify svh t height tx ≡ ok (t', fee, undo)
      → IsFresh db sha t' other
  connect_spend-IsFresh t height tx t' fee undo other fresh differ h n =
      let (t1, a, b, spend, _, _, _, e, _) = connect_spend_inv t height tx t' fee undo h in
      let key = output_key (txid_of sha other) n in
      let gone : db.get t1 key ≡ none =
        elim (spend_shrinks db t height tx.vin (pos 0) t1 a undo.spent_outputs spend key) [
          | inl none_left ↦ none_left
          | inr kept ↦ kept ∙ fresh n
        ] in
      ap (λ (x : db.Table). db.get x key) e ∙ fresh_outputs tx other t1 height false n differ gone
