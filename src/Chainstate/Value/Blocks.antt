-- ===== src/Chainstate/Value/Blocks.antt =====
-- A connected block creates no money beyond its subsidy.
use ironcat.Base.{ℕ, ◌≡◌, refl, sym, ◌∙◌, ap, List, [], ◌∷◌, true, All, arith}
use mathlib.Core.Path.{subst}
use ironcat.Base.Int.{
  ℤ, pos, ◌+ℤ◌, ◌-ℤ◌, ◌≤ℤ◌, leb_ℤ, checked_add, checked_add-some, int_laws, parts_of_eq,
}
use ironcat.Base.Result.{ok, ok_or, >>=-eq-ok, ok_or-eq-ok, ensure-eq-ok, ok-injective}
use ironcat.Network.Cursor.{Bytes}
use ironcat.Types.Hash.{Hash256, Sha256}
use ironcat.Types.Transaction.{Transaction, is_coinbase}
use ironcat.Types.Block.{Block}
use ironcat.Validation.Subsidy.{get_block_subsidy}
use ironcat.Storage.Table.{TableOps}
use ironcat.Chainstate.Undo.{TxUndo}
use ironcat.Chainstate.State.{
  coinbase_overflow, subsidy_overflow, Verifier, sum_outputs, connect_txs, check_coinbase_value,
  connect_spend, ChainState, connect_block,
}
use ironcat.Chainstate.Value.Sums.{
  total_out, total_coins, IsNonNegative, total_out_nonneg, spend_inputs-total, sum_outputs_lem,
  fee_exact,
}
use ironcat.Chainstate.Restore.Transactions.{connect_spend_inv}
use ironcat.Chainstate.Restore.Runs.{IsSpend, connect_txs_inv}
use ironcat.Chainstate.Restore.WholeBlock.{connect_coinbase}
use ironcat.Chainstate.Restore.Connected.{connect_block_inv}

-- The outputs of all transactions, and the coins that the undo data records as spent.
unfoldable pub paid : List Transaction → ℤ
paid [] = pos 0
paid (tx ∷ txs) = total_out tx.vout +ℤ paid txs

unfoldable pub spent_value : List TxUndo → ℤ
spent_value [] = pos 0
spent_value (u ∷ us) = total_coins u.spent_outputs +ℤ spent_value us

module _ (db : TableOps Bytes) (sha : Sha256) (verify : Verifier) (svh : ℕ) where
  -- The fee of a transaction is what it spends less what it pays.
  connect_spend-fee :
      (t : db.Table) (height : ℕ) (tx : Transaction) (t' : db.Table) (fee : ℤ) (undo : TxUndo)
      → All IsNonNegative tx.vout
      → connect_spend db sha verify svh t height tx ≡ ok (t', fee, undo)
      → fee +ℤ total_out tx.vout ≡ total_coins undo.spent_outputs
  connect_spend-fee t height tx t' fee undo nonneg h =
      let (t1, a, b, spend, _, out, le, _, exact) =
        connect_spend_inv db sha verify svh t height tx t' fee undo h in
      let (ea, ia) =
        spend_inputs-total db t height tx.vin (pos 0) t1 a undo.spent_outputs (omega arith) spend in
      let (eb, ib) = sum_outputs_lem tx.vout b out in
      let low : pos 0 ≤ℤ b =
        subst (λ (x : ℤ). pos 0 ≤ℤ x) (sym eb) (total_out_nonneg tx.vout nonneg) in
      let plain : fee ≡ a -ℤ b = exact ∙ fee_exact a b ia low le in difference plain ea eb
    where
      difference : {a b : ℤ} {x y : ℤ} → fee ≡ a -ℤ b → a ≡ pos 0 +ℤ x → b ≡ y → fee +ℤ y ≡ x
      difference {a} {b} {x} {y} p q r = rw (p, q, r) (omega int_laws)

  connect_txs-fees :
      (t : db.Table) (height : ℕ) (txs : List Transaction) (fees : ℤ) (t' : db.Table) (total : ℤ)
      (undos : List TxUndo)
      → All IsSpend txs
      → All (λ tx. All IsNonNegative tx.vout) txs
      → connect_txs db sha verify svh t height txs fees ≡ ok (t', total, undos)
      → total +ℤ paid txs ≡ fees +ℤ spent_value undos
  unfolding paid spent_value
  connect_txs-fees t height [] fees t' total undos spends nonneg h =
      unfold connect_txs in
      subst (λ (y : db.Table × ℤ × List TxUndo). y.1 +ℤ pos 0 ≡ fees +ℤ spent_value y.2)
        (ok-injective h) refl
  connect_txs-fees t height (tx ∷ txs) fees t' total undos spends nonneg h =
      let (t1, fee, undo, fees', us, p, added, rest, e) =
        connect_txs_inv db sha verify svh t height tx txs fees t' total undos spends.0 h in
      let ih = connect_txs-fees t1 height txs fees' t' total us spends.1 nonneg.1 rest in
      let one = connect_spend-fee t height tx t1 fee undo nonneg.0 p in
      let (same, _) = checked_add-some fees fee fees' added in
      subst (λ l. total +ℤ (total_out tx.vout +ℤ paid txs) ≡ fees +ℤ spent_value l) (sym e)
        (combine total (paid txs) (total_out tx.vout) fees' fees fee (spent_value us)
          (total_coins undo.spent_outputs) ih one same)
    where
      combine :
          (tot p po f' f fe s c : ℤ)
          → tot +ℤ p ≡ f' +ℤ s
          → fe +ℤ po ≡ c
          → f' ≡ f +ℤ fe
          → tot +ℤ (po +ℤ p) ≡ f +ℤ (c +ℤ s)
      combine tot p po f' f fe s c a b d =
          omega (int_laws, parts_of_eq _ _ a, parts_of_eq _ _ b, parts_of_eq _ _ d)

  -- What the coinbase pays is at most the subsidy and the fees.
  coinbase_bound :
      (height : ℕ) (cb : Transaction) (txs : List Transaction) (fees : ℤ)
      → check_coinbase_value db sha verify svh height (cb ∷ txs) fees ≡ ok tt
      → total_out cb.vout ≤ℤ get_block_subsidy height +ℤ fees
  unfolding check_coinbase_value
  coinbase_bound height cb txs fees h =
      let (value, p, h1) = >>=-eq-ok (ok_or (sum_outputs cb.vout) coinbase_overflow) _ h in
      let (most, q, h2) =
        >>=-eq-ok (ok_or (checked_add (get_block_subsidy height) fees) subsidy_overflow) _ h1 in
      let (ev, _) = sum_outputs_lem cb.vout value (ok_or-eq-ok _ _ p) in
      let (em, _) = checked_add-some (get_block_subsidy height) fees most (ok_or-eq-ok _ _ q) in
      let le = ensure-eq-ok (leb_ℤ value most) _ h2 in
      subst (λ (x : ℤ). x ≤ℤ get_block_subsidy height +ℤ fees) ev
        (subst (λ (y : ℤ). value ≤ℤ y) em (bound value most le))
    where
      bound : (a b : ℤ) → leb_ℤ a b ≡ true → a ≤ℤ b
      bound a b e = ground arith

module _ (db : TableOps Bytes) (index : TableOps (ℕ × ℕ × ℕ)) (sha : Sha256) (verify : Verifier)
    (svh : ℕ) where
  -- A block of one coinbase and other transactions with no negative output that is connected: its
  -- outputs are worth at most the coins that its undo data records as spent and the subsidy of its
  -- height.
  pub connect_block-no_inflation :
      (s s' : ChainState db index) (block : Block) (height : ℕ) (hash : Hash256) (cb : Transaction)
      (txs : List Transaction) (t : db.Table) (fees : ℤ) (undos : List TxUndo)
      → block.transactions ≡ cb ∷ txs
      → is_coinbase cb ≡ true
      → All IsSpend txs
      → All (λ tx. All IsNonNegative tx.vout) txs
      → connect_txs db sha verify svh s.utxos height block.transactions (pos 0)
        ≡ ok (t, fees, undos)
      → connect_block db index sha verify svh s block height hash ≡ ok s'
      → paid block.transactions ≤ℤ spent_value undos +ℤ get_block_subsidy height
  unfolding paid
  connect_block-no_inflation s s' block height hash cb txs t fees undos shape first spends nonneg
        run h =
      let c = connect_block_inv db index sha verify svh s block height hash s' h in
      let same : fees ≡ c.fees =
        ap (λ (x : db.Table × ℤ × List TxUndo). x.1) (ok-injective (sym run ∙ c.run)) in
      let checked : check_coinbase_value db sha verify svh height (cb ∷ txs) fees ≡ ok tt =
        ap (λ l. check_coinbase_value db sha verify svh height l fees) (sym shape)
        ∙ ap (check_coinbase_value db sha verify svh height block.transactions) same
        ∙ c.coinbase in
      let first_le = coinbase_bound db sha verify svh height cb txs fees checked in
      let total =
        connect_txs-fees db sha verify svh _ height txs (pos 0) t fees undos spends nonneg (
          sym (connect_coinbase db sha verify svh s.utxos height cb txs (pos 0) first)
          ∙ ap (λ l. connect_txs db sha verify svh s.utxos height l (pos 0)) (sym shape)
          ∙ run) in
      subst (λ l. paid l ≤ℤ spent_value undos +ℤ get_block_subsidy height) (sym shape)
        (combine (total_out cb.vout) (paid txs) (spent_value undos) (get_block_subsidy height) fees
          first_le total)
    where
      combine : (o p v g f : ℤ) → o ≤ℤ g +ℤ f → f +ℤ p ≡ pos 0 +ℤ v → o +ℤ p ≤ℤ v +ℤ g
      combine o p v g f a b = omega (int_laws, a, parts_of_eq _ _ b)
