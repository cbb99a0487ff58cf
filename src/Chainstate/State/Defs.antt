-- ===== src/Chainstate/State/Defs.antt =====
-- The operations of `ChainState`.
use ironcat.Base.{
  ℕ, suc, ◌-◌, ◌*◌, ◌%◌, List, [], ◌∷◌, ◌++◌, Bool, true, false, not, ◌&&◌, ◌||◌, Option, some, leb,
  ltb, if◌then◌else◌, length,
}
use ironcat.Base.Int.{ℤ, pos, negsuc, ◌-ℤ◌, leb_ℤ, checked_add}
use ironcat.Base.Result.{Result, ok, err, ◌>>=◌, ◌>>◌, ensure, ok_or, and_then}
use ironcat.Network.Cursor.{Bytes, ParseError, to_le_bytes, from_unsigned, i64_half}
use ironcat.Types.Hash.{Hash256, Sha256}
use ironcat.Types.Transaction.{OutPoint, TxIn, TxOut, Transaction, txid_of, is_coinbase}
use ironcat.Validation.Subsidy.{get_block_subsidy}
use ironcat.Storage.Table.{TableOps}
use ironcat.Chainstate.Coin.{Coin, coin_to_bytes, coin_from_bytes}
use ironcat.Chainstate.Undo.{TxUndo}
use ironcat.Chainstate.UndoStore.{UndoError}

abbrev pub coinbase_maturity : ℕ
coinbase_maturity = 100

abbrev pub u32_max : ℕ
u32_max = 4294967295

pub data ConnectError : Type 0 where
  wrong_height no_transactions no_inputs missing_utxo malformed_coin immature_coinbase :
      ConnectError
  input_overflow script_failed output_overflow outputs_exceed_inputs : ConnectError
  fee_overflow coinbase_overflow subsidy_overflow coinbase_too_large : ConnectError
  genesis wrong_tip undo_missing undo_count missing_spent : ConnectError
  undo_failed : UndoError → ConnectError

-- The 36 bytes under which a coin is stored.
unfoldable pub outpoint_to_key : OutPoint → Bytes
outpoint_to_key o = o.txid ++ to_le_bytes 4 o.index

-- An integer cut to an i64, as arithmetic wraps in a release build.
unfoldable pub wrap_i64 : ℤ → ℤ
wrap_i64 (pos n) = from_unsigned i64_half (n % (2 * i64_half))
wrap_i64 (negsuc n) = from_unsigned i64_half (2 * i64_half - 1 - n % (2 * i64_half))

-- `try_fold(0, checked_add)` and the loops with `checked_add` over outputs.
unfoldable pub sum_from : ℤ → List TxOut → Option ℤ
sum_from acc [] = some acc
sum_from acc (o ∷ os) = and_then (checked_add acc o.value) (λ s. sum_from s os)

unfoldable pub sum_outputs : List TxOut → Option ℤ
unfolding sum_from
sum_outputs os = sum_from (pos 0) os

-- A coin of a coinbase can be spent from 100 blocks on.
unfoldable pub is_mature : Coin → ℕ → Bool
is_mature c height = not c.is_coinbase || leb coinbase_maturity (height - c.height)

-- `verify_script` on every input of a transaction with the coin that it spends. The verifier takes
-- the script of the input, that of the coin, the transaction and the input's position.
abbrev pub Verifier : Type 0
Verifier = Bytes → Bytes → Transaction → ℕ → Bool

unfoldable pub verify_inputs : Verifier → Transaction → List TxIn → List Coin → ℕ → Bool
verify_inputs verify tx (i ∷ is) (c ∷ cs) idx =
    verify i.script_sig c.tx_out.script_pubkey tx idx && verify_inputs verify tx is cs (suc idx)
verify_inputs verify tx _ _ idx = true

module _ (db : TableOps Bytes) where
  -- The outputs from position `idx` on.
  unfoldable pub insert_outputs : db.Table → Hash256 → List TxOut → ℕ → ℕ → Bool → db.Table
  insert_outputs t txid [] idx height coinbase = t
  insert_outputs t txid (o ∷ os) idx height coinbase =
      let key = outpoint_to_key (record { txid = txid; index = idx % 4294967296 }) in
      let coin : Coin = record { tx_out = o; height = height; is_coinbase = coinbase } in
      insert_outputs (db.insert t key (coin_to_bytes coin)) txid os (suc idx) height coinbase

  abbrev pub stored : Result ParseError Coin → Result ConnectError Coin
  stored (ok c) = ok c
  stored (err e) = err malformed_coin

  -- The coin that an input spends, if it can be spent at this height.
  unfoldable pub find_coin : db.Table → ℕ → TxIn → Result ConnectError Coin
  find_coin t height i = ok_or (db.get t (outpoint_to_key i.prev_output)) missing_utxo >>= λ bytes.
      stored (coin_from_bytes bytes) >>= λ c. ensure (is_mature c height) immature_coinbase >> ok c

  -- Every input in turn: its coin is read, added to the sum, and removed from the table.
  unfoldable pub spend_inputs :
      db.Table → ℕ → List TxIn → ℤ → Result ConnectError (db.Table × ℤ × List Coin)
  spend_inputs t height [] sum = ok (t, sum, [])
  spend_inputs t height (i ∷ is) sum = find_coin t height i >>= λ c.
      ok_or (checked_add sum c.tx_out.value) input_overflow >>= λ sum'.
      spend_inputs (db.remove t (outpoint_to_key i.prev_output)) height is sum'
      >>= λ (t', total, cs). ok (t', total, c ∷ cs)

module _ (db : TableOps Bytes) (sha : Sha256) (verify : Verifier) (script_verify_height : ℕ) where
  unfoldable pub check_scripts : Transaction → ℕ → List Coin → Bool
  check_scripts tx height spent =
      if ltb script_verify_height height then verify_inputs verify tx tx.vin spent 0 else true

  -- A transaction that is no coinbase: the new table, its fee, and what it spent.
  unfoldable pub connect_spend :
      db.Table → ℕ → Transaction → Result ConnectError (db.Table × ℤ × TxUndo)
  connect_spend t height tx =
      ensure (ltb 0 (length tx.vin)) no_inputs
      >> spend_inputs db t height tx.vin (pos 0)
      >>= λ (t', input_sum, spent).
          ensure (check_scripts tx height spent) script_failed
          >> ok_or (sum_outputs tx.vout) output_overflow
          >>= λ output_sum.
              ensure (leb_ℤ output_sum input_sum) outputs_exceed_inputs
              >> ok (
                insert_outputs db t' (txid_of sha tx) tx.vout 0 height false,
                wrap_i64 (input_sum -ℤ output_sum),
                record { spent_outputs = spent },
              )

  -- The loop over the transactions, from the fees so far.
  unfoldable pub connect_txs :
      db.Table → ℕ → List Transaction → ℤ → Result ConnectError (db.Table × ℤ × List TxUndo)
  connect_txs t height [] fees = ok (t, fees, [])
  connect_txs t height (tx ∷ txs) fees =
      let as_coinbase =
        connect_txs (insert_outputs db t (txid_of sha tx) tx.vout 0 height true) height txs fees in
      let as_spend = connect_spend t height tx >>= λ (t', fee, undo).
      ok_or (checked_add fees fee) fee_overflow >>= λ fees'.
      connect_txs t' height txs fees' >>= λ (t'', total, undos). ok (t'', total, undo ∷ undos) in
      if is_coinbase tx then as_coinbase else as_spend

  -- What the first transaction pays is at most the subsidy and the fees.
  unfoldable pub check_coinbase_value : ℕ → List Transaction → ℤ → Result ConnectError (Unit {0})
  check_coinbase_value height [] fees = ok tt
  check_coinbase_value height (coinbase ∷ txs) fees =
      ok_or (sum_outputs coinbase.vout) coinbase_overflow >>= λ coinbase_value.
      ok_or (checked_add (get_block_subsidy height) fees) subsidy_overflow >>= λ max_coinbase.
      ensure (leb_ℤ coinbase_value max_coinbase) coinbase_too_large
