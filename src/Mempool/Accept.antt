-- ===== src/Mempool/Accept.antt =====
-- mempool/mod.rs: `accept_tx` and `readd_disconnected_txs`.
use ironcat.Base.{
  ℕ, zero, suc, ◌+◌, ◌-◌, ◌^◌, List, [], ◌∷◌, Bool, true, false, not, Option, none, some, leb, ltb,
  length, get_elem?, if◌then◌else◌, min,
}
use mathlib.Core.List.{reverse}
use ironcat.Base.Int.{ℤ, pos, ◌+ℤ◌, ◌-ℤ◌, leb_ℤ, to_ℕ, checked_add}
use ironcat.Base.Result.{Result, ok, err, ◌>>=◌, ◌>>◌, ensure, ok_or}
use ironcat.Types.Hash.{Hash256, Sha256}
use ironcat.Types.Transaction.{
  OutPoint, TxIn, TxOut, Transaction, txid_of, is_coinbase, tx_to_bytes,
}
use ironcat.Validation.Transaction.{TxError, check_transaction}
use ironcat.Chainstate.Coin.{Coin}
use ironcat.Chainstate.State.{ConnectError, Verifier, wrap_i64}
use ironcat.Mempool.{
  Floats, MempoolEntry, TxEntries, Mempool, find_tx, set_spends, max_relay_tx_size,
}
use ironcat.Mempool.Remove.{evict_if_needed}

pub data MempoolError : Type 0 where
  invalid_tx : TxError → MempoolError
  coins_failed : ConnectError → MempoolError
  coinbase_tx tx_above_limit already_in_mempool already_spent input_overflow : MempoolError
  no_such_output missing_input outputs_above_inputs low_fee script_failed : MempoolError

abbrev pub check_valid : Result TxError (Unit {0}) → Result MempoolError (Unit {0})
check_valid (ok u) = ok u
check_valid (err e) = err (invalid_tx e)

-- The output that an input spends: of a coin, or of a transaction of the pool.
abbrev pub from_parent : Option MempoolEntry → ℕ → Result MempoolError TxOut
from_parent none i = err missing_input
from_parent (some parent) i = ok_or (get_elem? parent.tx.vout i) no_such_output

abbrev pub resolve :
    Result ConnectError (Option Coin) → OutPoint → TxEntries → Result MempoolError TxOut
resolve (err e) o txs = err (coins_failed e)
resolve (ok (some c)) o txs = ok c.tx_out
resolve (ok none) o txs = from_parent (find_tx o.txid txs) o.index

abbrev pub is_some {ℓ} : {A : Type ℓ} → Option A → Bool
is_some none = false
is_some (some a) = true

-- `iter().sum()` on i64, which wraps in a release build.
unfoldable pub wrapping_sum : ℤ → List TxOut → ℤ
wrapping_sum acc [] = acc
wrapping_sum acc (o ∷ os) = wrapping_sum (wrap_i64 (acc +ℤ o.value)) os

-- The entry and the outpoints that it spends are added.
unfoldable pub insert_entry : Hash256 → MempoolEntry → Mempool → Mempool
insert_entry txid e m = record m {
  txs = (txid, e) ∷ m.txs;
  total_size = min (m.total_size + e.size) (2 ^ 64 - 1);
  spends = set_spends (some txid) e.tx.vin m.spends;
}

module _ (f : Floats) (sha : Sha256) (utxo : OutPoint → Result ConnectError (Option Coin))
    (verify : Verifier) where
  unfoldable pub resolve_input_value : OutPoint → Mempool → Result MempoolError ℤ
  resolve_input_value o m = resolve (utxo o) o m.txs >>= λ out. ok out.value

  -- The loop over the inputs, from the sum so far.
  unfoldable pub sum_inputs : Mempool → ℤ → List TxIn → Result MempoolError ℤ
  sum_inputs m acc [] = ok acc
  sum_inputs m acc (i ∷ is) =
      ensure (not (is_some (m.spends i.prev_output))) already_spent
      >> resolve_input_value i.prev_output m
      >>= λ value. ok_or (checked_add acc value) input_overflow >>= λ sum. sum_inputs m sum is

  unfoldable pub check_input_scripts :
      Mempool → Transaction → ℕ → List TxIn → Result MempoolError (Unit {0})
  check_input_scripts m tx idx [] = ok tt
  check_input_scripts m tx idx (i ∷ is) =
      resolve (utxo i.prev_output) i.prev_output m.txs >>= λ out.
      ensure (verify i.script_sig out.script_pubkey tx idx) script_failed
      >> check_input_scripts m tx (suc idx) is

  -- The checks, and the fee.
  unfoldable pub check_accept : Transaction → Mempool → Result MempoolError ℕ
  check_accept tx m =
      check_valid (check_transaction tx)
      >> ensure (not (is_coinbase tx)) coinbase_tx
      >> ensure (leb (length (tx_to_bytes tx)) max_relay_tx_size) tx_above_limit
      >> ensure (not (is_some (find_tx (txid_of sha tx) m.txs))) already_in_mempool
      >> sum_inputs m (pos 0) tx.vin
      >>= λ input_sum.
          let output_sum = wrapping_sum (pos 0) tx.vout in
          let fee = to_ℕ (wrap_i64 (input_sum -ℤ output_sum)) in
          ensure (leb_ℤ output_sum input_sum) outputs_above_inputs
          >> ensure (not (f.below_minimum (f.rate_of fee (length (tx_to_bytes tx))))) low_fee
          >> check_input_scripts m tx 0 tx.vin
          >> ok fee

  unfoldable pub accept_tx : Transaction → Mempool → Result MempoolError (Hash256 × Mempool)
  accept_tx t m = check_accept t m >>= λ paid.
      let e : MempoolEntry = record { tx = t; fee = paid; size = length (tx_to_bytes t) } in
      ok (txid_of sha t, evict_if_needed f (insert_entry (txid_of sha t) e m))

  abbrev pub retry :
      Result MempoolError (Hash256 × Mempool)
      → Transaction
      → ℕ × List Transaction × Mempool
      → ℕ × List Transaction × Mempool
  retry (ok r) t so_far = (min (so_far.0 + 1) (2 ^ 32 - 1), so_far.1, r.1)
  retry (err e) t so_far = (so_far.0, t ∷ so_far.1, so_far.2)

  -- One pass over what is pending: how many were added, and what remains, the last one first.
  unfoldable pub readd_pass :
      List Transaction → ℕ × List Transaction × Mempool → ℕ × List Transaction × Mempool
  readd_pass [] so_far = so_far
  readd_pass (t ∷ ts) so_far = readd_pass ts (retry (accept_tx t so_far.2) t so_far)

  -- Passes until none adds anything. One that adds something leaves fewer pending.
  unfoldable pub readd_loop : ℕ → ℕ → List Transaction → Mempool → ℕ × Mempool
  readd_loop zero added pending m = (added, m)
  readd_loop (suc fuel) added pending m =
      let r = readd_pass pending (added, [], m) in
      let rest = readd_loop fuel r.0 (reverse r.1) r.2 in
      if ltb (length r.1) (length pending) then rest else (r.0, r.2)

  abbrev pub without_coinbases : List Transaction → List Transaction
  without_coinbases [] = []
  without_coinbases (t ∷ ts) =
      if is_coinbase t then without_coinbases ts else t ∷ without_coinbases ts

  unfoldable pub readd_disconnected_txs : List Transaction → Mempool → ℕ × Mempool
  readd_disconnected_txs txs m =
      let pending = without_coinbases txs in readd_loop (length pending) 0 pending m
