-- ===== src/Validation/Transaction.antt =====
-- validation/transaction.rs: the rules for a transaction by itself.
pub mod Rules
pub mod Accepts
use ironcat.Base.{
  ℕ, List, [], ◌∷◌, Bool, true, false, not, ◌&&◌, ◌||◌, Option, none, some, ltb, leb, if◌then◌else◌,
  length,
}
use ironcat.Base.Int.{ℤ, pos, ltb_ℤ, leb_ℤ}
use ironcat.Base.Result.{Result, ok, err, ◌>>=◌, ◌>>◌, ensure}
use ironcat.Types.Transaction.{
  OutPoint, coinbase_outpoint, outpoint_eq, TxIn, TxOut, Transaction, is_coinbase,
}
use ironcat.Validation.Subsidy.{max_money}
use ironcat.Chainstate.State.{sum_outputs}

abbrev pub max_coinbase_script_sig : ℕ
max_coinbase_script_sig = 100

abbrev pub min_coinbase_script_sig : ℕ
min_coinbase_script_sig = 2

pub data TxError : Type 0 where
  no_inputs no_outputs negative_value value_too_large total_too_large : TxError
  duplicate_inputs coinbase_script_length null_prevout : TxError

-- Each output in turn.
unfoldable pub check_values : List TxOut → Result TxError (Unit {0})
check_values [] = ok tt
check_values (o ∷ os) =
    ensure (not (ltb_ℤ o.value (pos 0))) negative_value
    >> (ensure (leb_ℤ o.value (pos max_money)) value_too_large >> check_values os)

-- `filter(|&sum| sum <= MAX_MONEY)` of the checked sum.
abbrev pub within_max_money : Option ℤ → Bool
within_max_money none = false
within_max_money (some sum) = leb_ℤ sum (pos max_money)

unfoldable pub is_in : OutPoint → List OutPoint → Bool
is_in o [] = false
is_in o (p ∷ ps) = outpoint_eq o p || is_in o ps

-- The set of outpoints seen so far is a list.
unfoldable pub check_distinct : List OutPoint → List TxIn → Result TxError (Unit {0})
unfolding is_in
check_distinct seen [] = ok tt
check_distinct seen (i ∷ is) =
    ensure (not (is_in i.prev_output seen)) duplicate_inputs
    >> check_distinct (i.prev_output ∷ seen) is

abbrev pub script_length_fits : List TxIn → Bool
script_length_fits [] = true
script_length_fits (i ∷ is) =
    leb min_coinbase_script_sig (length i.script_sig)
    && leb (length i.script_sig) max_coinbase_script_sig

unfoldable pub check_prevouts : List TxIn → Result TxError (Unit {0})
check_prevouts [] = ok tt
check_prevouts (i ∷ is) =
    ensure (not (outpoint_eq i.prev_output coinbase_outpoint)) null_prevout >> check_prevouts is

unfoldable pub check_by_kind : Transaction → Result TxError (Unit {0})
check_by_kind tx =
    if is_coinbase tx
    then ensure (script_length_fits tx.vin) coinbase_script_length
    else check_prevouts tx.vin

unfoldable pub check_transaction : Transaction → Result TxError (Unit {0})
check_transaction tx =
    ensure (ltb 0 (length tx.vin)) no_inputs
    >> (ensure (ltb 0 (length tx.vout)) no_outputs
        >> (check_values tx.vout
            >> (ensure (within_max_money (sum_outputs tx.vout)) total_too_large
                >> (check_distinct [] tx.vin >> check_by_kind tx))))
