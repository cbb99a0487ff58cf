-- ===== src/Types/Transaction/RoundTrip.antt =====
-- The readers of types/transaction.rs undo its writers.
use ironcat.Base.{
  ◌≡◌, ◌<◌, ◌≤◌, List, [], ◌++◌, Bool, true, false, length, All, arith, append_assoc, append-nil,
  refl, le→leb, le→ltb_false,
}
use ironcat.Base.Int.{IsI32, IsI64}
use ironcat.Base.Result.{ok}
use ironcat.Network.Cursor.{
  Bytes, Reader, ◌>>=◌, ◌>>◌, pure, require, write_all, ParseError, step, read_exact-append,
  read_uint-to_le_bytes, read_i32-i32_to_le_bytes, read_i64-i64_to_le_bytes, read_many-write_all,
}
use ironcat.Network.Varint.{write_varint}
use ironcat.Network.Varint.RoundTrip.{decode_varint-write_varint}
use ironcat.Types.Hash.{IsHash}
use ironcat.Types.Transaction.{
  OutPoint, TxIn, TxOut, Transaction, outpoint_to_bytes, read_outpoint, tx_in_to_bytes, read_script,
  read_tx_in, tx_out_to_bytes, read_tx_out, tx_to_bytes, read_vin, read_vout, read_tx,
  tx_from_bytes, max_script_size, max_tx_in_out, max_tx_size,
}

-- What the types of the source guarantee of a value, and the limits that a reader imposes.
pub record IsOutPoint (o : OutPoint) : Type 0 where
  pub txid : IsHash o.txid
  pub index : o.index < 4294967296

pub record IsTxIn (i : TxIn) : Type 0 where
  pub prev_output : IsOutPoint i.prev_output
  pub script_sig : length i.script_sig ≤ max_script_size
  pub sequence : i.sequence < 4294967296

pub record IsTxOut (o : TxOut) : Type 0 where
  pub value : IsI64 o.value
  pub script_pubkey : length o.script_pubkey ≤ max_script_size

pub record IsTransaction (tx : Transaction) : Type 0 where
  pub version : IsI32 tx.version
  pub vin_count : length tx.vin ≤ max_tx_in_out
  pub vin : All IsTxIn tx.vin
  pub vout_count : length tx.vout ≤ max_tx_in_out
  pub vout : All IsTxOut tx.vout
  pub locktime : tx.locktime < 4294967296

pub require_step :
    {A : Type 0} (b : Bool) (e : ParseError) (m : Reader A) (s : Bytes)
    → b ≡ true
    → (require b e >> m) s ≡ m s
unfolding require ◌>>=◌
require_step true e m s h = refl
require_step false e m s h = cc

pub read_outpoint-outpoint_to_bytes :
    (o : OutPoint) (rest : Bytes)
    → IsOutPoint o
    → read_outpoint (outpoint_to_bytes o ++ rest) ≡ ok (o, rest)
unfolding read_outpoint outpoint_to_bytes pure
read_outpoint-outpoint_to_bytes o rest h = rw append_assoc (
    step _ _ (read_exact-append 32 o.txid _ h.txid)
      (step _ _ (read_uint-to_le_bytes 4 o.index rest (omega (arith, h.index))) refl))

read_script_lem :
    (script rest : Bytes)
    → length script ≤ max_script_size
    → read_script (write_varint (length script) ++ (script ++ rest)) ≡ ok (script, rest)
unfolding read_script
read_script_lem script rest h =
    step _ _ (decode_varint-write_varint (length script) _ (omega arith))
      (rw (require_step _ _ _ _ (le→leb _ _ h)) (read_exact-append _ script rest refl))

pub read_tx_in-tx_in_to_bytes :
    (i : TxIn) (rest : Bytes) → IsTxIn i → read_tx_in (tx_in_to_bytes i ++ rest) ≡ ok (i, rest)
unfolding read_tx_in tx_in_to_bytes pure
read_tx_in-tx_in_to_bytes i rest h = simp append_assoc (
    step _ _ (read_outpoint-outpoint_to_bytes i.prev_output _ h.prev_output) (
      step _ _ (read_script_lem i.script_sig _ h.script_sig)
        (step _ _ (read_uint-to_le_bytes 4 i.sequence rest (omega (arith, h.sequence))) refl)))

pub read_tx_out-tx_out_to_bytes :
    (o : TxOut) (rest : Bytes) → IsTxOut o → read_tx_out (tx_out_to_bytes o ++ rest) ≡ ok (o, rest)
unfolding read_tx_out tx_out_to_bytes pure
read_tx_out-tx_out_to_bytes o rest h = simp append_assoc (
    step _ _ (read_i64-i64_to_le_bytes o.value _ h.value)
      (step _ _ (read_script_lem o.script_pubkey rest h.script_pubkey) refl))

read_vin_lem :
    (ins : List TxIn) (rest : Bytes)
    → length ins ≤ max_tx_in_out
    → All IsTxIn ins
    → read_vin (write_varint (length ins) ++ (write_all tx_in_to_bytes ins ++ rest))
      ≡ ok (ins, rest)
unfolding read_vin
read_vin_lem ins rest small h = step _ _ (decode_varint-write_varint (length ins) _ (omega arith)) (
    rw (require_step _ _ _ _ (le→leb _ _ small))
      (read_many-write_all IsTxIn read_tx_in tx_in_to_bytes read_tx_in-tx_in_to_bytes ins rest h))

read_vout_lem :
    (outs : List TxOut) (rest : Bytes)
    → length outs ≤ max_tx_in_out
    → All IsTxOut outs
    → read_vout (write_varint (length outs) ++ (write_all tx_out_to_bytes outs ++ rest))
      ≡ ok (outs, rest)
unfolding read_vout
read_vout_lem outs rest small h =
    step _ _ (decode_varint-write_varint (length outs) _ (omega arith)) (
      rw (require_step _ _ _ _ (le→leb _ _ small)) (
        read_many-write_all IsTxOut read_tx_out tx_out_to_bytes read_tx_out-tx_out_to_bytes outs
          rest h))

-- A transaction within the limits is read back from its bytes, and what follows it is left.
pub read_tx-tx_to_bytes :
    (tx : Transaction) (rest : Bytes)
    → IsTransaction tx
    → read_tx (tx_to_bytes tx ++ rest) ≡ ok (tx, rest)
unfolding read_tx tx_to_bytes pure
read_tx-tx_to_bytes tx rest h = simp append_assoc (
    step _ _ (read_i32-i32_to_le_bytes tx.version _ h.version) (
      step _ _ (read_vin_lem tx.vin _ h.vin_count h.vin) (
        step _ _ (read_vout_lem tx.vout _ h.vout_count h.vout)
          (step _ _ (read_uint-to_le_bytes 4 tx.locktime rest (omega (arith, h.locktime))) refl))))

-- `from_bytes` undoes `to_bytes` on a transaction within the limits of at most MAX_TX_SIZE bytes.
pub tx_from_bytes-tx_to_bytes :
    (tx : Transaction)
    → IsTransaction tx
    → length (tx_to_bytes tx) ≤ max_tx_size
    → tx_from_bytes (tx_to_bytes tx) ≡ ok tx
unfolding tx_from_bytes
tx_from_bytes-tx_to_bytes tx h small =
    let whole : read_tx (tx_to_bytes tx) ≡ ok (tx, []) =
      rw append-nil at (read_tx-tx_to_bytes tx [] h) in
    rw (le→ltb_false max_tx_size (length (tx_to_bytes tx)) small) (rw whole)
