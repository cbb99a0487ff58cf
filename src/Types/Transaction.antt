-- ===== src/Types/Transaction.antt =====
-- types/transaction.rs: outpoints, inputs, outputs and transactions.
pub mod RoundTrip
use ironcat.Base.{
  ℕ, zero, suc, ◌≡◌, List, [], ◌∷◌, ◌++◌, Bool, true, false, ◌&&◌, ◌==◌, leb, ltb, if◌then◌else◌,
  length,
}
use ironcat.Base.Int.{ℤ}
use ironcat.Base.Result.{Result, ok, err}
use ironcat.Network.Cursor.{
  Bytes, Reader, ◌>>=◌, ◌>>◌, pure, require, to_le_bytes, read_exact, read_uint, i32_to_le_bytes,
  i64_to_le_bytes, read_i32, read_i64, read_many, write_all, ParseError, script_too_large,
  vin_count_too_large, vout_count_too_large, tx_too_large,
}
use ironcat.Network.Varint.{write_varint, decode_varint}
use ironcat.Types.Hash.{Hash256, zero_hash, hash_len, Sha256, double_sha256, bytes_eq}

abbrev pub max_script_size : ℕ
max_script_size = 10000

abbrev pub max_tx_size : ℕ
max_tx_size = 1000000

abbrev pub max_tx_in_out : ℕ
max_tx_in_out = 25000

pub record OutPoint : Type 0 where
  pub txid : Hash256
  pub index : ℕ

-- `OutPoint::COINBASE`, the null outpoint.
abbrev pub coinbase_outpoint : OutPoint
coinbase_outpoint = record { txid = zero_hash; index = 0xFFFF_FFFF }

unfoldable pub outpoint_eq : OutPoint → OutPoint → Bool
outpoint_eq a b = bytes_eq a.txid b.txid && a.index == b.index

unfoldable pub outpoint_to_bytes : OutPoint → Bytes
outpoint_to_bytes o = o.txid ++ to_le_bytes 4 o.index

unfoldable pub read_outpoint : Reader OutPoint
read_outpoint =
    read_exact hash_len >>= λ hash. read_uint 4 >>= λ i. pure (record { txid = hash; index = i })

pub record TxIn : Type 0 where
  pub prev_output : OutPoint
  pub script_sig : Bytes
  pub sequence : ℕ

unfoldable pub tx_in_to_bytes : TxIn → Bytes
tx_in_to_bytes i =
    outpoint_to_bytes i.prev_output
    ++ (write_varint (length i.script_sig) ++ (i.script_sig ++ to_le_bytes 4 i.sequence))

-- A length read from the wire, and that many bytes of script.
unfoldable pub read_script : Reader Bytes
read_script = decode_varint >>= λ script_len.
    require (leb script_len max_script_size) script_too_large >> read_exact script_len

unfoldable pub read_tx_in : Reader TxIn
read_tx_in = read_outpoint >>= λ o. read_script >>= λ script.
    read_uint 4 >>= λ n. pure (record { prev_output = o; script_sig = script; sequence = n })

pub record TxOut : Type 0 where
  pub value : ℤ
  pub script_pubkey : Bytes

unfoldable pub tx_out_to_bytes : TxOut → Bytes
tx_out_to_bytes o =
    i64_to_le_bytes o.value ++ (write_varint (length o.script_pubkey) ++ o.script_pubkey)

unfoldable pub read_tx_out : Reader TxOut
read_tx_out =
    read_i64 >>= λ v. read_script >>= λ script. pure (record { value = v; script_pubkey = script })

pub record Transaction : Type 0 where
  pub version : ℤ
  pub vin : List TxIn
  pub vout : List TxOut
  pub locktime : ℕ

unfoldable pub tx_to_bytes : Transaction → Bytes
tx_to_bytes tx =
    i32_to_le_bytes tx.version
    ++ (write_varint (length tx.vin)
        ++ (write_all tx_in_to_bytes tx.vin
            ++ (write_varint (length tx.vout)
                ++ (write_all tx_out_to_bytes tx.vout ++ to_le_bytes 4 tx.locktime))))

unfoldable pub read_vin : Reader (List TxIn)
read_vin = decode_varint >>= λ n.
    require (leb n max_tx_in_out) vin_count_too_large >> read_many n read_tx_in

unfoldable pub read_vout : Reader (List TxOut)
read_vout = decode_varint >>= λ n.
    require (leb n max_tx_in_out) vout_count_too_large >> read_many n read_tx_out

-- `Transaction::from_cursor`.
unfoldable pub read_tx : Reader Transaction
read_tx = read_i32 >>= λ v. read_vin >>= λ ins. read_vout >>= λ outs.
    read_uint 4 >>= λ t. pure (record { version = v; vin = ins; vout = outs; locktime = t })

-- `Transaction::from_bytes` does not look at what follows the transaction.
unfoldable pub tx_from_bytes : Bytes → Result ParseError Transaction
tx_from_bytes bytes =
    if ltb max_tx_size (length bytes)
    then err tx_too_large
    else elim (read_tx bytes) [ ok (tx, rest) ↦ ok tx | err e ↦ err e ]

unfoldable pub txid_of : Sha256 → Transaction → Hash256
txid_of sha tx = double_sha256 sha (tx_to_bytes tx)

abbrev pub single_null : List TxIn → Bool
single_null (i ∷ []) = outpoint_eq i.prev_output coinbase_outpoint
single_null _ = false

unfoldable pub is_coinbase : Transaction → Bool
is_coinbase tx = single_null tx.vin
