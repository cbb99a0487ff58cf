-- ===== src/Chainstate/Coin.antt =====
-- chainstate/coin.rs: a coin of the UTXO set and its stored form.
pub mod RoundTrip
use ironcat.Base.{ℕ, ◌%◌, [], ◌∷◌, ◌++◌, Bool, true, false, not, ◌==◌, if◌then◌else◌, length}
use ironcat.Base.Result.{Result, ok, err}
use ironcat.Network.Cursor.{
  Bytes, Reader, ◌>>=◌, pure, to_le_bytes, read_exact, read_uint, i64_to_le_bytes, read_i64,
  ParseError,
}
use ironcat.Types.Transaction.{TxOut}
use ironcat.Types.Block.{value_of}

pub record Coin : Type 0 where
  pub tx_out : TxOut
  pub height : ℕ
  pub is_coinbase : Bool

unfoldable pub coin_to_bytes : Coin → Bytes
coin_to_bytes c =
    to_le_bytes 4 c.height
    ++ ((if c.is_coinbase then 1 ∷ [] else 0 ∷ [])
        ++ (i64_to_le_bytes c.tx_out.value
            ++ (to_le_bytes 4 (length c.tx_out.script_pubkey % 4294967296)
                ++ c.tx_out.script_pubkey)))

-- `Coin::from_cursor`.
unfoldable pub read_coin : Reader Coin
read_coin = read_uint 4 >>= λ h. read_uint 1 >>= λ flag. read_i64 >>= λ v.
    read_uint 4 >>= λ script_len. read_exact script_len >>= λ script. pure (record {
      tx_out = record { value = v; script_pubkey = script };
      height = h;
      is_coinbase = not (flag == 0);
    })

unfoldable pub coin_from_bytes : Bytes → Result ParseError Coin
coin_from_bytes bytes = value_of (read_coin bytes)
