-- ===== src/Chainstate/Coin/RoundTrip.antt =====
-- A stored coin is read back.
use ironcat.Base.{
  ◌<◌, ◌%◌, ◌≡◌, [], ◌∷◌, ◌++◌, Bool, true, false, not, ◌==◌, if◌then◌else◌, length, arith,
  append_assoc, append-nil,
}
use ironcat.Base.Int.{IsI64}
use ironcat.Base.Result.{ok}
use ironcat.Network.Cursor.{
  Bytes, pure, to_le_bytes, read_uint, step, read_exact-append, read_uint-to_le_bytes,
  read_i64-i64_to_le_bytes,
}
use ironcat.Chainstate.Coin.{Coin, coin_to_bytes, read_coin, coin_from_bytes}

pub record IsCoin (c : Coin) : Type 0 where
  pub value : IsI64 c.tx_out.value
  pub script_pubkey : length c.tx_out.script_pubkey < 4294967296
  pub height : c.height < 4294967296

read_flag :
    (b : Bool) (rest : Bytes)
    → read_uint 1 ((if b then 1 ∷ [] else 0 ∷ []) ++ rest) ≡ ok ((if b then 1 else 0), rest)
unfolding to_le_bytes
read_flag true rest = read_uint-to_le_bytes 1 1 rest (omega arith)
read_flag false rest = read_uint-to_le_bytes 1 0 rest (omega arith)

rebuild :
    (c : Coin) (rest : Bytes)
    → pure (record c { is_coinbase = not ((if c.is_coinbase then 1 else 0) == 0) }) rest
      ≡ ok (c, rest)
unfolding pure
rebuild c rest = ground arith

-- A coin within the ranges of its fields is read back from its bytes, and what follows is left.
pub read_coin-coin_to_bytes :
    (c : Coin) (rest : Bytes) → IsCoin c → read_coin (coin_to_bytes c ++ rest) ≡ ok (c, rest)
unfolding read_coin coin_to_bytes
read_coin-coin_to_bytes c rest h =
    let fits : length c.tx_out.script_pubkey % 4294967296 ≡ length c.tx_out.script_pubkey =
      omega (arith, h.script_pubkey) in
    simp append_assoc (
      step _ _ (read_uint-to_le_bytes 4 c.height _ (omega (arith, h.height))) (
        step _ _ (read_flag c.is_coinbase _) (
          step _ _ (read_i64-i64_to_le_bytes c.tx_out.value _ h.value) (
            step _ _ (read_uint-to_le_bytes 4 _ _ (omega arith)) (
              step _ _ (read_exact-append _ c.tx_out.script_pubkey rest (omega arith))
                (rebuild c rest))))))

pub coin_from_bytes-coin_to_bytes : (c : Coin) → IsCoin c → coin_from_bytes (coin_to_bytes c) ≡ ok c
unfolding coin_from_bytes
coin_from_bytes-coin_to_bytes c h =
    let whole : read_coin (coin_to_bytes c) ≡ ok (c, []) =
      rw append-nil at (read_coin-coin_to_bytes c [] h) in
    rw whole
