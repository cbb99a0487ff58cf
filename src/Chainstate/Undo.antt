-- ===== src/Chainstate/Undo.antt =====
-- chainstate/undo.rs: the coins that a block spent, and their stored form.
pub mod RoundTrip
use ironcat.Base.{ℕ, ◌%◌, List, [], ◌∷◌, ◌++◌, Bool, ltb, if◌then◌else◌, length, take, drop}
use ironcat.Base.Result.{Result, ok, err}
use ironcat.Network.Cursor.{
  Bytes, Reader, ◌>>=◌, pure, to_le_bytes, read_uint, read_many, write_all, ParseError,
  entry_past_end,
}
use ironcat.Types.Block.{value_of}
use ironcat.Chainstate.Coin.{Coin, coin_to_bytes, coin_from_bytes}

pub record TxUndo : Type 0 where
  pub spent_outputs : List Coin

pub record BlockUndo : Type 0 where
  pub tx_undos : List TxUndo

-- A length of four bytes, and the entry.
unfoldable pub framed : Bytes → Bytes
framed entry = to_le_bytes 4 (length entry % 4294967296) ++ entry

module _ {A : Type 0} where
  abbrev pub resume : Result ParseError A → Bytes → Result ParseError (A × Bytes)
  resume (ok a) rest = ok (a, rest)
  resume (err e) rest = err e

  -- The entry is cut out of the buffer by its length and parsed by itself; the cursor goes on
  -- behind it, whatever the parser left over.
  unfoldable pub cut : (Bytes → Result ParseError A) → ℕ → Reader A
  cut parse len s =
      if ltb (length s) len then err entry_past_end else resume (parse (take len s)) (drop len s)

  unfoldable pub read_framed : (Bytes → Result ParseError A) → Reader A
  unfolding cut
  read_framed parse = read_uint 4 >>= cut parse

abbrev pub framed_coin : Coin → Bytes
framed_coin c = framed (coin_to_bytes c)

unfoldable pub tx_undo_to_bytes : TxUndo → Bytes
tx_undo_to_bytes u =
    to_le_bytes 4 (length u.spent_outputs % 4294967296) ++ write_all framed_coin u.spent_outputs

unfoldable pub read_tx_undo : Reader TxUndo
read_tx_undo = read_uint 4 >>= λ n.
    read_many n (read_framed coin_from_bytes) >>= λ coins. pure (record { spent_outputs = coins })

unfoldable pub tx_undo_from_bytes : Bytes → Result ParseError TxUndo
tx_undo_from_bytes bytes = value_of (read_tx_undo bytes)

abbrev pub framed_tx_undo : TxUndo → Bytes
framed_tx_undo u = framed (tx_undo_to_bytes u)

unfoldable pub block_undo_to_bytes : BlockUndo → Bytes
block_undo_to_bytes u =
    to_le_bytes 4 (length u.tx_undos % 4294967296) ++ write_all framed_tx_undo u.tx_undos

unfoldable pub read_block_undo : Reader BlockUndo
read_block_undo = read_uint 4 >>= λ n.
    read_many n (read_framed tx_undo_from_bytes) >>= λ undos. pure (record { tx_undos = undos })

unfoldable pub block_undo_from_bytes : Bytes → Result ParseError BlockUndo
block_undo_from_bytes bytes = value_of (read_block_undo bytes)
