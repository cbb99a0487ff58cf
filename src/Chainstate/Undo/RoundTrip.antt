-- ===== src/Chainstate/Undo/RoundTrip.antt =====
-- Stored undo data is read back.
use ironcat.Base.{
  ◌<◌, ◌%◌, ◌≡◌, refl, [], ◌++◌, length, take-append, drop-append, length-append, le→ltb_false, All,
  arith, append_assoc, append-nil,
}
use ironcat.Base.Result.{Result, ok}
use ironcat.Network.Cursor.{
  Bytes, pure, ParseError, step, read_uint-to_le_bytes, read_many-write_all,
}
use ironcat.Chainstate.Coin.{Coin, coin_to_bytes, coin_from_bytes}
use ironcat.Chainstate.Coin.RoundTrip.{IsCoin, coin_from_bytes-coin_to_bytes}
use ironcat.Chainstate.Undo.{
  TxUndo, BlockUndo, framed, cut, read_framed, framed_coin, tx_undo_to_bytes, read_tx_undo,
  tx_undo_from_bytes, framed_tx_undo, block_undo_to_bytes, read_block_undo, block_undo_from_bytes,
}

-- A length that fits the four bytes of its prefix.
abbrev pub FitsU32 : Bytes → Type 0
FitsU32 b = length b < 4294967296

abbrev pub IsStoredCoin : Coin → Type 0
IsStoredCoin c = IsCoin c × FitsU32 (coin_to_bytes c)

pub record IsTxUndo (u : TxUndo) : Type 0 where
  pub count : length u.spent_outputs < 4294967296
  pub coins : All IsStoredCoin u.spent_outputs

abbrev pub IsStoredTxUndo : TxUndo → Type 0
IsStoredTxUndo u = IsTxUndo u × FitsU32 (tx_undo_to_bytes u)

pub record IsBlockUndo (u : BlockUndo) : Type 0 where
  pub count : length u.tx_undos < 4294967296
  pub undos : All IsStoredTxUndo u.tx_undos

module _ {A : Type 0} (parse : Bytes → Result ParseError A) (entry : Bytes) (a : A)
    (rest : Bytes) where
  cut_lem : parse entry ≡ ok a → cut parse (length entry) (entry ++ rest) ≡ ok (a, rest)
  unfolding cut
  cut_lem h =
      rw
        (le→ltb_false (length (entry ++ rest)) (length entry)
          (omega (arith, length-append entry rest)))
        (rw (take-append, drop-append, h))

  read_framed-framed :
      FitsU32 entry → parse entry ≡ ok a → read_framed parse (framed entry ++ rest) ≡ ok (a, rest)
  unfolding read_framed framed
  read_framed-framed small h =
      let fits : length entry % 4294967296 ≡ length entry = omega arith in
      rw (append_assoc, fits)
        (step _ _ (read_uint-to_le_bytes 4 (length entry) _ (omega arith)) (cut_lem h))

read_framed_coin :
    (c : Coin) (rest : Bytes)
    → IsStoredCoin c
    → read_framed coin_from_bytes (framed_coin c ++ rest) ≡ ok (c, rest)
read_framed_coin c rest (h, small) =
    read_framed-framed coin_from_bytes (coin_to_bytes c) c rest small
      (coin_from_bytes-coin_to_bytes c h)

read_tx_undo_lem :
    (u : TxUndo) (rest : Bytes)
    → IsTxUndo u
    → read_tx_undo (tx_undo_to_bytes u ++ rest) ≡ ok (u, rest)
unfolding read_tx_undo tx_undo_to_bytes pure
read_tx_undo_lem u rest h =
    let fits : length u.spent_outputs % 4294967296 ≡ length u.spent_outputs =
      omega (arith, h.count) in
    rw (append_assoc, fits)
      (step _ _ (read_uint-to_le_bytes 4 (length u.spent_outputs) _ (omega (arith, h.count))) (
        step _ _
          (read_many-write_all IsStoredCoin (read_framed coin_from_bytes) framed_coin
            read_framed_coin u.spent_outputs rest h.coins)
          refl))

pub tx_undo_from_bytes-tx_undo_to_bytes :
    (u : TxUndo) → IsTxUndo u → tx_undo_from_bytes (tx_undo_to_bytes u) ≡ ok u
unfolding tx_undo_from_bytes
tx_undo_from_bytes-tx_undo_to_bytes u h =
    let whole : read_tx_undo (tx_undo_to_bytes u) ≡ ok (u, []) =
      rw append-nil at (read_tx_undo_lem u [] h) in
    rw whole

read_framed_tx_undo :
    (u : TxUndo) (rest : Bytes)
    → IsStoredTxUndo u
    → read_framed tx_undo_from_bytes (framed_tx_undo u ++ rest) ≡ ok (u, rest)
read_framed_tx_undo u rest (h, small) =
    read_framed-framed tx_undo_from_bytes (tx_undo_to_bytes u) u rest small
      (tx_undo_from_bytes-tx_undo_to_bytes u h)

read_block_undo_lem :
    (u : BlockUndo) (rest : Bytes)
    → IsBlockUndo u
    → read_block_undo (block_undo_to_bytes u ++ rest) ≡ ok (u, rest)
unfolding read_block_undo block_undo_to_bytes pure
read_block_undo_lem u rest h =
    let fits : length u.tx_undos % 4294967296 ≡ length u.tx_undos = omega (arith, h.count) in
    rw (append_assoc, fits)
      (step _ _ (read_uint-to_le_bytes 4 (length u.tx_undos) _ (omega (arith, h.count))) (
        step _ _
          (read_many-write_all IsStoredTxUndo (read_framed tx_undo_from_bytes) framed_tx_undo
            read_framed_tx_undo u.tx_undos rest h.undos)
          refl))

-- The undo data of a block, whose parts fit their length prefixes, is read back from its bytes.
pub block_undo_from_bytes-block_undo_to_bytes :
    (u : BlockUndo) → IsBlockUndo u → block_undo_from_bytes (block_undo_to_bytes u) ≡ ok u
unfolding block_undo_from_bytes
block_undo_from_bytes-block_undo_to_bytes u h =
    let whole : read_block_undo (block_undo_to_bytes u) ≡ ok (u, []) =
      rw append-nil at (read_block_undo_lem u [] h) in
    rw whole
