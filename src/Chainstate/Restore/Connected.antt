-- ===== src/Chainstate/Restore/Connected.antt =====
-- What a successful `connect_block` has checked and done.
use ironcat.Base.{ℕ, ◌+◌, ◌≡◌, sym, List, ltb, ◌==◌, ==_iff, length, min}
use ironcat.Base.Int.{ℤ, pos}
use ironcat.Base.Result.{ok, ◌>>◌, ensure, >>=-eq-ok, >>-eq-ok, ensure_then, ok-injective}
use ironcat.Network.Cursor.{Bytes}
use ironcat.Types.Hash.{Hash256, Sha256}
use ironcat.Types.Block.{Block}
use ironcat.Storage.Table.{TableOps}
use ironcat.Chainstate.Undo.{TxUndo}
use ironcat.Chainstate.State.{
  wrong_height, no_transactions, u32_max, Verifier, connect_txs, check_coinbase_value, ChainState,
  store_undo, move_tip, connect_block,
}

-- The steps of a block that was connected.
pub record Connected (db : TableOps Bytes) (index : TableOps (ℕ × ℕ × ℕ)) (sha : Sha256)
    (verify : Verifier) (svh : ℕ) (s : ChainState db index) (block : Block) (height : ℕ)
    (hash : Hash256) (s' : ChainState db index) : Type 0 where
  pub next_height : height ≡ min (s.tip_height + 1) u32_max
  pub table : db.Table
  pub fees : ℤ
  pub undos : List TxUndo
  pub run :
      connect_txs db sha verify svh s.utxos height block.transactions (pos 0)
      ≡ ok (table, fees, undos)
  pub coinbase : check_coinbase_value db sha verify svh height block.transactions fees ≡ ok tt
  pub stored : ChainState db index
  pub store : store_undo db index s hash undos ≡ ok stored
  pub moved : s' ≡ move_tip db index stored table hash height

module _ (db : TableOps Bytes) (index : TableOps (ℕ × ℕ × ℕ)) (sha : Sha256) (verify : Verifier)
    (svh : ℕ) where
  pub connect_block_inv :
      (s : ChainState db index) (block : Block) (height : ℕ) (hash : Hash256)
      (s' : ChainState db index)
      → connect_block db index sha verify svh s block height hash ≡ ok s'
      → Connected db index sha verify svh s block height hash s'
  unfolding connect_block
  connect_block_inv s block height hash s' h =
      let run = connect_txs db sha verify svh s.utxos height block.transactions (pos 0) in
      let first = ensure (height == min (s.tip_height + 1) u32_max) wrong_height in
      let second = ensure (ltb 0 (length block.transactions)) no_transactions in
      let ((t, fees, undos), p, h1) = >>=-eq-ok (first >> second >> run) _ h in
      let (c, p1) = >>-eq-ok (first >> second) run p in
      let (e, _) = ensure_then (height == min (s.tip_height + 1) u32_max) wrong_height second c in
      let (s1, q, h2) =
        >>=-eq-ok
          (check_coinbase_value db sha verify svh height block.transactions fees
            >> store_undo db index s hash undos)
          _ h1 in
      let (v, q1) =
        >>-eq-ok (check_coinbase_value db sha verify svh height block.transactions fees)
          (store_undo db index s hash undos) q in
      record {
        next_height = (==_iff _ _).0 e;
        table = t;
        fees = fees;
        undos = undos;
        run = p1;
        coinbase = v;
        stored = s1;
        store = q1;
        moved = sym (ok-injective h2);
      }
