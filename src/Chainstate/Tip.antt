-- ===== src/Chainstate/Tip.antt =====
-- The tip that is kept in memory and the one that META holds.
use ironcat.Base.{
  ℕ, ◌-◌, ◌<◌, ◌≡◌, refl, sym, ◌∙◌, true, not, ◌&&◌, ◌==◌, ==_iff, some, length, arith,
}
use ironcat.Base.Result.{ok, ◌>>◌, ensure, >>=-eq-ok, ok-injective}
use ironcat.Network.Cursor.{Bytes, to_le_bytes, length-to_le_bytes, from_le_bytes-to_le_bytes}
use ironcat.Types.Hash.{Hash256, IsHash, Sha256, bytes_eq}
use ironcat.Types.Block.{Block}
use ironcat.Storage.Table.{TableOps}
use ironcat.Chainstate.State.{
  genesis, wrong_tip, Verifier, tip_key, tip_height_key, tip_of, tip_height_of, load_tip, write_tip,
  ChainState, move_tip, undo_for, disconnect_txs, connect_block, disconnect_block,
}
use ironcat.Chainstate.Restore.Connected.{connect_block_inv}

module _ (db : TableOps Bytes) where
  load_tip-write_tip :
      (meta : db.Table) (hash : Hash256) (height : ℕ)
      → IsHash hash
      → height < 4294967296
      → load_tip db (write_tip db meta hash height) ≡ (hash, height)
  unfolding load_tip write_tip tip_of tip_height_of
  load_tip-write_tip meta hash height h lt =
      let first : db.get
            (db.insert (db.insert meta tip_key hash) tip_height_key (to_le_bytes 4 height)) tip_key
          ≡ some hash =
        db.get-insert _ _ _ _ ∙ db.get-insert _ _ _ _ in
      let second : db.get
            (db.insert (db.insert meta tip_key hash) tip_height_key (to_le_bytes 4 height))
            tip_height_key
          ≡ some (to_le_bytes 4 height) =
        db.get-insert _ _ _ _ in
      let size : (length hash == 32) ≡ true = (==_iff _ _).1 h in
      let four : (length (to_le_bytes 4 height) == 4) ≡ true =
        (==_iff _ _).1 (length-to_le_bytes 4 height) in
      rw (first, second, size, four) (rw (from_le_bytes-to_le_bytes 4 height (omega arith)) refl)

-- The tip in memory, and that it is what a restart would load.
pub record IsTip (db : TableOps Bytes) (index : TableOps (ℕ × ℕ × ℕ)) (s : ChainState db index)
    (hash : Hash256) (height : ℕ) : Type 0 where
  pub tip : s.tip ≡ hash
  pub tip_height : s.tip_height ≡ height
  pub persisted : load_tip db s.meta ≡ (hash, height)

module _ (db : TableOps Bytes) (index : TableOps (ℕ × ℕ × ℕ)) (sha : Sha256) (verify : Verifier)
    (svh : ℕ) where
  move_tip-IsTip :
      (s : ChainState db index) (t : db.Table) (hash : Hash256) (height : ℕ)
      → IsHash hash
      → height < 4294967296
      → IsTip db index (move_tip db index s t hash height) hash height
  unfolding move_tip
  move_tip-IsTip s t hash height h lt = record {
    tip = refl;
    tip_height = refl;
    persisted = load_tip-write_tip db s.meta hash height h lt;
  }

  disconnect_block_inv :
      (s s' : ChainState db index) (block : Block) (height : ℕ) (hash : Hash256)
      → disconnect_block db index sha s block height hash ≡ ok s'
      → (t : db.Table) × (s' ≡ move_tip db index s t block.header.prev_hash (height - 1))
  unfolding disconnect_block
  disconnect_block_inv s s' block height hash h =
      let checks =
        ensure (not (height == 0)) genesis
        >> ensure (bytes_eq hash s.tip && height == s.tip_height) wrong_tip in
      let (undo, p, h1) = >>=-eq-ok (checks >> undo_for db index s block hash) _ h in
      let (t, q, h2) = >>=-eq-ok (disconnect_txs db sha s.utxos block.transactions 0 undo) _ h1 in
      (t, sym (ok-injective h2))

  -- After a block of a 32-byte hash at a height of 32 bits is connected, the tip in memory is that
  -- block, and `open` would load the same tip; after it is disconnected, both are its parent.
  pub connect_disconnect-IsTip :
      (s s' s'' : ChainState db index) (block : Block) (height : ℕ) (hash : Hash256)
      → IsHash hash
      → IsHash block.header.prev_hash
      → height < 4294967296
      → connect_block db index sha verify svh s block height hash ≡ ok s'
      → disconnect_block db index sha s' block height hash ≡ ok s''
      → IsTip db index s' hash height × IsTip db index s'' block.header.prev_hash (height - 1)
  connect_disconnect-IsTip s s' s'' block height hash hh hp lt c d =
      let k = connect_block_inv db index sha verify svh s block height hash s' c in
      let (t, e) = disconnect_block_inv s' s'' block height hash d in
      (
        rw k.moved (move_tip-IsTip k.stored k.table hash height hh lt),
        rw e (move_tip-IsTip s' t block.header.prev_hash (height - 1) hp (omega arith)),
      )
