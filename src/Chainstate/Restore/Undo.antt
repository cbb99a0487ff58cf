-- ===== src/Chainstate/Restore/Undo.antt =====
-- The undo data that `connect_block` stores is found again by `disconnect_block`.
use ironcat.Base.{ℕ, ◌<◌, ◌≡◌, refl, sym, List, [], ◌∷◌, true, length, All, arith}
use mathlib.Core.Path.{subst}
use ironcat.Base.Result.{Result, ok, err, ok-injective}
use ironcat.Network.Cursor.{Bytes}
use ironcat.Types.Hash.{Hash256, bytes_eq_refl}
use ironcat.Types.Transaction.{Transaction, is_coinbase}
use ironcat.Storage.Table.{TableOps}
use ironcat.Chainstate.Undo.{TxUndo, BlockUndo, block_undo_to_bytes}
use ironcat.Chainstate.Undo.RoundTrip.{IsBlockUndo}
use ironcat.Chainstate.UndoStore.{UndoStore, UndoLocation, UndoError, store_undo_to_file}
use ironcat.Chainstate.UndoStore.Recall.{IsStore, load_undo-store_undo_to_file}
use ironcat.Chainstate.State.{ChainState, undo_stored, store_undo, find_undo, non_coinbase_count}
use ironcat.Chainstate.Restore.Runs.{IsSpend}

-- Undo data that fits its length prefixes.
pub record FitsPrefixes (us : List TxUndo) : Type 0 where
  pub parts : IsBlockUndo (record { tx_undos = us })
  pub whole : length (block_undo_to_bytes (record { tx_undos = us })) < 4294967296

pub non_coinbase_count-spends :
    (txs : List Transaction) → All IsSpend txs → non_coinbase_count txs ≡ length txs
unfolding non_coinbase_count
non_coinbase_count-spends [] h = refl
non_coinbase_count-spends (tx ∷ txs) h = rw h.0 (omega (arith, non_coinbase_count-spends txs h.1))

pub non_coinbase_count-coinbase :
    (cb : Transaction) (txs : List Transaction)
    → is_coinbase cb ≡ true
    → non_coinbase_count (cb ∷ txs) ≡ non_coinbase_count txs
unfolding non_coinbase_count
non_coinbase_count-coinbase cb txs h = rw h (omega arith)

module _ (db : TableOps Bytes) (index : TableOps (ℕ × ℕ × ℕ)) where
  undo_stored_inv :
      (s : ChainState db index) (r : Result UndoError (UndoStore × UndoLocation))
      (s' : ChainState db index)
      → undo_stored db index s r ≡ ok s'
      → (store : UndoStore) × (loc : UndoLocation) × (r ≡ ok (store, loc))
        × (s' ≡ record s {
          undo_store = store;
          undo_index = index.insert s.undo_index loc.hash (loc.file_number, loc.offset, loc.size);
        })
  undo_stored_inv s (ok (store, loc)) s' h = (store, loc, refl, sym (ok-injective h))
  undo_stored_inv s (err e) s' h = cc

  pub find_undo-store_undo :
      (s s' : ChainState db index) (hash : Hash256) (u : TxUndo) (us : List TxUndo)
      → IsStore s.undo_store
      → FitsPrefixes (u ∷ us)
      → store_undo db index s hash (u ∷ us) ≡ ok s'
      → find_undo db index s' hash ≡ ok (record { tx_undos = u ∷ us })
  unfolding store_undo find_undo
  find_undo-store_undo s s' hash u us v fits h =
      let all : BlockUndo = record { tx_undos = u ∷ us } in
      let (store, loc, p, e) = undo_stored_inv s (store_undo_to_file s.undo_store hash all) s' h in
      let (found, _, named) =
        load_undo-store_undo_to_file s.undo_store hash all store loc v fits.parts fits.whole p in
      rw e (rw (index.get-insert, named, bytes_eq_refl hash) (rw found))

  -- Storing undo data changes neither the UTXO set, nor META, nor the tip.
  abbrev pub KeepsChain : ChainState db index → ChainState db index → Type 0
  KeepsChain s s' =
      (s'.utxos ≡ s.utxos) × (s'.meta ≡ s.meta) × (s'.tip ≡ s.tip) × (s'.tip_height ≡ s.tip_height)

  pub store_undo_keeps :
      (s s' : ChainState db index) (hash : Hash256) (us : List TxUndo)
      → store_undo db index s hash us ≡ ok s'
      → KeepsChain s s'
  unfolding store_undo
  store_undo_keeps s s' hash [] h = subst (KeepsChain s) (ok-injective h) (refl, refl, refl, refl)
  store_undo_keeps s s' hash (u ∷ us) h =
      let (store, loc, p, e) = undo_stored_inv s (store_undo_to_file s.undo_store hash _) s' h in
      subst (KeepsChain s) (sym e) (refl, refl, refl, refl)
