-- ===== src/Chainstate/UndoStore/Stale.antt =====
-- Rotation in chainstate/undo_store.rs, when the next file is there already: the file is opened to
-- append, and the offset of the entry is taken to be 0.
use ironcat.Base.{
  ℕ, suc, ◌+◌, ◌≤◌, ◌<◌, ◌≡◌, refl, true, inl, inr, length, length-drop, take, drop, le→ltb_false,
  arith,
}
use ironcat.Base.Result.{ok}
use ironcat.Network.Cursor.{Bytes}
use ironcat.Types.Hash.{Hash256}
use ironcat.Chainstate.Undo.{BlockUndo, block_undo_to_bytes}
use ironcat.Chainstate.UndoStore.{
  UndoStore, UndoLocation, needs_rotation, next_file, entry_prefix_size, write_entry,
  store_undo_to_file, read_entry,
}
use ironcat.Chainstate.UndoStore.Recall.{rotate_cases, store_inv, read_entry-store_undo_to_file}

read_entry_stale :
    (s : UndoStore) (n size : ℕ) (stale : Bytes)
    → s.files n ≡ stale
    → entry_prefix_size + size ≤ length stale
    → read_entry s n 0 size ≡ ok (take size (drop 8 stale))
unfolding read_entry
read_entry_stale s n size stale h room =
    rw (h, le→ltb_false (length (drop 8 stale)) size (omega (arith, length-drop 8 stale)))

location_after_rotation :
    (s t : UndoStore) (hash raw : Bytes) (loc : UndoLocation)
    → t ≡ next_file s
    → loc ≡ (write_entry t hash raw).1
    → length raw < 4294967296
    → (loc.file_number ≡ suc s.file_number) × (loc.offset ≡ 0) × (loc.size ≡ length raw)
unfolding write_entry
location_after_rotation s t hash raw loc e l small = rw (l, e) (refl, refl, omega arith)

-- Where a rotation meets a next file that holds stale bytes already, at least as many as the new
-- entry takes, the location that is returned is read as stale bytes, whatever the new entry is.
pub store_undo_to_file_stale :
    (s : UndoStore) (hash : Hash256) (undo : BlockUndo) (s' : UndoStore) (loc : UndoLocation)
    (stale : Bytes)
    → needs_rotation s (entry_prefix_size + length (block_undo_to_bytes undo)) ≡ true
    → s.files (suc s.file_number) ≡ stale
    → entry_prefix_size + length (block_undo_to_bytes undo) ≤ length stale
    → length (block_undo_to_bytes undo) < 4294967296
    → store_undo_to_file s hash undo ≡ ok (s', loc)
    → read_entry s' loc.file_number loc.offset loc.size
      ≡ ok (take (length (block_undo_to_bytes undo)) (drop 8 stale))
store_undo_to_file_stale s hash undo s' loc stale turn old room small h =
    let raw = block_undo_to_bytes undo in
    let (t, r, e, l) = store_inv s hash undo s' loc h in
    elim (rotate_cases s t _ r) [
      | inl (_, turned) ↦
          let (f, o, z) = location_after_rotation s t hash raw loc turned l small in
          rw (f, o, z)
            (read_entry-store_undo_to_file s hash undo s' loc (suc s.file_number) 0 (length raw) _ h
              (read_entry_stale s (suc s.file_number) (length raw) stale old room))
      | inr (stay, _) ↦ cc
    ]
