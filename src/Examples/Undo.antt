-- ===== src/Examples/Undo.antt =====
-- Undo data stored behind other undo data, and into a file that is there already.
use ironcat.Base.{◌≡◌, refl, [], length, take, drop, replicate, if◌then◌else◌, ◌==◌, arith}
use ironcat.Base.Result.{ok}
use ironcat.Network.Cursor.{to_le_bytes, i64_to_le_bytes, to_unsigned, write_all}
use ironcat.Chainstate.Coin.{coin_to_bytes}
use ironcat.Chainstate.Undo.{framed, tx_undo_to_bytes, block_undo_to_bytes}
use ironcat.Chainstate.UndoStore.{
  UndoStore, UndoLocation, next_file, needs_rotation, rotate, write_entry, store_undo_to_file,
  read_entry,
}
use ironcat.Chainstate.UndoStore.Recall.{read_entry-store_undo_to_file}
use ironcat.Chainstate.UndoStore.Stale.{store_undo_to_file_stale}
use ironcat.Examples.Data.{block_id, undo}
use ironcat.Examples.Chain.{stored_after}

abbrev twice_stored : UndoStore × UndoLocation
twice_stored = write_entry stored_after.0 block_id (block_undo_to_bytes undo)

read_entry-store_undo_to_file_example :
    read_entry twice_stored.0 0 0 3 ≡ ok (take 3 (block_undo_to_bytes undo))
unfolding read_entry store_undo_to_file rotate needs_rotation write_entry block_undo_to_bytes
    to_le_bytes write_all framed tx_undo_to_bytes coin_to_bytes i64_to_le_bytes to_unsigned
read_entry-store_undo_to_file_example =
    read_entry-store_undo_to_file stored_after.0 block_id undo twice_stored.0 twice_stored.1 0 0 3
      (take 3 (block_undo_to_bytes undo)) refl refl

-- A full file, and a next file of bytes that no index entry knows.
abbrev full_store : UndoStore
full_store = record {
  files = λ n. if n == 1 then replicate 100 7 else [];
  file_number = 0;
  offset = 1;
  max_file_size = 10;
}

abbrev rotated : UndoStore × UndoLocation
rotated = write_entry (next_file full_store) block_id (block_undo_to_bytes undo)

store_undo_to_file_stale_example :
    read_entry rotated.0 rotated.1.file_number rotated.1.offset rotated.1.size
    ≡ ok (take (length (block_undo_to_bytes undo)) (drop 8 (replicate 100 7)))
unfolding store_undo_to_file rotate needs_rotation block_undo_to_bytes to_le_bytes write_all framed
    tx_undo_to_bytes coin_to_bytes i64_to_le_bytes to_unsigned
store_undo_to_file_stale_example =
    store_undo_to_file_stale full_store block_id undo rotated.0 rotated.1 (replicate 100 7) refl
      refl (omega arith) (omega arith) refl
