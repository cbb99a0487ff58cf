-- ===== src/Chainstate/UndoStore.antt =====
-- chainstate/undo_store.rs: undo data in flat files, found again by a location.
pub mod Recall
pub mod Stale
use ironcat.Base.{
  ℕ, suc, ◌+◌, ◌%◌, [], ◌∷◌, ◌++◌, Bool, Option, none, some, ltb, ◌&&◌, ◌==◌, if◌then◌else◌, length,
  take, drop,
}
use ironcat.Base.Result.{Result, ok, err}
use ironcat.Network.Cursor.{Bytes, ParseError, to_le_bytes}
use ironcat.Types.Hash.{Hash256}
use ironcat.Chainstate.Undo.{BlockUndo, block_undo_to_bytes, block_undo_from_bytes}

abbrev pub undo_magic : Bytes
undo_magic = 0xFC ∷ 0xC1 ∷ 0xB7 ∷ 0xDC ∷ []

abbrev pub entry_prefix_size : ℕ
entry_prefix_size = 8

-- The files `revNNNNN.dat` by their number; an absent file is empty. `offset` is the size that the
-- store holds the current file to have.
pub record UndoStore : Type 0 where
  pub files : ℕ → Bytes
  pub file_number : ℕ
  pub offset : ℕ
  pub max_file_size : ℕ

pub record UndoLocation : Type 0 where
  pub hash : Hash256
  pub file_number : ℕ
  pub offset : ℕ
  pub size : ℕ

pub data UndoError : Type 0 where
  file_number_overflow short_file malformed_undo : UndoError

-- A file is opened to append, whatever it holds.
abbrev pub append_file : (ℕ → Bytes) → ℕ → Bytes → ℕ → Bytes
append_file files n bytes m = if n == m then files m ++ bytes else files m

unfoldable pub needs_rotation : UndoStore → ℕ → Bool
needs_rotation s entry_size = ltb 0 s.offset && ltb s.max_file_size (s.offset + entry_size)

abbrev pub next_file : UndoStore → UndoStore
next_file s = record s { file_number = suc s.file_number; offset = 0 }

unfoldable pub rotate : UndoStore → ℕ → Result UndoError UndoStore
rotate s entry_size =
    if needs_rotation s entry_size
    then (if s.file_number == 65535 then err file_number_overflow else ok (next_file s))
    else ok s

unfoldable pub write_entry : UndoStore → Hash256 → Bytes → UndoStore × UndoLocation
write_entry s hash raw = (
  record s {
    files =
        append_file s.files s.file_number
          (undo_magic ++ (to_le_bytes 4 (length raw % 4294967296) ++ raw));
    offset = s.offset + (entry_prefix_size + length raw);
  },
  record {
    hash = hash;
    file_number = s.file_number;
    offset = s.offset % 4294967296;
    size = length raw % 4294967296;
  },
)

abbrev pub write_after :
    Result UndoError UndoStore → Hash256 → Bytes → Result UndoError (UndoStore × UndoLocation)
write_after (ok s) hash raw = ok (write_entry s hash raw)
write_after (err e) hash raw = err e

unfoldable pub store_undo_to_file :
    UndoStore → Hash256 → BlockUndo → Result UndoError (UndoStore × UndoLocation)
store_undo_to_file s hash undo =
    let raw = block_undo_to_bytes undo in
    write_after (rotate s (entry_prefix_size + length raw)) hash raw

-- The part of `load_undo` behind the index: the bytes at a location, parsed.
unfoldable pub read_entry : UndoStore → ℕ → ℕ → ℕ → Result UndoError Bytes
read_entry s file_number offset size =
    let tail = drop (offset + entry_prefix_size) (s.files file_number) in
    if ltb (length tail) size then err short_file else ok (take size tail)

abbrev pub parsed : Result ParseError BlockUndo → Result UndoError BlockUndo
parsed (ok u) = ok u
parsed (err e) = err malformed_undo

abbrev pub parse_entry : Result UndoError Bytes → Result UndoError BlockUndo
parse_entry (ok bytes) = parsed (block_undo_from_bytes bytes)
parse_entry (err e) = err e

unfoldable pub load_undo : UndoStore → ℕ → ℕ → ℕ → Result UndoError BlockUndo
load_undo s file_number offset size = parse_entry (read_entry s file_number offset size)
