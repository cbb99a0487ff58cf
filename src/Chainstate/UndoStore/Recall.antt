-- ===== src/Chainstate/UndoStore/Recall.antt =====
-- What is stored in the flat files is found again, and stays.
use ironcat.Base.{
  length-drop, ltb_false→le, append-nil, true, false, ◌⊎◌, ℕ, zero, suc, ◌+◌, ◌%◌, ◌≤◌, ◌<◌, ◌≡◌,
  refl, [], ◌∷◌, ◌++◌, ltb, ◌==◌, if◌then◌else◌, length, take, drop, length-append, take-append,
  drop-append, arith, append_assoc, le→ltb_false, ==_refl, Bool-cases, inl, inr,
}
use ironcat.Base.Result.{Result, ok, err}
use ironcat.Network.Cursor.{Bytes, to_le_bytes, length-to_le_bytes}
use ironcat.Types.Hash.{Hash256}
use ironcat.Chainstate.Undo.{BlockUndo, block_undo_to_bytes}
use ironcat.Chainstate.Undo.RoundTrip.{IsBlockUndo, block_undo_from_bytes-block_undo_to_bytes}
use ironcat.Chainstate.UndoStore.{
  short_file, entry_prefix_size, file_number_overflow, next_file, needs_rotation, UndoStore,
  UndoLocation, UndoError, undo_magic, append_file, rotate, write_entry, write_after,
  store_undo_to_file, read_entry, load_undo,
}

-- `offset` is the size of the current file, and no file behind it has been written.
pub record IsStore (s : UndoStore) : Type 0 where
  pub size : length (s.files s.file_number) ≡ s.offset
  pub fresh : (n : ℕ) → s.file_number < n → s.files n ≡ []
  pub limit : s.max_file_size < 4294967296

drop_within : (n : ℕ) (xs ys : Bytes) → n ≤ length xs → drop n (xs ++ ys) ≡ drop n xs ++ ys
drop_within zero xs ys h = refl
drop_within (suc n) [] ys h = absurd (omega arith)
drop_within (suc n) (x ∷ xs) ys h = drop_within n xs ys (omega arith)

take_within : (n : ℕ) (xs ys : Bytes) → n ≤ length xs → take n (xs ++ ys) ≡ take n xs
take_within zero xs ys h = refl
take_within (suc n) [] ys h = absurd (omega arith)
take_within (suc n) (x ∷ xs) ys h = rw (take_within n xs ys (omega arith))

take_all : (raw : Bytes) → take (length raw) raw ≡ raw
take_all raw = rw append-nil at (take-append raw [])

read_back :
    (front pre raw : Bytes) → length pre ≡ 8 → drop (length front + 8) (front ++ (pre ++ raw)) ≡ raw
read_back front pre raw h =
    let e : length (front ++ pre) ≡ length front + 8 = omega (arith, length-append front pre) in
    rw (← append_assoc, ← e) (drop-append (front ++ pre) raw)

pub rotate_cases :
    (s t : UndoStore) (n : ℕ)
    → rotate s n ≡ ok t
    → ((needs_rotation s n ≡ true) × (t ≡ next_file s)) ⊎ ((needs_rotation s n ≡ false) × (t ≡ s))
unfolding rotate
rotate_cases s t n h = elim (Bool-cases (needs_rotation s n)) [
  | inl turn ↦ inl (turn, turned (rw turn at h))
  | inr stay ↦ inr (stay, kept (rw stay at h))
]
  where
    turned :
        (if s.file_number == 65535 then err file_number_overflow else ok (next_file s)) ≡ ok t
        → t ≡ next_file s
    turned e = ground arith

    kept : ◌≡◌ {A = Result UndoError UndoStore} (ok s) (ok t) → t ≡ s
    kept e = cc

next_file-IsStore : (s : UndoStore) → IsStore s → IsStore (next_file s)
next_file-IsStore s v = record {
  size = rw (v.fresh (suc s.file_number) (omega arith));
  fresh = λ n h. v.fresh n (omega arith);
  limit = v.limit;
}

room : (s : UndoStore) (n : ℕ) → IsStore s → needs_rotation s n ≡ false → s.offset < 4294967296
unfolding needs_rotation
room s n v h = ground arith

rotate-IsStore :
    (s t : UndoStore) (n : ℕ)
    → IsStore s
    → rotate s n ≡ ok t
    → IsStore t × (t.files ≡ s.files) × (t.offset < 4294967296)
rotate-IsStore s t n v h = elim (rotate_cases s t n h) [
  | inl (turn, e) ↦ rw e (next_file-IsStore s v, refl, omega arith)
  | inr (stay, e) ↦ rw e (v, refl, room s n v stay)
]

read_entry_at :
    (s : UndoStore) (n : ℕ) (front pre raw : Bytes)
    → s.files n ≡ front ++ (pre ++ raw)
    → length pre ≡ 8
    → read_entry s n (length front) (length raw) ≡ ok raw
unfolding read_entry
read_entry_at s n front pre raw h p = rw (
  h,
  read_back front pre raw p,
  le→ltb_false (length raw) (length raw) (omega arith),
  take_all raw,
)

entry_prefix : (n : ℕ) → length (undo_magic ++ to_le_bytes 4 n) ≡ 8
entry_prefix n = omega (arith, length-to_le_bytes 4 n)

append_file_self : (f : ℕ → Bytes) (n : ℕ) (b : Bytes) → append_file f n b n ≡ f n ++ b
append_file_self f n b = rw (==_refl n)

-- What `write_entry` put into a file is read at the location that it returns.
read_entry-write_entry :
    (s : UndoStore) (hash raw : Bytes)
    → IsStore s
    → s.offset < 4294967296
    → length raw < 4294967296
    → read_entry
        (write_entry s hash raw).0
        (write_entry s hash raw).1.file_number
        (write_entry s hash raw).1.offset
        (write_entry s hash raw).1.size
      ≡ ok raw
unfolding write_entry
read_entry-write_entry s hash raw v lo small =
    let e : s.offset % 4294967296 ≡ length (s.files s.file_number) = omega (arith, v.size) in
    let fits : length raw % 4294967296 ≡ length raw = omega arith in
    rw (e, fits)
      (read_entry_at _ s.file_number (s.files s.file_number)
        (undo_magic ++ to_le_bytes 4 (length raw)) raw (append_file_self s.files s.file_number _)
        (entry_prefix _))

write_entry-IsStore :
    (s : UndoStore) (hash raw : Bytes) → IsStore s → IsStore (write_entry s hash raw).0
unfolding write_entry
write_entry-IsStore s hash raw v = record {
  size = rw append_file_self (
      omega (
        arith,
        length-append (s.files s.file_number)
            (undo_magic ++ (to_le_bytes 4 (length raw % 4294967296) ++ raw)),
        length-append (to_le_bytes 4 (length raw % 4294967296)) raw,
        length-to_le_bytes 4 (length raw % 4294967296),
        v.size,
      ));
  fresh = λ n h. ground (arith, v.fresh n);
  limit = v.limit;
}

write_after_inv :
    (r : Result UndoError UndoStore) (hash : Hash256) (raw : Bytes) (s' : UndoStore)
    (loc : UndoLocation)
    → write_after r hash raw ≡ ok (s', loc)
    → (t : UndoStore) × (r ≡ ok t)
      × (s' ≡ (write_entry t hash raw).0)
      × (loc ≡ (write_entry t hash raw).1)
write_after_inv (ok t) hash raw s' loc h = (t, refl, ground arith, ground arith)
write_after_inv (err e) hash raw s' loc h = cc

pub store_inv :
    (s : UndoStore) (hash : Hash256) (undo : BlockUndo) (s' : UndoStore) (loc : UndoLocation)
    → store_undo_to_file s hash undo ≡ ok (s', loc)
    → (t : UndoStore) × (rotate s (entry_prefix_size + length (block_undo_to_bytes undo)) ≡ ok t)
      × (s' ≡ (write_entry t hash (block_undo_to_bytes undo)).0)
      × (loc ≡ (write_entry t hash (block_undo_to_bytes undo)).1)
unfolding store_undo_to_file
store_inv s hash undo s' loc h = write_after_inv (rotate s _) hash _ s' loc h

-- Undo data that fits its length prefixes, stored in a store that knows the size of its current
-- file and has no file behind it, is loaded back from the location that is returned, and the store
-- still knows the size of its current file and has no file behind it.
pub load_undo-store_undo_to_file :
    (s : UndoStore) (hash : Hash256) (undo : BlockUndo) (s' : UndoStore) (loc : UndoLocation)
    → IsStore s
    → IsBlockUndo undo
    → length (block_undo_to_bytes undo) < 4294967296
    → store_undo_to_file s hash undo ≡ ok (s', loc)
    → (load_undo s' loc.file_number loc.offset loc.size ≡ ok undo) × IsStore s' × (loc.hash ≡ hash)
unfolding load_undo
load_undo-store_undo_to_file s hash undo s' loc v u small h =
    let raw = block_undo_to_bytes undo in
    let (t, r, e, l) = store_inv s hash undo s' loc h in
    let (vt, same, lo) = rotate-IsStore s t _ v r in
    let found = read_entry-write_entry t hash raw vt lo small in
    rw (e, l)
      (
        rw (found, block_undo_from_bytes-block_undo_to_bytes undo u),
        write_entry-IsStore t hash raw vt,
        unfold write_entry in refl,
      )

kept_entry :
    (offset size : ℕ) (file more : Bytes)
    → size ≤ length (drop (offset + 8) file)
    → (size ≤ length (drop (offset + 8) (file ++ more)))
      × (take size (drop (offset + 8) (file ++ more)) ≡ take size (drop (offset + 8) file))
kept_entry offset zero file more h = (omega arith, refl)
kept_entry offset (suc n) file more h =
    let inside : offset + 8 ≤ length file = omega (arith, length-drop (offset + 8) file) in
    rw (drop_within (offset + 8) file more inside) (
      omega (arith, length-append (drop (offset + 8) file) more),
      take_within (suc n) (drop (offset + 8) file) more h,
    )

-- A file that grows at its end keeps its entries.
read_entry_grows :
    (s s' : UndoStore) (n offset size : ℕ) (more entry : Bytes)
    → s'.files n ≡ s.files n ++ more
    → read_entry s n offset size ≡ ok entry
    → read_entry s' n offset size ≡ ok entry
unfolding read_entry
read_entry_grows s s' n offset size more entry grown found =
    elim (Bool-cases (ltb (length (drop (offset + 8) (s.files n))) size)) [
      | inl short ↦ absurd (never (rw short at found))
      | inr long ↦
          let (room, same) = kept_entry offset size (s.files n) more (ltb_false→le _ _ long) in
          rw (grown, le→ltb_false _ _ room, same) (rw long at found)
    ]
  where
    never : err short_file ≡ ok entry → ⊥
    never e = cc

grown_by : UndoStore → Bytes → ℕ → Bytes
grown_by t bytes n = if t.file_number == n then bytes else []

files-write_entry :
    (t : UndoStore) (hash raw : Bytes) (n : ℕ)
    → (write_entry t hash raw).0.files n
      ≡ t.files n ++ grown_by t (undo_magic ++ (to_le_bytes 4 (length raw % 4294967296) ++ raw)) n
unfolding write_entry grown_by
files-write_entry t hash raw n = elim (Bool-cases (t.file_number == n)) [
  | inl same ↦ rw same
  | inr other ↦ rw (other, append-nil)
]

files-rotate : (s t : UndoStore) (n : ℕ) → rotate s n ≡ ok t → t.files ≡ s.files
files-rotate s t n h = elim (rotate_cases s t n h) [ inl (turn, e) ↦ rw e | inr (stay, e) ↦ rw e ]

-- Storing more undo data leaves what was stored before where it was, whatever is in the files.
pub read_entry-store_undo_to_file :
    (s : UndoStore) (hash : Hash256) (undo : BlockUndo) (s' : UndoStore) (loc : UndoLocation)
    (n offset size : ℕ) (entry : Bytes)
    → store_undo_to_file s hash undo ≡ ok (s', loc)
    → read_entry s n offset size ≡ ok entry
    → read_entry s' n offset size ≡ ok entry
read_entry-store_undo_to_file s hash undo s' loc n offset size entry h found =
    let raw = block_undo_to_bytes undo in
    let (t, r, e, l) = store_inv s hash undo s' loc h in
    read_entry_grows s s' n offset size
      (grown_by t (undo_magic ++ (to_le_bytes 4 (length raw % 4294967296) ++ raw)) n) entry
      (rw (e, files-write_entry t hash raw n, files-rotate s t _ r)) found
