-- ===== src/Types/Merkle/Duplicates.antt =====
-- Lists of transactions that share a merkle root because the last one is doubled.
use ironcat.Base.{
  ℕ, zero, suc, ◌+◌, ◌*◌, ◌%◌, ◌≤◌, ◌≡◌, refl, ap, ◌∙◌, List, [], ◌∷◌, ◌++◌, map, Bool, true, false,
  ◌||◌, some, length, arith, length-append, some-injective,
}
use ironcat.Base.Result.{ok, err}
use ironcat.Network.Cursor.{Bytes}
use ironcat.Types.Hash.{Hash256, zero_hash, Sha256, bytes_eq, bytes_eq_refl}
use ironcat.Types.Transaction.{txid_of}
use ironcat.Types.Block.{Block, block_from_bytes}
use ironcat.Types.Merkle.{
  combine, next_level, has_equal_pair, merkle_loop, compute_merkle_root, duplicate_transaction,
  check_root, from_bytes_and_validate,
}

abbrev pub last_of : List Hash256 → Hash256
last_of [] = zero_hash
last_of (a ∷ []) = a
last_of (a ∷ b ∷ rest) = last_of (b ∷ rest)

module _ (sha : Sha256) where
  pub length-next_level : (l : List Hash256) → 2 * length (next_level sha l) ≤ length l + 1
  unfolding next_level
  length-next_level [] = omega arith
  length-next_level (a ∷ []) = omega arith
  length-next_level (a ∷ b ∷ rest) = omega (arith, length-next_level rest)

  -- The loop ends before its number of rounds does.
  merkle_loop-enough :
      (n k : ℕ) (l : List Hash256) (m : Bool)
      → length l ≤ n
      → length l ≤ k
      → merkle_loop sha n l m ≡ merkle_loop sha k l m
  unfolding merkle_loop
  merkle_loop-enough n k [] m p q = refl
  merkle_loop-enough n k (a ∷ []) m p q = refl
  merkle_loop-enough zero k (a ∷ b ∷ rest) m p q = absurd (omega arith)
  merkle_loop-enough (suc n) zero (a ∷ b ∷ rest) m p q = absurd (omega arith)
  merkle_loop-enough (suc n) (suc k) (a ∷ b ∷ rest) m p q =
      let shorter = length-next_level (a ∷ b ∷ rest) in
      merkle_loop-enough n k (next_level sha (a ∷ b ∷ rest)) _ (omega arith) (omega arith)

  -- A flag that is set stays set, and does not change the root.
  merkle_loop_flag :
      (n : ℕ) (l : List Hash256) (m : Bool)
      → merkle_loop sha n l true ≡ ((merkle_loop sha n l m).0, true)
  unfolding merkle_loop
  merkle_loop_flag n [] m = refl
  merkle_loop_flag n (a ∷ []) m = refl
  merkle_loop_flag zero (a ∷ b ∷ rest) m = refl
  merkle_loop_flag (suc n) (a ∷ b ∷ rest) m = merkle_loop_flag n (next_level sha (a ∷ b ∷ rest)) _

  next_level-doubled :
      (l : List Hash256)
      → length l % 2 ≡ 1
      → (next_level sha (l ++ last_of l ∷ []) ≡ next_level sha l)
        × (has_equal_pair sha (l ++ last_of l ∷ []) ≡ true)
  unfolding next_level has_equal_pair
  next_level-doubled [] odd = absurd (omega arith)
  next_level-doubled (a ∷ []) odd = (refl, rw (bytes_eq_refl a))
  next_level-doubled (a ∷ b ∷ []) odd = absurd (omega arith)
  next_level-doubled (a ∷ b ∷ c ∷ rest) odd =
      let (same, pair) = next_level-doubled (c ∷ rest) (omega arith) in
      (ap (λ l. combine sha a b ∷ l) same, or_true (bytes_eq a b) _ pair)
    where
      or_true : (x y : Bool) → y ≡ true → (x || y) ≡ true
      or_true true y h = refl
      or_true false y h = h

  -- Of an odd number of txids, three or more, the list with the last one doubled has the same
  -- root, and its flag says that it is mutated.
  pub compute_merkle_root-doubled :
      (l : List Hash256) (root : Hash256) (mutated : Bool)
      → 3 ≤ length l
      → length l % 2 ≡ 1
      → compute_merkle_root sha l ≡ some (root, mutated)
      → compute_merkle_root sha (l ++ last_of l ∷ []) ≡ some (root, true)
  unfolding compute_merkle_root merkle_loop
  compute_merkle_root-doubled [] root mutated long odd h = absurd (omega arith)
  compute_merkle_root-doubled (a ∷ []) root mutated long odd h = absurd (omega arith)
  compute_merkle_root-doubled (a ∷ b ∷ rest) root mutated long odd h =
      let l = a ∷ b ∷ rest in
      let (same, pair) = next_level-doubled l odd in
      let shorter = length-next_level l in
      let more = length-append rest (last_of l ∷ []) in
      let run = ap (λ (r : Hash256 × Bool). r.0) (some-injective h) in
      let steps =
        merkle_loop-enough (suc (length (rest ++ last_of l ∷ []))) (suc (length rest))
          (next_level sha l) true (omega arith) (omega arith) in
      ap some (
        ap
          (λ x.
            merkle_loop sha (suc (length (rest ++ last_of l ∷ []))) x
              (has_equal_pair sha (l ++ last_of l ∷ [])))
          same
        ∙ ap (merkle_loop sha (suc (length (rest ++ last_of l ∷ []))) (next_level sha l)) pair
        ∙ steps
        ∙ merkle_loop_flag (suc (length rest)) (next_level sha l) (has_equal_pair sha l)
        ∙ ap (λ (x : Hash256). (x, true)) run)

  -- A block whose txids are an odd number of txids, three or more, with the last one doubled is
  -- rejected as one with a duplicate transaction, whatever merkle root its header has.
  pub from_bytes_and_validate-doubled :
      (bytes : Bytes) (b : Block) (l : List Hash256) (root : Hash256) (mutated : Bool)
      → block_from_bytes bytes ≡ ok b
      → map (txid_of sha) b.transactions ≡ l ++ last_of l ∷ []
      → 3 ≤ length l
      → length l % 2 ≡ 1
      → compute_merkle_root sha l ≡ some (root, mutated)
      → from_bytes_and_validate sha bytes ≡ err duplicate_transaction
  unfolding from_bytes_and_validate check_root
  from_bytes_and_validate-doubled bytes b l root mutated parse txids long odd h =
      rw (parse, txids, compute_merkle_root-doubled l root mutated long odd h) refl
