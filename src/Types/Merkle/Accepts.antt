-- ===== src/Types/Merkle/Accepts.antt =====
-- The blocks that the parser with the merkle check accepts.
use ironcat.Base.{
  ℕ, zero, suc, ◌<◌, ◌≤◌, ◌≡◌, ◌≢◌, ◌↔◌, refl, ap, ◌∙◌, List, [], ◌∷◌, ◌++◌, map, Bool, true, false,
  not, ◌||◌, some, length, arith, Bool-cases, inl, inr, some-injective,
}
use mathlib.Core.Path.{subst}
use ironcat.Base.Result.{
  Result, ok, err, ok_or, >>=-eq-ok, >>-eq-ok, ensure_then, ensure-eq-ok, ok_or-eq-ok, ok-injective,
}
use ironcat.Network.Cursor.{Bytes, ParseError}
use ironcat.Types.Hash.{Hash256, Sha256, double_sha256, bytes_eq, bytes_eq→eq, bytes_eq_refl}
use ironcat.Types.Transaction.{txid_of}
use ironcat.Types.Block.{Block, block_from_bytes}
use ironcat.Types.Merkle.{
  combine, next_level, has_equal_pair, merkle_loop, compute_merkle_root, parsed, empty,
  duplicate_transaction, check_root, from_bytes_and_validate,
}
use ironcat.Types.Merkle.Duplicates.{length-next_level}

parsed_inv : (r : Result ParseError Block) {b : Block} → parsed r ≡ ok b → r ≡ ok b
parsed_inv (ok c) h = cc
parsed_inv (err e) h = cc

or_false : (a b : Bool) → (a || b) ≡ false → (a ≡ false) × (b ≡ false)
or_false true b h = cc
or_false false b h = (refl, h)

bytes_ne : (a b : Bytes) → a ≢ b → bytes_eq a b ≡ false
bytes_ne a b apart = elim (Bool-cases (bytes_eq a b)) [
  | inl y ↦ absurd (apart (bytes_eq→eq a b y))
  | inr n ↦ n
]

module _ (sha : Sha256) where
  check_root_inv :
      (expected : Hash256) (root : Hash256 × Bool)
      → check_root sha expected root ≡ ok tt
      → root ≡ (expected, false)
  unfolding check_root
  check_root_inv expected (computed, mutated) h =
      let (clean, e) = ensure_then (not mutated) duplicate_transaction _ h in
      let same = bytes_eq→eq computed expected (ensure-eq-ok _ _ e) in
      rw same (ap (λ (m : Bool). (expected, m)) (unset mutated clean))
    where
      unset : (m : Bool) → not m ≡ true → m ≡ false
      unset true p = cc
      unset false p = refl

  -- The hashes of one level and those of the level above it: two neighbours, which differ, have
  -- the hash of both above them, and a last one that is left over is paired with itself.
  pub data Above : List Hash256 → List Hash256 → Type 0 where
    no_more : Above [] []
    left_over : (a : Hash256) → Above (a ∷ []) (double_sha256 sha (a ++ a) ∷ [])
    pair :
        {rest up : List Hash256} (a b : Hash256)
        → a ≢ b
        → Above rest up
        → Above (a ∷ b ∷ rest) (double_sha256 sha (a ++ b) ∷ up)

  -- The root of a tree over the hashes.
  pub data Tree : List Hash256 → Hash256 → Type 0 where
    root : (a : Hash256) → Tree (a ∷ []) a
    level :
        {a b r : Hash256} {rest up : List Hash256}
        → Above (a ∷ b ∷ rest) up
        → Tree up r
        → Tree (a ∷ b ∷ rest) r

  Above-next_level : (l : List Hash256) → has_equal_pair sha l ≡ false → Above l (next_level sha l)
  unfolding next_level has_equal_pair combine
  Above-next_level [] h = no_more
  Above-next_level (a ∷ []) h = left_over a
  Above-next_level (a ∷ b ∷ rest) h =
      let (apart, others) = or_false (bytes_eq a b) _ h in
      pair a b (λ e. cc (rw (e, bytes_eq_refl b) at apart)) (Above-next_level rest others)

  Above-inv :
      {l up : List Hash256} → Above l up → (has_equal_pair sha l ≡ false) × (next_level sha l ≡ up)
  unfolding next_level has_equal_pair combine
  Above-inv no_more = (refl, refl)
  Above-inv (left_over a) = (refl, refl)
  Above-inv (pair a b apart above) =
      let (others, same) = Above-inv above in
      (rw (bytes_ne a b apart) others, ap (λ x. double_sha256 sha (a ++ b) ∷ x) same)

  -- A flag that is clear at the end was clear in every round.
  merkle_loop-Tree :
      (n : ℕ) (l : List Hash256) (m : Bool) (r : Hash256)
      → 0 < length l
      → length l ≤ n
      → merkle_loop sha n l m ≡ (r, false)
      → (m ≡ false) × Tree l r
  unfolding merkle_loop
  merkle_loop-Tree n [] m r some_left enough h = absurd (omega arith)
  merkle_loop-Tree n (a ∷ []) m r some_left enough h =
      (ap (λ p. p.1) h, subst (λ x. Tree (a ∷ []) x) (ap (λ p. p.0) h) (root a))
  merkle_loop-Tree zero (a ∷ b ∷ rest) m r some_left enough h = absurd (omega arith)
  merkle_loop-Tree (suc n) (a ∷ b ∷ rest) m r some_left enough h =
      let shorter = length-next_level sha (a ∷ b ∷ rest) in
      let (clear, tree) =
        merkle_loop-Tree n (next_level sha (a ∷ b ∷ rest)) _ r (omega arith) (omega arith) h in
      let (before, here) = or_false m _ clear in
      (before, level (Above-next_level (a ∷ b ∷ rest) here) tree)

  Tree-merkle_loop :
      {l : List Hash256} {r : Hash256} (n : ℕ)
      → Tree l r
      → length l ≤ n
      → merkle_loop sha n l false ≡ (r, false)
  unfolding merkle_loop
  Tree-merkle_loop n (root a) enough = refl
  Tree-merkle_loop zero (level above tree) enough = absurd (omega arith)
  Tree-merkle_loop (suc n) (level {a = a} {b = b} {rest = rest} {up = up} above tree) enough =
      let (clear, same) = Above-inv above in
      let shorter = length-next_level sha (a ∷ b ∷ rest) in
      let size = ap length same in
      ap (λ x. merkle_loop sha n x (has_equal_pair sha (a ∷ b ∷ rest))) same
      ∙ ap (merkle_loop sha n up) clear
      ∙ Tree-merkle_loop n tree (omega arith)

  compute_merkle_root-Tree :
      (l : List Hash256) (r : Hash256) → (compute_merkle_root sha l ≡ some (r, false)) ↔ Tree l r
  unfolding compute_merkle_root merkle_loop
  compute_merkle_root-Tree l r = (sound l, complete)
    where
      sound : (l : List Hash256) → compute_merkle_root sha l ≡ some (r, false) → Tree l r
      sound [] h = cc
      sound (a ∷ rest) h =
          (merkle_loop-Tree (length (a ∷ rest)) (a ∷ rest) false r (omega arith) (omega arith)
            (some-injective h)).1

      complete : {l : List Hash256} → Tree l r → compute_merkle_root sha l ≡ some (r, false)
      complete (root a) = refl
      complete (level {a = a} {b = b} {rest = rest} above tree) =
          ap some (Tree-merkle_loop (length (a ∷ b ∷ rest)) (level above tree) (omega arith))

  -- A block is accepted if and only if it is what the bytes parse to, and the merkle root in its
  -- header is the root of a tree over its txids in which the two hashes of every pair differ; a last
  -- hash that is left over is paired with itself.
  pub from_bytes_and_validate_iff :
      (bytes : Bytes) (b : Block)
      → (from_bytes_and_validate sha bytes ≡ ok b) ↔ (
          (block_from_bytes bytes ≡ ok b)
          × Tree (map (txid_of sha) b.transactions) b.header.merkle_root)
  unfolding from_bytes_and_validate check_root
  from_bytes_and_validate_iff bytes b = (sound, complete)
    where
      sound :
          from_bytes_and_validate sha bytes ≡ ok b
          → (block_from_bytes bytes ≡ ok b)
            × Tree (map (txid_of sha) b.transactions) b.header.merkle_root
      sound h =
          let (c, p, h1) = >>=-eq-ok (parsed (block_from_bytes bytes)) _ h in
          let (found, q, h2) =
            >>=-eq-ok (ok_or (compute_merkle_root sha (map (txid_of sha) c.transactions)) empty) _
              h1 in
          let (r, e) = >>-eq-ok (check_root sha c.header.merkle_root found) _ h2 in
          let same = ok-injective e in
          let tree =
            (compute_merkle_root-Tree (map (txid_of sha) c.transactions) c.header.merkle_root).0
              (ok_or-eq-ok _ _ q ∙ ap some (check_root_inv c.header.merkle_root found r)) in
          (
            parsed_inv _ p ∙ ap ok same,
            subst (λ (x : Block). Tree (map (txid_of sha) x.transactions) x.header.merkle_root) same
                tree,
          )

      complete :
          (block_from_bytes bytes ≡ ok b)
            × Tree (map (txid_of sha) b.transactions) b.header.merkle_root
          → from_bytes_and_validate sha bytes ≡ ok b
      complete (p, tree) =
          let q =
            (compute_merkle_root-Tree (map (txid_of sha) b.transactions) b.header.merkle_root).1
              tree in
          rw (p, q, bytes_eq_refl b.header.merkle_root) refl
