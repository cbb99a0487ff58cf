-- ===== src/Types/Merkle.antt =====
-- types/block.rs: the merkle root, and the parser that compares it with the header.
pub mod Duplicates
pub mod Accepts
use ironcat.Base.{
  ℕ, zero, suc, List, [], ◌∷◌, ◌++◌, map, Bool, true, false, not, ◌||◌, Option, none, some, ltb,
  if◌then◌else◌, length,
}
use ironcat.Base.Result.{Result, ok, err, ◌>>=◌, ◌>>◌, ensure, ok_or}
use ironcat.Network.Cursor.{Bytes, ParseError}
use ironcat.Types.Hash.{Hash256, zero_hash, Sha256, double_sha256, bytes_eq}
use ironcat.Types.Transaction.{txid_of}
use ironcat.Types.Block.{Block, block_from_bytes}

pub data BlockParseError : Type 0 where
  malformed : ParseError → BlockParseError
  empty duplicate_transaction root_mismatch : BlockParseError

abbrev pub parsed : Result ParseError Block → Result BlockParseError Block
parsed (ok b) = ok b
parsed (err e) = err (malformed e)

module _ (sha : Sha256) where
  unfoldable pub combine : Hash256 → Hash256 → Hash256
  combine a b = double_sha256 sha (a ++ b)

  -- The next level; of an odd number the last hash is paired with itself.
  unfoldable pub next_level : List Hash256 → List Hash256
  unfolding combine
  next_level [] = []
  next_level (a ∷ []) = combine a a ∷ []
  next_level (a ∷ b ∷ rest) = combine a b ∷ next_level rest

  -- Whether a complete pair is of equal hashes.
  unfoldable pub has_equal_pair : List Hash256 → Bool
  has_equal_pair (a ∷ b ∷ rest) = bytes_eq a b || has_equal_pair rest
  has_equal_pair _ = false

  -- The loop, for as many rounds as the first number says, which is never less than it needs.
  unfoldable pub merkle_loop : ℕ → List Hash256 → Bool → Hash256 × Bool
  unfolding next_level has_equal_pair
  merkle_loop n [] mutated = (zero_hash, mutated)
  merkle_loop n (a ∷ []) mutated = (a, mutated)
  merkle_loop zero (a ∷ b ∷ rest) mutated = (a, mutated)
  merkle_loop (suc n) (a ∷ b ∷ rest) mutated =
      merkle_loop n (next_level (a ∷ b ∷ rest)) (mutated || has_equal_pair (a ∷ b ∷ rest))

  -- Without transactions the source panics.
  unfoldable pub compute_merkle_root : List Hash256 → Option (Hash256 × Bool)
  compute_merkle_root [] = none
  compute_merkle_root (a ∷ rest) = some (merkle_loop (length (a ∷ rest)) (a ∷ rest) false)

  unfoldable pub check_root : Hash256 → Hash256 × Bool → Result BlockParseError (Unit {0})
  check_root expected (computed, mutated) =
      ensure (not mutated) duplicate_transaction
      >> ensure (bytes_eq computed expected) root_mismatch

  unfoldable pub from_bytes_and_validate : Bytes → Result BlockParseError Block
  from_bytes_and_validate bytes = parsed (block_from_bytes bytes) >>= λ b.
      ok_or (compute_merkle_root (map (txid_of sha) b.transactions)) empty >>= λ root.
      check_root b.header.merkle_root root >> ok b
