-- ===== src/Types/Hash.antt =====
-- types/hash.rs. The `sha2` crate is a parameter: a digest of 32 bytes.
use ironcat.Base.{
  ℕ, ◌≡◌, refl, [], ◌∷◌, Bool, true, false, ◌&&◌, ◌==◌, ◌↔◌, replicate, length, arith,
}
use ironcat.Network.Cursor.{Bytes}

abbrev pub hash_len : ℕ
hash_len = 32

-- `Hash256` wraps an array of 32 bytes.
abbrev pub Hash256 : Type 0
Hash256 = Bytes

abbrev pub IsHash : Hash256 → Type 0
IsHash h = length h ≡ hash_len

abbrev pub zero_hash : Hash256
zero_hash = replicate 32 0

-- What the source relies on of SHA-256.
pub record Sha256 : Type 0 where
  pub digest : Bytes → Bytes
  pub length-digest : (b : Bytes) → length (digest b) ≡ 32

unfoldable pub double_sha256 : Sha256 → Bytes → Hash256
double_sha256 sha bytes = sha.digest (sha.digest bytes)

-- `==` on byte arrays.
abbrev pub bytes_eq : Bytes → Bytes → Bool
bytes_eq [] [] = true
bytes_eq (a ∷ as') (b ∷ bs) = a == b && bytes_eq as' bs
bytes_eq _ _ = false

pub bytes_eq→eq : (a b : Bytes) → bytes_eq a b ≡ true → a ≡ b
bytes_eq→eq [] [] h = refl
bytes_eq→eq [] (y ∷ b) h = cc
bytes_eq→eq (x ∷ a) [] h = cc
bytes_eq→eq (x ∷ a) (y ∷ b) h = ground (arith, bytes_eq→eq a b)

pub bytes_eq_refl : (a : Bytes) → bytes_eq a a ≡ true
bytes_eq_refl [] = refl
bytes_eq_refl (x ∷ a) = ground (arith, bytes_eq_refl a)

pub bytes_eq_iff : (a b : Bytes) → (bytes_eq a b ≡ true) ↔ (a ≡ b)
bytes_eq_iff a b = (bytes_eq→eq a b, λ e. rw (← e) (bytes_eq_refl a))

pub double_sha256-IsHash : (sha : Sha256) (b : Bytes) → IsHash (double_sha256 sha b)
unfolding double_sha256
double_sha256-IsHash sha b = sha.length-digest (sha.digest b)
