-- ===== src/Difficulty/Compact/Bits.antt =====
-- The bit length of a target.
use ironcat.Base.{
  ℕ, zero, suc, ◌^◌, ◌≤◌, ◌<◌, ◌≡◌, false, ◌==◌, leb, arith, Bool-cases, inl, inr, leb→le,
  leb_false→lt,
}
use native.Mathlib.Nat.{pow-le-pow_right}
use ironcat.Difficulty.Compact.{bit_count, word_at, bits_from, bits_u256}

pow_reflects : (a b : ℕ) → 2 ^ a < 2 ^ b → a < b
pow_reflects a b h = elim (Bool-cases (leb b a)) [
  | inl e ↦ absurd (clash (2 ^ a) (2 ^ b) h (pow-le-pow_right (omega arith) (leb→le _ _ e)))
  | inr e ↦ leb_false→lt _ _ e
]
  where
    clash : (x y : ℕ) → x < y → y ≤ x → ⊥
    clash x y p q = omega arith

pub bit_count_low : (n k w : ℕ) → 2 ^ k ≤ w → w < 2 ^ n → k < bit_count n w
unfolding bit_count
bit_count_low zero k w h lt =
    absurd (omega (arith, pow-le-pow_right {n = 2} (omega arith) {i = 0} {j = k} (omega arith)))
bit_count_low (suc n) k w h lt = elim (Bool-cases (leb (2 ^ n) w)) [
  | inl e ↦ rw e (pow_reflects k (suc n) (omega arith))
  | inr e ↦ rw e (bit_count_low n k w h (leb_false→lt _ _ e))
]

pub bit_count_high : (n k w : ℕ) → w < 2 ^ k → bit_count n w ≤ k
unfolding bit_count
bit_count_high zero k w h = omega arith
bit_count_high (suc n) k w h = elim (Bool-cases (leb (2 ^ n) w)) [
  | inl e ↦ rw e (pow_reflects n k (below (2 ^ n) w (2 ^ k) (leb→le _ _ e) h))
  | inr e ↦ rw e (bit_count_high n k w h)
]
  where
    below : (a b c : ℕ) → a ≤ b → b < c → a < c
    below a b c p q = omega arith

-- A number with its highest bit at position 235 or above has at least 236 bits.
pub bits_u256_low : (v : ℕ) → 2 ^ 235 ≤ v → v < 2 ^ 256 → 235 < bits_u256 v
unfolding bits_u256 bits_from
bits_u256_low v h lt =
    let word : 2 ^ 43 ≤ word_at v 3 = omega arith in
    let nonzero : (word_at v 3 == 0) ≡ false = ground arith in
    rw nonzero (omega (arith, bit_count_low 64 43 (word_at v 3) word (omega arith)))

-- A number below 2^233 has at most 233 bits.
pub bits_u256_high : (v : ℕ) → v < 2 ^ 233 → bits_u256 v ≤ 233
unfolding bits_u256 bits_from
bits_u256_high v h =
    let b3 = bit_count_high 64 41 (word_at v 3) (omega arith) in
    let b2 = bit_count_high 64 64 (word_at v 2) (omega arith) in
    let b1 = bit_count_high 64 64 (word_at v 1) (omega arith) in
    let b0 = bit_count_high 64 64 (word_at v 0) (omega arith) in ground arith
