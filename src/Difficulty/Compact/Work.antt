-- ===== src/Difficulty/Compact/Work.antt =====
-- The work of a target.
use ironcat.Base.{
  ℕ, zero, ◌+◌, ◌-◌, ◌*◌, ◌/◌, ◌%◌, ◌^◌, ◌<◌, ◌≤◌, ◌≡◌, refl, ap, ◌∙◌, sym, suc, leb, Bool-cases,
  inl, inr, lt→ltb, leb_false→lt, some, false, ◌==◌, arith,
}
use native.Mathlib.Nat.{div-eq-sub-div, div-le_self, div-lt_self, pow-suc, mul_left_comm}
use ironcat.Base.Result.{and_then}
use ironcat.Difficulty.Compact.{
  u256_size, shift_left, target_of, word_of, is_negative, is_overflow, add_one, div_u256,
  work_from_bits,
}

-- A division by the divisor less in the dividend, and one more.
div_shift : (m d : ℕ) → 0 < d → d ≤ m → (m - d) / d + 1 ≡ m / d
div_shift m d h k = sym (div-eq-sub-div h k)

-- A multiple of 256, cut to 256 bits, is still one, and so not the largest number of 256 bits.
cut_multiple : (m : ℕ) → 256 * m % 2 ^ 256 + 1 < 2 ^ 256
cut_multiple m = omega arith

pow_add : (a b : ℕ) → 2 ^ (a + b) ≡ 2 ^ a * 2 ^ b
pow_add zero b = rw (zero_add b) (sym (one_mul (2 ^ b)))
  where
    zero_add : (n : ℕ) → 0 + n ≡ n
    zero_add n = omega arith

    one_mul : (n : ℕ) → 1 * n ≡ n
    one_mul n = omega arith
pow_add (suc a) b =
    let more : suc a + b ≡ suc (a + b) = omega arith in
    rw (more, pow-suc 2 (a + b), pow_add a b, pow-suc 2 a) (grind arith)

shifted_bound : (w n : ℕ) → shift_left w (8 * suc n) + 1 < u256_size
unfolding shift_left
shifted_bound w n =
    let byte : 8 * suc n ≡ 8 + 8 * n = omega arith in
    let split : w * 2 ^ (8 * suc n) ≡ 256 * (w * 2 ^ (8 * n)) =
      rw (byte, pow_add 8 (8 * n)) (mul_left_comm w 256 (2 ^ (8 * n))) in
    rw split (cut_multiple (w * 2 ^ (8 * n)))

-- A target of the compact form is less than the largest number of 256 bits.
pub target_of_room : (compact : ℕ) → target_of compact + 1 < u256_size
unfolding target_of word_of
target_of_room compact = elim (Bool-cases (leb (compact / 2 ^ 24) 3)) [
  | inl e ↦ rw e (bounded compact (2 ^ (8 * (3 - compact / 16777216))))
  | inr e ↦
      let size : 8 * (compact / 2 ^ 24 - 3) ≡ 8 * suc (compact / 2 ^ 24 - 4) =
        omega (arith, leb_false→lt _ _ e) in
      rw (e, size) (shifted_bound (compact % 8388608) (compact / 2 ^ 24 - 4))
]
  where
    bounded : (a b : ℕ) → a % 8388608 / b + 1 < 2 ^ 256
    bounded a b = omega (arith, div-le_self (a % 8388608) b)

pub target_of_bound : (compact : ℕ) → target_of compact < u256_size
target_of_bound compact = less (target_of compact) (target_of_room compact)
  where
    less : (t : ℕ) → t + 1 < 2 ^ 256 → t < 2 ^ 256
    less t h = omega arith

add_one-eq-some : (a : ℕ) → a + 1 < u256_size → add_one a ≡ some (a + 1)
unfolding add_one
add_one-eq-some a h = rw (lt→ltb _ _ h) refl

-- The division of the source, with both additions, for a target that leaves room for one more.
complement_lem :
    (t : ℕ)
    → 0 < t
    → t + 1 < u256_size
    → and_then (add_one t) (λ d. and_then (div_u256 (u256_size - 1 - t) d) (λ q. add_one q))
      ≡ some (2 ^ 256 / (t + 1))
unfolding div_u256
complement_lem t nonzero room =
    let positive : (t + 1 == 0) ≡ false = ground arith in
    let shift : u256_size - 1 - t ≡ 2 ^ 256 - (t + 1) = omega arith in
    let one_more : (u256_size - 1 - t) / (t + 1) + 1 ≡ 2 ^ 256 / (t + 1) =
      rw shift (div_shift (2 ^ 256) (t + 1) (omega arith) (omega arith)) in
    let fits = div-lt_self {n = 2 ^ 256} {k = t + 1} (omega arith) (omega arith) in
    rw (add_one-eq-some t room, positive) (add_one-eq-some _ (rw one_more fits) ∙ ap some one_more)

-- The work of a target that is positive, without sign and in range is 2^256 / (target + 1), the
-- number of hashes it takes on average, although 2^256 is no `U256`: no addition of the
-- computation leaves the 256 bits, and its divisor is not 0.
pub work_from_bits_lem :
    (compact : ℕ)
    → is_negative compact ≡ false
    → is_overflow compact ≡ false
    → 0 < target_of compact
    → work_from_bits compact ≡ some (2 ^ 256 / (target_of compact + 1))
unfolding work_from_bits
work_from_bits_lem compact a b c =
    let nonzero : (target_of compact == 0) ≡ false = ground arith in
    rw (a, b, nonzero) (complement_lem (target_of compact) c (target_of_room compact))
