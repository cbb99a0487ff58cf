-- ===== src/Difficulty/Retarget/Bounds.antt =====
-- When the retarget of cip01.rs, cip02.rs and cip03.rs leaves 256 bits, and when it does not.
use ironcat.Base.{
  ℕ, ◌-◌, ◌*◌, ◌/◌, ◌^◌, ◌≤◌, ◌<◌, ◌≡◌, refl, true, false, ltb, arith, lt→ltb, le→ltb_false,
}
use ironcat.Base.Result.{ok, err}
use native.Mathlib.Nat.{mul-le-mul}
use ironcat.Difficulty.Compact.{
  u256_size, bits_u256, bits_from, bit_count, target_of, target_to_compact,
}
use ironcat.Difficulty.Compact.Bits.{bits_u256_low, bits_u256_high}
use ironcat.Difficulty.Compact.Work.{target_of_bound}
use ironcat.Difficulty.Params.{mainnet, u256_overflow}
use ironcat.Difficulty.Retarget.{mul_u256, at_most, needs_shift, scale, retarget}

limit_bits : bits_u256 mainnet.pow_limit ≡ 236
unfolding bits_u256 bits_from bit_count
limit_bits = refl

product_low : (a b c d : ℕ) → a ≤ c → b ≤ d → a * b ≤ c * d
product_low a b c d p q = mul-le-mul p q

-- On mainnet, where the parent's target is at least half the limit and the clamped timespan at
-- least 2^22 seconds, the multiplication overflows although the target was halved before it.
pub retarget-overflow :
    (parent_bits timespan target_timespan : ℕ)
    → 2 ^ 235 ≤ target_of parent_bits
    → 2 ^ 22 ≤ timespan
    → retarget mainnet parent_bits timespan target_timespan ≡ err u256_overflow
unfolding retarget scale needs_shift mul_u256
retarget-overflow parent_bits timespan target_timespan large slow =
    let t = target_of parent_bits in
    let many : ltb (236 - 1) (bits_u256 t) ≡ true =
      lt→ltb _ _ (bits_u256_low t large (target_of_bound parent_bits)) in
    let over : ltb (t / 2 * timespan) u256_size ≡ false =
      le→ltb_false _ _ (product_low (2 ^ 234) (2 ^ 22) (t / 2) timespan (omega arith) slow) in
    rw (limit_bits, many, over) refl

-- On mainnet, where the parent's target is below 2^233 and the timespan at most four times that of
-- the first algorithm, the new target is the exact quotient of the product, cut at the limit.
pub retarget-exact :
    (parent_bits timespan target_timespan : ℕ)
    → target_of parent_bits < 2 ^ 233
    → timespan ≤ 4 * 1209600
    → retarget mainnet parent_bits timespan target_timespan
      ≡ ok (
          target_to_compact
            (at_most mainnet.pow_limit (target_of parent_bits * timespan / target_timespan)))
unfolding retarget scale needs_shift mul_u256
retarget-exact parent_bits timespan target_timespan small short =
    let t = target_of parent_bits in
    let few : ltb (236 - 1) (bits_u256 t) ≡ false =
      le→ltb_false _ _ (omega (arith, bits_u256_high t small)) in
    let fits : t * timespan < u256_size =
      omega (arith, product_low t timespan (2 ^ 233) (4 * 1209600) (omega arith) short) in
    rw (limit_bits, few, lt→ltb _ _ fits) refl
