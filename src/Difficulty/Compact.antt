-- ===== src/Difficulty/Compact.antt =====
-- difficulty/compact.rs. A `U256` is a number below 2^256: its shift to the left drops what leaves
-- the 256 bits.
pub mod Bits
pub mod Work
use ironcat.Base.{
  ℕ, zero, suc, ◌+◌, ◌-◌, ◌*◌, ◌/◌, ◌%◌, ◌^◌, List, [], ◌∷◌, Bool, true, false, not, ◌&&◌, ◌||◌,
  ◌==◌, leb, ltb, if◌then◌else◌, Option, none, some,
}
use ironcat.Base.Result.{and_then}

abbrev pub u256_size : ℕ
u256_size = 2 ^ 256

unfoldable pub shift_left : ℕ → ℕ → ℕ
shift_left a n = a * 2 ^ n % u256_size

-- The number of bits of a word of 64 bits, from the highest bit down.
unfoldable pub bit_count : ℕ → ℕ → ℕ
bit_count zero word = 0
bit_count (suc n) word = let rest = bit_count n word in if leb (2 ^ n) word then suc n else rest

-- The word of 64 bits at a position.
abbrev pub word_at : ℕ → ℕ → ℕ
word_at val pos = val / 2 ^ (64 * pos) % 2 ^ 64

-- The words from position `pos - 1` down to 0; the first that is not zero decides.
unfoldable pub bits_from : ℕ → ℕ → ℕ
unfolding bit_count
bits_from val zero = 0
bits_from val (suc pos) =
    let rest = bits_from val pos in
    if word_at val pos == 0 then rest else 64 * pos + bit_count 64 (word_at val pos)

unfoldable pub bits_u256 : ℕ → ℕ
bits_u256 val = bits_from val 4

abbrev pub mantissa : ℕ → ℕ
mantissa compact = compact % 0x80_0000

abbrev pub sign_bit : ℕ → Bool
sign_bit compact = compact / 0x80_0000 % 2 == 1

-- The mantissa as `compact_to_target` leaves it in `word`.
unfoldable pub word_of : ℕ → ℕ
word_of compact =
    let size = compact / 2 ^ 24 in
    if leb size 3 then mantissa compact / 2 ^ (8 * (3 - size)) else mantissa compact

unfoldable pub target_of : ℕ → ℕ
target_of compact =
    let size = compact / 2 ^ 24 in
    if leb size 3 then word_of compact else shift_left (word_of compact) (8 * (size - 3))

unfoldable pub is_negative : ℕ → Bool
is_negative compact = not (word_of compact == 0) && sign_bit compact

unfoldable pub is_overflow : ℕ → Bool
is_overflow compact =
    let size = compact / 2 ^ 24 in
    not (word_of compact == 0)
    && (ltb 34 size
        || (ltb 0xff (word_of compact) && ltb 33 size)
        || (ltb 0xffff (word_of compact) && ltb 32 size))

unfoldable pub compact_to_target : ℕ → ℕ × Bool × Bool
compact_to_target compact = (target_of compact, is_negative compact, is_overflow compact)

-- The top three bytes: for a small target its low word is shifted up and cut to 32 bits.
unfoldable pub leading_bytes : ℕ → ℕ → ℕ
leading_bytes target size =
    if leb size 3
    then target % 2 ^ 64 * 2 ^ (8 * (3 - size)) % 2 ^ 64 % 2 ^ 32
    else target / 2 ^ (8 * (size - 3)) % 2 ^ 64 % 2 ^ 32

abbrev pub encode_compact : ℕ → ℕ → ℕ
encode_compact bytes size =
    if sign_bit bytes
    then bytes / 2 ^ 8 % 0x80_0000 + (size + 1) * 2 ^ 24
    else bytes % 0x80_0000 + size * 2 ^ 24

unfoldable pub target_to_compact : ℕ → ℕ
target_to_compact target =
    let size = (bits_u256 target + 7) / 8 in encode_compact (leading_bytes target size) size

-- One more than a `U256`; where that leaves the 256 bits, the addition panics.
unfoldable pub add_one : ℕ → Option ℕ
add_one a = if ltb (a + 1) u256_size then some (a + 1) else none

-- A division of a `U256`, which panics where the divisor is 0.
unfoldable pub div_u256 : ℕ → ℕ → Option ℕ
div_u256 a b = if b == 0 then none else some (a / b)

-- `!target` is 2^256 - 1 - target. The result is `none` where the source panics.
unfoldable pub work_from_bits : ℕ → Option ℕ
work_from_bits compact =
    let target = target_of compact in
    if is_negative compact || is_overflow compact || target == 0
    then some 0
    else and_then (add_one target)
        (λ d. and_then (div_u256 (u256_size - 1 - target) d) (λ q. add_one q))
