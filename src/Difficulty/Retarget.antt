-- ===== src/Difficulty/Retarget.antt =====
-- difficulty/cip01.rs, cip02.rs, cip03.rs and the path of cip05.rs that stays within integers.
pub mod Bounds
use ironcat.Base.{
  ℕ, ◌+◌, ◌-◌, ◌*◌, ◌/◌, ◌%◌, ◌^◌, Bool, not, ◌&&◌, ◌||◌, ◌==◌, leb, ltb, if◌then◌else◌,
}
use ironcat.Base.Int.{ℤ, pos, negsuc, ◌-ℤ◌}
use ironcat.Base.Result.{Result, ok, err, ◌>>=◌}
use ironcat.Difficulty.Compact.{u256_size, shift_left, bits_u256, target_of, target_to_compact}
use ironcat.Difficulty.Params.{
  ConsensusParams, difficulty_adjustment_interval_v1, difficulty_adjustment_interval_v2,
  ChainLookup, DifficultyError, u256_overflow, lookup_header,
}

-- `clamp` of an i64 to bounds that are not negative.
unfoldable pub clamp : ℤ → ℕ → ℕ → ℕ
clamp (negsuc n) low high = low
clamp (pos n) low high = if ltb n low then low else (if ltb high n then high else n)

-- `a - b` on u32.
abbrev pub sub_u32 : ℕ → ℕ → ℕ
sub_u32 a b = (a + 2 ^ 32 - b % 2 ^ 32) % 2 ^ 32

-- The product of two `U256`.
unfoldable pub mul_u256 : ℕ → ℕ → Result DifficultyError ℕ
mul_u256 a b = if ltb (a * b) u256_size then ok (a * b) else err u256_overflow

abbrev pub at_most : ℕ → ℕ → ℕ
at_most limit target = if ltb limit target then limit else target

-- A target that has at least as many bits as the limit less one is halved first, and doubled again
-- behind the division.
unfoldable pub needs_shift : ConsensusParams → ℕ → Bool
needs_shift p target = ltb (bits_u256 p.pow_limit - 1) (bits_u256 target)

unfoldable pub scale : ConsensusParams → ℕ → ℕ → ℕ → Result DifficultyError ℕ
scale p target timespan target_timespan =
    if needs_shift p target
    then (mul_u256 (target / 2) timespan >>= λ m. ok (shift_left (m / target_timespan) 1))
    else (mul_u256 target timespan >>= λ m. ok (m / target_timespan))

-- The new target for a clamped timespan, as cip01.rs, cip02.rs and cip03.rs compute it.
unfoldable pub retarget : ConsensusParams → ℕ → ℕ → ℕ → Result DifficultyError ℕ
retarget p parent_bits timespan target_timespan =
    scale p (target_of parent_bits) timespan target_timespan >>= λ t.
    ok (target_to_compact (at_most p.pow_limit t))

-- The retarget of cip01.rs and cip02.rs, which differ in the timespan.
unfoldable pub retarget_at_boundary :
    ConsensusParams → ℕ → ℕ → ℕ → ChainLookup → Result DifficultyError ℕ
retarget_at_boundary p interval target_timespan height chain =
    let parent_height = height - 1 in
    let back = if height == interval then interval - 1 else interval in
    lookup_header chain parent_height >>= λ (parent_timestamp, parent_bits).
    if not (height % interval == 0)
    then ok parent_bits
    else (lookup_header chain (sub_u32 parent_height back) >>= λ (first_timestamp, first_bits).
        retarget p parent_bits
          (clamp (pos parent_timestamp -ℤ pos first_timestamp) (target_timespan / 4)
            (target_timespan * 4))
          target_timespan)

unfoldable pub cip01_next_work : ℕ → ChainLookup → ConsensusParams → Result DifficultyError ℕ
cip01_next_work height chain p =
    retarget_at_boundary p (difficulty_adjustment_interval_v1 p) p.pow_target_timespan_v1 height
      chain

unfoldable pub cip02_next_work : ℕ → ChainLookup → ConsensusParams → Result DifficultyError ℕ
cip02_next_work height chain p =
    retarget_at_boundary p (difficulty_adjustment_interval_v2 p) p.pow_target_timespan_v2 height
      chain

unfoldable pub cip03_next_work : ℕ → ChainLookup → ConsensusParams → Result DifficultyError ℕ
cip03_next_work height chain p =
    let parent_height = height - 1 in
    lookup_header chain parent_height >>= λ (parent_timestamp, parent_bits).
    lookup_header chain (parent_height - difficulty_adjustment_interval_v2 p)
    >>= λ (first_timestamp, first_bits).
        retarget p parent_bits
          (clamp (pos parent_timestamp -ℤ pos first_timestamp)
            (p.pow_target_timespan_v2 * 100 / 112) (p.pow_target_timespan_v2 * 112 / 100))
          p.pow_target_timespan_v2

abbrev pub min_difficulty_compact : ℕ
min_difficulty_compact = 0x1e0f_ffff

abbrev pub in_window : ℕ → Bool
in_window seconds = leb seconds 14 || (leb 30 seconds && leb seconds 44)

-- The path of cip05.rs within the window. It has no shift.
unfoldable pub digishield : ConsensusParams → ℕ → ℕ → Result DifficultyError ℕ
digishield p parent_bits timespan = mul_u256 (target_of parent_bits) timespan >>= λ m.
    let compact = target_to_compact (at_most p.pow_limit (m / p.pow_target_spacing)) in
    ok (if ltb min_difficulty_compact compact then min_difficulty_compact else compact)

-- Cip04 computes with floating point numbers, and is a parameter.
unfoldable pub cip05_next_work :
    (ℕ → ChainLookup → ConsensusParams → Result DifficultyError ℕ)
    → ℕ
    → ChainLookup
    → ConsensusParams
    → Result DifficultyError ℕ
cip05_next_work cip04 height chain p =
    let parent_height = height - 1 in
    lookup_header chain parent_height >>= λ (parent_timestamp, parent_bits).
    if not (in_window (parent_timestamp % 60))
    then cip04 height chain p
    else (lookup_header chain (sub_u32 parent_height 1) >>= λ (prev_timestamp, prev_bits).
        digishield p parent_bits (
          clamp (pos parent_timestamp -ℤ pos prev_timestamp)
            (p.pow_target_spacing - p.pow_target_spacing / 4)
            (p.pow_target_spacing + p.pow_target_spacing / 2)))
