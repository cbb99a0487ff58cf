-- ===== src/Difficulty/Lwma.antt =====
-- difficulty/cip06.rs: the weighted average of the last blocks.
use ironcat.Base.{ℕ, zero, suc, ◌+◌, ◌-◌, ◌*◌, ◌/◌, min, ltb, if◌then◌else◌}
use ironcat.Base.Result.{Result, ok, err, ◌>>=◌}
use ironcat.Difficulty.Compact.{u256_size, target_of, target_to_compact}
use ironcat.Difficulty.Params.{
  ConsensusParams, ChainLookup, DifficultyError, u256_overflow, lookup_header,
}
use ironcat.Difficulty.Retarget.{mul_u256, at_most}

-- What the loop carries: the previous timestamp, the weighted sum, the averaged target, and the
-- weight of the last block.
pub record Window : Type 0 where
  pub previous_timestamp : ℕ
  pub sum_weighted_solvetimes : ℕ
  pub avg_target : ℕ
  pub weight : ℕ

-- A timestamp that does not advance counts as one second later.
abbrev pub this_timestamp : ℕ → ℕ → ℕ
this_timestamp block_time previous = if ltb previous block_time then block_time else suc previous

unfoldable pub add_u256 : ℕ → ℕ → Result DifficultyError ℕ
add_u256 a b = if ltb (a + b) u256_size then ok (a + b) else err u256_overflow

-- One block; `t` is the spacing and `nk` the divisor N * k.
unfoldable pub weigh : ℕ → ℕ → ℕ → ℕ → Window → Result DifficultyError Window
weigh t nk timestamp bits w =
    let now = this_timestamp timestamp w.previous_timestamp in
    let solvetime = min (now - w.previous_timestamp) (6 * t) in
    add_u256 w.avg_target (target_of bits / nk) >>= λ avg. ok (record {
      previous_timestamp = now;
      sum_weighted_solvetimes = w.sum_weighted_solvetimes + solvetime * suc w.weight;
      avg_target = avg;
      weight = suc w.weight;
    })

-- The next `n` blocks from height `h` on.
unfoldable pub weigh_blocks : ℕ → ℕ → ChainLookup → ℕ → ℕ → Window → Result DifficultyError Window
weigh_blocks t nk chain zero h w = ok w
weigh_blocks t nk chain (suc n) h w = lookup_header chain h >>= λ (timestamp, bits).
    weigh t nk timestamp bits w >>= λ w'. weigh_blocks t nk chain n (suc h) w'

unfoldable pub cip06_next_work : ℕ → ChainLookup → ConsensusParams → Result DifficultyError ℕ
cip06_next_work height chain p =
    let parent_height = height - 1 in
    let t = p.pow_target_spacing in
    let n = p.lwma_averaging_window in
    let k = n * (n + 1) * t / 2 in
    if ltb parent_height n
    then ok (target_to_compact p.pow_limit)
    else (lookup_header chain (parent_height - n) >>= λ (anchor_timestamp, anchor_bits).
        weigh_blocks t (n * k) chain n (parent_height - n + 1) (record {
          previous_timestamp = anchor_timestamp;
          sum_weighted_solvetimes = 0;
          avg_target = 0;
          weight = 0;
        })
        >>= λ w. mul_u256 w.avg_target w.sum_weighted_solvetimes >>= λ next_target.
            ok (target_to_compact (at_most p.pow_limit next_target)))
