-- ===== src/Difficulty/Params.antt =====
-- difficulty/mod.rs: the consensus parameters and the view of the chain.
use ironcat.Base.{ℕ, ◌-◌, ◌/◌, ◌^◌, Option}
use ironcat.Base.Result.{Result, ok_or}

-- The times and the window are positive constants, held as i64.
pub record ConsensusParams : Type 0 where
  pub pow_limit : ℕ
  pub pow_target_spacing : ℕ
  pub pow_target_timespan_v1 : ℕ
  pub pow_target_timespan_v2 : ℕ
  pub lwma_averaging_window : ℕ
  pub cip01_height : ℕ
  pub cip02_height : ℕ
  pub cip03_height : ℕ
  pub cip04_height : ℕ
  pub cip05_height : ℕ

abbrev pub mainnet : ConsensusParams
mainnet = record {
  pow_limit = 2 ^ 236 - 1;
  pow_target_spacing = 600;
  pow_target_timespan_v1 = 1209600;
  pow_target_timespan_v2 = 21600;
  lwma_averaging_window = 45;
  cip01_height = 20289;
  cip02_height = 21346;
  cip03_height = 27260;
  cip04_height = 46331;
  cip05_height = 397000;
}

unfoldable pub difficulty_adjustment_interval_v1 : ConsensusParams → ℕ
difficulty_adjustment_interval_v1 p = p.pow_target_timespan_v1 / p.pow_target_spacing

unfoldable pub difficulty_adjustment_interval_v2 : ConsensusParams → ℕ
difficulty_adjustment_interval_v2 p = p.pow_target_timespan_v2 / p.pow_target_spacing

-- `ChainLookup::header_at`: the timestamp and the bits of the block at a height.
abbrev pub ChainLookup : Type 0
ChainLookup = ℕ → Option (ℕ × ℕ)

-- An arithmetic operation of `U256` that overflows panics.
pub data DifficultyError : Type 0 where
  missing_header u256_overflow : DifficultyError

unfoldable pub lookup_header : ChainLookup → ℕ → Result DifficultyError (ℕ × ℕ)
lookup_header chain height = ok_or (chain height) missing_header
