-- ===== src/Validation/Subsidy.antt =====
-- validation/subsidy.rs: the block reward. Amounts are catoshis.
pub mod Supply
use ironcat.Base.{ℕ, zero, suc, ◌+◌, ◌*◌, ◌/◌, ◌^◌, leb, if◌then◌else◌}
use ironcat.Base.Int.{ℤ, pos}

abbrev pub coin : ℕ
coin = 100000000

abbrev pub max_money : ℕ
max_money = 21000000 * coin

abbrev pub halving_interval : ℕ
halving_interval = 210000

abbrev pub initial_subsidy : ℕ
initial_subsidy = 50 * coin

-- `INITIAL_SUBSIDY >> halvings`, for a shift below the width.
unfoldable pub halved : ℕ → ℕ
halved halvings = if leb 64 halvings then 0 else initial_subsidy / 2 ^ halvings

unfoldable pub get_block_subsidy : ℕ → ℤ
get_block_subsidy height = pos (halved (height / halving_interval))
