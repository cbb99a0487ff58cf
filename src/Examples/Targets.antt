-- ===== src/Examples/Targets.antt =====
-- Retargets of the easiest target and of a harder one.
use ironcat.Base.{◌*◌, ◌/◌, ◌^◌, ◌<◌, ◌≤◌, ◌≡◌, arith}
use ironcat.Base.Result.{ok, err}
use ironcat.Difficulty.Compact.{target_of, word_of, shift_left, target_to_compact}
use ironcat.Difficulty.Params.{mainnet, u256_overflow}
use ironcat.Difficulty.Retarget.{at_most, retarget}
use ironcat.Difficulty.Retarget.Bounds.{retarget-overflow, retarget-exact}

easy : 2 ^ 235 ≤ target_of 0x1e0f_fff0
unfolding target_of word_of shift_left
easy = omega arith

hard : target_of 0x1c0f_fff0 < 2 ^ 233
unfolding target_of word_of shift_left
hard = omega arith

retarget-overflow_example : retarget mainnet 0x1e0f_fff0 4838400 1209600 ≡ err u256_overflow
retarget-overflow_example = retarget-overflow 0x1e0f_fff0 4838400 1209600 easy (omega arith)

retarget-exact_example :
    retarget mainnet 0x1c0f_fff0 604800 1209600
    ≡ ok (target_to_compact (at_most mainnet.pow_limit (target_of 0x1c0f_fff0 * 604800 / 1209600)))
retarget-exact_example = retarget-exact 0x1c0f_fff0 604800 1209600 hard (omega arith)
