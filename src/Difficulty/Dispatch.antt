-- ===== src/Difficulty/Dispatch.antt =====
-- difficulty/mod.rs: `get_next_work_required`.
use ironcat.Base.{ℕ, ◌-◌, ◌==◌, ltb, if◌then◌else◌}
use ironcat.Base.Result.{Result, ok}
use ironcat.Difficulty.Compact.{target_to_compact}
use ironcat.Difficulty.Params.{ConsensusParams, ChainLookup, DifficultyError}
use ironcat.Difficulty.Retarget.{cip01_next_work, cip02_next_work, cip03_next_work, cip05_next_work}
use ironcat.Difficulty.Lwma.{cip06_next_work}

unfoldable pub get_next_work_required :
    (ℕ → ChainLookup → ConsensusParams → Result DifficultyError ℕ)
    → ℕ
    → ChainLookup
    → ConsensusParams
    → Result DifficultyError ℕ
get_next_work_required cip04 height chain p =
    let parent_height = height - 1 in
    if height == 0
    then ok (target_to_compact p.pow_limit)
    else (if ltb parent_height p.cip01_height
        then cip01_next_work height chain p
        else (if parent_height == p.cip01_height
            then ok 0x1c0f_fff0
            else (if ltb parent_height p.cip02_height
                then cip02_next_work height chain p
                else (if ltb parent_height p.cip03_height
                    then cip03_next_work height chain p
                    else (if ltb parent_height p.cip04_height
                        then cip04 height chain p
                        else (if ltb parent_height p.cip05_height
                            then cip05_next_work cip04 height chain p
                            else cip06_next_work height chain p))))))
