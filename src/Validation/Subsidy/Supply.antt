-- ===== src/Validation/Subsidy/Supply.antt =====
-- The rewards of a whole chain stay within the supply.
use ironcat.Base.{
  ℕ, zero, suc, ◌+◌, ◌-◌, ◌*◌, ◌/◌, ◌%◌, ◌^◌, ◌≤◌, ◌≡◌, ◌==◌, arith, Bool-cases, inl, inr,
}
use ironcat.Base.Int.{to_ℕ, ◌≤ℤ◌}
use ironcat.Validation.Subsidy.{max_money, halving_interval, halved, get_block_subsidy}
use native.Mathlib.Nat.{pow-suc, div-div-eq-div-mul, add-zero, add-suc}

-- What the blocks below a height pay together.
unfoldable pub total_subsidy : ℕ → ℕ
total_subsidy zero = 0
total_subsidy (suc n) = total_subsidy n + to_ℕ (get_block_subsidy n)

div_halves : (x p : ℕ) → 2 * (x / (p * 2)) ≤ x / p
div_halves x p = rw (← div-div-eq-div-mul) (omega arith)

halved-suc : (k : ℕ) → 2 * halved (suc k) ≤ halved k
unfolding halved
halved-suc k = ground (arith, pow-suc 2 k, div_halves 5000000000 (2 ^ k))

-- What is paid, with what this era can still pay and as much again, is within the supply.
era_bound :
    (n : ℕ)
    → total_subsidy n
        + (halving_interval - n % halving_interval) * halved (n / halving_interval)
        + halving_interval * halved (n / halving_interval)
      ≤ max_money
unfolding total_subsidy get_block_subsidy
era_bound zero = unfold halved in omega arith
era_bound (suc n) = elim (Bool-cases (suc n % halving_interval == 0)) [
  | inl turn ↦
      let q : suc n / halving_interval ≡ suc (n / halving_interval) = ground arith in
      let r : suc n % halving_interval ≡ 0 = ground arith in
      let left : halving_interval - n % halving_interval ≡ 1 = ground arith in
      rw (q, r) (omega (arith, halved-suc (n / halving_interval), rw left at (era_bound n)))
  | inr same ↦
      let q : suc n / halving_interval ≡ n / halving_interval = ground arith in
      let left : halving_interval - n % halving_interval
          ≡ halving_interval - suc n % halving_interval + 1 =
        ground arith in
      rw q (omega (arith, rw left at (era_bound n)))
]

halved_antitone : (k d : ℕ) → halved (k + d) ≤ halved k
halved_antitone k zero = rw add-zero (omega arith)
halved_antitone k (suc d) = rw add-suc (omega (arith, halved-suc (k + d), halved_antitone k d))

-- Whatever the height, the rewards of all blocks below it are at most MAX_MONEY.
pub total_subsidy-le-max_money : (n : ℕ) → total_subsidy n ≤ max_money
total_subsidy-le-max_money n = omega (arith, era_bound n)

-- A later block never pays more than an earlier one.
pub get_block_subsidy_antitone : (a b : ℕ) → a ≤ b → get_block_subsidy b ≤ℤ get_block_subsidy a
unfolding get_block_subsidy
get_block_subsidy_antitone a b h =
    let k = a / halving_interval in
    let d = b / halving_interval - k in
    let e : b / halving_interval ≡ k + d = omega arith in rw e (omega (arith, halved_antitone k d))
